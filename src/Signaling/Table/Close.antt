-- ===== src/Signaling/Table/Close.antt =====
-- `_close_conn` of xrtc_server/src/server/signaling_worker.cpp on the table.
use dcj_rtc.Prelude.{
  ℕ, ◌<◌, ◌≡◌, ◌≢◌, none, some, ◌∷◌, ok, get_or, set, length, arith, get_or-set,
  lt-length_of_get_or,
}
use dcj_rtc.Base.EventLoop.{Libev}
use dcj_rtc.Signaling.Conn.{TcpConnection}
use dcj_rtc.Signaling.Worker.{Worker, store, deref, delete_conn, close_conn}
use dcj_rtc.Signaling.Table.{IsServed, IsTable}

module _ {W T : Type 0} (ev : Libev W T) where
  -- The worker less the connection at `p`, entry `i`.
  abbrev pub without_conn : Worker W T → ℕ → ℕ → Worker W T
  without_conn w i p = record w {
    conns = set w.conns i 0;
    heap = store w.heap p none;
    closed = i ∷ i ∷ w.closed;
  }

  pub close_conn-eq :
      (w : Worker W T) (i p : ℕ) (c : TcpConnection W T)
      → w.heap p ≡ some c
      → c.fd ≡ i
      → i < length w.conns
      → close_conn ev p w ≡ ok (without_conn w i p)
  unfolding close_conn deref delete_conn
  close_conn-eq w i p c e fd lt = ground arith

  pub without_conn-IsTable :
      (w : Worker W T) (i p : ℕ) (c : TcpConnection W T)
      → w.heap p ≡ some c
      → c.fd ≡ i
      → IsTable ev w
      → IsTable ev (without_conn w i p)
  without_conn-IsTable w i p c e fd v = record { entries = ents; listed = lst }
    where
      own : get_or w.conns i 0 ≡ p
      own = ground (arith, v.listed p c e)

      inside : i < length w.conns
      inside = lt-length_of_get_or w.conns i 0 (ground (arith, own, v.listed p c e))

      ents :
          (j : ℕ)
          → get_or (set w.conns i 0) j 0 ≢ 0
          → (c' : TcpConnection W T) × (store w.heap p none (get_or (set w.conns i 0) j 0)
              ≡ some c')
            × IsServed ev c' j
      ents j = rw (get_or-set w.conns i j 0 0 inside) (λ h.
          let (c', e', s') = v.entries j (ground arith) in
          (c', ground (arith, own, s'.fd, e, e'), s'))

      lst :
          (q : ℕ) (c' : TcpConnection W T)
          → store w.heap p none q ≡ some c'
          → (q ≢ 0) × (get_or (set w.conns i 0) c'.fd 0 ≡ q)
      lst q c' h = ground (arith, own, get_or-set w.conns i c'.fd 0 0 inside, v.listed q c')

  -- Closing the connection of entry `i` succeeds, empties the entry and frees the object, and leaves
  -- the others as they were. The descriptor is given to `close` twice.
  pub close_conn-IsTable :
      (w : Worker W T) (i : ℕ)
      → IsTable ev w
      → get_or w.conns i 0 ≢ 0
      → (close_conn ev (get_or w.conns i 0) w ≡ ok (without_conn w i (get_or w.conns i 0)))
        × IsTable ev (without_conn w i (get_or w.conns i 0))
  close_conn-IsTable w i v h =
      let (c, e, s) = v.entries i h in
      let inside = lt-length_of_get_or w.conns i 0 h in
      (
        close_conn-eq w i (get_or w.conns i 0) c e s.fd inside,
        without_conn-IsTable w i (get_or w.conns i 0) c e s.fd v,
      )
