-- ===== src/Signaling/Handlers/Keep.antt =====
-- The handlers keep the table.
use dcj_rtc.Prelude.{
  ℕ, zero, suc, ◌≤◌, true, ◌≡◌, ◌≢◌, refl, ap, ◌∙◌, none, some, Bytes, List, [], ◌∷◌, ◌++◌, ok, inl,
  inr, get_or, length, arith, fun_ext, Option-cases, lt-length_of_get_or,
}
use dcj_rtc.Base.EventLoop.{Libev, IsLibev, write_events, stop_io_event}
use dcj_rtc.Base.EventLoop.Interest.{active-start_io_event, active-stop_io_event}
use dcj_rtc.Base.Socket.{WriteAnswer}
use dcj_rtc.Signaling.Conn.{TcpConnection}
use dcj_rtc.Signaling.Worker.{Worker, store, update, deref, close_conn, entry}
use dcj_rtc.Signaling.Table.{pending, IsServed, IsTable}
use dcj_rtc.Signaling.Table.Close.{without_conn, close_conn-eq, without_conn-IsTable}
use dcj_rtc.Signaling.Table.Update.{update-IsTable}
use dcj_rtc.Signaling.Handlers.Write.{rounds, AllProgress, write_loop-ends}
use dcj_rtc.Signaling.Handlers.{WriteEnd, drained, broken, add_reply, finish_write, write_conn}

module _ {W T : Type 0} (ev : Libev W T) where
  -- An entry that a handler finds is a connection in service.
  pub entry_lem :
      (w : Worker W T) (i p : ℕ)
      → IsTable ev w
      → entry w i ≡ some p
      → (c : TcpConnection W T) × (get_or w.conns i 0 ≡ p)
        × (p ≢ 0)
        × (w.heap p ≡ some c)
        × IsServed ev c i
  entry_lem w i p v e =
      let own : get_or w.conns i 0 ≡ p = ground arith in
      let ne : get_or w.conns i 0 ≢ 0 = ground arith in
      let (c, h, s) = v.entries i ne in (c, own, rw own at ne, rw own at h, s)

  -- Closing after the object was changed, whatever was changed but its descriptor.
  pub close-update :
      (w : Worker W T) (i p : ℕ) (c c' : TcpConnection W T)
      → IsTable ev w
      → w.heap p ≡ some c
      → c.fd ≡ i
      → c'.fd ≡ i
      → (close_conn ev p (update w p c') ≡ ok (without_conn ev w i p))
        × IsTable ev (without_conn ev w i p)
  close-update w i p c c' v h fd fd' =
      let own : get_or w.conns i 0 ≡ p = ground (arith, v.listed p c h) in
      let inside = lt-length_of_get_or w.conns i 0 (ground (arith, own, v.listed p c h)) in
      let same : store (store w.heap p (some c')) p none ≡ store w.heap p none =
        fun_ext λ q. ground arith in
      (
        close_conn-eq ev (update w p c') i p c' (ground arith) fd' inside
            ∙ ap (λ g. ok (record (without_conn ev w i p) { heap = g })) same,
        without_conn-IsTable ev w i p c h fd v,
      )

pending-append : (ms : List Bytes) (m : Bytes) → pending (ms ++ (m ∷ [])) ≡ true
pending-append [] m = refl
pending-append (x ∷ ms) m = refl

module _ {W T : Type 0} (ev : Libev W T) (laws : IsLibev ev) where
  -- With no replies left, only input is watched.
  pub drained-IsServed :
      (c : TcpConnection W T) (i now : ℕ)
      → IsServed ev c i
      → IsServed ev
          (record c {
            reply_msgs = [];
            last_active_time = now;
            io_watcher = stop_io_event ev c.io_watcher c.fd write_events;
          })
          i
  drained-IsServed c i now s =
      let e =
        active-stop_io_event ev laws c.io_watcher c.fd write_events s.active
          (λ h. ground (arith, s.reads)) in
      record {
        fd = s.fd;
        active = e.0;
        reads = ground (arith, e.1, s.reads);
        writes = ground (arith, e.1);
        timer = s.timer;
        phase = s.phase;
      }

  pub add_reply-IsServed :
      (c : TcpConnection W T) (i : ℕ) (m : Bytes)
      → IsServed ev c i
      → IsServed ev (add_reply ev c m) i
  unfolding add_reply
  add_reply-IsServed c i m s =
      let e = active-start_io_event ev laws c.io_watcher c.fd write_events s.active in
      record {
        fd = s.fd;
        active = e.0;
        reads = ground (arith, e.1, s.reads);
        writes = ground (arith, e.1, pending-append c.reply_msgs m);
        timer = s.timer;
        phase = s.phase;
      }

-- The answers of `write` are enough for the replies of the connection at `fd`.
abbrev pub Enough : {W T : Type 0} → List WriteAnswer → Worker W T → ℕ → Type 0
Enough {W} {T} answers w fd =
    (p : ℕ) (c : TcpConnection W T)
    → entry w fd ≡ some p
    → w.heap p ≡ some c
    → rounds c.reply_msgs ≤ length answers

module _ {W T : Type 0} (ev : Libev W T) (laws : IsLibev ev) where
  finish_write-IsTable :
      (w : Worker W T) (i p now : ℕ) (c : TcpConnection W T) (e : WriteEnd)
      → IsTable ev w
      → w.heap p ≡ some c
      → IsServed ev c i
      → (w' : Worker W T) × (sent : Bytes) × (finish_write ev now p c w e ≡ ok (w', sent))
        × IsTable ev w'
  unfolding finish_write
  finish_write-IsTable w i p now c (drained sent) v h s = (
    update w p _,
    sent,
    refl,
    update-IsTable ev w i p c _ h s.fd (drained-IsServed ev laws c i now s) v,
  )
  finish_write-IsTable w i p now c (broken left sent) v h s =
      let r = close-update ev w i p c (record c { reply_msgs = left }) v h s.fd s.fd in
      (without_conn ev w i p, sent, rw r.0 refl, r.1)

  -- The write handler returns and keeps the table, if each call of `write` makes
  -- progress and there are answers enough.
  pub write_conn-IsTable :
      (answers : List WriteAnswer) (now fd : ℕ) (w : Worker W T)
      → IsTable ev w
      → AllProgress answers
      → Enough answers w fd
      → (w' : Worker W T) × (sent : Bytes) × (write_conn ev answers now fd w ≡ ok (w', sent))
        × IsTable ev w'
  unfolding write_conn deref
  write_conn-IsTable answers now zero w v p n = (w, [], refl, v)
  write_conn-IsTable answers now (suc fd) w v p n = elim (Option-cases (entry w (suc fd))) [
    | inl e ↦ (w, [], rw (e, write_conn) refl, v)
    | inr (q, e) ↦
        let (c, own, ne, h, s) = entry_lem ev w (suc fd) q v e in
        let (end, l) = write_loop-ends answers c.reply_msgs p (n q c e h) in
        let (w', sent, f, v') = finish_write-IsTable w (suc fd) q now c end v h s in
        (w', sent, rw (e, write_conn, h, deref, l) f, v')
  ]
