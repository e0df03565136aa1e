-- ===== src/Signaling/Table/Update.antt =====
-- A connection that a handler changes, and a new one.
use dcj_rtc.Prelude.{
  ℕ, pos, ==-refl, lt→ltb, take_of_length_le, ◌*◌, ◌-◌, ◌<◌, ◌≤◌, true, ◌≡◌, ◌≢◌, refl, ap, ◌∙◌,
  none, some, Bytes, List, ok, inl, inr, get_or, set, length, replicate, arith, get_or-set,
  get_or-append_replicate, length-append, length-replicate, Bool-cases, ◌==◌, ==_iff, leb,
  if◌then◌else◌,
}
use dcj_rtc.Base.EventLoop.{Libev, IsLibev, read_events, start_io_event, start_timer}
use dcj_rtc.Signaling.Conn.{TcpConnection, new_connection}
use dcj_rtc.Signaling.Framing.Stream.{awaits_head}
use dcj_rtc.Signaling.Worker.{
  Worker, store, update, resize, add_conn, watched_connection, NewConnAnswers, settings_ok,
  new_conn,
}
use dcj_rtc.Signaling.Table.{IsServed, IsTable}

module _ {W T : Type 0} (ev : Libev W T) where
  pub update-IsTable :
      (w : Worker W T) (i p : ℕ) (c c' : TcpConnection W T)
      → w.heap p ≡ some c
      → c.fd ≡ i
      → IsServed ev c' i
      → IsTable ev w
      → IsTable ev (update w p c')
  update-IsTable w i p c c' e fd s v = record { entries = ents; listed = lst }
    where
      own : get_or w.conns i 0 ≡ p
      own = ground (arith, v.listed p c e)

      ents :
          (j : ℕ)
          → get_or w.conns j 0 ≢ 0
          → (d : TcpConnection W T) × (store w.heap p (some c') (get_or w.conns j 0) ≡ some d)
            × IsServed ev d j
      ents j h = elim (Bool-cases (get_or w.conns j 0 == p)) [
        | inl hit ↦
            let (d, e', s') = v.entries j h in
            let same : j ≡ i = ground (arith, s'.fd, e', e, fd) in (c', rw hit refl, rw same s)
        | inr miss ↦ let (d, e', s') = v.entries j h in (d, rw miss e', s')
      ]

      lst :
          (q : ℕ) (d : TcpConnection W T)
          → store w.heap p (some c') q ≡ some d
          → (q ≢ 0) × (get_or w.conns d.fd 0 ≡ q)
      lst q d h = ground (arith, own, s.fd, v.listed q d, v.listed p c e)

-- Growing the table keeps every entry.
resize_lem :
    (n : ℕ) (xs : List ℕ)
    → length xs ≤ n
    → (length (resize n xs) ≡ n) × ((j : ℕ) → get_or (resize n xs) j 0 ≡ get_or xs j 0)
resize_lem n xs h = rw (take_of_length_le n xs h) (
  omega (
    arith,
    length-append xs (replicate (n - length xs) 0),
    length-replicate {A = ℕ} (n - length xs) 0,
  ),
  λ j. get_or-append_replicate xs (n - length xs) j 0,
)

-- The table that `_new_conn` writes to.
abbrev grown : ℕ → List ℕ → List ℕ
grown fd conns = if leb (length conns) fd then resize (fd * 2) conns else conns

grown_lem :
    (fd : ℕ) (conns : List ℕ)
    → 0 < fd
    → (fd < length (grown fd conns)) × ((j : ℕ) → get_or (grown fd conns) j 0 ≡ get_or conns j 0)
grown_lem fd conns h = elim (Bool-cases (leb (length conns) fd)) [
  | inl small ↦
      let r = resize_lem (fd * 2) conns (ground arith) in rw small (omega (arith, r.0), r.1)
  | inr large ↦ rw large (ground arith, λ j. refl)
]

module _ {W T : Type 0} (ev : Libev W T) where
  -- The worker with the connection `c` at `p`, entry `fd`.
  abbrev pub with_conn : Worker W T → ℕ → ℕ → TcpConnection W T → Worker W T
  with_conn w fd p c = record w {
    conns = set (grown fd w.conns) fd p;
    heap = store w.heap p (some c);
  }

  add_conn-eq :
      (w : Worker W T) (fd p : ℕ) (c : TcpConnection W T)
      → 0 < fd
      → add_conn ev fd p c w ≡ ok (with_conn w fd p c)
  unfolding add_conn
  add_conn-eq w fd p c h =
      rw (lt→ltb fd (length (grown fd w.conns)) (grown_lem fd w.conns h).0) refl

  with_conn-IsTable :
      (w : Worker W T) (fd p : ℕ) (c : TcpConnection W T)
      → 0 < fd
      → p ≢ 0
      → w.heap p ≡ none
      → get_or w.conns fd 0 ≡ 0
      → IsServed ev c fd
      → IsTable ev w
      → IsTable ev (with_conn w fd p c)
  with_conn-IsTable w fd p c pos_fd ne fresh free s v = record { entries = ents; listed = lst }
    where
      after :
          (j : ℕ)
          → get_or (set (grown fd w.conns) fd p) j 0 ≡ (if fd == j then p else get_or w.conns j 0)
      after j =
          let g = grown_lem fd w.conns pos_fd in
          get_or-set (grown fd w.conns) fd j p 0 g.0
          ∙ ap (λ (x : ℕ). if fd == j then p else x) (g.1 j)

      ents :
          (j : ℕ)
          → get_or (set (grown fd w.conns) fd p) j 0 ≢ 0
          → (d : TcpConnection W T) × (store w.heap p
                (some c)
                (get_or (set (grown fd w.conns) fd p) j 0)
              ≡ some d)
            × IsServed ev d j
      ents j = rw (after j) (λ h. elim (Bool-cases (fd == j)) [
        | inl hit ↦
            let same : fd ≡ j = (==_iff fd j).0 hit in (c, rw (hit, ==-refl p) refl, rw (← same) s)
        | inr miss ↦ let (d, e', s') = v.entries j (rw miss at h) in (d, rw miss (ground arith), s')
      ])

      lst :
          (q : ℕ) (d : TcpConnection W T)
          → store w.heap p (some c) q ≡ some d
          → (q ≢ 0) × (get_or (set (grown fd w.conns) fd p) d.fd 0 ≡ q)
      lst q d h = ground (arith, after d.fd, s.fd, v.listed q d)

module _ {W T : Type 0} (ev : Libev W T) (laws : IsLibev ev) where
  pub watched_connection-IsServed :
      (fd : ℕ) (peer : Bytes × ℕ) (now : ℕ) → IsServed ev (watched_connection ev fd peer now) fd
  unfolding watched_connection new_connection start_io_event start_timer
  watched_connection-IsServed fd (ip, port) now = record {
    fd = refl;
    active = ground (arith, laws.init_idle, laws.active-start (ev.set ev.init fd read_events));
    reads = ground (
      arith,
      laws.init_idle,
      laws.events-start (ev.set ev.init fd read_events),
      laws.events-set ev.init fd read_events,
    );
    writes = ground (
      arith,
      laws.init_idle,
      laws.events-start (ev.set ev.init fd read_events),
      laws.events-set ev.init fd read_events,
    );
    timer = laws.timer_active-again ev.timer_init 100000;
    phase = awaits_head refl refl refl (omega arith);
  }

  -- A connection that the listener hands over is entered under its descriptor, watched for input,
  -- with its timer running; the other entries stay. The descriptor is not 0 and its entry is empty,
  -- the object is at a fresh address, and the system calls succeed.
  pub new_conn-IsTable :
      (w : Worker W T) (fd p now : ℕ) (answers : NewConnAnswers) (peer : Bytes × ℕ)
      → IsTable ev w
      → 0 < fd
      → p ≢ 0
      → w.heap p ≡ none
      → get_or w.conns fd 0 ≡ 0
      → settings_ok answers ≡ true
      → answers.peer ≡ some peer
      → let w' = with_conn ev w fd p (watched_connection ev fd peer now) in
        (new_conn ev (pos fd) answers p now w ≡ ok w')
        × IsTable ev w'
        × ((j : ℕ) → get_or w'.conns j 0 ≡ (if fd == j then p else get_or w.conns j 0))
  unfolding new_conn
  new_conn-IsTable w fd p now answers peer v pos_fd ne fresh free settings pe = (
    rw (settings, pe) (add_conn-eq ev w fd p (watched_connection ev fd peer now) pos_fd),
    with_conn-IsTable ev w fd p _ pos_fd ne fresh free (watched_connection-IsServed fd peer now) v,
    λ j.
        get_or-set (grown fd w.conns) fd j p 0 (grown_lem fd w.conns pos_fd).0
        ∙ ap (λ (x : ℕ). if fd == j then p else x) ((grown_lem fd w.conns pos_fd).1 j),
  )
