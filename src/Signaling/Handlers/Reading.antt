-- ===== src/Signaling/Handlers/Reading.antt =====
-- One read in the middle of a request, by `_read_conn` of
-- xrtc_server/src/server/signaling_worker.cpp.
pub mod OneRead
use dcj_rtc.Prelude.{
  ℕ, suc, ℤ, pos, eq_ℤ, ◌+◌, ◌^◌, ◌<◌, ◌≡◌, ◌≢◌, refl, sym, ◌∙◌, none, some, Bytes, List, [], ◌∷◌,
  ◌++◌, Outcome, ok, ◌>>=◌, get_or, length, take, drop, arith, lt→ltb, length-append, append_assoc,
  lt-length_of_get_or, ap, subst, Bool, zero, if◌then◌else◌,
}
use dcj_rtc.Base.EventLoop.{Libev}
use dcj_rtc.Base.Socket.{received, sock_read_data}
use dcj_rtc.Rtc.Msg.{RtcMsg}
use dcj_rtc.Wire.{xhead_size, head_body_len}
use dcj_rtc.Signaling.Conn.{TcpConnection}
use dcj_rtc.Signaling.Framing.{short_connection, process_query_buffer}
use dcj_rtc.Signaling.Framing.Stream.{
  InPhase, awaits_head, awaits_body, answered, served, head_body_len-append,
}
use dcj_rtc.Signaling.Framing.Received.{Received, goes_on, fails, faults, hangs, read-Received}
use dcj_rtc.Signaling.Framing.Kept.{SameConn, process_query_buffer-SameConn}
use dcj_rtc.Signaling.Handlers.Reading.OneRead.{
  GoesOn, goes, Received-GoesOn, phase_bounds, read-append-rest, sock_read_data-clip,
}
use dcj_rtc.Signaling.Json.{JsonCpp}
use dcj_rtc.Signaling.Request.{Caller, process_request}
use dcj_rtc.Signaling.Worker.{Worker, update, deref, entry, close_conn}
use dcj_rtc.Signaling.Table.{IsServed, IsTable}
use dcj_rtc.Signaling.Table.Update.{update-IsTable}
use dcj_rtc.Signaling.Handlers.{clip, after_read, read_conn}

-- What the handler of a connection's requests knows.
abbrev pub caller : (self : ℕ) (notify_ok : List RtcMsg → Bool) (p fd : ℕ) → Caller
caller self notify_ok p fd = record { worker = self; conn = p; fd = fd; notify_ok = notify_ok }

-- How many bytes the next read of `fd` asks for.
abbrev pub asked : {W T : Type 0} (fd : ℕ) → Worker W T → ℕ
asked fd w = elim (entry w fd) [
  | none ↦ 0
  | some p ↦ elim (w.heap p) [ none ↦ 0 | some c ↦ c.bytes_expected ]
]

module _ {W T V : Type 0} (ev : Libev W T) (json : JsonCpp V) (self : ℕ)
    (notify_ok : List RtcMsg → Bool) where
  -- The connection of `fd` has the bytes `b`, on which the queue went from `q0` to what it is.
  pub record IsReading (fd p : ℕ) (b : Bytes) (q0 : List RtcMsg) (w : Worker W T)
      (c : TcpConnection W T) : Type 0 where
    pub table : IsTable ev w
    pub owned : get_or w.conns fd 0 ≡ p
    pub not_null : p ≢ 0
    pub alive : w.heap p ≡ some c
    pub buffer : c.querybuf ≡ b
    pub phase : InPhase c b
    pub queue :
        served (process_request json (caller self notify_ok p fd)) b q0 ≡ ok (pos 0, w.queued)

  pub IsReading-IsServed :
      {fd p : ℕ} {b : Bytes} {q0 : List RtcMsg} {w : Worker W T} {c : TcpConnection W T}
      → IsReading fd p b q0 w c
      → IsServed ev c fd
  IsReading-IsServed {fd} {p} {b} {q0} {w} {c} r =
      let (c', h, s) = r.table.entries fd (λ e. r.not_null (sym r.owned ∙ e)) in
      let same : c' ≡ c = ground (arith, r.owned, r.alive) in rw same at s

  -- What `_read_conn` does with the result of the loop.
  abbrev finish : Worker W T → ℕ → ℤ × TcpConnection W T × List RtcMsg → Outcome (Worker W T)
  finish w p (ret, c, queued) =
      if eq_ℤ ret (pos 0)
      then ok (record (update w p c) { queued = queued })
      else close_conn ev p (record (update w p c) { queued = queued })

  -- The read went well: the connection has the bytes `b`, and only the reader's fields changed.
  abbrev pub Reads :
      (fd p : ℕ) (b : Bytes) (q0 : List RtcMsg) (w : Worker W T) (c : TcpConnection W T)
      → Outcome (Worker W T)
      → Type 0
  Reads fd p b q0 w c run =
      (w' : Worker W T) × (c' : TcpConnection W T) × (run ≡ ok w')
      × IsReading fd p b q0 w' c'
      × (c'.reply_msgs ≡ c.reply_msgs)
      × (w'.q_rtc_msg ≡ w.q_rtc_msg)

  finish-Reads :
      (fd p : ℕ) (b b0 : Bytes) (q0 : List RtcMsg) (w : Worker W T) (c c0 : TcpConnection W T)
      {r : Outcome (ℤ × TcpConnection W T × List RtcMsg)}
      → IsReading fd p b0 q0 w c
      → IsServed ev c fd
      → c0.fd ≡ c.fd
      → c0.io_watcher ≡ c.io_watcher
      → c0.timer_watcher ≡ c.timer_watcher
      → c0.reply_msgs ≡ c.reply_msgs
      → ((c1 : TcpConnection W T) (q : List RtcMsg) → r ≡ ok (pos 0, c1, q) → SameConn c0 c1)
      → GoesOn (λ x. served (process_request json (caller self notify_ok p fd)) x q0) b r
      → Reads fd p b q0 w c (r >>= finish w p)
  finish-Reads fd p b b0 q0 w c c0 i s same_fd io tm rp keeps (goes c1 q e buf ph sv) =
      let sm = keeps c1 q e in
      let s1 : IsServed ev c1 fd = record {
        fd = sm.fd ∙ (same_fd ∙ s.fd);
        active = rw (sm.io_watcher, io) s.active;
        reads = rw (sm.io_watcher, io) s.reads;
        writes = rw (sm.io_watcher, io, sm.reply_msgs, rp) s.writes;
        timer = rw (sm.timer_watcher, tm) s.timer;
        phase = rw buf ph;
      } in
      let v1 = update-IsTable ev w fd p c c1 i.alive s.fd s1 i.table in
      let i1 : IsReading fd p b q0 (record (update w p c1) { queued = q }) c1 = record {
        table = record { entries = v1.entries; listed = v1.listed };
        owned = i.owned;
        not_null = i.not_null;
        alive = ground arith;
        buffer = buf;
        phase = ph;
        queue = sv;
      } in
      (record (update w p c1) { queued = q }, c1, rw e refl, i1, sm.reply_msgs ∙ rp, refl)

  after_read-Reads :
      (now fd p : ℕ) (b d rest : Bytes) (q0 q1 : List RtcMsg) (w : Worker W T)
      (c : TcpConnection W T)
      → IsReading fd p b q0 w c
      → served (process_request json (caller self notify_ok p fd)) ((b ++ d) ++ rest) q0
        ≡ ok (pos 0, q1)
      → length (b ++ d) < short_connection
      → Reads fd p (b ++ d) q0 w c (after_read ev json 3 self notify_ok now fd p c (some d) w)
  unfolding after_read
  after_read-Reads now fd p b d rest q0 q1 w c i whole small =
      let s = IsReading-IsServed i in
      let c0 = record c { last_active_time = now; querybuf = c.querybuf ++ d } in
      let request = process_request json (caller self notify_ok p fd) in
      subst
        (λ x. Reads fd p (b ++ d) q0 w c (
          process_query_buffer (process_request json (caller self notify_ok p x)) 3 c0 w.queued
          >>= finish w p))
        (sym s.fd)
        (finish-Reads fd p (b ++ d) b q0 w c c0 i s refl refl refl refl
          (λ c1 q. process_query_buffer-SameConn request 3 c0 c1 w.queued q (pos 0))
          (Received-GoesOn (λ x. served request x q0) (b ++ d) rest q1
            (read-Received request c0 b d w.queued q0 i.phase (ap (λ x. x ++ d) i.buffer) i.queue
              small)
            whole))

  pub IsReading-entry :
      {fd p : ℕ} {b : Bytes} {q0 : List RtcMsg} {w : Worker W T} {c : TcpConnection W T}
      → IsReading fd p b q0 w c
      → (entry w fd ≡ some p) × (asked fd w ≡ c.bytes_expected)
  IsReading-entry {fd} {p} {b} {q0} {w} {c} i =
      let inside = lt-length_of_get_or w.conns fd 0 (λ e. i.not_null (sym i.owned ∙ e)) in
      let e : entry w fd ≡ some p = ground (arith, i.owned, i.not_null) in
      (e, rw (e, asked, i.alive) refl)

  pub read_conn-Reads :
      (now fd p n x : ℕ) (b xs : Bytes) (q0 q1 : List RtcMsg) (w : Worker W T)
      (c : TcpConnection W T)
      → IsReading fd p b q0 w c
      → served (process_request json (caller self notify_ok p fd)) (b ++ (x ∷ xs)) q0
        ≡ ok (pos 0, q1)
      → length (b ++ (x ∷ xs)) ≡ xhead_size + head_body_len (b ++ (x ∷ xs))
      → length (b ++ (x ∷ xs)) < short_connection
      → (d rest : Bytes) → take c.bytes_expected (take (suc n) (x ∷ xs)) ≡ d
      → d ++ rest ≡ x ∷ xs
      → Reads fd p
          (b ++ d)
          q0
          w
          c
          (read_conn ev json 3 self notify_ok (received (take (suc n) (x ∷ xs))) now fd w)
        × (0 < length d)
  unfolding read_conn deref
  read_conn-Reads now fd p n x b xs q0 q1 w c i whole exact small d rest de split =
      let (some_asked, few) = phase_bounds c b (x ∷ xs) i.phase (omega arith) exact small in
      let (got, some_read) = sock_read_data-clip c.bytes_expected n x xs some_asked in
      let (e, _) = IsReading-entry i in
      let joined : (b ++ d) ++ rest ≡ b ++ (x ∷ xs) =
        append_assoc b d rest ∙ ap (λ t. b ++ t) split in
      let room : length (b ++ d) < short_connection =
        omega (arith, ap length joined, length-append (b ++ d) rest) in
      let (w', c', run, i', replies, q) =
        after_read-Reads now fd p b d rest q0 q1 w c i (rw joined whole) room in
      (
        (
          w',
          c',
          rw (e, read_conn, i.alive, deref, lt→ltb c.bytes_expected (2 ^ 31) (omega arith), got, de)
              run,
          i',
          replies,
          q,
        ),
        rw de at some_read,
      )
