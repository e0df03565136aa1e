-- ===== src/Signaling/Handlers/Read.antt =====
-- The read handler keeps the table.
use dcj_rtc.Prelude.{
  ℕ, ℤ, pos, minus_one, eq_ℤ, ◌+◌, ◌^◌, ◌<◌, ◌≤◌, Bool, ◌≡◌, refl, ◌∙◌, Option, none, some, Bytes,
  List, ◌++◌, Outcome, ok, ◌>>=◌, inl, inr, length, arith, lt→ltb, if◌then◌else◌, length-append,
  length-take, codes, Option-cases, Bool-cases, as_int32,
}
use dcj_rtc.Base.EventLoop.{Libev}
use dcj_rtc.Base.Socket.{ReadAnswer, received, read_error, sock_read_data}
use dcj_rtc.Rtc.Msg.{RtcMsg, cmdno_push}
use dcj_rtc.Wire.{head_log_id}
use dcj_rtc.Signaling.Conn.{TcpConnection}
use dcj_rtc.Signaling.Framing.{short_connection}
use dcj_rtc.Signaling.Framing.Kept.{
  SameConn, process_query_buffer-SameConn, Total, Kept, goes_on, stops, read-Kept,
}
use dcj_rtc.Signaling.Json.{JsonCpp, ReturnsAnyway}
use dcj_rtc.Signaling.Request.{Caller, process_request, process_push}
use dcj_rtc.Signaling.Worker.{Worker, update, deref, close_conn, entry}
use dcj_rtc.Signaling.Table.{IsServed, IsTable}
use dcj_rtc.Signaling.Table.Close.{without_conn}
use dcj_rtc.Signaling.Table.Update.{update-IsTable}
use dcj_rtc.Signaling.Handlers.{clip, after_read, read_conn}
use dcj_rtc.Signaling.Handlers.Keep.{entry_lem, close-update}

module _ {V : Type 0} (json : JsonCpp V) (returns : ReturnsAnyway json) (k : Caller) where
  process_request-Total : Total (process_request json k)
  unfolding process_request
  process_request-Total h b s = elim (Option-cases (json.parse b)) [
    | inl e ↦ ((minus_one, s), rw (e, process_request) refl)
    | inr (root, e) ↦ elim (Option-cases (json.as_int root (codes "cmdno"))) [
      | inl e' ↦ ((minus_one, s), rw (e, process_request, e') refl)
      | inr (cmdno, e') ↦ elim (Bool-cases (eq_ℤ cmdno cmdno_push)) [
        | inl push ↦ (
          process_push json k root (as_int32 (head_log_id h)) s,
          rw (e, process_request, e', push) refl,
        )
        | inr other ↦ ((returns.0, s), rw (e, process_request, e', other, returns.1) refl)
      ]
    ]
  ]

-- A read returns no more than was asked for.
sock_read_data_le :
    (answer : ReadAnswer) (n : ℕ) (b : Bytes)
    → sock_read_data (clip n answer) ≡ some b
    → length b ≤ n
unfolding sock_read_data
sock_read_data_le (read_error errno) n b e = ground arith
sock_read_data_le (received bytes) n b e = ground (arith, length-take n bytes)

module _ {W T V : Type 0} (ev : Libev W T) (json : JsonCpp V) (returns : ReturnsAnyway json)
    (self : ℕ) (notify_ok : List RtcMsg → Bool) where
  -- What follows the loop.
  abbrev after_loop : Worker W T → ℕ → ℤ × TcpConnection W T × List RtcMsg → Outcome (Worker W T)
  after_loop w p (ret, c, queued) =
      if eq_ℤ ret (pos 0)
      then ok (record (update w p c) { queued = queued })
      else close_conn ev p (record (update w p c) { queued = queued })

  after_loop-IsTable :
      (w : Worker W T) (i p : ℕ) (c c' : TcpConnection W T) (b : Bytes)
      {r : Outcome (ℤ × TcpConnection W T × List RtcMsg)}
      → IsTable ev w
      → w.heap p ≡ some c
      → IsServed ev c i
      → c'.fd ≡ c.fd
      → c'.io_watcher ≡ c.io_watcher
      → c'.timer_watcher ≡ c.timer_watcher
      → c'.reply_msgs ≡ c.reply_msgs
      → ((ret : ℤ) (c1 : TcpConnection W T) (q : List RtcMsg)
          → r ≡ ok (ret, c1, q)
          → SameConn c' c1)
      → Kept b r
      → (w' : Worker W T) × ((r >>= after_loop w p) ≡ ok w') × IsTable ev w'
  after_loop-IsTable w i p c c' b v h s fd io tm rp same (goes_on c1 q e ph) =
      let sm = same (pos 0) c1 q e in
      let s1 : IsServed ev c1 i = record {
        fd = sm.fd ∙ (fd ∙ s.fd);
        active = rw (sm.io_watcher, io) s.active;
        reads = rw (sm.io_watcher, io) s.reads;
        writes = rw (sm.io_watcher, io, sm.reply_msgs, rp) s.writes;
        timer = rw (sm.timer_watcher, tm) s.timer;
        phase = ph;
      } in
      let v1 = update-IsTable ev w i p c c1 h s.fd s1 v in
      (
        record (update w p c1) { queued = q },
        rw e refl,
        record { entries = v1.entries; listed = v1.listed },
      )
  after_loop-IsTable w i p c c' b v h s fd io tm rp same (stops c1 q e) =
      let sm = same minus_one c1 q e in
      let v' : IsTable ev (record w { queued = q }) = record {
        entries = v.entries;
        listed = v.listed;
      } in
      let r = close-update ev (record w { queued = q }) i p c c1 v' h s.fd (sm.fd ∙ (fd ∙ s.fd)) in
      (without_conn ev (record w { queued = q }) i p, rw e r.0, r.1)

  after_read-IsTable :
      (now fd p : ℕ) (c : TcpConnection W T) (bytes : Option Bytes) (w : Worker W T)
      → IsTable ev w
      → w.heap p ≡ some c
      → IsServed ev c fd
      → ((b : Bytes) → bytes ≡ some b → length (c.querybuf ++ b) < short_connection)
      → (w' : Worker W T) × (after_read ev json 3 self notify_ok now fd p c bytes w ≡ ok w')
        × IsTable ev w'
  unfolding after_read
  after_read-IsTable now fd p c none w v h s small =
      let r = close-update ev w fd p c (record c { last_active_time = now }) v h s.fd s.fd in
      (without_conn ev w fd p, r.0, r.1)
  after_read-IsTable now fd p c (some b) w v h s small =
      let k : Caller = record { worker = self; conn = p; fd = c.fd; notify_ok = notify_ok } in
      let c' = record c { last_active_time = now; querybuf = c.querybuf ++ b } in
      after_loop-IsTable w fd p c c' (c.querybuf ++ b) v h s refl refl refl refl
        (λ ret c1 q. process_query_buffer-SameConn (process_request json k) 3 c' c1 w.queued q ret)
        (read-Kept (process_request json k) (process_request-Total json returns k) c' c.querybuf b
          w.queued s.phase refl (small b refl))

  pub read_conn-IsTable :
      (answer : ReadAnswer) (now fd : ℕ) (w : Worker W T)
      → IsTable ev w
      → ((p : ℕ) (c : TcpConnection W T)
          → entry w fd ≡ some p
          → w.heap p ≡ some c
          → length c.querybuf + c.bytes_expected < short_connection)
      → (w' : Worker W T) × (read_conn ev json 3 self notify_ok answer now fd w ≡ ok w')
        × IsTable ev w'
  unfolding read_conn deref
  read_conn-IsTable answer now fd w v small = elim (Option-cases (entry w fd)) [
    | inl e ↦ (w, rw (e, read_conn) refl, v)
    | inr (p, e) ↦
        let (c, own, ne, h, s) = entry_lem ev w fd p v e in
        let room = small p c e h in
        let (w', r, v') =
          after_read-IsTable now fd p c (sock_read_data (clip c.bytes_expected answer)) w v h s
            (λ b got. omega (
              arith,
              length-append c.querybuf b,
              sock_read_data_le answer c.bytes_expected b got,
            )) in
        (w', rw (e, read_conn, h, deref, lt→ltb c.bytes_expected (2 ^ 31) (omega arith)) r, v')
  ]
