-- ===== src/Signaling/Handlers.antt =====
-- The handlers of xrtc_server/src/server/signaling_worker.cpp that read, write and answer.
pub mod Drains
pub mod Keep
pub mod Read
pub mod Reading
pub mod Requests
pub mod Response
pub mod Write
use dcj_rtc.Prelude.{
  ℕ, zero, suc, ◌+◌, ◌^◌, Bool, true, false, ◌||◌, Option, none, some, Bytes, List, [], ◌∷◌, ◌++◌,
  ℤ, pos, negsuc, eq_ℤ, Outcome, ok, fault, out_of_fuel, require, ◌>>=◌, ◌>>◌, ltb, leb, ◌==◌,
  length, get_or, take, codes, if◌then◌else◌,
}
use dcj_rtc.Base.EventLoop.{Libev, Mask, write_events, start_io_event, stop_io_event}
use dcj_rtc.Base.Socket.{
  ReadAnswer, received, read_error, WriteAnswer, sock_read_data, sock_write_data,
}
use dcj_rtc.Wire.{xhead_size, set_body_len}
use dcj_rtc.Rtc.Msg.{RtcMsg, cmdno_push, max_res_buf}
use dcj_rtc.Signaling.Conn.{TcpConnection}
use dcj_rtc.Signaling.Framing.{process_query_buffer}
use dcj_rtc.Signaling.Json.{JsonCpp, number, text}
use dcj_rtc.Signaling.Request.{Caller, process_request}
use dcj_rtc.Signaling.Worker.{Worker, deref, update, close_conn, entry, NewConnAnswers, new_conn}

-- The kernel hands over at most as many bytes as were asked for.
abbrev pub clip : ℕ → ReadAnswer → ReadAnswer
clip n (received bytes) = received (take n bytes)
clip n (read_error errno) = read_error errno

-- How the loop of `_write_conn` ends: all replies gone, or a failed write with those left. The
-- bytes are those that the kernel took, in order.
pub data WriteEnd : Type 0 where
  drained : (sent : Bytes) → WriteEnd
  broken : (left : List Bytes) (sent : Bytes) → WriteEnd

-- The `while` loop of `_write_conn`. Each round makes one call of `write`, whose answers are
-- listed; `out_of_fuel` says that the loop asks for one more. A call starts at `msg.data()` and
-- offers the whole message, whatever `cur_pos` says.
unfoldable pub write_loop : List WriteAnswer → ℕ → List Bytes → Bytes → Outcome WriteEnd
write_loop answers cur_pos [] sent = ok (drained sent)
write_loop [] cur_pos (m ∷ ms) sent = out_of_fuel
write_loop (a ∷ answers) cur_pos (m ∷ ms) sent = elim (sock_write_data a) [
  | none ↦ ok (broken (m ∷ ms) sent)
  | some zero ↦ write_loop answers cur_pos (m ∷ ms) sent
  | some (suc n) ↦ elim (leb (length m) (suc n + cur_pos)) [
    | true ↦ write_loop answers 0 ms (sent ++ take (suc n) m)
    | false ↦ write_loop answers (cur_pos + suc n) (m ∷ ms) (sent ++ take (suc n) m)
  ]
]

-- The connection that a reply is for, by the tests of `_response_server_offer`: the entry of the
-- message's descriptor has to be the message's connection.
unfoldable pub offer_target : {W T : Type 0} → RtcMsg → Worker W T → Option ℕ
offer_target m w = if m.conn == 0 then none else elim m.fd [
  | negsuc n ↦ none
  | pos fd ↦
      if fd == 0 || leb (length w.conns) fd
      then none
      else if get_or w.conns fd 0 == m.conn
      then some m.conn
      else none
]

module _ {V : Type 0} (json : JsonCpp V) where
  -- The body of a reply.
  unfoldable pub response_body : RtcMsg → Bytes
  response_body m =
      if eq_ℤ m.err_no (pos 0)
      then json.write_string (
          (codes "err_no", number m.err_no)
          ∷ (codes "err_msg", text (codes "process sdp success"))
          ∷ (codes "offer", text m.sdp)
          ∷ [])
      else json.write_string (
          (codes "err_no", number m.err_no)
          ∷ (codes "err_msg", text (codes "process sdp error"))
          ∷ (codes "offer", text [])
          ∷ [])

  -- The reply to the request in the buffer. The copies stay inside the two buffers only if the
  -- tests hold.
  unfoldable pub response_msg : {W T : Type 0} → TcpConnection W T → RtcMsg → Outcome Bytes
  unfolding response_body
  response_msg c m = do
    require (leb xhead_size (length c.querybuf))
    let res_body = response_body m
    require (leb (length res_body) max_res_buf)
    ok (set_body_len (take xhead_size c.querybuf) (length res_body) ++ res_body)

module _ {W T : Type 0} (ev : Libev W T) where
  -- `_add_reply`
  unfoldable pub add_reply : TcpConnection W T → Bytes → TcpConnection W T
  add_reply c res_msg = record c {
    reply_msgs = c.reply_msgs ++ (res_msg ∷ []);
    io_watcher = start_io_event ev c.io_watcher c.fd write_events;
  }

  -- After the loop of `_write_conn`.
  unfoldable pub finish_write :
      (now p : ℕ) → TcpConnection W T → Worker W T → WriteEnd → Outcome (Worker W T × Bytes)
  finish_write now p c w (broken left sent) = do
    w' ← close_conn ev p (update w p (record c { reply_msgs = left }))
    ok (w', sent)
  finish_write now p c w (drained sent) = ok (
    update w p (record c {
      reply_msgs = [];
      last_active_time = now;
      io_watcher = stop_io_event ev c.io_watcher c.fd write_events;
    }),
    sent,
  )

  -- `_write_conn`, with the bytes that went to the descriptor.
  unfoldable pub write_conn :
      List WriteAnswer → (now fd : ℕ) → Worker W T → Outcome (Worker W T × Bytes)
  unfolding finish_write
  write_conn answers now zero w = ok (w, [])
  write_conn answers now (suc fd) w = elim (entry w (suc fd)) [
    | none ↦ ok (w, [])
    | some p ↦ do c ← deref w p; e ← write_loop answers 0 c.reply_msgs []; finish_write now p c w e
  ]

  module _ {V : Type 0} (json : JsonCpp V) where
    -- After `read`: the bytes go behind the buffer, and the loop runs on them.
    unfoldable pub after_read :
        (fuel self : ℕ) (notify_ok : List RtcMsg → Bool) (now fd p : ℕ)
        → TcpConnection W T
        → Option Bytes
        → Worker W T
        → Outcome (Worker W T)
    after_read fuel self notify_ok now fd p c none w =
        close_conn ev p (update w p (record c { last_active_time = now }))
    after_read fuel self notify_ok now fd p c (some bytes) w = do
      let k : Caller = record { worker = self; conn = p; fd = c.fd; notify_ok = notify_ok }
      let c' = record c { last_active_time = now; querybuf = c.querybuf ++ bytes }
      (ret, c'', queued) ← process_query_buffer (process_request json k) fuel c' w.queued
      let w' = record (update w p c'') { queued = queued }
      if eq_ℤ ret (pos 0) then ok w' else close_conn ev p w'

    -- `_read_conn`. `read_len` is an `int`: a larger `bytes_expected` makes it negative, and then no
    -- buffer has the room that `read` is told of.
    unfoldable pub read_conn :
        (fuel self : ℕ) (notify_ok : List RtcMsg → Bool)
        → ReadAnswer
        → (now fd : ℕ) → Worker W T
        → Outcome (Worker W T)
    unfolding after_read
    read_conn fuel self notify_ok answer now fd w = elim (entry w fd) [
      | none ↦ ok w
      | some p ↦ do
        c ← deref w p
        require (ltb c.bytes_expected (2 ^ 31))
        after_read fuel self notify_ok now fd p c (sock_read_data (clip c.bytes_expected answer)) w
    ]

    -- `_response_server_offer`; `room` says whether `zmalloc` succeeds.
    unfoldable pub response_server_offer :
        (room : Bool) → RtcMsg → Worker W T → Outcome (Worker W T)
    unfolding response_msg add_reply
    response_server_offer room m w = elim (offer_target m w) [
      | none ↦ ok w
      | some p ↦
          if room
          then (do
            c ← deref w p
            res_msg ← response_msg json c m
            ok (update w p (add_reply c res_msg)))
          else ok w
    ]

    -- `_process_rtc_msg`, which ends without its `return` after a message.
    unfoldable pub process_rtc_msg : (room : Bool) → Worker W T → Outcome (Worker W T)
    unfolding response_server_offer
    process_rtc_msg room w = elim w.q_rtc_msg [
      | [] ↦ ok w
      | m ∷ ms ↦ (do
        let w' = record w { q_rtc_msg = ms }
        w'' ← (if eq_ℤ m.cmdno cmdno_push then response_server_offer room m w' else ok w')
        n ← json.unreturned
        ok w'')
    ]

    -- `_stop`. The pointer to the watcher is deleted and kept: there is none to delete again.
    unfoldable pub stop : Worker W T → Outcome (Worker W T)
    stop w =
        if w.has_thread
        then elim w.pipe_watcher [
          | none ↦ fault
          | some watcher ↦ ok (record w {
            pipe_watcher = none;
            loop_stopped = true;
            closed = w.notify_send_fd ∷ w.notify_recv_fd ∷ w.closed;
          })
        ]
        else ok w

    -- `_process_notify`: `QUIT`, `NEW_CONN`, `RTC_MSG`, and any other number.
    unfoldable pub process_notify :
        ℤ → NewConnAnswers → (fresh now : ℕ) (room : Bool) → Worker W T → Outcome (Worker W T)
    unfolding process_rtc_msg stop
    process_notify (pos zero) answers p now room w = stop w
    process_notify (pos (suc zero)) answers p now room w = elim w.q_conn [
      | [] ↦ ok w
      | fd ∷ fds ↦ new_conn ev fd answers p now (record w { q_conn = fds })
    ]
    process_notify (pos (suc (suc zero))) answers p now room w = process_rtc_msg room w
    process_notify msg answers p now room w = ok w

    -- `conn_io_cb`
    unfoldable pub conn_io_cb :
        (fuel self : ℕ) (notify_ok : List RtcMsg → Bool)
        → Mask
        → ReadAnswer
        → List WriteAnswer
        → (now fd : ℕ) → Worker W T
        → Outcome (Worker W T × Bytes)
    unfolding read_conn write_conn
    conn_io_cb fuel self notify_ok events answer answers now fd w = do
      w' ← (if events.read then read_conn fuel self notify_ok answer now fd w else ok w)
      if events.write then write_conn answers now fd w' else ok (w', [])
