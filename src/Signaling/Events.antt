-- ===== src/Signaling/Events.antt =====
-- What the event loop and the other threads do to a signaling worker: the callbacks of
-- xrtc_server/src/server/signaling_worker.cpp, and the functions that put work in its two queues. The
-- loop runs the callbacks one after the other, so that a history of the worker is a list.
pub mod Allowed
pub mod Callbacks
pub mod Keep
use dcj_rtc.Prelude.{
  ℕ, ℤ, Option, none, some, List, [], ◌∷◌, ◌++◌, Bool, true, false, pos, minus_one, Outcome, ok,
  ◌>>=◌, if◌then◌else◌,
}
use dcj_rtc.Base.EventLoop.{Libev, Mask}
use dcj_rtc.Base.Socket.{ReadAnswer, WriteAnswer, PipeAnswer, whole_int, no_int, notify}
use dcj_rtc.Rtc.Msg.{RtcMsg}
use dcj_rtc.Signaling.Json.{JsonCpp}
use dcj_rtc.Signaling.Worker.{Worker, NewConnAnswers, process_timeout}
use dcj_rtc.Signaling.Handlers.{conn_io_cb, process_notify}

-- One event, with what the system calls of its handler answer.
pub data Event : Type 0 where
  io_ready : (events : Mask) (answer : ReadAnswer) (answers : List WriteAnswer) (now fd : ℕ) → Event
  timer_fired : (now p : ℕ) → Event
  notified : (read : PipeAnswer) (answers : NewConnAnswers) (fresh now : ℕ) (room : Bool) → Event
  -- The listener's thread and the media workers' threads add to the queues.
  conn_queued : (fd : ℤ) (sent : Bool) → Event
  msg_queued : (m : RtcMsg) (sent : Bool) → Event

module _ {W T : Type 0} where
  -- `notify_new_conn`
  unfoldable pub notify_new_conn : ℤ → (sent : Bool) → Worker W T → ℤ × Worker W T
  notify_new_conn fd sent w = (notify sent, record w { q_conn = w.q_conn ++ (fd ∷ []) })

  -- `push_rtc_msg`
  abbrev pub push_rtc_msg : RtcMsg → Worker W T → Worker W T
  push_rtc_msg m w = record w { q_rtc_msg = w.q_rtc_msg ++ (m ∷ []) }

  -- `send_rtc_msg`
  unfoldable pub send_rtc_msg : RtcMsg → (sent : Bool) → Worker W T → ℤ × Worker W T
  send_rtc_msg m sent w = (notify sent, push_rtc_msg m w)

module _ {W T V : Type 0} (ev : Libev W T) (json : JsonCpp V) where
  -- `signaling_warker_recv_notify`
  unfoldable pub recv_notify :
      PipeAnswer
      → NewConnAnswers
      → (fresh now : ℕ) (room : Bool) → Worker W T
      → Outcome (Worker W T)
  unfolding process_notify
  recv_notify no_int answers p now room w = ok w
  recv_notify (whole_int msg) answers p now room w = process_notify ev json msg answers p now room w

  module _ (fuel self timeout : ℕ) (notify_ok : List RtcMsg → Bool) where
    -- `conn_timer_cb`; the object is the timer's `data`.
    unfoldable pub handle : Event → Worker W T → Outcome (Worker W T)
    unfolding conn_io_cb process_timeout recv_notify notify_new_conn send_rtc_msg
    handle (io_ready events answer answers now fd) w = do
      (w', sent) ← conn_io_cb ev json fuel self notify_ok events answer answers now fd w
      ok w'
    handle (timer_fired now p) w = process_timeout ev timeout now p w
    handle (notified read answers p now room) w = recv_notify read answers p now room w
    handle (conn_queued fd sent) w = ok (notify_new_conn fd sent w).1
    handle (msg_queued m sent) w = ok (send_rtc_msg m sent w).1

    unfoldable pub handle_all : List Event → Worker W T → Outcome (Worker W T)
    unfolding handle
    handle_all [] w = ok w
    handle_all (e ∷ es) w = handle e w >>= λ w'. handle_all es w'
