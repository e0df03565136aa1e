-- ===== src/Rtc/Worker.antt =====
-- `RtcWorker` of xrtc_server/src/server/rtc_worker.cpp: one thread of the media server. The lock-free
-- queue is a list here, oldest first: its nodes are in Base/Queue.
pub mod Answers
use dcj_rtc.Prelude.{
  ℕ, zero, suc, ℤ, pos, negsuc, eq_ℤ, as_uint32, minus_one, Bool, true, false, not, ◌&&◌, require,
  ◌>>◌, Bytes, Option, none, some, List, [], ◌∷◌, ◌++◌, Outcome, ok, fault, ◌>>=◌, ◌==◌,
  if◌then◌else◌,
}
use dcj_rtc.Base.EventLoop.{Libev, read_events, start_io_event}
use dcj_rtc.Base.Socket.{PipeAnswer, whole_int, no_int, notify}
use dcj_rtc.Rtc.Peer.{RtcBase}
use dcj_rtc.Rtc.Msg.{RtcMsg, cmdno_push}
use dcj_rtc.Rtc.Sdp.{Fingerprint, IceParameters}
use dcj_rtc.Rtc.Streams.{StreamManager, create_push_stream}

pub record RtcWorker (W : Type 0) : Type 0 where
  pub streams : StreamManager
  pub q_msg : List RtcMsg
  -- The messages handed to a signaling worker by its `send_rtc_msg`, with that worker's address.
  pub answers : List (ℕ × RtcMsg)
  pub pipe_watcher : Option W
  pub notify_recv_fd : ℕ
  pub notify_send_fd : ℕ
  pub has_thread : Bool
  pub loop_stopped : Bool
  pub thread_joined : Bool
  pub closed : List ℕ

-- The constructor.
abbrev pub new_worker : {W : Type 0} → StreamManager → RtcWorker W
new_worker streams = record {
  streams = streams;
  q_msg = [];
  answers = [];
  pipe_watcher = none;
  notify_recv_fd = 0;
  notify_send_fd = 0;
  has_thread = false;
  loop_stopped = false;
  thread_joined = false;
  closed = [];
}

-- `init`: what `pipe` makes; `none` is its failure. The descriptors are -1 before it in the code.
unfoldable pub init : {W T : Type 0} → Libev W T → Option (ℕ × ℕ) → RtcWorker W → ℤ × RtcWorker W
init ev fds w = elim fds [
  | none ↦ (minus_one, w)
  | some (recv, send) ↦ (
    pos 0,
    record w {
      notify_recv_fd = recv;
      notify_send_fd = send;
      pipe_watcher = some (start_io_event ev ev.init recv read_events);
    },
  )
]

-- `start`, up to the loop of the new thread.
unfoldable pub start : {W : Type 0} → RtcWorker W → Bool × RtcWorker W
start w = if w.has_thread then (false, w) else (true, record w { has_thread = true })

module _ {W : Type 0} where
  -- `join`, whose call waits for the end of the thread. The method does nothing the second time.
  unfoldable pub join : RtcWorker W → RtcWorker W
  join w = if w.has_thread && not w.thread_joined then record w { thread_joined = true } else w

  -- `~RtcWorker`. To delete a thread that was not joined ends the process. The manager
  -- goes with the worker, and its destructor deletes no stream.
  unfoldable pub destroy : RtcWorker W → Outcome (RtcWorker W)
  destroy w = do
    require (not (w.has_thread && not w.thread_joined))
    ok (record w { has_thread = false })

  -- `push_msg`
  abbrev pub push_msg : RtcMsg → RtcWorker W → RtcWorker W
  push_msg m w = record w { q_msg = w.q_msg ++ (m ∷ []) }

  -- `send_rtc_msg`
  unfoldable pub send_rtc_msg : RtcMsg → (sent : Bool) → RtcWorker W → ℤ × RtcWorker W
  send_rtc_msg m sent w = (notify sent, push_msg m w)

  -- `_stop`. The pointer to the watcher is deleted and kept: there is none to delete again.
  unfoldable pub stop : RtcWorker W → Outcome (RtcWorker W)
  stop w =
      if w.has_thread
      then elim w.pipe_watcher [
        | none ↦ fault
        | some watcher ↦ ok (record w {
          pipe_watcher = none;
          loop_stopped = true;
          closed = w.notify_send_fd ∷ w.notify_recv_fd ∷ w.closed;
        })
      ]
      else ok w

  module _ (base : RtcBase) where
    -- After `create_push_stream`. `_process_push` gives up if it does not return 0.
    unfoldable pub answer_push : RtcMsg → RtcWorker W → ℤ × Bytes × StreamManager → RtcWorker W
    answer_push m w (ret, text, streams) =
        let w' = record w { streams = streams } in
        if not (eq_ℤ ret (pos 0))
        then w'
        else if m.worker == 0
        then w'
        else record w' { answers = w.answers ++ ((m.worker, record m { sdp = text }) ∷ []) }

    -- `_process_push`; an `int` becomes a `bool` by the test against 0. `params` are the random
    -- credentials, and `p` the address of the new stream.
    unfoldable pub process_push :
        IceParameters → (p : ℕ) → RtcMsg → RtcWorker W → Outcome (RtcWorker W)
    unfolding answer_push
    process_push params p m w = do
      r ←
          create_push_stream base params p m.uid m.stream_name (not (eq_ℤ m.audio (pos 0)))
            (not (eq_ℤ m.video (pos 0))) (as_uint32 m.log_id) m.certificate w.streams
      ok (answer_push m w r)

    -- `_process_rtc_msg`: the other four commands have empty handlers, and an unknown one is logged.
    unfoldable pub process_rtc_msg : IceParameters → (p : ℕ) → RtcWorker W → Outcome (RtcWorker W)
    unfolding process_push
    process_rtc_msg params p w = elim w.q_msg [
      | [] ↦ ok w
      | m ∷ ms ↦
          let w' = record w { q_msg = ms } in
          if eq_ℤ m.cmdno cmdno_push then process_push params p m w' else ok w'
    ]

    -- `_process_notify`: `QUIT`, `RTC_MSG`, and any other number.
    unfoldable pub process_notify :
        ℤ → IceParameters → (p : ℕ) → RtcWorker W → Outcome (RtcWorker W)
    unfolding process_rtc_msg stop
    process_notify (pos zero) params p w = stop w
    process_notify (pos (suc zero)) params p w = process_rtc_msg params p w
    process_notify (pos (suc (suc n))) params p w = ok w
    process_notify (negsuc n) params p w = ok w

    -- `rtc_worker_recv_notify`
    unfoldable pub recv_notify :
        PipeAnswer → IceParameters → (p : ℕ) → RtcWorker W → Outcome (RtcWorker W)
    unfolding process_notify
    recv_notify no_int params p w = ok w
    recv_notify (whole_int msg) params p w = process_notify msg params p w
