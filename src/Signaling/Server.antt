-- ===== src/Signaling/Server.antt =====
-- `SignalingServer` of xrtc_server/src/server/signaling_server.cpp: the listener, which deals the new
-- connections out to the workers in turn.
pub mod Turns
pub mod Init
use dcj_rtc.Prelude.{
  ℕ, zero, suc, ◌+◌, ◌%◌, ◌^◌, ℤ, pos, negsuc, Bool, true, false, ◌&&◌, Bytes, Option, none, some,
  List, [], ◌∷◌, ◌++◌, Outcome, ok, fault, require, ◌>>=◌, ◌>>◌, ltb, length, get_or, ◌==◌, eq_ℤ,
  not, if◌then◌else◌,
}
use dcj_rtc.Base.EventLoop.{Libev, delete_io_event}
use dcj_rtc.Base.Socket.{PipeAnswer, whole_int, no_int, notify}
use dcj_rtc.Base.Socket.Setup.{AcceptAnswer, tcp_accept}

-- A watcher is `none` before `init`, and a worker is its address, never 0.
pub record SignalingServer (W : Type 0) : Type 0 where
  pub listen_fd : ℕ
  pub io_watcher : Option W
  pub pipe_watcher : Option W
  pub notify_recv_fd : ℕ
  pub notify_send_fd : ℕ
  pub has_thread : Bool
  pub loop_stopped : Bool
  pub thread_joined : Bool
  pub workers : List ℕ
  -- `_next_worker_id`, an `int` that starts at 0.
  pub next_worker_id : ℕ
  -- The descriptors handed to a worker by its `notify_new_conn`, with that worker's address.
  pub sent : List (ℕ × ℕ)
  -- The workers that were stopped and joined.
  pub stopped : List ℕ
  pub closed : List ℕ

module _ {W : Type 0} where
  -- `_dispatch_new_conn`: the remainder by the number of workers, which is undefined for none; the
  -- increment overflows at the end of `int`.
  unfoldable pub dispatch_new_conn : ℕ → SignalingServer W → Outcome (SignalingServer W)
  dispatch_new_conn fd s = do
    require (ltb 0 (length s.workers))
    require (ltb (s.next_worker_id + 1) (2 ^ 31))
    ok (record s {
      next_worker_id = s.next_worker_id + 1;
      sent = s.sent ++ ((get_or s.workers (s.next_worker_id % length s.workers) 0, fd) ∷ []);
    })

  -- `accept_new_conn`
  unfoldable pub accept_new_conn :
      (fuel : ℕ)
      → AcceptAnswer
      → (peer : Bytes × ℕ) → SignalingServer W
      → Outcome (SignalingServer W)
  unfolding dispatch_new_conn
  accept_new_conn k a peer s = tcp_accept k s.listen_fd a peer >>= λ (got, closed).
      let s' = record s { closed = closed ++ s.closed } in
      elim got [ none ↦ ok s' | some (cfd, ip, port) ↦ dispatch_new_conn cfd s' ]

  -- `_stop`. The pointers to the watchers are deleted and kept: there is none to delete again.
  unfoldable pub stop_server : SignalingServer W → Outcome (SignalingServer W)
  stop_server s = if not s.has_thread then ok s else elim s.pipe_watcher [
    | none ↦ fault
    | some pipe ↦ elim s.io_watcher [
      | none ↦ fault
      | some io ↦ ok (record s {
        pipe_watcher = none;
        io_watcher = none;
        loop_stopped = true;
        closed = s.listen_fd ∷ s.notify_send_fd ∷ s.notify_recv_fd ∷ s.closed;
        stopped = s.stopped ++ s.workers;
      })
    ]
  ]

  -- `join`, whose call waits for the end of the thread. The method does nothing the second time.
  unfoldable pub join : SignalingServer W → SignalingServer W
  join s = if s.has_thread && not s.thread_joined then record s { thread_joined = true } else s

  -- `~SignalingServer`: the workers that are deleted. To delete a thread that was not joined ends the
  -- process.
  unfoldable pub destroy_server : SignalingServer W → Outcome (List ℕ)
  destroy_server s = do require (not (s.has_thread && not s.thread_joined)); ok s.workers

  -- `_process_notify`: `QUIT`, and any other number.
  unfoldable pub process_server_notify : ℤ → SignalingServer W → Outcome (SignalingServer W)
  unfolding stop_server
  process_server_notify (pos zero) s = stop_server s
  process_server_notify (pos (suc n)) s = ok s
  process_server_notify (negsuc n) s = ok s

  -- `signaling_server_recv_notify`
  unfoldable pub recv_server_notify : PipeAnswer → SignalingServer W → Outcome (SignalingServer W)
  unfolding process_server_notify
  recv_server_notify no_int s = ok s
  recv_server_notify (whole_int msg) s = process_server_notify msg s

-- `SignalingServer::notify` turns its 0 and -1 into a `bool`.
unfoldable pub notify_server : (sent : Bool) → Bool
notify_server sent = not (eq_ℤ (notify sent) (pos 0))
