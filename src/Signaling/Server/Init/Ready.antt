-- ===== src/Signaling/Server/Init/Ready.antt =====
-- What `init` of xrtc_server/src/server/signaling_server.cpp comes to when every call succeeds.
use dcj_rtc.Prelude.{
  ℕ, zero, suc, ℤ, pos, minus_one, eq_ℤ, true, false, ◌≡◌, refl, some, List, [], ◌∷◌, ◌++◌, ap, ok,
  fault, append_assoc, append-nil,
}
use dcj_rtc.Base.EventLoop.{Libev, read_events, start_io_event}
use dcj_rtc.Base.Socket.Setup.{SocketAnswers, create_tcp_socket}
use dcj_rtc.Signaling.Server.{SignalingServer}
use dcj_rtc.Signaling.Server.Init.{
  SignalingServerOptions, SignalingWorkerAnswers, init_worker, start_worker, create_worker,
  create_workers, init_server,
}

-- The first `n` workers get their pipes.
abbrev pub CanPipe : ℕ → List SignalingWorkerAnswers → Type 0
CanPipe zero answers = Unit {0}
CanPipe (suc n) [] = ⊥
CanPipe (suc n) (a ∷ answers) = ((fds : ℕ × ℕ) × (a.fds ≡ some fds)) × CanPipe n answers

abbrev pub addresses : ℕ → List SignalingWorkerAnswers → List ℕ
addresses zero answers = []
addresses (suc n) [] = []
addresses (suc n) (a ∷ answers) = a.address ∷ addresses n answers

module _ {W T : Type 0} (ev : Libev W T) where
  create_workers-eq :
      (r : ℤ) (n : ℕ) (answers : List SignalingWorkerAnswers) (s : SignalingServer W)
      → eq_ℤ r minus_one ≡ false
      → CanPipe n answers
      → create_workers ev (ok r) n answers s
        ≡ ok (pos 0, record s { workers = s.workers ++ addresses n answers })
  unfolding create_workers create_worker init_worker start_worker
  create_workers-eq r zero answers s h c = simp append-nil
  create_workers-eq r (suc n) [] s h c = elim c [ ]
  create_workers-eq r (suc n) (a ∷ answers) s h ((fds, e), c) =
      let rest =
        create_workers-eq r n answers (record s { workers = s.workers ++ (a.address ∷ []) }) h c in
      let join = append_assoc s.workers (a.address ∷ []) (addresses n answers) in
      let one : create_worker ev (ok r) a s
          ≡ ok (pos 0, record s { workers = s.workers ++ (a.address ∷ []) }) =
        rw (create_worker, init_worker, e, h) refl in
      rw one (rw join at rest)

  -- If the options load and ask for at least one worker, and the pipe, the listening socket and
  -- the pipes of all workers are there, then what becomes of `init` hangs on what the caller of a
  -- worker's `init` finds as its value, since that function ends without `return`. If it is a
  -- number other than -1, `init` returns 0, the listener and the pipe are watched, and the server
  -- has its workers in order. If it is undefined behaviour, so is `init`.
  pub init_server-ready :
      (r : ℤ) (n fd recv send : ℕ) (o : SignalingServerOptions) (sock : SocketAnswers)
      (answers : List SignalingWorkerAnswers) (s : SignalingServer W)
      → eq_ℤ r minus_one ≡ false
      → o.worker_thread_num ≡ pos (suc n)
      → create_tcp_socket true sock ≡ (some fd, [])
      → CanPipe (suc n) answers
      → (init_server ev (ok r) (some o) (some (recv, send)) sock answers s
          ≡ ok (
            pos 0,
            record s {
              notify_recv_fd = recv;
              notify_send_fd = send;
              pipe_watcher = some (start_io_event ev ev.init recv read_events);
              listen_fd = fd;
              io_watcher = some (start_io_event ev ev.init fd read_events);
              workers = s.workers ++ addresses (suc n) answers;
            },
          ))
        × (init_server ev fault (some o) (some (recv, send)) sock answers s ≡ fault)
  unfolding init_server create_workers create_worker init_worker
  init_server-ready r n fd recv send o sock [] s h k e c = elim c [ ]
  init_server-ready r n fd recv send o sock (a ∷ answers) s h k e c =
      let s1 : SignalingServer W = record s {
        notify_recv_fd = recv;
        notify_send_fd = send;
        pipe_watcher = some (start_io_event ev ev.init recv read_events);
        listen_fd = fd;
        io_watcher = some (start_io_event ev ev.init fd read_events);
      } in
      let none_closed : (create_tcp_socket true sock).1 ≡ [] = ap (λ x. x.1) e in
      (
        rw (init_server, e, none_closed, k) (create_workers-eq r (suc n) (a ∷ answers) s1 h c),
        let ((fds, p), rest) = c in
            rw (init_server, e, none_closed, k, create_workers, create_worker, init_worker, p) refl,
      )
