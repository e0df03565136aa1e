-- ===== src/Rtc/Server/Init.antt =====
-- `RtcServer::init` of xrtc_server/src/server/rtc_server.cpp: the certificate, the pipe, the workers.
pub mod Staffed
use dcj_rtc.Prelude.{
  ℕ, zero, suc, ℤ, pos, minus_one, to_ℕ, eq_ℤ, Bool, true, false, not, Option, none, some, List, [],
  ◌∷◌, ◌++◌, Outcome, ok, out_of_fuel, ◌>>=◌, if◌then◌else◌,
}
use dcj_rtc.Base.EventLoop.{Libev, read_events, start_io_event}
use dcj_rtc.Rtc.Streams.{StreamManager, new_manager}
use dcj_rtc.Rtc.Worker
use dcj_rtc.Rtc.Worker.{RtcWorker, new_worker}
use dcj_rtc.Rtc.Server.{RtcServer, CertificateAnswers, check_certificate}

-- The address of a new worker, and what its call of `pipe` makes.
pub record WorkerAnswers : Type 0 where
  pub address : ℕ
  pub fds : Option (ℕ × ℕ)

module _ {W T : Type 0} (ev : Libev W T) where
  -- What the two calls on the new worker return.
  abbrev pub made_worker : WorkerAnswers → ℤ × Bool
  unfolding Worker.init Worker.start
  made_worker a =
      let (ret, w) = Worker.init ev a.fds (new_worker (new_manager (λ p. none))) in
      (ret, (Worker.start w).0)

  -- `_create_worker`
  unfoldable pub create_worker : WorkerAnswers → RtcServer W → ℤ × RtcServer W
  create_worker a s =
      let (ret, started) = made_worker a in
      if not (eq_ℤ ret (pos 0))
      then (minus_one, s)
      else if not started
      then (minus_one, s)
      else (pos 0, record s { workers = s.workers ++ (a.address ∷ []) })

  -- The loop of `init`, for the given number of workers.
  unfoldable pub create_workers : ℕ → List WorkerAnswers → RtcServer W → Outcome (ℤ × RtcServer W)
  create_workers zero answers s = ok (pos 0, s)
  create_workers (suc n) [] s = out_of_fuel
  create_workers (suc n) (a ∷ answers) s =
      let (ret, s') = create_worker a s in
      let rest = create_workers n answers s' in
      if not (eq_ℤ ret (pos 0)) then ok (minus_one, s') else rest

  -- `init`; `config` is the number that the file gives, `none` if there is no file or it does not
  -- load.
  unfoldable pub init :
      (config : Option ℤ)
      → CertificateAnswers
      → (fds : Option (ℕ × ℕ)) → List WorkerAnswers
      → RtcServer W
      → Outcome (ℤ × RtcServer W)
  init config certs fds answers s = elim config [
    | none ↦ ok (minus_one, s)
    | some worker_num ↦
        let (ret, s1) = check_certificate certs (record s { worker_num = worker_num }) in
        if not (eq_ℤ ret (pos 0)) then ok (minus_one, s1) else elim fds [
          | none ↦ ok (minus_one, s1)
          | some (recv, send) ↦ create_workers (to_ℕ worker_num) answers (record s1 {
            notify_recv_fd = recv;
            notify_send_fd = send;
            pipe_watcher = some (start_io_event ev ev.init recv read_events);
          })
        ]
  ]
