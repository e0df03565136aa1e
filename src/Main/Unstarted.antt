-- ===== src/Main/Unstarted.antt =====
-- Setting up the servers does not start their loops.
use dcj_rtc.Prelude.{
  ℕ, zero, suc, ℤ, pos, minus_one, eq_ℤ, to_ℕ, ◌≤◌, length, Bool, true, false, not, ◌≡◌, refl, ◌∙◌,
  Option, none, some, List, [], ◌∷◌, Outcome, ok, ◌>>=◌, arith, if◌then◌else◌,
}
use dcj_rtc.Base.EventLoop.{Libev}
use dcj_rtc.Base.Socket.Setup.{SocketAnswers, create_tcp_socket}
use dcj_rtc.Rtc.Server
use dcj_rtc.Rtc.Server.{RtcServer, CertificateAnswers, check_certificate}
use dcj_rtc.Rtc.Server.Init
use dcj_rtc.Rtc.Server.Init.{WorkerAnswers}
use dcj_rtc.Signaling.Worker.{Worker}
use dcj_rtc.Signaling.Server.{SignalingServer}
use dcj_rtc.Signaling.Server.Init.{
  SignalingWorkerAnswers, SignalingServerOptions, new_worker, new_server, init_worker, start_worker,
  create_worker, create_workers, init_server,
}

-- The run returns, and what it returns fits.
pub data Gives {A : Type 0} (P : A → Type 0) (run : Outcome A) : Type 0 where
  gives : (a : A) → run ≡ ok a → P a → Gives P run

-- The rest of the code starts from what the first part gives.
pub Gives-next :
    {A B : Type 0} (P : A → Type 0) {Q : B → Type 0} {run : Outcome A} (next : A → Outcome B)
    → Gives P run
    → ((a : A) → P a → Gives Q (next a))
    → Gives Q (run >>= next)
Gives-next P next (gives a e p) h = rw e (h a p)

pub Gives-either :
    {A : Type 0} {P : A → Type 0} (b : Bool) {x y : Outcome A}
    → Gives P x
    → Gives P y
    → Gives P (if b then x else y)
Gives-either true g h = g
Gives-either false g h = h

module _ {W T : Type 0} (ev : Libev W T) (n : ℤ) where
  -- Nothing that a server does while it is set up starts its loop.
  abbrev pub Unstarted : ℤ × SignalingServer W → Type 0
  Unstarted (ret, s) = s.has_thread ≡ false

  init_worker-Gives :
      (fds : Option (ℕ × ℕ)) (w : Worker W T) → Gives (λ r. Unit {0}) (init_worker ev (ok n) fds w)
  unfolding init_worker
  init_worker-Gives none w = gives _ refl tt
  init_worker-Gives (some (recv, send)) w = gives _ refl tt

  create_worker-Gives :
      (a : SignalingWorkerAnswers) (s : SignalingServer W)
      → s.has_thread ≡ false
      → Gives Unstarted (create_worker ev (ok n) a s)
  unfolding create_worker
  create_worker-Gives a s h =
      Gives-next (λ r. Unit {0}) _ (init_worker-Gives a.fds new_worker)
        (λ (ret, w) u.
          Gives-either (eq_ℤ ret minus_one) (gives _ refl h)
            (Gives-either (not (start_worker w).0) (gives _ refl h) (gives _ refl h)))

  create_workers-Gives :
      (k : ℕ) (answers : List SignalingWorkerAnswers) (s : SignalingServer W)
      → k ≤ length answers
      → s.has_thread ≡ false
      → Gives Unstarted (create_workers ev (ok n) k answers s)
  unfolding create_workers
  create_workers-Gives zero answers s enough h = gives _ refl h
  create_workers-Gives (suc k) [] s enough h = absurd (omega arith)
  create_workers-Gives (suc k) (a ∷ answers) s enough h =
      Gives-next Unstarted _ (create_worker-Gives a s h) (λ (ret, s') u.
        Gives-either (eq_ℤ ret minus_one) (gives _ refl u)
          (create_workers-Gives k answers s' (omega arith) u))

  pub init_server-Gives :
      (options : Option SignalingServerOptions) (fds : Option (ℕ × ℕ)) (sock : SocketAnswers)
      (answers : List SignalingWorkerAnswers)
      → ((o : SignalingServerOptions)
          → options ≡ some o
          → to_ℕ o.worker_thread_num ≤ length answers)
      → Gives Unstarted (init_server ev (ok n) options fds sock answers new_server)
  unfolding init_server
  init_server-Gives none fds sock answers enough = gives _ refl refl
  init_server-Gives (some o) none sock answers enough = gives _ refl refl
  init_server-Gives (some o) (some (recv, send)) sock answers enough =
      go (create_tcp_socket true sock).0 refl
    where
      go :
          (listen : Option ℕ)
          → (create_tcp_socket true sock).0 ≡ listen
          → Gives Unstarted
              (init_server ev (ok n) (some o) (some (recv, send)) sock answers new_server)
      go none e = rw (init_server, e) (gives _ refl refl)
      go (some fd) e =
          rw (init_server, e)
            (create_workers-Gives (to_ℕ o.worker_thread_num) answers _ (enough o refl) refl)

module _ {W T : Type 0} (ev : Libev W T) where
  abbrev pub RtcUnstarted : ℤ × RtcServer W → Type 0
  RtcUnstarted (ret, s) = s.has_thread ≡ false

  rtc_create_worker-has_thread :
      (a : WorkerAnswers) (s : RtcServer W)
      → (Init.create_worker ev a s).1.has_thread ≡ s.has_thread
  unfolding Init.create_worker
  rtc_create_worker-has_thread a s = ground arith

  rtc_create_workers-Gives :
      (k : ℕ) (answers : List WorkerAnswers) (s : RtcServer W)
      → k ≤ length answers
      → s.has_thread ≡ false
      → Gives RtcUnstarted (Init.create_workers ev k answers s)
  unfolding Init.create_workers
  rtc_create_workers-Gives zero answers s enough h = gives _ refl h
  rtc_create_workers-Gives (suc k) [] s enough h = absurd (omega arith)
  rtc_create_workers-Gives (suc k) (a ∷ answers) s enough h =
      let h' = rtc_create_worker-has_thread a s ∙ h in
      let rest =
        rtc_create_workers-Gives k answers (Init.create_worker ev a s).1 (omega arith) h' in
      Gives-either (not (eq_ℤ (Init.create_worker ev a s).0 (pos 0))) (gives _ refl h') rest

  check_certificate-has_thread :
      (certs : CertificateAnswers) (s : RtcServer W)
      → (check_certificate certs s).1.has_thread ≡ s.has_thread
  unfolding check_certificate
  check_certificate-has_thread certs s = ground arith

  pub rtc_init-Gives :
      (config : Option ℤ) (certs : CertificateAnswers) (fds : Option (ℕ × ℕ))
      (answers : List WorkerAnswers)
      → ((k : ℤ) → config ≡ some k → to_ℕ k ≤ length answers)
      → Gives RtcUnstarted (Init.init ev config certs fds answers Server.new_server)
  unfolding Init.init
  rtc_init-Gives none certs fds answers enough = gives _ refl refl
  rtc_init-Gives (some k) certs none answers enough =
      let s : RtcServer W = record Server.new_server { worker_num = k } in
      let h = check_certificate-has_thread certs s in
      Gives-either (not (eq_ℤ (check_certificate certs s).0 (pos 0))) (gives _ refl h)
        (gives _ refl h)
  rtc_init-Gives (some k) certs (some (recv, send)) answers enough =
      let s : RtcServer W = record Server.new_server { worker_num = k } in
      let h = check_certificate-has_thread certs s in
      Gives-either (not (eq_ℤ (check_certificate certs s).0 (pos 0))) (gives _ refl h)
        (rtc_create_workers-Gives (to_ℕ k) answers _ (enough k refl) h)
