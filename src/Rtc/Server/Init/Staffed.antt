-- ===== src/Rtc/Server/Init/Staffed.antt =====
-- A successful `init` leaves a server with all its workers.
use dcj_rtc.Prelude.{
  ℕ, zero, suc, ◌+◌, ◌^◌, ◌<◌, ◌||◌, pos, ◌≡◌, ◌≢◌, refl, sym, ap, some, List, [], ◌∷◌, ◌++◌, ok,
  ◌==◌, length, length-append, get_or, get_or-append_lt, get_or-append_length, arith, Bool-cases,
  inl, inr,
}
use dcj_rtc.Base.EventLoop.{Libev, read_events, start_io_event}
use dcj_rtc.Rtc.Server.{RtcServer, CertificateAnswers, check_certificate}
use dcj_rtc.Rtc.Server.Routing.{IsStaffed}
use dcj_rtc.Rtc.Server.Init.{WorkerAnswers, create_worker, create_workers, init}
use dcj_rtc.Rtc.Worker

-- The first `n` workers can be made.
abbrev pub CanMake : ℕ → List WorkerAnswers → Type 0
CanMake zero answers = Unit {0}
CanMake (suc n) [] = ⊥
CanMake (suc n) (a ∷ answers) =
    (a.address ≢ 0) × ((fds : ℕ × ℕ) × (a.fds ≡ some fds)) × CanMake n answers

abbrev AllPresent : List ℕ → Type 0
AllPresent workers = (i : ℕ) → i < length workers → get_or workers i 0 ≢ 0

AllPresent-append :
    (workers : List ℕ) (p : ℕ) → AllPresent workers → p ≢ 0 → AllPresent (workers ++ (p ∷ []))
AllPresent-append workers p all ne i h = elim (Bool-cases (i == length workers)) [
  | inl e ↦
      ground (arith, get_or-append_length workers (p ∷ []) 0 0, length-append workers (p ∷ []))
  | inr e ↦
      ground (arith, get_or-append_lt workers (p ∷ []) i 0, length-append workers (p ∷ []), all i)
]

check_certificate-ok :
    {W : Type 0} (certs : CertificateAnswers) (s : RtcServer W)
    → certs.generated ≢ 0
    → (c : ℕ) × (c ≢ 0) × (check_certificate certs s ≡ (pos 0, record s { certificate = c }))
unfolding check_certificate
check_certificate-ok certs s ne = elim (Bool-cases (s.certificate == 0 || certs.has_expired)) [
  | inl renew ↦ (certs.generated, ne, ground arith)
  | inr keep ↦ (s.certificate, ground arith, ground arith)
]

module _ {W T : Type 0} (ev : Libev W T) where
  create_workers-AllPresent :
      (n : ℕ) (answers : List WorkerAnswers) (s : RtcServer W)
      → CanMake n answers
      → AllPresent s.workers
      → (workers : List ℕ) × (create_workers ev n answers s
          ≡ ok (pos 0, record s { workers = workers }))
        × (length workers ≡ length s.workers + n)
        × AllPresent workers
  unfolding create_workers create_worker Worker.init Worker.start
  create_workers-AllPresent zero answers s can all = (s.workers, refl, omega arith, all)
  create_workers-AllPresent (suc n) [] s can all = elim can [ ]
  create_workers-AllPresent (suc n) (a ∷ answers) s (ne, (fds, e), can) all =
      let (workers, r, len, all') =
        create_workers-AllPresent n answers (record s { workers = s.workers ++ (a.address ∷ []) })
          can (AllPresent-append s.workers a.address all ne) in
      (
        workers,
        ground (arith, e, r),
        omega (arith, len, length-append s.workers (a.address ∷ [])),
        all',
      )

  -- With a file that asks for some workers, a certificate, a pipe and workers that can be made,
  -- `init` of a new server returns 0 and the server has all its workers.
  pub init-IsStaffed :
      (n : ℕ) (certs : CertificateAnswers) (fds : ℕ × ℕ) (answers : List WorkerAnswers)
      (s : RtcServer W)
      → 0 < n
      → n < 2 ^ 31
      → s.workers ≡ []
      → certs.generated ≢ 0
      → CanMake n answers
      → (s' : RtcServer W) × (init ev (some (pos n)) certs (some fds) answers s ≡ ok (pos 0, s'))
        × IsStaffed s'
        × (s'.certificate ≢ 0)
  unfolding init
  init-IsStaffed n certs (recv, send) answers s some_worker small empty ne can =
      let (c, present, e) = check_certificate-ok certs (record s { worker_num = pos n }) ne in
      let (workers, r, len, all) =
        create_workers-AllPresent n answers
          (record s {
            worker_num = pos n;
            certificate = c;
            notify_recv_fd = recv;
            notify_send_fd = send;
            pipe_watcher = some (start_io_event ev ev.init recv read_events);
          })
          can (rw empty (λ i h. absurd (omega arith))) in
      let none_yet : length s.workers ≡ 0 = ap length empty in
      let count : length workers ≡ n = omega (arith, len, none_yet) in
      (
        record s {
          worker_num = pos n;
          workers = workers;
          certificate = c;
          notify_recv_fd = recv;
          notify_send_fd = send;
          pipe_watcher = some (start_io_event ev ev.init recv read_events);
        },
        rw e r,
        record {
          some_worker = omega (arith, count);
          bounded = omega (arith, count);
          worker_num = ap pos (sym count);
          present = all;
        },
        present,
      )
