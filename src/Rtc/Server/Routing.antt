-- ===== src/Rtc/Server/Routing.antt =====
-- Which worker gets a message, and with what.
use dcj_rtc.Prelude.{
  ℕ, ◌%◌, ◌^◌, ◌<◌, pos, ◌||◌, ◌≡◌, ◌≢◌, Bytes, List, [], ◌∷◌, ◌++◌, ok, fault, ◌==◌, length,
  get_or, if◌then◌else◌, arith, Bool-cases, ◌↔◌, inl, inr,
}
use dcj_rtc.Rtc.Msg.{RtcMsg}
use dcj_rtc.Rtc.Server.{
  RtcServer, CertificateAnswers, check_certificate, get_worker, route, process_rtc_msg,
  process_notify,
}

-- The workers are all there: as many as the configuration asks for, and no `nullptr` among them.
pub record IsStaffed {W : Type 0} (s : RtcServer W) : Type 0 where
  pub some_worker : 0 < length s.workers
  pub bounded : length s.workers < 2 ^ 32
  pub worker_num : s.worker_num ≡ pos (length s.workers)
  pub present : (i : ℕ) → i < length s.workers → get_or s.workers i 0 ≢ 0

module _ {W : Type 0} (crc32 : Bytes → ℕ) where
  -- The worker of a stream is one of them, chosen by the name alone.
  get_worker_lem :
      (name : Bytes) (s : RtcServer W)
      → IsStaffed s
      → let i = crc32 name % 2 ^ 32 % length s.workers in
        (i < length s.workers) × (get_worker crc32 name s ≡ get_or s.workers i 0)
  unfolding get_worker
  get_worker_lem name s v =
      let low : length s.workers % 2 ^ 32 ≡ length s.workers = omega (arith, v.bounded) in
      (omega (arith, v.some_worker), ground (arith, v.worker_num, v.some_worker, low))

  -- A server with all its workers hands the message at the head of its queue, with the certificate,
  -- to the worker that the stream's name chooses; a certificate that is missing or has expired is
  -- replaced first. The other messages stay, and the workers are the same: every message of
  -- one stream goes to one worker.
  pub process_notify-routes :
      (m : RtcMsg) (ms : List RtcMsg) (answers : CertificateAnswers) (s : RtcServer W)
      → IsStaffed s
      → s.q_msg ≡ m ∷ ms
      → answers.generated ≢ 0
      → let c =
          (if s.certificate == 0 || answers.has_expired
            then answers.generated
            else s.certificate) in
        (c ≢ 0)
        × (process_notify crc32 (pos 1) answers s
            ≡ ok (record s {
              q_msg = ms;
              certificate = c;
              sent =
                  s.sent
                  ++ ((
                    get_or s.workers (crc32 m.stream_name % 2 ^ 32 % length s.workers) 0,
                    record m { certificate = c },
                  )
                      ∷ []);
            }))
  unfolding process_notify process_rtc_msg check_certificate route
  process_notify-routes m ms answers s v q ne =
      elim (Bool-cases (s.certificate == 0 || answers.has_expired)) [
        | inl renew ↦ let g = routed answers.generated in ground (arith, g, q, renew, ne)
        | inr keep ↦ let g = routed s.certificate in ground (arith, g, q, keep)
      ]
    where
      routed :
          (c : ℕ)
          → let s' = record s { q_msg = ms; certificate = c } in
            route crc32 (record m { certificate = c }) s' ≡ record s' {
              sent =
                  s.sent
                  ++ ((
                    get_or s.workers (crc32 m.stream_name % 2 ^ 32 % length s.workers) 0,
                    record m { certificate = c },
                  )
                      ∷ []);
            }
      routed c =
          let (inside, e) =
            get_worker_lem m.stream_name (record s { q_msg = ms; certificate = c })
              (record {
                some_worker = v.some_worker;
                bounded = v.bounded;
                worker_num = v.worker_num;
                present = v.present;
              }) in
          ground (arith, e, v.present (crc32 m.stream_name % 2 ^ 32 % length s.workers) inside)

  -- Handling `RTC_MSG` is undefined exactly when no message waits.
  pub process_notify-faults :
      (answers : CertificateAnswers) (s : RtcServer W)
      → (process_notify crc32 (pos 1) answers s ≡ fault) ↔ (s.q_msg ≡ [])
  unfolding process_notify process_rtc_msg
  process_notify-faults answers s = (λ e. ground arith, λ e. ground arith)
