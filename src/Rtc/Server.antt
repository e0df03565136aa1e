-- ===== src/Rtc/Server.antt =====
-- `RtcServer` of xrtc_server/src/server/rtc_server.cpp: the thread that hands each message to the
-- worker of its stream. A worker and a certificate are their addresses, 0 for `nullptr`.
pub mod Routing
pub mod Init
pub mod Notices
use dcj_rtc.Prelude.{
  ℕ, zero, suc, ◌%◌, ◌^◌, ℤ, pos, negsuc, minus_one, Bool, true, false, ◌||◌, ◌&&◌, not, require,
  ◌>>=◌, ◌>>◌, Bytes, Option, none, some, List, [], ◌∷◌, ◌++◌, Outcome, ok, fault, ◌==◌, length,
  get_or, eq_ℤ, as_uint32, if◌then◌else◌,
}
use dcj_rtc.Rtc.Msg.{RtcMsg}

pub record RtcServer (W : Type 0) : Type 0 where
  -- `_options.worker_num`
  pub worker_num : ℤ
  pub workers : List ℕ
  -- `_q_msg`, the oldest first.
  pub q_msg : List RtcMsg
  pub certificate : ℕ
  -- The messages handed to a worker by its `send_rtc_msg`, with that worker's address.
  pub sent : List (ℕ × RtcMsg)
  -- The workers that were stopped and joined.
  pub stopped : List ℕ
  pub pipe_watcher : Option W
  pub notify_recv_fd : ℕ
  pub notify_send_fd : ℕ
  pub has_thread : Bool
  pub loop_stopped : Bool
  pub thread_joined : Bool
  pub closed : List ℕ

-- The certificates of rtc_base: whether one has expired at the time of the call, and what
-- `GenerateCertificate` gives, 0 for `nullptr`.
pub record CertificateAnswers : Type 0 where
  pub has_expired : Bool
  pub generated : ℕ

-- The loop of `_stop`.
abbrev pub live_workers : List ℕ → List ℕ
live_workers [] = []
live_workers (w ∷ ws) = let rest = live_workers ws in if w == 0 then rest else w ∷ rest

-- The constructor, with the values that the members start with. A descriptor is -1 before `init`.
abbrev pub new_server : {W : Type 0} → RtcServer W
new_server = record {
  worker_num = pos 0;
  workers = [];
  q_msg = [];
  certificate = 0;
  sent = [];
  stopped = [];
  pipe_watcher = none;
  notify_recv_fd = 0;
  notify_send_fd = 0;
  has_thread = false;
  loop_stopped = false;
  thread_joined = false;
  closed = [];
}

module _ {W : Type 0} where
  -- `start`, up to the loop of the new thread.
  unfoldable pub start : RtcServer W → Bool × RtcServer W
  start s = if s.has_thread then (false, s) else (true, record s { has_thread = true })

  -- `join`, whose call waits for the end of the thread. The method does nothing the second time.
  unfoldable pub join : RtcServer W → RtcServer W
  join s = if s.has_thread && not s.thread_joined then record s { thread_joined = true } else s

  -- `~RtcServer`: the workers that are deleted. To delete a thread that was not joined ends the
  -- process.
  unfoldable pub destroy_server : RtcServer W → Outcome (List ℕ)
  destroy_server s = do
    require (not (s.has_thread && not s.thread_joined))
    ok (live_workers s.workers)

  -- `_generate_and_check_certificate`
  unfoldable pub check_certificate : CertificateAnswers → RtcServer W → ℤ × RtcServer W
  check_certificate answers s =
      let s' =
        (if s.certificate == 0 || answers.has_expired
          then record s { certificate = answers.generated }
          else s) in
      if s'.certificate == 0 then (minus_one, s') else (pos 0, s')

  -- `push_msg`, and `send_rtc_msg` with what the write to the pipe comes to.
  abbrev pub send_rtc_msg : (notify_ok : Bool) → RtcMsg → RtcServer W → ℤ × RtcServer W
  send_rtc_msg notify_ok m s =
      (if notify_ok then pos 0 else minus_one, record s { q_msg = s.q_msg ++ (m ∷ []) })

  -- `_get_worker`; `crc32` is `ComputeCrc32` of rtc_base. The number of workers is compared as a
  -- `size_t`, and the remainder is taken on `uint32_t`.
  unfoldable pub get_worker : (crc32 : Bytes → ℕ) → Bytes → RtcServer W → ℕ
  get_worker crc32 stream_name s =
      if length s.workers == 0 || not (eq_ℤ (pos (length s.workers)) s.worker_num)
      then 0
      else get_or s.workers (crc32 stream_name % 2 ^ 32 % as_uint32 s.worker_num) 0

  -- The message goes to its worker, if there is one.
  unfoldable pub route : (crc32 : Bytes → ℕ) → RtcMsg → RtcServer W → RtcServer W
  unfolding get_worker
  route crc32 m s =
      let worker = get_worker crc32 m.stream_name s in
      if worker == 0 then s else record s { sent = s.sent ++ ((worker, m) ∷ []) }

  -- `_process_rtc_msg`. It logs the message before it tests for `nullptr`.
  unfoldable pub process_rtc_msg :
      (crc32 : Bytes → ℕ) → CertificateAnswers → RtcServer W → Outcome (RtcServer W)
  unfolding check_certificate route
  process_rtc_msg crc32 answers s = elim s.q_msg [
    | [] ↦ fault
    | m ∷ ms ↦
        let (ret, s') = check_certificate answers (record s { q_msg = ms }) in
        if eq_ℤ ret (pos 0)
        then ok (route crc32 (record m { certificate = s'.certificate }) s')
        else ok s'
  ]

  -- `_stop`. The pointer to the watcher is deleted and kept: there is none to delete again.
  unfoldable pub stop : RtcServer W → Outcome (RtcServer W)
  stop s = elim s.pipe_watcher [
    | none ↦ fault
    | some watcher ↦ ok (record s {
      pipe_watcher = none;
      loop_stopped = true;
      closed = s.notify_send_fd ∷ s.notify_recv_fd ∷ s.closed;
      stopped = s.stopped ++ live_workers s.workers;
    })
  ]

  -- `_process_notify`: `QUIT`, `RTC_MSG`, and any other number.
  unfoldable pub process_notify :
      (crc32 : Bytes → ℕ) → ℤ → CertificateAnswers → RtcServer W → Outcome (RtcServer W)
  unfolding process_rtc_msg stop
  process_notify crc32 (pos zero) answers s = stop s
  process_notify crc32 (pos (suc zero)) answers s = process_rtc_msg crc32 answers s
  process_notify crc32 (pos (suc (suc n))) answers s = ok s
  process_notify crc32 (negsuc n) answers s = ok s
