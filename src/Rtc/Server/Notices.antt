-- ===== src/Rtc/Server/Notices.antt =====
-- The queue and the pipe of xrtc_server/src/server/rtc_server.cpp between the threads. A signaling
-- worker's thread pushes a message and then writes a notice; the server's loop reads a notice and
-- handles it. Each step of the system is one of these; any number of threads are between the two.
use dcj_rtc.Prelude.{
  ℕ, zero, suc, ◌+◌, ℤ, pos, negsuc, eq_ℤ, ◌≡◌, refl, Bytes, none, some, true, List, [], ◌∷◌, ◌++◌,
  Outcome, ok, length, length-append, arith, ◌≤◌, ◌∙◌, if◌then◌else◌, Bool-cases, inl, inr,
}
use dcj_rtc.Base.Socket.{PipeAnswer, whole_int, no_int}
use dcj_rtc.Rtc.Msg.{RtcMsg}
use dcj_rtc.Rtc.Server.{
  RtcServer, CertificateAnswers, check_certificate, route, process_rtc_msg, stop, process_notify,
  live_workers,
}

-- `rtc_server_recv_notify`
unfoldable pub recv_notify :
    {W : Type 0} (crc32 : Bytes → ℕ)
    → PipeAnswer
    → CertificateAnswers
    → RtcServer W
    → Outcome (RtcServer W)
unfolding process_notify
recv_notify crc32 no_int answers s = ok s
recv_notify crc32 (whole_int msg) answers s = process_notify crc32 msg answers s

pub record Media (W : Type 0) : Type 0 where
  pub server : RtcServer W
  -- The numbers in the pipe, the oldest first.
  pub pipe : List ℤ
  -- The threads between `push_msg` and `notify` of `send_rtc_msg`.
  pub sending : ℕ
  -- The notices that `write` did not take.
  pub refused : ℕ

-- The notices of a message in the pipe.
abbrev pub notices : List ℤ → ℕ
notices [] = 0
notices (n ∷ ns) = let rest = notices ns in if eq_ℤ n (pos 1) then suc rest else rest

module _ {W : Type 0} (crc32 : Bytes → ℕ) where
  -- One step of a thread.
  pub data MediaStep : Media W → Media W → Type 0 where
    -- `push_msg` of `send_rtc_msg`
    pushes :
        {st : Media W} (m : RtcMsg)
        → MediaStep st (record st {
          server = record st.server { q_msg = st.server.q_msg ++ (m ∷ []) };
          sending = suc st.sending;
        })
    -- `notify(RTC_MSG)` of `send_rtc_msg`
    notifies :
        {st : Media W} {k : ℕ}
        → st.sending ≡ suc k
        → MediaStep st (record st { sending = k; pipe = st.pipe ++ (pos 1 ∷ []) })
    fails_to_notify :
        {st : Media W} {k : ℕ}
        → st.sending ≡ suc k
        → MediaStep st (record st { sending = k; refused = suc st.refused })
    -- `stop`
    stops : {st : Media W} → MediaStep st (record st { pipe = st.pipe ++ (pos 0 ∷ []) })
    -- The loop's callback on the first number, while the loop watches the pipe.
    handles :
        {st : Media W} {n : ℤ} {ns : List ℤ} (watcher : W) (answers : CertificateAnswers)
        (s' : RtcServer W)
        → st.server.pipe_watcher ≡ some watcher
        → st.pipe ≡ n ∷ ns
        → recv_notify crc32 (whole_int n) answers st.server ≡ ok s'
        → MediaStep st (record st { server = s'; pipe = ns })
    -- A read that gets no whole number.
    misreads : {st : Media W} → MediaStep st st

  -- From a server whose queue and pipe are empty.
  pub data Reachable (s : RtcServer W) : Media W → Type 0 where
    starts : s.q_msg ≡ [] → Reachable s (record { server = s; pipe = []; sending = 0; refused = 0 })
    goes_on : {st st' : Media W} → Reachable s st → MediaStep st st' → Reachable s st'

  -- Each message waits for its notice: in the pipe, still to be written, or refused.
  abbrev Accounted : Media W → Type 0
  Accounted st = notices st.pipe + st.sending + st.refused ≡ length st.server.q_msg

notices-append : (xs ys : List ℤ) → notices (xs ++ ys) ≡ notices xs + notices ys
notices-append [] ys = omega arith
notices-append (x ∷ xs) ys = ground (arith, notices-append xs ys)

notices-cons : (n : ℤ) (ns : List ℤ) → notices (n ∷ ns) ≡ notices (n ∷ []) + notices ns
notices-cons n ns = notices-append (n ∷ []) ns

module _ {W : Type 0} (crc32 : Bytes → ℕ) where
  check_certificate-q_msg :
      (answers : CertificateAnswers) (s : RtcServer W)
      → (check_certificate answers s).1.q_msg ≡ s.q_msg
  unfolding check_certificate
  check_certificate-q_msg answers s = ground arith

  route-q_msg : (m : RtcMsg) (s : RtcServer W) → (route crc32 m s).q_msg ≡ s.q_msg
  unfolding route
  route-q_msg m s = ground arith

  -- A notice takes one message, with or without a certificate and a worker.
  process_rtc_msg-takes :
      (answers : CertificateAnswers) (m : RtcMsg) (ms : List RtcMsg) (s : RtcServer W)
      → s.q_msg ≡ m ∷ ms
      → (s' : RtcServer W) × (process_rtc_msg crc32 answers s ≡ ok s') × (s'.q_msg ≡ ms)
  unfolding process_rtc_msg
  process_rtc_msg-takes answers m ms s e =
      let (ret, s1) = check_certificate answers (record s { q_msg = ms }) in
      let q1 : s1.q_msg ≡ ms = check_certificate-q_msg answers (record s { q_msg = ms }) in
      let m' : RtcMsg = record m { certificate = s1.certificate } in
      elim (Bool-cases (eq_ℤ ret (pos 0))) [
        | inl good ↦ (route crc32 m' s1, rw (e, process_rtc_msg, good) refl, route-q_msg m' s1 ∙ q1)
        | inr bad ↦ (s1, rw (e, process_rtc_msg, bad) refl, q1)
      ]

  -- A message is there for each notice.
  abbrev Served : ℕ → RtcServer W → Outcome (RtcServer W) → Type 0
  Served k s r = (s' : RtcServer W) × (r ≡ ok s') × (k + length s'.q_msg ≡ length s.q_msg)

  recv_notify-takes :
      (n : ℤ) (answers : CertificateAnswers) (s : RtcServer W)
      → notices (n ∷ []) ≤ length s.q_msg
      → (watcher : W) × (s.pipe_watcher ≡ some watcher)
      → Served (notices (n ∷ [])) s (recv_notify crc32 (whole_int n) answers s)
  unfolding recv_notify process_notify stop
  recv_notify-takes (pos zero) answers s h (watcher, e) = (
    record s {
      pipe_watcher = none;
      loop_stopped = true;
      closed = s.notify_send_fd ∷ s.notify_recv_fd ∷ s.closed;
      stopped = s.stopped ++ live_workers s.workers;
    },
    rw e refl,
    omega arith,
  )
  recv_notify-takes (pos (suc zero)) answers s h watched = go s.q_msg refl h
    where
      go :
          (q : List RtcMsg)
          → s.q_msg ≡ q
          → 1 ≤ length q
          → Served 1 s (recv_notify crc32 (whole_int (pos 1)) answers s)
      go [] e h = absurd (omega arith)
      go (m ∷ ms) e h =
          let (s', r, q) = process_rtc_msg-takes answers m ms s e in
          (s', r, rw (q, e) (omega arith))
  recv_notify-takes (pos (suc (suc n))) answers s h watched = (s, refl, ground arith)
  recv_notify-takes (negsuc n) answers s h watched = (s, refl, omega arith)

  MediaStep-Accounted :
      (st st' : Media W) → MediaStep crc32 st st' → Accounted crc32 st → Accounted crc32 st'
  MediaStep-Accounted st _ (pushes m) a = omega (arith, a, length-append st.server.q_msg (m ∷ []))
  MediaStep-Accounted st _ (notifies e) a = omega (arith, a, e, notices-append st.pipe (pos 1 ∷ []))
  MediaStep-Accounted st _ (fails_to_notify e) a = omega (arith, a, e)
  MediaStep-Accounted st _ stops a = omega (arith, a, notices-append st.pipe (pos 0 ∷ []))
  MediaStep-Accounted st _ (handles {n = n} {ns = ns} watcher answers s' there e r) a =
      let a' : notices (n ∷ ns) + st.sending + st.refused ≡ length st.server.q_msg = rw e at a in
      let (s1, r1, q) =
        recv_notify-takes n answers st.server (omega (arith, a', notices-cons n ns))
          (watcher, there) in
      let same : s1 ≡ s' = cc in
      let q' : notices (n ∷ []) + length s'.q_msg ≡ length st.server.q_msg = rw same at q in
      omega (arith, a', q', notices-cons n ns)
  MediaStep-Accounted st _ misreads a = a

  Reachable-Accounted : (s : RtcServer W) (st : Media W) → Reachable crc32 s st → Accounted crc32 st
  Reachable-Accounted s _ (starts e) = rw e refl
  Reachable-Accounted s _ (goes_on r t) = MediaStep-Accounted _ _ t (Reachable-Accounted s _ r)

  -- However the threads are interleaved, and whatever notices `write` refuses, the loop, while it
  -- watches the pipe, handles the next number in it without undefined behaviour: for a notice there
  -- is a message, and to quit there is the watcher.
  pub every_notice_finds_a_message :
      (s : RtcServer W) (st : Media W) (n : ℤ) (ns : List ℤ) (answers : CertificateAnswers)
      (watcher : W)
      → Reachable crc32 s st
      → st.pipe ≡ n ∷ ns
      → st.server.pipe_watcher ≡ some watcher
      → (s' : RtcServer W) × (recv_notify crc32 (whole_int n) answers st.server ≡ ok s')
  every_notice_finds_a_message s st n ns answers watcher r e there =
      let a = rw e at (Reachable-Accounted s st r) in
      let (s', r', q) =
        recv_notify-takes n answers st.server (omega (arith, a, notices-cons n ns))
          (watcher, there) in
      (s', r')

  -- When the pipe is empty and no thread is about to write, as many messages wait as notices were
  -- refused: with none refused, none is forgotten.
  pub waiting_messages :
      (s : RtcServer W) (st : Media W)
      → Reachable crc32 s st
      → st.pipe ≡ []
      → st.sending ≡ 0
      → length st.server.q_msg ≡ st.refused
  waiting_messages s st r e none_sending =
      let a = rw e at (Reachable-Accounted s st r) in omega (arith, a, none_sending)
