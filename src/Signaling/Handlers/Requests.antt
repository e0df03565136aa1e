-- ===== src/Signaling/Handlers/Requests.antt =====
-- A request on its way from the kernel's buffer of a descriptor to the media server's queue, read by
-- the events of `_read_conn` in xrtc_server/src/server/signaling_worker.cpp.
use dcj_rtc.Prelude.{
  ℕ, suc, pos, ◌+◌, ◌<◌, ◌≤◌, ◌≡◌, refl, ◌∙◌, Bytes, List, [], ◌∷◌, ◌++◌, Outcome, ok, ◌>>=◌,
  length, take, drop, arith, length-drop, append_assoc, append-nil, ap, subst, Bool,
}
use dcj_rtc.Base.EventLoop.{Libev}
use dcj_rtc.Base.Socket.{received}
use dcj_rtc.Rtc.Msg.{RtcMsg}
use dcj_rtc.Wire.{xhead_size, head_body_len}
use dcj_rtc.Signaling.Conn.{TcpConnection}
use dcj_rtc.Signaling.Framing.{short_connection}
use dcj_rtc.Signaling.Framing.Stream.{served}
use dcj_rtc.Signaling.Json.{JsonCpp}
use dcj_rtc.Signaling.Request.{process_request}
use dcj_rtc.Signaling.Worker.{Worker}
use dcj_rtc.Signaling.Handlers.{read_conn}
use dcj_rtc.Signaling.Handlers.Reading.OneRead.{read-append-rest}
use dcj_rtc.Signaling.Handlers.Reading.{caller, IsReading, IsReading-entry, asked, read_conn-Reads}

module _ {W T V : Type 0} (ev : Libev W T) (json : JsonCpp V) (self : ℕ)
    (notify_ok : List RtcMsg → Bool) where
  -- The bytes `stream` come in for `fd`. At each event the kernel has some of those that are left,
  -- one at least and one more than the event's number at most; a read takes what it asked for of
  -- them. The result is what is left in the end, and the worker.
  unfoldable pub read_events_of :
      (now fd : ℕ) (events : List ℕ) → Bytes → Worker W T → Outcome (Bytes × Worker W T)
  read_events_of now fd [] stream w = ok (stream, w)
  read_events_of now fd (n ∷ ns) [] w = ok ([], w)
  read_events_of now fd (n ∷ ns) (x ∷ xs) w =
      read_conn ev json 3 self notify_ok (received (take (suc n) (x ∷ xs))) now fd w >>= λ w'.
      read_events_of now fd ns (drop (length (take (asked fd w) (take (suc n) (x ∷ xs)))) (x ∷ xs))
        w'

  -- After the last byte.
  abbrev pub Queued :
      (fd p : ℕ) (b : Bytes) (q0 q1 : List RtcMsg) (w : Worker W T) (c : TcpConnection W T)
      → Outcome (Bytes × Worker W T)
      → Type 0
  Queued fd p b q0 q1 w c run =
      (w' : Worker W T) × (c' : TcpConnection W T) × (run ≡ ok ([], w'))
      × IsReading ev json self notify_ok fd p b q0 w' c'
      × (w'.queued ≡ q1)
      × (c'.reply_msgs ≡ c.reply_msgs)
      × (w'.q_rtc_msg ≡ w.q_rtc_msg)

  pub read_events_of-Queued :
      (now fd p : ℕ) (ns : List ℕ) (b stream : Bytes) (q0 q1 : List RtcMsg) (w : Worker W T)
      (c : TcpConnection W T)
      → IsReading ev json self notify_ok fd p b q0 w c
      → served (process_request json (caller self notify_ok p fd)) (b ++ stream) q0 ≡ ok (pos 0, q1)
      → length (b ++ stream) ≡ xhead_size + head_body_len (b ++ stream)
      → length (b ++ stream) < short_connection
      → length stream ≤ length ns
      → Queued fd p (b ++ stream) q0 q1 w c (read_events_of now fd ns stream w)
  unfolding read_events_of
  read_events_of-Queued now fd p [] b [] q0 q1 w c i whole exact small enough =
      (w, c, refl, rw append-nil i, done, refl, refl)
    where
      done : w.queued ≡ q1
      done = ground (arith, append-nil b, i.queue)
  read_events_of-Queued now fd p (n ∷ ns) b [] q0 q1 w c i whole exact small enough =
      (w, c, refl, rw append-nil i, done, refl, refl)
    where
      done : w.queued ≡ q1
      done = ground (arith, append-nil b, i.queue)
  read_events_of-Queued now fd p [] b (x ∷ xs) q0 q1 w c i whole exact small enough =
      absurd (omega arith)
  read_events_of-Queued now fd p (n ∷ ns) b (x ∷ xs) q0 q1 w c i whole exact small enough =
      let d = take c.bytes_expected (take (suc n) (x ∷ xs)) in
      let rest = drop (length d) (x ∷ xs) in
      let split = read-append-rest c.bytes_expected (suc n) (x ∷ xs) in
      let joined : (b ++ d) ++ rest ≡ b ++ (x ∷ xs) =
        append_assoc b d rest ∙ ap (λ t. b ++ t) split in
      let ((w1, c1, run, i1, replies, q), some_read) =
        read_conn-Reads ev json self notify_ok now fd p n x b xs q0 q1 w c i whole exact small d
          rest refl split in
      let (w2, c2, run2, i2, queued, replies2, q2) =
        read_events_of-Queued now fd p ns (b ++ d) rest q0 q1 w1 c1 i1 (rw joined whole)
          (rw joined exact) (rw joined small) (omega (arith, length-drop (length d) (x ∷ xs))) in
      (
        w2,
        c2,
        rw (run, (IsReading-entry ev json self notify_ok i).1) run2,
        subst (λ x. IsReading ev json self notify_ok fd p x q0 w2 c2) joined i2,
        queued,
        replies2 ∙ replies,
        q2 ∙ q,
      )
