-- ===== src/Rtc/Worker/Answers.antt =====
-- The answer to a push.
use dcj_rtc.Prelude.{
  ℕ, pos, eq_ℤ, as_uint32, not, ◌≡◌, ◌≢◌, refl, Bytes, List, [], ◌∷◌, ◌++◌, ok, arith,
}
use dcj_rtc.Rtc.Peer.{RtcBase, CanDescribe}
use dcj_rtc.Rtc.Msg.{RtcMsg, cmdno_push}
use dcj_rtc.Rtc.Sdp.{Fingerprint, IceParameters}
use dcj_rtc.Rtc.Sdp.Text.{to_sdp}
use dcj_rtc.Rtc.Peer.Offer.{offered}
use dcj_rtc.Rtc.Streams.{push_options}
use dcj_rtc.Rtc.Streams.Kept.{create_push_stream-offered}
use dcj_rtc.Rtc.Worker.{RtcWorker, answer_push, process_push, process_rtc_msg, process_notify}

-- The push message at the head of the queue is taken off it and answered: the signaling worker that
-- it names gets it back with the offer to receive what it asks for, and all else in it as it was.
-- The worker knows no stream before and after, and the certificate's fingerprint can be taken.
pub process_notify-answers :
    {W : Type 0} (base : RtcBase) (params : IceParameters) (p : ℕ) (m : RtcMsg) (ms : List RtcMsg)
    (fp : Fingerprint) (w : RtcWorker W)
    → w.q_msg ≡ m ∷ ms
    → m.cmdno ≡ cmdno_push
    → m.worker ≢ 0
    → w.streams.push_streams ≡ []
    → m.certificate ≢ 0
    → CanDescribe base m.certificate fp
    → (text : Bytes) × (w' : RtcWorker W) × (to_sdp (
          offered
            (push_options (not (eq_ℤ m.audio (pos 0))) (not (eq_ℤ m.video (pos 0))))
            params
            fp)
        ≡ ok text)
      × (process_notify base (pos 1) params p w ≡ ok w')
      × (w'.answers ≡ w.answers ++ ((m.worker, record m { sdp = text }) ∷ []))
      × (w'.q_msg ≡ ms)
      × (w'.streams.push_streams ≡ [])
unfolding process_notify process_rtc_msg process_push answer_push
process_notify-answers base params p m ms fp w q push known none_yet ne e =
    let (text, s, streams, t, c, empty, heap, name) =
      create_push_stream-offered base params p m.uid m.stream_name (not (eq_ℤ m.audio (pos 0)))
        (not (eq_ℤ m.video (pos 0))) (as_uint32 m.log_id) m.certificate fp w.streams none_yet ne
        e in
    (
      text,
      record w {
        q_msg = ms;
        streams = streams;
        answers = w.answers ++ ((m.worker, record m { sdp = text }) ∷ []);
      },
      t,
      ground (arith, c),
      refl,
      refl,
      empty,
    )
