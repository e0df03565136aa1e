-- ===== src/Round.antt =====
-- A push on its way through the threads of xrtc_server/src/server: from the signaling worker that
-- queues it over the media server and a media worker back to the client's connection.
pub mod Request
pub mod Accept
pub mod Reply
pub mod Call
pub mod Agreed
pub mod Browser
use dcj_rtc.Prelude.{
  ℕ, ◌%◌, ◌^◌, ◌≤◌, ◌||◌, pos, eq_ℤ, not, true, ◌≡◌, ◌≢◌, refl, Bytes, Option, some, List, [], ◌∷◌,
  ◌++◌, ok, ◌==◌, length, get_or, lt-length_of_get_or, if◌then◌else◌, arith,
}
use dcj_rtc.Base.EventLoop.{Libev, IsLibev}
use dcj_rtc.Wire.{xhead_size}
use dcj_rtc.Rtc.Peer.{RtcBase, CanDescribe}
use dcj_rtc.Rtc.Msg.{RtcMsg, cmdno_push, max_res_buf}
use dcj_rtc.Rtc.Sdp.{Fingerprint, IceParameters}
use dcj_rtc.Rtc.Sdp.Text.{to_sdp}
use dcj_rtc.Rtc.Peer.Offer.{offered}
use dcj_rtc.Rtc.Streams.{push_options}
use dcj_rtc.Rtc.Server
use dcj_rtc.Rtc.Server.{RtcServer, CertificateAnswers}
use dcj_rtc.Rtc.Server.Routing.{IsStaffed, process_notify-routes}
use dcj_rtc.Rtc.Worker.{RtcWorker, process_notify, send_rtc_msg}
use dcj_rtc.Rtc.Worker.Answers.{process_notify-answers}
use dcj_rtc.Signaling.Conn.{TcpConnection}
use dcj_rtc.Signaling.Json.{JsonCpp, ReturnsAnyway}
use dcj_rtc.Signaling.Worker.{Worker, NewConnAnswers, update}
use dcj_rtc.Signaling.Table.{IsTable}
use dcj_rtc.Signaling.Events
use dcj_rtc.Signaling.Handlers
use dcj_rtc.Signaling.Handlers.{add_reply, offer_target, response_body, process_rtc_msg}
use dcj_rtc.Signaling.Handlers.Response.{reply_for, response_server_offer-reply}

-- The text is the offer for the message's push.
abbrev pub Offers : (params : IceParameters) (fp : Fingerprint) → RtcMsg → Bytes → Type 0
Offers params fp m text =
    to_sdp
      (offered (push_options (not (eq_ℤ m.audio (pos 0))) (not (eq_ℤ m.video (pos 0)))) params fp)
    ≡ ok text

-- The certificate that a push gets: the one that the media server has, or a new one.
abbrev pub certificate_for : {W : Type 0} → CertificateAnswers → RtcServer W → ℕ
certificate_for certs s =
    if s.certificate == 0 || certs.has_expired then certs.generated else s.certificate

-- A request to push whose connection is still the one that its descriptor has.
pub record IsPending {W T V : Type 0} (json : JsonCpp V) (params : IceParameters) (fp : Fingerprint)
    (m : RtcMsg) (g : Worker W T) (c : TcpConnection W T) : Type 0 where
  pub push : m.cmdno ≡ cmdno_push
  pub fd : ℕ
  pub same_fd : m.fd ≡ pos fd
  pub positive : fd ≢ 0
  pub worker : m.worker ≢ 0
  pub not_null : m.conn ≢ 0
  pub owned : get_or g.conns fd 0 ≡ m.conn
  pub alive : g.heap m.conn ≡ some c
  pub header : xhead_size ≤ length c.querybuf
  -- The reply's buffer holds the body.
  pub fits :
      (certificate : ℕ) (text : Bytes)
      → Offers params fp m text
      → length (response_body json (record m { certificate = certificate; sdp = text }))
        ≤ max_res_buf

-- The target of a reply does not hang on what the other threads put into the message.
offer_target-IsPending :
    {W T V : Type 0} (json : JsonCpp V) (params : IceParameters) (fp : Fingerprint) (m : RtcMsg)
    (g : Worker W T) (c : TcpConnection W T) (certificate : ℕ) (text : Bytes) (q : List RtcMsg)
    → IsPending json params fp m g c
    → offer_target (record m { certificate = certificate; sdp = text }) (record g { q_rtc_msg = q })
      ≡ some m.conn
unfolding offer_target
offer_target-IsPending json params fp m g c certificate text q h =
    let inside = lt-length_of_get_or g.conns h.fd 0 (ground (arith, h.owned, h.not_null)) in
    ground (arith, h.same_fd, h.positive, h.not_null, h.owned, inside)

module _ {W T V : Type 0} (ev : Libev W T) (laws : IsLibev ev) (json : JsonCpp V)
    (crc32 : Bytes → ℕ) (base : RtcBase) (fp : Fingerprint) where
  -- A push that a client's connection waits for goes through the threads: the media server hands it
  -- on with its certificate, the media worker of its stream answers with the offer, and the
  -- signaling worker queues the reply with that offer for the connection and keeps its table. The
  -- three queues are empty before, the media server has its workers, the media worker knows no
  -- stream, the certificate's fingerprint can be taken, the build goes on where a function ends
  -- without its `return`, and no notice is refused.
  pub push_is_answered :
      (m : RtcMsg) (s : RtcServer W) (w : RtcWorker W) (g : Worker W T) (c : TcpConnection W T)
      (certs : CertificateAnswers) (params : IceParameters) (p : ℕ) (na : NewConnAnswers)
      (fresh now : ℕ)
      → IsStaffed s
      → s.q_msg ≡ []
      → certs.generated ≢ 0
      → CanDescribe base (certificate_for certs s) fp
      → ReturnsAnyway json
      → w.q_msg ≡ []
      → w.streams.push_streams ≡ []
      → IsTable ev g
      → g.q_rtc_msg ≡ []
      → IsPending json params fp m g c
      → (certificate : ℕ) × (text : Bytes) × (s' : RtcServer W) × (w' : RtcWorker W) × (g' : Worker
          W T)
        × (let m1 = record m { certificate = certificate } in
            let m2 = record m1 { sdp = text } in
            let address = get_or s.workers (crc32 m.stream_name % 2 ^ 32 % length s.workers) 0 in
            (Server.process_notify crc32 (pos 1) certs (Server.send_rtc_msg true m s).1 ≡ ok s')
            × (s'.sent ≡ s.sent ++ ((address, m1) ∷ []))
            × Offers params fp m text
            × (process_notify base (pos 1) params p (send_rtc_msg m1 true w).1 ≡ ok w')
            × (w'.answers ≡ w.answers ++ ((m.worker, m2) ∷ []))
            × (Handlers.process_notify ev json
                  (pos 2)
                  na
                  fresh
                  now
                  true
                  (Events.send_rtc_msg m2 true g).1
                ≡ ok g')
            × (g'.heap m.conn ≡ some (add_reply ev c (reply_for json c m2)))
            × IsTable ev g')
  unfolding Events.send_rtc_msg send_rtc_msg Handlers.process_notify process_rtc_msg
  push_is_answered m s w g c certs params p na fresh now staffed sq made prints returns wq none_yet
        v gq h =
      let s0 = (Server.send_rtc_msg true m s).1 in
      let s0q : s0.q_msg ≡ m ∷ [] = rw sq refl in
      let staffed0 : IsStaffed s0 = record {
        some_worker = staffed.some_worker;
        bounded = staffed.bounded;
        worker_num = staffed.worker_num;
        present = staffed.present;
      } in
      let cert : ℕ = certificate_for certs s in
      let (ne, run) = process_notify-routes crc32 m [] certs s0 staffed0 s0q made in
      let m1 : RtcMsg = record m { certificate = cert } in
      let w0 = (send_rtc_msg m1 true w).1 in
      let w0q : w0.q_msg ≡ m1 ∷ [] = rw wq refl in
      let (text, w', t, run_w, ans, gone, streams) =
        process_notify-answers base params p m1 [] fp w0 w0q h.push h.worker none_yet ne prints in
      let m2 : RtcMsg = record m1 { sdp = text } in
      let g1 : Worker W T = record g { q_rtc_msg = [] } in
      let v1 : IsTable ev g1 = record { entries = v.entries; listed = v.listed } in
      let (run_g, v2) =
        response_server_offer-reply ev laws json m2 g1 m.conn c v1
          (offer_target-IsPending json params fp m g c cert text [] h) h.alive h.header
          (h.fits cert text t) in
      (
        cert,
        text,
        _,
        w',
        update g1 m.conn (add_reply ev c (reply_for json c m2)),
        (run, refl, t, run_w, ans, ground (arith, gq, h.push, run_g, returns.1), ground arith, v2),
      )
