-- ===== src/Round/Call.antt =====
-- A whole call of a client: its request, the way through the threads, and the response it reads.
use dcj_rtc.Prelude.{
  ℕ, pos, ◌+◌, ◌≤◌, ◌≡◌, ◌≢◌, sym, ap, ◌∙◌, true, some, Bytes, List, [], ◌∷◌, ◌++◌, ok, get_or,
  length, arith, ◌%◌, ◌^◌, Bool,
}
use dcj_rtc.Base.EventLoop.{Libev, IsLibev}
use dcj_rtc.Base.Socket.{took}
use dcj_rtc.Wire.{xhead_size, xhead_magic_num, head_magic_num, read_xhead}
use dcj_rtc.Rtc.Peer.{RtcBase, CanDescribe}
use dcj_rtc.Rtc.Msg.{RtcMsg, max_res_buf}
use dcj_rtc.Rtc.Sdp.{Fingerprint, IceParameters}
use dcj_rtc.Rtc.Server
use dcj_rtc.Rtc.Server.{RtcServer, CertificateAnswers}
use dcj_rtc.Rtc.Server.Routing.{IsStaffed}
use dcj_rtc.Rtc.Worker.{RtcWorker, process_notify, send_rtc_msg}
use dcj_rtc.Signaling.Conn.{TcpConnection}
use dcj_rtc.Signaling.Json.{JsonCpp, ReturnsAnyway}
use dcj_rtc.Signaling.Worker.{Worker, NewConnAnswers}
use dcj_rtc.Signaling.Table.{IsTable}
use dcj_rtc.Signaling.Events
use dcj_rtc.Signaling.Handlers
use dcj_rtc.Signaling.Handlers.{add_reply, response_body, write_conn}
use dcj_rtc.Signaling.Handlers.Response.{reply_for}
use dcj_rtc.Signaling.Handlers.Reading.{caller}
use dcj_rtc.Signaling.Handlers.Requests.{read_events_of}
use dcj_rtc.Proxy.Xrpc.{XrpcResponse, new_request, write_request, read_response}
use dcj_rtc.Round.{IsPending, Offers, certificate_for, push_is_answered}
use dcj_rtc.Round.Reply.{success, response_body-success, waiting, reply_is_read}
use dcj_rtc.Round.Request.{IsPush, IsNew, IsFrom, push_fields-IsFrom, request_is_queued}

-- What the other two threads have, and what they are given: the media server has its workers, its
-- queue is empty, a certificate can be made, and the fingerprint of the one that the push gets can be
-- taken; the media worker knows no stream and has no message. The media worker's build goes on where
-- `set_rtcp_mux` ends without its `return`.
pub record IsIdle {W : Type 0} (certs : CertificateAnswers) (base : RtcBase) (fp : Fingerprint)
    (s : RtcServer W) (w : RtcWorker W) : Type 0 where
  pub staffed : IsStaffed s
  pub no_message : s.q_msg ≡ []
  pub generated : certs.generated ≢ 0
  pub prints : CanDescribe base (certificate_for certs s) fp
  pub worker_idle : w.q_msg ≡ []
  pub no_stream : w.streams.push_streams ≡ []

module _ {W T V : Type 0} (ev : Libev W T) (laws : IsLibev ev) (json : JsonCpp V)
    (crc32 : Bytes → ℕ) (base : RtcBase) (fp : Fingerprint) (self : ℕ)
    (notify_ok : List RtcMsg → Bool) where
  -- A client's call for a push succeeds: however the kernel cuts the request into reads, the three
  -- threads, run in turn, bring the client a response with its own log id and the offer for the
  -- stream. The connection is new and its descriptor not 0, its worker, the media server and the
  -- media worker are idle, and the media server has its workers and some certificate; there are as
  -- many reads as bytes, no notice is refused, the reply fits its buffer, and the kernel takes it
  -- whole; header and content have fewer than 65535 bytes, the fingerprint of the certificate that
  -- the push gets can be taken, and the builds go on where a function ends without its `return`.
  pub push_gets_offer :
      (content : Bytes) (log_id : ℕ) (m : RtcMsg) (now later fd p : ℕ) (events : List ℕ)
      (g : Worker W T) (c : TcpConnection W T) (s : RtcServer W) (w : RtcWorker W)
      (certs : CertificateAnswers) (params : IceParameters) (stream : ℕ) (na : NewConnAnswers)
      (fresh : ℕ)
      → IsPush json (caller self notify_ok p fd) content log_id m
      → IsNew ev fd p g c
      → fd ≢ 0
      → self ≢ 0
      → g.queued ≡ []
      → g.q_rtc_msg ≡ []
      → notify_ok (m ∷ []) ≡ true
      → xhead_size + length content ≤ length events
      → IsIdle certs base fp s w
      → ReturnsAnyway json
      → ((certificate : ℕ) (sdp : Bytes)
          → Offers params fp m sdp
          → length (response_body json (record m { certificate = certificate; sdp = sdp }))
            ≤ max_res_buf)
      → (request : Bytes) × (g1 : Worker W T) × (certificate : ℕ) × (sdp : Bytes) × (s' : RtcServer
          W)
        × (w' : RtcWorker W) × (g2 : Worker W T) × (g3 : Worker W T) × (reply : Bytes)
        × (response : XrpcResponse) × (let m1 = record m { certificate = certificate } in
            let m2 = record m1 { sdp = sdp } in
            let address = get_or s.workers (crc32 m.stream_name % 2 ^ 32 % length s.workers) 0 in
            (write_request (new_request content log_id) ≡ some request)
            × (read_events_of ev json self notify_ok now fd events request g ≡ ok ([], g1))
            × (g1.queued ≡ m ∷ [])
            × (Server.process_notify crc32 (pos 1) certs (Server.send_rtc_msg true m s).1 ≡ ok s')
            × (s'.sent ≡ s.sent ++ ((address, m1) ∷ []))
            × (process_notify base (pos 1) params stream (send_rtc_msg m1 true w).1 ≡ ok w')
            × (w'.answers ≡ w.answers ++ ((self, m2) ∷ []))
            × (Handlers.process_notify ev json
                  (pos 2)
                  na
                  fresh
                  later
                  true
                  (Events.send_rtc_msg m2 true g1).1
                ≡ ok g2)
            × (write_conn ev (took (length reply) ∷ []) later fd g2 ≡ ok (g3, reply))
            × (read_response reply ≡ some response)
            × (response.header.log_id ≡ log_id)
            × (response.body ≡ success json sdp)
            × Offers params fp m sdp
            × (waiting fd g2 ≡ reply ∷ [])
            × IsTable ev g3)
  unfolding new_request read_xhead
  push_gets_offer content log_id m now later fd p events g c s w certs params stream na fresh push
        new pos_fd pos_self gq gr sent enough idle returns fits =
      let (
        request, g1, c1, made, run1, queued, q, own, alive, same_fd, buffer, header, len,
        none_waits, v1,
      ) =
        request_is_queued ev json self notify_ok content log_id m now fd p events g c push new
          (rw gq sent) enough in
      let from : IsFrom (caller self notify_ok p fd) m =
        push_fields-IsFrom json (caller self notify_ok p fd) push.root log_id m push.fields in
      let long : xhead_size ≤ length c1.querybuf = omega (arith, ap length buffer) in
      let magic : head_magic_num c1.querybuf ≡ xhead_magic_num = ap (λ x. x.magic_num) header in
      let pending : IsPending json params fp m g1 c1 = record {
        push = from.push;
        fd = fd;
        same_fd = from.fd;
        positive = pos_fd;
        worker = λ e. pos_self (sym from.worker ∙ e);
        not_null = λ e. new.not_null (sym from.conn ∙ e);
        owned = own ∙ sym from.conn;
        alive = ap g1.heap from.conn ∙ alive;
        header = long;
        fits = fits;
      } in
      let (cert, sdp, s', w', g2, (run_s, sent_s, sdp_text, run_w, answers, run_g, alive2, v2)) =
        push_is_answered ev laws json crc32 base fp m s w g1 c1 certs params stream na fresh later
          idle.staffed idle.no_message idle.generated idle.prints returns idle.worker_idle
          idle.no_stream v1 (q ∙ gr) pending in
      let m2 : RtcMsg = record m { certificate = cert; sdp = sdp } in
      let (g3, run_write, read, waits, v3) =
        reply_is_read ev laws json m2 later fd p g2 c1 v2 pos_fd new.not_null same_fd none_waits
          (ap g2.heap (sym from.conn) ∙ alive2) long magic (fits cert sdp sdp_text) in
      let body : response_body json m2 ≡ success json sdp =
        response_body-success json m2 from.err_no in
      (
        request,
        g1,
        cert,
        sdp,
        s',
        w',
        g2,
        g3,
        reply_for json c1 m2,
        _,
        (
          made,
          run1,
          queued ∙ ap (λ x. x ++ (m ∷ [])) gq,
          run_s,
          sent_s,
          run_w,
          answers ∙ ap (λ x. w.answers ++ ((x, m2) ∷ [])) from.worker,
          run_g,
          run_write,
          read,
          ap (λ x. x.log_id) header,
          body,
          sdp_text,
          waits,
          v3,
        ),
      )
