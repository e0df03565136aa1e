-- ===== src/Round/Browser.antt =====
-- A browser's push: the handler of signaling/src/action/push.go calls the server of xrtc_server/src,
-- whose threads answer it.
use dcj_rtc.Prelude.{
  ℕ, pos, ◌+◌, ◌<◌, ◌≤◌, ◌≡◌, ◌≢◌, refl, true, none, some, Option, Bytes, List, [], ◌∷◌, ◌++◌,
  Outcome, ok, fault, out_of_fuel, ◌>>=◌, length, Bool, ap, ◌∙◌, ◌^◌,
}
use dcj_rtc.Base.EventLoop.{Libev, IsLibev}
use dcj_rtc.Wire.{xhead_size}
use dcj_rtc.Rtc.Peer.{RtcBase}
use dcj_rtc.Rtc.Msg.{RtcMsg, max_res_buf}
use dcj_rtc.Rtc.Sdp.{Fingerprint, IceParameters}
use dcj_rtc.Rtc.Server
use dcj_rtc.Rtc.Server.{RtcServer, CertificateAnswers}
use dcj_rtc.Rtc.Worker.{RtcWorker, process_notify, send_rtc_msg}
use dcj_rtc.Signaling.Conn.{TcpConnection}
use dcj_rtc.Signaling.Framing.{short_connection}
use dcj_rtc.Signaling.Json.{JsonCpp, ReturnsAnyway}
use dcj_rtc.Signaling.Worker.{Worker, NewConnAnswers}
use dcj_rtc.Signaling.Events
use dcj_rtc.Signaling.Handlers
use dcj_rtc.Signaling.Handlers.{response_body, write_conn}
use dcj_rtc.Signaling.Handlers.Reading.{caller}
use dcj_rtc.Signaling.Handlers.Requests.{read_events_of}
use dcj_rtc.Signaling.Handlers.Write.{whole_writes}
use dcj_rtc.Proxy.Push.{
  PushReq, PushResp, push_data, returns, push_req, answer_to, execute, execute-answer_to,
}
use dcj_rtc.Proxy.Client.{
  Client, Timeouts, Ran, panicked, ran, timeouts, call_service, do_request, pick_server-next,
}
use dcj_rtc.Proxy.Xrpc.{XrpcResponse, new_request, write_request, read_response}
use dcj_rtc.Round.{Offers}
use dcj_rtc.Round.Agreed.{IsAgreed, Understands, IsForm, msg_of, IsAgreed-IsPush}
use dcj_rtc.Round.Request.{IsPush, IsNew}
use dcj_rtc.Round.Reply.{waiting}
use dcj_rtc.Round.Call.{IsIdle, push_gets_offer}

abbrev pub first_of : {A : Type 0} → List A → Outcome A
first_of [] = fault
first_of (x ∷ xs) = ok x

abbrev pub last_of : {A : Type 0} → List A → Outcome A
last_of [] = fault
last_of (x ∷ []) = ok x
last_of (x ∷ y ∷ ys) = last_of (y ∷ ys)

last_of-append : {A : Type 0} (xs : List A) (x : A) → last_of (xs ++ (x ∷ [])) ≡ ok x
last_of-append [] x = refl
last_of-append (y ∷ []) x = refl
last_of-append (y ∷ z ∷ zs) x = last_of-append (z ∷ zs) x

-- What a call comes to for the handler: an error, or what was read from the response.
abbrev pub called : {B : Type 0} → Ran (B × Option PushResp) → Option PushResp
called panicked = none
called (ran (c, resp)) = resp

abbrev pub sent_back : Outcome Bytes → Option Bytes
sent_back (ok reply) = some reply
sent_back fault = none
sent_back out_of_fuel = none

module _ {A : Type 0} (net : A → Timeouts → Bytes → Option Bytes) (to_json : PushReq → Option Bytes)
    (from_json : Bytes → Option PushResp) where
  -- The handler's call, with a client that has some server, if that sends a response.
  call_service-answered :
      (req : PushReq) (content request reply : Bytes) (response : XrpcResponse) (resp : PushResp)
      (log_id : ℕ) (client : Client A)
      → 0 < length client.selector.servers
      → to_json req ≡ some content
      → write_request (new_request content log_id) ≡ some request
      → ((a : A) → net a (timeouts client) request ≡ some reply)
      → read_response reply ≡ some response
      → from_json response.body ≡ some resp
      → called (call_service net to_json from_json log_id req (some client)) ≡ some resp
  unfolding call_service do_request
  call_service-answered req content request reply response resp log_id client some_server text made
        served read parsed =
      let (a, e, picked) = pick_server-next client.selector some_server in
      rw (call_service, text, do_request, picked, made, served a, read, parsed) refl

module _ {W T V : Type 0} (ev : Libev W T) (json : JsonCpp V) (crc32 : Bytes → ℕ) (base : RtcBase)
    (self : ℕ) (notify_ok : List RtcMsg → Bool) (now later fd : ℕ) (events : List ℕ)
    (g : Worker W T) (s : RtcServer W) (w : RtcWorker W) (certs : CertificateAnswers)
    (params : IceParameters) (stream : ℕ) (na : NewConnAnswers) (fresh : ℕ) where
  -- What the server sends on a connection for the bytes of one request: its three threads in turn,
  -- each woken by the one before, and the kernel takes the reply whole.
  unfoldable pub serve : Bytes → Outcome Bytes
  serve request = do
    (rest, g1) ← read_events_of ev json self notify_ok now fd events request g
    m ← first_of g1.queued
    s' ← Server.process_notify crc32 (pos 1) certs (Server.send_rtc_msg true m s).1
    (address, m1) ← last_of s'.sent
    w' ← process_notify base (pos 1) params stream (send_rtc_msg m1 true w).1
    (signaling, m2) ← last_of w'.answers
    g2 ←
        Handlers.process_notify ev json (pos 2) na fresh later true
          (Events.send_rtc_msg m2 true g1).1
    (g3, reply) ← write_conn ev (whole_writes (waiting fd g2)) later fd g2
    ok reply

module _ {W T V A : Type 0} (ev : Libev W T) (laws : IsLibev ev) (json : JsonCpp V)
    (crc32 : Bytes → ℕ) (base : RtcBase) (fp : Fingerprint) (self : ℕ)
    (notify_ok : List RtcMsg → Bool) (to_json : PushReq → Option Bytes)
    (from_json : Bytes → Option PushResp) where
  -- A browser's push gets the offer: the handler of the proxy calls the server, whose three
  -- threads answer, and what the handler writes to the browser is the offer alone, for the audio
  -- and video that the form asks for. The form is one that the handler accepts, the proxy has a
  -- client with some server, the server finds in the content the members that the handler wrote,
  -- the handler reads the reply with that offer as it was written, header and content have fewer
  -- than 65535 bytes, and the log id has 32 bits; the connection is new and its descriptor not 0,
  -- its worker's queues are empty, the media server has its workers and some certificate, and it
  -- and the media worker are idle; there are as many reads as bytes, no notice is refused, the
  -- reply fits its buffer, and the network brings the server's bytes; the fingerprint of the
  -- certificate that the push gets can be taken, and the builds go on where a function ends
  -- without its `return`.
  pub browser_gets_offer :
      (form : Bytes → Option Bytes) (uid log_id : ℕ) (client : Client A) (content : Bytes)
      (now later fd p : ℕ) (events : List ℕ) (g : Worker W T) (c : TcpConnection W T)
      (s : RtcServer W) (w : RtcWorker W) (certs : CertificateAnswers) (params : IceParameters)
      (stream : ℕ) (na : NewConnAnswers) (fresh : ℕ)
      → IsForm form uid
      → 0 < length client.selector.servers
      → IsAgreed json to_json (push_req form uid) content
      → log_id < 2 ^ 32
      → xhead_size + length content < short_connection
      → IsNew ev fd p g c
      → fd ≢ 0
      → self ≢ 0
      → g.queued ≡ []
      → g.q_rtc_msg ≡ []
      → ((q : List RtcMsg) → notify_ok q ≡ true)
      → xhead_size + length content ≤ length events
      → IsIdle certs base fp s w
      → ReturnsAnyway json
      → ((certificate : ℕ) (sdp : Bytes)
          → let m = msg_of json (caller self notify_ok p fd) (push_req form uid) log_id in
            Offers params fp m sdp
            → length (response_body json (record m { certificate = certificate; sdp = sdp }))
              ≤ max_res_buf)
      → ((sdp : Bytes)
          → Offers params fp
              (msg_of json (caller self notify_ok p fd) (push_req form uid) log_id)
              sdp
          → Understands json from_json sdp)
      → let server =
          serve ev json crc32 base self notify_ok now later fd events g s w certs params stream na
            fresh in
        let call : PushReq → Option PushResp = λ req. called (
          call_service
            (λ addr deadlines request. sent_back (server request))
            to_json
            from_json
            log_id
            req
            (some client)) in
        (sdp : Bytes) × (execute call form ≡ returns (push_data sdp ∷ []))
        × Offers params fp (msg_of json (caller self notify_ok p fd) (push_req form uid) log_id) sdp
  unfolding answer_to serve push_req
  browser_gets_offer form uid log_id client content now later fd p events g c s w certs params
        stream na fresh f some_server agreed bounded short new pos_fd pos_self gq gr sent enough
        idle anyway fits understood =
      let k = caller self notify_ok p fd in
      let m = msg_of json k (push_req form uid) log_id in
      let push : IsPush json k content log_id m =
        IsAgreed-IsPush json to_json (push_req form uid) content k log_id agreed refl bounded
          short in
      let (
        request,
        g1,
        cert,
        sdp,
        s',
        w',
        g2,
        g3,
        reply,
        response,
        (
          made, run1, queued, run_s, sent_s, run_w, answers, run_g, run_write, read, _, body,
          offers, waits, _,
        ),
      ) =
        push_gets_offer ev laws json crc32 base fp self notify_ok content log_id m now later fd p
          events g c s w certs params stream na fresh push new pos_fd pos_self gq gr (sent (m ∷ []))
          enough idle anyway fits in
      let server =
        serve ev json crc32 base self notify_ok now later fd events g s w certs params stream na
          fresh in
      let served : server request ≡ ok reply =
        rw
          (
            serve,
            run1,
            queued,
            run_s,
            ap last_of sent_s ∙ last_of-append s.sent _,
            run_w,
            ap last_of answers ∙ last_of-append w.answers _,
            run_g,
            waits,
            run_write,
          )
          refl in
      let called_it =
        call_service-answered (λ addr deadlines q. sent_back (server q)) to_json from_json
          (push_req form uid) content request reply response _ log_id client some_server
          agreed.written made (λ a. ap sent_back served) read
          (ap from_json body ∙ understood sdp offers) in
      (
        sdp,
        execute-answer_to _ form uid f.number f.positive f.named
            ∙ ap (λ resp. returns (answer_to resp ∷ [])) called_it,
        offers,
      )
