-- ===== src/Examples/Browser.antt =====
-- A browser's push, through the proxy and the server.
use dcj_rtc.Prelude.{
  ℕ, pos, ◌≤◌, ◌≡◌, refl, true, Bytes, Option, some, List, [], ◌∷◌, Outcome, ok, fault, out_of_fuel,
  codes, arith, length, if◌then◌else◌, subst, bytes_eq,
}
use dcj_rtc.Prelude.Text.{bytes_eq, decimal_int}
use dcj_rtc.Rtc.Msg.{RtcMsg, max_res_buf}
use dcj_rtc.Rtc.Sdp.{has_content, find_transport}
use dcj_rtc.Rtc.Sdp.Text.{to_sdp}
use dcj_rtc.Signaling.Json.{ReturnsAnyway, JsonCpp, Field, number, text}
use dcj_rtc.Signaling.Handlers.{response_body}
use dcj_rtc.Signaling.Handlers.Reading.{caller}
use dcj_rtc.Proxy.Push.{PushReq, PushResp, push_data, returns, parse_uint, push_req, flag, execute}
use dcj_rtc.Proxy.Client.{Client, call_service}
use dcj_rtc.Round.{Offers}
use dcj_rtc.Round.Agreed.{IsAgreed, Understands, IsForm, msg_of}
use dcj_rtc.Round.Browser.{serve, called, sent_back, browser_gets_offer}
use dcj_rtc.Examples.Fixtures.{small_ev, small_ev-IsLibev, small_json, one_worker, conn}
use dcj_rtc.Examples.Round.{
  checksum, media_server, media_worker, digest, has_digest, credentials, generates, no_conn,
  single_bytes, threads-IsIdle, conn-IsNew,
}

last_text : List (Bytes × Field) → Bytes
last_text [] = []
last_text ((key, number n) ∷ rest) = last_text rest
last_text ((key, text value) ∷ []) = value
last_text ((key, text value) ∷ next ∷ rest) = last_text (next ∷ rest)

-- A JSON library whose texts keep the last member of the reply.
abbrev kept_json : JsonCpp Bytes
kept_json = record small_json { write_string = last_text }

abbrev to_json : PushReq → Option Bytes
to_json req = some (codes "{}")

abbrev from_json : Bytes → Option PushResp
from_json body =
    some (record { err_no = pos 0; err_msg = codes "process sdp success"; offer = body })

-- The user 7 asks for the stream `cam`, with audio and video.
abbrev form : Bytes → Option Bytes
form key =
    if bytes_eq key (codes "uid")
    then some (codes "7")
    else if bytes_eq key (codes "streamName")
    then some (codes "cam")
    else some (codes "1")

form-IsForm : IsForm form 7
unfolding parse_uint bytes_eq
form-IsForm = record { number = refl; positive = omega arith; named = refl }

form-IsAgreed : IsAgreed kept_json to_json (push_req form 7) (codes "{}")
unfolding push_req flag bytes_eq last_text
form-IsAgreed = record {
  written = refl;
  root = codes "{}";
  parsed = refl;
  cmdno = refl;
  uid = refl;
  stream_name = refl;
  audio = refl;
  video = refl;
}

kept_json-ReturnsAnyway : ReturnsAnyway kept_json
kept_json-ReturnsAnyway = (pos 7, refl)

abbrev proxy_client : Client ℕ
proxy_client = record {
  connect_timeout = pos 0;
  read_timeout = pos 0;
  write_timeout = pos 0;
  selector = record { servers = 9000 ∷ []; cur_index = 0 };
}

abbrev length_of : Outcome Bytes → ℕ
length_of (ok b) = length b
length_of fault = 0
length_of out_of_fuel = 0

abbrev message : RtcMsg
message = msg_of kept_json (caller 1 (λ q. true) 9 5) (push_req form 7) 7

form-fits :
    (certificate : ℕ) (sdp : Bytes)
    → Offers credentials digest message sdp
    → length (response_body kept_json (record message { certificate = certificate; sdp = sdp }))
      ≤ max_res_buf
unfolding response_body last_text push_req bytes_eq to_sdp find_transport has_content decimal_int
form-fits certificate sdp e = subst (λ o. length_of o ≤ max_res_buf) e (omega arith)

form-understood :
    (sdp : Bytes) → Offers credentials digest message sdp → Understands kept_json from_json sdp
unfolding last_text
form-understood sdp e = refl

browser_gets_offer_example :
    let server =
      serve small_ev kept_json checksum has_digest 1
        (λ q. true)
        200
        300
        5
        single_bytes
        one_worker
        media_server
        media_worker
        generates
        credentials
        8
        no_conn
        0 in
    let call : PushReq → Option PushResp = λ req. called (
      call_service
        (λ addr deadlines request. sent_back (server request))
        to_json
        from_json
        7
        req
        (some proxy_client)) in
    (sdp : Bytes) × (execute call form ≡ returns (push_data sdp ∷ []))
    × Offers credentials digest message sdp
browser_gets_offer_example =
    browser_gets_offer small_ev small_ev-IsLibev kept_json checksum has_digest digest 1 (λ q. true)
      to_json from_json form 7 7 proxy_client (codes "{}") 200 300 5 9 single_bytes one_worker conn
      media_server media_worker generates credentials 8 no_conn 0 form-IsForm (omega arith)
      form-IsAgreed (omega arith) (omega arith) conn-IsNew (omega arith) (omega arith) refl refl
      (λ q. refl) (omega arith) threads-IsIdle kept_json-ReturnsAnyway form-fits form-understood
