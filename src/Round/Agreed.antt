-- ===== src/Round/Agreed.antt =====
-- The JSON texts and the form that signaling/src/action/push.go and xrtc_server/src/server/signaling_worker.cpp
-- exchange.
use dcj_rtc.Prelude.{
  ℕ, pos, ◌+◌, ◌<◌, ◌≡◌, ◌≢◌, refl, false, some, Option, Bytes, [], length, codes, ap, ◌∙◌, ◌^◌,
  as_int32,
}
use dcj_rtc.Prelude.Text.{bytes_eq}
use dcj_rtc.Wire.{xhead_size}
use dcj_rtc.Rtc.Msg.{RtcMsg, cmdno_push}
use dcj_rtc.Signaling.Framing.{short_connection}
use dcj_rtc.Signaling.Json.{JsonCpp}
use dcj_rtc.Signaling.Request.{Caller, push_fields, push_msg}
use dcj_rtc.Proxy.Push.{PushReq, PushResp, value_of, parse_uint}
use dcj_rtc.Round.Request.{IsPush}
use dcj_rtc.Round.Reply.{success}

-- The handler's request is written as the content, in which the server finds the request's members.
pub record IsAgreed {V : Type 0} (json : JsonCpp V) (to_json : PushReq → Option Bytes)
    (req : PushReq) (content : Bytes) : Type 0 where
  pub written : to_json req ≡ some content
  pub root : V
  pub parsed : json.parse content ≡ some root
  pub cmdno : json.as_int root (codes "cmdno") ≡ some (pos req.cmdno)
  pub uid : json.as_uint64 root (codes "uid") ≡ some req.uid
  pub stream_name : json.as_string root (codes "stream_name") ≡ some req.stream_name
  pub audio : json.as_int root (codes "audio") ≡ some (pos req.audio)
  pub video : json.as_int root (codes "video") ≡ some (pos req.video)

-- The handler reads the reply with this offer as what the server wrote it from.
abbrev pub Understands : {V : Type 0} → JsonCpp V → (Bytes → Option PushResp) → Bytes → Type 0
Understands json from_json sdp =
    from_json (success json sdp)
    ≡ some (record { err_no = pos 0; err_msg = codes "process sdp success"; offer = sdp })

-- The message that the worker makes of the handler's request.
abbrev pub msg_of : {V : Type 0} → JsonCpp V → Caller → PushReq → ℕ → RtcMsg
msg_of json k req log_id =
    push_msg json k req.uid req.stream_name (pos req.audio) (pos req.video) (as_int32 log_id)

pub IsAgreed-IsPush :
    {V : Type 0} (json : JsonCpp V) (to_json : PushReq → Option Bytes) (req : PushReq)
    (content : Bytes) (k : Caller) (log_id : ℕ)
    → IsAgreed json to_json req content
    → pos req.cmdno ≡ cmdno_push
    → log_id < 2 ^ 32
    → xhead_size + length content < short_connection
    → IsPush json k content log_id (msg_of json k req log_id)
unfolding push_fields
IsAgreed-IsPush json to_json req content k log_id a is_push bounded short = record {
  root = a.root;
  parsed = a.parsed;
  command = a.cmdno ∙ ap some is_push;
  fields = rw (push_fields, a.uid, a.stream_name, a.audio, a.video) refl;
  bounded = bounded;
  short = short;
}

-- The form that the handler accepts.
pub record IsForm (form : Bytes → Option Bytes) (uid : ℕ) : Type 0 where
  pub number : parse_uint (value_of form (codes "uid")) ≡ (uid, false)
  pub positive : uid ≢ 0
  pub named : bytes_eq (value_of form (codes "streamName")) [] ≡ false
