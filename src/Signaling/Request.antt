-- ===== src/Signaling/Request.antt =====
-- `_process_request` and `_process_push` of xrtc_server/src/server/signaling_worker.cpp: from a
-- request's bytes to the message for the media server.
use dcj_rtc.Prelude.{
  ℕ, ℤ, pos, minus_one, eq_ℤ, as_int32, Bool, Option, none, some, Bytes, List, [], ◌∷◌, ◌++◌,
  Outcome, ok, ◌>>=◌, codes, if◌then◌else◌,
}
use dcj_rtc.Wire.{head_log_id}
use dcj_rtc.Rtc.Msg.{RtcMsg, cmdno_push}
use dcj_rtc.Signaling.Json.{JsonCpp}

-- What the handler knows besides the request: the addresses of the worker and of the connection,
-- its descriptor, and whether `rtc_server->notify` succeeds with these messages queued.
pub record Caller : Type 0 where
  pub worker : ℕ
  pub conn : ℕ
  pub fd : ℕ
  pub notify_ok : List RtcMsg → Bool

module _ {V : Type 0} (json : JsonCpp V) (k : Caller) where
  -- The message for a `push` request.
  abbrev pub push_msg : (uid : ℕ) (stream_name : Bytes) (audio video log_id : ℤ) → RtcMsg
  push_msg uid stream_name audio video log_id = record {
    cmdno = cmdno_push;
    stream_name = stream_name;
    audio = audio;
    video = video;
    uid = uid;
    certificate = 0;
    log_id = log_id;
    worker = k.worker;
    conn = k.conn;
    fd = pos k.fd;
    sdp = [];
    err_no = pos 0;
  }

  -- `rtc_server->send_rtc_msg`: the message is queued, and then the pipe is written.
  unfoldable pub send_rtc_msg : RtcMsg → List RtcMsg → ℤ × List RtcMsg
  send_rtc_msg m queued =
      let queued' = queued ++ (m ∷ []) in
      (if k.notify_ok queued' then pos 0 else minus_one, queued')

  -- The four conversions in the `try` block.
  unfoldable pub push_fields : V → ℤ → Option RtcMsg
  push_fields root log_id = elim (json.as_uint64 root (codes "uid")) [
    | none ↦ none
    | some uid ↦ elim (json.as_string root (codes "stream_name")) [
      | none ↦ none
      | some stream_name ↦ elim (json.as_int root (codes "audio")) [
        | none ↦ none
        | some audio ↦ elim (json.as_int root (codes "video")) [
          | none ↦ none
          | some video ↦ some (push_msg uid stream_name audio video log_id)
        ]
      ]
    ]
  ]

  unfoldable pub process_push : V → ℤ → List RtcMsg → ℤ × List RtcMsg
  process_push root log_id queued = elim (push_fields root log_id) [
    | none ↦ (minus_one, queued)
    | some m ↦ send_rtc_msg m queued
  ]

  -- A command other than `push` leaves the `switch`, and the function ends without the `return`
  -- whose value its caller tests.
  unfoldable pub process_request : Bytes → Bytes → List RtcMsg → Outcome (ℤ × List RtcMsg)
  process_request header body queued = elim (json.parse body) [
    | none ↦ ok (minus_one, queued)
    | some root ↦ elim (json.as_int root (codes "cmdno")) [
      | none ↦ ok (minus_one, queued)
      | some cmdno ↦
          if eq_ℤ cmdno cmdno_push
          then ok (process_push root (as_int32 (head_log_id header)) queued)
          else (do n ← json.unreturned; ok (n, queued))
    ]
  ]
