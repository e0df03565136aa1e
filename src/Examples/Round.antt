-- ===== src/Examples/Round.antt =====
-- A push by the client on descriptor 5, through all three threads.
use dcj_rtc.Prelude.{
  ◌==◌, if◌then◌else◌, ℕ, zero, suc, pos, ◌<◌, ◌≡◌, ◌≢◌, refl, true, false, Bool, Bytes, none, some,
  List, [], ◌∷◌, ok, codes, get_or, arith, ◌++◌, ◌%◌, ◌^◌, ◌≤◌, length, replicate,
}
use dcj_rtc.Base.Socket.{took}
use dcj_rtc.Rtc.Msg.{RtcMsg, max_res_buf}
use dcj_rtc.Wire.{read_xhead}
use dcj_rtc.Signaling.Conn.{TcpConnection, new_connection}
use dcj_rtc.Signaling.Request.{Caller, push_msg, push_fields}
use dcj_rtc.Signaling.Handlers.Reading.{caller}
use dcj_rtc.Signaling.Handlers.Requests.{read_events_of}
use dcj_rtc.Proxy.Xrpc.{XrpcResponse, new_request, write_request, read_response}
use dcj_rtc.Round.Request.{IsPush, IsNew, request_is_queued}
use dcj_rtc.Round.Reply.{success, waiting}
use dcj_rtc.Round.Call.{IsIdle, push_gets_offer}
use dcj_rtc.Rtc.Peer.{RtcBase}
use dcj_rtc.Rtc.Sdp.{Fingerprint, IceParameters}
use dcj_rtc.Rtc.Streams.{new_manager}
use dcj_rtc.Rtc.Server
use dcj_rtc.Rtc.Server.{RtcServer, CertificateAnswers, new_server}
use dcj_rtc.Rtc.Server.Routing.{IsStaffed}
use dcj_rtc.Rtc.Worker.{RtcWorker, new_worker, process_notify, send_rtc_msg}
use dcj_rtc.Signaling.Worker.{Worker, NewConnAnswers, watched_connection}
use dcj_rtc.Signaling.Table.{IsTable}
use dcj_rtc.Signaling.Events
use dcj_rtc.Signaling.Handlers
use dcj_rtc.Signaling.Handlers.{add_reply, response_body, write_conn}
use dcj_rtc.Round.{Offers}
use dcj_rtc.Examples.Fixtures.{
  Io, small_ev, small_ev-IsLibev, small_json, small_json-ReturnsAnyway, peer, one_worker,
  one_worker-IsTable, conn,
}

abbrev both_workers : List ℕ
both_workers = 11 ∷ 12 ∷ []

abbrev pub media_server : RtcServer Io
media_server = record new_server { worker_num = pos 2; workers = both_workers; has_thread = true }

media_server-IsStaffed : IsStaffed media_server
media_server-IsStaffed = record {
  some_worker = omega arith;
  bounded = omega arith;
  worker_num = refl;
  present = both;
}
  where
    both : (i : ℕ) → i < 2 → get_or both_workers i 0 ≢ 0
    both zero h = omega arith
    both (suc zero) h = omega arith
    both (suc (suc i)) h = absurd (omega arith)

abbrev pub media_worker : RtcWorker Io
media_worker = record (new_worker (new_manager (λ p. none))) { has_thread = true }

abbrev pub checksum : Bytes → ℕ
checksum name = 5

abbrev pub digest : Fingerprint
digest = record { algorithm = codes "sha-256"; digest = codes "AB:CD" }

-- The certificate at 3 has a fingerprint.
abbrev pub has_digest : RtcBase
has_digest = record {
  fingerprint = λ p. if p == 3 then some digest else none;
  unreturned = ok true;
}

abbrev pub credentials : IceParameters
credentials = record { ice_ufrag = codes "abcd"; ice_password = codes "abcdefghijklmnopqrstuvwx" }

abbrev pub generates : CertificateAnswers
generates = record { has_expired = false; generated = 3 }

abbrev pub no_conn : NewConnAnswers
no_conn = record { flags = pos 2; set_flags = true; set_nodelay = true; peer = some peer }

-- A client calls on descriptor 5, and each read gets one byte.
abbrev client : Caller
client = caller 1 (λ q. true) 9 5

abbrev call_text : Bytes
call_text = codes "{}"

abbrev call_msg : RtcMsg
call_msg = push_msg small_json client 7 (codes "cam") (pos 1) (pos 1) (pos 7)

call_msg-IsPush : IsPush small_json client call_text 7 call_msg
unfolding push_fields
call_msg-IsPush = record {
  root = call_text;
  parsed = refl;
  command = refl;
  fields = refl;
  bounded = omega arith;
  short = omega arith;
}

pub conn-IsNew : IsNew small_ev 5 9 one_worker conn
unfolding watched_connection new_connection
conn-IsNew = record {
  table = one_worker-IsTable;
  owned = refl;
  not_null = omega arith;
  alive = refl;
  nothing_read = refl;
  nothing_to_write = refl;
}

abbrev pub single_bytes : List ℕ
single_bytes = replicate 38 0

request_is_queued_example :
    (request : Bytes) × (g : Worker Io Bool) × (c : TcpConnection Io Bool) × (write_request
        (new_request call_text 7)
      ≡ some request)
    × (read_events_of small_ev small_json 1 (λ q. true) 200 5 single_bytes request one_worker
        ≡ ok ([], g))
    × (g.queued ≡ [] ++ (call_msg ∷ []))
    × (g.q_rtc_msg ≡ [])
    × (get_or g.conns 5 0 ≡ 9)
    × (g.heap 9 ≡ some c)
    × (c.fd ≡ 5)
    × (c.querybuf ≡ request)
    × (read_xhead c.querybuf ≡ (new_request call_text 7).header)
    × (length request ≡ 38)
    × (c.reply_msgs ≡ [])
    × IsTable small_ev g
request_is_queued_example =
    request_is_queued small_ev small_json 1 (λ q. true) call_text 7 call_msg 200 5 9 single_bytes
      one_worker conn call_msg-IsPush conn-IsNew refl (omega arith)

pub threads-IsIdle : IsIdle generates has_digest digest media_server media_worker
threads-IsIdle = record {
  staffed = media_server-IsStaffed;
  no_message = refl;
  generated = omega arith;
  prints = (refl, true, refl);
  worker_idle = refl;
  no_stream = refl;
}

small_json-fits :
    (certificate : ℕ) (sdp : Bytes)
    → Offers credentials digest call_msg sdp
    → length (response_body small_json (record call_msg { certificate = certificate; sdp = sdp }))
      ≤ max_res_buf
unfolding response_body
small_json-fits certificate sdp e = omega arith

push_gets_offer_example :
    (request : Bytes) × (g1 : Worker Io Bool) × (certificate : ℕ) × (sdp : Bytes) × (s' : RtcServer
      Io)
    × (w' : RtcWorker Io) × (g2 : Worker Io Bool) × (g3 : Worker Io Bool) × (reply : Bytes)
    × (response : XrpcResponse) × (let m1 = record call_msg { certificate = certificate } in
        let m2 = record m1 { sdp = sdp } in
        let address =
          get_or both_workers (checksum call_msg.stream_name % 2 ^ 32 % length both_workers) 0 in
        (write_request (new_request call_text 7) ≡ some request)
        × (read_events_of small_ev small_json 1 (λ q. true) 200 5 single_bytes request one_worker
            ≡ ok ([], g1))
        × (g1.queued ≡ call_msg ∷ [])
        × (Server.process_notify checksum
              (pos 1)
              generates
              (Server.send_rtc_msg true call_msg media_server).1
            ≡ ok s')
        × (s'.sent ≡ [] ++ ((address, m1) ∷ []))
        × (process_notify has_digest (pos 1) credentials 8 (send_rtc_msg m1 true media_worker).1
            ≡ ok w')
        × (w'.answers ≡ [] ++ ((1, m2) ∷ []))
        × (Handlers.process_notify small_ev small_json
              (pos 2)
              no_conn
              0
              300
              true
              (Events.send_rtc_msg m2 true g1).1
            ≡ ok g2)
        × (write_conn small_ev (took (length reply) ∷ []) 300 5 g2 ≡ ok (g3, reply))
        × (read_response reply ≡ some response)
        × (response.header.log_id ≡ 7)
        × (response.body ≡ success small_json sdp)
        × Offers credentials digest call_msg sdp
        × (waiting 5 g2 ≡ reply ∷ [])
        × IsTable small_ev g3)
push_gets_offer_example =
    push_gets_offer small_ev small_ev-IsLibev small_json checksum has_digest digest 1 (λ q. true)
      call_text 7 call_msg 200 300 5 9 single_bytes one_worker conn media_server media_worker
      generates credentials 8 no_conn 0 call_msg-IsPush conn-IsNew (omega arith) (omega arith) refl
      refl refl (omega arith) threads-IsIdle small_json-ReturnsAnyway small_json-fits
