-- ===== src/Proxy/Xrpc/Trip.antt =====
-- A request of the client as the server reads it, and a reply of the server as the client reads it.
use dcj_rtc.Prelude.{
  codes, ◌%◌, ℕ, pos, as_int32, ◌+◌, ◌^◌, ◌<◌, ◌≤◌, ◌≡◌, refl, sym, ap, ◌∙◌, true, some, Bytes,
  List, [], ◌∷◌, ◌++◌, ok, length, take, drop, arith, length-append, take_of_length_le,
  drop-length-append, length-drop, length-take,
}
use dcj_rtc.Base.EventLoop.{Libev, IsLibev}
use dcj_rtc.Wire.{
  Xhead, xhead_size, xhead_magic_num, head_magic_num, head_body_len, head_log_id, read_xhead,
  unmarshal, set_body_len,
}
use dcj_rtc.Wire.Header.{IsXhead, read_xhead-marshal}
use dcj_rtc.Wire.Reply.{read_xhead-append, read_xhead-take}
use dcj_rtc.Rtc.Msg.{RtcMsg, cmdno_push, max_res_buf}
use dcj_rtc.Signaling.Conn.{TcpConnection}
use dcj_rtc.Signaling.Framing.{short_connection}
use dcj_rtc.Signaling.Framing.Stream.{served, served-whole}
use dcj_rtc.Signaling.Json.{JsonCpp}
use dcj_rtc.Signaling.Request.{Caller, push_fields, process_push, process_request, send_rtc_msg}
use dcj_rtc.Signaling.Handlers.{response_body}
use dcj_rtc.Signaling.Handlers.Response.{reply_for, read_xhead-reply_for}
use dcj_rtc.Proxy.Xrpc.{new_request, write_request, read_response}

-- The bytes of a request: the header that the server reads, and the content behind it.
pub record IsFramed (content : Bytes) (log_id : ℕ) (b : Bytes) : Type 0 where
  pub head : Bytes
  pub split : b ≡ head ++ content
  pub head_length : length head ≡ xhead_size
  pub header : read_xhead head ≡ (new_request content log_id).header
  pub whole_header : read_xhead b ≡ (new_request content log_id).header

new_request-IsXhead :
    (content : Bytes) (log_id : ℕ) → log_id < 2 ^ 32 → IsXhead (new_request content log_id).header
unfolding new_request
new_request-IsXhead content log_id h = omega arith

pub write_request-IsFramed :
    (content : Bytes) (log_id : ℕ)
    → log_id < 2 ^ 32
    → length content < 2 ^ 32
    → (b : Bytes) × (write_request (new_request content log_id) ≡ some b)
      × IsFramed content log_id b
unfolding write_request new_request
write_request-IsFramed content log_id h small =
    let r = new_request content log_id in
    let (head, made, long, whole, un) =
      read_xhead-marshal r.header xhead_size content (new_request-IsXhead content log_id h)
        (omega arith) in
    let all_taken : r.body ≡ content =
      take_of_length_le (length content % 2 ^ 32) content (omega arith) in
    (
      head ++ content,
      rw (made, write_request) (ap (λ (t : Bytes). some (head ++ t)) all_taken),
      record {
        head = head;
        split = refl;
        head_length = long;
        header = sym (read_xhead-append head content (omega (arith, long))) ∙ whole;
        whole_header = whole;
      },
    )

module _ {V : Type 0} (json : JsonCpp V) (k : Caller) where
  -- The server queues the message of a push, once it has read the client's bytes.
  pub served-IsFramed :
      (content : Bytes) (log_id : ℕ) (b : Bytes) (root : V) (m : RtcMsg) (q : List RtcMsg)
      → IsFramed content log_id b
      → log_id < 2 ^ 32
      → xhead_size + length content < short_connection
      → json.parse content ≡ some root
      → json.as_int root (codes "cmdno") ≡ some cmdno_push
      → push_fields json k root (as_int32 log_id) ≡ some m
      → k.notify_ok (q ++ (m ∷ [])) ≡ true
      → (served (process_request json k) b q ≡ ok (pos 0, q ++ (m ∷ [])))
        × (length b ≡ xhead_size + head_body_len b)
        × (length b ≡ xhead_size + length content)
  unfolding new_request process_request process_push send_rtc_msg read_xhead
  served-IsFramed content log_id b root m q f h small parsed cmd fields sent =
      let magic : head_magic_num b ≡ xhead_magic_num = ap (λ x. x.magic_num) f.whole_header in
      let body_len : head_body_len b ≡ length content =
        ap (λ x. x.body_len) f.whole_header ∙ omega arith in
      let len : length b ≡ xhead_size + length content =
        omega (arith, ap length f.split, length-append f.head content, f.head_length) in
      let log : head_log_id (take xhead_size b) ≡ log_id =
        ap (λ x. x.log_id) (read_xhead-take b (omega arith) ∙ f.whole_header) in
      let behind : drop xhead_size b ≡ content =
        ap (drop xhead_size) f.split ∙ (rw f.head_length at (drop-length-append f.head content)) in
      let body : take (head_body_len b) (drop xhead_size b) ≡ content =
        rw (behind, body_len) (take_of_length_le (length content) content (omega arith)) in
      let run : process_request json k (take xhead_size b) content q ≡ ok (pos 0, q ++ (m ∷ [])) =
        rw (process_request, parsed, cmd, log, process_push, fields, send_rtc_msg, sent) refl in
      (
        served-whole (process_request json k) b q magic (omega arith) ∙ (rw (body, run) refl),
        omega arith,
        len,
      )

-- The client reads a header and as many bytes as it says.
read_response-exact :
    (b : Bytes) (h : Xhead)
    → read_xhead b ≡ h
    → h.magic_num ≡ xhead_magic_num
    → length b ≡ xhead_size + h.body_len
    → read_response b ≡ some (record { header = h; body = drop xhead_size b })
unfolding read_response unmarshal
read_response-exact b h e magic len =
    let head : read_xhead (take xhead_size b) ≡ h = read_xhead-take b (omega arith) ∙ e in
    let all_there : take h.body_len (drop xhead_size b) ≡ drop xhead_size b =
      take_of_length_le h.body_len (drop xhead_size b) (omega (arith, length-drop 36 b)) in
    ground (arith, head, all_there, length-take 36 b, length-drop 36 b)

module _ {W T V : Type 0} (ev : Libev W T) (laws : IsLibev ev) (json : JsonCpp V) where
  -- What the server sends as its reply, the client reads as a response with the reply's body.
  pub read_response-reply_for :
      (c : TcpConnection W T) (m : RtcMsg)
      → xhead_size ≤ length c.querybuf
      → head_magic_num c.querybuf ≡ xhead_magic_num
      → length (response_body json m) ≤ max_res_buf
      → read_response (reply_for json c m)
        ≡ some (record {
          header = record (read_xhead c.querybuf) { body_len = length (response_body json m) };
          body = response_body json m;
        })
  unfolding read_xhead
  read_response-reply_for c m long magic fits =
      let (header, len) = read_xhead-reply_for ev laws json c m long fits in
      let head = set_body_len (take xhead_size c.querybuf) (length (response_body json m)) in
      let head_len : length head ≡ xhead_size =
        omega (arith, len, length-append head (response_body json m)) in
      let behind : drop xhead_size (reply_for json c m) ≡ response_body json m =
        rw head_len at (drop-length-append head (response_body json m)) in
      read_response-exact (reply_for json c m) _ header magic len
      ∙ ap
          (λ (t : Bytes). some (record {
            header = record (read_xhead c.querybuf) { body_len = length (response_body json m) };
            body = t;
          }))
          behind
