-- ===== src/Proxy/Xrpc.antt =====
-- signaling/src/framework/xrpc: a request and its response over one connection.
pub mod Trip
use dcj_rtc.Prelude.{
  ℕ, ◌^◌, ◌%◌, Bytes, Option, none, some, ◌++◌, ◌==◌, ltb, length, take, drop, replicate,
  if◌then◌else◌,
}
use dcj_rtc.Wire.{Xhead, xhead_size, xhead_magic_num, marshal, unmarshal}

-- `Request`; the body is what `Call` hands over, the JSON text.
pub record XrpcRequest : Type 0 where
  pub header : Xhead
  pub body : Bytes

pub record XrpcResponse : Type 0 where
  pub header : Xhead
  pub body : Bytes

-- `new(Request)`: every field is zero.
abbrev zero_header : Xhead
zero_header = record {
  id = 0;
  version = 0;
  log_id = 0;
  provider = replicate 16 0;
  magic_num = 0;
  reserved = 0;
  body_len = 0;
}

-- `NewRequest` on a `*bytes.Buffer`; `LimitReader` ends the body at `BodyLen` bytes.
unfoldable pub new_request : (content : Bytes) (log_id : ℕ) → XrpcRequest
new_request content log_id =
    let body_len = length content % 2 ^ 32 in
    record {
      header = record zero_header {
        log_id = log_id;
        magic_num = xhead_magic_num;
        body_len = body_len;
      };
      body = take body_len content;
    }

-- `Request.Write`, with `Header.Write` for the header: the bytes that are written.
unfoldable pub write_request : XrpcRequest → Option Bytes
write_request r = elim (marshal r.header xhead_size) [
  | none ↦ none
  | some head ↦ some (head ++ r.body)
]

-- `ReadResponse`, on the bytes that come before the connection ends or its deadline passes: `none`
-- is an error.
unfoldable pub read_response : Bytes → Option XrpcResponse
unfolding unmarshal
read_response b = if ltb (length b) xhead_size then none else elim (unmarshal (take xhead_size b)) [
  | none ↦ none
  | some h ↦
      if h.magic_num == xhead_magic_num
      then (if ltb (length (drop xhead_size b)) h.body_len
          then none
          else some (record { header = h; body = take h.body_len (drop xhead_size b) }))
      else none
]
