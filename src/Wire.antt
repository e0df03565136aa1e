-- ===== src/Wire.antt =====
-- xrtc_server/src/base/xhead.h: the 36 bytes in front of each message, and their encoder in
-- signaling/src/framework/xrpc/header.go, the program at the other end of the connection.
-- The server runs on a little-endian machine and reads the struct in place.
pub mod Header
pub mod Reply
use dcj_rtc.Prelude.{
  ℕ, ◌+◌, ◌*◌, ◌/◌, ◌%◌, List, [], ◌∷◌, ◌++◌, Bytes, Option, none, some, get_or, take, drop, ltb,
  length, if◌then◌else◌,
}

abbrev pub xhead_size : ℕ
xhead_size = 36

abbrev pub xhead_magic_num : ℕ
xhead_magic_num = 0xfb202202

-- `xhead_t`
pub record Xhead : Type 0 where
  pub id : ℕ
  pub version : ℕ
  pub log_id : ℕ
  pub provider : Bytes
  pub magic_num : ℕ
  pub reserved : ℕ
  pub body_len : ℕ

-- An unsigned field of two or four bytes at an offset, the low byte first.
abbrev pub read_u16 : Bytes → ℕ → ℕ
read_u16 b i = get_or b i 0 + 256 * get_or b (i + 1) 0

abbrev pub read_u32 : Bytes → ℕ → ℕ
read_u32 b i =
    get_or b i 0
    + 256 * get_or b (i + 1) 0
    + 65536 * get_or b (i + 2) 0
    + 16777216 * get_or b (i + 3) 0

abbrev pub put_u16 : ℕ → Bytes
put_u16 n = n % 256 ∷ n / 256 % 256 ∷ []

abbrev pub put_u32 : ℕ → Bytes
put_u32 n = n % 256 ∷ n / 256 % 256 ∷ n / 65536 % 256 ∷ n / 16777216 % 256 ∷ []

-- The fields that the server reads through `(xhead_t*) buf`.
abbrev pub head_log_id : Bytes → ℕ
head_log_id b = read_u32 b 4

abbrev pub head_magic_num : Bytes → ℕ
head_magic_num b = read_u32 b 24

abbrev pub head_body_len : Bytes → ℕ
head_body_len b = read_u32 b 32

-- The whole struct at the start of a buffer.
unfoldable pub read_xhead : Bytes → Xhead
read_xhead b = record {
  id = read_u16 b 0;
  version = read_u16 b 2;
  log_id = head_log_id b;
  provider = take 16 (drop 8 b);
  magic_num = head_magic_num b;
  reserved = read_u32 b 28;
  body_len = head_body_len b;
}

-- `res_xh->body_len = n`, on a buffer that starts with a header.
unfoldable pub set_body_len : Bytes → ℕ → Bytes
set_body_len b n = take 32 b ++ (put_u32 n ++ drop 36 b)

-- `Header.Marshal` of the client, into a buffer of `room` bytes: what it writes.
unfoldable pub marshal : Xhead → (room : ℕ) → Option Bytes
marshal h room =
    if ltb room xhead_size
    then none
    else some (
        put_u16 h.id
        ++ (put_u16 h.version
            ++ (put_u32 h.log_id
                ++ (take 16 h.provider
                    ++ (put_u32 h.magic_num ++ (put_u32 h.reserved ++ put_u32 h.body_len))))))

-- `Header.UnMarshal` of the client.
unfoldable pub unmarshal : Bytes → Option Xhead
unfolding read_xhead
unmarshal b = if ltb (length b) xhead_size then none else some (read_xhead b)
