-- ===== src/Wire/Header.antt =====
-- The two programs agree on the header's bytes.
use dcj_rtc.Prelude.{
  ℕ, ◌+◌, ◌^◌, ◌<◌, ◌≤◌, ◌≡◌, [], ◌++◌, Bytes, some, arith, length, take, get_or, length-append,
  get_or-append_length, take-length-append, append_assoc, append-nil,
}
use dcj_rtc.Wire.{
  Xhead, xhead_size, read_u16, read_u32, put_u16, put_u32, head_log_id, head_magic_num,
  head_body_len, read_xhead, marshal, unmarshal,
}

-- The fields fit their widths.
pub record IsXhead (h : Xhead) : Type 0 where
  pub id : h.id < 2 ^ 16
  pub version : h.version < 2 ^ 16
  pub log_id : h.log_id < 2 ^ 32
  pub provider : length h.provider ≡ 16
  pub magic_num : h.magic_num < 2 ^ 32
  pub reserved : h.reserved < 2 ^ 32
  pub body_len : h.body_len < 2 ^ 32

-- Past a provider field, the bytes are those that follow it.
get_or-provider :
    (p after : Bytes) (i : ℕ) → length p ≡ 16 → get_or (p ++ after) (16 + i) 0 ≡ get_or after i 0
get_or-provider p after i e = rw e at (get_or-append_length p after i 0)

take-provider : (p after : Bytes) → length p ≡ 16 → take 16 (p ++ after) ≡ p
take-provider p after e = rw e at (take-length-append p after)

-- A header on the wire, with what follows it.
abbrev after_provider : Xhead → Bytes → Bytes
after_provider h body = put_u32 h.magic_num ++ (put_u32 h.reserved ++ (put_u32 h.body_len ++ body))

abbrev framed : Xhead → Bytes → Bytes
framed h body =
    put_u16 h.id
    ++ (put_u16 h.version ++ (put_u32 h.log_id ++ (h.provider ++ after_provider h body)))

module _ (h : Xhead) (v : IsXhead h) (body : Bytes) where
  past :
      (i : ℕ)
      → get_or (h.provider ++ after_provider h body) (16 + i) 0 ≡ get_or (after_provider h body) i 0
  past i = get_or-provider h.provider (after_provider h body) i v.provider

  read-magic_num : head_magic_num (framed h body) ≡ h.magic_num
  read-magic_num = omega (arith, v.magic_num, past 0, past 1, past 2, past 3)

  read-reserved : read_u32 (framed h body) 28 ≡ h.reserved
  read-reserved = omega (arith, v.reserved, past 4, past 5, past 6, past 7)

  read-body_len : head_body_len (framed h body) ≡ h.body_len
  read-body_len = omega (arith, v.body_len, past 8, past 9, past 10, past 11)

  read-log_id : head_log_id (framed h body) ≡ h.log_id
  read-log_id = omega (arith, v.log_id)

  read-id : read_u16 (framed h body) 0 ≡ h.id
  read-id = omega (arith, v.id)

  read-version : read_u16 (framed h body) 2 ≡ h.version
  read-version = omega (arith, v.version)

  pub read_xhead-framed : read_xhead (framed h body) ≡ h
  unfolding read_xhead
  read_xhead-framed = λ i. record {
    id = read-id i;
    version = read-version i;
    log_id = read-log_id i;
    provider = take-provider h.provider (after_provider h body) v.provider i;
    magic_num = read-magic_num i;
    reserved = read-reserved i;
    body_len = read-body_len i;
  }

  length-framed : length (framed h body) ≡ xhead_size + length body
  length-framed = omega (arith, length-append h.provider (after_provider h body), v.provider)

take_provider : (p : Bytes) → length p ≡ 16 → take 16 p ≡ p
take_provider p e = rw append-nil at (take-provider p [] e)

framed-nil-append : (h : Xhead) (body : Bytes) → framed h [] ++ body ≡ framed h body
framed-nil-append h body = simp append_assoc

marshal-framed :
    (h : Xhead) → IsXhead h → (room : ℕ) → xhead_size ≤ room → marshal h room ≡ some (framed h [])
unfolding marshal
marshal-framed h v room fits = rw (take_provider h.provider v.provider) (ground arith)

-- What the client writes for a header, the server reads back as the same header whatever body
-- follows it, and so does the client; it takes 36 bytes.
pub read_xhead-marshal :
    (h : Xhead) (room : ℕ) (body : Bytes)
    → IsXhead h
    → xhead_size ≤ room
    → (b : Bytes) × (marshal h room ≡ some b)
      × (length b ≡ xhead_size)
      × (read_xhead (b ++ body) ≡ h)
      × (unmarshal b ≡ some h)
unfolding unmarshal
read_xhead-marshal h room body v fits = (
  framed h [],
  marshal-framed h v room fits,
  length-framed h v [],
  rw (framed-nil-append h body) (read_xhead-framed h v body),
  ground (arith, length-framed h v [], read_xhead-framed h v []),
)
