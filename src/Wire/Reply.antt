-- ===== src/Wire/Reply.antt =====
-- The header that the server writes into its reply: the request's, with another body length.
use dcj_rtc.Prelude.{
  ℕ, zero, suc, ◌+◌, ◌^◌, ◌<◌, ◌≤◌, ◌≡◌, refl, ap, [], ◌∷◌, ◌++◌, Bytes, arith, length, take, drop,
  get_or, get_or-append_lt, drop-append_le, take-append_le, take-append-drop, sym, ◌∙◌,
  length-append, length-take, length-drop, get_or-append_length,
}
use dcj_rtc.Wire.{xhead_size, read_u16, read_u32, put_u32, head_body_len, read_xhead, set_body_len}

-- A buffer whose first `n` bytes are kept reads the same in front of `n`.
get_or-take_append :
    (n i : ℕ) (b ys : Bytes) → i < n → n ≤ length b → get_or (take n b ++ ys) i 0 ≡ get_or b i 0
get_or-take_append zero i b ys h k = elim h [ ]
get_or-take_append (suc n) i [] ys h k = elim k [ ]
get_or-take_append (suc n) zero (x ∷ b) ys h k = refl
get_or-take_append (suc n) (suc i) (x ∷ b) ys h k =
    get_or-take_append n i b ys (omega arith) (omega arith)

take-drop-take_append :
    (n j k : ℕ) (b ys : Bytes)
    → j + k ≤ n
    → n ≤ length b
    → take k (drop j (take n b ++ ys)) ≡ take k (drop j b)
take-drop-take_append n zero zero b ys h l = refl
take-drop-take_append zero zero (suc k) b ys h l = absurd (omega arith)
take-drop-take_append zero (suc j) k b ys h l = absurd (omega arith)
take-drop-take_append (suc n) j k [] ys h l = elim l [ ]
take-drop-take_append (suc n) zero (suc k) (x ∷ b) ys h l =
    ap (λ t. x ∷ t) (take-drop-take_append n zero k b ys (omega arith) (omega arith))
take-drop-take_append (suc n) (suc j) k (x ∷ b) ys h l =
    take-drop-take_append n j k b ys (omega arith) (omega arith)

module _ (b : Bytes) (n : ℕ) (long : xhead_size ≤ length b) (small : n < 2 ^ 32) where
  same : (i : ℕ) → i < 32 → get_or (set_body_len b n) i 0 ≡ get_or b i 0
  unfolding set_body_len
  same i h = get_or-take_append 32 i b (put_u32 n ++ drop 36 b) h (omega arith)

  length-take_32 : length (take 32 b) ≡ 32
  length-take_32 = omega (arith, length-take 32 b)

  written : (i : ℕ) → get_or (set_body_len b n) (32 + i) 0 ≡ get_or (put_u32 n ++ drop 36 b) i 0
  unfolding set_body_len
  written i = rw length-take_32 at (get_or-append_length (take 32 b) (put_u32 n ++ drop 36 b) i 0)

  same_u16 : (i : ℕ) → i < 31 → read_u16 (set_body_len b n) i ≡ read_u16 b i
  same_u16 i h = rw (same i (omega arith), same (i + 1) (omega arith))

  same_u32 : (i : ℕ) → i < 29 → read_u32 (set_body_len b n) i ≡ read_u32 b i
  same_u32 i h = rw (
    same i (omega arith),
    same (i + 1) (omega arith),
    same (i + 2) (omega arith),
    same (i + 3) (omega arith),
  )

  pub head_body_len-set_body_len : head_body_len (set_body_len b n) ≡ n
  head_body_len-set_body_len = omega (arith, written 0, written 1, written 2, written 3)

  provider-set_body_len : take 16 (drop 8 (set_body_len b n)) ≡ take 16 (drop 8 b)
  unfolding set_body_len
  provider-set_body_len =
      take-drop-take_append 32 8 16 b (put_u32 n ++ drop 36 b) (omega arith) (omega arith)

  pub length-set_body_len : length (set_body_len b n) ≡ length b
  unfolding set_body_len
  length-set_body_len = omega (
    arith,
    length-append (take 32 b) (put_u32 n ++ drop 36 b),
    length-take 32 b,
    length-drop 36 b,
  )

  -- The reply's header: the request's, with another body length.
  pub read_xhead-set_body_len :
      read_xhead (set_body_len b n) ≡ record (read_xhead b) { body_len = n }
  unfolding read_xhead
  read_xhead-set_body_len = λ i. record {
    id = same_u16 0 (omega arith) i;
    version = same_u16 2 (omega arith) i;
    log_id = same_u32 4 (omega arith) i;
    provider = provider-set_body_len i;
    magic_num = same_u32 24 (omega arith) i;
    reserved = same_u32 28 (omega arith) i;
    body_len = head_body_len-set_body_len i;
  }

-- What stands behind the header does not change what is read of it.
module _ (b ys : Bytes) (long : xhead_size ≤ length b) where
  front : (i : ℕ) → i < 36 → get_or (b ++ ys) i 0 ≡ get_or b i 0
  front i h = get_or-append_lt b ys i 0 (omega arith)

  front_u16 : (i : ℕ) → i < 35 → read_u16 (b ++ ys) i ≡ read_u16 b i
  front_u16 i h = rw (front i (omega arith), front (i + 1) (omega arith))

  front_u32 : (i : ℕ) → i < 33 → read_u32 (b ++ ys) i ≡ read_u32 b i
  front_u32 i h = rw (
    front i (omega arith),
    front (i + 1) (omega arith),
    front (i + 2) (omega arith),
    front (i + 3) (omega arith),
  )

  front_provider : take 16 (drop 8 (b ++ ys)) ≡ take 16 (drop 8 b)
  front_provider =
      rw (drop-append_le 8 b ys (omega arith))
        (take-append_le 16 (drop 8 b) ys (omega (arith, length-drop 8 b)))

  pub read_xhead-append : read_xhead (b ++ ys) ≡ read_xhead b
  unfolding read_xhead
  read_xhead-append = λ i. record {
    id = front_u16 0 (omega arith) i;
    version = front_u16 2 (omega arith) i;
    log_id = front_u32 4 (omega arith) i;
    provider = front_provider i;
    magic_num = front_u32 24 (omega arith) i;
    reserved = front_u32 28 (omega arith) i;
    body_len = front_u32 32 (omega arith) i;
  }

pub read_xhead-take :
    (b : Bytes) → xhead_size ≤ length b → read_xhead (take xhead_size b) ≡ read_xhead b
read_xhead-take b long =
    sym
      (read_xhead-append (take xhead_size b) (drop xhead_size b) (omega (arith, length-take 36 b)))
    ∙ ap read_xhead (take-append-drop 36 b)
