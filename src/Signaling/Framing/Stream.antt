-- ===== src/Signaling/Framing/Stream.antt =====
-- What the framing loop does, whatever pieces the bytes arrive in.
use dcj_rtc.Prelude.{
  ℕ, ◌+◌, ◌<◌, ◌≤◌, ◌≡◌, ◌≢◌, Bytes, [], ◌++◌, ℤ, pos, minus_one, eq_ℤ, Outcome, ok, ◌>>=◌, ◌==◌,
  ltb, length, length-append, drop, if◌then◌else◌, arith, take-append_le, drop-append_le,
  length-drop, get_or-append_lt, append-nil,
}
use dcj_rtc.Wire.{xhead_size, xhead_magic_num, head_magic_num, head_body_len}
use dcj_rtc.Signaling.Conn.{TcpConnection, ConnState, state_head, state_body}
use dcj_rtc.Signaling.Framing.{short_connection}
use dcj_rtc.Signaling.Framing.Rounds.{handled}

-- How a connection stands between two reads, with `b` in its buffer.
pub data Phase (st : ConnState) (expected processed : ℕ) (b : Bytes) : Type 0 where
  awaits_head :
      st ≡ state_head
      → expected ≡ xhead_size
      → processed ≡ 0
      → length b < xhead_size
      → Phase st expected processed b
  awaits_body :
      st ≡ state_body
      → expected ≡ head_body_len b
      → processed ≡ xhead_size
      → head_magic_num b ≡ xhead_magic_num
      → xhead_size ≤ length b
      → length b < xhead_size + head_body_len b
      → Phase st expected processed b
  answered :
      st ≡ state_body
      → expected ≡ head_body_len b
      → processed ≡ short_connection
      → head_magic_num b ≡ xhead_magic_num
      → xhead_size + head_body_len b ≤ length b
      → Phase st expected processed b

abbrev pub InPhase : {W T : Type 0} → TcpConnection W T → Bytes → Type 0
InPhase c b = Phase c.current_state c.bytes_expected c.bytes_processed b

-- Once the header is there, more bytes do not change it, nor a body that is complete.
module _ (b d : Bytes) where
  pub head_magic_num-append : xhead_size ≤ length b → head_magic_num (b ++ d) ≡ head_magic_num b
  head_magic_num-append h = rw (
    get_or-append_lt b d 24 0 (omega arith),
    get_or-append_lt b d 25 0 (omega arith),
    get_or-append_lt b d 26 0 (omega arith),
    get_or-append_lt b d 27 0 (omega arith),
  )

  pub head_body_len-append : xhead_size ≤ length b → head_body_len (b ++ d) ≡ head_body_len b
  head_body_len-append h = rw (
    get_or-append_lt b d 32 0 (omega arith),
    get_or-append_lt b d 33 0 (omega arith),
    get_or-append_lt b d 34 0 (omega arith),
    get_or-append_lt b d 35 0 (omega arith),
  )

  pub handled-append :
      {S : Type 0} (request : Bytes → Bytes → S → Outcome (ℤ × S)) (s : S)
      → xhead_size + head_body_len b ≤ length b
      → handled request (b ++ d) s ≡ handled request b s
  handled-append request s h =
      rw
        (
          head_body_len-append (omega arith),
          take-append_le 36 b d (omega arith),
          drop-append_le 36 b d (omega arith),
        )
        (rw (take-append_le (head_body_len b) (drop 36 b) d (omega (arith, length-drop 36 b))))

module _ {S : Type 0} (request : Bytes → Bytes → S → Outcome (ℤ × S)) where
  -- Any error of the handler is answered by `-1`.
  abbrev pub as_return : Outcome (ℤ × S) → Outcome (ℤ × S)
  as_return r = r >>= λ (ret, s). if eq_ℤ ret (pos 0) then ok (pos 0, s) else ok (minus_one, s)

  -- The protocol, said of all the bytes received so far: nothing is done before 36 bytes are there;
  -- a wrong magic number is an error; nothing more is done before the body is complete; then the
  -- handler is given the header and the body.
  unfoldable pub served : Bytes → S → Outcome (ℤ × S)
  served b s =
      if ltb (length b) xhead_size
      then ok (pos 0, s)
      else if head_magic_num b == xhead_magic_num
      then (if ltb (length b) (xhead_size + head_body_len b)
          then ok (pos 0, s)
          else as_return (handled request b s))
      else ok (minus_one, s)

  pub served-append_bad :
      (b d : Bytes) (s : S)
      → xhead_size ≤ length b
      → head_magic_num b ≢ xhead_magic_num
      → served (b ++ d) s ≡ ok (minus_one, s)
  unfolding served
  served-append_bad b d s h bad = ground (arith, length-append b d, head_magic_num-append b d)

  pub served-append_whole :
      (b d : Bytes) (s : S)
      → head_magic_num b ≡ xhead_magic_num
      → xhead_size + head_body_len b ≤ length b
      → served (b ++ d) s ≡ as_return (handled request b s)
  unfolding served
  served-append_whole b d s magic h = ground (
    arith,
    length-append b d,
    head_magic_num-append b d,
    head_body_len-append b d,
    handled-append b d request s h,
  )

  -- The same of the bytes themselves.
  pub served-whole :
      (b : Bytes) (s : S)
      → head_magic_num b ≡ xhead_magic_num
      → xhead_size + head_body_len b ≤ length b
      → served b s ≡ as_return (handled request b s)
  served-whole b s magic h = rw append-nil at (served-append_whole b [] s magic h)

  pub served-waits :
      (b : Bytes) (s : S)
      → head_magic_num b ≡ xhead_magic_num
      → length b < xhead_size + head_body_len b
      → served b s ≡ ok (pos 0, s)
  unfolding served
  served-waits b s magic h = ground arith

  pub served-short : (b : Bytes) (s : S) → length b < xhead_size → served b s ≡ ok (pos 0, s)
  unfolding served
  served-short b s h = ground arith
