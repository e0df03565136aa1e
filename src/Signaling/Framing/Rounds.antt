-- ===== src/Signaling/Framing/Rounds.antt =====
-- The rounds of the framing loop, each by an equation.
use dcj_rtc.Prelude.{
  ℕ, suc, ◌+◌, ◌<◌, ◌≤◌, ◌≡◌, ◌≢◌, Bytes, ℤ, pos, minus_one, eq_ℤ, Outcome, ok, fault, out_of_fuel,
  ◌>>=◌, length, take, drop, if◌then◌else◌, arith,
}
use dcj_rtc.Wire.{xhead_size, xhead_magic_num, head_magic_num, head_body_len}
use dcj_rtc.Signaling.Conn.{TcpConnection, state_head, state_body}
use dcj_rtc.Signaling.Framing.{short_connection, process_query_buffer}

-- The request that a buffer holds, given to the handler.
abbrev pub handled :
    {S : Type 0} → (Bytes → Bytes → S → Outcome (ℤ × S)) → Bytes → S → Outcome (ℤ × S)
handled request b s = request (take xhead_size b) (take (head_body_len b) (drop xhead_size b)) s

-- How the loop ends after the handler.
abbrev pub settle :
    {W T S : Type 0} → TcpConnection W T → Outcome (ℤ × S) → Outcome (ℤ × TcpConnection W T × S)
settle c r = r >>= λ (ret, s').
    if eq_ℤ ret (pos 0)
    then ok (pos 0, record c { bytes_processed = short_connection }, s')
    else ok (minus_one, c, s')

module _ {W T S : Type 0} (request : Bytes → Bytes → S → Outcome (ℤ × S)) (k : ℕ)
    (c : TcpConnection W T) (s : S) where
  pub process-waits :
      length c.querybuf < c.bytes_expected + c.bytes_processed
      → process_query_buffer request (suc k) c s ≡ ok (pos 0, c, s)
  unfolding process_query_buffer
  process-waits h = ground arith

  pub process-head :
      c.current_state ≡ state_head
      → c.bytes_expected + c.bytes_processed ≤ length c.querybuf
      → head_magic_num c.querybuf ≡ xhead_magic_num
      → process_query_buffer request (suc k) c s
        ≡ process_query_buffer request k
            (record c {
              current_state = state_body;
              bytes_processed = xhead_size;
              bytes_expected = head_body_len c.querybuf;
            })
            s
  unfolding process_query_buffer
  process-head st enough magic = ground arith

  pub process-head_bad :
      c.current_state ≡ state_head
      → c.bytes_expected + c.bytes_processed ≤ length c.querybuf
      → head_magic_num c.querybuf ≢ xhead_magic_num
      → process_query_buffer request (suc k) c s ≡ ok (minus_one, c, s)
  unfolding process_query_buffer
  process-head_bad st enough magic = ground arith

  pub process-body :
      (r : Outcome (ℤ × S))
      → c.current_state ≡ state_body
      → c.bytes_expected ≡ head_body_len c.querybuf
      → c.bytes_processed ≡ xhead_size
      → length c.querybuf < short_connection + head_body_len c.querybuf
      → xhead_size + head_body_len c.querybuf ≤ length c.querybuf
      → handled request c.querybuf s ≡ r
      → process_query_buffer request (suc (suc k)) c s ≡ settle c r
  unfolding process_query_buffer
  process-body (ok (ret, s')) st ex pr small enough e = ground arith
  process-body fault st ex pr small enough e = ground arith
  process-body out_of_fuel st ex pr small enough e = ground arith
