-- ===== src/Signaling/Framing.antt =====
-- `_process_query_buffer` of xrtc_server/src/server/signaling_worker.cpp: cutting one request out
-- of the bytes that a connection has received. What is done with a request is a parameter; the
-- worker puts `_process_request` there.
pub mod Rounds
pub mod Stream
pub mod Received
pub mod Kept
use dcj_rtc.Prelude.{
  ℕ, zero, suc, ◌+◌, Bool, true, false, Bytes, ℤ, pos, minus_one, eq_ℤ, Outcome, ok, out_of_fuel,
  ◌>>=◌, ◌==◌, leb, length, take, drop, if◌then◌else◌,
}
use dcj_rtc.Wire.{xhead_size, xhead_magic_num, head_magic_num, head_body_len}
use dcj_rtc.Signaling.Conn.{TcpConnection, ConnState, state_head, state_body}

-- What the code writes to `bytes_processed` when the request is answered.
abbrev pub short_connection : ℕ
short_connection = 65535

-- How a round of the loop ends: by `return -1`, or at the end of the loop's body.
pub data Round (W T S : Type 0) : Type 0 where
  returns : TcpConnection W T → S → Round W T S
  continues : TcpConnection W T → S → Round W T S

-- The loop's condition, on `size_t` values: neither summand passes 2^32.
abbrev pub has_enough : {W T : Type 0} → TcpConnection W T → Bool
has_enough c = leb (c.bytes_expected + c.bytes_processed) (length c.querybuf)

module _ {W T S : Type 0} (request : Bytes → Bytes → S → Outcome (ℤ × S)) where
  head_round : TcpConnection W T → S → Outcome (Round W T S)
  head_round c s =
      if head_magic_num c.querybuf == xhead_magic_num
      then ok (
          continues
            (record c {
              current_state = state_body;
              bytes_processed = xhead_size;
              bytes_expected = head_body_len c.querybuf;
            })
            s)
      else ok (returns c s)

  body_round : TcpConnection W T → S → Outcome (Round W T S)
  body_round c s = do
    let header = take xhead_size c.querybuf
    let body = take (head_body_len c.querybuf) (drop xhead_size c.querybuf)
    (ret, s') ← request header body s
    if eq_ℤ ret (pos 0)
        then ok (continues (record c { bytes_processed = short_connection }) s')
        else ok (returns c s')

  round_in : ConnState → TcpConnection W T → S → Outcome (Round W T S)
  unfolding head_round body_round
  round_in state_head c s = head_round c s
  round_in state_body c s = body_round c s

  unfoldable pub process_query_buffer :
      ℕ → TcpConnection W T → S → Outcome (ℤ × TcpConnection W T × S)
  unfolding round_in
  process_query_buffer zero c s = out_of_fuel
  process_query_buffer (suc k) c s = elim (has_enough c) [
    | false ↦ ok (pos 0, c, s)
    | true ↦ round_in c.current_state c s >>= λ r. elim r [
      | returns c' s' ↦ ok (minus_one, c', s')
      | continues c' s' ↦ process_query_buffer k c' s'
    ]
  ]
