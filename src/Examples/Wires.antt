-- ===== src/Examples/Wires.antt =====
-- The header and the framing loop on concrete bytes.
use dcj_rtc.Prelude.{
  ℕ, ℤ, pos, ◌≡◌, refl, Bytes, List, [], ◌∷◌, ◌++◌, ok, Outcome, out_of_fuel, some, arith, length,
  length-replicate, length-append, replicate, take, drop,
}
use mathlib.Core.List.{flatten}
use dcj_rtc.Wire.{Xhead, xhead_size, read_xhead, marshal, unmarshal, xhead_magic_num}
use dcj_rtc.Wire.Header.{IsXhead, read_xhead-marshal}
use dcj_rtc.Signaling.Conn.{TcpConnection, new_connection, state_body}
use dcj_rtc.Signaling.Framing.{process_query_buffer}
use dcj_rtc.Signaling.Framing.Stream.{served}
use dcj_rtc.Signaling.Framing.Received.{
  receive_all, receive_all-new_connection, process_query_buffer-endless,
}
use dcj_rtc.Examples.Fixtures.{request_head}

abbrev head : Xhead
head = record {
  id = 1;
  version = 2;
  log_id = 77;
  provider = replicate 16 0;
  magic_num = xhead_magic_num;
  reserved = 0;
  body_len = 300;
}

head-IsXhead : IsXhead head
head-IsXhead = record {
  id = omega arith;
  version = omega arith;
  log_id = omega arith;
  provider = refl;
  magic_num = omega arith;
  reserved = omega arith;
  body_len = omega arith;
}

read_xhead-marshal_example :
    (b : Bytes) × (marshal head 40 ≡ some b)
    × (length b ≡ xhead_size)
    × (read_xhead (b ++ (1 ∷ [])) ≡ head)
    × (unmarshal b ≡ some head)
read_xhead-marshal_example = read_xhead-marshal head 40 (1 ∷ []) head-IsXhead (omega arith)

-- A handler that keeps the bodies.
abbrev keep : Bytes → Bytes → List Bytes → Outcome (ℤ × List Bytes)
keep header body bodies = ok (pos 0, body ∷ bodies)

-- The request comes in two pieces.
abbrev pieces : List Bytes
pieces = take 10 request_head ∷ drop 10 request_head ∷ []

abbrev new_five : TcpConnection ℕ ℕ
new_five = new_connection 0 0 5

receive_all-new_connection_example :
    receive_all keep new_five [] pieces ≡ served keep (flatten pieces) []
unfolding flatten
receive_all-new_connection_example = receive_all-new_connection keep 0 0 5 [] pieces (omega arith)

-- The request, and what the client sends behind it.
abbrev flood : Bytes
flood = request_head ++ replicate 65535 1

abbrev flooded : TcpConnection ℕ ℕ
unfolding new_connection
flooded = record (new_connection 0 0 5) {
  querybuf = flood;
  current_state = state_body;
  bytes_expected = 0;
  bytes_processed = 65535;
}

process_query_buffer-endless_example : process_query_buffer keep 1000 flooded [] ≡ out_of_fuel
unfolding flooded
process_query_buffer-endless_example =
    process_query_buffer-endless keep flooded flood (λ s. (_, refl)) refl refl refl
      (omega
        (arith, length-append request_head (replicate 65535 1), length-replicate {A = ℕ} 65535 1))
      1000 []
