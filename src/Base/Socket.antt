-- ===== src/Base/Socket.antt =====
-- xrtc_server/src/base/socket.cpp. What a system call answers is an argument; `none` is `-1`.
pub mod Setup
use dcj_rtc.Prelude.{
  ℕ, ℤ, pos, minus_one, Bool, Option, none, some, Bytes, ◌==◌, if◌then◌else◌, [], ◌∷◌,
}

-- `EAGAIN` of macOS, for which the build is set up.
abbrev pub again : ℕ
again = 35

-- `read`: the bytes that it returned, none of them at the end of the stream; or `errno`.
pub data ReadAnswer : Type 0 where
  received : Bytes → ReadAnswer
  read_error : ℕ → ReadAnswer

-- `write`: how many bytes it took, or `errno`.
pub data WriteAnswer : Type 0 where
  took : ℕ → WriteAnswer
  write_error : ℕ → WriteAnswer

-- `sock_read_data`: the bytes that it stored, `-1` on an error and at the end of the stream.
unfoldable pub sock_read_data : ReadAnswer → Option Bytes
sock_read_data (read_error errno) = if errno == again then some [] else none
sock_read_data (received bytes) = elim bytes [ [] ↦ none | b ∷ rest ↦ some (b ∷ rest) ]

-- `sock_write_data`
unfoldable pub sock_write_data : WriteAnswer → Option ℕ
sock_write_data (write_error errno) = if errno == again then some 0 else none
sock_write_data (took n) = some n

-- `read` of an `int` from a pipe that wakes an event loop: a whole number, or anything else.
pub data PipeAnswer : Type 0 where
  whole_int : ℤ → PipeAnswer
  no_int : PipeAnswer

-- The `notify` functions: whether the `write` takes the number as a whole.
abbrev pub notify : (sent : Bool) → ℤ
notify sent = if sent then pos 0 else minus_one
