-- ===== src/Base/Socket/Setup.antt =====
-- The calls of xrtc_server/src/base/socket.cpp that make and set up sockets. `none` is `-1`; the list
-- holds the descriptors that the call closed.
use dcj_rtc.Prelude.{
  ℕ, zero, suc, ℤ, pos, minus_one, Bool, true, false, ◌&&◌, not, is_neg, ◌≡◌, ◌≢◌, refl, Option,
  none, some, Bytes, List, [], ◌∷◌, Outcome, ok, out_of_fuel, ◌>>=◌, ◌⊎◌, inl, inr, ◌==◌,
  if◌then◌else◌, arith,
}
use dcj_rtc.Base.Socket.{again}

-- What the system calls of `create_tcp_socket` answer: the socket, and whether each of the others
-- succeeds. `address` is `inet_aton`, for an address that is not `nullptr`.
pub record SocketAnswers : Type 0 where
  pub socket : Option ℕ
  pub reuse_addr : Bool
  pub address : Bool
  pub bind : Bool
  pub listen : Bool

unfoldable pub create_tcp_socket : (has_addr : Bool) → SocketAnswers → Option ℕ × List ℕ
create_tcp_socket has_addr a = elim a.socket [
  | none ↦ (none, [])
  | some sock ↦
      if not a.reuse_addr
      then (none, sock ∷ [])
      else if has_addr && not a.address
      then (none, sock ∷ [])
      else if not a.bind
      then (none, sock ∷ [])
      else if not a.listen
      then (none, sock ∷ [])
      else (some sock, [])
]

-- `accept`: a descriptor, or `errno`.
pub data AcceptAnswer : Type 0 where
  accepted : ℕ → AcceptAnswer
  accept_error : ℕ → AcceptAnswer

-- `generic_accept`; `accept` is called once, in front of the loop, and `EWOULDBLOCK` is `EAGAIN`.
unfoldable pub generic_accept : (fuel : ℕ) → ℕ → AcceptAnswer → Outcome (Option ℕ × List ℕ)
generic_accept zero sock a = out_of_fuel
generic_accept (suc k) sock (accepted cfd) = ok (some cfd, [])
generic_accept (suc k) sock (accept_error errno) = elim (errno == again) [
  | true ↦ generic_accept k sock (accept_error errno)
  | false ↦ ok (none, sock ∷ [])
]

-- `tcp_accept`, with the address that the kernel stored.
unfoldable pub tcp_accept :
    (fuel : ℕ) → ℕ → AcceptAnswer → (peer : Bytes × ℕ) → Outcome (Option (ℕ × Bytes × ℕ) × List ℕ)
tcp_accept k fd a (ip, port) = generic_accept k fd a >>= λ (cfd, closed). elim cfd [
  | none ↦ ok (none, closed)
  | some c ↦ ok (some (c, ip, port), closed)
]

-- `sock_set_non_block`: the flags that `F_GETFL` gives, and whether `F_SETFL` succeeds.
unfoldable pub sock_set_non_block : (flags : ℤ) (set_ok : Bool) → Bool
sock_set_non_block flags set_ok = if is_neg flags then false else set_ok

-- `sock_set_tcp_nodelay`
unfoldable pub sock_set_tcp_nodelay : (set_ok : Bool) → Bool
sock_set_tcp_nodelay set_ok = if not set_ok then false else true

-- `sock_peer_to_string` for buffers that are not null: what it returns, the text of the address and
-- the port. `peer` is what `getpeername` stores. After a failure the text is cut to the empty one.
unfoldable pub sock_peer_to_string : (peer : Option (Bytes × ℕ)) → ℤ × Bytes × ℕ
sock_peer_to_string peer = elim peer [
  | none ↦ (minus_one, [], 0)
  | some (ip, port) ↦ (pos 0, ip, port)
]

-- Every way out of `create_tcp_socket` accounts for the socket: it is returned open, or it is
-- closed once, or there was none.
pub create_tcp_socket-accounts :
    (has_addr : Bool) (a : SocketAnswers) (sock : ℕ)
    → a.socket ≡ some sock
    → (create_tcp_socket has_addr a ≡ (some sock, []))
      ⊎ (create_tcp_socket has_addr a ≡ (none, sock ∷ []))
unfolding create_tcp_socket
create_tcp_socket-accounts has_addr a sock e = cases has_addr a.reuse_addr a.address a.bind a.listen
  where
    cases :
        (h r d b l : Bool)
        → let a' : SocketAnswers = record {
          socket = a.socket;
          reuse_addr = r;
          address = d;
          bind = b;
          listen = l;
        } in
          (create_tcp_socket h a' ≡ (some sock, [])) ⊎ (create_tcp_socket h a' ≡ (none, sock ∷ []))
    cases h false d b l = inr (rw e refl)
    cases true true false b l = inr (rw e refl)
    cases true true true false l = inr (rw e refl)
    cases true true true true false = inr (rw e refl)
    cases true true true true true = inl (rw e refl)
    cases false true d false l = inr (rw e refl)
    cases false true d true false = inr (rw e refl)
    cases false true d true true = inl (rw e refl)

-- If `accept` would block, `generic_accept` never returns. On any other error it closes the
-- listening socket.
pub generic_accept-errors :
    (sock errno k : ℕ)
    → errno ≢ again
    → (generic_accept k sock (accept_error again) ≡ out_of_fuel)
      × (generic_accept (suc k) sock (accept_error errno) ≡ ok (none, sock ∷ []))
unfolding generic_accept
generic_accept-errors sock errno k ne = (blocks k, ground arith)
  where
    blocks : (k : ℕ) → generic_accept k sock (accept_error again) ≡ out_of_fuel
    blocks zero = refl
    blocks (suc k) = blocks k
