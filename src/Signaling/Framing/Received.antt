-- ===== src/Signaling/Framing/Received.antt =====
-- A read that brings more bytes, and a whole history of reads.
use dcj_rtc.Prelude.{
  ℕ, zero, suc, ◌+◌, ◌<◌, ◌≤◌, ◌≡◌, refl, sym, ◌∙◌, Bytes, List, [], ◌∷◌, ◌++◌, ℤ, pos, minus_one,
  eq_ℤ, Outcome, ok, fault, out_of_fuel, ◌>>=◌, length, length-append, if◌then◌else◌, arith,
  Bool-cases, inl, inr, ◌⊎◌, append-nil, append_assoc, ◌==◌,
}
use mathlib.Core.Path.{subst₂}
use mathlib.Core.List.{flatten}
use dcj_rtc.Wire.{xhead_size, xhead_magic_num, head_magic_num, head_body_len}
use dcj_rtc.Signaling.Conn.{TcpConnection, new_connection, state_head, state_body}
use dcj_rtc.Signaling.Framing.{short_connection, process_query_buffer}
use dcj_rtc.Signaling.Framing.Rounds.{
  handled, settle, process-waits, process-head, process-head_bad, process-body,
}
use dcj_rtc.Signaling.Framing.Stream.{
  awaits_head, awaits_body, answered, InPhase, served, served-append_bad, served-waits,
  served-short, served-whole, served-append_whole, head_magic_num-append, head_body_len-append,
}

-- What the loop may come to on the buffer `b`, when `served` says `f b` of all bytes so far.
pub data Received {W T S : Type 0} (f : Bytes → Outcome (ℤ × S)) (b : Bytes)
    (r : Outcome (ℤ × TcpConnection W T × S)) : Type 0 where
  goes_on :
      (c : TcpConnection W T) (s : S)
      → r ≡ ok (pos 0, c, s)
      → c.querybuf ≡ b
      → InPhase c b
      → f b ≡ ok (pos 0, s)
      → Received f b r
  fails :
      (c : TcpConnection W T) (s : S)
      → r ≡ ok (minus_one, c, s)
      → ((d : Bytes) → f (b ++ d) ≡ ok (minus_one, s))
      → Received f b r
  faults : r ≡ fault → ((d : Bytes) → f (b ++ d) ≡ fault) → Received f b r
  hangs : r ≡ out_of_fuel → ((d : Bytes) → f (b ++ d) ≡ out_of_fuel) → Received f b r

lt-or-le : (a b : ℕ) → (a < b) ⊎ (b ≤ a)
lt-or-le a b = omega arith

module _ {W T S : Type 0} (request : Bytes → Bytes → S → Outcome (ℤ × S)) where
  -- The loop after a complete request.
  settle-Received :
      (c : TcpConnection W T) (s : S) (r : Outcome (ℤ × S))
      → c.current_state ≡ state_body
      → c.bytes_expected ≡ head_body_len c.querybuf
      → head_magic_num c.querybuf ≡ xhead_magic_num
      → xhead_size + head_body_len c.querybuf ≤ length c.querybuf
      → handled request c.querybuf s ≡ r
      → Received (λ b. served request b s) c.querybuf (settle c r)
  settle-Received c s (ok (ret, s')) st ex magic whole e = elim (Bool-cases (eq_ℤ ret (pos 0))) [
    | inl zero_ret ↦
        goes_on (record c { bytes_processed = short_connection }) s' (rw zero_ret) refl
          (answered st ex refl magic whole)
          (served-whole request c.querybuf s magic whole ∙ rw (e, zero_ret))
    | inr nonzero ↦
        fails c s' (rw nonzero)
          (λ d. served-append_whole request c.querybuf d s magic whole ∙ rw (e, nonzero))
  ]
  settle-Received c s fault st ex magic whole e =
      faults refl (λ d. served-append_whole request c.querybuf d s magic whole ∙ rw e)
  settle-Received c s out_of_fuel st ex magic whole e =
      hangs refl (λ d. served-append_whole request c.querybuf d s magic whole ∙ rw e)

  -- The loop once the header is known to be good.
  body-Received :
      (c : TcpConnection W T) (s : S)
      → c.current_state ≡ state_body
      → c.bytes_expected ≡ head_body_len c.querybuf
      → c.bytes_processed ≡ xhead_size
      → head_magic_num c.querybuf ≡ xhead_magic_num
      → xhead_size ≤ length c.querybuf
      → length c.querybuf < short_connection
      → (k : ℕ)
      → Received
          (λ b. served request b s)
          c.querybuf
          (process_query_buffer request (suc (suc k)) c s)
  body-Received c s st ex pr magic long small k =
      elim (lt-or-le (length c.querybuf) (xhead_size + head_body_len c.querybuf)) [
        | inl short ↦
            goes_on c s (process-waits request (suc k) c s (omega arith)) refl
              (awaits_body st ex pr magic long short)
              (served-waits request c.querybuf s magic short)
        | inr whole ↦
            rw (process-body request k c s _ st ex pr (omega arith) whole refl)
              (settle-Received c s _ st ex magic whole refl)
      ]

  head-Received :
      (c : TcpConnection W T) (s : S)
      → c.current_state ≡ state_head
      → c.bytes_expected ≡ xhead_size
      → c.bytes_processed ≡ 0
      → length c.querybuf < short_connection
      → Received (λ b. served request b s) c.querybuf (process_query_buffer request 3 c s)
  head-Received c s st ex pr small = elim (lt-or-le (length c.querybuf) xhead_size) [
    | inl short ↦
        goes_on c s (process-waits request 2 c s (omega arith)) refl (awaits_head st ex pr short)
          (served-short request c.querybuf s short)
    | inr long ↦ elim (Bool-cases (head_magic_num c.querybuf == xhead_magic_num)) [
      | inl magic ↦
          rw (process-head request 2 c s st (omega arith) (ground arith))
            (body-Received _ s refl refl refl (ground arith) long small 0)
      | inr bad ↦
          fails c s (process-head_bad request 2 c s st (omega arith) (ground arith))
            (λ d. served-append_bad request c.querybuf d s long (ground arith))
    ]
  ]

  -- One read: the bytes `d` arrive behind `b`.
  pub read-Received :
      (c : TcpConnection W T) (b d : Bytes) (s s0 : S)
      → InPhase c b
      → c.querybuf ≡ b ++ d
      → served request b s0 ≡ ok (pos 0, s)
      → length (b ++ d) < short_connection
      → Received (λ b. served request b s0) (b ++ d) (process_query_buffer request 3 c s)
  read-Received c b d s s0 (awaits_head st ex pr short) e sv small =
      let same : s ≡ s0 = cc (served-short request b s0 short) in
      subst₂
        (λ x b'. Received (λ b''. served request b'' x) b' (process_query_buffer request 3 c s))
        same e (head-Received c s st ex pr (rw e small))
  read-Received c b d s s0 (awaits_body st ex pr magic long short) e sv small =
      let same : s ≡ s0 = cc (served-waits request b s0 magic short) in
      let kept : head_body_len c.querybuf ≡ head_body_len b =
        rw e (head_body_len-append b d long) in
      subst₂
        (λ x b'. Received (λ b''. served request b'' x) b' (process_query_buffer request 3 c s))
        same e
        (body-Received c s st (ex ∙ sym kept) pr (rw e (head_magic_num-append b d long) ∙ magic)
          (rw e (omega (arith, length-append b d))) (rw e small) 1)
  read-Received c b d s s0 (answered st ex pr magic whole) e sv small =
      let s' = served-append_whole request b d s0 magic whole in
      let s'' = served-whole request b s0 magic whole in
      goes_on c s (process-waits request 2 c s (ground (arith, length-append b d))) e
        (answered st (ex ∙ sym (head_body_len-append b d (omega arith))) pr
          (head_magic_num-append b d (omega arith) ∙ magic)
          (omega (arith, length-append b d, head_body_len-append b d (omega arith))))
        (s' ∙ sym s'' ∙ sv)

  -- The bytes of a read stored behind the buffer, then the loop, on enough fuel.
  abbrev pub receive : TcpConnection W T → S → Bytes → Outcome (ℤ × TcpConnection W T × S)
  receive c s d = process_query_buffer request 3 (record c { querybuf = c.querybuf ++ d }) s

  -- A history of reads, up to the first that fails.
  unfoldable pub receive_all : TcpConnection W T → S → List Bytes → Outcome (ℤ × S)
  receive_all c s [] = ok (pos 0, s)
  receive_all c s (d ∷ ds) = receive c s d >>= λ (ret, c', s').
      if eq_ℤ ret (pos 0) then receive_all c' s' ds else ok (ret, s')

  -- What is left of the history after one read.
  receive_next : Outcome (ℤ × TcpConnection W T × S) → List Bytes → Outcome (ℤ × S)
  receive_next r ds =
      r >>= λ (ret, c', s'). if eq_ℤ ret (pos 0) then receive_all c' s' ds else ok (ret, s')

  receive_next-served :
      (b : Bytes) (s0 : S) (ds : List Bytes) {r : Outcome (ℤ × TcpConnection W T × S)}
      → Received (λ b'. served request b' s0) b r
      → ((c : TcpConnection W T) (s : S)
          → InPhase c b
          → c.querybuf ≡ b
          → served request b s0 ≡ ok (pos 0, s)
          → receive_all c s ds ≡ served request (b ++ flatten ds) s0)
      → receive_next r ds ≡ served request (b ++ flatten ds) s0
  unfolding receive_next
  receive_next-served b s0 ds (goes_on c s e buf ph sv) later = rw e (later c s ph buf sv)
  receive_next-served b s0 ds (fails c s e sv) later = rw e (sym (sv (flatten ds)))
  receive_next-served b s0 ds (faults e sv) later = rw e (sym (sv (flatten ds)))
  receive_next-served b s0 ds (hangs e sv) later = rw e (sym (sv (flatten ds)))

  receive_all-served :
      (c : TcpConnection W T) (b : Bytes) (s s0 : S) (ds : List Bytes)
      → InPhase c b
      → c.querybuf ≡ b
      → served request b s0 ≡ ok (pos 0, s)
      → length (b ++ flatten ds) < short_connection
      → receive_all c s ds ≡ served request (b ++ flatten ds) s0
  unfolding receive_all receive_next flatten
  receive_all-served c b s s0 [] ph e sv small = sym (rw append-nil sv)
  receive_all-served c b s s0 (d ∷ ds) ph e sv small =
      let whole : length ((b ++ d) ++ flatten ds) < short_connection = rw append_assoc small in
      rw (← append_assoc b d (flatten ds)) (
        receive_next-served (b ++ d) s0 ds
          (read-Received (record c { querybuf = c.querybuf ++ d }) b d s s0 ph (rw e refl) sv
            (omega (arith, length-append (b ++ d) (flatten ds))))
          (λ c' s' ph' buf sv'. receive_all-served c' (b ++ d) s' s0 ds ph' buf sv' whole))

-- However the bytes of a connection are cut into reads, the handler is given the request that
-- `served` reads off all of them, as long as fewer than 65535 bytes arrive; the loop never needs a
-- fourth round.
pub receive_all-new_connection :
    {W T S : Type 0} (request : Bytes → Bytes → S → Outcome (ℤ × S)) (w : W) (t : T) (fd : ℕ)
    (s : S) (ds : List Bytes)
    → length (flatten ds) < short_connection
    → receive_all request (new_connection w t fd) s ds ≡ served request (flatten ds) s
unfolding new_connection
receive_all-new_connection request w t fd s ds small =
    receive_all-served request _ [] s s ds (awaits_head refl refl refl (omega arith)) refl
      (served-short request [] s (omega arith)) small

-- After the answer, a client that goes on sending until 65535 bytes stand behind the body length
-- keeps the loop running for ever, if the handler accepts the request whatever it has done before:
-- it then handles the same request again and again.
pub process_query_buffer-endless :
    {W T S : Type 0} (request : Bytes → Bytes → S → Outcome (ℤ × S)) (c : TcpConnection W T)
    (b : Bytes)
    → ((s : S) → (s' : S) × (handled request b s ≡ ok (pos 0, s')))
    → c.querybuf ≡ b
    → c.current_state ≡ state_body
    → c.bytes_processed ≡ short_connection
    → c.bytes_expected + short_connection ≤ length b
    → (k : ℕ) (s : S) → process_query_buffer request k c s ≡ out_of_fuel
unfolding process_query_buffer
process_query_buffer-endless request c b accepts e st pr long zero s = refl
process_query_buffer-endless request c b accepts e st pr long (suc k) s = ground (
  arith,
  (accepts s).1,
  process_query_buffer-endless request (record c { bytes_processed = short_connection }) b accepts e
      st refl long k (accepts s).0,
)
