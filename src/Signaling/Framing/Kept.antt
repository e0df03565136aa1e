-- ===== src/Signaling/Framing/Kept.antt =====
-- What the framing loop leaves alone, and that it returns when the handler does.
use dcj_rtc.Prelude.{
  ℕ, zero, suc, ◌<◌, ◌≡◌, refl, sym, ◌∙◌, Bytes, [], ◌++◌, ℤ, pos, minus_one, Outcome, ok, fault,
  out_of_fuel, ◌>>=◌, length, length-append, arith, Bool-cases, inl, inr, take, drop, ◌≢◌,
}
use dcj_rtc.Wire.{xhead_size, head_body_len}
use dcj_rtc.Signaling.Conn.{TcpConnection, ConnState, state_head, state_body}
use dcj_rtc.Signaling.Framing.{
  Round, returns, continues, has_enough, round_in, short_connection, process_query_buffer,
}
use dcj_rtc.Signaling.Framing.Rounds.{process-waits}
use dcj_rtc.Signaling.Framing.Stream.{
  awaits_head, awaits_body, answered, InPhase, served, served-short, served-waits,
  head_magic_num-append, head_body_len-append,
}
use dcj_rtc.Signaling.Framing.Received.{Received, fails, faults, hangs, read-Received}

-- The fields that the loop does not write.
pub record SameConn {W T : Type 0} (c c' : TcpConnection W T) : Type 0 where
  pub fd : c'.fd ≡ c.fd
  pub io_watcher : c'.io_watcher ≡ c.io_watcher
  pub timer_watcher : c'.timer_watcher ≡ c.timer_watcher
  pub querybuf : c'.querybuf ≡ c.querybuf
  pub last_active_time : c'.last_active_time ≡ c.last_active_time
  pub reply_msgs : c'.reply_msgs ≡ c.reply_msgs

module _ {W T S : Type 0} (request : Bytes → Bytes → S → Outcome (ℤ × S)) where
  -- A round leaves them alone however it ends.
  abbrev RoundKeeps : TcpConnection W T → Round W T S → Type 0
  RoundKeeps c (returns c' s') = SameConn c c'
  RoundKeeps c (continues c' s') = SameConn c c'

  round_in-keeps :
      (st : ConnState) (c : TcpConnection W T) (s : S) (r : Round W T S)
      → round_in request st c s ≡ ok r
      → RoundKeeps c r
  unfolding round_in
  round_in-keeps state_head c s (returns c' s') e = ground arith
  round_in-keeps state_head c s (continues c' s') e = ground arith
  round_in-keeps state_body c s (returns c' s') e = ground arith
  round_in-keeps state_body c s (continues c' s') e = ground arith

  -- What follows a round.
  abbrev go_on : ℕ → Round W T S → Outcome (ℤ × TcpConnection W T × S)
  go_on k r = elim r [
    | returns c s ↦ ok (minus_one, c, s)
    | continues c s ↦ process_query_buffer request k c s
  ]

  after_round :
      (k : ℕ) (c c' : TcpConnection W T) (s' : S) (ret : ℤ) (r : Outcome (Round W T S))
      → ((r' : Round W T S) → r ≡ ok r' → RoundKeeps c r')
      → ((c1 : TcpConnection W T) (s1 : S)
          → process_query_buffer request k c1 s1 ≡ ok (ret, c', s')
          → SameConn c1 c')
      → (r >>= go_on k) ≡ ok (ret, c', s')
      → SameConn c c'
  after_round k c c' s' ret (ok (returns c1 s1)) keeps ih e =
      ground (arith, keeps (returns c1 s1) refl)
  after_round k c c' s' ret (ok (continues c1 s1)) keeps ih e =
      ground (arith, keeps (continues c1 s1) refl, ih c1 s1 e)
  after_round k c c' s' ret fault keeps ih e = cc
  after_round k c c' s' ret out_of_fuel keeps ih e = cc

  pub process_query_buffer-SameConn :
      (k : ℕ) (c c' : TcpConnection W T) (s s' : S) (ret : ℤ)
      → process_query_buffer request k c s ≡ ok (ret, c', s')
      → SameConn c c'
  unfolding process_query_buffer
  process_query_buffer-SameConn zero c c' s s' ret e = cc
  process_query_buffer-SameConn (suc k) c c' s s' ret e = elim (Bool-cases (has_enough c)) [
    | inl enough ↦
        after_round k c c' s' ret (round_in request c.current_state c s)
          (λ r'. round_in-keeps c.current_state c s r')
          (λ c1 s1. process_query_buffer-SameConn k c1 c' s1 s' ret)
          (rw (enough, process_query_buffer) at e)
    | inr short ↦ ground arith
  ]

module _ {S : Type 0} (request : Bytes → Bytes → S → Outcome (ℤ × S)) where
  abbrev pub Total : Type 0
  Total = (h b : Bytes) (s : S) → (r : ℤ × S) × (request h b s ≡ ok r)

  served-ne_fault : Total → (b : Bytes) (s : S) → served request b s ≢ fault
  unfolding served
  served-ne_fault total b s e =
      ground (arith, (total (take xhead_size b) (take (head_body_len b) (drop xhead_size b)) s).1)

  served-ne_out_of_fuel : Total → (b : Bytes) (s : S) → served request b s ≢ out_of_fuel
  unfolding served
  served-ne_out_of_fuel total b s e =
      ground (arith, (total (take xhead_size b) (take (head_body_len b) (drop xhead_size b)) s).1)

-- One read, when the handler always returns: the loop returns, and after `0` the buffer and the
-- counters agree again.
pub data Kept {W T S : Type 0} (b : Bytes) (r : Outcome (ℤ × TcpConnection W T × S)) : Type 0 where
  goes_on : (c : TcpConnection W T) (s : S) → r ≡ ok (pos 0, c, s) → InPhase c c.querybuf → Kept b r
  stops : (c : TcpConnection W T) (s : S) → r ≡ ok (minus_one, c, s) → Kept b r

module _ {W T S : Type 0} (request : Bytes → Bytes → S → Outcome (ℤ × S))
    (total : Total request) where
  Received-Kept :
      (b : Bytes) (s : S) {r : Outcome (ℤ × TcpConnection W T × S)}
      → Received (λ b'. served request b' s) b r
      → Kept b r
  Received-Kept b s (Received.goes_on c s' e buf ph sv) = goes_on c s' e (rw buf ph)
  Received-Kept b s (fails c s' e sv) = stops c s' e
  Received-Kept b s (faults e sv) = absurd (served-ne_fault request total (b ++ []) s (sv []))
  Received-Kept b s (hangs e sv) = absurd (served-ne_out_of_fuel request total (b ++ []) s (sv []))

  pub read-Kept :
      (c : TcpConnection W T) (b d : Bytes) (s : S)
      → InPhase c b
      → c.querybuf ≡ b ++ d
      → length (b ++ d) < short_connection
      → Kept (b ++ d) (process_query_buffer request 3 c s)
  read-Kept c b d s (awaits_head st ex pr short) e small = Received-Kept (b ++ d) s (
      read-Received request c b d s s (awaits_head st ex pr short) e
        (served-short request b s short) small)
  read-Kept c b d s (awaits_body st ex pr magic long short) e small = Received-Kept (b ++ d) s (
      read-Received request c b d s s (awaits_body st ex pr magic long short) e
        (served-waits request b s magic short) small)
  read-Kept c b d s (answered st ex pr magic whole) e small =
      goes_on c s
        (process-waits request 2 c s (ground (arith, length-append b d, head_body_len-append b d)))
        (rw e (
          answered st (ex ∙ sym (head_body_len-append b d (omega arith))) pr
            (head_magic_num-append b d (omega arith) ∙ magic)
            (omega (arith, length-append b d, head_body_len-append b d (omega arith)))))
