-- ===== src/Signaling/Handlers/Write.antt =====
-- The write handler: what goes to the descriptor, when the loop ends, and the table after it.
use dcj_rtc.Prelude.{
  ℕ, zero, suc, ◌+◌, ◌<◌, ◌≤◌, ◌≡◌, ◌≢◌, refl, ap, Bytes, List, [], ◌∷◌, ◌++◌, ok, out_of_fuel, inl,
  inr, length, take, replicate, arith, Bool-cases, leb, append_assoc, append-nil, take_of_length_le,
  length-append, length-take,
}
use mathlib.Core.List.{flatten}
use dcj_rtc.Base.Socket.{WriteAnswer, took, write_error, again, sock_write_data}
use dcj_rtc.Signaling.Handlers.{WriteEnd, drained, broken, write_loop}

-- Each answer takes the whole of its message.
abbrev pub whole_writes : List Bytes → List WriteAnswer
whole_writes [] = []
whole_writes (m ∷ ms) = took (length m) ∷ whole_writes ms

abbrev pub NonEmpty : List Bytes → Type 0
NonEmpty [] = Unit {0}
NonEmpty (m ∷ ms) = (0 < length m) × NonEmpty ms

-- If the kernel takes each message whole, the peer gets the replies one behind the other.
pub write_loop-whole_writes :
    (ms : List Bytes) (sent : Bytes)
    → NonEmpty ms
    → write_loop (whole_writes ms) 0 ms sent ≡ ok (drained (sent ++ flatten ms))
unfolding write_loop sock_write_data flatten
write_loop-whole_writes [] sent v = simp append-nil
write_loop-whole_writes ([] ∷ ms) sent v = absurd (omega arith)
write_loop-whole_writes ((x ∷ m) ∷ ms) sent v = ground (
  arith,
  take_of_length_le (length m) m,
  append_assoc sent (x ∷ m) (flatten ms),
  write_loop-whole_writes ms (sent ++ (x ∷ m)) v.1,
)

-- How many answers the loop needs at most, when each makes some progress.
abbrev pub rounds : List Bytes → ℕ
rounds [] = 0
rounds (m ∷ ms) = suc (length m) + rounds ms

-- An answer that takes at least one byte, or an error that is no `EAGAIN`.
abbrev pub IsProgress : WriteAnswer → Type 0
IsProgress (took n) = 0 < n
IsProgress (write_error e) = e ≢ again

abbrev pub AllProgress : List WriteAnswer → Type 0
AllProgress [] = Unit {0}
AllProgress (a ∷ answers) = IsProgress a × AllProgress answers

-- The position stays inside the message at the front.
abbrev Within : ℕ → List Bytes → Type 0
Within cur_pos [] = Unit {0}
Within cur_pos (m ∷ ms) = cur_pos ≤ length m

Within-zero : (ms : List Bytes) → Within 0 ms
Within-zero [] = tt
Within-zero (m ∷ ms) = omega arith

write_loop-ends_from :
    (answers : List WriteAnswer) (cur_pos : ℕ) (ms : List Bytes) (sent : Bytes)
    → AllProgress answers
    → Within cur_pos ms
    → rounds ms ≤ length answers + cur_pos
    → (e : WriteEnd) × (write_loop answers cur_pos ms sent ≡ ok e)
unfolding write_loop sock_write_data
write_loop-ends_from answers cur_pos [] sent p w h = (drained sent, refl)
write_loop-ends_from [] cur_pos (m ∷ ms) sent p w h = absurd (omega arith)
write_loop-ends_from (write_error e ∷ answers) cur_pos (m ∷ ms) sent p w h =
    (broken (m ∷ ms) sent, ground arith)
write_loop-ends_from (took zero ∷ answers) cur_pos (m ∷ ms) sent p w h = absurd (omega arith)
write_loop-ends_from (took (suc n) ∷ answers) cur_pos (m ∷ ms) sent p w h =
    elim (Bool-cases (leb (length m) (suc n + cur_pos))) [
      | inl done ↦
          let (e, q) =
            write_loop-ends_from answers 0 ms (sent ++ take (suc n) m) p.1 (Within-zero ms)
              (omega arith) in
          (e, rw (done, write_loop) q)
      | inr more ↦
          let (e, q) =
            write_loop-ends_from answers (cur_pos + suc n) (m ∷ ms) (sent ++ take (suc n) m) p.1
              (ground arith) (omega arith) in
          (e, rw (more, write_loop) q)
    ]

-- The loop ends if the kernel makes progress at each call, after at most one call for each byte
-- and one more for each message.
pub write_loop-ends :
    (answers : List WriteAnswer) (ms : List Bytes)
    → AllProgress answers
    → rounds ms ≤ length answers
    → (e : WriteEnd) × (write_loop answers 0 ms [] ≡ ok e)
write_loop-ends answers ms p h =
    write_loop-ends_from answers 0 ms [] p (Within-zero ms) (omega arith)

-- While the descriptor would block, the loop does not go back to the event loop.
pub write_loop-again :
    (k cur_pos : ℕ) (m : Bytes) (ms : List Bytes) (sent : Bytes)
    → write_loop (replicate k (write_error again)) cur_pos (m ∷ ms) sent ≡ out_of_fuel
unfolding write_loop sock_write_data
write_loop-again zero cur_pos m ms sent = refl
write_loop-again (suc k) cur_pos m ms sent = write_loop-again k cur_pos m ms sent

-- After a short write of `n` bytes the loop offers the message from its start again, and a write of
-- `k` bytes that together with `n` reaches its length ends it: the peer has the first `n` bytes and
-- then the first `k`. If `n + k` passes the length, that is not the message.
pub write_loop-short_write :
    (m : Bytes) (n k : ℕ)
    → 0 < n
    → n < length m
    → k ≤ length m
    → length m < n + k
    → (write_loop (took n ∷ took k ∷ []) 0 (m ∷ []) [] ≡ ok (drained (take n m ++ take k m)))
      × (take n m ++ take k m ≢ m)
unfolding write_loop sock_write_data
write_loop-short_write m zero k h l hk enough = elim h [ ]
write_loop-short_write m (suc n) zero h l hk enough = absurd (omega arith)
write_loop-short_write m (suc n) (suc k) h l hk enough = (
  ground arith,
  λ same. absurd (
      omega (
        arith,
        ap length same,
        length-append (take (suc n) m) (take (suc k) m),
        length-take (suc n) m,
        length-take (suc k) m,
      )),
)
