-- ===== src/Base/Queue/Threads/Size.antt =====
-- `_size` of xrtc_server/src/base/lock_free_queue.h, which the threads change after the pointers.
use dcj_rtc.Prelude.{
  ℕ, zero, suc, ◌+◌, ◌-◌, ◌^◌, ◌<◌, ◌≤◌, ◌≡◌, ◌≢◌, refl, ap, ◌∙◌, ℤ, pos, negsuc, [], ◌∷◌, ◌++◌, ok,
  ◌⊎◌, inl, inr, length, length-append, arith,
}
use dcj_rtc.Base.Queue.{
  increment, decrement, new_queue, deref, link_node, advance_last, free_first, read_front,
  advance_divider,
}
use dcj_rtc.Base.Queue.Count.{wrap, next, previous, increment-wrap, decrement-wrap, wrap_small}
use dcj_rtc.Base.Queue.Threads.{
  Producer, idle, linked, counting, sweeping, freeing, Consumer, resting, reading, moving,
  uncounting, System, producer_in, consumer_in, produces, consumes, initial, Reach, start, later,
}
use dcj_rtc.Base.Queue.Threads.Safety.{consumed_in_order}

-- `a - b`
abbrev diff : ℕ → ℕ → ℤ
diff a zero = pos a
diff zero (suc b) = negsuc b
diff (suc a) (suc b) = diff a b

next-diff : (a b : ℕ) → next (diff a (suc b)) ≡ diff a b
next-diff zero zero = refl
next-diff zero (suc b) = refl
next-diff (suc a) zero = refl
next-diff (suc a) (suc b) = next-diff a b

previous-diff : (a b : ℕ) → previous (diff (suc a) b) ≡ diff a b
previous-diff a zero = refl
previous-diff zero (suc zero) = refl
previous-diff zero (suc (suc b)) = refl
previous-diff (suc a) (suc b) = previous-diff a b

diff_lem :
    (a b : ℕ) → b ≤ suc a → (diff a b ≡ negsuc 0) ⊎ ((n : ℕ) × (diff a b ≡ pos n) × (n + b ≡ a))
diff_lem a zero h = inr (a, refl, omega arith)
diff_lem zero (suc zero) h = inl refl
diff_lem zero (suc (suc b)) h = absurd (omega arith)
diff_lem (suc a) (suc b) h = elim (diff_lem a b (omega arith)) [
  | inl e ↦ inl e
  | inr (n, e, f) ↦ inr (n, e, omega (arith, f))
]

-- The laws for numbers known by equations.
diff-suc : (a b a' b' : ℕ) → a' ≡ suc a → b' ≡ suc b → wrap (diff a' b') ≡ wrap (diff a b)
diff-suc a b a' b' e e' = rw (e, e') refl

increment_lem : (a b b' : ℕ) → b' ≡ suc b → increment (wrap (diff a b')) ≡ wrap (diff a b)
increment_lem a b b' e = rw (increment-wrap (diff a b'), e, next-diff a b) refl

decrement_lem : (a b a' : ℕ) → a' ≡ suc a → decrement (wrap (diff a' b)) ≡ wrap (diff a b)
decrement_lem a b a' e = rw (decrement-wrap (diff a' b), e, previous-diff a b) refl

-- A thread that has moved its pointer and has not counted yet.
abbrev owed : {A : Type 0} → Producer A → ℕ
owed counting = 1
owed idle = 0
owed (linked v) = 0
owed sweeping = 0
owed freeing = 0

abbrev due : {A : Type 0} → Consumer A → ℕ
due uncounting = 1
due resting = 0
due reading = 0
due (moving v) = 0

owed_le : {A : Type 0} (w : Producer A) → owed w ≤ 1
owed_le idle = omega arith
owed_le (linked v) = omega arith
owed_le counting = omega arith
owed_le sweeping = omega arith
owed_le freeing = omega arith

due_le : {A : Type 0} (w : Consumer A) → due w ≤ 1
due_le resting = omega arith
due_le reading = omega arith
due_le (moving v) = omega arith
due_le uncounting = omega arith

module _ {A : Type 0} where
  -- `_size` is what the pointers say, up to the counts that are owed.
  abbrev Counts : System A → Type 0
  Counts s =
      s.queue.size
      ≡ wrap (diff (length s.produced + due s.consumer) (length s.consumed + owed s.producer))

  producer-Counts :
      (w : Producer A) (t : A) (n : ℕ) (s s' : System A)
      → s.producer ≡ w
      → producer_in w t n s ≡ ok s'
      → Counts s
      → Counts s'
  unfolding producer_in link_node advance_last free_first deref
  producer-Counts idle t n s s' e r c = ground (arith, e, r, c)
  producer-Counts (linked v) t n s s' e r c =
      let same =
        diff-suc (length s.produced + due s.consumer) (length s.consumed + 0)
          (length (s.produced ++ (v ∷ [])) + due s.consumer) (length s.consumed + 1)
          (omega (arith, length-append s.produced (v ∷ []))) (omega arith) in
      ground (arith, e, r, c, same)
  producer-Counts counting t n s s' e r c =
      let up =
        increment_lem (length s.produced + due s.consumer) (length s.consumed + 0)
          (length s.consumed + 1) (omega arith) in
      ground (arith, e, r, c, up)
  producer-Counts sweeping t n s s' e r c = ground (arith, e, r, c)
  producer-Counts freeing t n s s' e r c = ground (arith, e, r, c)

  consumer-Counts :
      (w : Consumer A) (s s' : System A)
      → s.consumer ≡ w
      → consumer_in w s ≡ ok s'
      → Counts s
      → Counts s'
  unfolding consumer_in read_front advance_divider deref
  consumer-Counts resting s s' e r c = ground (arith, e, r, c)
  consumer-Counts reading s s' e r c = ground (arith, e, r, c)
  consumer-Counts (moving v) s s' e r c =
      let same =
        diff-suc (length s.produced + 0) (length s.consumed + owed s.producer)
          (length s.produced + 1) (length (s.consumed ++ (v ∷ [])) + owed s.producer) (omega arith)
          (omega (arith, length-append s.consumed (v ∷ []))) in
      ground (arith, e, r, c, same)
  consumer-Counts uncounting s s' e r c =
      let down =
        decrement_lem (length s.produced + 0) (length s.consumed + owed s.producer)
          (length s.produced + 1) (omega arith) in
      ground (arith, e, r, c, down)

  reach-Counts : {p : ℕ} {v : A} {s : System A} → Reach p v s → Counts s
  unfolding initial new_queue
  reach-Counts start = refl
  reach-Counts (later {s = s} {s' = s'} r (produces t n fr e)) =
      producer-Counts s.producer t n s s' refl e (reach-Counts r)
  reach-Counts (later {s = s} {s' = s'} r (consumes e)) =
      consumer-Counts s.consumer s s' refl e (reach-Counts r)

  -- In every interleaving, as long as fewer than 2^31 - 1 values wait, `_size` is -1, or a number
  -- that differs by at most one from the number of values that were produced and not consumed.
  pub size_bounds :
      (p : ℕ) (v : A) (s : System A)
      → p ≢ 0
      → Reach p v s
      → length s.produced < 2 ^ 31 - 1 + length s.consumed
      → (s.queue.size ≡ negsuc 0)
        ⊎ ((n : ℕ) × (s.queue.size ≡ pos n)
            × (n + length s.consumed ≤ suc (length s.produced))
            × (length s.produced ≤ suc (n + length s.consumed)))
  size_bounds p v s ne r few =
      let (rest, e) = consumed_in_order p v s ne r in
      let le : length s.consumed ≤ length s.produced =
        omega (arith, ap length e, length-append s.consumed rest) in
      let o = owed_le s.producer in
      let d = due_le s.consumer in
      elim (diff_lem (length s.produced + due s.consumer) (length s.consumed + owed s.producer)
        (omega (arith, le, o, d))) [
          | inl minus ↦ inl (reach-Counts r ∙ ap wrap minus)
          | inr (n, f, g) ↦ inr (
            n,
            reach-Counts r ∙ (ap wrap f ∙ wrap_small n (omega (arith, g, o, d, le))),
            omega (arith, g, o, d, le),
            omega (arith, g, o, d, le),
          )
        ]
