-- ===== src/Base/Queue/Threads/Safety.antt =====
-- Neither thread reads freed memory, and the values come out in the order in which they went in.
use dcj_rtc.Base.Queue.Threads.Invariant.{Goes}
use dcj_rtc.Prelude.{ℕ, ◌-◌, ◌≡◌, ◌≢◌, refl, ap, subst, ◌∙◌, List, ◌++◌, Outcome, ok, arith}
use dcj_rtc.Base.Queue.Holds.{waiting}
use dcj_rtc.Base.Queue.Threads.{
  System, producer_step, consumer_step, IsFresh, produces, consumes, Reach, start, later,
}
use dcj_rtc.Base.Queue.Threads.Invariant.{Good, initial-Good, waiting-append}
use dcj_rtc.Base.Queue.Threads.ConsumerSteps.{consumer-Goes}
use dcj_rtc.Base.Queue.Threads.ProducerSteps.{producer-Goes}

module _ {A : Type 0} where
  Goes-Good : {r : Outcome (System A)} {s' : System A} → Goes r → r ≡ ok s' → Good s'
  Goes-Good (s', e, g) e' = subst Good (ground (arith, e, e')) g

  reach-Good : {p : ℕ} {v : A} {s : System A} → p ≢ 0 → Reach p v s → Good s
  reach-Good ne start = initial-Good _ _ ne
  reach-Good ne (later r (produces t n fr e)) =
      Goes-Good (producer-Goes _ t n _ refl fr (reach-Good ne r)) e
  reach-Good ne (later r (consumes e)) = Goes-Good (consumer-Goes _ _ refl (reach-Good ne r)) e

  -- In every interleaving of the accesses of `produce` and `consume` from a new queue on, the next
  -- access of either thread succeeds: it reads no freed node and no null pointer. The address `n`
  -- of a new node has to be one that is not null and not in use.
  pub threads_find_their_nodes :
      (p : ℕ) (v : A) (s : System A) (t : A) (n : ℕ)
      → p ≢ 0
      → Reach p v s
      → IsFresh n s
      → ((s' : System A) × (producer_step t n s ≡ ok s'))
        × ((s' : System A) × (consumer_step s ≡ ok s'))
  threads_find_their_nodes p v s t n ne r fr =
      let g = reach-Good ne r in
      (
        let (s', e, _) = producer-Goes _ t n s refl fr g in (s', e),
        let (s', e, _) = consumer-Goes _ s refl g in (s', e),
      )

  -- In every interleaving, what `consume` has returned is the beginning of what `produce` has put
  -- in: the values come out in order, none twice and none left out.
  pub consumed_in_order :
      (p : ℕ) (v : A) (s : System A)
      → p ≢ 0
      → Reach p v s
      → (rest : List A) × (s.produced ≡ s.consumed ++ rest)
  consumed_in_order p v s ne r =
      let (addr, val, f, d, l, k) = reach-Good ne r in
      (
        waiting val d (l - d),
        rw (k.produced, k.consumed)
            (ap (λ n. waiting val 0 n) (omega (arith, k.order))
              ∙ waiting-append val 0 d (l - d)
              ∙ ap (λ n. waiting val 0 d ++ waiting val n (l - d)) (omega arith)),
      )
