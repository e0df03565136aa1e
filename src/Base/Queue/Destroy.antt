-- ===== src/Base/Queue/Destroy.antt =====
-- The destructor of xrtc_server/src/base/lock_free_queue.h.
use dcj_rtc.Prelude.{
  ℕ, zero, suc, ◌+◌, ◌≡◌, ◌≢◌, refl, ap, sym, ◌∙◌, none, some, List, pos, ok, ◌==◌, length, arith,
  Bool-cases, inl, inr,
}
use dcj_rtc.Base.Queue.{node, LockFreeQueue, put, deref, free_first, destroy}
use dcj_rtc.Base.Queue.Chain.{Chain, Chain-free}
use dcj_rtc.Base.Queue.Holds.{Represents, length-waiting}

module _ {A : Type 0} where
  -- The chain's nodes, one after the other, the last of them with `next` null.
  destroy_from :
      (k f : ℕ) (addr : ℕ → ℕ) (val : ℕ → A) (q : LockFreeQueue A)
      → Chain q.heap addr val f (f + k) 0
      → q.first ≡ addr f
      → (q' : LockFreeQueue A) × (destroy (suc k) q ≡ ok q')
        × ((p : ℕ) → q'.heap p ≡ none)
        × (q'.size ≡ pos 0)
  unfolding destroy free_first deref
  destroy_from zero f addr val q c e =
      let ne : q.first ≢ 0 = ground (arith, e, c.not_null f) in
      let t : q.heap q.first ≡ some (node (val f) 0) =
        rw e (let z : f + 0 ≡ f = omega arith in rw z at c.tail) in
      (
        record q { first = 0; heap = put q.heap q.first none; size = pos 0 },
        ground (arith, ne, t),
        λ p. elim (Bool-cases (p == q.first)) [
          | inl hit ↦ rw hit refl
          | inr miss ↦ elim (c.owned p) [
            | inl none_there ↦ rw miss none_there
            | inr (i, a, b, at) ↦
                let same : i ≡ f = omega arith in absurd (ground (arith, miss, e, ap addr same, at))
          ]
        ],
        refl,
      )
  destroy_from (suc k) f addr val q c e =
      let ne : q.first ≢ 0 = ground (arith, e, c.not_null f) in
      let t : q.heap q.first ≡ some (node (val f) (addr (suc f))) =
        rw e (c.links f (omega arith) (omega arith)) in
      let c' : Chain (put q.heap q.first none) addr val (suc f) (suc f + k) 0 =
        let m : f + suc k ≡ suc f + k = omega arith in
        rw e (Chain-free (omega arith) (rw m at c)) in
      let (q', r, gone, size) =
        destroy_from k (suc f) addr val
          (record q { first = addr (suc f); heap = put q.heap q.first none }) c' refl in
      (q', ground (arith, ne, t, r), gone, size)

  -- Once the threads are done, the destructor frees every node of the queue, the dummy one and those
  -- that were consumed included, each once, and ends.
  pub destroy-frees :
      (g : ℕ) (xs : List A) (q : LockFreeQueue A)
      → Represents q g xs
      → (q' : LockFreeQueue A) × (destroy (suc (g + length xs)) q ≡ ok q')
        × ((p : ℕ) → q'.heap p ≡ none)
        × (q'.size ≡ pos 0)
  destroy-frees g xs q (addr, val, f, d, k, h, e, e') =
      let n : k ≡ length xs = sym (ap length e' ∙ length-waiting val d k) in
      rw (← n) (
        destroy_from (g + k) f addr val q
          (let m : d + k ≡ f + (g + k) = omega (arith, e) in rw m at h.chain) h.first)
