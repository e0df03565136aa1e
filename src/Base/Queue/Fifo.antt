-- ===== src/Base/Queue/Fifo.antt =====
-- One thread at a time: the queue is a list, oldest first.
use dcj_rtc.Prelude.{
  ℕ, zero, suc, ◌+◌, ◌<◌, ◌≤◌, ◌≡◌, ◌≢◌, refl, sym, ap, ◌∙◌, true, none, some, List, [], ◌∷◌, ◌++◌,
  as_int32, ok, ◌==◌, arith, Bool-cases, inl, inr, ◌⊎◌,
}
use dcj_rtc.Base.Queue.{
  node, LockFreeQueue, put, deref, link_node, advance_last, free_first, reclaim, produce,
  read_front, advance_divider, consume, increment,
}
use dcj_rtc.Base.Queue.Count.{increment-as_int32, decrement-as_int32}
use dcj_rtc.Base.Queue.Holds.{waiting, waiting-extend, waiting-suc, Holds, Represents}
use dcj_rtc.Base.Queue.Chain.{extend, Chain-free, Chain-link, Chain-at}

module _ {A : Type 0} where
  module _ (q : LockFreeQueue A) (addr : ℕ → ℕ) (val : ℕ → A) (f d k : ℕ)
      (v : Holds q addr val f d k) where
    -- The test `divider != first` compares the two numbers.
    at_divider : (q.divider == q.first) ≡ true → f ≡ d
    at_divider e = ground (arith, v.chain.apart d f)

    after_divider : f ≡ d → (q.divider == q.first) ≡ true
    after_divider e = ground arith

    freed : LockFreeQueue A
    freed = record q { first = addr (suc f); heap = put q.heap (addr f) none }

    free_first-Holds : f < d → (free_first q ≡ ok freed) × Holds freed addr val (suc f) d k
    unfolding freed free_first deref
    free_first-Holds lt = (
      ground (arith, v.chain.links f),
      record {
        chain = Chain-free (omega arith) v.chain;
        order = lt;
        first = refl;
        divider = v.divider;
        last = v.last;
        size = v.size;
      },
    )

    -- The queue after the write to `last->next`, and after the write to `last` with the count.
    half_linked : A → ℕ → LockFreeQueue A
    half_linked t n = record q {
      heap = put (put q.heap n (some (node t 0))) (addr (d + k)) (some (node (val (d + k)) n));
    }

    linked : A → ℕ → LockFreeQueue A
    unfolding half_linked
    linked t n = record (half_linked t n) { last = n; size = increment q.size }

    link_node-half_linked : (t : A) (n : ℕ) → link_node t n q ≡ ok (half_linked t n)
    unfolding half_linked link_node deref
    link_node-half_linked t n = ground (arith, v.chain.tail)

    advance_last-half_linked :
        (t : A) (n : ℕ)
        → advance_last (half_linked t n) ≡ ok (record (half_linked t n) { last = n })
    unfolding half_linked advance_last deref
    advance_last-half_linked t n = ground arith

    link-Holds :
        (t : A) (n : ℕ)
        → n ≢ 0
        → q.heap n ≡ none
        → Holds (linked t n) (extend addr (suc (d + k)) n) (extend val (suc (d + k)) t) f d (suc k)
    unfolding linked
    link-Holds t n ne fresh = record {
      chain =
          let e : d + suc k ≡ suc (d + k) = omega arith in
          rw e (Chain-link n t (omega (arith, v.order)) ne fresh v.chain);
      order = v.order;
      first = ground (arith, v.order);
      divider = ground (arith, v.order);
      last = ground arith;
      size = ground (arith, v.size, increment-as_int32 k);
    }

  -- The loop that frees stops at the divider, and touches no node that waits.
  reclaim-Holds :
      (fuel : ℕ) (q : LockFreeQueue A) (addr : ℕ → ℕ) (val : ℕ → A) (f d k : ℕ)
      → Holds q addr val f d k
      → d ≤ f + fuel
      → (q' : LockFreeQueue A) × (reclaim fuel q ≡ ok q') × Holds q' addr val d d k
  unfolding reclaim
  reclaim-Holds zero q addr val f d k v h =
      let e : f ≡ d = omega (arith, v.order) in
      (q, rw (after_divider q addr val f d k v e) refl, rw e at v)
  reclaim-Holds (suc fuel) q addr val f d k v h = elim (Bool-cases (q.divider == q.first)) [
    | inl hit ↦ (q, rw (hit, reclaim) refl, rw (at_divider q addr val f d k v hit) at v)
    | inr miss ↦
        let lt : f < d = ground (arith, after_divider q addr val f d k v, v.order) in
        let (e, v') = free_first-Holds q addr val f d k v lt in
        let (q', e', v'') = reclaim-Holds fuel _ addr val (suc f) d k v' (omega arith) in
        (q', rw (miss, reclaim, e) e', v'')
  ]

  -- `produce` succeeds with a fresh node and as many rounds as nodes are consumed, adds the value at
  -- the end, and frees every consumed node.
  pub produce-Represents :
      (fuel g : ℕ) (t : A) (n : ℕ) (q : LockFreeQueue A) (xs : List A)
      → Represents q g xs
      → n ≢ 0
      → q.heap n ≡ none
      → g ≤ fuel
      → (q' : LockFreeQueue A) × (produce fuel t n q ≡ ok q') × Represents q' 0 (xs ++ (t ∷ []))
  unfolding produce
  produce-Represents fuel g t n q xs (addr, val, f, d, k, v, dg, e) ne fresh enough =
      let v' = link-Holds q addr val f d k v t n ne fresh in
      let (q', r, v'') = reclaim-Holds fuel _ _ _ f d (suc k) v' (omega arith) in
      (
        q',
        rw
            (
              link_node-half_linked q addr val f d k v t n,
              advance_last-half_linked q addr val f d k v t n,
            )
            (unfold linked half_linked in r),
        (
          _,
          _,
          d,
          d,
          suc k,
          v'',
          omega arith,
          rw e (
              sym (
                waiting-suc (extend val (suc (d + k)) t) d k
                ∙ ground (arith, waiting-extend val d k (d + k) t (omega arith)))),
        ),
      )

  -- `consume` takes the oldest value, or reports that there is none.
  pub consume-Represents :
      (g : ℕ) (q : LockFreeQueue A) (xs : List A)
      → Represents q g xs
      → ((xs ≡ []) × (consume q ≡ ok (none, q)))
        ⊎ ((x : A) × (ys : List A) × (q' : LockFreeQueue A) × (xs ≡ x ∷ ys)
            × (consume q ≡ ok (some x, q'))
            × Represents q' (suc g) ys)
  unfolding consume read_front advance_divider deref
  consume-Represents g q xs (addr, val, f, d, zero, v, dg, e) = inl (e, ground arith)
  consume-Represents g q xs (addr, val, f, d, suc k, v, dg, e) = inr (
    val (suc d),
    waiting val (suc d) k,
    record q { divider = addr (suc d); size = as_int32 k },
    e,
    ground (
      arith,
      v.chain.links d,
      Chain-at (suc d) (omega (arith, v.order)) (omega arith) v.chain,
      v.chain.apart d (d + suc k),
      v.order,
      v.size,
      decrement-as_int32 k,
    ),
    (
      addr,
      val,
      f,
      suc d,
      k,
      record {
        chain = let e' : suc d + k ≡ d + suc k = omega arith in rw e' v.chain;
        order = omega (arith, v.order);
        first = v.first;
        divider = refl;
        last = v.last ∙ ap addr (omega arith);
        size = refl;
      },
      omega arith,
      refl,
    ),
  )
