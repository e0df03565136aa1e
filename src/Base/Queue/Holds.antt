-- ===== src/Base/Queue/Holds.antt =====
-- What it means that a queue of xrtc_server/src/base/lock_free_queue.h holds a list.
use dcj_rtc.Prelude.{
  as_int32, ℕ, zero, suc, ◌+◌, ◌≤◌, ◌≡◌, ◌≢◌, refl, ap, ◌∙◌, List, [], ◌∷◌, ◌++◌, arith, length,
}
use dcj_rtc.Base.Queue.{LockFreeQueue, new_queue}
use dcj_rtc.Base.Queue.Chain.{Chain, extend, Chain-new}

-- The values of the `k` nodes behind node `d`.
abbrev pub waiting : {A : Type 0} → (ℕ → A) → ℕ → ℕ → List A
waiting val d zero = []
waiting val d (suc k) = val (suc d) ∷ waiting val (suc d) k

module _ {A : Type 0} where
  pub waiting-extend :
      (val : ℕ → A) (d k l : ℕ) (t : A)
      → d + k ≤ l
      → waiting (extend val (suc l) t) d k ≡ waiting val d k
  waiting-extend val d zero l t h = refl
  waiting-extend val d (suc k) l t h =
      ground (arith, waiting-extend val (suc d) k l t (omega arith))

  pub waiting-suc :
      (val : ℕ → A) (d k : ℕ) → waiting val d (suc k) ≡ waiting val d k ++ (val (suc (d + k)) ∷ [])
  waiting-suc val d zero = ap (λ i. val (suc i) ∷ []) (omega arith)
  waiting-suc val d (suc k) =
      ap (λ xs. val (suc d) ∷ xs)
        (waiting-suc val (suc d) k ∙ ap (λ i. waiting val (suc d) k ++ (val i ∷ [])) (omega arith))

  pub length-waiting : (val : ℕ → A) (d k : ℕ) → length (waiting val d k) ≡ k
  length-waiting val d zero = refl
  length-waiting val d (suc k) = ap suc (length-waiting val (suc d) k)

  -- The pointers of `q` on a chain: nodes `f` to `d` are consumed, and `k` nodes wait, which the
  -- count has in its 32 bits.
  pub record Holds (q : LockFreeQueue A) (addr : ℕ → ℕ) (val : ℕ → A) (f d k : ℕ) : Type 0 where
    pub chain : Chain q.heap addr val f (d + k) 0
    pub order : f ≤ d
    pub first : q.first ≡ addr f
    pub divider : q.divider ≡ addr d
    pub last : q.last ≡ addr (d + k)
    pub size : q.size ≡ as_int32 k

  -- The queue stands for the list `xs`, and keeps `g` consumed nodes that `produce` will free.
  abbrev pub Represents : LockFreeQueue A → ℕ → List A → Type 0
  Represents q g xs =
      (addr : ℕ → ℕ) × (val : ℕ → A) × (f : ℕ) × (d : ℕ) × (k : ℕ) × Holds q addr val f d k
      × (d ≡ f + g)
      × (xs ≡ waiting val d k)

  -- The constructor makes an empty queue.
  pub new_queue-Represents : (p : ℕ) (v : A) → p ≢ 0 → Represents (new_queue p v) 0 []
  unfolding new_queue
  new_queue-Represents p v ne = (
    λ _. p,
    λ _. v,
    0,
    0,
    0,
    record {
      chain = Chain-new p v ne;
      order = omega arith;
      first = refl;
      divider = refl;
      last = refl;
      size = refl;
    },
    omega arith,
    refl,
  )
