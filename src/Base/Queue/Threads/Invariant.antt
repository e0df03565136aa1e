-- ===== src/Base/Queue/Threads/Invariant.antt =====
-- What holds between any two accesses of the two threads.
use dcj_rtc.Prelude.{
  Outcome, ok, ℕ, zero, suc, ◌+◌, ◌<◌, ◌≤◌, ◌≡◌, ◌≢◌, refl, ap, ◌∙◌, [], ◌∷◌, ◌++◌, arith,
}
use dcj_rtc.Base.Queue.Chain.{Chain, extend, Chain-new}
use dcj_rtc.Base.Queue.Holds.{waiting, waiting-suc}
use dcj_rtc.Base.Queue.Threads.{
  Producer, idle, linked, counting, sweeping, freeing, Consumer, resting, reading, moving,
  uncounting, System, initial,
}

module _ {A : Type 0} where
  -- The last node of the chain: a linked node stands behind `last`.
  abbrev pub top : Producer A → ℕ → ℕ
  top (linked v) l = suc l
  top idle l = l
  top counting l = l
  top sweeping l = l
  top freeing l = l

  abbrev pub ProducerKnows : Producer A → (ℕ → A) → (f d l : ℕ) → Type 0
  ProducerKnows (linked v) val f d l = val (suc l) ≡ v
  ProducerKnows freeing val f d l = f < d
  ProducerKnows idle val f d l = Unit {0}
  ProducerKnows counting val f d l = Unit {0}
  ProducerKnows sweeping val f d l = Unit {0}

  abbrev pub ConsumerKnows : Consumer A → (ℕ → A) → (d l : ℕ) → Type 0
  ConsumerKnows reading val d l = d < l
  ConsumerKnows (moving v) val d l = (d < l) × (val (suc d) ≡ v)
  ConsumerKnows resting val d l = Unit {0}
  ConsumerKnows uncounting val d l = Unit {0}

  -- What holds between any two accesses, with the nodes numbered from the dummy node on.
  pub record Inv (s : System A) (addr : ℕ → ℕ) (val : ℕ → A) (f d l : ℕ) : Type 0 where
    pub chain : Chain s.queue.heap addr val f (top s.producer l) 0
    pub freed : f ≤ d
    pub order : d ≤ l
    pub first : s.queue.first ≡ addr f
    pub divider : s.queue.divider ≡ addr d
    pub last : s.queue.last ≡ addr l
    pub produced : s.produced ≡ waiting val 0 l
    pub consumed : s.consumed ≡ waiting val 0 d
    pub producer : ProducerKnows s.producer val f d l
    pub consumer : ConsumerKnows s.consumer val d l

  abbrev pub Good : System A → Type 0
  Good s = (addr : ℕ → ℕ) × (val : ℕ → A) × (f : ℕ) × (d : ℕ) × (l : ℕ) × Inv s addr val f d l

  module _ {s : System A} {addr : ℕ → ℕ} {val : ℕ → A} {f d l : ℕ} where
    -- Only the consumer moves on.
    pub with_consumer :
        (c : Consumer A)
        → ConsumerKnows c val d l
        → Inv s addr val f d l
        → Inv (record s { consumer = c }) addr val f d l
    with_consumer c k v = record {
      chain = v.chain;
      freed = v.freed;
      order = v.order;
      first = v.first;
      divider = v.divider;
      last = v.last;
      produced = v.produced;
      consumed = v.consumed;
      producer = v.producer;
      consumer = k;
    }

    -- Only the producer moves on, between two nodes.
    pub with_producer :
        (p : Producer A)
        → top p l ≡ top s.producer l
        → ProducerKnows p val f d l
        → Inv s addr val f d l
        → Inv (record s { producer = p }) addr val f d l
    with_producer p e k v = record {
      chain = rw e v.chain;
      freed = v.freed;
      order = v.order;
      first = v.first;
      divider = v.divider;
      last = v.last;
      produced = v.produced;
      consumed = v.consumed;
      producer = k;
      consumer = v.consumer;
    }

  -- What the producer knows, if the divider moves on.
  pub later_divider :
      (p : Producer A) (val : ℕ → A) (f d l : ℕ)
      → ProducerKnows p val f d l
      → ProducerKnows p val f (suc d) l
  later_divider idle val f d l k = k
  later_divider (linked v) val f d l k = k
  later_divider counting val f d l k = k
  later_divider sweeping val f d l k = k
  later_divider freeing val f d l k = omega arith

  pub top-above : (p : Producer A) (l : ℕ) → l ≤ top p l
  top-above idle l = omega arith
  top-above (linked v) l = omega arith
  top-above counting l = omega arith
  top-above sweeping l = omega arith
  top-above freeing l = omega arith

  pub waiting-next :
      (val : ℕ → A) (d : ℕ) → waiting val 0 (suc d) ≡ waiting val 0 d ++ (val (suc d) ∷ [])
  waiting-next val d =
      waiting-suc val 0 d ∙ ap (λ i. waiting val 0 d ++ (val (suc i) ∷ [])) (omega arith)

  pub waiting-append :
      (val : ℕ → A) (a b k : ℕ) → waiting val a (b + k) ≡ waiting val a b ++ waiting val (a + b) k
  waiting-append val a zero k = ground arith
  waiting-append val a (suc b) k =
      let e : suc b + k ≡ suc (b + k) = omega arith in
      rw e (
        ap (λ xs. val (suc a) ∷ xs)
          (waiting-append val (suc a) b k
            ∙ ap (λ n. waiting val (suc a) b ++ waiting val n k) (omega arith)))

  -- What the consumer knows, if nodes are added at the end.
  pub consumer-extend :
      (c : Consumer A) (val : ℕ → A) (d l : ℕ) (t : A)
      → d ≤ l
      → ConsumerKnows c val d l
      → ConsumerKnows c (extend val (suc l) t) d l
  consumer-extend resting val d l t o k = k
  consumer-extend reading val d l t o k = k
  consumer-extend (moving x) val d l t o (lt, e) = (lt, ground arith)
  consumer-extend uncounting val d l t o k = k

  pub consumer-last :
      (c : Consumer A) (val : ℕ → A) (d l : ℕ)
      → ConsumerKnows c val d l
      → ConsumerKnows c val d (suc l)
  consumer-last resting val d l k = k
  consumer-last reading val d l k = omega arith
  consumer-last (moving x) val d l (lt, e) = (omega arith, e)
  consumer-last uncounting val d l k = k

  pub initial-Good : (p : ℕ) (v : A) → p ≢ 0 → Good (initial p v)
  unfolding initial
  initial-Good p v ne = (
    λ _. p,
    λ _. v,
    0,
    0,
    0,
    record {
      chain = Chain-new p v ne;
      freed = omega arith;
      order = omega arith;
      first = refl;
      divider = refl;
      last = refl;
      produced = refl;
      consumed = refl;
      producer = tt;
      consumer = tt;
    },
  )

  -- The step succeeds and keeps the invariant.
  abbrev pub Goes : Outcome (System A) → Type 0
  Goes r = (s' : System A) × (r ≡ ok s') × Good s'
