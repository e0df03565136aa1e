-- ===== src/Base/Queue/Chain.antt =====
-- The chain of nodes: those from `first` to `divider` are consumed, those behind it wait. Nodes are
-- numbered in the order of production; `addr` and `val` give their addresses and values.
use dcj_rtc.Prelude.{
  ℕ, suc, ◌<◌, ◌≤◌, ◌≡◌, ◌≢◌, refl, Option, none, some, ◌==◌, if◌then◌else◌, arith, Bool-cases, inl,
  inr, ◌⊎◌, ==_iff,
}
use dcj_rtc.Base.Queue.{Node, node, put}

-- Nodes `f` to `l` on the heap, linked in order; the last one leads to `end`.
pub record Chain {A : Type 0} (h : ℕ → Option (Node A)) (addr : ℕ → ℕ) (val : ℕ → A) (f l end : ℕ)
    : Type 0 where
  pub links : (i : ℕ) → f ≤ i → i < l → h (addr i) ≡ some (node (val i) (addr (suc i)))
  pub tail : h (addr l) ≡ some (node (val l) end)
  pub apart : (i j : ℕ) → f ≤ i → i ≤ l → f ≤ j → j ≤ l → addr i ≡ addr j → i ≡ j
  pub not_null : (i : ℕ) → f ≤ i → i ≤ l → addr i ≢ 0
  pub owned : (p : ℕ) → (h p ≡ none) ⊎ ((i : ℕ) × (f ≤ i) × (i ≤ l) × (addr i ≡ p))

abbrev pub extend {ℓ} : {B : Type ℓ} → (ℕ → B) → ℕ → B → ℕ → B
extend g i b j = if j == i then b else g j

module _ {A : Type 0} {h : ℕ → Option (Node A)} {addr : ℕ → ℕ} {val : ℕ → A} {f l : ℕ} where
  -- The first node is taken off the chain and freed.
  pub Chain-free :
      {end : ℕ}
      → f < l
      → Chain h addr val f l end
      → Chain (put h (addr f) none) addr val (suc f) l end
  Chain-free lt c = record {
    links = λ i a b. grind (arith, c.links i (omega arith) b, c.apart i f);
    tail = grind (arith, c.tail, c.apart l f);
    apart = λ i j a b a' b'. c.apart i j (omega arith) b (omega arith) b';
    not_null = λ i a b. c.not_null i (omega arith) b;
    owned = λ p. elim (Bool-cases (p == addr f)) [
      | inl hit ↦ inl (rw hit refl)
      | inr miss ↦ elim (c.owned p) [
        | inl e ↦ inl (rw miss e)
        | inr (i, a, b, e) ↦ inr (i, ground arith, b, e)
      ]
    ];
  }

  -- A new node behind the last one.
  pub Chain-link :
      (n : ℕ) (t : A)
      → f ≤ l
      → n ≢ 0
      → h n ≡ none
      → Chain h addr val f l 0
      → Chain
          (put (put h n (some (node t 0))) (addr l) (some (node (val l) n)))
          (extend addr (suc l) n)
          (extend val (suc l) t)
          f
          (suc l)
          0
  Chain-link n t fl ne fresh c = record {
    links = λ i a b. elim (Bool-cases (i == l)) [
      | inl hit ↦ let e : i ≡ l = (==_iff i l).0 hit in rw e (ground arith)
      | inr miss ↦ ground (arith, c.links i a, c.apart i l a, used i a)
    ];
    tail = ground (arith, used l fl);
    apart = λ i j a b a' b' e. ground (arith, c.apart i j a, used i a, used j a');
    not_null = λ i a b. ground (arith, c.not_null i a);
    owned = λ p. elim (Bool-cases (p == n)) [
      | inl hit ↦ inr (suc l, omega arith, omega arith, ground arith)
      | inr miss ↦ elim (c.owned p) [
        | inl e ↦ inl (ground (arith, used l fl, c.tail))
        | inr (i, a, b, e) ↦ inr (i, a, omega arith, ground arith)
      ]
    ];
  }
    where
      used : (i : ℕ) → f ≤ i → i ≤ l → addr i ≢ n
      used i a b e = ground (arith, c.links i a, c.tail)

  -- What the chain holds at each of its numbers.
  pub Chain-at :
      {end : ℕ} (i : ℕ)
      → f ≤ i
      → i ≤ l
      → Chain h addr val f l end
      → (e : ℕ) × (h (addr i) ≡ some (node (val i) e))
  Chain-at i a b c = elim (Bool-cases (i == l)) [
    | inl hit ↦ let e : i ≡ l = (==_iff i l).0 hit in rw e (_, c.tail)
    | inr miss ↦ (_, c.links i a (ground arith))
  ]

-- The dummy node alone.
pub Chain-new :
    {A : Type 0} (p : ℕ) (v : A)
    → p ≢ 0
    → Chain (put (λ a. none) p (some (node v 0))) (λ _. p) (λ _. v) 0 0 0
Chain-new p v ne = record {
  links = λ i a b. absurd (omega arith);
  tail = ground arith;
  apart = λ i j a b a' b' e. omega arith;
  not_null = λ i a b. ne;
  owned = λ a. elim (Bool-cases (a == p)) [
    | inl hit ↦ inr (0, omega arith, omega arith, ground arith)
    | inr miss ↦ inl (rw miss refl)
  ];
}
