-- ===== src/Base/Queue.antt =====
-- xrtc_server/src/base/lock_free_queue.h: the single-producer, single-consumer queue. Nodes live on
-- a heap, 0 is `nullptr`, and a read through a pointer to no node is a fault.
pub mod Chain
pub mod Count
pub mod Holds
pub mod Fifo
pub mod Destroy
pub mod Threads
use dcj_rtc.Prelude.{
  ℕ, zero, suc, ◌≡◌, Bool, true, false, Option, none, some, ℤ, pos, eq_ℤ, as_int32, as_uint32, ◌+◌,
  ◌-◌, ◌^◌, Outcome, ok, fault, out_of_fuel, ◌>>=◌, ◌==◌, if◌then◌else◌,
}

-- `Node`
pub record Node (A : Type 0) : Type 0 where
  pub value : A
  pub next : ℕ

abbrev pub node : {A : Type 0} → A → ℕ → Node A
node v n = record { value = v; next = n }

-- `LockFreeQueue<T>`
pub record LockFreeQueue (A : Type 0) : Type 0 where
  pub heap : ℕ → Option (Node A)
  pub first : ℕ
  pub divider : ℕ
  pub last : ℕ
  pub size : ℤ

-- `++_size` and `--_size` on a `std::atomic<int>`, which wraps around at 32 bits.
unfoldable pub increment : ℤ → ℤ
increment z = as_int32 (as_uint32 z + 1)

unfoldable pub decrement : ℤ → ℤ
decrement z = as_int32 (as_uint32 z + (2 ^ 32 - 1))

module _ {A : Type 0} where
  abbrev pub put : (ℕ → Option (Node A)) → ℕ → Option (Node A) → ℕ → Option (Node A)
  put h p c a = if a == p then c else h a

  unfoldable pub deref : LockFreeQueue A → ℕ → Outcome (Node A)
  deref q p = elim (q.heap p) [ none ↦ fault | some c ↦ ok c ]

  -- The constructor; `p` is the address of the dummy node and `v` its value `T()`.
  unfoldable pub new_queue : ℕ → A → LockFreeQueue A
  new_queue p v = record {
    heap = put (λ a. none) p (some (node v 0));
    first = p;
    divider = p;
    last = p;
    size = pos 0;
  }

  -- `last->next = new Node(t)`, the new node at the fresh address `n`.
  unfoldable pub link_node : A → ℕ → LockFreeQueue A → Outcome (LockFreeQueue A)
  link_node t n q = do
    c ← deref q q.last
    ok (record q { heap = put (put q.heap n (some (node t 0))) q.last (some (node c.value n)) })

  -- `last = last->next`
  unfoldable pub advance_last : LockFreeQueue A → Outcome (LockFreeQueue A)
  advance_last q = do c ← deref q q.last; ok (record q { last = c.next })

  -- The body of the loop that frees consumed nodes.
  unfoldable pub free_first : LockFreeQueue A → Outcome (LockFreeQueue A)
  free_first q = do
    c ← deref q q.first
    ok (record q { first = c.next; heap = put q.heap q.first none })

  -- `while (divider != first)`
  unfoldable pub reclaim : ℕ → LockFreeQueue A → Outcome (LockFreeQueue A)
  unfolding free_first
  reclaim zero q = if q.divider == q.first then ok q else out_of_fuel
  reclaim (suc k) q = elim (q.divider == q.first) [
    | true ↦ ok q
    | false ↦ free_first q >>= λ q'. reclaim k q'
  ]

  unfoldable pub produce : (fuel : ℕ) → A → ℕ → LockFreeQueue A → Outcome (LockFreeQueue A)
  produce k t n q = do
    q1 ← link_node t n q
    q2 ← advance_last q1
    reclaim k (record q2 { size = increment q2.size })

  -- `divider->next->value`
  unfoldable pub read_front : LockFreeQueue A → Outcome A
  read_front q = do d ← deref q q.divider; c ← deref q d.next; ok c.value

  -- `divider = divider->next`
  unfoldable pub advance_divider : LockFreeQueue A → Outcome (LockFreeQueue A)
  advance_divider q = do d ← deref q q.divider; ok (record q { divider = d.next })

  -- `consume`: the value, if there is one.
  unfoldable pub consume : LockFreeQueue A → Outcome (Option A × LockFreeQueue A)
  consume q = if q.divider == q.last then ok (none, q) else (do
    v ← read_front q
    q' ← advance_divider q
    ok (some v, record q' { size = decrement q'.size }))

  -- `empty`
  unfoldable pub empty : LockFreeQueue A → Bool
  empty q = eq_ℤ q.size (pos 0)

  -- The destructor's loop, on fuel.
  unfoldable pub destroy : ℕ → LockFreeQueue A → Outcome (LockFreeQueue A)
  unfolding free_first
  destroy zero q = if q.first == 0 then ok (record q { size = pos 0 }) else out_of_fuel
  destroy (suc k) q = elim (q.first == 0) [
    | true ↦ ok (record q { size = pos 0 })
    | false ↦ free_first q >>= λ q'. destroy k q'
  ]
