-- ===== src/Examples/Queue.antt =====
-- The two threads on a queue with its dummy node at address 1.
use dcj_rtc.Prelude.{
  ℕ, suc, ◌+◌, ◌≤◌, pos, negsuc, length, ◌≡◌, refl, List, [], ◌∷◌, ◌++◌, ok, some, none, arith, ◌⊎◌,
}
use dcj_rtc.Base.Queue.{
  LockFreeQueue, new_queue, link_node, advance_last, deref, produce, consume, destroy,
}
use dcj_rtc.Base.Queue.Destroy.{destroy-frees}
use dcj_rtc.Base.Queue.Threads.Size.{size_bounds}
use dcj_rtc.Base.Queue.Holds.{Represents, new_queue-Represents}
use dcj_rtc.Base.Queue.Fifo.{produce-Represents, consume-Represents}
use dcj_rtc.Base.Queue.Threads.{
  System, producer_in, producer_step, consumer_step, Reach, start, later, produces, initial,
}
use dcj_rtc.Base.Queue.Threads.Safety.{threads_find_their_nodes, consumed_in_order}

-- After the write to `last->next` and to `last`, with the value 5 at address 2.
abbrev half_produced : (s : System ℕ) × Reach 1 0 s
unfolding producer_in link_node advance_last deref initial
half_produced = (
  _,
  later (later start (produces 5 2 (omega arith, refl) refl))
      (produces 5 3 (omega arith, refl) refl),
)

threads_find_their_nodes_example :
    ((s' : System ℕ) × (producer_step 6 3 half_produced.0 ≡ ok s'))
    × ((s' : System ℕ) × (consumer_step half_produced.0 ≡ ok s'))
unfolding half_produced
threads_find_their_nodes_example =
    threads_find_their_nodes 1 0 half_produced.0 6 3 (omega arith) half_produced.1
      (omega arith, refl)

consumed_in_order_example :
    (rest : List ℕ) × (half_produced.0.produced ≡ half_produced.0.consumed ++ rest)
consumed_in_order_example = consumed_in_order 1 0 half_produced.0 (omega arith) half_produced.1

abbrev empty_queue : LockFreeQueue ℕ
empty_queue = new_queue 1 0

produce-Represents_example :
    (q : LockFreeQueue ℕ) × (produce 0 5 2 empty_queue ≡ ok q) × Represents q 0 (5 ∷ [])
unfolding new_queue
produce-Represents_example =
    produce-Represents 0 0 5 2 empty_queue [] (new_queue-Represents 1 0 (omega arith)) (omega arith)
      refl (omega arith)

abbrev five : List ℕ
five = 5 ∷ []

one_value : (q : LockFreeQueue ℕ) × (produce 0 5 2 empty_queue ≡ ok q) × Represents q 0 five
unfolding new_queue
one_value =
    produce-Represents 0 0 5 2 empty_queue [] (new_queue-Represents 1 0 (omega arith)) (omega arith)
      refl (omega arith)

consume-Represents_example :
    let q = one_value.0 in
    ((five ≡ []) × (consume q ≡ ok (none, q)))
    ⊎ ((x : ℕ) × (ys : List ℕ) × (q' : LockFreeQueue ℕ) × (five ≡ x ∷ ys)
        × (consume q ≡ ok (some x, q'))
        × Represents q' 1 ys)
consume-Represents_example = consume-Represents 0 one_value.0 five one_value.2

-- The producer has not counted the value yet.
size_bounds_example :
    let s = half_produced.0 in
    (s.queue.size ≡ negsuc 0)
    ⊎ ((n : ℕ) × (s.queue.size ≡ pos n)
        × (n + length s.consumed ≤ suc (length s.produced))
        × (length s.produced ≤ suc (n + length s.consumed)))
unfolding half_produced
size_bounds_example = size_bounds 1 0 half_produced.0 (omega arith) half_produced.1 (omega arith)

destroy-frees_example :
    (q : LockFreeQueue ℕ) × (destroy 2 one_value.0 ≡ ok q)
    × ((p : ℕ) → q.heap p ≡ none)
    × (q.size ≡ pos 0)
destroy-frees_example = destroy-frees 0 five one_value.0 one_value.2
