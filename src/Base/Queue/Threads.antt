-- ===== src/Base/Queue/Threads.antt =====
-- The producing and the consuming thread, interleaved at each access to the shared queue. Accesses
-- take effect in the order of the steps, as they do under sequential consistency.
pub mod Invariant
pub mod ConsumerSteps
pub mod ProducerSteps
pub mod Safety
pub mod Size
use dcj_rtc.Prelude.{
  ℕ, ◌≡◌, ◌≢◌, Bool, true, false, none, List, [], ◌∷◌, ◌++◌, Outcome, ok, ◌>>=◌, ◌==◌,
  if◌then◌else◌,
}
use dcj_rtc.Base.Queue.{
  LockFreeQueue, new_queue, link_node, advance_last, free_first, read_front, advance_divider,
  increment, decrement,
}

-- Where the producer stands in `produce`: before the call; after the write to `last->next`; after
-- the write to `last`; at the test of the loop; in the loop's body.
pub data Producer (A : Type 0) : Type 0 where
  idle : Producer A
  linked : A → Producer A
  counting sweeping freeing : Producer A

-- Where the consumer stands in `consume`: before the call; after the test; with the value read;
-- after the write to `divider`.
pub data Consumer (A : Type 0) : Type 0 where
  resting : Consumer A
  reading : Consumer A
  moving : A → Consumer A
  uncounting : Consumer A

-- `produced` and `consumed` are the values so far, oldest first; the program does not have them.
pub record System (A : Type 0) : Type 0 where
  pub queue : LockFreeQueue A
  pub producer : Producer A
  pub consumer : Consumer A
  pub produced : List A
  pub consumed : List A

module _ {A : Type 0} where
  -- One access of the producer. A new call puts `t` into the node `n`.
  unfoldable pub producer_in : Producer A → A → ℕ → System A → Outcome (System A)
  producer_in idle t n s =
      link_node t n s.queue >>= λ q. ok (record s { queue = q; producer = linked t })
  producer_in (linked v) t n s = advance_last s.queue >>= λ q.
      ok (record s { queue = q; producer = counting; produced = s.produced ++ (v ∷ []) })
  producer_in counting t n s =
      ok (record s {
        queue = record (s.queue) { size = increment s.queue.size };
        producer = sweeping;
      })
  producer_in sweeping t n s =
      if s.queue.divider == s.queue.first
      then ok (record s { producer = idle })
      else ok (record s { producer = freeing })
  producer_in freeing t n s =
      free_first s.queue >>= λ q. ok (record s { queue = q; producer = sweeping })

  -- One access of the consumer.
  unfoldable pub consumer_in : Consumer A → System A → Outcome (System A)
  consumer_in resting s =
      if s.queue.divider == s.queue.last then ok s else ok (record s { consumer = reading })
  consumer_in reading s = read_front s.queue >>= λ v. ok (record s { consumer = moving v })
  consumer_in (moving v) s = advance_divider s.queue >>= λ q.
      ok (record s { queue = q; consumer = uncounting; consumed = s.consumed ++ (v ∷ []) })
  consumer_in uncounting s =
      ok (record s {
        queue = record (s.queue) { size = decrement s.queue.size };
        consumer = resting;
      })

  abbrev pub producer_step : A → ℕ → System A → Outcome (System A)
  producer_step t n s = producer_in s.producer t n s

  abbrev pub consumer_step : System A → Outcome (System A)
  consumer_step s = consumer_in s.consumer s

  -- `new` returns memory that is not in use.
  abbrev pub IsFresh : ℕ → System A → Type 0
  IsFresh n s = (n ≢ 0) × (s.queue.heap n ≡ none)

  pub data Step (s : System A) : System A → Type 0 where
    produces :
        (t : A) (n : ℕ) {s' : System A} → IsFresh n s → producer_step t n s ≡ ok s' → Step s s'
    consumes : {s' : System A} → consumer_step s ≡ ok s' → Step s s'

  -- Before the first call, with the dummy node `v` at `p`.
  unfoldable pub initial : ℕ → A → System A
  unfolding new_queue
  initial p v = record {
    queue = new_queue p v;
    producer = idle;
    consumer = resting;
    produced = [];
    consumed = [];
  }

  pub data Reach (p : ℕ) (v : A) : System A → Type 0 where
    start : Reach p v (initial p v)
    later : {s s' : System A} → Reach p v s → Step s s' → Reach p v s'
