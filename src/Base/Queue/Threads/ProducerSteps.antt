-- ===== src/Base/Queue/Threads/ProducerSteps.antt =====
-- Each access of the producer finds the nodes that it reads, and keeps the invariant.
use dcj_rtc.Base.Queue.Threads.Invariant.{Goes}
use dcj_rtc.Prelude.{
  ℕ, suc, ◌<◌, ◌≤◌, ◌≡◌, refl, sym, ◌∙◌, none, some, [], ◌∷◌, ◌++◌, ◌==◌, arith, Bool-cases, inl,
  inr,
}
use dcj_rtc.Base.Queue.{node, put, deref, link_node, advance_last, free_first}
use dcj_rtc.Base.Queue.Chain.{Chain, extend, Chain-free, Chain-link}
use dcj_rtc.Base.Queue.Holds.{waiting-extend}
use dcj_rtc.Base.Queue.Threads.{
  Producer, idle, linked, counting, sweeping, freeing, System, producer_in, IsFresh,
}
use dcj_rtc.Base.Queue.Threads.Invariant.{
  Good, with_producer, waiting-next, consumer-extend, consumer-last,
}

module _ {A : Type 0} where
  idle-Goes :
      (t : A) (n : ℕ) (s : System A)
      → s.producer ≡ idle
      → IsFresh n s
      → Good s
      → Goes (producer_in idle t n s)
  unfolding producer_in link_node advance_last free_first deref
  idle-Goes t n s e (ne, fresh) (addr, val, f, d, l, v) =
      let chain : Chain s.queue.heap addr val f l 0 = rw e at v.chain in
      let fl : f ≤ l = omega (arith, v.freed, v.order) in
      (
        record s {
          queue = record (s.queue) {
            heap = put (put s.queue.heap n (some (node t 0))) (addr l) (some (node (val l) n));
          };
          producer = linked t;
        },
        rw (v.last, chain.tail) refl,
        (
          extend addr (suc l) n,
          extend val (suc l) t,
          f,
          d,
          l,
          record {
            chain = Chain-link n t fl ne fresh chain;
            freed = v.freed;
            order = v.order;
            first = ground (arith, v.first);
            divider = ground (arith, v.divider, v.order);
            last = ground (arith, v.last);
            produced = v.produced ∙ sym (waiting-extend val 0 l l t (omega arith));
            consumed = v.consumed ∙ sym (waiting-extend val 0 d l t (omega (arith, v.order)));
            producer = ground arith;
            consumer = consumer-extend s.consumer val d l t v.order v.consumer;
          },
        ),
      )

  linked-Goes :
      (x : A) (t : A) (n : ℕ) (s : System A)
      → s.producer ≡ linked x
      → IsFresh n s
      → Good s
      → Goes (producer_in (linked x) t n s)
  unfolding producer_in link_node advance_last free_first deref
  linked-Goes x t n s e fr (addr, val, f, d, l, v) =
      let chain : Chain s.queue.heap addr val f (suc l) 0 = rw e at v.chain in
      let k : val (suc l) ≡ x = rw e at v.producer in
      let at_l = chain.links l (omega (arith, v.freed, v.order)) (omega arith) in
      (
        record s {
          queue = record (s.queue) { last = addr (suc l) };
          producer = counting;
          produced = s.produced ++ (x ∷ []);
        },
        rw (v.last, at_l) refl,
        (
          addr,
          val,
          f,
          d,
          suc l,
          record {
            chain = chain;
            freed = v.freed;
            order = omega (arith, v.order);
            first = v.first;
            divider = v.divider;
            last = refl;
            produced = rw (v.produced, waiting-next val l, sym k) refl;
            consumed = v.consumed;
            producer = tt;
            consumer = consumer-last s.consumer val d l v.consumer;
          },
        ),
      )

  counting-Goes :
      (t : A) (n : ℕ) (s : System A)
      → s.producer ≡ counting
      → IsFresh n s
      → Good s
      → Goes (producer_in counting t n s)
  unfolding producer_in link_node advance_last free_first deref
  counting-Goes t n s e fr (addr, val, f, d, l, v) = (
    _,
    refl,
    (
      addr,
      val,
      f,
      d,
      l,
      record {
        chain = rw e at v.chain;
        freed = v.freed;
        order = v.order;
        first = v.first;
        divider = v.divider;
        last = v.last;
        produced = v.produced;
        consumed = v.consumed;
        producer = tt;
        consumer = v.consumer;
      },
    ),
  )

  sweeping-Goes :
      (t : A) (n : ℕ) (s : System A)
      → s.producer ≡ sweeping
      → IsFresh n s
      → Good s
      → Goes (producer_in sweeping t n s)
  unfolding producer_in link_node advance_last free_first deref
  sweeping-Goes t n s e fr (addr, val, f, d, l, v) =
      elim (Bool-cases (s.queue.divider == s.queue.first)) [
        | inl hit ↦ (_, rw hit refl, (addr, val, f, d, l, with_producer idle (rw e refl) tt v))
        | inr miss ↦ (
          _,
          rw miss refl,
          (
            addr,
            val,
            f,
            d,
            l,
            with_producer freeing (rw e refl) (ground (arith, v.divider, v.first, v.freed)) v,
          ),
        )
      ]

  freeing-Goes :
      (t : A) (n : ℕ) (s : System A)
      → s.producer ≡ freeing
      → IsFresh n s
      → Good s
      → Goes (producer_in freeing t n s)
  unfolding producer_in link_node advance_last free_first deref
  freeing-Goes t n s e fr (addr, val, f, d, l, v) =
      let chain : Chain s.queue.heap addr val f l 0 = rw e at v.chain in
      let lt : f < d = rw e at v.producer in
      let at_f = chain.links f (omega arith) (omega (arith, v.order)) in
      (
        record s {
          queue = record (s.queue) { first = addr (suc f); heap = put s.queue.heap (addr f) none };
          producer = sweeping;
        },
        rw (v.first, at_f) refl,
        (
          addr,
          val,
          suc f,
          d,
          l,
          record {
            chain = Chain-free (omega (arith, v.order)) chain;
            freed = lt;
            order = v.order;
            first = refl;
            divider = v.divider;
            last = v.last;
            produced = v.produced;
            consumed = v.consumed;
            producer = tt;
            consumer = v.consumer;
          },
        ),
      )

  -- The step succeeds, wherever the thread stands.
  pub producer-Goes :
      (p : Producer A) (t : A) (n : ℕ) (s : System A)
      → s.producer ≡ p
      → IsFresh n s
      → Good s
      → Goes (producer_in p t n s)
  producer-Goes idle = idle-Goes
  producer-Goes (linked x) = linked-Goes x
  producer-Goes counting = counting-Goes
  producer-Goes sweeping = sweeping-Goes
  producer-Goes freeing = freeing-Goes
