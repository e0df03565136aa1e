-- ===== src/Base/Queue/Threads/ConsumerSteps.antt =====
-- Each access of the consumer finds the nodes that it reads, and keeps the invariant.
use dcj_rtc.Base.Queue.Threads.Invariant.{Goes}
use dcj_rtc.Prelude.{suc, ◌<◌, ◌≡◌, refl, sym, [], ◌∷◌, ◌++◌, ◌==◌, arith, Bool-cases, inl, inr}
use dcj_rtc.Base.Queue.{deref, read_front, advance_divider}
use dcj_rtc.Base.Queue.Chain.{Chain-at}
use dcj_rtc.Base.Queue.Threads.{Consumer, resting, reading, moving, uncounting, System, consumer_in}
use dcj_rtc.Base.Queue.Threads.Invariant.{
  Good, with_consumer, later_divider, top-above, waiting-next,
}

module _ {A : Type 0} where
  resting-Goes : (s : System A) → s.consumer ≡ resting → Good s → Goes (consumer_in resting s)
  unfolding consumer_in read_front advance_divider deref
  resting-Goes s e (addr, val, f, d, l, v) = elim (Bool-cases (s.queue.divider == s.queue.last)) [
    | inl hit ↦ (s, rw hit refl, (addr, val, f, d, l, v))
    | inr miss ↦ (
      record s { consumer = reading },
      rw miss refl,
      (addr, val, f, d, l, with_consumer reading (ground (arith, v.divider, v.last, v.order)) v),
    )
  ]

  reading-Goes : (s : System A) → s.consumer ≡ reading → Good s → Goes (consumer_in reading s)
  unfolding consumer_in read_front advance_divider deref
  reading-Goes s e (addr, val, f, d, l, v) =
      let lt : d < l = rw e at v.consumer in
      let at_d = v.chain.links d v.freed (omega (arith, top-above s.producer l)) in
      let (n, at_next) =
        Chain-at (suc d) (omega (arith, v.freed)) (omega (arith, top-above s.producer l)) v.chain in
      (
        record s { consumer = moving (val (suc d)) },
        rw (v.divider, at_d, at_next) refl,
        (addr, val, f, d, l, with_consumer (moving (val (suc d))) (lt, refl) v),
      )

  moving-Goes :
      (x : A) (s : System A) → s.consumer ≡ moving x → Good s → Goes (consumer_in (moving x) s)
  unfolding consumer_in read_front advance_divider deref
  moving-Goes x s e (addr, val, f, d, l, v) =
      let k : (d < l) × (val (suc d) ≡ x) = rw e at v.consumer in
      let at_d = v.chain.links d v.freed (omega (arith, k.0, top-above s.producer l)) in
      (
        record s {
          queue = record (s.queue) { divider = addr (suc d) };
          consumer = uncounting;
          consumed = s.consumed ++ (x ∷ []);
        },
        rw (v.divider, at_d) refl,
        (
          addr,
          val,
          f,
          suc d,
          l,
          record {
            chain = v.chain;
            freed = omega (arith, v.freed);
            order = k.0;
            first = v.first;
            divider = refl;
            last = v.last;
            produced = v.produced;
            consumed = rw (v.consumed, waiting-next val d, sym k.1) refl;
            producer = later_divider s.producer val f d l v.producer;
            consumer = tt;
          },
        ),
      )

  uncounting-Goes :
      (s : System A) → s.consumer ≡ uncounting → Good s → Goes (consumer_in uncounting s)
  unfolding consumer_in read_front advance_divider deref
  uncounting-Goes s e (addr, val, f, d, l, v) = (
    _,
    refl,
    (
      addr,
      val,
      f,
      d,
      l,
      record {
        chain = v.chain;
        freed = v.freed;
        order = v.order;
        first = v.first;
        divider = v.divider;
        last = v.last;
        produced = v.produced;
        consumed = v.consumed;
        producer = v.producer;
        consumer = tt;
      },
    ),
  )

  -- The step succeeds, wherever the thread stands.
  pub consumer-Goes :
      (c : Consumer A) (s : System A) → s.consumer ≡ c → Good s → Goes (consumer_in c s)
  consumer-Goes resting = resting-Goes
  consumer-Goes reading = reading-Goes
  consumer-Goes (moving x) = moving-Goes x
  consumer-Goes uncounting = uncounting-Goes
