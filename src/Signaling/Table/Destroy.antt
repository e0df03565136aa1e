-- ===== src/Signaling/Table/Destroy.antt =====
-- The destructor of xrtc_server/src/server/signaling_worker.cpp on the table.
use dcj_rtc.Prelude.{
  ℕ, zero, suc, ◌+◌, ◌<◌, ◌≡◌, ◌≢◌, refl, none, ok, get_or, length, length-set, arith, get_or-set,
  get_or-length_le, lt-length_of_get_or, Bool-cases, Option-cases, inl, inr, ltb, ◌==◌, true, false,
  not, ◌&&◌, Bool, fault,
}
use dcj_rtc.Base.EventLoop.{Libev}
use dcj_rtc.Signaling.Worker.{Worker, close_entries, ended, join_worker, destroy_worker}
use dcj_rtc.Signaling.Table.{IsTable}
use dcj_rtc.Signaling.Table.Close.{without_conn, close_conn-IsTable}

module _ {W T : Type 0} (ev : Libev W T) where
  -- The entries in front of `i` are empty.
  abbrev Cleared : ℕ → Worker W T → Type 0
  Cleared i w = (j : ℕ) → j < i → get_or w.conns j 0 ≡ 0

  close_entries-IsTable :
      (k i : ℕ) (w : Worker W T)
      → IsTable ev w
      → length w.conns ≡ i + k
      → Cleared i w
      → (w' : Worker W T) × (close_entries ev k i w ≡ ok w')
        × IsTable ev w'
        × ((j : ℕ) → get_or w'.conns j 0 ≡ 0)
  unfolding close_entries
  close_entries-IsTable zero i w v n c = (
    w,
    refl,
    v,
    λ j. elim (Bool-cases (ltb j i)) [
      | inl lt ↦ c j (ground arith)
      | inr ge ↦ get_or-length_le w.conns j 0 (ground arith)
    ],
  )
  close_entries-IsTable (suc k) i w v n c = elim (Bool-cases (get_or w.conns i 0 == 0)) [
    | inl empty ↦
        let (w', r, v', gone) =
          close_entries-IsTable k (suc i) w v (omega arith) (λ j lt. ground (arith, c j, empty)) in
        (w', rw (close_entries, empty) r, v', gone)
    | inr used ↦
        let ne : get_or w.conns i 0 ≢ 0 = ground arith in
        let (e, v1) = close_conn-IsTable ev w i v ne in
        let w1 = without_conn ev w i (get_or w.conns i 0) in
        let inside = lt-length_of_get_or w.conns i 0 ne in
        let (w', r, v', gone) =
          close_entries-IsTable k (suc i) w1 v1 (omega (arith, length-set w.conns i 0))
            (λ j lt. ground (arith, c j, get_or-set w.conns i j 0 0 inside)) in
        (w', rw (close_entries, used, e) r, v', gone)
  ]

  -- The destructor of a worker with a well-formed table whose thread has come to its end and was not
  -- joined before frees every connection that is alive and follows no dangling pointer.
  pub destroy_worker-frees :
      (w : Worker W T)
      → IsTable ev w
      → (w.has_thread && w.thread_joined) ≡ false
      → (w' : Worker W T) × (destroy_worker ev true w ≡ ok w') × ((p : ℕ) → w'.heap p ≡ none)
  unfolding destroy_worker
  destroy_worker-frees w v running =
      let (w1, r, v1, gone) =
        close_entries-IsTable (length w.conns) 0 w v (omega arith) (λ j lt. absurd (omega arith)) in
      (
        ended ev w1,
        rw (r, destroy_worker, running) refl,
        λ p. elim (Option-cases (w1.heap p)) [
          | inl e ↦ e
          | inr (c, e) ↦ absurd (ground (arith, v1.listed p c e, gone c.fd))
        ],
      )

  join_worker-IsTable : (w : Worker W T) → IsTable ev w → IsTable ev (join_worker w)
  unfolding join_worker
  join_worker-IsTable w v = elim (Bool-cases (w.has_thread && not w.thread_joined)) [
    | inl waits ↦ rw waits (record { entries = v.entries; listed = v.listed })
    | inr not_there ↦ rw not_there v
  ]

  join_worker_lem :
      (w : Worker W T)
      → w.has_thread ≡ true
      → ((join_worker w).has_thread ≡ true) × ((join_worker w).thread_joined ≡ true)
  unfolding join_worker
  join_worker_lem w started = ground arith

  -- A worker that was started and then joined, as the server's `_stop` does with each of its workers,
  -- cannot be deleted: its destructor joins the thread once more, which ends the process.
  pub destroy_worker-join_worker :
      (thread_ended : Bool) (w : Worker W T)
      → IsTable ev w
      → w.has_thread ≡ true
      → destroy_worker ev thread_ended (join_worker w) ≡ fault
  unfolding destroy_worker
  destroy_worker-join_worker thread_ended w v started =
      let w0 = join_worker w in
      let v0 : IsTable ev w0 = join_worker-IsTable w v in
      let (joined, there) = join_worker_lem w started in
      let (w1, r, v1, gone) =
        close_entries-IsTable (length w0.conns) 0 w0 v0 (omega arith)
          (λ j lt. absurd (omega arith)) in
      elim (Bool-cases thread_ended) [
        | inl e ↦ rw (r, destroy_worker, e, joined, there) refl
        | inr e ↦ rw (r, destroy_worker, e, joined, there) refl
      ]
