-- ===== src/Signaling/Server/Turns.antt =====
-- Which worker gets which connection.
use dcj_rtc.Prelude.{
  ℕ, suc, ◌+◌, ◌%◌, ◌^◌, ◌<◌, ◌≡◌, refl, List, [], ◌∷◌, ◌++◌, Outcome, ok, ◌>>=◌, lt→ltb, length,
  get_or, append-nil, append_assoc, arith,
}
use dcj_rtc.Signaling.Server.{SignalingServer, dispatch_new_conn}

-- The workers in turn, from number `next` on.
abbrev pub turns : (workers : List ℕ) (next : ℕ) → List ℕ → List (ℕ × ℕ)
turns workers next [] = []
turns workers next (fd ∷ fds) =
    (get_or workers (next % length workers) 0, fd) ∷ turns workers (next + 1) fds

module _ {W : Type 0} where
  -- Connections that arrive one after the other.
  unfoldable pub dispatch_all : List ℕ → SignalingServer W → Outcome (SignalingServer W)
  dispatch_all [] s = ok s
  dispatch_all (fd ∷ fds) s = dispatch_new_conn fd s >>= λ s'. dispatch_all fds s'

  -- With some worker, and while the counter stays below 2^31, all connections are handed over, the
  -- n-th to the worker whose number is n modulo the number of workers.
  pub dispatch_all-turns :
      (fds : List ℕ) (s : SignalingServer W)
      → 0 < length s.workers
      → s.next_worker_id + length fds < 2 ^ 31
      → dispatch_all fds s
        ≡ ok (record s {
          next_worker_id = s.next_worker_id + length fds;
          sent = s.sent ++ turns s.workers s.next_worker_id fds;
        })
  unfolding dispatch_all dispatch_new_conn
  dispatch_all-turns [] s some_worker small =
      let e : s.next_worker_id + 0 ≡ s.next_worker_id = omega arith in rw (e, append-nil) refl
  dispatch_all-turns (fd ∷ fds) s some_worker small =
      let s' = record s {
        next_worker_id = s.next_worker_id + 1;
        sent = s.sent ++ ((get_or s.workers (s.next_worker_id % length s.workers) 0, fd) ∷ []);
      } in
      let rest = dispatch_all-turns fds s' some_worker (omega arith) in
      let e : s.next_worker_id + 1 + length fds ≡ s.next_worker_id + suc (length fds) =
        omega arith in
      rw
        (
          lt→ltb 0 (length s.workers) some_worker,
          lt→ltb (s.next_worker_id + 1) (2 ^ 31) (omega arith),
        )
        (rw (e, append_assoc) at rest)
