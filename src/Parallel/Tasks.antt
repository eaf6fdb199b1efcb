-- ===== src/Parallel/Tasks.antt =====
-- The tasks of cmd/parallel-manager.go, from the queue to their results.
use oss_mc.Base.{refl, ap, ℕ, ◌+◌, ◌≡◌, arith, Bool, leb, [], ◌∷◌, some, Bool-cases, inl, inr, refl}
use oss_mc.Parallel.{
  Task, Manager, add_worker, lock, take_lock, hand, queue_task, stop, Reach, start, by_worker,
  by_caller, by_lock, by_start, by_result, by_finish, by_stop, by_quit, start_task, post,
  send_result, unlock, finish_task, quit, max_parallel_workers,
}
use oss_mc.Parallel.Tally.{tally, tally-append, tally-pick, picked}

module _ {ℓ} {U : Type ℓ} where
  -- the tasks in a place where a caller or a worker has them, or whose result was sent
  abbrev pub placed : (Task U → Bool) → Manager U → ℕ
  placed p m = tally p m.waiting + (tally p m.locked + (tally p m.running + tally p m.sent))

  -- a step that only moves tasks
  abbrev IsMove : Manager U → Manager U → Type ℓ
  IsMove m n =
      (p : Task U → Bool) → (placed p n ≡ placed p m) × (tally p n.queued ≡ tally p m.queued)

  add_worker-IsMove : (m : Manager U) → IsMove m (add_worker m)
  unfolding add_worker
  add_worker-IsMove m p = elim (Bool-cases (leb max_parallel_workers m.workers)) [
    | inl y ↦ rw (y, add_worker) (refl, refl)
    | inr n ↦ rw (n, add_worker) (refl, refl)
  ]

  take_lock-IsMove : (i : ℕ) (m n : Manager U) → take_lock i m ≡ some n → IsMove m n
  unfolding take_lock
  take_lock-IsMove i m n h p =
      let (t, (rest, (e, f))) = picked i m.waiting (λ q. lock q m) h in
      let moved = tally-pick p i m.waiting e in ground (arith, f, moved)

  start_task-IsMove : (i : ℕ) (m n : Manager U) → start_task i m ≡ some n → IsMove m n
  unfolding start_task
  start_task-IsMove i m n h p =
      let (t, (rest, (e, f))) = picked i m.locked (λ q. hand q m) h in
      let moved = tally-pick p i m.locked e in ground (arith, f, moved)

  send_result-IsMove : (i : ℕ) (m n : Manager U) → send_result i m ≡ some n → IsMove m n
  unfolding send_result
  send_result-IsMove i m n h p =
      let (t, (rest, (e, f))) = picked i m.running (λ q. some (post q m)) h in
      let moved = tally-pick p i m.running e in
      let sent = tally-append p m.sent (t ∷ []) in ground (arith, f, moved, sent)

  finish_task-IsMove : (i : ℕ) (m n : Manager U) → finish_task i m ≡ some n → IsMove m n
  unfolding finish_task
  finish_task-IsMove i m n h p =
      let (t, (rest, (e, f))) = picked i m.finishing (λ q. some (unlock q m)) h in ground (arith, f)

  quit-IsMove : (m n : Manager U) → quit m ≡ some n → IsMove m n
  unfolding quit
  quit-IsMove m n h p = ground (arith, h)

  -- Whatever the order of the steps, each queued task is in just one place: waiting for the lock,
  -- waiting for a worker, running, or among those whose result was sent. So for any test as many
  -- queued tasks pass it as tasks in these places do: none is lost, and none is run twice.
  pub Reach-placed : (m : Manager U) (p : Task U → Bool) → Reach m → tally p m.queued ≡ placed p m
  unfolding queue_task stop
  Reach-placed m p start = refl
  Reach-placed m p (by_worker {m = k} r e) =
      let (a, b) = add_worker-IsMove k p in
      omega (
        arith,
        Reach-placed k p r,
        a,
        b,
        ap (placed p) e,
        ap (λ (u : Manager U). tally p u.queued) e,
      )
  Reach-placed m p (by_caller {m = k} r t e) =
      omega (arith, Reach-placed k p r, ap (placed p) e, ap (λ (u : Manager U). tally p u.queued) e)
  Reach-placed m p (by_lock {m = k} r i e) =
      omega (arith, Reach-placed k p r, take_lock-IsMove i k m e p)
  Reach-placed m p (by_start {m = k} r i e) =
      omega (arith, Reach-placed k p r, start_task-IsMove i k m e p)
  Reach-placed m p (by_result {m = k} r i e) =
      omega (arith, Reach-placed k p r, send_result-IsMove i k m e p)
  Reach-placed m p (by_finish {m = k} r i e) =
      omega (arith, Reach-placed k p r, finish_task-IsMove i k m e p)
  Reach-placed m p (by_stop {m = k} r e) =
      omega (arith, Reach-placed k p r, ap (placed p) e, ap (λ (u : Manager U). tally p u.queued) e)
  Reach-placed m p (by_quit {m = k} r e) = omega (arith, Reach-placed k p r, quit-IsMove k m e p)
