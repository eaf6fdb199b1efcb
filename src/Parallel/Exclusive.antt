-- ===== src/Parallel/Exclusive.antt =====
-- The lock of cmd/parallel-manager.go: who holds it, and how many workers there are.
use oss_mc.Base.{
  ℕ, ◌+◌, ◌≡◌, ◌≤◌, ◌<◌, arith, Bool, true, not, leb, some, length, Bool-cases, inl, inr, sym, refl,
}
use mathlib.Core.Path.{subst}
use oss_mc.Parallel.{
  Task, Manager, add_worker, queue_task, lock, take_lock, hand, start_task, post, send_result,
  unlock, finish_task, stop, quit, Reach, start, by_worker, by_caller, by_lock, by_start, by_result,
  by_finish, by_stop, by_quit, max_parallel_workers,
}
use oss_mc.Parallel.Tally.{one_if, tally, tally-pick, picked, length-tally, length-pick}

module _ {ℓ} {U : Type ℓ} where
  abbrev pub is_barrier : Task U → Bool
  is_barrier t = t.barrier

  abbrev pub is_shared : Task U → Bool
  is_shared t = not t.barrier

  -- the tasks whose lock is held
  abbrev pub held : (Task U → Bool) → Manager U → ℕ
  held p m = tally p m.locked + (tally p m.running + tally p m.finishing)

  pub record IsLocked (m : Manager U) : Type 0 where
    pub shared : m.readers ≡ held is_shared m
    pub single : one_if m.writer ≡ held is_barrier m
    pub exclusive : m.writer ≡ true → m.readers ≡ 0
    pub crew : m.idle + (length m.running + length m.finishing) ≡ m.live
    pub alive : m.live ≤ m.workers
    pub bounded : m.workers ≤ max_parallel_workers

  -- the tasks in flight have moved, and the lock, the workers and the tasks are as before
  take_lock-IsLocked : (i : ℕ) (m n : Manager U) → IsLocked m → take_lock i m ≡ some n → IsLocked n
  unfolding take_lock
  take_lock-IsLocked i m n v h =
      let (t, (rest, (e, f))) = picked i m.waiting (λ q. lock q m) h in
      record {
        shared = ground (arith, f, v.shared);
        single = ground (arith, f, v.single, v.shared);
        exclusive = λ w. ground (arith, f, v.exclusive, w);
        crew = ground (arith, f, v.crew);
        alive = ground (arith, f, v.alive);
        bounded = ground (arith, f, v.bounded);
      }

  start_task-IsLocked :
      (i : ℕ) (m n : Manager U) → IsLocked m → start_task i m ≡ some n → IsLocked n
  unfolding start_task
  start_task-IsLocked i m n v h =
      let (t, (rest, (e, f))) = picked i m.locked (λ q. hand q m) h in
      let a = tally-pick is_barrier i m.locked e in
      let b = tally-pick is_shared i m.locked e in
      record {
        shared = ground (arith, f, v.shared, b);
        single = ground (arith, f, v.single, a);
        exclusive = λ w. ground (arith, f, v.exclusive, w);
        crew = ground (arith, f, v.crew);
        alive = ground (arith, f, v.alive);
        bounded = ground (arith, f, v.bounded);
      }

  send_result-IsLocked :
      (i : ℕ) (m n : Manager U) → IsLocked m → send_result i m ≡ some n → IsLocked n
  unfolding send_result
  send_result-IsLocked i m n v h =
      let (t, (rest, (e, f))) = picked i m.running (λ q. some (post q m)) h in
      let a = tally-pick is_barrier i m.running e in
      let b = tally-pick is_shared i m.running e in
      let l = length-pick i m.running e in
      record {
        shared = ground (arith, f, v.shared, b);
        single = ground (arith, f, v.single, a);
        exclusive = λ w. ground (arith, f, v.exclusive, w);
        crew = ground (arith, f, v.crew, l);
        alive = ground (arith, f, v.alive);
        bounded = ground (arith, f, v.bounded);
      }

  finish_task-IsLocked :
      (i : ℕ) (m n : Manager U) → IsLocked m → finish_task i m ≡ some n → IsLocked n
  unfolding finish_task
  finish_task-IsLocked i m n v h =
      let (t, (rest, (e, f))) = picked i m.finishing (λ q. some (unlock q m)) h in
      let a = tally-pick is_barrier i m.finishing e in
      let b = tally-pick is_shared i m.finishing e in
      let l = length-pick i m.finishing e in
      record {
        shared = ground (arith, f, v.shared, b);
        single = ground (arith, f, v.single, a);
        exclusive = λ w. ground (arith, f, v.exclusive, w);
        crew = ground (arith, f, v.crew, l);
        alive = ground (arith, f, v.alive);
        bounded = ground (arith, f, v.bounded);
      }

  quit-IsLocked : (m n : Manager U) → IsLocked m → quit m ≡ some n → IsLocked n
  unfolding quit
  quit-IsLocked m n v h = record {
    shared = ground (arith, h, v.shared);
    single = ground (arith, h, v.single);
    exclusive = λ w. ground (arith, h, v.exclusive, w);
    crew = ground (arith, h, v.crew);
    alive = ground (arith, h, v.alive);
    bounded = ground (arith, h, v.bounded);
  }

  add_worker-IsLocked : (m : Manager U) → IsLocked m → IsLocked (add_worker m)
  unfolding add_worker
  add_worker-IsLocked m v = elim (Bool-cases (leb max_parallel_workers m.workers)) [
    | inl y ↦ rw (y, add_worker) v
    | inr n ↦
        rw (n, add_worker)
          record {
            shared = v.shared;
            single = v.single;
            exclusive = v.exclusive;
            crew = omega (arith, v.crew);
            alive = omega (arith, v.alive);
            bounded = ground (arith, n);
          }
  ]

  pub Reach-IsLocked : (m : Manager U) → Reach m → IsLocked m
  unfolding queue_task stop
  Reach-IsLocked m start = record {
    shared = refl;
    single = refl;
    exclusive = λ w. refl;
    crew = refl;
    alive = omega arith;
    bounded = omega arith;
  }
  Reach-IsLocked m (by_worker {m = k} r e) =
      subst IsLocked (sym e) (add_worker-IsLocked k (Reach-IsLocked k r))
  Reach-IsLocked m (by_caller {m = k} r t e) =
      let v = Reach-IsLocked k r in
      subst IsLocked (sym e) (record {
        shared = v.shared;
        single = v.single;
        exclusive = v.exclusive;
        crew = v.crew;
        alive = v.alive;
        bounded = v.bounded;
      })
  Reach-IsLocked m (by_lock {m = k} r i e) = take_lock-IsLocked i k m (Reach-IsLocked k r) e
  Reach-IsLocked m (by_start {m = k} r i e) = start_task-IsLocked i k m (Reach-IsLocked k r) e
  Reach-IsLocked m (by_result {m = k} r i e) = send_result-IsLocked i k m (Reach-IsLocked k r) e
  Reach-IsLocked m (by_finish {m = k} r i e) = finish_task-IsLocked i k m (Reach-IsLocked k r) e
  Reach-IsLocked m (by_stop {m = k} r e) =
      let v = Reach-IsLocked k r in
      subst IsLocked (sym e) (record {
        shared = v.shared;
        single = v.single;
        exclusive = v.exclusive;
        crew = v.crew;
        alive = v.alive;
        bounded = v.bounded;
      })
  Reach-IsLocked m (by_quit {m = k} r e) = quit-IsLocked k m (Reach-IsLocked k r) e

  -- Whatever the order of the steps, when a barrier task holds the lock, it is the only task that
  -- holds it: no other is handed to a worker or run.
  pub Reach-alone :
      (m : Manager U)
      → Reach m
      → 0 < held is_barrier m
      → length m.locked + (length m.running + length m.finishing) ≡ 1
  Reach-alone m r h =
      let v = Reach-IsLocked m r in
      ground (
        arith,
        v.shared,
        v.single,
        v.exclusive,
        h,
        length-tally is_barrier m.locked,
        length-tally is_barrier m.running,
        length-tally is_barrier m.finishing,
      )
