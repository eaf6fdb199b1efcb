-- ===== src/Parallel.antt =====
-- cmd/parallel-manager.go: workers that run queued tasks, a barrier task by itself. Callers and
-- workers are goroutines: each step of one of them is an operation on the manager's state, none where
-- it waits, and the index says which caller or worker takes it. `barrierSync` is the lock that Go's
-- `sync` documents: one writer, or any number of readers.
pub mod Exclusive
pub mod Tally
pub mod Progress
pub mod Tasks
use oss_mc.Base.{
  ℕ, zero, suc, ◌+◌, ◌-◌, ◌*◌, ◌%◌, ◌≡◌, Bool, true, false, not, ◌&&◌, ◌||◌, List, [], ◌∷◌, ◌++◌,
  Option, none, some, ltb, leb, ◌==◌, if◌then◌else◌,
}
use oss_mc.Ages.{signed_ltb}
use oss_mc.Duration.{is_negative, two64}

-- A task, by what its function returns.
pub record Task {ℓ} (U : Type ℓ) : Type ℓ where
  pub result : U
  pub barrier : Bool
  pub upload_size : ℕ

pub record Manager {ℓ} (U : Type ℓ) : Type ℓ where
  -- callers that wait for the lock, and callers that hold it and wait for a worker
  pub waiting : List (Task U)
  pub locked : List (Task U)
  -- tasks that workers run, and tasks whose result was sent and that still hold the lock
  pub running : List (Task U)
  pub finishing : List (Task U)
  pub readers : ℕ
  pub writer : Bool
  pub idle : ℕ
  -- `workersNum`, and the workers that have not quit
  pub workers : ℕ
  pub live : ℕ
  pub closed : Bool
  -- every task that was ever queued, and those whose result was sent, in order
  pub queued : List (Task U)
  pub sent : List (Task U)

abbrev pub max_parallel_workers : ℕ
max_parallel_workers = 128

-- Whether an upload fits into the memory, none for a panic. `part_info` stands for the library's
-- OptimalPartInfo, and `alloc` for what the run-time system has allocated.
module _ (part_info : ℕ → Option (ℕ × ℕ)) (alloc max_mem : ℕ) where
  abbrev pub needed_memory : ℕ → ℕ × ℕ → ℕ
  needed_memory size (count, part_size) = if leb 4 count then (4 * part_size) % two64 else size

  unfoldable pub enough_mem_for_upload : ℕ → Option Bool
  enough_mem_for_upload size =
      if is_negative size
      then none
      else if size == 0 || max_mem == 0
      then some true
      else elim (part_info size) [
        | none ↦ none
        | some info ↦ some (ltb ((needed_memory size info + alloc) % two64) max_mem)
      ]

  -- the first part of `doQueueTask`: a task that does not fit becomes a barrier
  unfoldable pub with_barrier {ℓ} : {U : Type ℓ} → Task U → Option (Task U)
  with_barrier t = elim (enough_mem_for_upload t.upload_size) [
    | none ↦ none
    | some fits ↦ some (record t { barrier = t.barrier || not fits })
  ]

-- The element at a place, and the others.
abbrev pub put_back {ℓ} : {A : Type ℓ} → A → Option (A × List A) → Option (A × List A)
put_back x none = none
put_back x (some (y, ys)) = some (y, x ∷ ys)

unfoldable pub pick {ℓ} : {A : Type ℓ} → ℕ → List A → Option (A × List A)
pick n [] = none
pick zero (x ∷ xs) = some (x, xs)
pick (suc n) (x ∷ xs) = put_back x (pick n xs)

module _ {ℓ} {U : Type ℓ} where
  abbrev pub no_tasks : Manager U
  no_tasks = record {
    waiting = [];
    locked = [];
    running = [];
    finishing = [];
    readers = 0;
    writer = false;
    idle = 0;
    workers = 0;
    live = 0;
    closed = false;
    queued = [];
    sent = [];
  }

  unfoldable pub add_worker : Manager U → Manager U
  add_worker m =
      if leb max_parallel_workers m.workers
      then m
      else record m { workers = m.workers + 1; live = m.live + 1; idle = m.idle + 1 }

  unfoldable pub add_workers : ℕ → Manager U → Manager U
  add_workers zero m = m
  add_workers (suc n) m = add_workers n (add_worker m)

  -- a call of `doQueueTask`, up to the lock
  unfoldable pub queue_task : Task U → Manager U → Manager U
  queue_task t m = record m { waiting = t ∷ m.waiting; queued = t ∷ m.queued }

  -- a caller gets the lock
  abbrev pub lock : Task U × List (Task U) → Manager U → Option (Manager U)
  lock (t, rest) m =
      if t.barrier
      then (if m.writer || not (m.readers == 0)
          then none
          else some (record m { waiting = rest; locked = t ∷ m.locked; writer = true }))
      else if m.writer
      then none
      else some (record m { waiting = rest; locked = t ∷ m.locked; readers = m.readers + 1 })

  unfoldable pub take_lock : ℕ → Manager U → Option (Manager U)
  take_lock n m = elim (pick n m.waiting) [ none ↦ none | some picked ↦ lock picked m ]

  -- A caller hands its task to an idle worker. On a closed queue Go panics, and here no step is taken.
  abbrev pub hand : Task U × List (Task U) → Manager U → Option (Manager U)
  hand (t, rest) m =
      if m.closed || m.idle == 0
      then none
      else some (record m { locked = rest; running = t ∷ m.running; idle = m.idle - 1 })

  unfoldable pub start_task : ℕ → Manager U → Option (Manager U)
  start_task n m = elim (pick n m.locked) [ none ↦ none | some picked ↦ hand picked m ]

  -- a worker sends the result of its task
  abbrev pub post : Task U × List (Task U) → Manager U → Manager U
  post (t, rest) m = record m {
    running = rest;
    finishing = t ∷ m.finishing;
    sent = m.sent ++ t ∷ [];
  }

  unfoldable pub send_result : ℕ → Manager U → Option (Manager U)
  send_result n m = elim (pick n m.running) [ none ↦ none | some picked ↦ some (post picked m) ]

  -- a worker gives the lock back and waits for the next task
  abbrev pub unlock : Task U × List (Task U) → Manager U → Manager U
  unlock (t, rest) m =
      if t.barrier
      then record m { finishing = rest; idle = m.idle + 1; writer = false }
      else record m { finishing = rest; idle = m.idle + 1; readers = m.readers - 1 }

  unfoldable pub finish_task : ℕ → Manager U → Option (Manager U)
  finish_task n m = elim (pick n m.finishing) [ none ↦ none | some picked ↦ some (unlock picked m) ]

  -- `stopAndWait` closes the queue, and an idle worker then quits
  unfoldable pub stop : Manager U → Manager U
  stop m = record m { closed = true }

  unfoldable pub quit : Manager U → Option (Manager U)
  quit m =
      if m.closed && not (m.idle == 0)
      then some (record m { idle = m.idle - 1; live = m.live - 1 })
      else none

  -- What callers and workers can come to, in any order of their steps.
  pub data Reach : Manager U → Type ℓ where
    start : Reach no_tasks
    by_worker : {m n : Manager U} → Reach m → n ≡ add_worker m → Reach n
    by_caller : {m n : Manager U} → Reach m → (t : Task U) → n ≡ queue_task t m → Reach n
    by_lock : {m n : Manager U} → Reach m → (i : ℕ) → take_lock i m ≡ some n → Reach n
    by_start : {m n : Manager U} → Reach m → (i : ℕ) → start_task i m ≡ some n → Reach n
    by_result : {m n : Manager U} → Reach m → (i : ℕ) → send_result i m ≡ some n → Reach n
    by_finish : {m n : Manager U} → Reach m → (i : ℕ) → finish_task i m ≡ some n → Reach n
    by_stop : {m n : Manager U} → Reach m → n ≡ stop m → Reach n
    by_quit : {m n : Manager U} → Reach m → quit m ≡ some n → Reach n

-- The monitor: what it has seen sent, its largest bandwidth, and the ticks without a larger one.
pub record Monitor : Type 0 where
  pub prev_sent_bytes : ℕ
  pub max_bandwidth : ℕ
  pub retry : ℕ

-- a tick of the monitor: none if it quits, and otherwise workers are added
unfoldable pub monitor_tick : ℕ → Monitor → Option Monitor
monitor_tick sent_bytes s =
    let bandwidth = (sent_bytes + two64 - s.prev_sent_bytes) % two64 in
    if signed_ltb s.max_bandwidth bandwidth
    then some (record { prev_sent_bytes = sent_bytes; max_bandwidth = bandwidth; retry = 0 })
    else if ltb 2 (s.retry + 1)
    then none
    else some (record s { prev_sent_bytes = sent_bytes; retry = s.retry + 1 })
