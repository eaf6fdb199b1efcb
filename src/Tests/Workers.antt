-- ===== src/Tests/Workers.antt =====
-- The workers of cmd/parallel-manager.go: one worker, and a task that excludes all others.
use oss_mc.Base.{◌⊎◌, ℕ, ◌+◌, [], ◌∷◌, true, ◌≡◌, refl, arith, length}
use oss_mc.Parallel.{
  Task, Manager, add_worker, queue_task, take_lock, start_task, pick, Reach, start, by_worker,
  by_caller, by_lock, no_tasks,
}
use oss_mc.Parallel.Exclusive.{Reach-alone}
use oss_mc.Parallel.Progress.{Turns, Turn, stay, further, starts, work, Turns-ends}
use oss_mc.Parallel.Tally.{tally}
use oss_mc.Parallel.Tasks.{placed, Reach-placed}

abbrev large_task : Task ℕ
large_task = record { result = 7; barrier = true; upload_size = 100 }

abbrev open_manager : Manager ℕ
open_manager = record (no_tasks {U = ℕ}) {
  workers = 1;
  live = 1;
  idle = 1;
  writer = true;
  locked = large_task ∷ [];
  queued = large_task ∷ [];
}

open_manager-Reach : Reach open_manager
unfolding add_worker queue_task take_lock pick
open_manager-Reach = by_lock (by_caller (by_worker start refl) large_task refl) 0 refl

abbrev busy_manager : Manager ℕ
busy_manager = record open_manager { locked = []; running = large_task ∷ []; idle = 0 }

Reach-alone_example :
    length open_manager.locked + (length open_manager.running + length open_manager.finishing) ≡ 1
Reach-alone_example = Reach-alone open_manager open_manager-Reach (omega arith)

Reach-placed_example :
    tally (λ (t : Task ℕ). t.barrier) open_manager.queued ≡ placed (λ t. t.barrier) open_manager
Reach-placed_example = Reach-placed open_manager (λ t. t.barrier) open_manager-Reach

one_move : Turns 1 open_manager busy_manager
unfolding start_task pick
one_move = further stay (starts 0 refl)

Turns-ends_example :
    (1 + work busy_manager ≡ work open_manager)
    × (((o : Manager ℕ) × Turn busy_manager o)
        ⊎ ((work busy_manager ≡ 0)
            × (tally (λ (t : Task ℕ). t.barrier) busy_manager.sent
                ≡ tally (λ (t : Task ℕ). t.barrier) open_manager.queued)))
Turns-ends_example =
    Turns-ends 1 open_manager busy_manager (λ t. t.barrier) open_manager-Reach (omega arith) refl
      one_move
