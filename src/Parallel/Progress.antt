-- ===== src/Parallel/Progress.antt =====
-- The tasks of cmd/parallel-manager.go come to an end.
use oss_mc.Base.{
  ap, ◌⊎◌, ◌∙◌, Bool, ℕ, suc, ◌+◌, ◌-◌, ◌*◌, ◌≡◌, ◌<◌, arith, true, false, List, ◌∷◌, some, length,
  Bool-cases, inl, inr, refl, ltb, ltb→lt,
}
use oss_mc.Parallel.{
  Task, Manager, lock, take_lock, hand, start_task, post, send_result, unlock, finish_task, Reach,
  by_lock, by_start, by_result, by_finish,
}
use oss_mc.Parallel.Tally.{tally, picked, length-tally, length-pick, pick-first}
use oss_mc.Parallel.Tasks.{Reach-placed}
use oss_mc.Parallel.Exclusive.{Reach-IsLocked, IsLocked, is_barrier}

module _ {ℓ} {U : Type ℓ} where
  -- a step that brings a task further
  pub data Turn (m n : Manager U) : Type ℓ where
    locks : (i : ℕ) → take_lock i m ≡ some n → Turn m n
    starts : (i : ℕ) → start_task i m ≡ some n → Turn m n
    sends : (i : ℕ) → send_result i m ≡ some n → Turn m n
    finishes : (i : ℕ) → finish_task i m ≡ some n → Turn m n

  -- a number of such steps
  pub data Turns : ℕ → Manager U → Manager U → Type ℓ where
    stay : {m : Manager U} → Turns 0 m m
    further : {k : ℕ} {m n o : Manager U} → Turns k m n → Turn n o → Turns (suc k) m o

  -- the steps that are left for the tasks
  abbrev pub work : Manager U → ℕ
  work m =
      4 * length m.waiting + (3 * length m.locked + (2 * length m.running + length m.finishing))

  record IsFurther (m n : Manager U) : Type ℓ where
    less : work m ≡ suc (work n)
    same_live : n.live ≡ m.live
    same_closed : n.closed ≡ m.closed
    same_queued : n.queued ≡ m.queued

  take_lock-IsFurther : (i : ℕ) (m n : Manager U) → take_lock i m ≡ some n → IsFurther m n
  unfolding take_lock
  take_lock-IsFurther i m n h =
      let (t, (rest, (e, f))) = picked i m.waiting (λ q. lock q m) h in
      let l = length-pick i m.waiting e in
      record {
        less = ground (arith, f, l);
        same_live = ground (arith, f);
        same_closed = ground (arith, f);
        same_queued = ground (arith, f);
      }

  start_task-IsFurther : (i : ℕ) (m n : Manager U) → start_task i m ≡ some n → IsFurther m n
  unfolding start_task
  start_task-IsFurther i m n h =
      let (t, (rest, (e, f))) = picked i m.locked (λ q. hand q m) h in
      let l = length-pick i m.locked e in
      record {
        less = ground (arith, f, l);
        same_live = ground (arith, f);
        same_closed = ground (arith, f);
        same_queued = ground (arith, f);
      }

  send_result-IsFurther : (i : ℕ) (m n : Manager U) → send_result i m ≡ some n → IsFurther m n
  unfolding send_result
  send_result-IsFurther i m n h =
      let (t, (rest, (e, f))) = picked i m.running (λ q. some (post q m)) h in
      let l = length-pick i m.running e in
      record {
        less = ground (arith, f, l);
        same_live = ground (arith, f);
        same_closed = ground (arith, f);
        same_queued = ground (arith, f);
      }

  finish_task-IsFurther : (i : ℕ) (m n : Manager U) → finish_task i m ≡ some n → IsFurther m n
  unfolding finish_task
  finish_task-IsFurther i m n h =
      let (t, (rest, (e, f))) = picked i m.finishing (λ q. some (unlock q m)) h in
      let l = length-pick i m.finishing e in
      record {
        less = ground (arith, f, l);
        same_live = ground (arith, f);
        same_closed = ground (arith, f);
        same_queued = ground (arith, f);
      }

  Turn-IsFurther : (m n : Manager U) → Turn m n → IsFurther m n
  Turn-IsFurther m n (locks i h) = take_lock-IsFurther i m n h
  Turn-IsFurther m n (starts i h) = start_task-IsFurther i m n h
  Turn-IsFurther m n (sends i h) = send_result-IsFurther i m n h
  Turn-IsFurther m n (finishes i h) = finish_task-IsFurther i m n h

  Turn-Reach : (m n : Manager U) → Reach m → Turn m n → Reach n
  Turn-Reach m n r (locks i h) = by_lock r i h
  Turn-Reach m n r (starts i h) = by_start r i h
  Turn-Reach m n r (sends i h) = by_result r i h
  Turn-Reach m n r (finishes i h) = by_finish r i h

  -- What can be picked can be brought further.
  can_send : (m : Manager U) → 0 < length m.running → (n : Manager U) × Turn m n
  unfolding send_result
  can_send m h =
      let (t, (rest, e)) = pick-first m.running h in
      (post (t, rest) m, sends 0 (rw (e, send_result) refl))

  can_finish : (m : Manager U) → 0 < length m.finishing → (n : Manager U) × Turn m n
  unfolding finish_task
  can_finish m h =
      let (t, (rest, e)) = pick-first m.finishing h in
      (unlock (t, rest) m, finishes 0 (rw (e, finish_task) refl))

  can_start :
      (m : Manager U)
      → m.closed ≡ false
      → 0 < m.idle
      → 0 < length m.locked
      → (n : Manager U) × Turn m n
  unfolding start_task
  can_start m c i h =
      let (t, (rest, e)) = pick-first m.locked h in
      (
        record m { locked = rest; running = t ∷ m.running; idle = m.idle - 1 },
        starts 0 (rw (e, start_task) (ground (arith, c, i))),
      )

  free_lock :
      (q : Task U × List (Task U)) (m : Manager U)
      → m.writer ≡ false
      → m.readers ≡ 0
      → (n : Manager U) × (lock q m ≡ some n)
  free_lock (t, rest) m w r = elim (Bool-cases t.barrier) [
    | inl y ↦
        (record m { waiting = rest; locked = t ∷ m.locked; writer = true }, ground (arith, w, r, y))
    | inr n ↦ (
      record m { waiting = rest; locked = t ∷ m.locked; readers = m.readers + 1 },
      ground (arith, w, r, n),
    )
  ]

  can_lock :
      (m : Manager U)
      → m.writer ≡ false
      → m.readers ≡ 0
      → 0 < length m.waiting
      → (n : Manager U) × Turn m n
  unfolding take_lock
  can_lock m w r h =
      let (t, (rest, e)) = pick-first m.waiting h in
      let (n, f) = free_lock (t, rest) m w r in (n, locks 0 (rw (e, take_lock) f))

  can_move :
      (m : Manager U)
      → IsLocked m
      → 0 < m.live
      → m.closed ≡ false
      → 0 < work m
      → (n : Manager U) × Turn m n
  can_move m v l c h = elim (Bool-cases (ltb 0 (length m.running))) [
    | inl y ↦ can_send m (ltb→lt 0 (length m.running) y)
    | inr no_running ↦ elim (Bool-cases (ltb 0 (length m.finishing))) [
      | inl y ↦ can_finish m (ltb→lt 0 (length m.finishing) y)
      | inr no_finishing ↦ elim (Bool-cases (ltb 0 (length m.locked))) [
        | inl y ↦
            can_start m c (ground (arith, v.crew, l, no_running, no_finishing))
              (ltb→lt 0 (length m.locked) y)
        | inr no_locked ↦
            let a = length-tally is_barrier m.locked in
            let b = length-tally is_barrier m.running in
            let d = length-tally is_barrier m.finishing in
            can_lock m (ground (arith, v.single, a, b, d, no_running, no_finishing, no_locked))
              (ground (arith, v.shared, a, b, d, no_running, no_finishing, no_locked))
              (ground (arith, h, no_running, no_finishing, no_locked))
      ]
    ]
  ]

  Turns-IsFurther :
      (k : ℕ) (m n : Manager U)
      → Reach m
      → Turns k m n
      → Reach n
        × ((k + work n ≡ work m)
            × ((n.live ≡ m.live) × ((n.closed ≡ m.closed) × (n.queued ≡ m.queued))))
  Turns-IsFurther k m n r stay = (r, (omega arith, (refl, (refl, refl))))
  Turns-IsFurther k m n r (further {k = j} {n = l} ms s) =
      let (q, (w, (a, (b, c)))) = Turns-IsFurther j m l r ms in
      let f = Turn-IsFurther l n s in
      (
        Turn-Reach l n q s,
        (omega (arith, w, f.less), (f.same_live ∙ a, (f.same_closed ∙ b, f.same_queued ∙ c))),
      )

  -- While the queue is open and there is a worker, the tasks that are queued never wait for each other
  -- forever. However the callers and workers take turns, each step that brings a task further leaves
  -- one less to take, and either there is a next one, or none is left and the results of all queued
  -- tasks were sent: for any test, as many as pass it among the queued tasks.
  pub Turns-ends :
      (k : ℕ) (m n : Manager U) (p : Task U → Bool)
      → Reach m
      → 0 < m.live
      → m.closed ≡ false
      → Turns k m n
      → (k + work n ≡ work m)
        × (((o : Manager U) × Turn n o) ⊎ ((work n ≡ 0) × (tally p n.sent ≡ tally p m.queued)))
  Turns-ends k m n p r l c ms =
      let (q, (w, (a, (b, d)))) = Turns-IsFurther k m n r ms in
      (
        w,
        elim (Bool-cases (ltb 0 (work n))) [
          | inl y ↦
              let h = ltb→lt 0 (work n) y in
              inl (can_move n (Reach-IsLocked n q) (omega (arith, a, l)) (b ∙ c) h)
          | inr y ↦
              let h : work n ≡ 0 = ground (arith, y) in
              let x = length-tally p n.waiting in
              let u = length-tally p n.locked in
              let z = length-tally p n.running in
              inr (h, omega (arith, h, x, u, z, Reach-placed n p q, ap (tally p) d))
        ],
      )
