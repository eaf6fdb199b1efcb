-- ===== src/PipeChan/Fits.antt =====
-- The sizes of the channels of cmd/pipechan.go, and what the writer does to them.
use mathlib.Core.Path.{subst}
use oss_mc.Base.{
  ℕ, List, [], ◌∷◌, ◌++◌, Option, some, ◌≡◌, refl, sym, ◌∙◌, arith, length, length-append, All,
  All-append, leb, ltb, ◌&&◌, ◌*◌, ◌/◌, ◌<◌, ◌≤◌, Bool-cases, some_same, none_ne_some, ◌⊎◌, inl,
  inr,
}
use oss_mc.PipeChan.{
  Writer, receives, grows, shrinks, sends, ended, Pipe, most_channels, waiting, switch, receive,
  writer_move,
}

module _ {ℓ} {E : Type ℓ} where
  -- What is known of the current channel behind each of the tests.
  abbrev pub Tested : ℕ → ℕ → ℕ → Writer E → Type 0
  Tested capacity cap n receives = Unit
  Tested capacity cap n (grows x) = Unit
  Tested capacity cap n (shrinks x) = (n < capacity) ⊎ (cap ≡ 4 * capacity)
  Tested capacity cap n (sends x) = n < capacity
  Tested capacity cap n ended = Unit

  -- The current channel is as large as the first one, or two or four times so, and no channel ever
  -- holds more elements than the first one can.
  pub record Fits (capacity : ℕ) (s : Pipe E) : Type ℓ where
    pub sizes : (s.cap ≡ capacity) ⊎ ((s.cap ≡ 2 * capacity) ⊎ (s.cap ≡ 4 * capacity))
    pub filled : length s.current ≤ capacity
    pub closed_filled : All (λ (b : List E). length b ≤ capacity) s.behind
    pub tested : Tested capacity s.cap (length s.current) s.writer
    pub room : waiting s ≤ most_channels

  -- A step is to this pipe.
  pub steps_to :
      (capacity : ℕ) (u : Pipe E) {t : Pipe E}
      → Fits capacity u
      → ◌≡◌ {A = Option (Pipe E)} (some u) (some t)
      → Fits capacity t
  steps_to capacity u f h = subst (Fits capacity) (some_same h) f

  switch-Fits :
      (capacity size : ℕ) (w : Writer E) (s : Pipe E) {t : Pipe E}
      → (size ≡ capacity) ⊎ ((size ≡ 2 * capacity) ⊎ (size ≡ 4 * capacity))
      → Tested capacity size 0 w
      → Fits capacity s
      → switch size w s ≡ some t
      → Fits capacity t
  unfolding switch
  switch-Fits capacity size w s {t} z v f h = elim (Bool-cases (ltb (waiting s) most_channels)) [
    | inl y ↦
        let b =
          All-append (λ (b : List E). length b ≤ capacity) s.behind (s.current ∷ []) f.closed_filled
            (f.filled, tt) in
        let l = length-append s.behind (s.current ∷ []) in
        steps_to capacity
          (record s { behind = s.behind ++ s.current ∷ []; current = []; cap = size; writer = w })
          {t = t}
          (record {
            sizes = z;
            filled = omega arith;
            closed_filled = b;
            tested = v;
            room = ground (arith, l, y);
          })
          (sym (rw (y, switch) refl) ∙ h)
    | inr n ↦ absurd (none_ne_some (sym (rw (n, switch) refl) ∙ h))
  ]

  waits_at :
      (capacity : ℕ) (w : Writer E) (s : Pipe E)
      → Fits capacity s
      → Tested capacity s.cap (length s.current) w
      → Fits capacity (record s { writer = w })
  waits_at capacity w s f v = record {
    sizes = f.sizes;
    filled = f.filled;
    closed_filled = f.closed_filled;
    tested = v;
    room = f.room;
  }

  receive-Fits :
      (capacity : ℕ) (xs : List E) (s : Pipe E) → Fits capacity s → Fits capacity (receive xs s)
  receive-Fits capacity [] s f = waits_at capacity ended s f tt
  receive-Fits capacity (x ∷ xs) s f = record {
    sizes = f.sizes;
    filled = f.filled;
    closed_filled = f.closed_filled;
    tested = tt;
    room = f.room;
  }

  pub writer_move-Fits :
      (capacity : ℕ) (w : Writer E) (s : Pipe E) {t : Pipe E}
      → 0 < capacity
      → s.writer ≡ w
      → Fits capacity s
      → writer_move capacity w s ≡ some t
      → Fits capacity t
  unfolding writer_move
  writer_move-Fits capacity receives s p e f h =
      steps_to capacity (receive s.input s) (receive-Fits capacity s.input s f) h
  writer_move-Fits capacity (grows x) s {t} p e f h =
      elim (Bool-cases (leb (s.cap / 2) (length s.current))) [
        | inl y ↦
            switch-Fits capacity (s.cap * 2) (shrinks x) s {t = t}
              (ground (arith, f.sizes, f.filled, y)) (inl p) f (ground (arith, h, y))
        | inr n ↦
            steps_to capacity (record s { writer = shrinks x }) {t = t}
              (waits_at capacity (shrinks x) s f (ground (arith, n, f.sizes)))
              (ground (arith, n, h))
      ]
  writer_move-Fits capacity (shrinks x) s {t} p e f h =
      elim (Bool-cases (leb capacity (length s.current) && leb (length s.current) (s.cap / 4))) [
        | inl y ↦
            switch-Fits capacity (s.cap / 2) (sends x) s {t = t} (ground (arith, f.sizes, y, p)) p f
              (ground (arith, h, y))
        | inr n ↦
            steps_to capacity (record s { writer = sends x }) {t = t}
              (waits_at capacity (sends x) s f (ground (arith, n, f.tested, e, p)))
              (ground (arith, n, h))
      ]
  writer_move-Fits capacity (sends x) s {t} p e f h =
      elim (Bool-cases (ltb (length s.current) s.cap)) [
        | inl y ↦
            let l = length-append s.current (x ∷ []) in
            steps_to capacity (record s { current = s.current ++ x ∷ []; writer = receives })
              {t = t}
              (record {
                sizes = f.sizes;
                filled = ground (arith, l, e, f.tested);
                closed_filled = f.closed_filled;
                tested = tt;
                room = f.room;
              })
              (ground (arith, y, h))
        | inr n ↦ ground (arith, h, n)
      ]
  writer_move-Fits capacity ended s p e f h = cc
