-- ===== src/PipeChan/Capacity.antt =====
-- The sizes of the channels of cmd/pipechan.go.
use mathlib.Core.Path.{subst}
use native.Mathlib.Nat.{mul-le-mul_left}
use oss_mc.Base.{
  flat, ℕ, true, false, List, [], ◌∷◌, ◌++◌, some, ◌≡◌, refl, ap, ◌∙◌, arith, length, length-append,
  All, ltb, ◌*◌, ◌<◌, ◌≤◌, Bool-cases, inl, inr,
}
use oss_mc.PipeChan.{
  Writer, receives, grows, shrinks, sends, ended, Pipe, writer_move, writer_step, is_ended,
  read_current, read_first, reader_step, Reach, start, by_writer, by_reader,
}
use oss_mc.PipeChan.Fits.{Tested, Fits, steps_to, writer_move-Fits}

module _ {ℓ} {E : Type ℓ} where
  Tested-less :
      (capacity cap m n : ℕ) (w : Writer E)
      → m ≤ n
      → Tested capacity cap n w
      → Tested capacity cap m w
  Tested-less capacity cap m n receives l v = tt
  Tested-less capacity cap m n (grows x) l v = tt
  Tested-less capacity cap m n (shrinks x) l v = ground (arith, l, v)
  Tested-less capacity cap m n (sends x) l v = omega (arith, l, v)
  Tested-less capacity cap m n ended l v = tt

  read_current-Fits :
      (capacity : ℕ) (vs : List E) (s : Pipe E) {t : Pipe E}
      → s.current ≡ vs
      → Fits capacity s
      → read_current vs s ≡ some t
      → Fits capacity t
  read_current-Fits capacity [] s {t} p f h = elim (Bool-cases (is_ended s.writer)) [
    | inl y ↦
        steps_to capacity (record s { closed = true }) {t = t}
          (record {
            sizes = f.sizes;
            filled = f.filled;
            closed_filled = f.closed_filled;
            tested = f.tested;
            room = f.room;
          })
          (ground (arith, h, y))
    | inr n ↦ ground (arith, h, n)
  ]
  read_current-Fits capacity (v ∷ vs) s {t} p f h =
      let l : length vs ≤ length s.current = ground (arith, p) in
      steps_to capacity (record s { current = vs; output = s.output ++ v ∷ [] }) {t = t}
        (record {
          sizes = f.sizes;
          filled = omega (arith, l, f.filled);
          closed_filled = f.closed_filled;
          tested = Tested-less capacity s.cap (length vs) (length s.current) s.writer l f.tested;
          room = f.room;
        })
        h

  read_first-Fits :
      (capacity : ℕ) (bs : List (List E)) (s : Pipe E) {t : Pipe E}
      → s.behind ≡ bs
      → s.taken ≡ true
      → Fits capacity s
      → read_first bs s ≡ some t
      → Fits capacity t
  read_first-Fits capacity [] s p y f h = read_current-Fits capacity s.current s refl f h
  read_first-Fits capacity ([] ∷ bs) s {t} p y f h =
      let c = subst (All (λ (b : List E). length b ≤ capacity)) p f.closed_filled in
      steps_to capacity (record s { behind = bs; taken = false }) {t = t}
        (record {
          sizes = f.sizes;
          filled = f.filled;
          closed_filled = c.1;
          tested = f.tested;
          room = ground (arith, f.room, p, y);
        })
        h
  read_first-Fits capacity ((v ∷ vs) ∷ bs) s {t} p y f h =
      let c = subst (All (λ (b : List E). length b ≤ capacity)) p f.closed_filled in
      steps_to capacity (record s { behind = vs ∷ bs; output = s.output ++ v ∷ [] }) {t = t}
        (record {
          sizes = f.sizes;
          filled = f.filled;
          closed_filled = (omega (arith, c.0), c.1);
          tested = f.tested;
          room = ground (arith, f.room, p, y);
        })
        h

  reader_step-Fits :
      (capacity : ℕ) (s : Pipe E) {t : Pipe E}
      → Fits capacity s
      → reader_step s ≡ some t
      → Fits capacity t
  unfolding reader_step
  reader_step-Fits capacity s {t} f h = elim (Bool-cases s.taken) [
    | inl y ↦ read_first-Fits capacity s.behind s {t = t} refl y f (ground (arith, h, y))
    | inr n ↦
        steps_to capacity (record s { taken = true }) {t = t}
          (record {
            sizes = f.sizes;
            filled = f.filled;
            closed_filled = f.closed_filled;
            tested = f.tested;
            room = ground (arith, f.room, n);
          })
          (ground (arith, h, n))
  ]

  -- Whatever the order of their steps, the two goroutines never use a channel larger than four times
  -- the first one: the current channel is as large as the first one, or two or four times so, no
  -- channel ever holds more elements than the first one can, and at most 1000 wait for the reader.
  pub Reach-Fits :
      (capacity : ℕ) (input : List E) (s : Pipe E)
      → 0 < capacity
      → Reach capacity input s
      → Fits capacity s
  Reach-Fits capacity input s p start = record {
    sizes = inl refl;
    filled = omega arith;
    closed_filled = tt;
    tested = tt;
    room = omega arith;
  }
  Reach-Fits capacity input s p (by_writer {s = r} m h) =
      writer_move-Fits capacity r.writer r {t = s} p refl (Reach-Fits capacity input r p m) h
  Reach-Fits capacity input s p (by_reader {s = r} m h) =
      reader_step-Fits capacity r {t = s} (Reach-Fits capacity input r p m) h

  -- The send to the current channel never waits: behind both tests there is room in it.
  pub Reach-sends :
      (capacity : ℕ) (input : List E) (s : Pipe E) (x : E)
      → 0 < capacity
      → Reach capacity input s
      → s.writer ≡ sends x
      → writer_step capacity s
        ≡ some (record s { current = s.current ++ x ∷ []; writer = receives })
  Reach-sends capacity input s x p m e =
      let f = Reach-Fits capacity input s p m in
      let v : Tested capacity s.cap (length s.current) (sends x) =
        subst (Tested capacity s.cap (length s.current)) e f.tested in
      let b : ltb (length s.current) s.cap ≡ true = ground (arith, v, f.sizes, p) in
      ap (λ (w : Writer E). writer_move capacity w s) e ∙ unfold writer_move in (ground (arith, b))

  length-flat :
      (n : ℕ) (bs : List (List E))
      → All (λ (b : List E). length b ≤ n) bs
      → length (flat bs) ≤ n * length bs
  length-flat n [] h = omega arith
  length-flat n (b ∷ bs) (h, hs) = omega (arith, h, length-flat n bs hs, length-append b (flat bs))

  -- The channels of the pipe together never hold more than 1001 times the elements that the first one
  -- can.
  Reach-held :
      (capacity : ℕ) (input : List E) (s : Pipe E)
      → 0 < capacity
      → Reach capacity input s
      → length (flat s.behind ++ s.current) ≤ capacity * 1001
  Reach-held capacity input s p m =
      let f = Reach-Fits capacity input s p m in
      let behind = length-flat capacity s.behind f.closed_filled in
      let most =
        mul-le-mul_left {m = length s.behind} {n = 1000} capacity (ground (arith, f.room)) in
      omega (arith, behind, most, f.filled, length-append (flat s.behind) s.current)
