-- ===== src/PipeChan/End.antt =====
-- How the two goroutines of cmd/pipechan.go go on, and what they leave when they end.
use oss_mc.Base.{
  ℕ, true, false, List, [], ◌∷◌, Option, none, some, ◌≡◌, ◌≢◌, refl, sym, ◌∙◌, arith, append-nil,
  ◌<◌, Bool-cases, Option-cases, none_ne_some, ◌⊎◌, inl, inr,
}
use oss_mc.PipeChan.{
  Writer, receives, grows, shrinks, sends, ended, Pipe, switch, receive, writer_move, writer_step,
  is_ended, read_current, read_first, reader_step, Reach, start, by_writer, by_reader,
}
use oss_mc.PipeChan.Capacity.{Reach-sends}
use oss_mc.PipeChan.Order.{Reach-content}

module _ {ℓ} {E : Type ℓ} where
  -- Nothing is left to come once the writer has ended, and nothing is held once the output is closed.
  abbrev Finished : Pipe E → Type ℓ
  Finished s =
      ((is_ended s.writer ≡ false) ⊎ (s.input ≡ []))
      × ((s.closed ≡ false) ⊎ ((s.writer ≡ ended) × (s.behind ≡ []) × (s.current ≡ [])))

  writer_move-Finished :
      (capacity : ℕ) (w : Writer E) (s : Pipe E) {t : Pipe E}
      → s.writer ≡ w
      → Finished s
      → writer_move capacity w s ≡ some t
      → Finished t
  unfolding writer_move switch
  writer_move-Finished capacity receives s e f h = go s.input refl h
    where
      go :
          (xs : List E) {t : Pipe E}
          → s.input ≡ xs
          → ◌≡◌ {A = Option (Pipe E)} (some (receive xs s)) (some t)
          → Finished t
      go [] p k = ground (arith, p, k, e, f)
      go (x ∷ xs) p k = ground (arith, p, k, e, f)
  writer_move-Finished capacity (grows x) s e f h = ground (arith, h, e, f)
  writer_move-Finished capacity (shrinks x) s e f h = ground (arith, h, e, f)
  writer_move-Finished capacity (sends x) s e f h = ground (arith, h, e, f)
  writer_move-Finished capacity ended s e f h = cc

  is_ended_as : (w : Writer E) → is_ended w ≡ true → w ≡ ended
  is_ended_as ended h = refl
  is_ended_as receives h = cc
  is_ended_as (grows x) h = cc
  is_ended_as (shrinks x) h = cc
  is_ended_as (sends x) h = cc

  read_current-Finished :
      (vs : List E) (s : Pipe E) {t : Pipe E}
      → s.behind ≡ []
      → s.current ≡ vs
      → s.closed ≡ false
      → Finished s
      → read_current vs s ≡ some t
      → Finished t
  read_current-Finished [] s p q c f h = ground (arith, p, q, c, f, h, is_ended_as s.writer)
  read_current-Finished (v ∷ vs) s p q c f h = ground (arith, p, q, c, f, h)

  read_first-Finished :
      (bs : List (List E)) (s : Pipe E) {t : Pipe E}
      → s.behind ≡ bs
      → s.closed ≡ false
      → Finished s
      → read_first bs s ≡ some t
      → Finished t
  read_first-Finished [] s p c f h = read_current-Finished s.current s p refl c f h
  read_first-Finished ([] ∷ bs) s p c f h = ground (arith, c, f, h)
  read_first-Finished ((v ∷ vs) ∷ bs) s p c f h = ground (arith, c, f, h)

  reader_step-Finished :
      (s : Pipe E) {t : Pipe E} → Finished s → reader_step s ≡ some t → Finished t
  unfolding reader_step
  reader_step-Finished s {t} f h = elim (Bool-cases s.closed) [
    | inl c ↦ ground (arith, h, c)
    | inr c ↦ elim (Bool-cases s.taken) [
      | inl y ↦ read_first-Finished s.behind s {t = t} refl c f (ground (arith, h, c, y))
      | inr n ↦ ground (arith, h, c, n, f)
    ]
  ]

  Reach-Finished :
      (capacity : ℕ) (input : List E) (s : Pipe E) → Reach capacity input s → Finished s
  Reach-Finished capacity input s start = (inl refl, inl refl)
  Reach-Finished capacity input s (by_writer {s = r} m h) =
      writer_move-Finished capacity r.writer r refl (Reach-Finished capacity input r m) h
  Reach-Finished capacity input s (by_reader {s = r} m h) =
      reader_step-Finished r (Reach-Finished capacity input r m) h

  -- When the output is closed, all of the input has been passed on, in its order.
  Reach-closed :
      (capacity : ℕ) (input : List E) (s : Pipe E)
      → Reach capacity input s
      → s.closed ≡ true
      → s.output ≡ input
  Reach-closed capacity input s m c =
      let (d, l) = Reach-Finished capacity input s m in
      let n = append-nil s.output in ground (arith, Reach-content capacity input s m, c, d, l, n)

  -- With nothing in the reader's way, the writer has room for a new channel.
  writer_goes :
      (capacity : ℕ) (w : Writer E) (s : Pipe E)
      → s.taken ≡ true
      → s.behind ≡ []
      → is_ended w ≡ false
      → (writer_move capacity w s ≢ none) ⊎ ((x : E) × (w ≡ sends x))
  unfolding writer_move switch
  writer_goes capacity receives s y b e = inl (λ h. cc)
  writer_goes capacity (grows x) s y b e = inl (λ h. ground (arith, h, y, b))
  writer_goes capacity (shrinks x) s y b e = inl (λ h. ground (arith, h, y, b))
  writer_goes capacity (sends x) s y b e = inr (x, refl)
  writer_goes capacity ended s y b e = cc

  -- The reader waits only for a channel that is empty and still open.
  reader_waits :
      (s : Pipe E)
      → s.closed ≡ false
      → reader_step s ≡ none
      → (s.taken ≡ true) × (s.behind ≡ []) × (is_ended s.writer ≡ false)
  unfolding reader_step
  reader_waits s c h = elim (Bool-cases s.taken) [
    | inl y ↦ let (b, e) = go s.behind s.current (ground (arith, h, c, y)) in (y, b, e)
    | inr n ↦ ground (arith, h, c, n)
  ]
    where
      go :
          (bs : List (List E)) (vs : List E)
          → ◌≡◌ {A = Option (Pipe E)}
              (elim bs [ [] ↦ read_current vs s | b ∷ bs2 ↦ read_first (b ∷ bs2) s ])
              none
          → (bs ≡ []) × (is_ended s.writer ≡ false)
      go [] [] k = ground (arith, k)
      go [] (v ∷ vs) k = cc
      go ([] ∷ bs) vs k = cc
      go ((v ∷ vs2) ∷ bs) vs k = cc

  -- When the channels have room for at least one element, the goroutines never block each other: until
  -- the output is closed, one of them can take a step. A send to the output does not wait here.
  pub Reach-goes_on :
      (capacity : ℕ) (input : List E) (s : Pipe E)
      → 0 < capacity
      → Reach capacity input s
      → s.closed ≡ false
      → (writer_step capacity s ≢ none) ⊎ (reader_step s ≢ none)
  Reach-goes_on capacity input s p m c = elim (Option-cases (reader_step s)) [
    | inr (t, h) ↦ inr (λ k. none_ne_some (sym k ∙ h))
    | inl h ↦
        let (y, b, e) = reader_waits s c h in
        elim (writer_goes capacity s.writer s y b e) [
          | inl g ↦ inl g
          | inr (x, w) ↦ inl (λ k. none_ne_some (sym k ∙ Reach-sends capacity input s x p m w))
        ]
  ]
