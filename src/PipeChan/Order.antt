-- ===== src/PipeChan/Order.antt =====
-- The pipe of cmd/pipechan.go loses nothing and keeps the order.
use oss_mc.Base.{
  flat, flat-append, ℕ, List, [], ◌∷◌, ◌++◌, Option, none, some, ◌≡◌, refl, sym, ap, ◌∙◌, arith,
  append_assoc, length, leb, ltb, ◌&&◌, ◌*◌, ◌/◌, Bool-cases, none_ne_some, inl, inr,
}
use oss_mc.PipeChan.{
  Writer, receives, grows, shrinks, sends, ended, Pipe, most_channels, waiting, switch, receive,
  writer_move, read_current, read_first, reader_step, Reach, start, by_writer, by_reader,
}

module _ {ℓ} {E : Type ℓ} where
  abbrev in_hand : Writer E → List E
  in_hand receives = []
  in_hand (grows x) = x ∷ []
  in_hand (shrinks x) = x ∷ []
  in_hand (sends x) = x ∷ []
  in_hand ended = []

  -- What the pipe holds, from the oldest element on, in front of what is still to come.
  abbrev pub held : Pipe E → List E
  held s = flat s.behind ++ (s.current ++ (in_hand s.writer ++ s.input))

  abbrev pub content : Pipe E → List E
  content s = s.output ++ held s

  -- A step to a pipe with the same content.
  same_content :
      {t u : Pipe E} {xs : List E}
      → content u ≡ xs
      → ◌≡◌ {A = Option (Pipe E)} (some u) (some t)
      → content t ≡ xs
  same_content e h =
      ap (λ (o : Option (Pipe E)). elim o [ none ↦ [] | some p ↦ content p ]) (sym h) ∙ e

  hand_content :
      (w : Writer E) (s : Pipe E)
      → in_hand w ≡ in_hand s.writer
      → content (record s { writer = w }) ≡ content s
  hand_content w s e =
      ap (λ (u : List E). s.output ++ (flat s.behind ++ (s.current ++ (u ++ s.input)))) e

  switch-content :
      (room : ℕ) (w : Writer E) (s : Pipe E) {t : Pipe E}
      → in_hand w ≡ in_hand s.writer
      → switch room w s ≡ some t
      → content t ≡ content s
  unfolding switch
  switch-content room w s {t} e h = elim (Bool-cases (ltb (waiting s) most_channels)) [
    | inl y ↦
        let m = flat-append s.behind s.current in
        let a = append_assoc (flat s.behind) s.current (in_hand w ++ s.input) in
        same_content {t = t}
          {u = record s {
            behind = s.behind ++ s.current ∷ [];
            current = [];
            cap = room;
            writer = w;
          }}
          (ap (λ (u : List E). s.output ++ u)
              (ap (λ (u : List E). u ++ (in_hand w ++ s.input)) m ∙ a)
            ∙ hand_content w s e)
          (sym (rw (y, switch) refl) ∙ h)
    | inr n ↦ absurd (none_ne_some (sym (rw (n, switch) refl) ∙ h))
  ]

  receive-content :
      (xs : List E) (s : Pipe E)
      → s.input ≡ xs
      → s.writer ≡ receives
      → content (receive xs s) ≡ content s
  receive-content [] s p q = hand_content ended s (sym (ap in_hand q))
  receive-content (x ∷ xs) s p q =
      ap (λ (u : List E). s.output ++ (flat s.behind ++ (s.current ++ u)))
        (sym p ∙ ap (λ (w : Writer E). in_hand w ++ s.input) (sym q))

  writer_move-content :
      (capacity : ℕ) (w : Writer E) (s : Pipe E) {t : Pipe E}
      → s.writer ≡ w
      → writer_move capacity w s ≡ some t
      → content t ≡ content s
  unfolding writer_move
  writer_move-content capacity receives s e h = ground (arith, receive-content s.input s refl e, h)
  writer_move-content capacity (grows x) s {t} e h =
      elim (Bool-cases (leb (s.cap / 2) (length s.current))) [
        | inl y ↦
            switch-content (s.cap * 2) (shrinks x) s {t = t} (ground (arith, e))
              (ground (arith, h, y))
        | inr n ↦ ground (arith, h, n, e)
      ]
  writer_move-content capacity (shrinks x) s {t} e h =
      elim (Bool-cases (leb capacity (length s.current) && leb (length s.current) (s.cap / 4))) [
        | inl y ↦
            switch-content (s.cap / 2) (sends x) s {t = t} (ground (arith, e))
              (ground (arith, h, y))
        | inr n ↦ ground (arith, h, n, e)
      ]
  writer_move-content capacity (sends x) s {t} e h =
      elim (Bool-cases (ltb (length s.current) s.cap)) [
        | inl y ↦
            same_content {t = t} {u = record s { current = s.current ++ x ∷ []; writer = receives }}
              (ap (λ (u : List E). s.output ++ (flat s.behind ++ u))
                (append_assoc s.current (x ∷ []) s.input
                  ∙ ap (λ (w : Writer E). s.current ++ (in_hand w ++ s.input)) (sym e)))
              (ground (arith, h, y))
        | inr n ↦ ground (arith, h, n)
      ]
  writer_move-content capacity ended s e h = cc

  read_current-content :
      (vs : List E) (s : Pipe E) {t : Pipe E}
      → s.behind ≡ []
      → s.current ≡ vs
      → read_current vs s ≡ some t
      → content t ≡ content s
  read_current-content [] s p q h = ground (arith, p, q, h)
  read_current-content (v ∷ vs) s p q h =
      let a = append_assoc s.output (v ∷ []) (vs ++ (in_hand s.writer ++ s.input)) in
      ground (arith, p, q, h, a)

  read_first-content :
      (bs : List (List E)) (s : Pipe E) {t : Pipe E}
      → s.behind ≡ bs
      → read_first bs s ≡ some t
      → content t ≡ content s
  read_first-content [] s p h = read_current-content s.current s p refl h
  read_first-content ([] ∷ bs) s p h = ground (arith, p, h)
  read_first-content ((v ∷ vs) ∷ bs) s p h =
      let a =
        append_assoc s.output (v ∷ [])
          ((vs ++ flat bs) ++ (s.current ++ (in_hand s.writer ++ s.input))) in
      ground (arith, p, h, a)

  reader_step-content : (s : Pipe E) {t : Pipe E} → reader_step s ≡ some t → content t ≡ content s
  unfolding reader_step
  reader_step-content s {t} h = elim (Bool-cases s.taken) [
    | inl y ↦ read_first-content s.behind s {t = t} refl (ground (arith, h, y))
    | inr n ↦ ground (arith, h, n)
  ]

  -- In whatever order the two goroutines take their steps, what the reader has received, followed
  -- by what the pipe holds and by the input still to come, is the input, in its order.
  pub Reach-content :
      (capacity : ℕ) (input : List E) (s : Pipe E) → Reach capacity input s → content s ≡ input
  Reach-content capacity input s start = refl
  Reach-content capacity input s (by_writer {s = r} m h) =
      writer_move-content capacity r.writer r refl h ∙ Reach-content capacity input r m
  Reach-content capacity input s (by_reader {s = r} m h) =
      reader_step-content r h ∙ Reach-content capacity input r m
