-- ===== src/Duration/Ends.antt =====
-- The loop of `ParseDuration` ends within its rounds, with an error or a number in range.
use oss_mc.Base.{
  Fallible-cases, ok, err, ℕ, zero, suc, ◌+◌, ◌<◌, ◌≤◌, [], ◌∷◌, Option, none, some, ◌≡◌, ◌⊎◌, inl,
  inr, refl, arith, Bytes, length, Bool-cases, ◌==◌, ltb, ltb→lt, if◌then◌else◌,
}
use oss_mc.Strings.{equal, codes, is_empty}
use oss_mc.Duration.{
  two63, two64, read_part, read_parts, negated, parse_unsigned, parse_signed, parse_duration,
  all_space, Result, DurationError, invalid_duration,
}
use oss_mc.Duration.Parts.{read_part_fits}

-- The value is the bit pattern of an integer between -(2^63 - 1) and 2^63 - 1, or it is an error.
abbrev pub InRange : Result ℕ → Type 0
InRange (ok d) = (d < two63) ⊎ ((two63 < d) × (d < two64))
InRange (err e) = Unit {0}

abbrev pub Ends : (Result ℕ → Type 0) → Option (Result ℕ) → Type 0
Ends P none = ⊥
Ends P (some r) = P r

abbrev NotNegative : Result ℕ → Type 0
NotNegative (ok d) = d < two63
NotNegative (err e) = Unit {0}

weaken : (r : Option (Result ℕ)) → Ends NotNegative r → Ends InRange r
weaken none h = h
weaken (some (ok d)) h = inl h
weaken (some (err e)) h = h

negated-Ends : (r : Option (Result ℕ)) → Ends NotNegative r → Ends InRange (negated r)
negated-Ends none h = h
negated-Ends (some (ok zero)) h = inl (omega arith)
negated-Ends (some (ok (suc d))) h = inr (omega arith, omega arith)
negated-Ends (some (err e)) h = h

module _ (float_part : ℕ → ℕ → ℕ → ℕ) where
  -- One round, with what was read.
  pub read_parts_step :
      (fuel : ℕ) (orig : Bytes) (d c : ℕ) (s : Bytes) {r : ℕ × Bytes}
      → read_part float_part orig (c ∷ s) ≡ ok r
      → d < two63
      → read_parts float_part (suc fuel) orig d (c ∷ s) ≡ (
          if ltb (d + r.0) two63
          then read_parts float_part fuel orig (d + r.0) r.1
          else some (err (invalid_duration orig)))
  unfolding read_parts
  read_parts_step fuel orig d c s {r} h f =
      let (fits, shorter) = read_part_fits float_part orig c s h in
      rw (h, read_parts) (ground arith)

  pub read_parts_error :
      (fuel : ℕ) (orig : Bytes) (d c : ℕ) (s : Bytes) {e : DurationError}
      → read_part float_part orig (c ∷ s) ≡ err e
      → read_parts float_part (suc fuel) orig d (c ∷ s) ≡ some (err e)
  unfolding read_parts
  read_parts_error fuel orig d c s h = ground arith

  pub read_parts_done :
      (fuel : ℕ) (orig : Bytes) (d : ℕ) → read_parts float_part fuel orig d [] ≡ some (ok d)
  unfolding read_parts
  read_parts_done zero orig d = refl
  read_parts_done (suc fuel) orig d = refl

  read_parts-Ends :
      (fuel : ℕ) (orig : Bytes) (d : ℕ) (s : Bytes)
      → d < two63
      → length s ≤ fuel
      → Ends NotNegative (read_parts float_part fuel orig d s)
  read_parts-Ends zero orig d [] f l = rw read_parts_done f
  read_parts-Ends (suc fuel) orig d [] f l = rw read_parts_done f
  read_parts-Ends zero orig d (c ∷ s) f l = absurd (omega arith)
  read_parts-Ends (suc fuel) orig d (c ∷ s) f l =
      elim (Fallible-cases (read_part float_part orig (c ∷ s))) [
        | inl (e, h) ↦ rw (read_parts_error fuel orig d c s h) tt
        | inr (r, h) ↦
            rw (read_parts_step fuel orig d c s h f) (elim (Bool-cases (ltb (d + r.0) two63)) [
              | inl t ↦ rw t (
                  read_parts-Ends fuel orig (d + r.0) r.1 (ltb→lt _ _ t)
                    (omega (arith, (read_part_fits float_part orig c s h).1)))
              | inr n ↦ rw n tt
            ])
      ]

  parse_unsigned-Ends : (orig s : Bytes) → Ends NotNegative (parse_unsigned float_part orig s)
  unfolding parse_unsigned
  parse_unsigned-Ends orig s = elim (Bool-cases (equal s (codes "0"))) [
    | inl t ↦ rw t (omega arith)
    | inr n ↦ rw n (elim (Bool-cases (is_empty s)) [
      | inl t ↦ rw t tt
      | inr m ↦ rw m (read_parts-Ends (length s) orig 0 s (omega arith) (omega arith))
    ])
  ]

  parse_signed-Ends : (orig s : Bytes) → Ends InRange (parse_signed float_part orig s)
  unfolding parse_signed
  parse_signed-Ends orig [] = weaken _ (parse_unsigned-Ends orig [])
  parse_signed-Ends orig (c ∷ s) = elim (Bool-cases (c == b'-')) [
    | inl t ↦ rw t (negated-Ends _ (parse_unsigned-Ends orig s))
    | inr n ↦ rw n (elim (Bool-cases (c == b'+')) [
      | inl t ↦ rw t (weaken _ (parse_unsigned-Ends orig s))
      | inr m ↦ rw m (weaken _ (parse_unsigned-Ends orig (c ∷ s)))
    ])
  ]

  -- For every text the loop ends within the rounds that it is given, and what is returned is an error
  -- or an integer between -(2^63 - 1) and 2^63 - 1.
  pub parse_duration-Ends : (s : Bytes) → Ends InRange (parse_duration float_part s)
  unfolding parse_duration
  parse_duration-Ends s = elim (Bool-cases (all_space s)) [
    | inl t ↦ rw t tt
    | inr n ↦ rw n (parse_signed-Ends s s)
  ]
