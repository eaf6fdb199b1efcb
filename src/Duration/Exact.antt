-- ===== src/Duration/Exact.antt =====
-- What `ParseDuration` of cmd/duration.go accepts, with fractions and a sign, and its value.
use mathlib.Core.Path.{subst}
use oss_mc.Base.{
  ok, err, ℕ, ◌-◌, ◌*◌, ◌%◌, ◌<◌, ◌≤◌, [], ◌∷◌, Option, none, some, ◌≡◌, ◌≢◌, ◌⊎◌, inl, inr, refl,
  arith, Bytes, length, All, Bool-cases, sym, ◌==◌,
}
use oss_mc.Strings.{equal, codes, is_empty}
use oss_mc.Strings.Laws.{equal_iff}
use oss_mc.Duration.{
  two63, two64, unit_map, negated, parse_unsigned, parse_signed, parse_duration, Result,
}
use oss_mc.Duration.Digits.{IsDigit, value}
use oss_mc.Duration.Ends.{Ends, InRange, parse_duration-Ends}
use oss_mc.Duration.Amounts.{Amounts, not_ok, read_parts-Summed}

module _ (float_part : ℕ → ℕ → ℕ → ℕ) where
  -- A text with no sign: `0`, or a row of amounts whose sum is below 2^63.
  abbrev pub IsUnsigned : Bytes → ℕ → Type 0
  IsUnsigned s r = ((s ≡ codes "0") × (r ≡ 0)) ⊎ ((s ≢ []) × Amounts float_part s r × (r < two63))

  -- The same behind a sign, or with none; below zero it is the pattern of 64 bits.
  abbrev pub IsSigned : Bytes → ℕ → Type 0
  IsSigned s d =
      IsUnsigned s d
      ⊎ (((t : Bytes) × (s ≡ b'+' ∷ t) × IsUnsigned t d)
          ⊎ ((t : Bytes) × (r : ℕ) × (s ≡ b'-' ∷ t) × IsUnsigned t r × (d ≡ (two64 - r) % two64)))

  -- The loop has ended, and a number that is returned is what the text says.
  abbrev pub Answers : Bytes → Option (Result ℕ) → Type 0
  Answers s none = ⊥
  Answers s (some (err e)) = Unit {0}
  Answers s (some (ok d)) = IsSigned s d

  module _
      (small : (ds u : Bytes) (unit : ℕ)
        → All IsDigit ds
        → unit_map u ≡ some unit
        → float_part (value 0 ds) unit (length ds) ≤ 2 * unit) where
    parse_unsigned-IsUnsigned :
        (orig s : Bytes) (r : ℕ) → parse_unsigned float_part orig s ≡ some (ok r) → IsUnsigned s r
    unfolding parse_unsigned is_empty equal
    parse_unsigned-IsUnsigned orig [] r h = absurd (not_ok float_part small r h)
    parse_unsigned-IsUnsigned orig (c ∷ s) r h = elim (Bool-cases (equal (c ∷ s) (codes "0"))) [
      | inl t ↦ inl ((equal_iff (c ∷ s) (codes "0")).0 t, ground arith)
      | inr z ↦
          let q =
            read_parts-Summed float_part small (length (c ∷ s)) orig 0 (c ∷ s) (omega arith)
              (ground arith) in
          let same : r ≡ q.total = omega (arith, q.sum) in
          inr (λ e. cc, subst (Amounts float_part (c ∷ s)) (sym same) q.amounts, q.fits)
    ]

    negated_of :
        (m : Option (Result ℕ)) (d : ℕ)
        → negated m ≡ some (ok d)
        → (r : ℕ) × (m ≡ some (ok r)) × (d ≡ (two64 - r) % two64)
    negated_of none d h = cc
    negated_of (some (err e)) d h = cc
    negated_of (some (ok r)) d h = (r, refl, ground arith)

    parse_signed-IsSigned :
        (orig s : Bytes) (d : ℕ) → parse_signed float_part orig s ≡ some (ok d) → IsSigned s d
    unfolding parse_signed
    parse_signed-IsSigned orig [] d h = inl (parse_unsigned-IsUnsigned orig [] d h)
    parse_signed-IsSigned orig (c ∷ s) d h = elim (Bool-cases (c == b'-')) [
      | inl t ↦
          let (r, e, k) = negated_of (parse_unsigned float_part orig s) d (ground arith) in
          inr (inr (s, r, ground arith, parse_unsigned-IsUnsigned orig s r e, k))
      | inr n ↦ elim (Bool-cases (c == b'+')) [
        | inl t ↦ inr (inl (s, ground arith, parse_unsigned-IsUnsigned orig s d (ground arith)))
        | inr m ↦ inl (parse_unsigned-IsUnsigned orig (c ∷ s) d (ground arith))
      ]
    ]

    parse_duration-IsSigned :
        (s : Bytes) (d : ℕ) → parse_duration float_part s ≡ some (ok d) → IsSigned s d
    unfolding parse_duration
    parse_duration-IsSigned s d h = parse_signed-IsSigned s s d (ground arith)

    ended :
        (s : Bytes) (m : Option (Result ℕ))
        → parse_duration float_part s ≡ m
        → Ends InRange m
        → Answers s m
    ended s none h e = e
    ended s (some (err x)) h e = tt
    ended s (some (ok d)) h e = parse_duration-IsSigned s d h

    -- For every text the loop ends within its rounds, and an integer that is returned is the value of
    -- the text. The floating point unit makes at most twice the unit of the digits behind a point.
    pub parse_duration-Answers : (s : Bytes) → Answers s (parse_duration float_part s)
    parse_duration-Answers s = ended s _ refl (parse_duration-Ends float_part s)
