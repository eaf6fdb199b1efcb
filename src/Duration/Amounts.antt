-- ===== src/Duration/Amounts.antt =====
-- Rows of amounts with fractions, and what the loop of `ParseDuration` of cmd/duration.go sums up.
use oss_mc.Base.{
  Fallible-cases, ok, err, ℕ, zero, suc, ◌+◌, ◌-◌, ◌*◌, ◌/◌, ◌<◌, ◌≤◌, false, not, ◌&&◌, [], ◌∷◌,
  ◌++◌, Option, some, ◌≡◌, ◌≢◌, ◌⊎◌, inl, inr, refl, ap, arith, Bytes, length, length-append, All,
  Option-cases, Bool-cases, sym, ◌∙◌, ◌==◌, ltb, if◌then◌else◌,
}
use oss_mc.Duration.{
  two63, day, leading_int, unit_map, span_unit, fraction, scaled, read_part, read_parts,
  DurationError, invalid_duration, Result,
}
use oss_mc.Duration.Digits.{IsDigit, value}
use oss_mc.Duration.Ends.{read_parts_step, read_parts_done, read_parts_error}
use oss_mc.Duration.Parts.{
  leading_int-Leads, product_fits, unit_part_parts, read_part_parts, after_digits_parts,
  span_unit_spells,
}
use oss_mc.Duration.Sound.{IsUnitByte, span_unit_bytes, unit_found}

-- What stands between the whole number and the unit: nothing, or a point and the `n` digits of `f`,
-- a number below 2^63.
abbrev pub IsFraction : Bytes → ℕ → ℕ → Type 0
IsFraction point f n =
    ((point ≡ []) × (f ≡ 0) × (n ≡ 0))
    ⊎ ((ds : Bytes) × (point ≡ b'.' ∷ ds)
        × All IsDigit ds
        × (f ≡ value 0 ds)
        × (f < two63)
        × (n ≡ length ds))

-- A year is the longest unit.
unit_map_le : (u : Bytes) {unit : ℕ} → unit_map u ≡ some unit → unit ≤ day * 365
unfolding unit_map
unit_map_le u h = ground arith

fraction_read :
    (orig s : Bytes) {p : ℕ × ℕ × Bytes}
    → fraction orig s ≡ ok p
    → (point : Bytes) × (s ≡ point ++ p.2) × IsFraction point p.0 p.1
unfolding fraction
fraction_read orig [] h = ([], ground arith, inl (refl, ground arith, ground arith))
fraction_read orig (c ∷ s) {p} h = elim (Bool-cases (c == b'.')) [
  | inr n ↦ ([], ground arith, inl (refl, ground arith, ground arith))
  | inl t ↦ elim (Option-cases (leading_int s)) [
    | inl n ↦ ground arith
    | inr ((f, rest), e) ↦
        let l = leading_int-Leads s e in
        let len = ap length l.spells ∙ length-append l.digits rest in
        (
          b'.' ∷ l.digits,
          ground (arith, l.spells),
          inr (
            l.digits,
            refl,
            l.are_digits,
            ground (arith, l.exact),
            ground (arith, l.exact, l.fits),
            ground (arith, len),
          ),
        )
  ]
]

module _ (float_part : ℕ → ℕ → ℕ → ℕ) where
  -- the nanoseconds of the digits behind a point
  abbrev pub behind : ℕ → ℕ → ℕ → ℕ
  behind f unit n = if ltb 0 f then float_part f unit n else 0

  -- The text is a row of numbers, each with a unit behind it and with digits in front of its point or
  -- behind it, that are `total` nanoseconds together; the sum has no bound.
  pub data Amounts : Bytes → ℕ → Type 0 where
    done : Amounts [] 0
    part :
        {s rest : Bytes} {total more : ℕ} (digits point unit : Bytes) (f n ns : ℕ)
        → All IsDigit digits
        → IsFraction point f n
        → (digits ≢ []) ⊎ (n ≢ 0)
        → All IsUnitByte unit
        → unit_map unit ≡ some ns
        → Amounts rest more
        → s ≡ digits ++ (point ++ (unit ++ rest))
        → total ≡ value 0 digits * ns + behind f ns n + more
        → Amounts s total

  module _
      (small : (ds u : Bytes) (unit : ℕ)
        → All IsDigit ds
        → unit_map u ≡ some unit
        → float_part (value 0 ds) unit (length ds) ≤ 2 * unit) where
    behind_le :
        (point u : Bytes) (f n : ℕ) {unit : ℕ}
        → IsFraction point f n
        → unit_map u ≡ some unit
        → behind f unit n ≤ 2 * unit
    behind_le point u f n (inl (_, z, _)) h = ground (arith, z)
    behind_le point u f n (inr (ds, _, d, e, _, l)) h = rw (e, l) (ground (arith, small ds u _ d h))

    whole_fits : (v unit : ℕ) → (ltb ((two63 - 1) / unit) v) ≡ false → v * unit ≤ two63 - 1
    whole_fits v unit h = ground (arith, product_fits (two63 - 1) v unit)

    scaled_is :
        (orig : Bytes) (unit v f n : ℕ) {w : ℕ}
        → unit ≤ day * 365
        → behind f unit n ≤ 2 * unit
        → scaled float_part orig unit v f n ≡ ok w
        → w ≡ v * unit + behind f unit n
    unfolding scaled
    scaled_is orig unit v f n u b h = elim (Bool-cases (ltb ((two63 - 1) / unit) v)) [
      | inl t ↦ ground arith
      | inr m ↦ ground (arith, whole_fits v unit m)
    ]

    some_front :
        (s ds rest : Bytes) (n : ℕ)
        → s ≡ ds ++ rest
        → (not (not (length s == length rest)) && n == 0) ≡ false
        → (ds ≢ []) ⊎ (n ≢ 0)
    some_front s (d ∷ ds) rest n e h = inl (λ k. cc)
    some_front s [] rest n e h = inr (λ z. ground (arith, ap length e, z))

    -- One part that was read: the text up to the rest, and the nanoseconds added.
    read_part_amount :
        (orig : Bytes) (c : ℕ) (s : Bytes) {q : ℕ × Bytes} {more : ℕ}
        → read_part float_part orig (c ∷ s) ≡ ok q
        → Amounts q.1 more
        → Amounts (c ∷ s) (q.0 + more)
    read_part_amount orig c s {q} {more} h rest_read =
        let (lead, (v, rest), e, k) = read_part_parts float_part orig c s h in
        let l = leading_int-Leads (c ∷ s) e in
        let ((f, n, tail), g, seen, m) =
          after_digits_parts float_part orig (not (length (c ∷ s) == length rest)) v rest k in
        let (point, cut, frac) = fraction_read orig rest g in
        let (ns, u, w, back) = unit_part_parts float_part orig v f n tail m in
        let known = unit_found orig _ u in
        let exact =
          scaled_is orig ns v f n (unit_map_le _ known) (behind_le point _ f n frac known) w in
        part l.digits point (span_unit tail).0 f n ns l.are_digits frac
          (some_front (c ∷ s) l.digits rest n l.spells seen) (span_unit_bytes tail) known rest_read
          (l.spells
            ∙ ap (λ (t : Bytes). l.digits ++ t)
                (cut
                  ∙ ap (λ (t : Bytes). point ++ t)
                      (span_unit_spells tail
                        ∙ ap (λ (t : Bytes). (span_unit tail).0 ++ t) (sym back))))
          (ap (λ (x : ℕ). x + more) (exact ∙ ap (λ (x : ℕ). x * ns + behind f ns n) l.exact))

    -- A sum that was returned is the true one.
    pub record Summed (s : Bytes) (d r : ℕ) : Type 0 where
      pub total : ℕ
      pub amounts : Amounts s total
      pub sum : r ≡ d + total
      pub fits : r < two63

    more_parts :
        (fuel : ℕ) (orig : Bytes) (d : ℕ) (q : ℕ × Bytes) {r : ℕ}
        → (if ltb (d + q.0) two63
            then read_parts float_part fuel orig (d + q.0) q.1
            else some (err (invalid_duration orig)))
          ≡ some (ok r)
        → (d + q.0 < two63) × (read_parts float_part fuel orig (d + q.0) q.1 ≡ some (ok r))
    more_parts fuel orig d q h = ground arith

    pub not_ok :
        (r : ℕ) {e : DurationError} → ◌≡◌ {A = Option (Result ℕ)} (some (err e)) (some (ok r)) → ⊥
    not_ok r h = cc

    Summed-done :
        {d r : ℕ}
        → ◌≡◌ {A = Option (Result ℕ)} (some (ok d)) (some (ok r))
        → d < two63
        → Summed [] d r
    Summed-done {d} {r} h f = record {
      total = 0;
      amounts = done;
      sum = ground arith;
      fits = ground arith;
    }

    pub read_parts-Summed :
        (fuel : ℕ) (orig : Bytes) (d : ℕ) (s : Bytes) {r : ℕ}
        → d < two63
        → read_parts float_part fuel orig d s ≡ some (ok r)
        → Summed s d r
    read_parts-Summed fuel orig d [] f h =
        Summed-done (rw (read_parts_done float_part fuel orig d) at h) f
    read_parts-Summed zero orig d (c ∷ s) f h = unfold read_parts in cc h
    read_parts-Summed (suc fuel) orig d (c ∷ s) {r} f h =
        elim (Fallible-cases (read_part float_part orig (c ∷ s))) [
          | inl (e, k) ↦ absurd (not_ok r (sym (read_parts_error float_part fuel orig d c s k) ∙ h))
          | inr (q, k) ↦
              let (fits, next) =
                more_parts fuel orig d q
                  (sym (read_parts_step float_part fuel orig d c s k f) ∙ h) in
              let m = read_parts-Summed fuel orig (d + q.0) q.1 fits next in
              record {
                total = q.0 + m.total;
                amounts = read_part_amount orig c s k m.amounts;
                sum = omega (arith, m.sum);
                fits = m.fits;
              }
        ]
