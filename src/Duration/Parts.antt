-- ===== src/Duration/Parts.antt =====
-- One round of the loop of `ParseDuration`: it reads a byte at least and yields a number of
-- nanoseconds in range.
use oss_mc.Base.{
  ok, >>=-ok, ℕ, ◌-◌, ◌*◌, ◌/◌, ◌<◌, ◌≤◌, Bool, true, false, not, ◌&&◌, ◌||◌, [], ◌∷◌, ◌++◌, some,
  ◌≡◌, ◌≢◌, inl, inr, refl, ap, arith, Bytes, length, length-append, length_pos, Option-cases, ◌==◌,
}
use oss_mc.Strings.{is_empty}
use oss_mc.Duration.{
  two63, is_digit, leading_int, unit_map, span_unit, fraction, scaled, unit_of, unit_part,
  after_digits, read_part,
}
use oss_mc.Duration.Digits.{Leads, leading_sound}

-- The text cut where its unit ends.
pub span_unit_spells : (s : Bytes) → s ≡ (span_unit s).0 ++ (span_unit s).1
unfolding span_unit
span_unit_spells [] = refl
span_unit_spells (c ∷ s) = ground (arith, span_unit_spells s)

pub leading_int-Leads :
    (s : Bytes) {v : ℕ} {rest : Bytes} → leading_int s ≡ some (v, rest) → Leads 0 s v rest
unfolding leading_int
leading_int-Leads s h = leading_sound s 0 (omega arith) h

pub length-Leads : {x v : ℕ} {s rest : Bytes} → Leads x s v rest → length rest ≤ length s
length-Leads {s} {rest} l = omega (arith, ap length l.spells, length-append l.digits rest)

fraction_le : (orig s : Bytes) {p : ℕ × ℕ × Bytes} → fraction orig s ≡ ok p → length p.2 ≤ length s
unfolding fraction
fraction_le orig [] h = ground arith
fraction_le orig (c ∷ s) {p} h = elim (Option-cases (leading_int s)) [
  | inl n ↦ ground arith
  | inr ((v, rest), e) ↦ ground (arith, length-Leads (leading_int-Leads s e))
]

pub unit_of-ne-nil : (orig u : Bytes) {unit : ℕ} → unit_of orig u ≡ ok unit → u ≢ []
unfolding unit_of is_empty
unit_of-ne-nil orig [] h = cc
unit_of-ne-nil orig (c ∷ u) h = λ e. cc

-- A unit is at least a nanosecond.
pub unit_map_pos : (u : Bytes) {unit : ℕ} → unit_map u ≡ some unit → 0 < unit
unfolding unit_map
unit_map_pos u h = ground arith

-- A factor that passes the test for overflow.
pub product_fits : (m v unit : ℕ) → v ≤ m / unit → v * unit ≤ m
product_fits m v unit h = grind arith

module _ (float_part : ℕ → ℕ → ℕ → ℕ) where
  scaled_fits :
      (orig : Bytes) (unit v f n : ℕ) {w : ℕ}
      → scaled float_part orig unit v f n ≡ ok w
      → 0 < unit
      → w < two63
  unfolding scaled
  scaled_fits orig unit v f n h u = ground (arith, product_fits (two63 - 1) v unit)

  -- What stands behind a part that was read.
  pub after_digits_parts :
      (orig : Bytes) (pre : Bool) (v : ℕ) (s : Bytes) {r : ℕ × Bytes}
      → after_digits float_part orig pre v s ≡ ok r
      → (p : ℕ × ℕ × Bytes) × (fraction orig s ≡ ok p)
        × ((not pre && p.1 == 0) ≡ false)
        × (unit_part float_part orig v p ≡ ok r)
  unfolding after_digits
  after_digits_parts orig pre v s h =
      let (p, (e, k)) = >>=-ok _ (fraction orig s) h in (p, e, ground arith, ground arith)

  pub unit_part_parts :
      (orig : Bytes) (v f n : ℕ) (s : Bytes) {r : ℕ × Bytes}
      → unit_part float_part orig v (f, n, s) ≡ ok r
      → (unit : ℕ) × (unit_of orig (span_unit s).0 ≡ ok unit)
        × (scaled float_part orig unit v f n ≡ ok r.0)
        × (r.1 ≡ (span_unit s).1)
  unfolding unit_part
  unit_part_parts orig v f n s h =
      let (unit, (e, k)) = >>=-ok _ (unit_of orig (span_unit s).0) h in
      let (w, (d, l)) = >>=-ok _ (scaled float_part orig unit v f n) k in
      (unit, e, ground arith, ground arith)

  unit_of_pos : (orig u : Bytes) {unit : ℕ} → unit_of orig u ≡ ok unit → unit_map u ≡ some unit
  unfolding unit_of
  unit_of_pos orig u h = ground arith

  pub unit_part_fits :
      (orig : Bytes) (v : ℕ) (p : ℕ × ℕ × Bytes) {r : ℕ × Bytes}
      → unit_part float_part orig v p ≡ ok r
      → (r.0 < two63) × (length r.1 < length p.2)
  unit_part_fits orig v (f, n, s) {r} h =
      let (unit, u, w, e) = unit_part_parts orig v f n s h in
      (
        scaled_fits orig unit v f n w (unit_map_pos _ (unit_of_pos orig _ u)),
        omega (
          arith,
          ap length e,
          ap length (span_unit_spells s),
          length-append (span_unit s).0 (span_unit s).1,
          length_pos (span_unit s).0 (unit_of-ne-nil orig _ u),
        ),
      )

  pub read_part_parts :
      (orig : Bytes) (c : ℕ) (s : Bytes) {r : ℕ × Bytes}
      → read_part float_part orig (c ∷ s) ≡ ok r
      → ((c == b'.' || is_digit c) ≡ true)
        × (q : ℕ × Bytes) × (leading_int (c ∷ s) ≡ some q)
        × (after_digits float_part orig (not (length (c ∷ s) == length q.1)) q.0 q.1 ≡ ok r)
  unfolding read_part
  read_part_parts orig c s h = elim (Option-cases (leading_int (c ∷ s))) [
    | inl n ↦ ground arith
    | inr (q, e) ↦ (ground arith, q, e, ground arith)
  ]

  pub read_part_fits :
      (orig : Bytes) (c : ℕ) (s : Bytes) {r : ℕ × Bytes}
      → read_part float_part orig (c ∷ s) ≡ ok r
      → (r.0 < two63) × (length r.1 < length (c ∷ s))
  read_part_fits orig c s h =
      let (lead, (v, rest), e, k) = read_part_parts orig c s h in
      let (p, f, pre, l) = after_digits_parts orig (not (length (c ∷ s) == length rest)) v rest k in
      let (fits, shorter) = unit_part_fits orig v p l in
      (
        fits,
        omega (arith, shorter, fraction_le orig rest f, length-Leads (leading_int-Leads (c ∷ s) e)),
      )
