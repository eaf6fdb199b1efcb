-- ===== src/Duration/Complete/Fractions.antt =====
-- One part of a duration of cmd/duration.go, with or without a fraction, is read in one round.
use native.Mathlib.Nat.{le-div_iff_mul-le}
use mathlib.Core.Path.{subst}
use oss_mc.Base.{
  ok, ℕ, ◌+◌, ◌-◌, ◌*◌, ◌/◌, ◌<◌, ◌≤◌, true, false, not, ◌&&◌, ◌||◌, [], ◌∷◌, ◌++◌, some, ◌≡◌, ◌≢◌,
  ◌⊎◌, inl, inr, refl, ap, arith, Bytes, length, length-append, length_pos, All, sym, ◌∙◌, ◌==◌,
}
use oss_mc.Duration.{
  two63, is_digit, leading_int, unit_map, span_unit, fraction, scaled, unit_part, after_digits,
  read_part, all_space,
}
use oss_mc.Duration.Complete.{unit_of_known, no_fraction_unit, product_bound, lead_digits}
use oss_mc.Duration.Digits.{IsDigit, value, StartsNoDigit}
use oss_mc.Duration.Amounts.{IsFraction, behind}
use oss_mc.Duration.Parts.{unit_map_pos}
use oss_mc.Duration.Sound.{IsUnitByte}

-- Behind a unit stands nothing, a digit or a point.
abbrev pub StartsPart : Bytes → Type 0
StartsPart [] = Unit {0}
StartsPart (c ∷ s) = (c == b'.' || is_digit c) ≡ true

pub StartsPart-number :
    (ds point rest : Bytes) (f n : ℕ)
    → All IsDigit ds
    → IsFraction point f n
    → (ds ≢ []) ⊎ (n ≢ 0)
    → StartsPart (ds ++ (point ++ rest))
StartsPart-number (d ∷ ds) point rest f n (h, hs) frac some_one = ground (arith, h)
StartsPart-number [] point rest f n h (inl (p, z, e)) (inl ne) = absurd (ne refl)
StartsPart-number [] point rest f n h (inl (p, z, e)) (inr ne) = absurd (ne e)
StartsPart-number [] point rest f n h (inr (ds, p, d, e, l, m)) some_one = rw p refl

cut_unit : (u rest : Bytes) → All IsUnitByte u → StartsPart rest → span_unit (u ++ rest) ≡ (u, rest)
unfolding span_unit
cut_unit [] [] h d = refl
cut_unit [] (c ∷ rest) h d = rw d refl
cut_unit (c ∷ u) rest (h, hs) d = ground (arith, cut_unit u rest hs d)

fraction_of :
    (orig point u rest : Bytes) (f n : ℕ) {ns : ℕ}
    → IsFraction point f n
    → unit_map u ≡ some ns
    → All IsUnitByte u
    → (fraction orig (point ++ (u ++ rest)) ≡ ok (f, n, u ++ rest))
      × StartsNoDigit (point ++ (u ++ rest))
fraction_of orig point u rest f n (inl (p, z, e)) k h =
    rw (p, z, e) (no_fraction_unit orig u rest k h)
fraction_of orig point u rest f n (inr (ds, p, d, e, l, m)) k h =
    let lead =
      lead_digits (ds ++ (u ++ rest)) ds (u ++ rest) refl d (no_fraction_unit orig u rest k h).1
        (omega (arith, e, l)) in
    let len = length-append ds (u ++ rest) in
    (rw p (unfold fraction in rw (lead) (ground (arith, e, m, len))), rw p refl)

seen_digits :
    (s ds rest : Bytes) (n : ℕ)
    → s ≡ ds ++ rest
    → (ds ≢ []) ⊎ (n ≢ 0)
    → (not (not (length s == length rest)) && n == 0) ≡ false
seen_digits s ds rest n e (inr ne) = ground (arith, ne)
seen_digits s ds rest n e (inl ne) =
    ground (arith, ap length e, length-append ds rest, length_pos ds ne)

pub no_part :
    (ds point rest : Bytes) (f n : ℕ)
    → IsFraction point f n
    → (ds ≢ []) ⊎ (n ≢ 0)
    → [] ≡ ds ++ (point ++ rest)
    → ⊥
no_part (d ∷ ds) point rest f n frac some_one e = cc
no_part [] (c ∷ point) rest f n frac some_one e = cc
no_part [] [] rest f n (inl a) (inl ne) e = ne refl
no_part [] [] rest f n (inl (p, y, z)) (inr ne) e = ne z
no_part [] [] rest f n (inr (ds, p, d, x, l, m)) some_one e = cc

-- A byte that begins a duration is no space, nor does one begin with it.
pub not_space : (c : ℕ) (s : Bytes) → b' ' < c → c < 0x80 → all_space (c ∷ s) ≡ false
unfolding all_space
not_space c [] l h = ground arith
not_space c (d ∷ []) l h = ground arith
not_space c (d ∷ e ∷ s) l h = ground arith

module _ (float_part : ℕ → ℕ → ℕ → ℕ) where
  scaled_sum :
      (orig : Bytes) (ns v f n : ℕ)
      → 0 < ns
      → v * ns + behind float_part f ns n < two63
      → scaled float_part orig ns v f n ≡ ok (v * ns + behind float_part f ns n)
  unfolding scaled
  scaled_sum orig ns v f n p h =
      let small : v ≤ (two63 - 1) / ns = (le-div_iff_mul-le p).1 (omega arith) in ground arith

  read_unit :
      (orig u rest : Bytes) (ns v f n : ℕ)
      → unit_map u ≡ some ns
      → All IsUnitByte u
      → StartsPart rest
      → v * ns + behind float_part f ns n < two63
      → unit_part float_part orig v (f, n, u ++ rest) ≡ ok (v * ns + behind float_part f ns n, rest)
  unfolding unit_part
  read_unit orig u rest ns v f n k h d b =
      rw
        (cut_unit u rest h d, unit_of_known orig u k, scaled_sum orig ns v f n (unit_map_pos u k) b)
        refl

  read_steps :
      (orig : Bytes) (c : ℕ) (s : Bytes) (v : ℕ) (rest tail : Bytes) (f n : ℕ)
      → (c == b'.' || is_digit c) ≡ true
      → leading_int (c ∷ s) ≡ some (v, rest)
      → fraction orig rest ≡ ok (f, n, tail)
      → (not (not (length (c ∷ s) == length rest)) && n == 0) ≡ false
      → read_part float_part orig (c ∷ s) ≡ unit_part float_part orig v (f, n, tail)
  unfolding read_part after_digits
  read_steps orig c s v rest tail f n d l e m = rw (d, l, e, m) refl

  pub read_part_of :
      (orig s ds point u rest : Bytes) (f n ns : ℕ)
      → s ≡ ds ++ (point ++ (u ++ rest))
      → All IsDigit ds
      → IsFraction point f n
      → (ds ≢ []) ⊎ (n ≢ 0)
      → All IsUnitByte u
      → unit_map u ≡ some ns
      → StartsPart rest
      → value 0 ds * ns + behind float_part f ns n < two63
      → read_part float_part orig s ≡ ok (value 0 ds * ns + behind float_part f ns n, rest)
  read_part_of orig [] ds point u rest f n ns e are frac some_one unit k d b =
      absurd (no_part ds point (u ++ rest) f n frac some_one e)
  read_part_of orig (c ∷ s) ds point u rest f n ns e are frac some_one unit k d b =
      let (cut, stops) = fraction_of orig point u rest f n frac k unit in
      let lead =
        lead_digits (c ∷ s) ds (point ++ (u ++ rest)) e are stops
          (product_bound (value 0 ds) ns (unit_map_pos u k) (omega (arith, b))) in
      let first =
        subst StartsPart (sym e) (StartsPart-number ds point (u ++ rest) f n are frac some_one) in
      read_steps orig c s (value 0 ds) (point ++ (u ++ rest)) (u ++ rest) f n first lead cut
        (seen_digits (c ∷ s) ds _ n e some_one)
      ∙ read_unit orig u rest ns (value 0 ds) f n k unit d b
