-- ===== src/Duration/Complete.antt =====
-- Durations with no fraction: every row of whole numbers with units is read.
pub mod Fractions
pub mod Signed
use native.Mathlib.Nat.{le-div_iff_mul-le}
use mathlib.Core.Path.{subst}
use oss_mc.Base.{
  ok, ℕ, zero, suc, ◌+◌, ◌-◌, ◌*◌, ◌/◌, ◌<◌, ◌≤◌, true, [], ◌∷◌, ◌++◌, some, ◌≡◌, ◌≢◌, refl, ap,
  arith, Bytes, length, length-append, length_pos, All, sym, ◌∙◌,
}
use oss_mc.Strings.{equal, codes, is_empty}
use oss_mc.Strings.Laws.{ne_equal}
use oss_mc.Duration.{
  two63, is_digit, leading_int, unit_map, span_unit, fraction, scaled, unit_of, unit_part,
  after_digits, read_part, read_parts, parse_unsigned,
}
use oss_mc.Duration.Digits.{IsDigit, value, StartsNoDigit, leading_complete}
use oss_mc.Duration.Parts.{unit_map_pos}
use oss_mc.Duration.Ends.{read_parts_step, read_parts_done}
use oss_mc.Duration.Sound.{Spells, done, part, IsUnitByte}

-- Behind a unit stands nothing, or a digit.
abbrev StartsDigit : Bytes → Type 0
StartsDigit [] = Unit {0}
StartsDigit (c ∷ s) = is_digit c ≡ true

digits_first : (ds rest : Bytes) → ds ≢ [] → All IsDigit ds → StartsDigit (ds ++ rest)
digits_first [] rest h d = absurd (h refl)
digits_first (c ∷ ds) rest h (d, _) = ground arith

Spells-StartsDigit : {s : Bytes} {total : ℕ} → Spells s total → StartsDigit s
Spells-StartsDigit done = tt
Spells-StartsDigit (part {rest = rest} ds u ns ne are unit known more e t) =
    rw e (digits_first ds (u ++ rest) ne are)

unit_map-nil : {ns : ℕ} → unit_map [] ≡ some ns → ⊥
unfolding unit_map equal
unit_map-nil h = cc h

cut_unit :
    (u rest : Bytes) → All IsUnitByte u → StartsDigit rest → span_unit (u ++ rest) ≡ (u, rest)
unfolding span_unit
cut_unit [] [] h d = refl
cut_unit [] (c ∷ rest) h d = ground arith
cut_unit (c ∷ u) rest (h, hs) d = ground (arith, cut_unit u rest hs d)

unit_of_known : (orig u : Bytes) {ns : ℕ} → unit_map u ≡ some ns → unit_of orig u ≡ ok ns
unfolding unit_of is_empty
unit_of_known orig [] h = absurd (unit_map-nil h)
unit_of_known orig (c ∷ u) h = ground arith

no_fraction_unit :
    (orig u rest : Bytes) {ns : ℕ}
    → unit_map u ≡ some ns
    → All IsUnitByte u
    → (fraction orig (u ++ rest) ≡ ok (0, 0, u ++ rest)) × StartsNoDigit (u ++ rest)
unfolding fraction
no_fraction_unit orig [] rest k h = absurd (unit_map-nil k)
no_fraction_unit orig (c ∷ u) rest k (h, hs) = (ground arith, ground arith)

nothing_spelled : (ds rest : Bytes) → ds ≢ [] → [] ≡ ds ++ rest → ⊥
nothing_spelled [] rest h e = h refl
nothing_spelled (c ∷ ds) rest h e = cc

product_bound : (v ns : ℕ) → 0 < ns → v * ns < two63 → v < two63
product_bound v ns p f = grind arith

lead_digits :
    (s ds rest : Bytes)
    → s ≡ ds ++ rest
    → All IsDigit ds
    → StartsNoDigit rest
    → value 0 ds < two63
    → leading_int s ≡ some (value 0 ds, rest)
unfolding leading_int
lead_digits s ds rest e are stops f = rw e (leading_complete ds rest 0 are stops f)

module _ (float_part : ℕ → ℕ → ℕ → ℕ) where
  scaled_whole :
      (orig : Bytes) (ns v : ℕ)
      → 0 < ns
      → v * ns < two63
      → scaled float_part orig ns v 0 0 ≡ ok (v * ns)
  unfolding scaled
  scaled_whole orig ns v p f =
      let small : v ≤ (two63 - 1) / ns = (le-div_iff_mul-le p).1 (omega arith) in ground arith

  read_unit :
      (orig u rest : Bytes) (ns v : ℕ)
      → unit_map u ≡ some ns
      → All IsUnitByte u
      → StartsDigit rest
      → v * ns < two63
      → unit_part float_part orig v (0, 0, u ++ rest) ≡ ok (v * ns, rest)
  unfolding unit_part
  read_unit orig u rest ns v k h d f =
      rw (cut_unit u rest h d, unit_of_known orig u k, scaled_whole orig ns v (unit_map_pos u k) f)

  read_steps :
      (orig : Bytes) (c : ℕ) (s : Bytes) (v : ℕ) (rest : Bytes)
      → is_digit c ≡ true
      → length rest < length (c ∷ s)
      → leading_int (c ∷ s) ≡ some (v, rest)
      → fraction orig rest ≡ ok (0, 0, rest)
      → read_part float_part orig (c ∷ s) ≡ unit_part float_part orig v (0, 0, rest)
  unfolding read_part after_digits
  read_steps orig c s v rest d l e f = ground arith

  read_part_whole :
      (orig s ds u rest : Bytes) (ns : ℕ)
      → s ≡ ds ++ (u ++ rest)
      → ds ≢ []
      → All IsDigit ds
      → All IsUnitByte u
      → unit_map u ≡ some ns
      → StartsDigit rest
      → value 0 ds * ns < two63
      → read_part float_part orig s ≡ ok (value 0 ds * ns, rest)
  read_part_whole orig [] ds u rest ns e ne are unit k d f =
      absurd (nothing_spelled ds (u ++ rest) ne e)
  read_part_whole orig (c ∷ s) ds u rest ns e ne are unit k d f =
      let (plain, stops) = no_fraction_unit orig u rest k unit in
      let lead =
        lead_digits (c ∷ s) ds (u ++ rest) e are stops
          (product_bound (value 0 ds) ns (unit_map_pos u k) f) in
      let first = subst StartsDigit (sym e) (digits_first ds (u ++ rest) ne are) in
      let longer : length (u ++ rest) < length (c ∷ s) =
        omega (arith, ap length e, length-append ds (u ++ rest), length_pos ds ne) in
      read_steps orig c s (value 0 ds) (u ++ rest) first longer lead plain
      ∙ read_unit orig u rest ns (value 0 ds) k unit d f

  step_whole :
      (fuel : ℕ) (orig : Bytes) (d w : ℕ) (s rest : Bytes)
      → read_part float_part orig s ≡ ok (w, rest)
      → d + w < two63
      → s ≢ []
      → read_parts float_part (suc fuel) orig d s ≡ read_parts float_part fuel orig (d + w) rest
  step_whole fuel orig d w [] rest h f ne = absurd (ne refl)
  step_whole fuel orig d w (c ∷ s) rest h f ne =
      read_parts_step float_part fuel orig d c s h (omega arith) ∙ ground arith

  length-part : (s ds u rest : Bytes) → s ≡ ds ++ (u ++ rest) → ds ≢ [] → length rest < length s
  length-part s ds u rest e ne =
      omega
        (arith, ap length e, length-append ds (u ++ rest), length-append u rest, length_pos ds ne)

  sum_complete :
      (fuel : ℕ) (orig : Bytes) (d : ℕ) {s : Bytes} {total : ℕ}
      → Spells s total
      → d + total < two63
      → length s ≤ fuel
      → read_parts float_part fuel orig d s ≡ some (ok (d + total))
  sum_complete fuel orig d done f l =
      read_parts_done float_part fuel orig d ∙ ap (λ (n : ℕ). some (ok n)) (omega arith)
  sum_complete zero orig d (part {s = s} {rest = rest} ds u ns ne are unit k more e t) f l =
      absurd (omega (arith, length-part s ds u rest e ne))
  sum_complete (suc fuel) orig d (part {s = s} {rest = rest} ds u ns ne are unit k more e t) f l =
      let w = value 0 ds * ns in
      let shorter = length-part s ds u rest e ne in
      step_whole fuel orig d w s rest
        (read_part_whole orig s ds u rest ns e ne are unit k (Spells-StartsDigit more)
          (omega arith))
        (omega arith) (λ z. absurd (omega (arith, ap length z)))
      ∙ sum_complete fuel orig (d + w) more (omega arith) (omega arith)
      ∙ ap (λ (n : ℕ). some (ok n)) (omega arith)

  -- A row of whole numbers with units that add up to less than 2^63 nanoseconds is accepted, and its
  -- value is that sum.
  pub parse_unsigned_complete :
      (orig s : Bytes) (total : ℕ)
      → Spells s total
      → s ≢ []
      → s ≢ codes "0"
      → total < two63
      → parse_unsigned float_part orig s ≡ some (ok total)
  unfolding parse_unsigned is_empty
  parse_unsigned_complete orig [] total sp ne z f = absurd (ne refl)
  parse_unsigned_complete orig (c ∷ s) total sp ne z f = rw (ne_equal (c ∷ s) (codes "0") z) (
      sum_complete (length (c ∷ s)) orig 0 sp (omega arith) (omega arith)
      ∙ ap (λ (n : ℕ). some (ok n)) (omega arith))
