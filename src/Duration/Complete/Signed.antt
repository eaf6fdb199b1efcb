-- ===== src/Duration/Complete/Signed.antt =====
-- What `ParseDuration` of cmd/duration.go accepts, with fractions and a sign, it reads.
use mathlib.Core.Path.{subst}
use oss_mc.Base.{
  ok, err, ℕ, zero, suc, ◌+◌, ◌*◌, ◌<◌, ◌≤◌, [], ◌∷◌, ◌++◌, Option, none, some, ◌≡◌, ◌≢◌, inl, inr,
  refl, ap, arith, Bytes, length, All, sym, ◌∙◌,
}
use oss_mc.Strings.{equal, codes, is_empty}
use oss_mc.Strings.Laws.{ne_equal}
use oss_mc.Duration.{
  two63, leading_int, unit_map, span_unit, fraction, unit_of, unit_part, after_digits, read_part,
  read_parts, parse_unsigned, parse_signed, parse_duration, DurationError, missing_unit, Result,
}
use oss_mc.Duration.Complete.{step_whole}
use oss_mc.Duration.Digits.{IsDigit, value}
use oss_mc.Duration.Ends.{read_parts_done}
use oss_mc.Duration.Amounts.{behind, Amounts, done, part}
use oss_mc.Duration.Exact.{IsUnsigned, IsSigned, Answers, parse_duration-Answers}
use oss_mc.Duration.Complete.Fractions.{
  StartsPart, StartsPart-number, no_part, not_space, read_part_of,
}
use oss_mc.Duration.Parts.{read_part_fits}

module _ (float_part : ℕ → ℕ → ℕ → ℕ) where
  Amounts-StartsPart : {s : Bytes} {total : ℕ} → Amounts float_part s total → StartsPart s
  Amounts-StartsPart done = tt
  Amounts-StartsPart (part {rest = rest} ds point u f n ns are frac some_one unit k more e t) =
      rw e (StartsPart-number ds point (u ++ rest) f n are frac some_one)

  shorter :
      (orig s : Bytes) {w : ℕ} {rest : Bytes}
      → read_part float_part orig s ≡ ok (w, rest)
      → s ≢ []
      → length rest < length s
  shorter orig [] h ne = absurd (ne refl)
  shorter orig (c ∷ s) h ne = (read_part_fits float_part orig c s h).1

  sum_of :
      (fuel : ℕ) (orig : Bytes) (d : ℕ) {s : Bytes} {total : ℕ}
      → Amounts float_part s total
      → d + total < two63
      → length s ≤ fuel
      → read_parts float_part fuel orig d s ≡ some (ok (d + total))
  sum_of fuel orig d done b l =
      read_parts_done float_part fuel orig d ∙ ap (λ (n : ℕ). some (ok n)) (omega arith)
  sum_of zero orig d
        (part {s = []} {rest = rest} ds point u f n ns are frac some_one unit k more e t) b l =
      absurd (no_part ds point (u ++ rest) f n frac some_one e)
  sum_of zero orig d (part {s = c ∷ s} ds point u f n ns are frac some_one unit k more e t) b l =
      absurd (omega (arith, l))
  sum_of (suc fuel) orig d
        (part {s = s} {rest = rest} ds point u f n ns are frac some_one unit k more e t) b l =
      let w = value 0 ds * ns + behind float_part f ns n in
      let ne : s ≢ [] = λ z. no_part ds point (u ++ rest) f n frac some_one (sym z ∙ e) in
      let one =
        read_part_of float_part orig s ds point u rest f n ns e are frac some_one unit k
          (Amounts-StartsPart more) (omega (arith, b, t)) in
      let less = shorter orig s one ne in
      step_whole float_part fuel orig d w s rest one (omega (arith, b, t)) ne
      ∙ sum_of fuel orig (d + w) more (omega (arith, b, t)) (omega (arith, less, l))
      ∙ ap (λ (x : ℕ). some (ok x)) (omega (arith, t))

  sum_from_0 :
      (orig : Bytes) {s : Bytes} {total : ℕ}
      → Amounts float_part s total
      → total < two63
      → read_parts float_part (length s) orig 0 s ≡ some (ok total)
  sum_from_0 orig {s} a l =
      sum_of (length s) orig 0 a (omega (arith, l)) (omega arith)
      ∙ ap (λ (n : ℕ). some (ok n)) (omega arith)

  -- A number alone has no unit.
  zero-Amounts : {r : ℕ} → Amounts float_part (codes "0") r → r < two63 → ⊥
  unfolding read_parts read_part leading_int after_digits fraction unit_part span_unit unit_of
      is_empty
  zero-Amounts {r} a l = not_ok (sum_from_0 [] a l)
    where
      not_ok : ◌≡◌ {A = Option (Result ℕ)} (some (err (missing_unit []))) (some (ok r)) → ⊥
      not_ok h = cc

  parse_unsigned_of :
      (orig s : Bytes) (r : ℕ)
      → IsUnsigned float_part s r
      → parse_unsigned float_part orig s ≡ some (ok r)
  unfolding parse_unsigned is_empty equal
  parse_unsigned_of orig s r (inl (e, z)) = rw (e, z) refl
  parse_unsigned_of orig [] r (inr (ne, a, l)) = absurd (ne refl)
  parse_unsigned_of orig (c ∷ s) r (inr (ne, a, l)) =
      let z : (c ∷ s) ≢ codes "0" =
        λ e. zero-Amounts (subst (λ (t : Bytes). Amounts float_part t r) e a) l in
      rw (ne_equal (c ∷ s) (codes "0") z) (sum_from_0 orig a l)

  IsUnsigned-StartsPart :
      (c : ℕ) (s : Bytes) (r : ℕ) → IsUnsigned float_part (c ∷ s) r → StartsPart (c ∷ s)
  IsUnsigned-StartsPart c s r (inl (e, z)) = subst StartsPart (sym e) refl
  IsUnsigned-StartsPart c s r (inr (ne, a, l)) = Amounts-StartsPart a

  parse_duration_of :
      (s : Bytes) (d : ℕ) → IsSigned float_part s d → parse_duration float_part s ≡ some (ok d)
  unfolding parse_duration parse_signed
  parse_duration_of [] d (inl u) = absurd (no_text u)
    where
      no_text : IsUnsigned float_part [] d → ⊥
      no_text (inl (e, z)) = cc
      no_text (inr (ne, a, l)) = ne refl
  parse_duration_of (c ∷ s) d (inl u) =
      let first = IsUnsigned-StartsPart c s d u in
      let full = not_space c s (ground (arith, first)) (ground (arith, first)) in
      let read = parse_unsigned_of (c ∷ s) (c ∷ s) d u in rw full (ground (arith, first, read))
  parse_duration_of s d (inr (inl (t, e, u))) =
      rw e (rw (not_space b'+' t (omega arith) (omega arith)) (parse_unsigned_of (b'+' ∷ t) t d u))
  parse_duration_of s d (inr (inr (t, r, e, u, k))) = rw e (
      rw (not_space b'-' t (omega arith) (omega arith))
        (rw (parse_unsigned_of (b'-' ∷ t) t r u, sym k) refl))

  -- A number is returned that is the value of the text, or an error where it has none.
  abbrev pub Decides : Bytes → Option (Result ℕ) → Type 0
  Decides s none = ⊥
  Decides s (some (ok d)) = IsSigned float_part s d
  Decides s (some (err e)) = ¬ ((d : ℕ) × IsSigned float_part s d)

  not_both :
      (s : Bytes) (d : ℕ) {e : DurationError} {m : Option (Result ℕ)}
      → m ≡ some (err e)
      → m ≡ some (ok d)
      → ⊥
  not_both s d h k = cc

  decided :
      (s : Bytes) (m : Option (Result ℕ))
      → parse_duration float_part s ≡ m
      → Answers float_part s m
      → Decides s m
  decided s none h a = a
  decided s (some (ok d)) h a = a
  decided s (some (err e)) h a = λ (d, v). not_both s d h (parse_duration_of s d v)

  -- For every text the loop ends within the rounds that it is given. It gives the exact value of the
  -- text if that has one, and otherwise an error: a sign or none stands in front, and then `0` or a row
  -- of numbers, each with a unit behind it, that add up to less than 2^63 nanoseconds, the digits
  -- behind a point being a number below 2^63. What the floating point unit makes of the digits behind a
  -- point is taken as it is, and is at most twice the unit.
  pub parse_duration-Decides :
      (s : Bytes)
      → ((ds u : Bytes) (unit : ℕ)
          → All IsDigit ds
          → unit_map u ≡ some unit
          → float_part (value 0 ds) unit (length ds) ≤ 2 * unit)
      → Decides s (parse_duration float_part s)
  parse_duration-Decides s small = decided s _ refl (parse_duration-Answers float_part small s)
