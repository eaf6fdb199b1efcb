-- ===== src/Duration/Sound.antt =====
-- Durations with no fraction: what `ParseDuration` accepts, and that its value is the exact sum.
use mathlib.Core.Path.{subst}
use oss_mc.Base.{
  Fallible-cases, ok, err, ℕ, zero, suc, ◌+◌, ◌-◌, ◌*◌, ◌<◌, Bool, true, false, not, ◌||◌, List, [],
  ◌∷◌, ◌++◌, Option, some, ◌≡◌, ◌≢◌, ◌⊎◌, inl, inr, refl, ap, arith, Bytes, length, All, Lacks,
  Bool-cases, sym, ◌∙◌, ◌==◌, ltb, if◌then◌else◌,
}
use oss_mc.Strings.{equal, codes, is_empty}
use oss_mc.Strings.Laws.{equal_iff}
use oss_mc.Duration.{
  two63, is_digit, unit_map, span_unit, fraction, scaled, unit_of, unit_part, after_digits,
  read_part, read_parts, parse_unsigned, DurationError, invalid_duration, Result,
}
use oss_mc.Duration.Digits.{IsDigit, value}
use oss_mc.Duration.Parts.{
  leading_int-Leads, product_fits, unit_part_parts, read_part_parts, span_unit_spells,
}
use oss_mc.Duration.Ends.{read_parts_step, read_parts_done, read_parts_error}

abbrev pub IsUnitByte : ℕ → Type 0
IsUnitByte c = (c == b'.' || is_digit c) ≡ false

-- The text is a row of whole numbers, each with a unit behind it, that are `total` nanoseconds
-- together.
pub data Spells : Bytes → ℕ → Type 0 where
  done : Spells [] 0
  part :
      {s rest : Bytes} {total more : ℕ} (digits unit : Bytes) (ns : ℕ)
      → digits ≢ []
      → All IsDigit digits
      → All IsUnitByte unit
      → unit_map unit ≡ some ns
      → Spells rest more
      → s ≡ digits ++ (unit ++ rest)
      → total ≡ value 0 digits * ns + more
      → Spells s total

pub span_unit_bytes : (s : Bytes) → All IsUnitByte (span_unit s).0
unfolding span_unit
span_unit_bytes [] = tt
span_unit_bytes (c ∷ s) = ground (arith, span_unit_bytes s)

no_fraction : (orig s : Bytes) → Lacks b'.' s → fraction orig s ≡ ok (0, 0, s)
unfolding fraction
no_fraction orig [] h = refl
no_fraction orig (c ∷ s) h = ground arith

All-second {ℓ κ} : {A : Type ℓ} (P : A → Type κ) (xs ys : List A) → All P (xs ++ ys) → All P ys
All-second P [] ys h = h
All-second P (x ∷ xs) ys h = All-second P xs ys h.1

pub unit_found : (orig u : Bytes) {ns : ℕ} → unit_of orig u ≡ ok ns → unit_map u ≡ some ns
unfolding unit_of
unit_found orig u h = ground arith

module _ (float_part : ℕ → ℕ → ℕ → ℕ) where
  scaled_exact :
      (orig : Bytes) (unit v : ℕ) {w : ℕ} → scaled float_part orig unit v 0 0 ≡ ok w → w ≡ v * unit
  unfolding scaled
  scaled_exact orig unit v h = ground (arith, product_fits (two63 - 1) v unit)

  -- A part that was read, if no point stands in the text.
  record ReadAs (s : Bytes) (w : ℕ) (rest : Bytes) : Type 0 where
    digits : Bytes
    unit : Bytes
    ns : ℕ
    some_digits : digits ≢ []
    are_digits : All IsDigit digits
    are_unit : All IsUnitByte unit
    known : unit_map unit ≡ some ns
    spells : s ≡ digits ++ (unit ++ rest)
    exact : w ≡ value 0 digits * ns

  after_plain :
      (orig : Bytes) (pre : Bool) (v : ℕ) (s : Bytes) {r : ℕ × Bytes}
      → fraction orig s ≡ ok (0, 0, s)
      → after_digits float_part orig pre v s ≡ ok r
      → (pre ≡ true) × (unit_part float_part orig v (0, 0, s) ≡ ok r)
  unfolding after_digits
  after_plain orig pre v s e h = ground arith

  some_digits_read :
      (s ds rest : Bytes) → s ≡ ds ++ rest → not (length s == length rest) ≡ true → ds ≢ []
  some_digits_read s [] rest e h = λ _. ground (arith, ap length e)
  some_digits_read s (d ∷ ds) rest e h = λ k. cc

  read_part_as :
      (orig : Bytes) (c : ℕ) (s : Bytes) {r : ℕ × Bytes}
      → Lacks b'.' (c ∷ s)
      → read_part float_part orig (c ∷ s) ≡ ok r
      → ReadAs (c ∷ s) r.0 r.1
  read_part_as orig c s {r} no_point h =
      let (lead, (v, rest), e, k) = read_part_parts float_part orig c s h in
      let l = leading_int-Leads (c ∷ s) e in
      let plain =
        no_fraction orig rest (All-second _ l.digits rest (subst (Lacks b'.') l.spells no_point)) in
      let (pre, m) = after_plain orig (not (length (c ∷ s) == length rest)) v rest plain k in
      let (ns, u, w, back) = unit_part_parts float_part orig v 0 0 rest m in
      record {
        digits = l.digits;
        unit = (span_unit rest).0;
        ns = ns;
        some_digits = some_digits_read (c ∷ s) l.digits rest l.spells pre;
        are_digits = l.are_digits;
        are_unit = span_unit_bytes rest;
        known = unit_found orig _ u;
        spells =
            l.spells
            ∙ ap (λ (t : Bytes). l.digits ++ t)
                (span_unit_spells rest ∙ ap (λ (t : Bytes). (span_unit rest).0 ++ t) (sym back));
        exact = scaled_exact orig ns v w ∙ ap (λ (n : ℕ). n * ns) l.exact;
      }

  -- A sum that was returned is the true one.
  record Summed (s : Bytes) (d r : ℕ) : Type 0 where
    total : ℕ
    spelled : Spells s total
    sum : r ≡ d + total
    fits : r < two63

  Summed-part :
      {s rest : Bytes} {d w r : ℕ} → ReadAs s w rest → Summed rest (d + w) r → Summed s d r
  Summed-part {d = d} {w = w} a m = record {
    total = w + m.total;
    spelled =
        part a.digits a.unit a.ns a.some_digits a.are_digits a.are_unit a.known m.spelled a.spells
          (ap (λ (n : ℕ). n + m.total) a.exact);
    sum = omega (arith, m.sum);
    fits = m.fits;
  }

  not_ok :
      (r : ℕ) {e : DurationError} → ◌≡◌ {A = Option (Result ℕ)} (some (err e)) (some (ok r)) → ⊥
  not_ok r h = cc

  Summed-done :
      {d r : ℕ}
      → ◌≡◌ {A = Option (Result ℕ)} (some (ok d)) (some (ok r))
      → d < two63
      → Summed [] d r
  Summed-done {d} {r} h f = record {
    total = 0;
    spelled = done;
    sum = ground arith;
    fits = ground arith;
  }

  rest-Lacks : {s rest : Bytes} {w : ℕ} → Lacks b'.' s → ReadAs s w rest → Lacks b'.' rest
  rest-Lacks {rest = rest} n a =
      All-second _ a.unit rest
        (All-second _ a.digits (a.unit ++ rest) (subst (Lacks b'.') a.spells n))

  more_parts :
      (fuel : ℕ) (orig : Bytes) (d : ℕ) (q : ℕ × Bytes) {r : ℕ}
      → (if ltb (d + q.0) two63
          then read_parts float_part fuel orig (d + q.0) q.1
          else some (err (invalid_duration orig)))
        ≡ some (ok r)
      → (d + q.0 < two63) × (read_parts float_part fuel orig (d + q.0) q.1 ≡ some (ok r))
  more_parts fuel orig d q h = ground arith

  sum_sound :
      (fuel : ℕ) (orig : Bytes) (d : ℕ) (s : Bytes) {r : ℕ}
      → d < two63
      → Lacks b'.' s
      → read_parts float_part fuel orig d s ≡ some (ok r)
      → Summed s d r
  sum_sound fuel orig d [] f n h = Summed-done (rw (read_parts_done float_part fuel orig d) at h) f
  sum_sound zero orig d (c ∷ s) f n h = unfold read_parts in cc h
  sum_sound (suc fuel) orig d (c ∷ s) {r} f n h =
      elim (Fallible-cases (read_part float_part orig (c ∷ s))) [
        | inl (e, k) ↦ absurd (not_ok r (sym (read_parts_error float_part fuel orig d c s k) ∙ h))
        | inr (q, k) ↦
            let a = read_part_as orig c s n k in
            let (fits, more) =
              more_parts fuel orig d q (sym (read_parts_step float_part fuel orig d c s k f) ∙ h) in
            Summed-part a (sum_sound fuel orig (d + q.0) q.1 fits (rest-Lacks n a) more)
      ]

  -- An accepted text with no sign and no point in it is `0`, or a row of whole numbers with units,
  -- and the value returned is their exact sum, below 2^63.
  pub parse_unsigned_sound :
      (orig s : Bytes) (r : ℕ)
      → Lacks b'.' s
      → parse_unsigned float_part orig s ≡ some (ok r)
      → ((s ≡ codes "0") × (r ≡ 0)) ⊎ (Spells s r × (r < two63))
  unfolding parse_unsigned
  parse_unsigned_sound orig s r n h = elim (Bool-cases (equal s (codes "0"))) [
    | inl t ↦ inl ((equal_iff s (codes "0")).0 t, ground arith)
    | inr z ↦ elim (Bool-cases (is_empty s)) [
      | inl t ↦ absurd (not_ok r {e = invalid_duration orig} (ground arith))
      | inr m ↦
          let q = sum_sound (length s) orig 0 s (omega arith) n (ground arith) in
          let same : r ≡ q.total = omega (arith, q.sum) in
          inr (subst (Spells s) (sym same) q.spelled, q.fits)
    ]
  ]
