-- ===== src/Duration/Digits.antt =====
-- `leadingInt` reads the digits in front of a text, exactly and with no overflow.
use oss_mc.Base.{
  ℕ, ◌+◌, ◌-◌, ◌*◌, ◌<◌, ◌≤◌, true, false, [], ◌∷◌, ◌++◌, some, ◌≡◌, refl, ap, arith, Bytes, All,
  Bool-cases, sym, inl, inr,
}
use oss_mc.Duration.{two63, is_digit, leading_from}

abbrev pub IsDigit : ℕ → Type 0
IsDigit c = (b'0' ≤ c) × (c ≤ b'9')

-- The number that digits spell behind `x`, with no bound.
abbrev pub value : ℕ → Bytes → ℕ
value x [] = x
value x (c ∷ s) = value (x * 10 + (c - b'0')) s

abbrev pub StartsNoDigit : Bytes → Type 0
StartsNoDigit [] = Unit {0}
StartsNoDigit (c ∷ s) = is_digit c ≡ false

pub le-value : (s : Bytes) (x : ℕ) → x ≤ value x s
le-value [] x = omega arith
le-value (c ∷ s) x = omega (arith, le-value s (x * 10 + (c - b'0')))

-- What is read from `s` behind `x`: the digits, the number and the rest.
pub record Leads (x : ℕ) (s : Bytes) (v : ℕ) (rest : Bytes) : Type 0 where
  pub digits : Bytes
  pub spells : s ≡ digits ++ rest
  pub are_digits : All IsDigit digits
  pub exact : v ≡ value x digits
  pub fits : v < two63
  pub stops : StartsNoDigit rest

Leads-cons :
    {x c : ℕ} {s rest : Bytes} {v : ℕ}
    → IsDigit c
    → Leads (x * 10 + (c - b'0')) s v rest
    → Leads x (c ∷ s) v rest
Leads-cons {x} {c} d l = record {
  digits = c ∷ l.digits;
  spells = ap (◌∷◌ c) l.spells;
  are_digits = (d, l.are_digits);
  exact = l.exact;
  fits = l.fits;
  stops = l.stops;
}

leading_step :
    (x c : ℕ) (s : Bytes) {r : ℕ × Bytes}
    → is_digit c ≡ true
    → leading_from x (c ∷ s) ≡ some r
    → (x * 10 + (c - b'0') < two63) × (leading_from (x * 10 + (c - b'0')) s ≡ some r)
unfolding leading_from
leading_step x c s d h = ground arith

leading_stop :
    (x c : ℕ) (s : Bytes) {r : ℕ × Bytes}
    → is_digit c ≡ false
    → leading_from x (c ∷ s) ≡ some r
    → r ≡ (x, c ∷ s)
unfolding leading_from
leading_stop x c s d h = ground arith

Leads-here :
    {x : ℕ} {s : Bytes} {v : ℕ} {rest : Bytes}
    → v ≡ x
    → rest ≡ s
    → x < two63
    → StartsNoDigit s
    → Leads x s v rest
Leads-here {x} {s} {v} {rest} e k f n = record {
  digits = [];
  spells = sym k;
  are_digits = tt;
  exact = e;
  fits = omega arith;
  stops = rw k n;
}

pub leading_sound :
    (s : Bytes) (x : ℕ) {v : ℕ} {rest : Bytes}
    → x < two63
    → leading_from x s ≡ some (v, rest)
    → Leads x s v rest
leading_sound [] x f h = unfold leading_from in Leads-here (ground arith) (ground arith) f tt
leading_sound (c ∷ s) x {v} {rest} f h = elim (Bool-cases (is_digit c)) [
  | inl d ↦
      let (fit, more) = leading_step x c s d h in
      Leads-cons (ground arith) (leading_sound s (x * 10 + (c - b'0')) fit more)
  | inr n ↦
      let e = leading_stop x c s n h in
      Leads-here (ap (λ (r : ℕ × Bytes). r.0) e) (ap (λ (r : ℕ × Bytes). r.1) e) f n
]

pub leading_complete :
    (ds rest : Bytes) (x : ℕ)
    → All IsDigit ds
    → StartsNoDigit rest
    → value x ds < two63
    → leading_from x (ds ++ rest) ≡ some (value x ds, rest)
unfolding leading_from
leading_complete [] [] x d n f = refl
leading_complete [] (c ∷ rest) x d n f = ground arith
leading_complete (c ∷ ds) rest x (d, ds') n f = ground (
  arith,
  leading_complete ds rest (x * 10 + (c - b'0')) ds' n f,
  le-value ds (x * 10 + (c - b'0')),
)
