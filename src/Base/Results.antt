-- ===== src/Base/Results.antt =====
-- A value or an error, for Go's pairs of a result and an `error`.
use mathlib.Core.Logic.{◌⊎◌, inl, inr}
use mathlib.Core.Path.{◌≡◌, refl}

pub data Fallible {ℓ} (E : Type 0) (A : Type ℓ) : Type ℓ where
  ok : A → Fallible E A
  err : E → Fallible E A

module _ {E : Type 0} where
  infixl 5 ◌>>=◌
  -- `if err != nil { return err }`
  abbrev pub ◌>>=◌ {ℓ κ} :
      {A : Type ℓ} {B : Type κ} → Fallible E A → (A → Fallible E B) → Fallible E B
  err e >>= next = err e
  ok a >>= next = next a

  -- Either an error was returned, or a value was.
  pub Fallible-cases {ℓ} :
      {A : Type ℓ} (r : Fallible E A) → ((e : E) × (r ≡ err e)) ⊎ ((a : A) × (r ≡ ok a))
  Fallible-cases (err e) = inl (e, refl)
  Fallible-cases (ok a) = inr (a, refl)

  -- A chain that returned a value did so at each step.
  pub >>=-ok {ℓ κ} :
      {A : Type ℓ} {B : Type κ} {b : B} (next : A → Fallible E B) (r : Fallible E A)
      → (r >>= next) ≡ ok b
      → (a : A) × ((r ≡ ok a) × (next a ≡ ok b))
  >>=-ok next (err e) h = cc
  >>=-ok next (ok a) h = (a, (refl, h))
