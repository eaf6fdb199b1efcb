-- ===== src/Parallel/Tally.antt =====
-- Numbers of the tasks of cmd/parallel-manager.go that pass a test.
use oss_mc.Base.{
  ℕ, zero, suc, ◌+◌, ◌≡◌, arith, Bool, true, false, not, List, [], ◌∷◌, ◌++◌, Option, none, some,
  length, some_same, none_ne_some, Option-cases, inl, inr, ◌∙◌, ap, sym, refl, ◌<◌,
}
use oss_mc.Parallel.{put_back, pick}

abbrev pub one_if : Bool → ℕ
one_if true = 1
one_if false = 0

module _ {ℓ} {A : Type ℓ} where
  -- the number of elements that pass the test
  abbrev pub tally : (A → Bool) → List A → ℕ
  tally p [] = 0
  tally p (x ∷ xs) = one_if (p x) + tally p xs

  pub tally-append : (p : A → Bool) (xs ys : List A) → tally p (xs ++ ys) ≡ tally p xs + tally p ys
  tally-append p [] ys = omega arith
  tally-append p (x ∷ xs) ys = omega (arith, tally-append p xs ys)

  pub length-tally :
      (p : A → Bool) (xs : List A) → length xs ≡ tally p xs + tally (λ x. not (p x)) xs
  length-tally p [] = refl
  length-tally p (x ∷ xs) = ground (arith, length-tally p xs)

  put_back-some :
      (x : A) (o : Option (A × List A)) {y : A} {rest : List A}
      → put_back x o ≡ some (y, rest)
      → (others : List A) × ((o ≡ some (y, others)) × (rest ≡ x ∷ others))
  put_back-some x none h = absurd (none_ne_some h)
  put_back-some x (some (z, zs)) {y} {rest} h =
      let e = some_same h in (zs, (ap (λ u. some (u.0, zs)) e, sym (ap (λ u. u.1) e)))

  -- Picking an element takes just it away.
  pub tally-pick :
      (p : A → Bool) (n : ℕ) (xs : List A) {x : A} {rest : List A}
      → pick n xs ≡ some (x, rest)
      → tally p xs ≡ one_if (p x) + tally p rest
  unfolding pick
  tally-pick p n [] h = absurd (none_ne_some h)
  tally-pick p zero (y ∷ xs) {x} {rest} h = ap (λ u. one_if (p u.0) + tally p u.1) (some_same h)
  tally-pick p (suc n) (y ∷ xs) {x} {rest} h =
      let c = put_back-some y (pick n xs) h in
      omega (arith, ap (tally p) c.1.1, tally-pick p n xs c.1.0)

  pub length-pick :
      (n : ℕ) (xs : List A) {x : A} {rest : List A}
      → pick n xs ≡ some (x, rest)
      → length xs ≡ suc (length rest)
  length-pick n xs {x} {rest} h =
      let all = λ (y : A). true in
      let none_of = λ (y : A). not (all y) in
      omega (
        arith,
        tally-pick all n xs h,
        tally-pick none_of n xs h,
        length-tally all xs,
        length-tally all rest,
      )

  -- A list that is not empty has a first element.
  pub pick-first :
      (xs : List A) → 0 < length xs → (x : A) × ((rest : List A) × (pick 0 xs ≡ some (x, rest)))
  unfolding pick
  pick-first [] h = absurd (omega (arith, h))
  pick-first (x ∷ xs) h = (x, (xs, refl))

  -- What goes on with a picked element picked it.
  pub picked {κ} :
      {B : Type κ} (n : ℕ) (xs : List A) (next : A × List A → Option B) {b : B}
      → elim (pick n xs) [ none ↦ none | some q ↦ next q ] ≡ some b
      → (x : A) × ((rest : List A) × ((pick n xs ≡ some (x, rest)) × (next (x, rest) ≡ some b)))
  picked n xs next h = elim (Option-cases (pick n xs)) [
    | inl e ↦ absurd (none_ne_some (sym (rw e refl) ∙ h))
    | inr (q, e) ↦ (q.0, (q.1, (e, sym (rw e refl) ∙ h)))
  ]
