-- ===== src/Difference/Keys.antt =====
-- Listings in ascending order of a key: what a key says of where its element may stand.
use oss_mc.Base.{
  Bool, true, false, not, List, [], ◌∷◌, ◌≡◌, refl, arith, Bytes, Bool-cases, All, keep, some_of,
  inl, inr,
}
use oss_mc.Strings.Laws.{equal_iff, less_irrefl, less_trans, less_total}
use oss_mc.Strings.{equal, less}

module _ {A : Type 0} (key : A → Bytes) where
  -- The keys ascend.
  abbrev pub IsAscending : List A → Type 0
  IsAscending [] = Unit {0}
  IsAscending (x ∷ xs) = All (λ y. less (key x) (key y) ≡ true) xs × IsAscending xs

  -- Some element has this key.
  abbrev pub has_key : Bytes → List A → Bool
  has_key k xs = some_of (λ x. equal (key x) k) xs

  pub not-has_key-above :
      (k : Bytes) (xs : List A) → All (λ y. less k (key y) ≡ true) xs → has_key k xs ≡ false
  not-has_key-above k [] h = refl
  not-has_key-above k (x ∷ xs) (h, hs) =
      ground (arith, not-has_key-above k xs hs, equal_iff (key x) k, less_irrefl k)

-- What lies above a bound lies above what is below the bound.
pub All-above :
    {A : Type 0} (key : A → Bytes) (k b : Bytes) (xs : List A)
    → less k b ≡ true
    → All (λ y. less b (key y) ≡ true) xs
    → All (λ y. less k (key y) ≡ true) xs
All-above key k b [] h u = tt
All-above key k b (x ∷ xs) h (u, us) = (less_trans k b (key x) h u, All-above key k b xs h us)

-- An element below all the keys asked for does not change which of them are there.
pub skip_low :
    {A B : Type 0} (key_a : A → Bytes) (key_b : B → Bytes) (b : B) (bs : List B) (xs : List A)
    → All (λ x. less (key_b b) (key_a x) ≡ true) xs
    → keep (λ x. not (has_key key_b (key_a x) bs)) xs
      ≡ keep (λ x. not (has_key key_b (key_a x) (b ∷ bs))) xs
skip_low key_a key_b b bs [] h = refl
skip_low key_a key_b b bs (x ∷ xs) (h, hs) =
    ground
      (arith, skip_low key_a key_b b bs xs hs, equal_iff (key_b b) (key_a x), less_irrefl (key_a x))

-- The order of two keys.
pub data Compared (k l : Bytes) : Type 0 where
  below : less k l ≡ true → Compared k l
  same : l ≡ k → less k l ≡ false → equal l k ≡ true → Compared k l
  above : less l k ≡ true → less k l ≡ false → equal l k ≡ false → Compared k l

pub compared : (k l : Bytes) → Compared k l
compared k l = elim (Bool-cases (less k l)) [
  | inl b ↦ below b
  | inr nb ↦ elim (Bool-cases (equal l k)) [
    | inl e ↦ same ((equal_iff l k).0 e) nb e
    | inr ne ↦ above (less_total k l nb (ground (arith, equal_iff l k, equal_iff k l))) nb ne
  ]
]

pub keep_one :
    {A : Type 0} (p : A → Bool) (x : A) (xs : List A) → p x ≡ true → keep p (x ∷ xs) ≡ x ∷ keep p xs
keep_one p x xs h = ground arith

pub drop_one :
    {A : Type 0} (p : A → Bool) (x : A) (xs : List A) → p x ≡ false → keep p (x ∷ xs) ≡ keep p xs
drop_one p x xs h = ground arith
