-- ===== src/Strings/Laws.antt =====
-- Laws of the string functions: what a test or a search says of the bytes, and what it finds.
use oss_mc.Base.{
  ℕ, zero, suc, ◌-◌, ◌+◌, ◌≤◌, true, false, [], ◌∷◌, ◌++◌, none, some, ◌≡◌, ◌↔◌, ◌≢◌, ◌⊎◌, inl, inr,
  refl, sym, ap, ◌∙◌, arith, Bytes, ◌==◌, ==_iff, ==_refl, length, drop, take, drop-length,
  take-length, length-append, Lacks, Bool-cases, take-append-drop, drop_append,
}
use oss_mc.Strings.{
  equal, less, is_empty, has_prefix, trim_prefix, has_suffix, trim_suffix, index, last_index_byte,
}

pub equal_iff : (a b : Bytes) → (equal a b ≡ true) ↔ (a ≡ b)
unfolding equal
equal_iff [] [] = ground arith
equal_iff [] (y ∷ b) = ground arith
equal_iff (x ∷ a) [] = ground arith
equal_iff (x ∷ a) (y ∷ b) = ground (arith, equal_iff a b)

pub equal_refl : (a : Bytes) → equal a a ≡ true
equal_refl a = (equal_iff a a).1 refl

pub equal_ne : (a b : Bytes) → equal a b ≡ false → a ≢ b
equal_ne a b h e = cc (h, (equal_iff a b).1 e)

pub ne_equal : (a b : Bytes) → a ≢ b → equal a b ≡ false
ne_equal a b h = elim (Bool-cases (equal a b)) [
  | inl t ↦ absurd (h ((equal_iff a b).0 t))
  | inr f ↦ f
]

pub less_irrefl : (a : Bytes) → less a a ≡ false
unfolding less
less_irrefl [] = refl
less_irrefl (x ∷ a) = ground (arith, less_irrefl a)

pub less_trans : (a b c : Bytes) → less a b ≡ true → less b c ≡ true → less a c ≡ true
unfolding less
less_trans [] [] [] h k = cc
less_trans [] [] (z ∷ c) h k = refl
less_trans [] (y ∷ b) [] h k = cc
less_trans [] (y ∷ b) (z ∷ c) h k = refl
less_trans (x ∷ a) [] c h k = cc
less_trans (x ∷ a) (y ∷ b) [] h k = cc
less_trans (x ∷ a) (y ∷ b) (z ∷ c) h k = ground (arith, less_trans a b c)

-- Of two texts one is less, or they are the same.
pub less_total : (a b : Bytes) → less a b ≡ false → equal a b ≡ false → less b a ≡ true
unfolding less equal
less_total [] [] h k = cc
less_total [] (y ∷ b) h k = cc
less_total (x ∷ a) [] h k = refl
less_total (x ∷ a) (y ∷ b) h k = ground (arith, less_total a b)

pub less_asymm : (a b : Bytes) → less a b ≡ true → less b a ≡ false
less_asymm a b h = elim (Bool-cases (less b a)) [
  | inl t ↦ cc (less_trans a b a h t, less_irrefl a)
  | inr f ↦ f
]

pub has_prefix_self : (p r : Bytes) → has_prefix (p ++ r) p ≡ true
unfolding has_prefix
has_prefix_self [] r = refl
has_prefix_self (c ∷ p) r = rw ==_refl (has_prefix_self p r)

pub append_of_has_prefix : (s p : Bytes) → has_prefix s p ≡ true → s ≡ p ++ drop (length p) s
unfolding has_prefix
append_of_has_prefix s [] h = refl
append_of_has_prefix [] (b ∷ p) h = cc
append_of_has_prefix (c ∷ s) (b ∷ p) h = ground (arith, append_of_has_prefix s p)

pub trim_prefix_self : (p r : Bytes) → trim_prefix (p ++ r) p ≡ r
unfolding trim_prefix
trim_prefix_self p r = rw has_prefix_self (drop-length p r)

pub has_suffix_self : (r t : Bytes) → has_suffix (r ++ t) t ≡ true
unfolding has_suffix
has_suffix_self r t =
    let e : length (r ++ t) - length t ≡ length r = omega (arith, length-append r t) in
    rw (e, drop-length, equal_refl) (ground (arith, length-append r t))

pub append_of_has_suffix :
    (s t : Bytes) → has_suffix s t ≡ true → s ≡ take (length s - length t) s ++ t
append_of_has_suffix s t h =
    let e : drop (length s - length t) s ≡ t =
      unfold has_suffix in (equal_iff _ t).0 (ground arith) in
    sym (take-append-drop (length s - length t) s)
    ∙ ap (λ (r : Bytes). take (length s - length t) s ++ r) e

pub trim_suffix_self : (r t : Bytes) → trim_suffix (r ++ t) t ≡ r
unfolding trim_suffix
trim_suffix_self r t =
    let e : length (r ++ t) - length t ≡ length r = omega (arith, length-append r t) in
    rw (has_suffix_self, e) (take-length r t)

-- A byte is found behind what lacks it.
pub index_byte : (a s : Bytes) (b : ℕ) → Lacks b a → index (a ++ b ∷ s) (b ∷ []) ≡ some (length a)
unfolding index
index_byte [] s b h = ground arith
index_byte (c ∷ a) s b h = ground (arith, index_byte a s b)

pub index_byte_none : (a : Bytes) (b : ℕ) → Lacks b a → index a (b ∷ []) ≡ none
unfolding index
index_byte_none [] b h = refl
index_byte_none (c ∷ a) b h = ground (arith, index_byte_none a b)

pub Lacks-of_index : (a : Bytes) (b : ℕ) → index a (b ∷ []) ≡ none → Lacks b a
unfolding index
Lacks-of_index [] b h = tt
Lacks-of_index (c ∷ a) b h = ground (arith, Lacks-of_index a b)

-- What stands at the place found begins with what was looked for.
pub index_sound : (s sub : Bytes) (i : ℕ) → index s sub ≡ some i → has_prefix (drop i s) sub ≡ true
unfolding index
index_sound [] sub i h = ground arith
index_sound (c ∷ s) sub zero h = ground arith
index_sound (c ∷ s) sub (suc i) h = ground (arith, index_sound s sub i)

pub last_index_byte-none : (a : Bytes) (b : ℕ) → Lacks b a → last_index_byte a b ≡ none
unfolding last_index_byte
last_index_byte-none [] b h = refl
last_index_byte-none (c ∷ a) b h = ground (arith, last_index_byte-none a b)

extend_lacking :
    (c : ℕ) (s : Bytes) (b : ℕ)
    → c ≢ b
    → Lacks b s ⊎ ((a : Bytes) × (r : Bytes) × (s ≡ a ++ b ∷ r) × Lacks b a)
    → Lacks b (c ∷ s) ⊎ ((a : Bytes) × (r : Bytes) × (c ∷ s ≡ a ++ b ∷ r) × Lacks b a)
extend_lacking c s b ne (inl h) = inl (ne, h)
extend_lacking c s b ne (inr (a, r, e, h)) = inr (c ∷ a, r, ap (◌∷◌ c) e, (ne, h))

-- A text lacks a byte, or it can be cut at the first place of that byte.
pub byte_cases :
    (s : Bytes) (b : ℕ) → Lacks b s ⊎ ((a : Bytes) × (r : Bytes) × (s ≡ a ++ b ∷ r) × Lacks b a)
byte_cases [] b = inl tt
byte_cases (c ∷ s) b =
    let later = extend_lacking c s b in
    let rest = byte_cases s b in
    elim (Bool-cases (c == b)) [
      | inl here ↦ inr ([], s, ap (λ (x : ℕ). x ∷ s) ((==_iff c b).0 here), tt)
      | inr other ↦ later (λ e. cc (other, (==_iff c b).1 e)) rest
    ]

pub ne_nil_of_is_empty : (s : Bytes) → is_empty s ≡ false → s ≢ []
unfolding is_empty
ne_nil_of_is_empty [] h = cc
ne_nil_of_is_empty (c ∷ s) h = λ e. cc

pub Lacks-of_last_index_byte : (a : Bytes) (b : ℕ) → last_index_byte a b ≡ none → Lacks b a
unfolding last_index_byte
Lacks-of_last_index_byte [] b h = tt
Lacks-of_last_index_byte (c ∷ a) b h = ground (arith, Lacks-of_last_index_byte a b)

-- A suffix no longer than the second of two texts is a suffix of that.
pub has_suffix-append :
    (a p t : Bytes) → length t ≤ length p → has_suffix (a ++ p) t ≡ has_suffix p t
unfolding has_suffix
has_suffix-append a p t h =
    let e : length (a ++ p) - length t ≡ length a + (length p - length t) =
      omega (arith, length-append a p) in
    rw (e, drop_append a p (length p - length t)) (ground (arith, length-append a p))
