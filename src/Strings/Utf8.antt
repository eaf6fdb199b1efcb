-- ===== src/Strings/Utf8.antt =====
-- `utf8.ValidString`: which bytes are the encoding of a text. A lead byte says how many bytes
-- follow it and the range of the first of these; the others lie between 0x80 and 0xBF.
use oss_mc.Base.{
  ℕ, zero, suc, Bool, true, false, ◌&&◌, [], ◌∷◌, Option, none, some, ◌≡◌, refl, arith, Bytes, leb,
  ◌==◌, if◌then◌else◌, ◌<◌, All,
}

abbrev Follow : Type 0
Follow = ℕ × ℕ × ℕ

lead : ℕ → Option Follow
lead c =
    if leb c 0x7F
    then some (0, 0x80, 0xBF)
    else if leb c 0xC1
    then none
    else if leb c 0xDF
    then some (1, 0x80, 0xBF)
    else if c == 0xE0
    then some (2, 0xA0, 0xBF)
    else if c == 0xED
    then some (2, 0x80, 0x9F)
    else if leb c 0xEF
    then some (2, 0x80, 0xBF)
    else if c == 0xF0
    then some (3, 0x90, 0xBF)
    else if leb c 0xF3
    then some (3, 0x80, 0xBF)
    else if c == 0xF4
    then some (3, 0x80, 0x8F)
    else none

valid_from : ℕ → ℕ → ℕ → Bytes → Bool
valid_from zero lo hi [] = true
valid_from (suc n) lo hi [] = false
valid_from (suc n) lo hi (c ∷ s) = leb lo c && leb c hi && valid_from n 0x80 0xBF s
valid_from zero lo hi (c ∷ s) = elim (lead c) [ none ↦ false | some (n, l, h) ↦ valid_from n l h s ]

unfoldable pub valid_string : Bytes → Bool
unfolding valid_from lead
valid_string s = valid_from 0 0 0 s

valid_from_ascii : (lo hi : ℕ) (s : Bytes) → All (λ c. c < 0x80) s → valid_from 0 lo hi s ≡ true
unfolding valid_from lead
valid_from_ascii lo hi [] h = refl
valid_from_ascii lo hi (c ∷ s) h = ground (arith, valid_from_ascii 0x80 0xBF s)

-- A text of ASCII bytes is valid.
pub valid_string_ascii : (s : Bytes) → All (λ c. c < 0x80) s → valid_string s ≡ true
unfolding valid_string
valid_string_ascii s h = valid_from_ascii 0 0 s h
