-- ===== src/Strings/Numbers.antt =====
-- `strconv.ParseUint` and `strconv.Atoi` of Go, at base 10 and 64 bits. Their errors are not told
-- apart. A negative number is the number that its 64 bits spell.
use oss_mc.Base.{
  ℕ, ◌+◌, ◌-◌, ◌*◌, ◌%◌, ◌^◌, Bool, true, false, ◌&&◌, [], ◌∷◌, Option, none, some, Bytes, ltb, leb,
  ◌==◌, if◌then◌else◌,
}

abbrev pub all_digits : Bytes → Bool
all_digits [] = true
all_digits (c ∷ s) = leb b'0' c && leb c b'9' && all_digits s

-- The number that digits spell behind `x`.
abbrev pub number : ℕ → Bytes → ℕ
number x [] = x
number x (c ∷ s) = number (x * 10 + (c - b'0')) s

unfoldable pub parse_uint : Bytes → Option ℕ
parse_uint [] = none
parse_uint (c ∷ s) =
    if all_digits (c ∷ s) && ltb (number 0 (c ∷ s)) (2 ^ 64) then some (number 0 (c ∷ s)) else none

-- the sign put in front of a magnitude
unfoldable pub signed : Bool → Option ℕ → Option ℕ
signed negative none = none
signed true (some n) = if leb n (2 ^ 63) then some ((2 ^ 64 - n) % 2 ^ 64) else none
signed false (some n) = if ltb n (2 ^ 63) then some n else none

unfoldable pub atoi : Bytes → Option ℕ
atoi [] = none
atoi (c ∷ s) =
    if c == b'-'
    then signed true (parse_uint s)
    else if c == b'+'
    then signed false (parse_uint s)
    else signed false (parse_uint (c ∷ s))
