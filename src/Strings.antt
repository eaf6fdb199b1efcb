-- ===== src/Strings.antt =====
-- What the program uses of Go's `strings` package, over bytes: comparison, prefixes and suffixes,
-- searching, cutting and splitting. Argument order is Go's.
pub mod Laws
pub mod Split
pub mod Utf8
pub mod Paths
pub mod Numbers
use Prim.Native.Char.{code}
use Prim.Native.String.{String}
use oss_mc.Base.{
  ℕ, zero, suc, ◌-◌, ◌+◌, Bool, true, false, not, ◌&&◌, ◌||◌, List, [], ◌∷◌, ◌++◌, Option, none,
  some, Bytes, ltb, leb, ◌==◌, if◌then◌else◌, length, drop, take,
}
use mathlib.Core.Option

-- The bytes of an ASCII literal.
abbrev pub codes : String → Bytes
codes String.[] = []
codes (String.◌∷◌ c s) = code c ∷ codes s

-- `a == b`
unfoldable pub equal : Bytes → Bytes → Bool
equal [] [] = true
equal [] (y ∷ b) = false
equal (x ∷ a) [] = false
equal (x ∷ a) (y ∷ b) = x == y && equal a b

-- `a < b`, in the order of bytes
unfoldable pub less : Bytes → Bytes → Bool
less [] [] = false
less [] (y ∷ b) = true
less (x ∷ a) [] = false
less (x ∷ a) (y ∷ b) = ltb x y || (x == y && less a b)

unfoldable pub is_empty : Bytes → Bool
is_empty [] = true
is_empty (c ∷ s) = false

unfoldable pub has_prefix : Bytes → Bytes → Bool
has_prefix s [] = true
has_prefix [] (p ∷ ps) = false
has_prefix (c ∷ s) (p ∷ ps) = c == p && has_prefix s ps

unfoldable pub trim_prefix : Bytes → Bytes → Bytes
trim_prefix s p = if has_prefix s p then drop (length p) s else s

unfoldable pub has_suffix : Bytes → Bytes → Bool
unfolding equal
has_suffix s t = leb (length t) (length s) && equal (drop (length s - length t) s) t

unfoldable pub trim_suffix : Bytes → Bytes → Bytes
unfolding has_suffix
trim_suffix s t = if has_suffix s t then take (length s - length t) s else s

-- The first place where `sub` stands in `s`.
unfoldable pub index : Bytes → Bytes → Option ℕ
unfolding has_prefix
index [] sub = if has_prefix [] sub then some 0 else none
index (c ∷ s) sub =
    let later = Option.map suc (index s sub) in if has_prefix (c ∷ s) sub then some 0 else later

unfoldable pub contains : Bytes → Bytes → Bool
unfolding index
contains s sub = elim (index s sub) [ none ↦ false | some _ ↦ true ]

-- The last place of the byte `b`.
unfoldable pub last_index_byte : Bytes → ℕ → Option ℕ
last_index_byte [] b = none
last_index_byte (c ∷ s) b = elim (last_index_byte s b) [
  | some i ↦ some (suc i)
  | none ↦ if c == b then some 0 else none
]

-- Puts a byte in front of the first part.
unfoldable pub cons_head : ℕ → List Bytes → List Bytes
cons_head c [] = (c ∷ []) ∷ []
cons_head c (p ∷ ps) = (c ∷ p) ∷ ps

-- The walk of `strings.Split`: the number is the bytes of a found separator still to be passed over.
unfoldable pub split_skip : ℕ → Bytes → Bytes → List Bytes
unfolding has_prefix cons_head
split_skip k [] sep = [] ∷ []
split_skip (suc k) (c ∷ s) sep = split_skip k s sep
split_skip zero (c ∷ s) sep = elim (has_prefix (c ∷ s) sep) [
  | true ↦ [] ∷ split_skip (length sep - 1) s sep
  | false ↦ cons_head c (split_skip zero s sep)
]

-- `strings.Split` at a separator that is not empty.
unfoldable pub split : Bytes → Bytes → List Bytes
unfolding split_skip
split s sep = split_skip zero s sep

-- Puts a byte in front of the first of two parts.
abbrev pub behind : ℕ → Bytes × Option Bytes → Bytes × Option Bytes
behind c r = (c ∷ r.0, r.1)

-- `strings.SplitN(s, sep, 2)` at a separator of one byte: the second part is missing if `sep` is.
unfoldable pub split_once : Bytes → ℕ → Bytes × Option Bytes
split_once [] b = ([], none)
split_once (c ∷ s) b = if c == b then ([], some s) else behind c (split_once s b)
