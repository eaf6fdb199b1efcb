-- ===== src/Duration.antt =====
-- cmd/duration.go: `ParseDuration`. An `int64` is the number that its 64 bits spell, so it is
-- negative from 2^63 on, and sums and products wrap at 2^64. The loop over the parts takes fuel, and
-- `none` says that it has not ended within it; `ParseDuration` gives it a round for each byte, and
-- each round reads one byte at least. The one use of floating point is a parameter: `float_part f
-- unit n` is the pattern of `int64(float64(f) * (float64(unit) / scale))`, `scale` being 1 multiplied
-- by 10 `n` times in `float64`.
pub mod Digits
pub mod Parts
pub mod Ends
pub mod Sound
pub mod Complete
pub mod Amounts
pub mod Exact
use oss_mc.Base.{
  Fallible, ok, err, ◌>>=◌, ℕ, zero, suc, ◌+◌, ◌-◌, ◌*◌, ◌/◌, ◌%◌, ◌^◌, Bool, true, false, not,
  ◌&&◌, ◌||◌, List, [], ◌∷◌, ◌++◌, Option, none, some, Bytes, ltb, leb, ◌==◌, if◌then◌else◌, length,
}
use oss_mc.Strings.{codes, equal, is_empty}

pub data DurationError : Type 0 where
  empty_duration : DurationError
  invalid_duration missing_unit : Bytes → DurationError
  unknown_unit : Bytes → Bytes → DurationError

abbrev pub Result {ℓ} : Type ℓ → Type ℓ
Result A = Fallible DurationError A

abbrev pub two63 : ℕ
two63 = 2 ^ 63

abbrev pub two64 : ℕ
two64 = 2 ^ 64

abbrev pub is_negative : ℕ → Bool
is_negative w = leb two63 w

abbrev pub is_digit : ℕ → Bool
is_digit c = leb b'0' c && leb c b'9'

-- `leadingInt` from the number read so far
unfoldable pub leading_from : ℕ → Bytes → Option (ℕ × Bytes)
leading_from x [] = some (x, [])
leading_from x (c ∷ s) =
    let next = (x * 10 + c + two64 - b'0') % two64 in
    let rest = leading_from next s in
    if not (is_digit c)
    then some (x, c ∷ s)
    else if ltb ((two63 - 1) / 10) x
    then none
    else if is_negative next
    then none
    else rest

unfoldable pub leading_int : Bytes → Option (ℕ × Bytes)
unfolding leading_from
leading_int = leading_from 0

abbrev pub hour : ℕ
hour = 3_600_000_000_000

abbrev pub day : ℕ
day = hour * 24

-- `unitMap`, in nanoseconds
unfoldable pub unit_map : Bytes → Option ℕ
unit_map u =
    if equal u (codes "ns")
    then some 1
    else if equal u (codes "us")
    then some 1_000
    else if equal u (0xC2 ∷ 0xB5 ∷ codes "s")
    then some 1_000
    else if equal u (0xCE ∷ 0xBC ∷ codes "s")
    then some 1_000
    else if equal u (codes "ms")
    then some 1_000_000
    else if equal u (codes "s")
    then some 1_000_000_000
    else if equal u (codes "m")
    then some 60_000_000_000
    else if equal u (codes "h")
    then some hour
    else if equal u (codes "d")
    then some day
    else if equal u (codes "w")
    then some (day * 7)
    else if equal u (codes "y")
    then some (day * 365)
    else none

-- The bytes up to the next point or digit, and the rest.
abbrev front : ℕ → Bytes × Bytes → Bytes × Bytes
front c r = (c ∷ r.0, r.1)

unfoldable pub span_unit : Bytes → Bytes × Bytes
span_unit [] = ([], [])
span_unit (c ∷ s) = if c == b'.' || is_digit c then ([], c ∷ s) else front c (span_unit s)

-- the bytes that `unicode.IsSpace` accepts, alone and as the encodings of wider code points
abbrev space1 : ℕ → Bool
space1 c = leb 9 c && leb c 13 || c == b' '

abbrev space2 : ℕ → ℕ → Bool
space2 c d = c == 0xC2 && (d == 0x85 || d == 0xA0)

abbrev space3 : ℕ → ℕ → ℕ → Bool
space3 c d e =
    c == 0xE1 && d == 0x9A && e == 0x80
    || c == 0xE2 && d == 0x80 && (leb 0x80 e && leb e 0x8A || e == 0xA8 || e == 0xA9 || e == 0xAF)
    || c == 0xE2 && d == 0x81 && e == 0x9F
    || c == 0xE3 && d == 0x80 && e == 0x80

-- `strings.TrimSpace(s) == ""`
unfoldable pub all_space : Bytes → Bool
all_space [] = true
all_space (c ∷ []) = space1 c
all_space (c ∷ d ∷ []) = space1 c && space1 d || space2 c d
all_space (c ∷ d ∷ e ∷ s) = elim (space1 c) [
  | true ↦ all_space (d ∷ e ∷ s)
  | false ↦ elim (space2 c d) [
    | true ↦ all_space (e ∷ s)
    | false ↦ elim (space3 c d e) [ true ↦ all_space s | false ↦ false ]
  ]
]

-- the number behind the point: its value, how many bytes it takes, and the rest
unfoldable pub fraction : Bytes → Bytes → Result (ℕ × ℕ × Bytes)
fraction orig [] = ok (0, 0, [])
fraction orig (c ∷ s) =
    if c == b'.'
    then elim (leading_int s) [
      | none ↦ err (invalid_duration orig)
      | some (f, rest) ↦ ok (f, length s - length rest, rest)
    ]
    else ok (0, 0, c ∷ s)

unfoldable pub unit_of : Bytes → Bytes → Result ℕ
unit_of orig u =
    if is_empty u
    then err (missing_unit orig)
    else elim (unit_map u) [ none ↦ err (unknown_unit u orig) | some unit ↦ ok unit ]

abbrev pub negated : Option (Result ℕ) → Option (Result ℕ)
negated none = none
negated (some (err e)) = some (err e)
negated (some (ok d)) = some (ok ((two64 - d) % two64))

module _ (float_part : ℕ → ℕ → ℕ → ℕ) where
  -- the nanoseconds of one part: `v` units, and `f` behind the point in `n` digits
  unfoldable pub scaled : Bytes → ℕ → ℕ → ℕ → ℕ → Result ℕ
  scaled orig unit v f n =
      let whole = v * unit % two64 in
      let sum = (whole + float_part f unit n) % two64 in
      if ltb ((two63 - 1) / unit) v
      then err (invalid_duration orig)
      else if ltb 0 f
      then (if is_negative sum then err (invalid_duration orig) else ok sum)
      else ok whole

  -- the unit behind the digits, and the nanoseconds
  unfoldable pub unit_part : Bytes → ℕ → ℕ × ℕ × Bytes → Result (ℕ × Bytes)
  unit_part orig v (f, n, s) = do
    unit ← unit_of orig (span_unit s).0
    w ← scaled orig unit v f n
    ok (w, (span_unit s).1)

  -- a part behind the digits in front of a point; `pre` says that there are any
  unfoldable pub after_digits : Bytes → Bool → ℕ → Bytes → Result (ℕ × Bytes)
  after_digits orig pre v s = do
    p ← fraction orig s
    if not pre && p.1 == 0 then err (invalid_duration orig) else unit_part orig v p

  -- one round of the loop: a part's nanoseconds and the rest
  unfoldable pub read_part : Bytes → Bytes → Result (ℕ × Bytes)
  read_part orig [] = err (invalid_duration orig)
  read_part orig (c ∷ s) =
      if not (c == b'.' || is_digit c)
      then err (invalid_duration orig)
      else elim (leading_int (c ∷ s)) [
        | none ↦ err (invalid_duration orig)
        | some (v, rest) ↦ after_digits orig (not (length (c ∷ s) == length rest)) v rest
      ]

  -- the loop over the parts, from the sum so far
  unfoldable pub read_parts : ℕ → Bytes → ℕ → Bytes → Option (Result ℕ)
  read_parts fuel orig d [] = some (ok d)
  read_parts zero orig d (c ∷ s) = none
  read_parts (suc fuel) orig d (c ∷ s) = elim (read_part orig (c ∷ s)) [
    | err e ↦ some (err e)
    | ok (v, rest) ↦
        let sum = (d + v) % two64 in
        let more = read_parts fuel orig sum rest in
        if is_negative sum then some (err (invalid_duration orig)) else more
  ]

  -- `ParseDuration` behind the sign
  unfoldable pub parse_unsigned : Bytes → Bytes → Option (Result ℕ)
  parse_unsigned orig s =
      if equal s (codes "0")
      then some (ok 0)
      else if is_empty s
      then some (err (invalid_duration orig))
      else read_parts (length s) orig 0 s

  unfoldable pub parse_signed : Bytes → Bytes → Option (Result ℕ)
  parse_signed orig [] = parse_unsigned orig []
  parse_signed orig (c ∷ s) =
      if c == b'-'
      then negated (parse_unsigned orig s)
      else if c == b'+'
      then parse_unsigned orig s
      else parse_unsigned orig (c ∷ s)

  unfoldable pub parse_duration : Bytes → Option (Result ℕ)
  parse_duration s = if all_space s then some (err empty_duration) else parse_signed s s
