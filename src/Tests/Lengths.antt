-- ===== src/Tests/Lengths.antt =====
-- Durations: cmd/duration.go on concrete texts.
use oss_mc.Base.{
  ok, ℕ, ◌*◌, ◌/◌, ◌^◌, ◌<◌, ◌≤◌, leb, if◌then◌else◌, length, All, Bool-cases, inl, inr, some, ◌≡◌,
  ◌⊎◌, refl, Bytes, arith,
}
use oss_mc.Duration.{
  two63, parse_duration, parse_unsigned, parse_signed, all_space, read_parts, read_part,
  after_digits, leading_int, leading_from, fraction, unit_part, unit_of, unit_map, scaled,
  span_unit,
}
use oss_mc.Duration.Digits.{IsDigit, value}
use oss_mc.Duration.Complete.Signed.{Decides, parse_duration-Decides}
use oss_mc.Duration.Sound.{Spells, done, part, parse_unsigned_sound}
use oss_mc.Duration.Complete.{parse_unsigned_complete}
use oss_mc.Strings.{codes, is_empty, equal}

-- The product without the floating point unit, cut off at a whole number.
abbrev exact_part : ℕ → ℕ → ℕ → ℕ
exact_part f unit n = f * unit / 10 ^ n

abbrev week : Bytes
week = codes "1w2d"

abbrev week_ns : ℕ
week_ns = 777_600_000_000_000

parse_duration_run : parse_duration exact_part (codes "1.5h") ≡ some (ok 5_400_000_000_000)
unfolding parse_duration parse_signed parse_unsigned all_space read_parts read_part after_digits
    leading_int leading_from fraction unit_part unit_of unit_map scaled span_unit is_empty equal
parse_duration_run = refl

-- the same, and no more than the unit
abbrev bounded_part : ℕ → ℕ → ℕ → ℕ
bounded_part f unit n = if leb (exact_part f unit n) unit then exact_part f unit n else unit

bounded_small :
    (ds u : Bytes) (unit : ℕ)
    → All IsDigit ds
    → unit_map u ≡ some unit
    → bounded_part (value 0 ds) unit (length ds) ≤ 2 * unit
bounded_small ds u unit d h =
    elim (Bool-cases (leb (exact_part (value 0 ds) unit (length ds)) unit)) [
      | inl t ↦ rw t (ground arith)
      | inr n ↦ rw n (omega arith)
    ]

parse_duration-Decides_example :
    Decides bounded_part (codes "-1.5h") (parse_duration bounded_part (codes "-1.5h"))
parse_duration-Decides_example = parse_duration-Decides bounded_part (codes "-1.5h") bounded_small

-- 1 week and 2 days
week-Spells : Spells week week_ns
unfolding unit_map equal
week-Spells =
    part (codes "1") (codes "w") 604_800_000_000_000 (λ e. cc) (ground arith) (ground arith) refl
      (part (codes "2") (codes "d") 86_400_000_000_000 (λ e. cc) (ground arith) (ground arith) refl
        done refl refl)
      refl refl

parse_unsigned_complete_example : parse_unsigned exact_part week week ≡ some (ok week_ns)
parse_unsigned_complete_example =
    parse_unsigned_complete exact_part week week week_ns week-Spells (λ e. cc) (λ e. cc)
      (omega arith)

parse_unsigned_sound_example :
    ((week ≡ codes "0") × (week_ns ≡ 0)) ⊎ (Spells week week_ns × (week_ns < two63))
unfolding parse_duration parse_signed parse_unsigned all_space read_parts read_part after_digits
    leading_int leading_from fraction unit_part unit_of unit_map scaled span_unit is_empty equal
parse_unsigned_sound_example = parse_unsigned_sound exact_part week week week_ns (ground arith) refl
