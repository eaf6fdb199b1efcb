-- ===== src/Ages.antt =====
-- `isOlder` and `isNewer` of cmd/utils.go. The clock is a parameter: `since t` is the pattern of
-- `time.Since(t)`. An option that cannot be read as a duration ends the program.
use oss_mc.Base.{ℕ, Bool, true, false, not, none, some, Bytes, Fallible, ok, err, ◌%◌, ◌+◌, ltb}
use oss_mc.Duration.{two63, two64, parse_duration}
use oss_mc.Strings.{is_empty}

-- `a < b` for the integers that the 64 bits of `a` and `b` spell
abbrev pub signed_ltb : ℕ → ℕ → Bool
signed_ltb a b = ltb ((a + two63) % two64) ((b + two63) % two64)

-- How a sender stops: at its end, by ending the program with an error, or by a run-time panic.
pub data Ending : Type 0 where
  finished exits panics : Ending

module _ (float_part : ℕ → ℕ → ℕ → ℕ) (since : ℕ → ℕ) where
  abbrev read_age : Bytes → Fallible Ending ℕ
  read_age text = elim (parse_duration float_part text) [
    | none ↦ err exits
    | some r ↦ elim r [ ok d ↦ ok d | err e ↦ err exits ]
  ]

  unfoldable pub is_older : ℕ → Bytes → Fallible Ending Bool
  is_older time older_ref = elim (is_empty older_ref) [
    | true ↦ ok false
    | false ↦ elim (read_age older_ref) [ err e ↦ err e | ok d ↦ ok (signed_ltb (since time) d) ]
  ]

  unfoldable pub is_newer : ℕ → Bytes → Fallible Ending Bool
  is_newer time newer_ref = elim (is_empty newer_ref) [
    | true ↦ ok false
    | false ↦ elim (read_age newer_ref) [
      | err e ↦ err e
      | ok d ↦ ok (not (signed_ltb (since time) d))
    ]
  ]
