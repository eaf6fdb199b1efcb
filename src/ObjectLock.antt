-- ===== src/ObjectLock.antt =====
-- cmd/retention-common.go and cmd/legalhold-set.go: retention and legal hold put on one object or on
-- those of a listing. `put_fails` says of a call whether the client, or its opening, answers with an
-- error; `fatalIf` ends the program.
pub mod Seen
pub mod Retention
pub mod LegalHold
use oss_mc.Base.{
  ℕ, Bool, true, false, not, ◌&&◌, ◌||◌, List, [], ◌∷◌, ◌++◌, Option, none, some, Bytes, Fallible,
  ok, err, ◌==◌, if◌then◌else◌,
}
use oss_mc.ClientUrl.{to_string}
use oss_mc.Content.{ClientContent}
use oss_mc.Errors.{Error, invalid_argument, other}
use oss_mc.Strings.{codes, equal, is_empty}
use oss_mc.Strings.Numbers.{parse_uint}
use oss_mc.Versions.{get_key}

pub data ValidityUnit : Type 0 where
  days years : ValidityUnit

unfoldable pub unit_of_letter : ℕ → Option ValidityUnit
unit_of_letter c =
    if c == b'd' || c == b'D'
    then some days
    else if c == b'y' || c == b'Y'
    then some years
    else none

-- all but the last byte, and that
abbrev pub cut_last : ℕ → Bytes → Bytes × ℕ
cut_last c [] = ([], c)
cut_last c (d ∷ text) = let (before, last) = cut_last d text in (c ∷ before, last)

abbrev pub validity_of : Bytes × ℕ → Fallible Error (ℕ × ValidityUnit)
validity_of (number, letter) = elim (parse_uint number) [
  | none ↦ err (other number)
  | some n ↦ elim (unit_of_letter letter) [ none ↦ err invalid_argument | some unit ↦ ok (n, unit) ]
]

-- none where the code reads before the beginning of the text and panics
unfoldable pub parse_retention_validity : Bytes → Option (Fallible Error (ℕ × ValidityUnit))
parse_retention_validity [] = none
parse_retention_validity (c ∷ text) = some (validity_of (cut_last c text))

-- What a client is asked to lock.
pub record LockCall : Type 0 where
  pub url : Bytes
  pub version_id : Bytes

abbrev pub call_of : ClientContent → LockCall
call_of c = record { url = to_string c.url; version_id = c.version_id }

pub record LockOptions : Type 0 where
  pub target : Bytes
  pub alias : Bytes
  pub url : Bytes
  pub version_id : Bytes
  pub with_older_versions : Bool
  pub recursive : Bool
  pub json : Bool

-- The calls, whether an error is returned, and whether the program was ended.
pub record LockResult : Type 0 where
  pub calls : List LockCall
  pub failed : Bool
  pub exits : Bool

pub record LockState : Type 0 where
  pub calls : List LockCall
  pub failed : Bool
  pub applied : Bool

abbrev pub no_locks : LockState
no_locks = record { calls = []; failed = false; applied = false }

-- The same of `setLegalHold`: its calls, the ones it prints a message for, and whether it returns an
-- error.
pub record HoldState : Type 0 where
  pub calls : List LockCall
  pub printed : List LockCall
  pub failed : Bool

abbrev pub no_holds : HoldState
no_holds = record { calls = []; printed = []; failed = false }

-- an entry at which a loop that is not recursive stops
unfoldable pub is_other_key : LockOptions → ClientContent → Bool
is_other_key o c = not o.recursive && not (equal (o.alias ++ get_key c) o.target)

-- the date until which objects are locked: none if the mode is empty
unfoldable pub retain_until :
    (ℕ → ValidityUnit → Option ℕ) → Bytes → ℕ → ValidityUnit → Fallible Error (Option ℕ)
retain_until add_date mode validity unit =
    if is_empty mode
    then ok none
    else if validity == 0
    then err invalid_argument
    else elim (add_date validity unit) [ none ↦ err invalid_argument | some date ↦ ok (some date) ]

module _ (put_fails : LockCall → Bool) (o : LockOptions) where
  -- the answer of `setRetentionSingle` for an entry
  unfoldable pub retain_entry : LockState → ClientContent → LockState
  retain_entry s c = record s {
    calls = s.calls ++ call_of c ∷ [];
    applied = s.applied || not (put_fails (call_of c));
  }

  unfoldable pub retain_entries : LockState → List ClientContent → LockState
  retain_entries s [] = s
  retain_entries s (c ∷ cs) =
      let failing = retain_entries (record s { failed = true }) cs in
      let rest = retain_entries s cs in
      let next = retain_entries (retain_entry s c) cs in
      elim c.err [
        | some e ↦ failing
        | none ↦ if c.is_delete_marker then rest else if is_other_key o c then s else next
      ]

  abbrev pub finish_retention : LockState → LockResult
  finish_retention s = record { calls = s.calls; failed = s.failed || not s.applied; exits = false }

  unfoldable pub retain_single : LockResult
  retain_single =
      let call : LockCall = record { url = o.url; version_id = o.version_id } in
      record { calls = call ∷ []; failed = false; exits = put_fails call }

  -- `add_date` is the current time with a validity added, printed and read back
  unfoldable pub apply_retention :
      (ℕ → ValidityUnit → Option ℕ) → Bytes → ℕ → ValidityUnit → List ClientContent → LockResult
  apply_retention add_date mode validity unit listed =
      elim (retain_until add_date mode validity unit) [
        | err e ↦ record { calls = []; failed = true; exits = false }
        | ok until ↦
            if not (is_empty o.version_id) || not o.recursive && not o.with_older_versions
            then retain_single
            else finish_retention (retain_entries no_locks listed)
      ]

  -- a call, and its message if it succeeds and the output is not JSON
  unfoldable pub hold_entry : HoldState → ClientContent → HoldState
  hold_entry s c = record s {
    calls = s.calls ++ call_of c ∷ [];
    printed = s.printed ++ (if put_fails (call_of c) || o.json then [] else call_of c ∷ []);
  }

  -- the loop of `setLegalHold`
  unfoldable pub hold_entries : HoldState → List ClientContent → HoldState
  hold_entries s [] = s
  hold_entries s (c ∷ cs) =
      let failing = hold_entries (record s { failed = true }) cs in
      let next = hold_entries (hold_entry s c) cs in
      elim c.err [ some e ↦ failing | none ↦ if is_other_key o c then s else next ]

  unfoldable pub hold_single : HoldState
  hold_single =
      let call : LockCall = record { url = o.url; version_id = o.version_id } in
      record {
        calls = call ∷ [];
        printed = if put_fails call then [] else call ∷ [];
        failed = false;
      }

  unfoldable pub set_legal_hold : List ClientContent → HoldState
  set_legal_hold listed =
      if not o.recursive && not o.with_older_versions
      then hold_single
      else hold_entries no_holds listed
