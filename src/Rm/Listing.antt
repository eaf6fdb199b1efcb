-- ===== src/Rm/Listing.antt =====
-- `listAndRemove` of cmd/rm-main.go. What is sent to the client is a list, and `arrivals n` are the
-- results that are read while the send of what is behind `n` others waits: they come in any way that
-- the client likes. `late` are the results that are read at the end, and `prefixes` says whether a
-- name stands at the beginning of the argument.
pub mod Steps
pub mod Removable
use oss_mc.Ages.{Ending, is_older, is_newer}
use oss_mc.Base.{
  ℕ, zero, suc, Bool, true, false, not, ◌&&◌, ◌||◌, List, [], ◌∷◌, ◌++◌, Option, none, some, Bytes,
  Fallible, ok, err, ◌>>=◌, length, ◌==◌, if◌then◌else◌,
}
use oss_mc.ClientUrl.{ClientUrlType, object_storage, file_system}
use oss_mc.Content.{ClientContent}
use oss_mc.Errors.{Error, error_response}
use oss_mc.Rm.{RemoveResult, RmMessage, RemoveOpts, rm_message, dry_run_message, is_permission}
use oss_mc.Strings.{codes, contains, equal, has_prefix, last_index_byte}
use oss_mc.Versions.{get_key}

pub record RmState : Type 0 where
  pub last_path : Bytes
  pub versions : List ClientContent
  pub found : Bool
  pub sent : List ClientContent
  pub printed : List RmMessage

abbrev pub nothing_removed : RmState
nothing_removed = record { last_path = []; versions = []; found = false; sent = []; printed = [] }

-- Why it ends early: it returns an error, or the program ends.
pub data RmStop : Type 0 where
  returns : RmState → RmStop
  program_ends : RmState → RmStop

abbrev pub Step : Type 0
Step = Fallible RmStop RmState

-- What a whole run did: what was sent, the messages, whether an error is returned, and whether an
-- age option ended the program.
pub record RmRun : Type 0 where
  pub sent : List ClientContent
  pub printed : List RmMessage
  pub failed : Bool
  pub exits : Bool

abbrev pub is_worm : Error → Bool
is_worm (error_response code text) =
    contains text (codes "Object is WORM protected and cannot be overwritten")
is_worm e = false

-- results that are read, with the errors that are passed over
unfoldable pub read_arrivals : (Error → Bool) → Bytes → List RemoveResult → RmState → Step
read_arrivals passes alias [] s = ok s
read_arrivals passes alias (r ∷ rs) s =
    let rest = read_arrivals passes alias rs s in
    let next =
      read_arrivals passes alias rs (record s { printed = s.printed ++ rm_message alias r ∷ [] }) in
    elim r.err [ none ↦ next | some e ↦ if passes e then rest else err (returns s) ]

abbrev is_store : ClientUrlType → Bool
is_store object_storage = true
is_store file_system = false

abbrev is_first : Option ℕ → Bool
is_first (some zero) = true
is_first (some (suc i)) = false
is_first none = false

-- a bucket's own name
unfoldable pub is_bucket : ClientContent → Bool
is_bucket c = is_store c.url.type && is_first (last_index_byte c.url.path c.url.separator)

unfoldable pub keep_version : ClientContent → RmState → RmState
keep_version c s = record s { found = true; versions = s.versions ++ c ∷ [] }

module _ (float_part : ℕ → ℕ → ℕ → ℕ) (since : ℕ → ℕ) (arrivals : ℕ → List RemoveResult)
    (alias : Bytes) (o : RemoveOpts) where
  unfoldable pub send : (Error → Bool) → ClientContent → RmState → Step
  send passes c s = do
    t ← read_arrivals passes alias (arrivals (length s.sent)) s
    ok (record t { sent = t.sent ++ c ∷ [] })

  -- an object that is not skipped
  unfoldable pub remove_one : (Error → Bool) → Bool → ClientContent → RmState → Step
  remove_one passes times c s =
      if o.is_fake
      then ok (record s { printed = s.printed ++ dry_run_message alias (some c) times })
      else send passes c s

  -- the age options, for an entry that has a time
  unfoldable pub remove_aged : (Error → Bool) → Bool → ClientContent → RmState → Step
  remove_aged passes times c s =
      if c.time == 0 then ok s else elim (is_older float_part since c.time o.older_than) [
        | err e ↦ err (program_ends s)
        | ok true ↦ ok s
        | ok false ↦ elim (is_newer float_part since c.time o.newer_than) [
          | err e ↦ err (program_ends s)
          | ok true ↦ ok s
          | ok false ↦ remove_one passes times c s
        ]
      ]

  -- the loop over the versions of one object, less the latest one that is no delete marker
  unfoldable pub remove_versions : List ClientContent → RmState → Step
  remove_versions [] s = ok s
  remove_versions (c ∷ cs) s =
      if c.is_latest && not c.is_delete_marker
      then remove_versions cs s
      else do t ← remove_aged is_permission true c s; remove_versions cs t

  module _ (url : Bytes) (recursive non_current : Bool) where
    abbrev pub others_only : Bool
    others_only = non_current && recursive && o.with_versions

    -- an entry of another name in a listing that is not recursive
    unfoldable pub ends_listing : ClientContent → Bool
    ends_listing c = not recursive && not (has_prefix url (alias ++ get_key c))

    -- an entry whose object is removed, or collected with the versions of its path
    unfoldable pub remove_entry : ClientContent → RmState → Step
    remove_entry c s =
        if others_only
        then (if equal s.last_path c.url.path
            then ok (keep_version c s)
            else remove_versions s.versions (record s { last_path = c.url.path })
              >>= (λ t. ok (keep_version c (record t { versions = [] }))))
        else remove_aged (λ e. is_permission e || is_worm e) o.with_versions c
            (record s { found = true })

    unfoldable pub remove_entries : List ClientContent → RmState → Step
    remove_entries [] s = ok s
    remove_entries (c ∷ cs) s =
        let rest = remove_entries cs s in
        let next = remove_entry c s >>= remove_entries cs in
        elim c.err [
          | some e ↦ if is_permission e then rest else err (returns s)
          | none ↦ if is_bucket c then rest else if ends_listing c then ok s else next
        ]

    -- all that is sent: the loop, and the versions that are left when it ends
    unfoldable pub remove_listed : List ClientContent → Step
    remove_listed listed = do
      s ← remove_entries listed nothing_removed
      if others_only then remove_versions s.versions s else ok s

    -- the status behind the late results: nothing found is an error only without force
    abbrev pub late_status : Step → RmRun
    late_status (err (returns s)) = record {
      sent = s.sent;
      printed = s.printed;
      failed = true;
      exits = false;
    }
    late_status (err (program_ends s)) = record {
      sent = s.sent;
      printed = s.printed;
      failed = true;
      exits = true;
    }
    late_status (ok s) = record {
      sent = s.sent;
      printed = s.printed;
      failed = not s.found && not o.is_force;
      exits = false;
    }

    unfoldable pub finish_removal : List RemoveResult → Step → RmRun
    finish_removal late (err e) = late_status (err e)
    finish_removal late (ok s) =
        if o.is_fake
        then record { sent = s.sent; printed = s.printed; failed = false; exits = false }
        else late_status (read_arrivals is_permission alias late s)

    unfoldable pub list_and_remove : List RemoveResult → List ClientContent → RmRun
    list_and_remove late listed = finish_removal late (remove_listed listed)
