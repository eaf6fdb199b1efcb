-- ===== src/Undo.antt =====
-- cmd/undo-main.go: the last operations on each object are undone by removing its last versions. A
-- listing is the list of its entries; `remove_fails` says of the versions sent to the client's
-- `Remove` whether some result has an error, and `sort_slice` stands for `sort.Slice`. `fatalIf` ends
-- the program.
pub mod Loop
pub mod Batches
pub mod Status
use oss_mc.Base.{
  ℕ, ◌+◌, Bool, true, false, not, ◌&&◌, ◌||◌, List, [], ◌∷◌, ◌++◌, Option, none, some, Bytes,
  Fallible, ok, err, length, take, ltb, ◌==◌, if◌then◌else◌,
}
use oss_mc.ClientUrl.{ClientUrl, to_string}
use oss_mc.Content.{ClientContent, is_dir}
use oss_mc.Duration.{is_negative}
use oss_mc.Errors.{Error, invalid_argument}
use oss_mc.Strings.{codes, equal, is_empty, trim_prefix}
use oss_mc.Versions.{
  Grouping, no_group, add_version, get_key, get_os_dependant_key, prefix_path, sort_object_versions,
}

pub record UndoMessage : Type 0 where
  pub key : Bytes
  pub url : Bytes
  pub version_id : Bytes
  pub is_delete_marker : Bool

-- What one call of `undoLastNOperations` did.
pub record Undone : Type 0 where
  pub sent : List ClientContent
  pub printed : List UndoMessage
  pub failed : Bool

pub record UndoOptions : Type 0 where
  pub target : Bytes
  pub last : ℕ
  pub recursive : Bool
  pub dry_run : Bool

-- the flags, with `last` as an `int`
unfoldable pub parse_undo_syntax : Bytes → ℕ → Bool → Bool → Bool → Fallible Error UndoOptions
parse_undo_syntax target last recursive force dry_run =
    if is_empty target
    then err invalid_argument
    else if is_negative last || last == 0
    then err invalid_argument
    else if recursive && not force
    then err invalid_argument
    else ok (record { target = target; last = last; recursive = recursive; dry_run = dry_run })

unfoldable pub undo_message : ClientUrl → ClientContent → UndoMessage
undo_message u c = record {
  key = get_os_dependant_key (trim_prefix c.url.path (prefix_path u.path)) (is_dir c.type);
  url = to_string c.url;
  version_id = c.version_id;
  is_delete_marker = c.is_delete_marker;
}

abbrev pub undo_messages : ClientUrl → List ClientContent → List UndoMessage
undo_messages u [] = []
undo_messages u (c ∷ cs) = undo_message u c ∷ undo_messages u cs

-- `objectVersions[:last]` if there are more
unfoldable pub first_versions : ℕ → List ClientContent → List ClientContent
first_versions n cs = if ltb n (length cs) then take n cs else cs

abbrev pub glacier : Bytes
glacier = codes "GLACIER"

-- The loop of `undoURL`: the entries in hand, the calls so far, the status of the last of them, and
-- whether some entry was taken.
pub record UndoState : Type 0 where
  pub grouping : Grouping
  pub calls : List Undone
  pub failed : Bool
  pub applied : Bool

abbrev pub no_calls : UndoState
no_calls = record { grouping = no_group; calls = []; failed = false; applied = false }

-- What `undoURL` did, whether it returned an error, and whether it ended the program.
pub record UndoResult : Type 0 where
  pub calls : List Undone
  pub failed : Bool
  pub exits : Bool

module _
    (sort_slice : (ClientContent → ClientContent → Bool) → List ClientContent → List ClientContent)
    (remove_fails : List ClientContent → Bool) (u : ClientUrl) (alias : Bytes)
    (o : UndoOptions) where
  abbrev pub to_remove : List ClientContent → List ClientContent
  to_remove versions = first_versions o.last (sort_object_versions sort_slice versions)

  unfoldable pub undo_last_n_operations : List ClientContent → Undone
  undo_last_n_operations versions =
      if o.last == 0
      then record { sent = []; printed = []; failed = false }
      else let sent = if o.dry_run then [] else to_remove versions in
        record {
          sent = sent;
          printed = undo_messages u (to_remove versions);
          failed = remove_fails sent;
        }

  -- the versions in hand are undone
  abbrev pub undo_group : UndoState → UndoState
  undo_group s =
      let r = undo_last_n_operations s.grouping.versions in
      record s { calls = s.calls ++ r ∷ []; failed = r.failed }

  unfoldable pub undo_entry : UndoState → ClientContent → UndoState
  undo_entry s c = record (if equal s.grouping.last_path c.url.path then s else undo_group s) {
    grouping = add_version s.grouping c;
    applied = true;
  }

  -- an entry at which a loop that is not recursive stops
  unfoldable pub is_other : ClientContent → Bool
  is_other c = not o.recursive && not (equal (alias ++ get_key c) o.target)

  -- the entries, and whether the program ends on one that has an error
  unfoldable pub undo_entries : UndoState → List ClientContent → UndoState × Bool
  undo_entries s [] = (s, false)
  undo_entries s (c ∷ cs) =
      let rest = undo_entries s cs in
      let next = undo_entries (undo_entry s c) cs in
      elim c.err [
        | some e ↦ (s, true)
        | none ↦
            if equal c.storage_class glacier then rest else if is_other c then (s, false) else next
      ]

  -- what stands behind the loop
  unfoldable pub undo_rest : List ClientContent → UndoState → UndoState
  undo_rest [] s = s
  undo_rest (c ∷ cs) s = undo_group s

  unfoldable pub finish : UndoState × Bool → UndoResult
  finish (s, true) = record { calls = s.calls; failed = s.failed; exits = true }
  finish (s, false) =
      let t = undo_rest s.grouping.versions s in
      record { calls = t.calls; failed = not t.applied || t.failed; exits = false }

  unfoldable pub undo_url : List ClientContent → UndoResult
  undo_url listed = finish (undo_entries no_calls listed)
