-- ===== src/Du.antt =====
-- cmd/du-main.go: the size of a folder and the number of its objects. The functions of other files and
-- packages that it calls are parameters: `mustExpandAlias`, `newClientFromAlias` with the listing of
-- the client, `path.Clean` and `url.Parse`, none where the text cannot be read. The reference time and
-- the choice of versions are the same for all folders of a command. A depth is an `int`, held as the
-- number that its 64 bits spell. A nested call is a step of fuel.
pub mod Tree
pub mod Total
use oss_mc.Base.{
  ℕ, zero, suc, ◌+◌, ◌-◌, ◌%◌, Bool, true, false, not, ◌&&◌, List, [], ◌∷◌, ◌++◌, reverse, Option,
  none, some, Bytes, if◌then◌else◌, ◌==◌, Fallible, ok, err,
}
use oss_mc.Ages.{signed_ltb}
use oss_mc.ClientUrl.{slash, to_string, ClientUrl}
use oss_mc.Content.{ClientContent, is_dir}
use oss_mc.Duration.{two64}
use oss_mc.Errors.{
  Error, broken_symlink, too_many_levels_symlink, path_not_found, object_on_glacier,
  path_insufficient_permission,
}
use oss_mc.Strings.{equal, has_suffix, is_empty}

pub record DuMessage : Type 0 where
  pub prefix : Bytes
  pub size : ℕ
  pub objects : ℕ
  pub is_versions : Bool

-- How a call ends: with its sums, with an exit status, or in a panic.
pub data DuEnd : Type 0 where
  used : ℕ → ℕ → DuEnd
  exit_status panics : DuEnd

-- What a call prints and how it ends, none if the fuel was not enough.
abbrev pub DuRun : Type 0
DuRun = Option (List DuMessage × DuEnd)

-- A client, by its address and what it lists.
pub record DuClient : Type 0 where
  pub get_url : ClientUrl
  pub list : Bool → List ClientContent

-- `strings.TrimLeft(s, "/")`
unfoldable pub trim_left : Bytes → Bytes
trim_left [] = []
trim_left (c ∷ s) = if c == b'/' then trim_left s else c ∷ s

-- `strings.Trim(s, "/")`
abbrev pub trim_ends : Bytes → Bytes
trim_ends s = reverse (trim_left (reverse (trim_left s)))

abbrev pub is_skipped : Error → Bool
is_skipped (broken_symlink p) = true
is_skipped (too_many_levels_symlink p) = true
is_skipped (path_not_found p) = true
is_skipped (object_on_glacier o) = true
is_skipped (path_insufficient_permission p) = true
is_skipped e = false

-- `depth` of the folders in a folder
unfoldable pub depth_below : ℕ → ℕ
depth_below depth = if signed_ltb 0 depth then depth - 1 else depth

unfoldable pub slash_ended : Bytes → Bytes
slash_ended url = if has_suffix url slash then url else url ++ slash

unfoldable pub sub_dir_alias : Bytes → ClientContent → Bytes
sub_dir_alias alias c = if is_empty alias then c.url.path else alias ++ slash ++ c.url.path

-- messages, and then a run
abbrev pub printed : List DuMessage → DuRun → DuRun
printed ms none = none
printed ms (some run) = some (ms ++ run.0, run.1)

-- the rest of a run, after one that gave its sums
abbrev pub and_then : (ℕ → ℕ → DuRun) → List DuMessage × DuEnd → DuRun
and_then next (ms, used size objects) = printed ms (next size objects)
and_then next (ms, exit_status) = some (ms, exit_status)
and_then next (ms, panics) = some (ms, panics)

abbrev pub continue : (ℕ → ℕ → DuRun) → DuRun → DuRun
continue next none = none
continue next (some run) = and_then next run

-- One turn of the loop, with the path of the folder itself and the call for a folder in it.
abbrev pub du_error : Error → ℕ → ℕ → DuRun
du_error e size objects =
    if is_skipped e then some ([], used size objects) else some ([], exit_status)

module _ (recursive : Bool) (base alias : Bytes) (sub : Bytes → DuRun) where
  unfoldable pub du_listed : ClientContent → ℕ → ℕ → DuRun
  du_listed c size objects =
      if equal c.url.path base
      then some ([], used size objects)
      else if is_dir c.type && not recursive
      then continue (λ n k. some ([], used ((size + n) % two64) ((objects + k) % two64)))
          (sub (sub_dir_alias alias c))
      else if not c.is_delete_marker && not (is_dir c.type)
      then some ([], used ((size + c.size) % two64) ((objects + 1) % two64))
      else some ([], used size objects)

  unfoldable pub du_content : ClientContent → ℕ → ℕ → DuRun
  du_content c size objects = elim c.err [
    | some e ↦ du_error e size objects
    | none ↦ du_listed c size objects
  ]

  unfoldable pub du_contents : List ClientContent → ℕ → ℕ → DuRun
  du_contents [] size objects = some ([], used size objects)
  du_contents (c ∷ cs) size objects = continue (du_contents cs) (du_content c size objects)

module _ (must_expand_alias : Bytes → Bytes × Bytes)
    (new_client_from_alias : Bytes → Bytes → Fallible Error DuClient) (clean : Bytes → Bytes)
    (url_path : Bytes → Option Bytes) (with_versions : Bool) where
  -- the message for a folder, unless the depth is used up
  unfoldable pub du_message : Bytes → ℕ → ℕ → ℕ → DuRun
  du_message url depth size objects =
      if depth == 0 then some ([], used size objects) else elim (url_path url) [
        | none ↦ some ([], panics)
        | some path ↦ some (
          record {
            prefix = trim_ends path;
            size = size;
            objects = objects;
            is_versions = with_versions;
          }
              ∷ [],
          used size objects,
        )
      ]

  -- the listing of a client, with the call for a folder in it
  unfoldable pub du_client : DuClient → Bytes → Bytes → ℕ → (Bytes → DuRun) → DuRun
  du_client client alias url depth sub =
      let recursive = depth == 1 in
      let base = clean (to_string client.get_url) in
      continue (du_message url depth)
        (du_contents recursive base alias sub (client.list recursive) 0 0)

  unfoldable pub du : ℕ → ℕ → Bytes → DuRun
  du zero depth url_str = none
  du (suc fuel) depth url_str =
      let (alias, target) = must_expand_alias url_str in
      let url = slash_ended target in
      elim (new_client_from_alias alias url) [
        | err e ↦ some ([], exit_status)
        | ok client ↦ du_client client alias url depth (du fuel (depth_below depth))
      ]

-- The depth that the command begins with, by the flags --depth and --recursive and whether the first
-- of them is set.
unfoldable pub start_depth : ℕ → Bool → Bool → ℕ
start_depth depth recursive is_set =
    if not (depth == 0)
    then depth
    else if recursive
    then (if is_set then depth else two64 - 1)
    else 1
