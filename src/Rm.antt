-- ===== src/Rm.antt =====
-- `removeSingle` of cmd/rm-main.go. Parameters: `stat`, the answer of url2Stat; `status_code`, that of
-- `minio.ToErrorResponse`; whether the client can be opened, and the results of its `Remove` for what
-- it is sent. An age option that cannot be read ends the program.
pub mod Single
pub mod Listing
use oss_mc.Ages.{Ending, is_older, is_newer}
use oss_mc.Base.{
  ℕ, Bool, true, false, not, ◌&&◌, ◌||◌, List, [], ◌∷◌, ◌++◌, Option, none, some, Bytes, Fallible,
  ok, err, ◌==◌, if◌then◌else◌,
}
use oss_mc.ClientUrl.{ClientUrl, new_client_url}
use oss_mc.Content.{ClientContent, content_of_url, is_dir}
use oss_mc.Errors.{Error, object_missing, path_insufficient_permission}
use oss_mc.Strings.{codes, equal, has_suffix, is_empty}
use oss_mc.Strings.Paths.{join_path}
use oss_mc.Versions.{get_key}

pub record RemoveResult : Type 0 where
  pub bucket_name : Bytes
  pub object_name : Bytes
  pub object_version_id : Bytes
  pub delete_marker : Bool
  pub delete_marker_version_id : Bytes
  pub err : Option Error

pub record RmMessage : Type 0 where
  pub key : Bytes
  pub version_id : Bytes
  pub delete_marker : Bool
  pub dry_run : Bool
  pub mod_time : Option ℕ

pub record RemoveOpts : Type 0 where
  pub with_versions : Bool
  pub is_force : Bool
  pub is_force_del : Bool
  pub is_fake : Bool
  pub older_than : Bytes
  pub newer_than : Bytes

-- What was sent to be removed, the messages, whether an error is returned, and how it ended.
pub record Removal : Type 0 where
  pub sent : List ClientContent
  pub printed : List RmMessage
  pub failed : Bool

abbrev pub fails : Removal
fails = record { sent = []; printed = []; failed = true }

abbrev pub skips_object : Removal
skips_object = record { sent = []; printed = []; failed = false }

abbrev pub is_object_missing : Error → Bool
is_object_missing object_missing = true
is_object_missing e = false

abbrev pub is_permission : Error → Bool
is_permission (path_insufficient_permission p) = true
is_permission e = false

module _ (status_code : Error → ℕ) (o : RemoveOpts) where
  -- the errors of stat in spite of which the removal goes on
  unfoldable pub ignores_stat_error : Error → Bool
  ignores_stat_error e =
      let st = status_code e in
      st == 400
      || st == 405
      || (st == 503 || is_object_missing e || st == 404) && (o.is_force && o.is_force_del)

unfoldable pub rm_message : Bytes → RemoveResult → RmMessage
rm_message alias r = record {
  key = join_path (join_path alias r.bucket_name) r.object_name;
  version_id = if r.delete_marker then r.delete_marker_version_id else r.object_version_id;
  delete_marker = r.delete_marker;
  dry_run = false;
  mod_time = none;
}

-- the loop over the results: the messages, and whether a result stops it
unfoldable pub read_results : Bytes → List RemoveResult → List RmMessage × Bool
read_results alias [] = ([], false)
read_results alias (r ∷ rs) =
    let (ms, failed) = read_results alias rs in
    elim r.err [
      | some e ↦ if is_permission e then (ms, failed) else ([], true)
      | none ↦ (rm_message alias r ∷ ms, failed)
    ]

unfoldable pub dry_run_message : Bytes → Option ClientContent → Bool → List RmMessage
dry_run_message alias none times = []
dry_run_message alias (some c) times =
    record {
      key = alias ++ get_key c;
      version_id = c.version_id;
      delete_marker = false;
      dry_run = true;
      mod_time = if times then some c.time else none;
    }
    ∷ []

abbrev pub is_folder : Option ClientContent → Bool
is_folder none = false
is_folder (some c) = is_dir c.type

abbrev pub mod_time_of : Option ClientContent → ℕ
mod_time_of none = 0
mod_time_of (some c) = c.time

-- What the removal is asked of.
pub record RmTarget : Type 0 where
  pub alias : Bytes
  pub url : Bytes
  pub version_id : Bytes
  pub opens : Bool

-- a separator is put behind a folder
abbrev pub folder_url : Bytes → Bool → Bytes
folder_url url is_dir = if not (has_suffix url (codes "/")) && is_dir then url ++ codes "/" else url

abbrev pub content_to_remove : RmTarget → Bool → ClientContent
content_to_remove t is_dir = record (content_of_url (new_client_url (folder_url t.url is_dir))) {
  version_id = t.version_id;
}

module _ (float_part : ℕ → ℕ → ℕ → ℕ) (since : ℕ → ℕ) (status_code : Error → ℕ)
    (remove : ClientContent → List RemoveResult) (t : RmTarget) (o : RemoveOpts) where
  abbrev pub removal_of : ClientContent → List RmMessage × Bool → Removal
  removal_of c (ms, failed) = record { sent = c ∷ []; printed = ms; failed = failed }

  -- the removal or the dry run, once nothing speaks against it
  unfoldable pub remove_now : Option ClientContent → Removal
  remove_now c =
      if o.is_fake
      then record { sent = []; printed = dry_run_message t.alias c o.with_versions; failed = false }
      else if not t.opens
      then fails
      else removal_of (content_to_remove t (is_folder c))
          (read_results t.alias (remove (content_to_remove t (is_folder c))))

  -- behind the answer of stat: its content if it has one, and whether its error is ignored
  unfoldable pub remove_unless_skipped : Option ClientContent → Bool → Fallible Ending Removal
  remove_unless_skipped c ignored =
      if ignored && not (is_empty o.older_than) || not (is_empty o.newer_than)
      then ok fails
      else elim (is_older float_part since (mod_time_of c) o.older_than) [
        | err e ↦ err e
        | ok true ↦ ok skips_object
        | ok false ↦ elim (is_newer float_part since (mod_time_of c) o.newer_than) [
          | err e ↦ err e
          | ok true ↦ ok skips_object
          | ok false ↦ ok (remove_now c)
        ]
      ]

  unfoldable pub remove_single : Fallible Error ClientContent → Fallible Ending Removal
  remove_single (ok c) = remove_unless_skipped (some c) false
  remove_single (err e) =
      if ignores_stat_error status_code o e then remove_unless_skipped none true else ok fails
