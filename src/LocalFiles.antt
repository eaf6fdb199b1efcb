-- ===== src/LocalFiles.antt =====
-- The removal of files in cmd/client-fs.go. The file system is a parameter: `os_remove` removes a file or
-- an empty folder, or answers with an error, and `dir` is `path.Dir`.
pub mod Removal
use oss_mc.Base.{
  ℕ, zero, suc, Bool, true, false, not, List, [], ◌∷◌, ◌++◌, Option, none, some, Bytes,
  if◌then◌else◌, length, Fallible, ok, err,
}
use oss_mc.Content.{ClientContent}
use oss_mc.Errors.{Error, other, path_insufficient_permission}
use oss_mc.Rm.{RemoveResult}
use oss_mc.Strings.{codes, equal, has_prefix, trim_suffix}

-- What the code tells apart of the errors of the system.
pub data SysError : Type 0 where
  not_empty not_exist permission : SysError
  other_error : Error → SysError

-- What the removal of a path comes to: the file system behind it, the paths that were removed, and an
-- error if one is returned.
pub record Deleted {ℓ} (F : Type ℓ) : Type ℓ where
  pub files : F
  pub removed : List Bytes
  pub error : Option SysError

abbrev pub remove_failed {ℓ} : {F : Type ℓ} → F → SysError → Deleted F
remove_failed files not_empty = record { files = files; removed = []; error = none }
remove_failed files not_exist = record { files = files; removed = []; error = none }
remove_failed files permission = record { files = files; removed = []; error = some permission }
remove_failed files (other_error e) = record {
  files = files;
  removed = [];
  error = some (other_error e);
}

module _ {ℓ} {F : Type ℓ} (os_remove : Bytes → F → Fallible SysError F) (dir : Bytes → Bytes) where
  abbrev pub parent_of : Bytes → Bytes
  parent_of path = dir (trim_suffix path (codes "/"))

  abbrev pub also_removed : Bytes → Option (Deleted F) → Option (Deleted F)
  also_removed path none = none
  also_removed path (some d) = some (record d { removed = path ∷ d.removed })

  -- a call for each folder, none if the fuel was not enough
  unfoldable pub delete_file : ℕ → Bytes → Bytes → F → Option (Deleted F)
  delete_file zero base path files = none
  delete_file (suc fuel) base path files = elim (os_remove path files) [
    | err e ↦ some (remove_failed files e)
    | ok next ↦
        let parent = parent_of path in
        let above = delete_file fuel base parent next in
        also_removed path (
          if not (has_prefix parent base)
          then some (record { files = next; removed = []; error = none })
          else if equal parent (codes ".")
          then some (record { files = next; removed = []; error = none })
          else above)
  ]

abbrev pub file_result : Bytes → Option Error → RemoveResult
file_result name e = record {
  bucket_name = [];
  object_name = name;
  object_version_id = [];
  delete_marker = false;
  delete_marker_version_id = [];
  err = e;
}

-- The result for a content, and whether the loop goes on.
unfoldable pub result_of : Bytes → Option SysError → List RemoveResult × Bool
result_of path none = (file_result path none ∷ [], true)
result_of path (some not_exist) = ([], true)
result_of path (some not_empty) =
    (file_result [] (some (other (codes "directory not empty"))) ∷ [], false)
result_of path (some permission) =
    (file_result [] (some (path_insufficient_permission path)) ∷ [], true)
result_of path (some (other_error e)) = (file_result [] (some e) ∷ [], false)

-- What the loop of `Remove` leaves: its results, the paths that were removed, and the file system.
pub record FilesRun {ℓ} (F : Type ℓ) : Type ℓ where
  pub results : List RemoveResult
  pub removed : List Bytes
  pub files : F

abbrev pub before_run {ℓ} :
    {F : Type ℓ} → List RemoveResult → List Bytes → Option (FilesRun F) → Option (FilesRun F)
before_run rs ps none = none
before_run rs ps (some run) =
    some (record run { results = rs ++ run.results; removed = ps ++ run.removed })

module _ {ℓ} {F : Type ℓ} (os_remove : Bytes → F → Fallible SysError F) (dir : Bytes → Bytes)
    (base : Bytes) (is_incomplete : Bool) where
  abbrev pub name_of : ClientContent → Bytes
  name_of c = if is_incomplete then c.url.path ++ codes ".part.minio" else c.url.path

  abbrev pub after_delete :
      Bytes → Option (Deleted F) → (F → Option (FilesRun F)) → Option (FilesRun F)
  after_delete path none next = none
  after_delete path (some d) next =
      if (result_of path d.error).1
      then before_run (result_of path d.error).0 d.removed (next d.files)
      else some
          (record { results = (result_of path d.error).0; removed = d.removed; files = d.files })

  -- `Remove`, with a step of fuel for each byte of a name and one more
  unfoldable pub remove_files : List ClientContent → F → Option (FilesRun F)
  remove_files [] files = some (record { results = []; removed = []; files = files })
  remove_files (c ∷ cs) files = elim c.err [
    | some e ↦ before_run (file_result [] (some e) ∷ []) [] (remove_files cs files)
    | none ↦
        after_delete c.url.path
          (delete_file os_remove dir (suc (length (name_of c))) base (name_of c) files)
          (remove_files cs)
  ]
