-- ===== src/Errors.antt =====
-- The errors that the modelled code tells apart: the types of cmd/client-errors.go and the
-- constructors of cmd/typed-errors.go, with the text that each is built from. An error carries no
-- stack here, so `probe.Error.Trace` and `Untrace` change nothing.
use oss_mc.Base.{Bool, true, false, Bytes}
use oss_mc.Strings.{codes, contains}

pub data Error : Type 0 where
  path_not_found path_insufficient_permission path_not_a_directory : Bytes → Error
  broken_symlink too_many_levels_symlink object_on_glacier : Bytes → Error
  bucket_name_empty object_missing object_is_delete_marker invalid_argument dummy : Error
  object_already_exists object_already_exists_as_directory : Bytes → Error
  bucket_does_not_exist bucket_invalid : Bytes → Error
  invalid_source invalid_target overwrite_not_allowed source_is_dir : Bytes → Error
  unrecognized_diff_type : Bytes → Error
  -- `minio.ErrorResponse`: its code and its text
  error_response : Bytes → Bytes → Error
  other : Bytes → Error

-- `isErrIgnored`
unfoldable pub is_err_ignored : Error → Bool
unfolding contains
is_err_ignored (broken_symlink p) = true
is_err_ignored (too_many_levels_symlink p) = true
is_err_ignored (path_not_found p) = true
is_err_ignored bucket_name_empty = true
is_err_ignored object_missing = true
is_err_ignored (object_already_exists o) = true
is_err_ignored (object_already_exists_as_directory o) = true
is_err_ignored (bucket_does_not_exist b) = true
is_err_ignored (bucket_invalid b) = true
is_err_ignored (error_response code text) = contains text (codes "The specified key does not exist")
is_err_ignored e = false
