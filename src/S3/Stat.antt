-- ===== src/S3/Stat.antt =====
-- `Stat` of cmd/client-s3.go. The search for incomplete uploads is a parameter.
use oss_mc.Base.{
  ℕ, Bool, true, false, not, ◌&&◌, List, [], ◌∷◌, ◌++◌, Option, none, some, Bytes, Fallible, ok,
  err, if◌then◌else◌, ◌==◌,
}
use oss_mc.ClientUrl.{to_string}
use oss_mc.Content.{ClientContent, StringMap, content_of_url, dir}
use oss_mc.Errors.{
  Error, path_insufficient_permission, bucket_does_not_exist, bucket_invalid, object_missing,
  object_is_delete_marker,
}
use oss_mc.S3.{
  ObjectInfo, S3Client, url2_bucket_and_object, object_content, prefix_info2_client_content,
}
use oss_mc.S3.Listing.{S3Api, list_object_wrapper, dir_none, bucket_stat}
use oss_mc.Strings.{codes, equal, has_prefix, has_suffix, is_empty}

pub record S3StatOptions : Type 0 where
  pub incomplete : Bool
  pub time_ref : ℕ
  pub version_id : Bytes
  pub is_zip : Bool

abbrev pub is_missing : Error → Bool
is_missing object_missing = true
is_missing object_is_delete_marker = true
is_missing e = false

-- a result that a panic may take the place of
abbrev pub as_found : Option ClientContent → Option (Fallible Error ClientContent)
as_found none = none
as_found (some x) = some (ok x)

module _ (api : S3Api) (now : ℕ) (attr_time : StringMap → ℕ)
    (stat_incomplete_upload : Bytes → Bytes → Fallible Error ClientContent) (c : S3Client) where
  -- the error for the code of an answer
  unfoldable pub stat_error : Bytes → ObjectInfo → Error → Error
  stat_error bucket o e =
      let code = api.error_code e in
      if equal code (codes "AccessDenied")
      then path_insufficient_permission (to_string c.target_url)
      else if equal code (codes "NoSuchBucket")
      then bucket_does_not_exist bucket
      else if equal code (codes "InvalidBucketName")
      then bucket_invalid bucket
      else if equal code (codes "NoSuchKey")
      then (if o.is_delete_marker then object_is_delete_marker else object_missing)
      else e

  unfoldable pub get_object_stat : Bytes → Bytes → S3StatOptions → Fallible Error ClientContent
  get_object_stat bucket object opts =
      let (o, e) = api.stat_object bucket object opts.version_id opts.is_zip in
      elim e [
        | some x ↦ err (stat_error bucket o x)
        | none ↦
            let content = object_content now attr_time c bucket o in
            if is_empty content.version_id
            then ok (record content { version_id = opts.version_id })
            else ok content
      ]

  -- the loop over the listing of a prefix, none for a panic
  unfoldable pub stat_listed :
      Bytes → Bytes → List ObjectInfo → Option (Fallible Error ClientContent)
  stat_listed bucket path [] = some (err object_missing)
  stat_listed bucket path (o ∷ os) =
      let rest = stat_listed bucket path os in
      elim o.err [
        | some e ↦ some (err e)
        | none ↦
            if equal path o.key
            then some (ok (object_content now attr_time c bucket o))
            else if has_prefix o.key path
            then as_found (prefix_info2_client_content now attr_time c bucket path)
            else rest
      ]

  unfoldable pub stat_prefix : Bytes → Bytes → S3StatOptions → Option (Fallible Error ClientContent)
  stat_prefix bucket path opts = stat_listed bucket path (
      list_object_wrapper api c bucket path
        (record {
          incomplete = false;
          recursive = false;
          with_metadata = false;
          with_older_versions = false;
          with_delete_markers = false;
          list_zip = opts.is_zip;
          time_ref = opts.time_ref;
          show_dir = dir_none;
        })
        1)

  -- behind the answer for the object itself
  abbrev stat_object_or_prefix :
      Bytes
      → Bytes
      → S3StatOptions
      → Fallible Error ClientContent
      → Option (Fallible Error ClientContent)
  stat_object_or_prefix bucket path opts (ok x) = some (ok x)
  stat_object_or_prefix bucket path opts (err e) =
      if is_missing e
      then stat_prefix bucket (path ++ c.target_url.separator ∷ []) opts
      else some (err e)

  unfoldable pub s3_stat : S3StatOptions → Option (Fallible Error ClientContent)
  s3_stat opts =
      let (bucket, path) = url2_bucket_and_object c.target_url in
      let sep = c.target_url.separator ∷ [] in
      if is_empty bucket
      then some (ok (record (content_of_url (record c.target_url { path = sep })) { type = dir }))
      else if is_empty path
      then some (bucket_stat api c bucket)
      else if opts.incomplete
      then some (stat_incomplete_upload bucket path)
      else if not (has_suffix path sep) && opts.time_ref == 0
      then stat_object_or_prefix bucket path opts (get_object_stat bucket path opts)
      else stat_prefix bucket path opts
