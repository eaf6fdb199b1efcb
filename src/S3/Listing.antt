-- ===== src/S3/Listing.antt =====
-- The listings of cmd/client-s3.go. What the SDK answers is the record `S3Api`; a channel is the list of
-- what is sent on it. The listing of incomplete uploads is a parameter; nobody cancels a listing.
pub mod Contents
pub mod Rewind
use oss_mc.Base.{
  ℕ, ◌+◌, Bool, true, false, not, ◌&&◌, ◌||◌, List, [], ◌∷◌, ◌++◌, Option, none, some, Bytes,
  Fallible, ok, err, if◌then◌else◌, ◌==◌, ltb, map,
}
use oss_mc.ClientUrl.{ClientUrl}
use oss_mc.Content.{ClientContent, StringMap, content_of_url, dir}
use oss_mc.Duration.{two64}
use oss_mc.Errors.{Error, other, bucket_does_not_exist}
use oss_mc.S3.{
  BucketInfo, ObjectInfo, S3Client, url2_bucket_and_object, bucket_info2_client_content,
  object_info2_client_content,
}
use oss_mc.Strings.{codes, equal, has_suffix, is_empty}

pub data DirOpt : Type 0 where
  dir_none dir_first dir_last : DirOpt

pub record S3ListOptions : Type 0 where
  pub incomplete : Bool
  pub recursive : Bool
  pub with_metadata : Bool
  pub with_older_versions : Bool
  pub with_delete_markers : Bool
  pub list_zip : Bool
  pub time_ref : ℕ
  pub show_dir : DirOpt

-- `minio.ListObjectsOptions`, with the header that asks for the inside of a zip file
pub record Query : Type 0 where
  pub prefix : Bytes
  pub recursive : Bool
  pub with_versions : Bool
  pub with_metadata : Bool
  pub use_v1 : Bool
  pub extracts : Bool
  pub max_keys : ℕ

pub record S3Api : Type 0 where
  pub list_buckets : Fallible Error (List BucketInfo)
  pub list_objects : Bytes → Query → List ObjectInfo
  pub stat_object : Bytes → Bytes → Bytes → Bool → ObjectInfo × Option Error
  pub bucket_exists : Bytes → Fallible Error Bool
  pub is_google : Bytes → Bool
  -- `minio.ToErrorResponse(err).Code`
  pub error_code : Error → Bytes

abbrev pub error_info : Error → ObjectInfo
error_info e = record {
  key = [];
  size = 0;
  etag = [];
  last_modified = 0;
  version_id = [];
  storage_class = [];
  is_delete_marker = false;
  is_latest = false;
  metadata = [];
  user_metadata = [];
  user_tags = [];
  err = some e;
}

-- one turn of the loop of `listVersionsRoutine`: what is sent, and the key that is skipped from here
unfoldable pub version_entry : S3ListOptions → Bytes → ObjectInfo → List ObjectInfo × Bytes
version_entry opts skip v = elim v.err [
  | some e ↦ (v ∷ [], skip)
  | none ↦
      if not opts.with_older_versions && equal skip v.key
      then ([], skip)
      else if opts.time_ref == 0 || ltb v.last_modified opts.time_ref
      then (if not opts.with_delete_markers && v.is_delete_marker then [] else v ∷ [], v.key)
      else ([], skip)
]

unfoldable pub version_entries : S3ListOptions → Bytes → List ObjectInfo → List ObjectInfo
version_entries opts skip [] = []
version_entries opts skip (v ∷ vs) =
    let turn = version_entry opts skip v in turn.0 ++ version_entries opts turn.1 vs

-- `time.Unix(0, 0)`
abbrev unix_epoch : ℕ
unix_epoch = 62135596800000000000

module _ (api : S3Api) where
  unfoldable pub bucket_stat : S3Client → Bytes → Fallible Error ClientContent
  bucket_stat c bucket = elim (api.bucket_exists bucket) [
    | err e ↦ err e
    | ok exists ↦
        if exists
        then ok (record (content_of_url c.target_url) {
          bucket_name = bucket;
          type = dir;
          time = unix_epoch;
        })
        else err (bucket_does_not_exist bucket)
  ]

  abbrev pub versions_query : S3ListOptions → Bytes → Query
  versions_query opts prefix = record {
    prefix = prefix;
    recursive = opts.recursive;
    with_versions = true;
    with_metadata = opts.with_metadata;
    use_v1 = false;
    extracts = false;
    max_keys = 0;
  }

  unfoldable pub versions_of_buckets : S3ListOptions → Bytes → List Bytes → List ObjectInfo
  versions_of_buckets opts prefix [] = []
  versions_of_buckets opts prefix (b ∷ bs) =
      version_entries opts [] (api.list_objects b (versions_query opts prefix))
      ++ versions_of_buckets opts prefix bs

  unfoldable pub list_versions : Bytes → Bytes → S3ListOptions → List ObjectInfo
  list_versions bucket prefix opts =
      if is_empty bucket
      then elim api.list_buckets [
        | err e ↦ error_info e ∷ []
        | ok buckets ↦ versions_of_buckets opts prefix (map (λ (b : BucketInfo). b.name) buckets)
      ]
      else versions_of_buckets opts prefix (bucket ∷ [])

  unfoldable pub list_object_wrapper :
      S3Client → Bytes → Bytes → S3ListOptions → ℕ → List ObjectInfo
  list_object_wrapper c bucket object opts max_keys =
      if not (opts.time_ref == 0) || opts.with_older_versions
      then list_versions bucket object (record opts {
        incomplete = false;
        with_metadata = false;
        list_zip = false;
        show_dir = dir_none;
      })
      else if api.is_google c.target_url.host
      then api.list_objects bucket (record (versions_query opts object) {
        with_versions = false;
        with_metadata = false;
        use_v1 = true;
        max_keys = max_keys;
      })
      else api.list_objects bucket (record (versions_query opts object) {
        prefix =
            if opts.list_zip && has_suffix object (codes ".zip")
            then object ++ codes "/"
            else object;
        with_versions = false;
        extracts = opts.list_zip;
        max_keys = max_keys;
      })
