-- ===== src/S3.antt =====
-- cmd/client-s3.go: the addresses and contents of the client for object stores. The functions of the
-- SDK that tell hosts apart are parameters, so are the clock (`now`) and the time that the attributes
-- among the metadata of an object spell (`attr_time`, 0 for none).
pub mod Listing
pub mod Paths
pub mod Remove
pub mod Stat
use oss_mc.Base.{
  ℕ, zero, suc, ◌+◌, ◌-◌, Bool, true, false, not, ◌&&◌, ◌||◌, List, [], ◌∷◌, ◌++◌, Option, none,
  some, Bytes, if◌then◌else◌, ◌==◌, take, length, ltb, Fallible,
}
use oss_mc.ClientUrl.{ClientUrl}
use oss_mc.Content.{ClientContent, StringMap, content_of_url, dir, regular}
use oss_mc.Errors.{Error}
use oss_mc.Strings.{codes, equal, has_suffix, index, is_empty, split_once, trim_prefix}

-- `minio.BucketInfo` and `minio.ObjectInfo`, as far as they are read
pub record BucketInfo : Type 0 where
  pub name : Bytes
  pub creation_date : ℕ

pub record ObjectInfo : Type 0 where
  pub key : Bytes
  pub size : ℕ
  pub etag : Bytes
  pub last_modified : ℕ
  pub version_id : Bytes
  pub storage_class : Bytes
  pub is_delete_marker : Bool
  pub is_latest : Bool
  pub metadata : StringMap
  pub user_metadata : StringMap
  pub user_tags : StringMap
  pub err : Option Error

pub record S3Client : Type 0 where
  pub target_url : ClientUrl
  pub virtual_style : Bool

pub data Lookup : Type 0 where
  lookup_auto lookup_dns lookup_path : Lookup

module _ (is_amazon is_google is_amazon_china : Bytes → Bool) where
  unfoldable pub is_virtual_host_style : Bytes → Lookup → Bool
  is_virtual_host_style host lookup_dns = true
  is_virtual_host_style host lookup_path = false
  is_virtual_host_style host lookup_auto =
      is_amazon host && not (is_amazon_china host)
      || is_google host
      || equal host (codes "s3-accelerate.amazonaws.com")

-- The first part, and those of the rest.
abbrev pub first_part : (Bytes → List Bytes) → Bytes × Option Bytes → List Bytes
first_part next (p, none) = p ∷ []
first_part next (p, some rest) = p ∷ next rest

-- `strings.SplitN` at a separator of one byte
unfoldable pub split_n : ℕ → Bytes → ℕ → List Bytes
split_n zero s sep = []
split_n (suc zero) s sep = s ∷ []
split_n (suc (suc n)) s sep = first_part (λ rest. split_n (suc n) rest sep) (split_once s sep)

abbrev empty_strings : ℕ → List Bytes
empty_strings zero = []
empty_strings (suc n) = [] ∷ empty_strings n

unfoldable pub split_str : Bytes → ℕ → ℕ → List Bytes
split_str path sep n =
    let splits = split_n n path sep in splits ++ empty_strings (n - length splits)

-- an element of a slice that is known to be long enough
abbrev pub nth : ℕ → List Bytes → Bytes
nth n [] = []
nth zero (s ∷ ss) = s
nth (suc n) (s ∷ ss) = nth n ss

unfoldable pub url2_bucket_and_object : ClientUrl → Bytes × Bytes
url2_bucket_and_object u =
    let tokens = split_str u.path u.separator 3 in (nth 1 tokens, nth 2 tokens)

abbrev or_else : Option ℕ → Option ℕ → Option ℕ
or_else none o = o
or_else (some n) o = some n

abbrev pub host_index : Bytes → Option ℕ
host_index host =
    or_else (index host (codes "s3"))
      (or_else (index host (codes "s3-accelerate")) (index host (codes "storage.googleapis")))

abbrev pub split_tokens : Bytes → ℕ → Bytes × Bytes
split_tokens path sep = let tokens = split_str path sep 2 in (nth 0 tokens, nth 1 tokens)

unfoldable pub split_path : S3Client → Bytes → Bytes × Bytes
split_path c path =
    let sep = c.target_url.separator in
    let rest = trim_prefix path (sep ∷ []) in
    if c.virtual_style
    then elim (host_index c.target_url.host) [
      | none ↦ split_tokens rest sep
      | some zero ↦ split_tokens rest sep
      | some (suc i) ↦ (take i c.target_url.host, rest)
    ]
    else split_tokens rest sep

unfoldable pub join_path : S3Client → Bytes → List Bytes → Bytes
join_path c bucket [] = bucket
join_path c bucket (o ∷ os) = join_path c (bucket ++ (c.target_url.separator ∷ o)) os

unfoldable pub build_abs_path : S3Client → Bytes → List Bytes → Bytes
build_abs_path c bucket objects = c.target_url.separator ∷ join_path c bucket objects

unfoldable pub bucket_info2_client_content : S3Client → BucketInfo → ClientContent
bucket_info2_client_content c bucket =
    record (content_of_url (record c.target_url { path = build_abs_path c bucket.name [] })) {
      bucket_name = bucket.name;
      time = bucket.creation_date;
      type = dir;
    }

module _ (now : ℕ) (attr_time : StringMap → ℕ) where
  -- none for a panic
  unfoldable pub prefix_info2_client_content : S3Client → Bytes → Bytes → Option ClientContent
  prefix_info2_client_content c bucket prefix =
      if is_empty bucket
      then none
      else some
          (record (content_of_url
            (record c.target_url { path = build_abs_path c bucket (prefix ∷ []) })) {
              bucket_name = bucket;
              type = dir;
              time = now;
            })

  -- the time of an object, which attributes among its metadata replace
  abbrev pub object_time : ObjectInfo → ℕ
  object_time entry =
      let user = attr_time entry.user_metadata in
      let meta = attr_time entry.metadata in
      if not (meta == 0) then meta else if not (user == 0) then user else entry.last_modified

  abbrev pub object_content : S3Client → Bytes → ObjectInfo → ClientContent
  object_content c bucket entry =
      let is_folder = has_suffix entry.key (c.target_url.separator ∷ []) in
      let time = object_time entry in
      record {
        url = record c.target_url { path = build_abs_path c bucket (entry.key ∷ []) };
        bucket_name = bucket;
        time = if is_folder && time == 0 then now else time;
        size = entry.size;
        type = if is_folder then dir else regular;
        storage_class = entry.storage_class;
        metadata = entry.metadata;
        tags = entry.user_tags;
        user_metadata = entry.user_metadata;
        etag = entry.etag;
        version_id = entry.version_id;
        is_delete_marker = entry.is_delete_marker;
        is_latest = entry.is_latest;
        err = none;
      }

  -- none for a panic
  unfoldable pub object_info2_client_content : S3Client → Bytes → ObjectInfo → Option ClientContent
  object_info2_client_content c bucket entry =
      if is_empty bucket then none else some (object_content c bucket entry)
