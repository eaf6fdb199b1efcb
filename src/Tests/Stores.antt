-- ===== src/Tests/Stores.antt =====
-- The client for object stores of cmd/client-s3.go: addresses, a listing at a past time, and a removal.
use oss_mc.Base.{
  ℕ, false, true, List, [], ◌∷◌, Option, none, Bytes, ok, ◌≡◌, refl, arith, map, flat,
}
use oss_mc.ClientUrl.{ClientUrl, object_storage}
use oss_mc.Content.{content_of_url, StringMap}
use oss_mc.Errors.{Error}
use oss_mc.Rm.{RemoveResult}
use oss_mc.S3.{
  S3Client, ObjectInfo, split_path, split_n, split_str, url2_bucket_and_object, object_content,
}
use oss_mc.S3.Listing.{S3ListOptions, S3Api, list_versions, dir_none}
use oss_mc.S3.Listing.Rewind.{Group, current_of, list_versions_lem}
use oss_mc.S3.Paths.{split_path-object_content}
use oss_mc.S3.Remove.{Received, received, finished, remove}
use oss_mc.S3.Remove.Quiet.{dispatched}
use oss_mc.S3.Remove.Batches.{targets, remove-dispatched}
use oss_mc.Strings.{codes, equal, has_prefix, is_empty, split_once, trim_prefix}

abbrev store_url : Bytes → ClientUrl
store_url path = record {
  type = object_storage;
  scheme = codes "https";
  host = codes "play.min.io";
  path = path;
  scheme_separator = codes "://";
  separator = b'/';
}

abbrev store : S3Client
store = record { target_url = store_url (codes "/"); virtual_style = false }

abbrev version : ℕ → Bytes → ObjectInfo
version time key = record {
  key = key;
  size = 7;
  etag = [];
  last_modified = time;
  version_id = codes "v";
  storage_class = [];
  is_delete_marker = false;
  is_latest = false;
  metadata = [];
  user_metadata = [];
  user_tags = [];
  err = none;
}

abbrev no_time : StringMap → ℕ
no_time m = 0

split_path-object_content_example :
    (split_path store
        (object_content 9 no_time store (codes "b") (version 5 (codes "x/y"))).url.path
      ≡ (codes "b", codes "x/y"))
    × (url2_bucket_and_object
          (object_content 9 no_time store (codes "b") (version 5 (codes "x/y"))).url
        ≡ (codes "b", codes "x/y"))
split_path-object_content_example =
    split_path-object_content 9 no_time store (codes "b") (version 5 (codes "x/y")) refl
      ((λ e. omega (arith, e)), tt)

abbrev two_keys : List Group
two_keys =
    record { key = codes "x"; versions = version 8 (codes "x") ∷ version 5 (codes "x") ∷ [] }
    ∷ record { key = codes "y"; versions = version 6 (codes "y") ∷ [] }
    ∷ []

abbrev store_api : S3Api
store_api = record {
  list_buckets = ok [];
  list_objects = λ b q. flat (map (λ (g : Group). g.versions) two_keys);
  stat_object = λ b o v z. (version 5 o, none);
  bucket_exists = λ b. ok true;
  is_google = λ h. false;
  error_code = λ e. [];
}

abbrev rewound : S3ListOptions
rewound = record {
  incomplete = false;
  recursive = true;
  with_metadata = false;
  with_older_versions = false;
  with_delete_markers = false;
  list_zip = false;
  time_ref = 7;
  show_dir = dir_none;
}

list_versions_lem_example :
    list_versions store_api (codes "b") [] rewound
    ≡ flat (map (λ (g : Group). current_of rewound g.versions) two_keys)
unfolding is_empty equal
list_versions_lem_example =
    list_versions_lem store_api (codes "b") [] rewound two_keys refl refl (refl, (refl, tt))
      (((refl, refl), ((refl, refl), tt)), ((refl, tt), (((refl, refl), tt), (tt, tt)))) refl

abbrev no_answers : ℕ → List RemoveResult
no_answers n = []

abbrev no_failure : ℕ → Bytes → Option Error
no_failure n b = none

abbrev all_deleted : Bytes → Bytes → Option Error
all_deleted b o = none

abbrev no_text : Error → Bytes
no_text e = []

abbrev from_two_buckets : List Received
from_two_buckets =
    received (content_of_url (store_url (codes "/a/x")))
    ∷ received (content_of_url (store_url (codes "/b/y")))
    ∷ []

remove-dispatched_example :
    ((remove no_text no_answers no_answers no_failure all_deleted store false false false
        from_two_buckets).1
      ≡ finished)
    × (dispatched []
          (remove no_text no_answers no_answers no_failure all_deleted store false false false
            from_two_buckets).0
        ≡ targets no_text no_answers no_answers no_failure all_deleted store false false
            from_two_buckets)
unfolding is_empty split_path split_str split_n split_once trim_prefix has_prefix
remove-dispatched_example =
    remove-dispatched no_text no_answers no_answers no_failure all_deleted store false false
      from_two_buckets refl (λ k b. refl) (refl, (refl, (refl, (refl, tt))))
