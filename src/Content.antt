-- ===== src/Content.antt =====
-- cmd/client.go and cmd/urls.go: the record of a listed object, and the pair of a source and a
-- target that the copying commands pass on. A time is its nanoseconds since Go's zero time, so
-- `IsZero` is a test for 0; a Go map is an association list in which a missing key reads as empty.
use oss_mc.Base.{ℕ, Bool, true, false, List, [], ◌∷◌, Option, none, some, Bytes, if◌then◌else◌}
use oss_mc.ClientUrl.{ClientUrl}
use oss_mc.Errors.{Error}
use oss_mc.Strings.{equal}

-- `os.FileMode`, as far as `IsRegular` and `IsDir` tell modes apart.
pub data FileMode : Type 0 where
  regular dir irregular : FileMode

abbrev pub is_regular : FileMode → Bool
is_regular regular = true
is_regular dir = false
is_regular irregular = false

abbrev pub is_dir : FileMode → Bool
is_dir dir = true
is_dir regular = false
is_dir irregular = false

abbrev pub StringMap : Type 0
StringMap = List (Bytes × Bytes)

unfoldable pub lookup : StringMap → Bytes → Option Bytes
unfolding equal
lookup [] k = none
lookup ((j, v) ∷ m) k = if equal j k then some v else lookup m k

-- `m[k]`
unfoldable pub get : StringMap → Bytes → Bytes
unfolding lookup
get m k = elim (lookup m k) [ none ↦ [] | some v ↦ v ]

-- `ClientContent`, less the fields that no modelled operation reads (expiration, retention, legal
-- hold, replication and restore state). The size is an `int64`, held as the number that its 64 bits spell.
pub record ClientContent : Type 0 where
  pub url : ClientUrl
  pub bucket_name : Bytes
  pub time : ℕ
  pub size : ℕ
  pub type : FileMode
  pub storage_class : Bytes
  pub metadata : StringMap
  pub tags : StringMap
  pub user_metadata : StringMap
  pub etag : Bytes
  pub version_id : Bytes
  pub is_delete_marker : Bool
  pub is_latest : Bool
  pub err : Option Error

-- `ClientContent{URL: url}`: every other field has its zero value.
abbrev pub content_of_url : ClientUrl → ClientContent
content_of_url u = record {
  url = u;
  bucket_name = [];
  time = 0;
  size = 0;
  type = regular;
  storage_class = [];
  metadata = [];
  tags = [];
  user_metadata = [];
  etag = [];
  version_id = [];
  is_delete_marker = false;
  is_latest = false;
  err = none;
}
