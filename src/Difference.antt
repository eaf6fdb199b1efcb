-- ===== src/Difference.antt =====
-- cmd/difference.go: what differs between two listings. `differenceInternal` walks the source's and
-- the target's listing side by side; a channel is a list, and what stands behind its last element
-- is its end. One round of the loop is `diff_step`; the loop takes fuel, and `none` says that it
-- has not ended within it. The parts outside the repository are parameters: `nfc` is
-- `norm.NFC.String`, and `parse_time` is `time.Parse` at `time.RFC3339Nano`, none for its error.
pub mod Metadata
pub mod Keys
pub mod Merge
pub mod Walk
pub mod Stuck
pub mod Result
pub mod Origins
use oss_mc.Base.{
  ℕ, zero, suc, Bool, true, false, not, ◌&&◌, ◌||◌, List, [], ◌∷◌, ◌++◌, Option, none, some, Bytes,
  ltb, ◌==◌, if◌then◌else◌,
}
use oss_mc.ClientUrl.{to_string, url_join_path}
use oss_mc.Content.{FileMode, ClientContent, StringMap, get, is_regular}
use oss_mc.Errors.{
  Error, invalid_source, invalid_target, path_not_found, path_insufficient_permission,
  path_not_a_directory, error_response,
}
use oss_mc.Strings.Utf8.{valid_string}
use oss_mc.Strings.{codes, equal, is_empty, less, trim_prefix}

pub data DifferType : Type 0 where
  differ_in_unknown differ_in_none differ_in_size differ_in_metadata : DifferType
  differ_in_type differ_in_first differ_in_second differ_in_aa_source_mtime : DifferType

-- `differType.String`
unfoldable pub differ_name : DifferType → Bytes
differ_name differ_in_none = []
differ_name differ_in_size = codes "size"
differ_name differ_in_metadata = codes "metadata"
differ_name differ_in_aa_source_mtime = codes "mm-source-mtime"
differ_name differ_in_type = codes "type"
differ_name differ_in_first = codes "only-in-first"
differ_name differ_in_second = codes "only-in-second"
differ_name differ_in_unknown = codes "unknown"

pub record DiffMessage : Type 0 where
  pub first_url : Bytes
  pub second_url : Bytes
  pub diff : DifferType
  pub error : Option Error
  pub first_content : Option ClientContent
  pub second_content : Option ClientContent

-- `activeActiveSourceModTimeKey`, and what `strings.ToLower` makes of it
abbrev pub active_active_source_mod_time_key : Bytes
active_active_source_mod_time_key = codes "X-Amz-Meta-Mm-Source-Mtime"

abbrev pub active_active_source_mod_time_key_lower : Bytes
active_active_source_mod_time_key_lower = codes "x-amz-meta-mm-source-mtime"

unfoldable pub get_source_mod_time_key : StringMap → Bytes
unfolding get is_empty
get_source_mod_time_key m =
    if not (is_empty (get m active_active_source_mod_time_key))
    then get m active_active_source_mod_time_key
    else if not (is_empty (get m active_active_source_mod_time_key_lower))
    then get m active_active_source_mod_time_key_lower
    else if not (is_empty (get m (codes "mm-source-mtime")))
    then get m (codes "mm-source-mtime")
    else if not (is_empty (get m (codes "Mm-Source-Mtime")))
    then get m (codes "Mm-Source-Mtime")
    else []

-- The keys that `metadataEqual` passes over.
unfoldable pub is_mod_time_key : Bytes → Bool
unfolding equal
is_mod_time_key k =
    equal k active_active_source_mod_time_key || equal k active_active_source_mod_time_key_lower

-- One of the two loops of `metadataEqual`: the entries of `m1` against `m2`.
unfoldable pub covered : StringMap → StringMap → Bool
unfolding is_mod_time_key get
covered [] m2 = true
covered ((k, v) ∷ m1) m2 = (if is_mod_time_key k then true else equal (get m2 k) v) && covered m1 m2

unfoldable pub metadata_equal : StringMap → StringMap → Bool
unfolding covered
metadata_equal m1 m2 = covered m1 m2 && covered m2 m1

module _ (parse_time : Bytes → Option ℕ) where
  -- An empty text is the zero time.
  unfoldable pub parse_origin : Bytes → Option ℕ
  unfolding is_empty
  parse_origin s = if not (is_empty s) then parse_time s else some 0

  abbrev later_origin : ℕ → ℕ → ℕ
  later_origin origin time = if not (origin == 0) && ltb time origin then origin else time

  -- `activeActiveModTimeUpdated` behind its early returns
  unfoldable pub origins_updated : ℕ → ℕ → Option ℕ → Option ℕ → Bool
  origins_updated src_time dst_time none dst_origin = false
  origins_updated src_time dst_time (some s) none = false
  origins_updated src_time dst_time (some s) (some d) =
      ltb (later_origin d dst_time) (later_origin s src_time)

  unfoldable pub active_active_mod_time_updated : ClientContent → ClientContent → Bool
  active_active_mod_time_updated src dst =
      let src_mod_time = get_source_mod_time_key src.user_metadata in
      let dst_mod_time = get_source_mod_time_key dst.user_metadata in
      if src.time == 0 || dst.time == 0
      then false
      else if is_empty src_mod_time && is_empty dst_mod_time
      then ltb dst.time src.time
      else origins_updated src.time dst.time (parse_origin src_mod_time) (parse_origin dst_mod_time)

abbrev pub only_first : ClientContent → DiffMessage
only_first s = record {
  first_url = to_string s.url;
  second_url = [];
  diff = differ_in_first;
  error = none;
  first_content = some s;
  second_content = none;
}

abbrev pub only_second : ClientContent → DiffMessage
only_second t = record {
  first_url = [];
  second_url = to_string t.url;
  diff = differ_in_second;
  error = none;
  first_content = none;
  second_content = some t;
}

abbrev pub in_both : DifferType → ClientContent → ClientContent → DiffMessage
in_both d s t = record {
  first_url = to_string s.url;
  second_url = to_string t.url;
  diff = d;
  error = none;
  first_content = some s;
  second_content = some t;
}

abbrev pub failure : Error → DiffMessage
failure e = record {
  first_url = [];
  second_url = [];
  diff = differ_in_unknown;
  error = some e;
  first_content = none;
  second_content = none;
}

abbrev pub type_differs : FileMode → FileMode → Bool
type_differs s t = is_regular s && not (is_regular t) || not (is_regular s) && is_regular t

-- What one round of the loop does: it ends, it returns an error, or it sends messages and goes on.
pub data Round : Type 0 where
  finished : Round
  failed : Error → Round
  sends : List DiffMessage → List ClientContent → List ClientContent → Round

-- The messages sent and the error returned, or none for a loop that has not ended.
abbrev pub Outcome : Type 0
Outcome = Option (List DiffMessage × Option Error)

abbrev pub sent_before : List DiffMessage → Outcome → Outcome
sent_before ms none = none
sent_before ms (some (rest, e)) = some (ms ++ rest, e)

-- The error that stands at the head of a listing.
abbrev pub head_error : List ClientContent → Option Error
head_error [] = none
head_error (c ∷ cs) = c.err

module _ (nfc : Bytes → Bytes) (parse_time : Bytes → Option ℕ) (source_url target_url : Bytes)
    (cmp_metadata return_similar : Bool) where
  -- the changes between two objects of one name and one type
  unfoldable pub changes : ClientContent → ClientContent → List DiffMessage
  unfolding metadata_equal
  changes s t =
      if not (s.size == t.size)
      then in_both differ_in_size s t ∷ []
      else if active_active_mod_time_updated parse_time s t
      then in_both differ_in_aa_source_mtime s t ∷ []
      else if cmp_metadata
          && not (metadata_equal s.user_metadata t.user_metadata)
          && not (metadata_equal s.metadata t.metadata)
      then in_both differ_in_metadata s t ∷ []
      else []

  unfoldable pub pair_messages : ClientContent → ClientContent → List DiffMessage
  pair_messages s t =
      changes s t ++ (if return_similar then in_both differ_in_none s t ∷ [] else [])

  abbrev pub source_suffix : ClientContent → Bytes
  source_suffix s = trim_prefix (to_string s.url) source_url

  abbrev pub target_suffix : ClientContent → Bytes
  target_suffix t = trim_prefix (to_string t.url) target_url

  -- `current` and `expected`, and their normalized forms
  unfoldable pub current : ClientContent → Bytes
  current s = url_join_path target_url (source_suffix s)

  unfoldable pub expected : ClientContent → Bytes
  expected t = url_join_path target_url (target_suffix t)

  unfoldable pub source_key : ClientContent → Bytes
  unfolding current
  source_key s = nfc (current s)

  unfoldable pub target_key : ClientContent → Bytes
  unfolding expected
  target_key t = nfc (expected t)

  -- a round with an element on both sides, none of them an error
  unfoldable pub compare_heads :
      ClientContent → List ClientContent → ClientContent → List ClientContent → Round
  compare_heads s ss t ts =
      if not (valid_string (source_suffix s))
      then sends (failure (invalid_source (current s)) ∷ []) ss (t ∷ ts)
      else if not (valid_string (target_suffix t))
      then sends (failure (invalid_target (expected t)) ∷ []) (s ∷ ss) ts
      else if less (source_key s) (target_key t)
      then sends (only_first s ∷ []) ss (t ∷ ts)
      else if equal (target_key t) (source_key s)
      then (if type_differs s.type t.type
          then sends (in_both differ_in_type s t ∷ []) (s ∷ ss) (t ∷ ts)
          else sends (pair_messages s t) ss ts)
      else sends (only_second t ∷ []) (s ∷ ss) ts

  unfoldable pub next_round : List ClientContent → List ClientContent → Round
  next_round [] [] = finished
  next_round [] (t ∷ ts) = sends (only_second t ∷ []) [] ts
  next_round (s ∷ ss) [] = sends (only_first s ∷ []) ss []
  next_round (s ∷ ss) (t ∷ ts) = compare_heads s ss t ts

  unfoldable pub diff_step : List ClientContent → List ClientContent → Round
  diff_step src tgt = elim (head_error src) [
    | some e ↦ failed e
    | none ↦ elim (head_error tgt) [ some e ↦ failed e | none ↦ next_round src tgt ]
  ]

  -- `differenceInternal`: the messages sent, and the error returned
  unfoldable pub difference_internal : ℕ → List ClientContent → List ClientContent → Outcome
  difference_internal zero src tgt = none
  difference_internal (suc fuel) src tgt = elim (diff_step src tgt) [
    | finished ↦ some ([], none)
    | failed e ↦ some ([], some e)
    | sends ms src' tgt' ↦ sent_before ms (difference_internal fuel src' tgt')
  ]

-- Whether `difference` passes the error on as a message.
unfoldable pub is_reported : Error → Bool
unfolding equal
is_reported (path_not_found p) = true
is_reported (path_insufficient_permission p) = true
is_reported (path_not_a_directory p) = true
is_reported (error_response code text) =
    equal code (codes "NoSuchBucket") || equal code (codes "NoSuchKey")
is_reported e = false

-- `difference` behind `differenceInternal`: what the reader of its channel gets
unfoldable pub report : List DiffMessage → Option Error → List DiffMessage
unfolding is_reported
report ms none = ms
report ms (some e) = if is_reported e then ms ++ failure e ∷ [] else ms
