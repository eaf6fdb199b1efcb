-- ===== src/Mirror.antt =====
-- cmd/mirror-url.go: `deltaSourceTarget` turns the messages of a comparison into the copies and the
-- removals of a mirror. Parameters: `wildcard_match` is the pattern matcher of a library,
-- `must_expand_alias` reads the configuration and gives the alias and the full address,
-- `new_client_from_alias` gives the error of connecting, if there is one, and `object_difference` is
-- the comparison of the two sides, as the list of what its channel yields.
pub mod Plan
use oss_mc.Base.{
  ℕ, Bool, true, false, not, ◌&&◌, ◌||◌, List, [], ◌∷◌, ◌++◌, Option, none, some, Bytes,
  if◌then◌else◌,
}
use oss_mc.ClientUrl.{new_client_url, url_join_path, ClientUrl}
use oss_mc.Content.{ClientContent, StringMap, content_of_url}
use oss_mc.Difference.{
  DifferType, differ_in_unknown, differ_in_none, differ_in_size, differ_in_metadata, differ_in_type,
  differ_in_first, differ_in_second, differ_in_aa_source_mtime, DiffMessage, differ_name,
}
use oss_mc.Errors.{Error, invalid_target, overwrite_not_allowed, unrecognized_diff_type}
use oss_mc.Strings.{has_suffix, trim_prefix}

-- `URLs`, less the totals and the flags that the transfer sets.
pub record Urls : Type 0 where
  pub source_alias : Bytes
  pub source_content : Option ClientContent
  pub target_alias : Bytes
  pub target_content : Option ClientContent
  pub error : Option Error
  pub error_cond : DifferType

-- `mirrorOptions`, less what only the transfer reads.
pub record MirrorOptions : Type 0 where
  pub is_fake : Bool
  pub is_overwrite : Bool
  pub active_active : Bool
  pub is_remove : Bool
  pub is_metadata : Bool
  pub exclude_options : List Bytes

abbrev pub failed_urls : Error → DifferType → Urls
failed_urls e d = record {
  source_alias = [];
  source_content = none;
  target_alias = [];
  target_content = none;
  error = some e;
  error_cond = d;
}

abbrev pub copy_urls : Bytes → Option ClientContent → Bytes → ClientContent → Urls
copy_urls source_alias source target_alias target = record {
  source_alias = source_alias;
  source_content = source;
  target_alias = target_alias;
  target_content = some target;
  error = none;
  error_cond = differ_in_unknown;
}

abbrev pub remove_urls : Bytes → Option ClientContent → Urls
remove_urls target_alias target = record {
  source_alias = [];
  source_content = none;
  target_alias = target_alias;
  target_content = target;
  error = none;
  error_cond = differ_in_unknown;
}

-- A folder's address ends in its separator.
abbrev pub as_folder : Bytes → Bytes
as_folder url =
    let separator = (new_client_url url).separator ∷ [] in
    if has_suffix url separator then url else url ++ separator

module _ (wildcard_match : Bytes → Bytes → Bool) where
  unfoldable pub match_exclude_options : List Bytes → Bytes → Bool
  match_exclude_options [] suffix = false
  match_exclude_options (p ∷ ps) suffix =
      if wildcard_match p suffix then true else match_exclude_options ps suffix

  module _ (opts : MirrorOptions) (source_alias source_url target_alias target_url : Bytes) where
    -- the copy of a message's object to its place in the target
    unfoldable pub copy_of : DiffMessage → Urls
    copy_of m = copy_urls source_alias m.first_content target_alias (
        content_of_url
          (new_client_url (url_join_path target_url (trim_prefix m.first_url source_url))))

    abbrev overwrite : DiffMessage → List Urls
    overwrite m =
        if not opts.is_overwrite && not opts.is_fake && not opts.active_active
        then failed_urls (overwrite_not_allowed m.second_url) m.diff ∷ []
        else copy_of m ∷ []

    -- the switch on the kind of difference
    unfoldable pub delta_of : DifferType → DiffMessage → List Urls
    delta_of differ_in_none m = []
    delta_of differ_in_type m = failed_urls (invalid_target m.second_url) differ_in_unknown ∷ []
    delta_of differ_in_size m = overwrite m
    delta_of differ_in_metadata m = overwrite m
    delta_of differ_in_aa_source_mtime m = overwrite m
    delta_of differ_in_first m = copy_of m ∷ []
    delta_of differ_in_second m =
        if not opts.is_remove && not opts.is_fake
        then []
        else remove_urls target_alias m.second_content ∷ []
    delta_of differ_in_unknown m =
        failed_urls (unrecognized_diff_type (differ_name m.diff)) m.diff ∷ []

    -- one round of the loop over the messages
    unfoldable pub delta_message : DiffMessage → List Urls
    delta_message m = elim m.error [
      | some e ↦ failed_urls e differ_in_unknown ∷ []
      | none ↦
          if match_exclude_options opts.exclude_options (trim_prefix m.first_url source_url)
          then []
          else if match_exclude_options opts.exclude_options (trim_prefix m.second_url target_url)
          then []
          else delta_of m.diff m
    ]

    unfoldable pub delta_messages : List DiffMessage → List Urls
    delta_messages [] = []
    delta_messages (m ∷ ms) = delta_message m ++ delta_messages ms

  module _ (opts : MirrorOptions) (must_expand_alias : Bytes → Bytes × Bytes)
      (new_client_from_alias : Bytes → Bytes → Option Error)
      (object_difference : Bytes → Bytes → Bytes → Bytes → Bool → List DiffMessage) where
    unfoldable pub delta_source_target : Bytes → Bytes → List Urls
    delta_source_target source_url target_url =
        let (source_alias, source_full) = must_expand_alias (as_folder source_url) in
        let (target_alias, target_full) = must_expand_alias (as_folder target_url) in
        elim (new_client_from_alias source_alias source_full) [
          | some e ↦ failed_urls e differ_in_unknown ∷ []
          | none ↦ elim (new_client_from_alias target_alias target_full) [
            | some e ↦ failed_urls e differ_in_unknown ∷ []
            | none ↦ delta_messages opts source_alias source_full target_alias target_full (
                object_difference source_alias source_full target_alias target_full
                  opts.is_metadata)
          ]
        ]
