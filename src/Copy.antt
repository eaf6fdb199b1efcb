-- ===== src/Copy.antt =====
-- cmd/cp-url.go: the pairs of a source and a target that the copying commands work through. A
-- channel is the list of what its sender sends, with how the sender stops; an element is sent only
-- after those in front of it have been received. `fatalIf` ends the program.
pub mod Regular
pub mod Ages
pub mod Targets
pub mod Syntax
use oss_mc.Ages.{Ending, finished, exits, panics, is_older, is_newer}
use oss_mc.Base.{
  ℕ, suc, Bool, true, false, not, ◌||◌, ◌&&◌, List, [], ◌∷◌, ◌++◌, Option, none, some, Bytes,
  Fallible, ok, err, if◌then◌else◌, ltb, take,
}
use oss_mc.ClientUrl.{ClientUrl, new_client_url, to_string, url_join_path}
use oss_mc.Content.{ClientContent, is_dir, is_regular, content_of_url}
use oss_mc.Difference.{differ_in_unknown}
use oss_mc.Errors.{Error, invalid_argument, invalid_source, source_is_dir}
use oss_mc.Mirror.{Urls, copy_urls, failed_urls}
use oss_mc.Remote.{Remote, Client, url2_stat, first_url2_stat, is_alias_url_dir}
use oss_mc.Strings.Paths.{base_name, join_path}
use oss_mc.Strings.{is_empty, last_index_byte, trim_prefix}

pub data CopyUrlsType : Type 0 where
  type_invalid type_a type_b type_c type_d : CopyUrlsType

-- `prepareCopyURLsOpts`, less the encryption keys
pub record PrepareCopyUrlsOpts : Type 0 where
  pub source_urls : List Bytes
  pub target_url : Bytes
  pub is_recursive : Bool
  pub older_than : Bytes
  pub newer_than : Bytes
  pub time_ref : ℕ
  pub version_id : Bytes
  pub is_zip : Bool

abbrev pub failed : Error → Urls
failed e = failed_urls e differ_in_unknown

unfoldable pub make_copy_content_type_a : Bytes → ClientContent → Bytes → Bytes → Urls
make_copy_content_type_a source_alias source target_alias target_url =
    copy_urls source_alias (some source) target_alias (content_of_url (new_client_url target_url))

-- the folder's address with the source's last name behind its path
unfoldable pub target_in_folder : ClientUrl → ClientContent → Bytes
target_in_folder target source =
    to_string (record target { path = join_path target.path (base_name source.url.path) })

unfoldable pub make_copy_content_type_b : Bytes → ClientContent → Bytes → Bytes → Urls
make_copy_content_type_b source_alias source target_alias target_url =
    make_copy_content_type_a source_alias source target_alias
      (target_in_folder (new_client_url target_url) source)

-- what stands behind the folder's parent in a name below the folder
unfoldable pub source_suffix : ClientUrl → ClientContent → Bytes
source_suffix folder source = elim (last_index_byte folder.path folder.separator) [
  | none ↦ source.url.path
  | some i ↦ if ltb 1 i then trim_prefix source.url.path (take i folder.path) else source.url.path
]

unfoldable pub make_copy_content_type_c : Bytes → ClientUrl → ClientContent → Bytes → Bytes → Urls
make_copy_content_type_c source_alias folder source target_alias target_url =
    make_copy_content_type_a source_alias source target_alias
      (url_join_path target_url (source_suffix folder source))

-- one element of a folder's listing
unfoldable pub copy_listed : Bytes → ClientUrl → Bytes → Bytes → ClientContent → List Urls
copy_listed source_alias folder target_alias target_url source = elim source.err [
  | some e ↦ failed e ∷ []
  | none ↦
      if not (is_regular source.type)
      then []
      else make_copy_content_type_c source_alias folder source target_alias target_url ∷ []
]

unfoldable pub copy_listing : Bytes → ClientUrl → Bytes → Bytes → List ClientContent → List Urls
copy_listing source_alias folder target_alias target_url [] = []
copy_listing source_alias folder target_alias target_url (source ∷ sources) =
    copy_listed source_alias folder target_alias target_url source
    ++ copy_listing source_alias folder target_alias target_url sources

module _ (remote : Remote) where
  unfoldable pub guess_copy_url_type : PrepareCopyUrlsOpts → Fallible Error (CopyUrlsType × Bytes)
  guess_copy_url_type o = elim o.source_urls [
    | (source ∷ []) ↦
        elim (if not o.is_recursive
          then url2_stat remote source o.version_id o.time_ref o.is_zip
          else first_url2_stat remote source o.time_ref o.is_zip) [
            | err e ↦ err e
            | ok content ↦
                if is_dir content.type || o.is_recursive
                then ok (type_c, [])
                else if is_alias_url_dir remote o.target_url o.time_ref
                then ok (type_b, content.version_id)
                else ok (type_a, content.version_id)
          ]
    | _ ↦
        if is_alias_url_dir remote o.target_url o.time_ref
        then ok (type_d, [])
        else err invalid_argument
  ]

  unfoldable pub prepare_copy_urls_type_a : Bytes → Bytes → Bytes → Bool → Urls
  prepare_copy_urls_type_a source_url source_version target_url zip =
      let source_alias = (remote.must_expand_alias source_url).0 in
      let (target_alias, target) = remote.must_expand_alias target_url in
      elim (url2_stat remote source_url source_version 0 zip) [
        | err e ↦ failed e
        | ok source ↦
            if not (is_regular source.type)
            then failed (invalid_source source_url)
            else make_copy_content_type_a source_alias source target_alias target
      ]

  unfoldable pub prepare_copy_urls_type_b : Bytes → Bytes → Bytes → Bool → Urls
  prepare_copy_urls_type_b source_url source_version target_url zip =
      let source_alias = (remote.must_expand_alias source_url).0 in
      let (target_alias, target) = remote.must_expand_alias target_url in
      elim (url2_stat remote source_url source_version 0 zip) [
        | err e ↦ failed e
        | ok source ↦
            if not (is_regular source.type)
            then (if is_dir source.type
                then failed (source_is_dir source_url)
                else failed (invalid_source source_url))
            else make_copy_content_type_b source_alias source target_alias target
      ]

  unfoldable pub prepare_copy_urls_type_c : Bytes → Bytes → Bool → Bool → ℕ → List Urls
  prepare_copy_urls_type_c source_url target_url recursive zip time =
      let source_alias = (remote.must_expand_alias source_url).0 in
      let (target_alias, target) = remote.must_expand_alias target_url in
      elim (remote.new_client source_url) [
        | err e ↦ failed e ∷ []
        | ok client ↦ copy_listing source_alias client.get_url target_alias target (
            client.list
              (record { recursive = recursive; time_ref = time; count = 0; list_zip = zip }))
      ]

  unfoldable pub prepare_copy_urls_type_d : List Bytes → Bytes → Bool → ℕ → List Urls
  prepare_copy_urls_type_d [] target_url recursive time = []
  prepare_copy_urls_type_d (source ∷ sources) target_url recursive time =
      prepare_copy_urls_type_c source target_url recursive false time
      ++ prepare_copy_urls_type_d sources target_url recursive time

  -- the switch on the type of copy, with `o.sourceURLs[0]`
  unfoldable pub copy_urls_of_type : PrepareCopyUrlsOpts → CopyUrlsType → Bytes → Bytes → List Urls
  copy_urls_of_type o type_a version source =
      prepare_copy_urls_type_a source version o.target_url o.is_zip ∷ []
  copy_urls_of_type o type_b version source =
      prepare_copy_urls_type_b source version o.target_url o.is_zip ∷ []
  copy_urls_of_type o type_c version source =
      prepare_copy_urls_type_c source o.target_url o.is_recursive o.is_zip o.time_ref
  copy_urls_of_type o type_d version source =
      prepare_copy_urls_type_d o.source_urls o.target_url o.is_recursive o.time_ref
  copy_urls_of_type o type_invalid version source = failed invalid_argument ∷ []

-- `o.sourceURLs[0]`, where there is one
abbrev pub first_source : List Bytes → Bytes
first_source [] = []
first_source (s ∷ ss) = s

module _ (float_part : ℕ → ℕ → ℕ → ℕ) (since : ℕ → ℕ) where
  -- Whether a pair is passed over, where its source content is there to look at.
  unfoldable pub skips_content : Bytes → Bytes → ClientContent → Fallible Ending Bool
  skips_content older_than newer_than source =
      elim (is_older float_part since source.time older_than) [
        | err e ↦ err e
        | ok true ↦ ok true
        | ok false ↦ is_newer float_part since source.time newer_than
      ]

  -- a missing source content is a nil pointer, which is followed if one of the options is set
  unfoldable pub skips : Bytes → Bytes → Urls → Fallible Ending Bool
  skips older_than newer_than pair = elim pair.source_content [
    | none ↦ if is_empty older_than && is_empty newer_than then ok false else err panics
    | some source ↦ skips_content older_than newer_than source
  ]

  abbrev pub sends_first : Urls → List Urls × Ending → List Urls × Ending
  sends_first pair rest = (pair ∷ rest.0, rest.1)

  unfoldable pub filter_ages : Bytes → Bytes → List Urls → List Urls × Ending
  filter_ages older_than newer_than [] = ([], finished)
  filter_ages older_than newer_than (pair ∷ pairs) = elim (skips older_than newer_than pair) [
    | err e ↦ ([], e)
    | ok true ↦ filter_ages older_than newer_than pairs
    | ok false ↦ sends_first pair (filter_ages older_than newer_than pairs)
  ]

  unfoldable pub prepare_copy_urls : Remote → PrepareCopyUrlsOpts → List Urls × Ending
  prepare_copy_urls remote o = elim (guess_copy_url_type remote o) [
    | err e ↦ ([], exits)
    | ok (type, version) ↦
        filter_ages o.older_than o.newer_than
          (copy_urls_of_type remote o type version (first_source o.source_urls))
  ]
