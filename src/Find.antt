-- ===== src/Find.antt =====
-- cmd/find.go: which objects `mc find` takes, and the path that it prints. Parameters:
-- `wildcard_match` is the matcher of a library, `file_match` is whether `filepath.Match` gives a match
-- and no error, and the regular expressions are given by what they accept. The sizes are the numbers
-- that the 64 bits of an `int64` spell; the limits come from an unsigned option. The depth, which the
-- code turns from a `uint` into an `int`, is taken to be below 2^63.
pub mod Depth
pub mod Match
use oss_mc.Ages.{Ending, is_older, is_newer, signed_ltb}
use oss_mc.Base.{
  ℕ, Bool, true, false, not, ◌&&◌, ◌||◌, List, [], ◌∷◌, ◌++◌, Option, none, some, Bytes, Fallible,
  ok, err, if◌then◌else◌, take, drop, ltb, ◌==◌, some_of,
}
use oss_mc.ClientUrl.{ClientUrl, to_string}
use oss_mc.Content.{StringMap, get, lookup}
use oss_mc.Strings.{
  cons_head, equal, has_prefix, index, is_empty, split, trim_prefix, trim_suffix, codes,
}
use oss_mc.Strings.Paths.{base_name}

-- `strings.SplitAfter` at a separator of one byte
unfoldable pub split_after : Bytes → ℕ → List Bytes
split_after [] b = [] ∷ []
split_after (c ∷ s) b =
    let rest = split_after s b in if c == b then (c ∷ []) ∷ rest else cons_head c rest

-- `strings.Join` with nothing between the parts
unfoldable pub concat : List Bytes → Bytes
concat [] = []
concat (p ∷ ps) = p ++ concat ps

unfoldable pub trim_suffix_at_max_depth : Bytes → Bytes → ℕ → ℕ → Bytes
trim_suffix_at_max_depth start path separator max_depth =
    if max_depth == 0
    then path
    else start ++ concat (take max_depth (split_after (trim_prefix path start) separator))

-- `findContext`, less what only printing and executing read; a regular expression is its test.
pub record FindContext : Type 0 where
  pub url : ClientUrl
  pub target_alias : Bytes
  pub target_url : Bytes
  pub target_full_url : Bytes
  pub ignore_pattern : Bytes
  pub name_pattern : Bytes
  pub path_pattern : Bytes
  pub regex_pattern : Option (Bytes → Bool)
  pub older_than : Bytes
  pub newer_than : Bytes
  pub larger_size : ℕ
  pub smaller_size : ℕ
  pub max_depth : ℕ
  pub match_meta : List (Bytes × Option (Bytes → Bool))
  pub match_tags : List (Bytes × Option (Bytes → Bool))

-- the fields of `contentMessage` that are looked at
pub record ContentMessage : Type 0 where
  pub key : Bytes
  pub time : ℕ
  pub size : ℕ
  pub metadata : StringMap
  pub tags : StringMap

-- `path[i:]` from the first place of the prefix, if that is not the start
abbrev from_prefix : Bytes → Bytes → Bytes
from_prefix path prefix = elim (index path prefix) [
  | none ↦ path
  | some i ↦ if ltb 0 i then drop i path else path
]

unfoldable pub get_aliased_path : FindContext → Bytes → Bytes
get_aliased_path ctx path =
    let aliased =
      if not (is_empty ctx.target_alias)
      then ctx.target_alias
        ++ trim_prefix path (trim_suffix ctx.target_full_url (ctx.url.separator ∷ []))
      else from_prefix path (to_string ctx.url) in
    trim_suffix_at_max_depth ctx.target_url aliased ctx.url.separator ctx.max_depth

-- the path that the patterns are matched against
unfoldable pub match_path : FindContext → ContentMessage → Bytes
match_path ctx content =
    let separator = ctx.url.separator ∷ [] in
    trim_prefix content.key (
      if not (has_prefix ctx.target_url separator)
      then ctx.target_url ++ separator
      else ctx.target_url)

-- one entry of `matchRegexMaps`
unfoldable pub match_regex : StringMap → Bytes → Option (Bytes → Bool) → Bool
match_regex m k none = is_empty (get m k)
match_regex m k (some accepts) = elim (lookup m k) [ none ↦ false | some v ↦ accepts v ]

unfoldable pub match_regex_maps : List (Bytes × Option (Bytes → Bool)) → StringMap → Bool
match_regex_maps [] v = true
match_regex_maps ((k, r) ∷ m) v = match_regex v k r && match_regex_maps m v

-- a test that is made only if its option is set
abbrev pub where_set : Bool → Bool → Bool
where_set set test = not set || test

-- the tests of sizes, metadata and tags, which come last
unfoldable pub match_rest : FindContext → ContentMessage → Bool
match_rest ctx content =
    where_set (ltb 0 ctx.larger_size) (signed_ltb ctx.larger_size content.size)
    && where_set (ltb 0 ctx.smaller_size) (signed_ltb content.size ctx.smaller_size)
    && match_regex_maps ctx.match_meta content.metadata
    && match_regex_maps ctx.match_tags content.tags

module _ (wildcard_match file_match : Bytes → Bytes → Bool) where
  unfoldable pub name_match : Bytes → Bytes → Bool
  name_match pattern path =
      file_match pattern (base_name path) || some_of (λ c. equal c pattern) (split path (codes "/"))

  abbrev pub match_regex_pattern : Option (Bytes → Bool) → Bytes → Bool
  match_regex_pattern none path = true
  match_regex_pattern (some accepts) path = accepts path

  -- the tests of the patterns, which come first
  unfoldable pub match_patterns : FindContext → Bytes → Bool
  match_patterns ctx path =
      where_set (not (is_empty ctx.ignore_pattern)) (not (wildcard_match ctx.ignore_pattern path))
      && where_set (not (is_empty ctx.name_pattern)) (name_match ctx.name_pattern path)
      && where_set (not (is_empty ctx.path_pattern)) (wildcard_match ctx.path_pattern path)
      && match_regex_pattern ctx.regex_pattern path

  module _ (float_part : ℕ → ℕ → ℕ → ℕ) (since : ℕ → ℕ) where
    unfoldable pub match_find : FindContext → ContentMessage → Fallible Ending Bool
    match_find ctx content = elim (match_patterns ctx (match_path ctx content)) [
      | false ↦ ok false
      | true ↦ elim (is_older float_part since content.time ctx.older_than) [
        | err e ↦ err e
        | ok true ↦ ok false
        | ok false ↦ elim (is_newer float_part since content.time ctx.newer_than) [
          | err e ↦ err e
          | ok true ↦ ok false
          | ok false ↦ ok (match_rest ctx content)
        ]
      ]
    ]
