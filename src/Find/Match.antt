-- ===== src/Find/Match.antt =====
-- When `matchFind` of cmd/find.go takes an object.
use oss_mc.Ages.{is_older, is_newer, signed_ltb}
use oss_mc.Base.{
  ℕ, Bool, true, false, List, [], ◌∷◌, Option, ◌≡◌, ◌⊎◌, ◌↔◌, refl, arith, Bytes, ok, All,
}
use oss_mc.Content.{StringMap}
use oss_mc.Find.{
  FindContext, ContentMessage, match_regex, match_regex_maps, match_patterns, match_rest,
  match_find, match_path, name_match, match_regex_pattern,
}
use oss_mc.Strings.{is_empty}

match_regex_maps_iff :
    (m : List (Bytes × Option (Bytes → Bool))) (v : StringMap)
    → (match_regex_maps m v ≡ true) ↔ All (λ r. match_regex v r.0 r.1 ≡ true) m
unfolding match_regex_maps
match_regex_maps_iff [] v = (λ h. tt, λ h. refl)
match_regex_maps_iff ((k, r) ∷ m) v =
    let rest = match_regex_maps_iff m v in
    (λ h. (ground arith, rest.0 (ground arith)), λ h. let e = rest.1 h.1 in ground (arith, h.0, e))

module _ (wildcard_match file_match : Bytes → Bytes → Bool) (float_part : ℕ → ℕ → ℕ → ℕ)
    (since : ℕ → ℕ) (ctx : FindContext) (content : ContentMessage) where
  abbrev path : Bytes
  path = match_path ctx content

  -- What is asked of an object that is taken, option by option.
  pub record Taken : Type 0 where
    pub not_ignored :
        (is_empty ctx.ignore_pattern ≡ true) ⊎ (wildcard_match ctx.ignore_pattern path ≡ false)
    pub name :
        (is_empty ctx.name_pattern ≡ true)
        ⊎ (name_match wildcard_match file_match ctx.name_pattern path ≡ true)
    pub whole_path :
        (is_empty ctx.path_pattern ≡ true) ⊎ (wildcard_match ctx.path_pattern path ≡ true)
    pub regex : match_regex_pattern wildcard_match file_match ctx.regex_pattern path ≡ true
    pub not_older : is_older float_part since content.time ctx.older_than ≡ ok false
    pub not_newer : is_newer float_part since content.time ctx.newer_than ≡ ok false
    pub larger : (ctx.larger_size ≡ 0) ⊎ (signed_ltb ctx.larger_size content.size ≡ true)
    pub smaller : (ctx.smaller_size ≡ 0) ⊎ (signed_ltb content.size ctx.smaller_size ≡ true)
    pub metadata : All (λ r. match_regex content.metadata r.0 r.1 ≡ true) ctx.match_meta
    pub tags : All (λ r. match_regex content.tags r.0 r.1 ≡ true) ctx.match_tags

  -- The tests in the order of the code.
  record Passed : Type 0 where
    patterns : match_patterns wildcard_match file_match ctx path ≡ true
    older : is_older float_part since content.time ctx.older_than ≡ ok false
    newer : is_newer float_part since content.time ctx.newer_than ≡ ok false
    rest : match_rest ctx content ≡ true

  match_find-Passed :
      match_find wildcard_match file_match float_part since ctx content ≡ ok true → Passed
  unfolding match_find
  match_find-Passed h = record {
    patterns = ground arith;
    older = ground arith;
    newer = ground arith;
    rest = ground arith;
  }

  Passed-Taken : Passed → Taken
  unfolding match_patterns match_rest
  Passed-Taken p =
      let patterns = p.patterns in
      let rest = p.rest in
      record {
        not_ignored = ground arith;
        name = ground arith;
        whole_path = ground arith;
        regex = ground arith;
        not_older = p.older;
        not_newer = p.newer;
        larger = ground arith;
        smaller = ground arith;
        metadata = (match_regex_maps_iff ctx.match_meta content.metadata).0 (ground arith);
        tags = (match_regex_maps_iff ctx.match_tags content.tags).0 (ground arith);
      }

  Taken-rest : Taken → match_rest ctx content ≡ true
  unfolding match_rest
  Taken-rest t =
      let m = (match_regex_maps_iff ctx.match_meta content.metadata).1 t.metadata in
      let g = (match_regex_maps_iff ctx.match_tags content.tags).1 t.tags in
      ground (arith, t.larger, t.smaller, m, g)

  Taken-patterns : Taken → match_patterns wildcard_match file_match ctx path ≡ true
  unfolding match_patterns
  Taken-patterns t = ground (arith, t.not_ignored, t.name, t.whole_path, t.regex)

  Taken-found : Taken → match_find wildcard_match file_match float_part since ctx content ≡ ok true
  unfolding match_find
  Taken-found t = ground (arith, Taken-patterns t, t.not_older, t.not_newer, Taken-rest t)

  -- An object is taken exactly when every test of an option that is set holds: those of the
  -- patterns, both ages, both sizes, and those of metadata and tags.
  pub match_find-Taken :
      (match_find wildcard_match file_match float_part since ctx content ≡ ok true) ↔ Taken
  match_find-Taken = (λ h. Passed-Taken (match_find-Passed h), Taken-found)
