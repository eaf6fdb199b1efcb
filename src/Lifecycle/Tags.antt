-- ===== src/Lifecycle/Tags.antt =====
-- `extractILMTags` of cmd/ilm/parse.go and `getTags` of cmd/ilm/utils.go: the tags of a rule, read
-- from a text and printed.
use oss_mc.Base.{
  true, false, not, List, [], ◌∷◌, ◌++◌, Option, none, some, ◌≡◌, ◌≢◌, refl, ap, ◌∙◌, arith, Bytes,
  All, All-append, Lacks, if◌then◌else◌,
}
use oss_mc.Lifecycle.{LifecycleSdk, Rule, Tag}
use oss_mc.Strings.{codes, is_empty, split, split_once}
use oss_mc.Strings.Split.{split-Lacks, split_lead, split_once_lead}

-- a tag of a key and, if there is an equals sign, a value
abbrev tag_of : Bytes × Option Bytes → Tag
tag_of (k, none) = record { key = k; value = [] }
tag_of (k, some v) = record { key = k; value = v }

-- the loop over the parts
unfoldable pub tags_of : List Bytes → List Tag
tags_of [] = []
tags_of (t ∷ ts) = if is_empty t then tags_of ts else tag_of (split_once t b'=') ∷ tags_of ts

unfoldable pub extract_ilm_tags : Bytes → List Tag
extract_ilm_tags text = tags_of (split text (codes "&"))

abbrev pub print_tag : Tag → Bytes
print_tag t = t.key ++ b'=' ∷ t.value

-- the loop of `getTags`, a separator behind each tag but the last
unfoldable pub print_tags : List Tag → Bytes
print_tags [] = []
print_tags (t ∷ []) = print_tag t
print_tags (t ∷ u ∷ ts) = print_tag t ++ b'&' ∷ print_tags (u ∷ ts)

unfoldable pub get_tags : LifecycleSdk → Rule → Bytes
get_tags sdk rule =
    if not (sdk.tag_is_empty rule.filter.tag)
    then print_tag rule.filter.tag
    else print_tags rule.filter.and.tags

-- A key with no separator in it, and a value with no `&`.
abbrev pub IsPlain : Tag → Type 0
IsPlain t = Lacks b'=' t.key × Lacks b'&' t.key × Lacks b'&' t.value

print_tag-Lacks : (t : Tag) → IsPlain t → Lacks b'&' (print_tag t)
print_tag-Lacks t (k, l, v) = All-append _ t.key (b'=' ∷ t.value) l (λ e. omega (arith, e), v)

read_tag : (t : Tag) → IsPlain t → tag_of (split_once (print_tag t) b'=') ≡ t
read_tag t (k, l, v) = ap tag_of (split_once_lead b'=' t.key t.value k)

print_tag-ne-nil : (t : Tag) → is_empty (print_tag t) ≡ false
print_tag-ne-nil t = go t.key
  where
    go : (k : Bytes) → is_empty (k ++ b'=' ∷ t.value) ≡ false
    go [] = unfold is_empty in refl
    go (c ∷ k) = unfold is_empty in refl

tags_of-cons :
    (t : Tag) (rest : List Bytes) → IsPlain t → tags_of (print_tag t ∷ rest) ≡ t ∷ tags_of rest
unfolding tags_of
tags_of-cons t rest p = rw (print_tag-ne-nil t, read_tag t p) refl

tags_of-split :
    (ts : List Tag) → ts ≢ [] → All IsPlain ts → tags_of (split (print_tags ts) (codes "&")) ≡ ts
unfolding print_tags
tags_of-split [] n h = absurd (n refl)
tags_of-split (t ∷ []) n (p, h) =
    ap tags_of (split-Lacks b'&' [] (print_tag t) (print_tag-Lacks t p))
    ∙ tags_of-cons t [] p
    ∙ ap (◌∷◌ t) (unfold tags_of in refl)
tags_of-split (t ∷ u ∷ ts) n (p, h) =
    ap tags_of (split_lead b'&' [] (print_tag t) (print_tags (u ∷ ts)) (print_tag-Lacks t p))
    ∙ tags_of-cons t _ p
    ∙ ap (◌∷◌ t) (tags_of-split (u ∷ ts) (λ e. cc) h)

-- The tags that a rule is printed with are read back as its tags, when its filter has no tag of its
-- own beside the list, the list is not empty, no key holds `=` or `&`, and no value holds `&`.
pub extract_ilm_tags-get_tags :
    (sdk : LifecycleSdk) (rule : Rule)
    → sdk.tag_is_empty rule.filter.tag ≡ true
    → rule.filter.and.tags ≢ []
    → All IsPlain rule.filter.and.tags
    → extract_ilm_tags (get_tags sdk rule) ≡ rule.filter.and.tags
unfolding extract_ilm_tags
extract_ilm_tags-get_tags sdk rule e n h =
    let printed : get_tags sdk rule ≡ print_tags rule.filter.and.tags =
      unfold get_tags in ground (arith, e) in
    ap extract_ilm_tags printed ∙ tags_of-split rule.filter.and.tags n h

-- `getPrefix`: the deprecated place first, then the filter's own and that beside its tags
unfoldable pub get_prefix : Rule → Bytes
get_prefix rule =
    if not (is_empty rule.prefix)
    then rule.prefix
    else if not (is_empty rule.filter.prefix)
    then rule.filter.prefix
    else rule.filter.and.prefix
