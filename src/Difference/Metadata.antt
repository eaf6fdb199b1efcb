-- ===== src/Difference/Metadata.antt =====
-- `metadataEqual`
use oss_mc.Base.{
  true, false, ◌&&◌, [], ◌∷◌, none, some, ◌≡◌, ◌↔◌, inl, inr, refl, sym, ap, ◌∙◌, arith, Bytes,
  Bool-cases, Option-cases, &&_iff,
}
use oss_mc.Content.{StringMap, lookup, get}
use oss_mc.Difference.{is_mod_time_key, covered, metadata_equal}
use oss_mc.Strings.Laws.{equal_iff, equal_refl}
use oss_mc.Strings.{equal}

-- No key stands twice, as in every Go map.
abbrev pub IsMap : StringMap → Type 0
IsMap [] = Unit {0}
IsMap ((k, v) ∷ m) = (lookup m k ≡ none) × IsMap m

-- Every entry that counts is read with its value from the second map.
abbrev Agrees : StringMap → StringMap → Type 0
Agrees m1 m2 = (k v : Bytes) → is_mod_time_key k ≡ false → lookup m1 k ≡ some v → get m2 k ≡ v

covered_sound : (m1 m2 : StringMap) → covered m1 m2 ≡ true → Agrees m1 m2
unfolding covered lookup
covered_sound [] m2 h k v skip e = cc
covered_sound ((j, w) ∷ m1) m2 h k v skip e =
    ground
      (arith, covered_sound m1 m2 (ground arith) k v skip, equal_iff j k, equal_iff (get m2 j) w)

lookup_head : (k v : Bytes) (m : StringMap) → lookup ((k, v) ∷ m) k ≡ some v
unfolding lookup
lookup_head k v m = rw (equal_refl k)

lookup_tail :
    (k v j w : Bytes) (m : StringMap)
    → lookup m k ≡ none
    → lookup m j ≡ some w
    → lookup ((k, v) ∷ m) j ≡ some w
unfolding lookup
lookup_tail k v j w m fresh e = elim (Bool-cases (equal k j)) [
  | inl same ↦ cc (ap (lookup m) ((equal_iff k j).0 same))
  | inr differ ↦ rw differ e
]

covered_cons :
    (k v : Bytes) (m1 m2 : StringMap)
    → covered m1 m2 ≡ true
    → (is_mod_time_key k ≡ false → get m2 k ≡ v)
    → covered ((k, v) ∷ m1) m2 ≡ true
covered_cons k v m1 m2 rest here = elim (Bool-cases (is_mod_time_key k)) [
  | inl skip ↦ unfold covered in ground arith
  | inr look ↦ let e = (equal_iff (get m2 k) v).1 (here look) in unfold covered in ground arith
]

covered_complete : (m1 m2 : StringMap) → IsMap m1 → Agrees m1 m2 → covered m1 m2 ≡ true
covered_complete [] m2 u h = unfold covered in refl
covered_complete ((k, v) ∷ m1) m2 (fresh, u) h =
    covered_cons k v m1 m2
      (covered_complete m1 m2 u (λ j w skip e. h j w skip (lookup_tail k v j w m1 fresh e)))
      (λ skip. h k v skip (lookup_head k v m1))

get-some : (m : StringMap) (k v : Bytes) → lookup m k ≡ some v → get m k ≡ v
unfolding get
get-some m k v e = rw (e, get)

get-none : (m : StringMap) (k : Bytes) → lookup m k ≡ none → get m k ≡ []
unfolding get
get-none m k e = rw (e, get)

metadata_equal_lem : (m1 m2 : StringMap) → metadata_equal m1 m2 ≡ (covered m1 m2 && covered m2 m1)
unfolding metadata_equal
metadata_equal_lem m1 m2 = refl

reads_alike :
    (m1 m2 : StringMap)
    → covered m1 m2 ≡ true
    → covered m2 m1 ≡ true
    → (k : Bytes) → is_mod_time_key k ≡ false
    → get m1 k ≡ get m2 k
reads_alike m1 m2 there back k skip = elim (Option-cases (lookup m1 k)) [
  | inr (v, e) ↦ get-some m1 k v e ∙ sym (covered_sound m1 m2 there k v skip e)
  | inl e ↦ elim (Option-cases (lookup m2 k)) [
    | inr (w, f) ↦ covered_sound m2 m1 back k w skip f ∙ sym (get-some m2 k w f)
    | inl f ↦ get-none m1 k e ∙ sym (get-none m2 k f)
  ]
]

-- `metadataEqual` holds exactly when the two maps read alike at every key but those of the
-- source's modification time; a missing key reads as the empty text.
pub metadata_equal_iff :
    (m1 m2 : StringMap)
    → IsMap m1
    → IsMap m2
    → (metadata_equal m1 m2 ≡ true)
      ↔ ((k : Bytes) → is_mod_time_key k ≡ false → get m1 k ≡ get m2 k)
metadata_equal_iff m1 m2 u1 u2 = (
  λ h.
      let (there, back) = (&&_iff _ _).0 (rw metadata_equal_lem at h) in
      reads_alike m1 m2 there back,
  λ h. rw metadata_equal_lem (
      (&&_iff _ _).1 (
        covered_complete m1 m2 u1 (λ k v skip e. sym (h k skip) ∙ get-some m1 k v e),
        covered_complete m2 m1 u2 (λ k v skip e. h k skip ∙ get-some m2 k v e),
      )),
)

-- The order of the two maps does not matter.
pub metadata_equal_comm : (m1 m2 : StringMap) → metadata_equal m1 m2 ≡ metadata_equal m2 m1
metadata_equal_comm m1 m2 = rw (metadata_equal_lem m1 m2, metadata_equal_lem m2 m1) (ground arith)
