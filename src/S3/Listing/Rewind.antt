-- ===== src/S3/Listing/Rewind.antt =====
-- Listing at a past time: `listVersionsRoutine` of cmd/client-s3.go.
use oss_mc.Base.{
  Bool, true, false, not, ◌&&◌, ◌||◌, List, [], ◌∷◌, ◌++◌, Option, none, some, Bytes, if◌then◌else◌,
  ◌==◌, ltb, map, flat, All, ◌≡◌, refl, sym, ap, ◌∙◌, ◌⊎◌, inl, inr, Bool-cases, append-nil,
  none_ne_some,
}
use mathlib.Core.Path.{subst}
use oss_mc.Errors.{Error}
use oss_mc.S3.{ObjectInfo}
use oss_mc.S3.Listing.{
  S3ListOptions, version_entry, version_entries, list_versions, versions_query, versions_of_buckets,
  S3Api,
}
use oss_mc.Strings.{equal, is_empty}
use oss_mc.Strings.Laws.{equal_refl}

-- the versions of one key, as the server lists them: the newest first
pub record Group : Type 0 where
  pub key : Bytes
  pub versions : List ObjectInfo

abbrev pub IsOf : Bytes → ObjectInfo → Type 0
IsOf key v = (v.err ≡ none) × (v.key ≡ key)

abbrev pub Apart : Bytes → List Group → Type 0
Apart key = All (λ (g : Group). equal key g.key ≡ false)

-- groups of different keys
abbrev pub Distinct : List Group → Type 0
Distinct [] = Unit
Distinct (g ∷ gs) = All (IsOf g.key) g.versions × (Apart g.key gs × Distinct gs)

no_error :
    {B : Type 0} (o : Option Error) (a : Error → B) (b : B)
    → o ≡ none
    → elim o [ some e ↦ a e | none ↦ b ] ≡ b
no_error none a b e = refl
no_error (some x) a b e = absurd (none_ne_some (sym e))

module _ (opts : S3ListOptions) where
  abbrev is_due : ObjectInfo → Bool
  is_due v = opts.time_ref == 0 || ltb v.last_modified opts.time_ref

  abbrev shown : ObjectInfo → List ObjectInfo
  shown v = if not opts.with_delete_markers && v.is_delete_marker then [] else v ∷ []

  -- the first version before the time, or nothing if that is a delete marker
  abbrev pub current_of : List ObjectInfo → List ObjectInfo
  current_of [] = []
  current_of (v ∷ vs) = if is_due v then shown v else current_of vs

  entry_skips :
      (key : Bytes) (v : ObjectInfo)
      → opts.with_older_versions ≡ false
      → IsOf key v
      → version_entry opts key v ≡ ([], key)
  unfolding version_entry
  entry_skips key v o (e, k) =
      let same : equal key v.key ≡ true = ap (equal key) k ∙ equal_refl key in
      rw (e, version_entry) (rw o (rw same refl))

  entry_waits :
      (skip key : Bytes) (v : ObjectInfo)
      → opts.with_older_versions ≡ false
      → equal skip key ≡ false
      → IsOf key v
      → is_due v ≡ false
      → version_entry opts skip v ≡ ([], skip)
  unfolding version_entry
  entry_waits skip key v o d (e, k) w =
      let differs : equal skip v.key ≡ false = ap (equal skip) k ∙ d in
      rw (e, version_entry) (rw differs (rw o (rw w refl)))

  entry_shows :
      (skip key : Bytes) (v : ObjectInfo)
      → opts.with_older_versions ≡ false
      → equal skip key ≡ false
      → IsOf key v
      → is_due v ≡ true
      → version_entry opts skip v ≡ (shown v, key)
  unfolding version_entry
  entry_shows skip key v o d (e, k) w =
      let differs : equal skip v.key ≡ false = ap (equal skip) k ∙ d in
      no_error v.err (λ x. (v ∷ [], skip))
        (if not opts.with_older_versions && equal skip v.key
          then ([], skip)
          else if is_due v
          then (shown v, v.key)
          else ([], skip))
        e
      ∙ rw (differs) (rw o (rw w (ap (λ u. (shown v, u)) k)))

  entries_from :
      (skip next : Bytes) (v : ObjectInfo) (out vs : List ObjectInfo)
      → version_entry opts skip v ≡ (out, next)
      → version_entries opts skip (v ∷ vs) ≡ out ++ version_entries opts next vs
  unfolding version_entries
  entries_from skip next v out vs h = rw h refl

  skips_same :
      (key : Bytes) (vs rest : List ObjectInfo)
      → opts.with_older_versions ≡ false
      → All (IsOf key) vs
      → version_entries opts key (vs ++ rest) ≡ version_entries opts key rest
  skips_same key [] rest o h = refl
  skips_same key (v ∷ vs) rest o (h, hs) =
      entries_from key key v [] (vs ++ rest) (entry_skips key v o h) ∙ skips_same key vs rest o hs

  shows_current :
      (skip key : Bytes) (vs rest : List ObjectInfo)
      → opts.with_older_versions ≡ false
      → equal skip key ≡ false
      → All (IsOf key) vs
      → (next : Bytes) × (((next ≡ key) ⊎ (next ≡ skip))
          × (version_entries opts skip (vs ++ rest)
              ≡ current_of vs ++ version_entries opts next rest))
  shows_current skip key [] rest o d h = (skip, (inr refl, refl))
  shows_current skip key (v ∷ vs) rest o d (h, hs) = elim (Bool-cases (is_due v)) [
    | inl y ↦ (
      key,
      (
        inl refl,
        entries_from skip key v (shown v) (vs ++ rest) (entry_shows skip key v o d h y)
            ∙ ap (λ l. shown v ++ l) (skips_same key vs rest o hs)
            ∙ rw y refl,
      ),
    )
    | inr n ↦
        let (next, (w, e)) = shows_current skip key vs rest o d hs in
        (
          next,
          (
            w,
            entries_from skip skip v [] (vs ++ rest) (entry_waits skip key v o d h n)
                ∙ e
                ∙ rw n refl,
          ),
        )
  ]

  Apart-next :
      (next key skip : Bytes) (gs : List Group)
      → (next ≡ key) ⊎ (next ≡ skip)
      → Apart key gs
      → Apart skip gs
      → Apart next gs
  Apart-next next key skip gs (inl e) a b = subst (λ k. Apart k gs) (sym e) a
  Apart-next next key skip gs (inr e) a b = subst (λ k. Apart k gs) (sym e) b

  shows_groups :
      (skip : Bytes) (gs : List Group)
      → opts.with_older_versions ≡ false
      → Apart skip gs
      → Distinct gs
      → version_entries opts skip (flat (map (λ (g : Group). g.versions) gs))
        ≡ flat (map (λ (g : Group). current_of g.versions) gs)
  unfolding version_entries
  shows_groups skip [] o a d = refl
  shows_groups skip (g ∷ gs) o (a, aside) (h, (b, d)) =
      let (next, (w, e)) =
        shows_current skip g.key g.versions (flat (map (λ (g : Group). g.versions) gs)) o a h in
      e
      ∙ ap (λ l. current_of g.versions ++ l)
          (shows_groups next gs o (Apart-next next g.key skip gs w b aside) d)

module _ (api : S3Api) where
  -- When older versions are not asked for, a listing at a past time shows each key as it was then: the
  -- server lists the versions of one key after the other, and of each key just the first version before
  -- the time is listed, or nothing if that one is a delete marker that was not asked for or if there is
  -- none. Without a time it is the first version. The bucket is named, no entry is an error, no key is
  -- empty, and none comes back after another one.
  pub list_versions_lem :
      (bucket prefix : Bytes) (opts : S3ListOptions) (gs : List Group)
      → is_empty bucket ≡ false
      → opts.with_older_versions ≡ false
      → Apart [] gs
      → Distinct gs
      → api.list_objects bucket (versions_query api opts prefix)
        ≡ flat (map (λ (g : Group). g.versions) gs)
      → list_versions api bucket prefix opts
        ≡ flat (map (λ (g : Group). current_of opts g.versions) gs)
  unfolding list_versions versions_of_buckets
  list_versions_lem bucket prefix opts gs b o a d h =
      rw (b, list_versions)
        (append-nil
            (version_entries opts [] (api.list_objects bucket (versions_query api opts prefix)))
          ∙ ap (version_entries opts []) h
          ∙ shows_groups opts [] gs o a d)
