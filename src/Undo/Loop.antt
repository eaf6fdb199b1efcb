-- ===== src/Undo/Loop.antt =====
-- The loop of `undoURL` of cmd/undo-main.go: the groups of the entries that it takes.
use oss_mc.Base.{
  ℕ, zero, suc, ◌≤◌, Bool, true, false, not, ◌||◌, List, [], ◌∷◌, ◌++◌, none, ◌≡◌, inl, inr, refl,
  sym, ap, ◌∙◌, arith, Bytes, length, take, ltb, if◌then◌else◌, Bool-cases, All,
}
use oss_mc.ClientUrl.{ClientUrl}
use oss_mc.Content.{ClientContent}
use oss_mc.Strings.{equal}
use oss_mc.Undo.{
  Undone, UndoOptions, UndoState, glacier, undo_last_n_operations, undo_entry, is_other,
  undo_entries, first_versions,
}
use oss_mc.Versions.{Grouping, no_group, add_version, map_groups}
use oss_mc.Versions.Groups.{groups, add_all, from_no_group, join_group}

abbrev pub is_nil : List ClientContent → Bool
is_nil [] = true
is_nil (c ∷ cs) = false

abbrev pub sent_of : List Undone → List ClientContent
sent_of [] = []
sent_of (r ∷ rs) = r.sent ++ sent_of rs

pub take_all : (n : ℕ) (cs : List ClientContent) → length cs ≤ n → take n cs ≡ cs
take_all zero [] h = refl
take_all zero (c ∷ cs) h = absurd (omega (arith, h))
take_all (suc n) [] h = refl
take_all (suc n) (c ∷ cs) h = ap (◌∷◌ c) (take_all n cs (omega (arith, h)))

pub first_versions-take : (n : ℕ) (cs : List ClientContent) → first_versions n cs ≡ take n cs
unfolding first_versions
first_versions-take n cs = elim (Bool-cases (ltb n (length cs))) [
  | inl y ↦ rw y refl
  | inr m ↦ rw m (sym (take_all n cs (ground (arith, m))))
]

abbrev pub last_of : List (List ClientContent) → List ClientContent
last_of [] = []
last_of (g ∷ []) = g
last_of (g ∷ h ∷ gs) = last_of (h ∷ gs)

last_of-append :
    (gs : List (List ClientContent)) (g : List ClientContent) → last_of (gs ++ g ∷ []) ≡ g
last_of-append [] g = refl
last_of-append (h ∷ []) g = refl
last_of-append (h ∷ k ∷ gs) g = last_of-append (k ∷ gs) g

last_of-join_group :
    (p : Bytes) (v : List ClientContent) (gs : List (List ClientContent))
    → last_of ([] ∷ join_group p v gs) ≡ last_of (join_group p v gs)
last_of-join_group p v [] = refl
last_of-join_group p v ([] ∷ gs) = refl
last_of-join_group p v ((d ∷ g) ∷ gs) = elim (Bool-cases (equal p d.url.path)) [
  | inl y ↦ rw y refl
  | inr n ↦ rw n refl
]

-- The versions in hand at the end are the last group.
pub versions_last :
    (c : ClientContent) (cs : List ClientContent)
    → (add_all no_group (c ∷ cs)).versions ≡ last_of (groups (c ∷ cs))
versions_last c cs =
    sym (last_of-append (add_all no_group (c ∷ cs)).passed (add_all no_group (c ∷ cs)).versions)
    ∙ elim (from_no_group (c ∷ cs)) [
      | inl h ↦ ap last_of h
      | inr h ↦ ap last_of h ∙ last_of-join_group c.url.path (c ∷ []) (groups cs)
    ]

pub add_version-is_nil :
    (g : Grouping) (c : ClientContent) → is_nil (add_version g c).versions ≡ false
unfolding add_version
add_version-is_nil g c = elim (Bool-cases (equal g.last_path c.url.path)) [
  | inl y ↦ rw y (joined g.versions)
  | inr n ↦ rw n refl
]
  where
    joined : (v : List ClientContent) → is_nil (v ++ c ∷ []) ≡ false
    joined [] = refl
    joined (d ∷ v) = refl

pub add_all-is_nil :
    (cs : List ClientContent) (g : Grouping)
    → is_nil g.versions ≡ false
    → is_nil (add_all g cs).versions ≡ false
add_all-is_nil [] g h = h
add_all-is_nil (c ∷ cs) g h = add_all-is_nil cs (add_version g c) (add_version-is_nil g c)

module _
    (sort_slice : (ClientContent → ClientContent → Bool) → List ClientContent → List ClientContent)
    (remove_fails : List ClientContent → Bool) (u : ClientUrl) (alias : Bytes)
    (o : UndoOptions) where
  abbrev pub undo : List ClientContent → Undone
  undo = undo_last_n_operations sort_slice remove_fails u alias o

  -- The entries that the loop takes: those that are not archived, up to the first one of another
  -- name if the loop is not recursive.
  abbrev pub reached : List ClientContent → List ClientContent
  reached [] = []
  reached (c ∷ cs) =
      if equal c.storage_class glacier
      then reached cs
      else if is_other sort_slice remove_fails u alias o c
      then []
      else c ∷ reached cs

  pub record Looped (s : UndoState) (taken : List ClientContent) (r : UndoState × Bool)
      : Type 0 where
    pub goes_on : r.1 ≡ false
    pub grouping : r.0.grouping ≡ add_all s.grouping taken
    pub calls : r.0.calls ≡ map_groups undo r.0.grouping.passed
    pub applied : r.0.applied ≡ (s.applied || not (is_nil taken))

  Looped-same :
      (s : UndoState) {taken taken2 : List ClientContent} {r r2 : UndoState × Bool}
      → taken2 ≡ taken
      → r2 ≡ r
      → Looped s taken r
      → Looped s taken2 r2
  Looped-same s e f l = rw (e, f) l

  pub map_groups-append :
      (gs : List (List ClientContent)) (g : List ClientContent)
      → map_groups undo (gs ++ g ∷ []) ≡ map_groups undo gs ++ undo g ∷ []
  map_groups-append [] g = refl
  map_groups-append (h ∷ gs) g = ap (◌∷◌ (undo h)) (map_groups-append gs g)

  undo_entry-calls :
      (s : UndoState) (c : ClientContent)
      → s.calls ≡ map_groups undo s.grouping.passed
      → (undo_entry sort_slice remove_fails u alias o s c).calls
        ≡ map_groups undo (undo_entry sort_slice remove_fails u alias o s c).grouping.passed
  unfolding undo_entry add_version
  undo_entry-calls s c h = elim (Bool-cases (equal s.grouping.last_path c.url.path)) [
    | inl y ↦ rw y h
    | inr n ↦ rw n (
        ap (λ (x : List Undone). x ++ undo s.grouping.versions ∷ []) h
        ∙ sym (map_groups-append s.grouping.passed s.grouping.versions))
  ]

  pub undo_entries-Looped :
      (cs : List ClientContent) (s : UndoState)
      → All (λ c. c.err ≡ none) cs
      → s.calls ≡ map_groups undo s.grouping.passed
      → Looped s (reached cs) (undo_entries sort_slice remove_fails u alias o s cs)
  unfolding undo_entries
  undo_entries-Looped [] s e h = record {
    goes_on = refl;
    grouping = refl;
    calls = h;
    applied = ground arith;
  }
  undo_entries-Looped (c ∷ cs) s (e, es) h = elim (Bool-cases (equal c.storage_class glacier)) [
    | inl y ↦ Looped-same s (rw y refl) (ground (arith, e, y)) (undo_entries-Looped cs s es h)
    | inr n ↦ elim (Bool-cases (is_other sort_slice remove_fails u alias o c)) [
      | inl y ↦
          Looped-same s {taken = []} {r = (s, false)} (rw (n, y) refl) (ground (arith, e, n, y))
            (record { goes_on = refl; grouping = refl; calls = h; applied = ground arith })
      | inr m ↦
          let next = undo_entry sort_slice remove_fails u alias o s c in
          let r = undo_entries-Looped cs next es (undo_entry-calls s c h) in
          let g : next.grouping ≡ add_version s.grouping c = unfold undo_entry in refl in
          let a : next.applied ≡ true = unfold undo_entry in refl in
          Looped-same s {taken = c ∷ reached cs}
            {r = undo_entries sort_slice remove_fails u alias o next cs} (rw (n, m) refl)
            (ground (arith, e, n, m))
            (record {
              goes_on = r.goes_on;
              grouping = r.grouping ∙ ap (λ (x : Grouping). add_all x (reached cs)) g;
              calls = r.calls;
              applied = ground (arith, r.applied, a);
            })
    ]
  ]
