-- ===== src/Versions/Groups.antt =====
-- The groups that the loops of cmd/ls.go and cmd/undo-main.go pass on.
use oss_mc.Base.{
  true, false, List, [], ◌∷◌, ◌++◌, ◌≡◌, ◌⊎◌, inl, inr, refl, sym, ap, ◌∙◌, arith, append_assoc,
  Bytes, if◌then◌else◌, Bool-cases, All, flat,
}
use oss_mc.Content.{ClientContent}
use oss_mc.Strings.{equal}
use oss_mc.Strings.Laws.{equal_iff}
use oss_mc.Versions.{Grouping, no_group, add_version, map_groups}

-- The entries of a path that stand side by side: an entry joins the group behind it if that is of its path.
abbrev pub join_group :
    Bytes → List ClientContent → List (List ClientContent) → List (List ClientContent)
join_group path versions [] = versions ∷ []
join_group path versions ([] ∷ gs) = versions ∷ [] ∷ gs
join_group path versions ((d ∷ g) ∷ gs) =
    if equal path d.url.path then (versions ++ d ∷ g) ∷ gs else versions ∷ (d ∷ g) ∷ gs

abbrev pub groups : List ClientContent → List (List ClientContent)
groups [] = []
groups (c ∷ cs) = join_group c.url.path (c ∷ []) (groups cs)

abbrev pub add_all : Grouping → List ClientContent → Grouping
add_all g [] = g
add_all g (c ∷ cs) = add_all (add_version g c) cs

join_same :
    (p : Bytes) (versions : List ClientContent) (c : ClientContent) (gs : List (List ClientContent))
    → equal p c.url.path ≡ true
    → join_group p (versions ++ c ∷ []) gs
      ≡ join_group p versions (join_group c.url.path (c ∷ []) gs)
join_same p versions c [] t = ground (arith, t)
join_same p versions c ([] ∷ gs) t = ground (arith, t)
join_same p versions c ((d ∷ g) ∷ gs) t =
    let e : equal p d.url.path ≡ equal c.url.path d.url.path =
      ap (λ (q : Bytes). equal q d.url.path) ((equal_iff p c.url.path).0 t) in
    elim (Bool-cases (equal c.url.path d.url.path)) [
      | inl y ↦
          rw (e, y, t)
            (ap (λ (u : List ClientContent). u ∷ gs) (append_assoc versions (c ∷ []) (d ∷ g)))
      | inr n ↦ rw (e, n, t) refl
    ]

join_other :
    (p : Bytes) (versions : List ClientContent) (c : ClientContent) (gs : List (List ClientContent))
    → equal p c.url.path ≡ false
    → versions ∷ join_group c.url.path (c ∷ []) gs
      ≡ join_group p versions (join_group c.url.path (c ∷ []) gs)
join_other p versions c [] n = ground (arith, n)
join_other p versions c ([] ∷ gs) n = ground (arith, n)
join_other p versions c ((d ∷ g) ∷ gs) n = elim (Bool-cases (equal c.url.path d.url.path)) [
  | inl y ↦ rw (y, n) refl
  | inr m ↦ rw (m, n) refl
]

join_group-flat :
    (c : ClientContent) (gs : List (List ClientContent))
    → flat (join_group c.url.path (c ∷ []) gs) ≡ c ∷ flat gs
join_group-flat c [] = refl
join_group-flat c ([] ∷ gs) = refl
join_group-flat c ((d ∷ g) ∷ gs) = elim (Bool-cases (equal c.url.path d.url.path)) [
  | inl y ↦ rw y refl
  | inr n ↦ rw n refl
]

-- The groups are the entries, in their order.
pub flat-groups : (cs : List ClientContent) → flat (groups cs) ≡ cs
flat-groups [] = refl
flat-groups (c ∷ cs) = join_group-flat c (groups cs) ∙ ap (◌∷◌ c) (flat-groups cs)

-- Entries of one path, one at least.
abbrev pub IsRun : List ClientContent → Type 0
IsRun [] = ⊥
IsRun (c ∷ g) = All (λ (d : ClientContent). d.url.path ≡ c.url.path) g

All-same :
    (p q : Bytes) (g : List ClientContent)
    → p ≡ q
    → All (λ (d : ClientContent). d.url.path ≡ p) g
    → All (λ (d : ClientContent). d.url.path ≡ q) g
All-same p q [] e h = tt
All-same p q (d ∷ g) e (h, hs) = (h ∙ e, All-same p q g e hs)

join_group-IsRun :
    (c : ClientContent) (gs : List (List ClientContent))
    → All IsRun gs
    → All IsRun (join_group c.url.path (c ∷ []) gs)
join_group-IsRun c [] h = (tt, tt)
join_group-IsRun c ([] ∷ gs) (h, hs) = absurd h
join_group-IsRun c ((d ∷ g) ∷ gs) (h, hs) = elim (Bool-cases (equal c.url.path d.url.path)) [
  | inl y ↦
      let e = sym ((equal_iff c.url.path d.url.path).0 y) in
      rw y ((e, All-same d.url.path c.url.path g e h), hs)
  | inr n ↦ rw n (tt, (h, hs))
]

pub groups-IsRun : (cs : List ClientContent) → All IsRun (groups cs)
groups-IsRun [] = tt
groups-IsRun (c ∷ cs) = join_group-IsRun c (groups cs) (groups-IsRun cs)

-- Of a state of the loop, what was passed on and the group in hand.
abbrev pub all_groups : Grouping → List (List ClientContent)
all_groups g = g.passed ++ g.versions ∷ []

add_same :
    (g : Grouping) (c : ClientContent)
    → equal g.last_path c.url.path ≡ true
    → add_version g c ≡ record g { versions = g.versions ++ c ∷ [] }
unfolding add_version
add_same g c y = rw (y, add_version) refl

add_other :
    (g : Grouping) (c : ClientContent)
    → equal g.last_path c.url.path ≡ false
    → add_version g c
      ≡ record { last_path = c.url.path; versions = c ∷ []; passed = g.passed ++ g.versions ∷ [] }
unfolding add_version
add_other g c n = rw (n, add_version) refl

pub add_all-groups :
    (cs : List ClientContent) (g : Grouping)
    → all_groups (add_all g cs) ≡ g.passed ++ join_group g.last_path g.versions (groups cs)
add_all-groups [] g = refl
add_all-groups (c ∷ cs) g = elim (Bool-cases (equal g.last_path c.url.path)) [
  | inl y ↦
      ap (λ (x : Grouping). all_groups (add_all x cs)) (add_same g c y)
      ∙ (add_all-groups cs (record g { versions = g.versions ++ c ∷ [] })
          ∙ ap (λ (u : List (List ClientContent)). g.passed ++ u)
              (join_same g.last_path g.versions c (groups cs) y))
  | inr n ↦
      ap (λ (x : Grouping). all_groups (add_all x cs)) (add_other g c n)
      ∙ (add_all-groups cs (record {
        last_path = c.url.path;
        versions = c ∷ [];
        passed = g.passed ++ g.versions ∷ [];
      })
          ∙ append_assoc g.passed (g.versions ∷ []) (groups (c ∷ cs))
          ∙ ap (λ (u : List (List ClientContent)). g.passed ++ u)
              (join_other g.last_path g.versions c (groups cs) n))
]

-- Before the first entry there is nothing to join: at most an empty group stands in front.
pub from_no_group :
    (cs : List ClientContent)
    → (all_groups (add_all no_group cs) ≡ groups cs)
      ⊎ (all_groups (add_all no_group cs) ≡ [] ∷ groups cs)
from_no_group cs = elim (starts (groups cs)) [
  | inl e ↦ inl (add_all-groups cs no_group ∙ e)
  | inr e ↦ inr (add_all-groups cs no_group ∙ e)
]
  where
    starts :
        (gs : List (List ClientContent))
        → (join_group [] [] gs ≡ gs) ⊎ (join_group [] [] gs ≡ [] ∷ gs)
    starts [] = inr refl
    starts ([] ∷ gs) = inr refl
    starts ((d ∷ g) ∷ gs) = elim (Bool-cases (equal [] d.url.path)) [
      | inl y ↦ inl (rw y refl)
      | inr n ↦ inr (rw n refl)
    ]

-- What is made of each group and makes nothing of an empty one.
pub flat-map_groups-no_group :
    {A : Type 0} (f : List ClientContent → List A) (cs : List ClientContent)
    → f [] ≡ []
    → flat (map_groups f (all_groups (add_all no_group cs))) ≡ flat (map_groups f (groups cs))
flat-map_groups-no_group f cs e = elim (from_no_group cs) [
  | inl h ↦ ap (λ gs. flat (map_groups f gs)) h
  | inr h ↦ ap (λ gs. flat (map_groups f gs)) h ∙ ap (λ u. u ++ flat (map_groups f (groups cs))) e
]
