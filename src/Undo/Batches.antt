-- ===== src/Undo/Batches.antt =====
-- Which versions `undoURL` of cmd/undo-main.go removes.
use oss_mc.Base.{
  Bool, false, List, [], ◌∷◌, ◌++◌, none, ◌≡◌, refl, sym, ap, ◌∙◌, arith, Bytes, take,
  if◌then◌else◌, All, flat, append-nil, append_assoc,
}
use oss_mc.ClientUrl.{ClientUrl}
use oss_mc.Content.{ClientContent}
use oss_mc.Undo.{
  Undone, UndoOptions, UndoState, no_calls, undo_last_n_operations, undo_entries, undo_rest, finish,
  undo_url,
}
use oss_mc.Versions.{newer, Grouping, map_groups, sort_object_versions}
use oss_mc.Versions.Groups.{groups, all_groups, flat-map_groups-no_group}
use oss_mc.Undo.Loop.{
  sent_of, take_all, first_versions-take, reached, undo, map_groups-append, undo_entries-Looped,
}

module _
    (sort_slice : (ClientContent → ClientContent → Bool) → List ClientContent → List ClientContent)
    (remove_fails : List ClientContent → Bool) (u : ClientUrl) (alias : Bytes)
    (o : UndoOptions) where
  -- The versions of one object that are removed.
  abbrev pub removed : List ClientContent → List ClientContent
  removed g = if o.dry_run then [] else take o.last (sort_object_versions sort_slice g)

  undo_sends :
      (g : List ClientContent) → (undo sort_slice remove_fails u alias o g).sent ≡ removed g
  unfolding undo_last_n_operations
  undo_sends g = ground (arith, first_versions-take o.last (sort_object_versions sort_slice g))

  sent_of-undo :
      (gs : List (List ClientContent))
      → sent_of (map_groups (undo sort_slice remove_fails u alias o) gs)
        ≡ flat (map_groups removed gs)
  sent_of-undo [] = refl
  sent_of-undo (g ∷ gs) =
      ap
        (λ (x : List ClientContent).
          x ++ sent_of (map_groups (undo sort_slice remove_fails u alias o) gs))
        (undo_sends g)
      ∙ ap (λ (x : List ClientContent). removed g ++ x) (sent_of-undo gs)

  flat-map_groups-append :
      (gs : List (List ClientContent)) (g : List ClientContent)
      → flat (map_groups removed (gs ++ g ∷ [])) ≡ flat (map_groups removed gs) ++ removed g
  flat-map_groups-append [] g = append-nil (removed g)
  flat-map_groups-append (h ∷ gs) g =
      ap (λ (x : List ClientContent). removed h ++ x) (flat-map_groups-append gs g)
      ∙ sym (append_assoc (removed h) (flat (map_groups removed gs)) (removed g))

  finish-sent :
      (s : UndoState)
      → s.calls ≡ map_groups (undo sort_slice remove_fails u alias o) s.grouping.passed
      → removed [] ≡ []
      → sent_of (finish sort_slice remove_fails u alias o (s, false)).calls
        ≡ flat (map_groups removed (all_groups s.grouping))
  unfolding finish undo_rest
  finish-sent s h e = go s.grouping.versions refl
    where
      go :
          (v : List ClientContent)
          → s.grouping.versions ≡ v
          → sent_of (undo_rest sort_slice remove_fails u alias o v s).calls
            ≡ flat (map_groups removed (s.grouping.passed ++ v ∷ []))
      go [] p =
          ap sent_of h
          ∙ sent_of-undo s.grouping.passed
          ∙ sym (append-nil (flat (map_groups removed s.grouping.passed)))
          ∙ ap (λ (x : List ClientContent). flat (map_groups removed s.grouping.passed) ++ x)
              (sym e)
          ∙ sym (flat-map_groups-append s.grouping.passed [])
      go (c ∷ v) p =
          ap
            (λ (x : List Undone).
              sent_of (x ++ undo sort_slice remove_fails u alias o s.grouping.versions ∷ []))
            h
          ∙ ap sent_of (
              sym (
                map_groups-append sort_slice remove_fails u alias o s.grouping.passed
                  s.grouping.versions))
          ∙ sent_of-undo (s.grouping.passed ++ s.grouping.versions ∷ [])
          ∙ ap (λ (x : List ClientContent). flat (map_groups removed (s.grouping.passed ++ x ∷ [])))
              p

  -- If no entry of a listing has an error, undoing goes through it: of each run of entries with one
  -- path, in order, the first `last` versions are sent to be removed, once sorted, and nothing else;
  -- in a dry run nothing is. Sorting has to leave an empty list empty.
  pub undo_url_sends :
      (listed : List ClientContent)
      → All (λ c. c.err ≡ none) listed
      → sort_slice newer [] ≡ []
      → sent_of (undo_url sort_slice remove_fails u alias o listed).calls
        ≡ flat (map_groups removed (groups (reached sort_slice remove_fails u alias o listed)))
  unfolding undo_url
  undo_url_sends listed es e =
      let l = undo_entries-Looped sort_slice remove_fails u alias o listed no_calls es refl in
      let r = undo_entries sort_slice remove_fails u alias o no_calls listed in
      let whole : r ≡ (r.0, false) = ap (λ (b : Bool). (r.0, b)) l.goes_on in
      let nothing : removed [] ≡ [] =
        unfold sort_object_versions in ground (arith, e, take_all o.last []) in
      ap (λ (x : UndoState × Bool). sent_of (finish sort_slice remove_fails u alias o x).calls)
        whole
      ∙ finish-sent r.0 l.calls nothing
      ∙ ap (λ (g : Grouping). flat (map_groups removed (all_groups g))) l.grouping
      ∙ flat-map_groups-no_group removed (reached sort_slice remove_fails u alias o listed) nothing
