-- ===== src/Undo/Status.antt =====
-- With which status `undoURL` of cmd/undo-main.go ends.
use oss_mc.Base.{
  Bool, true, false, not, ◌||◌, List, [], ◌∷◌, none, ◌≡◌, refl, ap, ◌∙◌, arith, Bytes, All,
}
use oss_mc.ClientUrl.{ClientUrl}
use oss_mc.Content.{ClientContent}
use oss_mc.Undo.{UndoOptions, UndoState, no_calls, undo_entries, undo_rest, finish, undo_url}
use oss_mc.Versions.{Grouping, no_group, add_version}
use oss_mc.Versions.Groups.{groups, add_all}
use oss_mc.Undo.Loop.{
  is_nil, last_of, versions_last, add_all-is_nil, add_version-is_nil, reached, undo,
  undo_entries-Looped,
}

module _
    (sort_slice : (ClientContent → ClientContent → Bool) → List ClientContent → List ClientContent)
    (remove_fails : List ClientContent → Bool) (u : ClientUrl) (alias : Bytes)
    (o : UndoOptions) where
  undo_group_last :
      (s : UndoState)
      → is_nil s.grouping.versions ≡ false
      → s.applied ≡ true
      → (finish sort_slice remove_fails u alias o (s, false)).failed
        ≡ (undo sort_slice remove_fails u alias o s.grouping.versions).failed
  unfolding finish undo_rest
  undo_group_last s n a = go s.grouping.versions n
    where
      go :
          (v : List ClientContent)
          → is_nil v ≡ false
          → (not (undo_rest sort_slice remove_fails u alias o v s).applied
              || (undo_rest sort_slice remove_fails u alias o v s).failed)
            ≡ (undo sort_slice remove_fails u alias o s.grouping.versions).failed
      go [] k = cc
      go (c ∷ v) k = ground (arith, a)

  -- If no entry of a listing has an error, `undoURL` ends with an error exactly if it took no entry
  -- or the removal of the last group of versions failed: that of an earlier group is forgotten.
  pub undo_url_status :
      (listed : List ClientContent)
      → All (λ c. c.err ≡ none) listed
      → (undo_url sort_slice remove_fails u alias o listed).failed ≡ (
          is_nil (reached sort_slice remove_fails u alias o listed)
          || (undo sort_slice remove_fails u alias o
              (last_of (groups (reached sort_slice remove_fails u alias o listed)))).failed)
  unfolding undo_url
  undo_url_status listed es =
      let l = undo_entries-Looped sort_slice remove_fails u alias o listed no_calls es refl in
      let r = undo_entries sort_slice remove_fails u alias o no_calls listed in
      let whole : r ≡ (r.0, false) = ap (λ (b : Bool). (r.0, b)) l.goes_on in
      ap (λ (x : UndoState × Bool). (finish sort_slice remove_fails u alias o x).failed) whole
      ∙ go (reached sort_slice remove_fails u alias o listed) r.0 l.grouping l.applied
    where
      go :
          (taken : List ClientContent) (s : UndoState)
          → s.grouping ≡ add_all no_group taken
          → s.applied ≡ not (is_nil taken)
          → (finish sort_slice remove_fails u alias o (s, false)).failed ≡ (
              is_nil taken
              || (undo sort_slice remove_fails u alias o (last_of (groups taken))).failed)
      go [] s g a = unfold finish undo_rest in (ground (arith, a, g))
      go (c ∷ cs) s g a =
          let n : is_nil s.grouping.versions ≡ false =
            ap (λ (x : Grouping). is_nil x.versions) g
            ∙ add_all-is_nil cs (add_version no_group c) (add_version-is_nil no_group c) in
          undo_group_last s n a
          ∙ ap (λ (x : List ClientContent). (undo sort_slice remove_fails u alias o x).failed)
              (ap (λ (x : Grouping). x.versions) g ∙ versions_last c cs)
