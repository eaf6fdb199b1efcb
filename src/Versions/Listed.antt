-- ===== src/Versions/Listed.antt =====
-- What `doList` of cmd/ls.go prints.
use oss_mc.Base.{
  ℕ, ◌+◌, ◌%◌, Bool, true, false, not, ◌&&◌, ◌||◌, List, [], ◌∷◌, none, some, ◌≡◌, inl, inr, refl,
  sym, ap, ◌∙◌, arith, Bytes, Bool-cases, Option-cases, All, keep, some_of, length, flat,
}
use oss_mc.ClientUrl.{ClientUrl}
use oss_mc.Content.{ClientContent}
use oss_mc.Duration.{two64}
use oss_mc.Versions.{
  newer, Grouping, no_group, add_version, map_groups, content_messages, Listing, ListingResult,
  is_filtered, list_entry, list_entries, print_object_versions, sort_object_versions, do_list,
}
use oss_mc.Versions.Groups.{
  groups, add_all, all_groups, flat-map_groups-no_group, IsRun, flat-groups, groups-IsRun,
}

abbrev pub has_error : ClientContent → Bool
has_error c = elim c.err [ none ↦ false | some e ↦ true ]

-- The entries that are listed: without an error, and of the storage class that is asked for.
abbrev pub is_wanted : Bytes → ClientContent → Bool
is_wanted filter c = not (has_error c) && not (is_filtered filter c)

abbrev pub wanted : Bytes → List ClientContent → List ClientContent
wanted filter = keep (is_wanted filter)

abbrev pub sizes : List ClientContent → ℕ
sizes [] = 0
sizes (c ∷ cs) = c.size + sizes cs

record Counted (filter : Bytes) (s : Listing) (cs : List ClientContent) (n m : ℕ) (t : Listing)
    : Type 0 where
  grouping : t.grouping ≡ add_all s.grouping (wanted filter cs)
  objects : t.total_objects ≡ (n + length (wanted filter cs)) % two64
  size : t.total_size ≡ (m + sizes (wanted filter cs)) % two64
  failed : t.failed ≡ (s.failed || some_of has_error cs)

list_entries-Counted :
    (filter : Bytes) (cs : List ClientContent) (s : Listing) (n m : ℕ)
    → s.total_objects ≡ n % two64
    → s.total_size ≡ m % two64
    → Counted filter s cs n m (list_entries filter s cs)
unfolding list_entries
list_entries-Counted filter [] s n m a b = record {
  grouping = refl;
  objects = omega (arith, a);
  size = omega (arith, b);
  failed = ground arith;
}
list_entries-Counted filter (c ∷ cs) s n m a b = elim (Option-cases c.err) [
  | inr (e, h) ↦
      let r = list_entries-Counted filter cs (record s { failed = true }) n m a b in
      let x : list_entry filter s c c.err ≡ record s { failed = true } =
        unfold list_entry in (rw h refl) in
      rw x (record {
        grouping = ground (arith, r.grouping, h);
        objects = ground (arith, r.objects, h);
        size = ground (arith, r.size, h);
        failed = ground (arith, r.failed, h);
      })
  | inl h ↦ elim (Bool-cases (is_filtered filter c)) [
    | inl y ↦
        let r = list_entries-Counted filter cs s n m a b in
        let x : list_entry filter s c c.err ≡ s = unfold list_entry in (rw h (rw y refl)) in
        rw x (record {
          grouping = ground (arith, r.grouping, h, y);
          objects = ground (arith, r.objects, h, y);
          size = ground (arith, r.size, h, y);
          failed = ground (arith, r.failed, h);
        })
    | inr y ↦
        let next : Listing = record s {
          grouping = add_version s.grouping c;
          total_objects = (s.total_objects + 1) % two64;
          total_size = (s.total_size + c.size) % two64;
        } in
        let r =
          list_entries-Counted filter cs next (n + 1) (m + c.size) (omega (arith, a))
            (omega (arith, b)) in
        let x : list_entry filter s c c.err ≡ next = unfold list_entry in (rw h (rw y refl)) in
        let k : wanted filter (c ∷ cs) ≡ c ∷ wanted filter cs = ground (arith, h, y) in
        rw x (record {
          grouping = r.grouping ∙ ap (λ (u : List ClientContent). add_all s.grouping u) (sym k);
          objects = ground (arith, r.objects, ap length k);
          size = ground (arith, r.size, ap sizes k);
          failed = ground (arith, r.failed, h);
        })
  ]
]

module _
    (sort_slice : (ClientContent → ClientContent → Bool)
      → List ClientContent
      → List ClientContent) where
  -- A listing that is printed whole: each run of entries with one path is sorted and printed on its
  -- own, in the order of the listing, and the sums are those of the same entries.
  pub record PrintsAll (u : ClientUrl) (older : Bool) (filter : Bytes) (listed : List ClientContent)
      (r : ListingResult) : Type 0 where
    pub printed :
        flat r.printed
        ≡ flat
            (map_groups (print_object_versions sort_slice u older) (groups (wanted filter listed)))
    pub objects : r.total_objects ≡ length (wanted filter listed) % two64
    pub size : r.total_size ≡ sizes (wanted filter listed) % two64
    pub failed : r.failed ≡ some_of has_error listed
    pub whole : flat (groups (wanted filter listed)) ≡ wanted filter listed
    pub runs : All IsRun (groups (wanted filter listed))

  -- Of a listing, the entries without an error and of the storage class that is asked for are
  -- printed: each run of entries with one path, and nothing but these runs, is sorted and printed on
  -- its own, in the order of the listing; the sums count just these entries, within 64 bits, and the status is that of an error
  -- exactly if some entry has one. Sorting has to leave an empty list empty.
  pub do_list-PrintsAll :
      (u : ClientUrl) (older : Bool) (filter : Bytes) (listed : List ClientContent)
      → sort_slice newer [] ≡ []
      → PrintsAll u older filter listed (do_list sort_slice u older filter listed)
  unfolding do_list
  do_list-PrintsAll u older filter listed e =
      let r =
        list_entries-Counted filter listed
          (record { grouping = no_group; total_objects = 0; total_size = 0; failed = false }) 0 0
          refl refl in
      let p : print_object_versions sort_slice u older [] ≡ [] =
        unfold print_object_versions sort_object_versions content_messages in (rw e refl) in
      record {
        printed =
            ap
              (λ (g : Grouping).
                flat (map_groups (print_object_versions sort_slice u older) (all_groups g)))
              r.grouping
            ∙ flat-map_groups-no_group (print_object_versions sort_slice u older)
                (wanted filter listed) p;
        objects = omega (arith, r.objects);
        size = omega (arith, r.size);
        failed = r.failed;
        whole = flat-groups (wanted filter listed);
        runs = groups-IsRun (wanted filter listed);
      }
