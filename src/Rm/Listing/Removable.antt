-- ===== src/Rm/Listing/Removable.antt =====
-- Which objects `listAndRemove` of cmd/rm-main.go sends to be removed.
use oss_mc.Base.{
  ℕ, Bool, true, false, ◌||◌, List, [], ◌∷◌, ◌≡◌, inl, inr, refl, arith, Bytes, ok, err, ◌>>=◌,
  if◌then◌else◌, Bool-cases, Option-cases, All,
}
use oss_mc.Content.{ClientContent}
use oss_mc.Rm.{RemoveResult, RemoveOpts, is_permission}
use oss_mc.Rm.Listing.{
  RmState, nothing_removed, returns, program_ends, Step, is_worm, read_arrivals, remove_aged,
  remove_versions, others_only, is_bucket, ends_listing, keep_version, remove_entry, remove_entries,
  remove_listed, late_status, finish_removal, list_and_remove,
}
use oss_mc.Strings.{equal}
use oss_mc.Rm.Listing.Steps.{
  sent_after, IsRemovable, Fine, step_then, read_arrivals-Fine, remove_aged-Fine,
  remove_versions-Fine,
}

module _ (float_part : ℕ → ℕ → ℕ → ℕ) (since : ℕ → ℕ) (arrivals : ℕ → List RemoveResult)
    (alias : Bytes) (o : RemoveOpts) where
  module _ (url : Bytes) (recursive non_current : Bool) where
    abbrev pub others : Bool
    others = others_only float_part since arrivals alias o url recursive non_current

    remove_entry-Fine :
        (c : ClientContent) (s : RmState)
        → Fine float_part since arrivals alias o others s.sent
        → Fine float_part since arrivals alias o others (
            sent_after
              (remove_entry float_part since arrivals alias o url recursive non_current c s))
    unfolding remove_entry keep_version
    remove_entry-Fine c s h = elim (Bool-cases others) [
      | inl y ↦ elim (Bool-cases (equal s.last_path c.url.path)) [
        | inl e ↦
            let q : remove_entry float_part since arrivals alias o url recursive non_current c s
                ≡ ok (keep_version c s) =
              ground (arith, y, e) in
            rw q h
        | inr n ↦
            let q : remove_entry float_part since arrivals alias o url recursive non_current c s ≡ (
                remove_versions float_part since arrivals alias o s.versions
                  (record s { last_path = c.url.path })
                >>= (λ t. ok (keep_version c (record t { versions = [] })))) =
              ground (arith, y, n) in
            rw q (
              step_then float_part since arrivals alias o others
                (remove_versions float_part since arrivals alias o s.versions
                  (record s { last_path = c.url.path }))
                _
                (remove_versions-Fine float_part since arrivals alias o others s.versions
                  (record s { last_path = c.url.path }) h)
                (λ t g. g))
      ]
      | inr n ↦
          let q : remove_entry float_part since arrivals alias o url recursive non_current c s
              ≡ remove_aged float_part since arrivals alias o (λ e. is_permission e || is_worm e)
                  o.with_versions c (record s { found = true }) =
            ground (arith, n) in
          rw q (
            remove_aged-Fine float_part since arrivals alias o others
              (λ e. is_permission e || is_worm e) o.with_versions c (record s { found = true })
              (inl n) h)
    ]

    remove_entries-Fine :
        (cs : List ClientContent) (s : RmState)
        → Fine float_part since arrivals alias o others s.sent
        → Fine float_part since arrivals alias o others (
            sent_after
              (remove_entries float_part since arrivals alias o url recursive non_current cs s))
    unfolding remove_entries
    remove_entries-Fine [] s h = h
    remove_entries-Fine (c ∷ cs) s h = elim (Option-cases c.err) [
      | inr (e, k) ↦ elim (Bool-cases (is_permission e)) [
        | inl y ↦ rw (k, remove_entries) (rw y (remove_entries-Fine cs s h))
        | inr n ↦ rw (k, remove_entries) (rw n h)
      ]
      | inl k ↦ elim (Bool-cases (is_bucket c)) [
        | inl y ↦
            let q : remove_entries float_part since arrivals alias o url recursive non_current
                  (c ∷ cs) s
                ≡ remove_entries float_part since arrivals alias o url recursive non_current cs s =
              ground (arith, k, y) in
            rw q (remove_entries-Fine cs s h)
        | inr n ↦
            elim (Bool-cases
              (ends_listing float_part since arrivals alias o url recursive non_current c)) [
                | inl y ↦
                    let q : remove_entries float_part since arrivals alias o url recursive
                          non_current (c ∷ cs) s
                        ≡ ok s =
                      ground (arith, k, n, y) in
                    rw q h
                | inr m ↦
                    let q : remove_entries float_part since arrivals alias o url recursive
                          non_current (c ∷ cs) s
                        ≡ (remove_entry float_part since arrivals alias o url recursive non_current
                              c s
                            >>= remove_entries float_part since arrivals alias o url recursive
                                non_current cs) =
                      ground (arith, k, n, m) in
                    rw q (
                      step_then float_part since arrivals alias o others
                        (remove_entry float_part since arrivals alias o url recursive non_current c
                          s)
                        _ (remove_entry-Fine c s h) (λ t g. remove_entries-Fine cs t g))
              ]
      ]
    ]

    remove_listed-IsRemovable :
        (listed : List ClientContent)
        → All (IsRemovable float_part since arrivals alias o others) (
            sent_after
              (remove_listed float_part since arrivals alias o url recursive non_current listed))
    unfolding remove_listed
    remove_listed-IsRemovable listed =
        step_then float_part since arrivals alias o others
          (remove_entries float_part since arrivals alias o url recursive non_current listed
            nothing_removed)
          _ (remove_entries-Fine listed nothing_removed tt) (λ s g. last s g others)
      where
        last :
            (s : RmState)
            → Fine float_part since arrivals alias o others s.sent
            → (b : Bool)
            → Fine float_part since arrivals alias o others (
                sent_after (
                  if b
                  then remove_versions float_part since arrivals alias o s.versions s
                  else ok s))
        last s g true = remove_versions-Fine float_part since arrivals alias o others s.versions s g
        last s g false = g

    late_status-sent :
        (m : Step)
        → (late_status float_part since arrivals alias o url recursive non_current m).sent
          ≡ sent_after m
    late_status-sent (ok s) = refl
    late_status-sent (err (returns s)) = refl
    late_status-sent (err (program_ends s)) = refl

    finish_removal-Fine :
        (late : List RemoveResult) (m : Step)
        → Fine float_part since arrivals alias o others (sent_after m)
        → Fine float_part since arrivals alias o others
            (finish_removal float_part since arrivals alias o url recursive non_current late m).sent
    unfolding finish_removal
    finish_removal-Fine late (err (returns s)) h = h
    finish_removal-Fine late (err (program_ends s)) h = h
    finish_removal-Fine late (ok s) h = ends o.is_fake
      where
        ends :
            (b : Bool)
            → Fine float_part since arrivals alias o others
                (if b
                  then record { sent = s.sent; printed = s.printed; failed = false; exits = false }
                  else late_status float_part since arrivals alias o url recursive non_current
                      (read_arrivals is_permission alias late s)).sent
        ends true = h
        ends false =
            rw (late_status-sent (read_arrivals is_permission alias late s))
              (read_arrivals-Fine float_part since arrivals alias o others is_permission late s h)

    -- However the results of the client come in between, `listAndRemove` sends an object to be removed
    -- only if it is no dry run, the object has a time and is neither too new nor too old for the age
    -- options; and where only the versions that are not the latest are asked for, the latest version
    -- is never sent, unless it is a delete marker.
    pub list_and_remove-IsRemovable :
        (late : List RemoveResult) (listed : List ClientContent)
        → All
            (IsRemovable float_part since arrivals alias o others)
            (list_and_remove float_part since arrivals alias o url recursive non_current late
              listed).sent
    unfolding list_and_remove
    list_and_remove-IsRemovable late listed =
        finish_removal-Fine late
          (remove_listed float_part since arrivals alias o url recursive non_current listed)
          (remove_listed-IsRemovable listed)
