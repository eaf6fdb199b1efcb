-- ===== src/Copy/Ages.antt =====
-- The options --older-than and --newer-than in `prepareCopyURLs` of cmd/cp-url.go.
use oss_mc.Ages.{Ending, finished, panics, is_older, is_newer, signed_ltb}
use oss_mc.Base.{
  ℕ, Bool, true, false, not, ◌&&◌, List, [], ◌∷◌, none, some, ◌≡◌, ◌≢◌, refl, ap, ◌∙◌, arith, Bytes,
  All, keep, ok,
}
use oss_mc.Content.{ClientContent}
use oss_mc.Copy.{
  copy_listed, copy_listing, PrepareCopyUrlsOpts, type_c, prepare_copy_urls_type_c,
  copy_urls_of_type, skips_content, skips, filter_ages, prepare_copy_urls, guess_copy_url_type,
  sends_first, first_source, failed,
}
use oss_mc.Duration.{parse_duration}
use oss_mc.Errors.{Error}
use oss_mc.Mirror.{Urls}
use oss_mc.Remote.{Remote, Client}
use oss_mc.Strings.{is_empty}

module _ (float_part : ℕ → ℕ → ℕ → ℕ) (since : ℕ → ℕ) where
  -- The pair has a source, whose age is at least `older` and below `newer`.
  abbrev pub in_window : ℕ → ℕ → Urls → Bool
  in_window older newer u = elim u.source_content [
    | none ↦ false
    | some c ↦ not (signed_ltb (since c.time) older) && signed_ltb (since c.time) newer
  ]

  window_skips :
      (older newer : Bytes) (o n : ℕ) (u : Urls)
      → older ≢ []
      → newer ≢ []
      → parse_duration float_part older ≡ some (ok o)
      → parse_duration float_part newer ≡ some (ok n)
      → u.source_content ≢ none
      → skips float_part since older newer u ≡ ok (not (in_window o n u))
  unfolding skips skips_content is_older is_newer is_empty
  window_skips [] newer o n u a b po pn has = absurd (a refl)
  window_skips (c ∷ older) [] o n u a b po pn has = absurd (b refl)
  window_skips (c ∷ older) (d ∷ newer) o n u a b po pn has = ground (arith, po, pn)

  keeps_one :
      (older newer : Bytes) (u : Urls) (us : List Urls) (t : Bool)
      → skips float_part since older newer u ≡ ok (not t)
      → filter_ages float_part since older newer (u ∷ us) ≡ elim t [
        | true ↦ sends_first float_part since u (filter_ages float_part since older newer us)
        | false ↦ filter_ages float_part since older newer us
      ]
  unfolding filter_ages
  keeps_one older newer u us true h = rw (h, filter_ages) refl
  keeps_one older newer u us false h = rw (h, filter_ages) refl

  push_kept :
      (p : Urls → Bool) (u : Urls) (us : List Urls) {r : List Urls × Ending}
      → r ≡ (keep p us, finished)
      → elim (p u) [ true ↦ sends_first float_part since u r | false ↦ r ]
        ≡ (keep p (u ∷ us), finished)
  push_kept p u us {r} h = ground arith

  -- With both options set to durations that can be read, and a source in every pair, the pairs that
  -- are sent are those whose source's age is at least --older-than and below --newer-than, in order,
  -- and the sender comes to its end.
  filter_ages-keep :
      (older newer : Bytes) (o n : ℕ) (us : List Urls)
      → older ≢ []
      → newer ≢ []
      → parse_duration float_part older ≡ some (ok o)
      → parse_duration float_part newer ≡ some (ok n)
      → All (λ u. u.source_content ≢ none) us
      → filter_ages float_part since older newer us ≡ (keep (in_window o n) us, finished)
  filter_ages-keep older newer o n [] a b po pn has = unfold filter_ages in refl
  filter_ages-keep older newer o n (u ∷ us) a b po pn (here, has) =
      let rest = filter_ages-keep older newer o n us a b po pn has in
      keeps_one older newer u us (in_window o n u) (window_skips older newer o n u a b po pn here)
      ∙ push_kept (in_window o n) u us rest

  no_source_panics :
      (older newer : Bytes) (u : Urls) (us : List Urls)
      → older ≢ []
      → u.source_content ≡ none
      → filter_ages float_part since older newer (u ∷ us) ≡ ([], panics)
  unfolding filter_ages skips is_empty
  no_source_panics [] newer u us a h = absurd (a refl)
  no_source_panics (c ∷ older) newer u us a h = ground arith

  first_failed :
      (remote : Remote) (source target : Bytes) (recursive zip : Bool) (time : ℕ) (client : Client)
      (c : ClientContent) (cs : List ClientContent) {e : Error}
      → remote.new_client source ≡ ok client
      → client.list (record { recursive = recursive; time_ref = time; count = 0; list_zip = zip })
        ≡ c ∷ cs
      → c.err ≡ some e
      → prepare_copy_urls_type_c remote source target recursive zip time
        ≡ failed e
          ∷ copy_listing
              (remote.must_expand_alias source).0
              client.get_url
              (remote.must_expand_alias target).0
              (remote.must_expand_alias target).1
              cs
  unfolding prepare_copy_urls_type_c copy_listing copy_listed
  first_failed remote source target recursive zip time client c cs h l k =
      rw (h, prepare_copy_urls_type_c) (rw (l, copy_listing) (rw (k, copy_listed) refl))

  -- With --older-than set, a folder whose listing begins with an error crashes the copy: the error's
  -- pair has no source, and its time is asked for.
  prepare_copy_urls_panics :
      (remote : Remote) (o : PrepareCopyUrlsOpts) (version : Bytes) (client : Client)
      (c : ClientContent) (cs : List ClientContent) (e : Error)
      → guess_copy_url_type remote o ≡ ok (type_c, version)
      → remote.new_client (first_source o.source_urls) ≡ ok client
      → client.list (record {
        recursive = o.is_recursive;
        time_ref = o.time_ref;
        count = 0;
        list_zip = o.is_zip;
      })
        ≡ c ∷ cs
      → c.err ≡ some e
      → o.older_than ≢ []
      → prepare_copy_urls float_part since remote o ≡ ([], panics)
  unfolding prepare_copy_urls copy_urls_of_type
  prepare_copy_urls_panics remote o version client c cs e g h l k a =
      rw (g, prepare_copy_urls)
        (ap (filter_ages float_part since o.older_than o.newer_than) (
            first_failed remote (first_source o.source_urls) o.target_url o.is_recursive o.is_zip
              o.time_ref client c cs h l k)
          ∙ no_source_panics o.older_than o.newer_than (failed e) _ a refl)
