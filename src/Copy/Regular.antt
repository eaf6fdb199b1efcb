-- ===== src/Copy/Regular.antt =====
-- What `prepareCopyURLs` of cmd/cp-url.go may copy: regular files only, and all of a listing.
use oss_mc.Base.{
  ℕ, Bool, true, false, List, [], ◌∷◌, ◌++◌, Option, none, some, ◌≡◌, ◌≢◌, ◌⊎◌, inl, inr, refl, ap,
  ◌∙◌, arith, Bytes, All, All-append, keep, Fallible-cases, Bool-cases,
}
use oss_mc.ClientUrl.{ClientUrl}
use oss_mc.Content.{ClientContent, is_regular, is_dir}
use oss_mc.Copy.{
  failed, copy_listed, copy_listing, make_copy_content_type_a, make_copy_content_type_b,
  make_copy_content_type_c, prepare_copy_urls_type_a, prepare_copy_urls_type_b,
  prepare_copy_urls_type_c, prepare_copy_urls_type_d, PrepareCopyUrlsOpts, CopyUrlsType,
  type_invalid, type_a, type_b, type_c, type_d, copy_urls_of_type, filter_ages, skips,
  prepare_copy_urls, guess_copy_url_type, first_source,
}
use oss_mc.Errors.{Error}
use oss_mc.Mirror.{Urls}
use oss_mc.Remote.{Remote, url2_stat}

-- The pair carries an error, or its source is a regular file.
abbrev pub CopiesFile : Urls → Type 0
CopiesFile u =
    (u.error ≢ none)
    ⊎ ((s : ClientContent) × ((u.source_content ≡ some s) × (is_regular s.type ≡ true)))

-- The sources of the pairs, in order.
abbrev add_source : Option ClientContent → List ClientContent → List ClientContent
add_source none cs = cs
add_source (some c) cs = c ∷ cs

unfoldable pub sources_of : List Urls → List ClientContent
sources_of [] = []
sources_of (u ∷ us) = add_source u.source_content (sources_of us)

-- A regular file that was listed without an error.
abbrev pub is_copied : ClientContent → Bool
is_copied c = elim c.err [ some e ↦ false | none ↦ is_regular c.type ]

module _ (source_alias : Bytes) (folder : ClientUrl) (target_alias target_url : Bytes) where
  copy_listed-CopiesFile :
      (c : ClientContent)
      → All CopiesFile (copy_listed source_alias folder target_alias target_url c)
  unfolding copy_listed make_copy_content_type_c make_copy_content_type_a
  copy_listed-CopiesFile c = ground arith

  copy_listing-CopiesFile :
      (cs : List ClientContent)
      → All CopiesFile (copy_listing source_alias folder target_alias target_url cs)
  unfolding copy_listing
  copy_listing-CopiesFile [] = tt
  copy_listing-CopiesFile (c ∷ cs) =
      All-append _ _ _ (copy_listed-CopiesFile c) (copy_listing-CopiesFile cs)

  listed_once :
      (c : ClientContent) (us : List Urls)
      → sources_of (copy_listed source_alias folder target_alias target_url c ++ us)
        ≡ elim (is_copied c) [ true ↦ c ∷ sources_of us | false ↦ sources_of us ]
  unfolding copy_listed make_copy_content_type_c make_copy_content_type_a sources_of
  listed_once c us = ground arith

  -- Of a folder's listing, the regular files that were listed without an error are copied, each
  -- once and in the order of the listing, and nothing else is.
  sources_of-copy_listing :
      (cs : List ClientContent)
      → sources_of (copy_listing source_alias folder target_alias target_url cs) ≡ keep is_copied cs
  unfolding copy_listing
  sources_of-copy_listing [] = unfold sources_of in refl
  sources_of-copy_listing (c ∷ cs) =
      listed_once c (copy_listing source_alias folder target_alias target_url cs)
      ∙ ap (λ (us : List ClientContent). elim (is_copied c) [ true ↦ c ∷ us | false ↦ us ])
          (sources_of-copy_listing cs)

failed-CopiesFile : (e : Error) → CopiesFile (failed e)
failed-CopiesFile e = inl (λ h. cc)

made-CopiesFile :
    (source_alias : Bytes) (source : ClientContent) (target_alias target : Bytes)
    → is_regular source.type ≡ true
    → CopiesFile (make_copy_content_type_a source_alias source target_alias target)
unfolding make_copy_content_type_a
made-CopiesFile source_alias source target_alias target h = inr (source, (refl, h))

module _ (remote : Remote) where
  type_a-CopiesFile :
      (source version target : Bytes) (zip : Bool)
      → CopiesFile (prepare_copy_urls_type_a remote source version target zip)
  unfolding prepare_copy_urls_type_a
  type_a-CopiesFile source version target zip =
      elim (Fallible-cases (url2_stat remote source version 0 zip)) [
        | inl (e, h) ↦ rw (h, prepare_copy_urls_type_a) (failed-CopiesFile e)
        | inr (s, h) ↦
            rw (h, prepare_copy_urls_type_a)
              (elim (Bool-cases (is_regular s.type)) [
                | inl t ↦ rw t (made-CopiesFile _ s _ _ t)
                | inr n ↦ rw n (failed-CopiesFile _)
              ])
      ]

  type_b-CopiesFile :
      (source version target : Bytes) (zip : Bool)
      → CopiesFile (prepare_copy_urls_type_b remote source version target zip)
  unfolding prepare_copy_urls_type_b make_copy_content_type_b
  type_b-CopiesFile source version target zip =
      elim (Fallible-cases (url2_stat remote source version 0 zip)) [
        | inl (e, h) ↦ rw (h, prepare_copy_urls_type_b) (failed-CopiesFile e)
        | inr (s, h) ↦
            rw (h, prepare_copy_urls_type_b)
              (elim (Bool-cases (is_regular s.type)) [
                | inl t ↦ rw t (made-CopiesFile _ s _ _ t)
                | inr n ↦ rw n (elim (Bool-cases (is_dir s.type)) [
                  | inl d ↦ rw d (failed-CopiesFile _)
                  | inr d ↦ rw d (failed-CopiesFile _)
                ])
              ])
      ]

  type_c-CopiesFile :
      (source target : Bytes) (recursive zip : Bool) (time : ℕ)
      → All CopiesFile (prepare_copy_urls_type_c remote source target recursive zip time)
  unfolding prepare_copy_urls_type_c
  type_c-CopiesFile source target recursive zip time =
      elim (Fallible-cases (remote.new_client source)) [
        | inl (e, h) ↦ rw (h, prepare_copy_urls_type_c) (failed-CopiesFile e, tt)
        | inr (client, h) ↦ rw (h, prepare_copy_urls_type_c) (copy_listing-CopiesFile _ _ _ _ _)
      ]

  type_d-CopiesFile :
      (sources : List Bytes) (target : Bytes) (recursive : Bool) (time : ℕ)
      → All CopiesFile (prepare_copy_urls_type_d remote sources target recursive time)
  unfolding prepare_copy_urls_type_d
  type_d-CopiesFile [] target recursive time = tt
  type_d-CopiesFile (s ∷ ss) target recursive time =
      All-append _ _ _ (type_c-CopiesFile s target recursive false time)
        (type_d-CopiesFile ss target recursive time)

  of_type-CopiesFile :
      (o : PrepareCopyUrlsOpts) (type : CopyUrlsType) (version source : Bytes)
      → All CopiesFile (copy_urls_of_type remote o type version source)
  unfolding copy_urls_of_type
  of_type-CopiesFile o type_a version source =
      (type_a-CopiesFile source version o.target_url o.is_zip, tt)
  of_type-CopiesFile o type_b version source =
      (type_b-CopiesFile source version o.target_url o.is_zip, tt)
  of_type-CopiesFile o type_c version source =
      type_c-CopiesFile source o.target_url o.is_recursive o.is_zip o.time_ref
  of_type-CopiesFile o type_d version source =
      type_d-CopiesFile o.source_urls o.target_url o.is_recursive o.time_ref
  of_type-CopiesFile o type_invalid version source = (failed-CopiesFile _, tt)

module _ (float_part : ℕ → ℕ → ℕ → ℕ) (since : ℕ → ℕ) where
  -- What holds of all pairs holds of those that are not passed over.
  pub All-filter_ages :
      (P : Urls → Type 0) (older newer : Bytes) (us : List Urls)
      → All P us
      → All P (filter_ages float_part since older newer us).0
  unfolding filter_ages
  All-filter_ages P older newer [] h = tt
  All-filter_ages P older newer (u ∷ us) (h, hs) =
      elim (Fallible-cases (skips float_part since older newer u)) [
        | inl (e, k) ↦ rw (k, filter_ages) tt
        | inr (true, k) ↦ rw (k, filter_ages) (All-filter_ages P older newer us hs)
        | inr (false, k) ↦ rw (k, filter_ages) (h, All-filter_ages P older newer us hs)
      ]

  -- Whatever the sources and the target are, every pair that is prepared carries an error or copies
  -- a regular file.
  pub prepare_copy_urls-CopiesFile :
      (remote : Remote) (o : PrepareCopyUrlsOpts)
      → All CopiesFile (prepare_copy_urls float_part since remote o).0
  unfolding prepare_copy_urls
  prepare_copy_urls-CopiesFile remote o = elim (Fallible-cases (guess_copy_url_type remote o)) [
    | inl (e, h) ↦ rw (h, prepare_copy_urls) tt
    | inr ((type, version), h) ↦
        rw (h, prepare_copy_urls)
          (All-filter_ages CopiesFile o.older_than o.newer_than _
            (of_type-CopiesFile remote o type version (first_source o.source_urls)))
  ]
