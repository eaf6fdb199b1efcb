-- ===== src/S3/Remove/Batches.antt =====
-- The batches of `Remove` in cmd/client-s3.go.
use oss_mc.Base.{
  ℕ, suc, Bool, true, false, not, ◌&&◌, ◌||◌, List, [], ◌∷◌, ◌++◌, Option, none, Bytes, map, ◌≡◌,
  refl, ap, ◌∙◌, ◌⊎◌, inl, inr, Bool-cases, Option-cases,
}
use oss_mc.Errors.{Error}
use oss_mc.Rm.{RemoveResult}
use oss_mc.S3.{S3Client, split_path, url2_bucket_and_object}
use oss_mc.S3.Remove.{
  Event, opens, sends, RemoveEnd, finished, Received, received, cancelled, labelled, labelled_last,
  close_if, end_bucket, change_bucket, is_open_for, send_name, finish_remove, remove,
  remove_contents,
}
use oss_mc.Strings.{equal, is_empty}
use oss_mc.Strings.Laws.{equal_iff}
use oss_mc.S3.Remove.Quiet.{
  dispatched, IsQuiet, behind_quiet, IsQuiet-nothing, IsQuiet-close_if, then_none, IsQuiet-labelled,
  IsQuiet-append,
}

module _ (error_text : Error → Bytes) (arrives left : ℕ → List RemoveResult)
    (remove_bucket : ℕ → Bytes → Option Error) (force_delete : Bytes → Bytes → Option Error)
    (c : S3Client) (is_incomplete is_remove_bucket : Bool) where
  -- every content names a bucket and an object in it
  abbrev pub IsNamed : List Received → Type 0
  IsNamed [] = Unit
  IsNamed (received x ∷ rs) =
      (is_empty (split_path c x.url.path).0 ≡ false)
      × ((is_empty (split_path c x.url.path).1 ≡ false) × IsNamed rs)
  IsNamed (cancelled e ∷ rs) = ⊥

  -- the buckets, names and versions of the contents
  abbrev pub targets : List Received → List (Bytes × Bytes × Bytes)
  targets [] = []
  targets (received x ∷ rs) =
      ((split_path c x.url.path).0, (split_path c x.url.path).1, x.version_id) ∷ targets rs
  targets (cancelled e ∷ rs) = targets rs

  abbrev parts : ℕ → Bytes → Bool → List Received → List Event × RemoveEnd
  parts =
      remove_contents error_text arrives left remove_bucket force_delete c is_incomplete
        is_remove_bucket

  abbrev change : ℕ → Bytes → Bool → Bytes → List Event × Option RemoveEnd
  change =
      change_bucket error_text arrives left remove_bucket force_delete c is_incomplete
        is_remove_bucket

  abbrev send_of : ℕ → Bytes → Bool → Bytes → Bytes → List Event × Option RemoveEnd
  send_of =
      send_name error_text arrives left remove_bucket force_delete c is_incomplete is_remove_bucket

  abbrev end_of : ℕ → Bytes → Bytes → List Event × Option RemoveEnd
  end_of =
      end_bucket error_text arrives left remove_bucket force_delete c is_incomplete is_remove_bucket

  abbrev is_open : Bytes → Bool → Bytes → Bool
  is_open =
      is_open_for error_text arrives left remove_bucket force_delete c is_incomplete
        is_remove_bucket

  IsQuiet-labelled_last :
      (bucket : Bytes) (rs : List RemoveResult)
      → IsQuiet (
          map
            (labelled_last error_text arrives left remove_bucket force_delete c is_incomplete
              is_remove_bucket bucket)
            rs)
  IsQuiet-labelled_last bucket [] b rest = refl
  IsQuiet-labelled_last bucket (r ∷ rs) b rest = elim (Option-cases r.err) [
    | inl n ↦ rw n (IsQuiet-labelled_last bucket rs b rest)
    | inr (e, h) ↦ rw h (IsQuiet-labelled_last bucket rs b rest)
  ]

  -- A bucket is removed without an error, or left alone.
  end_bucket-goes_on :
      (n : ℕ) (prev name : Bytes)
      → ((k : ℕ) (b : Bytes) → remove_bucket k b ≡ none)
      → ((end_of n prev name).1 ≡ none) × IsQuiet (end_of n prev name).0
  unfolding end_bucket
  end_bucket-goes_on n prev name h = elim (Bool-cases (is_remove_bucket && not is_incomplete)) [
    | inl y ↦ rw y (rw (h n prev) (refl, λ b rest. refl))
    | inr m ↦ rw m (refl, λ b rest. refl)
  ]

  change_bucket-opens :
      (n : ℕ) (prev bucket : Bytes) (o : Bool) (rest : List Event)
      → ((k : ℕ) (b : Bytes) → remove_bucket k b ≡ none)
      → ((change n prev o bucket).1 ≡ none)
        × (dispatched prev ((change n prev o bucket).0 ++ rest) ≡ dispatched bucket rest)
  unfolding change_bucket
  change_bucket-opens n prev bucket o rest h = elim (Bool-cases (is_empty prev)) [
    | inl y ↦ rw y (refl, refl)
    | inr m ↦ elim (Bool-cases (equal prev bucket)) [
      | inl y ↦
          let same = (equal_iff prev bucket).0 y in
          rw m (rw y (refl, ap (λ b. dispatched b rest) same))
      | inr d ↦
          let (goes, quiet) = end_bucket-goes_on n prev bucket h in
          let tail = (end_of n prev bucket).0 ++ opens bucket ∷ [] in
          rw m (
            rw d (
              rw goes (
                refl,
                behind_quiet (close_if o) (map (labelled bucket) (left n) ++ tail) prev rest
                      (IsQuiet-close_if o)
                    ∙ behind_quiet (map (labelled bucket) (left n)) tail prev rest
                        (IsQuiet-labelled bucket (left n))
                    ∙ behind_quiet (end_of n prev bucket).0 (opens bucket ∷ []) prev rest quiet,
              )))
    ]
  ]

  is_open_for-batch :
      (prev bucket : Bytes) (o : Bool)
      → (is_empty prev ≡ true) ⊎ (o ≡ true)
      → is_open prev o bucket ≡ true
  unfolding is_open_for
  is_open_for-batch prev bucket o (inl y) = rw y refl
  is_open_for-batch prev bucket o (inr y) =
      elim (Bool-cases (is_empty prev || not (equal prev bucket))) [
        | inl z ↦ rw z refl
        | inr z ↦ rw z y
      ]

  send_name-sends :
      (n : ℕ) (bucket name version : Bytes) (o : Bool) (rest : List Event)
      → is_empty name ≡ false
      → o ≡ true
      → ((send_of n bucket o name version).1 ≡ none)
        × (dispatched bucket ((send_of n bucket o name version).0 ++ rest)
            ≡ (bucket, name, version) ∷ dispatched bucket rest)
  unfolding send_name
  send_name-sends n bucket name version o rest h y = rw h (
      rw y (
        refl,
        behind_quiet (map (labelled bucket) (arrives n)) (sends name version ∷ []) bucket rest
            (IsQuiet-labelled bucket (arrives n)),
      ))

  finish_remove-ends :
      (n : ℕ) (prev : Bytes) (o : Bool)
      → ((k : ℕ) (b : Bytes) → remove_bucket k b ≡ none)
      → (finish_remove error_text arrives left remove_bucket force_delete c is_incomplete
            is_remove_bucket n prev o).1
          ≡ finished
        × (dispatched prev
              (finish_remove error_text arrives left remove_bucket force_delete c is_incomplete
                is_remove_bucket n prev o).0
            ≡ [])
  unfolding finish_remove
  finish_remove-ends n prev o h = elim (Bool-cases (is_empty prev)) [
    | inl y ↦ rw y (refl, IsQuiet-nothing (close_if o) prev (IsQuiet-close_if o))
    | inr m ↦
        let (goes, quiet) = end_bucket-goes_on n prev prev h in
        let last =
          map
            (labelled_last error_text arrives left remove_bucket force_delete c is_incomplete
              is_remove_bucket prev)
            (left n) in
        let early =
          IsQuiet-append (close_if o) last (IsQuiet-close_if o)
            (IsQuiet-labelled_last prev (left n)) in
        rw m (
          rw (then_none (end_of n prev prev) ([], finished) goes) (
            refl,
            IsQuiet-nothing ((close_if o ++ last) ++ ((end_of n prev prev).0 ++ [])) prev (
                IsQuiet-append (close_if o ++ last) ((end_of n prev prev).0 ++ []) early
                  (IsQuiet-append (end_of n prev prev).0 [] quiet (λ b rest. refl))),
          ))
  ]

  parts-sends :
      (n : ℕ) (prev : Bytes) (o : Bool) (rs : List Received)
      → ((k : ℕ) (b : Bytes) → remove_bucket k b ≡ none)
      → (is_empty prev ≡ true) ⊎ (o ≡ true)
      → IsNamed rs
      → ((parts n prev o rs).1 ≡ finished) × (dispatched prev (parts n prev o rs).0 ≡ targets rs)
  unfolding remove_contents
  parts-sends n prev o [] h w named = finish_remove-ends n prev o h
  parts-sends n prev o (cancelled e ∷ rs) h w named = absurd named
  parts-sends n prev o (received x ∷ rs) h w (b, (m, named)) =
      let bucket = (split_path c x.url.path).0 in
      let name = (split_path c x.url.path).1 in
      let ready = is_open_for-batch prev bucket o w in
      let (end, rest) = parts-sends (suc n) bucket true rs h (inr refl) named in
      let more = parts (suc n) bucket true rs in
      let sent = send_name-sends n bucket name x.version_id true more.0 m refl in
      let moved =
        change_bucket-opens n prev bucket o ((send_of n bucket true name x.version_id).0 ++ more.0)
          h in
      rw b (
        rw ready (
          rw m (
            rw (then_none (send_of n bucket true name x.version_id) more sent.0) (
              rw
                (then_none (change n prev o bucket)
                  ((send_of n bucket true name x.version_id).0 ++ more.0, more.1) moved.0)
                (end, moved.1 ∙ sent.1 ∙ ap (λ l. (bucket, name, x.version_id) ∷ l) rest)))))

  -- Objects of any buckets, in any order, are all sent to be removed, each once, in their order and with
  -- their versions, to a batch of their own bucket: a change of the bucket ends the batch before. This
  -- holds when the removal is called without the force flag, every content names a bucket and an object
  -- in it, nobody cancels, and buckets that are removed with their objects are removed without an error
  -- and name no object in the address of the client.
  pub remove-dispatched :
      (rs : List Received)
      → (is_remove_bucket && not (is_empty (url2_bucket_and_object c.target_url).1)) ≡ false
      → ((k : ℕ) (b : Bytes) → remove_bucket k b ≡ none)
      → IsNamed rs
      → ((remove error_text arrives left remove_bucket force_delete c is_incomplete is_remove_bucket
            false rs).1
          ≡ finished)
        × (dispatched []
              (remove error_text arrives left remove_bucket force_delete c is_incomplete
                is_remove_bucket false rs).0
            ≡ targets rs)
  unfolding remove
  remove-dispatched rs a h named =
      rw a (parts-sends 0 [] false rs h (inl (unfold is_empty in refl)) named)
