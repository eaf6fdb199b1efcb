-- ===== src/Difference/Walk.antt =====
-- `differenceInternal` on listings that are in order: it ends, and it is the merge of the two.
use oss_mc.Base.{
  ℕ, zero, suc, ◌+◌, ◌<◌, Bool, true, false, List, [], ◌∷◌, ◌++◌, Option, none, some, ◌≡◌, refl,
  sym, ap, ◌∙◌, arith, Bytes, if◌then◌else◌, Bool-cases, All, length, inl, inr,
}
use oss_mc.Content.{ClientContent}
use oss_mc.Difference.Merge.{merge, firsts, seconds, about_both, AboutBoth}
use oss_mc.Difference.{
  DiffMessage, only_first, only_second, Round, sends, source_suffix, target_suffix, source_key,
  target_key, type_differs, compare_heads, next_round, diff_step, difference_internal,
  pair_messages, changes, sent_before, Outcome,
}
use oss_mc.Strings.Utf8.{valid_string}
use oss_mc.Strings.{equal, less}

module _ (nfc : Bytes → Bytes) (parse_time : Bytes → Option ℕ) (source_url target_url : Bytes)
    (cmp_metadata return_similar : Bool) where
  abbrev pub key_s : ClientContent → Bytes
  key_s = source_key nfc parse_time source_url target_url cmp_metadata return_similar

  abbrev pub key_t : ClientContent → Bytes
  key_t = target_key nfc parse_time source_url target_url cmp_metadata return_similar

  abbrev pub pair : ClientContent → ClientContent → List DiffMessage
  pair = pair_messages nfc parse_time source_url target_url cmp_metadata return_similar

  abbrev pub walk : ℕ → List ClientContent → List ClientContent → Outcome
  walk = difference_internal nfc parse_time source_url target_url cmp_metadata return_similar

  -- A listing with no error in it whose names are valid texts.
  abbrev pub IsClean : (ClientContent → Bytes) → List ClientContent → Type 0
  IsClean suffix = All (λ c. (c.err ≡ none) × (valid_string (suffix c) ≡ true))

  -- Objects of one name are both regular files, or neither is.
  abbrev pub NoTypeDiffers : List ClientContent → List ClientContent → Type 0
  NoTypeDiffers src tgt =
      All
        (λ s. All (λ t. equal (key_t t) (key_s s) ≡ true → type_differs s.type t.type ≡ false) tgt)
        src

  abbrev pub suffix_s : ClientContent → Bytes
  suffix_s = source_suffix nfc parse_time source_url target_url cmp_metadata return_similar

  abbrev pub suffix_t : ClientContent → Bytes
  suffix_t = target_suffix nfc parse_time source_url target_url cmp_metadata return_similar

  NoTypeDiffers-tail :
      (t : ClientContent) (src ts : List ClientContent)
      → NoTypeDiffers src (t ∷ ts)
      → NoTypeDiffers src ts
  NoTypeDiffers-tail t [] ts h = tt
  NoTypeDiffers-tail t (s ∷ src) ts (h, hs) = (h.1, NoTypeDiffers-tail t src ts hs)

  abbrev pub step : List ClientContent → List ClientContent → Round
  step = diff_step nfc parse_time source_url target_url cmp_metadata return_similar

  pub walk_sends :
      (fuel : ℕ) (src tgt : List ClientContent) {ms : List DiffMessage}
      {src' tgt' : List ClientContent}
      → step src tgt ≡ sends ms src' tgt'
      → walk (suc fuel) src tgt ≡ sent_before ms (walk fuel src' tgt')
  unfolding difference_internal
  walk_sends fuel src tgt h = ground arith

  walk_finished : (fuel : ℕ) → walk (suc fuel) [] [] ≡ some ([], none)
  unfolding difference_internal diff_step next_round
  walk_finished fuel = refl

  second_only :
      (t : ClientContent) (ts : List ClientContent)
      → t.err ≡ none
      → step [] (t ∷ ts) ≡ sends (only_second t ∷ []) [] ts
  unfolding diff_step next_round
  second_only t ts h = ground arith

  first_only :
      (s : ClientContent) (ss : List ClientContent)
      → s.err ≡ none
      → step (s ∷ ss) [] ≡ sends (only_first s ∷ []) ss []
  unfolding diff_step next_round
  first_only s ss h = ground arith

  -- one round, as a step of the merge
  heads :
      (s t : ClientContent) (ss ts : List ClientContent)
      → s.err ≡ none
      → t.err ≡ none
      → valid_string (suffix_s s) ≡ true
      → valid_string (suffix_t t) ≡ true
      → (equal (key_t t) (key_s s) ≡ true → type_differs s.type t.type ≡ false)
      → step (s ∷ ss) (t ∷ ts) ≡ (
          if less (key_s s) (key_t t)
          then sends (only_first s ∷ []) ss (t ∷ ts)
          else if equal (key_t t) (key_s s)
          then sends (pair s t) ss ts
          else sends (only_second t ∷ []) (s ∷ ss) ts)
  unfolding diff_step next_round compare_heads
  heads s t ss ts es et vs vt same_type = ground arith

  abbrev pub united : List ClientContent → List ClientContent → List DiffMessage
  united = merge key_s key_t pair

  merged_heads :
      (s t : ClientContent) (ss ts : List ClientContent)
      → united (s ∷ ss) (t ∷ ts) ≡ (
          if less (key_s s) (key_t t)
          then only_first s ∷ united ss (t ∷ ts)
          else if equal (key_t t) (key_s s)
          then pair s t ++ united ss ts
          else only_second t ∷ united (s ∷ ss) ts)
  unfolding merge
  merged_heads s t ss ts = ground arith

  abbrev pub closed : List DiffMessage → Outcome
  closed ms = some (ms, none)

  -- With a round for each element the loop ends, returns no error and has sent the merge.
  pub walk-merge :
      (fuel : ℕ) (src tgt : List ClientContent)
      → length src + length tgt < fuel
      → IsClean suffix_s src
      → IsClean suffix_t tgt
      → NoTypeDiffers src tgt
      → walk fuel src tgt ≡ some (united src tgt, none)
  unfolding merge
  walk-merge zero src tgt f cs ct n = absurd (omega arith)
  walk-merge (suc fuel) [] [] f cs ct n = walk_finished fuel
  walk-merge (suc fuel) [] (t ∷ ts) f cs (c, ct) n =
      walk_sends fuel [] (t ∷ ts) (second_only t ts c.0)
      ∙ ap (sent_before (only_second t ∷ [])) (walk-merge fuel [] ts (omega arith) cs ct tt)
  walk-merge (suc fuel) (s ∷ ss) [] f (c, cs) ct (n, ns) =
      walk_sends fuel (s ∷ ss) [] (first_only s ss c.0)
      ∙ ap (sent_before (only_first s ∷ [])) (walk-merge fuel ss [] (omega arith) cs ct ns)
  walk-merge (suc fuel) (s ∷ ss) (t ∷ ts) f (c, cs) (d, ct) (n, ns) =
      let round = heads s t ss ts c.0 d.0 c.1 d.1 n.0 in
      let out = merged_heads s t ss ts in
      let lt = walk-merge fuel ss (t ∷ ts) (omega arith) cs (d, ct) ns in
      let eq = walk-merge fuel ss ts (omega arith) cs ct (NoTypeDiffers-tail t ss ts ns) in
      let gt =
        walk-merge fuel (s ∷ ss) ts (omega arith) (c, cs) ct (n.1, NoTypeDiffers-tail t ss ts ns) in
      elim (Bool-cases (less (key_s s) (key_t t))) [
        | inl h ↦
            walk_sends fuel _ _ (rw h at round)
            ∙ ap (sent_before (only_first s ∷ [])) lt
            ∙ ap closed (sym (rw h at out))
        | inr h ↦ elim (Bool-cases (equal (key_t t) (key_s s))) [
          | inl k ↦
              walk_sends fuel _ _ (rw (h, k) at round)
              ∙ ap (sent_before (pair s t)) eq
              ∙ ap closed (sym (rw (h, k) at out))
          | inr k ↦
              walk_sends fuel _ _ (rw (h, k) at round)
              ∙ ap (sent_before (only_second t ∷ [])) gt
              ∙ ap closed (sym (rw (h, k) at out))
        ]
      ]

  pub changes-AboutBoth : (s t : ClientContent) → AboutBoth (pair s t)
  unfolding pair_messages changes firsts seconds about_both
  changes-AboutBoth s t = ground arith
