-- ===== src/Mirror/Plan.antt =====
-- What `deltaSourceTarget` may write, overwrite and remove.
use oss_mc.Base.{
  Bool, true, false, List, [], ◌∷◌, none, ◌≡◌, ◌≢◌, ◌⊎◌, inl, inr, refl, arith, Bytes, All,
  All-append,
}
use oss_mc.Difference.{
  DifferType, differ_in_unknown, differ_in_none, differ_in_size, differ_in_metadata, differ_in_type,
  differ_in_first, differ_in_second, differ_in_aa_source_mtime, DiffMessage,
}
use oss_mc.Mirror.{
  Urls, MirrorOptions, failed_urls, match_exclude_options, copy_of, delta_of, delta_message,
  delta_messages,
}
use oss_mc.Errors.{Error}
use oss_mc.Strings.{trim_prefix}

module _ (wildcard_match : Bytes → Bytes → Bool) (opts : MirrorOptions)
    (source_alias source_url target_alias target_url : Bytes) where
  abbrev plan : List DiffMessage → List Urls
  plan = delta_messages wildcard_match opts source_alias source_url target_alias target_url

  abbrev plan_one : DiffMessage → List Urls
  plan_one = delta_message wildcard_match opts source_alias source_url target_alias target_url

  abbrev excluded : Bytes → Bool
  excluded = match_exclude_options wildcard_match opts.exclude_options

  abbrev pub MayOverwrite : Type 0
  MayOverwrite = (opts.is_overwrite ≡ true) ⊎ ((opts.is_fake ≡ true) ⊎ (opts.active_active ≡ true))

  abbrev pub MayRemove : Type 0
  MayRemove = (opts.is_remove ≡ true) ⊎ (opts.is_fake ≡ true)

  -- Why a pair may stand in the plan: it carries an error; or it copies what a message says is in
  -- the source, and it overwrites only where that is allowed; or it removes what a message says is
  -- in the target only, where that is allowed.
  abbrev pub Justified : DiffMessage → Urls → Type 0
  Justified m u =
      (u.error ≢ none)
      ⊎ (((excluded (trim_prefix m.first_url source_url) ≡ false)
            × (excluded (trim_prefix m.second_url target_url) ≡ false))
          × (((u.source_content ≡ m.first_content) × ((m.diff ≡ differ_in_first) ⊎ MayOverwrite))
              ⊎ ((u.source_content ≡ none)
                  × (u.target_content ≡ m.second_content)
                  × (m.diff ≡ differ_in_second)
                  × MayRemove)))

  of_kind :
      (d : DifferType) (m : DiffMessage)
      → m.diff ≡ d
      → excluded (trim_prefix m.first_url source_url) ≡ false
      → excluded (trim_prefix m.second_url target_url) ≡ false
      → All
          (Justified m)
          (delta_of wildcard_match opts source_alias source_url target_alias target_url d m)
  unfolding delta_of copy_of
  of_kind differ_in_none m e f s = tt
  of_kind differ_in_type m e f s = ground arith
  of_kind differ_in_size m e f s = ground arith
  of_kind differ_in_metadata m e f s = ground arith
  of_kind differ_in_aa_source_mtime m e f s = ground arith
  of_kind differ_in_first m e f s = ground arith
  of_kind differ_in_second m e f s = ground arith
  of_kind differ_in_unknown m e f s = ground arith

  -- What one round sends, by its guards.
  sent_one :
      (m : DiffMessage)
      → ((e : Error) × (plan_one m ≡ failed_urls e differ_in_unknown ∷ []))
        ⊎ ((plan_one m ≡ [])
            ⊎ ((excluded (trim_prefix m.first_url source_url) ≡ false)
                × ((excluded (trim_prefix m.second_url target_url) ≡ false)
                    × (plan_one m
                        ≡ delta_of wildcard_match opts source_alias source_url target_alias
                            target_url m.diff m))))
  unfolding delta_message
  sent_one m = ground arith

  Justified-one : (m : DiffMessage) → All (Justified m) (plan_one m)
  Justified-one m = elim (sent_one m) [
    | inl (e, h) ↦ rw h (inl (λ k. cc), tt)
    | inr (inl h) ↦ rw h tt
    | inr (inr (f, (s, h))) ↦ rw h (of_kind m.diff m refl f s)
  ]

  -- one of the messages answers for the pair
  abbrev pub JustifiedBy : List DiffMessage → Urls → Type 0
  JustifiedBy [] u = ⊥
  JustifiedBy (m ∷ ms) u = Justified m u ⊎ JustifiedBy ms u

  All-weaken {ℓ κ} :
      {A : Type ℓ} {P Q : A → Type κ} → ((a : A) → P a → Q a) → (xs : List A) → All P xs → All Q xs
  All-weaken f [] h = tt
  All-weaken f (x ∷ xs) (h, hs) = (f x h, All-weaken f xs hs)

  -- Every pair that the loop sends is there for one of the messages, and it carries an error, or
  -- neither of the message's names is excluded and either it copies the source's object, one that
  -- the target lacks or that the options allow to overwrite, or it removes the target's object,
  -- one that the source lacks and that the options allow to remove.
  pub delta_messages-JustifiedBy : (ms : List DiffMessage) → All (JustifiedBy ms) (plan ms)
  unfolding delta_messages
  delta_messages-JustifiedBy [] = tt
  delta_messages-JustifiedBy (m ∷ ms) =
      All-append _ (plan_one m) (plan ms) (All-weaken (λ u. inl) _ (Justified-one m))
        (All-weaken (λ u. inr) _ (delta_messages-JustifiedBy ms))
