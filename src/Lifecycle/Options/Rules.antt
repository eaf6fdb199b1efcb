-- ===== src/Lifecycle/Options/Rules.antt =====
-- The rules that `ToILMRule` of cmd/ilm/options.go makes of its options.
use mathlib.Core.Path.{subst}
use oss_mc.Base.{
  ℕ, List, [], ◌∷◌, Option, none, some, ◌≡◌, inl, inr, refl, sym, arith, Bytes, Fallible, ok, err,
  >>=-ok, Fallible-cases,
}
use oss_mc.Lifecycle.{LifecycleSdk, IsLifecycleSdk, Rule, Tag, Expiration, Transition}
use oss_mc.Lifecycle.Options.{
  LifecycleOptions, or_else, tags_set, status_text, parse_expiry, parse_transition, filter_of,
  rule_of, to_ilm_rule,
}
use oss_mc.Lifecycle.Options.Reading.{
  Expires, Moves, parse_expiry_iff, parse_transition_iff, ok_same,
}
use oss_mc.Lifecycle.Tags.{get_prefix, extract_ilm_tags}
use oss_mc.Lifecycle.Validation.{LifecycleError, validate_ilm_rule}
use oss_mc.Lifecycle.Validation.Accepted.{IsValidRule, validate_ilm_rule_iff}
use oss_mc.Strings.{is_empty}

get_prefix_as :
    (r : Rule) (prefix : Bytes) (ts : List Tag)
    → r.prefix ≡ []
    → r.filter ≡ filter_of prefix ts
    → get_prefix r ≡ prefix
unfolding get_prefix filter_of is_empty
get_prefix_as r [] [] e f = ground arith
get_prefix_as r (c ∷ prefix) [] e f = ground arith
get_prefix_as r prefix (t ∷ ts) e f = ground arith

tags_as : (prefix : Bytes) (ts : List Tag) → (filter_of prefix ts).and.tags ≡ ts
unfolding filter_of
tags_as prefix [] = refl
tags_as prefix (t ∷ ts) = refl

rule_prefix :
    (o : LifecycleOptions) (e : Expiration) (t : Transition)
    → get_prefix (rule_of o e t) ≡ or_else [] o.prefix
rule_prefix o e t =
    get_prefix_as (rule_of o e t) (or_else [] o.prefix) (tags_set o.tags) (unfold rule_of in refl)
      (unfold rule_of in refl)

rule_tags :
    (o : LifecycleOptions) (e : Expiration) (t : Transition)
    → (rule_of o e t).filter.and.tags ≡ tags_set o.tags
unfolding rule_of
rule_tags o e t = tags_as (or_else [] o.prefix) (tags_set o.tags)

not_both :
    {m : Fallible LifecycleError Rule} (e : LifecycleError) (r : Rule) → m ≡ err e → m ≡ ok r → ⊥
not_both e r h k = cc

-- No tags where no text is given, and otherwise those that the text spells.
abbrev pub TagsOf : Option Bytes → List Tag → Type 0
TagsOf none ts = ts ≡ []
TagsOf (some text) ts = ts ≡ extract_ilm_tags text

tags_set-TagsOf : (text : Option Bytes) → TagsOf text (tags_set text)
tags_set-TagsOf none = refl
tags_set-TagsOf (some text) = refl

module _ (to_lower : Bytes → Bytes) (sdk : LifecycleSdk) (parse_date : Bytes → Option ℕ)
    (now_text : Bytes) where
  module _ (today : ℕ) where
    -- The validity of a rule rests on what it does only.
    IsValidRule-same :
        (r s : Rule)
        → s.expiration ≡ r.expiration
        → s.transition ≡ r.transition
        → s.noncurrent_expiration ≡ r.noncurrent_expiration
        → s.noncurrent_transition ≡ r.noncurrent_transition
        → IsValidRule to_lower sdk parse_date now_text today r
        → IsValidRule to_lower sdk parse_date now_text today s
    IsValidRule-same r s e t f u v = record {
      acts = rw (e, t, f, u) v.acts;
      days_or_date = rw e v.days_or_date;
      days_or_marker = rw e v.days_or_marker;
      date_or_marker = rw e v.date_or_marker;
      expires_later = rw e v.expires_later;
      moves_later = rw t v.moves_later;
      in_order = rw (e, t) v.in_order;
      has_class = rw t v.has_class;
      days_not_negative = rw t v.days_not_negative;
      late_enough = rw t v.late_enough;
      expires_not_negative = rw f v.expires_not_negative;
      moves_not_negative = rw u v.moves_not_negative;
      noncurrent_class = rw u v.noncurrent_class;
    }

    -- A valid rule with the id, status, prefix and tags of the options, that does what they say.
    pub record MadeOf (o : LifecycleOptions) (r : Rule) : Type 0 where
      pub valid : IsValidRule to_lower sdk parse_date now_text today r
      pub same_id : r.id ≡ o.id
      pub status : r.status ≡ status_text o.status
      pub prefix : get_prefix r ≡ or_else [] o.prefix
      pub tags : TagsOf o.tags r.filter.and.tags
      pub expires :
          Expires parse_date o.expiry_date o.expiry_days o.expired_object_delete_marker r.expiration
      pub moves : Moves parse_date o.storage_class o.transition_date o.transition_days r.transition
      pub noncurrent_expires : r.noncurrent_expiration ≡ record {
        noncurrent_days = or_else 0 o.noncurrent_expiration_days;
        newer_versions = or_else 0 o.newer_noncurrent_expiration_versions;
      }
      pub noncurrent_moves : r.noncurrent_transition ≡ record {
        noncurrent_days = or_else 0 o.noncurrent_transition_days;
        newer_versions = or_else 0 o.newer_noncurrent_transition_versions;
        storage_class = or_else [] o.noncurrent_transition_storage_class;
      }

    made :
        (o : LifecycleOptions) (e : Expiration) (t : Transition)
        → IsValidRule to_lower sdk parse_date now_text today (rule_of o e t)
        → Expires parse_date o.expiry_date o.expiry_days o.expired_object_delete_marker e
        → Moves parse_date o.storage_class o.transition_date o.transition_days t
        → MadeOf o (rule_of o e t)
    made o e t v p q = record {
      valid = v;
      same_id = unfold rule_of in refl;
      status = unfold rule_of in refl;
      prefix = rule_prefix o e t;
      tags = rw (rule_tags o e t) (tags_set-TagsOf o.tags);
      expires = unfold rule_of in p;
      moves = unfold rule_of in q;
      noncurrent_expires = unfold rule_of in refl;
      noncurrent_moves = unfold rule_of in refl;
    }

    -- What the options are made into: such a rule, or an error if there is none.
    abbrev pub Makes : LifecycleOptions → Fallible LifecycleError Rule → Type 0
    Makes o (ok r) = MadeOf o r
    Makes o (err e) = ¬ ((r : Rule) × MadeOf o r)

    module _ (laws : IsLifecycleSdk sdk) (now : parse_date now_text ≡ some today) where
      to_ilm_rule-MadeOf :
          (o : LifecycleOptions) (r : Rule)
          → to_ilm_rule to_lower sdk parse_date now_text o ≡ ok r
          → MadeOf o r
      unfolding to_ilm_rule
      to_ilm_rule-MadeOf o r h =
          let (e, (he, h1)) =
            >>=-ok _
              (parse_expiry parse_date o.expiry_date o.expiry_days o.expired_object_delete_marker)
              h in
          let (t, (ht, h2)) =
            >>=-ok _
              (parse_transition parse_date o.storage_class o.transition_date o.transition_days)
              h1 in
          let (u, (hv, h3)) =
            >>=-ok _ (validate_ilm_rule to_lower sdk parse_date now_text (rule_of o e t)) h2 in
          let v =
            (validate_ilm_rule_iff to_lower sdk parse_date now_text today (rule_of o e t) laws
                now).0
              hv in
          subst (MadeOf o) (ok_same h3) (
            made o e t v ((parse_expiry_iff parse_date _ _ _ e).0 he)
              ((parse_transition_iff parse_date _ _ _ t).0 ht))

      to_ilm_rule_of :
          (o : LifecycleOptions) (r : Rule)
          → MadeOf o r
          → to_ilm_rule to_lower sdk parse_date now_text o
            ≡ ok (rule_of o r.expiration r.transition)
      unfolding to_ilm_rule
      to_ilm_rule_of o r m =
          let s = rule_of o r.expiration r.transition in
          let v =
            IsValidRule-same r s (unfold rule_of in refl) (unfold rule_of in refl)
              (unfold rule_of in sym m.noncurrent_expires)
              (unfold rule_of in sym m.noncurrent_moves) m.valid in
          rw
            (
              (parse_expiry_iff parse_date _ _ _ r.expiration).1 m.expires,
              (parse_transition_iff parse_date _ _ _ r.transition).1 m.moves,
              (validate_ilm_rule_iff to_lower sdk parse_date now_text today s laws now).1 v,
            )
            refl

      -- Options are made into a rule just where there is one that is valid, has their id, status,
      -- prefix and tags, and expires and moves objects and their older versions as their texts and
      -- numbers say: then such a rule is the result, and otherwise it is an error. The library's
      -- tests of a rule mean what they are named for, and the current time is read as today.
      pub to_ilm_rule-Makes :
          (o : LifecycleOptions) → Makes o (to_ilm_rule to_lower sdk parse_date now_text o)
      to_ilm_rule-Makes o = elim (Fallible-cases (to_ilm_rule to_lower sdk parse_date now_text o)) [
        | inl (e, h) ↦ rw h (λ (r, m). not_both e _ h (to_ilm_rule_of o r m))
        | inr (r, h) ↦ rw h (to_ilm_rule-MadeOf o r h)
      ]
