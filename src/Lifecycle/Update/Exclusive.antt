-- ===== src/Lifecycle/Update/Exclusive.antt =====
-- What `ApplyRuleFields` of cmd/ilm/options.go keeps true of a rule, and what it does not.
use oss_mc.Base.{
  ℕ, Bool, true, List, [], ◌∷◌, Option, none, some, ◌≡◌, ◌≢◌, ◌⊎◌, inl, inr, refl, ap, ◌∙◌, arith,
  Bytes, ok, err, Fallible-cases,
}
use oss_mc.Lifecycle.{LifecycleSdk, IsLifecycleSdk, Rule, Tag, Expiration, Transition}
use oss_mc.Lifecycle.Options.{LifecycleOptions, parse_expiry_days}
use oss_mc.Lifecycle.Update.{
  apply_tags, put_prefix, apply_prefix, apply_expiry_days, apply_transition_days, apply_rest,
  apply_expiry, apply_transition, apply_moves, apply_rule_fields,
}
use oss_mc.Lifecycle.Validation.{validate_expiration, many_expirations}

-- A date and a number of days never stand together.
abbrev pub OneTime : ℕ → ℕ → Type 0
OneTime date days = (date ≡ 0) ⊎ (days ≡ 0)

abbrev pub IsExclusive : Rule → Type 0
IsExclusive r =
    OneTime r.expiration.date r.expiration.days × OneTime r.transition.date r.transition.days

put_prefix_times :
    (r : Rule) (p : Bytes) (ts : List Tag)
    → ((put_prefix r p ts).expiration ≡ r.expiration)
      × ((put_prefix r p ts).transition ≡ r.transition)
put_prefix_times r p [] = (refl, refl)
put_prefix_times r p (t ∷ ts) = (refl, refl)

apply_prefix_times :
    (r : Rule) (p : Option Bytes)
    → ((apply_prefix r p).expiration ≡ r.expiration)
      × ((apply_prefix r p).transition ≡ r.transition)
apply_prefix_times r none = (refl, refl)
apply_prefix_times r (some p) = put_prefix_times r p r.filter.and.tags

-- The tags and the prefix leave both times as they are.
filter_times :
    (r : Rule) (t p : Option Bytes)
    → ((apply_prefix (apply_tags r t) p).expiration ≡ r.expiration)
      × ((apply_prefix (apply_tags r t) p).transition ≡ r.transition)
filter_times r none p = apply_prefix_times r p
filter_times r (some text) p = apply_prefix_times (apply_tags r (some text)) p

module _ (parse_date : Bytes → Option ℕ) where
  apply_expiry-OneTime :
      (e : Expiration) (date days : Option Bytes) (marker : Option Bool) {x : Expiration}
      → OneTime e.date e.days
      → apply_expiry parse_date e date days marker ≡ ok x
      → OneTime x.date x.days
  unfolding apply_expiry apply_expiry_days
  apply_expiry-OneTime e (some d) days marker h k = ground arith
  apply_expiry-OneTime e none (some n) marker h k = ground arith
  apply_expiry-OneTime e none none none h k = ground arith
  apply_expiry-OneTime e none none (some b) h k = ground arith

  apply_transition-OneTime :
      (t : Transition) (date days : Option Bytes) {x : Transition}
      → OneTime t.date t.days
      → apply_transition parse_date t date days ≡ ok x
      → OneTime x.date x.days
  unfolding apply_transition apply_transition_days
  apply_transition-OneTime t (some d) days h k = ground arith
  apply_transition-OneTime t none (some n) h k = ground arith
  apply_transition-OneTime t none none h k = ground arith

  apply_moves-IsExclusive :
      (r : Rule) (o : LifecycleOptions) → IsExclusive r → IsExclusive (apply_moves parse_date r o).0
  unfolding apply_moves
  apply_moves-IsExclusive r o (e, t) =
      elim (Fallible-cases
        (apply_transition parse_date r.transition o.transition_date o.transition_days)) [
          | inl (x, h) ↦ rw (h, apply_moves) (e, t)
          | inr (x, h) ↦
              rw (h, apply_moves)
                (unfold apply_rest in
                  (
                    e,
                    apply_transition-OneTime r.transition o.transition_date o.transition_days t h,
                  ))
        ]

  -- A rule whose expiration and whose transition never have both a date and a number of days keeps
  -- so, whatever options are written into it, also where an error stops the writing.
  pub apply_rule_fields-IsExclusive :
      (r : Rule) (o : LifecycleOptions)
      → IsExclusive r
      → IsExclusive (apply_rule_fields parse_date r o).0
  unfolding apply_rule_fields
  apply_rule_fields-IsExclusive r o (e, t) =
      let r2 = apply_prefix (apply_tags r o.tags) o.prefix in
      let (se, st) = filter_times r o.tags o.prefix in
      let e2 : OneTime r2.expiration.date r2.expiration.days = rw se e in
      let t2 : OneTime r2.transition.date r2.transition.days = rw st t in
      elim (Fallible-cases (
        apply_expiry parse_date r2.expiration o.expiry_date o.expiry_days
          o.expired_object_delete_marker)) [
            | inl (x, h) ↦ rw (h, apply_rule_fields) (e2, t2)
            | inr (x, h) ↦
                rw (h, apply_rule_fields)
                  (apply_moves-IsExclusive (record r2 { expiration = x }) o
                    (
                      apply_expiry-OneTime r2.expiration o.expiry_date o.expiry_days
                          o.expired_object_delete_marker e2 h,
                      t2,
                    ))
          ]

  parse_expiry_days-ne-0 : (text : Bytes) {n : ℕ} → parse_expiry_days text ≡ ok n → n ≢ 0
  unfolding parse_expiry_days
  parse_expiry_days-ne-0 text h = ground arith

  days_beside :
      (e : Expiration) (date days : Option Bytes) (marker : Option Bool) (text : Bytes) (n : ℕ)
      → date ≡ none
      → days ≡ some text
      → parse_expiry_days text ≡ ok n
      → apply_expiry parse_date e date days marker ≡ ok (record e { days = n; date = 0 })
  unfolding apply_expiry apply_expiry_days
  days_beside e none (some t) marker text n p q h = ground arith
  days_beside e none none marker text n p q h = cc
  days_beside e (some d) days marker text n p q h = cc

  moves_keep :
      (r : Rule) (o : LifecycleOptions) → (apply_moves parse_date r o).0.expiration ≡ r.expiration
  moves_keep r o =
      elim (Fallible-cases
        (apply_transition parse_date r.transition o.transition_date o.transition_days)) [
          | inl (x, h) ↦ unfold apply_moves in rw (h, apply_moves) refl
          | inr (x, h) ↦ unfold apply_moves apply_rest in rw (h, apply_moves) refl
        ]

  days_written :
      (r : Rule) (o : LifecycleOptions) (text : Bytes) (n : ℕ)
      → o.expiry_date ≡ none
      → o.expiry_days ≡ some text
      → parse_expiry_days text ≡ ok n
      → (apply_rule_fields parse_date r o).0.expiration
        ≡ record ((apply_prefix (apply_tags r o.tags) o.prefix).expiration) { days = n; date = 0 }
  unfolding apply_rule_fields
  days_written r o text n p q h =
      rw
        (
          days_beside (apply_prefix (apply_tags r o.tags) o.prefix).expiration o.expiry_date
              o.expiry_days o.expired_object_delete_marker text n p q h,
          apply_rule_fields,
        )
        (moves_keep _ o)

  -- Days of expiration written into a rule that expires deletion markers leave the marker set: the
  -- rule then says two things about expiration, and its own validation rejects it.
  pub apply_rule_fields_keeps_marker :
      (sdk : LifecycleSdk) (r : Rule) (o : LifecycleOptions) (text : Bytes) (n : ℕ)
      → IsLifecycleSdk sdk
      → r.expiration.delete_marker ≡ true
      → o.expiry_date ≡ none
      → o.expiry_days ≡ some text
      → parse_expiry_days text ≡ ok n
      → validate_expiration sdk (apply_rule_fields parse_date r o).0 ≡ err many_expirations
  unfolding validate_expiration
  apply_rule_fields_keeps_marker sdk r o text n laws m p q h =
      let x = (apply_rule_fields parse_date r o).0.expiration in
      let w = days_written r o text n p q h in
      let same = (filter_times r o.tags o.prefix).0 in
      let days : x.days ≡ n = ap (λ (e : Expiration). e.days) w in
      let flag : x.delete_marker ≡ true =
        ap (λ (e : Expiration). e.delete_marker) w
        ∙ ap (λ (e : Expiration). e.delete_marker) same
        ∙ m in
      ground (arith, laws.days_null x, laws.marker x, days, flag, parse_expiry_days-ne-0 text h)
