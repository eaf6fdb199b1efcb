-- ===== src/Lifecycle/Update.antt =====
-- `ApplyRuleFields` of cmd/ilm/options.go: the options that are set are written into a rule, in
-- place. An error stops it and leaves in the rule what was written before.
pub mod Exclusive
use oss_mc.Base.{
  ℕ, Bool, true, false, List, [], ◌∷◌, Option, none, some, Bytes, Fallible, ok, err, ◌>>=◌,
}
use oss_mc.Lifecycle.{Rule, Tag, Filter, Expiration, Transition}
use oss_mc.Lifecycle.Options.{
  LifecycleOptions, or_else, parse_expiry_date, parse_expiry_days, parse_transition_date,
  parse_transition_days, status_text,
}
use oss_mc.Lifecycle.Tags.{extract_ilm_tags}
use oss_mc.Lifecycle.Validation.{LifecycleError}

abbrev pub apply_tags : Rule → Option Bytes → Rule
apply_tags r none = r
apply_tags r (some text) = record r {
  filter = record r.filter { and = record r.filter.and { tags = extract_ilm_tags text } };
}

-- the prefix goes beside the tags, if there are any
abbrev pub put_prefix : Rule → Bytes → List Tag → Rule
put_prefix r p [] = record r { filter = record r.filter { prefix = p } }
put_prefix r p (t ∷ ts) = record r {
  filter = record r.filter { and = record r.filter.and { prefix = p } };
}

abbrev pub apply_prefix : Rule → Option Bytes → Rule
apply_prefix r none = r
apply_prefix r (some p) = put_prefix r p r.filter.and.tags

-- a flag of deletion markers that is set resets the rest; one that is not changes nothing
abbrev pub apply_marker : Expiration → Option Bool → Expiration
apply_marker e none = e
apply_marker e (some b) = record { date = 0; days = 0; delete_marker = b }

unfoldable pub apply_expiry_days :
    Expiration → Option Bytes → Option Bool → Fallible LifecycleError Expiration
apply_expiry_days e none marker = ok (apply_marker e marker)
apply_expiry_days e (some text) marker = do
  n ← parse_expiry_days text
  ok (record e { days = n; date = 0 })

unfoldable pub apply_transition_days :
    Transition → Option Bytes → Fallible LifecycleError Transition
apply_transition_days t none = ok t
apply_transition_days t (some text) = do
  n ← parse_transition_days text
  ok (record t { days = n; date = 0 })

-- what stands behind the dates and days
unfoldable pub apply_rest : Rule → LifecycleOptions → Rule
apply_rest r o = record r {
  noncurrent_expiration = record r.noncurrent_expiration {
    noncurrent_days = or_else r.noncurrent_expiration.noncurrent_days o.noncurrent_expiration_days;
    newer_versions =
        or_else r.noncurrent_expiration.newer_versions o.newer_noncurrent_expiration_versions;
  };
  noncurrent_transition = record r.noncurrent_transition {
    noncurrent_days = or_else r.noncurrent_transition.noncurrent_days o.noncurrent_transition_days;
    newer_versions =
        or_else r.noncurrent_transition.newer_versions o.newer_noncurrent_transition_versions;
    storage_class =
        or_else r.noncurrent_transition.storage_class o.noncurrent_transition_storage_class;
  };
  transition = record r.transition {
    storage_class = or_else r.transition.storage_class o.storage_class;
  };
  status = elim o.status [ none ↦ r.status | some b ↦ status_text (some b) ];
}

module _ (parse_date : Bytes → Option ℕ) where
  unfoldable pub apply_expiry :
      Expiration → Option Bytes → Option Bytes → Option Bool → Fallible LifecycleError Expiration
  apply_expiry e none days marker = apply_expiry_days e days marker
  apply_expiry e (some text) days marker = do
    d ← parse_expiry_date parse_date text
    ok (record e { date = d; days = 0; delete_marker = false })

  unfoldable pub apply_transition :
      Transition → Option Bytes → Option Bytes → Fallible LifecycleError Transition
  apply_transition t none days = apply_transition_days t days
  apply_transition t (some text) days = do
    d ← parse_transition_date parse_date text
    ok (record t { date = d; days = 0 })

  unfoldable pub apply_moves : Rule → LifecycleOptions → Rule × Option LifecycleError
  apply_moves r o = elim (apply_transition r.transition o.transition_date o.transition_days) [
    | err e ↦ (r, some e)
    | ok t ↦ (apply_rest (record r { transition = t }) o, none)
  ]

  -- the rule as it is left, and the error
  unfoldable pub apply_rule_fields : Rule → LifecycleOptions → Rule × Option LifecycleError
  apply_rule_fields r o =
      let r2 = apply_prefix (apply_tags r o.tags) o.prefix in
      elim (apply_expiry r2.expiration o.expiry_date o.expiry_days o.expired_object_delete_marker) [
        | err e ↦ (r2, some e)
        | ok x ↦ apply_moves (record r2 { expiration = x }) o
      ]
