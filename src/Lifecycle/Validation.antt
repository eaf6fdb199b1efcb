-- ===== src/Lifecycle/Validation.antt =====
-- The checks of a lifecycle rule in cmd/ilm/parse.go. Parameters: the library's tests, `to_lower` for
-- `strings.ToLower`, `parse_date` for `time.Parse` at the layout of a date (none for its error), and
-- `now_text`, the current time printed at that layout.
pub mod Accepted
use oss_mc.Base.{
  ℕ, ◌+◌, Bool, true, false, not, ◌&&◌, ◌||◌, Option, none, some, Bytes, Fallible, ok, err, ◌>>=◌,
  ltb, ◌==◌, if◌then◌else◌,
}
use oss_mc.Ages.{signed_ltb}
use oss_mc.Duration.{is_negative}
use oss_mc.Lifecycle.{LifecycleSdk, Rule}
use oss_mc.Strings.{codes, equal, is_empty}

pub data LifecycleError : Type 0 where
  transition_after_expiration missing_storage_class negative_transition_days standard_ia_too_early :
      LifecycleError
  no_action many_expirations noncurrent_not_positive noncurrent_incomplete : LifecycleError
  expiry_in_the_past transition_in_the_past date_unreadable days_unreadable zero_date zero_days :
      LifecycleError
  transition_time_missing noncurrent_time_missing : LifecycleError

abbrev pub Check : Type 0
Check = Fallible LifecycleError (Unit {0})

abbrev pub refuse_if : Bool → LifecycleError → Check
refuse_if true e = err e
refuse_if false e = ok tt

-- 1 if the test holds, as `i++` under it counts
abbrev pub one_if : Bool → ℕ
one_if true = 1
one_if false = 0

unfoldable pub validate_noncurrent_expiration : Rule → Check
validate_noncurrent_expiration r =
    refuse_if (is_negative r.noncurrent_expiration.noncurrent_days) noncurrent_not_positive

unfoldable pub validate_noncurrent_transition : Rule → Check
validate_noncurrent_transition r =
    let t = r.noncurrent_transition in
    if is_negative t.noncurrent_days
    then err noncurrent_not_positive
    else refuse_if (signed_ltb 0 t.noncurrent_days && is_empty t.storage_class)
        noncurrent_incomplete

module _ (sdk : LifecycleSdk) where
  unfoldable pub validate_rule_action : Rule → Check
  validate_rule_action r =
      refuse_if
        (sdk.expiration_is_null r.expiration
          && sdk.transition_is_null r.transition
          && sdk.noncurrent_is_days_null r.noncurrent_expiration
          && is_empty r.noncurrent_transition.storage_class
          && not (signed_ltb 0 r.noncurrent_expiration.newer_versions)
          && not (signed_ltb 0 r.noncurrent_transition.newer_versions))
        no_action

  unfoldable pub validate_expiration : Rule → Check
  validate_expiration r =
      refuse_if
        (ltb 1 (
          one_if (not (sdk.expiration_is_days_null r.expiration))
          + one_if (not (sdk.expiration_is_date_null r.expiration))
          + one_if (sdk.is_delete_marker_expiration_enabled r.expiration)))
        many_expirations

  abbrev pub expiry_date_set : Rule → Bool
  expiry_date_set r = not (sdk.expiration_is_date_null r.expiration)

  abbrev pub transition_date_set : Rule → Bool
  transition_date_set r =
      not (sdk.transition_is_null r.transition) && not (sdk.transition_is_date_null r.transition)

  unfoldable pub validate_tran_exp_date : Rule → Check
  validate_tran_exp_date r =
      if transition_date_set r && expiry_date_set r && ltb r.expiration.date r.transition.date
      then err transition_after_expiration
      else refuse_if (transition_date_set r && is_empty r.transition.storage_class)
          missing_storage_class

  module _ (parse_date : Bytes → Option ℕ) (now_text : Bytes) where
    unfoldable pub validate_tran_exp_curdate : Rule → Check
    validate_tran_exp_curdate r = elim (parse_date now_text) [
      | none ↦ err date_unreadable
      | some today ↦
          if not (sdk.expiration_is_null r.expiration)
            && expiry_date_set r
            && ltb r.expiration.date today
          then err expiry_in_the_past
          else refuse_if (transition_date_set r && ltb r.transition.date today)
              transition_in_the_past
    ]

module _ (to_lower : Bytes → Bytes) where
  unfoldable pub validate_tran_days : Rule → Check
  validate_tran_days r =
      if is_negative r.transition.days
      then err negative_transition_days
      else refuse_if
          (signed_ltb r.transition.days 30
            && equal (to_lower r.transition.storage_class) (codes "standard_ia"))
          standard_ia_too_early

  module _ (sdk : LifecycleSdk) (parse_date : Bytes → Option ℕ) (now_text : Bytes) where
    unfoldable pub validate_ilm_rule : Rule → Check
    validate_ilm_rule r = do
      _ ← validate_rule_action sdk r
      _ ← validate_expiration sdk r
      _ ← validate_tran_exp_curdate sdk parse_date now_text r
      _ ← validate_tran_exp_date sdk r
      _ ← validate_tran_days r
      _ ← validate_noncurrent_expiration r
      validate_noncurrent_transition r
