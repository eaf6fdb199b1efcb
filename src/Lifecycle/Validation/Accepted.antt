-- ===== src/Lifecycle/Validation/Accepted.antt =====
-- Which rules `validateILMRule` of cmd/ilm/parse.go accepts.
use oss_mc.Base.{
  ℕ, ◌<◌, ◌≤◌, true, false, Option, some, ◌≡◌, ◌≢◌, ◌⊎◌, ◌↔◌, refl, arith, Bytes, ok, err, ◌>>=◌,
}
use oss_mc.Ages.{signed_ltb}
use oss_mc.Duration.{two63}
use oss_mc.Lifecycle.{LifecycleSdk, IsLifecycleSdk, Rule}
use oss_mc.Lifecycle.Validation.{
  Check, validate_noncurrent_expiration, validate_noncurrent_transition, validate_rule_action,
  validate_expiration, validate_tran_exp_date, validate_tran_exp_curdate, validate_tran_days,
  validate_ilm_rule,
}
use oss_mc.Strings.{codes, equal, is_empty}

both : (m : Check) (k : Unit {0} → Check) → (m >>= k) ≡ ok tt → (m ≡ ok tt) × (k tt ≡ ok tt)
both (err e) k h = cc
both (ok tt) k h = (refl, h)

module _ (to_lower : Bytes → Bytes) (sdk : LifecycleSdk) (parse_date : Bytes → Option ℕ)
    (now_text : Bytes) (today : ℕ) (r : Rule) where
  -- What is asked of a rule: it says what to do, once at most about expiration; its dates are not
  -- past and the date of the transition is not behind that of the expiration; the days of a transition
  -- and of noncurrent versions are not negative, and those of a move to STANDARD_IA are 30 at least; a
  -- transition by date names its storage class, and so does a noncurrent transition with days. Nothing
  -- is asked of the days of expiration, and no class of a transition by days.
  pub record IsValidRule : Type 0 where
    pub acts :
        (sdk.expiration_is_null r.expiration ≡ false)
        ⊎ ((sdk.transition_is_null r.transition ≡ false)
            ⊎ ((r.noncurrent_expiration.noncurrent_days ≢ 0)
                ⊎ ((is_empty r.noncurrent_transition.storage_class ≡ false)
                    ⊎ ((signed_ltb 0 r.noncurrent_expiration.newer_versions ≡ true)
                        ⊎ (signed_ltb 0 r.noncurrent_transition.newer_versions ≡ true)))))
    pub days_or_date : (r.expiration.days ≡ 0) ⊎ (r.expiration.date ≡ 0)
    pub days_or_marker : (r.expiration.days ≡ 0) ⊎ (r.expiration.delete_marker ≡ false)
    pub date_or_marker : (r.expiration.date ≡ 0) ⊎ (r.expiration.delete_marker ≡ false)
    pub expires_later : (r.expiration.date ≡ 0) ⊎ (today ≤ r.expiration.date)
    pub moves_later :
        (sdk.transition_is_null r.transition ≡ true)
        ⊎ ((r.transition.date ≡ 0) ⊎ (today ≤ r.transition.date))
    pub in_order :
        (sdk.transition_is_null r.transition ≡ true)
        ⊎ ((r.expiration.date ≡ 0) ⊎ (r.transition.date ≤ r.expiration.date))
    pub has_class :
        (sdk.transition_is_null r.transition ≡ true)
        ⊎ ((r.transition.date ≡ 0) ⊎ (is_empty r.transition.storage_class ≡ false))
    pub days_not_negative : r.transition.days < two63
    pub late_enough :
        (30 ≤ r.transition.days)
        ⊎ (equal (to_lower r.transition.storage_class) (codes "standard_ia") ≡ false)
    pub expires_not_negative : r.noncurrent_expiration.noncurrent_days < two63
    pub moves_not_negative : r.noncurrent_transition.noncurrent_days < two63
    pub noncurrent_class :
        (r.noncurrent_transition.noncurrent_days ≡ 0)
        ⊎ (is_empty r.noncurrent_transition.storage_class ≡ false)

  -- The checks, one by one.
  record Checked : Type 0 where
    action : validate_rule_action sdk r ≡ ok tt
    expiration : validate_expiration sdk r ≡ ok tt
    current : validate_tran_exp_curdate sdk parse_date now_text r ≡ ok tt
    dates : validate_tran_exp_date sdk r ≡ ok tt
    days : validate_tran_days to_lower r ≡ ok tt
    noncurrent_expiration : validate_noncurrent_expiration r ≡ ok tt
    noncurrent_transition : validate_noncurrent_transition r ≡ ok tt

  validated : validate_ilm_rule to_lower sdk parse_date now_text r ≡ ok tt → Checked
  unfolding validate_ilm_rule
  validated h =
      let (a, h1) = both (validate_rule_action sdk r) _ h in
      let (b, h2) = both (validate_expiration sdk r) _ h1 in
      let (c, h3) = both (validate_tran_exp_curdate sdk parse_date now_text r) _ h2 in
      let (d, h4) = both (validate_tran_exp_date sdk r) _ h3 in
      let (e, h5) = both (validate_tran_days to_lower r) _ h4 in
      let (f, h6) = both (validate_noncurrent_expiration r) _ h5 in
      record {
        action = a;
        expiration = b;
        current = c;
        dates = d;
        days = e;
        noncurrent_expiration = f;
        noncurrent_transition = h6;
      }

  validates : Checked → validate_ilm_rule to_lower sdk parse_date now_text r ≡ ok tt
  unfolding validate_ilm_rule
  validates c =
      rw (c.action, c.expiration, c.current, c.dates, c.days, c.noncurrent_expiration)
        c.noncurrent_transition

  module _ (laws : IsLifecycleSdk sdk) (now : parse_date now_text ≡ some today) where
    Checked-IsValidRule : Checked → IsValidRule
    unfolding validate_rule_action validate_expiration validate_tran_exp_curdate
        validate_tran_exp_date validate_tran_days validate_noncurrent_expiration
        validate_noncurrent_transition
    Checked-IsValidRule c =
        let days = laws.days_null r.expiration in
        let date = laws.date_null r.expiration in
        let marker = laws.marker r.expiration in
        let null = laws.expiration_null r.expiration in
        let moves = laws.transition_date_null r.transition in
        let late = laws.noncurrent_days_null r.noncurrent_expiration in
        record {
          acts = ground (arith, c.action, late);
          days_or_date = ground (arith, c.expiration, days, date, marker);
          days_or_marker = ground (arith, c.expiration, days, date, marker);
          date_or_marker = ground (arith, c.expiration, days, date, marker);
          expires_later = ground (arith, c.current, now, date, null);
          moves_later = ground (arith, c.current, now, moves);
          in_order = ground (arith, c.dates, date, moves);
          has_class = ground (arith, c.dates, date, moves);
          days_not_negative = ground (arith, c.days);
          late_enough = ground (arith, c.days);
          expires_not_negative = ground (arith, c.noncurrent_expiration);
          moves_not_negative = ground (arith, c.noncurrent_transition);
          noncurrent_class = ground (arith, c.noncurrent_transition);
        }

    IsValidRule-Checked : IsValidRule → Checked
    unfolding validate_rule_action validate_expiration validate_tran_exp_curdate
        validate_tran_exp_date validate_tran_days validate_noncurrent_expiration
        validate_noncurrent_transition
    IsValidRule-Checked v =
        let days = laws.days_null r.expiration in
        let date = laws.date_null r.expiration in
        let marker = laws.marker r.expiration in
        let null = laws.expiration_null r.expiration in
        let moves = laws.transition_date_null r.transition in
        let late = laws.noncurrent_days_null r.noncurrent_expiration in
        record {
          action = ground (arith, v.acts, late);
          expiration =
              ground
                (arith, v.days_or_date, v.days_or_marker, v.date_or_marker, days, date, marker);
          current = ground (arith, v.expires_later, v.moves_later, now, date, null, moves);
          dates = ground (arith, v.in_order, v.has_class, date, moves);
          days = ground (arith, v.days_not_negative, v.late_enough);
          noncurrent_expiration = ground (arith, v.expires_not_negative);
          noncurrent_transition = ground (arith, v.moves_not_negative, v.noncurrent_class);
        }

    pub validate_ilm_rule_iff :
        (validate_ilm_rule to_lower sdk parse_date now_text r ≡ ok tt) ↔ IsValidRule
    validate_ilm_rule_iff =
        (λ h. Checked-IsValidRule (validated h), λ v. validates (IsValidRule-Checked v))
