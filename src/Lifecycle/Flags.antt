-- ===== src/Lifecycle/Flags.antt =====
-- `GetLifecycleOptions` of cmd/ilm/options.go: the options of a lifecycle rule, read from the command
-- line, which is the record `Flags` of what the library says of it; `new_id` is a fresh identifier
-- and `to_upper` is `strings.ToUpper`.
pub mod Reading
use oss_mc.Base.{
  ℕ, Bool, true, false, not, ◌&&◌, ◌||◌, List, [], ◌∷◌, Option, none, some, Bytes, Fallible, ok,
  err, ◌>>=◌, ◌==◌, if◌then◌else◌,
}
use oss_mc.Lifecycle.{
  Tag, Filter, Expiration, Transition, NoncurrentExpiration, NoncurrentTransition, Rule,
  LifecycleSdk,
}
use oss_mc.Lifecycle.Tags.{extract_ilm_tags}
use oss_mc.Lifecycle.Validation.{
  LifecycleError, date_unreadable, days_unreadable, zero_date, zero_days, transition_time_missing,
  noncurrent_time_missing, validate_ilm_rule, refuse_if,
}
use oss_mc.Strings.{codes, is_empty, split_once}
use oss_mc.Strings.Numbers.{atoi}
use oss_mc.Lifecycle.Options.{LifecycleOptions}

-- What the library says of the command line.
pub record Flags : Type 0 where
  pub is_set : Bytes → Bool
  pub string : Bytes → Bytes
  pub bool : Bytes → Bool
  pub int : Bytes → ℕ
  pub first_arg : Bytes

module _ (to_upper : Bytes → Bytes) (new_id : Bytes) (c : Flags) where
  -- the value of a flag, if it is set, in place of what stood there
  abbrev override {ℓ} : {A : Type ℓ} → (Bytes → A) → Bytes → Option A → Option A
  override read flag old = if c.is_set flag then some (read flag) else old

  abbrev upper : Bytes → Bytes
  upper flag = to_upper (c.string flag)

  unfoldable pub status_flag : Option Bool
  status_flag =
      if c.is_set (codes "disable")
      then some (not (c.bool (codes "disable")))
      else override c.bool (codes "enable") none

  -- the part behind the bucket's name in the first argument, if it is not empty
  abbrev path_prefix : Bytes × Option Bytes → Option Bytes
  path_prefix (bucket, none) = none
  path_prefix (bucket, some []) = none
  path_prefix (bucket, some (p ∷ prefix)) = some (p ∷ prefix)

  abbrev behind_alias : Bytes × Option Bytes → Option Bytes
  behind_alias (alias, none) = none
  behind_alias (alias, some rest) = path_prefix (split_once rest b'/')

  unfoldable pub prefix_flag : Option Bytes
  prefix_flag =
      if c.is_set (codes "prefix")
      then some (c.string (codes "prefix"))
      else behind_alias (split_once c.first_arg b'/')

  unfoldable pub tier_flag : Option Bytes
  tier_flag =
      override upper (codes "transition-tier")
        (override upper (codes "tier") (override upper (codes "storage-class") none))

  unfoldable pub noncurrent_tier_flag : Option Bytes
  noncurrent_tier_flag = override upper (codes "noncurrent-transition-tier") (
      override upper (codes "noncurrentversion-tier")
        (override upper (codes "noncurrentversion-transition-storage-class") none))

  abbrev is_there {ℓ} : {A : Type ℓ} → Option A → Bool
  is_there none = false
  is_there (some a) = true

  -- the days of `noncurrent-expire-days`, which is read as a text
  unfoldable pub noncurrent_expire_days : Fallible LifecycleError (Option ℕ)
  noncurrent_expire_days =
      if c.is_set (codes "noncurrent-expire-days")
      then elim (atoi (c.string (codes "noncurrent-expire-days"))) [
        | none ↦ err days_unreadable
        | some n ↦ ok (some n)
      ]
      else ok (override c.int (codes "noncurrentversion-expiration-days") none)

  unfoldable pub get_lifecycle_options : Fallible LifecycleError LifecycleOptions
  get_lifecycle_options = do
    _ ←
        refuse_if
          (is_there tier_flag
            && not (c.is_set (codes "transition-days"))
            && not (c.is_set (codes "transition-date")))
          transition_time_missing
    _ ←
        refuse_if
          (is_there noncurrent_tier_flag
            && not (c.is_set (codes "noncurrentversion-transition-days"))
            && not (c.is_set (codes "noncurrent-transition-days")))
          noncurrent_time_missing
    days ← noncurrent_expire_days
    ok (record {
      id = if is_empty (c.string (codes "id")) then new_id else c.string (codes "id");
      status = status_flag;
      prefix = prefix_flag;
      tags = override c.string (codes "tags") none;
      expiry_date = override c.string (codes "expiry-date") none;
      expiry_days =
          override c.string (codes "expire-days") (override c.string (codes "expiry-days") none);
      transition_date = override c.string (codes "transition-date") none;
      transition_days = override c.string (codes "transition-days") none;
      storage_class = tier_flag;
      expired_object_delete_marker =
          override c.bool (codes "expire-delete-marker")
            (override c.bool (codes "expired-object-delete-marker") none);
      noncurrent_expiration_days = days;
      newer_noncurrent_expiration_versions =
          override c.int (codes "noncurrent-expire-newer")
            (override c.int (codes "newer-noncurrentversions-expiration") none);
      noncurrent_transition_days =
          override c.int (codes "noncurrent-transition-days")
            (override c.int (codes "noncurrentversion-transition-days") none);
      newer_noncurrent_transition_versions =
          override c.int (codes "noncurrent-transition-newer")
            (override c.int (codes "newer-noncurrentversions-transition") none);
      noncurrent_transition_storage_class = noncurrent_tier_flag;
    })
