-- ===== src/Tests/Rules.antt =====
-- Lifecycle rules: cmd/ilm on a small configuration. The library's tests are those of its current
-- version, the layout of a date reads one text only, and no letter is made small.
use oss_mc.Base.{
  ℕ, true, false, not, ◌&&◌, ◌||◌, List, [], ◌∷◌, Option, none, some, ◌≡◌, ◌⊎◌, inl, refl, arith,
  Bytes, ok, err, ◌==◌, if◌then◌else◌,
}
use oss_mc.Lifecycle.{
  LifecycleSdk, IsLifecycleSdk, Rule, Tag, Filter, Expiration, Transition, NoncurrentExpiration,
  NoncurrentTransition,
}
use oss_mc.Lifecycle.Flags.{Flags}
use oss_mc.Lifecycle.Options.{LifecycleOptions, no_tag, to_ilm_rule}
use oss_mc.Lifecycle.Options.Rules.{Makes, to_ilm_rule-Makes}
use oss_mc.Lifecycle.Removal.{
  has_rule, others, remove_ilm_rule, rule_not_found, remove_ilm_rule_lem,
}
use oss_mc.Lifecycle.Tags.{extract_ilm_tags, get_tags, extract_ilm_tags-get_tags}
use oss_mc.Lifecycle.Update.{apply_rule_fields}
use oss_mc.Lifecycle.Update.Exclusive.{
  IsExclusive, apply_rule_fields-IsExclusive, apply_rule_fields_keeps_marker,
}
use oss_mc.Lifecycle.Validation.{validate_expiration, validate_ilm_rule, many_expirations}
use oss_mc.Strings.{codes, equal, is_empty}

abbrev sdk : LifecycleSdk
sdk = record {
  expiration_is_null = λ e. e.date == 0 && e.days == 0 && not e.delete_marker;
  expiration_is_days_null = λ e. e.days == 0;
  expiration_is_date_null = λ e. e.date == 0;
  is_delete_marker_expiration_enabled = λ e. e.delete_marker;
  transition_is_null = λ t. is_empty t.storage_class;
  transition_is_date_null = λ t. t.date == 0;
  noncurrent_is_days_null = λ e. e.noncurrent_days == 0;
  is_storage_class_empty = λ t. is_empty t.storage_class;
  tag_is_empty = λ t. is_empty t.key;
}

sdk-IsLifecycleSdk : IsLifecycleSdk sdk
sdk-IsLifecycleSdk = record {
  days_null = λ e. refl;
  date_null = λ e. refl;
  marker = λ e. refl;
  expiration_null = λ e. refl;
  transition_date_null = λ t. refl;
  noncurrent_days_null = λ e. refl;
}

abbrev read_day : Bytes → Option ℕ
read_day text = if is_empty text then none else some 700

abbrev day_text : Bytes
day_text = codes "2024-01-01"

abbrev as_is : Bytes → Bytes
as_is text = text

abbrev two_tags : List Tag
two_tags =
    record { key = codes "class"; value = codes "logs" }
    ∷ record { key = codes "team"; value = codes "a" }
    ∷ []

-- expires marked versions of what has two tags
abbrev marked_rule : Rule
marked_rule = record {
  id = codes "r1";
  prefix = [];
  filter = record {
    prefix = [];
    tag = no_tag;
    and = record { prefix = codes "photos/"; tags = two_tags };
  };
  status = codes "Enabled";
  expiration = record { date = 0; days = 0; delete_marker = true };
  transition = record { date = 0; days = 0; storage_class = [] };
  noncurrent_expiration = record { noncurrent_days = 0; newer_versions = 0 };
  noncurrent_transition = record { noncurrent_days = 0; newer_versions = 0; storage_class = [] };
}

abbrev second_rule : Rule
second_rule = record marked_rule { id = codes "r2" }

-- thirty days of expiration
abbrev thirty_days : LifecycleOptions
thirty_days = record {
  id = codes "r3";
  status = some true;
  prefix = some (codes "photos/");
  tags = some (codes "class=logs");
  expiry_date = none;
  expiry_days = some (codes "30");
  transition_date = none;
  transition_days = none;
  storage_class = none;
  expired_object_delete_marker = none;
  noncurrent_expiration_days = none;
  newer_noncurrent_expiration_versions = none;
  noncurrent_transition_days = none;
  newer_noncurrent_transition_versions = none;
  noncurrent_transition_storage_class = none;
}

remove_ilm_rule_lem_example :
    ((has_rule (codes "r1") (marked_rule ∷ second_rule ∷ []) ≡ true)
      × (remove_ilm_rule (some (marked_rule ∷ second_rule ∷ [])) (codes "r1")
          ≡ ok (others (codes "r1") (marked_rule ∷ second_rule ∷ []))))
    ⊎ ((has_rule (codes "r1") (marked_rule ∷ second_rule ∷ []) ≡ false)
        × (remove_ilm_rule (some (marked_rule ∷ second_rule ∷ [])) (codes "r1")
            ≡ err (rule_not_found (codes "r1"))))
remove_ilm_rule_lem_example =
    remove_ilm_rule_lem (marked_rule ∷ second_rule ∷ []) (codes "r1") (λ e. cc)

extract_ilm_tags-get_tags_example : extract_ilm_tags (get_tags sdk marked_rule) ≡ two_tags
unfolding is_empty
extract_ilm_tags-get_tags_example =
    extract_ilm_tags-get_tags sdk marked_rule refl (λ e. cc) (ground arith)

abbrev made_rule : Rule
made_rule = record marked_rule {
  id = codes "r3";
  filter = record {
    prefix = [];
    tag = no_tag;
    and = record {
      prefix = codes "photos/";
      tags = record { key = codes "class"; value = codes "logs" } ∷ [];
    };
  };
  expiration = record { date = 0; days = 30; delete_marker = false };
}

to_ilm_rule_run : to_ilm_rule as_is sdk read_day day_text thirty_days ≡ ok made_rule
unfolding is_empty to_ilm_rule oss_mc.Lifecycle.Options.parse_expiry
    oss_mc.Lifecycle.Options.parse_expiry_days oss_mc.Strings.Numbers.atoi
    oss_mc.Strings.Numbers.signed oss_mc.Strings.Numbers.parse_uint
    oss_mc.Lifecycle.Options.parse_transition validate_ilm_rule
    oss_mc.Lifecycle.Validation.validate_rule_action oss_mc.Lifecycle.Options.rule_of
    validate_expiration oss_mc.Lifecycle.Validation.validate_tran_exp_curdate
    oss_mc.Lifecycle.Validation.validate_tran_exp_date
    oss_mc.Lifecycle.Validation.validate_tran_days oss_mc.Strings.equal
    oss_mc.Lifecycle.Validation.validate_noncurrent_expiration
    oss_mc.Lifecycle.Validation.validate_noncurrent_transition oss_mc.Lifecycle.Options.filter_of
    extract_ilm_tags oss_mc.Lifecycle.Tags.tags_of oss_mc.Strings.cons_head
    oss_mc.Strings.has_prefix oss_mc.Strings.split oss_mc.Strings.split_once
    oss_mc.Strings.split_skip
to_ilm_rule_run = refl

to_ilm_rule-Makes_example :
    Makes as_is sdk read_day day_text 700 thirty_days
      (to_ilm_rule as_is sdk read_day day_text thirty_days)
unfolding is_empty
to_ilm_rule-Makes_example =
    to_ilm_rule-Makes as_is sdk read_day day_text 700 sdk-IsLifecycleSdk refl thirty_days

apply_rule_fields-IsExclusive_example :
    IsExclusive (apply_rule_fields read_day marked_rule thirty_days).0
apply_rule_fields-IsExclusive_example =
    apply_rule_fields-IsExclusive read_day marked_rule thirty_days (inl refl, inl refl)

apply_rule_fields_keeps_marker_example :
    validate_expiration sdk (apply_rule_fields read_day marked_rule thirty_days).0
    ≡ err many_expirations
unfolding oss_mc.Lifecycle.Options.parse_expiry_days oss_mc.Strings.Numbers.atoi
    oss_mc.Strings.Numbers.signed oss_mc.Strings.Numbers.parse_uint
apply_rule_fields_keeps_marker_example =
    apply_rule_fields_keeps_marker read_day sdk marked_rule thirty_days (codes "30") 30
      sdk-IsLifecycleSdk refl refl refl refl

-- moves objects to a tier after ninety days
abbrev tier_flags : Flags
tier_flags = record {
  is_set = λ f. equal f (codes "transition-tier") || equal f (codes "transition-days");
  string = λ f. if equal f (codes "transition-days") then codes "90" else codes "WARM";
  bool = λ f. false;
  int = λ f. 0;
  first_arg = codes "play/photos/2024/";
}

-- the options that are read
abbrev tier_options : LifecycleOptions
tier_options = record thirty_days {
  id = codes "WARM";
  status = none;
  prefix = some (codes "2024/");
  tags = none;
  expiry_days = none;
  transition_days = some (codes "90");
  storage_class = some (codes "WARM");
}
