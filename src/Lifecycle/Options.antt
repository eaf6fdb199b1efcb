-- ===== src/Lifecycle/Options.antt =====
-- cmd/ilm/options.go: the options of a lifecycle rule, made into a rule by `ToILMRule`. A nil pointer
-- is `none`.
pub mod Reading
pub mod Rules
use oss_mc.Base.{
  ℕ, Bool, true, false, not, ◌&&◌, ◌||◌, List, [], ◌∷◌, Option, none, some, Bytes, Fallible, ok,
  err, ◌>>=◌, ◌==◌, if◌then◌else◌,
}
use oss_mc.Lifecycle.{
  Tag, Filter, Expiration, Transition, NoncurrentExpiration, NoncurrentTransition, Rule,
  LifecycleSdk,
}
use oss_mc.Lifecycle.Tags.{extract_ilm_tags}
use oss_mc.Lifecycle.Validation.{
  LifecycleError, date_unreadable, days_unreadable, zero_date, zero_days, transition_time_missing,
  noncurrent_time_missing, validate_ilm_rule, refuse_if,
}
use oss_mc.Strings.{codes, is_empty, split_once}
use oss_mc.Strings.Numbers.{atoi}

pub record LifecycleOptions : Type 0 where
  pub id : Bytes
  pub status : Option Bool
  pub prefix : Option Bytes
  pub tags : Option Bytes
  pub expiry_date : Option Bytes
  pub expiry_days : Option Bytes
  pub transition_date : Option Bytes
  pub transition_days : Option Bytes
  pub storage_class : Option Bytes
  pub expired_object_delete_marker : Option Bool
  pub noncurrent_expiration_days : Option ℕ
  pub newer_noncurrent_expiration_versions : Option ℕ
  pub noncurrent_transition_days : Option ℕ
  pub newer_noncurrent_transition_versions : Option ℕ
  pub noncurrent_transition_storage_class : Option Bytes

abbrev pub or_else {ℓ} : {A : Type ℓ} → A → Option A → A
or_else a none = a
or_else a (some b) = b

unfoldable pub parse_transition_days : Bytes → Fallible LifecycleError ℕ
parse_transition_days text = elim (atoi text) [ none ↦ err days_unreadable | some days ↦ ok days ]

unfoldable pub parse_expiry_days : Bytes → Fallible LifecycleError ℕ
parse_expiry_days text = elim (atoi text) [
  | none ↦ err days_unreadable
  | some days ↦ if days == 0 then err zero_days else ok days
]

-- a text that is read only if it is there, and what stands in its place otherwise
abbrev pub read_if_set :
    (Bytes → Fallible LifecycleError ℕ) → Option Bytes → Fallible LifecycleError ℕ
read_if_set read none = ok 0
read_if_set read (some text) = read text

module _ (parse_date : Bytes → Option ℕ) where
  unfoldable pub parse_transition_date : Bytes → Fallible LifecycleError ℕ
  parse_transition_date text = elim (parse_date text) [ none ↦ err date_unreadable | some d ↦ ok d ]

  unfoldable pub parse_expiry_date : Bytes → Fallible LifecycleError ℕ
  parse_expiry_date text = elim (parse_date text) [
    | none ↦ err date_unreadable
    | some d ↦ if d == 0 then err zero_date else ok d
  ]

  -- a date is read before days are, and days only where there is no date
  unfoldable pub parse_transition :
      Option Bytes → Option Bytes → Option Bytes → Fallible LifecycleError Transition
  parse_transition class (some date) days = do
    d ← parse_transition_date date
    ok (record { date = d; days = 0; storage_class = or_else [] class })
  parse_transition class none days = do
    n ← read_if_set parse_transition_days days
    ok (record { date = 0; days = n; storage_class = or_else [] class })

  unfoldable pub parse_expiry :
      Option Bytes → Option Bytes → Option Bool → Fallible LifecycleError Expiration
  parse_expiry date days marker = do
    d ← read_if_set parse_expiry_date date
    n ← read_if_set parse_expiry_days days
    ok (record { date = d; days = n; delete_marker = or_else false marker })

-- A rule without explicit status is enabled.
abbrev pub status_text : Option Bool → Bytes
status_text none = codes "Enabled"
status_text (some true) = codes "Enabled"
status_text (some false) = codes "Disabled"

abbrev pub no_tag : Tag
no_tag = record { key = []; value = [] }

-- The prefix stands beside the tags if there are any, and alone otherwise.
unfoldable pub filter_of : Bytes → List Tag → Filter
filter_of prefix [] = record {
  prefix = prefix;
  tag = no_tag;
  and = record { prefix = []; tags = [] };
}
filter_of prefix (t ∷ ts) = record {
  prefix = [];
  tag = no_tag;
  and = record { prefix = prefix; tags = t ∷ ts };
}

abbrev pub tags_set : Option Bytes → List Tag
tags_set none = []
tags_set (some text) = extract_ilm_tags text

-- the rule that `ToILMRule` makes, before it is validated
unfoldable pub rule_of : LifecycleOptions → Expiration → Transition → Rule
rule_of o expiry transition = record {
  id = o.id;
  prefix = [];
  filter = filter_of (or_else [] o.prefix) (tags_set o.tags);
  status = status_text o.status;
  expiration = expiry;
  transition = transition;
  noncurrent_expiration = record {
    noncurrent_days = or_else 0 o.noncurrent_expiration_days;
    newer_versions = or_else 0 o.newer_noncurrent_expiration_versions;
  };
  noncurrent_transition = record {
    noncurrent_days = or_else 0 o.noncurrent_transition_days;
    newer_versions = or_else 0 o.newer_noncurrent_transition_versions;
    storage_class = or_else [] o.noncurrent_transition_storage_class;
  };
}

module _ (to_lower : Bytes → Bytes) (sdk : LifecycleSdk) (parse_date : Bytes → Option ℕ)
    (now_text : Bytes) where
  unfoldable pub to_ilm_rule : LifecycleOptions → Fallible LifecycleError Rule
  to_ilm_rule o = do
    expiry ← parse_expiry parse_date o.expiry_date o.expiry_days o.expired_object_delete_marker
    transition ← parse_transition parse_date o.storage_class o.transition_date o.transition_days
    _ ← validate_ilm_rule to_lower sdk parse_date now_text (rule_of o expiry transition)
    ok (rule_of o expiry transition)
