-- ===== src/Lifecycle/Flags/Reading.antt =====
-- What the options that `GetLifecycleOptions` of cmd/ilm/options.go reads have together.
use oss_mc.Base.{none, ◌≡◌, ◌≢◌, ◌⊎◌, arith, Bytes, ok}
use oss_mc.Lifecycle.Flags.{Flags, get_lifecycle_options}
use oss_mc.Lifecycle.Options.{LifecycleOptions}

-- A tier comes with a time.
pub record IsTimed (o : LifecycleOptions) : Type 0 where
  pub moves : (o.storage_class ≡ none) ⊎ ((o.transition_days ≢ none) ⊎ (o.transition_date ≢ none))
  pub noncurrent_moves :
      (o.noncurrent_transition_storage_class ≡ none) ⊎ (o.noncurrent_transition_days ≢ none)

-- Options that are read name a tier to move objects to only together with the days or the date of
-- the move, and one to move old versions to only together with its days.
get_lifecycle_options-IsTimed :
    (to_upper : Bytes → Bytes) (new_id : Bytes) (c : Flags) (o : LifecycleOptions)
    → get_lifecycle_options to_upper new_id c ≡ ok o
    → IsTimed o
unfolding get_lifecycle_options
get_lifecycle_options-IsTimed to_upper new_id c o h = record {
  moves = ground (arith, h);
  noncurrent_moves = ground (arith, h);
}
