-- ===== src/Lifecycle.antt =====
-- cmd/ilm: lifecycle rules. The types of a rule belong to a library, `lifecycle`: they are given
-- here by the fields that the code reads or writes, and the library's tests of them are the
-- operations of `LifecycleSdk`. An `int` is the number that its 64 bits spell, a date is its
-- nanoseconds since Go's zero time, and a nil slice of tags is the empty list. A rule's fields for
-- aborted uploads are never touched and are left out.
pub mod Removal
pub mod Tags
pub mod Validation
pub mod Options
pub mod Flags
pub mod Update
use oss_mc.Base.{ℕ, Bool, List, Bytes, ◌≡◌, ◌==◌, ◌&&◌, not, ◌||◌}
use oss_mc.Strings.{is_empty}

pub record Tag : Type 0 where
  pub key : Bytes
  pub value : Bytes

pub record And : Type 0 where
  pub prefix : Bytes
  pub tags : List Tag

pub record Filter : Type 0 where
  pub prefix : Bytes
  pub tag : Tag
  pub and : And

pub record Expiration : Type 0 where
  pub date : ℕ
  pub days : ℕ
  pub delete_marker : Bool

pub record Transition : Type 0 where
  pub date : ℕ
  pub days : ℕ
  pub storage_class : Bytes

pub record NoncurrentExpiration : Type 0 where
  pub noncurrent_days : ℕ
  pub newer_versions : ℕ

pub record NoncurrentTransition : Type 0 where
  pub noncurrent_days : ℕ
  pub newer_versions : ℕ
  pub storage_class : Bytes

pub record Rule : Type 0 where
  pub id : Bytes
  pub prefix : Bytes
  pub filter : Filter
  pub status : Bytes
  pub expiration : Expiration
  pub transition : Transition
  pub noncurrent_expiration : NoncurrentExpiration
  pub noncurrent_transition : NoncurrentTransition

-- The tests of the library.
pub record LifecycleSdk : Type 0 where
  pub expiration_is_null : Expiration → Bool
  pub expiration_is_days_null : Expiration → Bool
  pub expiration_is_date_null : Expiration → Bool
  pub is_delete_marker_expiration_enabled : Expiration → Bool
  pub transition_is_null : Transition → Bool
  pub transition_is_date_null : Transition → Bool
  pub noncurrent_is_days_null : NoncurrentExpiration → Bool
  pub is_storage_class_empty : NoncurrentTransition → Bool
  pub tag_is_empty : Tag → Bool

-- What the code relies on: days are null at 0 and a date at the zero time, the delete marker's
-- test reads its flag, and an expiration or a transition is null when it says none of these.
pub record IsLifecycleSdk (sdk : LifecycleSdk) : Type 0 where
  pub days_null : (e : Expiration) → sdk.expiration_is_days_null e ≡ (e.days == 0)
  pub date_null : (e : Expiration) → sdk.expiration_is_date_null e ≡ (e.date == 0)
  pub marker : (e : Expiration) → sdk.is_delete_marker_expiration_enabled e ≡ e.delete_marker
  pub expiration_null :
      (e : Expiration)
      → sdk.expiration_is_null e ≡ (e.date == 0 && e.days == 0 && not e.delete_marker)
  pub transition_date_null : (t : Transition) → sdk.transition_is_date_null t ≡ (t.date == 0)
  pub noncurrent_days_null :
      (e : NoncurrentExpiration) → sdk.noncurrent_is_days_null e ≡ (e.noncurrent_days == 0)
