-- ===== src/Tests/Locks.antt =====
-- Retention and legal hold on a listing: cmd/retention-common.go and cmd/legalhold-set.go.
use oss_mc.Base.{ℕ, ◌||◌, not, Bool, true, false, List, [], ◌∷◌, Option, some, ◌≡◌, refl, some_of}
use oss_mc.ClientUrl.{ClientUrl, object_storage}
use oss_mc.Content.{ClientContent, content_of_url}
use oss_mc.ObjectLock.{
  LockCall, LockOptions, ValidityUnit, days, apply_retention, set_legal_hold,
  parse_retention_validity,
}
use oss_mc.ObjectLock.LegalHold.{seen, holdable, succeeding, set_legal_hold_lem}
use oss_mc.ObjectLock.Retention.{lockable, some_put, apply_retention_lem}
use oss_mc.ObjectLock.Retention
use oss_mc.ObjectLock.Seen.{has_error, calls_of}
use oss_mc.Strings.{codes, equal}

abbrev object : ClientUrl
object = record {
  type = object_storage;
  scheme = codes "https";
  host = codes "play.min.io";
  path = codes "/photos/a";
  scheme_separator = codes "://";
  separator = b'/';
}

-- a version and its delete marker
abbrev marked : List ClientContent
marked =
    record (content_of_url object) { version_id = codes "v1" }
    ∷ record (content_of_url object) { version_id = codes "v2"; is_delete_marker = true }
    ∷ []

abbrev locked_versions : LockOptions
locked_versions = record {
  target = codes "play/photos/";
  alias = codes "play";
  url = codes "https://play.min.io/photos/";
  version_id = [];
  with_older_versions = true;
  recursive = true;
  json = false;
}

abbrev always_fails : LockCall → Bool
always_fails call = true

abbrev a_month : ℕ → ValidityUnit → Option ℕ
a_month n unit = some 700

apply_retention_lem_example :
    apply_retention always_fails locked_versions a_month (codes "GOVERNANCE") 30 days marked
    ≡ record {
      calls = calls_of (lockable always_fails locked_versions marked);
      failed =
          some_of has_error (Retention.seen always_fails locked_versions marked)
          || not (
              some_put always_fails locked_versions (lockable always_fails locked_versions marked));
      exits = false;
    }
unfolding oss_mc.ObjectLock.retain_until oss_mc.Strings.is_empty
apply_retention_lem_example =
    apply_retention_lem always_fails locked_versions a_month (codes "GOVERNANCE") 30 days (some 700)
      marked refl refl refl

set_legal_hold_lem_example : set_legal_hold always_fails locked_versions marked ≡ record {
  calls = calls_of (holdable always_fails locked_versions marked);
  printed = succeeding always_fails locked_versions (holdable always_fails locked_versions marked);
  failed = some_of has_error (seen always_fails locked_versions marked);
}
set_legal_hold_lem_example = set_legal_hold_lem always_fails locked_versions marked refl
