-- ===== src/Tests/Removals.antt =====
-- Removing one object: `removeSingle` of cmd/rm-main.go.
use oss_mc.Base.{ℕ, false, true, List, [], ◌∷◌, none}
use oss_mc.ClientUrl.{object_storage}
use oss_mc.Content.{ClientContent, content_of_url}
use oss_mc.Errors.{Error}
use oss_mc.Rm.{RemoveResult, RmTarget, RemoveOpts, Removal, fails, content_to_remove, rm_message}
use oss_mc.Strings.{codes}

abbrev found : ClientContent
found =
    record (content_of_url (record {
      type = object_storage;
      scheme = codes "https";
      host = codes "play.min.io";
      path = codes "/photos/a";
      scheme_separator = codes "://";
      separator = b'/';
    })) { time = 5 }

abbrev plain_opts : RemoveOpts
plain_opts = record {
  with_versions = false;
  is_force = false;
  is_force_del = false;
  is_fake = false;
  older_than = [];
  newer_than = [];
}

abbrev target : RmTarget
target = record {
  alias = codes "play";
  url = codes "https://play.min.io/photos/a";
  version_id = [];
  opens = true;
}

abbrev no_fraction : ℕ → ℕ → ℕ → ℕ
no_fraction f scale unit = 0

abbrev age : ℕ → ℕ
age time = 100

abbrev no_code : Error → ℕ
no_code e = 0

abbrev done : ClientContent → List RemoveResult
done c =
    record {
      bucket_name = codes "photos";
      object_name = codes "a";
      object_version_id = [];
      delete_marker = false;
      delete_marker_version_id = [];
      err = none;
    }
    ∷ []

abbrev removed_one : Removal
removed_one = record {
  sent = content_to_remove target false ∷ [];
  printed =
      rm_message target.alias (record {
        bucket_name = codes "photos";
        object_name = codes "a";
        object_version_id = [];
        delete_marker = false;
        delete_marker_version_id = [];
        err = none;
      })
      ∷ [];
  failed = false;
}
