-- ===== src/Tests/Removed.antt =====
-- Removing the versions of a listing that are not the latest: `listAndRemove` of cmd/rm-main.go.
use oss_mc.Base.{ℕ, false, true, List, [], ◌∷◌, ◌≡◌, refl, All, length}
use oss_mc.ClientUrl.{object_storage}
use oss_mc.Content.{ClientContent, content_of_url}
use oss_mc.Rm.{RemoveResult, RemoveOpts}
use oss_mc.Rm.Listing.{list_and_remove}
use oss_mc.Rm.Listing.Steps.{IsRemovable}
use oss_mc.Rm.Listing.Removable.{others, list_and_remove-IsRemovable}
use oss_mc.Strings.{codes}

abbrev entry : ℕ → ClientContent
entry time =
    record (content_of_url (record {
      type = object_storage;
      scheme = codes "https";
      host = codes "play.min.io";
      path = codes "/photos/a";
      scheme_separator = codes "://";
      separator = b'/';
    })) { time = time }

abbrev two_versions : List ClientContent
two_versions = record (entry 9) { is_latest = true } ∷ entry 5 ∷ []

abbrev old_versions : RemoveOpts
old_versions = record {
  with_versions = true;
  is_force = true;
  is_force_del = false;
  is_fake = false;
  older_than = [];
  newer_than = [];
}

abbrev no_fraction : ℕ → ℕ → ℕ → ℕ
no_fraction f scale unit = 0

abbrev age : ℕ → ℕ
age time = 100

abbrev nothing_arrives : ℕ → List RemoveResult
nothing_arrives n = []

list_and_remove-IsRemovable_example :
    All
      (IsRemovable no_fraction age nothing_arrives (codes "play") old_versions (
        others no_fraction age nothing_arrives
          (codes "play")
          old_versions
          (codes "play/photos/")
          true
          true))
      (list_and_remove no_fraction age nothing_arrives
        (codes "play")
        old_versions
        (codes "play/photos/")
        true
        true
        []
        two_versions).sent
list_and_remove-IsRemovable_example =
    list_and_remove-IsRemovable no_fraction age nothing_arrives (codes "play") old_versions
      (codes "play/photos/") true true [] two_versions

-- Only the older version is sent.
one_sent :
    length
      (list_and_remove no_fraction age nothing_arrives
        (codes "play")
        old_versions
        (codes "play/photos/")
        true
        true
        []
        two_versions).sent
    ≡ 1
unfolding list_and_remove oss_mc.Rm.Listing.finish_removal oss_mc.Rm.Listing.remove_listed
    oss_mc.Rm.Listing.remove_entries oss_mc.Rm.Listing.is_bucket oss_mc.Rm.Listing.ends_listing
    oss_mc.Rm.Listing.remove_entry oss_mc.Rm.Listing.remove_versions oss_mc.Rm.Listing.keep_version
    oss_mc.Rm.Listing.remove_aged oss_mc.Rm.Listing.remove_one oss_mc.Rm.Listing.send
    oss_mc.Rm.Listing.read_arrivals oss_mc.Strings.last_index_byte oss_mc.Strings.equal
    oss_mc.Ages.is_older oss_mc.Strings.is_empty oss_mc.Ages.is_newer
one_sent = refl
