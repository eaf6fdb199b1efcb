-- ===== src/Tests/Objects.antt =====
-- Listings with several versions of an object: cmd/ls.go and cmd/undo-main.go, with an insertion sort.
use Prim.Native.String.{String}
use oss_mc.Base.{ℕ, ◌||◌, Bool, true, false, List, [], ◌∷◌, ◌≡◌, refl, flat, some_of, if◌then◌else◌}
use oss_mc.ClientUrl.{ClientUrl, object_storage}
use oss_mc.Content.{ClientContent, content_of_url}
use oss_mc.Strings.{codes, equal}
use oss_mc.Undo.{UndoOptions, undo_url}
use oss_mc.Undo.Batches.{removed, undo_url_sends}
use oss_mc.Undo.Loop.{is_nil, sent_of, last_of, reached, undo}
use oss_mc.Undo.Status.{undo_url_status}
use oss_mc.Versions.{do_list, map_groups}
use oss_mc.Versions.Groups.{groups}
use oss_mc.Versions.Listed.{PrintsAll, do_list-PrintsAll}

abbrev insert :
    (ClientContent → ClientContent → Bool) → ClientContent → List ClientContent → List ClientContent
insert before c [] = c ∷ []
insert before c (d ∷ cs) = if before c d then c ∷ d ∷ cs else d ∷ insert before c cs

abbrev insertion_sort :
    (ClientContent → ClientContent → Bool) → List ClientContent → List ClientContent
insertion_sort before [] = []
insertion_sort before (c ∷ cs) = insert before c (insertion_sort before cs)

abbrev bucket : ClientUrl
bucket = record {
  type = object_storage;
  scheme = codes "https";
  host = codes "play.min.io";
  path = codes "/photos/";
  scheme_separator = codes "://";
  separator = b'/';
}

abbrev version : String → ℕ → ClientContent
version name time = record (content_of_url (record bucket { path = codes name })) {
  time = time;
  size = 10;
}

abbrev three_versions : List ClientContent
three_versions = version "/photos/a" 1 ∷ version "/photos/a" 2 ∷ version "/photos/b" 3 ∷ []

-- the removal of versions of `a` fails
abbrev fails_on_a : List ClientContent → Bool
fails_on_a = some_of (λ c. equal c.url.path (codes "/photos/a"))

abbrev undo_one : UndoOptions
undo_one = record { target = codes "play/photos/"; last = 1; recursive = true; dry_run = false }

do_list-PrintsAll_example :
    PrintsAll insertion_sort bucket true [] three_versions
      (do_list insertion_sort bucket true [] three_versions)
do_list-PrintsAll_example = do_list-PrintsAll insertion_sort bucket true [] three_versions refl

undo_url_sends_example :
    sent_of (undo_url insertion_sort fails_on_a bucket (codes "play") undo_one three_versions).calls
    ≡ flat (
        map_groups (removed insertion_sort fails_on_a bucket (codes "play") undo_one) (
          groups (reached insertion_sort fails_on_a bucket (codes "play") undo_one three_versions)))
undo_url_sends_example =
    undo_url_sends insertion_sort fails_on_a bucket (codes "play") undo_one three_versions
      (refl, (refl, (refl, tt))) refl

undo_url_status_example :
    (undo_url insertion_sort fails_on_a bucket (codes "play") undo_one three_versions).failed ≡ (
      is_nil (reached insertion_sort fails_on_a bucket (codes "play") undo_one three_versions)
      || (undo insertion_sort fails_on_a bucket (codes "play") undo_one (
          last_of (
            groups (
              reached insertion_sort fails_on_a bucket
                (codes "play")
                undo_one
                three_versions)))).failed)
undo_url_status_example =
    undo_url_status insertion_sort fails_on_a bucket (codes "play") undo_one three_versions
      (refl, (refl, (refl, tt)))

-- The failure of `a` is forgotten.
undo_one_succeeds :
    (undo_url insertion_sort fails_on_a bucket (codes "play") undo_one three_versions).failed
    ≡ false
unfolding undo_url oss_mc.Undo.finish oss_mc.Undo.undo_entries equal oss_mc.Undo.is_other
    oss_mc.Undo.undo_rest oss_mc.Undo.undo_entry oss_mc.Versions.add_version
    oss_mc.Undo.undo_last_n_operations oss_mc.Undo.first_versions
    oss_mc.Versions.sort_object_versions
undo_one_succeeds = refl
