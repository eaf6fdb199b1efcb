-- ===== src/Tests/Finding.antt =====
-- Finding objects: cmd/find.go on one object.
use oss_mc.Base.{true, [], none, ◌≡◌, ◌↔◌, ok, ℕ}
use oss_mc.ClientUrl.{file_url}
use oss_mc.Find.{FindContext, ContentMessage, match_find}
use oss_mc.Find.Match.{Taken, match_find-Taken}
use oss_mc.Strings.{codes, equal}

abbrev find_large : FindContext
find_large = record {
  url = file_url (codes "photos/");
  target_alias = [];
  target_url = codes "photos/";
  target_full_url = codes "photos/";
  ignore_pattern = [];
  name_pattern = codes "a.jpg";
  path_pattern = [];
  regex_pattern = none;
  older_than = [];
  newer_than = [];
  larger_size = 10;
  smaller_size = 0;
  max_depth = 0;
  match_meta = [];
  match_tags = [];
}

abbrev large_photo : ContentMessage
large_photo = record { key = codes "photos/a.jpg"; time = 5; size = 20; metadata = []; tags = [] }

abbrev no_part : ℕ → ℕ → ℕ → ℕ
no_part f unit n = 0

abbrev same_time : ℕ → ℕ
same_time t = t

match_find-Taken_example :
    (match_find equal equal no_part same_time find_large large_photo ≡ ok true)
    ↔ Taken equal equal no_part same_time find_large large_photo
match_find-Taken_example = match_find-Taken equal equal no_part same_time find_large large_photo
