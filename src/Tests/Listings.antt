-- ===== src/Tests/Listings.antt =====
-- Comparing two listings and planning a mirror: cmd/difference.go and cmd/mirror-url.go on small
-- local listings.
use oss_mc.Base.{
  ℕ, true, false, List, [], ◌∷◌, Option, none, some, ◌≡◌, ◌↔◌, refl, Bytes, arith, All,
}
use oss_mc.ClientUrl.{file_url, new_client_url, url_join_path, to_string}
use oss_mc.Content.{ClientContent, dir, content_of_url, StringMap, get, lookup}
use oss_mc.Difference.{
  difference_internal, DiffMessage, source_key, target_key, metadata_equal, only_first,
  is_mod_time_key,
}
use oss_mc.Difference.Metadata.{metadata_equal_iff}
use oss_mc.Difference.Result.{IsComparable, Reports, difference_internal-Reports}
use oss_mc.Difference.Stuck.{TypesClash, difference_internal_stuck}
use oss_mc.Mirror.{MirrorOptions, delta_messages}
use oss_mc.Mirror.Plan.{JustifiedBy, delta_messages-JustifiedBy}
use oss_mc.Strings.{codes, equal, less, has_suffix}
use oss_mc.Strings.Utf8.{valid_string}

-- a text that is already normalized
abbrev as_is : Bytes → Bytes
as_is s = s

-- times are single digits
abbrev digit_time : Bytes → Option ℕ
digit_time [] = none
digit_time (c ∷ s) = some c

abbrev file_at : Bytes → ClientContent
file_at path = content_of_url (file_url path)

abbrev folder_at : Bytes → ClientContent
folder_at path = record (file_at path) { type = dir }

abbrev left : List ClientContent
left = file_at (codes "l/a") ∷ file_at (codes "l/b") ∷ []

abbrev right : List ClientContent
right = file_at (codes "r/b") ∷ file_at (codes "r/c") ∷ []

comparable : IsComparable as_is digit_time (codes "l/") (codes "r/") true false left right
unfolding source_key target_key url_join_path new_client_url to_string has_suffix valid_string less
    equal
comparable = record {
  clean_source = ((refl, refl), ((refl, refl), tt));
  clean_target = ((refl, refl), ((refl, refl), tt));
  ascending_source = ((refl, tt), (tt, tt));
  ascending_target = ((refl, tt), (tt, tt));
  one_type = ((λ _. refl, (λ _. refl, tt)), ((λ _. refl, (λ _. refl, tt)), tt));
}

difference_internal-Reports_example :
    (ms : List DiffMessage) × (difference_internal as_is digit_time
        (codes "l/")
        (codes "r/")
        true
        false
        5
        left
        right
      ≡ some (ms, none))
    × Reports as_is digit_time (codes "l/") (codes "r/") true false left right ms
difference_internal-Reports_example =
    difference_internal-Reports as_is digit_time (codes "l/") (codes "r/") true false 5 left right
      (omega arith) comparable

clash_at_a :
    TypesClash as_is digit_time
      (codes "l/")
      (codes "r/")
      true
      false
      (file_at (codes "l/a"))
      (folder_at (codes "r/a"))
      []
      []
unfolding source_key target_key url_join_path new_client_url to_string has_suffix valid_string
clash_at_a = record {
  source_ok = refl;
  target_ok = refl;
  source_valid = refl;
  target_valid = refl;
  one_name = refl;
  clash = refl;
}

difference_internal_stuck_example :
    difference_internal as_is digit_time
      (codes "l/")
      (codes "r/")
      true
      false
      100
      (file_at (codes "l/a") ∷ [])
      (folder_at (codes "r/a") ∷ [])
    ≡ none
difference_internal_stuck_example =
    difference_internal_stuck as_is digit_time (codes "l/") (codes "r/") true false
      (file_at (codes "l/a")) (folder_at (codes "r/a")) [] [] clash_at_a 100

abbrev colour : StringMap
colour = (codes "colour", codes "red") ∷ []

metadata_equal_iff_example :
    (metadata_equal colour colour ≡ true)
    ↔ ((k : Bytes) → is_mod_time_key k ≡ false → get colour k ≡ get colour k)
unfolding lookup
metadata_equal_iff_example = metadata_equal_iff colour colour (refl, tt) (refl, tt)

abbrev modified : ℕ → Bytes → ClientContent
modified time origin = record (file_at (codes "l/a")) {
  time = time;
  user_metadata = (codes "mm-source-mtime", origin) ∷ [];
}

abbrev mirror_all : MirrorOptions
mirror_all = record {
  is_fake = false;
  is_overwrite = true;
  active_active = false;
  is_remove = true;
  is_metadata = false;
  exclude_options = codes "l/x" ∷ [];
}

abbrev to_copy : List DiffMessage
to_copy = only_first (file_at (codes "l/a")) ∷ []

delta_messages-JustifiedBy_example :
    All
      (JustifiedBy equal mirror_all [] (codes "l/") [] (codes "r/") to_copy)
      (delta_messages equal mirror_all [] (codes "l/") [] (codes "r/") to_copy)
delta_messages-JustifiedBy_example =
    delta_messages-JustifiedBy equal mirror_all [] (codes "l/") [] (codes "r/") to_copy
