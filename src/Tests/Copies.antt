-- ===== src/Tests/Copies.antt =====
-- Preparing copies: cmd/cp-url.go on a small remote.
use oss_mc.Base.{ℕ, false, List, [], ◌∷◌, some, refl, Bytes, All, ok}
use oss_mc.ClientUrl.{file_url}
use oss_mc.ClientUrl.Join.{IsRelative}
use oss_mc.Content.{ClientContent, content_of_url, dir}
use oss_mc.Copy.{PrepareCopyUrlsOpts, prepare_copy_urls}
use oss_mc.Copy.Regular.{CopiesFile, prepare_copy_urls-CopiesFile}
use oss_mc.Errors.{object_missing}
use oss_mc.Mirror.{Urls, copy_urls}
use oss_mc.Remote.{Remote, Client}
use oss_mc.Strings.{codes, contains, has_prefix}

abbrev no_fractions : ℕ → ℕ → ℕ → ℕ
no_fractions f unit n = 0

-- every object is as old as its time says
abbrev age_is_time : ℕ → ℕ
age_is_time t = t

abbrev local_file : Bytes → ℕ → ClientContent
local_file path time = record (content_of_url (file_url path)) { time = time }

abbrev unreadable : ClientContent
unreadable = record (local_file (codes "photos/x") 0) { err = some object_missing }

abbrev photos : List ClientContent
photos = unreadable ∷ local_file (codes "photos/a") 3_000_000_000 ∷ []

-- a folder that stats as one, whose recursive listing of one element shows its file
abbrev photo_client : Client
photo_client = record {
  get_url = file_url (codes "photos/");
  stat = λ o. ok (record (local_file (codes "photos/") 0) { type = dir });
  list = λ o. photos;
}

abbrev photo_remote : Remote
photo_remote = record { must_expand_alias = λ url. ([], url); new_client = λ url. ok photo_client }

abbrev cp_photos : PrepareCopyUrlsOpts
cp_photos = record {
  source_urls = codes "photos/" ∷ [];
  target_url = codes "backup/";
  is_recursive = false;
  older_than = codes "1s";
  newer_than = [];
  time_ref = 0;
  version_id = [];
  is_zip = false;
}

prepare_copy_urls-CopiesFile_example :
    All CopiesFile (prepare_copy_urls no_fractions age_is_time photo_remote cp_photos).0
prepare_copy_urls-CopiesFile_example =
    prepare_copy_urls-CopiesFile no_fractions age_is_time photo_remote cp_photos

abbrev pair_of : ClientContent → Urls
pair_of c = copy_urls [] (some c) [] c

abbrev two_pairs : List Urls
two_pairs =
    pair_of (local_file (codes "a") 3_000_000_000)
    ∷ pair_of (local_file (codes "b") 90_000_000_000)
    ∷ []

jpg-IsRelative : IsRelative (codes "a.jpg")
unfolding contains has_prefix
jpg-IsRelative = record { no_mark = refl; no_slash = refl }
