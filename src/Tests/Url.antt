-- ===== src/Tests/Url.antt =====
-- Addresses: cmd/client-url.go on concrete texts.
use oss_mc.Base.{[], ◌++◌, ◌≡◌, ◌⊎◌, refl, Bytes, arith}
use oss_mc.ClientUrl.{new_client_url, to_string, url2_alias, slash}
use oss_mc.ClientUrl.Join.{IsRelative}
use oss_mc.ClientUrl.Parse.{IsHttp}
use oss_mc.ClientUrl.Print.{IsBare, to_string-new_client_url}
use oss_mc.Strings.Paths.{clean_path, base_name}
use oss_mc.Strings.{codes, contains, has_prefix, equal}

abbrev play : Bytes
play = codes "https://play.min.io/photos"

abbrev play_parts : IsHttp play
play_parts = record {
  scheme = codes "https";
  host = codes "play.min.io";
  tail = codes "/photos";
  spells = refl;
  http = unfold equal in refl;
  host_ne_nil = λ e. cc;
  host_lacks_slash = ground arith;
  host_lacks_at = ground arith;
  tail_is_path = refl;
}

to_string-new_client_url_example :
    (to_string (new_client_url play) ≡ play)
    ⊎ ((to_string (new_client_url play) ≡ play ++ slash) × IsBare play)
unfolding new_client_url
to_string-new_client_url_example = to_string-new_client_url play refl

IsRelative-name : IsRelative (codes "a.jpg")
unfolding contains has_prefix
IsRelative-name = record { no_mark = refl; no_slash = refl }

url2_alias_run : url2_alias (codes "play") ≡ (codes "play", [])
unfolding url2_alias
url2_alias_run = refl

tidy : clean_path (codes "/a//b/../c/./") ≡ codes "/a/c"
unfolding clean_path
tidy = refl

parents : clean_path (codes "a/../../b") ≡ codes "../b"
unfolding clean_path
parents = refl

named : base_name (codes "/a/b.jpg//") ≡ codes "b.jpg"
unfolding base_name
named = refl
