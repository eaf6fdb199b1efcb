-- ===== src/Tests/Usage.antt =====
-- The disk usage of a folder with a folder in it: `du` of cmd/du-main.go.
use oss_mc.Base.{false, [], some, Bytes, ◌≡◌, refl, arith, Fallible, ok, if◌then◌else◌}
use oss_mc.ClientUrl.{ClientUrl, object_storage, to_string}
use oss_mc.Content.{ClientContent, content_of_url, dir}
use oss_mc.Du.{DuClient, du, used, slash_ended, sub_dir_alias}
use oss_mc.Du.Total.{IsListedAs, IsServed, messages, du_lem}
use oss_mc.Du.Tree.{
  Tree, done, entry, folder, listed, tree_size, tree_count, height, object, skipped,
}
use oss_mc.Errors.{Error, path_not_found}
use oss_mc.Strings.{codes, equal, has_suffix, has_prefix, trim_prefix, is_empty}

abbrev url_at : Bytes → ClientUrl
url_at path = record {
  type = object_storage;
  scheme = codes "https";
  host = codes "play.min.io";
  path = path;
  scheme_separator = codes "://";
  separator = b'/';
}

abbrev photo : ClientContent
photo = record (content_of_url (url_at (codes "/photos/a.jpg"))) { size = 700 }

abbrev old_photo : ClientContent
old_photo = record (content_of_url (url_at (codes "/photos/old/b.jpg"))) { size = 50 }

abbrev lost : ClientContent
lost = record (content_of_url (url_at (codes "/photos/c.jpg"))) { err = some (path_not_found []) }

abbrev old_photos : ClientContent
old_photos = record (content_of_url (url_at (codes "/photos/old/"))) { type = dir }

abbrev inside : Tree
inside = entry old_photo done

abbrev photos : Tree
photos = entry lost (folder old_photos inside (entry photo done))

abbrev expand : Bytes → Bytes × Bytes
expand s = (codes "play", trim_prefix s (codes "play"))

abbrev client_of : Tree → DuClient
client_of t = record { get_url = url_at (codes "/photos/"); list = λ r. listed r t }

abbrev connect : Bytes → Bytes → Fallible Error DuClient
connect alias url = ok (client_of (if equal url (codes "/photos/") then photos else inside))

photos-IsListedAs :
    IsListedAs expand connect (λ s. s) (λ s. some s) false (codes "play/photos/") photos
unfolding slash_ended trim_prefix has_prefix has_suffix equal to_string
photos-IsListedAs = record {
  client = client_of photos;
  connects = refl;
  lists = λ r. refl;
  parts = (
    skipped (path_not_found []) refl refl,
    (
      record { no_error = refl; other = refl; dir = refl },
      ((object refl refl refl, tt), (object refl refl refl, tt)),
    ),
  );
  path = codes "/photos/";
  parses = refl;
}

inside-IsListedAs :
    IsListedAs expand connect (λ s. s) (λ s. some s) false (codes "play//photos/old/") inside
unfolding slash_ended trim_prefix has_prefix has_suffix equal to_string
inside-IsListedAs = record {
  client = client_of inside;
  connects = refl;
  lists = λ r. refl;
  parts = (object refl refl refl, tt);
  path = codes "//photos/old/";
  parses = refl;
}

photos-IsServed : IsServed expand connect (λ s. s) (λ s. some s) false (codes "play") photos
unfolding sub_dir_alias is_empty trim_prefix has_prefix
photos-IsServed = (inside-IsListedAs, (tt, tt))

du_lem_example :
    du expand connect (λ s. s) (λ s. some s) false 2 2 (codes "play/photos/")
    ≡ some (
      messages expand connect (λ s. s) (λ s. some s) false 2 (codes "play/photos/") photos,
      used 750 2,
    )
unfolding tree_size tree_count height
du_lem_example =
    du_lem expand connect (λ s. s) (λ s. some s) false 1 2 (codes "play/photos/") photos
      photos-IsListedAs photos-IsServed (omega arith)
