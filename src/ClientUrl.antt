-- ===== src/ClientUrl.antt =====
-- cmd/client-url.go: parsing an address into a `ClientURL`, printing it, joining two of them, and
-- taking the alias off. The build is one whose path separator is `/`: there `filepath.ToSlash` and
-- `filepath.FromSlash` change nothing, and the `windows` case of `String` is not taken.
pub mod Parse
pub mod Print
pub mod Join
use Prim.Native.String.{String}
use oss_mc.Base.{
  ℕ, Bool, true, false, not, ◌&&◌, ◌||◌, List, [], ◌∷◌, ◌++◌, Option, none, some, Bytes, leb,
  if◌then◌else◌, length, take, drop,
}
use oss_mc.Strings.{
  codes, equal, is_empty, has_prefix, has_suffix, trim_prefix, index, last_index_byte, split,
  split_once,
}

pub data ClientUrlType : Type 0 where
  object_storage file_system : ClientUrlType

pub record ClientUrl : Type 0 where
  pub type : ClientUrlType
  pub scheme : Bytes
  pub host : Bytes
  pub path : Bytes
  pub scheme_separator : Bytes
  pub separator : ℕ

abbrev pub slash : Bytes
slash = b'/' ∷ []

abbrev pub slashes : Bytes
slashes = b'/' ∷ b'/' ∷ []

abbrev pub scheme_mark : Bytes
scheme_mark = b':' ∷ slashes

abbrev is_letter : ℕ → Bool
is_letter c = leb b'a' c && leb c b'z' || leb b'A' c && leb c b'Z'

pub all_letters : Bytes → Bool
all_letters [] = true
all_letters (c ∷ s) = is_letter c && all_letters s

-- the expression `^[a-zA-Z]+$`
unfoldable pub valid_scheme : Bytes → Bool
unfolding all_letters is_empty
valid_scheme s = not (is_empty s) && all_letters s

-- `getScheme` behind its `strings.Split`
unfoldable pub pick_scheme : Bytes → List Bytes → Bytes × Bytes
unfolding valid_scheme
pick_scheme rawurl (scheme ∷ tail ∷ []) =
    if valid_scheme scheme then (scheme, slashes ++ tail) else ([], rawurl)
pick_scheme rawurl [] = ([], rawurl)
pick_scheme rawurl (p ∷ []) = ([], rawurl)
pick_scheme rawurl (p ∷ q ∷ r ∷ ps) = ([], rawurl)

unfoldable pub get_scheme : Bytes → Bytes × Bytes
unfolding pick_scheme split
get_scheme rawurl = pick_scheme rawurl (split rawurl scheme_mark)

unfoldable pub split_special : Bytes → Bytes → Bool → Bytes × Bytes
unfolding index
split_special s delimiter cut_delimiter = elim (index s delimiter) [
  | none ↦ (s, [])
  | some i ↦
      if cut_delimiter then (take i s, drop (length delimiter) (drop i s)) else (take i s, drop i s)
]

unfoldable pub get_host : Bytes → Bytes
unfolding last_index_byte
get_host authority = elim (last_index_byte authority b'@') [ none ↦ authority | some _ ↦ [] ]

abbrev pub object_url : Bytes → Bytes → Bytes → ClientUrl
object_url scheme host path = record {
  type = object_storage;
  scheme = scheme;
  host = host;
  path = path;
  scheme_separator = scheme_mark;
  separator = b'/';
}

abbrev pub file_url : Bytes → ClientUrl
file_url path = record {
  type = file_system;
  scheme = [];
  host = [];
  path = path;
  scheme_separator = [];
  separator = b'/';
}

abbrev pub is_http : Bytes → Bool
is_http scheme = equal scheme (codes "http") || equal scheme (codes "https")

-- `newClientURL` behind `splitSpecial(rest[2:], "/", false)`
unfoldable pub url_of_authority : Bytes → Bytes × Bytes → ClientUrl
unfolding get_host is_empty equal
url_of_authority scheme (authority, tail) =
    let rest = if is_empty tail then slash else tail in
    let host = get_host authority in
    if not (is_empty host) && is_http scheme then object_url scheme host rest else file_url rest

-- `newClientURL` behind `getScheme`
unfoldable pub url_of_scheme : Bytes × Bytes → ClientUrl
unfolding url_of_authority split_special has_prefix
url_of_scheme (scheme, rest) =
    if has_prefix rest slashes
    then url_of_authority scheme (split_special (drop 2 rest) slash false)
    else file_url rest

unfoldable pub new_client_url : Bytes → ClientUrl
unfolding url_of_scheme get_scheme
new_client_url url_str = url_of_scheme (get_scheme url_str)

-- `joinURLs` changes the first address in place and returns it.
unfoldable pub join_urls : ClientUrl → ClientUrl → ClientUrl
unfolding has_suffix trim_prefix
join_urls url1 url2 = record url1 {
  path =
      if has_suffix url1.path slash
      then url1.path ++ trim_prefix url2.path slash
      else url1.path ++ (slash ++ trim_prefix url2.path slash);
}

abbrev object_to_string : ClientUrl → Bytes
object_to_string u =
    let lead =
      if not (is_empty u.path) && not (has_prefix u.path slash) && not (is_empty u.host)
      then slash
      else [] in
    u.scheme ++ (scheme_mark ++ (u.host ++ (lead ++ u.path)))

unfoldable pub to_string_as : ClientUrlType → ClientUrl → Bytes
unfolding is_empty has_prefix
to_string_as file_system u = u.path
to_string_as object_storage u = object_to_string u

-- `ClientURL.String`
unfoldable pub to_string : ClientUrl → Bytes
unfolding to_string_as
to_string u = to_string_as u.type u

unfoldable pub url_join_path : Bytes → Bytes → Bytes
unfolding new_client_url join_urls to_string
url_join_path url1 url2 = to_string (join_urls (new_client_url url1) (new_client_url url2))

abbrev or_empty : Option Bytes → Bytes
or_empty none = []
or_empty (some s) = s

unfoldable pub url2_alias : Bytes → Bytes × Bytes
unfolding split_once
url2_alias aliased_url = let parts = split_once aliased_url b'/' in (parts.0, or_empty parts.1)
