-- ===== src/ClientUrl/Join.antt =====
-- `joinURLs` and `urlJoinPath`, and the alias of an address.
use oss_mc.Base.{
  true, false, [], ◌∷◌, ◌++◌, ◌≡◌, ◌⊎◌, inl, inr, refl, sym, ap, ◌∙◌, arith, Bytes, Lacks,
  append_assoc, if◌then◌else◌, Bool-cases,
}
use oss_mc.Strings.{has_prefix, has_suffix, trim_prefix, contains}
use oss_mc.Strings.Laws.{byte_cases, has_suffix-append}
use oss_mc.Strings.Split.{split_once-Lacks, split_once_lead}
use oss_mc.ClientUrl.{
  ClientUrl, object_storage, slash, slashes, scheme_mark, object_url, file_url, new_client_url,
  join_urls, to_string, url_join_path, url2_alias,
}
use oss_mc.ClientUrl.Parse.{IsPath, root_if_empty, new_client_url-IsHttp}
use oss_mc.ClientUrl.Print.{new_client_url-file}

-- One slash between two texts, whether or not the first has it.
abbrev pub with_slash : Bytes → Bytes → Bytes
with_slash a r = if has_suffix a slash then a ++ r else a ++ (slash ++ r)

-- A name below a folder: no `://` in it and no slash in front.
pub record IsRelative (r : Bytes) : Type 0 where
  pub no_mark : contains r scheme_mark ≡ false
  pub no_slash : has_prefix r slash ≡ false

no_slashes : (r : Bytes) → has_prefix r slash ≡ false → has_prefix r slashes ≡ false
unfolding has_prefix
no_slashes [] h = refl
no_slashes (c ∷ r) h = ground arith

pub relative_url : (r : Bytes) → IsRelative r → new_client_url r ≡ file_url r
relative_url r h = new_client_url-file r h.no_mark (no_slashes r h.no_slash)

pub keep_relative : (r : Bytes) → has_prefix r slash ≡ false → trim_prefix r slash ≡ r
unfolding trim_prefix
keep_relative r h = rw h

join_relative :
    (u : ClientUrl) (r : Bytes)
    → IsRelative r
    → join_urls u (file_url r) ≡ record u { path = with_slash u.path r }
unfolding join_urls
join_relative u r h = rw (keep_relative r h.no_slash)

to_string_rooted :
    (scheme host path : Bytes)
    → has_prefix path slash ≡ true
    → to_string (object_url scheme host path) ≡ scheme ++ (scheme_mark ++ (host ++ path))
unfolding to_string
to_string_rooted scheme host [] h = unfold has_prefix in cc h
to_string_rooted scheme host (c ∷ path) h = ground arith

with_slash_rooted :
    (path r : Bytes) → has_prefix path slash ≡ true → has_prefix (with_slash path r) slash ≡ true
unfolding has_prefix
with_slash_rooted [] r h = cc
with_slash_rooted (c ∷ path) r h = ground arith

with_slash-append :
    (a path r : Bytes)
    → has_prefix path slash ≡ true
    → a ++ with_slash path r ≡ with_slash (a ++ path) r
with_slash-append a [] r h = unfold has_prefix in cc h
with_slash-append a (c ∷ path) r h =
    rw (has_suffix-append a (c ∷ path) slash (omega arith))
      (elim (Bool-cases (has_suffix (c ∷ path) slash)) [
        | inl t ↦ rw t (sym (append_assoc a (c ∷ path) r))
        | inr f ↦ rw f (sym (append_assoc a (c ∷ path) (slash ++ r)))
      ])

print_joined :
    (scheme host path r : Bytes)
    → has_prefix path slash ≡ true
    → to_string (object_url scheme host (with_slash path r))
      ≡ with_slash (to_string (object_url scheme host path)) r
print_joined scheme host path r h =
    let lead = scheme ++ (scheme_mark ++ host) in
    let spell : (p : Bytes) → scheme ++ (scheme_mark ++ (host ++ p)) ≡ lead ++ p =
      λ p. simp append_assoc in
    to_string_rooted scheme host (with_slash path r) (with_slash_rooted path r h)
    ∙ spell (with_slash path r)
    ∙ with_slash-append lead path r h
    ∙ ap (λ (q : Bytes). with_slash q r)
        (sym (spell path) ∙ sym (to_string_rooted scheme host path h))

pub url_join_path_lem :
    (a b : Bytes) → url_join_path a b ≡ to_string (join_urls (new_client_url a) (new_client_url b))
unfolding url_join_path
url_join_path_lem a b = refl

root_is_rooted : (tail : Bytes) → IsPath tail → has_prefix (root_if_empty tail) slash ≡ true
unfolding has_prefix
root_is_rooted [] h = refl
root_is_rooted (c ∷ tail) h = rw h

-- Joining a name to an object store's address puts exactly one slash between the printed address
-- and the name.
pub url_join_path-object :
    (t r : Bytes)
    → (new_client_url t).type ≡ object_storage
    → IsRelative r
    → url_join_path t r ≡ with_slash (to_string (new_client_url t)) r
url_join_path-object t r object h =
    let p = new_client_url-IsHttp t object in
    let u = object_url p.parts.scheme p.parts.host (root_if_empty p.parts.tail) in
    url_join_path_lem t r
    ∙ ap to_string (
        ap (λ v. join_urls v (new_client_url r)) p.url
        ∙ ap (join_urls u) (relative_url r h)
        ∙ join_relative u r h)
    ∙ print_joined p.parts.scheme p.parts.host (root_if_empty p.parts.tail) r
        (root_is_rooted p.parts.tail p.parts.tail_is_path)
    ∙ ap (λ v. with_slash (to_string v) r) (sym p.url)

-- Joining a name to a folder of the file system puts exactly one slash between them.
url_join_path-file :
    (t r : Bytes)
    → new_client_url t ≡ file_url t
    → IsRelative r
    → url_join_path t r ≡ with_slash t r
url_join_path-file t r file h =
    url_join_path_lem t r
    ∙ ap to_string (
        ap (λ u. join_urls u (new_client_url r)) file
        ∙ ap (join_urls (file_url t)) (relative_url r h)
        ∙ join_relative (file_url t) r h)
    ∙ (unfold to_string in refl)

-- The alias ends at the first slash, and the alias, that slash and the path spell the address; an
-- address with no slash is all alias.
url2_alias_spells :
    (s : Bytes)
    → Lacks b'/' (url2_alias s).0
      × (((url2_alias s).0 ≡ s) × ((url2_alias s).1 ≡ [])
          ⊎ (s ≡ (url2_alias s).0 ++ b'/' ∷ (url2_alias s).1))
unfolding url2_alias
url2_alias_spells s = elim (byte_cases s b'/') [
  | inl h ↦ rw (split_once-Lacks b'/' s h) (h, inl (refl, refl))
  | inr (a, r, e, h) ↦ rw (e, split_once_lead b'/' a r h) (h, inr refl)
]

-- An alias with no slash in it and a path behind a slash are read back.
url2_alias_of_path :
    (alias path : Bytes) → Lacks b'/' alias → url2_alias (alias ++ b'/' ∷ path) ≡ (alias, path)
unfolding url2_alias
url2_alias_of_path alias path h = rw (split_once_lead b'/' alias path h)
