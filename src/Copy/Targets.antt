-- ===== src/Copy/Targets.antt =====
-- Where `makeCopyContentTypeC` of cmd/cp-url.go puts the objects of a folder.
use oss_mc.Base.{
  ◌<◌, false, [], ◌∷◌, ◌++◌, some, ◌≡◌, refl, sym, ap, ◌∙◌, arith, Bytes, length, take, take-length,
  Lacks,
}
use oss_mc.ClientUrl.{
  ClientUrl, object_storage, new_client_url, file_url, join_urls, to_string, url_join_path, slash,
  slashes, scheme_mark,
}
use oss_mc.ClientUrl.Join.{
  IsRelative, with_slash, url_join_path-object, url_join_path_lem, relative_url, keep_relative,
}
use oss_mc.ClientUrl.Print.{new_client_url-file}
use oss_mc.Content.{ClientContent}
use oss_mc.Copy.{source_suffix, make_copy_content_type_c, make_copy_content_type_a}
use oss_mc.Strings.{contains, index, has_prefix, last_index_byte}
use oss_mc.Strings.Laws.{trim_prefix_self, last_index_byte-none}

rooted_no_mark :
    (r : Bytes) → contains r scheme_mark ≡ false → contains (b'/' ∷ r) scheme_mark ≡ false
unfolding contains index has_prefix
rooted_no_mark r h = ground arith

rooted_no_slashes : (r : Bytes) → has_prefix r slash ≡ false → has_prefix (b'/' ∷ r) slashes ≡ false
unfolding has_prefix
rooted_no_slashes r h = h

rooted_url : (r : Bytes) → IsRelative r → new_client_url (b'/' ∷ r) ≡ file_url (b'/' ∷ r)
rooted_url r h =
    new_client_url-file (b'/' ∷ r) (rooted_no_mark r h.no_mark) (rooted_no_slashes r h.no_slash)

join_urls_rooted :
    (u : ClientUrl) (r : Bytes)
    → has_prefix r slash ≡ false
    → join_urls u (file_url (b'/' ∷ r)) ≡ join_urls u (file_url r)
unfolding join_urls
join_urls_rooted u r h = rw (trim_prefix_self slash r, keep_relative r h) refl

url_join_path_rooted : (t r : Bytes) → IsRelative r → url_join_path t (b'/' ∷ r) ≡ url_join_path t r
url_join_path_rooted t r h =
    url_join_path_lem t (b'/' ∷ r)
    ∙ ap to_string (
        ap (join_urls (new_client_url t)) (rooted_url r h)
        ∙ join_urls_rooted (new_client_url t) r h.no_slash
        ∙ ap (join_urls (new_client_url t)) (sym (relative_url r h)))
    ∙ sym (url_join_path_lem t r)

last_slash :
    (a name : Bytes) → Lacks b'/' name → last_index_byte (a ++ b'/' ∷ name) b'/' ≡ some (length a)
unfolding last_index_byte
last_slash [] name h = ground (arith, last_index_byte-none name b'/' h)
last_slash (c ∷ a) name h = ground (arith, last_slash a name h)

suffix_below :
    (folder : ClientUrl) (source : ClientContent) (a name rest : Bytes)
    → folder.separator ≡ b'/'
    → folder.path ≡ a ++ b'/' ∷ name
    → Lacks b'/' name
    → 1 < length a
    → source.url.path ≡ a ++ b'/' ∷ rest
    → source_suffix folder source ≡ b'/' ∷ rest
unfolding source_suffix
suffix_below folder source a name rest sep path lacks long below =
    let at : last_index_byte folder.path folder.separator ≡ some (length a) =
      rw (sep, path) (last_slash a name lacks) in
    let cut : take (length a) folder.path ≡ a = rw path (take-length a (b'/' ∷ name)) in
    rw (at, source_suffix) (ground (arith, cut, below, trim_prefix_self a (b'/' ∷ rest)))

-- A folder's path is split at its last slash, into a parent of two bytes at least and a name, which
-- is empty if the path ends in a slash. An object below the parent is copied to the target, an
-- address of an object store, with what stands behind the parent as its name: with the folder's
-- name in front if the path was given without a slash at its end, and without it otherwise.
make_copy_content_type_c_lem :
    (source_alias target_alias target : Bytes) (folder : ClientUrl) (source : ClientContent)
    (parent name rest : Bytes)
    → folder.separator ≡ b'/'
    → folder.path ≡ parent ++ b'/' ∷ name
    → Lacks b'/' name
    → 1 < length parent
    → source.url.path ≡ parent ++ b'/' ∷ rest
    → IsRelative rest
    → (new_client_url target).type ≡ object_storage
    → make_copy_content_type_c source_alias folder source target_alias target
      ≡ make_copy_content_type_a source_alias source target_alias
          (with_slash (to_string (new_client_url target)) rest)
unfolding make_copy_content_type_c
make_copy_content_type_c_lem source_alias target_alias target folder source parent name rest sep
      path lacks long below rel object =
    ap (make_copy_content_type_a source_alias source target_alias) (
      ap (url_join_path target)
        (suffix_below folder source parent name rest sep path lacks long below)
      ∙ url_join_path_rooted target rest rel
      ∙ url_join_path-object target rest object rel)
