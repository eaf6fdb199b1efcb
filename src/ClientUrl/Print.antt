-- ===== src/ClientUrl/Print.antt =====
-- `ClientURL.String` against `newClientURL`, and the texts that are read as paths.
use oss_mc.Base.{
  true, false, [], ◌∷◌, ◌++◌, ◌≡◌, ◌≢◌, ◌⊎◌, inl, inr, refl, sym, ap, ◌∙◌, arith, Bytes, Lacks,
  Bool-cases, append_assoc, append-nil,
}
use oss_mc.Strings.{codes, equal, has_prefix, split, contains}
use oss_mc.Strings.Laws.{equal_iff, last_index_byte-none}
use oss_mc.Strings.Split.{split_lead, split_missing}
use oss_mc.ClientUrl.{
  object_storage, slash, slashes, scheme_mark, valid_scheme, pick_scheme, get_scheme, split_special,
  object_url, file_url, is_http, url_of_authority, url_of_scheme, new_client_url, to_string,
}
use oss_mc.ClientUrl.Parse.{
  IsPath, root_if_empty, IsHttp, new_client_url-IsHttp, new_client_url_lem, valid_parts,
  other_parts, behind_slashes, split_special-Lacks, split_special_lead,
}

to_string_object :
    (scheme host tail : Bytes)
    → IsPath tail
    → to_string (object_url scheme host (root_if_empty tail))
      ≡ scheme ++ (scheme_mark ++ (host ++ root_if_empty tail))
unfolding to_string
to_string_object scheme host [] h = refl
to_string_object scheme host (c ∷ tail) h = rw h (refl)

-- An address of a host, with no path behind it.
pub record IsBare (s : Bytes) : Type 0 where
  pub scheme : Bytes
  pub host : Bytes
  pub spells : s ≡ scheme ++ (scheme_mark ++ host)
  pub http : is_http scheme ≡ true
  pub host_lacks_slash : Lacks b'/' host

printed_as :
    (s scheme host tail : Bytes)
    → s ≡ scheme ++ (scheme_mark ++ (host ++ tail))
    → is_http scheme ≡ true
    → Lacks b'/' host
    → (scheme ++ (scheme_mark ++ (host ++ root_if_empty tail)) ≡ s)
      ⊎ ((scheme ++ (scheme_mark ++ (host ++ root_if_empty tail)) ≡ s ++ slash) × IsBare s)
printed_as s scheme host (c ∷ tail) e http lacks = inl (sym e)
printed_as s scheme host [] e http lacks = inr (
  rw e (simp (append_assoc, append-nil)),
  record {
    scheme = scheme;
    host = host;
    spells = e ∙ simp append-nil;
    http = http;
    host_lacks_slash = lacks;
  },
)

-- What is read as an object store's address is printed as it was written, or, if it is a scheme and a
-- host with no path behind them, with a slash behind it.
pub to_string-new_client_url :
    (s : Bytes)
    → (new_client_url s).type ≡ object_storage
    → (to_string (new_client_url s) ≡ s) ⊎ ((to_string (new_client_url s) ≡ s ++ slash) × IsBare s)
to_string-new_client_url s h =
    let p = new_client_url-IsHttp s h in
    let e =
      ap to_string p.url
      ∙ to_string_object p.parts.scheme p.parts.host p.parts.tail p.parts.tail_is_path in
    rw e (
      printed_as s p.parts.scheme p.parts.host p.parts.tail p.parts.spells p.parts.http
        p.parts.host_lacks_slash)

http_letters :
    (scheme : Bytes) → is_http scheme ≡ true → (valid_scheme scheme ≡ true) × Lacks b':' scheme
http_letters scheme h = elim (Bool-cases (equal scheme (codes "http"))) [
  | inl e ↦ rw ((equal_iff scheme (codes "http")).0 e) (unfold valid_scheme in refl, omega arith)
  | inr n ↦
      rw ((equal_iff scheme (codes "https")).0 (ground arith))
        (unfold valid_scheme in refl, omega arith)
]

read_authority :
    (scheme host tail : Bytes)
    → is_http scheme ≡ true
    → host ≢ []
    → Lacks b'@' host
    → url_of_authority scheme (host, tail) ≡ object_url scheme host (root_if_empty tail)
unfolding url_of_authority
read_authority scheme [] tail http ne at = absurd (ne refl)
read_authority scheme (x ∷ host) [] http ne at =
    ground (arith, last_index_byte-none (x ∷ host) b'@' at)
read_authority scheme (x ∷ host) (c ∷ tail) http ne at =
    ground (arith, last_index_byte-none (x ∷ host) b'@' at)

cut_path :
    (host tail : Bytes)
    → Lacks b'/' host
    → IsPath tail
    → split_special (host ++ tail) slash false ≡ (host, tail)
cut_path host [] h k = rw append-nil (split_special-Lacks host h)
cut_path host (c ∷ tail) h k = rw k (split_special_lead host tail h)

-- Every text of the form `scheme://host` with a path behind it, its scheme http or https and no
-- second `://` in it, is read as an object store's address with just these parts.
new_client_url-object :
    (s : Bytes) (p : IsHttp s)
    → contains (p.host ++ p.tail) scheme_mark ≡ false
    → new_client_url s ≡ object_url p.scheme p.host (root_if_empty p.tail)
new_client_url-object s p once =
    let (valid, colon) = http_letters p.scheme p.http in
    let two : split s scheme_mark ≡ p.scheme ∷ (p.host ++ p.tail) ∷ [] =
      ap (λ (r : Bytes). split r scheme_mark) p.spells
      ∙ split_lead b':' slashes p.scheme (p.host ++ p.tail) colon
      ∙ ap (◌∷◌ p.scheme) (split_missing (p.host ++ p.tail) scheme_mark once) in
    new_client_url_lem s
    ∙ ap url_of_scheme (valid_parts s p.scheme (p.host ++ p.tail) two valid)
    ∙ behind_slashes p.scheme (p.host ++ p.tail)
    ∙ ap (url_of_authority p.scheme) (cut_path p.host p.tail p.host_lacks_slash p.tail_is_path)
    ∙ read_authority p.scheme p.host p.tail p.http p.host_ne_nil p.host_lacks_at

no_scheme : (s : Bytes) → contains s scheme_mark ≡ false → get_scheme s ≡ ([], s)
no_scheme s h = other_parts s (split_missing s scheme_mark h) (unfold pick_scheme in refl)

-- A text with no `://` in it that does not begin with two slashes is a path, taken as it is.
pub new_client_url-file :
    (s : Bytes)
    → contains s scheme_mark ≡ false
    → has_prefix s slashes ≡ false
    → new_client_url s ≡ file_url s
new_client_url-file s h k =
    new_client_url_lem s ∙ ap url_of_scheme (no_scheme s h) ∙ (unfold url_of_scheme in rw k)

-- A path that begins with two slashes loses its first name: what is kept begins behind it.
new_client_url_drops_first_name :
    (name tail : Bytes)
    → contains (slashes ++ (name ++ tail)) scheme_mark ≡ false
    → Lacks b'/' name
    → IsPath tail
    → new_client_url (slashes ++ (name ++ tail)) ≡ file_url (root_if_empty tail)
new_client_url_drops_first_name name tail h k t =
    new_client_url_lem _
    ∙ ap url_of_scheme (no_scheme _ h)
    ∙ behind_slashes [] (name ++ tail)
    ∙ ap (url_of_authority []) (cut_path name tail k t)
    ∙ no_scheme_file name tail
  where
    no_scheme_file : (a t : Bytes) → url_of_authority [] (a, t) ≡ file_url (root_if_empty t)
    no_scheme_file a [] = unfold url_of_authority in ground arith
    no_scheme_file a (c ∷ t) = unfold url_of_authority in ground arith
