-- ===== src/ClientUrl/Parse.antt =====
-- What `newClientURL` makes of a text.
use oss_mc.Base.{
  true, false, List, [], ◌∷◌, ◌++◌, none, ◌≡◌, ◌≢◌, inl, inr, refl, sym, ap, ◌∙◌, arith, Bytes,
  Lacks, Bool-cases, append-nil, take-length, drop-length,
}
use oss_mc.Strings.{is_empty, split, last_index_byte}
use oss_mc.Strings.Laws.{
  index_byte, index_byte_none, Lacks-of_last_index_byte, ne_nil_of_is_empty, byte_cases,
}
use oss_mc.Strings.Split.{join-split, join}
use oss_mc.ClientUrl.{
  object_storage, file_system, slash, slashes, scheme_mark, all_letters, valid_scheme, pick_scheme,
  get_scheme, split_special, object_url, is_http, url_of_authority, url_of_scheme, new_client_url,
}

-- A path is empty, or it begins with a slash.
abbrev pub IsPath : Bytes → Type 0
IsPath [] = Unit {0}
IsPath (c ∷ s) = c ≡ b'/'

abbrev pub root_if_empty : Bytes → Bytes
root_if_empty [] = slash
root_if_empty (c ∷ s) = c ∷ s

-- The text is `scheme://host` with a path behind it.
pub record IsHttp (s : Bytes) : Type 0 where
  pub scheme : Bytes
  pub host : Bytes
  pub tail : Bytes
  pub spells : s ≡ scheme ++ (scheme_mark ++ (host ++ tail))
  pub http : is_http scheme ≡ true
  pub host_ne_nil : host ≢ []
  pub host_lacks_slash : Lacks b'/' host
  pub host_lacks_at : Lacks b'@' host
  pub tail_is_path : IsPath tail

pub split_special-Lacks : (a : Bytes) → Lacks b'/' a → split_special a slash false ≡ (a, [])
unfolding split_special
split_special-Lacks a h = rw (index_byte_none a b'/' h, split_special)

pub split_special_lead :
    (a r : Bytes) → Lacks b'/' a → split_special (a ++ b'/' ∷ r) slash false ≡ (a, b'/' ∷ r)
unfolding split_special
split_special_lead a r h = rw (index_byte a r b'/' h, split_special) (rw (take-length, drop-length))

record Cut (s : Bytes) : Type 0 where
  before : Bytes
  behind : Bytes
  cut : split_special s slash false ≡ (before, behind)
  whole : s ≡ before ++ behind
  lacks : Lacks b'/' before
  is_path : IsPath behind

Cut-at_slash : (s : Bytes) → Cut s
Cut-at_slash s = elim (byte_cases s b'/') [
  | inl h ↦ record {
    before = s;
    behind = [];
    cut = split_special-Lacks s h;
    whole = sym (append-nil s);
    lacks = h;
    is_path = tt;
  }
  | inr (a, r, e, h) ↦ record {
    before = a;
    behind = b'/' ∷ r;
    cut = rw e (split_special_lead a r h);
    whole = e;
    lacks = h;
    is_path = refl;
  }
]

url_of_scheme_nil : (rest : Bytes) → (url_of_scheme ([], rest)).type ≡ file_system
unfolding url_of_scheme
url_of_scheme_nil rest = ground arith

letters_lack_colon : (s : Bytes) → all_letters s ≡ true → Lacks b':' s
unfolding all_letters
letters_lack_colon [] h = tt
letters_lack_colon (c ∷ s) h = ground (arith, letters_lack_colon s)

-- What `url_of_authority` needs to see an object store.
of_authority :
    (scheme authority tail : Bytes)
    → (url_of_authority scheme (authority, tail)).type ≡ object_storage
    → (is_http scheme ≡ true)
      × (is_empty authority ≡ false)
      × (last_index_byte authority b'@' ≡ none)
      × (url_of_authority scheme (authority, tail)
          ≡ object_url scheme authority (root_if_empty tail))
unfolding url_of_authority
of_authority scheme authority [] h = ground arith
of_authority scheme authority (c ∷ tail) h = ground arith

pub record Parsed (s : Bytes) : Type 0 where
  pub parts : IsHttp s
  pub url : new_client_url s ≡ object_url parts.scheme parts.host (root_if_empty parts.tail)

pub behind_slashes :
    (scheme rest : Bytes)
    → url_of_scheme (scheme, slashes ++ rest)
      ≡ url_of_authority scheme (split_special rest slash false)
unfolding url_of_scheme
behind_slashes scheme rest = refl

pub new_client_url_lem : (s : Bytes) → new_client_url s ≡ url_of_scheme (get_scheme s)
unfolding new_client_url
new_client_url_lem s = refl

pub valid_parts :
    (s scheme tail : Bytes)
    → split s scheme_mark ≡ scheme ∷ tail ∷ []
    → valid_scheme scheme ≡ true
    → get_scheme s ≡ (scheme, slashes ++ tail)
unfolding get_scheme
valid_parts s scheme tail e v = ap (pick_scheme s) e ∙ ground arith

pub other_parts :
    (s : Bytes) {ps : List Bytes}
    → split s scheme_mark ≡ ps
    → pick_scheme s ps ≡ ([], s)
    → get_scheme s ≡ ([], s)
unfolding get_scheme
other_parts s e h = ap (pick_scheme s) e ∙ h

not_object : (s : Bytes) → get_scheme s ≡ ([], s) → (new_client_url s).type ≡ object_storage → ⊥
unfolding new_client_url
not_object s e h = cc (ap url_of_scheme e, url_of_scheme_nil s)

Parsed-of_valid :
    (s scheme rest : Bytes)
    → s ≡ scheme ++ (scheme_mark ++ rest)
    → new_client_url s ≡ url_of_scheme (scheme, slashes ++ rest)
    → (new_client_url s).type ≡ object_storage
    → Parsed s
Parsed-of_valid s scheme rest whole e h =
    let c = Cut-at_slash rest in
    let shape : new_client_url s ≡ url_of_authority scheme (c.before, c.behind) =
      e ∙ behind_slashes scheme rest ∙ ap (url_of_authority scheme) c.cut in
    let (http, host, no_at, url) = of_authority scheme c.before c.behind (rw shape at h) in
    record {
      parts = record {
        scheme = scheme;
        host = c.before;
        tail = c.behind;
        spells = whole ∙ ap (λ (r : Bytes). scheme ++ (scheme_mark ++ r)) c.whole;
        http = http;
        host_ne_nil = ne_nil_of_is_empty c.before host;
        host_lacks_slash = c.lacks;
        host_lacks_at = Lacks-of_last_index_byte c.before b'@' no_at;
        tail_is_path = c.is_path;
      };
      url = shape ∙ url;
    }

Parsed-of_parts :
    (s : Bytes) (ps : List Bytes)
    → split s scheme_mark ≡ ps
    → (new_client_url s).type ≡ object_storage
    → Parsed s
Parsed-of_parts s (scheme ∷ tail ∷ []) e h = elim (Bool-cases (valid_scheme scheme)) [
  | inl v ↦
      Parsed-of_valid s scheme tail (sym (join-split b':' slashes s) ∙ ap (join scheme_mark) e)
        (new_client_url_lem s ∙ ap url_of_scheme (valid_parts s scheme tail e v)) h
  | inr n ↦ absurd (not_object s (other_parts s e (unfold pick_scheme in ground arith)) h)
]
Parsed-of_parts s [] e h = absurd (not_object s (other_parts s e (unfold pick_scheme in refl)) h)
Parsed-of_parts s (p ∷ []) e h =
    absurd (not_object s (other_parts s e (unfold pick_scheme in refl)) h)
Parsed-of_parts s (p ∷ q ∷ r ∷ ps) e h =
    absurd (not_object s (other_parts s e (unfold pick_scheme in refl)) h)

-- An address that is read as one of an object store spells `scheme://host` with a path behind it,
-- and is read as just these parts, an empty path as the root.
pub new_client_url-IsHttp : (s : Bytes) → (new_client_url s).type ≡ object_storage → Parsed s
new_client_url-IsHttp s h = Parsed-of_parts s (split s scheme_mark) refl h
