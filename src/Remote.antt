-- ===== src/Remote.antt =====
-- The `Client` interface of cmd/client.go as the copying commands see it, with `url2Stat` and
-- `firstURL2Stat` of cmd/client-url.go and `isAliasURLDir` of cmd/common-methods.go over it. A
-- client's answers do not change while a command prepares its copies; the encryption keys that a
-- `Stat` carries are fixed with the client.
use oss_mc.Base.{
  ℕ, Bool, true, false, List, [], ◌∷◌, Bytes, Fallible, ok, err, ◌>>=◌, if◌then◌else◌, none, some,
}
use oss_mc.ClientUrl.{ClientUrl, slash}
use oss_mc.Content.{ClientContent, is_dir}
use oss_mc.Errors.{Error, object_missing}
use oss_mc.Strings.{equal, has_suffix, split}

-- `ListOptions`, as far as the copying commands set them.
pub record ListOptions : Type 0 where
  pub recursive : Bool
  pub time_ref : ℕ
  pub count : ℕ
  pub list_zip : Bool

-- `StatOptions`, less the attributes and the key.
pub record StatOptions : Type 0 where
  pub version_id : Bytes
  pub time_ref : ℕ
  pub is_zip : Bool

pub record Client : Type 0 where
  pub get_url : ClientUrl
  pub stat : StatOptions → Fallible Error ClientContent
  pub list : ListOptions → List ClientContent

-- What a command reaches through the configuration and the network: `mustExpandAlias`, its alias and
-- the full address, and `newClient`.
pub record Remote : Type 0 where
  pub must_expand_alias : Bytes → Bytes × Bytes
  pub new_client : Bytes → Fallible Error Client

-- the first element received from a listing
abbrev first_listed : List ClientContent → Fallible Error ClientContent
first_listed [] = err object_missing
first_listed (c ∷ cs) = elim c.err [ some e ↦ err e | none ↦ ok c ]

module _ (remote : Remote) where
  unfoldable pub url2_stat : Bytes → Bytes → ℕ → Bool → Fallible Error ClientContent
  url2_stat url version time zip = do
    client ← remote.new_client url
    client.stat (record { version_id = version; time_ref = time; is_zip = zip })

  unfoldable pub first_url2_stat : Bytes → ℕ → Bool → Fallible Error ClientContent
  first_url2_stat prefix time zip = do
    client ← remote.new_client prefix
    first_listed
        (client.list (record { recursive = true; time_ref = time; count = 1; list_zip = zip }))

  -- what an address that does not exist looks like
  unfoldable pub looks_like_dir : Bytes → Bool
  looks_like_dir url =
      if equal (remote.must_expand_alias url).1 url
      then has_suffix url slash
      else elim (split url slash) [
        | [] ↦ false
        | (a ∷ []) ↦ false
        | (a ∷ b ∷ []) ↦ true
        | (a ∷ b ∷ c ∷ rest) ↦ has_suffix url slash
      ]

  unfoldable pub is_alias_url_dir : Bytes → ℕ → Bool
  is_alias_url_dir url time = elim (url2_stat url [] time false) [
    | ok target ↦ is_dir target.type
    | err e ↦ looks_like_dir url
  ]
