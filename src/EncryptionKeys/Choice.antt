-- ===== src/EncryptionKeys/Choice.antt =====
-- Which key `getSSE` of cmd/utils.go takes from the sorted entries of an alias.
use oss_mc.Base.{
  ◌≤◌, true, false, List, [], ◌∷◌, ◌++◌, Option, none, some, ◌≡◌, inl, inr, refl, ap, Bytes, All,
  length, Bool-cases,
}
use oss_mc.EncryptionKeys.{PrefixSsePair, get_sse}
use oss_mc.Strings.{has_prefix}

-- The longest prefixes come first.
abbrev pub IsDescending : List PrefixSsePair → Type 0
IsDescending [] = Unit {0}
IsDescending (p ∷ ps) = All (λ q. length q.prefix ≤ length p.prefix) ps × IsDescending ps

-- An entry of the list fits the resource, it has this key, those in front of it do not fit, and no
-- entry behind it has a longer prefix.
pub record Chosen (resource : Bytes) (ks : List PrefixSsePair) (key : Bytes) : Type 0 where
  pub before : List PrefixSsePair
  pub chosen : PrefixSsePair
  pub behind : List PrefixSsePair
  pub split : ks ≡ before ++ chosen ∷ behind
  pub is_key : key ≡ chosen.sse
  pub fits : has_prefix resource chosen.prefix ≡ true
  pub unfit : All (λ q. has_prefix resource q.prefix ≡ false) before
  pub longest : All (λ q. length q.prefix ≤ length chosen.prefix) behind

Chosen-cons :
    (resource key : Bytes) (p : PrefixSsePair) (ps : List PrefixSsePair)
    → has_prefix resource p.prefix ≡ false
    → Chosen resource ps key
    → Chosen resource (p ∷ ps) key
Chosen-cons resource key p ps n c = record {
  before = p ∷ c.before;
  chosen = c.chosen;
  behind = c.behind;
  split = ap (◌∷◌ p) c.split;
  is_key = c.is_key;
  fits = c.fits;
  unfit = (n, c.unfit);
  longest = c.longest;
}

-- What is said of the key that is taken: that of an entry as above, or none where no entry fits.
abbrev pub Choice : Bytes → List PrefixSsePair → Option Bytes → Type 0
Choice resource ks none = All (λ q. has_prefix resource q.prefix ≡ false) ks
Choice resource ks (some key) = Chosen resource ks key

Choice-cons :
    (resource : Bytes) (p : PrefixSsePair) (ps : List PrefixSsePair) (found : Option Bytes)
    → has_prefix resource p.prefix ≡ false
    → Choice resource ps found
    → Choice resource (p ∷ ps) found
Choice-cons resource p ps none n c = (n, c)
Choice-cons resource p ps (some key) n c = Chosen-cons resource key p ps n c

-- Among entries with the longest prefixes in front, no key is taken only where no entry has a prefix
-- that fits; otherwise the key is that of an entry whose prefix fits, no entry in front of it fits, and
-- of the entries that fit none has a longer prefix.
pub get_sse-Choice :
    (resource : Bytes) (ks : List PrefixSsePair)
    → IsDescending ks
    → Choice resource ks (get_sse resource ks)
unfolding get_sse
get_sse-Choice resource [] d = tt
get_sse-Choice resource (p ∷ ps) (long, d) = elim (Bool-cases (has_prefix resource p.prefix)) [
  | inl t ↦ rw t (record {
    before = [];
    chosen = p;
    behind = ps;
    split = refl;
    is_key = refl;
    fits = t;
    unfit = tt;
    longest = long;
  })
  | inr n ↦ rw n (Choice-cons resource p ps (get_sse resource ps) n (get_sse-Choice resource ps d))
]
