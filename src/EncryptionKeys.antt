-- ===== src/EncryptionKeys.antt =====
-- cmd/utils.go: the keys of server side encryption. `parseEncryptionKeys` reads a text of
-- `prefix=key` entries into a map from aliases to entries, and `getSSE` takes the first entry whose
-- prefix fits. A key is 32 bytes. The map is the list of its entries, in the order in which each
-- alias was first put in. `encrypt.NewSSEC` accepts every key of 32 bytes, which is all it is
-- given. The loop reads a position in the text: here it is what stands from that position on, and
-- its rounds are fuel, one for each byte. What it keeps under an alias is sorted at the end, the
-- longest prefixes first; `sort.Sort` is the parameter `sort_keys`.
pub mod Reading
pub mod Written
pub mod Choice
use oss_mc.Base.{
  ℕ, zero, suc, ◌+◌, Bool, true, false, not, ◌&&◌, List, [], ◌∷◌, ◌++◌, Option, none, some, Bytes,
  Fallible, ok, err, if◌then◌else◌, length, take, drop, ltb, ◌==◌,
}
use oss_mc.ClientUrl.{url2_alias}
use oss_mc.Strings.{equal, has_prefix, index, is_empty}

pub data KeyError : Type 0 where
  no_equals_sign key_too_short no_comma : KeyError

-- `prefixSSEPair`
pub record PrefixSsePair : Type 0 where
  pub prefix : Bytes
  pub sse : Bytes

abbrev pub KeyMap : Type 0
KeyMap = List (Bytes × List PrefixSsePair)

-- `encMap[alias] = append(encMap[alias], pair)`
unfoldable pub add_pair : KeyMap → Bytes → PrefixSsePair → KeyMap
add_pair [] alias pair = (alias, pair ∷ []) ∷ []
add_pair ((a, ps) ∷ m) alias pair =
    if equal a alias then (a, ps ++ pair ∷ []) ∷ m else (a, ps) ∷ add_pair m alias pair

-- `encMap[alias]`
unfoldable pub keys_of : KeyMap → Bytes → List PrefixSsePair
keys_of [] alias = []
keys_of ((a, ps) ∷ m) alias = if equal a alias then ps else keys_of m alias

-- the entry of a prefix and a key, by what stands behind the key
unfoldable pub entry_before : Bytes → Bytes → Bytes → Fallible KeyError (PrefixSsePair × Bytes)
entry_before prefix key [] = ok (record { prefix = prefix; sse = key }, [])
entry_before prefix key (c ∷ more) =
    if not (c == b',') then err no_comma else ok (record { prefix = prefix; sse = key }, more)

-- the entry at the head of the text, and what stands behind its comma
unfoldable pub read_entry : Bytes → Fallible KeyError (PrefixSsePair × Bytes)
read_entry text = elim (index text (b'=' ∷ [])) [
  | none ↦ err no_equals_sign
  | some i ↦
      let rest = drop (suc i) text in
      if ltb (length rest) 32
      then err key_too_short
      else entry_before (take i text) (take 32 rest) (drop 32 rest)
]

-- the loop: `none` says that it has not ended within its rounds
unfoldable pub read_keys : ℕ → KeyMap → Bytes → Option (Fallible KeyError KeyMap)
read_keys fuel m [] = some (ok m)
read_keys zero m (c ∷ text) = none
read_keys (suc fuel) m (c ∷ text) = elim (read_entry (c ∷ text)) [
  | err e ↦ some (err e)
  | ok (pair, more) ↦ read_keys fuel (add_pair m (url2_alias pair.prefix).0 pair) more
]

-- `getSSE`
unfoldable pub get_sse : Bytes → List PrefixSsePair → Option Bytes
get_sse resource [] = none
get_sse resource (k ∷ ks) = if has_prefix resource k.prefix then some k.sse else get_sse resource ks

-- `byPrefixLength.Less`
abbrev pub by_prefix_length : PrefixSsePair → PrefixSsePair → Bool
by_prefix_length p q = ltb (length q.prefix) (length p.prefix)

module _ (sort_keys : List PrefixSsePair → List PrefixSsePair) where
  unfoldable pub sort_all : KeyMap → KeyMap
  sort_all [] = []
  sort_all ((a, ps) ∷ m) = (a, sort_keys ps) ∷ sort_all m

  abbrev sorted : Option (Fallible KeyError KeyMap) → Option (Fallible KeyError KeyMap)
  sorted none = none
  sorted (some (err e)) = some (err e)
  sorted (some (ok m)) = some (ok (sort_all m))

  unfoldable pub parse_encryption_keys : Bytes → Option (Fallible KeyError KeyMap)
  parse_encryption_keys text = sorted (read_keys (length text) [] text)
