-- ===== src/ArgKvs.antt =====
-- cmd/arg-kvs.go: a list of keys and values. `set_value` changes the list in place and returns it.
use oss_mc.Base.{
  List, [], ◌∷◌, Option, none, some, ◌≡◌, ◌≢◌, refl, arith, Bytes, if◌then◌else◌, ◌++◌, some_of,
}
use oss_mc.Strings.{equal}
use oss_mc.Strings.Laws.{equal_iff, equal_refl, ne_equal}

pub record ArgKv : Type 0 where
  pub key : Bytes
  pub value : Bytes

unfoldable pub set_value : List ArgKv → Bytes → Bytes → List ArgKv
set_value [] key value = record { key = key; value = value } ∷ []
set_value (kv ∷ kvs) key value =
    let rest = set_value kvs key value in
    if equal kv.key key then record { key = key; value = value } ∷ kvs else kv ∷ rest

unfoldable pub lookup_value : List ArgKv → Bytes → Option Bytes
lookup_value [] key = none
lookup_value (kv ∷ kvs) key =
    let rest = lookup_value kvs key in if equal kv.key key then some kv.value else rest

unfoldable pub get_value : List ArgKv → Bytes → Bytes
get_value kvs key = elim (lookup_value kvs key) [ some v ↦ v | none ↦ [] ]

-- The keys, in order.
abbrev pub keys : List ArgKv → List Bytes
keys [] = []
keys (kv ∷ kvs) = kv.key ∷ keys kvs

lookup_set_same :
    (kvs : List ArgKv) (key value : Bytes) → lookup_value (set_value kvs key value) key ≡ some value
unfolding lookup_value set_value
lookup_set_same [] key value = rw (equal_refl key) refl
lookup_set_same (kv ∷ kvs) key value = ground (arith, lookup_set_same kvs key value, equal_refl key)

lookup_set_other :
    (kvs : List ArgKv) (key value other : Bytes)
    → other ≢ key
    → lookup_value (set_value kvs key value) other ≡ lookup_value kvs other
unfolding lookup_value set_value
lookup_set_other [] key value other n = rw (ne_equal key other (λ e. n (cc e))) refl
lookup_set_other (kv ∷ kvs) key value other n = ground (
  arith,
  lookup_set_other kvs key value other n,
  equal_iff kv.key key,
  equal_iff kv.key other,
  equal_iff key other,
)

keys_set :
    (kvs : List ArgKv) (key value : Bytes)
    → keys (set_value kvs key value)
      ≡ (if some_of (λ k. equal k key) (keys kvs) then keys kvs else keys kvs ++ key ∷ [])
unfolding set_value
keys_set [] key value = refl
keys_set (kv ∷ kvs) key value = ground (arith, keys_set kvs key value, equal_iff kv.key key)

-- After a key is set, it is found with the new value and every other key as before; the keys keep
-- their places, and a new key is put at the end.
set_value_lem :
    (kvs : List ArgKv) (key value other : Bytes)
    → other ≢ key
    → (lookup_value (set_value kvs key value) key ≡ some value)
      × ((lookup_value (set_value kvs key value) other ≡ lookup_value kvs other)
          × (keys (set_value kvs key value)
              ≡ (if some_of (λ k. equal k key) (keys kvs) then keys kvs else keys kvs ++ key ∷ [])))
set_value_lem kvs key value other n = (
  lookup_set_same kvs key value,
  (lookup_set_other kvs key value other n, keys_set kvs key value),
)
