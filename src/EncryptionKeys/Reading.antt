-- ===== src/EncryptionKeys/Reading.antt =====
-- What `parseEncryptionKeys` of cmd/utils.go reads, and which key `getSSE` takes.
use mathlib.Core.Path.{subst}
use oss_mc.Base.{
  ℕ, zero, suc, ◌+◌, ◌≤◌, ◌<◌, true, List, [], ◌∷◌, ◌++◌, Option, none, some, ◌≡◌, ◌⊎◌, inl, inr,
  refl, sym, ap, ◌∙◌, arith, Bytes, Lacks, Fallible, ok, err, Fallible-cases, length, length-append,
  take, drop, take-length, take-append-drop, ltb, Bool-cases, if◌then◌else◌, drop_append,
  append-nil,
}
use oss_mc.ClientUrl.{url2_alias}
use oss_mc.EncryptionKeys.{
  PrefixSsePair, KeyMap, KeyError, key_too_short, add_pair, entry_before, read_entry, read_keys,
}
use oss_mc.Strings.Laws.{index_byte, index_byte_none, byte_cases}

-- The text is a row of entries `prefix=key`, a comma between two of them and perhaps one behind the
-- last: no prefix has an equals sign in it, and every key is 32 bytes.
pub data Entries : Bytes → List PrefixSsePair → Type 0 where
  no_more : Entries [] []
  entry :
      {text rest : Bytes} {ps : List PrefixSsePair} (p : PrefixSsePair)
      → Lacks b'=' p.prefix
      → length p.sse ≡ 32
      → ((text ≡ p.prefix ++ b'=' ∷ p.sse) × (rest ≡ []))
        ⊎ (text ≡ p.prefix ++ b'=' ∷ (p.sse ++ b',' ∷ rest))
      → Entries rest ps
      → Entries text (p ∷ ps)

-- The entries put into the map under their aliases, the first one first.
abbrev pub add_all : KeyMap → List PrefixSsePair → KeyMap
add_all m [] = m
add_all m (p ∷ ps) = add_all (add_pair m (url2_alias p.prefix).0 p) ps

-- An entry that was read.
pub record ReadAs (text : Bytes) (p : PrefixSsePair) (rest : Bytes) : Type 0 where
  pub lacks : Lacks b'=' p.prefix
  pub key_length : length p.sse ≡ 32
  pub spells :
      ((text ≡ p.prefix ++ b'=' ∷ p.sse) × (rest ≡ []))
      ⊎ (text ≡ p.prefix ++ b'=' ∷ (p.sse ++ b',' ∷ rest))

behind_sign : (a r : Bytes) → drop (suc (length a)) (a ++ b'=' ∷ r) ≡ r
behind_sign a r =
    let e : suc (length a) ≡ length a + 1 = omega arith in rw e (drop_append a (b'=' ∷ r) 1)

pub read_entry_at :
    (a r : Bytes)
    → Lacks b'=' a
    → read_entry (a ++ b'=' ∷ r)
      ≡ (if ltb (length r) 32 then err key_too_short else entry_before a (take 32 r) (drop 32 r))
unfolding read_entry
read_entry_at a r h =
    rw (index_byte a r b'=' h, read_entry) (rw (behind_sign a r, take-length a (b'=' ∷ r)) refl)

entry_before_as :
    (a key tail : Bytes) {p : PrefixSsePair} {rest : Bytes}
    → Lacks b'=' a
    → length key ≡ 32
    → entry_before a key tail ≡ ok (p, rest)
    → ReadAs (a ++ b'=' ∷ (key ++ tail)) p rest
unfolding entry_before
entry_before_as a key [] {p} {rest} l k h =
    let e : p.prefix ≡ a = ground arith in
    let f : p.sse ≡ key = ground arith in
    let g : rest ≡ [] = ground arith in
    record {
      lacks = subst (Lacks b'=') (sym e) l;
      key_length = ap length f ∙ k;
      spells = inl (rw (e, f, append-nil) refl, g);
    }
entry_before_as a key (c ∷ more) {p} {rest} l k h =
    let e : p.prefix ≡ a = ground arith in
    let f : p.sse ≡ key = ground arith in
    let g : rest ≡ more = ground arith in
    let comma : c ≡ b',' = ground arith in
    record {
      lacks = subst (Lacks b'=') (sym e) l;
      key_length = ap length f ∙ k;
      spells = inr (rw (e, f, g, comma) refl);
    }

length-take : (n : ℕ) (xs : Bytes) → n ≤ length xs → length (take n xs) ≡ n
length-take zero xs h = refl
length-take (suc n) [] h = absurd (omega arith)
length-take (suc n) (x ∷ xs) h = let e = length-take n xs (omega arith) in omega (arith, e)

read_entry_as :
    (text : Bytes) {p : PrefixSsePair} {rest : Bytes}
    → read_entry text ≡ ok (p, rest)
    → ReadAs text p rest
read_entry_as text {p} {rest} h = elim (byte_cases text b'=') [
  | inl l ↦ absurd (no_sign l)
  | inr (a, r, e, l) ↦
      let k = sym (read_entry_at a r l) ∙ ap read_entry (sym e) ∙ h in
      elim (Bool-cases (ltb (length r) 32)) [
        | inl t ↦ absurd (too_short a r t k)
        | inr n ↦
            subst (λ t. ReadAs t p rest) (ap (λ t. a ++ b'=' ∷ t) (take-append-drop 32 r) ∙ sym e)
              (entry_before_as a (take 32 r) (drop 32 r) l (length-take 32 r (ground arith))
                (ground arith))
      ]
]
  where
    no_sign : Lacks b'=' text → ⊥
    no_sign l = unfold read_entry in ground (arith, index_byte_none text b'=' l)

    too_short :
        (a r : Bytes)
        → ltb (length r) 32 ≡ true
        → (if ltb (length r) 32 then err key_too_short else entry_before a (take 32 r) (drop 32 r))
          ≡ ok (p, rest)
        → ⊥
    too_short a r t k = ground arith

pub shorter :
    {text rest : Bytes} {p : PrefixSsePair} → ReadAs text p rest → length rest < length text
shorter {text} {rest} {p} r = elim r.spells [
  | inl (e, f) ↦ omega (arith, ap length e, ap length f, length-append p.prefix (b'=' ∷ p.sse))
  | inr e ↦ omega (
    arith,
    ap length e,
    length-append p.prefix (b'=' ∷ (p.sse ++ b',' ∷ rest)),
    length-append p.sse (b',' ∷ rest),
  )
]

pub step_ok :
    (fuel : ℕ) (m : KeyMap) (c : ℕ) (text : Bytes) {p : PrefixSsePair} {rest : Bytes}
    → read_entry (c ∷ text) ≡ ok (p, rest)
    → read_keys (suc fuel) m (c ∷ text) ≡ read_keys fuel (add_pair m (url2_alias p.prefix).0 p) rest
unfolding read_keys
step_ok fuel m c text h = rw (h, read_keys) refl

step_err :
    (fuel : ℕ) (m : KeyMap) (c : ℕ) (text : Bytes) {e : KeyError}
    → read_entry (c ∷ text) ≡ err e
    → read_keys (suc fuel) m (c ∷ text) ≡ some (err e)
unfolding read_keys
step_err fuel m c text h = rw (h, read_keys) refl

-- The outcome of the loop: an error, or a map with the entries of the text in it.
abbrev pub Reads : KeyMap → Bytes → Option (Fallible KeyError KeyMap) → Type 0
Reads m text none = ⊥
Reads m text (some (err e)) = Unit {0}
Reads m text (some (ok r)) = (ps : List PrefixSsePair) × Entries text ps × (r ≡ add_all m ps)

Reads-cons :
    (m : KeyMap) (text rest : Bytes) (p : PrefixSsePair) (r : Option (Fallible KeyError KeyMap))
    → ReadAs text p rest
    → Reads (add_pair m (url2_alias p.prefix).0 p) rest r
    → Reads m text r
Reads-cons m text rest p none a h = h
Reads-cons m text rest p (some (err e)) a h = tt
Reads-cons m text rest p (some (ok r)) a (ps, more, e) =
    (p ∷ ps, entry p a.lacks a.key_length a.spells more, e)

-- With a round for each byte the loop over a text of keys ends, and it ends with an error or with
-- just the entries that the text spells, each put in under its alias, in their order.
pub read_keys-Reads :
    (fuel : ℕ) (m : KeyMap) (text : Bytes)
    → length text ≤ fuel
    → Reads m text (read_keys fuel m text)
read_keys-Reads fuel m [] f = unfold read_keys in ([], no_more, refl)
read_keys-Reads zero m (c ∷ text) f = absurd (omega arith)
read_keys-Reads (suc fuel) m (c ∷ text) f = elim (Fallible-cases (read_entry (c ∷ text))) [
  | inl (e, h) ↦ rw (step_err fuel m c text h) tt
  | inr ((p, rest), h) ↦
      let a = read_entry_as (c ∷ text) h in
      rw (step_ok fuel m c text h) (
        Reads-cons m (c ∷ text) rest p _ a (
          read_keys-Reads fuel (add_pair m (url2_alias p.prefix).0 p) rest
            (omega (arith, shorter a))))
]
