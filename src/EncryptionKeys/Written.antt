-- ===== src/EncryptionKeys/Written.antt =====
-- Every row of entries is read by `parseEncryptionKeys` of cmd/utils.go.
use mathlib.Core.Path.{subst}
use oss_mc.Base.{
  ℕ, zero, suc, ◌≤◌, List, [], ◌∷◌, ◌++◌, some, ◌≡◌, ◌⊎◌, inl, inr, refl, sym, ap, ◌∙◌, arith,
  Bytes, Lacks, ok, length, length-append, take, drop, take-length, drop-length, append-nil,
}
use oss_mc.ClientUrl.{url2_alias}
use oss_mc.EncryptionKeys.{PrefixSsePair, KeyMap, add_pair, entry_before, read_entry, read_keys}
use oss_mc.EncryptionKeys.Reading.{
  Entries, no_more, entry, add_all, read_entry_at, step_ok, ReadAs, shorter,
}

read_one :
    (p : PrefixSsePair) (tail : Bytes)
    → Lacks b'=' p.prefix
    → length p.sse ≡ 32
    → read_entry (p.prefix ++ b'=' ∷ (p.sse ++ tail)) ≡ entry_before p.prefix p.sse tail
read_one p tail l k =
    let t : take 32 (p.sse ++ tail) ≡ p.sse =
      subst (λ n. take n (p.sse ++ tail) ≡ p.sse) k (take-length p.sse tail) in
    let d : drop 32 (p.sse ++ tail) ≡ tail =
      subst (λ n. drop n (p.sse ++ tail) ≡ tail) k (drop-length p.sse tail) in
    read_entry_at p.prefix (p.sse ++ tail) l
    ∙ rw (t, d) (ground (arith, k, length-append p.sse tail))

read_entry_complete :
    (text rest : Bytes) (p : PrefixSsePair)
    → Lacks b'=' p.prefix
    → length p.sse ≡ 32
    → ((text ≡ p.prefix ++ b'=' ∷ p.sse) × (rest ≡ []))
      ⊎ (text ≡ p.prefix ++ b'=' ∷ (p.sse ++ b',' ∷ rest))
    → read_entry text ≡ ok (p, rest)
read_entry_complete text rest p l k (inl (e, f)) =
    ap read_entry (e ∙ ap (λ (t : Bytes). p.prefix ++ b'=' ∷ t) (sym (append-nil p.sse)))
    ∙ read_one p [] l k
    ∙ (unfold entry_before in rw f refl)
read_entry_complete text rest p l k (inr e) =
    ap read_entry e ∙ read_one p (b',' ∷ rest) l k ∙ (unfold entry_before in refl)

step_entry :
    (fuel : ℕ) (m : KeyMap) (text rest : Bytes) (p : PrefixSsePair)
    → ReadAs text p rest
    → read_entry text ≡ ok (p, rest)
    → length text ≤ fuel
    → (less : ℕ) × (length rest ≤ less)
      × (read_keys fuel m text ≡ read_keys less (add_pair m (url2_alias p.prefix).0 p) rest)
step_entry fuel m [] rest p a h f = absurd (omega (arith, shorter a))
step_entry zero m (c ∷ text) rest p a h f = absurd (omega arith)
step_entry (suc fuel) m (c ∷ text) rest p a h f =
    (fuel, omega (arith, shorter a), step_ok fuel m c text h)

-- Every row of entries is read, with a round for each byte, and its entries are put in under their
-- aliases, in their order.
pub read_keys_complete :
    (fuel : ℕ) (m : KeyMap) {text : Bytes} {ps : List PrefixSsePair}
    → Entries text ps
    → length text ≤ fuel
    → read_keys fuel m text ≡ some (ok (add_all m ps))
read_keys_complete zero m no_more f = unfold read_keys in refl
read_keys_complete (suc fuel) m no_more f = unfold read_keys in refl
read_keys_complete fuel m (entry {text = text} {rest = rest} p l k e more) f =
    let a : ReadAs text p rest = record { lacks = l; key_length = k; spells = e } in
    let (less, enough, same) =
      step_entry fuel m text rest p a (read_entry_complete text rest p l k e) f in
    same ∙ read_keys_complete less (add_pair m (url2_alias p.prefix).0 p) more enough
