-- ===== src/Difference/Merge.antt =====
-- The merge of two listings by their keys, as a recursion on the listings, and what it says of them
-- when both are in ascending order: which objects stand in one only, and which in both.
use oss_mc.Base.{
  true, false, not, List, [], ◌∷◌, ◌++◌, Option, none, some, ◌≡◌, refl, sym, ap, ◌∙◌, arith, Bytes,
  if◌then◌else◌, All, keep,
}
use oss_mc.Content.{ClientContent}
use oss_mc.Difference.{DiffMessage, differ_in_first, differ_in_second, only_first, only_second}
use oss_mc.Difference.Keys.{
  IsAscending, has_key, not-has_key-above, All-above, skip_low, below, same, above, compared,
  keep_one, drop_one,
}
use oss_mc.Strings.Laws.{equal_iff, less_irrefl}
use oss_mc.Strings.{equal, less}

abbrev pub push : Option ClientContent → List ClientContent → List ClientContent
push none cs = cs
push (some c) cs = c ∷ cs

-- The objects of which the messages say that they are only in the first listing, in order.
unfoldable pub firsts : List DiffMessage → List ClientContent
firsts [] = []
firsts (m ∷ ms) = elim m.diff [ differ_in_first ↦ push m.first_content (firsts ms) | _ ↦ firsts ms ]

-- The same for the second listing.
unfoldable pub seconds : List DiffMessage → List ClientContent
seconds [] = []
seconds (m ∷ ms) = elim m.diff [
  | differ_in_second ↦ push m.second_content (seconds ms)
  | _ ↦ seconds ms
]

-- The messages about objects of both listings.
unfoldable pub about_both : List DiffMessage → List DiffMessage
about_both [] = []
about_both (m ∷ ms) = elim m.diff [
  | differ_in_first ↦ about_both ms
  | differ_in_second ↦ about_both ms
  | _ ↦ m ∷ about_both ms
]

-- No message says that an object stands in one listing only.
abbrev pub AboutBoth : List DiffMessage → Type 0
AboutBoth ms = (firsts ms ≡ []) × (seconds ms ≡ []) × (about_both ms ≡ ms)

pub firsts-append : (ms ns : List DiffMessage) → firsts (ms ++ ns) ≡ firsts ms ++ firsts ns
unfolding firsts
firsts-append [] ns = refl
firsts-append (m ∷ ms) ns = ground (arith, firsts-append ms ns)

pub seconds-append : (ms ns : List DiffMessage) → seconds (ms ++ ns) ≡ seconds ms ++ seconds ns
unfolding seconds
seconds-append [] ns = refl
seconds-append (m ∷ ms) ns = ground (arith, seconds-append ms ns)

pub about_both-append :
    (ms ns : List DiffMessage) → about_both (ms ++ ns) ≡ about_both ms ++ about_both ns
unfolding about_both
about_both-append [] ns = refl
about_both-append (m ∷ ms) ns = ground (arith, about_both-append ms ns)

module _ (key_s key_t : ClientContent → Bytes)
    (pair : ClientContent → ClientContent → List DiffMessage) where
  unfoldable pub merge : List ClientContent → List ClientContent → List DiffMessage
  merge [] [] = []
  merge [] (t ∷ ts) = only_second t ∷ merge [] ts
  merge (s ∷ ss) [] = only_first s ∷ merge ss []
  merge (s ∷ ss) (t ∷ ts) = elim (less (key_s s) (key_t t)) [
    | true ↦ only_first s ∷ merge ss (t ∷ ts)
    | false ↦ elim (equal (key_t t) (key_s s)) [
      | true ↦ pair s t ++ merge ss ts
      | false ↦ only_second t ∷ merge (s ∷ ss) ts
    ]
  ]

  -- The element of the second listing with this key.
  abbrev pub find_key : Bytes → List ClientContent → Option ClientContent
  find_key k [] = none
  find_key k (t ∷ ts) = if equal (key_t t) k then some t else find_key k ts

  -- The messages about each object of the first listing that the second has too.
  abbrev pub matched : List ClientContent → List ClientContent → List DiffMessage
  matched [] tgt = []
  matched (s ∷ ss) tgt = elim (find_key (key_s s) tgt) [
    | some t ↦ pair s t ++ matched ss tgt
    | none ↦ matched ss tgt
  ]

module _ (key_s key_t : ClientContent → Bytes)
    (pair : ClientContent → ClientContent → List DiffMessage)
    (both : (s t : ClientContent) → AboutBoth (pair s t)) where
  abbrev united : List ClientContent → List ClientContent → List DiffMessage
  united = merge key_s key_t pair

  united_below :
      (s t : ClientContent) (ss ts : List ClientContent)
      → less (key_s s) (key_t t) ≡ true
      → united (s ∷ ss) (t ∷ ts) ≡ only_first s ∷ united ss (t ∷ ts)
  unfolding merge
  united_below s t ss ts h = ground arith

  united_same :
      (s t : ClientContent) (ss ts : List ClientContent)
      → less (key_s s) (key_t t) ≡ false
      → equal (key_t t) (key_s s) ≡ true
      → united (s ∷ ss) (t ∷ ts) ≡ pair s t ++ united ss ts
  unfolding merge
  united_same s t ss ts h e = ground arith

  united_above :
      (s t : ClientContent) (ss ts : List ClientContent)
      → less (key_s s) (key_t t) ≡ false
      → equal (key_t t) (key_s s) ≡ false
      → united (s ∷ ss) (t ∷ ts) ≡ only_second t ∷ united (s ∷ ss) ts
  unfolding merge
  united_above s t ss ts h e = ground arith

  firsts-pair : (s t : ClientContent) (ms : List DiffMessage) → firsts (pair s t ++ ms) ≡ firsts ms
  firsts-pair s t ms = firsts-append (pair s t) ms ∙ rw ((both s t).0)

  seconds-pair :
      (s t : ClientContent) (ms : List DiffMessage) → seconds (pair s t ++ ms) ≡ seconds ms
  seconds-pair s t ms = seconds-append (pair s t) ms ∙ rw ((both s t).1)

  about_both-pair :
      (s t : ClientContent) (ms : List DiffMessage)
      → about_both (pair s t ++ ms) ≡ pair s t ++ about_both ms
  about_both-pair s t ms = about_both-append (pair s t) ms ∙ rw ((both s t).2)

  -- The first listing's objects that have no counterpart.
  pub merge-firsts :
      (src tgt : List ClientContent)
      → IsAscending key_s src
      → IsAscending key_t tgt
      → firsts (united src tgt) ≡ keep (λ s. not (has_key key_t (key_s s) tgt)) src
  unfolding merge firsts
  merge-firsts [] [] a b = refl
  merge-firsts [] (t ∷ ts) a (b, bs) = merge-firsts [] ts tt bs
  merge-firsts (s ∷ ss) [] (a, rest) b = ap (◌∷◌ s) (merge-firsts ss [] rest tt)
  merge-firsts (s ∷ ss) (t ∷ ts) (a, rest) (b, bs) =
      let p = λ (x : ClientContent). not (has_key key_t (key_s x) (t ∷ ts)) in
      let lt = merge-firsts ss (t ∷ ts) rest (b, bs) in
      let eq = merge-firsts ss ts rest bs in
      let gt = merge-firsts (s ∷ ss) ts (a, rest) bs in
      elim (compared (key_s s) (key_t t)) [
        | below h ↦
            ap firsts (united_below s t ss ts h)
            ∙ ap (◌∷◌ s) lt
            ∙ sym (
                keep_one p s ss (
                  ap not (
                    not-has_key-above key_t (key_s s) (t ∷ ts)
                      (h, All-above key_t (key_s s) (key_t t) ts h b))))
        | same e h k ↦
            ap firsts (united_same s t ss ts h k)
            ∙ firsts-pair s t (united ss ts)
            ∙ eq
            ∙ skip_low key_s key_t t ts ss (rw e a)
            ∙ sym (drop_one p s ss (ground arith))
        | above g h k ↦
            ap firsts (united_above s t ss ts h k)
            ∙ gt
            ∙ skip_low key_s key_t t ts (s ∷ ss) (g, All-above key_s (key_t t) (key_s s) ss g a)
      ]

  -- The second listing's objects that have no counterpart.
  pub merge-seconds :
      (src tgt : List ClientContent)
      → IsAscending key_s src
      → IsAscending key_t tgt
      → seconds (united src tgt) ≡ keep (λ t. not (has_key key_s (key_t t) src)) tgt
  unfolding merge seconds
  merge-seconds [] [] a b = refl
  merge-seconds [] (t ∷ ts) a (b, bs) = ap (◌∷◌ t) (merge-seconds [] ts tt bs)
  merge-seconds (s ∷ ss) [] (a, rest) b = merge-seconds ss [] rest tt
  merge-seconds (s ∷ ss) (t ∷ ts) (a, rest) (b, bs) =
      let p = λ (x : ClientContent). not (has_key key_s (key_t x) (s ∷ ss)) in
      let lt = merge-seconds ss (t ∷ ts) rest (b, bs) in
      let eq = merge-seconds ss ts rest bs in
      let gt = merge-seconds (s ∷ ss) ts (a, rest) bs in
      elim (compared (key_s s) (key_t t)) [
        | below h ↦
            ap seconds (united_below s t ss ts h)
            ∙ lt
            ∙ skip_low key_t key_s s ss (t ∷ ts) (h, All-above key_t (key_s s) (key_t t) ts h b)
        | same e h k ↦
            ap seconds (united_same s t ss ts h k)
            ∙ seconds-pair s t (united ss ts)
            ∙ eq
            ∙ skip_low key_t key_s s ss ts (rw e at b)
            ∙ sym (drop_one p t ts (ground (arith, equal_iff (key_s s) (key_t t))))
        | above g h k ↦
            ap seconds (united_above s t ss ts h k)
            ∙ ap (◌∷◌ t) gt
            ∙ sym (
                keep_one p t ts (
                  ap not (
                    not-has_key-above key_s (key_t t) (s ∷ ss)
                      (g, All-above key_s (key_t t) (key_s s) ss g a))))
      ]

  no_partner :
      (k : Bytes) (ts : List ClientContent)
      → has_key key_t k ts ≡ false
      → find_key key_s key_t pair k ts ≡ none
  no_partner k [] h = refl
  no_partner k (t ∷ ts) h = ground (arith, no_partner k ts)

  matched_low :
      (t : ClientContent) (ts xs : List ClientContent)
      → All (λ x. less (key_t t) (key_s x) ≡ true) xs
      → matched key_s key_t pair xs ts ≡ matched key_s key_t pair xs (t ∷ ts)
  matched_low t ts [] h = refl
  matched_low t ts (x ∷ xs) (h, hs) =
      ground (arith, matched_low t ts xs hs, equal_iff (key_t t) (key_s x), less_irrefl (key_s x))

  matched_none :
      (s : ClientContent) (ss ts : List ClientContent)
      → has_key key_t (key_s s) ts ≡ false
      → matched key_s key_t pair (s ∷ ss) ts ≡ matched key_s key_t pair ss ts
  matched_none s ss ts h = ground (arith, no_partner (key_s s) ts h)

  matched_same :
      (s t : ClientContent) (ss ts : List ClientContent)
      → equal (key_t t) (key_s s) ≡ true
      → matched key_s key_t pair (s ∷ ss) (t ∷ ts)
        ≡ pair s t ++ matched key_s key_t pair ss (t ∷ ts)
  matched_same s t ss ts h = ground arith

  -- The messages about the objects of both.
  pub merge-about_both :
      (src tgt : List ClientContent)
      → IsAscending key_s src
      → IsAscending key_t tgt
      → about_both (united src tgt) ≡ matched key_s key_t pair src tgt
  unfolding merge about_both
  merge-about_both [] [] a b = refl
  merge-about_both [] (t ∷ ts) a (b, bs) = merge-about_both [] ts tt bs
  merge-about_both (s ∷ ss) [] (a, rest) b = merge-about_both ss [] rest tt
  merge-about_both (s ∷ ss) (t ∷ ts) (a, rest) (b, bs) =
      let lt = merge-about_both ss (t ∷ ts) rest (b, bs) in
      let eq = merge-about_both ss ts rest bs in
      let gt = merge-about_both (s ∷ ss) ts (a, rest) bs in
      elim (compared (key_s s) (key_t t)) [
        | below h ↦
            ap about_both (united_below s t ss ts h)
            ∙ lt
            ∙ sym (
                matched_none s ss (t ∷ ts) (
                  not-has_key-above key_t (key_s s) (t ∷ ts)
                    (h, All-above key_t (key_s s) (key_t t) ts h b)))
        | same e h k ↦
            ap about_both (united_same s t ss ts h k)
            ∙ about_both-pair s t (united ss ts)
            ∙ ap (λ (r : List DiffMessage). pair s t ++ r) (eq ∙ matched_low t ts ss (rw e a))
            ∙ sym (matched_same s t ss ts k)
        | above g h k ↦
            ap about_both (united_above s t ss ts h k)
            ∙ gt
            ∙ matched_low t ts (s ∷ ss) (g, All-above key_s (key_t t) (key_s s) ss g a)
      ]
