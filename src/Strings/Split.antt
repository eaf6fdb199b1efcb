-- ===== src/Strings/Split.antt =====
-- Laws of `split` and `split_once`: the parts put together again, and where the cut falls.
use oss_mc.Base.{
  ℕ, zero, suc, ◌-◌, true, false, List, [], ◌∷◌, ◌++◌, none, some, ◌≡◌, ◌≢◌, inl, inr, refl, sym,
  ap, ◌∙◌, arith, Bytes, length, drop, Lacks, Bool-cases,
}
use oss_mc.Strings.{has_prefix, split_skip, split, split_once, cons_head, contains, index}
use oss_mc.Strings.Laws.{append_of_has_prefix, has_prefix_self}

-- The parts with the separator between them.
abbrev pub join : Bytes → List Bytes → Bytes
join sep [] = []
join sep (p ∷ []) = p
join sep (p ∷ q ∷ ps) = p ++ (sep ++ join sep (q ∷ ps))

join-cons_head :
    (sep : Bytes) (c : ℕ) (ps : List Bytes) → join sep (cons_head c ps) ≡ c ∷ join sep ps
unfolding cons_head
join-cons_head sep c [] = refl
join-cons_head sep c (p ∷ []) = refl
join-cons_head sep c (p ∷ q ∷ ps) = refl

cons_head-ne-nil : (c : ℕ) (ps : List Bytes) → cons_head c ps ≢ []
unfolding cons_head
cons_head-ne-nil c [] e = cc
cons_head-ne-nil c (p ∷ ps) e = cc

split_skip_found :
    (c : ℕ) (s sep : Bytes)
    → has_prefix (c ∷ s) sep ≡ true
    → split_skip zero (c ∷ s) sep ≡ [] ∷ split_skip (length sep - 1) s sep
unfolding split_skip
split_skip_found c s sep h = ground arith

split_skip_missing :
    (c : ℕ) (s sep : Bytes)
    → has_prefix (c ∷ s) sep ≡ false
    → split_skip zero (c ∷ s) sep ≡ cons_head c (split_skip zero s sep)
unfolding split_skip
split_skip_missing c s sep h = ground arith

split_skip-ne-nil : (k : ℕ) (s sep : Bytes) → split_skip k s sep ≢ []
split_skip-ne-nil zero [] sep = unfold split_skip in λ e. cc
split_skip-ne-nil (suc k) [] sep = unfold split_skip in λ e. cc
split_skip-ne-nil (suc k) (c ∷ s) sep = λ e. split_skip-ne-nil k s sep (skipped ∙ e)
  where
    skipped : split_skip k s sep ≡ split_skip (suc k) (c ∷ s) sep
    skipped = unfold split_skip in refl
split_skip-ne-nil zero (c ∷ s) sep = elim (Bool-cases (has_prefix (c ∷ s) sep)) [
  | inl t ↦ rw (split_skip_found c s sep t) (λ e. cc)
  | inr f ↦ rw (split_skip_missing c s sep f) (cons_head-ne-nil c _)
]

join_nil : (sep : Bytes) (ps : List Bytes) → ps ≢ [] → join sep ([] ∷ ps) ≡ sep ++ join sep ps
join_nil sep [] h = absurd (h refl)
join_nil sep (p ∷ ps) h = refl

found_back :
    {b : ℕ} (c : ℕ) (s t : Bytes)
    → has_prefix (c ∷ s) (b ∷ t) ≡ true
    → (b ∷ t) ++ drop (length (b ∷ t) - 1) s ≡ c ∷ s
found_back {b} c s t found =
    let e : suc (length t) - 1 ≡ length t = omega arith in
    rw e (sym (append_of_has_prefix (c ∷ s) (b ∷ t) found))

join-split_skip :
    (b : ℕ) (t : Bytes) (k : ℕ) (s : Bytes) → join (b ∷ t) (split_skip k s (b ∷ t)) ≡ drop k s
unfolding split_skip
join-split_skip b t zero [] = refl
join-split_skip b t (suc k) [] = refl
join-split_skip b t (suc k) (c ∷ s) = join-split_skip b t k s
join-split_skip b t zero (c ∷ s) = elim (Bool-cases (has_prefix (c ∷ s) (b ∷ t))) [
  | inl found ↦
      ap (join (b ∷ t)) (split_skip_found c s (b ∷ t) found)
      ∙ join_nil (b ∷ t) _ (split_skip-ne-nil _ s (b ∷ t))
      ∙ ap (λ (r : Bytes). (b ∷ t) ++ r) (join-split_skip b t (length (b ∷ t) - 1) s)
      ∙ found_back c s t found
  | inr missing ↦
      ap (join (b ∷ t)) (split_skip_missing c s (b ∷ t) missing)
      ∙ join-cons_head (b ∷ t) c (split_skip zero s (b ∷ t))
      ∙ ap (◌∷◌ c) (join-split_skip b t zero s)
]

-- Joining the parts gives the text back.
pub join-split : (b : ℕ) (t s : Bytes) → join (b ∷ t) (split s (b ∷ t)) ≡ s
unfolding split
join-split b t s = join-split_skip b t zero s

-- A text of which no byte begins the separator is one part.
pub split-Lacks : (b : ℕ) (t a : Bytes) → Lacks b a → split a (b ∷ t) ≡ a ∷ []
unfolding split split_skip
split-Lacks b t [] h = refl
split-Lacks b t (c ∷ a) h = ground (arith, split-Lacks b t a)

-- A text in which the separator does not stand is one part.
pub split_missing : (s sep : Bytes) → contains s sep ≡ false → split s sep ≡ s ∷ []
unfolding split split_skip contains index
split_missing [] sep h = refl
split_missing (c ∷ s) sep h = ground (arith, split_missing s sep)

skip_over : (t rest sep : Bytes) → split_skip (length t) (t ++ rest) sep ≡ split_skip zero rest sep
unfolding split_skip
skip_over [] rest sep = refl
skip_over (c ∷ t) rest sep = skip_over t rest sep

-- The first part ends at the first separator.
pub split_lead :
    (b : ℕ) (t a rest : Bytes)
    → Lacks b a
    → split (a ++ (b ∷ t ++ rest)) (b ∷ t) ≡ a ∷ split rest (b ∷ t)
unfolding split split_skip
split_lead b t [] rest h = ground (arith, has_prefix_self t rest, skip_over t rest (b ∷ t))
split_lead b t (c ∷ a) rest h = ground (arith, split_lead b t a rest)

pub split_once-Lacks : (b : ℕ) (a : Bytes) → Lacks b a → split_once a b ≡ (a, none)
unfolding split_once
split_once-Lacks b [] h = refl
split_once-Lacks b (c ∷ a) h = ground (arith, split_once-Lacks b a)

pub split_once_lead :
    (b : ℕ) (a rest : Bytes) → Lacks b a → split_once (a ++ b ∷ rest) b ≡ (a, some rest)
unfolding split_once
split_once_lead b [] rest h = ground arith
split_once_lead b (c ∷ a) rest h = ground (arith, split_once_lead b a rest)
