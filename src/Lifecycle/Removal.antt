-- ===== src/Lifecycle/Removal.antt =====
-- `RemoveILMRule` of cmd/ilm/options.go: the rules that stay are moved to the front of their own
-- slice while it is read, and the slice is then cut.
use oss_mc.Base.{
  ℕ, zero, suc, ◌+◌, ◌<◌, ◌≤◌, some_of, Bool, true, false, not, List, [], ◌∷◌, ◌++◌, Option, none,
  some, ◌≡◌, ◌≢◌, ◌⊎◌, inl, inr, refl, sym, ap, ◌∙◌, arith, Bytes, Fallible, ok, err, length,
  length-append, get_elem?, take, take-length, keep, ◌==◌, if◌then◌else◌, append_assoc, append-nil,
  Bool-cases,
}
use oss_mc.Lifecycle.{Rule}
use oss_mc.Strings.{equal}

pub data RuleError : Type 0 where
  not_set : RuleError
  rule_not_found : Bytes → RuleError

-- `a[n] = x`
abbrev pub set_elem {ℓ} : {A : Type ℓ} → ℕ → A → List A → List A
set_elem n x [] = []
set_elem zero x (y ∷ ys) = x ∷ ys
set_elem (suc n) x (y ∷ ys) = y ∷ set_elem n x ys

-- The loop, with `k` rules still to be read from the place `i` on: the number of rules kept, and
-- the slice.
unfoldable pub compact : Bytes → ℕ → ℕ → ℕ → List Rule → ℕ × List Rule
compact id zero i n rules = (n, rules)
compact id (suc k) i n rules = elim (get_elem? rules i) [
  | none ↦ (n, rules)
  | some rule ↦ elim (not (equal rule.id id)) [
    | true ↦ compact id k (suc i) (suc n) (set_elem n rule rules)
    | false ↦ compact id k (suc i) n rules
  ]
]

-- what stands behind the loop
unfoldable pub cut_rules : Bytes → ℕ → ℕ × List Rule → Fallible RuleError (List Rule)
cut_rules id len (n, rules) = if n == len then err (rule_not_found id) else ok (take n rules)

unfoldable pub remove_ilm_rule : Option (List Rule) → Bytes → Fallible RuleError (List Rule)
remove_ilm_rule none id = err not_set
remove_ilm_rule (some []) id = err not_set
remove_ilm_rule (some (r ∷ rs)) id =
    cut_rules id (length (r ∷ rs)) (compact id (length (r ∷ rs)) 0 0 (r ∷ rs))

-- The rules that stay.
abbrev pub others : Bytes → List Rule → List Rule
others id = keep (λ r. not (equal r.id id))

get_elem-append :
    (xs : List Rule) (y : Rule) (ys : List Rule) → get_elem? (xs ++ y ∷ ys) (length xs) ≡ some y
get_elem-append [] y ys = refl
get_elem-append (x ∷ xs) y ys = get_elem-append xs y ys

set_elem-append :
    (xs : List Rule) (y z : Rule) (ys : List Rule)
    → set_elem (length xs) z (xs ++ y ∷ ys) ≡ xs ++ z ∷ ys
set_elem-append [] y z ys = refl
set_elem-append (x ∷ xs) y z ys = ap (◌∷◌ x) (set_elem-append xs y z ys)

-- Writing behind what was kept, in front of what is still to be read.
record Moved (kept stale : List Rule) (r : Rule) (rest : List Rule) : Type 0 where
  old : List Rule
  moved : set_elem (length kept) r (kept ++ (stale ++ r ∷ rest)) ≡ (kept ++ r ∷ []) ++ (old ++ rest)
  as_long : length old ≡ length stale

moved : (kept stale : List Rule) (r : Rule) (rest : List Rule) → Moved kept stale r rest
moved kept [] r rest = record {
  old = [];
  moved = set_elem-append kept r r rest ∙ sym (append_assoc kept (r ∷ []) rest);
  as_long = refl;
}
moved kept (s ∷ stale) r rest = record {
  old = stale ++ r ∷ [];
  moved =
      set_elem-append kept s r (stale ++ r ∷ rest)
      ∙ ap (λ t. kept ++ r ∷ t) (sym (append_assoc stale (r ∷ []) rest))
      ∙ sym (append_assoc kept (r ∷ []) ((stale ++ r ∷ []) ++ rest));
  as_long = omega (arith, length-append stale (r ∷ []));
}

-- The loop has kept these rules, in front of something stale.
record Compacted (id : Bytes) (kept rest : List Rule) (r : ℕ × List Rule) : Type 0 where
  tail : List Rule
  count : r.0 ≡ length (kept ++ others id rest)
  array : r.1 ≡ (kept ++ others id rest) ++ tail

at_place :
    (kept stale : List Rule) (x : Rule) (rest : List Rule) (i : ℕ) (rules : List Rule)
    → i ≡ length kept + length stale
    → rules ≡ kept ++ (stale ++ x ∷ rest)
    → get_elem? rules i ≡ some x
at_place kept stale x rest i rules e f =
    let j : i ≡ length (kept ++ stale) = omega (arith, length-append kept stale) in
    rw (j, f)
      (rw (sym (append_assoc kept stale (x ∷ rest))) (get_elem-append (kept ++ stale) x rest))

step_kept :
    (id : Bytes) (k i n : ℕ) (rules : List Rule) (x : Rule)
    → get_elem? rules i ≡ some x
    → equal x.id id ≡ false
    → compact id (suc k) i n rules ≡ compact id k (suc i) (suc n) (set_elem n x rules)
unfolding compact
step_kept id k i n rules x h f = rw (h, compact) (rw (f, compact) refl)

step_dropped :
    (id : Bytes) (k i n : ℕ) (rules : List Rule) (x : Rule)
    → get_elem? rules i ≡ some x
    → equal x.id id ≡ true
    → compact id (suc k) i n rules ≡ compact id k (suc i) n rules
unfolding compact
step_dropped id k i n rules x h t = rw (h, compact) (rw (t, compact) refl)

others-kept :
    (id : Bytes) (kept : List Rule) (x : Rule) (rest : List Rule)
    → equal x.id id ≡ false
    → kept ++ others id (x ∷ rest) ≡ (kept ++ x ∷ []) ++ others id rest
others-kept id kept x rest o =
    ap (λ (u : List Rule). kept ++ u) (ground arith)
    ∙ sym (append_assoc kept (x ∷ []) (others id rest))

compact-Compacted :
    (id : Bytes) (rest kept stale : List Rule) (i n : ℕ) (rules : List Rule)
    → i ≡ length kept + length stale
    → n ≡ length kept
    → rules ≡ kept ++ (stale ++ rest)
    → Compacted id kept rest (compact id (length rest) i n rules)
compact-Compacted id [] kept stale i n rules e f g =
    unfold compact in
    record {
      tail = stale;
      count = f ∙ ap length (sym (append-nil kept));
      array =
          g
          ∙ ap (λ (t : List Rule). kept ++ t) (append-nil stale)
          ∙ ap (λ (t : List Rule). t ++ stale) (sym (append-nil kept));
    }
compact-Compacted id (x ∷ rest) kept stale i n rules e f g =
    let here = at_place kept stale x rest i rules e g in
    elim (Bool-cases (equal x.id id)) [
      | inl t ↦
          let c =
            compact-Compacted id rest kept (stale ++ x ∷ []) (suc i) n rules
              (omega (arith, e, length-append stale (x ∷ []))) f
              (g ∙ ap (λ (u : List Rule). kept ++ u) (sym (append_assoc stale (x ∷ []) rest))) in
          rw (step_dropped id (length rest) i n rules x here t) (record {
            tail = c.tail;
            count = ground (arith, c.count);
            array = ground (arith, c.array);
          })
      | inr o ↦
          let m = moved kept stale x rest in
          let c =
            compact-Compacted id rest (kept ++ x ∷ []) m.old (suc i) (suc n) (set_elem n x rules)
              (omega (arith, e, m.as_long, length-append kept (x ∷ [])))
              (omega (arith, f, length-append kept (x ∷ [])))
              (ap (λ (u : List Rule). set_elem n x u) g
                ∙ ap (λ (u : ℕ). set_elem u x (kept ++ (stale ++ x ∷ rest))) f
                ∙ m.moved) in
          rw (step_kept id (length rest) i n rules x here o) (record {
            tail = c.tail;
            count = c.count ∙ ap length (sym (others-kept id kept x rest o));
            array =
                c.array ∙ ap (λ (u : List Rule). u ++ c.tail) (sym (others-kept id kept x rest o));
          })
    ]

-- Some rule has this id.
abbrev pub has_rule : Bytes → List Rule → Bool
has_rule id = some_of (λ r. equal r.id id)

others_all : (id : Bytes) (rules : List Rule) → has_rule id rules ≡ false → others id rules ≡ rules
others_all id [] h = refl
others_all id (r ∷ rs) h = ground (arith, others_all id rs)

others_le : (id : Bytes) (rules : List Rule) → length (others id rules) ≤ length rules
others_le id [] = omega arith
others_le id (r ∷ rs) = ground (arith, others_le id rs)

others_fewer :
    (id : Bytes) (rules : List Rule)
    → has_rule id rules ≡ true
    → length (others id rules) < length rules
others_fewer id [] h = cc
others_fewer id (r ∷ rs) h = ground (arith, others_fewer id rs, others_le id rs)

cut_as :
    (id : Bytes) (len : ℕ) (rules : List Rule) (r : ℕ × List Rule)
    → Compacted id [] rules r
    → cut_rules id len r
      ≡ (if length (others id rules) == len then err (rule_not_found id) else ok (others id rules))
unfolding cut_rules
cut_as id len rules r c = rw (c.count, c.array, take-length) refl

removed_as :
    (r : Rule) (rs : List Rule) (id : Bytes)
    → remove_ilm_rule (some (r ∷ rs)) id ≡ (
        if length (others id (r ∷ rs)) == length (r ∷ rs)
        then err (rule_not_found id)
        else ok (others id (r ∷ rs)))
unfolding remove_ilm_rule
removed_as r rs id =
    cut_as id (length (r ∷ rs)) (r ∷ rs) _
      (compact-Compacted id (r ∷ rs) [] [] 0 0 (r ∷ rs) (omega arith) refl refl)

-- If some rule has the id, just the rules with another id stay, in their order; otherwise, and only
-- then, the rule is reported as not found.
pub remove_ilm_rule_lem :
    (rules : List Rule) (id : Bytes)
    → rules ≢ []
    → ((has_rule id rules ≡ true) × (remove_ilm_rule (some rules) id ≡ ok (others id rules)))
      ⊎ ((has_rule id rules ≡ false) × (remove_ilm_rule (some rules) id ≡ err (rule_not_found id)))
remove_ilm_rule_lem [] id n = absurd (n refl)
remove_ilm_rule_lem (r ∷ rs) id n = elim (Bool-cases (has_rule id (r ∷ rs))) [
  | inl t ↦ inl (t, removed_as r rs id ∙ ground (arith, others_fewer id (r ∷ rs) t))
  | inr f ↦ inr (f, removed_as r rs id ∙ ground (arith, ap length (others_all id (r ∷ rs) f)))
]
