-- ===== src/Difference/Stuck.antt =====
-- Where the loop of `differenceInternal` does not advance.
use oss_mc.Base.{
  ℕ, zero, suc, Bool, true, List, [], ◌∷◌, Option, none, ◌≡◌, refl, ap, ◌∙◌, arith, Bytes,
}
use oss_mc.Content.{ClientContent}
use oss_mc.Difference.Walk.{step, walk_sends}
use oss_mc.Difference.{
  in_both, differ_in_type, sends, type_differs, compare_heads, next_round, diff_step,
  difference_internal, sent_before, source_suffix, target_suffix, source_key, target_key,
}
use oss_mc.Strings.Laws.{less_irrefl, equal_refl}
use oss_mc.Strings.Utf8.{valid_string}

module _ (nfc : Bytes → Bytes) (parse_time : Bytes → Option ℕ) (source_url target_url : Bytes)
    (cmp_metadata return_similar : Bool) (s t : ClientContent) (ss ts : List ClientContent) where
  -- A regular file and something else under one name stand at the head of the two listings.
  pub record TypesClash : Type 0 where
    pub source_ok : s.err ≡ none
    pub target_ok : t.err ≡ none
    pub source_valid :
        valid_string
          (source_suffix nfc parse_time source_url target_url cmp_metadata return_similar s)
        ≡ true
    pub target_valid :
        valid_string
          (target_suffix nfc parse_time source_url target_url cmp_metadata return_similar t)
        ≡ true
    pub one_name :
        target_key nfc parse_time source_url target_url cmp_metadata return_similar t
        ≡ source_key nfc parse_time source_url target_url cmp_metadata return_similar s
    pub clash : type_differs s.type t.type ≡ true

  stays :
      TypesClash
      → step nfc parse_time source_url target_url cmp_metadata return_similar (s ∷ ss) (t ∷ ts)
        ≡ sends (in_both differ_in_type s t ∷ []) (s ∷ ss) (t ∷ ts)
  unfolding diff_step next_round compare_heads
  stays c = ground (
    arith,
    c.source_ok,
    c.target_ok,
    c.source_valid,
    c.target_valid,
    c.one_name,
    c.clash,
    less_irrefl (source_key nfc parse_time source_url target_url cmp_metadata return_similar s),
    equal_refl (source_key nfc parse_time source_url target_url cmp_metadata return_similar s),
  )

  -- Once a regular file and something else of the same name stand at the head of the two listings,
  -- the loop does not end, whatever stands behind them and however many rounds it is given.
  pub difference_internal_stuck :
      TypesClash
      → (fuel : ℕ)
      → difference_internal nfc parse_time source_url target_url cmp_metadata return_similar fuel
          (s ∷ ss)
          (t ∷ ts)
        ≡ none
  difference_internal_stuck c zero = unfold difference_internal in refl
  difference_internal_stuck c (suc fuel) =
      walk_sends nfc parse_time source_url target_url cmp_metadata return_similar fuel _ _ (stays c)
      ∙ ap (sent_before (in_both differ_in_type s t ∷ [])) (difference_internal_stuck c fuel)
