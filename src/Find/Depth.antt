-- ===== src/Find/Depth.antt =====
-- `trimSuffixAtMaxDepth` of cmd/find.go.
use oss_mc.Base.{ℕ, suc, ◌≤◌, [], ◌∷◌, ◌++◌, ◌≡◌, ◌⊎◌, Bytes, take, ◌==◌, if◌then◌else◌}
use oss_mc.Find.{split_after, concat}

-- How often the byte stands in the text.
abbrev pub count : ℕ → Bytes → ℕ
count b [] = 0
count b (c ∷ s) = if c == b then suc (count b s) else count b s

-- The last byte of the text, if it has any, is this one.
abbrev pub LastIs : ℕ → Bytes → Type 0
LastIs b [] = Unit {0}
LastIs b (c ∷ []) = c ≡ b
LastIs b (c ∷ d ∷ s) = LastIs b (d ∷ s)

-- A text cut right behind its `depth`-th separator, or not at all if it has fewer.
pub record CutAt (b depth : ℕ) (s kept : Bytes) : Type 0 where
  pub tail : Bytes
  pub whole : s ≡ kept ++ tail
  pub at_most : count b kept ≤ depth
  pub all_or_full : (tail ≡ []) ⊎ ((count b kept ≡ depth) × LastIs b kept)

kept_of : ℕ → ℕ → Bytes → Bytes
kept_of b depth s = concat (take depth (split_after s b))
