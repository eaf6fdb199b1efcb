-- ===== src/Du/Tree.antt =====
-- The loop of cmd/du-main.go over the listing of a tree of folders.
use Prim.Native.Nat.{max}
use oss_mc.Base.{
  ℕ, suc, ◌+◌, ◌%◌, Bool, true, false, not, ◌&&◌, List, [], ◌∷◌, ◌++◌, none, some, Bytes,
  if◌then◌else◌, ◌≡◌, refl, ap, ◌∙◌, arith, inl, inr, Bool-cases, append_assoc, append-nil,
}
use oss_mc.Content.{ClientContent, is_dir}
use oss_mc.Duration.{two64}
use oss_mc.Errors.{Error}
use oss_mc.Strings.{equal}
use oss_mc.Du.{
  printed, DuMessage, DuEnd, used, DuRun, is_skipped, sub_dir_alias, continue, du_listed,
  du_content, du_contents,
}

-- A folder: objects and marks, and folders with what is in them.
pub data Tree : Type 0 where
  done : Tree
  entry : ClientContent → Tree → Tree
  folder : ClientContent → Tree → Tree → Tree

-- the listing of a folder, with the folders in it or without
unfoldable pub listed : Bool → Tree → List ClientContent
listed r done = []
listed r (entry c rest) = c ∷ listed r rest
listed true (folder c inside rest) = c ∷ (listed true inside ++ listed true rest)
listed false (folder c inside rest) = c ∷ listed false rest

-- what is counted
abbrev pub is_object : ClientContent → Bool
is_object c = elim c.err [ some e ↦ false | none ↦ not c.is_delete_marker ]

unfoldable pub tree_size : Tree → ℕ
tree_size done = 0
tree_size (entry c rest) = (if is_object c then c.size else 0) + tree_size rest
tree_size (folder c inside rest) = tree_size inside + tree_size rest

unfoldable pub tree_count : Tree → ℕ
tree_count done = 0
tree_count (entry c rest) = (if is_object c then 1 else 0) + tree_count rest
tree_count (folder c inside rest) = tree_count inside + tree_count rest

unfoldable pub height : Tree → ℕ
height done = 0
height (entry c rest) = height rest
height (folder c inside rest) = max (suc (height inside)) (height rest)

-- An entry that is no folder: an object, or an error that is skipped.
pub data IsLeaf (base : Bytes) (c : ClientContent) : Type 0 where
  object : c.err ≡ none → equal c.url.path base ≡ false → is_dir c.type ≡ false → IsLeaf base c
  skipped : (e : Error) → c.err ≡ some e → is_skipped e ≡ true → IsLeaf base c

pub record IsFolder (base : Bytes) (c : ClientContent) : Type 0 where
  pub no_error : c.err ≡ none
  pub other : equal c.url.path base ≡ false
  pub dir : is_dir c.type ≡ true

abbrev pub IsTree : Bytes → Tree → Type 0
IsTree base done = Unit
IsTree base (entry c rest) = IsLeaf base c × IsTree base rest
IsTree base (folder c inside rest) = IsFolder base c × (IsTree base inside × IsTree base rest)

abbrev pub entry_size : ClientContent → ℕ
entry_size c = if is_object c then c.size else 0

abbrev pub entry_count : ClientContent → ℕ
entry_count c = if is_object c then 1 else 0

with_nothing : (r : DuRun) → printed [] r ≡ r
with_nothing none = refl
with_nothing (some run) = refl

continue_quiet :
    (next : ℕ → ℕ → DuRun) (r : DuRun) (a b : ℕ)
    → r ≡ some ([], used a b)
    → continue next r ≡ next a b
continue_quiet next r a b h = rw h (with_nothing (next a b))

continue_with :
    (next : ℕ → ℕ → DuRun) (r : DuRun) (ms ns : List DuMessage) (a b : ℕ) (e : DuEnd)
    → r ≡ some (ms, used a b)
    → next a b ≡ some (ns, e)
    → continue next r ≡ some (ms ++ ns, e)
continue_with next r ms ns a b e h k = rw h (rw k refl)

mod_add : (a b : ℕ) → (a % two64 + b) % two64 ≡ (a + b) % two64
mod_add a b = omega arith

unlisted : (m : Bool) (x y : DuRun) → (if m && false then x else y) ≡ y
unlisted true x y = refl
unlisted false x y = refl

mod_sum : (a b : ℕ) → (a % two64 + b % two64) % two64 ≡ (a + b) % two64
mod_sum a b = omega arith

used_same :
    {a b c d : ℕ} → a ≡ c → b ≡ d → ◌≡◌ {A = DuRun} (some ([], used a b)) (some ([], used c d))
used_same e f = rw (e, f) refl

module _ (recursive : Bool) (base alias : Bytes) (sub : Bytes → DuRun) where
  du_content-leaf :
      (c : ClientContent) (s o : ℕ)
      → IsLeaf base c
      → du_content recursive base alias sub c (s % two64) (o % two64)
        ≡ some ([], used ((s + entry_size c) % two64) ((o + entry_count c) % two64))
  unfolding du_content du_listed
  du_content-leaf c s o (object e n d) = elim (Bool-cases c.is_delete_marker) [
    | inl y ↦
        rw (e, du_content) (rw (n, du_listed) (rw (d, y) (used_same (omega arith) (omega arith))))
    | inr m ↦
        rw (e, du_content)
          (rw (n, du_listed) (rw (d, m) (used_same (mod_add s c.size) (mod_add o 1))))
  ]
  du_content-leaf c s o (skipped x e k) =
      rw (e, du_content) (rw k (used_same (omega arith) (omega arith)))

  -- A part of a listing that prints nothing.
  pub du_contents-leaf :
      (c : ClientContent) (cs : List ClientContent) (s o : ℕ)
      → IsLeaf base c
      → du_contents recursive base alias sub (c ∷ cs) (s % two64) (o % two64)
        ≡ du_contents recursive base alias sub cs
            ((s + entry_size c) % two64)
            ((o + entry_count c) % two64)
  unfolding du_contents
  du_contents-leaf c cs s o l =
      continue_quiet (du_contents recursive base alias sub cs)
        (du_content recursive base alias sub c (s % two64) (o % two64)) ((s + entry_size c) % two64)
        ((o + entry_count c) % two64) (du_content-leaf c s o l)

  pub du_contents-done :
      (a b c d : ℕ)
      → a ≡ c
      → b ≡ d
      → du_contents recursive base alias sub [] a b ≡ some ([], used c d)
  unfolding du_contents
  du_contents-done a b c d e f = used_same e f

  -- Sums that are made in another order are the same.
  resum :
      (cs : List ClientContent) (s a b o c d : ℕ)
      → du_contents recursive base alias sub cs ((s + a + b) % two64) ((o + c + d) % two64)
        ≡ du_contents recursive base alias sub cs ((s + (a + b)) % two64) ((o + (c + d)) % two64)
  resum cs s a b o c d =
      let e : s + a + b ≡ s + (a + b) = omega arith in
      let f : o + c + d ≡ o + (c + d) = omega arith in rw (e, f) refl

pub sums_same :
    {a b c d : ℕ} (ms : List DuMessage)
    → a ≡ c
    → b ≡ d
    → ◌≡◌ {A = DuRun} (some (ms, used a b)) (some (ms, used c d))
sums_same ms e f = rw (e, f) refl

-- the loop over the listing of a folder, at a folder in it
module _ (base alias : Bytes) (sub : Bytes → DuRun) where
  pub du_contents-into :
      (c : ClientContent) (cs : List ClientContent) (s o a b : ℕ) (ms ns : List DuMessage)
      (e : DuEnd)
      → IsFolder base c
      → sub (sub_dir_alias alias c) ≡ some (ms, used (a % two64) (b % two64))
      → du_contents false base alias sub cs ((s + a) % two64) ((o + b) % two64) ≡ some (ns, e)
      → du_contents false base alias sub (c ∷ cs) (s % two64) (o % two64) ≡ some (ms ++ ns, e)
  unfolding du_contents du_content du_listed
  du_contents-into c cs s o a b ms ns e f h k =
      continue_with (du_contents false base alias sub cs)
        (du_content false base alias sub c (s % two64) (o % two64)) ms ns ((s + a) % two64)
        ((o + b) % two64) e
        (rw (f.no_error, du_content)
          (rw (f.other, du_listed)
            (rw f.dir (rw h (rw (append-nil ms) (sums_same ms (mod_sum s a) (mod_sum o b)))))))
        k

-- the loop over a whole listing with all folders
module _ (base alias : Bytes) (sub : Bytes → DuRun) where
  du_contents-folder :
      (c : ClientContent) (cs : List ClientContent) (a b : ℕ)
      → IsFolder base c
      → du_contents true base alias sub (c ∷ cs) a b ≡ du_contents true base alias sub cs a b
  unfolding du_contents du_content du_listed
  du_contents-folder c cs a b f =
      continue_quiet (du_contents true base alias sub cs) (du_content true base alias sub c a b) a b
        (rw (f.no_error, du_content)
          (rw (f.other, du_listed)
            (rw f.dir (
              unlisted (not c.is_delete_marker)
                (some ([], used ((a + c.size) % two64) ((b + 1) % two64))) (some ([], used a b))))))

  pub du_contents-all :
      (t : Tree) (cs : List ClientContent) (s o : ℕ)
      → IsTree base t
      → du_contents true base alias sub (listed true t ++ cs) (s % two64) (o % two64)
        ≡ du_contents true base alias sub cs
            ((s + tree_size t) % two64)
            ((o + tree_count t) % two64)
  unfolding listed tree_size tree_count
  du_contents-all done cs s o h =
      let e : s + 0 ≡ s = omega arith in let f : o + 0 ≡ o = omega arith in rw (e, f) refl
  du_contents-all (entry c rest) cs s o (l, h) =
      du_contents-leaf true base alias sub c (listed true rest ++ cs) s o l
      ∙ du_contents-all rest cs (s + entry_size c) (o + entry_count c) h
      ∙ resum true base alias sub cs s (entry_size c) (tree_size rest) o (entry_count c)
          (tree_count rest)
  du_contents-all (folder c inside rest) cs s o (f, (i, h)) =
      du_contents-folder c (listed true inside ++ listed true rest ++ cs) (s % two64) (o % two64) f
      ∙ ap (λ l. du_contents true base alias sub l (s % two64) (o % two64))
          (append_assoc (listed true inside) (listed true rest) cs)
      ∙ du_contents-all inside (listed true rest ++ cs) s o i
      ∙ du_contents-all rest cs (s + tree_size inside) (o + tree_count inside) h
      ∙ resum true base alias sub cs s (tree_size inside) (tree_size rest) o (tree_count inside)
          (tree_count rest)
