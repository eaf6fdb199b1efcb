-- ===== src/LocalFiles/Removal.antt =====
-- How far up the removal of a file goes, in cmd/client-fs.go.
use oss_mc.Base.{
  ℕ, zero, suc, ◌<◌, true, false, List, [], ◌∷◌, none, some, Bytes, Fallible, ◌≡◌, refl, ◌⊎◌, inl,
  inr, Bool-cases, Fallible-cases, length, arith,
}
use oss_mc.LocalFiles.{
  SysError, not_empty, not_exist, permission, other_error, Deleted, remove_failed, parent_of,
  delete_file,
}
use oss_mc.Strings.{codes, equal, has_prefix}
use oss_mc.Strings.Laws.{equal_ne}

module _ {ℓ} {F : Type ℓ} (os_remove : Bytes → F → Fallible SysError F) (dir : Bytes → Bytes)
    (base : Bytes) where
  -- The folders that are removed after a path: each is the parent of what was removed before it,
  -- and its path begins with the base.
  abbrev pub AreAbove : Bytes → List Bytes → Type 0
  AreAbove path [] = Unit {0}
  AreAbove path (p ∷ ps) =
      (p ≡ parent_of os_remove dir path) × (has_prefix p base ≡ true) × AreAbove p ps

  -- what is removed: nothing, or the path and then such folders above it
  abbrev pub IsBelow : Bytes → List Bytes → Type 0
  IsBelow path removed =
      (removed ≡ []) ⊎ ((above : List Bytes) × ((removed ≡ path ∷ above) × AreAbove path above))

  IsBelow-failed :
      (path : Bytes) (files : F) (e : SysError) → IsBelow path (remove_failed files e).removed
  IsBelow-failed path files not_empty = inl refl
  IsBelow-failed path files not_exist = inl refl
  IsBelow-failed path files permission = inl refl
  IsBelow-failed path files (other_error e) = inl refl

  AreAbove-parent :
      (path : Bytes) (removed : List Bytes)
      → has_prefix (parent_of os_remove dir path) base ≡ true
      → IsBelow (parent_of os_remove dir path) removed
      → AreAbove path removed
  AreAbove-parent path removed h (inl e) = rw e tt
  AreAbove-parent path removed h (inr (above, (e, a))) = rw e (refl, h, a)

  shorter :
      (p : Bytes)
      → (parent_of os_remove dir p ≡ codes ".") ⊎ (length (parent_of os_remove dir p) < length p)
      → equal (parent_of os_remove dir p) (codes ".") ≡ false
      → length (parent_of os_remove dir p) < length p
  shorter p (inl e) z = absurd (equal_ne (parent_of os_remove dir p) (codes ".") z e)
  shorter p (inr l) z = l

  -- A removal ends when it is given a step for each byte of the path and one more, and it removes
  -- nothing, or the path and then folders above it, each the parent of the one before and each with a
  -- path that begins with the base. The parent of a path is shorter, or the current folder.
  pub delete_file-IsBelow :
      (fuel : ℕ) (path : Bytes) (files : F)
      → ((p : Bytes)
          → (parent_of os_remove dir p ≡ codes ".")
            ⊎ (length (parent_of os_remove dir p) < length p))
      → length path < fuel
      → (d : Deleted F) × ((delete_file os_remove dir fuel base path files ≡ some d)
          × IsBelow path d.removed)
  unfolding delete_file
  delete_file-IsBelow zero path files h l = absurd (omega (arith, l))
  delete_file-IsBelow (suc fuel) path files h l = elim (Fallible-cases (os_remove path files)) [
    | inl (e, f) ↦ (remove_failed files e, (rw (f, delete_file) refl, IsBelow-failed path files e))
    | inr (next, f) ↦
        let parent = parent_of os_remove dir path in
        elim (Bool-cases (has_prefix parent base)) [
          | inl y ↦ elim (Bool-cases (equal parent (codes "."))) [
            | inl z ↦ (
              record { files = next; removed = path ∷ []; error = none },
              (rw (f, delete_file) (rw y (rw z refl)), inr ([], (refl, tt))),
            )
            | inr z ↦
                let l2 = shorter path (h path) z in
                let (d, (e, b)) = delete_file-IsBelow fuel parent next h (omega (arith, l, l2)) in
                (
                  record d { removed = path ∷ d.removed },
                  (
                    rw (f, delete_file) (rw y (rw z (rw e refl))),
                    inr (d.removed, (refl, AreAbove-parent path d.removed y b)),
                  ),
                )
          ]
          | inr n ↦ (
            record { files = next; removed = path ∷ []; error = none },
            (rw (f, delete_file) (rw n refl), inr ([], (refl, tt))),
          )
        ]
  ]
