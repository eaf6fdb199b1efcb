-- ===== src/Tests/Sessions.antt =====
-- A copy that is taken up again, and a local file that is removed.
use oss_mc.Base.{
  ◌≤◌, ◌<◌, ◌-◌, ◌⊎◌, inr, ap, length, length-append, take, drop, take-append-drop, ltb, ltb→lt,
  Bool-cases, if◌then◌else◌, ℕ, true, [], ◌∷◌, none, some, Bytes, Fallible, ok, ◌≡◌, refl, arith,
  inl,
}
use oss_mc.CopySession.{CopyStatus, copy_status, copy_statuses, no_copies, resume}
use oss_mc.CopySession.Resume.{resume_skips}
use oss_mc.LocalFiles.{parent_of, SysError, Deleted, delete_file}
use oss_mc.LocalFiles.Removal.{IsBelow, delete_file-IsBelow}
use oss_mc.Strings.{codes, trim_suffix, has_suffix, equal, is_empty}

abbrev good : Bytes → CopyStatus
good url = record { source_url = url; error = none }

-- c was copied before b, and a was not copied yet
resume_skips_example :
    resume
      (copy_statuses true (good (codes "c") ∷ good (codes "b") ∷ []) no_copies).last_copied
      true
      (codes "a" ∷ codes "b" ∷ codes "c" ∷ [])
    ≡ ok (codes "a" ∷ codes "b" ∷ [], codes "c" ∷ [])
unfolding is_empty equal copy_statuses copy_status
resume_skips_example =
    resume_skips true (good (codes "c") ∷ []) (good (codes "b")) (codes "a" ∷ []) (codes "c" ∷ [])
      refl refl refl ((refl, refl), tt) (refl, tt)

abbrev always_removed : Bytes → ℕ → Fallible SysError ℕ
always_removed path n = ok 0

-- the parent of the paths below
abbrev folder_of : Bytes → Bytes
folder_of path = if ltb 2 (length path) then codes "a" else codes "."

length-trim_suffix : (s t : Bytes) → length (trim_suffix s t) ≤ length s
unfolding trim_suffix
length-trim_suffix s t = elim (Bool-cases (has_suffix s t)) [
  | inl y ↦
      let n = length s - length t in
      let e = ap length (take-append-drop n s) in
      rw y (omega (arith, e, length-append (take n s) (drop n s)))
  | inr m ↦ rw m (omega arith)
]

parent_shorter :
    (p : Bytes)
    → (parent_of always_removed folder_of p ≡ codes ".")
      ⊎ (length (parent_of always_removed folder_of p) < length p)
parent_shorter p =
    let t = trim_suffix p (codes "/") in
    elim (Bool-cases (ltb 2 (length t))) [
      | inl y ↦ inr (rw y (omega (arith, ltb→lt 2 (length t) y, length-trim_suffix p (codes "/"))))
      | inr n ↦ inl (rw n refl)
    ]

delete_file-IsBelow_example :
    (d : Deleted ℕ) × ((delete_file always_removed folder_of 4 (codes "a") (codes "a/b") 1 ≡ some d)
      × IsBelow always_removed folder_of (codes "a") (codes "a/b") d.removed)
delete_file-IsBelow_example =
    delete_file-IsBelow always_removed folder_of (codes "a") 4 (codes "a/b") 1 parent_shorter
      (omega arith)
