-- ===== src/CopySession/Resume.antt =====
-- A copy that is taken up again, in cmd/cp-main.go.
use oss_mc.Base.{
  Bool, true, false, List, [], ◌∷◌, ◌++◌, none, Bytes, if◌then◌else◌, ok, ◌≡◌, refl, sym, ap, ◌∙◌,
  All, Bool-cases, inl, inr,
}
use oss_mc.CopySession.{
  is_last, resume, CopyStatus, CopyState, copy_status, copy_statuses, no_copies,
}
use oss_mc.Strings.{equal, is_empty}
use oss_mc.Strings.Laws.{equal_refl}

-- sources that come before the last one: real addresses, and others than that
abbrev pub IsBefore : Bytes → Bytes → Type 0
IsBefore last_url url = (is_empty url ≡ false) × (equal last_url url ≡ false)

abbrev pub IsAddress : Bytes → Type 0
IsAddress url = is_empty url ≡ false

resume_rest :
    (last_url : Bytes) (urls : List Bytes)
    → is_empty last_url ≡ false
    → All IsAddress urls
    → resume last_url false urls ≡ ok ([], urls)
unfolding resume is_last
resume_rest last_url [] h all = refl
resume_rest last_url (url ∷ urls) h (a, all) =
    rw a (rw h (rw (resume_rest last_url urls h all) refl))

resume_queue :
    (last_url : Bytes) (before after : List Bytes)
    → is_empty last_url ≡ false
    → All (IsBefore last_url) before
    → All IsAddress after
    → resume last_url true (before ++ last_url ∷ after) ≡ ok (before ++ last_url ∷ [], after)
unfolding resume is_last
resume_queue last_url [] after h b a =
    rw h (rw (equal_refl last_url) (rw (resume_rest last_url after h a) refl))
resume_queue last_url (url ∷ before) after h ((n, d), b) a =
    rw n (rw h (rw d (rw (resume_queue last_url before after h b a) refl)))

if_same {ℓ} : {A : Type ℓ} (b : Bool) (x : A) → (if b then x else x) ≡ x
if_same true x = refl
if_same false x = refl

if_true {ℓ} : {A : Type ℓ} (b : Bool) (x y : A) → b ≡ true → (if b then x else y) ≡ x
if_true b x y h = rw h refl

if_false {ℓ} : {A : Type ℓ} (b : Bool) (x y : A) → b ≡ false → (if b then x else y) ≡ y
if_false b x y h = rw h refl

module _ (session_flag : Bool) where
  copied_one :
      (r : CopyStatus) (s : CopyState)
      → r.error ≡ none
      → copy_statuses session_flag (r ∷ []) s ≡ record s { last_copied = r.source_url }
  unfolding copy_statuses copy_status
  copied_one r s e = rw (e, copy_status) (if_same s.died (record s { last_copied = r.source_url }))

  goes_on :
      (q : CopyStatus) (rs : List CopyStatus) (s : CopyState)
      → (copy_status session_flag q s).died ≡ false
      → copy_statuses session_flag (q ∷ rs) s
        ≡ copy_statuses session_flag rs (copy_status session_flag q s)
  unfolding copy_statuses
  goes_on q rs s n =
      let next = copy_status session_flag q s in
      if_false next.died next (copy_statuses session_flag rs next) n

  ended :
      (q : CopyStatus) (rs : List CopyStatus) (s : CopyState)
      → (copy_statuses session_flag (q ∷ rs) s).died ≡ false
      → (copy_status session_flag q s).died ≡ true
      → ⊥
  unfolding copy_statuses
  ended q rs s h y =
      let next = copy_status session_flag q s in
      let e = if_true next.died next (copy_statuses session_flag rs next) y in
      let died = ap (λ (u : CopyState). u.died) e in
      let wrong : true ≡ false = sym y ∙ (sym died ∙ h) in cc

  -- the last result that was good, behind results that did not end the command
  last_copied_lem :
      (rs : List CopyStatus) (r : CopyStatus) (s : CopyState)
      → (copy_statuses session_flag rs s).died ≡ false
      → r.error ≡ none
      → (copy_statuses session_flag (rs ++ r ∷ []) s).last_copied ≡ r.source_url
  unfolding copy_statuses
  last_copied_lem [] r s h e = ap (λ (u : CopyState). u.last_copied) (copied_one r s e)
  last_copied_lem (q ∷ rs) r s h e = elim (Bool-cases (copy_status session_flag q s).died) [
    | inl y ↦ absurd (ended q rs s h y)
    | inr n ↦
        let next = copy_status session_flag q s in
        ap (λ (u : CopyState). u.last_copied) (goes_on q (rs ++ r ∷ []) s n)
        ∙ last_copied_lem rs r next (ap (λ (u : CopyState). u.died) (sym (goes_on q rs s n)) ∙ h) e
  ]

  -- After results that did not end the command, the last of them good, a copy that is taken up again
  -- copies just the sources behind the one of that last result, and skips all that were queued before
  -- it. That is right when the results come in the order of the queue; a source that was queued before
  -- and whose result had not come in yet, is skipped too. No address is empty, and the last copied one
  -- does not come before in the queue.
  pub resume_skips :
      (rs : List CopyStatus) (r : CopyStatus) (before after : List Bytes)
      → (copy_statuses session_flag rs no_copies).died ≡ false
      → r.error ≡ none
      → is_empty r.source_url ≡ false
      → All (IsBefore r.source_url) before
      → All IsAddress after
      → resume
          (copy_statuses session_flag (rs ++ r ∷ []) no_copies).last_copied
          true
          (before ++ r.source_url ∷ after)
        ≡ ok (before ++ r.source_url ∷ [], after)
  resume_skips rs r before after h e n b a =
      ap (λ u. resume u true (before ++ r.source_url ∷ after)) (last_copied_lem rs r no_copies h e)
      ∙ resume_queue r.source_url before after n b a
