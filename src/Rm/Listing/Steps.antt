-- ===== src/Rm/Listing/Steps.antt =====
-- What one entry of a listing makes `listAndRemove` of cmd/rm-main.go send.
use oss_mc.Ages.{is_older, is_newer}
use oss_mc.Base.{
  ℕ, Bool, true, false, not, ◌&&◌, List, [], ◌∷◌, ◌++◌, ◌≡◌, ◌≢◌, ◌⊎◌, inl, inr, arith, Bytes, ok,
  err, ◌>>=◌, length, ◌==◌, Bool-cases, Fallible-cases, Option-cases, All, All-append,
}
use oss_mc.Content.{ClientContent}
use oss_mc.Errors.{Error}
use oss_mc.Rm.{RemoveResult, RemoveOpts, rm_message, is_permission}
use oss_mc.Rm.Listing.{
  RmState, returns, program_ends, Step, read_arrivals, send, remove_one, remove_aged,
  remove_versions,
}

-- What was sent when it stopped or went on.
abbrev pub sent_after : Step → List ClientContent
sent_after (ok s) = s.sent
sent_after (err (returns s)) = s.sent
sent_after (err (program_ends s)) = s.sent

module _ (float_part : ℕ → ℕ → ℕ → ℕ) (since : ℕ → ℕ) (arrivals : ℕ → List RemoveResult)
    (alias : Bytes) (o : RemoveOpts) where
  -- An object that may be removed: it is no dry run, the object has a time, and it is old enough.
  pub record IsAged (c : ClientContent) : Type 0 where
    pub not_fake : o.is_fake ≡ false
    pub has_time : c.time ≢ 0
    pub old : is_older float_part since c.time o.older_than ≡ ok false
    pub not_new : is_newer float_part since c.time o.newer_than ≡ ok false

  -- Where only the versions that are not the latest are asked for, the latest one may only be removed
  -- if it is a delete marker.
  abbrev pub IsRemovable : Bool → ClientContent → Type 0
  IsRemovable only c =
      IsAged c × ((only ≡ false) ⊎ ((c.is_latest && not c.is_delete_marker) ≡ false))

  abbrev pub Fine : Bool → List ClientContent → Type 0
  Fine only = All (IsRemovable only)

  pub step_then :
      (only : Bool) (m : Step) (k : RmState → Step)
      → Fine only (sent_after m)
      → ((s : RmState) → Fine only s.sent → Fine only (sent_after (k s)))
      → Fine only (sent_after (m >>= k))
  step_then only (ok s) k h g = g s h
  step_then only (err (returns s)) k h g = h
  step_then only (err (program_ends s)) k h g = h

  pub read_arrivals-Fine :
      (only : Bool) (passes : Error → Bool) (rs : List RemoveResult) (s : RmState)
      → Fine only s.sent
      → Fine only (sent_after (read_arrivals passes alias rs s))
  unfolding read_arrivals
  read_arrivals-Fine only passes [] s h = h
  read_arrivals-Fine only passes (r ∷ rs) s h = elim (Option-cases r.err) [
    | inl e ↦
        rw (e, read_arrivals)
          (read_arrivals-Fine only passes rs
            (record s { printed = s.printed ++ rm_message alias r ∷ [] }) h)
    | inr (e, k) ↦ elim (Bool-cases (passes e)) [
      | inl y ↦ rw (k, read_arrivals) (rw y (read_arrivals-Fine only passes rs s h))
      | inr n ↦ rw (k, read_arrivals) (rw n h)
    ]
  ]

  send-Fine :
      (only : Bool) (passes : Error → Bool) (c : ClientContent) (s : RmState)
      → IsRemovable only c
      → Fine only s.sent
      → Fine only (sent_after (send float_part since arrivals alias o passes c s))
  unfolding send
  send-Fine only passes c s r h =
      step_then only (read_arrivals passes alias (arrivals (length s.sent)) s) _
        (read_arrivals-Fine only passes (arrivals (length s.sent)) s h)
        (λ t g. All-append (IsRemovable only) t.sent (c ∷ []) g (r, tt))

  remove_one-Fine :
      (only : Bool) (passes : Error → Bool) (times : Bool) (c : ClientContent) (s : RmState)
      → (o.is_fake ≡ false → IsRemovable only c)
      → Fine only s.sent
      → Fine only (sent_after (remove_one float_part since arrivals alias o passes times c s))
  unfolding remove_one
  remove_one-Fine only passes times c s r h = elim (Bool-cases o.is_fake) [
    | inl k ↦
        let e : sent_after (remove_one float_part since arrivals alias o passes times c s)
            ≡ s.sent =
          ground (arith, k) in
        rw e h
    | inr k ↦
        let e : remove_one float_part since arrivals alias o passes times c s
            ≡ send float_part since arrivals alias o passes c s =
          ground (arith, k) in
        rw e (send-Fine only passes c s (r k) h)
  ]

  pub remove_aged-Fine :
      (only : Bool) (passes : Error → Bool) (times : Bool) (c : ClientContent) (s : RmState)
      → (only ≡ false) ⊎ ((c.is_latest && not c.is_delete_marker) ≡ false)
      → Fine only s.sent
      → Fine only (sent_after (remove_aged float_part since arrivals alias o passes times c s))
  unfolding remove_aged
  remove_aged-Fine only passes times c s l h = elim (Bool-cases (c.time == 0)) [
    | inl y ↦ rw (y, remove_aged) h
    | inr n ↦ elim (Fallible-cases (is_older float_part since c.time o.older_than)) [
      | inl (e, x) ↦ rw (n, remove_aged) (rw x h)
      | inr (true, x) ↦ rw (n, remove_aged) (rw x h)
      | inr (false, x) ↦ elim (Fallible-cases (is_newer float_part since c.time o.newer_than)) [
        | inl (e, z) ↦ rw (n, remove_aged) (rw x (rw z h))
        | inr (true, z) ↦ rw (n, remove_aged) (rw x (rw z h))
        | inr (false, z) ↦
            rw (n, remove_aged)
              (rw x (
                rw z (
                  remove_one-Fine only passes times c s
                    (λ k. (
                      record { not_fake = k; has_time = ground (arith, n); old = x; not_new = z },
                      l,
                    ))
                    h)))
      ]
    ]
  ]

  pub remove_versions-Fine :
      (only : Bool) (cs : List ClientContent) (s : RmState)
      → Fine only s.sent
      → Fine only (sent_after (remove_versions float_part since arrivals alias o cs s))
  unfolding remove_versions
  remove_versions-Fine only [] s h = h
  remove_versions-Fine only (c ∷ cs) s h =
      elim (Bool-cases (c.is_latest && not c.is_delete_marker)) [
        | inl y ↦ rw (y, remove_versions) (remove_versions-Fine only cs s h)
        | inr n ↦
            rw (n, remove_versions)
              (step_then only (remove_aged float_part since arrivals alias o is_permission true c s)
                _ (remove_aged-Fine only is_permission true c s (inr n) h)
                (λ t g. remove_versions-Fine only cs t g))
      ]
