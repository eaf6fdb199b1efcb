-- ===== src/Rm/Single.antt =====
-- When `removeSingle` of cmd/rm-main.go removes something.
use oss_mc.Ages.{is_older}
use oss_mc.Base.{
  ℕ, Bool, true, false, not, ◌&&◌, List, [], ◌∷◌, Option, ◌≡◌, ◌⊎◌, arith, Fallible, ok, err,
}
use oss_mc.Content.{ClientContent}
use oss_mc.Errors.{Error}
use oss_mc.Rm.{
  RemoveResult, RmTarget, RemoveOpts, Removal, fails, ignores_stat_error, content_to_remove,
  remove_now, mod_time_of, remove_unless_skipped, remove_single,
}
use oss_mc.Strings.{is_empty}

module _ (float_part : ℕ → ℕ → ℕ → ℕ) (since : ℕ → ℕ) (status_code : Error → ℕ)
    (remove : ClientContent → List RemoveResult) (t : RmTarget) (o : RemoveOpts) where
  -- With --newer-than set, nothing is removed and an error is returned, whatever is found.
  remove_single_newer :
      (stat : Fallible Error ClientContent)
      → is_empty o.newer_than ≡ false
      → remove_single float_part since status_code remove t o stat ≡ ok fails
  unfolding remove_single remove_unless_skipped
  remove_single_newer (ok c) h = ground (arith, h)
  remove_single_newer (err e) h = ground (arith, h)

  -- Something is sent to be removed only if it is no dry run, a client is open, the object was found
  -- or the error is ignored, and it is old enough.
  pub record MayRemove (stat : Fallible Error ClientContent) (r : Removal) : Type 0 where
    pub not_fake : o.is_fake ≡ false
    pub opens : t.opens ≡ true
    pub one : (r.sent ≡ content_to_remove t false ∷ []) ⊎ (r.sent ≡ content_to_remove t true ∷ [])
    pub found :
        ((c : ClientContent) × (stat ≡ ok c)
          × (is_older float_part since c.time o.older_than ≡ ok false))
        ⊎ ((e : Error) × (stat ≡ err e)
            × (ignores_stat_error status_code o e ≡ true)
            × (is_empty o.older_than ≡ true))

  record Sends (r : Removal) : Type 0 where
    not_fake : o.is_fake ≡ false
    opens : t.opens ≡ true
    one : (r.sent ≡ content_to_remove t false ∷ []) ⊎ (r.sent ≡ content_to_remove t true ∷ [])

  record Reached (c : Option ClientContent) (ignored : Bool) (r : Removal) : Type 0 where
    now : r ≡ remove_now float_part since status_code remove t o c
    not_ignored : (ignored && not (is_empty o.older_than)) ≡ false
    old : is_older float_part since (mod_time_of c) o.older_than ≡ ok false
