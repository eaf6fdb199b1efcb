-- ===== src/ObjectLock/Retention.antt =====
-- What `applyRetention` of cmd/retention-common.go does to a listing.
use oss_mc.Base.{
  ℕ, Bool, true, false, not, ◌&&◌, ◌||◌, List, [], ◌∷◌, ◌++◌, Option, ◌≡◌, inl, inr, refl, sym,
  arith, append_assoc, append-nil, Bytes, ok, Bool-cases, Option-cases, keep, some_of,
}
use oss_mc.Content.{ClientContent}
use oss_mc.ObjectLock.{
  LockCall, call_of, LockOptions, LockState, no_locks, ValidityUnit, is_other_key, retain_entry,
  retain_entries, retain_until, apply_retention,
}
use oss_mc.ObjectLock.Seen.{has_error, before, calls_of}
use oss_mc.Strings.{is_empty}

-- An entry that can be locked.
abbrev pub is_lockable : ClientContent → Bool
is_lockable c = not (has_error c) && not c.is_delete_marker

module _ (put_fails : LockCall → Bool) (o : LockOptions) where
  abbrev pub seen : List ClientContent → List ClientContent
  seen = before (λ c. is_lockable c && is_other_key o c)

  -- The entries that are locked.
  abbrev pub lockable : List ClientContent → List ClientContent
  lockable cs = keep is_lockable (seen cs)

  abbrev pub some_put : List ClientContent → Bool
  some_put = some_of (λ c. not (put_fails (call_of c)))

  record Retained (s : LockState) (cs : List ClientContent) (t : LockState) : Type 0 where
    calls : t.calls ≡ s.calls ++ calls_of (lockable cs)
    failed : t.failed ≡ (s.failed || some_of has_error (seen cs))
    applied : t.applied ≡ (s.applied || some_put (lockable cs))

  retain_entries-Retained :
      (cs : List ClientContent) (s : LockState) → Retained s cs (retain_entries put_fails o s cs)
  unfolding retain_entries
  retain_entries-Retained [] s = record {
    calls = sym (append-nil s.calls);
    failed = ground arith;
    applied = ground arith;
  }
  retain_entries-Retained (c ∷ cs) s = elim (Option-cases c.err) [
    | inr (e, h) ↦
        let r = retain_entries-Retained cs (record s { failed = true }) in
        record {
          calls = ground (arith, r.calls, h);
          failed = ground (arith, r.failed, h);
          applied = ground (arith, r.applied, h);
        }
    | inl h ↦ elim (Bool-cases c.is_delete_marker) [
      | inl y ↦
          let r = retain_entries-Retained cs s in
          record {
            calls = ground (arith, r.calls, h, y);
            failed = ground (arith, r.failed, h, y);
            applied = ground (arith, r.applied, h, y);
          }
      | inr n ↦ elim (Bool-cases (is_other_key o c)) [
        | inl y ↦
            let e = append-nil s.calls in
            record {
              calls = ground (arith, e, h, n, y);
              failed = ground (arith, h, n, y);
              applied = ground (arith, h, n, y);
            }
        | inr m ↦
            let r = retain_entries-Retained cs (retain_entry put_fails o s c) in
            let a = append_assoc s.calls (call_of c ∷ []) (calls_of (lockable cs)) in
            let x : retain_entry put_fails o s c ≡ record s {
              calls = s.calls ++ call_of c ∷ [];
              applied = s.applied || not (put_fails (call_of c));
            } =
              unfold retain_entry in refl in
            record {
              calls = ground (arith, r.calls, h, n, m, a, x);
              failed = ground (arith, r.failed, h, n, m, x);
              applied = ground (arith, r.applied, h, n, m, x);
            }
      ]
    ]
  ]

  -- Of a listing, `applyRetention` tries to lock every entry that has no error and is not a delete
  -- marker, in order, up to the first such entry of another name if it is not recursive, and nothing
  -- else; it returns an error exactly if an entry that it came to has one or if no object at all was
  -- locked. This is for no version id, with a listing asked for and a date that can be made.
  pub apply_retention_lem :
      (add_date : ℕ → ValidityUnit → Option ℕ) (mode : Bytes) (validity : ℕ) (unit : ValidityUnit)
      (until : Option ℕ) (listed : List ClientContent)
      → retain_until add_date mode validity unit ≡ ok until
      → is_empty o.version_id ≡ true
      → (o.recursive || o.with_older_versions) ≡ true
      → apply_retention put_fails o add_date mode validity unit listed ≡ record {
        calls = calls_of (lockable listed);
        failed = some_of has_error (seen listed) || not (some_put (lockable listed));
        exits = false;
      }
  unfolding apply_retention
  apply_retention_lem add_date mode validity unit until listed d v g =
      let r = retain_entries-Retained listed no_locks in
      let t = retain_entries put_fails o no_locks listed in
      let many : (not (is_empty o.version_id) || not o.recursive && not o.with_older_versions)
          ≡ false =
        ground (arith, v, g) in
      rw (d, apply_retention) (rw many (ground (arith, r.calls, r.failed, r.applied)))
