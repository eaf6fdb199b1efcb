-- ===== src/ObjectLock/LegalHold.antt =====
-- What `setLegalHold` of cmd/legalhold-set.go does to a listing.
use oss_mc.Base.{
  Bool, true, false, not, ◌&&◌, ◌||◌, List, [], ◌∷◌, ◌++◌, ◌≡◌, inl, inr, refl, sym, arith,
  append_assoc, append-nil, if◌then◌else◌, Bool-cases, Option-cases, keep, some_of,
}
use oss_mc.Content.{ClientContent}
use oss_mc.ObjectLock.{
  LockCall, call_of, LockOptions, HoldState, no_holds, is_other_key, hold_entry, hold_entries,
  set_legal_hold,
}
use oss_mc.ObjectLock.Seen.{has_error, before, calls_of}

module _ (put_fails : LockCall → Bool) (o : LockOptions) where
  abbrev pub seen : List ClientContent → List ClientContent
  seen = before (λ c. not (has_error c) && is_other_key o c)

  -- The entries that are held.
  abbrev pub holdable : List ClientContent → List ClientContent
  holdable cs = keep (λ c. not (has_error c)) (seen cs)

  -- The calls that succeed.
  abbrev pub succeeding : List ClientContent → List LockCall
  succeeding cs = calls_of (keep (λ c. not (put_fails (call_of c) || o.json)) cs)

  record Held (s : HoldState) (cs : List ClientContent) (t : HoldState) : Type 0 where
    calls : t.calls ≡ s.calls ++ calls_of (holdable cs)
    printed : t.printed ≡ s.printed ++ succeeding (holdable cs)
    failed : t.failed ≡ (s.failed || some_of has_error (seen cs))

  hold_entries-Held :
      (cs : List ClientContent) (s : HoldState) → Held s cs (hold_entries put_fails o s cs)
  unfolding hold_entries
  hold_entries-Held [] s = record {
    calls = sym (append-nil s.calls);
    printed = sym (append-nil s.printed);
    failed = ground arith;
  }
  hold_entries-Held (c ∷ cs) s = elim (Option-cases c.err) [
    | inr (e, h) ↦
        let r = hold_entries-Held cs (record s { failed = true }) in
        record {
          calls = ground (arith, r.calls, h);
          printed = ground (arith, r.printed, h);
          failed = ground (arith, r.failed, h);
        }
    | inl h ↦ elim (Bool-cases (is_other_key o c)) [
      | inl y ↦
          let e = append-nil s.calls in
          let f = append-nil s.printed in
          record {
            calls = ground (arith, e, h, y);
            printed = ground (arith, f, h, y);
            failed = ground (arith, h, y);
          }
      | inr m ↦
          let r = hold_entries-Held cs (hold_entry put_fails o s c) in
          let a = append_assoc s.calls (call_of c ∷ []) (calls_of (holdable cs)) in
          let b = append_assoc s.printed (call_of c ∷ []) (succeeding (holdable cs)) in
          let e = append-nil s.printed in
          let x : hold_entry put_fails o s c ≡ record s {
            calls = s.calls ++ call_of c ∷ [];
            printed = s.printed ++ (if put_fails (call_of c) || o.json then [] else call_of c ∷ []);
          } =
            unfold hold_entry in refl in
          record {
            calls = ground (arith, r.calls, h, m, a, x);
            printed = ground (arith, r.printed, h, m, b, e, x);
            failed = ground (arith, r.failed, h, m, x);
          }
    ]
  ]

  -- Of a listing, `setLegalHold` sets the hold on every entry without an error, in order, up to the
  -- first such entry of another name if it is not recursive, and nothing else; it prints a message
  -- for those that succeed, unless the output is JSON, and returns an error exactly if an entry that
  -- it came to has one: that setting a hold fails is not seen in its status.
  pub set_legal_hold_lem :
      (listed : List ClientContent)
      → (o.recursive || o.with_older_versions) ≡ true
      → set_legal_hold put_fails o listed ≡ record {
        calls = calls_of (holdable listed);
        printed = succeeding (holdable listed);
        failed = some_of has_error (seen listed);
      }
  unfolding set_legal_hold
  set_legal_hold_lem listed g =
      let r = hold_entries-Held listed no_holds in
      let many : (not o.recursive && not o.with_older_versions) ≡ false = ground (arith, g) in
      rw many (ground (arith, r.calls, r.printed, r.failed))
