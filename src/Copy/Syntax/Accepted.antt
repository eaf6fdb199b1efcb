-- ===== src/Copy/Syntax/Accepted.antt =====
-- What a copy's arguments are when `checkCopySyntax` of cmd/cp-url-syntax.go accepts them.
use oss_mc.Base.{
  Bool, true, false, not, ◌&&◌, List, [], ◌∷◌, ◌≡◌, ◌≢◌, ◌⊎◌, refl, arith, Bytes, All, Fallible, ok,
  err, ◌>>=◌, >>=-ok, length, ltb, ◌<◌, if◌then◌else◌,
}
use oss_mc.ClientUrl.{new_client_url}
use oss_mc.Content.{ClientContent, is_dir}
use oss_mc.Copy.{CopyUrlsType, guess_copy_url_type}
use oss_mc.Copy.Syntax.{
  stat_source, source_client, requires_recursive, SyntaxError, usage, version_with_many_sources,
  zip_with_rewind, no_bucket_name, retention_flags_required, unable_to_validate, unable_to_guess,
  CopyFlags, Check, refuse_if, but_last, last, is_url_contains, check_target,
  check_copy_syntax_type_c, check_folder, check_sources, check_type, check_copy_syntax, copy_opts,
}
use oss_mc.Errors.{Error}
use oss_mc.Strings.Laws.{equal_iff}
use oss_mc.Remote.{Remote, Client, url2_stat, first_url2_stat}
use oss_mc.Strings.{equal, is_empty}

passed :
    (bad : Bool) (e : SyntaxError) (next : Unit {0} → Check)
    → (refuse_if bad e >>= next) ≡ ok tt
    → (bad ≡ false) × (next tt ≡ ok tt)
passed true e next h = cc
passed false e next h = (refl, h)

module _ (remote : Remote) (o : CopyFlags) where
  -- The source can be found, alone or by the first object below it.
  abbrev IsFound : Bytes → Type 0
  IsFound src =
      (c : ClientContent) × ((if not o.recursive
          then url2_stat remote src o.version_id o.time_ref o.zip
          else first_url2_stat remote src o.time_ref o.zip)
        ≡ ok c)

  -- What the checks have seen to.
  record IsAccepted : Type 0 where
    pub two_args : 1 < length o.args
    pub sources_found : All IsFound (but_last o.args)
    pub one_version : (is_empty o.version_id ≡ true) ⊎ (length (but_last o.args) < 2)
    pub has_bucket :
        (is_empty (new_client_url (last o.args)).host ≡ true)
        ⊎ ((new_client_url (last o.args)).path ≢ (new_client_url (last o.args)).separator ∷ [])
    pub retention_flags : is_empty o.retention_duration ≡ is_empty o.retention_mode
    pub type : CopyUrlsType
    pub version : Bytes
    pub guessed : guess_copy_url_type remote (copy_opts o) ≡ ok (type, version)
    pub type_checked : check_type remote o type ≡ ok tt

  found_one :
      (src : Bytes) (r : Fallible Error ClientContent) (rest : Check)
      → elim r [ err e ↦ err (unable_to_validate src) | ok content ↦ rest ] ≡ ok tt
      → ((c : ClientContent) × (r ≡ ok c)) × (rest ≡ ok tt)
  found_one src (err e) rest h = cc
  found_one src (ok c) rest h = ((c, refl), h)

  All-IsFound : (srcs : List Bytes) → check_sources remote o srcs ≡ ok tt → All IsFound srcs
  unfolding check_sources
  All-IsFound [] h = tt
  All-IsFound (src ∷ srcs) h =
      let (found, rest) = found_one src _ (check_sources remote o srcs) h in
      (found, All-IsFound srcs rest)

  guessed_one :
      (r : Fallible Error (CopyUrlsType × Bytes))
      → elim r [ err e ↦ err unable_to_guess | ok (type, version) ↦ check_type remote o type ]
        ≡ ok tt
      → (tv : CopyUrlsType × Bytes) × (r ≡ ok tv) × (check_type remote o tv.0 ≡ ok tt)
  guessed_one (err e) h = cc
  guessed_one (ok (type, version)) h = ((type, version), refl, h)

  -- Arguments that are accepted are two at least, every source can be found, a version is given for
  -- one source only, the path of a target with a host is not the separator alone, the retention flags are both given or
  -- both left out, and the type of the copy is known and its own checks have passed.
  check_copy_syntax-IsAccepted : check_copy_syntax remote o ≡ ok tt → IsAccepted
  unfolding check_copy_syntax
  check_copy_syntax-IsAccepted h =
      let (a, h1) = passed (ltb (length o.args) 2) usage _ h in
      let (b, h2) =
        passed (not (is_empty o.version_id) && ltb 1 (length (but_last o.args)))
          version_with_many_sources _ h1 in
      let (c, h3) = passed (o.zip && not (is_empty o.rewind)) zip_with_rewind _ h2 in
      let (_, (d, h4)) = >>=-ok _ (check_sources remote o (but_last o.args)) h3 in
      let (e, h5) =
        passed
          (not (is_empty (new_client_url (last o.args)).host)
            && equal (new_client_url (last o.args)).path
                ((new_client_url (last o.args)).separator ∷ []))
          no_bucket_name _ h4 in
      let (f, h6) =
        passed (not (is_empty o.retention_duration) && is_empty o.retention_mode)
          retention_flags_required _ h5 in
      let (g, h7) =
        passed (is_empty o.retention_duration && not (is_empty o.retention_mode))
          retention_flags_required _ h6 in
      let ((type, version), guessed, checked) =
        guessed_one (guess_copy_url_type remote (copy_opts o)) h7 in
      record {
        two_args = ground (arith, a);
        sources_found = All-IsFound (but_last o.args) d;
        one_version = ground (arith, b);
        has_bucket = ground (
          arith,
          e,
          equal_iff (new_client_url (last o.args)).path
              ((new_client_url (last o.args)).separator ∷ []),
        );
        retention_flags = ground (arith, f, g);
        type = type;
        version = version;
        guessed = guessed;
        type_checked = checked;
      }

  -- A source folder is copied only with --recursive, and not into itself: the target, a slash put
  -- behind it, does not begin with the source, a separator put behind it.
  check_copy_syntax_type_c_lem :
      (src tgt : Bytes) (content : ClientContent) (client : Client)
      → check_copy_syntax_type_c remote o (src ∷ []) tgt ≡ ok tt
      → url2_stat remote src [] o.time_ref o.zip ≡ ok content
      → remote.new_client src ≡ ok client
      → is_dir content.type ≡ true
      → (o.recursive ≡ true) × (is_url_contains src tgt (client.get_url.separator ∷ []) ≡ false)
  unfolding check_copy_syntax_type_c check_folder
  check_copy_syntax_type_c_lem src tgt content client h s n d =
      let (_, (_, h1)) = >>=-ok _ (check_target remote tgt o.time_ref) h in
      let h2 = rw (s, stat_source) at h1 in
      let h3 = rw (n, source_client) at h2 in
      let h4 = rw (d, check_folder) at h3 in
      let (r, h5) = passed (not o.recursive) (requires_recursive src) _ h4 in
      (ground arith, ground arith)
