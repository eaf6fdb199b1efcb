-- ===== src/Copy/Syntax.antt =====
-- cmd/cp-url-syntax.go: the checks of a copy's arguments. Each `fatalIf` ends the program, so the
-- checks stop at the first that fails; what it says is the error. `time_ref` is what
-- `parseRewindFlag` makes of the rewind option.
pub mod Accepted
use oss_mc.Base.{
  ℕ, suc, Bool, true, false, not, ◌||◌, ◌&&◌, List, [], ◌∷◌, ◌++◌, Bytes, Fallible, ok, err, ◌>>=◌,
  length, ltb, ◌==◌, if◌then◌else◌,
}
use oss_mc.ClientUrl.{new_client_url}
use oss_mc.Content.{ClientContent, is_regular, is_dir}
use oss_mc.Copy.{
  PrepareCopyUrlsOpts, CopyUrlsType, type_invalid, type_a, type_b, type_c, type_d,
  guess_copy_url_type, first_source,
}
use oss_mc.Remote.{Remote, Client, url2_stat, first_url2_stat}
use oss_mc.Strings.{equal, is_empty, has_prefix, has_suffix}

pub data SyntaxError : Type 0 where
  usage version_with_many_sources zip_with_rewind no_bucket_name retention_flags_required :
      SyntaxError
  unable_to_validate unable_to_stat not_a_file not_a_folder requires_recursive : Bytes → SyntaxError
  unable_to_guess wrong_number_of_sources into_itself : SyntaxError

-- the command line, as far as it is checked
pub record CopyFlags : Type 0 where
  pub args : List Bytes
  pub recursive : Bool
  pub zip : Bool
  pub rewind : Bytes
  pub time_ref : ℕ
  pub version_id : Bytes
  pub retention_duration : Bytes
  pub retention_mode : Bytes

abbrev pub Check : Type 0
Check = Fallible SyntaxError (Unit {0})

-- `if bad { fatalIf(...) }`
abbrev pub refuse_if : Bool → SyntaxError → Check
refuse_if true e = err e
refuse_if false e = ok tt

-- all arguments but the last one, and the last one
unfoldable pub but_last : List Bytes → List Bytes
but_last [] = []
but_last (a ∷ []) = []
but_last (a ∷ b ∷ more) = a ∷ but_last (b ∷ more)

unfoldable pub last : List Bytes → Bytes
last [] = []
last (a ∷ []) = a
last (a ∷ b ∷ more) = last (b ∷ more)

-- `isURLContains` of cmd/utils.go
unfoldable pub is_url_contains : Bytes → Bytes → Bytes → Bool
is_url_contains src tgt sep =
    let closed = λ (url : Bytes). if has_suffix url sep then url else url ++ sep in
    has_prefix (closed tgt) (closed src)

abbrev pub copy_opts : CopyFlags → PrepareCopyUrlsOpts
copy_opts o = record {
  source_urls = but_last o.args;
  target_url = last o.args;
  is_recursive = o.recursive;
  older_than = [];
  newer_than = [];
  time_ref = o.time_ref;
  version_id = o.version_id;
  is_zip = o.zip;
}

module _ (remote : Remote) where
  -- the target, if it exists, is a folder
  unfoldable pub check_target : Bytes → ℕ → Check
  check_target tgt time = elim (url2_stat remote tgt [] time false) [
    | err e ↦ ok tt
    | ok content ↦ refuse_if (not (is_dir content.type)) (not_a_folder tgt)
  ]

  abbrev pub stat_source : Bytes → Bytes → ℕ → Bool → Fallible SyntaxError ClientContent
  stat_source src version time zip = elim (url2_stat remote src version time zip) [
    | err e ↦ err (unable_to_stat src)
    | ok content ↦ ok content
  ]

  unfoldable pub check_copy_syntax_type_a : Bytes → Bytes → Bool → ℕ → Check
  check_copy_syntax_type_a src version zip time = do
    content ← stat_source src version time zip
    refuse_if (not (is_regular content.type)) (not_a_file src)

  unfoldable pub check_copy_syntax_type_b : Bytes → Bytes → Bytes → Bool → ℕ → Check
  check_copy_syntax_type_b src version tgt zip time = do
    content ← stat_source src version time zip
    _ ← refuse_if (not (is_regular content.type)) (not_a_file src)
    check_target tgt time

  -- a source folder is copied with --recursive only, and not into itself
  unfoldable pub check_folder : CopyFlags → Bytes → Bytes → ClientContent → Client → Check
  check_folder o tgt src content client =
      if is_dir content.type
      then (do
        _ ← refuse_if (not o.recursive) (requires_recursive src)
        refuse_if (is_url_contains src tgt (client.get_url.separator ∷ [])) into_itself)
      else ok tt

  abbrev pub source_client : Bytes → Fallible SyntaxError Client
  source_client src = elim (remote.new_client src) [
    | err e ↦ err (unable_to_stat src)
    | ok client ↦ ok client
  ]

  unfoldable pub check_copy_syntax_type_c : CopyFlags → List Bytes → Bytes → Check
  check_copy_syntax_type_c o [] tgt = err wrong_number_of_sources
  check_copy_syntax_type_c o (src ∷ []) tgt = do
    _ ← check_target tgt o.time_ref
    content ← stat_source src [] o.time_ref o.zip
    client ← source_client src
    check_folder o tgt src content client
  check_copy_syntax_type_c o (a ∷ b ∷ srcs) tgt = err wrong_number_of_sources

  -- every source can be found
  unfoldable pub check_sources : CopyFlags → List Bytes → Check
  check_sources o [] = ok tt
  check_sources o (src ∷ srcs) =
      elim (if not o.recursive
        then url2_stat remote src o.version_id o.time_ref o.zip
        else first_url2_stat remote src o.time_ref o.zip) [
          | err e ↦ err (unable_to_validate src)
          | ok content ↦ check_sources o srcs
        ]

  unfoldable pub check_type : CopyFlags → CopyUrlsType → Check
  check_type o type_a = do
    _ ← refuse_if (not (length (but_last o.args) == 1)) wrong_number_of_sources
    check_copy_syntax_type_a (first_source (but_last o.args)) o.version_id o.zip o.time_ref
  check_type o type_b = do
    _ ← refuse_if (not (length (but_last o.args) == 1)) wrong_number_of_sources
    check_copy_syntax_type_b (first_source (but_last o.args)) o.version_id (last o.args) o.zip
        o.time_ref
  check_type o type_c = check_copy_syntax_type_c o (but_last o.args) (last o.args)
  check_type o type_d = check_target (last o.args) o.time_ref
  check_type o type_invalid = err unable_to_guess

  -- the target is no object store without a bucket
  abbrev lacks_bucket : Bytes → Bool
  lacks_bucket tgt =
      let url = new_client_url tgt in not (is_empty url.host) && equal url.path (url.separator ∷ [])

  unfoldable pub check_copy_syntax : CopyFlags → Check
  check_copy_syntax o = do
    _ ← refuse_if (ltb (length o.args) 2) usage
    _ ←
        refuse_if (not (is_empty o.version_id) && ltb 1 (length (but_last o.args)))
          version_with_many_sources
    _ ← refuse_if (o.zip && not (is_empty o.rewind)) zip_with_rewind
    _ ← check_sources o (but_last o.args)
    _ ← refuse_if (lacks_bucket (last o.args)) no_bucket_name
    _ ←
        refuse_if (not (is_empty o.retention_duration) && is_empty o.retention_mode)
          retention_flags_required
    _ ←
        refuse_if (is_empty o.retention_duration && not (is_empty o.retention_mode))
          retention_flags_required
    elim (guess_copy_url_type remote (copy_opts o)) [
      | err e ↦ err unable_to_guess
      | ok (type, version) ↦ check_type o type
    ]
