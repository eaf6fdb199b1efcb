-- ===== src/CopySession.antt =====
-- cmd/cp-main.go and cmd/session-v8.go: which objects a copy takes up again. A session holds the
-- addresses of the sources in the order in which they were queued; what was copied last is written to it
-- as the results come in, in whatever order the workers send them.
pub mod Resume
use oss_mc.Base.{
  Bool, true, false, List, [], ◌∷◌, ◌++◌, Option, none, some, Bytes, if◌then◌else◌, Fallible, ok,
  err, ◌>>=◌,
}
use oss_mc.Ages.{Ending, exits}
use oss_mc.Errors.{Error, is_err_ignored}
use oss_mc.Strings.{equal, is_empty}

-- `isLastFactory`: whether a source is skipped, and the variable of the closure behind that
unfoldable pub is_last : Bytes → Bool → Bytes → Fallible Ending (Bool × Bool)
is_last last_url last source_url =
    if is_empty source_url
    then err exits
    else if is_empty last_url
    then ok (false, last)
    else if last
    then (if equal last_url source_url then ok (true, false) else ok (true, true))
    else ok (false, false)

abbrev pub put_source : Bytes → Bool → List Bytes × List Bytes → List Bytes × List Bytes
put_source url true (skipped, copied) = (url ∷ skipped, copied)
put_source url false (skipped, copied) = (skipped, url ∷ copied)

-- the queue of a session that is taken up again: what is only counted, and what is copied
unfoldable pub resume : Bytes → Bool → List Bytes → Fallible Ending (List Bytes × List Bytes)
resume last_url last [] = ok ([], [])
resume last_url last (url ∷ urls) = do
  checked ← is_last last_url last url
  others ← resume last_url checked.1 urls
  ok (put_source url checked.0 others)

-- a result of a worker, by the address of its source and its error
pub record CopyStatus : Type 0 where
  pub source_url : Bytes
  pub error : Option Error

-- What the loop over the results leaves: the last copied source, whether an error is returned, and
-- whether the command ended at an error.
pub record CopyState : Type 0 where
  pub last_copied : Bytes
  pub failed : Bool
  pub died : Bool

-- `session_flag` says whether a critical error ends the command
module _ (session_flag : Bool) where
  abbrev pub copy_failed : Error → CopyState → CopyState
  copy_failed e s =
      if is_err_ignored e
      then record s { failed = true }
      else record s { failed = true; died = session_flag }

  unfoldable pub copy_status : CopyStatus → CopyState → CopyState
  copy_status r s = elim r.error [
    | none ↦ record s { last_copied = r.source_url }
    | some e ↦ copy_failed e s
  ]

  -- the loop over the results, of a copy with a session
  unfoldable pub copy_statuses : List CopyStatus → CopyState → CopyState
  copy_statuses [] s = s
  copy_statuses (r ∷ rs) s =
      let next = copy_status r s in if next.died then next else copy_statuses rs next

-- what a command starts with
abbrev pub no_copies : CopyState
no_copies = record { last_copied = []; failed = false; died = false }
