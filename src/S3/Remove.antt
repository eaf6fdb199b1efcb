-- ===== src/S3/Remove.antt =====
-- `Remove` of cmd/client-s3.go: objects sent in a batch for each bucket. What the client does is the
-- list of its events in order. Parameters, by the number of contents received so far: the results that
-- come in while an object waits to be sent, those that are left when a batch is closed, and the answer
-- to the removal of a bucket; `force_delete` and `error_text` are answers of the SDK.
pub mod Quiet
pub mod Batches
use oss_mc.Base.{
  ℕ, zero, suc, ◌+◌, Bool, true, false, not, ◌&&◌, ◌||◌, List, [], ◌∷◌, ◌++◌, Option, none, some,
  Bytes, if◌then◌else◌, map, take, drop, length,
}
use oss_mc.Content.{ClientContent}
use oss_mc.Errors.{Error, other}
use oss_mc.Rm.{RemoveResult}
use oss_mc.S3.{S3Client, split_path, url2_bucket_and_object}
use oss_mc.Strings.{codes, equal, index, is_empty}

pub data Event : Type 0 where
  -- a batch for a bucket, an object with its version sent to it, and its end
  opens : Bytes → Event
  sends : Bytes → Bytes → Event
  closes : Event
  reports : RemoveResult → Event
  removes_bucket : Bytes → Event
  forces : Bytes → Bytes → Event

-- How the sender ends: behind the last content, by returning before, or never.
pub data RemoveEnd : Type 0 where
  finished returns hangs : RemoveEnd

pub data Received : Type 0 where
  received : ClientContent → Received
  cancelled : Error → Received

abbrev pub no_result : RemoveResult
no_result = record {
  bucket_name = [];
  object_name = [];
  object_version_id = [];
  delete_marker = false;
  delete_marker_version_id = [];
  err = none;
}

abbrev pub error_result : Bytes → Error → RemoveResult
error_result bucket e = record no_result { bucket_name = bucket; err = some e }

-- a result passed on under the name of a bucket
abbrev pub labelled : Bytes → RemoveResult → Event
labelled bucket r = elim r.err [
  | some e ↦ reports (error_result bucket e)
  | none ↦ reports (record r { bucket_name = bucket })
]

-- `strings.Replace(s, old, new, 1)`
unfoldable pub replace_once : Bytes → Bytes → Bytes → Bytes
replace_once s old new = elim (index s old) [
  | none ↦ s
  | some i ↦ take i s ++ new ++ drop (i + length old) s
]

unfoldable pub worm_text : RemoveResult → Bytes → Bytes
worm_text r text = replace_once text (codes "Object is WORM protected") (
    codes "Object, '"
    ++ r.object_name
    ++ codes " (Version ID="
    ++ r.object_version_id
    ++ codes ")' is WORM protected")

-- the events of a part, and the rest if the part goes on
abbrev pub then_events :
    List Event × Option RemoveEnd → List Event × RemoveEnd → List Event × RemoveEnd
then_events (es, none) next = (es ++ next.0, next.1)
then_events (es, some end) next = (es, end)

abbrev pub close_if : Bool → List Event
close_if opened = if opened then closes ∷ [] else []

module _ (error_text : Error → Bytes) (arrives left : ℕ → List RemoveResult)
    (remove_bucket : ℕ → Bytes → Option Error) (force_delete : Bytes → Bytes → Option Error)
    (c : S3Client) (is_incomplete is_remove_bucket : Bool) where
  -- a result passed on at the end
  abbrev pub labelled_last : Bytes → RemoveResult → Event
  labelled_last bucket r = elim r.err [
    | some e ↦ reports (error_result [] (other (worm_text r (error_text e))))
    | none ↦ reports (record r { bucket_name = bucket })
  ]

  -- the removal of a bucket, whose error is reported under a name
  unfoldable pub end_bucket : ℕ → Bytes → Bytes → List Event × Option RemoveEnd
  end_bucket n prev name =
      if is_remove_bucket && not is_incomplete
      then elim (remove_bucket n prev) [
        | none ↦ (removes_bucket prev ∷ [], none)
        | some e ↦ (removes_bucket prev ∷ reports (error_result name e) ∷ [], some returns)
      ]
      else ([], none)

  -- the batch of another bucket
  unfoldable pub change_bucket : ℕ → Bytes → Bool → Bytes → List Event × Option RemoveEnd
  change_bucket n prev opened bucket =
      if is_empty prev
      then (opens bucket ∷ [], none)
      else if equal prev bucket
      then ([], none)
      else elim (end_bucket n prev bucket).1 [
        | none ↦ (
          close_if opened
              ++ (map (labelled bucket) (left n)
                  ++ ((end_bucket n prev bucket).0 ++ opens bucket ∷ [])),
          none,
        )
        | some end ↦ (
          close_if opened ++ (map (labelled bucket) (left n) ++ (end_bucket n prev bucket).0),
          some end,
        )
      ]

  -- whether the channel of the batch is opened behind that
  unfoldable pub is_open_for : Bytes → Bool → Bytes → Bool
  is_open_for prev opened bucket = if is_empty prev || not (equal prev bucket) then true else opened

  -- An object is sent to the batch, and a name that is empty ends it. On a closed batch nothing can be
  -- sent any more.
  unfoldable pub send_name : ℕ → Bytes → Bool → Bytes → Bytes → List Event × Option RemoveEnd
  send_name n bucket opened name version =
      if is_empty name
      then (close_if opened, none)
      else if opened
      then (map (labelled bucket) (arrives n) ++ sends name version ∷ [], none)
      else ([], some hangs)

  unfoldable pub finish_remove : ℕ → Bytes → Bool → List Event × RemoveEnd
  finish_remove n prev opened =
      if is_empty prev
      then (close_if opened, finished)
      else then_events (close_if opened ++ map (labelled_last prev) (left n), none)
          (then_events (end_bucket n prev prev) ([], finished))

  unfoldable pub remove_contents : ℕ → Bytes → Bool → List Received → List Event × RemoveEnd
  remove_contents n prev opened [] = finish_remove n prev opened
  remove_contents n prev opened (cancelled e ∷ rs) = (reports (error_result [] e) ∷ [], returns)
  remove_contents n prev opened (received x ∷ rs) =
      let (bucket, name) = split_path c x.url.path in
      let open_now = is_open_for prev opened bucket in
      let skipped = is_empty bucket in
      let rest =
        remove_contents (suc n) (if skipped then prev else bucket)
          (if skipped then opened else open_now && not (is_empty name)) rs in
      if skipped
      then rest
      else then_events (change_bucket n prev opened bucket)
          (then_events (send_name n bucket open_now name x.version_id) rest)

  abbrev force_remove : Bytes × Bytes → List Event × RemoveEnd
  force_remove (bucket, object) = elim (force_delete bucket object) [
    | some e ↦ (forces bucket object ∷ reports (error_result [] e) ∷ [], returns)
    | none ↦ (
      forces bucket object
          ∷ reports (record no_result { bucket_name = bucket; object_name = object })
          ∷ [],
      returns,
    )
  ]

  unfoldable pub remove : Bool → List Received → List Event × RemoveEnd
  remove is_force_del contents =
      if is_force_del
      then force_remove (url2_bucket_and_object c.target_url)
      else if is_remove_bucket && not (is_empty (url2_bucket_and_object c.target_url).1)
      then (
        reports (
              error_result [] (
                other (
                  codes
                    "use `mc rm` command to delete prefixes, or point your bucket directly, `mc rb <alias>/<bucket-name>/`")))
            ∷ [],
        returns,
      )
      else remove_contents 0 [] false contents
