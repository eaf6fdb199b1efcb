-- ===== src/S3/Listing/Contents.antt =====
-- The contents that a listing of cmd/client-s3.go sends. The listing of incomplete uploads and
-- `sort.Slice` are parameters.
use oss_mc.Base.{
  ℕ, ◌-◌, Bool, true, false, not, ◌&&◌, ◌||◌, List, [], ◌∷◌, ◌++◌, Option, none, some, Bytes, ok,
  err, if◌then◌else◌, ◌==◌,
}
use oss_mc.ClientUrl.{object_storage}
use oss_mc.Content.{ClientContent, StringMap, content_of_url}
use oss_mc.Duration.{two64}
use oss_mc.Errors.{Error, other}
use oss_mc.S3.{
  BucketInfo, ObjectInfo, S3Client, url2_bucket_and_object, bucket_info2_client_content,
  object_info2_client_content,
}
use oss_mc.S3.Listing.{
  DirOpt, dir_first, dir_last, S3ListOptions, S3Api, list_versions, list_object_wrapper,
  bucket_stat,
}
use oss_mc.Strings.{codes, equal, has_suffix, is_empty, less}

-- How the sender goes on: behind a loop, by returning, by a panic, or by a listing without versions.
pub data Stop : Type 0 where
  goes_on returns panics falls_back : Stop

abbrev pub Sent : Type 0
Sent = List ClientContent × Stop

abbrev pub then_send : Sent → Sent → Sent
then_send (cs, goes_on) next = (cs ++ next.0, next.1)
then_send (cs, returns) next = (cs, returns)
then_send (cs, panics) next = (cs, panics)
then_send (cs, falls_back) next = (cs, falls_back)

abbrev pub error_content : Error → ClientContent
error_content e =
    record (content_of_url (record {
      type = object_storage;
      scheme = [];
      host = [];
      path = [];
      scheme_separator = [];
      separator = 0;
    })) { err = some e }

unfoldable pub by_name_with_slash : BucketInfo → BucketInfo → Bool
by_name_with_slash a b = less (a.name ++ codes "/") (b.name ++ codes "/")

module _ (api : S3Api) (now : ℕ) (attr_time : StringMap → ℕ)
    (sort_slice : (BucketInfo → BucketInfo → Bool) → List BucketInfo → List BucketInfo)
    (list_incomplete : S3ListOptions → Sent) (c : S3Client) where
  abbrev content_sent : Option ClientContent → Sent
  content_sent none = ([], panics)
  content_sent (some x) = (x ∷ [], goes_on)

  abbrev one_object : (Error → Sent) → Bytes → ObjectInfo → Sent
  one_object on_error bucket o = elim o.err [
    | some e ↦ on_error e
    | none ↦ content_sent (object_info2_client_content now attr_time c bucket o)
  ]

  -- the loops over objects: the first error ends a listing without versions
  unfoldable pub send_objects : (Error → Sent) → Bytes → List ObjectInfo → Sent
  send_objects on_error bucket [] = ([], goes_on)
  send_objects on_error bucket (o ∷ os) =
      then_send (one_object on_error bucket o) (send_objects on_error bucket os)

  abbrev pub ends_with_error : Error → Sent
  ends_with_error e = (error_content e ∷ [], returns)

  abbrev pub ends_versions : Error → Sent
  ends_versions e =
      if equal (api.error_code e) (codes "NotImplemented")
      then ([], falls_back)
      else (error_content e ∷ [], goes_on)

  -- the loop over the buckets, with the objects of each between the places of its own content
  unfoldable pub send_buckets : Bool → Bool → (Bytes → Sent) → List BucketInfo → Sent
  send_buckets first last objects [] = ([], goes_on)
  send_buckets first last objects (b ∷ bs) =
      let own = bucket_info2_client_content c b ∷ [] in
      then_send (if first then own else [], goes_on)
        (then_send (objects b.name)
          (then_send (if last then own else [], goes_on) (send_buckets first last objects bs)))

  abbrev pub is_dir_first : DirOpt → Bool
  is_dir_first dir_first = true
  is_dir_first o = false

  abbrev pub is_dir_last : DirOpt → Bool
  is_dir_last dir_last = true
  is_dir_last o = false

  unfoldable pub list_recursive_in_routine : S3ListOptions → Sent
  list_recursive_in_routine opts =
      let (bucket, object) = url2_bucket_and_object c.target_url in
      let objects = λ (b : Bytes). send_objects ends_with_error b (
        list_object_wrapper api c b object
          (record opts {
            recursive = true;
            time_ref = 0;
            with_older_versions = false;
            with_delete_markers = false;
          })
          (two64 - 1)) in
      if is_empty bucket && is_empty object
      then elim api.list_buckets [
        | err e ↦ ends_with_error e
        | ok buckets ↦
            send_buckets (is_dir_first opts.show_dir) (is_dir_last opts.show_dir) objects
              (sort_slice by_name_with_slash buckets)
      ]
      else objects bucket

  unfoldable pub list_in_routine : S3ListOptions → Sent
  list_in_routine opts =
      let (bucket, object) = url2_bucket_and_object c.target_url in
      if opts.list_zip && (is_empty bucket || is_empty object)
      then ends_with_error (other (codes "listing zip files must provide bucket and object"))
      else if is_empty bucket && is_empty object
      then elim api.list_buckets [
        | err e ↦ ends_with_error e
        | ok buckets ↦ send_buckets true false (λ b. ([], goes_on)) buckets
      ]
      else if not (is_empty bucket)
          && not (has_suffix c.target_url.path (c.target_url.separator ∷ []))
          && is_empty object
      then elim (bucket_stat api c bucket) [ err e ↦ ends_with_error e | ok x ↦ (x ∷ [], goes_on) ]
      else send_objects ends_with_error bucket (
          list_object_wrapper api c bucket object
            (record opts {
              recursive = false;
              time_ref = 0;
              with_older_versions = false;
              with_delete_markers = false;
            })
            (two64 - 1))

  unfoldable pub unversioned_list : S3ListOptions → Sent
  unversioned_list opts =
      if opts.incomplete
      then list_incomplete opts
      else if opts.recursive
      then list_recursive_in_routine opts
      else list_in_routine opts

  abbrev pub without_versions : S3ListOptions → Sent → Sent
  without_versions opts (cs, falls_back) =
      (cs ++ (unversioned_list opts).0, (unversioned_list opts).1)
  without_versions opts (cs, goes_on) = (cs, goes_on)
  without_versions opts (cs, returns) = (cs, returns)
  without_versions opts (cs, panics) = (cs, panics)

  unfoldable pub versioned_list : S3ListOptions → Sent
  versioned_list opts =
      let (bucket, object) = url2_bucket_and_object c.target_url in
      without_versions opts (
        if is_empty bucket && is_empty object
        then elim api.list_buckets [
          | err e ↦ ends_with_error e
          | ok buckets ↦
              send_buckets (not (is_dir_last opts.show_dir)) (is_dir_last opts.show_dir)
                (λ b. send_objects ends_versions b (list_versions api b [] opts))
                (if opts.recursive then sort_slice by_name_with_slash buckets else buckets)
        ]
        else send_objects ends_versions bucket (list_versions api bucket object opts))

  unfoldable pub s3_list : S3ListOptions → Sent
  s3_list opts =
      if not (opts.time_ref == 0) || opts.with_older_versions
      then versioned_list opts
      else unversioned_list opts
