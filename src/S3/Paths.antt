-- ===== src/S3/Paths.antt =====
-- The addresses of listed objects in cmd/client-s3.go, cut into bucket and key again.
use oss_mc.Base.{ℕ, false, [], ◌∷◌, ◌++◌, Bytes, Lacks, ◌≡◌, refl}
use oss_mc.Content.{StringMap}
use oss_mc.Strings.{split_once}
use oss_mc.Strings.Laws.{trim_prefix_self}
use oss_mc.Strings.Split.{split_once_lead}
use oss_mc.S3.{
  S3Client, ObjectInfo, split_n, split_str, url2_bucket_and_object, split_path, join_path,
  build_abs_path, object_content,
}

-- a bucket without a separator, cut from its key
split_n_lem :
    (bucket key : Bytes) (sep : ℕ)
    → Lacks sep bucket
    → split_n 2 (bucket ++ sep ∷ key) sep ≡ bucket ∷ key ∷ []
unfolding split_n
split_n_lem bucket key sep h = rw (split_once_lead sep bucket key h) refl

split_rooted :
    (bucket key : Bytes) (sep : ℕ)
    → Lacks sep bucket
    → split_n 3 (sep ∷ (bucket ++ sep ∷ key)) sep ≡ [] ∷ bucket ∷ key ∷ []
unfolding split_n
split_rooted bucket key sep h =
    rw (split_once_lead sep [] (bucket ++ sep ∷ key) tt)
      (rw (split_once_lead sep bucket key h) refl)

module _ (now : ℕ) (attr_time : StringMap → ℕ) where
  -- Objects that are listed from a bucket whose name holds no separator have addresses that name them:
  -- where the bucket is not part of the host, an address is cut into just the bucket and the key of the
  -- object, both by the cut for removals and by the cut for the address of a client.
  pub split_path-object_content :
      (c : S3Client) (bucket : Bytes) (entry : ObjectInfo)
      → c.virtual_style ≡ false
      → Lacks c.target_url.separator bucket
      → (split_path c (object_content now attr_time c bucket entry).url.path ≡ (bucket, entry.key))
        × (url2_bucket_and_object (object_content now attr_time c bucket entry).url
            ≡ (bucket, entry.key))
  unfolding split_path build_abs_path join_path url2_bucket_and_object split_n split_str split_once
  split_path-object_content c bucket entry v h =
      let sep = c.target_url.separator in
      let rest = trim_prefix_self (sep ∷ []) (bucket ++ sep ∷ entry.key) in
      (
        rw (v, split_path) (rw (rest, split_path) (rw (split_n_lem bucket entry.key sep h) refl)),
        rw (split_rooted bucket entry.key sep h) refl,
      )
