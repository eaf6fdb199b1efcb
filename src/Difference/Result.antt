-- ===== src/Difference/Result.antt =====
-- What `differenceInternal` reports on listings that are in order.
use oss_mc.Base.{ℕ, ◌+◌, ◌<◌, Bool, not, List, Option, none, some, ◌≡◌, Bytes, keep, length}
use oss_mc.Content.{ClientContent}
use oss_mc.Difference.Keys.{IsAscending, has_key}
use oss_mc.Difference.Merge.{
  firsts, seconds, about_both, matched, merge-firsts, merge-seconds, merge-about_both,
}
use oss_mc.Difference.Walk.{
  key_s, key_t, pair, suffix_s, suffix_t, united, IsClean, NoTypeDiffers, walk-merge,
  changes-AboutBoth,
}
use oss_mc.Difference.{DiffMessage, difference_internal}

module _ (nfc : Bytes → Bytes) (parse_time : Bytes → Option ℕ) (source_url target_url : Bytes)
    (cmp_metadata return_similar : Bool) where
  abbrev from_source : ClientContent → Bytes
  from_source = key_s nfc parse_time source_url target_url cmp_metadata return_similar

  abbrev from_target : ClientContent → Bytes
  from_target = key_t nfc parse_time source_url target_url cmp_metadata return_similar

  abbrev messages_of : ClientContent → ClientContent → List DiffMessage
  messages_of = pair nfc parse_time source_url target_url cmp_metadata return_similar

  -- Both listings ascend by their normalized names, hold no error and only valid names, and no
  -- name stands for a regular file on one side and for something else on the other.
  pub record IsComparable (src tgt : List ClientContent) : Type 0 where
    pub clean_source :
        IsClean nfc parse_time source_url target_url cmp_metadata return_similar
          (suffix_s nfc parse_time source_url target_url cmp_metadata return_similar)
          src
    pub clean_target :
        IsClean nfc parse_time source_url target_url cmp_metadata return_similar
          (suffix_t nfc parse_time source_url target_url cmp_metadata return_similar)
          tgt
    pub ascending_source : IsAscending from_source src
    pub ascending_target : IsAscending from_target tgt
    pub one_type :
        NoTypeDiffers nfc parse_time source_url target_url cmp_metadata return_similar src tgt

  -- What the reader of the channel learns: the objects of the source with no counterpart, those of
  -- the target with none, and the messages about each pair of counterparts.
  pub record Reports (src tgt : List ClientContent) (ms : List DiffMessage) : Type 0 where
    pub only_in_source : firsts ms ≡ keep (λ s. not (has_key from_target (from_source s) tgt)) src
    pub only_in_target : seconds ms ≡ keep (λ t. not (has_key from_source (from_target t) src)) tgt
    pub in_both_listings : about_both ms ≡ matched from_source from_target messages_of src tgt

  -- On comparable listings, with more rounds than the two hold elements, the loop ends with no
  -- error, and it has reported exactly the source's objects that the target lacks, the target's
  -- that the source lacks, and the changes of those that both have, each in listing order.
  pub difference_internal-Reports :
      (fuel : ℕ) (src tgt : List ClientContent)
      → length src + length tgt < fuel
      → IsComparable src tgt
      → (ms : List DiffMessage) × (difference_internal nfc parse_time source_url target_url
            cmp_metadata return_similar fuel src tgt
          ≡ some (ms, none))
        × Reports src tgt ms
  difference_internal-Reports fuel src tgt f c =
      let both =
        changes-AboutBoth nfc parse_time source_url target_url cmp_metadata return_similar in
      (
        united nfc parse_time source_url target_url cmp_metadata return_similar src tgt,
        walk-merge nfc parse_time source_url target_url cmp_metadata return_similar fuel src tgt f
            c.clean_source c.clean_target c.one_type,
        record {
          only_in_source =
              merge-firsts from_source from_target messages_of both src tgt c.ascending_source
                c.ascending_target;
          only_in_target =
              merge-seconds from_source from_target messages_of both src tgt c.ascending_source
                c.ascending_target;
          in_both_listings =
              merge-about_both from_source from_target messages_of both src tgt c.ascending_source
                c.ascending_target;
        },
      )
