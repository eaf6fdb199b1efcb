-- ===== src/Tests/Keys.antt =====
-- Encryption keys: `parseEncryptionKeys` and `getSSE` of cmd/utils.go on a small text.
use oss_mc.Base.{List, [], ◌∷◌, ◌++◌, some, ◌≡◌, inl, inr, refl, arith, Bytes, ok}
use oss_mc.EncryptionKeys.{PrefixSsePair, read_keys, get_sse}
use oss_mc.EncryptionKeys.Choice.{Choice, get_sse-Choice}
use oss_mc.EncryptionKeys.Reading.{Entries, no_more, entry, add_all, Reads, read_keys-Reads}
use oss_mc.EncryptionKeys.Written.{read_keys_complete}
use oss_mc.ArgKvs.{ArgKv}
use oss_mc.Strings.{codes}

abbrev first_key : Bytes
first_key = codes "32byteslongsecretkeymustbegiven1"

abbrev second_key : Bytes
second_key = codes "32byteslongsecretkeymustbegiven2"

abbrev deep : PrefixSsePair
deep = record { prefix = codes "s3/a/b"; sse = first_key }

abbrev wide : PrefixSsePair
wide = record { prefix = codes "s3/a"; sse = second_key }

abbrev two_keys : Bytes
two_keys = codes "s3/a/b=" ++ first_key ++ codes ",s3/a=" ++ second_key

two-Entries : Entries two_keys (deep ∷ wide ∷ [])
two-Entries =
    entry deep (ground arith) refl (inr refl)
      (entry wide (ground arith) refl (inl (refl, refl)) no_more)

read_keys-Reads_example : Reads [] two_keys (read_keys 80 [] two_keys)
read_keys-Reads_example = read_keys-Reads 80 [] two_keys (omega arith)

read_keys_complete_example : read_keys 80 [] two_keys ≡ some (ok (add_all [] (deep ∷ wide ∷ [])))
read_keys_complete_example = read_keys_complete 80 [] two-Entries (omega arith)

get_sse-Choice_example :
    Choice (codes "s3/a/c") (deep ∷ wide ∷ []) (get_sse (codes "s3/a/c") (deep ∷ wide ∷ []))
get_sse-Choice_example =
    get_sse-Choice (codes "s3/a/c") (deep ∷ wide ∷ []) ((omega arith, tt), (tt, tt))

abbrev settings : List ArgKv
settings = record { key = codes "region"; value = codes "eu" } ∷ []
