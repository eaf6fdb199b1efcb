-- ===== src/Lib.antt =====
-- The command line client oss-mc copies, compares, mirrors, lists and removes objects of object stores
-- and local folders. This library models the parts of it that decide: what an address means, how two
-- listings differ, what a copy and a mirror transfer and remove, which objects are found, listed,
-- removed, undone and locked, which lifecycle rules are made and accepted, how durations and
-- encryption keys are read, what the client for object stores lists and sends to be removed, what a
-- resumed copy skips, and how the workers of a transfer and the pipe between two goroutines go on.
--
-- Files, with the code that they model:
--   Base, Base/Lists, Base/Tests: shared names and lemmas on lists, options and Boolean tests.
--   Strings and its children: what the code uses of Go's strings package, over bytes.
--   ClientUrl: cmd/client-url.go. `new_client_url` is newClientURL, cut at getScheme and splitSpecial;
--     `join_urls`, `to_string`, `url_join_path` and `url2_alias` are joinURLs, String, urlJoinPath and
--     url2Alias. The build is one whose path separator is the slash.
--   Errors: cmd/typed-errors.go, cmd/client-errors.go, and isErrIgnored of cmd/utils.go.
--   Content: ClientContent of cmd/client.go.
--   Difference: cmd/difference.go. One round of the loop of differenceInternal is `diff_step`, the
--     loop is `difference_internal`, and `report` is what difference passes on. The channels are
--     lists: an element is pulled where the code receives one.
--   Duration: cmd/duration.go. An int64 is the number that its 64 bits spell. The one product of floating
--     point numbers, the share of the digits behind a point, is a parameter; what is said of texts with a
--     point takes it to be at most twice the unit.
--   LocalFiles: deleteFile and Remove of cmd/client-fs.go, `delete_file` and `remove_files`.
--   Mirror: cmd/mirror-url.go. `delta_source_target` is deltaSourceTarget, over the messages of the
--     comparison.
--   Remote: what the copying commands ask of a client: url2Stat and firstURL2Stat of cmd/client-url.go
--     and isAliasURLDir of cmd/common-methods.go, over the interface of cmd/client.go.
--   Ages: isOlder and isNewer of cmd/utils.go.
--   Copy: cmd/cp-url.go. Each prepareCopyURLs function is a function of the same name into the list
--     of what its goroutine sends; `prepare_copy_urls` also says how the sender stops.
--   Copy/Syntax: cmd/cp-url-syntax.go, each `fatalIf` as an error that ends the checks.
--   Du: cmd/du-main.go. `du` is the function of that name, a nested call a step of fuel; Du/Tree holds the
--     trees of folders that clients list.
--   CopySession: the loops of doCopySession in cmd/cp-main.go, with isLastFactory of cmd/session-v8.go:
--     `resume` is the queue of a session that is taken up again, `copy_statuses` the loop over results.
--   EncryptionKeys: parseEncryptionKeys and getSSE of cmd/utils.go.
--   ArgKvs: cmd/arg-kvs.go.
--   Find: matchFind, nameMatch, matchRegexMaps, trimSuffixAtMaxDepth and getAliasedPath of cmd/find.go.
--   Lifecycle: cmd/ilm. `get_lifecycle_options`, `to_ilm_rule`, `apply_rule_fields` and `remove_ilm_rule`
--     are GetLifecycleOptions, ToILMRule, ApplyRuleFields and RemoveILMRule of cmd/ilm/options.go;
--     Lifecycle/Flags reads the flags, Lifecycle/Validation holds the checks of cmd/ilm/parse.go and
--     Lifecycle/Tags the texts of tags.
--   Parallel: cmd/parallel-manager.go. `add_worker`, `queue_task`, `take_lock`, `start_task`,
--     `send_result`, `finish_task`, `stop` and `quit` are the steps of callers and workers, none where one
--     waits; `Reach` are the states that they can come to, in any order. The receiver of the results is
--     taken to be ready at any time, and a pending writer does not hold up new readers of the lock.
--   PipeChan: cmd/pipechan.go. `writer_step` and `reader_step` are the steps of its two goroutines and
--     `Reach` what they come to, in any order. The consumer of the output is taken to receive each element
--     at once, so that a send to the output never waits, and an unbuffered channel is not modelled.
--   Versions: cmd/ls.go. `do_list` is doList over the entries of a listing, `add_version` the step that
--     collects the versions of one object, shared with the loop of undoURL.
--   Undo: cmd/undo-main.go. `undo_url` is undoURL, with a call of undoLastNOperations for each object.
--   ObjectLock: cmd/retention-common.go and cmd/legalhold-set.go. `apply_retention` is applyRetention and
--     `set_legal_hold` setLegalHold, over the entries of a listing.
--   Rm: cmd/rm-main.go. `remove_single` is removeSingle, cut where it stats, skips and removes;
--     Rm/Listing is listAndRemove, with the results that come in between as `arrivals`.
--   S3 and its children: cmd/client-s3.go. S3 holds the addresses and contents of objects, S3/Listing the
--     listings, with `list_versions` for listVersions and its routine and `s3_list` for List, S3/Stat
--     `s3_stat` for Stat, and S3/Remove `remove` for Remove, as the list of what it does.
--   Strings/Numbers: what the code uses of Go's strconv package.
--   Strings/Paths: what the code uses of Go's path/filepath.
--   Tests: runs on concrete inputs.
-- The comparison feeds the mirror: the messages of Difference are the input of Mirror. The checks
-- of Copy/Syntax and the pairs of Copy rest on the same guess of the type of copy, and all build
-- their addresses with ClientUrl. The age options of a copy and of a removal are read as
-- durations. Listing and undoing collect the versions of an object in the same way, in Versions,
-- and their messages name an object as locks and removals do.
--
-- Parameters, for what stands outside the repository: the normal form of Unicode texts (`nfc`),
-- the reading of a time stamp (`parse_time`), the floating point product of a fraction and a unit
-- (`float_part`), the wildcard matcher, `filepath.Match`, the regular expressions, `sort.Sort`
-- (`sort_keys`) and `sort.Slice` (`sort_slice`), the tests of the lifecycle library
-- (`LifecycleSdk`), the clock (`since`), the expansion of aliases and the connection to a client,
-- and the clients' answers: the record `Remote`, and for locks, removals and undoing what each call
-- comes to (`put_fails`, `remove`, `arrivals`, `remove_fails`); the answers of the SDK in S3 (`S3Api`,
-- `arrives`, `left`), the removal of a path by the system (`os_remove`), `path.Clean`, `path.Dir` and
-- `url.Parse`, and for uploads OptimalPartInfo (`part_info`) and the memory in use (`alloc`).
--
-- Bounds and fuel: the loop of differenceInternal takes fuel, and one round more than the two
-- listings hold elements is enough where the listings are in order; it is not enough where the code
-- itself does not advance. ParseDuration is given a round for each byte, and each round reads one
-- byte at least; so is the loop of parseEncryptionKeys. A call of du is given a step of fuel for each
-- level of folders, and deleteFile one for each byte of its path. The goroutines of PipeChan and of
-- the ParallelManager take their steps in any order, with no bound on their number; where results of a
-- client come in between, as in listAndRemove, they are given for each send.
--
-- Not modelled: transfers of data and the other calls of the network and the file system, the command
-- line and terminal output, the administration commands, and the reading and writing of
-- configuration and session files. Of what the modelled code calls in this repository, the time among
-- the attributes of an object (parseAttribute and parseAtimeMtime, `attr_time`) and the uploads that are
-- not complete (`list_incomplete`, `stat_incomplete_upload`) are parameters.
pub mod Base
pub mod S3
pub mod Strings
pub mod ClientUrl
pub mod Errors
pub mod Content
pub mod Difference
pub mod Du
pub mod Duration
pub mod LocalFiles
pub mod Mirror
pub mod Lifecycle
pub mod PipeChan
pub mod Versions
pub mod Undo
pub mod ObjectLock
pub mod Rm
pub mod Parallel
pub mod Find
pub mod ArgKvs
pub mod EncryptionKeys
pub mod Remote
pub mod Ages
pub mod Copy
pub mod CopySession
mod Tests
