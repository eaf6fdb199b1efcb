-- ===== src/Versions.antt =====
-- The versions of an object, as cmd/ls.go and cmd/undo-main.go take them from a listing: `sort_slice`
-- stands for `sort.Slice`, and the loops of both collect the entries of one path until another path
-- comes.
pub mod Groups
pub mod Listed
use oss_mc.Base.{
  ℕ, ◌+◌, ◌-◌, ◌%◌, Bool, true, false, not, ◌&&◌, ◌||◌, List, [], ◌∷◌, ◌++◌, Option, none, some,
  Bytes, length, take, ltb, if◌then◌else◌,
}
use oss_mc.ClientUrl.{ClientUrl, to_string}
use oss_mc.Content.{ClientContent, StringMap, is_dir}
use oss_mc.Duration.{two64}
use oss_mc.Errors.{Error}
use oss_mc.Strings.{codes, equal, has_suffix, is_empty, last_index_byte, trim_prefix, trim_suffix}

-- the comparison of `sortObjectVersions`: the latest version first, and later ones before earlier
unfoldable pub newer : ClientContent → ClientContent → Bool
newer a b = if a.is_latest then true else if b.is_latest then false else ltb b.time a.time

-- The entries of one path so far, and the ones of other paths that were passed on before.
pub record Grouping : Type 0 where
  pub last_path : Bytes
  pub versions : List ClientContent
  pub passed : List (List ClientContent)

abbrev pub no_group : Grouping
no_group = record { last_path = []; versions = []; passed = [] }

-- another entry of the listing
unfoldable pub add_version : Grouping → ClientContent → Grouping
add_version g c =
    if equal g.last_path c.url.path
    then record g { versions = g.versions ++ c ∷ [] }
    else record { last_path = c.url.path; versions = c ∷ []; passed = g.passed ++ g.versions ∷ [] }

unfoldable pub get_os_dependant_key : Bytes → Bool → Bytes
get_os_dependant_key path is_dir =
    if is_dir && not (has_suffix path (codes "/")) then path ++ codes "/" else path

unfoldable pub get_key : ClientContent → Bytes
get_key c = get_os_dependant_key c.url.path (is_dir c.type)

-- what is cut off the printed names: the path up to its last slash, without a leading dot
abbrev to_last_slash : Bytes → Option ℕ → Bytes
to_last_slash path none = []
to_last_slash path (some i) = take (i + 1) path

unfoldable pub prefix_path : Bytes → Bytes
prefix_path path =
    trim_prefix
      (if has_suffix path (codes "/") then path else to_last_slash path (last_index_byte path b'/'))
      (codes "./")

pub record ContentMessage : Type 0 where
  pub filetype : Bytes
  pub time : ℕ
  pub size : ℕ
  pub key : Bytes
  pub etag : Bytes
  pub url : Bytes
  pub version_id : Bytes
  pub version_ord : ℕ
  pub is_delete_marker : Bool
  pub storage_class : Bytes
  pub metadata : StringMap
  pub tags : StringMap

-- the message for one entry, whose path is first cut, with the number of its version
unfoldable pub content_message : ClientUrl → ℕ → ClientContent → ContentMessage
content_message u ord c =
    let cut = record c {
      url = record c.url { path = trim_prefix c.url.path (prefix_path u.path) };
    } in
    record {
      filetype = if is_dir c.type then codes "folder" else codes "file";
      time = c.time;
      size = c.size;
      key = get_key cut;
      etag = trim_suffix (trim_prefix c.etag (codes "\"")) (codes "\"");
      url = to_string u;
      version_id = c.version_id;
      version_ord = ord;
      is_delete_marker = c.is_delete_marker;
      storage_class = c.storage_class;
      metadata = c.metadata;
      tags = c.tags;
    }

-- the loop over the entries, the last of them number 1
unfoldable pub content_messages : ClientUrl → Bool → List ClientContent → List ContentMessage
content_messages u all [] = []
content_messages u all (c ∷ cs) =
    content_message u (length (c ∷ cs)) c ∷ (if all then content_messages u all cs else [])

-- What `doList` does: what it prints, its sums, and whether it ends with an error status.
pub record Listing : Type 0 where
  pub grouping : Grouping
  pub total_objects : ℕ
  pub total_size : ℕ
  pub failed : Bool

pub record ListingResult : Type 0 where
  pub printed : List (List ContentMessage)
  pub total_objects : ℕ
  pub total_size : ℕ
  pub failed : Bool

-- an entry of another storage class than the one asked for
abbrev pub is_filtered : Bytes → ClientContent → Bool
is_filtered filter c =
    not (is_empty c.storage_class)
    && not (is_empty filter)
    && not (equal filter (codes "*"))
    && not (equal c.storage_class filter)

abbrev pub map_groups {ℓ} :
    {A : Type ℓ} → (List ClientContent → A) → List (List ClientContent) → List A
map_groups f [] = []
map_groups f (g ∷ gs) = f g ∷ map_groups f gs

unfoldable pub list_entry : Bytes → Listing → ClientContent → Option Error → Listing
list_entry filter s c (some e) = record s { failed = true }
list_entry filter s c none = if is_filtered filter c then s else record s {
  grouping = add_version s.grouping c;
  total_objects = (s.total_objects + 1) % two64;
  total_size = (s.total_size + c.size) % two64;
}

unfoldable pub list_entries : Bytes → Listing → List ClientContent → Listing
list_entries filter s [] = s
list_entries filter s (c ∷ cs) = list_entries filter (list_entry filter s c c.err) cs

module _
    (sort_slice : (ClientContent → ClientContent → Bool)
      → List ClientContent
      → List ClientContent) where
  unfoldable pub sort_object_versions : List ClientContent → List ClientContent
  sort_object_versions = sort_slice newer

  unfoldable pub print_object_versions : ClientUrl → Bool → List ClientContent → List ContentMessage
  print_object_versions u all versions = content_messages u all (sort_object_versions versions)

  -- each group is printed when another path comes, and the last one at the end
  unfoldable pub do_list : ClientUrl → Bool → Bytes → List ClientContent → ListingResult
  do_list u older filter listed =
      let s =
        list_entries filter
          (record { grouping = no_group; total_objects = 0; total_size = 0; failed = false })
          listed in
      record {
        printed =
            map_groups (print_object_versions u older)
              (s.grouping.passed ++ s.grouping.versions ∷ []);
        total_objects = s.total_objects;
        total_size = s.total_size;
        failed = s.failed;
      }
