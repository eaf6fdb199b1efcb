-- ===== src/Strings/Paths.antt =====
-- What the program uses of Go's `path/filepath`, on a build whose separator is the slash.
use oss_mc.Base.{
  ℕ, Bool, ◌||◌, List, [], ◌∷◌, ◌++◌, none, some, Bytes, reverse, if◌then◌else◌, drop, suc, ◌==◌,
}
use oss_mc.Strings.{codes, equal, is_empty, has_prefix, split, last_index_byte}

-- What `..` does to the names in front of it, the last one first.
abbrev parent : Bool → List Bytes → List Bytes
parent rooted [] = if rooted then [] else codes ".." ∷ []
parent rooted (k ∷ ks) = if equal k (codes "..") then codes ".." ∷ k ∷ ks else ks

abbrev place : Bool → List Bytes → Bytes → List Bytes
place rooted kept name =
    if is_empty name || equal name (codes ".")
    then kept
    else if equal name (codes "..")
    then parent rooted kept
    else name ∷ kept

-- The names that are left of a path, the last one first.
unfoldable pub settle : Bool → List Bytes → List Bytes → List Bytes
settle rooted kept [] = kept
settle rooted kept (name ∷ names) = settle rooted (place rooted kept name) names

unfoldable pub join_names : List Bytes → Bytes
join_names [] = []
join_names (name ∷ []) = name
join_names (name ∷ more ∷ names) = name ++ b'/' ∷ join_names (more ∷ names)

-- `filepath.Clean`
unfoldable pub clean_path : Bytes → Bytes
unfolding settle join_names has_prefix split is_empty equal
clean_path s =
    let rooted = has_prefix s (codes "/") in
    let names = join_names (reverse (settle rooted [] (split s (codes "/")))) in
    if rooted then b'/' ∷ names else if is_empty names then codes "." else names

-- `filepath.Join` of two elements
unfoldable pub join_path : Bytes → Bytes → Bytes
unfolding clean_path
join_path [] [] = []
join_path [] (c ∷ b) = clean_path (c ∷ b)
join_path (c ∷ a) b = clean_path ((c ∷ a) ++ b'/' ∷ b)

-- A text less the slashes at its end.
unfoldable pub trim_slashes : Bytes → Bytes
trim_slashes [] = []
trim_slashes (c ∷ s) = unless_slash c (trim_slashes s)
  where
    unless_slash : ℕ → Bytes → Bytes
    unless_slash c [] = if c == b'/' then [] else c ∷ []
    unless_slash c (d ∷ s) = c ∷ d ∷ s

-- `filepath.Base`
unfoldable pub base_name : Bytes → Bytes
unfolding trim_slashes last_index_byte
base_name [] = codes "."
base_name (c ∷ s) = elim (trim_slashes (c ∷ s)) [
  | [] ↦ codes "/"
  | (d ∷ t) ↦ elim (last_index_byte (d ∷ t) b'/') [ none ↦ d ∷ t | some i ↦ drop (suc i) (d ∷ t) ]
]
