-- ===== src/Du/Total.antt =====
-- What cmd/du-main.go prints and counts, on a tree of folders.
use oss_mc.Base.{
  ℕ, zero, suc, ◌+◌, ◌%◌, ◌≤◌, Bool, true, false, List, [], ◌∷◌, ◌++◌, Option, none, some, Bytes,
  if◌then◌else◌, ◌==◌, Fallible, ok, ◌≡◌, refl, sym, ap, ◌∙◌, arith, inl, inr, Bool-cases,
  append-nil,
}
use oss_mc.ClientUrl.{to_string}
use oss_mc.Content.{ClientContent}
use oss_mc.Duration.{two64}
use oss_mc.Errors.{Error}
use oss_mc.Du.{
  DuMessage, DuEnd, used, DuRun, DuClient, trim_ends, depth_below, slash_ended, sub_dir_alias,
  du_contents, du_message, du_client, du,
}
use oss_mc.Du.Tree.{
  Tree, done, entry, folder, listed, tree_size, tree_count, height, IsTree, entry_size, entry_count,
  du_contents-leaf, du_contents-done, sums_same, du_contents-into, du_contents-all,
}

module _ (must_expand_alias : Bytes → Bytes × Bytes)
    (new_client_from_alias : Bytes → Bytes → Fallible Error DuClient) (clean : Bytes → Bytes)
    (url_path : Bytes → Option Bytes) (with_versions : Bool) where
  abbrev run : ℕ → ℕ → Bytes → DuRun
  run = du must_expand_alias new_client_from_alias clean url_path with_versions

  abbrev url_of : Bytes → Bytes
  url_of url_str = slash_ended (must_expand_alias url_str).1

  -- The client for an address lists a tree.
  pub record IsListedAs (url_str : Bytes) (t : Tree) : Type 0 where
    pub client : DuClient
    pub connects : new_client_from_alias (must_expand_alias url_str).0 (url_of url_str) ≡ ok client
    pub lists : (r : Bool) → client.list r ≡ listed r t
    pub parts : IsTree (clean (to_string client.get_url)) t
    pub path : Bytes
    pub parses : url_path (url_of url_str) ≡ some path

  -- and so do the clients for the folders in it
  abbrev pub IsServed : Bytes → Tree → Type 0
  IsServed alias done = Unit
  IsServed alias (entry c rest) = IsServed alias rest
  IsServed alias (folder c inside rest) =
      IsListedAs (sub_dir_alias alias c) inside
      × (IsServed (must_expand_alias (sub_dir_alias alias c)).0 inside × IsServed alias rest)

  -- the message for a folder with its totals, unless the depth is used up
  abbrev pub own_message : ℕ → Bytes → Tree → List DuMessage
  own_message depth url_str t = if depth == 0 then [] else elim (url_path (url_of url_str)) [
    | none ↦ []
    | some path ↦
        record {
          prefix = trim_ends path;
          size = tree_size t % two64;
          objects = tree_count t % two64;
          is_versions = with_versions;
        }
        ∷ []
  ]

  -- the messages for the folders in a folder: each behind those of the folders in it
  abbrev pub messages_in : ℕ → Bytes → Tree → List DuMessage
  messages_in depth alias done = []
  messages_in depth alias (entry c rest) = messages_in depth alias rest
  messages_in depth alias (folder c inside rest) =
      let url_str = sub_dir_alias alias c in
      let deeper = messages_in (depth_below depth) (must_expand_alias url_str).0 inside in
      ((if depth == 1 then [] else deeper) ++ own_message depth url_str inside)
      ++ messages_in depth alias rest

  abbrev pub messages : ℕ → Bytes → Tree → List DuMessage
  messages depth url_str t =
      let deeper = messages_in (depth_below depth) (must_expand_alias url_str).0 t in
      (if depth == 1 then [] else deeper) ++ own_message depth url_str t

  abbrev total : Tree → DuEnd
  total t = used (tree_size t % two64) (tree_count t % two64)

  du_message_lem :
      (depth : ℕ) (url_str : Bytes) (t : Tree) (path : Bytes)
      → url_path (url_of url_str) ≡ some path
      → du_message must_expand_alias new_client_from_alias clean url_path with_versions
          (url_of url_str)
          depth
          (tree_size t % two64)
          (tree_count t % two64)
        ≡ some (own_message depth url_str t, total t)
  unfolding du_message
  du_message_lem depth url_str t path h = elim (Bool-cases (depth == 0)) [
    | inl y ↦ rw y refl
    | inr n ↦ rw n (rw h refl)
  ]

  -- A folder is done when the loop over its listing is.
  du_loop :
      (fuel depth : ℕ) (url_str : Bytes) (t : Tree) (l : IsListedAs url_str t)
      → du_contents
          (depth == 1)
          (clean (to_string l.client.get_url))
          (must_expand_alias url_str).0
          (run fuel (depth_below depth))
          (listed (depth == 1) t)
          0
          0
        ≡ some (
          if depth == 1
              then []
              else messages_in (depth_below depth) (must_expand_alias url_str).0 t,
          total t,
        )
      → run (suc fuel) depth url_str ≡ some (messages depth url_str t, total t)
  unfolding du du_client du_message
  du_loop fuel depth url_str t l h =
      rw (l.connects, du)
        (rw (l.lists (depth == 1), du_client)
          (rw h (rw (du_message_lem depth url_str t l.path l.parses) refl)))

  du_folder :
      (fuel depth : ℕ) (url_str : Bytes) (t : Tree) (l : IsListedAs url_str t)
      → du_contents false
          (clean (to_string l.client.get_url))
          (must_expand_alias url_str).0
          (run fuel (depth_below depth))
          (listed false t)
          0
          0
        ≡ some (messages_in (depth_below depth) (must_expand_alias url_str).0 t, total t)
      → run (suc fuel) depth url_str ≡ some (messages depth url_str t, total t)
  du_folder fuel depth url_str t l h = elim (Bool-cases (depth == 1)) [
    | inl y ↦
        let base = clean (to_string l.client.get_url) in
        let alias = (must_expand_alias url_str).0 in
        let sub = run fuel (depth_below depth) in
        du_loop fuel depth url_str t l (
          rw y (
            ap (λ (cs : List ClientContent). du_contents true base alias sub cs 0 0)
              (sym (append-nil (listed true t)))
            ∙ du_contents-all base alias sub t [] 0 0 l.parts
            ∙ du_contents-done true base alias sub ((0 + tree_size t) % two64)
                ((0 + tree_count t) % two64) (tree_size t % two64) (tree_count t % two64)
                (omega arith) (omega arith)))
    | inr n ↦ du_loop fuel depth url_str t l (rw n h)
  ]

  du_contents-served :
      (t : Tree) (fuel depth : ℕ) (base alias : Bytes) (s o : ℕ)
      → IsTree base t
      → IsServed alias t
      → height t ≤ fuel
      → du_contents false base alias (run fuel depth) (listed false t) (s % two64) (o % two64)
        ≡ some (
          messages_in depth alias t,
          used ((s + tree_size t) % two64) ((o + tree_count t) % two64),
        )
  unfolding listed tree_size tree_count height
  du_contents-served done fuel depth base alias s o i v h =
      du_contents-done false base alias (run fuel depth) (s % two64) (o % two64) ((s + 0) % two64)
        ((o + 0) % two64) (omega arith) (omega arith)
  du_contents-served (entry c rest) fuel depth base alias s o (l, i) v h =
      du_contents-leaf false base alias (run fuel depth) c (listed false rest) s o l
      ∙ du_contents-served rest fuel depth base alias (s + entry_size c) (o + entry_count c) i v h
      ∙ sums_same (messages_in depth alias rest) (omega arith) (omega arith)
  du_contents-served (folder c inside rest) zero depth base alias s o i v h =
      absurd (omega (arith, h))
  du_contents-served (folder c inside rest) (suc fuel) depth base alias s o (f, (i, j)) (l, (v, w))
        h =
      let url_str = sub_dir_alias alias c in
      let below =
        du_contents-served inside fuel (depth_below depth) (clean (to_string l.client.get_url))
          (must_expand_alias url_str).0 0 0 l.parts v (omega (arith, h)) in
      let sub = du_folder fuel depth url_str inside l (
        below
        ∙ sums_same (messages_in (depth_below depth) (must_expand_alias url_str).0 inside)
            (omega arith) (omega arith)) in
      let others =
        du_contents-served rest (suc fuel) depth base alias (s + tree_size inside)
          (o + tree_count inside) j w (omega (arith, h)) in
      du_contents-into base alias (run (suc fuel) depth) c (listed false rest) s o
        (tree_size inside) (tree_count inside) (messages depth url_str inside)
        (messages_in depth alias rest)
        (used ((s + (tree_size inside + tree_size rest)) % two64)
          ((o + (tree_count inside + tree_count rest)) % two64))
        f sub (others ∙ sums_same (messages_in depth alias rest) (omega arith) (omega arith))

  -- When the clients list a tree of folders, du gives the sums over all objects of the tree, within 64
  -- bits, at any depth: folders that are counted one by one come to the same as one listing of
  -- everything. It prints the totals of each folder down to the depth behind those of the folders in
  -- it, and one call for each level of folders is enough. Errors that are skipped and deletion markers
  -- count as nothing.
  pub du_lem :
      (fuel depth : ℕ) (url_str : Bytes) (t : Tree)
      → IsListedAs url_str t
      → IsServed (must_expand_alias url_str).0 t
      → height t ≤ fuel
      → du must_expand_alias new_client_from_alias clean url_path with_versions
          (suc fuel)
          depth
          url_str
        ≡ some (messages depth url_str t, used (tree_size t % two64) (tree_count t % two64))
  du_lem fuel depth url_str t l v h =
      let alias = (must_expand_alias url_str).0 in
      let d = depth_below depth in
      let below =
        du_contents-served t fuel d (clean (to_string l.client.get_url)) alias 0 0 l.parts v h in
      du_folder fuel depth url_str t l
        (below ∙ sums_same (messages_in d alias t) (omega arith) (omega arith))
