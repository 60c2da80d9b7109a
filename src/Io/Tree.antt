-- ===== src/Io/Tree.antt =====
-- The search tree of the cache (`ic_lookup` of cmfs-tools/libcmfs/unix_io.c), keyed by block number.
-- A node is a cache block's number and a copy of its `icb_blkno`, which does not change while the
-- node is linked. The balancing of kernel-rbtree.c is a parameter.
pub mod Laws
use cmfs.Prelude.{ℕ, Bool, Option, none, some, List, [], ◌∷◌, ◌++◌, ◌≡◌, ltb, ◌==◌, if◌then◌else◌}

pub data Tree : Type 0 where
  leaf : Tree
  node : Tree → ℕ → ℕ → Tree → Tree

abbrev pub Entries : Type 0
Entries = List (ℕ × ℕ)

-- The nodes from left to right.
abbrev pub inorder : Tree → Entries
inorder leaf = []
inorder (node l k i r) = inorder l ++ (k, i) ∷ inorder r

-- The walk of `io_cache_lookup`.
unfoldable pub search_tree : Tree → ℕ → Option ℕ
search_tree leaf blkno = none
search_tree (node l k i r) blkno =
    let left = search_tree l blkno in
    let right = search_tree r blkno in
    if ltb blkno k then left else if ltb k blkno then right else some i

abbrev pub map_tree : (Tree → Tree) → Option Tree → Option Tree
map_tree f none = none
map_tree f (some t) = some (f t)

-- The walk of `io_cache_insert` and `rb_link_node`; `none` is its `assert(0)`.
unfoldable pub link_node : Tree → ℕ → ℕ → Option Tree
link_node leaf blkno icb = some (node leaf blkno icb leaf)
link_node (node l k i r) blkno icb =
    let left = map_tree (λ t. node t k i r) (link_node l blkno icb) in
    let right = map_tree (node l k i) (link_node r blkno icb) in
    if ltb blkno k then left else if ltb k blkno then right else none

-- The entries without those of cache block `icb`.
abbrev pub without : ℕ → Entries → Entries
without icb [] = []
without icb ((k, i) ∷ es) = let rest = without icb es in if i == icb then rest else (k, i) ∷ rest

-- kernel-rbtree.c: `rb_insert_color` balances the tree and `rb_erase` unlinks a node. Neither
-- changes the order of the nodes.
pub record RbTree : Type 0 where
  pub rb_insert_color : Tree → Tree
  pub rb_erase : ℕ → Tree → Tree
  pub inorder-rb_insert_color : (t : Tree) → inorder (rb_insert_color t) ≡ inorder t
  pub inorder-rb_erase : (icb : ℕ) (t : Tree) → inorder (rb_erase icb t) ≡ without icb (inorder t)
