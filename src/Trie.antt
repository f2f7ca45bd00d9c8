-- ===== src/Trie.antt =====
-- operation.go: put, get and delete on the path of a transaction. A node pointer that an
-- operation replaces by compare-and-swap is passed in, and its new referent is the result; within
-- a transaction nobody else writes the pointer, so the swap succeeds. `load` reads a node of an
-- earlier version from the memory map. Each recursion is on fuel.
pub mod Keys
pub mod Order
pub mod Read
pub mod Replace
pub mod Step
pub mod Leaf
pub mod Split
pub mod Put
pub mod Delete
pub mod Drop
pub mod Work
pub mod Removal
pub mod Map
pub mod Ends
pub mod View
mod Tests
use mariv.Base.{
  ℕ, zero, suc, ◌+◌, Bool, true, false, ◌&&◌, not, Option, none, some, List, [], ◌∷◌, ◌==◌, ltb,
  if◌then◌else◌, length, get_elem?, set,
}
use mariv.Base.Bytes.{Slice, bytes, bytes_equal}
use mariv.Base.Outcome.{Outcome, ok, panics, stuck, ◌>>=◌, ◌>>◌, at}
use mariv.Bitmap.{
  Bitmap, population_count, get_position, is_bit_set, set_bit, extend_table, shrink_table,
}
use mariv.Node.{
  LNode, Child, INode, deref, address, copy_inode, new_internal_node, new_leaf_node, get_child_node,
}

-- `KeyValuePair`, and `Transform`: `none` is a nil pointer.
pub record KeyValuePair : Type 0 where
  pub key : Slice
  pub value : List ℕ

abbrev pub Transform : Type 0
Transform = KeyValuePair → Option KeyValuePair

abbrev pub get_key_val : INode → KeyValuePair
get_key_val node = record { key = node.leaf.key; value = node.leaf.value }

-- `key[level]`, which panics out of range
unfoldable pub get_index_for_level : Slice → ℕ → Outcome ℕ
get_index_for_level key level = at (get_elem? (bytes key) level)

-- The child table with its nil entries taken for a panic: every node on a path is read.
abbrev pub without_nil : List (Option Child) → Outcome (List Child)
without_nil [] = ok []
without_nil (none ∷ cs) = panics
without_nil (some c ∷ cs) = do rest ← without_nil cs; ok (c ∷ rest)

-- The recursive call that a step of an operation makes one level down.
abbrev pub Put : Type 0
Put = INode → Slice → List ℕ → ℕ → Outcome INode

-- `putNewINode`
unfoldable pub put_new_inode : Put → INode → ℕ → Slice → List ℕ → ℕ → Outcome INode
put_new_inode put node curr_idx key value level =
    let bitmap = set_bit node.bitmap curr_idx in
    let pos = get_position bitmap curr_idx in
    do
      updated ← put (new_internal_node node.version) key value (level + 1)
      table ← extend_table node.children bitmap pos (address updated)
      children ← without_nil table
      ok (record node { bitmap = bitmap; children = children })

abbrev pub set_leaf : INode → Slice → List ℕ → INode
set_leaf node key value = record node { leaf = new_leaf_node key value node.version }

-- `nodeCopy.leaf.version = nodeCopy.version`
abbrev pub stamped : INode → INode
stamped node = record node { leaf = record (node.leaf) { version = node.version } }

module _ (load : ℕ → Outcome INode) where
  -- The child at `pos`, read and put back after the call on it.
  unfoldable pub put_into_child : Put → INode → ℕ → Slice → List ℕ → ℕ → Outcome INode
  put_into_child put node pos key value level = do
    child ← at (get_elem? node.children pos)
    child_node ← get_child_node load (deref child) node.version
    updated ← put (record child_node { version = node.version }) key value (level + 1)
    ok (record node { children = set node.children pos (address updated) })

  -- `len(key) == level`
  unfoldable pub put_at_end : Put → INode → Slice → List ℕ → ℕ → Outcome INode
  put_at_end put node key value level =
      if bytes_equal (bytes node.leaf.key) (bytes key)
      then ok (if bytes_equal node.leaf.value value then node else set_leaf node key value)
      else if ltb (length (bytes key)) (length (bytes node.leaf.key))
      then (do
        idx ← get_index_for_level node.leaf.key level
        let copy = set_leaf node key value
        if is_bit_set copy.bitmap idx
            then ok copy
            else put_new_inode put copy idx node.leaf.key node.leaf.value level)
      else ok (set_leaf node key value)

  -- The innermost `default`: the leaf and the key have one length, and both move down.
  unfoldable pub put_both : Put → INode → ℕ → Slice → List ℕ → ℕ → Outcome INode
  put_both put node index key value level = do
    with_key ← put_new_inode put (set_leaf node none []) index key value level
    new_idx ← get_index_for_level node.leaf.key level
    if is_bit_set with_key.bitmap new_idx
        then put_into_child put with_key (get_position with_key.bitmap new_idx) node.leaf.key
            node.leaf.value level
        else put_new_inode put with_key new_idx node.leaf.key node.leaf.value level

  -- `level > 0` and no child for the key's index
  unfoldable pub put_in_leaf : Put → INode → ℕ → Slice → List ℕ → ℕ → Outcome INode
  put_in_leaf put node index key value level =
      let leaf_length = length (bytes node.leaf.key) in
      let key_length = length (bytes key) in
      if bytes_equal (bytes node.leaf.key) (bytes key)
      then ok (if bytes_equal node.leaf.value value then node else set_leaf node key value)
      else if leaf_length == 0 && population_count node.bitmap == 0
      then ok (set_leaf node key value)
      else if leaf_length == 0 && ltb 0 (population_count node.bitmap)
      then put_new_inode put node index key value level
      else if ltb leaf_length key_length && ltb 0 leaf_length
      then put_new_inode put node index key value level
      else if ltb key_length leaf_length
      then (do
        new_idx ← get_index_for_level node.leaf.key level
        let copy = set_leaf node key value
        if is_bit_set copy.bitmap new_idx
            then ok copy
            else put_new_inode put copy new_idx node.leaf.key node.leaf.value level)
      else put_both put node index key value level

  -- `len(key) != level`
  unfoldable pub put_below : Put → INode → Slice → List ℕ → ℕ → Outcome INode
  put_below put node key value level = do
    index ← get_index_for_level key level
    if is_bit_set node.bitmap index
        then put_into_child put node (get_position node.bitmap index) key value level
        else if ltb 0 level
        then put_in_leaf put node index key value level
        else put_new_inode put node index key value level

  unfoldable pub put_recursive : ℕ → Put
  put_recursive zero node key value level = stuck
  put_recursive (suc fuel) node key value level =
      let node_copy = stamped (copy_inode node) in
      if length (bytes key) == level
      then put_at_end (put_recursive fuel) node_copy key value level
      else put_below (put_recursive fuel) node_copy key value level

  unfoldable pub get_recursive : ℕ → INode → Slice → ℕ → Transform → Outcome (Option KeyValuePair)
  get_recursive zero node key level transform = stuck
  get_recursive (suc fuel) node key level transform =
      if length (bytes key) == level
      then ok (
          if bytes_equal (bytes key) (bytes node.leaf.key)
          then transform (get_key_val node)
          else none)
      else if bytes_equal (bytes key) (bytes node.leaf.key)
      then ok (transform (get_key_val node))
      else do
        index ← get_index_for_level key level
        if is_bit_set node.bitmap index
            then (do
              child ← at (get_elem? node.children (get_position node.bitmap index))
              child_node ← get_child_node load (deref child) node.version
              get_recursive fuel child_node key (level + 1) transform)
            else ok none

  -- After the call on the child: a child with no bits whose leaf was written in this transaction
  -- is taken out of the table.
  unfoldable pub drop_if_empty : INode → INode → ℕ → ℕ → Outcome INode
  drop_if_empty node updated index pos =
      if updated.leaf.version == node.version && population_count updated.bitmap == 0
      then (do
        let bitmap = set_bit node.bitmap index
        table ← shrink_table node.children bitmap pos
        children ← without_nil table
        ok (record node { bitmap = bitmap; children = children }))
      else ok node

  unfoldable pub delete_recursive : ℕ → INode → Slice → ℕ → Outcome INode
  delete_recursive zero node key level = stuck
  delete_recursive (suc fuel) node key level =
      let node_copy = copy_inode node in
      let without_leaf = set_leaf node_copy none [] in
      let found = bytes_equal (bytes node_copy.leaf.key) (bytes key) in
      if length (bytes key) == level then ok (if found then without_leaf else node) else do
        index ← get_index_for_level key level
        if found
            then ok without_leaf
            else if is_bit_set node_copy.bitmap index
            then (do
              let pos = get_position node_copy.bitmap index
              child ← at (get_elem? node_copy.children pos)
              child_node ← get_child_node load (deref child) node_copy.version
              updated ←
                  delete_recursive fuel (record child_node { version = node_copy.version }) key
                    (level + 1)
              let copy = record node_copy {
                children = set node_copy.children pos (address updated);
              }
              drop_if_empty copy updated index pos)
            else ok node
