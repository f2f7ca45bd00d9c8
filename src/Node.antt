-- ===== src/Node.antt =====
-- types.go and node.go: the nodes of the trie, and the operations on a node in memory.
use mariv.Base.{
  suc, ◌≤◌, arith, ltb, ℕ, ◌+◌, ◌-◌, ◌*◌, ◌%◌, ◌^◌, ◌≡◌, refl, ap, ◌&&◌, none, List, [], ◌∷◌, ◌==◌,
  if◌then◌else◌, length,
}
use mariv.Base.Bytes.{Slice, bytes, is_nil}
use mariv.Base.Outcome.{Outcome, ok}
use mariv.Bitmap.{Bitmap, empty_bitmap, calculate_hamming_weight}

-- `LNode`. The value's nil is read as the empty slice.
pub record LNode : Type 0 where
  pub version : ℕ
  pub start_offset : ℕ
  pub end_offset : ℕ
  pub key_length : ℕ
  pub key : Slice
  pub value : List ℕ

-- A `*INode` in a child table. The two types stand for one recursive struct: `INode` below is
-- what such a pointer refers to, and `Children` the slice of pointers.
mutual
  pub data Child : Type 0 where
    pointer : ℕ → ℕ → ℕ → Bitmap → LNode → Children → Child

  pub data Children : Type 0 where
    nil : Children
    cons : Child → Children → Children

abbrev pub to_list : Children → List Child
to_list nil = []
to_list (cons c cs) = c ∷ to_list cs

abbrev pub of_list : List Child → Children
of_list [] = nil
of_list (c ∷ cs) = cons c (of_list cs)

pub record INode : Type 0 where
  pub version : ℕ
  pub start_offset : ℕ
  pub end_offset : ℕ
  pub bitmap : Bitmap
  pub leaf : LNode
  pub children : List Child

-- `*p`
unfoldable pub deref : Child → INode
deref (pointer version start_offset end_offset bitmap leaf children) = record {
  version = version;
  start_offset = start_offset;
  end_offset = end_offset;
  bitmap = bitmap;
  leaf = leaf;
  children = to_list children;
}

-- `&node`
unfoldable pub address : INode → Child
address n = pointer n.version n.start_offset n.end_offset n.bitmap n.leaf (of_list n.children)

to_list-of_list : (cs : List Child) → to_list (of_list cs) ≡ cs
to_list-of_list [] = refl
to_list-of_list (c ∷ cs) = ap (λ t. c ∷ t) (to_list-of_list cs)

pub deref-address : (n : INode) → deref (address n) ≡ n
unfolding deref address
deref-address n = ap (λ (cs : List Child). record n { children = cs }) (to_list-of_list n.children)

-- `resetLNode` and `resetINode` of pool.go: every node that the pool hands out has these values.
unfoldable pub reset_lnode : LNode
reset_lnode = record {
  version = 0;
  start_offset = 0;
  end_offset = 0;
  key_length = 0;
  key = none;
  value = [];
}

unfoldable pub reset_inode : INode
reset_inode = record {
  version = 0;
  start_offset = 0;
  end_offset = 0;
  bitmap = empty_bitmap;
  leaf = reset_lnode;
  children = [];
}

unfoldable pub copy_inode : INode → INode
unfolding reset_inode
copy_inode node = record reset_inode {
  version = node.version;
  bitmap = node.bitmap;
  leaf = node.leaf;
  children = node.children;
}

unfoldable pub new_internal_node : ℕ → INode
unfolding reset_inode reset_lnode
new_internal_node version = record reset_inode { version = version }

unfoldable pub new_leaf_node : Slice → List ℕ → ℕ → LNode
unfolding reset_lnode
new_leaf_node key value version = record reset_lnode {
  version = version;
  key_length = length (bytes key) % 2 ^ 8;
  key = key;
  value = value;
}

abbrev pub total_children : Bitmap → ℕ
total_children [] = 0
total_children (w ∷ ws) = calculate_hamming_weight w + total_children ws

-- The index of the last byte of the serialized node, a `uint16`.
unfoldable pub determine_end_offset_inode : INode → ℕ
determine_end_offset_inode node =
    let encoded_children_length = total_children node.bitmap * 8 in
    let node_end_offset =
      if encoded_children_length == 0 then 58 else (58 + encoded_children_length) % 2 ^ 16 in
    (node_end_offset + 2 ^ 16 - 1) % 2 ^ 16

unfoldable pub determine_end_offset_lnode : LNode → ℕ
determine_end_offset_lnode node =
    let node_end_offset =
      if is_nil node.key then 19 else (19 + node.key_length + length node.value) % 2 ^ 16 in
    (node_end_offset + 2 ^ 16 - 1) % 2 ^ 16

unfoldable pub get_end_offset_inode : INode → ℕ
get_end_offset_inode node = (node.start_offset + node.end_offset) % 2 ^ 64

unfoldable pub get_end_offset_lnode : LNode → ℕ
get_end_offset_lnode node = (node.start_offset + node.end_offset) % 2 ^ 64

-- `load` is `readINodeFromMemMap` on the memory map of the transaction.
unfoldable pub get_child_node : (ℕ → Outcome INode) → INode → ℕ → Outcome INode
get_child_node load child version =
    if child.version == version && child.start_offset == 0
    then ok child
    else load child.start_offset

-- How many nodes lie on the longest way down a tree in memory.
abbrev pub larger : ℕ → ℕ → ℕ
larger a b = if ltb a b then b else a

abbrev mutual
  pub height : Child → ℕ
  height (pointer version start end bitmap leaf children) = suc (heights children)

  pub heights : Children → ℕ
  heights nil = 0
  heights (cons c cs) = larger (height c) (heights cs)

pub deep_left : (a b f : ℕ) → larger a b ≤ f → a ≤ f
deep_left a b f h = ground arith

pub deep_right : (a b f : ℕ) → larger a b ≤ f → b ≤ f
deep_right a b f h = ground arith
