-- ===== src/Compact/Block.antt =====
-- The bytes of one node with its child table and its leaf, as compaction writes them.
use mariv.Base.{
  ℕ, ◌+◌, ◌*◌, ◌^◌, ◌≤◌, ◌<◌, ◌≡◌, refl, arith, true, List, ◌++◌, length, length-append,
}
use mariv.Base.Bytes.{bytes}
use mariv.Node.{INode, determine_end_offset_inode, get_end_offset_inode, get_end_offset_lnode}
use mariv.Serialize.{serialize_uint64, serialize_inode, serialize_lnode, placed_inode, concat_map}
use mariv.MemMap.Leaf.{end_offset_lem, length-serialize_lnode}
use mariv.MemMap.Fields.{length-table_bytes}
use mariv.MemMap.Node.{NodeFits, length-serialize_inode, leaf_offset}
use mariv.MemMap.Path.{moved, path_offsets, children_start}
use mariv.Compact.{restamped}

abbrev pub block : INode → ℕ → List ℕ
block node offset =
    serialize_inode true (moved node offset)
    ++ (concat_map serialize_uint64 (path_offsets node offset)
        ++ serialize_lnode (placed_inode (moved node offset)).leaf)

-- The longest block of a node that fits the format: 58 bytes, a full child table and a leaf
abbrev pub block_limit : ℕ
block_limit = 2 ^ 17

pub length-block :
    (node : INode) (offset : ℕ)
    → NodeFits (moved node offset) (path_offsets node offset)
    → (offset + length (block node offset) ≡ children_start node offset)
      × (length (block node offset) ≤ block_limit)
      × (0 < length (block node offset))
unfolding get_end_offset_lnode
length-block node offset fits =
    let leaf = (placed_inode (moved node offset)).leaf in
    let size : length (block node offset)
        ≡ 58
          + (8 * length (path_offsets node offset)
              + (19 + (length (bytes leaf.key) + length leaf.value))) =
      rw
        (
          length-append,
          length-append,
          length-serialize_inode (moved node offset) (path_offsets node offset) fits,
          length-table_bytes (path_offsets node offset),
          length-serialize_lnode leaf,
        )
        refl in
    let place = leaf_offset (moved node offset) (path_offsets node offset) fits in
    let last = end_offset_lem leaf fits.leaf_fits in
    (
      omega (arith, size, place, last, fits.place, fits.few, fits.leaf_fits.small),
      omega (arith, size, fits.few, fits.leaf_fits.small),
      omega (arith, size),
    )

-- Of a node that was read, and one of the tree that holds its bitmap and its leaf
module _ (node : INode) (version offset start end : ℕ) where
  abbrev pub in_tree : INode
  in_tree = record node {
    version = version;
    start_offset = start;
    end_offset = end;
    leaf = record (node.leaf) { version = version };
  }

  pub serialize-restamped :
      serialize_inode true (restamped node version offset)
      ≡ serialize_inode true (moved in_tree offset)
  unfolding serialize_inode placed_inode determine_end_offset_inode get_end_offset_inode
  serialize-restamped = refl

  pub placed-restamped :
      (placed_inode (restamped node version offset)).leaf
      ≡ (placed_inode (moved in_tree offset)).leaf
  unfolding placed_inode determine_end_offset_inode get_end_offset_inode
  placed-restamped = refl
