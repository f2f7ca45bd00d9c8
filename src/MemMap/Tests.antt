-- ===== src/MemMap/Tests.antt =====
-- The results of `MemMap` at a root of version 1 that is written to offset 24 of an empty map.
use mariv.Base.{ℕ, ◌+◌, ◌≡◌, refl, arith, List, [], ◌∷◌, map, replicate, copy_at, ◌≤◌, length, some}
use mariv.Base.Memory.{At-copy_at}
use mariv.Base.Outcome.{ok}
use mariv.Node.{LNode, INode, address, new_internal_node, new_leaf_node, determine_end_offset_inode}
use mariv.Serialize.{serialize_recursive, serialize_lnode, placed_inode, reference}
use mariv.MemMap.{read_inode_from_mem_map, read_lnode_from_mem_map}
use mariv.MemMap.Leaf.{LeafFits, as_read, read_lnode-serialized, length-serialize_lnode}
use mariv.MemMap.Fresh.{fresh-Fits, length-fresh}
use mariv.MemMap.Path.{moved, path_offsets, read-serialize_recursive}

abbrev leaf : LNode
leaf = record (new_leaf_node (some (97 ∷ 98 ∷ [])) (7 ∷ 8 ∷ []) 1) { start_offset = 24 }

leaf-Fits : LeafFits leaf
unfolding new_leaf_node
leaf-Fits = record {
  measured = refl;
  short = omega arith;
  small = omega arith;
  blank = λ e. cc;
  version_fits = omega arith;
  place = omega arith;
}

abbrev leaf_map : List ℕ
leaf_map = copy_at (replicate 64 0) 24 (serialize_lnode leaf)

leaf_room : 24 + length (serialize_lnode leaf) ≤ 64
unfolding new_leaf_node
leaf_room = omega (arith, length-serialize_lnode leaf)

read_lnode-serialized_example : read_lnode_from_mem_map leaf_map 24 ≡ ok (as_read leaf)
read_lnode-serialized_example =
    read_lnode-serialized leaf_map leaf leaf-Fits
      (At-copy_at (replicate 64 0) 24 (serialize_lnode leaf) leaf_room)

abbrev root : INode
root = new_internal_node 1

abbrev root_map : List ℕ
root_map = copy_at (replicate 101 0) 24 (serialize_recursive (address root) 24)

read-serialize_recursive_example :
    read_inode_from_mem_map root_map 24
    ≡ ok (record (moved root 24) {
      end_offset = determine_end_offset_inode (moved root 24);
      leaf = as_read (placed_inode (moved root 24)).leaf;
      children = map reference (path_offsets root 24);
    })
read-serialize_recursive_example =
    read-serialize_recursive root_map root 24 (fresh-Fits 1 24 (omega arith) (omega arith)) (
      At-copy_at (replicate 101 0) 24 (serialize_recursive (address root) 24)
        (omega (arith, length-fresh 1 24 (omega arith) (omega arith))))
