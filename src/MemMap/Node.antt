-- ===== src/MemMap/Node.antt =====
-- `readINodeFromMemMap` on the bytes of a node, a table of child offsets and a leaf.
use mariv.Base.{
  ℕ, ◌+◌, ◌*◌, ◌%◌, ◌^◌, ◌≤◌, ◌<◌, ◌≡◌, refl, arith, true, List, ◌++◌, map, length, length-append,
  drop, All, ◌==◌, Bool-cases, inl, inr, ==_iff,
}
use mariv.Base.Memory.{
  slice, At, slice-At, At-left, At-right, At-drop, At-bound, slice-drop, slice_in_range,
}
use mariv.Base.Outcome.{ok, ◌>>=◌}
use mariv.Node.{
  INode, reset_lnode, total_children, determine_end_offset_inode, get_end_offset_inode,
}
use mariv.Serialize.{
  serialize_uint64, serialize_uint32, serialize_uint16, deserialize_uint64, deserialize_uint16,
  serialize_lnode, serialize_inode, placed_inode, concat_map, reference, deserialize_inode,
}
use mariv.Serialize.Words.{
  length-serialize_uint64, length-serialize_uint16, deserialize-serialize_uint64,
  deserialize-serialize_uint16,
}
use mariv.MemMap.{read_inode_from_mem_map}
use mariv.MemMap.Leaf.{LeafFits, as_read, read_lnode-serialized}
use mathlib.Core.Path.{subst}
use mariv.MemMap.Fields.{
  length-bitmap_bytes, length-table_bytes, deserialize_bitmap-serialized,
  deserialize_children-serialized,
}

-- What the fields of a node, and the offsets of its children, must be for its bytes to hold it.
pub record NodeFits (node : INode) (offsets : List ℕ) : Type 0 where
  pub words : length node.bitmap ≡ 8
  pub word_sizes : All (λ w. w < 2 ^ 32) node.bitmap
  pub full : length offsets ≡ total_children node.bitmap
  pub few : length offsets ≤ 256
  pub offset_sizes : All (λ o. o < 2 ^ 64) offsets
  pub version_fits : node.version < 2 ^ 64
  pub place : node.start_offset + 2 ^ 18 ≤ 2 ^ 64
  pub leaf_fits : LeafFits (placed_inode node).leaf

module _ (node : INode) (offsets : List ℕ) (fits : NodeFits node offsets) where
  node_end : determine_end_offset_inode node ≡ 57 + 8 * length offsets
  unfolding determine_end_offset_inode
  node_end = elim (Bool-cases (total_children node.bitmap * 8 == 0)) [
    | inl e ↦
        let none_left : total_children node.bitmap * 8 ≡ 0 = (==_iff _ 0).0 e in
        rw e (omega (arith, fits.full))
    | inr e ↦ rw e (omega (arith, fits.full, fits.few))
  ]

  pub leaf_offset :
      (placed_inode node).leaf.start_offset ≡ node.start_offset + 58 + 8 * length offsets
  unfolding placed_inode get_end_offset_inode
  leaf_offset = omega (arith, node_end, fits.place, fits.few)

  -- The bytes of the node, its child table, its leaf, and whatever follows.
  abbrev with_leaf : List ℕ → List ℕ
  with_leaf rest =
      concat_map serialize_uint64 offsets ++ (serialize_lnode (placed_inode node).leaf ++ rest)

  abbrev leaf_field : List ℕ
  leaf_field = serialize_uint64 (placed_inode node).leaf.start_offset

  abbrev bitmap_field : List ℕ
  bitmap_field = concat_map serialize_uint32 node.bitmap ++ leaf_field

  abbrev end_field : List ℕ
  end_field = serialize_uint16 (determine_end_offset_inode node) ++ bitmap_field

  abbrev start_field : List ℕ
  start_field = serialize_uint64 node.start_offset ++ end_field

  inode_bytes : serialize_inode true node ≡ serialize_uint64 node.version ++ start_field
  unfolding serialize_inode placed_inode
  inode_bytes = refl

  length-inode_bytes : length (serialize_uint64 node.version ++ start_field) ≡ 58
  length-inode_bytes =
      rw
        (
          length-append,
          length-append,
          length-append,
          length-append,
          length-serialize_uint64 node.version,
          length-serialize_uint64 node.start_offset,
          length-serialize_uint16,
          length-bitmap_bytes,
          fits.words,
        )
        (omega (arith, length-serialize_uint64 (placed_inode node).leaf.start_offset))

  pub length-serialize_inode : length (serialize_inode true node) ≡ 58
  length-serialize_inode = rw inode_bytes length-inode_bytes

  module _ (memory rest : List ℕ)
      (stands : At memory 0
        ((serialize_uint64 node.version ++ start_field) ++ with_leaf rest)) where
    fields_At : At memory 0 (serialize_uint64 node.version ++ start_field)
    fields_At =
        At-left memory 0 (serialize_uint64 node.version ++ start_field) (with_leaf rest) stands

    table_At : At memory 58 (concat_map serialize_uint64 offsets)
    table_At = At-left memory 58 (concat_map serialize_uint64 offsets) _ (
        At-right memory 0 (serialize_uint64 node.version ++ start_field) (with_leaf rest) stands 58
          (omega (arith, length-inode_bytes)))

    start_At : At memory 8 start_field
    start_At =
        At-right memory 0 (serialize_uint64 node.version) start_field fields_At 8
          (omega (arith, length-serialize_uint64 node.version))

    end_At : At memory 16 end_field
    end_At =
        At-right memory 8 (serialize_uint64 node.start_offset) end_field start_At 16
          (omega (arith, length-serialize_uint64 node.start_offset))

    bitmap_At : At memory 18 bitmap_field
    bitmap_At =
        At-right memory 16 (serialize_uint16 (determine_end_offset_inode node)) bitmap_field end_At
          18 (omega (arith, length-serialize_uint16 (determine_end_offset_inode node)))

    leaf_At : At memory 50 leaf_field
    leaf_At =
        At-right memory 18 (concat_map serialize_uint32 node.bitmap) leaf_field bitmap_At 50
          (omega (arith, length-bitmap_bytes node.bitmap, fits.words))

    version_read : (slice memory 0 8 >>= deserialize_uint64) ≡ ok node.version
    version_read =
        rw
          (slice-At memory 0 (serialize_uint64 node.version)
            (At-left memory 0 (serialize_uint64 node.version) start_field fields_At) 8
            (omega (arith, length-serialize_uint64 node.version)))
          (deserialize-serialize_uint64 node.version fits.version_fits)

    start_read : (slice memory 8 16 >>= deserialize_uint64) ≡ ok node.start_offset
    start_read =
        rw
          (slice-At memory 8 (serialize_uint64 node.start_offset)
            (At-left memory 8 (serialize_uint64 node.start_offset) end_field start_At) 16
            (omega (arith, length-serialize_uint64 node.start_offset)))
          (deserialize-serialize_uint64 node.start_offset (omega (arith, fits.place)))

    end_read : (slice memory 16 18 >>= deserialize_uint16) ≡ ok (determine_end_offset_inode node)
    end_read =
        rw
          (slice-At memory 16 (serialize_uint16 (determine_end_offset_inode node))
            (At-left memory 16 (serialize_uint16 (determine_end_offset_inode node)) bitmap_field
              end_At)
            18 (omega (arith, length-serialize_uint16 (determine_end_offset_inode node))))
          (deserialize-serialize_uint16 (determine_end_offset_inode node)
            (omega (arith, node_end, fits.few)))

    leaf_read :
        (slice memory 50 58 >>= deserialize_uint64) ≡ ok (placed_inode node).leaf.start_offset
    leaf_read =
        rw
          (slice-At memory 50 leaf_field leaf_At 58
            (omega (arith, length-serialize_uint64 (placed_inode node).leaf.start_offset)))
          (deserialize-serialize_uint64 (placed_inode node).leaf.start_offset
            (omega (arith, leaf_offset, fits.place, fits.few)))

    -- The node as it is read, before its leaf is.
    abbrev without_leaf : INode
    without_leaf = record node {
      end_offset = determine_end_offset_inode node;
      leaf = record reset_lnode { start_offset = (placed_inode node).leaf.start_offset };
      children = map reference offsets;
    }

    deserialize_inode-serialized : deserialize_inode memory ≡ ok without_leaf
    unfolding deserialize_inode
    deserialize_inode-serialized =
        rw
          (
            version_read,
            start_read,
            end_read,
            deserialize_bitmap-serialized memory node.bitmap 8 0 fits.words fits.word_sizes
                (At-left memory 18 (concat_map serialize_uint32 node.bitmap) leaf_field bitmap_At),
            leaf_read,
            deserialize_children-serialized memory offsets (total_children node.bitmap) 58 fits.full
                fits.offset_sizes table_At,
          )
          refl

-- Where the bytes of a node stand at the offset that the node names, followed by the offsets of
-- its children and by the bytes of its leaf, `readINodeFromMemMap` gives the node back: its
-- version, its bitmap, its leaf's version, key and value, and a reference for each offset.
pub read_inode-serialized :
    (m_map : List ℕ) (node : INode) (offsets rest : List ℕ)
    → NodeFits node offsets
    → At m_map node.start_offset (
        serialize_inode true node
        ++ (concat_map serialize_uint64 offsets
            ++ (serialize_lnode (placed_inode node).leaf ++ rest)))
    → read_inode_from_mem_map m_map node.start_offset
      ≡ ok (record node {
        end_offset = determine_end_offset_inode node;
        leaf = as_read (placed_inode node).leaf;
        children = map reference offsets;
      })
unfolding read_inode_from_mem_map
read_inode-serialized m_map node offsets rest fits stands =
    let o = node.start_offset in
    let whole : List ℕ =
      (serialize_uint64 node.version ++ start_field node offsets fits)
      ++ with_leaf node offsets fits rest in
    let stands' : At m_map o whole = rw (inode_bytes node offsets fits) at stands in
    let here : At (drop o m_map) 0 whole =
      At-drop m_map o 0 whole (subst (λ t. At m_map t whole) (omega arith) stands') in
    let leaf_place = leaf_offset node offsets fits in
    let tail : At m_map (o + 58) (with_leaf node offsets fits rest) =
      At-right m_map o (serialize_uint64 node.version ++ start_field node offsets fits)
        (with_leaf node offsets fits rest) stands' (o + 58)
        (omega (arith, length-inode_bytes node offsets fits)) in
    let leaf_stands : At m_map (placed_inode node).leaf.start_offset
        (serialize_lnode (placed_inode node).leaf) =
      At-left m_map _ (serialize_lnode (placed_inode node).leaf) rest (
        At-right m_map (o + 58) (concat_map serialize_uint64 offsets) _ tail
          (placed_inode node).leaf.start_offset
          (omega (arith, leaf_place, length-table_bytes offsets))) in
    let table_bound = At-bound m_map (o + 58) _ tail in
    let inside = At-bound m_map (placed_inode node).leaf.start_offset _ leaf_stands in
    let end_idx : (o + 16) % 2 ^ 64 ≡ o + 16 = omega (arith, fits.place) in
    let end_idx' : (o + 16 + 2) % 2 ^ 64 ≡ o + 18 = omega (arith, fits.place) in
    let end_is : (slice m_map (o + 16) (o + 18) >>= deserialize_uint16)
        ≡ ok (determine_end_offset_inode node) =
      rw (slice-drop m_map o 16 18 (omega (arith, inside, leaf_place))) at
        (end_read node offsets fits (drop o m_map) rest here) in
    let last : (o + determine_end_offset_inode node + 1) % 2 ^ 64 ≡ o + 58 + 8 * length offsets =
      omega (arith, node_end node offsets fits, fits.place, fits.few) in
    rw (
      end_idx,
      end_idx',
      end_is,
      last,
      slice_in_range m_map o (o + 58 + 8 * length offsets) (omega arith)
          (omega (arith, inside, leaf_place)),
      deserialize_inode-serialized node offsets fits (drop o m_map) rest here,
      read_lnode-serialized m_map (placed_inode node).leaf fits.leaf_fits leaf_stands,
    )
