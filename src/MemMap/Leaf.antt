-- ===== src/MemMap/Leaf.antt =====
-- `readLNodeFromMemMap` on the bytes that `serializeLNode` gave.
use mariv.Base.{
  ℕ, ◌+◌, ◌%◌, ◌^◌, ◌≤◌, ◌<◌, ◌≡◌, refl, ap, arith, none, some, List, [], ◌∷◌, ◌++◌, length,
  length-append, drop, get_elem?, le→leb,
}
use mariv.Base.Bytes.{Slice, bytes}
use mariv.Base.Memory.{slice, At, slice-At, At-left, At-right, At-drop, At-bound, slice-drop}
use mariv.Base.Outcome.{ok, ◌>>=◌, at}
use mariv.Node.{LNode, determine_end_offset_lnode}
use mariv.Serialize.{
  serialize_uint64, serialize_uint16, deserialize_uint64, deserialize_uint16, serialize_lnode,
  deserialize_lnode, placed_lnode,
}
use mariv.Serialize.Words.{
  length-serialize_uint64, length-serialize_uint16, deserialize-serialize_uint64,
  deserialize-serialize_uint16,
}
use mariv.MemMap.{read_lnode_from_mem_map}
use mathlib.Core.Path.{subst}

-- What the fields of a leaf must be for its bytes to hold it: a key of at most 236 bytes, and an
-- index of the last byte that is a `uint16`. A leaf with a nil key has no value.
pub record LeafFits (leaf : LNode) : Type 0 where
  pub measured : leaf.key_length ≡ length (bytes leaf.key)
  pub short : length (bytes leaf.key) ≤ 236
  pub small : 19 + (length (bytes leaf.key) + length leaf.value) ≤ 2 ^ 16
  pub blank : leaf.key ≡ none → leaf.value ≡ []
  pub version_fits : leaf.version < 2 ^ 64
  pub place : leaf.start_offset + 2 ^ 17 ≤ 2 ^ 64

-- The leaf as it is read: `endOffset` is set, and a nil key has become an empty one.
abbrev pub as_read : LNode → LNode
as_read leaf = record (placed_lnode leaf) { key = some (bytes leaf.key) }

module _ (leaf : LNode) (fits : LeafFits leaf) where
  pub end_offset_lem :
      determine_end_offset_lnode leaf ≡ 18 + (length (bytes leaf.key) + length leaf.value)
  unfolding determine_end_offset_lnode
  end_offset_lem = by_key leaf.key refl
    where
      by_key :
          (key : Slice)
          → leaf.key ≡ key
          → determine_end_offset_lnode leaf ≡ 18 + (length (bytes leaf.key) + length leaf.value)
      by_key none e = rw (e, fits.blank e) refl
      by_key (some k) e =
          let size : length (bytes leaf.key) ≡ length k = ap (λ t. length (bytes t)) e in
          rw (e, fits.measured, size) (omega (arith, fits.small, size))

  module _ (memory : List ℕ) (stands : At memory 0 (serialize_lnode leaf)) where
    abbrev after_end : List ℕ
    after_end = leaf.key_length % 2 ^ 8 ∷ (bytes leaf.key ++ leaf.value)

    abbrev after_start : List ℕ
    after_start = serialize_uint16 (placed_lnode leaf).end_offset ++ after_end

    abbrev after_version : List ℕ
    after_version = serialize_uint64 leaf.start_offset ++ after_start

    all_At : At memory 0 (serialize_uint64 leaf.version ++ after_version)
    unfolding serialize_lnode
    all_At = stands

    from_start : At memory 8 after_version
    from_start =
        At-right memory 0 (serialize_uint64 leaf.version) after_version all_At 8
          (omega (arith, length-serialize_uint64 leaf.version))

    from_end : At memory 16 after_start
    from_end =
        At-right memory 8 (serialize_uint64 leaf.start_offset) after_start from_start 16
          (omega (arith, length-serialize_uint64 leaf.start_offset))

    from_key : At memory 18 after_end
    from_key =
        At-right memory 16 (serialize_uint16 (placed_lnode leaf).end_offset) after_end from_end 18
          (omega (arith, length-serialize_uint16 (placed_lnode leaf).end_offset))

    value_At : At memory (19 + length (bytes leaf.key)) leaf.value
    value_At =
        At-right memory 19 (bytes leaf.key) leaf.value from_key.1 (19 + length (bytes leaf.key))
          refl

    version_read : (slice memory 0 8 >>= deserialize_uint64) ≡ ok leaf.version
    version_read =
        rw
          (slice-At memory 0 (serialize_uint64 leaf.version)
            (At-left memory 0 (serialize_uint64 leaf.version) after_version all_At) 8
            (omega (arith, length-serialize_uint64 leaf.version)))
          (deserialize-serialize_uint64 leaf.version fits.version_fits)

    start_read : (slice memory 8 16 >>= deserialize_uint64) ≡ ok leaf.start_offset
    start_read =
        rw
          (slice-At memory 8 (serialize_uint64 leaf.start_offset)
            (At-left memory 8 (serialize_uint64 leaf.start_offset) after_start from_start) 16
            (omega (arith, length-serialize_uint64 leaf.start_offset)))
          (deserialize-serialize_uint64 leaf.start_offset (omega (arith, fits.place)))

    pub end_read :
        (slice memory 16 18 >>= deserialize_uint16) ≡ ok (determine_end_offset_lnode leaf)
    end_read =
        rw
          (slice-At memory 16 (serialize_uint16 (placed_lnode leaf).end_offset)
            (At-left memory 16 (serialize_uint16 (placed_lnode leaf).end_offset) after_end from_end)
            18 (omega (arith, length-serialize_uint16 (placed_lnode leaf).end_offset)))
          (deserialize-serialize_uint16 (determine_end_offset_lnode leaf)
            (omega (arith, end_offset_lem, fits.small)))

    length_read : at (get_elem? memory 18) ≡ ok (length (bytes leaf.key))
    length_read =
        let size : leaf.key_length % 2 ^ 8 ≡ length (bytes leaf.key) =
          omega (arith, fits.measured, fits.short) in
        rw (from_key.0, size)

    deserialize_lnode-serialized :
        deserialize_lnode memory (19 + (length (bytes leaf.key) + length leaf.value))
        ≡ ok (as_read leaf)
    unfolding deserialize_lnode
    deserialize_lnode-serialized =
        let key_end : (19 + length (bytes leaf.key)) % 2 ^ 8 ≡ 19 + length (bytes leaf.key) =
          omega (arith, fits.short) in
        rw (
          version_read,
          start_read,
          end_read,
          length_read,
          le→leb 19 (19 + (length (bytes leaf.key) + length leaf.value)) (omega arith),
          key_end,
          slice-At memory 19 (bytes leaf.key)
              (At-left memory 19 (bytes leaf.key) leaf.value from_key.1)
              (19 + length (bytes leaf.key)) refl,
          slice-At memory (19 + length (bytes leaf.key)) leaf.value value_At
              (19 + (length (bytes leaf.key) + length leaf.value)) (omega arith),
          ← fits.measured,
        )

pub length-serialize_lnode :
    (leaf : LNode)
    → length (serialize_lnode leaf) ≡ 19 + (length (bytes leaf.key) + length leaf.value)
unfolding serialize_lnode
length-serialize_lnode leaf =
    rw
      (
        length-append,
        length-append,
        length-append,
        length-append,
        length-serialize_uint64 leaf.version,
        length-serialize_uint64 leaf.start_offset,
        length-serialize_uint16,
      )
      (omega arith)

-- Where the bytes of a leaf that fits the format stand at the offset that the leaf names,
-- `readLNodeFromMemMap` gives the leaf back: the version, the key and the value are those that were serialized.
pub read_lnode-serialized :
    (m_map : List ℕ) (leaf : LNode)
    → LeafFits leaf
    → At m_map leaf.start_offset (serialize_lnode leaf)
    → read_lnode_from_mem_map m_map leaf.start_offset ≡ ok (as_read leaf)
unfolding read_lnode_from_mem_map
read_lnode-serialized m_map leaf fits stands =
    let o = leaf.start_offset in
    let size = length-serialize_lnode leaf in
    let inside = At-bound m_map o (serialize_lnode leaf) stands in
    let here : At (drop o m_map) 0 (serialize_lnode leaf) =
      At-drop m_map o 0 _ (subst (λ t. At m_map t (serialize_lnode leaf)) (omega arith) stands) in
    let end_idx : (o + 16) % 2 ^ 64 ≡ o + 16 = omega (arith, fits.place) in
    let end_idx' : (o + 16 + 2) % 2 ^ 64 ≡ o + 18 = omega (arith, fits.place) in
    let end_is : (slice m_map (o + 16) (o + 18) >>= deserialize_uint16)
        ≡ ok (determine_end_offset_lnode leaf) =
      rw (slice-drop m_map o 16 18 (omega arith)) at (end_read leaf fits (drop o m_map) here) in
    let last : (o + determine_end_offset_lnode leaf + 1) % 2 ^ 64
        ≡ o + length (serialize_lnode leaf) =
      omega (arith, end_offset_lem leaf fits, fits.place, fits.small, size) in
    rw (
      end_idx,
      end_idx',
      end_is,
      last,
      slice-At m_map o (serialize_lnode leaf) stands (o + length (serialize_lnode leaf)) refl,
      size,
      deserialize_lnode-serialized leaf fits (drop o m_map) here,
    )
