-- ===== src/MemMap.antt =====
-- node.go, meta.go and io.go: the memory map, a list of bytes, and what the store reads from it and
-- writes to it. A function that recovers from panics turns them into its error.
pub mod Leaf
pub mod Fields
pub mod Node
pub mod Meta
pub mod Path
pub mod Fresh
pub mod Initial
pub mod Ends
mod Tests
use mariv.Base.{
  ℕ, zero, suc, ◌+◌, ◌-◌, ◌*◌, ◌/◌, ◌%◌, ◌^◌, Bool, true, false, ◌&&◌, ◌||◌, not, List, [], ◌∷◌,
  ◌==◌, ltb, leb, if◌then◌else◌, length, take, drop, copy_at,
}
use mariv.Base.Memory.{slice}
use mariv.Base.Outcome.{Error, Outcome, ok, err, panics, ◌>>=◌, ◌>>◌, check, recovered}
use mariv.Node.{
  LNode, INode, Child, address, get_end_offset_lnode, get_end_offset_inode, reset_inode,
}
use mariv.Serialize.{
  MetaData, deserialize_uint16, deserialize_uint64, deserialize_inode, deserialize_lnode,
  serialize_inode, serialize_lnode, serialize_meta_data, placed_inode, placed_lnode,
  serialize_uint64, little_endian,
}

unfoldable pub read_lnode_from_mem_map : List ℕ → ℕ → Outcome LNode
read_lnode_from_mem_map m_map start_offset =
    let end_offset_idx = (start_offset + 16) % 2 ^ 64 in
    recovered Error.read_node (do
      end_offset ← slice m_map end_offset_idx ((end_offset_idx + 2) % 2 ^ 64) >>= deserialize_uint16
      s_node ← slice m_map start_offset ((start_offset + end_offset + 1) % 2 ^ 64)
      deserialize_lnode (drop start_offset m_map) (length s_node))

unfoldable pub read_inode_from_mem_map : List ℕ → ℕ → Outcome INode
read_inode_from_mem_map m_map start_offset =
    let end_offset_idx = (start_offset + 16) % 2 ^ 64 in
    recovered Error.read_node (do
      end_offset ← slice m_map end_offset_idx ((end_offset_idx + 2) % 2 ^ 64) >>= deserialize_uint16
      s_node ← slice m_map start_offset ((start_offset + end_offset + 1) % 2 ^ 64)
      node ← deserialize_inode (drop start_offset m_map)
      leaf ← read_lnode_from_mem_map m_map node.leaf.start_offset
      ok (record node { leaf = leaf }))

-- `copy(mMap[lo:hi], data)`, which stops at the end of either slice
abbrev pub copy_into : List ℕ → ℕ → ℕ → List ℕ → Outcome (List ℕ)
copy_into m_map lo hi bs = do
  check (leb lo hi && leb hi (length m_map))
  ok (copy_at m_map lo (take (hi - lo) bs))

unfoldable pub write_nodes_to_mem_map : List ℕ → List ℕ → ℕ → Outcome (List ℕ)
write_nodes_to_mem_map m_map s_nodes offset =
    recovered Error.write_path (copy_into m_map offset ((offset + length s_nodes) % 2 ^ 64) s_nodes)

-- The result of a write is the new map and the offset after the leaf. `flush` is the `Flush` of
-- the mapped region, which fails or not.
module _ (flush : List ℕ → ℕ → ℕ → Outcome (Unit {0})) where
  unfoldable pub flush_region_to_disk : List ℕ → ℕ → ℕ → ℕ → Outcome (Unit {0})
  flush_region_to_disk m_map page_size start_offset end_offset =
      let start_offset_of_page = start_offset - start_offset % page_size in
      if length m_map == 0 then ok tt else do
        check (leb start_offset_of_page end_offset && leb end_offset (length m_map))
        flush m_map start_offset_of_page end_offset

  unfoldable pub write_lnode_to_mem_map : ℕ → List ℕ → LNode → Outcome (List ℕ × ℕ)
  write_lnode_to_mem_map page_size m_map node =
      let end_offset = get_end_offset_lnode (placed_lnode node) in
      recovered Error.write_path (do
        written ←
            copy_into m_map node.start_offset ((end_offset + 1) % 2 ^ 64) (serialize_lnode node)
        flush_region_to_disk written page_size node.start_offset end_offset
        ok (written, (end_offset + 1) % 2 ^ 64))

  unfoldable pub write_inode_to_mem_map : ℕ → List ℕ → INode → Outcome (List ℕ × ℕ)
  write_inode_to_mem_map page_size m_map node =
      let placed = placed_inode node in
      recovered Error.write_path (do
        written ←
            copy_into m_map node.start_offset ((placed.leaf.start_offset + 1) % 2 ^ 64)
              (serialize_inode false node)
        flush_region_to_disk written page_size node.start_offset (get_end_offset_inode placed)
        write_lnode_to_mem_map page_size written placed.leaf)

  -- `initRoot`, on the node that the pool hands out
  unfoldable pub init_root : ℕ → List ℕ → Outcome (List ℕ × ℕ)
  init_root page_size m_map =
      write_inode_to_mem_map page_size m_map (record reset_inode { start_offset = 24 })

  unfoldable pub write_meta_to_mem_map : ℕ → List ℕ → List ℕ → Outcome (List ℕ)
  write_meta_to_mem_map page_size m_map s_meta = recovered Error.write_meta (do
    written ← copy_into m_map 0 24 s_meta
    flush_region_to_disk written page_size 0 24
    ok written)

  unfoldable pub init_meta : ℕ → List ℕ → ℕ → Outcome (List ℕ)
  init_meta page_size m_map next_start = write_meta_to_mem_map page_size m_map (
      serialize_meta_data
        (record { version = 0; root_offset = 24; next_start_offset = next_start }))

-- `atomic.LoadUint64(&mMap[offset])` and the store through the same pointer, on a little-endian
-- machine
unfoldable pub load_uint64 : List ℕ → ℕ → Outcome ℕ
load_uint64 m_map offset =
    recovered Error.load_meta
      (do check (ltb offset (length m_map)); ok (little_endian (take 8 (drop offset m_map))))

abbrev pub store_uint64 : List ℕ → ℕ → ℕ → List ℕ
store_uint64 m_map offset val = copy_at m_map offset (serialize_uint64 val)

abbrev pub load_meta_version : List ℕ → Outcome ℕ
load_meta_version m_map = load_uint64 m_map 0

abbrev pub load_meta_root_offset : List ℕ → Outcome ℕ
load_meta_root_offset m_map = load_uint64 m_map 8

abbrev pub load_meta_end_serialized : List ℕ → Outcome ℕ
load_meta_end_serialized m_map = load_uint64 m_map 16

-- The three loads together
unfoldable pub load_meta : List ℕ → Outcome MetaData
load_meta m_map = do
  version ← load_meta_version m_map
  root_offset ← load_meta_root_offset m_map
  end_offset ← load_meta_end_serialized m_map
  ok (record { version = version; root_offset = root_offset; next_start_offset = end_offset })
