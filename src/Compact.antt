-- ===== src/Compact.antt =====
-- compact.go: the newest version is written to a temporary file, which takes the place of the
-- store's. The bytes of the temporary map are passed from step to step, since a step that fails
-- has the file removed. `load` is `readINodeFromMemMap`; the recursion is on fuel.
pub mod Tree
pub mod Room
pub mod Block
pub mod Copy
pub mod Whole
pub mod ReadBack
pub mod File
pub mod Swap
pub mod Kept
mod Tests
use mariv.Base.{
  ℕ, zero, suc, ◌+◌, ◌%◌, ◌^◌, Bool, true, false, ◌&&◌, not, List, [], ◌∷◌, ◌++◌, ◌==◌, ◌-◌, ltb,
  if◌then◌else◌, length,
}
use mariv.Base.Outcome.{Error, Outcome, ok, err, panics, stuck, ◌>>=◌, ◌>>◌, recovered}
use mariv.Node.{INode, Child, deref, get_end_offset_lnode}
use mariv.Serialize.{
  MetaData, serialize_uint64, serialize_inode, serialize_lnode, serialize_meta_data, placed_inode,
  placed_lnode,
}
use mariv.MemMap.{read_inode_from_mem_map, load_meta_root_offset, copy_into}
use mariv.Commit.{allocate_size, int_below}
use mariv.Open.{Mari, System, Action, calls, ◌>>>◌, mmap, settled, truncated, close}

-- `append(sNode, serializeUint64(nextStartOffset)...)` for each child, which is then written from
-- that offset on: the next free offset, the bytes of the node so far, and the temporary map.
abbrev pub compact_children :
    (ℕ → Outcome INode)
    → (INode → ℕ → List ℕ → Outcome (ℕ × List ℕ))
    → List Child
    → ℕ
    → List ℕ
    → Outcome (ℕ × List ℕ × List ℕ)
compact_children load visit [] next temp = ok (next, [], temp)
compact_children load visit (child ∷ children) next temp = do
  node ← load (deref child).start_offset
  (updated, temp') ← visit node next temp
  (last, table, temp'') ← compact_children load visit children updated temp'
  ok (last, serialize_uint64 next ++ table, temp'')

-- `currNode` with its version, its offset and its leaf's version set
abbrev pub restamped : INode → ℕ → ℕ → INode
restamped node version offset = record node {
  version = version;
  start_offset = offset;
  leaf = record (node.leaf) { version = version };
}

-- Whether a call has returned, and without an error
abbrev pub returns : Outcome (Unit {0}) → Bool
returns (ok u) = true
returns (err e) = false
returns panics = false
returns stuck = false

module _ (sys : System) where
  abbrev pub give_up_temp : List ℕ → Outcome (Unit {0})
  give_up_temp temp = if length temp == 0 then ok tt else sys.sync >> sys.unmap

  unfoldable pub resize_temp_file : ℕ → List ℕ → Outcome (List ℕ)
  resize_temp_file offset temp =
      let size = allocate_size sys.page_size (length temp) in
      if ltb 0 offset && int_below offset (length temp)
      then ok temp
      else do give_up_temp temp; sys.truncate; sys.map_file; ok (truncated sys size temp)

  unfoldable pub serialize_current_version :
      (ℕ → Outcome INode) → ℕ → ℕ → INode → ℕ → List ℕ → Outcome (ℕ × List ℕ)
  serialize_current_version load zero version node offset temp = stuck
  serialize_current_version load (suc fuel) version node offset temp =
      let curr_node = restamped node version offset in
      let leaf = (placed_inode curr_node).leaf in
      let leaf_end = (get_end_offset_lnode (placed_lnode leaf) + 1) % 2 ^ 64 in
      do
        (next, table, temp') ←
            compact_children load (serialize_current_version load fuel version) node.children
              leaf_end temp
        sized ← resize_temp_file leaf_end temp'
        written ←
            copy_into sized offset leaf_end
              (serialize_inode true curr_node ++ (table ++ serialize_lnode leaf))
        ok (next, written)

  unfoldable pub new_compaction : Outcome (List ℕ)
  new_compaction = do sys.open_file; resize_temp_file 0 []

  unfoldable pub write_meta_to_temp : List ℕ → List ℕ → Outcome (List ℕ)
  write_meta_to_temp s_meta temp =
      recovered Error.write_meta (do written ← copy_into temp 0 24 s_meta; sys.sync; ok written)

  -- The new file's bytes
  unfoldable pub compacted_file : ℕ → List ℕ → Outcome (List ℕ)
  compacted_file fuel m_map = do
    root_offset ← load_meta_root_offset m_map
    curr_root ← read_inode_from_mem_map m_map root_offset
    temp ← new_compaction
    (end_offset, temp') ←
        serialize_current_version (read_inode_from_mem_map m_map) fuel 0 curr_root 24 temp
    write_meta_to_temp
        (serialize_meta_data
          (record { version = 0; root_offset = 24; next_start_offset = end_offset }))
        temp'

  -- What lies under the store's name after the two renames and the removal of the old file, whose results
  -- are not looked at, and the opening, which makes an empty file where there is none.
  abbrev pub renamed : List ℕ → List ℕ → List ℕ
  renamed temp file =
      if returns sys.rename_new then temp else if returns sys.rename_old then [] else file

  unfoldable pub swap_temp_file : List ℕ → Action
  swap_temp_file temp =
      close sys
      >>> (calls sys.sync (λ s. s)
          >>> (calls sys.unmap (λ s. s)
              >>> (calls sys.close_file (λ s. s)
                  >>> (calls sys.open_file (λ s. record s { file = renamed temp s.file })
                      >>> mmap sys))))

  abbrev pub swapped_in : Mari → Outcome (List ℕ) → Outcome (Unit {0}) × Mari
  swapped_in s (ok temp) = swap_temp_file temp s
  swapped_in s (err e) = (err e, s)
  swapped_in s panics = (panics, s)
  swapped_in s stuck = (stuck, s)

  -- One round of `compactHandler`, once it has set `isResizing` and holds the write lock.
  unfoldable pub compact : ℕ → Action
  compact fuel s = settled sys (swapped_in s (compacted_file fuel s.m_map))

-- The trigger that `Open` sets where the options name none: the version, less one, in 64 bits.
abbrev pub default_trigger : ℕ → MetaData → Bool
default_trigger max_version meta = not (ltb ((meta.version + 2 ^ 64 - 1) % 2 ^ 64) max_version)
