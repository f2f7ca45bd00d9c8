-- ===== src/Commit/Readers.antt =====
-- What readers find after a write that has won: the new root, and every older root as it was.
use mariv.Base.{ℕ, ◌+◌, ◌≤◌, ◌≡◌, Bool, true, length}
use mariv.Base.Memory.{At}
use mariv.Base.Outcome.{ok}
use mariv.Node.{INode, address}
use mariv.Serialize.{MetaData, serialize_recursive}
use mariv.MemMap.{load_meta_version, load_meta_root_offset, read_inode_from_mem_map}
use mariv.MemMap.Node.{NodeFits}
use mariv.MemMap.Path.{moved, path_offsets, as_root, read-serialize_recursive}
use mariv.Commit.{Store, exclusive_write_mmap}
use mariv.Commit.Publish.{load_meta-fields}
use mariv.Commit.Write.{Ready, Interleaved, new_meta, exclusive_write-publishes}

-- Suppose that nothing keeps a write from its compare-and-swap, that the others leave the length of
-- the map alone, no resize running and the version as it was, and that the root of the path fits the
-- format. Then the write succeeds; a reader finds the offset of the new root in the metadata, and
-- the new root there; and every path that had been written between the metadata and the new root
-- is still read as it was, if its root fits the format.
pub exclusive_write-readers :
    (compact_trigger : MetaData → Bool) (others : Store → Store) (store : Store) (path : INode)
    (meta : MetaData)
    → Ready compact_trigger store path meta
    → Interleaved store (others store)
    → load_meta_version (others store).m_map ≡ ok meta.version
    → NodeFits (moved path meta.next_start_offset) (path_offsets path meta.next_start_offset)
    → (store' : Store) × (exclusive_write_mmap compact_trigger others store path
        ≡ (ok true, store'))
      × (load_meta_root_offset store'.m_map ≡ ok meta.next_start_offset)
      × (read_inode_from_mem_map store'.m_map meta.next_start_offset
          ≡ ok (as_root path meta.next_start_offset))
      × ((old : INode) (offset : ℕ)
          → 24 ≤ offset
          → offset + length (serialize_recursive (address old) offset) ≤ meta.next_start_offset
          → NodeFits (moved old offset) (path_offsets old offset)
          → At (others store).m_map offset (serialize_recursive (address old) offset)
          → read_inode_from_mem_map store'.m_map offset ≡ ok (as_root old offset))
exclusive_write-readers compact_trigger others store path meta ready between same fits =
    let (store', won, loaded, stands, older) =
      exclusive_write-publishes compact_trigger others store path meta ready between same in
    (
      store',
      won,
      (load_meta-fields store'.m_map (new_meta path meta) loaded).1,
      read-serialize_recursive store'.m_map path meta.next_start_offset fits stands,
      λ old offset low below old_fits old_stands.
          read-serialize_recursive store'.m_map old offset old_fits
            (older offset (serialize_recursive (address old) offset) low below old_stands),
    )
