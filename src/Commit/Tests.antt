-- ===== src/Commit/Tests.antt =====
-- The results of `Commit` at a map that holds an empty root of version 1, and a second root.
use mariv.Base.{ℕ, ◌+◌, ◌≤◌, ◌≡◌, refl, arith, Bool, true, false, List, [], length, replicate}
use mariv.Base.Memory.{At}
use mariv.Base.Outcome.{ok}
use mariv.Node.{INode, address, new_internal_node}
use mariv.Serialize.{MetaData, serialize_recursive}
use mariv.MemMap.{load_meta_version, store_uint64}
use mariv.MemMap.Meta.{load-At}
use mariv.MemMap.Fresh.{length-fresh}
use mariv.Commit.{Store, exclusive_write_mmap}
use mariv.MemMap.{load_meta}
use mariv.Commit.Publish.{
  store-here, length-after_write, load_meta-fields, after_write, after_write-meta,
}
use mariv.Commit.Write.{
  Ready, path_bytes, new_meta, exclusive_write-publishes, exclusive_write-overtaken,
}
use mariv.MemMap.{load_meta_root_offset, read_inode_from_mem_map}
use mariv.MemMap.Node.{NodeFits}
use mariv.MemMap.Path.{moved, path_offsets}
use mariv.MemMap.Fresh.{fresh-Fits}
use mariv.MemMap.Path.{as_root}
use mariv.Commit.Readers.{exclusive_write-readers}

abbrev root : INode
root = new_internal_node 1

abbrev next_root : INode
next_root = new_internal_node 2

abbrev meta : MetaData
meta = record { version = 1; root_offset = 24; next_start_offset = 101 }

abbrev blank_map : List ℕ
blank_map = replicate 300 0

abbrev store : Store
store = record {
  m_map = after_write blank_map meta (serialize_recursive (address root) 24);
  is_resizing = false;
  append_only = true;
  waiting = λ s. true;
  signals = [];
}

old_size : length (serialize_recursive (address root) 24) ≡ 77
old_size = length-fresh 1 24 (omega arith) (omega arith)

next_size : length (serialize_recursive (address next_root) 101) ≡ 77
next_size = length-fresh 2 101 (omega arith) (omega arith)

loaded : load_meta store.m_map ≡ ok meta
loaded =
    after_write-meta blank_map meta (serialize_recursive (address root) 24) (omega arith)
      (omega (arith, old_size)) (omega arith) (omega arith) (omega arith)

next_root-Ready : (trigger : MetaData → Bool) → Ready trigger store next_root meta
next_root-Ready trigger = record {
  still = refl;
  loaded = loaded;
  room =
      omega (
        arith,
        next_size,
        length-after_write blank_map meta (serialize_recursive (address root) 24),
      );
  int_size =
      omega (arith, length-after_write blank_map meta (serialize_recursive (address root) 24));
  low = omega arith;
  uncompacted = refl;
  next = unfold new_internal_node in refl;
  version_fits = unfold new_internal_node in omega arith;
}

-- Another write that has taken the version.
abbrev overtake : Store → Store
overtake s = record s { m_map = store_uint64 s.m_map 0 2 }

overtaken_version : load_meta_version (overtake store).m_map ≡ ok 2
overtaken_version = load-At (overtake store).m_map 0 2 (omega arith) (
    store-here store.m_map 0 2
      (omega (arith, length-after_write blank_map meta (serialize_recursive (address root) 24))))

exclusive_write-overtaken_example :
    exclusive_write_mmap (λ m. false) overtake store next_root ≡ (ok false, overtake store)
exclusive_write-overtaken_example =
    exclusive_write-overtaken (λ m. false) overtake store next_root meta
      (next_root-Ready (λ m. false)) 2 overtaken_version (λ e. omega arith)

exclusive_write-publishes_example :
    (store' : Store) × (exclusive_write_mmap (λ m. false) (λ s. s) store next_root
      ≡ (ok true, store'))
    × (load_meta store'.m_map ≡ ok (new_meta next_root meta))
    × At store'.m_map 101 (path_bytes next_root meta)
    × ((p : ℕ) (bs : List ℕ)
        → 24 ≤ p
        → p + length bs ≤ 101
        → At store.m_map p bs
        → At store'.m_map p bs)
exclusive_write-publishes_example =
    exclusive_write-publishes (λ m. false) (λ s. s) store next_root meta
      (next_root-Ready (λ m. false)) (record { still = refl; size = refl })
      (load_meta-fields store.m_map meta loaded).0

exclusive_write-readers_example :
    (store' : Store) × (exclusive_write_mmap (λ m. false) (λ s. s) store next_root
      ≡ (ok true, store'))
    × (load_meta_root_offset store'.m_map ≡ ok 101)
    × (read_inode_from_mem_map store'.m_map 101 ≡ ok (as_root next_root 101))
    × ((old : INode) (offset : ℕ)
        → 24 ≤ offset
        → offset + length (serialize_recursive (address old) offset) ≤ 101
        → NodeFits (moved old offset) (path_offsets old offset)
        → At store.m_map offset (serialize_recursive (address old) offset)
        → read_inode_from_mem_map store'.m_map offset ≡ ok (as_root old offset))
exclusive_write-readers_example =
    exclusive_write-readers (λ m. false) (λ s. s) store next_root meta
      (next_root-Ready (λ m. false)) (record { still = refl; size = refl })
      (load_meta-fields store.m_map meta loaded).0 (fresh-Fits 2 101 (omega arith) (omega arith))
