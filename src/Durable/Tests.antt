-- ===== src/Durable/Tests.antt =====
-- The results of `Durable` at the sample.
use mariv.Durable.Sample.{path, meta, store, tree, loaded, path-OnPath, path-Ready, path-Shows}
use mariv.Base.{ℕ, ◌≡◌, refl, true, false, none, some, [], ◌∷◌}
use mariv.Base.Bits.{ones, bit_at}
use mariv.Base.Bytes.{Slice, bytes_equal}
use mariv.Base.Outcome.{ok}
use mariv.Bitmap.{calculate_hamming_weight, get_position, is_bit_set, preceding_count}
use mariv.Trie.{get_recursive, get_index_for_level}
use mariv.Node.{Child, deref, address, reset_lnode, get_child_node}
use mariv.MemMap.{load_meta, read_inode_from_mem_map}
use mariv.Trie.View.{found}
use mariv.Transaction.{Session, new_tx, get}
use mariv.Commit.{Store, exclusive_write_mmap}
use mariv.Commit.Publish.{load_meta-fields}
use mariv.Commit.Write.{new_meta}
use mariv.Compact.Kept.{read_get}
use mariv.Durable.{Planted}
use mariv.Durable.Written.{exclusive_write-Planted, exclusive_write-get}

exclusive_write-Planted_example :
    (store' : Store) × (exclusive_write_mmap (λ m. false) (λ s. s) store path ≡ (ok true, store'))
    × (load_meta store'.m_map ≡ ok (new_meta path meta))
    × Planted store'.m_map (new_meta path meta).next_start_offset tree 101
    × ((old : Child) (offset : ℕ)
        → Planted store.m_map 101 old offset
        → Planted store'.m_map (new_meta path meta).next_start_offset old offset)
exclusive_write-Planted_example =
    exclusive_write-Planted (λ m. false) (λ s. s) store path meta tree path-Ready
      (record { still = refl; size = refl }) (load_meta-fields store.m_map meta loaded).0
      path-OnPath

exclusive_write-get_example :
    (store' : Store) × (exclusive_write_mmap (λ m. false) (λ s. s) store path ≡ (ok true, store'))
    × ((f : ℕ) (key : Slice) (s : Session)
        → found (get (read_inode_from_mem_map store.m_map) f (new_tx path true) key none)
          ≡ found (read_get f key store'.m_map s))
exclusive_write-get_example =
    exclusive_write-get (λ m. false) (λ s. s) store path meta tree
      (read_inode_from_mem_map store.m_map) path-Ready (record { still = refl; size = refl })
      (load_meta-fields store.m_map meta loaded).0 path-OnPath path-Shows

-- The transaction finds the key, so that the readers do.
kid_found :
    found (get (read_inode_from_mem_map store.m_map) 2 (new_tx path true) (some (97 ∷ [])) none)
    ≡ ok (some (97 ∷ [], 7 ∷ []))
unfolding get get_recursive get_index_for_level get_child_node get_position is_bit_set
    preceding_count calculate_hamming_weight ones bit_at reset_lnode deref address bytes_equal
kid_found = refl
