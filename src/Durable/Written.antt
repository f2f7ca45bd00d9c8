-- ===== src/Durable/Written.antt =====
-- A write that has won, seen as tries: the new one stands in the map, and readers find in it what
-- the transaction found.
use mariv.Base.{ℕ, List, ◌+◌, ◌%◌, ◌^◌, ◌≡◌, arith, Bool, true, length, none}
use mariv.Base.Bytes.{Slice}
use mariv.Base.Outcome.{Outcome, ok}
use mariv.Node.{INode, Child, address}
use mariv.Serialize.{MetaData}
use mariv.MemMap.{load_meta, load_meta_version, load_meta_root_offset, read_inode_from_mem_map}
use mariv.Trie.View.{found, Shows, get_recursive-Shows}
use mariv.Transaction.{Session, new_tx, get, read_tx}
use mariv.Commit.{Store, exclusive_write_mmap}
use mariv.Commit.Publish.{load_meta-fields}
use mariv.Commit.Write.{Ready, Interleaved, path_bytes, new_meta, exclusive_write-publishes}
use mariv.Compact.Kept.{read_get}
use mariv.Durable.{Planted, Planted-keeps, Planted-Shows}
use mariv.Durable.Path.{OnPath, OnPath-Planted}

-- A get in a transaction, and a get of a reader on a map whose newest trie is planted
module _ (load : ℕ → Outcome INode) (f : ℕ) (key : Slice) where
  pub get-Planted :
      (path : INode) (t : Child) (m : List ℕ) (limit o : ℕ) (s : Session)
      → Shows load t path
      → load_meta_root_offset m ≡ ok o
      → Planted m limit t o
      → found (get load f (new_tx path true) key none) ≡ found (read_get f key m s)
  unfolding get read_tx
  get-Planted path t m limit o s shows at_o planted =
      let (node, back, shows') = Planted-Shows m limit t o planted in
      rw (at_o, back)
        (get_recursive-Shows load (read_inode_from_mem_map m) f t path node key 0 shows shows')

module _ (compact_trigger : MetaData → Bool) (others : Store → Store) (store : Store) (path : INode)
    (meta : MetaData) (t : Child) where
  -- Suppose that nothing keeps a write from its compare-and-swap, that the others leave the length of
  -- the map alone, no resize running and the version as it was, and that the path holds a tree: its
  -- nodes fit the format where they are to be written, and what lies below its other children stands in the
  -- map, below the end. Then the write succeeds, the metadata are the new ones, the tree stands
  -- in the map from the new root's offset on and below the new end, and so does every tree, at its own
  -- offset, that stood there before.
  pub exclusive_write-Planted :
      Ready compact_trigger store path meta
      → Interleaved store (others store)
      → load_meta_version (others store).m_map ≡ ok meta.version
      → OnPath
          (others store).m_map
          meta.next_start_offset
          path.version
          t
          (address path)
          meta.next_start_offset
      → (store' : Store) × (exclusive_write_mmap compact_trigger others store path
          ≡ (ok true, store'))
        × (load_meta store'.m_map ≡ ok (new_meta path meta))
        × Planted store'.m_map (new_meta path meta).next_start_offset t meta.next_start_offset
        × ((old : Child) (offset : ℕ)
            → Planted (others store).m_map meta.next_start_offset old offset
            → Planted store'.m_map (new_meta path meta).next_start_offset old offset)
  exclusive_write-Planted ready between same on_path =
      let (store', won, loaded, stands, older) =
        exclusive_write-publishes compact_trigger others store path meta ready between same in
      let size = length (path_bytes path meta) in
      let ends : (meta.next_start_offset + size) % 2 ^ 64 ≡ meta.next_start_offset + size =
        omega (arith, ready.room, ready.int_size) in
      let m = (others store).m_map in
      let limit = meta.next_start_offset in
      let limit' = (new_meta path meta).next_start_offset in
      (
        store',
        won,
        loaded,
        OnPath-Planted m store'.m_map limit limit' path.version older (omega (arith, ends)) t
            (address path) limit on_path ready.low stands (omega (arith, ends)),
        λ old offset planted.
            Planted-keeps m store'.m_map limit limit' older (omega (arith, ends)) old offset
              planted,
      )

  -- Under the same conditions, if the tree is what the transaction itself reads from its root, then
  -- after the write every Get of a read-only transaction ends as a Get of that transaction ended: with the
  -- same value, with no pair, or with the same error.
  pub exclusive_write-get :
      (load : ℕ → Outcome INode)
      → Ready compact_trigger store path meta
      → Interleaved store (others store)
      → load_meta_version (others store).m_map ≡ ok meta.version
      → OnPath
          (others store).m_map
          meta.next_start_offset
          path.version
          t
          (address path)
          meta.next_start_offset
      → Shows load t path
      → (store' : Store) × (exclusive_write_mmap compact_trigger others store path
          ≡ (ok true, store'))
        × ((f : ℕ) (key : Slice) (s : Session)
            → found (get load f (new_tx path true) key none)
              ≡ found (read_get f key store'.m_map s))
  exclusive_write-get load ready between same on_path shows =
      let (store', won, loaded, planted, older) =
        exclusive_write-Planted ready between same on_path in
      (
        store',
        won,
        λ f key s.
            get-Planted load f key path t store'.m_map (new_meta path meta).next_start_offset
              meta.next_start_offset s shows
              (load_meta-fields store'.m_map (new_meta path meta) loaded).1 planted,
      )
