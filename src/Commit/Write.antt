-- ===== src/Commit/Write.antt =====
-- `exclusiveWriteMmap` when it wins the compare-and-swap, and when another write has overtaken it.
use mariv.Base.{
  take, ℕ, ◌+◌, ◌-◌, ◌%◌, ◌^◌, ◌≤◌, ◌<◌, ◌≡◌, ◌≢◌, refl, ◌∙◌, arith, Bool, true, false, ◌&&◌, not,
  List, ◌==◌, ==_iff, eq_test_false, ltb, leb, lt→ltb, le→leb, length,
}
use mariv.Base.Memory.{At}
use mariv.Base.Outcome.{ok}
use mariv.Node.{INode, address}
use mariv.Serialize.{MetaData, serialize_recursive}
use mariv.MemMap.{load_meta_version, write_nodes_to_mem_map}
use mariv.MemMap.Initial.{take_all}
use mariv.Commit.{
  Signal, Store, offer, determine_if_resize, publish, swap_version, exclusive_write_mmap,
}
use mariv.MemMap.{load_meta}
use mariv.Commit.Publish.{
  after_write, after_write-old, after_write-path, after_write-meta, length-store,
}

-- The bytes of the path, and the metadata that go with it.
abbrev pub path_bytes : INode → MetaData → List ℕ
path_bytes path meta = serialize_recursive (address path) meta.next_start_offset

abbrev pub new_meta : INode → MetaData → MetaData
new_meta path meta = record {
  version = path.version;
  root_offset = meta.next_start_offset;
  next_start_offset = (meta.next_start_offset + length (path_bytes path meta)) % 2 ^ 64;
}

-- Nothing keeps the write from its compare-and-swap: no resize is running, the path fits into the
-- map, whose length is an `int`, and no compaction is due.
pub record Ready (compact_trigger : MetaData → Bool) (store : Store) (path : INode)
    (meta : MetaData) : Type 0 where
  pub still : store.is_resizing ≡ false
  pub loaded : load_meta store.m_map ≡ ok meta
  pub room : meta.next_start_offset + length (path_bytes path meta) < length store.m_map
  pub int_size : length store.m_map < 2 ^ 63
  pub low : 24 ≤ meta.next_start_offset
  pub uncompacted : (not store.append_only && compact_trigger (new_meta path meta)) ≡ false
  pub next : path.version ≡ meta.version + 1
  pub version_fits : path.version < 2 ^ 64

-- What the others did in between: the map kept its length, and no resize is running.
pub record Interleaved (store now : Store) : Type 0 where
  pub still : now.is_resizing ≡ false
  pub size : length now.m_map ≡ length store.m_map

both_false : (a b : Bool) → (a && (b && false)) ≡ false
both_false true true = refl
both_false true false = refl
both_false false b = refl

-- The compare-and-swap against the version that the write started from, and against another.
swap-same :
    (now : Store) (meta updated : MetaData) (path : List ℕ)
    → now.is_resizing ≡ false
    → (updated.version + 2 ^ 64 - 1) % 2 ^ 64 ≡ meta.version
    → swap_version now meta updated path (ok meta.version) ≡ publish now meta updated path
swap-same now meta updated path still next =
    let passed : (not now.is_resizing
          && (meta.version == (updated.version + 2 ^ 64 - 1) % 2 ^ 64
              && meta.version == meta.version))
        ≡ true =
      rw (still, next, (==_iff meta.version meta.version).1 refl) refl in
    rw passed

swap-moved :
    (now : Store) (meta updated : MetaData) (path : List ℕ) (version : ℕ)
    → version ≢ meta.version
    → swap_version now meta updated path (ok version) ≡ (ok false, now)
swap-moved now meta updated path version ne =
    let failed : (not now.is_resizing
          && (meta.version == (updated.version + 2 ^ 64 - 1) % 2 ^ 64 && version == meta.version))
        ≡ false =
      rw (eq_test_false version meta.version ne) (
        both_false (not now.is_resizing)
          (meta.version == (updated.version + 2 ^ 64 - 1) % 2 ^ 64)) in
    rw failed

module _ (compact_trigger : MetaData → Bool) (others : Store → Store) (store : Store) (path : INode)
    (meta : MetaData) (ready : Ready compact_trigger store path meta) where
  -- Up to the compare-and-swap.
  write_steps :
      exclusive_write_mmap compact_trigger others store path
      ≡ swap_version
          (others store)
          meta
          (new_meta path meta)
          (path_bytes path meta)
          (load_meta_version (others store).m_map)
  unfolding exclusive_write_mmap determine_if_resize
  write_steps =
      let wrapped : (meta.next_start_offset + length (path_bytes path meta)) % 2 ^ 64
          ≡ meta.next_start_offset + length (path_bytes path meta) =
        omega (arith, ready.room, ready.int_size) in
      let some_bytes : ltb 0 ((new_meta path meta).next_start_offset) ≡ true =
        lt→ltb 0 _ (omega (arith, wrapped, ready.low)) in
      let inside : ltb ((new_meta path meta).next_start_offset) (length store.m_map) ≡ true =
        lt→ltb _ _ (omega (arith, wrapped, ready.room)) in
      let small : leb (2 ^ 63) ((new_meta path meta).next_start_offset) ≡ false =
        ground (arith, wrapped, ready.room, ready.int_size) in
      rw (ready.still, ready.loaded, some_bytes, small, inside, ready.uncompacted) refl

  publish_steps :
      (now : Store)
      → length now.m_map ≡ length store.m_map
      → publish now meta (new_meta path meta) (path_bytes path meta) ≡ (
        ok true,
        offer Signal.flush (record now {
          m_map = after_write now.m_map (new_meta path meta) (path_bytes path meta);
        }),
      )
  unfolding publish write_nodes_to_mem_map
  publish_steps now size =
      let o = meta.next_start_offset in
      let wrapped : (o + length (path_bytes path meta)) % 2 ^ 64
          ≡ o + length (path_bytes path meta) =
        omega (arith, ready.room, ready.int_size) in
      let low : leb o (o + length (path_bytes path meta)) ≡ true = le→leb _ _ (omega arith) in
      let whole : take (o + length (path_bytes path meta) - o) (path_bytes path meta)
          ≡ path_bytes path meta =
        take_all (path_bytes path meta) (o + length (path_bytes path meta) - o) (omega arith) in
      let high : leb (o + length (path_bytes path meta)) (length now.m_map) ≡ true =
        le→leb _ _ (omega (arith, ready.room, size)) in
      rw (wrapped, length-store, length-store, low, high, whole) refl

  -- Suppose that nothing keeps the write from its compare-and-swap, and that the others leave the
  -- length of the map alone and no resize running. If the version is then still the one that the
  -- write started from, the write succeeds: the metadata
  -- are then the new ones, the bytes of the path stand at the new root's offset, and every byte
  -- sequence that stood between the metadata and that offset stands there still.
  pub exclusive_write-publishes :
      Interleaved store (others store)
      → load_meta_version (others store).m_map ≡ ok meta.version
      → (store' : Store) × (exclusive_write_mmap compact_trigger others store path
          ≡ (ok true, store'))
        × (load_meta store'.m_map ≡ ok (new_meta path meta))
        × At store'.m_map meta.next_start_offset (path_bytes path meta)
        × ((p : ℕ) (bs : List ℕ)
            → 24 ≤ p
            → p + length bs ≤ meta.next_start_offset
            → At (others store).m_map p bs
            → At store'.m_map p bs)
  exclusive_write-publishes between same =
      let now = others store in
      let m = now.m_map in
      let room : meta.next_start_offset + length (path_bytes path meta) ≤ length m =
        omega (arith, ready.room, between.size) in
      let fits : meta.next_start_offset < 2 ^ 64 = omega (arith, ready.room, ready.int_size) in
      let next : (path.version + 2 ^ 64 - 1) % 2 ^ 64 ≡ meta.version =
        omega (arith, ready.next, ready.version_fits) in
      (
        offer Signal.flush
            (record now { m_map = after_write m (new_meta path meta) (path_bytes path meta) }),
        write_steps
            ∙ rw same (
                swap-same now meta (new_meta path meta) (path_bytes path meta) between.still next
                ∙ publish_steps now between.size),
        after_write-meta m (new_meta path meta) (path_bytes path meta) ready.low room
            ready.version_fits fits (omega arith),
        after_write-path m (new_meta path meta) (path_bytes path meta) ready.low room,
        after_write-old m (new_meta path meta) (path_bytes path meta) ready.low room,
      )

  -- If nothing keeps the write from its compare-and-swap, but the version is then another than the
  -- one that it started from, the write reports failure and leaves the store as the others left it.
  pub exclusive_write-overtaken :
      (version : ℕ)
      → load_meta_version (others store).m_map ≡ ok version
      → version ≢ meta.version
      → exclusive_write_mmap compact_trigger others store path ≡ (ok false, others store)
  exclusive_write-overtaken version moved ne =
      write_steps
      ∙ rw moved
          (swap-moved (others store) meta (new_meta path meta) (path_bytes path meta) version ne)
