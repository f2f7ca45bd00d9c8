-- ===== src/Settings/Trigger.antt =====
-- When a write asks for a compaction, by the settings of the store.
use mariv.Base.{
  ℕ, zero, suc, ◌∙◌, ◌-◌, ◌∷◌, ◌+◌, ◌%◌, ◌^◌, ◌≤◌, ◌<◌, ◌≡◌, refl, ap, if◌then◌else◌, arith, Bool,
  true, false, ◌&&◌, not, none, length, ltb, leb, lt→ltb,
}
use mariv.Base.Outcome.{Outcome, ok, stuck}
use mariv.Node.{INode}
use mariv.Serialize.{MetaData}
use mariv.MemMap.{load_meta, load_meta_version, read_inode_from_mem_map}
use mariv.Transaction.{Tx, new_tx, Session, retry, r_lock, finish, update_round, update_tx}
use mariv.Commit.Publish.{load_meta-fields}
use mariv.Compact.{default_trigger}
use mariv.Commit.{Signal, Store, offer, swap_version, determine_if_resize, exclusive_write_mmap}
use mariv.Commit.Write.{path_bytes, new_meta}
use mariv.Settings.{InitOpts, given, settings, max_compact_version}

-- A write comes as far as the question of a compaction: no resize is running or due.
pub record Reaches (store : Store) (path : INode) (meta : MetaData) : Type 0 where
  pub still : store.is_resizing ≡ false
  pub loaded : load_meta store.m_map ≡ ok meta
  pub room : meta.next_start_offset + length (path_bytes path meta) < length store.m_map
  pub int_size : length store.m_map < 2 ^ 63
  pub low : 24 ≤ meta.next_start_offset

module _ (trigger : MetaData → Bool) (others : Store → Store) (store : Store) (path : INode)
    (meta : MetaData) (reaches : Reaches store path meta) where
  write-trigger : exclusive_write_mmap trigger others store path ≡ (
      if not store.append_only && trigger (new_meta path meta)
      then (ok false, offer Signal.compact store)
      else swap_version
          (others store)
          meta
          (new_meta path meta)
          (path_bytes path meta)
          (load_meta_version (others store).m_map))
  unfolding exclusive_write_mmap determine_if_resize
  write-trigger =
      let wrapped : (meta.next_start_offset + length (path_bytes path meta)) % 2 ^ 64
          ≡ meta.next_start_offset + length (path_bytes path meta) =
        omega (arith, reaches.room, reaches.int_size) in
      let some_bytes : ltb 0 ((new_meta path meta).next_start_offset) ≡ true =
        lt→ltb 0 _ (omega (arith, wrapped, reaches.low)) in
      let inside : ltb ((new_meta path meta).next_start_offset) (length store.m_map) ≡ true =
        lt→ltb _ _ (omega (arith, wrapped, reaches.room)) in
      let small : leb (2 ^ 63) ((new_meta path meta).next_start_offset) ≡ false =
        ground (arith, wrapped, reaches.room, reaches.int_size) in
      rw (reaches.still, reaches.loaded, some_bytes, small, inside) refl

default_trigger-ltb :
    (meta : MetaData)
    → 1 ≤ meta.version
    → meta.version < 2 ^ 64
    → default_trigger max_compact_version meta ≡ ltb 1000000 meta.version
default_trigger-ltb meta pos fits = ground arith

default-trigger :
    (opts : InitOpts)
    → opts.compact_trigger ≡ none
    → (settings opts).compact_trigger ≡ default_trigger max_compact_version
unfolding settings
default-trigger opts unset = ap (λ t. given t (default_trigger max_compact_version)) unset

-- A store that is not append-only, at whose newest root the transaction's function comes to a root of
-- a version above a million, for which no resize is due.
pub record AtLimit (tx_ops : Tx → Outcome Tx) (meta : MetaData) (root path : INode) (store : Store)
    : Type 0 where
  pub reaches : Reaches store path meta
  pub compacts : store.append_only ≡ false
  pub reads : read_inode_from_mem_map store.m_map meta.root_offset ≡ ok root
  pub returns :
      tx_ops (new_tx (record root { version = (root.version + 1) % 2 ^ 64 }) true)
      ≡ ok (new_tx path true)
  pub late : 1000000 < path.version
  pub fits : path.version < 2 ^ 64

otherwise : {A : Type 0} (b : Bool) (x y : A) → b ≡ false → (if b then x else y) ≡ y
otherwise b x y e = rw e refl

module _ (opts : InitOpts) (unset : opts.compact_trigger ≡ none) (others : Store → Store)
    (tx_ops : Tx → Outcome Tx) (meta : MetaData) (root path : INode) where
  -- The session after a round that asks for a compaction
  abbrev next_session : Session → Session
  next_session s = record s { store = offer Signal.compact s.store; readers = s.readers + 1 - 1 }

  abbrev after_rounds : ℕ → Session → Session
  after_rounds zero s = s
  after_rounds (suc rounds) s = after_rounds rounds (next_session s)

  next-AtLimit :
      (store : Store)
      → AtLimit tx_ops meta root path store
      → AtLimit tx_ops meta root path (offer Signal.compact store)
  next-AtLimit store limit = record {
    reaches = record {
      still = limit.reaches.still;
      loaded = limit.reaches.loaded;
      room = limit.reaches.room;
      int_size = limit.reaches.int_size;
      low = limit.reaches.low;
    };
    compacts = limit.compacts;
    reads = limit.reads;
    returns = limit.returns;
    late = limit.late;
    fits = limit.fits;
  }

  write-compacts :
      (store : Store)
      → AtLimit tx_ops meta root path store
      → exclusive_write_mmap (settings opts).compact_trigger others store path
        ≡ (ok false, offer Signal.compact store)
  write-compacts store limit =
      let above : ltb 1000000 path.version ≡ true = lt→ltb _ _ limit.late in
      let wanted : (not store.append_only && (settings opts).compact_trigger (new_meta path meta))
          ≡ true =
        rw
          (
            limit.compacts,
            default-trigger opts unset,
            default_trigger-ltb (new_meta path meta) (omega (arith, limit.late)) limit.fits,
          )
          above in
      write-trigger (settings opts).compact_trigger others store path meta limit.reaches
      ∙ rw wanted refl

  update_round-retries :
      (store : Store)
      → AtLimit tx_ops meta root path store
      → update_round (settings opts).compact_trigger others tx_ops store
        ≡ (retry, offer Signal.compact store)
  unfolding update_round
  update_round-retries store limit =
      let fields = load_meta-fields store.m_map meta limit.reaches.loaded in
      rw (fields.0, fields.1, limit.reads, limit.returns, write-compacts store limit) refl

  update_tx-rounds :
      (rounds : ℕ) (s : Session)
      → AtLimit tx_ops meta root path s.store
      → update_tx (settings opts).compact_trigger others tx_ops rounds s
        ≡ (stuck, after_rounds rounds s)
  unfolding update_tx
  update_tx-rounds zero s limit = refl
  update_tx-rounds (suc rounds) s limit =
      let trigger = (settings opts).compact_trigger in
      otherwise s.store.is_resizing _ _ limit.reaches.still
      ∙ ap (finish trigger others tx_ops (update_tx trigger others tx_ops rounds) (r_lock s))
          (update_round-retries s.store limit)
      ∙ update_tx-rounds rounds (next_session s) (next-AtLimit s.store limit)

  after_rounds-store :
      (rounds : ℕ) (s : Session)
      → ((after_rounds rounds s).store.m_map ≡ s.store.m_map)
        × ((after_rounds rounds s).readers ≡ s.readers)
  after_rounds-store zero s = (refl, refl)
  after_rounds-store (suc rounds) s =
      let (same, readers) = after_rounds-store rounds (next_session s) in
      (same, readers ∙ omega arith)

  after_rounds-signals :
      (rounds : ℕ) (s : Session)
      → s.store.waiting Signal.compact ≡ false
      → (after_rounds rounds s).store.signals ≡ s.store.signals
  after_rounds-signals zero s busy = refl
  after_rounds-signals (suc rounds) s busy =
      after_rounds-signals rounds (next_session s) (rw busy refl) ∙ rw busy refl

  and_false : (b : Bool) → (b && false) ≡ false
  and_false true = refl
  and_false false = refl

  -- For a store whose options name no trigger, that is not append-only, and an `UpdateTx` whose function
  -- comes to a root of a version above a million that fits 64 bits, while no resize is running or due,
  -- and the others leave the store alone between its rounds: it does not return in any number of rounds. However
  -- many there are, the map is as it was and no more locks are held; the compaction has been
  -- signalled once if its goroutine waited, and not at all otherwise.
  pub update_tx-waits :
      (rounds : ℕ) (s : Session)
      → AtLimit tx_ops meta root path s.store
      → (s' : Session) × (update_tx (settings opts).compact_trigger others tx_ops (suc rounds) s
          ≡ (stuck, s'))
        × (s'.store.m_map ≡ s.store.m_map)
        × (s'.readers ≡ s.readers)
        × (s'.store.signals ≡ (
            if s.store.waiting Signal.compact
            then Signal.compact ∷ s.store.signals
            else s.store.signals))
  update_tx-waits rounds s limit =
      let (same, readers) = after_rounds-store (suc rounds) s in
      (
        after_rounds (suc rounds) s,
        update_tx-rounds (suc rounds) s limit,
        same,
        readers,
        after_rounds-signals rounds (next_session s) (and_false (s.store.waiting Signal.compact)),
      )
