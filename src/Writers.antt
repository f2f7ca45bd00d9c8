-- ===== src/Writers.antt =====
-- transaction.go and io.go: any number of goroutines in `UpdateTx`, interleaved at their atomic
-- loads and stores. A worker's locals are those of `UpdateTx` and `exclusiveWriteMmap`; the words
-- of the metadata and the nodes of the memory map are shared.
pub mod Invariant
pub mod Serial
pub mod Progress
mod Tests
use mariv.Base.{
  ℕ, ◌+◌, ◌-◌, ◌%◌, ◌^◌, ◌≤◌, ◌<◌, ◌≡◌, Bool, true, false, ◌||◌, List, [], ◌∷◌, ltb, leb, ◌==◌,
  if◌then◌else◌,
}

-- What a worker has done last.
pub data Pc : Type 0 where
  idle : Pc
  begun : Pc  -- the first load of the version in `UpdateTx`
  checked : Pc  -- the second, which was the same
  found : Pc  -- the load of the root's offset
  planned : Pc  -- the read of the root and the transaction's operations on it
  versioned : Pc  -- the load of the version in `exclusiveWriteMmap`
  rooted : Pc  -- the load of the root's offset there
  ended : Pc  -- the load of the end, from which the path is serialized
  ready : Pc  -- neither a resize nor a compaction is due
  swapped : Pc  -- the compare-and-swap of the version
  extended : Pc  -- the store of the end
  placed : Pc  -- the nodes written

-- How far a worker is; from 9 on it has swapped the version and not yet stored its root.
abbrev pub stage : Pc → ℕ
stage idle = 0
stage begun = 1
stage checked = 2
stage found = 3
stage planned = 4
stage versioned = 5
stage rooted = 6
stage ended = 7
stage ready = 8
stage swapped = 9
stage extended = 10
stage placed = 11

pub record Worker : Type 0 where
  pub pc : Pc
  pub first_version : ℕ  -- `version` of `UpdateTx`
  pub base : ℕ  -- `rootOffset`
  pub root_version : ℕ  -- `currRoot.version` as it was read
  pub version : ℕ
  pub prev_root : ℕ
  pub offset : ℕ  -- `endOffset`
  pub size : ℕ  -- `len(serializedPath)`

abbrev pub no_work : Worker
no_work = record {
  pc = idle;
  first_version = 0;
  base = 0;
  root_version = 0;
  version = 0;
  prev_root = 0;
  offset = 0;
  size = 0;
}

-- A version that was published: its number, the bytes of its path, and the offset of the root that
-- it was computed from. The store keeps no such record; it is what happened.
pub record Version : Type 0 where
  pub number : ℕ
  pub start : ℕ
  pub size : ℕ
  pub base : ℕ

-- The three words of the metadata, and the version field of the node that starts at an offset.
pub record Shared : Type 0 where
  pub version : ℕ
  pub root : ℕ
  pub end : ℕ
  pub node_version : ℕ → ℕ
  pub newest : Version
  pub older : List Version

-- `version` of the path copy: `currRoot.version + 1`
abbrev pub new_version : Worker → ℕ
new_version w = (w.root_version + 1) % 2 ^ 64

abbrev pub new_end : Worker → ℕ
new_end w = (w.offset + w.size) % 2 ^ 64

-- A write of `size` bytes at `offset`, which begin with a node of that version.
abbrev pub write_path : (ℕ → ℕ) → ℕ → ℕ → ℕ → (ℕ → ℕ) → ℕ → ℕ
write_path memory offset size version inside o =
    if ltb o offset || leb (offset + size) o
    then memory o
    else if o == offset
    then version
    else inside o

abbrev pub published_version : Worker → Version
published_version w = record {
  number = new_version w;
  start = w.offset;
  size = w.size;
  base = w.base;
}

-- One atomic action of a worker. `give_up` is each return before the swap that ends in another
-- round or in an error: the store is resizing, a load or a read fails, the transaction's function
-- fails, the path does not fit, a compaction is due, or the compare-and-swap fails.
pub data Move (s : Shared) (w : Worker) : Shared → Worker → Type 0 where
  load_version : w.pc ≡ idle → Move s w s (record w { pc = begun; first_version = s.version })
  check_version :
      w.pc ≡ begun → w.first_version ≡ s.version → Move s w s (record w { pc = checked })
  load_root : w.pc ≡ checked → Move s w s (record w { pc = found; base = s.root })
  run_operations :
      w.pc ≡ found → Move s w s (record w { pc = planned; root_version = s.node_version w.base })
  reload_version : w.pc ≡ planned → Move s w s (record w { pc = versioned; version = s.version })
  reload_root : w.pc ≡ versioned → Move s w s (record w { pc = rooted; prev_root = s.root })
  load_end :
      (n : ℕ)
      → w.pc ≡ rooted
      → 0 < n
      → Move s w s (record w { pc = ended; offset = s.end; size = n })
  check_space : w.pc ≡ ended → w.offset + w.size < 2 ^ 64 → Move s w s (record w { pc = ready })
  give_up : stage w.pc ≤ 8 → Move s w s (record w { pc = idle })
  -- Fewer than 2^64 versions are published.
  swap_version :
      w.pc ≡ ready
      → w.version ≡ (new_version w + 2 ^ 64 - 1) % 2 ^ 64
      → s.version ≡ w.version
      → w.root_version + 1 < 2 ^ 64
      → Move s w (record s { version = new_version w }) (record w { pc = swapped })
  store_end : w.pc ≡ swapped → Move s w (record s { end = new_end w }) (record w { pc = extended })
  place_nodes :
      (inside : ℕ → ℕ)
      → w.pc ≡ extended
      → Move s w
          (record s {
            node_version = write_path s.node_version w.offset w.size (new_version w) inside;
          })
          (record w { pc = placed })
  store_root :
      w.pc ≡ placed
      → Move s w
          (record s { root = w.offset; newest = published_version w; older = s.newest ∷ s.older })
          (record w { pc = idle })

pub record System : Type 0 where
  pub shared : Shared
  pub workers : ℕ → Worker

abbrev pub update {ℓ} : {A : Type ℓ} → (ℕ → A) → ℕ → A → ℕ → A
update f i x j = if j == i then x else f j

pub data Step (t : System) : System → Type 0 where
  by_worker :
      (i : ℕ) {s : Shared} {w : Worker}
      → Move t.shared (t.workers i) s w
      → Step t (record { shared = s; workers = update t.workers i w })

-- A store whose newest version has that number and lies at `start`, and nobody at work.
abbrev pub at_rest : Version → (ℕ → ℕ) → System
at_rest v memory = record {
  shared = record {
    version = v.number;
    root = v.start;
    end = v.start + v.size;
    node_version = memory;
    newest = v;
    older = [];
  };
  workers = λ i. no_work;
}

pub data Reach (t : System) : System → Type 0 where
  here : Reach t t
  then_step : {u v : System} → Reach t u → Step u v → Reach t v
