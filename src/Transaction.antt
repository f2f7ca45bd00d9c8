-- ===== src/Transaction.antt =====
-- transaction.go: transactions, their operations, and the loop that runs and commits an update.
pub mod Locks
pub mod Ends
mod Tests
use mariv.Base.{
  ℕ, zero, suc, ◌+◌, ◌-◌, ◌%◌, ◌^◌, Bool, true, false, ◌&&◌, not, Option, none, some, List, [], ◌∷◌,
  ◌==◌, if◌then◌else◌,
}
use mariv.Base.Bytes.{Slice, bytes, bytes_compare}
use mariv.Base.Outcome.{Error, Outcome, ok, err, panics, stuck, ◌>>=◌}
use mariv.Node.{INode}
use mariv.MemMap.{read_inode_from_mem_map, load_meta_version, load_meta_root_offset}
use mariv.Serialize.{MetaData}
use mariv.Trie.{KeyValuePair, Transform, put_recursive, get_recursive, delete_recursive}
use mariv.Scan.{Results, is_gt, iterate_recursive, range_recursive}
use mariv.Commit.{Store, exclusive_write_mmap}

-- `Tx`: the root that it has come to, and whether it may write.
pub record Tx : Type 0 where
  pub root : INode
  pub is_write : Bool

abbrev pub new_tx : INode → Bool → Tx
new_tx root is_write = record { root = root; is_write = is_write }

pub record RangeOpts : Type 0 where
  pub min_version : Option ℕ
  pub transform : Option Transform

abbrev pub or_else {ℓ} : {A : Type ℓ} → Option A → A → A
or_else none d = d
or_else (some a) d = a

abbrev pub min_version_of : Option RangeOpts → ℕ
min_version_of none = 0
min_version_of (some opts) = or_else opts.min_version 0

abbrev pub transform_of : Option RangeOpts → Transform
transform_of none = some
transform_of (some opts) = or_else opts.transform some

-- Operations on a store whose nodes `load` reads, with fuel for the depth of the trie.
module _ (load : ℕ → Outcome INode) (fuel : ℕ) where
  unfoldable pub put : Tx → Slice → List ℕ → Outcome Tx
  put tx key value =
      if not tx.is_write
      then err Error.read_only
      else do root ← put_recursive load fuel tx.root key value 0; ok (record tx { root = root })

  unfoldable pub get : Tx → Slice → Option Transform → Outcome (Option KeyValuePair)
  get tx key transform = get_recursive load fuel tx.root key 0 (or_else transform some)

  unfoldable pub delete : Tx → Slice → Outcome Tx
  delete tx key =
      if not tx.is_write
      then err Error.read_only
      else do root ← delete_recursive load fuel tx.root key 0; ok (record tx { root = root })

  unfoldable pub iterate : Tx → Slice → ℕ → Option RangeOpts → Outcome Results
  iterate tx start_key total_results opts =
      iterate_recursive load (min_version_of opts) (transform_of opts) fuel tx.root start_key
        total_results 0 []

  unfoldable pub range : Tx → Slice → Slice → Option RangeOpts → Outcome Results
  range tx start_key end_key opts =
      if is_gt (bytes_compare (bytes start_key) (bytes end_key))
      then err Error.start_after_end
      else range_recursive load (min_version_of opts) (transform_of opts) fuel tx.root start_key
          end_key 0

-- The store, and how many read locks of `rwResizeLock` are held.
pub record Session : Type 0 where
  pub store : Store
  pub readers : ℕ

abbrev pub r_lock : Session → Session
r_lock s = record s { readers = s.readers + 1 }

abbrev pub r_unlock : Session → Session
r_unlock s = record s { readers = s.readers - 1 }

-- `ReadTx`, from the moment that no resize is running. The transaction's function returns what it
-- has found out.
abbrev pub unlocked {ℓ} : {A : Type ℓ} → Session → Outcome A → Outcome A × Session
unlocked s result = (result, r_unlock s)

unfoldable pub read_tx : {A : Type 0} → (Tx → Outcome A) → Session → Outcome A × Session
read_tx tx_ops s =
    let m_map = s.store.m_map in
    unlocked (r_lock s) (do
      root_offset ← load_meta_root_offset m_map
      curr_root ← read_inode_from_mem_map m_map root_offset
      tx_ops (new_tx curr_root false))

-- What a round of `UpdateTx` comes to: an end, with the lock held or given back, or another round.
pub data Round : Type 0 where
  return_locked : Outcome (Unit {0}) → Round
  return_unlocked : Outcome (Unit {0}) → Round
  retry : Round

module _ (compact_trigger : MetaData → Bool) (others : Store → Store)
    (tx_ops : Tx → Outcome Tx) where
  abbrev pub after_write : Outcome Bool × Store → Round × Store
  after_write (ok true, store) = (return_unlocked (ok tt), store)
  after_write (ok false, store) = (retry, store)
  after_write (err e, store) = (return_unlocked (err e), store)
  after_write (panics, store) = (return_locked panics, store)
  after_write (stuck, store) = (return_locked stuck, store)

  abbrev pub after_ops : Store → Outcome Tx → Round × Store
  after_ops store (ok tx) = after_write (exclusive_write_mmap compact_trigger others store tx.root)
  after_ops store (err e) = (return_locked (err e), store)
  after_ops store panics = (return_locked panics, store)
  after_ops store stuck = (return_locked stuck, store)

  abbrev pub after_root : Store → Outcome INode → Round × Store
  after_root store (ok root) =
      after_ops store (tx_ops (new_tx (record root { version = (root.version + 1) % 2 ^ 64 }) true))
  after_root store (err e) = (return_unlocked (err e), store)
  after_root store panics = (return_locked panics, store)
  after_root store stuck = (return_locked stuck, store)

  abbrev pub after_offset : Store → Outcome ℕ → Round × Store
  after_offset store (ok root_offset) =
      after_root store (read_inode_from_mem_map store.m_map root_offset)
  after_offset store (err e) = (return_locked (err e), store)
  after_offset store panics = (return_locked panics, store)
  after_offset store stuck = (return_locked stuck, store)

  -- The second load of the version follows the first at once, and reads the same.
  abbrev pub after_version : Store → Outcome ℕ → Round × Store
  after_version store (ok version) = after_offset store (load_meta_root_offset store.m_map)
  after_version store (err e) = (return_locked (err e), store)
  after_version store panics = (return_locked panics, store)
  after_version store stuck = (return_locked stuck, store)

  -- One round of the loop, with the read lock held.
  unfoldable pub update_round : Store → Round × Store
  update_round store = after_version store (load_meta_version store.m_map)

  -- `finish` is what the loop does with the outcome of a round.
  abbrev pub finish :
      (Session → Outcome (Unit {0}) × Session)
      → Session
      → Round × Store
      → Outcome (Unit {0}) × Session
  finish again s (return_locked result, store) = (result, record s { store = store })
  finish again s (return_unlocked result, store) = (result, r_unlock (record s { store = store }))
  finish again s (retry, store) = again (r_unlock (record s { store = store }))

  -- `UpdateTx`, on fuel for its rounds; while a resize is running a round only waits.
  unfoldable pub update_tx : ℕ → Session → Outcome (Unit {0}) × Session
  update_tx zero s = (stuck, s)
  update_tx (suc rounds) s =
      if s.store.is_resizing
      then update_tx rounds (record s { store = others s.store })
      else finish (update_tx rounds) (r_lock s) (update_round s.store)
