-- ===== src/Transaction/Tests.antt =====
-- The results of `Transaction` on a store that holds an empty root.
use mariv.Base.{
  ℕ, ◌≡◌, refl, arith, Bool, true, false, List, [], ◌∷◌, some, none, replicate, map, length,
}
use mariv.Base.Outcome.{Error, Outcome, ok, err}
use mariv.Node.{INode, address, new_internal_node, determine_end_offset_inode}
use mariv.Serialize.{MetaData, serialize_recursive, placed_inode, reference}
use mariv.MemMap.{read_inode_from_mem_map}
use mariv.MemMap.Leaf.{as_read}
use mariv.MemMap.Path.{moved, path_offsets, read-serialize_recursive}
use mariv.MemMap.Fresh.{fresh-Fits, length-fresh}
use mariv.Commit.{Store, exclusive_write_mmap}
use mariv.MemMap.{load_meta}
use mariv.Commit.Publish.{
  after_write, after_write-path, after_write-meta, length-after_write, load_meta-fields,
}
use mariv.Commit.Write.{Ready, exclusive_write-publishes}
use mariv.Base.Halts.{Halts}
use mariv.Transaction.Ends.{operations-Halts}
use mariv.Transaction.{Tx, new_tx, put, get, delete, Session, update_round, update_tx}
use mariv.Transaction.Locks.{update_tx-balanced, update_tx-user_error}

abbrev root : INode
root = new_internal_node 1

abbrev next_root : INode
next_root = new_internal_node 2

abbrev meta : MetaData
meta = record { version = 1; root_offset = 24; next_start_offset = 101 }

abbrev blank_map : List ℕ
blank_map = replicate 300 0

abbrev root_bytes : List ℕ
root_bytes = serialize_recursive (address root) 24

abbrev session : Session
session = record {
  store = record {
    m_map = after_write blank_map meta root_bytes;
    is_resizing = false;
    append_only = true;
    waiting = λ s. true;
    signals = [];
  };
  readers = 0;
}

abbrev never : MetaData → Bool
never m = false

abbrev alone : Store → Store
alone store = store

abbrev root_read : INode
root_read = record (moved root 24) {
  end_offset = determine_end_offset_inode (moved root 24);
  leaf = as_read (placed_inode (moved root 24)).leaf;
  children = map reference (path_offsets root 24);
}

root_size : length root_bytes ≡ 77
root_size = length-fresh 1 24 (omega arith) (omega arith)

loaded : load_meta session.store.m_map ≡ ok meta
loaded =
    after_write-meta blank_map meta root_bytes (omega arith) (omega (arith, root_size))
      (omega arith) (omega arith) (omega arith)

reads_root : read_inode_from_mem_map session.store.m_map 24 ≡ ok root_read
reads_root =
    read-serialize_recursive session.store.m_map root 24
      (fresh-Fits 1 24 (omega arith) (omega arith))
      (after_write-path blank_map meta root_bytes (omega arith) (omega (arith, root_size)))

abbrev failing : Tx → Outcome Tx
failing tx = err Error.user_error

update_tx-user_error_example :
    update_tx never alone failing 1 session ≡ (err Error.user_error, record session { readers = 1 })
update_tx-user_error_example =
    update_tx-user_error never alone failing 0 session 1 24 root_read Error.user_error refl
      (load_meta-fields session.store.m_map meta loaded).0
      (load_meta-fields session.store.m_map meta loaded).1 reads_root refl

-- A transaction that puts a new root in place of the old one.
abbrev replacing : Tx → Outcome Tx
replacing tx = ok (record tx { root = next_root })

next_root-Ready : Ready never session.store next_root meta
next_root-Ready = record {
  still = refl;
  loaded = loaded;
  room = omega (
    arith,
    length-fresh 2 101 (omega arith) (omega arith),
    length-after_write blank_map meta root_bytes,
  );
  int_size = omega (arith, length-after_write blank_map meta root_bytes);
  low = omega arith;
  uncompacted = refl;
  next = unfold new_internal_node in refl;
  version_fits = unfold new_internal_node in omega arith;
}

committed :
    (store' : Store) × (exclusive_write_mmap never alone session.store next_root
      ≡ (ok true, store'))
committed =
    let published =
      exclusive_write-publishes never alone session.store next_root meta next_root-Ready
        (record { still = refl; size = refl })
        (load_meta-fields session.store.m_map meta loaded).0 in
    (published.0, published.1)

update_succeeds :
    update_tx never alone replacing 1 session ≡ (ok tt, record { store = committed.0; readers = 0 })
unfolding update_tx update_round
update_succeeds =
    let fields = load_meta-fields session.store.m_map meta loaded in
    rw (fields.0, fields.1, reads_root, committed.1) refl

update_tx-balanced_example : 0 ≡ session.readers
update_tx-balanced_example =
    update_tx-balanced never alone replacing 1 session (record { store = committed.0; readers = 0 })
      update_succeeds

abbrev some_key : List ℕ
some_key = 97 ∷ 98 ∷ 99 ∷ []

operations-Halts_example :
    Halts (put (read_inode_from_mem_map blank_map) 5 (new_tx root true) (some some_key) some_key)
    × Halts (get (read_inode_from_mem_map blank_map) 5 (new_tx root true) (some some_key) none)
    × Halts (delete (read_inode_from_mem_map blank_map) 5 (new_tx root true) (some some_key))
operations-Halts_example =
    operations-Halts blank_map 5 (new_tx root true) (some some_key) some_key none (omega arith)
