-- ===== src/Settings/Tests.antt =====
-- The results of `Settings` at a store whose newest version is the millionth.
use mariv.Base.{ℕ, ◌≡◌, refl, arith, true, false, none, some, List, [], ◌∷◌, replicate, length}
use mariv.Base.Outcome.{Outcome, ok, stuck}
use mariv.Node.{INode, address, new_internal_node}
use mariv.Serialize.{MetaData, serialize_recursive}
use mariv.MemMap.{load_meta, read_inode_from_mem_map}
use mariv.MemMap.Path.{as_root, read-serialize_recursive}
use mariv.MemMap.Fresh.{fresh-Fits, length-fresh}
use mariv.Commit.{Signal}
use mariv.Commit.Publish.{after_write, after_write-path, after_write-meta, length-after_write}
use mariv.Transaction.{Tx, Session, update_tx}
use mariv.Settings.{InitOpts, settings}
use mariv.Settings.Trigger.{AtLimit, update_tx-waits}

abbrev opts : InitOpts
opts = record { node_pool_size = some 10; compact_trigger = none; append_only = none }

abbrev last_root : INode
last_root = new_internal_node 1000000

abbrev next_root : INode
next_root = new_internal_node 1000001

abbrev meta : MetaData
meta = record { version = 1000000; root_offset = 24; next_start_offset = 101 }

abbrev blank_map : List ℕ
blank_map = replicate 300 0

abbrev root_bytes : List ℕ
root_bytes = serialize_recursive (address last_root) 24

abbrev session : Session
session = record {
  store = record {
    m_map = after_write blank_map meta root_bytes;
    is_resizing = false;
    append_only = false;
    waiting = λ s. true;
    signals = [];
  };
  readers = 0;
}

root_size : length root_bytes ≡ 77
root_size = length-fresh 1000000 24 (omega arith) (omega arith)

loaded : load_meta session.store.m_map ≡ ok meta
loaded =
    after_write-meta blank_map meta root_bytes (omega arith) (omega (arith, root_size))
      (omega arith) (omega arith) (omega arith)

reads_root : read_inode_from_mem_map session.store.m_map 24 ≡ ok (as_root last_root 24)
reads_root =
    read-serialize_recursive session.store.m_map last_root 24
      (fresh-Fits 1000000 24 (omega arith) (omega arith))
      (after_write-path blank_map meta root_bytes (omega arith) (omega (arith, root_size)))

-- A transaction that puts a new root in place of the old one.
abbrev replacing : Tx → Outcome Tx
replacing tx = ok (record tx { root = next_root })

session-AtLimit : AtLimit replacing meta (as_root last_root 24) next_root session.store
unfolding new_internal_node
session-AtLimit = record {
  reaches = record {
    still = refl;
    loaded = loaded;
    room = omega (
      arith,
      length-fresh 1000001 101 (omega arith) (omega arith),
      length-after_write blank_map meta root_bytes,
    );
    int_size = omega (arith, length-after_write blank_map meta root_bytes);
    low = omega arith;
  };
  compacts = refl;
  reads = reads_root;
  returns = refl;
  late = omega arith;
  fits = omega arith;
}

update_tx-waits_example :
    (s' : Session) × (update_tx (settings opts).compact_trigger (λ s. s) replacing 8 session
      ≡ (stuck, s'))
    × (s'.store.m_map ≡ session.store.m_map)
    × (s'.readers ≡ 0)
    × (s'.store.signals ≡ Signal.compact ∷ [])
update_tx-waits_example =
    update_tx-waits opts refl (λ s. s) replacing meta (as_root last_root 24) next_root 7 session
      session-AtLimit
