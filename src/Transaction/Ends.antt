-- ===== src/Transaction/Ends.antt =====
-- transaction.go: put, get and delete of a transaction end, on nodes read from any memory map.
use mariv.Base.{ℕ, ◌+◌, ◌≤◌, arith, List, Option, some, length}
use mariv.Base.Bytes.{Slice, bytes}
use mariv.Base.Halts.{Halts, halts_rules}
use mariv.MemMap.{read_inode_from_mem_map}
use mariv.MemMap.Ends.{read_inode-Halts}
use mariv.Trie.{Transform, put_recursive, delete_recursive}
use mariv.Trie.Ends.{put_recursive-Halts, get_recursive-Halts, delete_recursive-Halts}
use mariv.Transaction.{Tx, or_else, put, get, delete}

-- On any memory map, and from any root, put, get and delete of a transaction end with a value, an
-- error or a panic: fuel for the bytes of the key and two more calls never runs out. No shape of
-- the trie is assumed, so a corrupt or cyclic map is included.
pub operations-Halts :
    (m_map : List ℕ) (fuel : ℕ) (tx : Tx) (key : Slice) (value : List ℕ)
    (transform : Option Transform)
    → length (bytes key) + 2 ≤ fuel
    → Halts (put (read_inode_from_mem_map m_map) fuel tx key value)
      × Halts (get (read_inode_from_mem_map m_map) fuel tx key transform)
      × Halts (delete (read_inode_from_mem_map m_map) fuel tx key)
unfolding put get delete
operations-Halts m_map fuel tx key value transform enough =
    let load = read_inode_from_mem_map m_map in
    let loads = read_inode-Halts m_map in
    let putting : Halts (put_recursive load fuel tx.root key value 0) =
      put_recursive-Halts load loads fuel tx.root key value 0 (omega arith) (omega arith) in
    let deleting : Halts (delete_recursive load fuel tx.root key 0) =
      delete_recursive-Halts load loads fuel tx.root key 0 (omega arith) (omega arith) in
    (
      search (halts_rules, putting),
      get_recursive-Halts load loads fuel tx.root key 0 (or_else transform some) (omega arith)
          (omega arith),
      search (halts_rules, deleting),
    )
