-- ===== src/MemMap/Ends.antt =====
-- node.go: a read of a node from any bytes ends, whatever they hold.
use mariv.Base.{ℕ, zero, suc, ◌+◌, List, []}
use mariv.Base.Memory.{slice}
use mariv.Base.Halts.{Halts, with_ok, halts_rules, Halts-recovered}
use mariv.Serialize.{
  deserialize_uint16, deserialize_uint32, deserialize_uint64, deserialize_lnode, deserialize_inode,
  deserialize_bitmap, deserialize_children,
}
use mariv.MemMap.{read_lnode_from_mem_map, read_inode_from_mem_map, load_uint64}

slice-Halts : (m : List ℕ) (lo hi : ℕ) → Halts (slice m lo hi)
unfolding slice
slice-Halts m lo hi = search halts_rules

uint16-Halts : (bs : List ℕ) → Halts (deserialize_uint16 bs)
unfolding deserialize_uint16
uint16-Halts bs = search halts_rules

uint32-Halts : (bs : List ℕ) → Halts (deserialize_uint32 bs)
unfolding deserialize_uint32
uint32-Halts bs = search halts_rules

uint64-Halts : (bs : List ℕ) → Halts (deserialize_uint64 bs)
unfolding deserialize_uint64
uint64-Halts bs = search halts_rules

ruleset field_rules = (halts_rules, slice-Halts, uint16-Halts, uint32-Halts, uint64-Halts)

bitmap-Halts : (n : ℕ) (m : List ℕ) (i : ℕ) → Halts (deserialize_bitmap n m i)
unfolding deserialize_bitmap
bitmap-Halts zero m i = with_ok []
bitmap-Halts (suc n) m i =
    let ih : Halts (deserialize_bitmap n m (i + 1)) = bitmap-Halts n m (i + 1) in
    search (field_rules, ih) depth 8

children-Halts : (n : ℕ) (m : List ℕ) (offset : ℕ) → Halts (deserialize_children n m offset)
unfolding deserialize_children
children-Halts zero m offset = with_ok []
children-Halts (suc n) m offset =
    let ih : Halts (deserialize_children n m (offset + 8)) = children-Halts n m (offset + 8) in
    search (field_rules, ih) depth 8

lnode-Halts : (m : List ℕ) (size : ℕ) → Halts (deserialize_lnode m size)
unfolding deserialize_lnode
lnode-Halts m size = search field_rules depth 14

inode-Halts : (m : List ℕ) → Halts (deserialize_inode m)
unfolding deserialize_inode
inode-Halts m = search (field_rules, bitmap-Halts, children-Halts) depth 14

read_lnode-Halts : (m : List ℕ) (offset : ℕ) → Halts (read_lnode_from_mem_map m offset)
unfolding read_lnode_from_mem_map
read_lnode-Halts m offset = search (Halts-recovered, field_rules, lnode-Halts) depth 9

pub read_inode-Halts : (m : List ℕ) (offset : ℕ) → Halts (read_inode_from_mem_map m offset)
unfolding read_inode_from_mem_map
read_inode-Halts m offset =
    search (Halts-recovered, field_rules, inode-Halts, read_lnode-Halts) depth 10

pub load_uint64-Halts : (m : List ℕ) (offset : ℕ) → Halts (load_uint64 m offset)
unfolding load_uint64
load_uint64-Halts m offset = search (Halts-recovered, halts_rules)
