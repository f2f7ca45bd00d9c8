-- ===== src/Compact/File.antt =====
-- The file that a compaction leaves holds the version that was compacted.
use mariv.Base.{
  ℕ, ◌+◌, ◌*◌, ◌^◌, ◌≤◌, ◌<◌, ◌≡◌, refl, ap, arith, List, length, length-replicate, replicate,
  copy_at,
}
use mariv.Base.Memory.{At-bound, At-copy_at, At-copy_at_above}
use mariv.Base.Outcome.{ok}
use mariv.Node.{height, INode, Child}
use mariv.Serialize.{MetaData, serialize_meta_data, serialize_recursive}
use mariv.MemMap.{read_inode_from_mem_map, load_meta_root_offset, load_meta}
use mariv.MemMap.Initial.{copy_into-ok}
use mariv.MemMap.Meta.{length-serialize_meta_data, load_meta-At}
use mariv.Commit.{allocate_size}
use mariv.Open.{System}
use mariv.Open.Resize.{Works, take-replicate}
use mariv.Compact.{resize_temp_file, new_compaction, write_meta_to_temp, compacted_file}
use mariv.Compact.Tree.{Holds, TreeFits}
use mariv.Compact.Block.{block_limit}
use mariv.Compact.Whole.{TreeCopied, Near, tree-Copied}
use mariv.Compact.ReadBack.{Reads, tree-Reads}

abbrev pub first_size : System → ℕ
first_size sys = sys.page_size * 16 * 1000

new_compaction-ok :
    (sys : System)
    → Works sys
    → sys.open_file ≡ ok tt
    → new_compaction sys ≡ ok (replicate (first_size sys) 0)
unfolding new_compaction resize_temp_file allocate_size
new_compaction-ok sys works opens =
    rw (opens, works.truncates, works.maps)
      (ap ok (take-replicate (first_size sys) (first_size sys) (omega arith)))

write_meta_to_temp-ok :
    (sys : System) (meta : MetaData) (temp : List ℕ)
    → Works sys
    → 24 ≤ length temp
    → write_meta_to_temp sys (serialize_meta_data meta) temp
      ≡ ok (copy_at temp 0 (serialize_meta_data meta))
unfolding write_meta_to_temp
write_meta_to_temp-ok sys meta temp works room =
    let fit : length (serialize_meta_data meta) ≤ 24 =
      omega (arith, length-serialize_meta_data meta) in
    rw (copy_into-ok temp 0 24 (serialize_meta_data meta) (omega arith) room fit, works.syncs) refl

abbrev pub compacted_meta : Child → MetaData
compacted_meta t = record {
  version = 0;
  root_offset = 24;
  next_start_offset = 24 + length (serialize_recursive t 24);
}

-- A compaction of a memory map whose newest root can be read, in which `t`, a tree whose nodes all
-- have the version 0, holds the bitmaps and leaves from that root down, whose calls of the system
-- return, ends with a new file, given that every node of `t` fits the format at its new place,
-- that the tree ends below 2^63, and that the fuel and the size of a first mapping are enough for
-- the height of the tree. The file's metadata are version 0, the root at 24, and the end behind
-- the tree's bytes; and what is read from byte 24 on is the tree: the same bitmaps, keys and values
-- at every node, and version 0 in the nodes and the leaves.
pub compacted_file-Reads :
    (sys : System) (m_map : List ℕ) (root_offset : ℕ) (root : INode) (t : Child) (fuel : ℕ)
    → Works sys
    → sys.open_file ≡ ok tt
    → load_meta_root_offset m_map ≡ ok root_offset
    → read_inode_from_mem_map m_map root_offset ≡ ok root
    → Holds (read_inode_from_mem_map m_map) 0 t root
    → TreeFits t 24
    → 24 + length (serialize_recursive t 24) < 2 ^ 63
    → height t ≤ fuel
    → height t * block_limit ≤ 1000000000
    → height t * block_limit + 24 ≤ first_size sys
    → (file : List ℕ) × (compacted_file sys fuel m_map ≡ ok file)
      × (load_meta file ≡ ok (compacted_meta t))
      × ((node : INode) × (read_inode_from_mem_map file 24 ≡ ok node)
          × Reads (read_inode_from_mem_map file) t node)
unfolding compacted_file TreeCopied
compacted_file-Reads sys m_map root_offset root t fuel works opens loaded read holds fits small deep
      few room =
    let load = read_inode_from_mem_map m_map in
    let temp : List ℕ = replicate (first_size sys) 0 in
    let size : length temp ≡ first_size sys = length-replicate {A = ℕ} (first_size sys) 0 in
    let near : Near load 0 sys works (height t * block_limit) few (height t) 24 temp = record {
      filled = λ e. absurd (omega (arith, size, e, room));
      enough = omega (arith, size, room);
      levels_fit = omega arith;
      near = omega (arith, size, room);
    } in
    let (temp', ran, copied, ne) =
      tree-Copied load 0 sys works (height t * block_limit) few t root fuel 24 temp deep holds fits
        small near in
    let stands = copied.stands ne in
    let bound = At-bound temp' 24 (serialize_recursive t 24) stands in
    let meta = compacted_meta t in
    let file = copy_at temp' 0 (serialize_meta_data meta) in
    (
      file,
      rw
          (
            loaded,
            read,
            new_compaction-ok sys works opens,
            ran,
            write_meta_to_temp-ok sys meta temp' works (omega (arith, bound)),
          )
          refl,
      load_meta-At file meta (omega arith) (omega arith) (omega (arith, small)) (
          At-copy_at temp' 0 (serialize_meta_data meta)
            (omega (arith, bound, length-serialize_meta_data meta))),
      tree-Reads load 0 file t root 24 holds fits (
          At-copy_at_above temp' 0 (serialize_meta_data meta) 24 (serialize_recursive t 24)
            (omega (arith, length-serialize_meta_data meta)) stands),
    )
