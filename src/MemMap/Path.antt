-- ===== src/MemMap/Path.antt =====
-- The bytes that `serializeRecursive` gives for a path, read back from the memory map.
use mariv.Base.{
  ℕ, ◌+◌, ◌%◌, ◌^◌, ◌≡◌, refl, true, List, [], ◌∷◌, ◌++◌, map, ◌==◌, Bool-cases, inl, inr,
  if◌then◌else◌, length,
}
use mariv.Base.Memory.{At}
use mariv.Base.Outcome.{ok}
use mariv.Node.{
  INode, Children, nil, cons, address, deref, of_list, determine_end_offset_inode,
  get_end_offset_lnode,
}
use mariv.Serialize.{
  serialize_uint64, serialize_inode, serialize_lnode, serialize_recursive, serialize_children,
  placed_inode, placed_lnode, concat_map, reference,
}
use mariv.MemMap.{read_inode_from_mem_map}
use mariv.MemMap.Leaf.{as_read}
use mariv.MemMap.Node.{NodeFits, read_inode-serialized}

-- The offsets that the child table of a node of version `version` names when its own children
-- are serialized from `next` on: a child of that version lies where its bytes are written, and an
-- older child where it was.
abbrev pub child_offsets : Children → ℕ → ℕ → List ℕ
child_offsets nil version next = []
child_offsets (cons c cs) version next =
    let on_path = (deref c).version == version in
    let next' = if on_path then (next + length (serialize_recursive c next)) % 2 ^ 64 else next in
    (if on_path then next else (deref c).start_offset) ∷ child_offsets cs version next'

-- The bytes of the children on the path, one after the other.
abbrev pub child_paths : Children → ℕ → ℕ → List ℕ
child_paths nil version next = []
child_paths (cons c cs) version next =
    let on_path = (deref c).version == version in
    let next' = if on_path then (next + length (serialize_recursive c next)) % 2 ^ 64 else next in
    (if on_path then serialize_recursive c next else []) ++ child_paths cs version next'

serialize_children_lem :
    (cs : Children) (version next : ℕ)
    → serialize_children cs version next
      ≡ (concat_map serialize_uint64 (child_offsets cs version next), child_paths cs version next)
unfolding serialize_children
serialize_children_lem nil version next = refl
serialize_children_lem (cons c cs) version next = elim (Bool-cases ((deref c).version == version)) [
  | inl here ↦ rw (
    here,
    serialize_children_lem cs version ((next + length (serialize_recursive c next)) % 2 ^ 64),
  )
  | inr away ↦ rw (away, serialize_children_lem cs version next)
]

-- The node, moved to the offset that it is written to.
abbrev pub moved : INode → ℕ → INode
moved node offset = record node { start_offset = offset; children = [] }

-- Where the children's bytes begin.
abbrev pub children_start : INode → ℕ → ℕ
children_start node offset =
    (get_end_offset_lnode (placed_lnode (placed_inode (moved node offset)).leaf) + 1) % 2 ^ 64

abbrev pub path_offsets : INode → ℕ → List ℕ
path_offsets node offset =
    child_offsets (of_list node.children) node.version (children_start node offset)

abbrev pub path_rest : INode → ℕ → List ℕ
path_rest node offset =
    child_paths (of_list node.children) node.version (children_start node offset)

pub serialize_recursive_lem :
    (node : INode) (offset : ℕ)
    → serialize_recursive (address node) offset
      ≡ serialize_inode true (moved node offset)
        ++ (concat_map serialize_uint64 (path_offsets node offset)
            ++ (serialize_lnode (placed_inode (moved node offset)).leaf ++ path_rest node offset))
unfolding serialize_recursive address
serialize_recursive_lem node offset =
    rw (serialize_children_lem (of_list node.children) node.version (children_start node offset))

-- The root of a path that was written to an offset, as `readINodeFromMemMap` gives it.
abbrev pub as_root : INode → ℕ → INode
as_root node offset = record (moved node offset) {
  end_offset = determine_end_offset_inode (moved node offset);
  leaf = as_read (placed_inode (moved node offset)).leaf;
  children = map reference (path_offsets node offset);
}

-- Where the bytes of a path stand whose root fits the format, `readINodeFromMemMap` gives the root
-- back, with a reference to where each child lies.
pub read-serialize_recursive :
    (m_map : List ℕ) (node : INode) (offset : ℕ)
    → NodeFits (moved node offset) (path_offsets node offset)
    → At m_map offset (serialize_recursive (address node) offset)
    → read_inode_from_mem_map m_map offset
      ≡ ok (record (moved node offset) {
        end_offset = determine_end_offset_inode (moved node offset);
        leaf = as_read (placed_inode (moved node offset)).leaf;
        children = map reference (path_offsets node offset);
      })
read-serialize_recursive m_map node offset fits stands =
    read_inode-serialized m_map (moved node offset) (path_offsets node offset)
      (path_rest node offset) fits (rw (serialize_recursive_lem node offset) at stands)
