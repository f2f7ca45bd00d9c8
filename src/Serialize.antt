-- ===== src/Serialize.antt =====
-- serialize.go, and the reads of node.go: nodes and metadata as bytes. A slice of the memory map
-- goes on to the end of the map, which is its capacity and which bounds a further slice of it.
pub mod Words
use mariv.Base.{
  ℕ, zero, suc, ◌+◌, ◌-◌, ◌*◌, ◌/◌, ◌%◌, ◌^◌, Bool, true, false, ◌&&◌, not, Option, none, some,
  List, [], ◌∷◌, ◌++◌, ◌==◌, leb, if◌then◌else◌, length, get_elem?, drop, map,
}
use mariv.Base.Bytes.{Slice, bytes}
use mariv.Base.Memory.{slice}
use mariv.Base.Outcome.{Error, Outcome, ok, err, panics, ◌>>=◌, ◌>>◌, at, check, recovered}
use mariv.Bitmap.{Bitmap, empty_bitmap}
use mariv.Node.{
  LNode, INode, Child, Children, pointer, nil, cons, address, deref, reset_lnode, total_children,
  determine_end_offset_inode, determine_end_offset_lnode, get_end_offset_inode,
  get_end_offset_lnode,
}

-- `binary.LittleEndian`: the low `n` bytes of a word, and the word that bytes stand for.
abbrev pub put_little_endian : ℕ → ℕ → List ℕ
put_little_endian zero w = []
put_little_endian (suc n) w = w % 256 ∷ put_little_endian n (w / 256)

abbrev pub little_endian : List ℕ → ℕ
little_endian [] = 0
little_endian (b ∷ bs) = b + 256 * little_endian bs

unfoldable pub serialize_uint64 : ℕ → List ℕ
serialize_uint64 w = put_little_endian 8 w

unfoldable pub deserialize_uint64 : List ℕ → Outcome ℕ
deserialize_uint64 input =
    if length input == 8 then ok (little_endian input) else err Error.bad_length

unfoldable pub serialize_uint32 : ℕ → List ℕ
serialize_uint32 w = put_little_endian 4 w

unfoldable pub deserialize_uint32 : List ℕ → Outcome ℕ
deserialize_uint32 input =
    if length input == 4 then ok (little_endian input) else err Error.bad_length

unfoldable pub serialize_uint16 : ℕ → List ℕ
serialize_uint16 w = put_little_endian 2 w

unfoldable pub deserialize_uint16 : List ℕ → Outcome ℕ
deserialize_uint16 input =
    if length input == 2 then ok (little_endian input) else err Error.bad_length

-- `MetaData`
pub record MetaData : Type 0 where
  pub version : ℕ
  pub root_offset : ℕ
  pub next_start_offset : ℕ

unfoldable pub serialize_meta_data : MetaData → List ℕ
serialize_meta_data meta =
    serialize_uint64 meta.version
    ++ (serialize_uint64 meta.root_offset ++ serialize_uint64 meta.next_start_offset)

-- The first argument of each of the two is the bytes from the node on, the second of
-- `deserialize_lnode` the length of the slice.
unfoldable pub deserialize_lnode : List ℕ → ℕ → Outcome LNode
deserialize_lnode memory size = do
  version ← slice memory 0 8 >>= deserialize_uint64
  start_offset ← slice memory 8 16 >>= deserialize_uint64
  end_offset ← slice memory 16 18 >>= deserialize_uint16
  check (leb 19 size)
  key_length ← at (get_elem? memory 18)
  key ← slice memory 19 ((19 + key_length) % 2 ^ 8)
  value ← slice memory ((19 + key_length) % 2 ^ 8) size
  ok (record {
    version = version;
    start_offset = start_offset;
    end_offset = end_offset;
    key_length = key_length;
    key = some key;
    value = value;
  })

-- The loop over the eight words of the bitmap, from word `i` on.
unfoldable pub deserialize_bitmap : ℕ → List ℕ → ℕ → Outcome Bitmap
deserialize_bitmap zero memory i = ok []
deserialize_bitmap (suc n) memory i = do
  w ← slice memory (18 + 4 * i) (18 + 4 * i + 4) >>= deserialize_uint32
  ws ← deserialize_bitmap n memory (i + 1)
  ok (w ∷ ws)

-- `&INode{startOffset: offset}`, whose leaf is a nil pointer that nothing follows.
abbrev pub reference : ℕ → Child
reference offset = pointer 0 offset 0 empty_bitmap reset_lnode nil

-- The loop over the child table.
unfoldable pub deserialize_children : ℕ → List ℕ → ℕ → Outcome (List Child)
deserialize_children zero memory curr_offset = ok []
deserialize_children (suc n) memory curr_offset = do
  offset ← slice memory curr_offset (curr_offset + 8) >>= deserialize_uint64
  children ← deserialize_children n memory (curr_offset + 8)
  ok (reference offset ∷ children)

unfoldable pub deserialize_inode : List ℕ → Outcome INode
unfolding reset_lnode
deserialize_inode memory = do
  version ← slice memory 0 8 >>= deserialize_uint64
  start_offset ← slice memory 8 16 >>= deserialize_uint64
  end_offset ← slice memory 16 18 >>= deserialize_uint16
  bitmap ← deserialize_bitmap 8 memory 0
  leaf_offset ← slice memory 50 58 >>= deserialize_uint64
  children ← deserialize_children (total_children bitmap) memory 58
  ok (record {
    version = version;
    start_offset = start_offset;
    end_offset = end_offset;
    bitmap = bitmap;
    leaf = record reset_lnode { start_offset = leaf_offset };
    children = children;
  })

-- The bytes of a node, after the write of its `endOffset`.
abbrev pub placed_lnode : LNode → LNode
placed_lnode node = record node { end_offset = determine_end_offset_lnode node }

unfoldable pub serialize_lnode : LNode → List ℕ
serialize_lnode node =
    serialize_uint64 node.version
    ++ (serialize_uint64 node.start_offset
        ++ (serialize_uint16 (placed_lnode node).end_offset
            ++ (node.key_length % 2 ^ 8 ∷ (bytes node.key ++ node.value))))

-- What `serializeINode` sets: the node's `endOffset`, and its leaf's `startOffset`.
unfoldable pub placed_inode : INode → INode
placed_inode node =
    let ended = record node { end_offset = determine_end_offset_inode node } in
    record ended {
      leaf = record (node.leaf) { start_offset = (get_end_offset_inode ended + 1) % 2 ^ 64 };
    }

abbrev pub concat_map : {A : Type 0} → (A → List ℕ) → List A → List ℕ
concat_map f [] = []
concat_map f (x ∷ xs) = f x ++ concat_map f xs

-- The bytes of a node, and those of its child table unless a path is serialized.
unfoldable pub serialize_inode : Bool → INode → List ℕ
unfolding placed_inode
serialize_inode serialize_path node =
    let placed = placed_inode node in
    let s_inode =
      serialize_uint64 placed.version
      ++ (serialize_uint64 placed.start_offset
          ++ (serialize_uint16 placed.end_offset
              ++ (concat_map serialize_uint32 placed.bitmap
                  ++ serialize_uint64 placed.leaf.start_offset))) in
    if serialize_path
    then s_inode
    else s_inode
      ++ concat_map (λ (c : Child). serialize_uint64 (deref c).start_offset) placed.children

-- `serializeRecursive`. The result for the children is the entries of the child table, and the
-- bytes of the children on the path.
unfoldable mutual
  pub serialize_recursive : Child → ℕ → List ℕ
  serialize_recursive (pointer version start end bitmap leaf children) offset =
      let moved : INode = record {
        version = version;
        start_offset = offset;
        end_offset = end;
        bitmap = bitmap;
        leaf = leaf;
        children = [];
      } in
      let placed = placed_inode moved in
      let next = (get_end_offset_lnode (placed_lnode placed.leaf) + 1) % 2 ^ 64 in
      let (table, paths) = serialize_children children version next in
      serialize_inode true moved ++ (table ++ (serialize_lnode placed.leaf ++ paths))

  pub serialize_children : Children → ℕ → ℕ → List ℕ × List ℕ
  serialize_children nil version next = ([], [])
  serialize_children (cons c cs) version next =
      let on_path = (deref c).version == version in
      let child_on_path = serialize_recursive c next in
      let next' = if on_path then (next + length child_on_path) % 2 ^ 64 else next in
      let (table, paths) = serialize_children cs version next' in
      if on_path
      then (serialize_uint64 next ++ table, child_on_path ++ paths)
      else (serialize_uint64 (deref c).start_offset ++ table, paths)
