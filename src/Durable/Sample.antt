-- ===== src/Durable/Sample.antt =====
-- A map that holds an empty root of version 1, and a root of version 2 with two children: a node of
-- the transaction with the key "a", and the old root again.
use mariv.Base.{
  ℕ, ◌+◌, ◌^◌, ◌≤◌, ◌≡◌, refl, ap, ◌∙◌, arith, true, false, some, List, [], ◌∷◌, ◌++◌, inl, inr,
  length, length-append, length-replicate, replicate,
}
use mariv.Base.Bits.{ones, bit_at}
use mariv.Base.Memory.{At}
use mariv.Base.Outcome.{ok}
use mariv.Bitmap.{empty_bitmap, calculate_hamming_weight}
use mariv.Node.{
  INode, Child, pointer, nil, cons, deref, address, reset_inode, reset_lnode, new_internal_node,
  determine_end_offset_inode, determine_end_offset_lnode, get_end_offset_inode,
  get_end_offset_lnode, get_child_node,
}
use mariv.Serialize.{MetaData, serialize_recursive, placed_inode, reference}
use mariv.MemMap.{load_meta, read_inode_from_mem_map}
use mariv.MemMap.Node.{NodeFits}
use mariv.MemMap.Path.{moved, path_offsets, path_rest, children_start}
use mariv.MemMap.Fresh.{fresh-Fits, length-fresh}
use mariv.Trie.View.{Shows}
use mariv.Commit.{Store}
use mariv.Commit.Publish.{after_write, after_write-meta, after_write-path, length-after_write}
use mariv.Commit.Write.{Ready, path_bytes}
use mariv.Compact.Block.{block, length-block}
use mariv.Durable.{Planted, Planted-Shows}
use mariv.Durable.Path.{OnPath, OnPath-Planted, serialize-path}

abbrev pub old_root : INode
old_root = new_internal_node 1

abbrev pub kid : INode
kid = record {
  version = 2;
  start_offset = 0;
  end_offset = 0;
  bitmap = empty_bitmap;
  leaf = record {
    version = 2;
    start_offset = 0;
    end_offset = 0;
    key_length = 1;
    key = some (97 ∷ []);
    value = 7 ∷ [];
  };
  children = [];
}

-- The bits of 97 and 98
abbrev pub path : INode
path = record {
  version = 2;
  start_offset = 0;
  end_offset = 0;
  bitmap = 0 ∷ 0 ∷ 0 ∷ 6 ∷ 0 ∷ 0 ∷ 0 ∷ 0 ∷ [];
  leaf = reset_lnode;
  children = address kid ∷ reference 24 ∷ [];
}

abbrev pub meta : MetaData
meta = record { version = 1; root_offset = 24; next_start_offset = 101 }

abbrev pub blank_map : List ℕ
blank_map = replicate 400 0

abbrev pub store : Store
store = record {
  m_map = after_write blank_map meta (serialize_recursive (address old_root) 24);
  is_resizing = false;
  append_only = true;
  waiting = λ s. true;
  signals = [];
}

pub store_size : length store.m_map ≡ 400
store_size =
    length-after_write blank_map meta (serialize_recursive (address old_root) 24)
    ∙ length-replicate {A = ℕ} 400 0

old_size : length (serialize_recursive (address old_root) 24) ≡ 77
old_size = length-fresh 1 24 (omega arith) (omega arith)

pub loaded : load_meta store.m_map ≡ ok meta
loaded =
    after_write-meta blank_map meta (serialize_recursive (address old_root) 24) (omega arith)
      (omega (arith, old_size)) (omega arith) (omega arith) (omega arith)

pub old_stands : At store.m_map 24 (serialize_recursive (address old_root) 24)
old_stands =
    after_write-path blank_map meta (serialize_recursive (address old_root) 24) (omega arith)
      (omega (arith, old_size))

abbrev pub old_tree : Child
old_tree = pointer 1 24 57 empty_bitmap reset_lnode nil

abbrev pub kid_tree : Child
kid_tree = pointer 2 0 0 empty_bitmap kid.leaf nil

abbrev pub tree : Child
tree = pointer 2 0 0 path.bitmap reset_lnode (cons kid_tree (cons old_tree nil))

pub old-Planted : Planted store.m_map 101 old_tree 24
unfolding new_internal_node reset_inode
old-Planted =
    OnPath-Planted store.m_map store.m_map 101 101 1 (λ p bs low high stands. stands) (omega arith)
      old_tree (address old_root) 24
      (unfold deref address in
        (refl, refl, fresh-Fits 1 24 (omega arith) (omega arith), refl, refl, refl, refl, tt))
      (omega arith) old_stands (omega (arith, old_size))

pub kid-Fits : (o : ℕ) → o + 2 ^ 18 ≤ 2 ^ 64 → NodeFits (moved kid o) (path_offsets kid o)
unfolding placed_inode determine_end_offset_inode get_end_offset_inode calculate_hamming_weight ones
    bit_at
kid-Fits o h = record {
  words = refl;
  word_sizes = omega arith;
  full = refl;
  few = omega arith;
  offset_sizes = tt;
  version_fits = omega arith;
  place = h;
  leaf_fits = record {
    measured = refl;
    short = omega arith;
    small = omega arith;
    blank = λ e. cc;
    version_fits = omega arith;
    place = omega arith;
  };
}

kid_start : children_start path 101 ≡ 194
unfolding placed_inode determine_end_offset_inode determine_end_offset_lnode get_end_offset_inode
    get_end_offset_lnode calculate_hamming_weight ones bit_at reset_lnode
kid_start = refl

kid_end : children_start kid 194 ≡ 273
unfolding placed_inode determine_end_offset_inode determine_end_offset_lnode get_end_offset_inode
    get_end_offset_lnode calculate_hamming_weight ones bit_at
kid_end = refl

kid_size : length (serialize_recursive (address kid) 194) ≡ 79
unfolding deref address
kid_size =
    let size = length-block kid 194 (kid-Fits 194 (omega arith)) in
    omega (
      arith,
      size.0,
      kid_end,
      ap length (serialize-path (address kid) 194),
      length-append (block kid 194) [],
    )

path_offsets_are : path_offsets path 101 ≡ 194 ∷ 24 ∷ []
unfolding deref address
path_offsets_are = rw kid_start refl

path-Fits : NodeFits (moved path 101) (path_offsets path 101)
unfolding placed_inode determine_end_offset_inode get_end_offset_inode calculate_hamming_weight ones
    bit_at reset_lnode
path-Fits = rw path_offsets_are (record {
  words = refl;
  word_sizes = omega arith;
  full = refl;
  few = omega arith;
  offset_sizes = omega arith;
  version_fits = omega arith;
  place = omega arith;
  leaf_fits = record {
    measured = refl;
    short = omega arith;
    small = omega arith;
    blank = λ e. refl;
    version_fits = omega arith;
    place = omega arith;
  };
})

pub path-OnPath : OnPath store.m_map 101 2 tree (address path) 101
unfolding deref address
path-OnPath =
    let on_kid : OnPath store.m_map 101 2 kid_tree (address kid) 194 =
      (refl, refl, kid-Fits 194 (omega arith), refl, refl, refl, refl, tt) in
    (
      refl,
      refl,
      path-Fits,
      refl,
      refl,
      refl,
      refl,
      rw kid_start (
          inl
            (refl, on_kid, omega (arith, kid_size), inr (λ e. omega (arith, e), old-Planted, tt))),
    )

rest_is : path_rest path 101 ≡ serialize_recursive (address kid) 194 ++ []
unfolding deref address
rest_is = rw kid_start refl

path_size : length (path_bytes path meta) ≡ 172
unfolding deref address
path_size = omega (
  arith,
  (length-block path 101 path-Fits).0,
  kid_start,
  kid_size,
  ap length (serialize-path (address path) 101),
  length-append (block path 101) (path_rest path 101),
  ap length rest_is,
  length-append (serialize_recursive (address kid) 194) [],
)

pub path-Ready : Ready (λ m. false) store path meta
path-Ready = record {
  still = refl;
  loaded = loaded;
  room = omega (arith, path_size, store_size);
  int_size = omega (arith, store_size);
  low = omega arith;
  uncompacted = refl;
  next = refl;
  version_fits = omega arith;
}

pub path-Shows : Shows (read_inode_from_mem_map store.m_map) tree path
unfolding get_child_node deref address
path-Shows =
    let (node, back, shows) = Planted-Shows store.m_map 101 old_tree 24 old-Planted in
    (refl, refl, refl, ((kid, refl, (refl, refl, refl, tt)), ((node, back, shows), tt)))
