-- ===== src/Compact/Tests.antt =====
-- The result of `Compact` on a new store, which holds an empty root.
use mariv.Base.{
  ℕ, true, false, ◌+◌, ◌^◌, ◌<◌, ◌≡◌, refl, ap, sym, ◌∙◌, ◌++◌, arith, List, [], length, replicate,
  length-replicate, length-append,
}
use mariv.Base.Bits.{ones, bit_at}
use mariv.Base.Bytes.{Slice}
use mariv.Base.Outcome.{ok}
use mariv.Bitmap.{calculate_hamming_weight}
use mariv.Node.{
  INode, Child, pointer, nil, deref, new_internal_node, reset_inode, reset_lnode,
  get_end_offset_inode, determine_end_offset_inode,
}
use mariv.Serialize.{placed_inode, serialize_recursive}
use mariv.MemMap.{read_inode_from_mem_map, load_meta}
use mariv.MemMap.Initial.{empty_root, first_meta, init-reads}
use mariv.MemMap.Path.{as_root, path_rest}
use mariv.Commit.Publish.{load_meta-fields}
use mariv.Open.{Mari, System, close}
use mariv.Open.Initial.{Opens}
use mariv.Open.Resize.{Works}
use mariv.Compact.{compacted_file, compact}
use mariv.Compact.Swap.{compact-swaps}
use mariv.Compact.Tree.{Holds, TreeFits}
use mariv.Compact.Block.{block, length-block}
use mariv.Compact.Copy.{serialize-block}
use mariv.Compact.ReadBack.{Reads, address-deref}
use mariv.Compact.Kept.{read_get, compacted_file-get}
use mariv.Trie.View.{found}
use mariv.Transaction.{Session}
use mariv.Compact.File.{compacted_meta, compacted_file-Reads}

abbrev system : System
system = record {
  open_file = ok tt;
  stat = ok tt;
  sync = ok tt;
  truncate = ok tt;
  map_file = ok tt;
  unmap = ok tt;
  close_file = ok tt;
  remove_file = ok tt;
  rename_old = ok tt;
  rename_new = ok tt;
  flush = λ m lo hi. ok tt;
  page_size = 4096;
}

system-Works : Works system
system-Works = record { syncs = refl; truncates = refl; maps = refl; unmaps = refl }

new_store :
    (m : List ℕ) × (load_meta m ≡ ok first_meta)
    × (read_inode_from_mem_map m 24 ≡ ok (as_root empty_root 24))
new_store =
    let made =
      init-reads (λ m lo hi. ok tt) (λ m lo hi. refl) 4096 (replicate 200 0)
        (omega (arith, length-replicate {A = ℕ} 200 0)) in
    (made.0, made.3, made.4)

abbrev root : INode
root = as_root empty_root 24

abbrev tree : Child
tree = pointer 0 24 57 root.bitmap (record (root.leaf) { version = 0 }) nil

tree-Holds : Holds (read_inode_from_mem_map new_store.0) 0 tree root
unfolding new_internal_node reset_inode
tree-Holds = (refl, refl, refl, tt)

tree-Fits : TreeFits tree 24
unfolding deref new_internal_node reset_inode reset_lnode placed_inode determine_end_offset_inode
    get_end_offset_inode calculate_hamming_weight ones bit_at
tree-Fits = (
  record {
    words = refl;
    word_sizes = (
      omega arith,
      (
        omega arith,
        (
          omega arith,
          (omega arith, (omega arith, (omega arith, (omega arith, (omega arith, tt))))),
        ),
      ),
    );
    full = refl;
    few = omega arith;
    offset_sizes = tt;
    version_fits = omega arith;
    place = omega arith;
    leaf_fits = record {
      measured = refl;
      short = omega arith;
      small = omega arith;
      blank = λ e. refl;
      version_fits = omega arith;
      place = omega arith;
    };
  },
  tt,
)

tree_size : 24 + length (serialize_recursive tree 24) < 2 ^ 63
unfolding deref
tree_size =
    let laid_out : serialize_recursive tree 24
        ≡ block (deref tree) 24 ++ path_rest (deref tree) 24 =
      ap (λ t. serialize_recursive t 24) (sym (address-deref tree))
      ∙ serialize-block (deref tree) 24 in
    let size : length (serialize_recursive tree 24) ≡ length (block (deref tree) 24) =
      ap length laid_out ∙ length-append (block (deref tree) 24) [] ∙ omega arith in
    omega (arith, size, (length-block (deref tree) 24 tree-Fits.0).1)

system-Opens : Opens system
system-Opens = record {
  resizes = system-Works;
  opens = refl;
  stats = refl;
  closes = refl;
  flushes = λ m lo hi. refl;
  pages = omega arith;
}

compacted : (file : List ℕ) × (compacted_file system 1 new_store.0 ≡ ok file)
compacted =
    let done =
      compacted_file-Reads system new_store.0 24 root tree 1 system-Works refl
        (load_meta-fields new_store.0 first_meta new_store.1).1 new_store.2 tree-Holds tree-Fits
        tree_size (omega arith) (omega arith) (omega arith) in
    (done.0, done.1)

abbrev store : Mari
store = record {
  opened = true;
  file = [];
  has_file = true;
  m_map = new_store.0;
  is_resizing = true;
}

compact-swaps_example :
    (s' : Mari) × (compact system 1 store ≡ (ok tt, s'))
    × (s'.file ≡ compacted.0)
    × (s'.m_map ≡ compacted.0)
    × (s'.is_resizing ≡ false)
    × (close system s' ≡ (ok tt, s'))
compact-swaps_example = compact-swaps system store 1 compacted.0 system-Opens refl refl compacted.1

compacted_file-Reads_example :
    (file : List ℕ) × (compacted_file system 1 new_store.0 ≡ ok file)
    × (load_meta file ≡ ok (compacted_meta tree))
    × ((node : INode) × (read_inode_from_mem_map file 24 ≡ ok node)
        × Reads (read_inode_from_mem_map file) tree node)
compacted_file-Reads_example =
    compacted_file-Reads system new_store.0 24 root tree 1 system-Works refl
      (load_meta-fields new_store.0 first_meta new_store.1).1 new_store.2 tree-Holds tree-Fits
      tree_size (omega arith) (omega arith) (omega arith)

compacted_file-get_example :
    (file : List ℕ) × (compacted_file system 1 new_store.0 ≡ ok file)
    × ((f : ℕ) (key : Slice) (s : Session)
        → found (read_get f key new_store.0 s) ≡ found (read_get f key file s))
compacted_file-get_example =
    compacted_file-get system new_store.0 24 root tree 1 system-Works refl
      (load_meta-fields new_store.0 first_meta new_store.1).1 new_store.2 tree-Holds tt tree-Fits
      tree_size (omega arith) (omega arith) (omega arith)
