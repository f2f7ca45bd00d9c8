-- ===== src/Durable/UpdateTests.antt =====
-- The results of `Durable.Update` and `Durable.Latest` at the sample: a put of the key "a" into the empty root.
use mariv.Base.{
  ℕ, ◌+◌, ◌^◌, ◌<◌, ◌≡◌, refl, ap, arith, true, false, List, [], ◌∷◌, ◌++◌, length, length-append,
  some,
}
use mariv.Base.Bits.{ones, bit_at}
use mariv.Base.Bytes.{bytes_equal}
use mariv.Base.Outcome.{ok}
use mariv.Bitmap.{
  calculate_hamming_weight, get_position, is_bit_set, preceding_count, set_bit, population_count,
  extend_table,
}
use mariv.Node.{
  INode, address, deref, copy_inode, reset_inode, reset_lnode, new_internal_node, new_leaf_node,
  determine_end_offset_inode, determine_end_offset_lnode, get_end_offset_inode,
  get_end_offset_lnode,
}
use mariv.Serialize.{serialize_recursive, placed_inode}
use mariv.MemMap.{read_inode_from_mem_map}
use mariv.MemMap.Node.{NodeFits}
use mariv.MemMap.Path.{
  moved, path_offsets, path_rest, children_start, as_root, read-serialize_recursive,
}
use mariv.MemMap.Fresh.{fresh-Fits}
use mariv.Trie.{put_recursive, put_below, put_new_inode, put_at_end, get_index_for_level}
use mariv.Trie.Keys.{IsKey}
use mariv.Trie.Map.{IsTrie}
use mariv.Trie.Read.{blank-Good}
use mariv.Trie.View.{found}
use mariv.Transaction.{Session, Tx, new_tx, put, update_tx}
use mathlib.Core.Path.{subst}
use mariv.Durable.Latest.{same_tx, as_puts, latest, update_tx-latest}
use mariv.Commit.Publish.{load_meta-fields}
use mariv.Commit.Write.{Ready, path_bytes}
use mariv.Compact.Block.{block, length-block}
use mariv.Compact.Kept.{read_get}
use mariv.Durable.Path.{serialize-path}
use mariv.Durable.Tidy.{Fitting}
use mariv.Durable.Update.{Durable, begun, puts, puts-Durable}
use mariv.Durable.Sample.{
  old_root, old_tree, kid, kid-Fits, meta, store, store_size, loaded, old_stands, old-Planted,
}

abbrev root : INode
root = as_root old_root 24

root_read : read_inode_from_mem_map store.m_map 24 ≡ ok root
root_read =
    read-serialize_recursive store.m_map old_root 24 (fresh-Fits 1 24 (omega arith) (omega arith))
      old_stands

-- What the put makes of the root
abbrev written : INode
written = record {
  version = 2;
  start_offset = 0;
  end_offset = 0;
  bitmap = 0 ∷ 0 ∷ 0 ∷ 2 ∷ 0 ∷ 0 ∷ 0 ∷ 0 ∷ [];
  leaf = record {
    version = 2;
    start_offset = 82;
    end_offset = 18;
    key_length = 0;
    key = some [];
    value = [];
  };
  children = address kid ∷ [];
}

put_runs :
    put
      (read_inode_from_mem_map store.m_map)
      2
      (begun (λ m. false) (λ s. s) store meta root old_tree)
      (some (97 ∷ []))
      (7 ∷ [])
    ≡ ok (new_tx written true)
unfolding put put_recursive put_below put_new_inode put_at_end get_index_for_level get_position
    is_bit_set preceding_count set_bit population_count extend_table calculate_hamming_weight ones
    bit_at copy_inode new_internal_node new_leaf_node reset_inode reset_lnode deref address
    bytes_equal placed_inode determine_end_offset_inode determine_end_offset_lnode
    get_end_offset_inode
put_runs = refl

written_start : children_start written 101 ≡ 186
unfolding placed_inode determine_end_offset_inode determine_end_offset_lnode get_end_offset_inode
    get_end_offset_lnode calculate_hamming_weight ones bit_at
written_start = refl

written_offsets : path_offsets written 101 ≡ 186 ∷ []
unfolding deref address
written_offsets = rw written_start refl

written-Fits : NodeFits (moved written 101) (path_offsets written 101)
unfolding placed_inode determine_end_offset_inode get_end_offset_inode calculate_hamming_weight ones
    bit_at
written-Fits = rw written_offsets (record {
  words = refl;
  word_sizes = omega arith;
  full = refl;
  few = omega arith;
  offset_sizes = omega arith;
  version_fits = omega arith;
  place = omega arith;
  leaf_fits = record {
    measured = refl;
    short = omega arith;
    small = omega arith;
    blank = λ e. refl;
    version_fits = omega arith;
    place = omega arith;
  };
})

kid_end : children_start kid 186 ≡ 265
unfolding placed_inode determine_end_offset_inode determine_end_offset_lnode get_end_offset_inode
    get_end_offset_lnode calculate_hamming_weight ones bit_at
kid_end = refl

kid_size : length (serialize_recursive (address kid) 186) ≡ 79
unfolding deref address
kid_size =
    let size = length-block kid 186 (kid-Fits 186 (omega arith)) in
    omega (
      arith,
      size.0,
      kid_end,
      ap length (serialize-path (address kid) 186),
      length-append (block kid 186) [],
    )

rest_is : path_rest written 101 ≡ serialize_recursive (address kid) 186 ++ []
unfolding deref address
rest_is = rw written_start refl

written_size : length (path_bytes written meta) ≡ 164
unfolding deref address
written_size = omega (
  arith,
  (length-block written 101 written-Fits).0,
  written_start,
  kid_size,
  ap length (serialize-path (address written) 101),
  length-append (block written 101) (path_rest written 101),
  ap length rest_is,
  length-append (serialize_recursive (address kid) 186) [],
)

written-Ready : Ready (λ m. false) store written meta
written-Ready = record {
  still = refl;
  loaded = loaded;
  room = omega (arith, written_size, store_size);
  int_size = omega (arith, store_size);
  low = omega arith;
  uncompacted = refl;
  next = refl;
  version_fits = omega arith;
}

letter-IsKey : IsKey 1 (97 ∷ [])
letter-IsKey = record { size = refl; indices = ((omega arith, omega arith), tt) }

next_fits : root.version + 1 < 2 ^ 64
unfolding new_internal_node
next_fits = omega arith

abbrev begun_root : INode
begun_root = (begun (λ m. false) (λ s. s) store meta root old_tree).root

root-IsTrie : IsTrie (read_inode_from_mem_map store.m_map) begun_root.version 1 begun_root
unfolding new_internal_node placed_inode
root-IsTrie = record {
  good =
      blank-Good (read_inode_from_mem_map store.m_map) begun_root.version 1 1 [] begun_root refl
        refl refl;
  current = refl;
}

pair-Fitting : Fitting (some (97 ∷ [])) (7 ∷ [])
pair-Fitting = record { short = omega arith; small = omega arith; blank = λ e. cc }

puts-Durable_example : Durable (λ m. false) (λ s. s) store meta written
puts-Durable_example =
    puts-Durable (λ m. false) (λ s. s) store meta root old_tree 2 ((some (97 ∷ []), 7 ∷ []) ∷ [])
      (new_tx written true) old-Planted root_read next_fits (pair-Fitting, tt) (rw put_runs refl)
      written-Ready (record { still = refl; size = refl })
      (load_meta-fields store.m_map meta loaded).0 (λ p bs low high a. a)

written-Ready_only :
    (root' : INode)
    → puts
        (read_inode_from_mem_map store.m_map)
        2
        (as_puts ((97 ∷ [], 7 ∷ []) ∷ []))
        (begun (λ m. false) (λ s. s) store meta root old_tree)
      ≡ ok (new_tx root' true)
    → Ready (λ m. false) store root' meta
written-Ready_only root' e =
    subst (λ (tx : Tx). Ready (λ m. false) store tx.root meta)
      (same_tx _ (new_tx written true) (new_tx root' true) (rw put_runs refl) e) written-Ready

abbrev session : Session
session = record { store = store; readers = 0 }

update_tx-latest_example :
    (s' : Session) × (update_tx
        (λ m. false)
        (λ s. s)
        (puts (read_inode_from_mem_map store.m_map) 2 (as_puts ((97 ∷ [], 7 ∷ []) ∷ [])))
        1
        session
      ≡ (ok tt, s'))
    × (s'.readers ≡ 0)
    × ((k : List ℕ) (reader : Session)
        → IsKey 1 k
        → found (read_get 2 (some k) s'.store.m_map reader)
          ≡ latest k ((97 ∷ [], 7 ∷ []) ∷ []) (found (read_get 2 (some k) store.m_map reader)))
update_tx-latest_example =
    update_tx-latest (λ m. false) (λ s. s) session meta root old_tree 1 1 0 ((97 ∷ [], 7 ∷ []) ∷ [])
      (omega arith) (omega arith) old-Planted root_read next_fits root-IsTrie
      ((letter-IsKey, pair-Fitting), tt) written-Ready_only (record { still = refl; size = refl })
      (load_meta-fields store.m_map meta loaded).0 (λ p bs low high a. a)
