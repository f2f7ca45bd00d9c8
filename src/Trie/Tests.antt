-- ===== src/Trie/Tests.antt =====
-- The results of `Trie` at the first put into an empty store.
use mariv.Base.{
  ℕ, ◌<◌, ◌≡◌, refl, ap, sym, ◌∙◌, arith, Bool-cases, none, some, List, [], ◌∷◌, map, if◌then◌else◌,
  ◌==◌, ==_iff, inl, inr,
}
use mariv.Base.Outcome.{Outcome, ok, panics}
use mariv.Base.Bytes.{bytes_equal}
use mariv.Bitmap.{empty_bitmap, get_position, is_bit_set, set_bit, extend_table}
use mariv.Bitmap.Slots.{Fits, child_at}
use mariv.Bitmap.Empty.{empty-Fits, population_count-empty, child_at-count_zero}
use mariv.Bitmap.Sparse.{extend_table-child_at}
use mariv.Node.{INode, Child, deref, get_child_node, new_internal_node, reset_inode, reset_lnode}
use mariv.Serialize.{reference}
use mariv.Trie.{put_recursive, delete_recursive}
use mariv.Trie.Keys.{IsKey}
use mariv.Trie.Order.{Good}
use mariv.Trie.Delete.{Old}
use mariv.Trie.Read.{hit, fresh-Good}
use mariv.Trie.Map.{IsTrie, IsOldTrie, lookup, get-put, get-delete}
use mathlib.Core.Path.{subst}

-- A memory map without nodes.
abbrev no_map : ℕ → Outcome INode
no_map offset = panics

abbrev empty_root : INode
empty_root = new_internal_node 1

abbrev two_bytes : List ℕ
two_bytes = 97 ∷ 98 ∷ []

two_bytes-IsKey : IsKey 2 two_bytes
two_bytes-IsKey = record {
  size = refl;
  indices = ((omega arith, omega arith), ((omega arith, omega arith), tt));
}

empty_root-IsTrie : IsTrie no_map 1 2 empty_root
empty_root-IsTrie = record {
  good = fresh-Good no_map 1 2 2 [] 1;
  current = unfold new_internal_node in refl;
}

get-put_example :
    (root' : INode) × (put_recursive no_map 3 empty_root (some two_bytes) (7 ∷ []) 0 ≡ ok root')
    × IsTrie no_map 1 2 root'
    × ((k : List ℕ)
        → IsKey 2 k
        → lookup no_map 2 root' k ≡ (
            if bytes_equal two_bytes k
            then hit two_bytes (7 ∷ [])
            else lookup no_map 2 empty_root k))
get-put_example =
    get-put no_map 1 2 2 empty_root two_bytes (7 ∷ []) (omega arith) (omega arith) empty_root-IsTrie
      two_bytes-IsKey

-- A memory map with one node, at offset 24, which holds the pair of `two_bytes`.
abbrev stored_node : INode
stored_node = record {
  version = 1;
  start_offset = 24;
  end_offset = 57;
  bitmap = empty_bitmap;
  leaf = record {
    version = 1;
    start_offset = 82;
    end_offset = 21;
    key_length = 2;
    key = some two_bytes;
    value = 7 ∷ [];
  };
  children = [];
}

abbrev one_node_map : ℕ → Outcome INode
one_node_map offset = if offset == 24 then ok stored_node else panics

abbrev to_stored : Child
to_stored = reference 24

-- A root of version 1 whose only child is that node.
one_child :
    (table : List Child) × (extend_table []
        (set_bit empty_bitmap 97)
        (get_position (set_bit empty_bitmap 97) 97)
        to_stored
      ≡ ok (map some table))
    × Fits (set_bit empty_bitmap 97) table
    × ((j : ℕ)
        → j < 256
        → child_at (set_bit empty_bitmap 97) table j
          ≡ (if 97 == j then some to_stored else child_at empty_bitmap [] j))
one_child =
    extend_table-child_at empty-Fits 97 (omega arith, omega arith) to_stored
      (unfold is_bit_set in refl)

abbrev read_root : INode
read_root = record (new_internal_node 1) {
  bitmap = set_bit empty_bitmap 97;
  children = one_child.0;
}

only_child :
    (i : ℕ)
    → i < 256
    → (c : Child) → child_at read_root.bitmap read_root.children i ≡ some c
    → (97 ≡ i) × (c ≡ to_stored)
only_child i h c e = elim (Bool-cases (97 == i)) [
  | inl same ↦
      let view : child_at read_root.bitmap read_root.children i ≡ some to_stored =
        rw same at (one_child.3 i h) in
      ((==_iff 97 i).0 same, cc)
  | inr other ↦
      let view : child_at read_root.bitmap read_root.children i ≡ child_at empty_bitmap [] i =
        rw other at (one_child.3 i h) in
      let gone : child_at {A = Child} empty_bitmap [] i ≡ none =
        child_at-count_zero empty-Fits population_count-empty i h in
      absurd cc
]

finds_stored : get_child_node one_node_map (deref to_stored) 1 ≡ ok stored_node
unfolding get_child_node deref
finds_stored = refl

childless : (i : ℕ) → i < 256 → (c : Child) → child_at {A = Child} empty_bitmap [] i ≡ some c → ⊥
childless i h c e =
    let gone : child_at {A = Child} empty_bitmap [] i ≡ none =
      child_at-count_zero empty-Fits population_count-empty i h in
    cc

stored_node-Good : Good one_node_map 2 2 1 (97 ∷ []) stored_node
stored_node-Good = record {
  leaf_ok = inr (two_bytes, refl, two_bytes-IsKey, (refl, tt));
  fits = empty-Fits;
  alone = λ filled. population_count-empty;
  rootless = λ e. absurd (omega arith);
  placed = λ i h c e. absurd (childless i h c e);
  kids = λ i h c e. absurd (childless i h c e);
}

read_root-Good : Good one_node_map 2 2 2 [] read_root
unfolding new_internal_node reset_inode reset_lnode deref
read_root-Good = record {
  leaf_ok = inl refl;
  fits = one_child.2;
  alone = λ filled. absurd (filled refl);
  rootless = λ e. refl;
  placed = λ i h c e.
      let (here, child) = only_child i h c e in
      λ offset. absurd (omega (arith, ap (λ t. (deref t).start_offset) child));
  kids = λ i h c e.
      let (here, child) = only_child i h c e in
      (
        stored_node,
        rw child finds_stored,
        λ away. refl,
        subst (λ t. Good one_node_map 2 2 1 (t ∷ []) stored_node) here stored_node-Good,
      );
}

stored_node-Old : Old one_node_map 2 2 1 stored_node
stored_node-Old = (λ e. absurd (omega arith), λ i h c kid e found. absurd (childless i h c e))

read_root-Old : Old one_node_map 2 2 2 read_root
unfolding new_internal_node reset_inode reset_lnode
read_root-Old = (
  λ e. absurd (omega arith),
  λ i h c kid e found.
      let (here, child) = only_child i h c e in
      let same : ok kid ≡ ok stored_node = sym found ∙ rw child finds_stored in
      let node_same : kid ≡ stored_node = cc in rw node_same stored_node-Old,
)

abbrev old_root : INode
old_root = record read_root { version = 2 }

old_root-IsOldTrie : IsOldTrie one_node_map 2 2 old_root
unfolding new_internal_node reset_inode reset_lnode
old_root-IsOldTrie = record {
  base = read_root;
  stamp = refl;
  good = read_root-Good;
  homed = λ away. absurd (away refl);
  old = read_root-Old;
}

get-delete_example :
    (root' : INode) × (delete_recursive one_node_map 3 old_root (some two_bytes) 0 ≡ ok root')
    × IsOldTrie one_node_map 2 2 root'
    × ((k : List ℕ)
        → IsKey 2 k
        → lookup one_node_map 2 root' k
          ≡ (if bytes_equal two_bytes k then ok none else lookup one_node_map 2 old_root k))
get-delete_example =
    get-delete one_node_map 2 2 2 old_root two_bytes (omega arith) (omega arith) old_root-IsOldTrie
      two_bytes-IsKey
