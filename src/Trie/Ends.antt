-- ===== src/Trie/Ends.antt =====
-- Put, get and delete end on every trie, whatever its shape, with fuel for the bytes of the key.
use mariv.Base.{
  ℕ, zero, suc, ◌+◌, ◌≤◌, ◌≡◌, arith, List, [], ◌∷◌, length, get_elem?, Option, none, some, true,
  false, ◌&&◌, ◌==◌, ltb,
}
use mariv.Base.Bits.{ones}
use mariv.Base.Bytes.{Slice, bytes}
use mariv.Base.Outcome.{Outcome}
use mariv.Base.Halts.{
  Halts, with_ok, with_panic, halts_rules, Halts-bind, Halts-if, Halts-ifd, Halts-at,
}
use mariv.Bitmap.{Bitmap, calculate_hamming_weight, population_count, extend_table, shrink_table}
use mariv.Node.{Child, INode, copy_inode, new_internal_node, new_leaf_node, get_child_node}
use mariv.Trie.{
  Transform, Put, get_index_for_level, without_nil, put_new_inode, stamped, put_into_child,
  put_at_end, put_both, put_in_leaf, put_below, put_recursive, get_recursive, drop_if_empty,
  delete_recursive,
}

get_index-Halts : (key : Slice) (level : ℕ) → Halts (get_index_for_level key level)
unfolding get_index_for_level
get_index-Halts key level = Halts-at (get_elem? (bytes key) level)

without_nil-Halts : (cs : List (Option Child)) → Halts (without_nil cs)
without_nil-Halts [] = with_ok []
without_nil-Halts (none ∷ cs) = with_panic
without_nil-Halts (some c ∷ cs) =
    Halts-bind (without_nil cs) _ (without_nil-Halts cs) (λ rest. with_ok (c ∷ rest))

extend_table-Halts :
    (table : List Child) (bitmap : Bitmap) (pos : ℕ) (c : Child)
    → Halts (extend_table table bitmap pos c)
unfolding extend_table
extend_table-Halts table bitmap pos c = search halts_rules

shrink_table-Halts :
    (table : List Child) (bitmap : Bitmap) (pos : ℕ) → Halts (shrink_table table bitmap pos)
unfolding shrink_table
shrink_table-Halts table bitmap pos = search halts_rules

put_new_inode-Halts :
    (put : Put) (node : INode) (i : ℕ) (key : Slice) (value : List ℕ) (level : ℕ)
    → Halts (put (new_internal_node node.version) key value (level + 1))
    → Halts (put_new_inode put node i key value level)
unfolding put_new_inode
put_new_inode-Halts put node i key value level h =
    search (halts_rules, h, extend_table-Halts, without_nil-Halts)

-- The tests that fail before the leaf and the key both move down
both_lengths :
    (leaf key children : ℕ)
    → (leaf == 0 && children == 0) ≡ false
    → (leaf == 0 && ltb 0 children) ≡ false
    → (ltb leaf key && ltb 0 leaf) ≡ false
    → ltb key leaf ≡ false
    → leaf ≡ key
both_lengths leaf key children a b c d = grind arith

module _ (load : ℕ → Outcome INode) (loads : (offset : ℕ) → Halts (load offset)) where
  get_child-Halts : (child : INode) (version : ℕ) → Halts (get_child_node load child version)
  unfolding get_child_node
  get_child-Halts child version = search (halts_rules, loads)

  put_into_child-Halts :
      (put : Put) (node : INode) (pos : ℕ) (key : Slice) (value : List ℕ) (level : ℕ)
      → ((kid : INode) → Halts (put kid key value (level + 1)))
      → Halts (put_into_child load put node pos key value level)
  unfolding put_into_child
  put_into_child-Halts put node pos key value level h = search (halts_rules, h, get_child-Halts)

  put_at_end-Halts :
      (put : Put) (node : INode) (key : Slice) (value : List ℕ) (level : ℕ)
      → ((v : ℕ) (k : Slice) (w : List ℕ) → Halts (put (new_internal_node v) k w (level + 1)))
      → Halts (put_at_end load put node key value level)
  unfolding put_at_end
  put_at_end-Halts put node key value level h =
      search (halts_rules, h, get_index-Halts, put_new_inode-Halts) depth 9

  put_both-Halts :
      (put : Put) (node : INode) (i : ℕ) (key : Slice) (value : List ℕ) (level : ℕ)
      → ((v : ℕ) (k : Slice) (w : List ℕ) → Halts (put (new_internal_node v) k w (level + 1)))
      → ((kid : INode) → Halts (put kid node.leaf.key node.leaf.value (level + 1)))
      → Halts (put_both load put node i key value level)
  unfolding put_both
  put_both-Halts put node i key value level new old =
      search (halts_rules, new, old, get_index-Halts, put_new_inode-Halts, put_into_child-Halts)
        depth 9

  put_in_leaf-Halts :
      (put : Put) (node : INode) (i : ℕ) (key : Slice) (value : List ℕ) (level : ℕ)
      → ((v : ℕ) (k : Slice) (w : List ℕ) → Halts (put (new_internal_node v) k w (level + 1)))
      → ((kid : INode) (k : Slice) (w : List ℕ)
          → length (bytes k) ≡ length (bytes key)
          → Halts (put kid k w (level + 1)))
      → Halts (put_in_leaf load put node i key value level)
  unfolding put_in_leaf
  put_in_leaf-Halts put node i key value level new same =
      search
        (
          with_ok, Halts-ifd, Halts-bind, new, same, both_lengths, get_index-Halts,
          put_new_inode-Halts, put_both-Halts,
        )
        depth 14

  put_below-Halts :
      (put : Put) (node : INode) (key : Slice) (value : List ℕ) (level : ℕ)
      → ((v : ℕ) (k : Slice) (w : List ℕ) → Halts (put (new_internal_node v) k w (level + 1)))
      → ((kid : INode) (k : Slice) (w : List ℕ)
          → length (bytes k) ≡ length (bytes key)
          → Halts (put kid k w (level + 1)))
      → Halts (put_below load put node key value level)
  unfolding put_below
  put_below-Halts put node key value level new same =
      search
        (
          halts_rules, new, same, get_index-Halts, put_new_inode-Halts, put_in_leaf-Halts,
          put_into_child-Halts,
        )
        depth 9

  put_at_end-new_Halts :
      (put : Put) (v : ℕ) (key : Slice) (value : List ℕ) (level : ℕ)
      → Halts (put_at_end load put (stamped (new_internal_node v)) key value level)
  unfolding put_at_end new_internal_node new_leaf_node
  put_at_end-new_Halts put v key value level =
      let longer : ltb (length (bytes key)) 0 ≡ false = grind arith in
      rw longer (search halts_rules)

  put_into_child-new_Halts :
      (put : Put) (v pos : ℕ) (key : Slice) (value : List ℕ) (level : ℕ)
      → Halts (put_into_child load put (stamped (new_internal_node v)) pos key value level)
  unfolding put_into_child new_internal_node
  put_into_child-new_Halts put v pos key value level = with_panic

  put_in_leaf-new_Halts :
      (put : Put) (v i : ℕ) (key : Slice) (value : List ℕ) (level : ℕ)
      → Halts (put_in_leaf load put (stamped (new_internal_node v)) i key value level)
  unfolding put_in_leaf new_internal_node population_count calculate_hamming_weight new_leaf_node
      ones
  put_in_leaf-new_Halts put v i key value level = search (halts_rules)

  put_below-new_Halts :
      (put : Put) (v : ℕ) (key : Slice) (value : List ℕ) (level : ℕ)
      → Halts (put_below load put (stamped (new_internal_node v)) key value (level + 1))
  unfolding put_below
  put_below-new_Halts put v key value level =
      let positive : ltb 0 (level + 1) ≡ true = grind arith in
      Halts-bind (get_index_for_level key (level + 1)) _ (get_index-Halts key (level + 1)) (λ index.
        rw positive (search (halts_rules, put_into_child-new_Halts, put_in_leaf-new_Halts) depth 9))

  -- A node with no leaf and no children takes the pair itself.
  put-new_Halts :
      (f v : ℕ) (key : Slice) (value : List ℕ) (level : ℕ)
      → Halts (put_recursive load (suc f) (new_internal_node v) key value (level + 1))
  unfolding put_recursive new_internal_node copy_inode
  put-new_Halts f v key value level =
      Halts-if (length (bytes key) == level + 1) _ _
        (put_at_end-new_Halts (put_recursive load f) v key value (level + 1))
        (put_below-new_Halts (put_recursive load f) v key value level)

  pub put_recursive-Halts :
      (f : ℕ) (node : INode) (key : Slice) (value : List ℕ) (level : ℕ)
      → level ≤ length (bytes key)
      → length (bytes key) + 2 ≤ f + level
      → Halts (put_recursive load f node key value level)
  unfolding put_recursive
  put_recursive-Halts zero node key value level l e = let no : ⊥ = omega arith in elim no [ ]
  put_recursive-Halts (suc zero) node key value level l e = let no : ⊥ = omega arith in elim no [ ]
  put_recursive-Halts (suc (suc f)) node key value level l e =
      Halts-ifd (length (bytes key) == level) _ _
        (λ at_level.
          put_at_end-Halts (put_recursive load (suc f)) _ key value level
            (λ v k w. put-new_Halts f v k w level))
        (λ below.
          put_below-Halts (put_recursive load (suc f)) _ key value level
            (λ v k w. put-new_Halts f v k w level)
            (λ kid k w same.
              put_recursive-Halts (suc f) kid k w (level + 1) (grind arith) (grind arith)))

  pub get_recursive-Halts :
      (f : ℕ) (node : INode) (key : Slice) (level : ℕ) (transform : Transform)
      → level ≤ length (bytes key)
      → length (bytes key) + 1 ≤ f + level
      → Halts (get_recursive load f node key level transform)
  unfolding get_recursive
  get_recursive-Halts zero node key level transform l e = let no : ⊥ = omega arith in elim no [ ]
  get_recursive-Halts (suc f) node key level transform l e =
      Halts-ifd (length (bytes key) == level) _ _ (λ at_level. with_ok _)
        (λ below.
          let ih : (kid : INode) → Halts (get_recursive load f kid key (level + 1) transform) =
            λ kid.
              get_recursive-Halts f kid key (level + 1) transform (grind arith) (grind arith) in
          search (halts_rules, ih, get_index-Halts, get_child-Halts) depth 9)

  drop_if_empty-Halts :
      (node updated : INode) (i pos : ℕ) → Halts (drop_if_empty load node updated i pos)
  unfolding drop_if_empty
  drop_if_empty-Halts node updated i pos =
      search (halts_rules, shrink_table-Halts, without_nil-Halts)

  pub delete_recursive-Halts :
      (f : ℕ) (node : INode) (key : Slice) (level : ℕ)
      → level ≤ length (bytes key)
      → length (bytes key) + 1 ≤ f + level
      → Halts (delete_recursive load f node key level)
  unfolding delete_recursive
  delete_recursive-Halts zero node key level l e = let no : ⊥ = omega arith in elim no [ ]
  delete_recursive-Halts (suc f) node key level l e =
      Halts-ifd (length (bytes key) == level) _ _ (λ at_level. with_ok _)
        (λ below.
          let ih : (kid : INode) → Halts (delete_recursive load f kid key (level + 1)) =
            λ kid. delete_recursive-Halts f kid key (level + 1) (grind arith) (grind arith) in
          search (halts_rules, ih, get_index-Halts, get_child-Halts, drop_if_empty-Halts) depth 12)
