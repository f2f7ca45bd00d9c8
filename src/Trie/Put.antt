-- ===== src/Trie/Put.antt =====
-- `putRecursive` on tries in good order: it returns, keeps the order, and changes the content at
-- the key alone.
use mariv.Base.{
  ℕ, zero, suc, ◌+◌, ◌≤◌, ◌<◌, ◌≡◌, refl, ap, sym, ◌∙◌, arith, List, [], length, get_elem?, some,
  true, false, if◌then◌else◌, ◌==◌, ==_iff, Bool-cases, eq_test_false, inl, inr, ltb, ltb-false,
  lt→ltb, ltb→lt,
}
use mariv.Base.Bytes.{Slice, bytes, bytes_equal, bytes_equal-ne, bytes_equal_sound}
use mariv.Base.Outcome.{Outcome, ok}
use mariv.Bitmap.{population_count, is_bit_set}
use mariv.Bitmap.Slots.{IsIndex, get_position_in_range}
use mariv.Node.{INode, copy_inode}
use mariv.Trie.{
  Put, get_index_for_level, set_leaf, put_new_inode, put_at_end, put_in_leaf, put_both, put_below,
  stamped, put_recursive, get_recursive,
}
use mariv.Trie.Keys.{Starts, IsKey}
use mariv.Trie.Order.{LeafOk, Good}
use mariv.Trie.Read.{read, Stored, Puts, IsIndex-below, blank_read}
use mariv.Trie.Step.{put_new_inode-Stored, put_into_child-Stored}
use mariv.Trie.Leaf.{set_leaf-Stored, same_key-Stored, put_at_end-Stored}
use mariv.Trie.Split.{put_both-Stored}
use mariv.Trie.Step.{put_new_inode-Stored}

module _ (load : ℕ → Outcome INode) (put : Put) (node : INode) (key value : List ℕ)
    (i level : ℕ) where
  -- The steps of `put_in_leaf` on an empty leaf, on the key's leaf, and on another key's.
  empty_leaf_steps :
      bytes node.leaf.key ≡ []
      → 0 < length key
      → put_in_leaf load put node i (some key) value level ≡ (
          if population_count node.bitmap == 0
          then ok (set_leaf node (some key) value)
          else put_new_inode put node i (some key) value level)
  unfolding put_in_leaf
  empty_leaf_steps empty pos =
      let differs : bytes_equal [] key ≡ false =
        bytes_equal-ne [] key (λ e. omega (arith, ap length e)) in
      rw (empty, differs)
        (elim (Bool-cases (population_count node.bitmap == 0)) [
          | inl zero_count ↦ rw zero_count
          | inr more ↦ rw (more, lt→ltb 0 (population_count node.bitmap) (ground arith))
        ])

  same_leaf_steps :
      bytes_equal (bytes node.leaf.key) key ≡ true
      → put_in_leaf load put node i (some key) value level
        ≡ ok (if bytes_equal node.leaf.value value then node else set_leaf node (some key) value)
  unfolding put_in_leaf
  same_leaf_steps same = rw same

  other_leaf_steps :
      bytes_equal (bytes node.leaf.key) key ≡ false
      → length (bytes node.leaf.key) ≡ length key
      → 0 < length key
      → put_in_leaf load put node i (some key) value level
        ≡ put_both load put node i (some key) value level
  unfolding put_in_leaf
  other_leaf_steps other size pos = rw (
    other,
    size,
    eq_test_false (length key) 0 (λ e. omega arith),
    ltb-false (length key) (length key) (omega arith),
  )

module _ (load : ℕ → Outcome INode) (v n : ℕ) (put : Put) (d : ℕ) (puts : Puts load v n d put)
    (p : List ℕ) (level : ℕ) (at_level : level ≡ length p) (depth : level + suc d ≡ n)
    (node : INode) (good : Good load v n (suc d) p node) (current : node.version ≡ v)
    (unplaced : node.start_offset ≡ 0) (key value : List ℕ) (is_key : IsKey n key)
    (starts : Starts p key) (i : ℕ) (index : (get_elem? key level ≡ some i) × IsIndex i) where
  abbrev Result : Outcome INode → Type 0
  Result = Stored load v n (suc d) p level key value (read load v n (suc d) node level)

  new_child :
      bytes node.leaf.key ≡ []
      → is_bit_set node.bitmap i ≡ false
      → Result (put_new_inode put node i (some key) value level)
  new_child empty =
      put_new_inode-Stored load v n put d puts p level at_level depth node good current unplaced
        empty key value is_key starts i index

  empty_leaf-Stored :
      0 < level
      → bytes node.leaf.key ≡ []
      → is_bit_set node.bitmap i ≡ false
      → Result (put_in_leaf load put node i (some key) value level)
  empty_leaf-Stored inner empty unset =
      rw (empty_leaf_steps load put node key value i level empty (omega (arith, is_key.size)))
        (elim (Bool-cases (population_count node.bitmap == 0)) [
          | inl zero_count ↦
              let count : population_count node.bitmap ≡ 0 = (==_iff _ 0).0 zero_count in
              rw zero_count (
                set_leaf-Stored load v n (suc d) p level at_level depth inner key value is_key
                  starts (read load v n (suc d) node level) node good.fits count good current
                  unplaced
                  (λ k k_key k_starts other.
                    blank_read load v n (suc d) p level node k (omega arith) at_level depth k_key
                      k_starts good.fits empty count))
          | inr more ↦ rw more (new_child empty unset)
        ])

  held_leaf-Stored :
      (held : List ℕ)
      → 0 < level
      → node.leaf.key ≡ some held
      → IsKey n held
      → Starts p held
      → is_bit_set node.bitmap i ≡ false
      → Result (put_in_leaf load put node i (some key) value level)
  held_leaf-Stored held inner holds held_key held_starts unset =
      let held_bytes : bytes node.leaf.key ≡ held = ap bytes holds in
      let count : population_count node.bitmap ≡ 0 =
        good.alone (λ e. omega (arith, held_key.size, ap length (sym held_bytes ∙ e))) in
      elim (Bool-cases (bytes_equal (bytes node.leaf.key) key)) [
        | inl same ↦
            let key_held : node.leaf.key ≡ some key =
              holds ∙ ap some (sym held_bytes ∙ bytes_equal_sound _ key same) in
            rw (same_leaf_steps load put node key value i level same) (
              same_key-Stored load v n (suc d) p level at_level depth inner key value is_key starts
                node good.fits count good current unplaced key_held)
        | inr other ↦
            rw
              (other_leaf_steps load put node key value i level other
                (omega (arith, ap length held_bytes, held_key.size, is_key.size))
                (omega (arith, is_key.size)))
              (put_both-Stored load v n put d puts p level at_level depth node good current unplaced
                key value is_key starts held holds held_key held_starts
                (ap (λ t. bytes_equal t key) (sym held_bytes) ∙ other) i index unset)
      ]

  -- With a child for the index, the leaf is empty.
  no_leaf : is_bit_set node.bitmap i ≡ true → bytes node.leaf.key ≡ []
  no_leaf present = leaf_case good.leaf_ok
    where
      leaf_case : LeafOk n p node.leaf → bytes node.leaf.key ≡ []
      leaf_case (inl empty) = empty
      leaf_case (inr (held, holds, held_key, held_starts)) =
          let count : population_count node.bitmap ≡ 0 =
            good.alone (λ e. omega (arith, held_key.size, ap length (ap bytes (sym holds) ∙ e))) in
          absurd
            (omega (arith, get_position_in_range good.fits i index.1.1 present, good.fits.full))

  leaf-Stored :
      0 < level
      → is_bit_set node.bitmap i ≡ false
      → Result (put_in_leaf load put node i (some key) value level)
  leaf-Stored inner unset = leaf_case good.leaf_ok
    where
      leaf_case : LeafOk n p node.leaf → Result (put_in_leaf load put node i (some key) value level)
      leaf_case (inl empty) = empty_leaf-Stored inner empty unset
      leaf_case (inr (held, holds, held_key, held_starts)) =
          held_leaf-Stored held inner holds held_key held_starts unset

  put_below-Stored : Result (put_below load put node (some key) value level)
  unfolding put_below get_index_for_level
  put_below-Stored = elim (Bool-cases (is_bit_set node.bitmap i)) [
    | inl present ↦
        rw (index.0, present)
          (put_into_child-Stored load v n put d puts p level at_level depth node good current
            unplaced (no_leaf present) key value is_key starts i index present)
    | inr unset ↦ elim (Bool-cases (ltb 0 level)) [
      | inl inner ↦ rw (index.0, unset, inner) (leaf-Stored (ltb→lt 0 level inner) unset)
      | inr root ↦
          let at_root : length p ≡ 0 = ground arith in
          rw (index.0, unset, root) (new_child (good.rootless at_root) unset)
    ]
  ]

module _ (load : ℕ → Outcome INode) (v n : ℕ) where
  -- The stamped copy that a put works on is in as good order as the node.
  stamped-Good :
      (d : ℕ) (p : List ℕ) (node : INode)
      → Good load v n d p node
      → Good load v n d p (stamped (copy_inode node))
  unfolding copy_inode
  stamped-Good zero p node g = g
  stamped-Good (suc d) p node g = record {
    leaf_ok = g.leaf_ok;
    fits = g.fits;
    alone = g.alone;
    rootless = g.rootless;
    placed = g.placed;
    kids = g.kids;
  }

  stamped-read :
      (d : ℕ) (node : INode) (level : ℕ) (k : List ℕ)
      → read load v n d (stamped (copy_inode node)) level k ≡ read load v n d node level k
  unfolding copy_inode get_recursive
  stamped-read d node level k = refl

  put_recursive-suc :
      (f level : ℕ) (node : INode) (key : Slice) (value : List ℕ)
      → put_recursive load (suc f) node key value level ≡ (
          if length (bytes key) == level
          then put_at_end load (put_recursive load f) (stamped (copy_inode node)) key value level
          else put_below load (put_recursive load f) (stamped (copy_inode node)) key value level)
  unfolding put_recursive
  put_recursive-suc f level node key value = refl

  -- The copy reads as the node, so what is stored into the copy is stored into the node.
  of_copy :
      (d : ℕ) (p : List ℕ) (level : ℕ) (node : INode) (key value : List ℕ) (result : Outcome INode)
      → Stored load v n d p level key value
          (read load v n d (stamped (copy_inode node)) level)
          result
      → Stored load v n d p level key value (read load v n d node level) result
  of_copy d p level node key value result s = record {
    node = s.node;
    returns = s.returns;
    good = s.good;
    current = s.current;
    unplaced = s.unplaced;
    reads = λ k k_key k_starts. s.reads k k_key k_starts ∙ rw (stamped-read d node level k);
  }

  -- With fuel for the bytes below the node, `putRecursive` stores the pair.
  pub put_recursive-Stored :
      (d f : ℕ) → 0 < n → d ≤ f → Puts load v n d (put_recursive load (suc f))
  put_recursive-Stored zero f pos enough p level node key value at_level depth good current is_key
        starts =
      let last : n ≡ level = omega arith in
      let here : (length key == level) ≡ true = (==_iff _ level).1 (is_key.size ∙ last) in
      rw (put_recursive-suc f level node (some key) value, here, ← last)
        (of_copy 0 p n node key value _ (
          put_at_end-Stored load v n (put_recursive load f) p (stamped (copy_inode node)) key value
            pos (last ∙ at_level) (stamped-Good 0 p node good) (unfold copy_inode in current)
            (unfold copy_inode in refl) is_key starts))
  put_recursive-Stored (suc d) zero pos enough p level node key value at_level depth good current
        is_key starts =
      absurd (omega arith)
  put_recursive-Stored (suc d) (suc f) pos enough p level node key value at_level depth good current
        is_key starts =
      let below : (length key == level) ≡ false =
        eq_test_false (length key) level (λ e. omega (arith, is_key.size)) in
      let (i, index) = IsIndex-below load v n d p level key at_level depth is_key starts in
      rw (put_recursive-suc (suc f) level node (some key) value, below)
        (of_copy (suc d) p level node key value _ (
          put_below-Stored load v n (put_recursive load (suc f)) d
            (put_recursive-Stored d f pos (omega arith)) p level at_level depth
            (stamped (copy_inode node)) (stamped-Good (suc d) p node good)
            (unfold copy_inode in current) (unfold copy_inode in refl) key value is_key starts i
            index))
