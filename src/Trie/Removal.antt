-- ===== src/Trie/Removal.antt =====
-- `deleteRecursive` on tries in good order with old leaves: it returns, keeps the order, and
-- changes the content at the key alone.
use mariv.Base.{
  ℕ, zero, suc, ◌+◌, ◌≤◌, ◌<◌, ◌≡◌, ◌≢◌, refl, ap, sym, ◌∙◌, arith, List, [], ◌∷◌, ◌++◌, length,
  set, get_elem?, get_elem?_in_range, none, some, true, false, ◌==◌, ==_iff, Bool-cases,
  eq_test_false, inl, inr,
}
use mariv.Base.Bytes.{bytes, bytes_equal, bytes_equal_sound, bytes_equal_comm}
use mariv.Base.Outcome.{Outcome, ok, ◌>>=◌}
use mariv.Bitmap.{population_count, get_position, is_bit_set}
use mariv.Bitmap.Slots.{IsIndex, child_at, get_position_in_range}
use mariv.Node.{Child, INode, deref, address, get_child_node, copy_inode, new_leaf_node}
use mariv.Trie.{get_index_for_level, set_leaf, drop_if_empty, delete_recursive}
use mariv.Trie.Keys.{Starts, IsKey, Starts-snoc, length-snoc}
use mariv.Trie.Order.{LeafOk, Homed, Good, get-follow, get_child_node-Placed}
use mariv.Trie.Read.{read, IsIndex-below, last_read, blank_read}
use mariv.Trie.Leaf.{single_read}
use mariv.Trie.Delete.{Old, Good-fits, Gone, changed-Gone, unchanged-Gone, Deletes}
use mariv.Trie.Drop.{drop_if_empty-Gone, delete_recursive-suc}
use mariv.Trie.Work.{work, work-Good, work-Old, read-work, blanked-Good, blanked-Old, Gone-before}

module _ (load : ℕ → Outcome INode) (v n : ℕ) where
  module _ (d : ℕ) (p : List ℕ) (level : ℕ) (at_level : level ≡ length p) (depth : level + d ≡ n)
      (pos : 0 < n) (kid : INode) (good : Good load v n d p kid) (old : Old load v n d kid)
      (key : List ℕ) (is_key : IsKey n key) (starts : Starts p key) where
    found_leaf-Gone :
        kid.leaf.key ≡ some key
        → population_count kid.bitmap ≡ 0
        → Gone load v n d p level key
            (read load v n d kid level)
            (ok (set_leaf (work load v n kid) none []))
    unfolding copy_inode new_leaf_node
    found_leaf-Gone holds count =
        changed-Gone load v n d p level at_level depth pos key (read load v n d kid level)
          (set_leaf (work load v n kid) none []) refl refl
          (blanked-Good load v n d p (work load v n kid) (work-Good load v n d p kid good))
          (blanked-Old load v n d (work load v n kid) (work-Old load v n d p kid good old))
          (λ k k_key k_starts.
            blank_read load v n d p level (set_leaf (work load v n kid) none []) k pos at_level
              depth k_key k_starts (Good-fits load v n d p kid good) refl count
            ∙ (elim (Bool-cases (bytes_equal key k)) [
              | inl same ↦ rw same
              | inr other ↦ rw other (
                  sym (
                    single_read load v n d p level kid key k at_level depth k_key k_starts
                      (Good-fits load v n d p kid good) holds count
                    ∙ rw other))
            ]))

    -- A leaf with the key's bytes holds the key, and its node has no children.
    held :
        bytes_equal (bytes kid.leaf.key) key ≡ true
        → (kid.leaf.key ≡ some key) × (population_count kid.bitmap ≡ 0)
    held same = by_depth d good
      where
        of_leaf : LeafOk n p kid.leaf → kid.leaf.key ≡ some key
        of_leaf (inl empty) =
            absurd
              (omega (arith, is_key.size, ap length (sym empty ∙ bytes_equal_sound _ key same)))
        of_leaf (inr (k, holds, k_key, k_starts)) =
            holds ∙ ap some (sym (ap bytes holds) ∙ bytes_equal_sound _ key same)

        filled : bytes kid.leaf.key ≢ []
        filled empty =
            omega (arith, is_key.size, ap length (sym empty ∙ bytes_equal_sound _ key same))

        by_depth :
            (e : ℕ)
            → Good load v n e p kid
            → (kid.leaf.key ≡ some key) × (population_count kid.bitmap ≡ 0)
        by_depth zero g = (of_leaf g.0, g.2)
        by_depth (suc e) g = (of_leaf g.leaf_ok, g.alone filled)

    deleted_leaf-Gone :
        bytes_equal (bytes kid.leaf.key) key ≡ true
        → Gone load v n d p level key
            (read load v n d kid level)
            (ok (set_leaf (work load v n kid) none []))
    deleted_leaf-Gone same = let (holds, count) = held same in found_leaf-Gone holds count

  -- One node of a delete that is not at the end of the key.
  module _ (d f : ℕ) (deletes : Deletes load v n d (delete_recursive load f)) (p : List ℕ)
      (level : ℕ) (at_level : level ≡ length p) (depth : level + suc d ≡ n) (kid : INode)
      (good : Good load v n (suc d) p kid) (homed : Homed load kid) (old : Old load v n (suc d) kid)
      (key : List ℕ) (is_key : IsKey n key) (starts : Starts p key) (i : ℕ)
      (index : (get_elem? key level ≡ some i) × IsIndex i)
      (other : bytes_equal (bytes kid.leaf.key) key ≡ false) where
    abbrev Result : Outcome INode → Type 0
    Result = Gone load v n (suc d) p level key (read load v n (suc d) kid level)

    absent-Gone : is_bit_set kid.bitmap i ≡ false → Result (ok (record kid { version = v }))
    absent-Gone unset =
        unchanged-Gone load v n (suc d) p level at_level depth (omega arith) key kid good homed old
          (get-follow load v n (suc d) kid key level i good.fits (λ e. omega (arith, is_key.size))
              (bytes_equal_comm key (bytes kid.leaf.key) ∙ other) index.0 index.1.1
            ∙ rw unset)

    no_leaf : is_bit_set kid.bitmap i ≡ true → bytes kid.leaf.key ≡ []
    no_leaf present = leaf_case good.leaf_ok
      where
        leaf_case : LeafOk n p kid.leaf → bytes kid.leaf.key ≡ []
        leaf_case (inl empty) = empty
        leaf_case (inr (held_key, holds, h_key, h_starts)) =
            let count : population_count kid.bitmap ≡ 0 =
              good.alone (λ e. omega (arith, h_key.size, ap length (ap bytes (sym holds) ∙ e))) in
            absurd
              (omega (arith, get_position_in_range good.fits i index.1.1 present, good.fits.full))

    -- What a delete does after the call on the child.
    abbrev after_child : INode → Outcome INode
    after_child updated =
        drop_if_empty load
          (record (work load v n kid) {
            children =
                set (work load v n kid).children (get_position (work load v n kid).bitmap i)
                  (address updated);
          })
          updated i (get_position (work load v n kid).bitmap i)

    descend-Gone :
        is_bit_set kid.bitmap i ≡ true
        → (c : Child) → get_elem? kid.children (get_position kid.bitmap i) ≡ some c
        → Result (
            get_child_node load (deref c) v >>= λ child_node.
            delete_recursive load f (record child_node { version = v }) (some key) (level + 1)
            >>= after_child)
    unfolding copy_inode
    descend-Gone present c here =
        let e : child_at kid.bitmap kid.children i ≡ some c = rw (present, here) refl in
        let (child, read_old, child_homed, child_good) = good.kids i index.1.1 c e in
        let read_now : get_child_node load (deref c) v ≡ ok child =
          get_child_node-Placed load v n kid.version (deref c) (good.placed i index.1.1 c e)
          ∙ read_old in
        let gone =
          deletes (p ++ i ∷ []) (level + 1) child key
            (ap (λ t. t + 1) at_level ∙ sym (length-snoc p i)) (omega arith) child_good child_homed
            (old.1 i index.1.1 c child e read_old) is_key
            (Starts-snoc p key i starts (rw (← at_level) index.0)) in
        rw (read_now, gone.returns)
          (Gone-before load v n (suc d) p level key
            (read load v n (suc d) (work load v n kid) level) (read load v n (suc d) kid level) _
            (λ k k_key k_starts.
              read-work load v n (suc d) p level kid k at_level depth good k_key k_starts)
            (drop_if_empty-Gone load v n d p level at_level depth (work load v n kid)
              (work-Good load v n (suc d) p kid good) (work-Old load v n (suc d) p kid good old)
              refl refl (no_leaf present) key is_key starts i index
              (read load v n (suc d) (work load v n kid) level) (λ k. refl) child _
              (λ k. rw (present, here, read_now) refl) gone present))

    delete_below-Gone :
        Result (delete_recursive load (suc f) (record kid { version = v }) (some key) level)
    unfolding get_index_for_level copy_inode
    delete_below-Gone =
        let below : (length key == level) ≡ false =
          eq_test_false (length key) level (λ e. omega (arith, is_key.size)) in
        elim (Bool-cases (is_bit_set kid.bitmap i)) [
          | inr unset ↦
              rw
                (
                  delete_recursive-suc load v n f level (record kid { version = v }) (some key),
                  below,
                  index.0,
                  other,
                  unset,
                )
                (absent-Gone unset)
          | inl present ↦
              let position = get_position_in_range good.fits i index.1.1 present in
              let (c, here) =
                get_elem?_in_range kid.children (get_position kid.bitmap i) position in
              rw
                (
                  delete_recursive-suc load v n f level (record kid { version = v }) (some key),
                  below,
                  index.0,
                  other,
                  present,
                  here,
                )
                (descend-Gone present c here)
        ]

  -- With fuel for the bytes below the node, `deleteRecursive` deletes the key.
  pub delete_recursive-Gone :
      (d f : ℕ) → 0 < n → d ≤ f → Deletes load v n d (delete_recursive load (suc f))
  unfolding copy_inode get_index_for_level
  delete_recursive-Gone zero f pos enough p level kid key at_level depth good homed old is_key
        starts =
      let last : level ≡ n = omega arith in
      let here : (length key == level) ≡ true = (==_iff _ level).1 (is_key.size ∙ sym last) in
      elim (Bool-cases (bytes_equal (bytes kid.leaf.key) key)) [
        | inl same ↦
            rw
              (
                delete_recursive-suc load v n f level (record kid { version = v }) (some key),
                here,
                same,
              )
              (deleted_leaf-Gone 0 p level at_level depth pos kid good old key is_key starts same)
        | inr other ↦
            rw
              (
                delete_recursive-suc load v n f level (record kid { version = v }) (some key),
                here,
                other,
              )
              (unchanged-Gone load v n 0 p level at_level depth pos key kid good homed old (
                rw
                  (
                    last,
                    last_read load v n kid key is_key.size,
                    bytes_equal_comm key (bytes kid.leaf.key),
                    other,
                  )
                  refl))
      ]
  delete_recursive-Gone (suc d) zero pos enough p level kid key at_level depth good homed old is_key
        starts =
      absurd (omega arith)
  delete_recursive-Gone (suc d) (suc f) pos enough p level kid key at_level depth good homed old
        is_key starts =
      let below : (length key == level) ≡ false =
        eq_test_false (length key) level (λ e. omega (arith, is_key.size)) in
      let (i, index) = IsIndex-below load v n d p level key at_level depth is_key starts in
      elim (Bool-cases (bytes_equal (bytes kid.leaf.key) key)) [
        | inl same ↦
            rw
              (
                delete_recursive-suc load v n (suc f) level (record kid { version = v }) (some key),
                below,
                index.0,
                same,
              )
              (deleted_leaf-Gone (suc d) p level at_level depth pos kid good old key is_key starts
                same)
        | inr other ↦
            delete_below-Gone d (suc f) (delete_recursive-Gone d f pos (omega arith)) p level
              at_level depth kid good homed old key is_key starts i index other
      ]
