-- ===== src/Trie/Drop.antt =====
-- One node of a delete: the child is put back, or dropped if nothing is left in it.
use mariv.Base.{
  ℕ, suc, ◌+◌, ◌<◌, ◌≡◌, refl, ap, sym, ◌∙◌, arith, List, [], ◌∷◌, ◌++◌, length, set, map,
  get_elem?, Option, none, some, Bool, true, false, ◌&&◌, if◌then◌else◌, ◌==◌, ==_iff, Bool-cases,
  eq_test_false, inl, inr,
}
use mariv.Base.Bytes.{Slice, bytes, bytes_equal}
use mariv.Base.Outcome.{Outcome, ok, ◌>>=◌, at}
use mariv.Bitmap.{Bitmap, population_count, get_position, is_bit_set, set_bit, shrink_table}
use mariv.Bitmap.Slots.{Fits, IsIndex, child_at}
use mariv.Bitmap.Sparse.{shrink_table-child_at, set-child_at, Fits-set}
use mariv.Node.{Child, INode, deref, address, deref-address, get_child_node, copy_inode}
use mariv.Trie.{KeyValuePair, get_index_for_level, set_leaf, drop_if_empty, delete_recursive}
use mariv.Trie.Keys.{Starts, IsKey}
use mariv.Trie.Order.{Good, follow}
use mariv.Trie.Read.{without_nil-map-some, read}
use mariv.Trie.Replace.{SlotOk, after-Good, after-reads}
use native.Mathlib.Decide.{ℕ_discrete}
use mariv.Trie.Delete.{Old, Gone, changed-Gone}

both_true : (a b : Bool) → (a && b) ≡ true → (a ≡ true) × (b ≡ true)
both_true true true e = (refl, refl)
both_true true false e = absurd cc
both_true false b e = absurd cc

module _ (load : ℕ → Outcome INode) (v n : ℕ) where
  -- One node of a delete, given what the delete does one level down. `node` is the copy.
  module _ (d : ℕ) (p : List ℕ) (level : ℕ) (at_level : level ≡ length p)
      (depth : level + suc d ≡ n) (node : INode) (good : Good load v n (suc d) p node)
      (old : Old load v n (suc d) node) (current : node.version ≡ v)
      (unplaced : node.start_offset ≡ 0) (empty : bytes node.leaf.key ≡ []) (key : List ℕ)
      (is_key : IsKey n key) (starts : Starts p key) (i : ℕ)
      (index : (get_elem? key level ≡ some i) × IsIndex i)
      (before : List ℕ → Outcome (Option KeyValuePair))
      (before_lem : (k : List ℕ) → read load v n (suc d) node level k ≡ before k) where
    module _ (bitmap : Bitmap) (table : List Child) (fits : Fits bitmap table) (slot : Option Child)
        (views : (j : ℕ)
          → j < 256
          → child_at bitmap table j
            ≡ (if i == j then slot else child_at node.bitmap node.children j))
        (slot_ok : (c : Child)
          → slot ≡ some c
          → SlotOk load v n d p level at_level depth node.version i c)
        (slot_old : (c : Child) (kid : INode)
          → slot ≡ some c
          → get_child_node load (deref c) node.version ≡ ok kid
          → Old load v n d kid)
        (slot_read : (k : List ℕ)
          → IsKey n k
          → Starts (p ++ i ∷ []) k
          → follow load v n (suc d) k (level + 1) node.version slot ≡ (
              if bytes_equal key k
              then ok none
              else follow load v n
                  (suc d)
                  k
                  (level + 1)
                  node.version
                  (child_at node.bitmap node.children i))) where
      after-Old : Old load v n (suc d) (record node { bitmap = bitmap; children = table })
      after-Old = (
        old.0,
        λ j h c kid e found. elim (ℕ_discrete i j) [
          | yes same ↦
              slot_old c kid
                (sym (rw ((==_iff i i).1 refl) at (views i index.1.1))
                  ∙ ap (child_at bitmap table) same
                  ∙ e)
                found
          | no ne ↦ old.1 j h c kid (sym (rw (eq_test_false i j ne) at (views j h)) ∙ e) found
        ],
      )

      replaced-Gone :
          Gone load v n
            (suc d)
            p
            level
            key
            before
            (ok (record node { bitmap = bitmap; children = table }))
      replaced-Gone =
          changed-Gone load v n (suc d) p level at_level depth (omega arith) key before
            (record node { bitmap = bitmap; children = table }) current unplaced
            (after-Good load v n d p level at_level depth node good empty key (ok none) i index
              bitmap table fits slot views slot_ok slot_read)
            after-Old
            (λ k k_key k_starts.
              after-reads load v n d p level at_level depth node good empty key (ok none) i index
                bitmap table fits slot views slot_ok slot_read k k_key k_starts
              ∙ rw (before_lem k))

    -- The child has been dealt with: it is put back, or dropped if nothing is left in it.
    module _ (kid : INode) (gone_result : Outcome INode)
        (slot_read_before : (k : List ℕ)
          → follow load v n
              (suc d)
              k
              (level + 1)
              node.version
              (child_at node.bitmap node.children i)
            ≡ read load v n d kid (level + 1) k)
        (gone : Gone load v n d
          (p ++ i ∷ [])
          (level + 1)
          key
          (read load v n d kid (level + 1))
          gone_result)
        (present : is_bit_set node.bitmap i ≡ true) where
      abbrev pos : ℕ
      pos = get_position node.bitmap i

      abbrev put_back : INode
      put_back = record node { children = set node.children pos (address gone.node) }

      found_slot : get_child_node load (deref (address gone.node)) node.version ≡ ok gone.slot
      found_slot = rw current gone.found

      put_back-Gone : Gone load v n (suc d) p level key before (ok put_back)
      put_back-Gone =
          replaced-Gone node.bitmap (set node.children pos (address gone.node))
            (Fits-set good.fits i index.1 pos (address gone.node)) (some (address gone.node))
            (set-child_at good.fits i index.1 (address gone.node) present)
            (λ c e.
              let new : c ≡ address gone.node = cc in
              rw new (
                (λ offset. (rw deref-address gone.current, current)),
                (gone.slot, found_slot, gone.homed, gone.good),
              ))
            (λ c other e found.
              let new : c ≡ address gone.node = cc in
              let same : ok other ≡ ok gone.slot = sym found ∙ rw new found_slot in
              let node_same : other ≡ gone.slot = cc in rw node_same gone.old)
            (λ k k_key k_starts. rw (found_slot, slot_read_before k) (gone.reads k k_key k_starts))

      dropped_views :
          (bitmap : Bitmap) (table : List Child)
          → ((j : ℕ)
              → j < 256
              → child_at bitmap table j
                ≡ (if i == j then none else child_at node.bitmap put_back.children j))
          → (j : ℕ) → j < 256
          → child_at bitmap table j
            ≡ (if i == j then none else child_at node.bitmap node.children j)
      dropped_views bitmap table views j h = elim (Bool-cases (i == j)) [
        | inl same ↦ rw same (rw same at (views j h))
        | inr other ↦ rw other (
            (rw other at (views j h))
            ∙ (rw other at (set-child_at good.fits i index.1 (address gone.node) present j h)))
      ]

      drop_steps :
          gone.node.leaf.version ≡ v
          → population_count gone.node.bitmap ≡ 0
          → (table : List Child)
          → shrink_table put_back.children (set_bit node.bitmap i) pos ≡ ok (map some table)
          → drop_if_empty load put_back gone.node i pos
            ≡ ok (record node { bitmap = set_bit node.bitmap i; children = table })
      unfolding drop_if_empty
      drop_steps written count table shrunk =
          let empty_child : (gone.node.leaf.version == node.version
                && population_count gone.node.bitmap == 0)
              ≡ true =
            rw (written, current, count, (==_iff v v).1 refl) refl in
          rw (empty_child, shrunk, without_nil-map-some) refl

      dropped-Gone :
          gone.node.leaf.version ≡ v
          → population_count gone.node.bitmap ≡ 0
          → Gone load v n (suc d) p level key before (drop_if_empty load put_back gone.node i pos)
      dropped-Gone written count =
          let (table, shrunk, table_fits, views) =
            shrink_table-child_at (Fits-set good.fits i index.1 pos (address gone.node)) i index.1
              present in
          rw (drop_steps written count table shrunk) (
            replaced-Gone (set_bit node.bitmap i) table table_fits none
              (dropped_views (set_bit node.bitmap i) table views) (λ c e. absurd cc)
              (λ c other e found. absurd cc)
              (λ k k_key k_starts. rw (slot_read_before k) (
                sym (gone.droppable written count k k_key k_starts) ∙ gone.reads k k_key k_starts)))

      abbrev empty_test : Bool
      empty_test = gone.node.leaf.version == node.version && population_count gone.node.bitmap == 0

      kept_steps : empty_test ≡ false → drop_if_empty load put_back gone.node i pos ≡ ok put_back
      unfolding drop_if_empty
      kept_steps keeps = rw keeps refl

      pub drop_if_empty-Gone :
          Gone load v n (suc d) p level key before (drop_if_empty load put_back gone.node i pos)
      drop_if_empty-Gone = elim (Bool-cases empty_test) [
        | inl drops ↦
            let (written, count) = both_true _ _ drops in
            dropped-Gone ((==_iff gone.node.leaf.version node.version).0 written ∙ current)
              ((==_iff (population_count gone.node.bitmap) 0).0 count)
        | inr keeps ↦ rw (kept_steps keeps) put_back-Gone
      ]

  -- The node that a step works on is a copy of `kid`, which has the version of the transaction.
  pub delete_recursive-suc :
      (f level : ℕ) (node : INode) (key : Slice)
      → delete_recursive load (suc f) node key level ≡ (
          if length (bytes key) == level
          then ok (
              if bytes_equal (bytes (copy_inode node).leaf.key) (bytes key)
              then set_leaf (copy_inode node) none []
              else node)
          else (get_index_for_level key level >>= λ index.
              if bytes_equal (bytes (copy_inode node).leaf.key) (bytes key)
              then ok (set_leaf (copy_inode node) none [])
              else if is_bit_set (copy_inode node).bitmap index
              then (at (
                    get_elem?
                      (copy_inode node).children
                      (get_position (copy_inode node).bitmap index))
                  >>= λ child.
                      get_child_node load (deref child) (copy_inode node).version >>= λ child_node.
                      delete_recursive load f
                        (record child_node { version = (copy_inode node).version })
                        key
                        (level + 1)
                      >>= λ updated.
                          drop_if_empty load
                            (record (copy_inode node) {
                              children =
                                  set
                                    (copy_inode node).children
                                    (get_position (copy_inode node).bitmap index)
                                    (address updated);
                            })
                            updated
                            index
                            (get_position (copy_inode node).bitmap index))
              else ok node))
  unfolding delete_recursive
  delete_recursive-suc f level node key = refl
