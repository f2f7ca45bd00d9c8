-- ===== src/Trie/Step.antt =====
-- One node of a put: the child for the key's next byte is put in, or replaced.
use mariv.Base.{
  ℕ, suc, ◌+◌, ◌<◌, ◌≡◌, refl, arith, List, [], ◌∷◌, ◌++◌, length, set, get_elem?,
  get_elem?_in_range, Option, some, true, false, if◌then◌else◌, ◌==◌,
}
use mariv.Base.Bytes.{bytes, bytes_equal}
use mariv.Base.Outcome.{Outcome, ok}
use mariv.Bitmap.{Bitmap, get_position, is_bit_set, set_bit}
use mariv.Bitmap.Slots.{Fits, IsIndex, child_at, get_position_in_range}
use mariv.Bitmap.Sparse.{extend_table-child_at, set-child_at, Fits-set}
use mariv.Node.{Child, INode, deref, address, deref-address, get_child_node, new_internal_node}
use mariv.Bitmap.Empty.{empty-Fits, population_count-empty}
use mariv.Trie.{KeyValuePair, Put, put_new_inode, put_into_child}
use mariv.Trie.Keys.{Starts, IsKey, Starts-snoc, length-snoc}
use mariv.Trie.Order.{Good, follow, get_child_node_current, Good-with_version}
use mariv.Trie.Read.{
  hit, without_nil-map-some, read, Stored, Puts, fresh-Good, blank_read, read-with_version,
}
use mariv.Trie.Replace.{SlotOk, after-Good, after-reads}

module _ (load : ℕ → Outcome INode) (v n : ℕ) where
  -- One node of a put, given what the put does one level down.
  module _ (put : Put) (d : ℕ) (puts : Puts load v n d put) (p : List ℕ) (level : ℕ)
      (at_level : level ≡ length p) (depth : level + suc d ≡ n) where
    abbrev Index : List ℕ → ℕ → Type 0
    Index k i = (get_elem? k level ≡ some i) × IsIndex i

    module _ (node : INode) (good : Good load v n (suc d) p node) (current : node.version ≡ v)
        (unplaced : node.start_offset ≡ 0) (empty : bytes node.leaf.key ≡ []) (key value : List ℕ)
        (is_key : IsKey n key) (starts : Starts p key) (i : ℕ) (index : Index key i) where
      -- A node whose child for `i` is the result of the put below.
      module _ (bitmap : Bitmap) (table : List Child) (fits : Fits bitmap table)
          {below : List ℕ → Outcome (Option KeyValuePair)} {result : Outcome INode}
          (stored : Stored load v n d (p ++ i ∷ []) (level + 1) key value below result)
          (views : (j : ℕ)
            → j < 256
            → child_at bitmap table j ≡ (
                if i == j
                then some (address stored.node)
                else child_at node.bitmap node.children j))
          (below_lem : (k : List ℕ)
            → IsKey n k
            → Starts (p ++ i ∷ []) k
            → below k
              ≡ follow load v n
                  (suc d)
                  k
                  (level + 1)
                  v
                  (child_at node.bitmap node.children i)) where
        found_new : get_child_node load (deref (address stored.node)) v ≡ ok stored.node
        found_new = get_child_node_current load v n stored.node stored.current stored.unplaced

        slot_ok :
            (c : Child)
            → some (address stored.node) ≡ some c
            → SlotOk load v n d p level at_level depth node.version i c
        slot_ok c e =
            let new : c ≡ address stored.node = cc in
            rw (new, current)
              (
                (λ offset. (rw deref-address stored.current, refl)),
                (stored.node, found_new, (λ away. absurd (away stored.unplaced)), stored.good),
              )

        slot_read :
            (k : List ℕ)
            → IsKey n k
            → Starts (p ++ i ∷ []) k
            → follow load v n (suc d) k (level + 1) node.version (some (address stored.node)) ≡ (
                if bytes_equal key k
                then hit key value
                else follow load v n
                    (suc d)
                    k
                    (level + 1)
                    node.version
                    (child_at node.bitmap node.children i))
        slot_read k k_key k_starts =
            rw (current, found_new, ← below_lem k k_key k_starts) (stored.reads k k_key k_starts)

        after-Stored :
            Stored load v n
              (suc d)
              p
              level
              key
              value
              (read load v n (suc d) node level)
              (ok (record node { bitmap = bitmap; children = table }))
        after-Stored = record {
          node = record node { bitmap = bitmap; children = table };
          returns = refl;
          good =
              after-Good load v n d p level at_level depth node good empty key (hit key value) i
                index bitmap table fits (some (address stored.node)) views slot_ok slot_read;
          current = current;
          unplaced = unplaced;
          reads =
              after-reads load v n d p level at_level depth node good empty key (hit key value) i
                index bitmap table fits (some (address stored.node)) views slot_ok slot_read;
        }

      below-Starts : Starts (p ++ i ∷ []) key
      below-Starts = Starts-snoc p key i starts (rw (← at_level) index.0)

      below_level : level + 1 ≡ length (p ++ i ∷ [])
      below_level = omega (arith, length-snoc p i)

      -- `putNewINode` where no child is.
      pub put_new_inode-Stored :
          is_bit_set node.bitmap i ≡ false
          → Stored load v n
              (suc d)
              p
              level
              key
              value
              (read load v n (suc d) node level)
              (put_new_inode put node i (some key) value level)
      unfolding put_new_inode
      put_new_inode-Stored unset =
          let stored =
            puts (p ++ i ∷ []) (level + 1) (new_internal_node node.version) key value below_level
              (omega arith) (fresh-Good load v n d (p ++ i ∷ []) node.version) fresh_version is_key
              below-Starts in
          let (table, extended, fits, views) =
            extend_table-child_at good.fits i index.1 (address stored.node) unset in
          rw (stored.returns, extended, without_nil-map-some table)
            (after-Stored (set_bit node.bitmap i) table fits stored views fresh_below)
        where
          fresh_version : (new_internal_node node.version).version ≡ v
          fresh_version = unfold new_internal_node in current

          fresh_below :
              (k : List ℕ)
              → IsKey n k
              → Starts (p ++ i ∷ []) k
              → read load v n d (new_internal_node node.version) (level + 1) k
                ≡ follow load v n (suc d) k (level + 1) v (child_at node.bitmap node.children i)
          fresh_below k k_key k_starts = rw unset (
              blank_read load v n d (p ++ i ∷ []) (level + 1) (new_internal_node node.version) k
                (omega arith) below_level (omega arith) k_key k_starts
                (unfold new_internal_node in empty-Fits) (unfold new_internal_node in refl)
                (unfold new_internal_node in population_count-empty))

      -- The child that is there, given the version of the transaction, reads as before.
      child_below :
          (c : Child) (kid : INode)
          → child_at node.bitmap node.children i ≡ some c
          → get_child_node load (deref c) node.version ≡ ok kid
          → Good load v n d (p ++ i ∷ []) kid
          → (k : List ℕ) → IsKey n k
          → Starts (p ++ i ∷ []) k
          → read load v n d (record kid { version = node.version }) (level + 1) k
            ≡ follow load v n (suc d) k (level + 1) v (child_at node.bitmap node.children i)
      child_below c kid slot found kid_good k k_key k_starts =
          let found_now : get_child_node load (deref c) v ≡ ok kid = rw (← current) found in
          rw (slot, found_now, current)
            (read-with_version load v n d (p ++ i ∷ []) (level + 1) kid k below_level (omega arith)
              kid_good k_key k_starts)

      descend-Stored :
          (c : Child) (kid : INode)
          → is_bit_set node.bitmap i ≡ true
          → get_elem? node.children (get_position node.bitmap i) ≡ some c
          → child_at node.bitmap node.children i ≡ some c
          → get_child_node load (deref c) node.version ≡ ok kid
          → Good load v n d (p ++ i ∷ []) kid
          → Stored load v n
              (suc d)
              p
              level
              key
              value
              (read load v n (suc d) node level)
              (put_into_child load put node (get_position node.bitmap i) (some key) value level)
      unfolding put_into_child
      descend-Stored c kid present here slot found kid_good =
          let renewed : Good load v n d (p ++ i ∷ []) (record kid { version = node.version }) =
            rw current (Good-with_version load v n d (p ++ i ∷ []) kid kid_good) in
          let stored =
            puts (p ++ i ∷ []) (level + 1) (record kid { version = node.version }) key value
              below_level (omega arith) renewed current is_key below-Starts in
          let pos = get_position node.bitmap i in
          rw (here, found, stored.returns)
            (after-Stored node.bitmap (set node.children pos (address stored.node))
              (Fits-set good.fits i index.1 pos (address stored.node)) stored
              (set-child_at good.fits i index.1 (address stored.node) present)
              (child_below c kid slot found kid_good))

      -- The descent into the child that is there.
      pub put_into_child-Stored :
          is_bit_set node.bitmap i ≡ true
          → Stored load v n
              (suc d)
              p
              level
              key
              value
              (read load v n (suc d) node level)
              (put_into_child load put node (get_position node.bitmap i) (some key) value level)
      put_into_child-Stored present =
          let (c, here) =
            get_elem?_in_range node.children (get_position node.bitmap i)
              (get_position_in_range good.fits i index.1.1 present) in
          let slot : child_at node.bitmap node.children i ≡ some c = rw present here in
          let (kid, found, kid_homed, kid_good) = good.kids i index.1.1 c slot in
          descend-Stored c kid present here slot found kid_good
