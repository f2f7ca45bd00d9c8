-- ===== src/Trie/Leaf.antt =====
-- A put that ends at a node: the leaf is written.
use mariv.Base.{
  ℕ, zero, suc, ◌+◌, ◌<◌, ◌≡◌, ◌≢◌, refl, ap, sym, ◌∙◌, arith, List, [], length, Option, none, some,
  true, false, if◌then◌else◌, Bool-cases, eq_test_false, inl, inr, ltb-false,
}
use mariv.Base.Bytes.{bytes, bytes_equal, bytes_equal_refl, bytes_equal_sound, bytes_equal_comm}
use mariv.Base.Outcome.{Outcome, ok}
use mariv.Bitmap.{population_count}
use mariv.Bitmap.Slots.{Fits}
use mariv.Bitmap.Empty.{child_at-count_zero}
use mariv.Node.{INode, new_leaf_node}
use mariv.Trie.{KeyValuePair, Put, get_key_val, set_leaf, put_at_end, get_recursive}
use mariv.Trie.Keys.{Starts, IsKey, Starts-full}
use mariv.Trie.Order.{Good, get-follow}
use mariv.Trie.Read.{read, Stored, IsIndex-below, not_empty, last_read}

module _ (load : ℕ → Outcome INode) (v n : ℕ) where
  -- A node that holds a key and has no children reads that key alone.
  pub single_read :
      (d : ℕ) (p : List ℕ) (level : ℕ) (node : INode) (key k : List ℕ)
      → level ≡ length p
      → level + d ≡ n
      → IsKey n k
      → Starts p k
      → Fits node.bitmap node.children
      → node.leaf.key ≡ some key
      → population_count node.bitmap ≡ 0
      → read load v n d node level k
        ≡ ok (if bytes_equal key k then some (get_key_val node) else none)
  single_read zero p level node key k at_level depth is_key starts fits holds count =
      let last : level ≡ n = omega arith in
      rw (last, last_read load v n node k is_key.size, holds, bytes_equal_comm k key)
  single_read (suc d) p level node key k at_level depth is_key starts fits holds count =
      let (i, (e, small)) = IsIndex-below load v n d p level k at_level depth is_key starts in
      let apart : length k ≢ level = λ h. omega (arith, is_key.size) in
      elim (Bool-cases (bytes_equal k key)) [
        | inl same ↦
            rw (← bytes_equal_comm k key, same)
              (unfold get_recursive in rw (eq_test_false (length k) level apart, holds, same))
        | inr other ↦
            rw (← bytes_equal_comm k key, other)
              (get-follow load v n (suc d) node k level i fits apart (rw holds other) e small.1
                ∙ rw (child_at-count_zero fits count i small.1))
      ]

  -- The leaf of a childless node below the root is written, and no other key is lost.
  module _ (d : ℕ) (p : List ℕ) (level : ℕ) (at_level : level ≡ length p) (depth : level + d ≡ n)
      (inner : 0 < level) (key value : List ℕ) (is_key : IsKey n key) (starts : Starts p key) where
    pub leaf-Stored :
        (before : List ℕ → Outcome (Option KeyValuePair)) (node : INode)
        → Fits node.bitmap node.children
        → population_count node.bitmap ≡ 0
        → Good load v n d p node
        → node.version ≡ v
        → node.start_offset ≡ 0
        → node.leaf.key ≡ some key
        → node.leaf.value ≡ value
        → ((k : List ℕ) → IsKey n k → Starts p k → bytes_equal key k ≡ false → before k ≡ ok none)
        → Stored load v n d p level key value before (ok node)
    leaf-Stored before node fits count good current unplaced holds valued others = record {
      node = node;
      returns = refl;
      good = good;
      current = current;
      unplaced = unplaced;
      reads = λ k k_key k_starts.
          single_read d p level node key k at_level depth k_key k_starts fits holds count
          ∙ (elim (Bool-cases (bytes_equal key k)) [
            | inl same ↦ rw (same, holds, valued)
            | inr other ↦ rw (other, others k k_key k_starts other)
          ]);
    }

    Good-set_leaf :
        (node : INode)
        → Good load v n d p node
        → population_count node.bitmap ≡ 0
        → Good load v n d p (set_leaf node (some key) value)
    unfolding new_leaf_node
    Good-set_leaf node good count = leaf_case d good
      where
        leaf_case :
            (e : ℕ) → Good load v n e p node → Good load v n e p (set_leaf node (some key) value)
        leaf_case zero g = (inr (key, refl, is_key, starts), g.1, g.2)
        leaf_case (suc e) g = record {
          leaf_ok = inr (key, refl, is_key, starts);
          fits = g.fits;
          alone = λ filled. count;
          rootless = λ root. absurd (omega arith);
          placed = g.placed;
          kids = g.kids;
        }

    pub set_leaf-Stored :
        (before : List ℕ → Outcome (Option KeyValuePair)) (node : INode)
        → Fits node.bitmap node.children
        → population_count node.bitmap ≡ 0
        → Good load v n d p node
        → node.version ≡ v
        → node.start_offset ≡ 0
        → ((k : List ℕ) → IsKey n k → Starts p k → bytes_equal key k ≡ false → before k ≡ ok none)
        → Stored load v n d p level key value before (ok (set_leaf node (some key) value))
    set_leaf-Stored before node fits count good current unplaced others =
        leaf-Stored before (set_leaf node (some key) value) fits count
          (Good-set_leaf node good count) current unplaced (unfold new_leaf_node in refl)
          (unfold new_leaf_node in refl) others

    -- The key is there: the leaf is written only if the value is another.
    pub same_key-Stored :
        (node : INode)
        → Fits node.bitmap node.children
        → population_count node.bitmap ≡ 0
        → Good load v n d p node
        → node.version ≡ v
        → node.start_offset ≡ 0
        → node.leaf.key ≡ some key
        → Stored load v n d p level key value (read load v n d node level) (
            ok (if bytes_equal node.leaf.value value then node else set_leaf node (some key) value))
    same_key-Stored node fits count good current unplaced holds =
        elim (Bool-cases (bytes_equal node.leaf.value value)) [
          | inl same ↦ rw same (
              leaf-Stored (read load v n d node level) node fits count good current unplaced holds
                (bytes_equal_sound node.leaf.value value same) others)
          | inr other ↦ rw other (
              set_leaf-Stored (read load v n d node level) node fits count good current unplaced
                others)
        ]
      where
        others :
            (k : List ℕ)
            → IsKey n k
            → Starts p k
            → bytes_equal key k ≡ false
            → read load v n d node level k ≡ ok none
        others k k_key k_starts other =
            single_read d p level node key k at_level depth k_key k_starts fits holds count
            ∙ rw other

  -- The last level: the node is for this key alone.
  pub put_at_end-Stored :
      (put : Put) (p : List ℕ) (node : INode) (key value : List ℕ)
      → 0 < n
      → n ≡ length p
      → Good load v n 0 p node
      → node.version ≡ v
      → node.start_offset ≡ 0
      → IsKey n key
      → Starts p key
      → Stored load v n 0 p n key value
          (read load v n 0 node n)
          (put_at_end load put node (some key) value n)
  unfolding put_at_end
  put_at_end-Stored put p node key value pos at_level (inl empty, fits, count) current unplaced
        is_key starts =
      rw
        (
          empty,
          bytes_equal_comm [] key,
          not_empty load v n pos key is_key,
          ltb-false (length key) 0 (omega arith),
        )
        (set_leaf-Stored 0 p n at_level (omega arith) pos key value is_key starts
          (read load v n 0 node n) node fits count (inl empty, fits, count) current unplaced
          (λ k k_key k_starts other.
            rw (last_read load v n node k k_key.size, empty, not_empty load v n pos k k_key)))
  put_at_end-Stored put p node key value pos at_level
        (inr (held, holds, held_key, held_starts), fits, count) current unplaced is_key starts =
      let same : held ≡ key =
        sym (Starts-full p held held_starts (omega (arith, held_key.size)))
        ∙ Starts-full p key starts (omega (arith, is_key.size)) in
      let found : bytes_equal (bytes node.leaf.key) key ≡ true =
        cc (bytes_equal_refl key, ap bytes holds, same) in
      rw found (
        same_key-Stored 0 p n at_level (omega arith) pos key value is_key starts node fits count
          (inr (held, holds, held_key, held_starts), fits, count) current unplaced
          (holds ∙ ap some same))
