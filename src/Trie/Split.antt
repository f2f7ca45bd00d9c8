-- ===== src/Trie/Split.antt =====
-- A put that splits a leaf: two keys of one length move down.
use mariv.Base.{
  ℕ, suc, ◌+◌, ◌≡◌, refl, ap, sym, ◌∙◌, arith, List, [], length, get_elem?, none, some, false,
  if◌then◌else◌, Bool-cases, inl, inr,
}
use mariv.Base.Bytes.{Slice, bytes, bytes_equal, bytes_equal_sound, bytes_equal_comm}
use mariv.Base.Outcome.{Outcome, ok}
use mariv.Bitmap.{population_count, get_position, is_bit_set}
use mariv.Bitmap.Slots.{IsIndex}
use mariv.Node.{LNode, INode, new_leaf_node}
use mariv.Trie.{Put, get_index_for_level, set_leaf, put_new_inode, put_into_child, put_both}
use mariv.Trie.Keys.{Starts, IsKey}
use mariv.Trie.Order.{Good}
use mariv.Trie.Read.{hit, read, Stored, Puts, IsIndex-below, blank_read}
use mariv.Trie.Step.{put_new_inode-Stored, put_into_child-Stored}
use mariv.Trie.Leaf.{single_read}

module _ (load : ℕ → Outcome INode) (v n : ℕ) where
  module _ (put : Put) (d : ℕ) (puts : Puts load v n d put) (p : List ℕ) (level : ℕ)
      (at_level : level ≡ length p) (depth : level + suc d ≡ n) where
    -- A node without a key: the child for the next byte is put in or replaced.
    module _ (node : INode) (good : Good load v n (suc d) p node) (current : node.version ≡ v)
        (unplaced : node.start_offset ≡ 0) (empty : bytes node.leaf.key ≡ []) (key value : List ℕ)
        (is_key : IsKey n key) (starts : Starts p key) (i : ℕ)
        (index : (get_elem? key level ≡ some i) × IsIndex i) where
      pub branch-Stored :
          Stored load v n (suc d) p level key value (read load v n (suc d) node level) (
            if is_bit_set node.bitmap i
            then put_into_child load put node (get_position node.bitmap i) (some key) value level
            else put_new_inode put node i (some key) value level)
      branch-Stored = elim (Bool-cases (is_bit_set node.bitmap i)) [
        | inl present ↦ rw present (
            put_into_child-Stored load v n put d puts p level at_level depth node good current
              unplaced empty key value is_key starts i index present)
        | inr unset ↦ rw unset (
            put_new_inode-Stored load v n put d puts p level at_level depth node good current
              unplaced empty key value is_key starts i index unset)
      ]

    put_new_inode-leaf :
        (node after : INode) (i : ℕ) (key : Slice) (value : List ℕ)
        → put_new_inode put node i key value level ≡ ok after
        → after.leaf ≡ node.leaf
    unfolding put_new_inode
    put_new_inode-leaf node after i key value e = ground arith

    -- A leaf with another key of the same length: both keys move down, and the leaf is emptied.
    module _ (node : INode) (good : Good load v n (suc d) p node) (current : node.version ≡ v)
        (unplaced : node.start_offset ≡ 0) (key value : List ℕ) (is_key : IsKey n key)
        (starts : Starts p key) (held : List ℕ) (holds : node.leaf.key ≡ some held)
        (held_key : IsKey n held) (held_starts : Starts p held)
        (other : bytes_equal held key ≡ false) where
      abbrev emptied : INode
      emptied = set_leaf node none []

      emptied-key : bytes emptied.leaf.key ≡ []
      unfolding new_leaf_node
      emptied-key = refl

      count : population_count node.bitmap ≡ 0
      count = good.alone (λ e. omega (arith, held_key.size, ap length (ap bytes (sym holds) ∙ e)))

      emptied-Good : Good load v n (suc d) p emptied
      emptied-Good = record {
        leaf_ok = inl emptied-key;
        fits = good.fits;
        alone = λ filled. count;
        rootless = λ root. emptied-key;
        placed = good.placed;
        kids = good.kids;
      }

      both_reads :
          (k : List ℕ)
          → IsKey n k
          → Starts p k
          → (if bytes_equal held k
              then hit held node.leaf.value
              else if bytes_equal key k
              then hit key value
              else read load v n (suc d) emptied level k)
            ≡ (if bytes_equal key k then hit key value else read load v n (suc d) node level k)
      both_reads k k_key k_starts =
          let blank : read load v n (suc d) emptied level k ≡ ok none =
            blank_read load v n (suc d) p level emptied k (omega arith) at_level depth k_key
              k_starts good.fits emptied-key count in
          let before =
            single_read load v n (suc d) p level node held k at_level depth k_key k_starts good.fits
              holds count in
          rw (blank, before)
            (elim (Bool-cases (bytes_equal held k)) [
              | inl same ↦
                  let apart : bytes_equal key k ≡ false =
                    rw (← bytes_equal_sound held k same) (bytes_equal_comm key held ∙ other) in
                  rw (same, apart, holds)
              | inr differs ↦ rw differs
            ])

      put_both_steps :
          (i j : ℕ) (first : INode)
          → put_new_inode put emptied i (some key) value level ≡ ok first
          → get_elem? held level ≡ some j
          → put_both load put node i (some key) value level ≡ (
              if is_bit_set first.bitmap j
              then put_into_child load put first
                  (get_position first.bitmap j)
                  (some held)
                  node.leaf.value
                  level
              else put_new_inode put first j (some held) node.leaf.value level)
      unfolding put_both get_index_for_level
      put_both_steps i j first returns index = rw (returns, holds, index)

      pub put_both-Stored :
          (i : ℕ)
          → (get_elem? key level ≡ some i) × IsIndex i
          → is_bit_set node.bitmap i ≡ false
          → Stored load v n
              (suc d)
              p
              level
              key
              value
              (read load v n (suc d) node level)
              (put_both load put node i (some key) value level)
      put_both-Stored i index unset =
          let first =
            put_new_inode-Stored load v n put d puts p level at_level depth emptied emptied-Good
              current unplaced emptied-key key value is_key starts i index unset in
          let first_empty : bytes first.node.leaf.key ≡ [] =
            ap (λ (l : LNode). bytes l.key)
              (put_new_inode-leaf emptied first.node i (some key) value first.returns)
            ∙ emptied-key in
          let (j, held_index) =
            IsIndex-below load v n d p level held at_level depth held_key held_starts in
          let second =
            branch-Stored first.node first.good first.current first.unplaced first_empty held
              node.leaf.value held_key held_starts j held_index in
          record {
            node = second.node;
            returns = put_both_steps i j first.node first.returns held_index.0 ∙ second.returns;
            good = second.good;
            current = second.current;
            unplaced = second.unplaced;
            reads = λ k k_key k_starts.
                second.reads k k_key k_starts
                ∙ rw (first.reads k k_key k_starts) (both_reads k k_key k_starts);
          }
