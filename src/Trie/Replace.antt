-- ===== src/Trie/Replace.antt =====
-- A node of which one child was put in, replaced or taken out.
use mariv.Base.{
  ℕ, suc, ◌+◌, ◌<◌, ◌≡◌, ◌≢◌, refl, ap, sym, ◌∙◌, arith, List, [], ◌∷◌, ◌++◌, length, get_elem?,
  Option, some, false, if◌then◌else◌, ◌==◌, ==_iff, eq_test_false,
}
use mariv.Base.Bytes.{bytes, bytes_equal, bytes_equal-ne}
use mariv.Base.Outcome.{Outcome, ok}
use mariv.Bitmap.{Bitmap}
use mariv.Bitmap.Slots.{Fits, IsIndex, child_at}
use mariv.Node.{Child, INode, deref, get_child_node}
use mariv.Trie.{KeyValuePair}
use mathlib.Core.Path.{subst}
use mariv.Trie.Keys.{Starts, IsKey, Starts-snoc}
use mariv.Trie.Order.{Placed, Homed, Good, follow, get-follow}
use native.Mathlib.Decide.{ℕ_discrete}
use mariv.Trie.Read.{read, IsIndex-below, not_empty}

module _ (load : ℕ → Outcome INode) (v n d : ℕ) (p : List ℕ) (level : ℕ)
    (at_level : level ≡ length p) (depth : level + suc d ≡ n) where
  abbrev pub Index : List ℕ → ℕ → Type 0
  Index k i = (get_elem? k level ≡ some i) × IsIndex i

  pub Index-of : (k : List ℕ) → IsKey n k → Starts p k → (i : ℕ) × Index k i
  Index-of k is_key starts = IsIndex-below load v n d p level k at_level depth is_key starts

  level_ne : (k : List ℕ) → IsKey n k → length k ≢ level
  level_ne k is_key e = omega (arith, is_key.size)

  -- With nothing in its leaf, a node reads as its child does.
  pub branch_read :
      (node : INode) (k : List ℕ) (i : ℕ)
      → Fits node.bitmap node.children
      → bytes node.leaf.key ≡ []
      → IsKey n k
      → Index k i
      → read load v n (suc d) node level k
        ≡ follow load v n (suc d) k (level + 1) node.version (child_at node.bitmap node.children i)
  branch_read node k i fits empty is_key index =
      get-follow load v n (suc d) node k level i fits (level_ne k is_key)
        (rw empty (not_empty load v n (omega arith) k is_key)) index.0 index.1.1

  -- What a slot must be for its holder, a node of version `version`, to be in good order.
  abbrev pub SlotOk : ℕ → ℕ → Child → Type 0
  SlotOk version i c =
      Placed v version (deref c)
      × ((kid : INode) × (get_child_node load (deref c) version ≡ ok kid)
          × Homed load kid
          × Good load v n d (p ++ i ∷ []) kid)

  -- `slot` is the child for the key's byte `i` afterwards; `found` is what the key reads then.
  module _ (node : INode) (good : Good load v n (suc d) p node) (empty : bytes node.leaf.key ≡ [])
      (key : List ℕ) (found : Outcome (Option KeyValuePair)) (i : ℕ) (index : Index key i)
      (bitmap : Bitmap) (table : List Child) (fits : Fits bitmap table) (slot : Option Child)
      (views : (j : ℕ)
        → j < 256
        → child_at bitmap table j ≡ (if i == j then slot else child_at node.bitmap node.children j))
      (slot_ok : (c : Child) → slot ≡ some c → SlotOk node.version i c)
      (slot_read : (k : List ℕ)
        → IsKey n k
        → Starts (p ++ i ∷ []) k
        → follow load v n (suc d) k (level + 1) node.version slot ≡ (
            if bytes_equal key k
            then found
            else follow load v n
                (suc d)
                k
                (level + 1)
                node.version
                (child_at node.bitmap node.children i))) where
    abbrev after : INode
    after = record node { bitmap = bitmap; children = table }

    view_new : child_at bitmap table i ≡ slot
    view_new = rw ((==_iff i i).1 refl) at (views i index.1.1)

    view_old :
        (j : ℕ) → j < 256 → i ≢ j → child_at bitmap table j ≡ child_at node.bitmap node.children j
    view_old j h ne = rw (eq_test_false i j ne) at (views j h)

    after-slot :
        (j : ℕ) → j < 256 → (c : Child) → child_at bitmap table j ≡ some c → SlotOk node.version j c
    after-slot j h c e = elim (ℕ_discrete i j) [
      | yes same ↦
          subst (λ t. SlotOk node.version t c) same
            (slot_ok c (sym view_new ∙ ap (child_at bitmap table) same ∙ e))
      | no ne ↦ let old = sym (view_old j h ne) ∙ e in (good.placed j h c old, good.kids j h c old)
    ]

    pub after-Good : Good load v n (suc d) p after
    after-Good = record {
      leaf_ok = good.leaf_ok;
      fits = fits;
      alone = λ filled. absurd (filled empty);
      rootless = good.rootless;
      placed = λ j h c e. (after-slot j h c e).0;
      kids = λ j h c e. (after-slot j h c e).1;
    }

    -- A key that goes the same way reads what became of the slot.
    reads_same :
        (k : List ℕ)
        → IsKey n k
        → Starts p k
        → Index k i
        → follow load v n (suc d) k (level + 1) node.version (child_at bitmap table i)
          ≡ (if bytes_equal key k then found else read load v n (suc d) node level k)
    reads_same k k_key k_starts k_index =
        let k_below : Starts (p ++ i ∷ []) k =
          Starts-snoc p k i k_starts (rw (← at_level) k_index.0) in
        rw (view_new, branch_read node k i good.fits empty k_key k_index)
          (slot_read k k_key k_below)

    -- A key that goes another way reads as before.
    reads_other :
        (k : List ℕ) (j : ℕ)
        → IsKey n k
        → Index k j
        → i ≢ j
        → follow load v n (suc d) k (level + 1) node.version (child_at bitmap table j)
          ≡ (if bytes_equal key k then found else read load v n (suc d) node level k)
    reads_other k j k_key k_index ne =
        let apart : bytes_equal key k ≡ false =
          bytes_equal-ne key k (λ e. ne (cc (index.0, ap (λ t. get_elem? t level) e, k_index.0))) in
        rw (apart, view_old j k_index.1.1 ne)
          (sym (branch_read node k j good.fits empty k_key k_index))

    pub after-reads :
        (k : List ℕ)
        → IsKey n k
        → Starts p k
        → read load v n (suc d) after level k
          ≡ (if bytes_equal key k then found else read load v n (suc d) node level k)
    after-reads k k_key k_starts =
        let (j, k_index) = Index-of k k_key k_starts in
        branch_read after k j fits empty k_key k_index ∙ (elim (ℕ_discrete i j) [
          | yes same ↦ rw (← same) (reads_same k k_key k_starts (rw same k_index))
          | no ne ↦ reads_other k j k_key k_index ne
        ])
