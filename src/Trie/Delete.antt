-- ===== src/Trie/Delete.antt =====
-- What a delete relies on and gives: tries in good order whose leaves were all written by earlier
-- transactions, and what the parent of a node reads after a delete on the node.
use mariv.Base.{
  ℕ, zero, suc, ◌+◌, ◌<◌, ◌≡◌, ◌≢◌, refl, ap, sym, ◌∙◌, List, [], length, Option, none, some,
  if◌then◌else◌, ==_iff, Bool-cases, eq_test_false, inl, inr,
}
use mariv.Base.Bytes.{Slice, bytes, bytes_equal, bytes_equal_sound}
use mariv.Base.Outcome.{Outcome, ok}
use mariv.Bitmap.{population_count}
use mariv.Bitmap.Slots.{Fits, child_at}
use mariv.Node.{LNode, Child, INode, deref, address, deref-address, get_child_node}
use mariv.Trie.{KeyValuePair}
use mariv.Trie.Keys.{Starts, IsKey}
use mariv.Trie.Order.{Homed, Good, get_child_node_current, Good-with_version, get_child_node-Placed}
use mariv.Trie.Read.{read, blank_read, read-with_version}
use native.Mathlib.Decide.{ℕ_discrete}

module _ (load : ℕ → Outcome INode) (v n : ℕ) where
  -- A leaf with the version of the transaction holds no key.
  abbrev pub OldLeaf : LNode → Type 0
  OldLeaf leaf = leaf.version ≡ v → bytes leaf.key ≡ []

  abbrev pub Old : ℕ → INode → Type 0
  Old zero node = OldLeaf node.leaf
  Old (suc d) node =
      OldLeaf node.leaf
      × ((i : ℕ)
          → i < 256
          → (c : Child) (kid : INode) → child_at node.bitmap node.children i ≡ some c
          → get_child_node load (deref c) node.version ≡ ok kid
          → Old d kid)

  pub Old-leaf : (d : ℕ) (node : INode) → Old d node → OldLeaf node.leaf
  Old-leaf zero node o = o
  Old-leaf (suc d) node o = o.0

  pub Good-fits :
      (d : ℕ) (p : List ℕ) (node : INode) → Good load v n d p node → Fits node.bitmap node.children
  Good-fits zero p node g = g.1
  Good-fits (suc d) p node g = g.fits

  pub Old-with_version :
      (d : ℕ) (p : List ℕ) (node : INode)
      → Good load v n d p node
      → Old d node
      → Old d (record node { version = v })
  Old-with_version zero p node g o = o
  Old-with_version (suc d) p node g o = (
    o.0,
    λ i h c kid e found.
        o.1 i h c kid e
          (sym (get_child_node-Placed load v n node.version (deref c) (g.placed i h c e)) ∙ found),
  )

  -- The result of a delete, and what its parent reads from the slot that the result is put into.
  pub record Gone (d : ℕ) (p : List ℕ) (level : ℕ) (key : List ℕ)
      (before : List ℕ → Outcome (Option KeyValuePair)) (result : Outcome INode) : Type 0 where
    pub node : INode
    pub returns : result ≡ ok node
    pub current : node.version ≡ v
    pub slot : INode
    pub stamp : node ≡ record slot { version = v }
    pub found : get_child_node load (deref (address node)) v ≡ ok slot
    pub homed : Homed load slot
    pub good : Good load v n d p slot
    pub old : Old d slot
    pub reads :
        (k : List ℕ)
        → IsKey n k
        → Starts p k
        → read load v n d slot level k ≡ (if bytes_equal key k then ok none else before k)
    pub droppable :
        node.leaf.version ≡ v
        → population_count node.bitmap ≡ 0
        → (k : List ℕ) → IsKey n k
        → Starts p k
        → read load v n d slot level k ≡ ok none

  module _ (d : ℕ) (p : List ℕ) (level : ℕ) (at_level : level ≡ length p) (depth : level + d ≡ n)
      (pos : 0 < n) (key : List ℕ) where
    blank_leaf :
        (node : INode)
        → Good load v n d p node
        → Old d node
        → node.leaf.version ≡ v
        → population_count node.bitmap ≡ 0
        → (k : List ℕ) → IsKey n k
        → Starts p k
        → read load v n d node level k ≡ ok none
    blank_leaf node good old written count k k_key k_starts =
        blank_read load v n d p level node k pos at_level depth k_key k_starts
          (Good-fits d p node good) (Old-leaf d node old written) count

    -- A node that was written anew is its own slot.
    pub changed-Gone :
        (before : List ℕ → Outcome (Option KeyValuePair)) (node : INode)
        → node.version ≡ v
        → node.start_offset ≡ 0
        → Good load v n d p node
        → Old d node
        → ((k : List ℕ)
            → IsKey n k
            → Starts p k
            → read load v n d node level k ≡ (if bytes_equal key k then ok none else before k))
        → Gone d p level key before (ok node)
    changed-Gone before node current unplaced good old reads = record {
      node = node;
      returns = refl;
      current = current;
      slot = node;
      stamp = ap (λ t. record node { version = t }) current;
      found = get_child_node_current load v n node current unplaced;
      homed = λ away. absurd (away unplaced);
      good = good;
      old = old;
      reads = reads;
      droppable = blank_leaf node good old;
    }

    still_absent :
        (before : List ℕ → Outcome (Option KeyValuePair))
        → before key ≡ ok none
        → (k : List ℕ) → before k ≡ (if bytes_equal key k then ok none else before k)
    still_absent before absent k = elim (Bool-cases (bytes_equal key k)) [
      | inl same ↦ rw (same, ← bytes_equal_sound key k same) absent
      | inr other ↦ rw other
    ]

    -- Where the key is absent the node stays, and the slot leads to it or to its place.
    pub unchanged-Gone :
        (kid : INode)
        → Good load v n d p kid
        → Homed load kid
        → Old d kid
        → read load v n d kid level key ≡ ok none
        → Gone d p level key (read load v n d kid level) (ok (record kid { version = v }))
    unchanged-Gone kid good homed old absent = elim (ℕ_discrete kid.start_offset 0) [
      | yes here ↦ record {
        node = record kid { version = v };
        returns = refl;
        current = refl;
        slot = record kid { version = v };
        stamp = refl;
        found = get_child_node_current load v n (record kid { version = v }) refl here;
        homed = λ away. absurd (away here);
        good = Good-with_version load v n d p kid good;
        old = Old-with_version d p kid good old;
        reads = λ k k_key k_starts.
            read-with_version load v n d p level kid k at_level depth good k_key k_starts
            ∙ still_absent (read load v n d kid level) absent k;
        droppable =
            blank_leaf (record kid { version = v }) (Good-with_version load v n d p kid good)
              (Old-with_version d p kid good old);
      }
      | no away ↦ record {
        node = record kid { version = v };
        returns = refl;
        current = refl;
        slot = kid;
        stamp = refl;
        found = found_home away;
        homed = homed;
        good = good;
        old = old;
        reads = λ k k_key k_starts. still_absent (read load v n d kid level) absent k;
        droppable = blank_leaf kid good old;
      }
    ]
      where
        found_home :
            kid.start_offset ≢ 0
            → get_child_node load (deref (address (record kid { version = v }))) v ≡ ok kid
        found_home away = rw deref-address (
            unfold get_child_node in
            rw (eq_test_false kid.start_offset 0 away, (==_iff v v).1 refl) (homed away))

  abbrev pub Deletes : ℕ → (INode → Slice → ℕ → Outcome INode) → Type 0
  Deletes d delete =
      (p : List ℕ) (level : ℕ) (kid : INode) (key : List ℕ)
      → level ≡ length p
      → level + d ≡ n
      → Good load v n d p kid
      → Homed load kid
      → Old d kid
      → IsKey n key
      → Starts p key
      → Gone d p level key (read load v n d kid level)
          (delete (record kid { version = v }) (some key) level)
