-- ===== src/Trie/Order.antt =====
-- Tries in good order, for keys of one length: what put and delete keep, and get relies on.
use mariv.Base.{
  ℕ, zero, suc, ◌+◌, ◌<◌, ◌≡◌, ◌≢◌, refl, ◌∙◌, arith, List, [], ◌∷◌, ◌++◌, length, get_elem?,
  Option, none, some, false, ◌==◌, Bool-cases, ◌⊎◌, inl, inr,
}
use mariv.Base.Bytes.{bytes, bytes_equal}
use mariv.Base.Outcome.{Outcome, ok, ◌>>=◌}
use mariv.Bitmap.{population_count, get_position, is_bit_set}
use mariv.Bitmap.Slots.{Fits, child_at, get_position_in_range}
use mariv.Node.{LNode, Child, INode, deref, address, deref-address, get_child_node}
use mariv.Trie.{KeyValuePair, get_index_for_level, get_recursive}
use mariv.Trie.Keys.{Starts, IsKey}
use mariv.Base.{get_elem?_in_range}

-- A leaf holds nothing, or a key of length `n` below the prefix `p`.
abbrev pub LeafOk : ℕ → List ℕ → LNode → Type 0
LeafOk n p leaf =
    (bytes leaf.key ≡ []) ⊎ ((k : List ℕ) × (leaf.key ≡ some k) × IsKey n k × Starts p k)

-- What a slot of a child table refers to: a node of this transaction, whose version is `v` and
-- which has no place in the memory map yet, or a place in the memory map.
abbrev pub Placed : ℕ → ℕ → INode → Type 0
Placed v version child = child.start_offset ≡ 0 → (child.version ≡ v) × (version ≡ v)

-- A node that names a place in the memory map was read from there.
abbrev pub Homed : (ℕ → Outcome INode) → INode → Type 0
Homed load node = node.start_offset ≢ 0 → load node.start_offset ≡ ok node

module _ (load : ℕ → Outcome INode) (v n : ℕ) where
  pub record GoodNode (p : List ℕ) (Kid : ℕ → INode → Type 0) (node : INode) : Type 0 where
    pub leaf_ok : LeafOk n p node.leaf
    pub fits : Fits node.bitmap node.children
    -- A node that holds a key has no children.
    pub alone : bytes node.leaf.key ≢ [] → population_count node.bitmap ≡ 0
    -- The root holds no key.
    pub rootless : length p ≡ 0 → bytes node.leaf.key ≡ []
    pub placed :
        (i : ℕ)
        → i < 256
        → (c : Child) → child_at node.bitmap node.children i ≡ some c
        → Placed v node.version (deref c)
    pub kids :
        (i : ℕ)
        → i < 256
        → (c : Child) → child_at node.bitmap node.children i ≡ some c
        → (kid : INode) × (get_child_node load (deref c) node.version ≡ ok kid)
          × Homed load kid
          × Kid i kid

  -- `d` is the number of bytes of a key that lie below the node, `p` the bytes above it.
  abbrev pub Good : ℕ → List ℕ → INode → Type 0
  Good zero p node =
      LeafOk n p node.leaf × Fits node.bitmap node.children × (population_count node.bitmap ≡ 0)
  Good (suc d) p node = GoodNode p (λ i kid. Good d (p ++ i ∷ []) kid) node

  -- The read of a key goes on at the child that the bitmap gives for its next byte.
  abbrev pub follow : ℕ → List ℕ → ℕ → ℕ → Option Child → Outcome (Option KeyValuePair)
  follow f k level version none = ok none
  follow f k level version (some c) =
      get_child_node load (deref c) version >>= λ kid. get_recursive load f kid (some k) level some

  pub get-follow :
      (f : ℕ) (node : INode) (k : List ℕ) (level i : ℕ)
      → Fits node.bitmap node.children
      → length k ≢ level
      → bytes_equal k (bytes node.leaf.key) ≡ false
      → get_elem? k level ≡ some i
      → i < 256
      → get_recursive load (suc f) node (some k) level some
        ≡ follow f k (level + 1) node.version (child_at node.bitmap node.children i)
  unfolding get_recursive get_index_for_level
  get-follow f node k level i fits ne other e h = elim (Bool-cases (is_bit_set node.bitmap i)) [
    | inl present ↦
        let (c, here) =
          get_elem?_in_range node.children (get_position node.bitmap i)
            (get_position_in_range fits i h present) in
        rw (not_eq (length k) level ne, other, e, present, here) refl
    | inr gone ↦ rw (not_eq (length k) level ne, other, e, gone) refl
  ]
    where
      not_eq : (a b : ℕ) → a ≢ b → (a == b) ≡ false
      not_eq a b h = ground arith

  -- A slot reads the same whether its holder still has its old version or that of the transaction.
  pub get_child_node-Placed :
      (version : ℕ) (child : INode)
      → Placed v version child
      → get_child_node load child v ≡ get_child_node load child version
  unfolding get_child_node
  get_child_node-Placed version child placed = ground (arith, placed)

  -- A node of the transaction is read from its slot, not from the memory map.
  pub get_child_node_current :
      (child : INode)
      → child.version ≡ v
      → child.start_offset ≡ 0
      → get_child_node load (deref (address child)) v ≡ ok child
  unfolding get_child_node
  get_child_node_current child version offset = rw deref-address (ground arith)

  -- Giving a node that was read the version of the transaction keeps it in good order.
  pub Good-with_version :
      (d : ℕ) (p : List ℕ) (node : INode) → Good d p node → Good d p (record node { version = v })
  Good-with_version zero p node g = g
  Good-with_version (suc d) p node g = record {
    leaf_ok = g.leaf_ok;
    fits = g.fits;
    alone = g.alone;
    rootless = g.rootless;
    placed = λ i h c e offset. let (a, b) = g.placed i h c e offset in (a, refl);
    kids = λ i h c e.
        let (kid, read, homed, good) = g.kids i h c e in
        (kid, get_child_node-Placed node.version (deref c) (g.placed i h c e) ∙ read, homed, good);
  }
