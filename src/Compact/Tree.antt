-- ===== src/Compact/Tree.antt =====
-- The trie under a node as one tree in memory, and the bytes that it is to take in a new file.
use mariv.Base.{ℕ, ◌+◌, ◌^◌, ◌<◌, ◌≡◌, List, [], ◌∷◌, length}
use mariv.Base.Outcome.{Outcome, ok}
use mariv.Node.{INode, Child, Children, pointer, nil, cons, deref}
use mariv.Serialize.{serialize_recursive}
use mariv.MemMap.Node.{NodeFits}
use mariv.MemMap.Path.{moved, path_offsets, children_start}

-- A tree of one version holds the bitmaps and the leaves of the nodes that are read by `load`
-- from the given node down.
module _ (load : ℕ → Outcome INode) (version : ℕ) where
  abbrev mutual
    pub Holds : Child → INode → Type 0
    Holds (pointer v start end bitmap leaf children) node =
        (v ≡ version)
        × (bitmap ≡ node.bitmap)
        × (leaf ≡ record (node.leaf) { version = version })
        × HoldsAll children node.children

    pub HoldsAll : Children → List Child → Type 0
    HoldsAll nil [] = Unit {0}
    HoldsAll nil (c ∷ cs) = ⊥
    HoldsAll (cons t ts) [] = ⊥
    HoldsAll (cons t ts) (c ∷ cs) =
        ((node : INode) × (load (deref c).start_offset ≡ ok node) × Holds t node) × HoldsAll ts cs

-- Every node of the tree fits the format where the tree is laid out from the offset on, and the
-- offsets do not wrap.
abbrev mutual
  pub TreeFits : Child → ℕ → Type 0
  TreeFits (pointer v start end bitmap leaf children) offset =
      NodeFits (moved (deref (pointer v start end bitmap leaf children)) offset)
        (path_offsets (deref (pointer v start end bitmap leaf children)) offset)
      × ForestFits children
          (children_start (deref (pointer v start end bitmap leaf children)) offset)

  pub ForestFits : Children → ℕ → Type 0
  ForestFits nil next = Unit {0}
  ForestFits (cons t ts) next =
      TreeFits t next
      × (next + length (serialize_recursive t next) < 2 ^ 63)
      × ForestFits ts (next + length (serialize_recursive t next))
