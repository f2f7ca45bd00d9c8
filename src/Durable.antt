-- ===== src/Durable.antt =====
-- node.go, io.go and transaction.go together: the trie that a memory map holds from an offset on,
-- what a reader finds there, and what a write that has won adds to it.
pub mod Path
pub mod Tidy
pub mod Table
pub mod Put
pub mod Tree
pub mod Written
pub mod Update
pub mod Latest
pub mod Sample
mod Tests
mod UpdateTests
use mariv.Base.{
  ℕ, ◌+◌, ◌≤◌, ◌≡◌, ◌≢◌, refl, ap, sym, ◌∙◌, arith, true, List, [], ◌∷◌, ◌++◌, length, map,
}
use mariv.Base.Bytes.{bytes}
use mariv.Base.Memory.{At}
use mariv.Base.Outcome.{Outcome, ok}
use mariv.Bitmap.{Bitmap}
use mariv.Node.{
  LNode, INode, Child, Children, pointer, nil, cons, deref, determine_end_offset_inode,
}
use mariv.Serialize.{
  serialize_uint64, serialize_inode, serialize_lnode, placed_inode, concat_map, reference,
}
use mariv.MemMap.{read_inode_from_mem_map}
use mariv.MemMap.Leaf.{as_read}
use mariv.MemMap.Node.{NodeFits, read_inode-serialized}
use mariv.Trie.View.{Shows}
use mariv.Compact.ReadBack.{Reads, ReadsAll}
use mariv.Compact.Kept.{Reads-Shows}
use mathlib.Core.Path.{subst}
use mathlib.Core.List.{append-nil}

-- The bytes of a node with its child table and its leaf.
abbrev pub laid_out : INode → List ℕ → List ℕ
laid_out node offsets =
    serialize_inode true node
    ++ (concat_map serialize_uint64 offsets ++ serialize_lnode (placed_inode node).leaf)

-- A node that fits the format stands at the offset, behind the metadata and below the limit, with
-- the given version and bitmap, and the version, the key and the value of the given leaf.
pub record PlantedNode (m : List ℕ) (limit offset version : ℕ) (bitmap : Bitmap) (leaf : LNode)
    (Kids : List ℕ → Type 0) : Type 0 where
  pub node : INode
  pub offsets : List ℕ
  pub place : node.start_offset ≡ offset
  pub fits : NodeFits node offsets
  pub stands : At m offset (laid_out node offsets)
  pub low : 24 ≤ offset
  pub high : offset + length (laid_out node offsets) ≤ limit
  pub same_version : node.version ≡ version
  pub same_bitmap : node.bitmap ≡ bitmap
  pub same_leaf_version : node.leaf.version ≡ leaf.version
  pub same_key : bytes node.leaf.key ≡ bytes leaf.key
  pub same_value : node.leaf.value ≡ leaf.value
  pub kids : Kids offsets

-- The bytes of the tree's nodes stand in the map, from the offset of its root on down.
module _ (m : List ℕ) (limit : ℕ) where
  abbrev mutual
    pub Planted : Child → ℕ → Type 0
    Planted (pointer v start end bitmap leaf children) offset =
        PlantedNode m limit offset v bitmap leaf (λ offsets. PlantedAll children offsets)

    pub PlantedAll : Children → List ℕ → Type 0
    PlantedAll nil [] = Unit {0}
    PlantedAll nil (o ∷ os) = ⊥
    PlantedAll (cons t ts) [] = ⊥
    PlantedAll (cons t ts) (o ∷ os) = Planted t o × PlantedAll ts os

-- Bytes behind the metadata and below the limit stand in the second map where they stand in the first.
abbrev pub Keeps : List ℕ → List ℕ → ℕ → Type 0
Keeps m m' limit = (p : ℕ) (bs : List ℕ) → 24 ≤ p → p + length bs ≤ limit → At m p bs → At m' p bs

module _ (m m' : List ℕ) (limit limit' : ℕ) (keeps : Keeps m m' limit) (more : limit ≤ limit') where
  mutual
    pub Planted-keeps : (t : Child) (o : ℕ) → Planted m limit t o → Planted m' limit' t o
    Planted-keeps (pointer v s e bitmap leaf ch) o h = record {
      node = h.node;
      offsets = h.offsets;
      place = h.place;
      fits = h.fits;
      stands = keeps o (laid_out h.node h.offsets) h.low h.high h.stands;
      low = h.low;
      high = omega (arith, h.high);
      same_version = h.same_version;
      same_bitmap = h.same_bitmap;
      same_leaf_version = h.same_leaf_version;
      same_key = h.same_key;
      same_value = h.same_value;
      kids = PlantedAll-keeps ch h.offsets h.kids;
    }

    PlantedAll-keeps :
        (ts : Children) (os : List ℕ) → PlantedAll m limit ts os → PlantedAll m' limit' ts os
    PlantedAll-keeps nil [] h = tt
    PlantedAll-keeps nil (o ∷ os) h = elim h [ ]
    PlantedAll-keeps (cons t ts) [] h = elim h [ ]
    PlantedAll-keeps (cons t ts) (o ∷ os) h = (Planted-keeps t o h.0, PlantedAll-keeps ts os h.1)

-- The node as it is read.
abbrev pub as_planted : INode → List ℕ → INode
as_planted node offsets = record node {
  end_offset = determine_end_offset_inode node;
  leaf = as_read (placed_inode node).leaf;
  children = map reference offsets;
}

pub read-PlantedNode :
    (m : List ℕ) (limit offset version : ℕ) (bitmap : Bitmap) (leaf : LNode)
    (Kids : List ℕ → Type 0) (h : PlantedNode m limit offset version bitmap leaf Kids)
    → read_inode_from_mem_map m offset ≡ ok (as_planted h.node h.offsets)
read-PlantedNode m limit offset version bitmap leaf Kids h =
    subst (λ t. read_inode_from_mem_map m t ≡ ok (as_planted h.node h.offsets)) h.place
      (read_inode-serialized m h.node h.offsets [] h.fits (
        subst
          (λ (bs : List ℕ).
            At m h.node.start_offset
              (serialize_inode true h.node ++ (concat_map serialize_uint64 h.offsets ++ bs)))
          (sym (append-nil (serialize_lnode (placed_inode h.node).leaf)))
          (subst (λ t. At m t (laid_out h.node h.offsets)) (sym h.place) h.stands)))

module _ (m : List ℕ) (limit : ℕ) where
  mutual
    unfolding deref placed_inode

    -- A planted tree is read back.
    pub Planted-Reads :
        (t : Child) (o : ℕ)
        → Planted m limit t o
        → (node : INode) × (read_inode_from_mem_map m o ≡ ok node)
          × (24 ≤ o)
          × Reads (read_inode_from_mem_map m) t node
    Planted-Reads (pointer v s e bitmap leaf ch) o h = (
      as_planted h.node h.offsets,
      read-PlantedNode m limit o v bitmap leaf (λ offsets. PlantedAll m limit ch offsets) h,
      h.low,
      (
        h.same_version,
        h.same_bitmap,
        h.same_leaf_version,
        h.same_key,
        h.same_value,
        PlantedAll-Reads ch h.offsets h.kids,
      ),
    )

    PlantedAll-Reads :
        (ts : Children) (os : List ℕ)
        → PlantedAll m limit ts os
        → ReadsAll (read_inode_from_mem_map m) ts (map reference os)
    PlantedAll-Reads nil [] h = tt
    PlantedAll-Reads nil (o ∷ os) h = elim h [ ]
    PlantedAll-Reads (cons t ts) [] h = elim h [ ]
    PlantedAll-Reads (cons t ts) (o ∷ os) h =
        let (kid, back, low, reads) = Planted-Reads t o h.0 in
        ((kid, back, (λ e. omega (arith, low, e)), reads), PlantedAll-Reads ts os h.1)

  pub Planted-Shows :
      (t : Child) (o : ℕ)
      → Planted m limit t o
      → (node : INode) × (read_inode_from_mem_map m o ≡ ok node)
        × Shows (read_inode_from_mem_map m) t node
  Planted-Shows t o h =
      let (node, back, low, reads) = Planted-Reads t o h in
      (node, back, Reads-Shows (read_inode_from_mem_map m) t node reads)
