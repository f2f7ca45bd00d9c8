-- ===== src/Compact/ReadBack.antt =====
-- What is read from a file in which a tree is laid out.
use mariv.Base.{ℕ, ◌+◌, ◌<◌, ◌≡◌, ◌≢◌, arith, refl, ap, sym, ◌∙◌, List, [], ◌∷◌, ◌++◌, length, map}
use mariv.Base.Bytes.{bytes}
use mariv.Base.Memory.{At, At-left, At-right}
use mariv.Base.Outcome.{Outcome, ok}
use mariv.Node.{INode, Child, Children, pointer, nil, cons, deref, address}
use mariv.Serialize.{serialize_recursive, reference, placed_inode}
use mariv.MemMap.{read_inode_from_mem_map}
use mariv.MemMap.Path.{
  path_offsets, path_rest, children_start, child_offsets, child_paths, as_root,
  read-serialize_recursive,
}
use mariv.Compact.Tree.{Holds, HoldsAll, TreeFits, ForestFits}
use mariv.Compact.Block.{block, length-block}
use mariv.Compact.Copy.{
  of_list-to_list, serialize-block, on_path, child_offsets-cons, child_paths-cons,
}
use mathlib.Core.Path.{subst}

-- Each node that is read by `load` from the given one down has the bitmap of the tree's node, and a
-- leaf with its key, its value and its version, and was written with that version itself; no child
-- lies at the offset 0.
module _ (load : ℕ → Outcome INode) where
  abbrev mutual
    pub Reads : Child → INode → Type 0
    Reads (pointer v start end bitmap leaf children) node =
        (node.version ≡ v)
        × (node.bitmap ≡ bitmap)
        × (node.leaf.version ≡ leaf.version)
        × (bytes node.leaf.key ≡ bytes leaf.key)
        × (node.leaf.value ≡ leaf.value)
        × ReadsAll children node.children

    pub ReadsAll : Children → List Child → Type 0
    ReadsAll nil [] = Unit {0}
    ReadsAll nil (c ∷ cs) = ⊥
    ReadsAll (cons t ts) [] = ⊥
    ReadsAll (cons t ts) (c ∷ cs) =
        ((node : INode) × (load (deref c).start_offset ≡ ok node)
          × ((deref c).start_offset ≢ 0)
          × Reads t node)
        × ReadsAll ts cs

pub address-deref : (t : Child) → address (deref t) ≡ t
unfolding address deref
address-deref (pointer v s e bitmap leaf ch) =
    ap (λ (cs : Children). pointer v s e bitmap leaf cs) (of_list-to_list ch)

module _ (load : ℕ → Outcome INode) (version : ℕ) (m : List ℕ) where
  mutual
    unfolding deref placed_inode

    pub tree-Reads :
        (t : Child) (old : INode) (offset : ℕ)
        → Holds load version t old
        → TreeFits t offset
        → At m offset (serialize_recursive t offset)
        → (node : INode) × (read_inode_from_mem_map m offset ≡ ok node)
          × Reads (read_inode_from_mem_map m) t node
    tree-Reads (pointer v s e bitmap leaf ch) old offset holds fits stands =
        let n = deref (pointer v s e bitmap leaf ch) in
        let next = children_start n offset in
        let bytes_are : serialize_recursive (pointer v s e bitmap leaf ch) offset
            ≡ block n offset ++ path_rest n offset =
          ap (λ t. serialize_recursive t offset)
            (sym (address-deref (pointer v s e bitmap leaf ch)))
          ∙ serialize-block n offset in
        let rest_stands : At m next (path_rest n offset) =
          At-right m offset (block n offset) (path_rest n offset)
            (subst (λ bs. At m offset bs) bytes_are stands) next
            (sym (length-block n offset fits.0).0) in
        let same : child_offsets ch version next ≡ path_offsets n offset =
          sym (ap (λ (w : ℕ). child_offsets ch w next) holds.0)
          ∙ ap (λ (kids : Children). child_offsets kids v next) (sym (of_list-to_list ch)) in
        let rest : ReadsAll (read_inode_from_mem_map m) ch (map reference (path_offsets n offset)) =
          subst (λ os. ReadsAll (read_inode_from_mem_map m) ch (map reference os)) same
            (forest-Reads ch old.children next (omega (arith, length-block n offset fits.0)) holds.3
              fits.1
              (subst (λ bs. At m next bs)
                (ap (λ (kids : Children). child_paths kids v next) (of_list-to_list ch)
                  ∙ ap (λ (w : ℕ). child_paths ch w next) holds.0)
                rest_stands)) in
        (
          as_root n offset,
          read-serialize_recursive m n offset fits.0 (
              subst (λ t. At m offset (serialize_recursive t offset))
                (sym (address-deref (pointer v s e bitmap leaf ch))) stands),
          (refl, refl, refl, refl, refl, rest),
        )

    forest-Reads :
        (ts : Children) (cs : List Child) (next : ℕ)
        → 0 < next
        → HoldsAll load version ts cs
        → ForestFits ts next
        → At m next (child_paths ts version next)
        → ReadsAll (read_inode_from_mem_map m) ts (map reference (child_offsets ts version next))
    forest-Reads nil [] next pos holds fits stands = tt
    forest-Reads nil (c ∷ cs) next pos holds fits stands = elim holds [ ]
    forest-Reads (cons t ts) [] next pos holds fits stands = elim holds [ ]
    forest-Reads (cons t ts) (c ∷ cs) next pos holds fits stands =
        let here = on_path load version t holds.0.0 holds.0.2 in
        let size = length (serialize_recursive t next) in
        let stands' : At m next
            (serialize_recursive t next ++ child_paths ts version (next + size)) =
          subst (λ bs. At m next bs) (child_paths-cons load version t ts next here fits.1) stands in
        let back =
          tree-Reads t holds.0.0 next holds.0.2 fits.0
            (At-left m next (serialize_recursive t next) _ stands') in
        subst (λ os. ReadsAll (read_inode_from_mem_map m) (cons t ts) (map reference os))
          (sym (child_offsets-cons load version t ts next here fits.1))
          (
            (back.0, back.1, λ e. omega (arith, e), back.2),
            forest-Reads ts cs (next + size) (omega arith) holds.1 fits.2
                (At-right m next (serialize_recursive t next) _ stands' (next + size) refl),
          )
