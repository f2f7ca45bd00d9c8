-- ===== src/Compact/Copy.antt =====
-- Compaction writes a tree as `serializeRecursive` lays it out.
use mariv.Base.{
  ℕ, suc, ◌+◌, ◌%◌, ◌^◌, ◌≤◌, ◌<◌, ◌≡◌, ◌≢◌, refl, ap, sym, ◌∙◌, arith, true, List, [], ◌∷◌, ◌++◌,
  ◌==◌, ==_iff, length, copy_at,
}
use mariv.Base.Memory.{
  At, At-append, At-copy_at, At-copy_at_below, At-copy_at_above, length-copy_at,
}
use mariv.Base.Outcome.{Outcome, ok}
use mariv.Node.{INode, Child, Children, pointer, nil, cons, deref, address, to_list, of_list}
use mariv.Serialize.{serialize_uint64, serialize_inode, serialize_recursive, concat_map}
use mariv.MemMap.Initial.{copy_into-ok}
use mariv.MemMap.Node.{NodeFits}
use mariv.MemMap.Path.{
  moved, path_offsets, path_rest, children_start, child_offsets, child_paths,
  serialize_recursive_lem,
}
use mariv.Open.{System}
use mariv.Open.Resize.{Works}
use mariv.Compact.{compact_children, serialize_current_version}
use mariv.Compact.Room.{resize_temp_file-Roomy}
use mariv.Compact.Tree.{Holds}
use mariv.Compact.Block.{block, length-block, in_tree, serialize-restamped, placed-restamped}
use mathlib.Core.List.{append_assoc}
use mathlib.Core.Path.{subst}

-- The bytes, if any, were written at the offset, and what stood before it stands.
pub record Copied (temp temp' : List ℕ) (offset : ℕ) (bs : List ℕ) : Type 0 where
  pub stands : bs ≢ [] → At temp' offset bs
  pub longer : length temp ≤ length temp'
  pub kept : (p : ℕ) (old : List ℕ) → p + length old ≤ offset → At temp p old → At temp' p old

pub some_or_no_bytes :
    (m : List ℕ) (o : ℕ) (bs : List ℕ) → o ≤ length m → (bs ≢ [] → At m o bs) → At m o bs
some_or_no_bytes m o [] h f = h
some_or_no_bytes m o (b ∷ bs) h f = f (λ e. cc)

pub of_list-to_list : (cs : Children) → of_list (to_list cs) ≡ cs
of_list-to_list nil = refl
of_list-to_list (cons c cs) = ap (λ t. cons c t) (of_list-to_list cs)

assoc_inner : (a b c d : List ℕ) → a ++ (b ++ (c ++ d)) ≡ (a ++ (b ++ c)) ++ d
assoc_inner a b c d = simp append_assoc refl

-- The bytes of a tree: the root's block, and those of the children.
pub serialize-block :
    (node : INode) (offset : ℕ)
    → serialize_recursive (address node) offset ≡ block node offset ++ path_rest node offset
serialize-block node offset =
    serialize_recursive_lem node offset
    ∙ assoc_inner (serialize_inode true (moved node offset)) _ _ (path_rest node offset)

module _ (load : ℕ → Outcome INode) (version : ℕ) where
  pub on_path :
      (t : Child) (node : INode) → Holds load version t node → ((deref t).version == version) ≡ true
  unfolding deref
  on_path (pointer v s e bitmap leaf ch) node h = (==_iff v version).1 h.0

  module _ (t : Child) (ts : Children) (next : ℕ) (here : ((deref t).version == version) ≡ true)
      (small : next + length (serialize_recursive t next) < 2 ^ 63) where
    pub child_offsets-cons :
        child_offsets (cons t ts) version next
        ≡ next ∷ child_offsets ts version (next + length (serialize_recursive t next))
    child_offsets-cons =
        let unwrapped : (next + length (serialize_recursive t next)) % 2 ^ 64
            ≡ next + length (serialize_recursive t next) =
          omega arith in
        rw (here, unwrapped) refl

    pub child_paths-cons :
        child_paths (cons t ts) version next
        ≡ serialize_recursive t next
          ++ child_paths ts version (next + length (serialize_recursive t next))
    child_paths-cons =
        let unwrapped : (next + length (serialize_recursive t next)) % 2 ^ 64
            ≡ next + length (serialize_recursive t next) =
          omega arith in
        rw (here, unwrapped) refl

  abbrev pub tree_node : INode → ℕ → ℕ → ℕ → Children → INode
  tree_node node offset s e ch = record (in_tree node version offset s e) { children = to_list ch }

  module _ (sys : System) (works : Works sys) (slack : ℕ) (few : slack ≤ 1000000000) where
    pub node-Copied :
        (node : INode) (f offset s e : ℕ) (ch : Children) (temp temp' : List ℕ)
        → NodeFits
            (moved (tree_node node offset s e ch) offset)
            (path_offsets (tree_node node offset s e ch) offset)
        → compact_children load
            (serialize_current_version sys load f version)
            node.children
            (children_start (tree_node node offset s e ch) offset)
            temp
          ≡ ok (
            children_start (tree_node node offset s e ch) offset
                + length (path_rest (tree_node node offset s e ch) offset),
            concat_map serialize_uint64 (path_offsets (tree_node node offset s e ch) offset),
            temp',
          )
        → Copied temp temp'
            (children_start (tree_node node offset s e ch) offset)
            (path_rest (tree_node node offset s e ch) offset)
        → children_start (tree_node node offset s e ch) offset < 2 ^ 63
        → length temp' ≢ 0
        → slack ≤ length temp'
        → children_start (tree_node node offset s e ch) offset ≤ length temp' + slack
        → (new : List ℕ) × (serialize_current_version sys load (suc f) version node offset temp
            ≡ ok (
              children_start (tree_node node offset s e ch) offset
                  + length (path_rest (tree_node node offset s e ch) offset),
              new,
            ))
          × Copied temp new offset (
              block (tree_node node offset s e ch) offset
              ++ path_rest (tree_node node offset s e ch) offset)
    unfolding serialize_current_version
    node-Copied node f offset s e ch temp temp' fits children copied small filled enough near =
        let n = tree_node node offset s e ch in
        let next = children_start n offset in
        let size = length-block n offset fits in
        let (grown, sized, roomy) =
          resize_temp_file-Roomy sys next slack temp' works (omega (arith, size.0, size.2)) small
            filled enough few near in
        (
          copy_at grown offset (block n offset),
          rw
              (
                placed-restamped node version offset s e,
                children,
                sized,
                serialize-restamped node version offset s e,
                copy_into-ok grown offset next (block n offset) (omega (arith, size.0)) roomy.room
                    (omega (arith, size.0)),
              )
              refl,
          record {
            stands = λ ne.
                At-append (copy_at grown offset (block n offset)) offset (block n offset)
                  (path_rest n offset)
                  (At-copy_at grown offset (block n offset) (omega (arith, size.0, roomy.room)))
                  (At-copy_at_above grown offset (block n offset) (offset + length (block n offset))
                    (path_rest n offset) (omega arith)
                    (subst (λ t. At grown t (path_rest n offset)) (sym size.0)
                      (some_or_no_bytes grown next (path_rest n offset) roomy.room
                        (λ full. roomy.kept next (path_rest n offset) (copied.stands full)))));
            longer = rw length-copy_at (omega (arith, copied.longer, roomy.longer));
            kept = λ p old h a.
                At-copy_at_below grown offset (block n offset) p old h
                  (roomy.kept p old (copied.kept p old (omega (arith, size.0)) a));
          },
        )
