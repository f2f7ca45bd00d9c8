-- ===== src/Compact/Whole.antt =====
-- Compaction writes the whole trie under a node, in the layout of `serializeRecursive`.
use mariv.Base.{
  ℕ, zero, suc, ◌+◌, ◌*◌, ◌^◌, ◌≤◌, ◌<◌, ◌≡◌, ◌≢◌, refl, ap, sym, ◌∙◌, arith, true, List, [], ◌∷◌,
  ◌++◌, ◌==◌, length, length-append,
}
use mariv.Base.Memory.{At, At-append, At-bound}
use mariv.Base.Outcome.{Outcome, ok}
use mariv.Node.{
  larger, height, heights, deep_left, deep_right, INode, Child, Children, pointer, nil, cons, deref,
  address,
}
use mariv.Serialize.{serialize_uint64, serialize_recursive, concat_map}
use mariv.MemMap.Path.{path_rest, children_start, child_offsets, child_paths}
use mariv.Open.{System}
use mariv.Open.Resize.{Works}
use mariv.Compact.{compact_children, serialize_current_version}
use mariv.Compact.Tree.{Holds, HoldsAll, TreeFits, ForestFits}
use mariv.Compact.Block.{block, block_limit, length-block}
use mariv.Compact.Copy.{
  Copied, some_or_no_bytes, of_list-to_list, serialize-block, on_path, child_offsets-cons,
  child_paths-cons, tree_node, node-Copied,
}
use mathlib.Core.Path.{subst}

-- Two neighbours, the first of which has bytes
Copied-append :
    (temp temp' temp'' : List ℕ) (o : ℕ) (xs ys : List ℕ)
    → xs ≢ []
    → Copied temp temp' o xs
    → Copied temp' temp'' (o + length xs) ys
    → Copied temp temp'' o (xs ++ ys)
Copied-append temp temp' temp'' o xs ys ne a b =
    let first : At temp'' o xs = b.kept o xs (omega arith) (a.stands ne) in
    record {
      stands = λ both.
          At-append temp'' o xs ys first
            (some_or_no_bytes temp'' (o + length xs) ys (At-bound temp'' o xs first) b.stands);
      longer = omega (arith, a.longer, b.longer);
      kept = λ p old h c. b.kept p old (omega arith) (a.kept p old h c);
    }

Copied-nil : (temp : List ℕ) (o : ℕ) → Copied temp temp o []
Copied-nil temp o = record {
  stands = λ ne. absurd (ne refl);
  longer = omega arith;
  kept = λ p old h a. a;
}

module _ (load : ℕ → Outcome INode) (version : ℕ) (sys : System) (works : Works sys) (slack : ℕ)
    (few : slack ≤ 1000000000) where
  -- The temporary map is not empty, is at least as long as the slack, and its end is near enough
  -- for `levels` more blocks.
  pub record Near (levels offset : ℕ) (temp : List ℕ) : Type 0 where
    pub filled : length temp ≢ 0
    pub enough : slack ≤ length temp
    pub levels_fit : levels * block_limit ≤ slack
    pub near : offset + levels * block_limit ≤ length temp + slack

  unfoldable pub TreeCopied : Child → INode → ℕ → ℕ → List ℕ → Type 0
  TreeCopied t node f offset temp =
      (temp' : List ℕ) × (serialize_current_version sys load f version node offset temp
        ≡ ok (offset + length (serialize_recursive t offset), temp'))
      × Copied temp temp' offset (serialize_recursive t offset)
      × (serialize_recursive t offset ≢ [])

  ForestCopied : Children → List Child → ℕ → ℕ → List ℕ → Type 0
  ForestCopied ts cs f next temp =
      (temp' : List ℕ) × (compact_children load (serialize_current_version sys load f version) cs
          next temp
        ≡ ok (
          next + length (child_paths ts version next),
          concat_map serialize_uint64 (child_offsets ts version next),
          temp',
        ))
      × Copied temp temp' next (child_paths ts version next)

  Near-first : (a b o : ℕ) (temp : List ℕ) → Near (larger a b) o temp → Near a o temp
  Near-first a b o temp h =
      let larger_left : a ≤ larger a b = ground arith in
      record {
        filled = h.filled;
        enough = h.enough;
        levels_fit = omega (arith, h.levels_fit);
        near = omega (arith, h.near);
      }

  -- After the first child the end of the file lies behind it.
  Near-next :
      (a b o o' : ℕ) (temp temp' : List ℕ)
      → Near (larger a b) o temp
      → length temp ≤ length temp'
      → o' ≤ length temp'
      → Near b o' temp'
  Near-next a b o o' temp temp' h longer behind =
      let larger_right : b ≤ larger a b = ground arith in
      record {
        filled = λ e. h.filled (omega arith);
        enough = omega (arith, h.enough);
        levels_fit = omega (arith, h.levels_fit);
        near = omega (arith, h.levels_fit);
      }

  module _ (t : Child) (ts : Children) (c : Child) (cs : List Child) (f next : ℕ) (temp : List ℕ)
      (node : INode) where
    forest_cons :
        load (deref c).start_offset ≡ ok node
        → ((deref t).version == version) ≡ true
        → next + length (serialize_recursive t next) < 2 ^ 63
        → Near (larger (height t) (heights ts)) next temp
        → TreeCopied t node f next temp
        → ((temp' : List ℕ)
            → Near (heights ts) (next + length (serialize_recursive t next)) temp'
            → ForestCopied ts cs f (next + length (serialize_recursive t next)) temp')
        → ForestCopied (cons t ts) (c ∷ cs) f next temp
    unfolding TreeCopied ForestCopied
    forest_cons loaded here small near (temp', ran, copied, ne) rest =
        let xs = serialize_recursive t next in
        let behind : next + length xs ≤ length temp' = At-bound temp' next xs (copied.stands ne) in
        let (temp'', ran_rest, copied_rest) = rest temp' (
          Near-next (height t) (heights ts) next (next + length xs) temp temp' near copied.longer
            behind) in
        let paths = child_paths-cons load version t ts next here small in
        let last : next + length xs + length (child_paths ts version (next + length xs))
            ≡ next + length (child_paths (cons t ts) version next) =
          omega (
            arith,
            ap length paths,
            length-append xs (child_paths ts version (next + length xs)),
          ) in
        let table : List ℕ =
          serialize_uint64 next
          ++ concat_map serialize_uint64 (child_offsets ts version (next + length xs)) in
        let ran_all : compact_children load (serialize_current_version sys load f version) (c ∷ cs)
              next temp
            ≡ ok (
              next + length xs + length (child_paths ts version (next + length xs)),
              table,
              temp'',
            ) =
          rw (loaded, ran, ran_rest) refl in
        (
          temp'',
          ran_all
              ∙ ap (λ (k : ℕ). ok (k, table, temp'')) last
              ∙ ap
                  (λ (os : List ℕ). ok (
                    next + length (child_paths (cons t ts) version next),
                    concat_map serialize_uint64 os,
                    temp'',
                  ))
                  (sym (child_offsets-cons load version t ts next here small)),
          subst (λ bs. Copied temp temp'' next bs) (sym paths)
              (Copied-append temp temp' temp'' next xs (child_paths ts version (next + length xs))
                ne copied copied_rest),
        )

  -- A node of the tree that holds the bitmap and the leaf of the one that was read
  held : INode → ℕ → ℕ → Children → Child
  held node s e ch = pointer version s e node.bitmap (record (node.leaf) { version = version }) ch

  module _ (node : INode) (s e : ℕ) (ch : Children) (f offset : ℕ) (temp : List ℕ) where
    held_block :
        serialize_recursive (held node s e ch) offset
        ≡ block (tree_node load version node offset s e ch) offset
          ++ path_rest (tree_node load version node offset s e ch) offset
    unfolding held address
    held_block =
        ap
          (λ (cs : Children).
            serialize_recursive
              (pointer version s e node.bitmap (record (node.leaf) { version = version }) cs)
              offset)
          (sym (of_list-to_list ch))
        ∙ serialize-block (tree_node load version node offset s e ch) offset

    tree_node_case :
        TreeFits (held node s e ch) offset
        → offset + length (serialize_recursive (held node s e ch) offset) < 2 ^ 63
        → Near (suc (heights ch)) offset temp
        → ((next : ℕ)
            → ForestFits ch next
            → Near (heights ch) next temp
            → ForestCopied ch node.children f next temp)
        → TreeCopied (held node s e ch) node (suc f) offset temp
    unfolding TreeCopied ForestCopied held deref
    tree_node_case fits small near children =
        let n = tree_node load version node offset s e ch in
        let next = children_start n offset in
        let size = length-block n offset fits.0 in
        let whole : length (serialize_recursive (held node s e ch) offset)
            ≡ length (block n offset) + length (path_rest n offset) =
          ap length held_block ∙ length-append (block n offset) (path_rest n offset) in
        let near_next : Near (heights ch) next temp = record {
          filled = near.filled;
          enough = near.enough;
          levels_fit = omega (arith, near.levels_fit);
          near = omega (arith, near.near, size.0, size.1);
        } in
        let (temp', ran, copied) =
          subst (λ cs. ForestCopied cs node.children f next temp) (sym (of_list-to_list ch))
            (children next fits.1 near_next) in
        let (new, ran_all, copied_all) =
          node-Copied load version sys works slack few node f offset s e ch temp temp' fits.0 ran
            copied (omega (arith, size.0, whole, small))
            (λ z. near.filled (omega (arith, z, copied.longer)))
            (omega (arith, near.enough, copied.longer))
            (omega (arith, near.near, size.0, size.1, copied.longer)) in
        (
          new,
          ran_all ∙ ap (λ (k : ℕ). ok (k, new)) (omega (arith, size.0, whole)),
          subst (λ bs. Copied temp new offset bs) (sym held_block) copied_all,
          λ none_left. absurd (omega (arith, ap (length {A = ℕ}) none_left, whole, size.2)),
        )

  mutual
    unfolding TreeCopied ForestCopied held

    pub tree-Copied :
        (t : Child) (node : INode) (f offset : ℕ) (temp : List ℕ)
        → height t ≤ f
        → Holds load version t node
        → TreeFits t offset
        → offset + length (serialize_recursive t offset) < 2 ^ 63
        → Near (height t) offset temp
        → TreeCopied t node f offset temp
    tree-Copied (pointer v s e bitmap leaf ch) node zero offset temp deep holds fits small near =
        absurd (omega arith)
    tree-Copied (pointer v s e bitmap leaf ch) node (suc f) offset temp deep holds fits small near =
        subst
          (λ t.
            TreeFits t offset
            → offset + length (serialize_recursive t offset) < 2 ^ 63
            → Near (height t) offset temp
            → TreeCopied t node (suc f) offset temp)
          (rw (holds.0, holds.1, holds.2) refl)
          (λ fits small near.
            tree_node_case node s e ch f offset temp fits small near (λ next fits near.
              forest-Copied ch node.children f next temp (omega arith) holds.3 fits near))
          fits small near

    forest-Copied :
        (ts : Children) (cs : List Child) (f next : ℕ) (temp : List ℕ)
        → heights ts ≤ f
        → HoldsAll load version ts cs
        → ForestFits ts next
        → Near (heights ts) next temp
        → ForestCopied ts cs f next temp
    forest-Copied nil [] f next temp deep holds fits near =
        (temp, ap (λ (k : ℕ). ok (k, [], temp)) (omega arith), Copied-nil temp next)
    forest-Copied nil (c ∷ cs) f next temp deep holds fits near = elim holds [ ]
    forest-Copied (cons t ts) [] f next temp deep holds fits near = elim holds [ ]
    forest-Copied (cons t ts) (c ∷ cs) f next temp deep holds fits near =
        forest_cons t ts c cs f next temp holds.0.0 holds.0.1
          (on_path load version t holds.0.0 holds.0.2) fits.1 near
          (tree-Copied t holds.0.0 f next temp (deep_left (height t) (heights ts) f deep) holds.0.2
            fits.0 fits.1 (Near-first (height t) (heights ts) next temp near))
          (λ temp' near'.
            forest-Copied ts cs f _ temp' (deep_right (height t) (heights ts) f deep) holds.1 fits.2
              near')
