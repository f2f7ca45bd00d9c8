-- ===== src/Print/Count.antt =====
-- `PrintChildren` prints a line for each node below the root, and counts the pairs.
use mariv.Base.{
  ℕ, zero, suc, ◌+◌, ◌≤◌, ◌≡◌, refl, ap, sym, ◌∙◌, arith, Bool, true, false, some, List, [], ◌∷◌,
  ◌++◌, length, length-append, ltb, le→leb, if◌then◌else◌, Bool-cases, inl, inr,
}
use mariv.Base.Bytes.{bytes}
use mariv.Base.Outcome.{Outcome, ok}
use mariv.Node.{
  height, heights, deep_left, deep_right, LNode, INode, Child, Children, pointer, nil, cons,
}
use mariv.MemMap.{read_inode_from_mem_map, load_meta_root_offset}
use mariv.Scan.Listing.{own_pair, pairs, pairs_below}
use mariv.Compact.ReadBack.{Reads, ReadsAll}
use mariv.Print.{Line, line_of, print_loop, print_children_recursive, print_children}

-- The lines of a tree: those of a node before those of its children, and these in order.
abbrev pub line : LNode → ℕ → ℕ → Line
line leaf level idx = record {
  level = level;
  index = idx;
  key = bytes leaf.key;
  value = leaf.value;
  version = leaf.version;
}

abbrev mutual
  pub lines : Child → ℕ → ℕ → List Line
  lines (pointer v s e bitmap leaf ch) level idx =
      line leaf level idx ∷ lines_below ch (level + 1) 0

  pub lines_below : Children → ℕ → ℕ → List Line
  lines_below nil level idx = []
  lines_below (cons t ts) level idx = lines t level idx ++ lines_below ts level (idx + 1)

-- How many pairs a scan without bounds lists of the tree, and of the children.
abbrev pub count : Child → ℕ
count t = length (pairs 0 some t)

abbrev pub count_below : Children → ℕ
count_below ts = length (pairs_below 0 some ts)

abbrev pub kids : Child → Children
kids (pointer v s e bitmap leaf ch) = ch

own_count :
    (leaf : LNode)
    → length (own_pair 0 some leaf) ≡ (if ltb 0 (length (bytes leaf.key)) then 1 else 0)
own_count leaf = elim (Bool-cases (ltb 0 (length (bytes leaf.key)))) [
  | inl keyed ↦ rw (le→leb 0 leaf.version (omega arith), keyed) refl
  | inr blank ↦ rw (le→leb 0 leaf.version (omega arith), blank) refl
]

add_if :
    (b : Bool) (total below : ℕ)
    → (if b then total + 1 else total) + below ≡ total + ((if b then 1 else 0) + below)
add_if true total below = omega arith
add_if false total below = omega arith

-- A child's own pair is counted before those below it.
counted :
    (t : Child) (leaf : LNode) (total : ℕ)
    → (pairs 0 some t ≡ own_pair 0 some leaf ++ pairs_below 0 some (kids t))
    → (if ltb 0 (length (bytes leaf.key)) then total + 1 else total) + count_below (kids t)
      ≡ total + count t
counted t leaf total e =
    add_if (ltb 0 (length (bytes leaf.key))) total (count_below (kids t))
    ∙ omega (
      arith,
      own_count leaf,
      length-append (own_pair 0 some leaf) (pairs_below 0 some (kids t)),
      ap length e,
    )

module _ (load : ℕ → Outcome INode) where
  -- A child that is read has the leaf of the tree.
  abbrev Shown : Child → ℕ → ℕ → INode → Type 0
  Shown t level idx node =
      (leaf : LNode) × (pairs 0 some t ≡ own_pair 0 some leaf ++ pairs_below 0 some (kids t))
      × (lines t level idx ≡ line leaf level idx ∷ lines_below (kids t) (level + 1) 0)
      × (length (bytes node.leaf.key) ≡ length (bytes leaf.key))
      × (line_of level idx node ≡ line leaf level idx)

  Reads-Shown :
      (t : Child) (level idx : ℕ) (node : INode) → Reads load t node → Shown t level idx node
  Reads-Shown (pointer v s e bitmap leaf ch) level idx node reads =
      (leaf, refl, refl, ap length reads.3, ground arith)

  mutual
    unfolding print_children_recursive

    node-lines :
        (t : Child) (node : INode) (f total level : ℕ)
        → height t ≤ f
        → Reads load t node
        → print_children_recursive load f node total level
          ≡ ok (total + count_below (kids t), lines_below (kids t) (level + 1) 0)
    node-lines (pointer v s e bitmap leaf ch) node zero total level deep reads =
        absurd (omega arith)
    node-lines (pointer v s e bitmap leaf ch) node (suc f) total level deep reads =
        children-lines ch node.children f total level 0 (omega arith) reads.5

    children-lines :
        (ts : Children) (cs : List Child) (f total level idx : ℕ)
        → heights ts ≤ f
        → ReadsAll load ts cs
        → print_loop load
            (λ child c. print_children_recursive load f child c (level + 1))
            level
            idx
            cs
            total
          ≡ ok (total + count_below ts, lines_below ts (level + 1) idx)
    children-lines nil [] f total level idx deep reads = ap (λ (n : ℕ). ok (n, [])) (omega arith)
    children-lines nil (c ∷ cs) f total level idx deep reads = elim reads [ ]
    children-lines (cons t ts) [] f total level idx deep reads = elim reads [ ]
    children-lines (cons t ts) (c ∷ cs) f total level idx deep reads =
        let (kid, read, away, below) = reads.0 in
        let (leaf, listed, printed, size, same) = Reads-Shown t (level + 1) idx kid below in
        let count' : ℕ = if ltb 0 (length (bytes leaf.key)) then total + 1 else total in
        let mine : print_children_recursive load f kid count' (level + 1)
            ≡ ok (total + count t, lines_below (kids t) (level + 1 + 1) 0) =
          node-lines t kid f count' (level + 1) (deep_left (height t) (heights ts) f deep) below
          ∙ ap (λ (n : ℕ). ok (n, lines_below (kids t) (level + 1 + 1) 0))
              (counted t leaf total listed) in
        let rest = lines_below ts (level + 1) (idx + 1) in
        let both = length-append (pairs 0 some t) (pairs_below 0 some ts) in
        let sum : total + count t + count_below ts ≡ total + count_below (cons t ts) =
          omega (arith, both) in
        let text : line_of (level + 1) idx kid ∷ (lines_below (kids t) (level + 1 + 1) 0 ++ rest)
            ≡ lines t (level + 1) idx ++ rest =
          ap (λ l. l ∷ (lines_below (kids t) (level + 1 + 1) 0 ++ rest)) same
          ∙ sym (ap (λ ls. ls ++ rest) printed) in
        rw
          (
            read,
            size,
            mine,
            children-lines ts cs f (total + count t) level (idx + 1)
                (deep_right (height t) (heights ts) f deep) reads.1,
          )
          (λ i. ok (sum i, text i))

-- If the newest root of a map can be read, and a tree has the bitmaps, leaves and versions of what is read
-- from it down, then `PrintChildren`, with fuel for the tree's height, ends, prints a line for
-- each node below the root, a node's before those of its children and these in order, each with
-- its level and its place in the table, and at last a count that is the number of pairs that a
-- range without bounds and without a least version lists.
pub print_children-lines :
    (m_map : List ℕ) (root_offset : ℕ) (root : INode) (t : Child) (fuel : ℕ)
    → load_meta_root_offset m_map ≡ ok root_offset
    → read_inode_from_mem_map m_map root_offset ≡ ok root
    → Reads (read_inode_from_mem_map m_map) t root
    → height t ≤ fuel
    → print_children fuel m_map
      ≡ ok (length (pairs_below 0 some (kids t)), lines_below (kids t) 1 0)
unfolding print_children
print_children-lines m_map root_offset root t fuel loaded read reads deep =
    rw (loaded, read, node-lines (read_inode_from_mem_map m_map) t root fuel 0 0 deep reads)
      (ap (λ (n : ℕ). ok (n, lines_below (kids t) 1 0)) (omega arith))
