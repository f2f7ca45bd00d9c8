-- ===== src/Scan/Listing.antt =====
-- A range without bounds lists the whole trie, node by node from the top.
use mariv.Base.{
  ℕ, zero, suc, ◌+◌, ◌-◌, ◌≤◌, ◌<◌, ◌≡◌, refl, ap, sym, ◌∙◌, arith, Bool, true, false, ◌&&◌, none,
  some, List, [], ◌∷◌, ◌++◌, length, take, ◌==◌, ==_iff, eq_test_false, ltb, leb, le→leb,
  Bool-cases, inl, inr, if◌then◌else◌,
}
use mariv.Base.Bytes.{Slice, bytes}
use mariv.Base.Outcome.{Outcome, ok}
use mariv.Bitmap.{Bitmap}
use mariv.Node.{
  height, heights, deep_left, deep_right, LNode, INode, Child, Children, pointer, nil, cons, deref,
  get_child_node,
}
use mariv.Trie.{Transform}
use mariv.Scan.{Results, append_if, range_entry, range_children, range_below, range_recursive}
use mathlib.Core.List.{append_assoc, append-nil}

module _ (load : ℕ → Outcome INode) where
  -- A tree in memory has the leaves of the nodes that are read from the given one down.
  abbrev mutual
    pub Under : Child → INode → Type 0
    Under (pointer v s e bitmap leaf ch) node =
        (node.leaf ≡ leaf) × UnderAll ch node.version node.children

    pub UnderAll : Children → ℕ → List Child → Type 0
    UnderAll nil version [] = Unit {0}
    UnderAll nil version (c ∷ cs) = ⊥
    UnderAll (cons t ts) version [] = ⊥
    UnderAll (cons t ts) version (c ∷ cs) =
        ((kid : INode) × (get_child_node load (deref c) version ≡ ok kid) × Under t kid)
        × UnderAll ts version cs

module _ (min_version : ℕ) (transform : Transform) where
  -- The pair of a leaf that has a key and is recent enough
  abbrev pub own_pair : LNode → Results
  own_pair leaf =
      if leb min_version leaf.version && ltb 0 (length (bytes leaf.key))
      then transform (record { key = leaf.key; value = leaf.value }) ∷ []
      else []

  -- The pairs of a tree: those of a node before those of its children, and these in order
  abbrev mutual
    pub pairs : Child → Results
    pairs (pointer v s e bitmap leaf ch) = own_pair leaf ++ pairs_below ch

    pub pairs_below : Children → Results
    pairs_below nil = []
    pairs_below (cons t ts) = pairs t ++ pairs_below ts

pub if_same {ℓ} : {A : Type ℓ} (a b : Bool) (x : A) → (if a then x else if b then x else x) ≡ x
if_same true b x = refl
if_same false true x = refl
if_same false false x = refl

take_all : {A : Type 0} (xs : List A) (n : ℕ) → n ≡ length xs → take n xs ≡ xs
take_all [] zero e = refl
take_all [] (suc n) e = absurd (omega arith)
take_all (x ∷ xs) zero e = absurd (omega arith)
take_all (x ∷ xs) (suc n) e = ap (λ t. x ∷ t) (take_all xs n (omega arith))

pub no_elements : {A : Type 0} (xs : List A) → length xs ≡ 0 → xs ≡ []
no_elements [] e = refl
no_elements (x ∷ xs) e = absurd (omega arith)

some_elements : (n : ℕ) → (n == 0) ≡ false → (0 == n) ≡ false
some_elements n e = ground arith

append_if-own :
    (min_version : ℕ) (transform : Transform) (node : INode) (leaf : LNode)
    → node.leaf ≡ leaf
    → append_if
        (leb min_version node.leaf.version && ltb 0 (length (bytes node.leaf.key)))
        node
        transform
        []
      ≡ own_pair min_version transform leaf
append_if-own min_version transform node leaf e = rw e refl

-- Where the children are none, there is nothing below.
none_below :
    (load : ℕ → Outcome INode) (min_version : ℕ) (transform : Transform) (ts : Children)
    (version : ℕ) (cs : List Child)
    → UnderAll load ts version cs
    → cs ≡ []
    → pairs_below min_version transform ts ≡ []
none_below load min_version transform nil version cs under e = refl
none_below load min_version transform (cons t ts) version [] under e = elim under [ ]
none_below load min_version transform (cons t ts) version (c ∷ cs) under e = cc

module _ (load : ℕ → Outcome INode) (min_version : ℕ) (transform : Transform) where
  abbrev pub visit : ℕ → ℕ → INode → Slice → Slice → Outcome Results
  visit f level child start end = range_recursive load min_version transform f child start end level

  -- All the children of a node, as the slice from 0 to the number of them
  pub all_below :
      (again : INode → Slice → Slice → Outcome Results) (node : INode) (acc below : Results)
      → range_children load min_version transform again node none none
          (length node.children)
          0
          node.children
          acc
        ≡ ok (acc ++ below)
      → (node.children ≡ [] → below ≡ [])
      → range_below load min_version transform again node none none
          (acc, some (0, length node.children))
        ≡ ok (acc ++ below)
  unfolding range_below
  all_below again node acc below looped empty = elim (Bool-cases (length node.children == 0)) [
    | inl e ↦ rw (e, empty (no_elements node.children ((==_iff _ 0).0 e)), append-nil acc) refl
    | inr e ↦
        rw
          (
            e,
            some_elements (length node.children) e,
            le→leb 0 (length node.children) (omega arith),
            le→leb (length node.children) (length node.children) (omega arith),
            take_all node.children (length node.children - 0) (omega arith),
          )
          looped
  ]

  mutual
    unfolding range_recursive range_entry

    range-pairs :
        (t : Child) (node : INode) (f level : ℕ)
        → height t ≤ f
        → 0 < level
        → Under load t node
        → range_recursive load min_version transform f node none none level
          ≡ ok (pairs min_version transform t)
    range-pairs (pointer v s e bitmap leaf ch) node zero level deep low under = absurd (omega arith)
    range-pairs (pointer v s e bitmap leaf ch) node (suc f) level deep low under =
        let below : (level == 0) ≡ false = eq_test_false level 0 (λ e. omega arith) in
        let loop =
          children-pairs ch node.children node f (level + 1) (length node.children) 0
            (own_pair min_version transform leaf) (omega arith) (omega arith) under.1 in
        rw (below, append_if-own min_version transform node leaf under.0)
          (all_below (visit f (level + 1)) node (own_pair min_version transform leaf)
            (pairs_below min_version transform ch) loop
            (none_below load min_version transform ch node.version node.children under.1))

    children-pairs :
        (ts : Children) (cs : List Child) (node : INode) (f level end idx : ℕ) (acc : Results)
        → heights ts ≤ f
        → 0 < level
        → UnderAll load ts node.version cs
        → range_children load min_version transform (visit f level) node none none end idx cs acc
          ≡ ok (acc ++ pairs_below min_version transform ts)
    children-pairs nil [] node f level end idx acc deep low under = ap ok (sym (append-nil acc))
    children-pairs nil (c ∷ cs) node f level end idx acc deep low under = elim under [ ]
    children-pairs (cons t ts) [] node f level end idx acc deep low under = elim under [ ]
    children-pairs (cons t ts) (c ∷ cs) node f level end idx acc deep low under =
        let (kid, read, below) = under.0 in
        let mine : range_recursive load min_version transform f kid none none level
            ≡ ok (pairs min_version transform t) =
          range-pairs t kid f level (deep_left (height t) (heights ts) f deep) low below in
        let rest =
          children-pairs ts cs node f level end (idx + 1) (acc ++ pairs min_version transform t)
            (deep_right (height t) (heights ts) f deep) low under.1 in
        rw (read, if_same, mine) (rest ∙ ap ok (append_assoc acc _ _))

  -- A range without bounds, with fuel for the height of the tree that lies under the root, ends and
  -- returns the pairs of all the leaves below the root that have a key and are recent enough, as
  -- the transform gives them: those of a node before those of its children, and these in the order
  -- of the table. The root's own leaf is left out.
  pub range_recursive-pairs :
      (v s e : ℕ) (bitmap : Bitmap) (leaf : LNode) (ch : Children) (root : INode) (f : ℕ)
      → heights ch ≤ f
      → Under load (pointer v s e bitmap leaf ch) root
      → range_recursive load min_version transform (suc f) root none none 0
        ≡ ok (pairs_below min_version transform ch)
  unfolding range_recursive range_entry
  range_recursive-pairs v s e bitmap leaf ch root f deep under =
      all_below (visit f 1) root [] (pairs_below min_version transform ch)
        (children-pairs ch root.children root f 1 (length root.children) 0 [] deep (omega arith)
          under.1)
        (none_below load min_version transform ch root.version root.children under.1)
