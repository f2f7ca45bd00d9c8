-- ===== src/Trie/View.antt =====
-- What `getRecursive` finds depends only on the bitmaps, the keys and the values below a node, and
-- not on where the nodes lie or which versions they have.
use mariv.Base.{
  ℕ, zero, suc, ◌+◌, ◌≡◌, refl, sym, ◌∙◌, List, [], ◌∷◌, length, get_elem?, Option, none, some,
  ◌==◌, Bool-cases, inl, inr, if◌then◌else◌,
}
use mariv.Base.Bytes.{Slice, bytes, bytes_equal}
use mariv.Base.Outcome.{Outcome, ok, err, panics, stuck, ◌>>=◌, at}
use mariv.Bitmap.{get_position, is_bit_set}
use mariv.Node.{INode, Child, Children, pointer, nil, cons, deref, get_child_node}
use mariv.Trie.{KeyValuePair, get_index_for_level, get_recursive}

-- What is found: the bytes of the key, and the value.
abbrev pub plain : Option KeyValuePair → Option (List ℕ × List ℕ)
plain none = none
plain (some kv) = some (bytes kv.key, kv.value)

abbrev pub found : Outcome (Option KeyValuePair) → Outcome (Option (List ℕ × List ℕ))
found (ok result) = ok (plain result)
found (err e) = err e
found panics = panics
found stuck = stuck

-- The tree has the bitmaps, the keys and the values of the nodes that are read by `load` from
-- the given one down.
module _ (load : ℕ → Outcome INode) where
  abbrev mutual
    pub Shows : Child → INode → Type 0
    Shows (pointer v start end bitmap leaf children) node =
        (node.bitmap ≡ bitmap)
        × (bytes node.leaf.key ≡ bytes leaf.key)
        × (node.leaf.value ≡ leaf.value)
        × ShowsAll children node.version node.children

    pub ShowsAll : Children → ℕ → List Child → Type 0
    ShowsAll nil version [] = Unit {0}
    ShowsAll nil version (c ∷ cs) = ⊥
    ShowsAll (cons t ts) version [] = ⊥
    ShowsAll (cons t ts) version (c ∷ cs) =
        ((kid : INode) × (get_child_node load (deref c) version ≡ ok kid) × Shows t kid)
        × ShowsAll ts version cs

-- The read of a child, and the call on it
abbrev pub descend :
    (ℕ → Outcome INode)
    → (INode → Outcome (Option KeyValuePair))
    → ℕ
    → Option Child
    → Outcome (Option KeyValuePair)
descend load again version slot = at slot >>= λ c. get_child_node load (deref c) version >>= again

module _ (load load' : ℕ → Outcome INode) where
  kids-Shows :
      (again again' : INode → Outcome (Option KeyValuePair)) (v v' : ℕ)
      → ((t : Child) (node node' : INode)
          → Shows load t node
          → Shows load' t node'
          → found (again node) ≡ found (again' node'))
      → (ts : Children) (cs cs' : List Child) (pos : ℕ) → ShowsAll load ts v cs
      → ShowsAll load' ts v' cs'
      → found (descend load again v (get_elem? cs pos))
        ≡ found (descend load' again' v' (get_elem? cs' pos))
  kids-Shows again again' v v' same nil [] [] pos s s' = refl
  kids-Shows again again' v v' same nil (c ∷ cs) cs' pos s s' = elim s [ ]
  kids-Shows again again' v v' same nil [] (c ∷ cs') pos s s' = elim s' [ ]
  kids-Shows again again' v v' same (cons t ts) [] cs' pos s s' = elim s [ ]
  kids-Shows again again' v v' same (cons t ts) (c ∷ cs) [] pos s s' = elim s' [ ]
  kids-Shows again again' v v' same (cons t ts) (c ∷ cs) (c' ∷ cs') zero s s' =
      rw (s.0.1, s'.0.1) (same t s.0.0 s'.0.0 s.0.2 s'.0.2)
  kids-Shows again again' v v' same (cons t ts) (c ∷ cs) (c' ∷ cs') (suc pos) s s' =
      kids-Shows again again' v v' same ts cs cs' pos s.1 s'.1

  -- The same child is visited, whatever the index came to.
  index-Shows :
      (again again' : INode → Outcome (Option KeyValuePair)) (node node' : INode)
      → node.bitmap ≡ node'.bitmap
      → ((pos : ℕ)
          → found (descend load again node.version (get_elem? node.children pos))
            ≡ found (descend load' again' node'.version (get_elem? node'.children pos)))
      → (index : Outcome ℕ)
      → found (
          index >>= λ i.
          if is_bit_set node.bitmap i
          then descend load again node.version
              (get_elem? node.children (get_position node.bitmap i))
          else ok none)
        ≡ found (
            index >>= λ i.
            if is_bit_set node'.bitmap i
            then descend load' again' node'.version
                (get_elem? node'.children (get_position node'.bitmap i))
            else ok none)
  index-Shows again again' node node' e kids (ok i) =
      elim (Bool-cases (is_bit_set node'.bitmap i)) [
        | inl present ↦ rw (e, present) (kids (get_position node'.bitmap i))
        | inr gone ↦ rw (e, gone) refl
      ]
  index-Shows again again' node node' e kids (err x) = refl
  index-Shows again again' node node' e kids panics = refl
  index-Shows again again' node node' e kids stuck = refl

  pub get_recursive-Shows :
      (f : ℕ) (t : Child) (node node' : INode) (key : Slice) (level : ℕ)
      → Shows load t node
      → Shows load' t node'
      → found (get_recursive load f node key level some)
        ≡ found (get_recursive load' f node' key level some)
  unfolding get_recursive
  get_recursive-Shows zero t node node' key level s s' = refl
  get_recursive-Shows (suc f) (pointer v start end bitmap leaf ch) node node' key level s s' =
      elim (Bool-cases (length (bytes key) == level)) [
        | inl last ↦ elim (Bool-cases (bytes_equal (bytes key) (bytes leaf.key))) [
          | inl hit ↦ rw (last, s.1, s'.1, hit, s.2, s'.2) (cc (s.1, s'.1))
          | inr miss ↦ rw (last, s.1, s'.1, miss) refl
        ]
        | inr more ↦ elim (Bool-cases (bytes_equal (bytes key) (bytes leaf.key))) [
          | inl hit ↦ rw (more, s.1, s'.1, hit, s.2, s'.2) (cc (s.1, s'.1))
          | inr miss ↦
              rw (more, s.1, s'.1, miss)
                (index-Shows (λ kid. get_recursive load f kid key (level + 1) some)
                  (λ kid. get_recursive load' f kid key (level + 1) some) node node'
                  (s.0 ∙ sym s'.0)
                  (λ pos.
                    kids-Shows (λ kid. get_recursive load f kid key (level + 1) some)
                      (λ kid. get_recursive load' f kid key (level + 1) some) node.version
                      node'.version
                      (λ t n n' h h'. get_recursive-Shows f t n n' key (level + 1) h h') ch
                      node.children node'.children pos s.3 s'.3)
                  (get_index_for_level key level))
        ]
      ]
