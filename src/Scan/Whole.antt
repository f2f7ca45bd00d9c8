-- ===== src/Scan/Whole.antt =====
-- The range without bounds of a trie in good order, from the root down.
use mariv.Base.{
  ℕ, zero, suc, ◌+◌, ◌≤◌, ◌<◌, ◌≡◌, refl, ap, sym, ◌∙◌, arith, true, List, [], ◌∷◌, ◌++◌, length,
  none, some, if◌then◌else◌, inl, inr, ltb, le→leb, lt→ltb, eq_test_false,
}
use mariv.Base.Bytes.{Slice, bytes, bytes_equal_comm}
use mariv.Base.Outcome.{Outcome, ok}
use mariv.Bitmap.{population_count}
use mariv.Bitmap.Rank.{rank-zero}
use mariv.Bitmap.Slots.{Fits}
use mariv.Node.{INode, Child}
use mariv.Trie.{get_key_val}
use mariv.Trie.Keys.{Starts, IsKey, length-snoc}
use mariv.Trie.Order.{LeafOk, Good, get-follow}
use mariv.Trie.Read.{read, IsIndex-below, not_empty, blank_read}
use mariv.Trie.Leaf.{single_read}
use mariv.Trie.Map.{IsTrie, lookup}
use mariv.Scan.{Results, append_if, range_children, range_entry, range_recursive}
use mariv.Scan.Listing.{visit, all_below, no_elements}
use mariv.Scan.Order.{Pairs, as_results, find, Ascending, Keys, Keys-map}
use mariv.Scan.Sorted.{KeyFrom, Lists, Listed, Suffix, suffix}
use mathlib.Core.Path.{subst}
use mathlib.Core.List.{append-nil}

module _ (load : ℕ → Outcome INode) (v n : ℕ) (pos : 0 < n) where
  -- A scan of a node below the root without bounds
  range-below_root :
      (node : INode) (f level : ℕ) (below : Results)
      → 0 < level
      → range_children load 0 some
          (visit load 0 some f (level + 1))
          node
          none
          none
          (length node.children)
          0
          node.children
          (append_if (ltb 0 (length (bytes node.leaf.key))) node some [])
        ≡ ok (append_if (ltb 0 (length (bytes node.leaf.key))) node some [] ++ below)
      → (node.children ≡ [] → below ≡ [])
      → range_recursive load 0 some (suc f) node none none level
        ≡ ok (append_if (ltb 0 (length (bytes node.leaf.key))) node some [] ++ below)
  unfolding range_recursive range_entry
  range-below_root node f level below low looped empty =
      rw (eq_test_false level 0 (λ e. omega arith), le→leb 0 node.leaf.version (omega arith))
        (all_below load 0 some (visit load 0 some f (level + 1)) node
          (append_if (ltb 0 (length (bytes node.leaf.key))) node some []) below looped empty)

  -- There is nobody to visit.
  no_visits :
      (f level : ℕ) (node : INode) (end : ℕ) (cs : List Child) (acc : Results)
      → cs ≡ []
      → range_children load 0 some (visit load 0 some f level) node none none end 0 cs acc
        ≡ ok (acc ++ [])
  no_visits f level node end [] acc e = ap ok (sym (append-nil acc))
  no_visits f level node end (c ∷ cs) acc e = cc

  no_results :
      (f level : ℕ) (node : INode) (end : ℕ) (cs : List Child) (results : Results)
      → range_children load 0 some (visit load 0 some f level) node none none end 0 cs []
        ≡ ok results
      → cs ≡ []
      → results ≡ []
  no_results f level node end [] results ran e = cc
  no_results f level node end (c ∷ cs) results ran e = cc

  -- A node without children lists its own pair, or nothing.
  bare :
      (d : ℕ) (p : List ℕ) (node : INode)
      → length p + d ≡ n
      → LeafOk n p node.leaf
      → Fits node.bitmap node.children
      → population_count node.bitmap ≡ 0
      → Listed load v n d p node
  bare d p node depth leaf fits count f level deep at_level low = elim leaf [
    | inl empty ↦ (
      [],
      alone (rw empty refl),
      record {
        keys = tt;
        ascending = tt;
        finds = λ k is_key starts.
            blank_read load v n d p level node k pos at_level (omega arith) is_key starts fits empty
              count;
      },
    )
    | inr (key, holds, is_key, starts) ↦ (
      (key, node.leaf.value) ∷ [],
      alone (own key is_key.size holds),
      record {
        keys = ((is_key, starts), tt);
        ascending = (tt, tt);
        finds = λ k k_key k_starts.
            single_read load v n d p level node key k at_level (omega arith) k_key k_starts fits
              holds count
            ∙ rw (bytes_equal_comm key k, holds) refl;
      },
    )
  ]
    where
      no_children : node.children ≡ []
      no_children = no_elements node.children (omega (arith, fits.full))

      alone :
          {own : Results}
          → append_if (ltb 0 (length (bytes node.leaf.key))) node some [] ≡ own
          → range_recursive load 0 some (suc f) node none none level ≡ ok own
      alone e =
          range-below_root node f level [] low
            (no_visits f (level + 1) node (length node.children) node.children _ no_children)
            (λ _. refl)
          ∙ ap ok (append-nil _ ∙ e)

      own :
          (key : List ℕ)
          → length key ≡ n
          → node.leaf.key ≡ some key
          → append_if (ltb 0 (length (bytes node.leaf.key))) node some []
            ≡ some (record { key = some key; value = node.leaf.value }) ∷ []
      own key size holds =
          let positive : ltb 0 (length key) ≡ true = lt→ltb 0 (length key) (omega arith) in
          ap
            (λ (k : Slice).
              if ltb 0 (length (bytes k))
              then some (record { key = k; value = node.leaf.value }) ∷ []
              else [])
            holds
          ∙ rw positive refl

  module _ (d : ℕ) (p : List ℕ) (node : INode) (depth : length p + suc d ≡ n)
      (good : Good load v n (suc d) p node) (empty : bytes node.leaf.key ≡ []) where
    -- The scan of the children, where each is listed
    below :
        ((i : ℕ) (kid : INode)
          → Good load v n d (p ++ i ∷ []) kid
          → Listed load v n d (p ++ i ∷ []) kid)
        → (f : ℕ) → d ≤ f
        → (ps : Pairs) × (range_children load 0 some
              (visit load 0 some (suc f) (length p + 1))
              node
              none
              none
              (length node.children)
              0
              node.children
              []
            ≡ ok (as_results ps))
          × Suffix load v n d p node 0 ps
    below listed f deep = rw rank-zero at (
        suffix load v n d p node good.fits
          (λ i small c slot.
            let (kid, reached, homed, kid_good) = good.kids i small c slot in
            (kid, reached, listed i kid kid_good))
          f deep 256 0 (length node.children) 0 [] (omega arith))

    from_children :
        (ps : Pairs)
        → Suffix load v n d p node 0 ps
        → Lists load v n p (read load v n (suc d) node (length p)) ps
    from_children ps whole = record {
      keys =
          Keys-map (KeyFrom load v n p 0) (λ k. IsKey n k × Starts p k) (λ k h. (h.0, h.1)) ps
            whole.keys;
      ascending = whole.ascending;
      finds = λ k is_key starts.
          let (i, (e, small)) = IsIndex-below load v n d p (length p) k refl depth is_key starts in
          get-follow load v n (suc d) node k (length p) i good.fits
            (λ h. omega (arith, is_key.size)) (rw empty (not_empty load v n pos k is_key)) e small.1
          ∙ whole.finds k i is_key starts e small.1 (omega arith);
    }

    inner :
        ((i : ℕ) (kid : INode)
          → Good load v n d (p ++ i ∷ []) kid
          → Listed load v n d (p ++ i ∷ []) kid)
        → (f : ℕ) → d ≤ f
        → 0 < length p
        → (ps : Pairs) × (range_recursive load 0 some (suc (suc f)) node none none (length p)
            ≡ ok (as_results ps))
          × Lists load v n p (read load v n (suc d) node (length p)) ps
    inner listed f deep low =
        let (ps, ran, whole) = below listed f deep in
        let own : append_if (ltb 0 (length (bytes node.leaf.key))) node some [] ≡ [] =
          ap (λ (k : List ℕ). if ltb 0 (length k) then some (get_key_val node) ∷ [] else [])
            empty in
        (
          ps,
          range-below_root node (suc f) (length p) (as_results ps) low
                (subst
                  (λ acc.
                    range_children load 0 some (visit load 0 some (suc f) (length p + 1)) node none
                      none (length node.children) 0 node.children acc
                    ≡ ok (acc ++ as_results ps))
                  (sym own) ran)
                (no_results (suc f) (length p + 1) node (length node.children) node.children
                  (as_results ps) ran)
              ∙ ap (λ (acc : Results). ok (acc ++ as_results ps)) own,
          from_children ps whole,
        )

  Good-Listed :
      (d : ℕ) (p : List ℕ) (node : INode)
      → length p + d ≡ n
      → Good load v n d p node
      → Listed load v n d p node
  Good-Listed zero p node depth good f level deep at_level low =
      bare zero p node depth good.0 good.1 good.2 f level deep at_level low
  Good-Listed (suc d) p node depth good zero level deep at_level low = absurd (omega arith)
  Good-Listed (suc d) p node depth good (suc f) level deep at_level low = elim good.leaf_ok [
    | inl empty ↦
        subst
          (λ l.
            (ps : Pairs) × (range_recursive load 0 some (suc (suc f)) node none none l
              ≡ ok (as_results ps))
            × Lists load v n p (read load v n (suc d) node l) ps)
          (sym at_level)
          (inner d p node depth good empty
            (λ i kid kid_good.
              Good-Listed d (p ++ i ∷ []) kid (omega (arith, length-snoc p i)) kid_good)
            f (omega arith) (omega arith))
    | inr (key, holds, is_key, starts) ↦
        bare (suc d) p node depth good.leaf_ok good.fits
          (good.alone (λ none_left.
            let gone : key ≡ [] = ap bytes (sym holds) ∙ none_left in
            omega (arith, is_key.size, ap (length {A = ℕ}) gone)))
          (suc f) level deep at_level low
  ]

-- On a trie in good order over keys of one positive length, with bytes of 32 or more, a range
-- without bounds, with fuel for the length, ends and returns a list of pairs that is in strictly ascending
-- order of `bytes.Compare` on the keys, whose keys have that length, and in which the lookup of any key
-- of that length gives what `getRecursive` gives: the range lists exactly the map.
pub range_recursive-sorted :
    (load : ℕ → Outcome INode) (v n f : ℕ) (root : INode)
    → 0 < n
    → n ≤ f
    → IsTrie load v n root
    → (ps : Pairs) × (range_recursive load 0 some (suc f) root none none 0 ≡ ok (as_results ps))
      × Ascending ps
      × Keys (IsKey n) ps
      × ((k : List ℕ) → IsKey n k → lookup load n root k ≡ ok (find k ps))
unfolding range_recursive range_entry
range_recursive-sorted load v zero f root pos enough trie = absurd (omega arith)
range_recursive-sorted load v (suc d) zero root pos enough trie = absurd (omega arith)
range_recursive-sorted load v (suc d) (suc f) root pos enough trie =
    let good = trie.good in
    let empty = good.rootless refl in
    let (ps, ran, whole) =
      below load v (suc d) pos d [] root (omega arith) good empty
        (λ i kid kid_good. Good-Listed load v (suc d) pos d (i ∷ []) kid (omega arith) kid_good) f
        (omega arith) in
    let lists = from_children load v (suc d) pos d [] root (omega arith) good empty ps whole in
    (
      ps,
      all_below load 0 some (visit load 0 some (suc f) 1) root [] (as_results ps) ran (
          no_results load v (suc d) pos (suc f) 1 root (length root.children) root.children
            (as_results ps) ran),
      lists.ascending,
      Keys-map (λ k. IsKey (suc d) k × Starts [] k) (IsKey (suc d)) (λ k h. h.0) ps lists.keys,
      λ k is_key. lists.finds k is_key tt,
    )
