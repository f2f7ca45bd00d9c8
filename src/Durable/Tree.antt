-- ===== src/Durable/Tree.antt =====
-- The tree of a path that can be written: it is what the transaction reads, and what the path's bytes
-- are to hold, if they end below 2^63.
use mariv.Base.{
  ℕ, zero, suc, ◌+◌, ◌*◌, ◌/◌, ◌%◌, ◌^◌, ◌≤◌, ◌<◌, ◌≡◌, refl, ap, sym, ◌∙◌, arith, List, [], ◌∷◌,
  length, length-append, All, inl, inr, ◌==◌, ==_iff, eq_test_false, if◌then◌else◌,
}
use mariv.Base.Bits.{ones}
use mariv.Base.Outcome.{Outcome}
use mariv.Bitmap.{Bitmap, calculate_hamming_weight}
use mariv.Node.{
  INode, Child, Children, pointer, nil, cons, to_list, of_list, deref, total_children,
  determine_end_offset_inode, get_end_offset_inode,
}
use mariv.Serialize.{serialize_recursive, placed_inode}
use mariv.MemMap.{read_inode_from_mem_map}
use mariv.MemMap.Node.{NodeFits}
use mariv.MemMap.Path.{moved, path_offsets, path_rest, children_start, child_offsets, child_paths}
use mariv.Trie.View.{Shows, ShowsAll}
use mariv.Compact.Block.{block, length-block}
use mariv.Compact.Copy.{of_list-to_list}
use mariv.Durable.{Planted, Planted-Shows}
use mariv.Durable.Path.{OnPath, Slots, serialize-path, paths-here, paths-away}
use mariv.Durable.Tidy.{
  Tidy, TidyAll, TidyNode, deref-TidyNode, length-of_list, own_child, old_child,
}
use mathlib.Core.Path.{subst}

ones-le : (k w : ℕ) → ones k w ≤ k
unfolding ones
ones-le zero w = omega arith
ones-le (suc k) w = omega (arith, ones-le k (w / 2))

total_children-le : (bitmap : Bitmap) → total_children bitmap ≤ 32 * length bitmap
unfolding calculate_hamming_weight
total_children-le [] = omega arith
total_children-le (w ∷ ws) = omega (arith, ones-le 32 w, total_children-le ws)

-- The offset that follows a child, and the one that its entry names
abbrev step : Child → ℕ → ℕ → ℕ
step c v next =
    if (deref c).version == v then (next + length (serialize_recursive c next)) % 2 ^ 64 else next

length-child_offsets :
    (cs : Children) (v next : ℕ) → length (child_offsets cs v next) ≡ length (to_list cs)
length-child_offsets nil v next = refl
length-child_offsets (cons c cs) v next = ap suc (length-child_offsets cs v (step c v next))

module _ (m : List ℕ) (limit v : ℕ) (limited : limit < 2 ^ 63) (pos : 0 < v)
    (fits : v < 2 ^ 64) where
  Planted-lt : (t : Child) (o : ℕ) → Planted m limit t o → o < 2 ^ 63
  Planted-lt (pointer w s e bitmap leaf ch) o h = omega (arith, h.high)

  offsets-lt :
      (cs : Children) (next : ℕ)
      → next < 2 ^ 64
      → TidyAll m limit v cs
      → All (λ o. o < 2 ^ 64) (child_offsets cs v next)
  offsets-lt nil next small h = tt
  offsets-lt (cons c cs) next small (inl (unplaced, tidy), rest) =
      let here = (==_iff (deref c).version v).1 (deref-TidyNode m limit v c tidy).current in
      rw here (small, offsets-lt cs _ (omega arith) rest)
  offsets-lt (cons c cs) next small (inr (old, (t, planted)), rest) =
      rw (eq_test_false (deref c).version v old)
        (omega (arith, Planted-lt t (deref c).start_offset planted), offsets-lt cs next small rest)

  end_offset-lt : (n : INode) → determine_end_offset_inode n < 2 ^ 16
  unfolding determine_end_offset_inode
  end_offset-lt n = omega arith

  node-Fits :
      (n : INode) (offset : ℕ)
      → TidyNode m limit v n
      → All (λ o. o < 2 ^ 64) (path_offsets n offset)
      → offset < 2 ^ 63
      → NodeFits (moved n offset) (path_offsets n offset)
  unfolding placed_inode get_end_offset_inode
  node-Fits n offset tidy sizes small =
      let count : length (path_offsets n offset) ≡ total_children n.bitmap =
        length-child_offsets (of_list n.children) n.version (children_start n offset)
        ∙ length-of_list m limit v n.children
        ∙ tidy.map_sized.full in
      record {
        words = tidy.map_sized.words;
        word_sizes = tidy.map_sized.word_sizes;
        full = count;
        few = omega (arith, count, total_children-le n.bitmap, tidy.map_sized.words);
        offset_sizes = sizes;
        version_fits = omega (arith, tidy.current);
        place = omega arith;
        leaf_fits = record {
          measured = tidy.leaf_sized.measured;
          short = tidy.leaf_sized.pair.short;
          small = tidy.leaf_sized.pair.small;
          blank = tidy.leaf_sized.pair.blank;
          version_fits = tidy.leaf_sized.version_fits;
          place = omega (arith, end_offset-lt (moved n offset));
        };
      }

  -- The first of the children's paths is no longer than all of them.
  first-le :
      (c : Child) (cs : Children) (next : ℕ)
      → (deref c).version ≡ v
      → length (serialize_recursive c next) ≤ length (child_paths (cons c cs) v next)
  first-le c cs next here =
      let rest = child_paths cs v ((next + length (serialize_recursive c next)) % 2 ^ 64) in
      rw ((==_iff (deref c).version v).1 here)
        (omega (arith, length-append (serialize_recursive c next) rest))

  abbrev pub load : ℕ → Outcome INode
  load = read_inode_from_mem_map m

  -- A tree that the transaction reads at `c`, and that `c` is to leave in the map
  abbrev pub HasTree : Child → Type 0
  HasTree c =
      (t : Child) × Shows load t (deref c)
      × ((offset : ℕ)
          → offset + length (serialize_recursive c offset) < 2 ^ 63
          → OnPath m limit v t c offset)

  abbrev HaveTrees : Children → Type 0
  HaveTrees cs =
      (ts : Children) × ShowsAll load ts v (to_list cs)
      × ((next : ℕ)
          → next + length (child_paths cs v next) < 2 ^ 63
          → Slots m limit v ts (to_list cs) next)

  mutual
    unfolding deref

    pub Tidy-HasTree : (c : Child) → Tidy m limit v c → HasTree c
    Tidy-HasTree (pointer w s e bitmap leaf ch) tidy =
        let (ts, shows, slots) = TidyAll-HaveTrees ch tidy.3 in
        (
          pointer v s e bitmap leaf ts,
          (refl, refl, refl, subst (λ (u : ℕ). ShowsAll load ts u (to_list ch)) (sym tidy.0) shows),
          λ offset small.
              let n = deref (pointer w s e bitmap leaf ch) in
              let next = children_start n offset in
              let same : child_paths ch v next ≡ path_rest n offset =
                ap (λ (u : ℕ). child_paths ch u next) (sym tidy.0)
                ∙ ap (λ (kids : Children). child_paths kids w next) (sym (of_list-to_list ch)) in
              let offsets : All (λ o. o < 2 ^ 64) (path_offsets n offset) =
                subst (λ (kids : Children). All (λ o. o < 2 ^ 64) (child_offsets kids w next))
                  (sym (of_list-to_list ch))
                  (subst (λ (u : ℕ). All (λ o. o < 2 ^ 64) (child_offsets ch u next)) (sym tidy.0)
                    (offsets-lt ch next (omega arith) tidy.3)) in
              let node_fits =
                node-Fits n offset (deref-TidyNode m limit v (pointer w s e bitmap leaf ch) tidy)
                  offsets (omega arith) in
              let size = length-block n offset node_fits in
              (
                tidy.0,
                refl,
                node_fits,
                refl,
                refl,
                refl,
                refl,
                slots next (
                    omega (
                      arith,
                      size,
                      ap length same,
                      ap length (serialize-path (pointer w s e bitmap leaf ch) offset),
                      length-append (block n offset) (path_rest n offset),
                    )),
              ),
        )

    TidyAll-HaveTrees : (cs : Children) → TidyAll m limit v cs → HaveTrees cs
    TidyAll-HaveTrees nil h = (nil, tt, λ next small. tt)
    TidyAll-HaveTrees (cons c cs) (inl (unplaced, tidy), rest) =
        let (t, shown, path) = Tidy-HasTree c tidy in
        let (ts, shows, slots) = TidyAll-HaveTrees cs rest in
        let here = (deref-TidyNode m limit v c tidy).current in
        (
          cons t ts,
          ((deref c, own_child m limit v load (deref c) here unplaced, shown), shows),
          λ next small.
              let first : next + length (serialize_recursive c next) < 2 ^ 63 =
                omega (arith, first-le c cs next here) in
              let size = length (serialize_recursive c next) in
              inl (
                here,
                path next first,
                first,
                slots (next + size) (
                    omega (
                      arith,
                      ap length (paths-here c cs v next here first),
                      length-append (serialize_recursive c next) (child_paths cs v (next + size)),
                    )),
              ),
        )
    TidyAll-HaveTrees (cons c cs) (inr (old, (t, planted)), rest) =
        let (ts, shows, slots) = TidyAll-HaveTrees cs rest in
        let (node, back, shown) = Planted-Shows m limit t (deref c).start_offset planted in
        (
          cons t ts,
          ((node, old_child m limit v load (deref c) old ∙ back, shown), shows),
          λ next small.
              inr
                (old, planted, slots next (omega (arith, ap length (paths-away c cs v next old)))),
        )
