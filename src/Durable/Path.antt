-- ===== src/Durable/Path.antt =====
-- The path that a transaction has copied, in memory, and the tree that its bytes hold in the map.
use mariv.Base.{
  ℕ, ◌+◌, ◌%◌, ◌^◌, ◌≤◌, ◌<◌, ◌≡◌, ◌≢◌, refl, ap, sym, ◌∙◌, arith, List, [], ◌∷◌, ◌++◌, length,
  length-append, ◌⊎◌, inl, inr, ==_iff, eq_test_false,
}
use mariv.Base.Bytes.{bytes}
use mariv.Base.Memory.{At, At-left, At-right}
use mariv.Node.{Child, Children, pointer, nil, cons, deref, of_list}
use mariv.Serialize.{serialize_recursive}
use mariv.MemMap.Node.{NodeFits}
use mariv.MemMap.Path.{moved, path_offsets, path_rest, children_start, child_offsets, child_paths}
use mariv.Compact.Block.{block, length-block}
use mariv.Compact.Copy.{serialize-block}
use mariv.Compact.ReadBack.{address-deref}
use mariv.Durable.{Planted, PlantedAll, Keeps, Planted-keeps}
use mathlib.Core.Path.{subst}

module _ (m : List ℕ) (limit v : ℕ) where
  -- The nodes of version `v` from `p` down have the bitmaps and leaves of the tree, and fit the
  -- format where they are to be written; what lies below the other children stands in the map.
  abbrev mutual
    pub OnPath : Child → Child → ℕ → Type 0
    OnPath (pointer w start end bitmap leaf children) p offset =
        ((deref p).version ≡ v)
        × (w ≡ v)
        × NodeFits (moved (deref p) offset) (path_offsets (deref p) offset)
        × ((deref p).bitmap ≡ bitmap)
        × ((deref p).leaf.version ≡ leaf.version)
        × (bytes (deref p).leaf.key ≡ bytes leaf.key)
        × ((deref p).leaf.value ≡ leaf.value)
        × Slots children (deref p).children (children_start (deref p) offset)

    pub Slots : Children → List Child → ℕ → Type 0
    Slots nil [] next = Unit {0}
    Slots nil (c ∷ cs) next = ⊥
    Slots (cons t ts) [] next = ⊥
    Slots (cons t ts) (c ∷ cs) next =
        (((deref c).version ≡ v)
          × OnPath t c next
          × (next + length (serialize_recursive c next) < 2 ^ 63)
          × Slots ts cs (next + length (serialize_recursive c next)))
        ⊎ (((deref c).version ≢ v) × Planted m limit t (deref c).start_offset × Slots ts cs next)

pub serialize-path :
    (p : Child) (offset : ℕ)
    → serialize_recursive p offset ≡ block (deref p) offset ++ path_rest (deref p) offset
serialize-path p offset =
    ap (λ t. serialize_recursive t offset) (sym (address-deref p))
    ∙ serialize-block (deref p) offset

-- One step of the child table and of the children's bytes
module _ (c : Child) (cs : Children) (v next : ℕ) where
  module _ (here : (deref c).version ≡ v)
      (small : next + length (serialize_recursive c next) < 2 ^ 63) where
    offsets-here :
        child_offsets (cons c cs) v next
        ≡ next ∷ child_offsets cs v (next + length (serialize_recursive c next))
    offsets-here =
        let unwrapped : (next + length (serialize_recursive c next)) % 2 ^ 64
            ≡ next + length (serialize_recursive c next) =
          omega arith in
        rw ((==_iff (deref c).version v).1 here, unwrapped) refl

    pub paths-here :
        child_paths (cons c cs) v next
        ≡ serialize_recursive c next
          ++ child_paths cs v (next + length (serialize_recursive c next))
    paths-here =
        let unwrapped : (next + length (serialize_recursive c next)) % 2 ^ 64
            ≡ next + length (serialize_recursive c next) =
          omega arith in
        rw ((==_iff (deref c).version v).1 here, unwrapped) refl

  module _ (away : (deref c).version ≢ v) where
    offsets-away :
        child_offsets (cons c cs) v next ≡ (deref c).start_offset ∷ child_offsets cs v next
    offsets-away = rw (eq_test_false (deref c).version v away) refl

    pub paths-away : child_paths (cons c cs) v next ≡ child_paths cs v next
    paths-away = rw (eq_test_false (deref c).version v away) refl

module _ (m m' : List ℕ) (limit limit' v : ℕ) (keeps : Keeps m m' limit)
    (more : limit ≤ limit') where
  mutual
    -- Where the bytes of a path are written, the tree is planted.
    pub OnPath-Planted :
        (t p : Child) (offset : ℕ)
        → OnPath m limit v t p offset
        → 24 ≤ offset
        → At m' offset (serialize_recursive p offset)
        → offset + length (serialize_recursive p offset) ≤ limit'
        → Planted m' limit' t offset
    OnPath-Planted (pointer w s e bitmap leaf ch) p offset h low stands high =
        let n = deref p in
        let next = children_start n offset in
        let size = length-block n offset h.2 in
        let whole = serialize-path p offset in
        let parts : length (serialize_recursive p offset)
            ≡ length (block n offset) + length (path_rest n offset) =
          ap length whole ∙ length-append (block n offset) (path_rest n offset) in
        let stands' : At m' offset (block n offset ++ path_rest n offset) =
          subst (λ bs. At m' offset bs) whole stands in
        let same : child_paths (of_list n.children) v next ≡ path_rest n offset =
          ap (λ (t : ℕ). child_paths (of_list n.children) t next) (sym h.0) in
        record {
          node = moved n offset;
          offsets = path_offsets n offset;
          place = refl;
          fits = h.2;
          stands = At-left m' offset (block n offset) (path_rest n offset) stands';
          low = low;
          high = omega (arith, parts);
          same_version = h.0 ∙ sym h.1;
          same_bitmap = h.3;
          same_leaf_version = h.4;
          same_key = h.5;
          same_value = h.6;
          kids =
              subst (λ (t : ℕ). PlantedAll m' limit' ch (child_offsets (of_list n.children) t next))
                (sym h.0)
                (Slots-Planted ch n.children next h.7 (omega (arith, size))
                  (subst (λ bs. At m' next bs) (sym same)
                    (At-right m' offset (block n offset) (path_rest n offset) stands' next
                      (sym size.0)))
                  (omega (arith, size, parts, ap length same)));
        }

    Slots-Planted :
        (ts : Children) (cs : List Child) (next : ℕ)
        → Slots m limit v ts cs next
        → 24 ≤ next
        → At m' next (child_paths (of_list cs) v next)
        → next + length (child_paths (of_list cs) v next) ≤ limit'
        → PlantedAll m' limit' ts (child_offsets (of_list cs) v next)
    Slots-Planted nil [] next h low stands high = tt
    Slots-Planted nil (c ∷ cs) next h low stands high = elim h [ ]
    Slots-Planted (cons t ts) [] next h low stands high = elim h [ ]
    Slots-Planted (cons t ts) (c ∷ cs) next (inl h) low stands high =
        let size = length (serialize_recursive c next) in
        let rest = child_paths (of_list cs) v (next + size) in
        let whole = paths-here c (of_list cs) v next h.0 h.2 in
        let parts : length (child_paths (of_list (c ∷ cs)) v next) ≡ size + length rest =
          ap length whole ∙ length-append (serialize_recursive c next) rest in
        let stands' : At m' next (serialize_recursive c next ++ rest) =
          subst (λ bs. At m' next bs) whole stands in
        subst (λ os. PlantedAll m' limit' (cons t ts) os)
          (sym (offsets-here c (of_list cs) v next h.0 h.2))
          (
            OnPath-Planted t c next h.1 low
                (At-left m' next (serialize_recursive c next) rest stands') (omega (arith, parts)),
            Slots-Planted ts cs (next + size) h.3 (omega arith)
                (At-right m' next (serialize_recursive c next) rest stands' (next + size) refl)
                (omega (arith, parts)),
          )
    Slots-Planted (cons t ts) (c ∷ cs) next (inr h) low stands high =
        let same = paths-away c (of_list cs) v next h.0 in
        subst (λ os. PlantedAll m' limit' (cons t ts) os)
          (sym (offsets-away c (of_list cs) v next h.0))
          (
            Planted-keeps m m' limit limit' keeps more t (deref c).start_offset h.1,
            Slots-Planted ts cs next h.2 low (subst (λ bs. At m' next bs) same stands)
                (omega (arith, ap length same)),
          )
