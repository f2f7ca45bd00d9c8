-- ===== src/Durable/Tidy.antt =====
-- A path in memory that can be written: each of its nodes fits the format, and each child is a node of
-- the transaction or stands in the map. `v` is the version of the transaction.
use mariv.Base.{
  ℕ, zero, suc, ◌+◌, ◌^◌, ◌≤◌, ◌<◌, ◌≡◌, ◌≢◌, refl, ap, ◌∙◌, arith, List, [], ◌∷◌, map, length, All,
  set, get_elem?, none, ◌⊎◌, inl, inr,
}
use mariv.Base.Bytes.{Slice, bytes}
use mariv.Base.Outcome.{Outcome, ok, at}
use mariv.Base.Gives.{Gives, with_ok, with_panic}
use mariv.Bitmap.{Bitmap}
use mariv.Node.{
  LNode, INode, Child, Children, pointer, nil, cons, to_list, of_list, deref, address,
  deref-address, total_children, get_child_node,
}
use mariv.Serialize.{reference, placed_inode}
use mariv.MemMap.{read_inode_from_mem_map}
use mariv.Durable.{Planted, PlantedAll, as_planted, read-PlantedNode}

-- A key and a value that fit a leaf.
pub record Fitting (key : Slice) (value : List ℕ) : Type 0 where
  pub short : length (bytes key) ≤ 236
  pub small : 19 + (length (bytes key) + length value) ≤ 2 ^ 16
  pub blank : key ≡ none → value ≡ []

pub record SizedLeaf (leaf : LNode) : Type 0 where
  pub measured : leaf.key_length ≡ length (bytes leaf.key)
  pub pair : Fitting leaf.key leaf.value
  pub version_fits : leaf.version < 2 ^ 64

-- The bitmap is one of 256 bits, with as many members as there are children.
pub record SizedMap (bitmap : Bitmap) (children : ℕ) : Type 0 where
  pub words : length bitmap ≡ 8
  pub word_sizes : All (λ w. w < 2 ^ 32) bitmap
  pub full : children ≡ total_children bitmap

module _ (m : List ℕ) (limit v : ℕ) where
  -- A child that stands in the map
  abbrev pub InMap : INode → Type 0
  InMap child = (child.version ≢ v) × ((t : Child) × Planted m limit t child.start_offset)

  abbrev mutual
    pub Tidy : Child → Type 0
    Tidy (pointer w start end bitmap leaf children) =
        (w ≡ v) × SizedLeaf leaf × SizedMap bitmap (length (to_list children)) × TidyAll children

    pub TidyAll : Children → Type 0
    TidyAll nil = Unit {0}
    TidyAll (cons c cs) = (((deref c).start_offset ≡ 0) × Tidy c ⊎ InMap (deref c)) × TidyAll cs

  abbrev pub Slot : Child → Type 0
  Slot c = ((deref c).start_offset ≡ 0) × Tidy c ⊎ InMap (deref c)

  -- The same of a node.
  pub record TidyNode (node : INode) : Type 0 where
    pub current : node.version ≡ v
    pub leaf_sized : SizedLeaf node.leaf
    pub map_sized : SizedMap node.bitmap (length node.children)
    pub slots : All Slot node.children

  pub TidyAll-of_list : (cs : List Child) → All Slot cs → TidyAll (of_list cs)
  TidyAll-of_list [] h = tt
  TidyAll-of_list (c ∷ cs) h = (h.0, TidyAll-of_list cs h.1)

  pub All-to_list : (cs : Children) → TidyAll cs → All Slot (to_list cs)
  All-to_list nil h = tt
  All-to_list (cons c cs) h = (h.0, All-to_list cs h.1)

  pub length-of_list : (cs : List Child) → length (to_list (of_list cs)) ≡ length cs
  length-of_list [] = refl
  length-of_list (c ∷ cs) = ap suc (length-of_list cs)

  pub address-Tidy : (node : INode) → TidyNode node → Tidy (address node)
  unfolding address
  address-Tidy node tidy = (
    tidy.current,
    tidy.leaf_sized,
    record {
      words = tidy.map_sized.words;
      word_sizes = tidy.map_sized.word_sizes;
      full = length-of_list node.children ∙ tidy.map_sized.full;
    },
    TidyAll-of_list node.children tidy.slots,
  )

  pub address-Slot : (node : INode) → TidyNode node → node.start_offset ≡ 0 → Slot (address node)
  address-Slot node tidy unplaced = inl (rw deref-address unplaced, address-Tidy node tidy)

  pub deref-TidyNode : (c : Child) → Tidy c → TidyNode (deref c)
  unfolding deref
  deref-TidyNode (pointer w s e bitmap leaf ch) h = record {
    current = h.0;
    leaf_sized = h.1;
    map_sized = h.2;
    slots = All-to_list ch h.3;
  }

  pub All-get : (cs : List Child) (i : ℕ) → All Slot cs → Gives Slot (at (get_elem? cs i))
  All-get [] i h = with_panic
  All-get (c ∷ cs) zero h = with_ok c h.0
  All-get (c ∷ cs) (suc i) h = All-get cs i h.1

  pub All-set : (cs : List Child) (i : ℕ) (c : Child) → All Slot cs → Slot c → All Slot (set cs i c)
  All-set [] i c h s = tt
  All-set (d ∷ cs) zero c h s = (s, h.1)
  All-set (d ∷ cs) (suc i) c h s = (h.0, All-set cs i c h.1 s)

  references-Slot :
      0 < v → (ts : Children) (os : List ℕ) → PlantedAll m limit ts os → All Slot (map reference os)
  unfolding deref
  references-Slot pos nil [] h = tt
  references-Slot pos nil (o ∷ os) h = elim h [ ]
  references-Slot pos (cons t ts) [] h = elim h [ ]
  references-Slot pos (cons t ts) (o ∷ os) h =
      (inr ((λ e. omega (arith, e)), (t, h.0)), references-Slot pos ts os h.1)

  length-references : (os : List ℕ) → length (map reference os) ≡ length os
  length-references [] = refl
  length-references (o ∷ os) = ap suc (length-references os)

  -- A node that stands in the map is read with children that stand there.
  pub Planted-TidyNode :
      0 < v
      → (t : Child) (o : ℕ) → Planted m limit t o
      → (node : INode) × (read_inode_from_mem_map m o ≡ ok node)
        × TidyNode (record node { version = v })
  unfolding placed_inode
  Planted-TidyNode pos (pointer w s e bitmap leaf ch) o h =
      let fits = h.fits in
      (
        as_planted h.node h.offsets,
        read-PlantedNode m limit o w bitmap leaf (λ offsets. PlantedAll m limit ch offsets) h,
        record {
          current = refl;
          leaf_sized = record {
            measured = fits.leaf_fits.measured;
            pair = record {
              short = fits.leaf_fits.short;
              small = fits.leaf_fits.small;
              blank = λ e. cc;
            };
            version_fits = fits.leaf_fits.version_fits;
          };
          map_sized = record {
            words = fits.words;
            word_sizes = fits.word_sizes;
            full = length-references h.offsets ∙ fits.full;
          };
          slots = references-Slot pos ch h.offsets h.kids;
        },
      )

  pub own_child :
      (load : ℕ → Outcome INode) (child : INode)
      → child.version ≡ v
      → child.start_offset ≡ 0
      → get_child_node load child v ≡ ok child
  unfolding get_child_node
  own_child load child current unplaced = ground arith

  pub old_child :
      (load : ℕ → Outcome INode) (child : INode)
      → child.version ≢ v
      → get_child_node load child v ≡ load child.start_offset
  unfolding get_child_node
  old_child load child old = ground arith

  pub child-TidyNode :
      0 < v
      → (c : Child) → Slot c
      → Gives
          (λ node. TidyNode (record node { version = v }))
          (get_child_node (read_inode_from_mem_map m) (deref c) v)
  child-TidyNode pos c (inl (unplaced, tidy)) =
      let n = deref-TidyNode c tidy in
      rw (own_child (read_inode_from_mem_map m) (deref c) n.current unplaced) (
        with_ok (deref c) (record {
          current = refl;
          leaf_sized = n.leaf_sized;
          map_sized = n.map_sized;
          slots = n.slots;
        }))
  child-TidyNode pos c (inr (old, (t, planted))) =
      let (node, read, tidy) = Planted-TidyNode pos t (deref c).start_offset planted in
      rw (old_child (read_inode_from_mem_map m) (deref c) old, read) (with_ok node tidy)
