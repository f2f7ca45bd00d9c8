-- ===== src/MemMap/Initial.antt =====
-- What `initRoot` and `initMeta` leave in a new memory map: the metadata, and an empty root.
use mariv.Base.{
  ℕ, zero, suc, ◌∷◌, take, ◌+◌, ◌-◌, ◌%◌, ◌^◌, ◌≤◌, ◌<◌, ◌≡◌, refl, ap, arith, true, false, List,
  [], ◌++◌, length, length-append, copy_at, le→leb, ◌==◌, Bool-cases, inl, inr,
}
use mariv.Base.Memory.{
  At, At-bound, At-left, At-append, At-copy_at, At-copy_at_below, At-copy_at_above, length-copy_at,
}
use mariv.Base.Outcome.{Outcome, ok}
use mariv.Node.{
  LNode, INode, address, new_internal_node, reset_inode, determine_end_offset_inode,
  determine_end_offset_lnode, get_end_offset_inode, get_end_offset_lnode, reset_lnode,
}
use mariv.Base.Bits.{ones, bit_at}
use mariv.Bitmap.{calculate_hamming_weight}
use mariv.Serialize.{
  MetaData, serialize_inode, serialize_lnode, serialize_meta_data, serialize_recursive,
  placed_inode, placed_lnode,
}
use mariv.MemMap.{
  copy_into, flush_region_to_disk, write_lnode_to_mem_map, write_inode_to_mem_map, init_root,
  init_meta, write_meta_to_mem_map, read_inode_from_mem_map, load_meta,
}
use mariv.MemMap.Leaf.{length-serialize_lnode}
use mariv.MemMap.Node.{length-serialize_inode}
use mariv.MemMap.Meta.{length-serialize_meta_data, load_meta-At}
use mariv.MemMap.Path.{
  moved, path_offsets, serialize_recursive_lem, read-serialize_recursive, as_root,
}
use mathlib.Core.Path.{subst}
use mariv.MemMap.Fresh.{fresh-Fits}

abbrev pub empty_root : INode
empty_root = new_internal_node 0

abbrev pub first_meta : MetaData
first_meta = record { version = 0; root_offset = 24; next_start_offset = 101 }

pub take_all : (bs : List ℕ) (n : ℕ) → length bs ≤ n → take n bs ≡ bs
take_all [] zero h = refl
take_all [] (suc n) h = refl
take_all (b ∷ bs) zero h = absurd (omega arith)
take_all (b ∷ bs) (suc n) h = ap (λ t. b ∷ t) (take_all bs n (omega arith))

pub copy_into-ok :
    (m : List ℕ) (lo hi : ℕ) (bs : List ℕ)
    → lo ≤ hi
    → hi ≤ length m
    → length bs ≤ hi - lo
    → copy_into m lo hi bs ≡ ok (copy_at m lo bs)
copy_into-ok m lo hi bs low high fit =
    rw (le→leb lo hi low, le→leb hi (length m) high, take_all bs (hi - lo) fit) refl

module _ (flush : List ℕ → ℕ → ℕ → Outcome (Unit {0}))
    (flushes : (m : List ℕ) (lo hi : ℕ) → flush m lo hi ≡ ok tt) (page_size : ℕ) where
  flush_region-ok :
      (m : List ℕ) (lo hi : ℕ)
      → lo ≤ hi
      → hi ≤ length m
      → flush_region_to_disk flush m page_size lo hi ≡ ok tt
  unfolding flush_region_to_disk
  flush_region-ok m lo hi low high = elim (Bool-cases (length m == 0)) [
    | inl e ↦ rw e
    | inr e ↦
        rw (e, le→leb (lo - lo % page_size) hi (grind arith), le→leb hi (length m) high)
          (flushes m (lo - lo % page_size) hi)
  ]

  -- A write into a region that the map has, up to the byte at `last`.
  pub write_lnode-ok :
      (m : List ℕ) (node : LNode) (last : ℕ)
      → get_end_offset_lnode (placed_lnode node) ≡ last
      → node.start_offset ≤ last
      → last + 1 < 2 ^ 64
      → last + 1 ≤ length m
      → length (serialize_lnode node) ≤ last + 1 - node.start_offset
      → write_lnode_to_mem_map flush page_size m node
        ≡ ok (copy_at m node.start_offset (serialize_lnode node), last + 1)
  unfolding write_lnode_to_mem_map
  write_lnode-ok m node last e low small room fit =
      let wrapped : (last + 1) % 2 ^ 64 ≡ last + 1 = omega arith in
      rw
        (
          e,
          wrapped,
          copy_into-ok m node.start_offset (last + 1) (serialize_lnode node) (omega arith) room fit,
          flush_region-ok (copy_at m node.start_offset (serialize_lnode node)) node.start_offset
              last low (rw length-copy_at (omega arith)),
        )
        refl

  pub write_inode-ok :
      (m : List ℕ) (node : INode) (last leaf_last : ℕ)
      → get_end_offset_inode (placed_inode node) ≡ last
      → (placed_inode node).leaf.start_offset ≡ last + 1
      → get_end_offset_lnode (placed_lnode (placed_inode node).leaf) ≡ leaf_last
      → node.start_offset ≤ last
      → last < leaf_last
      → leaf_last + 1 < 2 ^ 64
      → leaf_last + 1 ≤ length m
      → length (serialize_inode false node) ≤ last + 2 - node.start_offset
      → length (serialize_lnode (placed_inode node).leaf) ≤ leaf_last - last
      → write_inode_to_mem_map flush page_size m node
        ≡ ok (
          copy_at
              (copy_at m node.start_offset (serialize_inode false node))
              (last + 1)
              (serialize_lnode (placed_inode node).leaf),
          leaf_last + 1,
        )
  unfolding write_inode_to_mem_map
  write_inode-ok m node last leaf_last e place f low apart small room fit leaf_fit =
      let leaf = (placed_inode node).leaf in
      let wrapped : (leaf.start_offset + 1) % 2 ^ 64 ≡ last + 2 = omega (arith, place) in
      let once = copy_at m node.start_offset (serialize_inode false node) in
      let size : length once ≡ length m =
        length-copy_at m node.start_offset (serialize_inode false node) in
      rw
        (
          wrapped,
          e,
          copy_into-ok m node.start_offset (last + 2) (serialize_inode false node) (omega arith)
              (omega arith) fit,
          flush_region-ok once node.start_offset last low (omega (arith, size)),
          write_lnode-ok once leaf leaf_last f (omega arith) small (omega (arith, size))
              (omega (arith, leaf_fit, place)),
        )
        (ap (λ (t : ℕ). ok (copy_at once t (serialize_lnode leaf), leaf_last + 1)) place)

  abbrev root : INode
  root = moved empty_root 24

  abbrev leaf : LNode
  leaf = (placed_inode root).leaf

  abbrev pub rooted : List ℕ → List ℕ
  rooted m = copy_at (copy_at m 24 (serialize_inode false root)) 82 (serialize_lnode leaf)

  leaf_size : length (serialize_lnode leaf) ≡ 19
  unfolding new_internal_node reset_inode reset_lnode placed_inode
  leaf_size = omega (arith, length-serialize_lnode leaf)

  fields_size : length (serialize_inode true root) ≡ 58
  fields_size =
      length-serialize_inode root (path_offsets empty_root 24)
        (fresh-Fits 0 24 (omega arith) (omega arith))

  no_table : serialize_inode false root ≡ serialize_inode true root ++ []
  unfolding serialize_inode placed_inode
  no_table = refl

  init_root-ok : (m : List ℕ) → 101 ≤ length m → init_root flush page_size m ≡ ok (rooted m, 101)
  unfolding init_root new_internal_node reset_inode reset_lnode placed_inode
      determine_end_offset_inode get_end_offset_inode get_end_offset_lnode
      determine_end_offset_lnode calculate_hamming_weight ones bit_at
  init_root-ok m room =
      write_inode-ok m (record reset_inode { start_offset = 24 }) 81 100 refl refl refl
        (omega arith) (omega arith) (omega arith) room
        (omega
          (arith, ap length no_table, length-append (serialize_inode true root) [], fields_size))
        (omega (arith, leaf_size))

  meta_size : length (serialize_meta_data first_meta) ≡ 24
  meta_size = length-serialize_meta_data first_meta

  -- The map after both.
  abbrev pub initial : List ℕ → List ℕ
  initial m = copy_at (rooted m) 0 (serialize_meta_data first_meta)

  init_meta-ok :
      (m : List ℕ) → 101 ≤ length m → init_meta flush page_size (rooted m) 101 ≡ ok (initial m)
  unfolding init_meta write_meta_to_mem_map
  init_meta-ok m room =
      let size : length (rooted m) ≡ length m = rw (length-copy_at, length-copy_at) refl in
      rw
        (
          copy_into-ok (rooted m) 0 24 (serialize_meta_data first_meta) (omega arith)
              (omega (arith, size)) (omega (arith, meta_size)),
          flush_region-ok (initial m) 0 24 (omega arith)
              (omega (arith, size, length-copy_at (rooted m) 0 (serialize_meta_data first_meta))),
        )
        refl

  module _ (m : List ℕ) (room : 101 ≤ length m) where
    -- What stands in the map from byte 24 on is left alone by the metadata.
    over_meta : (p : ℕ) (bs : List ℕ) → 24 ≤ p → At (rooted m) p bs → At (initial m) p bs
    over_meta p bs h =
        At-copy_at_above (rooted m) 0 (serialize_meta_data first_meta) p bs
          (omega (arith, meta_size))

    fields_At : At (initial m) 24 (serialize_inode true root)
    unfolding serialize_inode
    fields_At = over_meta 24 (serialize_inode true root) (omega arith) (
        At-copy_at_below (copy_at m 24 (serialize_inode false root)) 82 (serialize_lnode leaf) 24
          (serialize_inode true root) (omega (arith, fields_size))
          (At-left (copy_at m 24 (serialize_inode false root)) 24 (serialize_inode true root) [] (
            rw no_table at (
              At-copy_at m 24 (serialize_inode false root)
                (rw (no_table, length-append) (omega (arith, fields_size)))))))

    leaf_At : At (initial m) 82 (serialize_lnode leaf)
    leaf_At = over_meta 82 (serialize_lnode leaf) (omega arith) (
        At-copy_at (copy_at m 24 (serialize_inode false root)) 82 (serialize_lnode leaf)
          (rw length-copy_at (omega (arith, leaf_size))))

    -- The empty root stands at byte 24.
    pub root_At : At (initial m) 24 (serialize_recursive (address empty_root) 24)
    unfolding new_internal_node
    root_At = rw (serialize_recursive_lem empty_root 24) (
        At-append (initial m) 24 (serialize_inode true root) (serialize_lnode leaf ++ []) fields_At
          (subst (λ t. At (initial m) t (serialize_lnode leaf ++ [])) (omega (arith, fields_size))
            (At-append (initial m) 82 (serialize_lnode leaf) [] leaf_At
              (omega (arith, leaf_size, At-bound (initial m) 82 (serialize_lnode leaf) leaf_At)))))

    meta_At : At (initial m) 0 (serialize_meta_data first_meta)
    meta_At =
        At-copy_at (rooted m) 0 (serialize_meta_data first_meta)
          (rw (length-copy_at, length-copy_at) (omega (arith, meta_size)))

    -- `initRoot` and `initMeta` in a map of 101 bytes or more, with flushes that return, succeed;
    -- the metadata are then version 0, root at 24 and end at 101, and at 24 an empty root is read.
    pub init-reads :
        (m' : List ℕ) × (init_root flush page_size m ≡ ok (rooted m, 101))
        × (init_meta flush page_size (rooted m) 101 ≡ ok m')
        × (load_meta m' ≡ ok first_meta)
        × (read_inode_from_mem_map m' 24 ≡ ok (as_root empty_root 24))
        × (length m' ≡ length m)
    init-reads = (
      initial m,
      init_root-ok m room,
      init_meta-ok m room,
      load_meta-At (initial m) first_meta (omega arith) (omega arith) (omega arith) meta_At,
      read-serialize_recursive (initial m) empty_root 24
          (fresh-Fits 0 24 (omega arith) (omega arith)) root_At,
      rw (length-copy_at, length-copy_at, length-copy_at) refl,
    )
