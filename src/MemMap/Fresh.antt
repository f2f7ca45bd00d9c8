-- ===== src/MemMap/Fresh.antt =====
-- A new root without children or a leaf: it can be held in the memory map, in 77 bytes.
use mariv.Base.{ℕ, ◌+◌, ◌^◌, ◌≤◌, ◌<◌, ◌≡◌, refl, arith, length, length-append}
use mariv.Base.Bits.{ones, bit_at}
use mariv.Bitmap.{calculate_hamming_weight}
use mariv.Node.{
  INode, address, new_internal_node, determine_end_offset_inode, get_end_offset_inode, reset_inode,
  reset_lnode,
}
use mariv.Serialize.{serialize_recursive, placed_inode}
use mariv.MemMap.Leaf.{length-serialize_lnode}
use mariv.MemMap.Node.{NodeFits, length-serialize_inode}
use mariv.MemMap.Path.{moved, path_offsets, serialize_recursive_lem}

module _ (version offset : ℕ) (version_fits : version < 2 ^ 64)
    (place : offset + 2 ^ 18 ≤ 2 ^ 64) where
  abbrev root : INode
  root = new_internal_node version

  pub fresh-Fits : NodeFits (moved root offset) (path_offsets root offset)
  unfolding new_internal_node reset_inode reset_lnode placed_inode determine_end_offset_inode
      get_end_offset_inode calculate_hamming_weight ones bit_at
  fresh-Fits = record {
    words = refl;
    word_sizes = (
      omega arith,
      (
        omega arith,
        (
          omega arith,
          (omega arith, (omega arith, (omega arith, (omega arith, (omega arith, tt))))),
        ),
      ),
    );
    full = refl;
    few = omega arith;
    offset_sizes = tt;
    version_fits = version_fits;
    place = place;
    leaf_fits = record {
      measured = refl;
      short = omega arith;
      small = omega arith;
      blank = λ e. refl;
      version_fits = omega arith;
      place = omega (arith, place);
    };
  }

  pub length-fresh : length (serialize_recursive (address root) offset) ≡ 77
  unfolding new_internal_node reset_inode reset_lnode placed_inode determine_end_offset_inode
      get_end_offset_inode calculate_hamming_weight ones bit_at
  length-fresh =
      rw (serialize_recursive_lem root offset, length-append, length-append, length-append)
        (omega (
          arith,
          length-serialize_inode (moved root offset) (path_offsets root offset) fresh-Fits,
          length-serialize_lnode (placed_inode (moved root offset)).leaf,
        ))
