-- ===== src/MemMap/Fields.antt =====
-- The bitmap and the table of child offsets of a node, read back from their bytes.
use mariv.Base.{
  ℕ, zero, suc, ◌+◌, ◌*◌, ◌^◌, ◌<◌, ◌≡◌, refl, arith, List, [], ◌∷◌, map, length, length-append,
  All,
}
use mariv.Base.Memory.{At, slice-At, At-left, At-right}
use mariv.Base.Outcome.{ok}
use mariv.Bitmap.{Bitmap}
use mariv.Serialize.{
  serialize_uint64, serialize_uint32, concat_map, reference, deserialize_bitmap,
  deserialize_children,
}
use mariv.Serialize.Words.{
  length-serialize_uint64, length-serialize_uint32, deserialize-serialize_uint64,
  deserialize-serialize_uint32,
}

pub length-bitmap_bytes :
    (bitmap : Bitmap) → length (concat_map serialize_uint32 bitmap) ≡ 4 * length bitmap
length-bitmap_bytes [] = refl
length-bitmap_bytes (w ∷ ws) =
    rw length-append (omega (arith, length-serialize_uint32 w, length-bitmap_bytes ws))

pub length-table_bytes :
    (offsets : List ℕ) → length (concat_map serialize_uint64 offsets) ≡ 8 * length offsets
length-table_bytes [] = refl
length-table_bytes (o ∷ os) =
    rw length-append (omega (arith, length-serialize_uint64 o, length-table_bytes os))

pub deserialize_bitmap-serialized :
    (memory : List ℕ) (bitmap : Bitmap) (n i : ℕ)
    → length bitmap ≡ n
    → All (λ w. w < 2 ^ 32) bitmap
    → At memory (18 + 4 * i) (concat_map serialize_uint32 bitmap)
    → deserialize_bitmap n memory i ≡ ok bitmap
unfolding deserialize_bitmap
deserialize_bitmap-serialized memory [] zero i e fit stands = refl
deserialize_bitmap-serialized memory [] (suc n) i e fit stands = absurd (omega arith)
deserialize_bitmap-serialized memory (w ∷ ws) zero i e fit stands = absurd (omega arith)
deserialize_bitmap-serialized memory (w ∷ ws) (suc n) i e fit stands = rw (
  slice-At memory (18 + 4 * i) (serialize_uint32 w)
      (At-left memory (18 + 4 * i) (serialize_uint32 w) _ stands) (18 + 4 * i + 4)
      (omega (arith, length-serialize_uint32 w)),
  deserialize-serialize_uint32 w fit.0,
  deserialize_bitmap-serialized memory ws n (i + 1) (omega arith) fit.1 (
      At-right memory (18 + 4 * i) (serialize_uint32 w) _ stands (18 + 4 * (i + 1))
        (omega (arith, length-serialize_uint32 w))),
)

pub deserialize_children-serialized :
    (memory : List ℕ) (offsets : List ℕ) (n o : ℕ)
    → length offsets ≡ n
    → All (λ w. w < 2 ^ 64) offsets
    → At memory o (concat_map serialize_uint64 offsets)
    → deserialize_children n memory o ≡ ok (map reference offsets)
unfolding deserialize_children
deserialize_children-serialized memory [] zero o e fit stands = refl
deserialize_children-serialized memory [] (suc n) o e fit stands = absurd (omega arith)
deserialize_children-serialized memory (w ∷ ws) zero o e fit stands = absurd (omega arith)
deserialize_children-serialized memory (w ∷ ws) (suc n) o e fit stands = rw (
  slice-At memory o (serialize_uint64 w) (At-left memory o (serialize_uint64 w) _ stands) (o + 8)
      (omega (arith, length-serialize_uint64 w)),
  deserialize-serialize_uint64 w fit.0,
  deserialize_children-serialized memory ws n (o + 8) (omega arith) fit.1 (
      At-right memory o (serialize_uint64 w) _ stands (o + 8)
        (omega (arith, length-serialize_uint64 w))),
)
