-- ===== src/Bitmap.antt =====
-- utils.go: the 256-bit bitmap of an internal node and the child table that it indexes.
-- A `[8]uint32` is the list of its eight words, and a Go slice is a list.
pub mod Rank
pub mod Flip
pub mod Table
pub mod Slots
mod Inserted
mod Removed
pub mod Empty
pub mod Sparse
mod Tests
use mariv.Base.{
  ℕ, zero, suc, ◌+◌, ◌-◌, ◌/◌, ◌%◌, ◌^◌, bit_and, bit_xor, Bool, true, false, ◌&&◌, not, Option,
  none, some, List, [], ◌∷◌, map, ltb, leb, ◌==◌, if◌then◌else◌, length, get_or, set, take, drop,
  replicate, copy_at,
}
use mariv.Base.Bits.{ones}
use mariv.Base.Outcome.{Outcome, ok, ◌>>=◌, ◌>>◌, check}

abbrev pub Bitmap : Type 0
Bitmap = List ℕ

abbrev pub empty_bitmap : Bitmap
empty_bitmap = 0 ∷ 0 ∷ 0 ∷ 0 ∷ 0 ∷ 0 ∷ 0 ∷ 0 ∷ []

-- The word at an index below 8; the array has no other.
abbrev pub word : Bitmap → ℕ → ℕ
word bitmap i = get_or bitmap i 0

-- `bits.OnesCount32`
unfoldable pub calculate_hamming_weight : ℕ → ℕ
calculate_hamming_weight w = ones 32 w

unfoldable pub population_count : Bitmap → ℕ
unfolding calculate_hamming_weight
population_count bitmap =
    calculate_hamming_weight (word bitmap 7)
    + calculate_hamming_weight (word bitmap 6)
    + calculate_hamming_weight (word bitmap 5)
    + calculate_hamming_weight (word bitmap 4)
    + calculate_hamming_weight (word bitmap 3)
    + calculate_hamming_weight (word bitmap 2)
    + calculate_hamming_weight (word bitmap 1)
    + calculate_hamming_weight (word bitmap 0)

-- The `switch` of `getPosition`, entered at `case k` and falling through down to `case 0`.
abbrev pub fall_through : Bitmap → ℕ → ℕ
fall_through bitmap zero = calculate_hamming_weight (word bitmap 0)
fall_through bitmap (suc k) = calculate_hamming_weight (word bitmap (suc k)) + fall_through bitmap k

-- `subBitmapIndex-1` is a subtraction of bytes: it wraps to 255 at 0. There is no case above 6.
unfoldable pub preceding_count : Bitmap → ℕ → ℕ
unfolding calculate_hamming_weight
preceding_count bitmap sub_index =
    let case = (sub_index + 255) % 256 in
    if ltb 0 case && leb case 6 then fall_through bitmap case else 0

unfoldable pub get_position : Bitmap → ℕ → ℕ
unfolding calculate_hamming_weight
get_position bitmap index =
    let sub_index = index / 2 ^ 5 in
    let index_in_sub = bit_and index 0x1F in
    let mask = (2 ^ index_in_sub - 1) % 2 ^ 32 in
    preceding_count bitmap sub_index
    + calculate_hamming_weight (bit_and (word bitmap sub_index) mask)

unfoldable pub is_bit_set : Bitmap → ℕ → Bool
is_bit_set bitmap index = not (bit_and (word bitmap (index / 2 ^ 5)) (2 ^ bit_and index 0x1F) == 0)

unfoldable pub set_bit : Bitmap → ℕ → Bitmap
set_bit bitmap index =
    let sub_index = index / 2 ^ 5 in
    set bitmap sub_index (bit_xor (word bitmap sub_index) (2 ^ bit_and index 0x1F))

module _ {ℓ} {A : Type ℓ} where
  -- A fresh table holds nil pointers, `none` here. The slice expressions panic out of range; a
  -- slice's capacity is taken to be its length.
  unfoldable pub extend_table : List A → Bitmap → ℕ → A → Outcome (List (Option A))
  extend_table orig bitmap pos new_node =
      let table_size = population_count bitmap in
      let new_table = replicate table_size none in
      do
        check (leb pos table_size && leb pos (length orig))
        let front = copy_at new_table 0 (map some (take pos orig))
        check (ltb pos table_size)
        let placed = set front pos (some new_node)
        ok (copy_at placed (pos + 1) (map some (drop pos orig)))

  unfoldable pub shrink_table : List A → Bitmap → ℕ → Outcome (List (Option A))
  shrink_table orig bitmap pos =
      let table_size = population_count bitmap in
      let new_table = replicate table_size none in
      do
        check (leb pos table_size && leb (pos + 1) (length orig))
        let front = copy_at new_table 0 (map some (take pos orig))
        ok (copy_at front pos (map some (drop (pos + 1) orig)))
