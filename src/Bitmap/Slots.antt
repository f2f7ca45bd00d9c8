-- ===== src/Bitmap/Slots.antt =====
-- The bitmap and the child table together: which entry is whose, and what a flipped bit does to that.
use mariv.Base.{
  ℕ, suc, ◌+◌, ◌-◌, ◌≤◌, ◌<◌, ◌≡◌, ◌∙◌, arith, inl, inr, length, List, Option, none, get_elem?,
  true, false, if◌then◌else◌, Bool-cases,
}
use mariv.Bitmap.{Bitmap, population_count, get_position, is_bit_set, set_bit}
use mariv.Bitmap.Rank.{
  member, member-le, rank, rank-suc, rank_mono, is_bit_set-member, population_count-rank,
  get_position-rank,
}
use mariv.Bitmap.Flip.{rank-set_bit_le, rank-set_bit_lt}
use native.Mathlib.Decide.{ℕ_discrete}

-- The bytes that a trie in good order branches on: `getPosition` is wrong beside smaller ones.
abbrev pub IsIndex : ℕ → Type 0
IsIndex i = (32 ≤ i) × (i < 256)

-- The bitmap has eight words and no member below 32, and the table an entry for each member.
pub record Fits {ℓ} {A : Type ℓ} (bitmap : Bitmap) (table : List A) : Type 0 where
  pub words : length bitmap ≡ 8
  pub full : length table ≡ population_count bitmap
  pub low_clear : rank bitmap 32 ≡ 0

pub is_bit_set-clear : (bitmap : Bitmap) (i : ℕ) → member bitmap i ≡ 0 → is_bit_set bitmap i ≡ false
is_bit_set-clear bitmap i m = elim (Bool-cases (is_bit_set bitmap i)) [
  | inl e ↦ absurd (omega (arith, (is_bit_set-member bitmap i).0 e))
  | inr e ↦ e
]

pub member-clear : (bitmap : Bitmap) (i : ℕ) → is_bit_set bitmap i ≡ false → member bitmap i ≡ 0
member-clear bitmap i e = elim (ℕ_discrete (member bitmap i) 1) [
  | yes m ↦ cc ((is_bit_set-member bitmap i).1 m)
  | no ne ↦ omega (arith, member-le bitmap i)
]

module _ {ℓ} {A : Type ℓ} where
  -- The child that the operations of the trie read for an index.
  abbrev pub child_at : Bitmap → List A → ℕ → Option A
  child_at bitmap table i =
      if is_bit_set bitmap i then get_elem? table (get_position bitmap i) else none

  pub rank_of :
      {bitmap : Bitmap} {table : List A}
      → Fits bitmap table
      → (i : ℕ) → i < 256
      → get_position bitmap i ≡ rank bitmap i
  rank_of {bitmap} fits i h = get_position-rank bitmap i h (λ _. fits.low_clear)

  pub rank-lt_length :
      {bitmap : Bitmap} {table : List A}
      → Fits bitmap table
      → (i : ℕ) → i < 256
      → member bitmap i ≡ 1
      → rank bitmap i < length table
  rank-lt_length {bitmap} fits i h m = omega (
    arith,
    fits.full,
    population_count-rank bitmap,
    rank-suc bitmap i,
    rank_mono bitmap (suc i) 256 (omega arith),
  )

  pub child_at-member :
      {bitmap : Bitmap} {table : List A}
      → Fits bitmap table
      → (i : ℕ) → i < 256
      → member bitmap i ≡ 1
      → child_at bitmap table i ≡ get_elem? table (rank bitmap i)
  child_at-member {bitmap} fits i h m = rw ((is_bit_set-member bitmap i).1 m, rank_of fits i h)

  -- Where the bit is set, the position lies inside the table.
  pub get_position_in_range :
      {bitmap : Bitmap} {table : List A}
      → Fits bitmap table
      → (i : ℕ) → i < 256
      → is_bit_set bitmap i ≡ true
      → get_position bitmap i < length table
  get_position_in_range {bitmap} fits i h e =
      rw (rank_of fits i h) (rank-lt_length fits i h ((is_bit_set-member bitmap i).0 e))

module _ {ℓ} {A : Type ℓ} {bitmap : Bitmap} {table : List A} (fits : Fits bitmap table) (i : ℕ)
    (index : IsIndex i) where
  pub set_bit-low_clear : rank (set_bit bitmap i) 32 ≡ 0
  set_bit-low_clear =
      omega (arith, rank-set_bit_le bitmap i 32 fits.words index.1 index.0, fits.low_clear)

  pub set_position : get_position (set_bit bitmap i) i ≡ rank bitmap i
  set_position =
      get_position-rank (set_bit bitmap i) i index.1 (λ _. set_bit-low_clear)
      ∙ rank-set_bit_le bitmap i i fits.words index.1 (omega arith)

  pub flipped_count :
      population_count (set_bit bitmap i) + member bitmap i ≡ length table + (1 - member bitmap i)
  flipped_count = omega (
    arith,
    fits.full,
    population_count-rank bitmap,
    population_count-rank (set_bit bitmap i),
    rank-set_bit_lt bitmap i 256 fits.words index.1 index.1,
  )

  pub rank-le_length : rank bitmap i ≤ length table
  rank-le_length =
      omega (arith, fits.full, population_count-rank bitmap, rank_mono bitmap i 256 (omega arith))
