-- ===== src/Bitmap/Empty.antt =====
-- The bitmap without members.
use mariv.Base.{ℕ, zero, suc, ◌/◌, ◌%◌, ◌≤◌, ◌<◌, ◌≡◌, refl, arith, List, [], none}
use mariv.Bitmap.{Bitmap, word, empty_bitmap, population_count}
use mariv.Bitmap.Rank.{member, member-le, rank, rank-suc, rank-zero, population_count-rank}
use mariv.Base.Bits.{bit_at-zero}
use native.Mathlib.Decide.{ℕ_discrete}
use mariv.Bitmap.Slots.{Fits, is_bit_set-clear, child_at, rank-lt_length}

word-empty : (q : ℕ) → word empty_bitmap q ≡ 0
word-empty zero = refl
word-empty (suc zero) = refl
word-empty (suc (suc zero)) = refl
word-empty (suc (suc (suc zero))) = refl
word-empty (suc (suc (suc (suc zero)))) = refl
word-empty (suc (suc (suc (suc (suc zero))))) = refl
word-empty (suc (suc (suc (suc (suc (suc zero)))))) = refl
word-empty (suc (suc (suc (suc (suc (suc (suc zero))))))) = refl
word-empty (suc (suc (suc (suc (suc (suc (suc (suc q)))))))) = refl

member-empty : (i : ℕ) → member empty_bitmap i ≡ 0
unfolding member
member-empty i = rw (word-empty (i / 32)) (bit_at-zero (i % 32))

rank-empty : (i : ℕ) → i ≤ 256 → rank empty_bitmap i ≡ 0
rank-empty zero h = rank-zero empty_bitmap
rank-empty (suc i) h =
    omega (arith, rank-suc empty_bitmap i, member-empty i, rank-empty i (omega arith))

pub population_count-empty : population_count empty_bitmap ≡ 0
population_count-empty =
    omega (arith, population_count-rank empty_bitmap, rank-empty 256 (omega arith))

module _ {ℓ} {A : Type ℓ} where
  pub empty-Fits : Fits {A = A} empty_bitmap []
  empty-Fits = record {
    words = refl;
    full = omega (arith, population_count-empty);
    low_clear = rank-empty 32 (omega arith);
  }

  -- A table whose bitmap counts no member has no child.
  pub child_at-count_zero :
      {bitmap : Bitmap} {table : List A}
      → Fits bitmap table
      → population_count bitmap ≡ 0
      → (i : ℕ) → i < 256
      → child_at bitmap table i ≡ none
  child_at-count_zero {bitmap} {table} fits count i h = elim (ℕ_discrete (member bitmap i) 1) [
    | yes m ↦ absurd (omega (arith, rank-lt_length fits i h m, fits.full))
    | no out ↦ rw (is_bit_set-clear bitmap i (omega (arith, member-le bitmap i)))
  ]
