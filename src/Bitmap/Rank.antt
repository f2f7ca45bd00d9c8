-- ===== src/Bitmap/Rank.antt =====
-- The rank of an index: how many members of the bitmap lie below it. It is the specification of
-- `getPosition` and `populationCount`.
use mariv.Base.{
  ℕ, zero, suc, ◌+◌, ◌-◌, ◌*◌, ◌/◌, ◌%◌, ◌^◌, ◌≤◌, ◌<◌, bit_and, ◌≡◌, ◌↔◌, refl, ap, arith, true,
  not, ◌==◌,
}
use mariv.Base.Bits.{bit_at, bit_at-le, ones, ones-suc, ones-mod_pow, bit_and-low_mask, bit_and-pow}
use mariv.Bitmap.{Bitmap, word, calculate_hamming_weight, population_count, preceding_count}
use mariv.Bitmap.{get_position, is_bit_set}
use native.Mathlib.Nat.{one-le-pow, zero-add, pow-le-pow_right, mod-eq_of_lt}
use Prim.Native.Nat.add

-- 1 if the index is in the bitmap, else 0.
unfoldable pub member : Bitmap → ℕ → ℕ
member bitmap i = bit_at (i % 32) (word bitmap (i / 32))

unfoldable pub rank : Bitmap → ℕ → ℕ
rank bitmap zero = 0
rank bitmap (suc i) = rank bitmap i + member bitmap i

pub member-le : (bitmap : Bitmap) (i : ℕ) → member bitmap i ≤ 1
unfolding member
member-le bitmap i = bit_at-le (i % 32) (word bitmap (i / 32))

pub rank-suc : (bitmap : Bitmap) (i : ℕ) → rank bitmap (suc i) ≡ rank bitmap i + member bitmap i
unfolding rank
rank-suc bitmap i = refl

rank_mono_add : (bitmap : Bitmap) (i k : ℕ) → rank bitmap i ≤ rank bitmap (k + i)
rank_mono_add bitmap i zero = rw zero-add (omega arith)
rank_mono_add bitmap i (suc k) =
    rw add.suc (omega (arith, rank_mono_add bitmap i k, rank-suc bitmap (k + i)))

-- Smaller indices have smaller ranks.
pub rank_mono : (bitmap : Bitmap) (i j : ℕ) → i ≤ j → rank bitmap i ≤ rank bitmap j
rank_mono bitmap i j h =
    let e : j - i + i ≡ j = omega arith in rw e at (rank_mono_add bitmap i (j - i))

member_in_word :
    (bitmap : Bitmap) (q r : ℕ) → r < 32 → member bitmap (r + 32 * q) ≡ bit_at r (word bitmap q)
unfolding member
member_in_word bitmap q r h =
    let quotient : (r + 32 * q) / 32 ≡ q = omega arith in
    let remainder : (r + 32 * q) % 32 ≡ r = omega arith in rw (quotient, remainder)

rank_in_word :
    (bitmap : Bitmap) (q r : ℕ)
    → r ≤ 32
    → rank bitmap (r + 32 * q) ≡ rank bitmap (32 * q) + ones r (word bitmap q)
rank_in_word bitmap q zero h = rw zero-add (unfold ones in omega arith)
rank_in_word bitmap q (suc r) h =
    rw (add.suc, rank-suc)
      (omega (
        arith,
        rank_in_word bitmap q r (omega arith),
        member_in_word bitmap q r (omega arith),
        ones-suc r (word bitmap q),
      ))

pub mask_is_mod : (i : ℕ) → bit_and i 0x1F ≡ i % 32
mask_is_mod i = bit_and-low_mask 5 i

one_times : (b p : ℕ) → b ≤ 1 → 1 ≤ p → (not (b * p == 0) ≡ true) ↔ (b ≡ 1)
one_times zero p hb hp = ((λ e. ground arith), λ e. absurd (omega arith))
one_times (suc zero) p hb hp = ((λ e. refl), λ e. ground arith)
one_times (suc (suc b)) p hb hp = absurd (omega arith)

-- `isBitSet` holds exactly of the members of a bitmap.
pub is_bit_set-member :
    (bitmap : Bitmap) (i : ℕ) → (is_bit_set bitmap i ≡ true) ↔ (member bitmap i ≡ 1)
unfolding is_bit_set member
is_bit_set-member bitmap i =
    let w = word bitmap (i / 32) in
    rw (mask_is_mod, bit_and-pow (i % 32) w)
      (one_times (bit_at (i % 32) w) (2 ^ (i % 32)) (bit_at-le (i % 32) w)
        (one-le-pow (i % 32) 2 (omega arith)))

-- The rank at a word's start is the sum of the words before it.
rank_next :
    (bitmap : Bitmap) (q : ℕ)
    → rank bitmap (32 * suc q) ≡ rank bitmap (32 * q) + calculate_hamming_weight (word bitmap q)
unfolding calculate_hamming_weight
rank_next bitmap q =
    let e : 32 * suc q ≡ 32 + 32 * q = omega arith in rw e (rank_in_word bitmap q 32 (omega arith))

pub rank-zero : (bitmap : Bitmap) → rank bitmap 0 ≡ 0
unfolding rank
rank-zero bitmap = refl

rank_at_words :
    (bitmap : Bitmap)
    → (rank bitmap 32 ≡ calculate_hamming_weight (word bitmap 0))
      × (rank bitmap 64 ≡ rank bitmap 32 + calculate_hamming_weight (word bitmap 1))
      × (rank bitmap 96 ≡ rank bitmap 64 + calculate_hamming_weight (word bitmap 2))
      × (rank bitmap 128 ≡ rank bitmap 96 + calculate_hamming_weight (word bitmap 3))
      × (rank bitmap 160 ≡ rank bitmap 128 + calculate_hamming_weight (word bitmap 4))
      × (rank bitmap 192 ≡ rank bitmap 160 + calculate_hamming_weight (word bitmap 5))
      × (rank bitmap 224 ≡ rank bitmap 192 + calculate_hamming_weight (word bitmap 6))
      × (rank bitmap 256 ≡ rank bitmap 224 + calculate_hamming_weight (word bitmap 7))
rank_at_words bitmap = (
  omega (arith, rank_next bitmap 0, rank-zero bitmap),
  rank_next bitmap 1,
  rank_next bitmap 2,
  rank_next bitmap 3,
  rank_next bitmap 4,
  rank_next bitmap 5,
  rank_next bitmap 6,
  rank_next bitmap 7,
)

-- `populationCount` is the number of members below 256.
pub population_count-rank : (bitmap : Bitmap) → population_count bitmap ≡ rank bitmap 256
unfolding population_count
population_count-rank bitmap = omega (arith, rank_at_words bitmap)

preceding_count-rank :
    (bitmap : Bitmap) (q : ℕ)
    → q < 8
    → (q ≡ 1 → rank bitmap 32 ≡ 0)
    → preceding_count bitmap q ≡ rank bitmap (32 * q)
unfolding preceding_count
preceding_count-rank bitmap zero h low = omega (arith, rank-zero bitmap)
preceding_count-rank bitmap (suc zero) h low = omega (arith, low refl)
preceding_count-rank bitmap (suc (suc zero)) h low = omega (arith, rank_at_words bitmap)
preceding_count-rank bitmap (suc (suc (suc zero))) h low = omega (arith, rank_at_words bitmap)
preceding_count-rank bitmap (suc (suc (suc (suc zero)))) h low = omega (arith, rank_at_words bitmap)
preceding_count-rank bitmap (suc (suc (suc (suc (suc zero))))) h low =
    omega (arith, rank_at_words bitmap)
preceding_count-rank bitmap (suc (suc (suc (suc (suc (suc zero)))))) h low =
    omega (arith, rank_at_words bitmap)
preceding_count-rank bitmap (suc (suc (suc (suc (suc (suc (suc zero))))))) h low =
    omega (arith, rank_at_words bitmap)
preceding_count-rank bitmap (suc (suc (suc (suc (suc (suc (suc (suc q)))))))) h low =
    absurd (omega arith)

low_ones :
    (r w : ℕ) → r < 32 → calculate_hamming_weight (bit_and w ((2 ^ r - 1) % 2 ^ 32)) ≡ ones r w
unfolding calculate_hamming_weight
low_ones r w h =
    let fits : 2 ^ r ≤ 2 ^ 32 = pow-le-pow_right (omega arith) {i = r} {j = 32} (omega arith) in
    let mask : (2 ^ r - 1) % 2 ^ 32 ≡ 2 ^ r - 1 = mod-eq_of_lt (omega (arith, one-le-pow r 2)) in
    rw (mask, bit_and-low_mask r w) (ones-mod_pow 32 r w (omega arith))

-- The position that `getPosition` computes is the rank of the index, unless the index lies in the
-- second word and the first word has members.
pub get_position-rank :
    (bitmap : Bitmap) (i : ℕ)
    → i < 256
    → (i / 32 ≡ 1 → rank bitmap 32 ≡ 0)
    → get_position bitmap i ≡ rank bitmap i
unfolding get_position
get_position-rank bitmap i h low =
    let index : i % 32 + 32 * (i / 32) ≡ i = omega arith in
    rw (mask_is_mod, preceding_count-rank bitmap (i / 32) (omega arith) low)
      (omega (
        arith,
        low_ones (i % 32) (word bitmap (i / 32)) (omega arith),
        rank_in_word bitmap (i / 32) (i % 32) (omega arith),
        ap (rank bitmap) index,
      ))

-- For an index in the second word the position omits every member of the first word.
pub get_position_second_word :
    (bitmap : Bitmap) (i : ℕ) → i / 32 ≡ 1 → get_position bitmap i + rank bitmap 32 ≡ rank bitmap i
unfolding get_position
get_position_second_word bitmap i h =
    let index : i % 32 + 32 ≡ i = omega arith in
    let skipped : preceding_count bitmap 1 ≡ 0 = unfold preceding_count in refl in
    rw (mask_is_mod, h)
      (omega (
        arith,
        skipped,
        low_ones (i % 32) (word bitmap 1) (omega arith),
        rank_in_word bitmap 1 (i % 32) (omega arith),
        ap (rank bitmap) index,
      ))
