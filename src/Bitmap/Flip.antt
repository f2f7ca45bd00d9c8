-- ===== src/Bitmap/Flip.antt =====
-- What `setBit` does to membership and to ranks: it flips one index.
use mariv.Base.{
  ℕ, zero, suc, ◌+◌, ◌-◌, ◌/◌, ◌%◌, ◌≤◌, ◌<◌, ◌≡◌, ◌≢◌, refl, ap, arith, length, set, length-set,
  [], ◌∷◌,
}
use mariv.Base.Bits.{bit_at-bit_xor_self, bit_at-bit_xor_ne}
use mariv.Bitmap.{Bitmap, word, set_bit}
use mariv.Bitmap.Rank.{member, rank, rank-suc, mask_is_mod, rank-zero}
use native.Mathlib.Decide.{ℕ_discrete}

word-set_self : (bitmap : Bitmap) (q v : ℕ) → q < length bitmap → word (set bitmap q v) q ≡ v
word-set_self [] q v h = elim h [ ]
word-set_self (w ∷ ws) zero v h = refl
word-set_self (w ∷ ws) (suc q) v h = word-set_self ws q v (omega arith)

word-set_ne : (bitmap : Bitmap) (q j v : ℕ) → q ≢ j → word (set bitmap q v) j ≡ word bitmap j
word-set_ne [] q j v ne = refl
word-set_ne (w ∷ ws) zero zero v ne = absurd (ne refl)
word-set_ne (w ∷ ws) zero (suc j) v ne = refl
word-set_ne (w ∷ ws) (suc q) zero v ne = refl
word-set_ne (w ∷ ws) (suc q) (suc j) v ne = word-set_ne ws q j v (λ e. ne (ap suc e))

pub length-set_bit : (bitmap : Bitmap) (i : ℕ) → length (set_bit bitmap i) ≡ length bitmap
unfolding set_bit
length-set_bit bitmap i = length-set bitmap _ _

-- The index is flipped.
pub member-set_bit_self :
    (bitmap : Bitmap) (i : ℕ)
    → length bitmap ≡ 8
    → i < 256
    → member (set_bit bitmap i) i ≡ 1 - member bitmap i
unfolding member set_bit
member-set_bit_self bitmap i len h =
    rw (word-set_self bitmap (i / 32) _ (omega arith), mask_is_mod)
      (bit_at-bit_xor_self (i % 32) (word bitmap (i / 32)))

-- Every other index keeps its membership.
pub member-set_bit_ne :
    (bitmap : Bitmap) (i j : ℕ)
    → length bitmap ≡ 8
    → i < 256
    → i ≢ j
    → member (set_bit bitmap i) j ≡ member bitmap j
unfolding member set_bit
member-set_bit_ne bitmap i j len h ne = elim (ℕ_discrete (i / 32) (j / 32)) [
  | no apart ↦ rw (word-set_ne bitmap (i / 32) (j / 32) _ apart)
  | yes same ↦
      rw (← same, word-set_self bitmap (i / 32) _ (omega arith), mask_is_mod)
        (bit_at-bit_xor_ne (i % 32) (j % 32) (word bitmap (i / 32)) (λ e. ne (omega arith)))
]

-- Ranks up to the index stay; ranks beyond it move by one.
pub rank-set_bit_le :
    (bitmap : Bitmap) (i j : ℕ)
    → length bitmap ≡ 8
    → i < 256
    → j ≤ i
    → rank (set_bit bitmap i) j ≡ rank bitmap j
rank-set_bit_le bitmap i zero len h le =
    omega (arith, rank-zero bitmap, rank-zero (set_bit bitmap i))
rank-set_bit_le bitmap i (suc j) len h le = omega (
  arith,
  rank-suc bitmap j,
  rank-suc (set_bit bitmap i) j,
  member-set_bit_ne bitmap i j len h (omega arith),
  rank-set_bit_le bitmap i j len h (omega arith),
)

pub rank-set_bit_lt :
    (bitmap : Bitmap) (i j : ℕ)
    → length bitmap ≡ 8
    → i < 256
    → i < j
    → rank (set_bit bitmap i) j + member bitmap i ≡ rank bitmap j + (1 - member bitmap i)
rank-set_bit_lt bitmap i zero len h lt = absurd (omega arith)
rank-set_bit_lt bitmap i (suc j) len h lt = elim (ℕ_discrete i j) [
  | yes same ↦ omega (
    arith,
    rank-suc bitmap j,
    rank-suc (set_bit bitmap i) j,
    member-set_bit_self bitmap i len h,
    ap (member bitmap) same,
    ap (member (set_bit bitmap i)) same,
    rank-set_bit_le bitmap i j len h (omega arith),
  )
  | no apart ↦ omega (
    arith,
    rank-suc bitmap j,
    rank-suc (set_bit bitmap i) j,
    member-set_bit_ne bitmap i j len h apart,
    rank-set_bit_lt bitmap i j len h (omega arith),
  )
]
