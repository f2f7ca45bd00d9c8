-- ===== src/Base/Bits.antt =====
-- Binary digits: reading, flipping and counting single bits of a word, at every position.
use Prim.Native.Nat.{
  ℕ, zero, suc, ◌+◌, ◌-◌, ◌*◌, ◌/◌, ◌%◌, ◌^◌, ◌≤◌, ◌<◌, min, bit_and, bit_xor, digits, bitwise,
  differ, bit_and-bitwise, bit_xor-bitwise,
}
use mathlib.Core.Path.{◌≡◌, refl, ap}
use mathlib.Core.Logic.{◌≢◌}
use native.Mathlib.Omega.{arith}
use native.Mathlib.Nat.{pow-suc, one-le-pow}

-- Bit `k` of `w`, as 0 or 1.
unfoldable pub bit_at : ℕ → ℕ → ℕ
bit_at zero w = w % 2
bit_at (suc k) w = bit_at k (w / 2)

-- The number of ones among the `k` lowest bits of `w`.
unfoldable pub ones : ℕ → ℕ → ℕ
ones zero w = 0
ones (suc k) w = w % 2 + ones k (w / 2)

pub bit_at-le : (k w : ℕ) → bit_at k w ≤ 1
unfolding bit_at ones
bit_at-le zero w = omega arith
bit_at-le (suc k) w = bit_at-le k (w / 2)

pub ones-suc : (k w : ℕ) → ones (suc k) w ≡ ones k w + bit_at k w
unfolding bit_at ones
ones-suc zero w = omega arith
ones-suc (suc k) w = omega (arith, ones-suc k (w / 2))

pub bit_at-zero : (k : ℕ) → bit_at k 0 ≡ 0
unfolding bit_at
bit_at-zero zero = refl
bit_at-zero (suc k) = bit_at-zero k

-- The ones of a remainder by a power of two are the low ones of the word.
pub ones-zero : (k : ℕ) → ones k 0 ≡ 0
unfolding bit_at ones
ones-zero zero = refl
ones-zero (suc k) = omega (arith, ones-zero k)

mod_pow_suc : (k w : ℕ) → w % 2 ^ suc k ≡ (w / 2) % 2 ^ k * 2 + w % 2
mod_pow_suc k w = rw pow-suc (grind (arith, one-le-pow k 2))

pub ones-mod_pow : (n k w : ℕ) → k ≤ n → ones n (w % 2 ^ k) ≡ ones k w
unfolding bit_at ones
ones-mod_pow n zero w h = omega (arith, ap (ones n) mod_one, ones-zero n)
  where
    mod_one : w % 2 ^ 0 ≡ 0
    mod_one = omega arith
ones-mod_pow zero (suc k) w h = absurd (omega arith)
ones-mod_pow (suc n) (suc k) w h =
    let half : (w % 2 ^ suc k) / 2 ≡ (w / 2) % 2 ^ k = omega (arith, mod_pow_suc k w) in
    rw half (omega (arith, mod_pow_suc k w, ones-mod_pow n k (w / 2) (omega arith)))

module _ (base : ℕ → ℕ) (digit : ℕ → ℕ → ℕ) where
  -- Any fuel that reaches the first number gives the same digits.
  same_digits :
      (y x p : ℕ) → x ≤ p → (q : ℕ) → x ≤ q → digits base digit p x y ≡ digits base digit q x y
  same_digits y (suc x) (suc p) h (suc q) i =
      let half = same_digits (y / 2) (suc x / 2) p (omega arith) q (omega arith) in
      omega (arith, half)
  same_digits y (suc x) zero h q i = absurd (omega arith)
  same_digits y (suc x) (suc p) h zero i = absurd (omega arith)
  same_digits y zero (suc p) h (suc q) i = refl
  same_digits y zero (suc p) h zero i = refl
  same_digits y zero zero h (suc q) i = refl
  same_digits y zero zero h zero i = refl

  lowest_digit :
      (x y : ℕ)
      → digit (suc x % 2) (y % 2) + 2 * bitwise base digit (suc x / 2) (y / 2)
        ≡ bitwise base digit (suc x) y
  lowest_digit x y =
      let half = suc x / 2 in
      omega (arith, same_digits (y / 2) half half (omega arith) x (omega arith))

-- The digit of the result at the end, and the rest of it.
bit_and_step : (x y : ℕ) → min (x % 2) (y % 2) + 2 * bit_and (x / 2) (y / 2) ≡ bit_and x y
bit_and_step (suc x) y = simp bit_and-bitwise (lowest_digit (λ t. 0) min x y)
bit_and_step zero y = simp bit_and-bitwise (omega arith)

bit_xor_step : (x y : ℕ) → differ (x % 2) (y % 2) + 2 * bit_xor (x / 2) (y / 2) ≡ bit_xor x y
bit_xor_step (suc x) y = simp bit_xor-bitwise (lowest_digit (λ t. t) differ x y)
bit_xor_step zero y = simp bit_xor-bitwise (omega arith)

differ-zero : (x : ℕ) → differ x 0 ≡ x
differ-zero zero = refl
differ-zero (suc x) = refl

differ-one : (x : ℕ) → x ≤ 1 → differ x 1 ≡ 1 - x
differ-one zero h = refl
differ-one (suc zero) h = refl
differ-one (suc (suc x)) h = absurd (omega arith)

zero_right : (n a : ℕ) → a ≤ n → (bit_and a 0 ≡ 0) × (bit_xor a 0 ≡ a)
zero_right n zero h = (refl, refl)
zero_right zero (suc a) h = absurd (omega arith)
zero_right (suc n) (suc a) h = omega (
  arith,
  bit_and_step (suc a) 0,
  bit_xor_step (suc a) 0,
  differ-zero (suc a % 2),
  zero_right n (suc a / 2) (omega arith),
)

-- `w & (2^k - 1)` keeps the `k` lowest bits.
pub bit_and-low_mask : (k w : ℕ) → bit_and w (2 ^ k - 1) ≡ w % 2 ^ k
bit_and-low_mask zero w = omega (arith, zero_right w w (omega arith))
bit_and-low_mask (suc k) w =
    let half : (2 ^ suc k - 1) / 2 ≡ 2 ^ k - 1 = omega (arith, pow-suc 2 k, one-le-pow k 2) in
    omega (
      arith,
      bit_and_step w (2 ^ suc k - 1),
      ap (bit_and (w / 2)) half,
      bit_and-low_mask k (w / 2),
      mod_pow_suc k w,
      pow-suc 2 k,
      one-le-pow k 2,
    )

-- `w & (1 << k)` is the bit at `k`, at its place.
pub bit_and-pow : (k w : ℕ) → bit_and w (2 ^ k) ≡ bit_at k w * 2 ^ k
unfolding bit_at ones
bit_and-pow zero w = omega (arith, bit_and_step w 1, zero_right (w / 2) (w / 2) (omega arith))
bit_and-pow (suc k) w =
    let half : 2 ^ suc k / 2 ≡ 2 ^ k = omega (arith, pow-suc 2 k) in
    omega (
      arith,
      bit_and_step w (2 ^ suc k),
      ap (bit_and (w / 2)) half,
      bit_and-pow k (w / 2),
      pow-suc 2 k,
      ap (λ (t : ℕ). bit_at k (w / 2) * t) (pow-suc 2 k),
    )

xor_pow_suc :
    (k w : ℕ)
    → (bit_xor w (2 ^ suc k) / 2 ≡ bit_xor (w / 2) (2 ^ k)) × (bit_xor w (2 ^ suc k) % 2 ≡ w % 2)
xor_pow_suc k w =
    let half : 2 ^ suc k / 2 ≡ 2 ^ k = omega (arith, pow-suc 2 k) in
    let low : 2 ^ suc k % 2 ≡ 0 = omega (arith, pow-suc 2 k) in
    let digit : differ (w % 2) (2 ^ suc k % 2) ≡ w % 2 = rw low (differ-zero (w % 2)) in
    omega (arith, bit_xor_step w (2 ^ suc k), ap (bit_xor (w / 2)) half, digit)

xor_one : (w : ℕ) → (bit_xor w 1 / 2 ≡ w / 2) × (bit_xor w 1 % 2 ≡ 1 - w % 2)
xor_one w = omega (
  arith,
  bit_xor_step w 1,
  zero_right (w / 2) (w / 2) (omega arith),
  differ-one (w % 2) (omega arith),
)

-- `w ^ (1 << k)` flips the bit at `k` and leaves the others.
pub bit_at-bit_xor_self : (k w : ℕ) → bit_at k (bit_xor w (2 ^ k)) ≡ 1 - bit_at k w
unfolding bit_at ones
bit_at-bit_xor_self zero w = (xor_one w).1
bit_at-bit_xor_self (suc k) w = rw (xor_pow_suc k w).0 (bit_at-bit_xor_self k (w / 2))

pub bit_at-bit_xor_ne : (k j w : ℕ) → k ≢ j → bit_at j (bit_xor w (2 ^ k)) ≡ bit_at j w
unfolding bit_at ones
bit_at-bit_xor_ne zero zero w ne = absurd (ne refl)
bit_at-bit_xor_ne zero (suc j) w ne = rw (xor_one w).0
bit_at-bit_xor_ne (suc k) zero w ne = (xor_pow_suc k w).1
bit_at-bit_xor_ne (suc k) (suc j) w ne =
    rw (xor_pow_suc k w).0 (bit_at-bit_xor_ne k j (w / 2) (λ e. ne (ap suc e)))

differ-le : (x y : ℕ) → x ≤ 1 → y ≤ 1 → differ x y ≤ 1
differ-le zero y h k = k
differ-le (suc zero) zero h k = omega arith
differ-le (suc zero) (suc zero) h k = omega arith
differ-le (suc zero) (suc (suc y)) h k = absurd (omega arith)
differ-le (suc (suc x)) y h k = absurd (omega arith)

-- The exclusive or of words of `n` bits is one.
pub bit_xor-lt_pow : (n x y : ℕ) → x < 2 ^ n → y < 2 ^ n → bit_xor x y < 2 ^ n
bit_xor-lt_pow zero x y h k =
    let e : x ≡ 0 = omega arith in let d : y ≡ 0 = omega arith in rw (e, d) (omega arith)
bit_xor-lt_pow (suc n) x y h k = omega (
  arith,
  bit_xor_step x y,
  differ-le (x % 2) (y % 2) (omega arith) (omega arith),
  pow-suc 2 n,
  bit_xor-lt_pow n (x / 2) (y / 2) (omega (arith, pow-suc 2 n)) (omega (arith, pow-suc 2 n)),
)
