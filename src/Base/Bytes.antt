-- ===== src/Base/Bytes.antt =====
-- Byte slices: `bytes.Equal`, `bytes.Compare`, and the difference between nil and empty.
use Prim.Native.Nat.{ℕ, compare, Ordering}
use mathlib.Core.Path.{◌≡◌, refl}
use mathlib.Core.Logic.{◌≢◌}
use mathlib.Core.Bool.{Bool, true, false, ◌&&◌}
use mathlib.Core.Option.{Option, none, some}
use mathlib.Core.List.{List, [], ◌∷◌}
use native.Mathlib.Omega.{arith}
use mariv.Base.Tests.{◌==◌, ==_iff}

-- A `[]byte`: `none` is nil, which differs from an empty slice only in comparisons with nil.
abbrev pub Slice : Type 0
Slice = Option (List ℕ)

abbrev pub bytes : Slice → List ℕ
bytes none = []
bytes (some l) = l

abbrev pub is_nil : Slice → Bool
is_nil none = true
is_nil (some l) = false

-- `bytes.Equal`
unfoldable pub bytes_equal : List ℕ → List ℕ → Bool
bytes_equal [] [] = true
bytes_equal [] (y ∷ ys) = false
bytes_equal (x ∷ xs) [] = false
bytes_equal (x ∷ xs) (y ∷ ys) = x == y && bytes_equal xs ys

-- `bytes.Compare`: -1, 0 and 1 are `lt`, `eq` and `gt`.
unfoldable pub bytes_compare : List ℕ → List ℕ → Ordering
bytes_compare [] [] = Ordering.eq
bytes_compare [] (y ∷ ys) = Ordering.lt
bytes_compare (x ∷ xs) [] = Ordering.gt
bytes_compare (x ∷ xs) (y ∷ ys) =
    let rest = bytes_compare xs ys in
    elim (compare x y) [
      | Ordering.lt ↦ Ordering.lt
      | Ordering.eq ↦ rest
      | Ordering.gt ↦ Ordering.gt
    ]

pub bytes_equal_refl : (xs : List ℕ) → bytes_equal xs xs ≡ true
unfolding bytes_equal
bytes_equal_refl [] = refl
bytes_equal_refl (x ∷ xs) = rw ((==_iff x x).1 refl) (bytes_equal_refl xs)

pub bytes_equal_sound : (xs ys : List ℕ) → bytes_equal xs ys ≡ true → xs ≡ ys
unfolding bytes_equal
bytes_equal_sound [] [] e = refl
bytes_equal_sound [] (y ∷ ys) e = cc
bytes_equal_sound (x ∷ xs) [] e = cc
bytes_equal_sound (x ∷ xs) (y ∷ ys) e = ground (arith, bytes_equal_sound xs ys)

pub bytes_equal-ne : (xs ys : List ℕ) → xs ≢ ys → bytes_equal xs ys ≡ false
bytes_equal-ne xs ys ne = go (bytes_equal xs ys) refl
  where
    go : (b : Bool) → bytes_equal xs ys ≡ b → bytes_equal xs ys ≡ false
    go true e = absurd (ne (bytes_equal_sound xs ys e))
    go false e = e

pub bytes_equal_comm : (xs ys : List ℕ) → bytes_equal xs ys ≡ bytes_equal ys xs
unfolding bytes_equal
bytes_equal_comm [] [] = refl
bytes_equal_comm [] (y ∷ ys) = refl
bytes_equal_comm (x ∷ xs) [] = refl
bytes_equal_comm (x ∷ xs) (y ∷ ys) = ground (arith, bytes_equal_comm xs ys)
