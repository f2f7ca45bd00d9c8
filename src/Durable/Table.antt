-- ===== src/Durable/Table.antt =====
-- The child table that grows by one: all its entries are old ones or the new one, and there are as
-- many as the bitmap has members.
use mariv.Base.{
  ℕ, zero, suc, ◌+◌, ◌/◌, ◌%◌, ◌^◌, ◌<◌, ◌≡◌, refl, ap, sym, ◌∙◌, arith, List, [], ◌∷◌, map, length,
  length-replicate, length-set, All, set, take, drop, replicate, copy_at, Option, none, some,
  bit_and,
}
use mariv.Base.Bits.{bit_xor-lt_pow}
use mariv.Base.Outcome.{ok}
use mariv.Base.Gives.{Gives, with_ok, with_panic, Gives-then, Gives-bind}
use mariv.Bitmap.{Bitmap, word, population_count, set_bit, extend_table}
use mariv.Bitmap.Rank.{mask_is_mod}
use mariv.Bitmap.Flip.{length-set_bit}
use mariv.Node.{Child, total_children}
use mariv.Trie.{without_nil}
use mariv.Durable.Tidy.{SizedMap}
use native.Mathlib.Nat.{pow-le-pow_right}

length-copied :
    {A : Type 0} (os : List A) (i : ℕ) (xs : List A) → length (copy_at os i xs) ≡ length os
length-copied [] i xs = refl
length-copied (x ∷ os) (suc i) xs = ap suc (length-copied os i xs)
length-copied (x ∷ os) zero [] = refl
length-copied (x ∷ os) zero (y ∷ xs) = ap suc (length-copied os zero xs)

module _ {A : Type 0} (P : A → Type 0) where
  -- Every entry that is there
  abbrev pub Every : List (Option A) → Type 0
  Every [] = Unit {0}
  Every (none ∷ os) = Every os
  Every (some a ∷ os) = P a × Every os

  replicate-Every : (n : ℕ) → Every (replicate n none)
  replicate-Every zero = tt
  replicate-Every (suc n) = replicate-Every n

  set-Every : (os : List (Option A)) (i : ℕ) (a : A) → Every os → P a → Every (set os i (some a))
  set-Every [] i a h p = tt
  set-Every (none ∷ os) zero a h p = (p, h)
  set-Every (none ∷ os) (suc i) a h p = set-Every os i a h p
  set-Every (some b ∷ os) zero a h p = (p, h.1)
  set-Every (some b ∷ os) (suc i) a h p = (h.0, set-Every os i a h.1 p)

  copy_at-Every :
      (os : List (Option A)) (i : ℕ) (xs : List A)
      → Every os
      → All P xs
      → Every (copy_at os i (map some xs))
  copy_at-Every [] i xs h k = tt
  copy_at-Every (none ∷ os) (suc i) xs h k = copy_at-Every os i xs h k
  copy_at-Every (some a ∷ os) (suc i) xs h k = (h.0, copy_at-Every os i xs h.1 k)
  copy_at-Every (none ∷ os) zero [] h k = h
  copy_at-Every (some a ∷ os) zero [] h k = h
  copy_at-Every (none ∷ os) zero (x ∷ xs) h k = (k.0, copy_at-Every os zero xs h k.1)
  copy_at-Every (some a ∷ os) zero (x ∷ xs) h k = (k.0, copy_at-Every os zero xs h.1 k.1)

  take-All : (n : ℕ) (xs : List A) → All P xs → All P (take n xs)
  take-All zero xs h = tt
  take-All (suc n) [] h = tt
  take-All (suc n) (x ∷ xs) h = (h.0, take-All n xs h.1)

  drop-All : (n : ℕ) (xs : List A) → All P xs → All P (drop n xs)
  drop-All zero xs h = h
  drop-All (suc n) [] h = tt
  drop-All (suc n) (x ∷ xs) h = drop-All n xs h.1

  pub extend_table-Every :
      (orig : List A) (bitmap : Bitmap) (pos : ℕ) (new_node : A)
      → All P orig
      → P new_node
      → Gives
          (λ table. Every table × (length table ≡ population_count bitmap))
          (extend_table orig bitmap pos new_node)
  unfolding extend_table
  extend_table-Every orig bitmap pos new_node h p =
      let n = population_count bitmap in
      let front = copy_at (replicate n none) 0 (map some (take pos orig)) in
      let placed = set front pos (some new_node) in
      let front_ok =
        copy_at-Every (replicate n none) 0 (take pos orig) (replicate-Every n)
          (take-All pos orig h) in
      let placed_ok = set-Every front pos new_node front_ok p in
      Gives-then _ _ _ (
        Gives-then _ _ _ (
          with_ok _ (
            copy_at-Every placed (pos + 1) (drop pos orig) placed_ok (drop-All pos orig h),
            length-copied placed (pos + 1) (map some (drop pos orig))
                ∙ length-set front pos (some new_node)
                ∙ length-copied (replicate n none) 0 (map some (take pos orig))
                ∙ length-replicate n none,
          )))

pub without_nil-All :
    (P : Child → Type 0) (os : List (Option Child))
    → Every P os
    → Gives (λ cs. All P cs × (length cs ≡ length os)) (without_nil os)
without_nil-All P [] h = with_ok [] (tt, refl)
without_nil-All P (none ∷ os) h = with_panic
without_nil-All P (some c ∷ os) h =
    Gives-bind (λ cs. All P cs × (length cs ≡ length os)) _ (without_nil os) (λ rest. ok (c ∷ rest))
      (without_nil-All P os h.1) (λ rest k. with_ok (c ∷ rest) ((h.0, k.0), ap suc k.1))

-- The count of the children by the bitmap's words, in either order
total-population :
    (bitmap : Bitmap) → length bitmap ≡ 8 → total_children bitmap ≡ population_count bitmap
unfolding population_count
total-population (a ∷ b ∷ c ∷ d ∷ f ∷ g ∷ h ∷ i ∷ []) e = omega arith
total-population _ e = absurd (omega arith)

All-set_word :
    (ws : Bitmap) (i w n : ℕ) → All (λ x. x < n) ws → w < n → All (λ x. x < n) (set ws i w)
All-set_word [] i w n h k = tt
All-set_word (x ∷ ws) zero w n h k = (k, h.1)
All-set_word (x ∷ ws) (suc i) w n h k = (h.0, All-set_word ws i w n h.1 k)

word-lt : (ws : Bitmap) (i n : ℕ) → 0 < n → All (λ x. x < n) ws → word ws i < n
word-lt [] i n pos h = pos
word-lt (x ∷ ws) zero n pos h = h.0
word-lt (x ∷ ws) (suc i) n pos h = word-lt ws i n pos h.1

one_bit : (index : ℕ) → 2 ^ bit_and index 0x1F < 2 ^ 32
one_bit index =
    let e : bit_and index 0x1F ≡ index % 32 = mask_is_mod index in
    let small =
      pow-le-pow_right {n = 2} (omega arith) {i = bit_and index 0x1F} {j = 31} (omega (arith, e)) in
    omega (arith, small)

-- A bitmap with a bit set, and a table of as many entries as it has members
pub set_bit-SizedMap :
    (bitmap : Bitmap) (children index n : ℕ)
    → SizedMap bitmap children
    → n ≡ population_count (set_bit bitmap index)
    → SizedMap (set_bit bitmap index) n
unfolding set_bit
set_bit-SizedMap bitmap children index n h e = record {
  words = length-set_bit bitmap index ∙ h.words;
  word_sizes = All-set_word bitmap _ _ _ h.word_sizes (
      bit_xor-lt_pow 32 (word bitmap (index / 2 ^ 5)) (2 ^ bit_and index 0x1F)
        (word-lt bitmap (index / 2 ^ 5) (2 ^ 32) (omega arith) h.word_sizes) (one_bit index));
  full = e ∙ sym (total-population (set_bit bitmap index) (length-set_bit bitmap index ∙ h.words));
}
