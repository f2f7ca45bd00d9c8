-- ===== src/Bitmap/Tests.antt =====
-- The results on bitmaps and child tables at a table with one child, that of index 97.
use mariv.Base.{
  ℕ, ◌+◌, ◌<◌, ◌≡◌, refl, arith, none, some, true, false, List, [], ◌∷◌, map, set, if◌then◌else◌,
  ◌==◌,
}
use mariv.Base.Outcome.{ok}
use mariv.Base.Bits.{ones, bit_at}
use mariv.Bitmap.{
  Bitmap, calculate_hamming_weight, population_count, get_position, is_bit_set, set_bit,
  extend_table, shrink_table,
}
use mariv.Bitmap.Rank.{
  member, rank, population_count-rank, is_bit_set-member, get_position-rank,
  get_position_second_word,
}
use mariv.Bitmap.Slots.{Fits, child_at}
use mariv.Bitmap.Sparse.{extend_table-child_at, shrink_table-child_at, set-child_at}

abbrev one_member : Bitmap
one_member = 0 ∷ 0 ∷ 0 ∷ 2 ∷ 0 ∷ 0 ∷ 0 ∷ 0 ∷ []

abbrev two_words : Bitmap
two_words = 32 ∷ 65536 ∷ 0 ∷ 0 ∷ 0 ∷ 0 ∷ 0 ∷ 0 ∷ []

abbrev one_child : List ℕ
one_child = 5 ∷ []

one_child-Fits : Fits one_member one_child
unfolding population_count calculate_hamming_weight ones bit_at rank member
one_child-Fits = record { words = refl; full = refl; low_clear = refl }

present : is_bit_set one_member 97 ≡ true
unfolding is_bit_set
present = refl

absent : is_bit_set one_member 48 ≡ false
unfolding is_bit_set
absent = refl

extend_table-child_at_example :
    (table : List ℕ) × (extend_table one_child
        (set_bit one_member 48)
        (get_position (set_bit one_member 48) 48)
        9
      ≡ ok (map some table))
    × Fits (set_bit one_member 48) table
    × ((j : ℕ)
        → j < 256
        → child_at (set_bit one_member 48) table j
          ≡ (if 48 == j then some 9 else child_at one_member one_child j))
extend_table-child_at_example =
    extend_table-child_at one_child-Fits 48 (omega arith, omega arith) 9 absent

shrink_table-child_at_example :
    (table : List ℕ) × (shrink_table one_child (set_bit one_member 97) (get_position one_member 97)
      ≡ ok (map some table))
    × Fits (set_bit one_member 97) table
    × ((j : ℕ)
        → j < 256
        → child_at (set_bit one_member 97) table j
          ≡ (if 97 == j then none else child_at one_member one_child j))
shrink_table-child_at_example =
    shrink_table-child_at one_child-Fits 97 (omega arith, omega arith) present

set-child_at_example :
    child_at one_member (set one_child (get_position one_member 97) 9) 97
    ≡ (if 97 == 97 then some 9 else child_at one_member one_child 97)
set-child_at_example =
    set-child_at one_child-Fits 97 (omega arith, omega arith) 9 present 97 (omega arith)

get_position-rank_example : get_position one_member 97 ≡ rank one_member 97
get_position-rank_example =
    get_position-rank one_member 97 (omega arith) (λ e. absurd (omega arith))

get_position_second_word_example : get_position two_words 48 + rank two_words 32 ≡ rank two_words 48
get_position_second_word_example = get_position_second_word two_words 48 (omega arith)

population_count-rank_example : population_count two_words ≡ rank two_words 256
population_count-rank_example = population_count-rank two_words

is_bit_set-member_example :
    (is_bit_set two_words 48 ≡ true → member two_words 48 ≡ 1)
    × (member two_words 48 ≡ 1 → is_bit_set two_words 48 ≡ true)
is_bit_set-member_example = is_bit_set-member two_words 48
