-- ===== src/Bitmap/Sparse.antt =====
-- The bitmap and the child table together: a finite map from bytes to children.
use mariv.Base.{
  ℕ, suc, ◌<◌, ◌≡◌, ◌≢◌, refl, ◌∙◌, arith, set, length-set, List, map, none, some,
  get_elem?-set_self, get_elem?-set_ne, true, false, if◌then◌else◌, ◌==◌, ==_iff, eq_test_false,
}
use mariv.Base.Outcome.{ok}
use mariv.Bitmap.{Bitmap, get_position, is_bit_set, set_bit, extend_table, shrink_table}
use mariv.Bitmap.Rank.{member, member-le, rank, rank-suc, rank_mono, is_bit_set-member}
use mariv.Bitmap.Table.{insert_at, remove_at, extend_table_lem, shrink_table_lem}
use native.Mathlib.Decide.{ℕ_discrete, dec_lt}
use mariv.Bitmap.Slots.{
  IsIndex, Fits, is_bit_set-clear, member-clear, child_at, rank_of, rank-lt_length, set_position,
  flipped_count, rank-le_length,
}
use mariv.Bitmap.Inserted.{inserted, inserted_child}
use mariv.Bitmap.Removed.{removed, removed_child}

module _ {ℓ} {A : Type ℓ} {bitmap : Bitmap} {table : List A} (fits : Fits bitmap table) (i : ℕ)
    (index : IsIndex i) where
  -- For a bitmap and a table in step, and an index from 32 to 255:
  -- setting the bit of the index while it is absent and extending the table at its position succeeds, keeps the
  -- two in step, and adds exactly that child.
  pub extend_table-child_at :
      (a : A)
      → is_bit_set bitmap i ≡ false
      → (table' : List A) × (extend_table table
            (set_bit bitmap i)
            (get_position (set_bit bitmap i) i)
            a
          ≡ ok (map some table'))
        × Fits (set_bit bitmap i) table'
        × ((j : ℕ)
            → j < 256
            → child_at (set_bit bitmap i) table' j
              ≡ (if i == j then some a else child_at bitmap table j))
  extend_table-child_at a unset =
      let absent : member bitmap i ≡ 0 = member-clear bitmap i unset in
      (
        insert_at table (rank bitmap i) a,
        rw (set_position fits i index) (
            extend_table_lem table (set_bit bitmap i) (rank bitmap i) a
              (omega (arith, (flipped_count fits i index))) (rank-le_length fits i index)),
        inserted fits i index a absent,
        inserted_child fits i index a absent,
      )

  -- For a bitmap and a table in step, and an index from 32 to 255:
  -- clearing the bit of the index while it is present and shrinking the table at its position succeeds, keeps
  -- the two in step, and removes exactly that child.
  pub shrink_table-child_at :
      is_bit_set bitmap i ≡ true
      → (table' : List A) × (shrink_table table (set_bit bitmap i) (get_position bitmap i)
          ≡ ok (map some table'))
        × Fits (set_bit bitmap i) table'
        × ((j : ℕ)
            → j < 256
            → child_at (set_bit bitmap i) table' j
              ≡ (if i == j then none else child_at bitmap table j))
  shrink_table-child_at present =
      let here : member bitmap i ≡ 1 = (is_bit_set-member bitmap i).0 present in
      (
        remove_at table (rank bitmap i),
        rw (rank_of fits i index.1) (
            shrink_table_lem table (set_bit bitmap i) (rank bitmap i)
              (omega (arith, (flipped_count fits i index))) (rank-lt_length fits i index.1 here)),
        removed fits i index here,
        removed_child fits i index here,
      )

  rank_apart :
      (j : ℕ) → i ≢ j → member bitmap i ≡ 1 → member bitmap j ≡ 1 → rank bitmap i ≢ rank bitmap j
  rank_apart j ne hi hj e = elim (dec_lt i j) [
    | yes lt ↦ omega (arith, rank-suc bitmap i, rank_mono bitmap (suc i) j lt)
    | no ge ↦ omega (arith, rank-suc bitmap j, rank_mono bitmap (suc j) i (omega arith))
  ]

  pub Fits-set : (p : ℕ) (a : A) → Fits bitmap (set table p a)
  Fits-set p a = record {
    words = fits.words;
    full = length-set table p a ∙ fits.full;
    low_clear = fits.low_clear;
  }

  -- For a bitmap and a table in step, and a present index from 32 to 255, writing the entry at the
  -- position of the index replaces exactly that child.
  pub set-child_at :
      (a : A)
      → is_bit_set bitmap i ≡ true
      → (j : ℕ) → j < 256
      → child_at bitmap (set table (get_position bitmap i) a) j
        ≡ (if i == j then some a else child_at bitmap table j)
  set-child_at a present j hj = elim (ℕ_discrete i j) [
    | yes same ↦
        rw (← same, (==_iff i i).1 refl, present, rank_of fits i index.1)
          (get_elem?-set_self table (rank bitmap i) a (rank-lt_length fits i index.1 here))
    | no ne ↦ elim (ℕ_discrete (member bitmap j) 1) [
      | yes m ↦
          rw (eq_test_false i j ne, (is_bit_set-member bitmap j).1 m)
            (rw (rank_of fits i index.1, rank_of fits j hj)
              (get_elem?-set_ne table (rank bitmap i) (rank bitmap j) a (rank_apart j ne here m)))
      | no out ↦
          rw (eq_test_false i j ne, is_bit_set-clear bitmap j (omega (arith, member-le bitmap j)))
    ]
  ]
    where
      here : member bitmap i ≡ 1
      here = (is_bit_set-member bitmap i).0 present
