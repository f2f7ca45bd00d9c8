-- ===== src/Bitmap/Inserted.antt =====
-- A table with an entry put in at the position of a new member.
use mariv.Base.{
  ℕ, suc, ◌<◌, ◌≡◌, ◌≢◌, refl, sym, ◌∙◌, arith, List, some, get_elem?, if◌then◌else◌, ◌==◌, ==_iff,
  eq_test_false,
}
use mariv.Bitmap.{Bitmap, set_bit}
use mariv.Bitmap.Rank.{member, member-le, rank, rank-suc, rank_mono, is_bit_set-member}
use mariv.Bitmap.Flip.{
  length-set_bit, member-set_bit_self, member-set_bit_ne, rank-set_bit_le, rank-set_bit_lt,
}
use mariv.Bitmap.Table.{
  insert_at, length-insert_at, get_elem?-insert_at_self, get_elem?-insert_at_lt,
  get_elem?-insert_at_le,
}
use native.Mathlib.Decide.{ℕ_discrete, dec_lt}
use mariv.Bitmap.Slots.{
  IsIndex, Fits, is_bit_set-clear, child_at, child_at-member, set_bit-low_clear, set_position,
  flipped_count, rank-le_length,
}

module _ {ℓ} {A : Type ℓ} {bitmap : Bitmap} {table : List A} (fits : Fits bitmap table) (i : ℕ)
    (index : IsIndex i) where
  module _ (a : A) (absent : member bitmap i ≡ 0) where
    pub inserted : Fits (set_bit bitmap i) (insert_at table (rank bitmap i) a)
    inserted = record {
      words = length-set_bit bitmap i ∙ fits.words;
      full = omega (arith, length-insert_at table (rank bitmap i) a, (flipped_count fits i index));
      low_clear = (set_bit-low_clear fits i index);
    }

    inserted_other :
        (j : ℕ)
        → j < 256
        → i ≢ j
        → member bitmap j ≡ 1
        → get_elem? (insert_at table (rank bitmap i) a) (rank (set_bit bitmap i) j)
          ≡ get_elem? table (rank bitmap j)
    inserted_other j hj ne m = elim (dec_lt i j) [
      | yes lt ↦
          let next : rank (set_bit bitmap i) j ≡ suc (rank bitmap j) =
            omega (arith, rank-set_bit_lt bitmap i j fits.words index.1 lt) in
          rw next (
            get_elem?-insert_at_le table (rank bitmap i) (rank bitmap j) a
              (rank-le_length fits i index) (rank_mono bitmap i j (omega arith)))
      | no ge ↦ rw (rank-set_bit_le bitmap i j fits.words index.1 (omega arith)) (
          get_elem?-insert_at_lt table (rank bitmap i) (rank bitmap j) a
            (rank-le_length fits i index)
            (omega (arith, rank-suc bitmap j, rank_mono bitmap (suc j) i (omega arith))))
    ]

    pub inserted_child :
        (j : ℕ)
        → j < 256
        → child_at (set_bit bitmap i) (insert_at table (rank bitmap i) a) j
          ≡ (if i == j then some a else child_at bitmap table j)
    inserted_child j hj = elim (ℕ_discrete i j) [
      | yes same ↦
          rw
            (
              ← same,
              (==_iff i i).1 refl,
              (is_bit_set-member (set_bit bitmap i) i).1 now,
              (set_position fits i index),
            )
            (get_elem?-insert_at_self table (rank bitmap i) a (rank-le_length fits i index))
      | no ne ↦ elim (ℕ_discrete (member bitmap j) 1) [
        | yes m ↦
            child_at-member inserted j hj (kept ne ∙ m)
            ∙ inserted_other j hj ne m
            ∙ sym (child_at-member fits j hj m)
            ∙ rw (eq_test_false i j ne)
        | no out ↦
            let gone : member bitmap j ≡ 0 = omega (arith, member-le bitmap j) in
            rw (
              eq_test_false i j ne,
              is_bit_set-clear (set_bit bitmap i) j (kept ne ∙ gone),
              is_bit_set-clear bitmap j gone,
            )
      ]
    ]
      where
        now : member (set_bit bitmap i) i ≡ 1
        now = omega (arith, member-set_bit_self bitmap i fits.words index.1)

        kept : i ≢ j → member (set_bit bitmap i) j ≡ member bitmap j
        kept ne = member-set_bit_ne bitmap i j fits.words index.1 ne
