-- ===== src/Bitmap/Removed.antt =====
-- A table with the entry of a member taken out.
use mariv.Base.{
  ℕ, suc, ◌<◌, ◌≡◌, ◌≢◌, refl, sym, ◌∙◌, arith, List, none, get_elem?, if◌then◌else◌, ◌==◌, ==_iff,
  eq_test_false,
}
use mariv.Bitmap.{Bitmap, set_bit}
use mariv.Bitmap.Rank.{member, member-le, rank, rank-suc, rank_mono}
use mariv.Bitmap.Flip.{
  length-set_bit, member-set_bit_self, member-set_bit_ne, rank-set_bit_le, rank-set_bit_lt,
}
use mariv.Bitmap.Table.{remove_at, length-remove_at, get_elem?-remove_at_lt, get_elem?-remove_at_le}
use native.Mathlib.Decide.{ℕ_discrete, dec_lt}
use mariv.Bitmap.Slots.{
  IsIndex, Fits, is_bit_set-clear, child_at, rank-lt_length, child_at-member, set_bit-low_clear,
  flipped_count,
}

module _ {ℓ} {A : Type ℓ} {bitmap : Bitmap} {table : List A} (fits : Fits bitmap table) (i : ℕ)
    (index : IsIndex i) where
  module _ (here : member bitmap i ≡ 1) where
    pub removed : Fits (set_bit bitmap i) (remove_at table (rank bitmap i))
    removed = record {
      words = length-set_bit bitmap i ∙ fits.words;
      full = omega (
        arith,
        length-remove_at table (rank bitmap i) (rank-lt_length fits i index.1 here),
        (flipped_count fits i index),
      );
      low_clear = (set_bit-low_clear fits i index);
    }

    removed_other :
        (j : ℕ)
        → j < 256
        → i ≢ j
        → member bitmap j ≡ 1
        → get_elem? (remove_at table (rank bitmap i)) (rank (set_bit bitmap i) j)
          ≡ get_elem? table (rank bitmap j)
    removed_other j hj ne m = elim (dec_lt i j) [
      | yes lt ↦
          let next : rank bitmap j ≡ suc (rank (set_bit bitmap i) j) =
            omega (arith, rank-set_bit_lt bitmap i j fits.words index.1 lt) in
          rw next (
            get_elem?-remove_at_le table (rank bitmap i) (rank (set_bit bitmap i) j)
              (omega (arith, rank-suc bitmap i, rank_mono bitmap (suc i) j lt)))
      | no ge ↦ rw (rank-set_bit_le bitmap i j fits.words index.1 (omega arith)) (
          get_elem?-remove_at_lt table (rank bitmap i) (rank bitmap j)
            (omega (arith, rank-suc bitmap j, rank_mono bitmap (suc j) i (omega arith))))
    ]

    pub removed_child :
        (j : ℕ)
        → j < 256
        → child_at (set_bit bitmap i) (remove_at table (rank bitmap i)) j
          ≡ (if i == j then none else child_at bitmap table j)
    removed_child j hj = elim (ℕ_discrete i j) [
      | yes same ↦ rw (← same, (==_iff i i).1 refl, is_bit_set-clear (set_bit bitmap i) i now)
      | no ne ↦ elim (ℕ_discrete (member bitmap j) 1) [
        | yes m ↦
            child_at-member removed j hj (kept ne ∙ m)
            ∙ removed_other j hj ne m
            ∙ sym (child_at-member fits j hj m)
            ∙ rw (eq_test_false i j ne)
        | no out ↦
            let gone : member bitmap j ≡ 0 = omega (arith, member-le bitmap j) in
            rw (
              eq_test_false i j ne,
              is_bit_set-clear (set_bit bitmap i) j (kept ne ∙ gone),
              is_bit_set-clear bitmap j gone,
            )
      ]
    ]
      where
        now : member (set_bit bitmap i) i ≡ 0
        now = omega (arith, member-set_bit_self bitmap i fits.words index.1)

        kept : i ≢ j → member (set_bit bitmap i) j ≡ member bitmap j
        kept ne = member-set_bit_ne bitmap i j fits.words index.1 ne
