-- ===== src/Bitmap/Table.antt =====
-- The bitmap and the child table together: a finite map from bytes to children.
use mariv.Base.{
  ℕ, zero, suc, ◌+◌, ◌≤◌, ◌<◌, ◌≡◌, refl, ap, arith, length, set, List, [], ◌∷◌, map, Option, none,
  some, take, drop, replicate, copy_at, get_elem?, le→leb, lt→ltb,
}
use native.Mathlib.Numerals.{add-one}
use mariv.Base.Outcome.{ok}
use mariv.Bitmap.{Bitmap, extend_table, shrink_table, population_count}

module _ {ℓ} {A : Type ℓ} where
  -- The table with an entry put in, or taken out, at a position.
  abbrev pub insert_at : List A → ℕ → A → List A
  insert_at xs zero a = a ∷ xs
  insert_at [] (suc n) a = a ∷ []
  insert_at (x ∷ xs) (suc n) a = x ∷ insert_at xs n a

  abbrev pub remove_at : List A → ℕ → List A
  remove_at [] n = []
  remove_at (x ∷ xs) zero = xs
  remove_at (x ∷ xs) (suc n) = x ∷ remove_at xs n

module _ {ℓ} {A : Type ℓ} where
  copy_at-nil : (dst : List (Option A)) → copy_at dst 0 [] ≡ dst
  copy_at-nil [] = refl
  copy_at-nil (x ∷ dst) = refl

  copy_at_all :
      (xs : List A) (n : ℕ)
      → length xs ≡ n
      → copy_at (replicate n none) 0 (map some xs) ≡ map some xs
  copy_at_all [] zero h = refl
  copy_at_all [] (suc n) h = absurd (omega arith)
  copy_at_all (x ∷ xs) zero h = absurd (omega arith)
  copy_at_all (x ∷ xs) (suc n) h = rw (copy_at_all xs n (omega arith))

  fill_table :
      (xs : List A) (n p : ℕ) (a : A)
      → length xs + 1 ≡ n
      → p < n
      → copy_at
          (set (copy_at (replicate n none) 0 (map some (take p xs))) p (some a))
          (suc p)
          (map some (drop p xs))
        ≡ map some (insert_at xs p a)
  fill_table xs zero p a h lt = absurd (omega arith)
  fill_table xs (suc n) zero a h lt = ap (λ t. some a ∷ t) (copy_at_all xs n (omega arith))
  fill_table [] (suc n) (suc p) a h lt = absurd (omega arith)
  fill_table (x ∷ xs) (suc n) (suc p) a h lt = rw (fill_table xs n p a (omega arith) (omega arith))

  -- With room for one entry more, `extendTable` inserts at the position.
  pub extend_table_lem :
      (xs : List A) (bitmap : Bitmap) (p : ℕ) (a : A)
      → length xs + 1 ≡ population_count bitmap
      → p ≤ length xs
      → extend_table xs bitmap p a ≡ ok (map some (insert_at xs p a))
  unfolding extend_table
  extend_table_lem xs bitmap p a h le =
      rw
        (
          le→leb p (population_count bitmap) (omega arith),
          le→leb p (length xs) le,
          lt→ltb p (population_count bitmap) (omega arith),
          add-one,
        )
        (ap ok (fill_table xs (population_count bitmap) p a h (omega arith)))

  drop_table :
      (xs : List A) (n p : ℕ)
      → length xs ≡ n + 1
      → p < n + 1
      → copy_at (copy_at (replicate n none) 0 (map some (take p xs))) p (map some (drop (suc p) xs))
        ≡ map some (remove_at xs p)
  drop_table [] n p h lt = absurd (omega arith)
  drop_table (x ∷ xs) n zero h lt = rw copy_at-nil (copy_at_all xs n (omega arith))
  drop_table (x ∷ xs) zero (suc p) h lt = absurd (omega arith)
  drop_table (x ∷ xs) (suc n) (suc p) h lt = rw (drop_table xs n p (omega arith) (omega arith))

  -- With room for one entry less, `shrinkTable` removes the entry at the position.
  pub shrink_table_lem :
      (xs : List A) (bitmap : Bitmap) (p : ℕ)
      → length xs ≡ population_count bitmap + 1
      → p < length xs
      → shrink_table xs bitmap p ≡ ok (map some (remove_at xs p))
  unfolding shrink_table
  shrink_table_lem xs bitmap p h lt =
      rw
        (
          le→leb p (population_count bitmap) (omega arith),
          le→leb (p + 1) (length xs) (omega arith),
          add-one,
        )
        (ap ok (drop_table xs (population_count bitmap) p h (omega arith)))

module _ {ℓ} {A : Type ℓ} where
  pub length-insert_at : (xs : List A) (p : ℕ) (a : A) → length (insert_at xs p a) ≡ length xs + 1
  length-insert_at xs zero a = omega arith
  length-insert_at [] (suc p) a = omega arith
  length-insert_at (x ∷ xs) (suc p) a = omega (arith, length-insert_at xs p a)

  pub length-remove_at :
      (xs : List A) (p : ℕ) → p < length xs → length (remove_at xs p) + 1 ≡ length xs
  length-remove_at [] p h = elim h [ ]
  length-remove_at (x ∷ xs) zero h = omega arith
  length-remove_at (x ∷ xs) (suc p) h = omega (arith, length-remove_at xs p (omega arith))

  pub get_elem?-insert_at_self :
      (xs : List A) (p : ℕ) (a : A) → p ≤ length xs → get_elem? (insert_at xs p a) p ≡ some a
  get_elem?-insert_at_self xs zero a h = refl
  get_elem?-insert_at_self [] (suc p) a h = absurd (omega arith)
  get_elem?-insert_at_self (x ∷ xs) (suc p) a h = get_elem?-insert_at_self xs p a (omega arith)

  pub get_elem?-insert_at_lt :
      (xs : List A) (p j : ℕ) (a : A)
      → p ≤ length xs
      → j < p
      → get_elem? (insert_at xs p a) j ≡ get_elem? xs j
  get_elem?-insert_at_lt xs zero j a h lt = elim lt [ ]
  get_elem?-insert_at_lt [] (suc p) j a h lt = absurd (omega arith)
  get_elem?-insert_at_lt (x ∷ xs) (suc p) zero a h lt = refl
  get_elem?-insert_at_lt (x ∷ xs) (suc p) (suc j) a h lt =
      get_elem?-insert_at_lt xs p j a (omega arith) (omega arith)

  pub get_elem?-insert_at_le :
      (xs : List A) (p j : ℕ) (a : A)
      → p ≤ length xs
      → p ≤ j
      → get_elem? (insert_at xs p a) (suc j) ≡ get_elem? xs j
  get_elem?-insert_at_le xs zero j a h le = refl
  get_elem?-insert_at_le [] (suc p) j a h le = absurd (omega arith)
  get_elem?-insert_at_le (x ∷ xs) (suc p) zero a h le = absurd (omega arith)
  get_elem?-insert_at_le (x ∷ xs) (suc p) (suc j) a h le =
      get_elem?-insert_at_le xs p j a (omega arith) (omega arith)

  pub get_elem?-remove_at_lt :
      (xs : List A) (p j : ℕ) → j < p → get_elem? (remove_at xs p) j ≡ get_elem? xs j
  get_elem?-remove_at_lt [] p j lt = refl
  get_elem?-remove_at_lt (x ∷ xs) zero j lt = elim lt [ ]
  get_elem?-remove_at_lt (x ∷ xs) (suc p) zero lt = refl
  get_elem?-remove_at_lt (x ∷ xs) (suc p) (suc j) lt = get_elem?-remove_at_lt xs p j (omega arith)

  pub get_elem?-remove_at_le :
      (xs : List A) (p j : ℕ) → p ≤ j → get_elem? (remove_at xs p) j ≡ get_elem? xs (suc j)
  get_elem?-remove_at_le [] p j le = refl
  get_elem?-remove_at_le (x ∷ xs) zero j le = refl
  get_elem?-remove_at_le (x ∷ xs) (suc p) zero le = absurd (omega arith)
  get_elem?-remove_at_le (x ∷ xs) (suc p) (suc j) le = get_elem?-remove_at_le xs p j (omega arith)
