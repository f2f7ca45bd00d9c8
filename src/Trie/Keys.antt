-- ===== src/Trie/Keys.antt =====
-- Keys of one length, and the prefix of a key that leads to a node.
use mariv.Base.{
  ℕ, ◌+◌, ◌≤◌, ◌<◌, ◌≡◌, refl, arith, List, [], ◌∷◌, ◌++◌, length, length-append, get_elem?, some,
  All,
}
use mariv.Bitmap.Slots.{IsIndex}

-- `p` is a prefix of `k`.
abbrev pub Starts : List ℕ → List ℕ → Type 0
Starts [] k = Unit {0}
Starts (x ∷ p) [] = ⊥
Starts (x ∷ p) (y ∷ k) = (x ≡ y) × Starts p k

-- A key of length `n` whose bytes are 32 or more.
pub record IsKey (n : ℕ) (k : List ℕ) : Type 0 where
  pub size : length k ≡ n
  pub indices : All IsIndex k

pub Starts-length : (p k : List ℕ) → Starts p k → length p ≤ length k
Starts-length [] k s = omega arith
Starts-length (x ∷ p) [] s = elim s [ ]
Starts-length (x ∷ p) (y ∷ k) s = omega (arith, Starts-length p k s.1)

-- A prefix of full length is the key.
pub Starts-full : (p k : List ℕ) → Starts p k → length p ≡ length k → p ≡ k
Starts-full [] [] s e = refl
Starts-full [] (y ∷ k) s e = absurd (omega arith)
Starts-full (x ∷ p) [] s e = elim s [ ]
Starts-full (x ∷ p) (y ∷ k) s e = cc (s.0, Starts-full p k s.1 (omega arith))

-- The next byte of a longer key.
pub next-IsIndex :
    (p k : List ℕ)
    → Starts p k
    → length p < length k
    → All IsIndex k
    → (i : ℕ) × (get_elem? k (length p) ≡ some i) × IsIndex i
next-IsIndex [] [] s lt a = elim lt [ ]
next-IsIndex [] (y ∷ k) s lt a = (y, refl, a.0)
next-IsIndex (x ∷ p) [] s lt a = elim s [ ]
next-IsIndex (x ∷ p) (y ∷ k) s lt a = next-IsIndex p k s.1 (omega arith) a.1

pub Starts-snoc :
    (p k : List ℕ) (i : ℕ) → Starts p k → get_elem? k (length p) ≡ some i → Starts (p ++ i ∷ []) k
Starts-snoc [] [] i s e = cc
Starts-snoc [] (y ∷ k) i s e = ((cc), tt)
Starts-snoc (x ∷ p) [] i s e = elim s [ ]
Starts-snoc (x ∷ p) (y ∷ k) i s e = (s.0, Starts-snoc p k i s.1 e)

pub length-snoc : (p : List ℕ) (i : ℕ) → length (p ++ i ∷ []) ≡ length p + 1
length-snoc p i = length-append p (i ∷ [])
