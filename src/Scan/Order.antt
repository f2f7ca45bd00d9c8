-- ===== src/Scan/Order.antt =====
-- Ascending lists of pairs, and the lookup of a key in one.
use mariv.Base.{
  ℕ, ◌<◌, ◌≡◌, ◌≢◌, refl, ap, arith, List, [], ◌∷◌, ◌++◌, length, All, get_elem?, Option, none,
  some, if◌then◌else◌, Bool-cases, inl, inr,
}
use mariv.Base.Bytes.{bytes_equal, bytes_compare, bytes_equal-ne}
use mariv.Trie.{KeyValuePair}
use mariv.Trie.Keys.{Starts}
use mariv.Scan.{Results}
use Prim.Native.Nat.{Ordering, compare}

abbrev pub Pairs : Type 0
Pairs = List (List ℕ × List ℕ)

abbrev pub as_results : Pairs → Results
as_results [] = []
as_results ((key, value) ∷ ps) = some (record { key = some key; value = value }) ∷ as_results ps

abbrev pub find : List ℕ → Pairs → Option KeyValuePair
find k [] = none
find k ((key, value) ∷ ps) =
    if bytes_equal k key then some (record { key = some key; value = value }) else find k ps

-- `bytes.Compare` puts the key before every key of the list.
abbrev pub Before : List ℕ → Pairs → Type 0
Before k ps = All (λ (pair : List ℕ × List ℕ). bytes_compare k pair.0 ≡ Ordering.lt) ps

abbrev pub Ascending : Pairs → Type 0
Ascending [] = Unit {0}
Ascending ((key, value) ∷ ps) = Before key ps × Ascending ps

abbrev pub Keys {κ} : (List ℕ → Type κ) → Pairs → Type κ
Keys P ps = All (λ (pair : List ℕ × List ℕ). P pair.0) ps

pub as_results-append : (ps qs : Pairs) → as_results (ps ++ qs) ≡ as_results ps ++ as_results qs
as_results-append [] qs = refl
as_results-append ((k, v) ∷ ps) qs =
    ap (λ t. some (record { key = some k; value = v }) ∷ t) (as_results-append ps qs)

pub as_results-none : (ps : Pairs) → as_results ps ≡ [] → ps ≡ []
as_results-none [] e = refl
as_results-none ((k, v) ∷ ps) e = cc

pub Keys-append : (P : List ℕ → Type 0) (ps qs : Pairs) → Keys P ps → Keys P qs → Keys P (ps ++ qs)
Keys-append P [] qs a b = b
Keys-append P (pair ∷ ps) qs a b = (a.0, Keys-append P ps qs a.1 b)

pub Keys-map :
    (P Q : List ℕ → Type 0) → ((k : List ℕ) → P k → Q k) → (ps : Pairs) → Keys P ps → Keys Q ps
Keys-map P Q f [] h = tt
Keys-map P Q f ((k, v) ∷ ps) h = (f k h.0, Keys-map P Q f ps h.1)

pub find-absent : (k : List ℕ) (ps : Pairs) → Keys (λ key. k ≢ key) ps → find k ps ≡ none
find-absent k [] h = refl
find-absent k ((key, v) ∷ ps) h = rw (bytes_equal-ne k key h.0) (find-absent k ps h.1)

-- Where the first list has not the key, the second is searched.
pub find-append_absent :
    (k : List ℕ) (ps qs : Pairs) → Keys (λ key. k ≢ key) ps → find k (ps ++ qs) ≡ find k qs
find-append_absent k [] qs h = refl
find-append_absent k ((key, v) ∷ ps) qs h =
    rw (bytes_equal-ne k key h.0) (find-append_absent k ps qs h.1)

pub find-append :
    (k : List ℕ) (ps qs : Pairs) → Keys (λ key. k ≢ key) qs → find k (ps ++ qs) ≡ find k ps
find-append k [] qs h = find-absent k qs h
find-append k ((key, v) ∷ ps) qs h = elim (Bool-cases (bytes_equal k key)) [
  | inl e ↦ rw e refl
  | inr e ↦ rw e (find-append k ps qs h)
]

pub Ascending-append :
    (ps qs : Pairs)
    → Ascending ps
    → Ascending qs
    → Keys (λ k. Before k qs) ps
    → Ascending (ps ++ qs)
Ascending-append [] qs a b h = b
Ascending-append ((k, v) ∷ ps) qs a b h = (
  Keys-append (λ key. bytes_compare k key ≡ Ordering.lt) ps qs a.0 h.0,
  Ascending-append ps qs a.1 b h.1,
)

compare_lt : (x y : ℕ) → x < y → compare x y ≡ Ordering.lt
compare_lt x y h = ground arith

compare_refl : (x : ℕ) → compare x x ≡ Ordering.eq
compare_refl x = ground arith

bytes_compare-less :
    (x y : ℕ) (xs ys : List ℕ) → x < y → bytes_compare (x ∷ xs) (y ∷ ys) ≡ Ordering.lt
unfolding bytes_compare
bytes_compare-less x y xs ys h = rw (bytes_compare, compare_lt x y h) refl

bytes_compare-same :
    (x : ℕ) (xs ys : List ℕ) → bytes_compare (x ∷ xs) (x ∷ ys) ≡ bytes_compare xs ys
unfolding bytes_compare
bytes_compare-same x xs ys = rw (bytes_compare, compare_refl x) refl

-- Of two keys with a common prefix, the one with the smaller next byte comes first.
pub bytes_compare_next :
    (p k k' : List ℕ) (i i' : ℕ)
    → Starts p k
    → Starts p k'
    → get_elem? k (length p) ≡ some i
    → get_elem? k' (length p) ≡ some i'
    → i < i'
    → bytes_compare k k' ≡ Ordering.lt
bytes_compare_next [] [] k' i i' s s' e e' lt = cc
bytes_compare_next [] (x ∷ k) [] i i' s s' e e' lt = cc
bytes_compare_next [] (x ∷ k) (y ∷ k') i i' s s' e e' lt =
    let first : x ≡ i = cc in
    let second : y ≡ i' = cc in let small : x < y = omega arith in bytes_compare-less x y k k' small
bytes_compare_next (z ∷ p) [] k' i i' s s' e e' lt = elim s [ ]
bytes_compare_next (z ∷ p) (x ∷ k) [] i i' s s' e e' lt = elim s' [ ]
bytes_compare_next (z ∷ p) (x ∷ k) (y ∷ k') i i' s s' e e' lt =
    rw (← s.0, ← s'.0, bytes_compare-same z) (bytes_compare_next p k k' i i' s.1 s'.1 e e' lt)
