-- ===== src/Base/Memory.antt =====
-- Byte lists as memory: Go's two-index slice expression, and the bytes that stand at an offset.
use Prim.Native.Nat.{ℕ, zero, suc, ◌+◌, ◌-◌, ◌≤◌, ◌<◌}
use native.Mathlib.Nat.{zero-add}
use mathlib.Core.Path.{◌≡◌, refl, ap, sym, ◌∙◌, subst}
use mathlib.Core.Bool.{true, ◌&&◌}
use mathlib.Core.Option.{some}
use mathlib.Core.List.{List, [], ◌∷◌, ◌++◌}
use native.Mathlib.Omega.{arith}
use mariv.Base.Tests.{leb, le→leb}
use mariv.Base.Lists.{length, get_elem?, take, drop, length-drop, copy_at}
use mariv.Base.Outcome.{Outcome, ok, ◌>>◌, check}

-- `mem[lo:hi]`, where `mem` is the slice up to its capacity
unfoldable pub slice : List ℕ → ℕ → ℕ → Outcome (List ℕ)
slice mem lo hi = do check (leb lo hi && leb hi (length mem)); ok (take (hi - lo) (drop lo mem))

-- The bytes stand in the memory, from the offset on.
abbrev pub At : List ℕ → ℕ → List ℕ → Type 0
At mem o [] = o ≤ length mem
At mem o (b ∷ bs) = (get_elem? mem o ≡ some b) × At mem (suc o) bs

pub At-bound : (mem : List ℕ) (o : ℕ) (bs : List ℕ) → At mem o bs → o + length bs ≤ length mem
At-bound mem o [] a = omega arith
At-bound mem o (b ∷ bs) a = omega (arith, At-bound mem (suc o) bs a.1)

drop-get : (mem : List ℕ) (o b : ℕ) → get_elem? mem o ≡ some b → drop o mem ≡ b ∷ drop (suc o) mem
drop-get [] o b e = cc
drop-get (x ∷ mem) zero b e = cc
drop-get (x ∷ mem) (suc o) b e = drop-get mem o b e

pub take-At :
    (mem : List ℕ) (o : ℕ) (bs : List ℕ) → At mem o bs → take (length bs) (drop o mem) ≡ bs
take-At mem o [] a = refl
take-At mem o (b ∷ bs) a = rw (drop-get mem o b a.0) (ap (λ t. b ∷ t) (take-At mem (suc o) bs a.1))

pub slice-At :
    (mem : List ℕ) (o : ℕ) (bs : List ℕ)
    → At mem o bs
    → (hi : ℕ) → hi ≡ o + length bs
    → slice mem o hi ≡ ok bs
unfolding slice
slice-At mem o bs a hi e =
    let size : hi - o ≡ length bs = omega arith in
    let low : leb o hi ≡ true = le→leb o hi (omega arith) in
    let high : leb hi (length mem) ≡ true =
      le→leb hi (length mem) (omega (arith, At-bound mem o bs a)) in
    rw (low, high, size, take-At mem o bs a)

pub At-left : (mem : List ℕ) (o : ℕ) (xs ys : List ℕ) → At mem o (xs ++ ys) → At mem o xs
At-left mem o [] ys a = omega (arith, At-bound mem o ys a)
At-left mem o (x ∷ xs) ys a = (a.0, At-left mem (suc o) xs ys a.1)

pub At-right :
    (mem : List ℕ) (o : ℕ) (xs ys : List ℕ)
    → At mem o (xs ++ ys)
    → (o' : ℕ) → o' ≡ o + length xs
    → At mem o' ys
At-right mem o [] ys a o' e = subst (λ t. At mem t ys) (omega arith) a
At-right mem o (x ∷ xs) ys a o' e = At-right mem (suc o) xs ys a.1 o' (omega arith)

get_elem?-drop : (mem : List ℕ) (s o : ℕ) → get_elem? (drop s mem) o ≡ get_elem? mem (s + o)
get_elem?-drop mem zero o = rw zero-add
get_elem?-drop [] (suc s) o = refl
get_elem?-drop (x ∷ mem) (suc s) o =
    let e : suc s + o ≡ suc (s + o) = omega arith in rw e (get_elem?-drop mem s o)

length-drop_le : (s : ℕ) (mem : List ℕ) (o : ℕ) → s + o ≤ length mem → o ≤ length (drop s mem)
length-drop_le zero mem o h = omega arith
length-drop_le (suc s) [] o h = absurd (omega arith)
length-drop_le (suc s) (x ∷ mem) o h = length-drop_le s mem o (omega arith)

-- What stands in the memory stands in the rest of it, at the offset from there.
pub At-drop : (mem : List ℕ) (s o : ℕ) (bs : List ℕ) → At mem (s + o) bs → At (drop s mem) o bs
At-drop mem s o [] a = length-drop_le s mem o a
At-drop mem s o (b ∷ bs) a = (
  get_elem?-drop mem s o ∙ a.0,
  At-drop mem s (suc o) bs (subst (λ t. At mem t bs) (omega arith) a.1),
)

pub length-copy_at : (mem : List ℕ) (o : ℕ) (bs : List ℕ) → length (copy_at mem o bs) ≡ length mem
length-copy_at [] o bs = refl
length-copy_at (x ∷ mem) (suc o) bs = ap suc (length-copy_at mem o bs)
length-copy_at (x ∷ mem) zero [] = refl
length-copy_at (x ∷ mem) zero (b ∷ bs) = ap suc (length-copy_at mem zero bs)

-- A copy changes nothing before its offset.
get_elem?-copy_at_below :
    (mem : List ℕ) (o : ℕ) (bs : List ℕ) (i : ℕ)
    → i < o
    → get_elem? (copy_at mem o bs) i ≡ get_elem? mem i
get_elem?-copy_at_below [] o bs i h = refl
get_elem?-copy_at_below (x ∷ mem) zero bs i h = absurd (omega arith)
get_elem?-copy_at_below (x ∷ mem) (suc o) bs zero h = refl
get_elem?-copy_at_below (x ∷ mem) (suc o) bs (suc i) h =
    get_elem?-copy_at_below mem o bs i (omega arith)

At-suc : (x : ℕ) (mem : List ℕ) (o : ℕ) (bs : List ℕ) → At mem o bs → At (x ∷ mem) (suc o) bs
At-suc x mem o [] a = omega arith
At-suc x mem o (b ∷ bs) a = (a.0, At-suc x mem (suc o) bs a.1)

pub At-copy_at :
    (mem : List ℕ) (o : ℕ) (bs : List ℕ) → o + length bs ≤ length mem → At (copy_at mem o bs) o bs
At-copy_at [] o [] h = omega arith
At-copy_at [] o (b ∷ bs) h = absurd (omega arith)
At-copy_at (x ∷ mem) (suc o) bs h =
    At-suc x (copy_at mem o bs) o bs (At-copy_at mem o bs (omega arith))
At-copy_at (x ∷ mem) zero [] h = omega arith
At-copy_at (x ∷ mem) zero (b ∷ bs) h =
    (refl, At-suc b (copy_at mem 0 bs) 0 bs (At-copy_at mem 0 bs (omega arith)))

-- What stands below the offset of a copy stays.
pub At-copy_at_below :
    (mem : List ℕ) (o : ℕ) (new : List ℕ) (p : ℕ) (bs : List ℕ)
    → p + length bs ≤ o
    → At mem p bs
    → At (copy_at mem o new) p bs
At-copy_at_below mem o new p [] h a = rw (length-copy_at mem o new) a
At-copy_at_below mem o new p (b ∷ bs) h a = (
  get_elem?-copy_at_below mem o new p (omega arith) ∙ a.0,
  At-copy_at_below mem o new (suc p) bs (omega arith) a.1,
)

drop_nil : (n : ℕ) → drop {A = ℕ} n [] ≡ []
drop_nil zero = refl
drop_nil (suc n) = refl

drop-drop : (s lo : ℕ) (mem : List ℕ) → drop lo (drop s mem) ≡ drop (s + lo) mem
drop-drop zero lo mem = rw zero-add
drop-drop (suc s) lo [] = drop_nil lo ∙ sym (drop_nil (suc s + lo))
drop-drop (suc s) lo (x ∷ mem) =
    let e : suc s + lo ≡ suc (s + lo) = omega arith in rw e (drop-drop s lo mem)

-- A slice of the rest of the memory is a slice of the memory.
pub slice-drop :
    (mem : List ℕ) (s lo hi : ℕ)
    → s ≤ length mem
    → slice (drop s mem) lo hi ≡ slice mem (s + lo) (s + hi)
unfolding slice
slice-drop mem s lo hi h =
    let size : (s + hi) - (s + lo) ≡ hi - lo = omega arith in
    let low : leb (s + lo) (s + hi) ≡ leb lo hi = ground arith in
    let high : leb (s + hi) (length mem) ≡ leb hi (length (drop s mem)) =
      ground (arith, length-drop s mem) in
    rw (size, low, high, drop-drop)

pub slice_in_range :
    (mem : List ℕ) (lo hi : ℕ)
    → lo ≤ hi
    → hi ≤ length mem
    → slice mem lo hi ≡ ok (take (hi - lo) (drop lo mem))
unfolding slice
slice_in_range mem lo hi low high = rw (le→leb lo hi low, le→leb hi (length mem) high)

get_elem?-copy_at_above :
    (mem : List ℕ) (o : ℕ) (bs : List ℕ) (i : ℕ)
    → o + length bs ≤ i
    → get_elem? (copy_at mem o bs) i ≡ get_elem? mem i
get_elem?-copy_at_above [] o bs i h = refl
get_elem?-copy_at_above (x ∷ mem) zero [] i h = refl
get_elem?-copy_at_above (x ∷ mem) zero (b ∷ bs) zero h = absurd (omega arith)
get_elem?-copy_at_above (x ∷ mem) zero (b ∷ bs) (suc i) h =
    get_elem?-copy_at_above mem zero bs i (omega arith)
get_elem?-copy_at_above (x ∷ mem) (suc o) bs zero h = absurd (omega arith)
get_elem?-copy_at_above (x ∷ mem) (suc o) bs (suc i) h =
    get_elem?-copy_at_above mem o bs i (omega arith)

-- What stands above the end of a copy stays.
pub At-copy_at_above :
    (mem : List ℕ) (o : ℕ) (new : List ℕ) (p : ℕ) (bs : List ℕ)
    → o + length new ≤ p
    → At mem p bs
    → At (copy_at mem o new) p bs
At-copy_at_above mem o new p [] h a = rw (length-copy_at mem o new) a
At-copy_at_above mem o new p (b ∷ bs) h a = (
  get_elem?-copy_at_above mem o new p (omega arith) ∙ a.0,
  At-copy_at_above mem o new (suc p) bs (omega arith) a.1,
)

pub At-append :
    (mem : List ℕ) (o : ℕ) (xs ys : List ℕ)
    → At mem o xs
    → At mem (o + length xs) ys
    → At mem o (xs ++ ys)
At-append mem o [] ys a b = subst (λ t. At mem t ys) (omega arith) b
At-append mem o (x ∷ xs) ys a b =
    (a.0, At-append mem (suc o) xs ys a.1 (subst (λ t. At mem t ys) (omega arith) b))
