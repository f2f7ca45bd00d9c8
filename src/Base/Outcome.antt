-- ===== src/Base/Outcome.antt =====
-- What a Go function of the store returns: a value, an error, or a panic. `stuck` is no Go value:
-- it says that a recursion ran out of the fuel that the model gave it.
use mathlib.Core.Bool.{Bool, true, false}
use mathlib.Core.Option.{Option, none, some}

-- The messages of the source, one constructor for each.
pub data Error : Type 0 where
  read_node : Error  -- "error reading node from mem map"
  write_path : Error  -- "error writing new path to mmap"
  bad_length : Error  -- "invalid data length for byte slice to ..."
  load_meta : Error  -- "error getting version from mmap", and so for the two offsets
  write_meta : Error  -- "error writing metadata to mmap"
  read_only : Error  -- "attempting to perform a write in a read only transaction, ..."
  start_after_end : Error  -- "start key is larger than end key"
  unaligned_offset : Error  -- "offset parameter must be a multiple of the system's page size"
  anonymous_length : Error  -- "anonymous mapping requires non-zero length"
  user_error : Error  -- an error that a caller's function returns

pub data Outcome {ℓ} (A : Type ℓ) : Type ℓ where
  ok : A → Outcome A
  err : Error → Outcome A
  panics : Outcome A
  stuck : Outcome A

infixl 5 ◌>>=◌ ◌>>◌
abbrev pub ◌>>=◌ {ℓ κ} : {A : Type ℓ} {B : Type κ} → Outcome A → (A → Outcome B) → Outcome B
ok a >>= f = f a
err e >>= f = err e
panics >>= f = panics
stuck >>= f = stuck

abbrev pub ◌>>◌ {ℓ} : {B : Type ℓ} → Outcome (Unit {0}) → Outcome B → Outcome B
m >> k = m >>= λ _. k

-- A run-time check of Go, such as a slice bound.
abbrev pub check : Bool → Outcome (Unit {0})
check true = ok tt
check false = panics

-- An index into a slice.
abbrev pub at {ℓ} : {A : Type ℓ} → Option A → Outcome A
at none = panics
at (some a) = ok a

-- `defer func() { recover() }()`: a panic becomes the error `e`.
abbrev pub recovered {ℓ} : {A : Type ℓ} → Error → Outcome A → Outcome A
recovered e (ok a) = ok a
recovered e (err x) = err x
recovered e panics = err e
recovered e stuck = stuck
