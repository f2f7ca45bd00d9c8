-- ===== src/Base/Gives.antt =====
-- What a run gives, if it gives a value: partial correctness, by rules for each form of a `do` block.
use mathlib.Core.Path.{◌≡◌, refl}
use mathlib.Core.Bool.{Bool, true, false}
use mathlib.Core.Path.{subst}
use mariv.Base.Tests.{if◌then◌else◌}
use mariv.Base.Outcome.{Error, Outcome, ok, err, panics, stuck, ◌>>=◌, ◌>>◌, check}

pub data Gives {ℓ κ} {A : Type ℓ} (P : A → Type κ) : Outcome A → Type (ℓ ⊔ κ) where
  with_ok : (a : A) → P a → Gives P (ok a)
  with_err : (e : Error) → Gives P (err e)
  with_panic : Gives P panics
  without_fuel : Gives P stuck

module _ {ℓ κ} {A : Type ℓ} (P : A → Type κ) where
  pub Gives-ok : (m : Outcome A) (a : A) → Gives P m → m ≡ ok a → P a
  Gives-ok (ok b) a (with_ok c p) e = subst P (found e) p
    where
      value : Outcome A → A → A
      value (ok x) d = x
      value (err x) d = d
      value panics d = d
      value stuck d = d

      found : ok b ≡ ok a → b ≡ a
      found e = λ i. value (e i) a
  Gives-ok (err x) a g e = cc
  Gives-ok panics a g e = cc
  Gives-ok stuck a g e = cc

  -- A run gives what is known of its value.
  pub ok-Gives : (m : Outcome A) → ((a : A) → m ≡ ok a → P a) → Gives P m
  ok-Gives (ok a) h = with_ok a (h a refl)
  ok-Gives (err e) h = with_err e
  ok-Gives panics h = with_panic
  ok-Gives stuck h = without_fuel

  pub Gives-if : (b : Bool) (x y : Outcome A) → Gives P x → Gives P y → Gives P (if b then x else y)
  Gives-if true x y p q = p
  Gives-if false x y p q = q

  pub Gives-then : (b : Bool) (m : Outcome A) → Gives P m → Gives P (check b >> m)
  Gives-then true m h = h
  Gives-then false m h = with_panic

module _ {ℓ κ ι} {A : Type ℓ} (Q : A → Type κ) (P : A → Type ι) where
  pub Gives-imp : (m : Outcome A) → Gives Q m → ((a : A) → Q a → P a) → Gives P m
  Gives-imp (ok a) (with_ok b q) k = with_ok a (k a q)
  Gives-imp (err e) h k = with_err e
  Gives-imp panics h k = with_panic
  Gives-imp stuck h k = without_fuel

module _ {ℓ κ ι ν} {A : Type ℓ} {B : Type κ} (Q : A → Type ι) (P : B → Type ν) where
  pub Gives-bind :
      (m : Outcome A) (f : A → Outcome B)
      → Gives Q m
      → ((a : A) → Q a → Gives P (f a))
      → Gives P (m >>= f)
  Gives-bind (ok a) f (with_ok b q) k = k a q
  Gives-bind (err e) f h k = with_err e
  Gives-bind panics f h k = with_panic
  Gives-bind stuck f h k = without_fuel
