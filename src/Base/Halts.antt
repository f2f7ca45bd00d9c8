-- ===== src/Base/Halts.antt =====
-- Runs that end: with a value, an error or a panic, but not for lack of fuel.
use mathlib.Core.Path.{◌≡◌, refl}
use mathlib.Core.Logic.{◌≢◌}
use mathlib.Core.Bool.{Bool, true, false}
use mathlib.Core.Option.{Option, none, some}
use mariv.Base.Tests.{if◌then◌else◌}
use mariv.Base.Outcome.{Error, Outcome, ok, err, panics, stuck, ◌>>=◌, ◌>>◌, check, at, recovered}

pub data Halts {ℓ} {A : Type ℓ} : Outcome A → Type ℓ where
  with_ok : (a : A) → Halts (ok a)
  with_err : (e : Error) → Halts (err e)
  with_panic : Halts panics

module _ {ℓ} {A : Type ℓ} where
  pub Halts-ne : {m : Outcome A} → Halts m → m ≢ stuck
  Halts-ne (with_ok a) e = cc
  Halts-ne (with_err x) e = cc
  Halts-ne with_panic e = cc

  pub ne-Halts : (m : Outcome A) → m ≢ stuck → Halts m
  ne-Halts (ok a) h = with_ok a
  ne-Halts (err x) h = with_err x
  ne-Halts panics h = with_panic
  ne-Halts stuck h = elim (h refl) [ ]

  pub Halts-if : (b : Bool) (x y : Outcome A) → Halts x → Halts y → Halts (if b then x else y)
  Halts-if true x y p q = p
  Halts-if false x y p q = q

  pub Halts-ifd :
      (b : Bool) (x y : Outcome A)
      → (b ≡ true → Halts x)
      → (b ≡ false → Halts y)
      → Halts (if b then x else y)
  Halts-ifd true x y p q = p refl
  Halts-ifd false x y p q = q refl

  pub Halts-at : (o : Option A) → Halts (at o)
  Halts-at none = with_panic
  Halts-at (some a) = with_ok a

  pub Halts-recovered : (e : Error) {m : Outcome A} → Halts m → Halts (recovered e m)
  Halts-recovered e (with_ok a) = with_ok a
  Halts-recovered e (with_err x) = with_err x
  Halts-recovered e with_panic = with_err e

  pub Halts-then : (b : Bool) (m : Outcome A) → Halts m → Halts (check b >> m)
  Halts-then true m h = h
  Halts-then false m h = with_panic

module _ {ℓ κ} {A : Type ℓ} {B : Type κ} where
  pub Halts-bind :
      (m : Outcome A) (f : A → Outcome B) → Halts m → ((a : A) → Halts (f a)) → Halts (m >>= f)
  Halts-bind (ok a) f h k = k a
  Halts-bind (err e) f h k = with_err e
  Halts-bind panics f h k = with_panic
  Halts-bind stuck f h k = elim (Halts-ne h refl) [ ]

pub ruleset halts_rules =
    (with_ok, with_err, with_panic, Halts-if, Halts-at, Halts-then, Halts-bind)
