-- ===== src/Prelude/Halting.antt =====
-- Calls that are not out of fuel, and end in a state with some property.
use mathlib.Core.Path.{◌≡◌, refl}
use mathlib.Core.Bool.{Bool, true, false}
use webdav_handler_rs.Prelude.Tests.{if◌then◌else◌}
use webdav_handler_rs.Prelude.Outcomes.{
  Outcome, ok, err, panic, out_of_fuel, and_then, Run, continue, on_result,
}

-- Not out of fuel.
abbrev pub IsDone {ℓ κ} : {E : Type κ} {A : Type ℓ} → Outcome E A → Type 0
IsDone out_of_fuel = ⊥
IsDone _ = Unit

module _ {W : Type 0} (P : W → Type 0) where
  -- A call that has ended in a state with `P`.
  abbrev pub Halts {ℓ κ} : {E : Type κ} {A : Type ℓ} → Outcome E A → W → Type 0
  Halts o w = IsDone o × P w

  pub continue-Halts :
      {E A B : Type 0} (o : Outcome E A) (w : W) (f : A → Run W E B)
      → Halts o w
      → ((a : A) → o ≡ ok a → Halts (f a w).0 (f a w).1)
      → Halts (continue o w f).0 (continue o w f).1
  continue-Halts (ok a) w f h k = k a refl
  continue-Halts (err e) w f h k = (tt, h.1)
  continue-Halts panic w f h k = (tt, h.1)
  continue-Halts out_of_fuel w f h k = absurd h.0

  pub on_result-Halts :
      {E E' A B : Type 0} (o : Outcome E A) (w : W) (f : A → Run W E' B) (g : E → Run W E' B)
      → Halts o w
      → ((a : A) → o ≡ ok a → Halts (f a w).0 (f a w).1)
      → ((e : E) → Halts (g e w).0 (g e w).1)
      → Halts (on_result o w f g).0 (on_result o w f g).1
  on_result-Halts (ok a) w f g h k k' = k a refl
  on_result-Halts (err e) w f g h k k' = k' e
  on_result-Halts panic w f g h k k' = (tt, h.1)
  on_result-Halts out_of_fuel w f g h k k' = absurd h.0

pub and_then-IsDone :
    {E A B : Type 0} (o : Outcome E A) (f : A → Outcome E B)
    → IsDone o
    → ((a : A) → IsDone (f a))
    → IsDone (and_then o f)
and_then-IsDone (ok a) f h k = k a
and_then-IsDone (err e) f h k = tt
and_then-IsDone panic f h k = tt
and_then-IsDone out_of_fuel f h k = h

pub if-IsDone :
    {E A : Type 0} (b : Bool) (x y : Outcome E A)
    → IsDone x
    → IsDone y
    → IsDone (if b then x else y)
if-IsDone true x y h k = h
if-IsDone false x y h k = k
