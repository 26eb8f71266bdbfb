-- ===== src/Prelude/Postconditions.antt =====
-- What a call that only reads ensures: the model's fuel is enough, and what it returns satisfies `P`.
use mathlib.Core.Path.{◌≡◌, refl, subst}
use mathlib.Core.Bool.{Bool, true, false}
use webdav_handler_rs.Prelude.Tests.{if◌then◌else◌}
use webdav_handler_rs.Prelude.Outcomes.{Outcome, ok, err, panic, out_of_fuel, and_then}

module _ {ℓ κ} {E : Type κ} {A : Type ℓ} where
  abbrev pub Ensures : (A → Type 0) → Outcome E A → Type 0
  Ensures P (ok a) = P a
  Ensures P (err e) = Unit
  Ensures P panic = Unit
  Ensures P out_of_fuel = ⊥

  pub Ensures-imp :
      (P : A → Type 0) (Q : A → Type 0) (o : Outcome E A)
      → Ensures P o
      → ((a : A) → P a → Q a)
      → Ensures Q o
  Ensures-imp P Q (ok a) h f = f a h
  Ensures-imp P Q (err e) h f = tt
  Ensures-imp P Q panic h f = tt
  Ensures-imp P Q out_of_fuel h f = elim h [ ]

  pub Ensures-at : (P : A → Type 0) (o : Outcome E A) {a : A} → Ensures P o → o ≡ ok a → P a
  Ensures-at P o h e = subst (Ensures P) e h

  pub Ensures-if :
      (P : A → Type 0) (b : Bool) (x y : Outcome E A)
      → (b ≡ true → Ensures P x)
      → (b ≡ false → Ensures P y)
      → Ensures P (if b then x else y)
  Ensures-if P true x y f g = f refl
  Ensures-if P false x y f g = g refl

module _ {ℓ κ λ'} {E : Type κ} {A : Type ℓ} {B : Type λ'} where
  pub Ensures-and_then :
      (P : A → Type 0) (Q : B → Type 0) (o : Outcome E A) (f : A → Outcome E B)
      → Ensures P o
      → ((a : A) → P a → Ensures Q (f a))
      → Ensures Q (and_then o f)
  Ensures-and_then P Q (ok a) f h k = k a h
  Ensures-and_then P Q (err e) f h k = tt
  Ensures-and_then P Q panic f h k = tt
  Ensures-and_then P Q out_of_fuel f h k = elim h [ ]
