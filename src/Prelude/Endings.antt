-- ===== src/Prelude/Endings.antt =====
-- How a call that changes a state may end: `P` holds of what it returns and the state after it, `Q`
-- of its error and the state. Of a panic, and of too little fuel, nothing is said.
use mathlib.Core.Path.{◌≡◌, refl}
use mathlib.Core.Bool.{Bool, true, false}
use webdav_handler_rs.Prelude.Tests.{if◌then◌else◌}
use webdav_handler_rs.Prelude.Outcomes.{
  Outcome, ok, err, panic, out_of_fuel, Run, continue, on_result,
}

module _ {ℓ κ ι} {S : Type ι} {E : Type κ} {A : Type ℓ} where
  abbrev pub Ends : (A → S → Type 0) → (E → S → Type 0) → Outcome E A → S → Type 0
  Ends P Q (ok a) s = P a s
  Ends P Q (err e) s = Q e s
  Ends P Q panic s = Unit
  Ends P Q out_of_fuel s = Unit

  -- Of a call from the state `s`.
  abbrev pub EndsFrom : (A → S → Type 0) → (E → S → Type 0) → Run S E A → S → Type 0
  EndsFrom P Q m s = Ends P Q (m s).0 (m s).1

  pub Ends-imp :
      (P P' : A → S → Type 0) (Q Q' : E → S → Type 0) (o : Outcome E A) (s : S)
      → Ends P Q o s
      → ((a : A) → P a s → P' a s)
      → ((e : E) → Q e s → Q' e s)
      → Ends P' Q' o s
  Ends-imp P P' Q Q' (ok a) s h f g = f a h
  Ends-imp P P' Q Q' (err e) s h f g = g e h
  Ends-imp P P' Q Q' panic s h f g = tt
  Ends-imp P P' Q Q' out_of_fuel s h f g = tt

  -- What holds whatever the call returns.
  pub Ends-any :
      (P : A → S → Type 0) (Q : E → S → Type 0) (o : Outcome E A) (s : S)
      → ((a : A) → P a s)
      → ((e : E) → Q e s)
      → Ends P Q o s
  Ends-any P Q (ok a) s f g = f a
  Ends-any P Q (err e) s f g = g e
  Ends-any P Q panic s f g = tt
  Ends-any P Q out_of_fuel s f g = tt

  pub Ends-if :
      (P : A → S → Type 0) (Q : E → S → Type 0) (b : Bool) (x y : Outcome E A) (s : S)
      → (b ≡ true → Ends P Q x s)
      → (b ≡ false → Ends P Q y s)
      → Ends P Q (if b then x else y) s
  Ends-if P Q true x y s f g = f refl
  Ends-if P Q false x y s f g = g refl

  pub EndsFrom-if :
      (P : A → S → Type 0) (Q : E → S → Type 0) (b : Bool) (m n : Run S E A) (s : S)
      → (b ≡ true → EndsFrom P Q m s)
      → (b ≡ false → EndsFrom P Q n s)
      → EndsFrom P Q (if b then m else n) s
  EndsFrom-if P Q true m n s f g = f refl
  EndsFrom-if P Q false m n s f g = g refl

module _ {ℓ κ ι μ} {S : Type ι} {E : Type κ} {A : Type ℓ} {B : Type μ} where
  pub continue-Ends :
      (P : A → S → Type 0) (P' : B → S → Type 0) (Q : E → S → Type 0) (o : Outcome E A) (s : S)
      (f : A → Run S E B)
      → Ends P Q o s
      → ((a : A) → P a s → EndsFrom P' Q (f a) s)
      → Ends P' Q (continue o s f).0 (continue o s f).1
  continue-Ends P P' Q (ok a) s f h k = k a h
  continue-Ends P P' Q (err e) s f h k = h
  continue-Ends P P' Q panic s f h k = tt
  continue-Ends P P' Q out_of_fuel s f h k = tt

module _ {ℓ κ ι μ ν} {S : Type ι} {E : Type κ} {E' : Type ν} {A : Type ℓ} {B : Type μ} where
  pub on_result-Ends :
      (P : A → S → Type 0) (Q : E → S → Type 0) (P' : B → S → Type 0) (Q' : E' → S → Type 0)
      (o : Outcome E A) (s : S) (f : A → Run S E' B) (g : E → Run S E' B)
      → Ends P Q o s
      → ((a : A) → P a s → EndsFrom P' Q' (f a) s)
      → ((e : E) → Q e s → EndsFrom P' Q' (g e) s)
      → Ends P' Q' (on_result o s f g).0 (on_result o s f g).1
  on_result-Ends P Q P' Q' (ok a) s f g h k k' = k a h
  on_result-Ends P Q P' Q' (err e) s f g h k k' = k' e h
  on_result-Ends P Q P' Q' panic s f g h k k' = tt
  on_result-Ends P Q P' Q' out_of_fuel s f g h k k' = tt
