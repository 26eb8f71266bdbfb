-- ===== src/Prelude/Invariants.antt =====
-- Invariants of calls: `m` keeps `P`, whether it returns, fails or panics.
use mathlib.Core.List.{List, [], ◌∷◌}
use mathlib.Core.Path.{◌≡◌, refl}
use mathlib.Core.Logic.{◌≢◌}
use mathlib.Core.Option.{Option, none, some}
use mathlib.Core.Bool.{Bool, true, false}
use webdav_handler_rs.Prelude.Tests.{if◌then◌else◌}
use webdav_handler_rs.Prelude.Outcomes.{
  Outcome, ok, err, panic, out_of_fuel, Run, fail, reads, continue, on_result, matching, ◌>>=◌,
  for_each,
}

pub record Keeps {ℓ κ ι} {S : Type ι} {E : Type κ} {A : Type ℓ} (P : S → Type ι) (m : Run S E A)
    : Type ι where
  pub at : (s : S) → P s → P (m s).1

module _ {ℓ κ ι} {S : Type ι} {E : Type κ} {A : Type ℓ} {P : S → Type ι} where
  pub Keeps-reads : (f : S → Outcome E A) → Keeps P (reads f)
  Keeps-reads f = record { at = λ s h. h }

  pub Keeps-fail : (x : E) → Keeps P (fail {A = A} x)
  Keeps-fail x = record { at = λ s h. h }

  pub Keeps-if : (b : Bool) (m n : Run S E A) → Keeps P m → Keeps P n → Keeps P (if b then m else n)
  Keeps-if true m n km kn = km
  Keeps-if false m n km kn = kn

module _ {ℓ μ κ ι} {S : Type ι} {E : Type κ} {A : Type ℓ} {B : Type μ} {P : S → Type ι} where
  pub Keeps-option :
      (o : Option B) (m : Run S E A) (f : B → Run S E A)
      → Keeps P m
      → ((b : B) → Keeps P (f b))
      → Keeps P (elim o [ none ↦ m | some b ↦ f b ])
  Keeps-option none m f km kf = km
  Keeps-option (some b) m f km kf = kf b

  pub continue-Keeps :
      (o : Outcome E A) (s : S) (f : A → Run S E B)
      → P s
      → ((a : A) → Keeps P (f a))
      → P (continue o s f).1
  continue-Keeps (ok a) s f h kf = (kf a).at s h
  continue-Keeps (err x) s f h kf = h
  continue-Keeps panic s f h kf = h
  continue-Keeps out_of_fuel s f h kf = h

  pub Keeps-bind :
      (m : Run S E A) (f : A → Run S E B)
      → Keeps P m
      → ((a : A) → Keeps P (f a))
      → Keeps P (m >>= f)
  Keeps-bind m f km kf = record { at = λ s h. continue-Keeps (m s).0 (m s).1 f (km.at s h) kf }

module _ {ℓ κ ι} {S : Type ι} {E : Type κ} {A : Type ℓ} {P : S → Type ι} where
  pub Keeps-for_each :
      (xs : List A) (f : A → Run S E (Unit {0}))
      → ((a : A) → Keeps P (f a))
      → Keeps P (for_each xs f)
  unfolding for_each
  Keeps-for_each [] f kf = record { at = λ s h. h }
  Keeps-for_each (x ∷ xs) f kf =
      Keeps-bind (f x) (λ _. for_each xs f) (kf x) (λ _. Keeps-for_each xs f kf)

module _ {ℓ μ κ ι} {S : Type ι} {E : Type κ} {A : Type ℓ} {B : Type μ} where
  -- What follows a call that did not return is not run.
  pub continue_failed :
      (o : Outcome E A) (s : S) (f : A → Run S E B) → ((a : A) → o ≢ ok a) → (continue o s f).1 ≡ s
  continue_failed (ok a) s f h = absurd (h a refl)
  continue_failed (err x) s f h = refl
  continue_failed panic s f h = refl
  continue_failed out_of_fuel s f h = refl

  -- What follows a read runs on the same state.
  pub continue-at :
      (P : S → Type ι) (o : Outcome E A) (s : S) (f : A → Run S E B)
      → P s
      → ((a : A) → P (f a s).1)
      → P (continue o s f).1
  continue-at P (ok a) s f h k = k a
  continue-at P (err x) s f h k = h
  continue-at P panic s f h k = h
  continue-at P out_of_fuel s f h k = h

module _ {ℓ μ κ κ' ι} {S : Type ι} {E : Type κ} {E' : Type κ'} {A : Type ℓ} {B : Type μ}
    {P : S → Type ι} where
  pub Keeps-matching :
      (m : Run S E A) (f : A → Run S E' B) (g : E → Run S E' B)
      → Keeps P m
      → ((a : A) → Keeps P (f a))
      → ((e : E) → Keeps P (g e))
      → Keeps P (matching m f g)
  Keeps-matching m f g km kf kg = record { at = λ s h. by_outcome (m s).0 (m s).1 (km.at s h) }
    where
      by_outcome : (o : Outcome E A) (s : S) → P s → P (on_result o s f g).1
      by_outcome (ok a) s h = (kf a).at s h
      by_outcome (err e) s h = (kg e).at s h
      by_outcome panic s h = h
      by_outcome out_of_fuel s h = h

module _ {ℓ μ κ ι} {S : Type ι} {E : Type κ} {A : Type ℓ} {B : Type μ} {P : S → Type ι} where
  -- What a call that only reads has returned is known behind it.
  pub Keeps-reads_bind :
      (o : Outcome E A) (f : A → Run S E B)
      → ((a : A) → o ≡ ok a → Keeps P (f a))
      → Keeps P (reads (λ _. o) >>= f)
  Keeps-reads_bind (ok a) f h = h a refl
  Keeps-reads_bind (err e) f h = record { at = λ s k. k }
  Keeps-reads_bind panic f h = record { at = λ s k. k }
  Keeps-reads_bind out_of_fuel f h = record { at = λ s k. k }
