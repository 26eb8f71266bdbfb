-- ===== src/Prelude/Outcomes.antt =====
-- What a call of the program comes to, and calls that change a state.
use mathlib.Core.List.{List, [], ◌∷◌}
use mathlib.Core.Path.{◌≡◌, refl, ap}
use mathlib.Core.Bool.{Bool, true, false}
use webdav_handler_rs.Prelude.Tests.{if◌then◌else◌}
use mathlib.Core.Option.{Option, none, some}

-- `Ok`, `Err`, a panic (an `unwrap` of nothing, an index out of bounds), or more recursive calls
-- than the fuel of the model allows.
pub data Outcome {ℓ κ} (E : Type κ) (A : Type ℓ) : Type (ℓ ⊔ κ) where
  ok : A → Outcome E A
  err : E → Outcome E A
  panic : Outcome E A
  out_of_fuel : Outcome E A

module _ {ℓ κ} {E : Type κ} {A : Type ℓ} where
  -- `o.ok_or(e)`
  abbrev pub ok_or : Option A → E → Outcome E A
  ok_or none e = err e
  ok_or (some a) e = ok a

  -- `o.unwrap()`
  abbrev pub unwrap : Option A → Outcome E A
  unwrap none = panic
  unwrap (some a) = ok a

-- The `?` of a function that only reads.
abbrev pub and_then {ℓ κ ι} :
    {E : Type κ} {A : Type ℓ} {B : Type ι} → Outcome E A → (A → Outcome E B) → Outcome E B
and_then (ok a) f = f a
and_then (err e) f = err e
and_then panic f = panic
and_then out_of_fuel f = out_of_fuel

-- A chain that returns has returned at each step.
pub and_then-eq-ok {ℓ κ ι} :
    {E : Type κ} {A : Type ℓ} {B : Type ι} (o : Outcome E A) (f : A → Outcome E B) {b : B}
    → and_then o f ≡ ok b
    → (a : A) × (o ≡ ok a) × (f a ≡ ok b)
and_then-eq-ok (ok a) f h = (a, refl, h)
and_then-eq-ok (err x) f h = cc
and_then-eq-ok panic f h = cc
and_then-eq-ok out_of_fuel f h = cc

-- A test that fails has been false where a value is returned.
pub if-eq-ok {ℓ κ} :
    {E : Type κ} {A : Type ℓ} (c : Bool) (x : E) (o : Outcome E A) {a : A}
    → (if c then err x else o) ≡ ok a
    → (c ≡ false) × (o ≡ ok a)
if-eq-ok true x o e = cc
if-eq-ok false x o e = (refl, e)

pub ok-inj {ℓ κ} : {A : Type ℓ} {E : Type κ} (a b : A) → ◌≡◌ {A = Outcome E A} (ok a) (ok b) → a ≡ b
ok-inj {A} a b e = ap {B = A} (λ o. elim o [ ok x ↦ x | _ ↦ a ]) e

module _ {ℓ κ ι} {E : Type κ} {A : Type ℓ} {B : Type ι} where
  pub and_then-congr :
      (o : Outcome E A) {f g : A → Outcome E B}
      → ((a : A) → f a ≡ g a)
      → and_then o f ≡ and_then o g
  and_then-congr (ok a) h = h a
  and_then-congr (err e) h = refl
  and_then-congr panic h = refl
  and_then-congr out_of_fuel h = refl

  pub and_then_assoc {μ} :
      {C : Type μ} (o : Outcome E A) (f : A → Outcome E B) (g : B → Outcome E C)
      → and_then (and_then o f) g ≡ and_then o (λ a. and_then (f a) g)
  and_then_assoc (ok a) f g = refl
  and_then_assoc (err e) f g = refl
  and_then_assoc panic f g = refl
  and_then_assoc out_of_fuel f g = refl

-- A call on `&mut self`: the state after it stands beside the outcome, on the error paths too.
abbrev pub Run {ℓ κ ι} : Type ι → Type κ → Type ℓ → Type (ℓ ⊔ κ ⊔ ι)
Run S E A = S → Outcome E A × S

module _ {ℓ κ ι} {S : Type ι} {E : Type κ} {A : Type ℓ} where
  abbrev pub pure : A → Run S E A
  pure a s = (ok a, s)

  abbrev pub fail : E → Run S E A
  fail e s = (err e, s)

  abbrev pub out_of_fuel_run : Run S E A
  out_of_fuel_run s = (out_of_fuel, s)

  -- A call on `&self`.
  abbrev pub reads : (S → Outcome E A) → Run S E A
  reads f s = (f s, s)

module _ {ℓ λ' κ ι} {S : Type ι} {E : Type κ} {A : Type ℓ} {B : Type λ'} where
  abbrev pub continue : Outcome E A → S → (A → Run S E B) → Outcome E B × S
  continue (ok a) s f = f a s
  continue (err e) s f = (err e, s)
  continue panic s f = (panic, s)
  continue out_of_fuel s f = (out_of_fuel, s)

  infixl 5 ◌>>=◌ ◌>>◌
  abbrev pub ◌>>=◌ : Run S E A → (A → Run S E B) → Run S E B
  ◌>>=◌ m f s = continue (m s).0 (m s).1 f

  abbrev pub ◌>>◌ : Run S E A → Run S E B → Run S E B
  m >> n = m >>= λ _. n

-- `for x in xs { f(x)?; }`
unfoldable pub for_each {ℓ κ ι} :
    {S : Type ι} {E : Type κ} {A : Type ℓ} → List A → (A → Run S E (Unit {0})) → Run S E (Unit {0})
for_each [] f = pure tt
for_each (x ∷ xs) f = do f x; for_each xs f

-- `match call { Ok(a) => f(a), Err(e) => g(e) }`
module _ {ℓ κ ι μ ν} {S : Type ι} {E : Type κ} {E' : Type ν} {A : Type ℓ} {B : Type μ} where
  abbrev pub on_result : Outcome E A → S → (A → Run S E' B) → (E → Run S E' B) → Outcome E' B × S
  on_result (ok a) s f g = f a s
  on_result (err e) s f g = g e s
  on_result panic s f g = (panic, s)
  on_result out_of_fuel s f g = (out_of_fuel, s)

  abbrev pub matching : Run S E A → (A → Run S E' B) → (E → Run S E' B) → Run S E' B
  matching m f g s = on_result (m s).0 (m s).1 f g
