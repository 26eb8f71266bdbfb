-- ===== src/HashMap.antt =====
-- `std::collections::HashMap`, as far as the program uses it: an association list, whose order is
-- the order of iteration. The keys are distinct in every map that the program builds.
use mathlib.Core.List.{Memᴰ}
use webdav_handler_rs.Prelude.{
  ◌≡◌, refl, Bool, true, false, not, ◌&&◌, Option, none, some, List, [], ◌∷◌, arith, Eq, ◌==◌,
  if◌then◌else◌, ◌<◌, length, Bool-cases, inl, inr, ap,
}

abbrev pub HashMap {ℓ κ} : Type ℓ → Type κ → Type (ℓ ⊔ κ)
HashMap K V = List (K × V)

module _ {ℓ κ} {K : Type ℓ} {V : Type κ} ⦃e : Eq K⦄ where
  unfoldable pub get : K → HashMap K V → Option V
  get k [] = none
  get k ((j, v) ∷ m) = if j == k then some v else get k m

  -- A key that is there keeps its place and gets the new value.
  unfoldable pub insert : K → V → HashMap K V → HashMap K V
  insert k v [] = (k, v) ∷ []
  insert k v ((j, w) ∷ m) = let rest = insert k v m in if j == k then (j, v) ∷ m else (j, w) ∷ rest

  unfoldable pub remove : K → HashMap K V → HashMap K V
  remove k [] = []
  remove k ((j, w) ∷ m) = let rest = remove k m in if j == k then rest else (j, w) ∷ rest

  unfoldable pub contains_key : K → HashMap K V → Bool
  contains_key k m = elim (get k m) [ none ↦ false | some _ ↦ true ]

  pub get-insert :
      (k j : K) (v : V) (m : HashMap K V)
      → get j (insert k v m) ≡ (if k == j then some v else get j m)
  unfolding get insert
  get-insert k j v [] = refl
  get-insert k j v ((i, w) ∷ m) =
      ground (arith, e.beq_iff k j, e.beq_iff i k, e.beq_iff i j, get-insert k j v m)

  pub get-remove :
      (k j : K) (m : HashMap K V) → get j (remove k m) ≡ (if k == j then none else get j m)
  unfolding get remove
  get-remove k j [] = ground arith
  get-remove k j ((i, w) ∷ m) =
      ground (arith, e.beq_iff k j, e.beq_iff i k, e.beq_iff i j, get-remove k j m)

  -- No key stands twice.
  unfoldable pub is_distinct : HashMap K V → Bool
  unfolding contains_key
  is_distinct [] = true
  is_distinct ((k, v) ∷ m) = not (contains_key k m) && is_distinct m

  pub insert-is_distinct :
      (k : K) (v : V) (m : HashMap K V) → is_distinct m ≡ true → is_distinct (insert k v m) ≡ true
  unfolding is_distinct insert get
  insert-is_distinct k v [] h = refl
  insert-is_distinct k v ((i, w) ∷ m) h =
      ground (arith, e.beq_iff i k, e.beq_iff k i, get-insert k i v m, insert-is_distinct k v m)

  pub remove-is_distinct :
      (k : K) (m : HashMap K V) → is_distinct m ≡ true → is_distinct (remove k m) ≡ true
  unfolding is_distinct remove get
  remove-is_distinct k [] h = refl
  remove-is_distinct k ((i, w) ∷ m) h =
      ground (arith, e.beq_iff i k, get-remove k i m, remove-is_distinct k m)

  pub length-get-ne_zero : (k : K) (v : V) (m : HashMap K V) → get k m ≡ some v → 0 < length m
  unfolding get
  length-get-ne_zero k v [] h = absurd (ground arith)
  length-get-ne_zero k v ((j, w) ∷ m) h = omega arith

  -- The pairs of a map are what `get` finds.
  pub get-Mem : (k : K) (v : V) (m : HashMap K V) → get k m ≡ some v → Memᴰ (k, v) m
  unfolding get
  get-Mem k v [] h = absurd (ground arith)
  get-Mem k v ((j, x) ∷ m) h = elim (Bool-cases (j == k)) [
    | inl same ↦ Memᴰ.head (ground (arith, e.beq_iff j k))
    | inr other ↦ Memᴰ.tail (get-Mem k v m (ground arith))
  ]

  pub Mem-get :
      (k : K) (v : V) (m : HashMap K V) → is_distinct m ≡ true → Memᴰ (k, v) m → get k m ≡ some v
  unfolding get is_distinct contains_key
  Mem-get k v [] d h = elim h [ ]
  Mem-get k v ((j, x) ∷ m) d (Memᴰ.head q) =
      ground (arith, ap (λ y. y.0) q, ap (λ y. y.1) q, e.beq_iff j k)
  Mem-get k v ((j, x) ∷ m) d (Memᴰ.tail h) =
      ground (arith, Mem-get k v m (ground arith) h, e.beq_iff j k)
