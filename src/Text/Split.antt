-- ===== src/Text/Split.antt =====
-- Byte strings split at a byte.
use webdav_handler_rs.Prelude.{
  ℕ, ◌≡◌, refl, ap, ◌∙◌, false, List, [], ◌∷◌, ◌++◌, Bytes, nat_eq, any, All, arith,
}
use webdav_handler_rs.Text.{contains, split_on, join_with}

pub split_on-one : (sep : ℕ) (s : Bytes) → contains s sep ≡ false → split_on sep s ≡ s ∷ []
unfolding split_on any
split_on-one sep [] h = refl
split_on-one sep (c ∷ cs) h = ground (arith, split_on-one sep cs)

pub split_on-two :
    (sep : ℕ) (s rest : Bytes)
    → contains s sep ≡ false
    → split_on sep (s ++ sep ∷ rest) ≡ s ∷ split_on sep rest
unfolding split_on any
split_on-two sep [] rest h = ground arith
split_on-two sep (c ∷ cs) rest h = ground (arith, split_on-two sep cs rest)

-- Words that are joined by a byte which is in none of them are the pieces.
pub split_on-join :
    (sep : ℕ) (word : Bytes) (words : List Bytes)
    → All (λ w. contains w sep ≡ false) (word ∷ words)
    → split_on sep (join_with (sep ∷ []) (word ∷ words)) ≡ word ∷ words
unfolding join_with
split_on-join sep word [] h = split_on-one sep word h.0
split_on-join sep word (next ∷ words) h =
    split_on-two sep word _ h.0 ∙ ap (λ v. word ∷ v) (split_on-join sep next words h.1)
