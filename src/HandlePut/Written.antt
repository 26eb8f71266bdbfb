-- ===== src/HandlePut/Written.antt =====
-- The loop over the body in `handle_put` of src/handle_put.rs.
use webdav_handler_rs.Prelude.{
  ℕ, ◌+◌, ◌%◌, ◌<◌, ◌≡◌, ◌⊎◌, refl, ap, ◌∙◌, inl, inr, arith, Bool, true, false, ◌&&◌, List, [],
  ◌∷◌, ltb, nat_eq, if◌then◌else◌, Outcome, ok, err, panic, out_of_fuel, Run, pure, continue, ◌>>=◌,
  Ends, EndsFrom, Ends-imp, EndsFrom-if,
}
use webdav_handler_rs.Errors.{DavError}
use webdav_handler_rs.Tree.{u64_mod}
use webdav_handler_rs.Fs.{DavFile}
use webdav_handler_rs.Server.{World}
use webdav_handler_rs.HandlePut.{
  Chunk, whole, buf, failed, remaining, Spot, write_chunk, write_body,
}

-- The length of a body.
abbrev pub size : List Chunk → ℕ
size [] = 0
size (c ∷ body) = remaining c + size body

-- Of a failure nothing is said.
abbrev pub Any : {W : Type 0} → DavError → W → Type 0
Any e w = Unit

-- What follows a call, which may look at how the call has ended.
pub continue-Ends_known :
    {S E A B : Type 0} (P : B → S → Type 0) (Q : E → S → Type 0) (o : Outcome E A) (s : S)
    (f : A → Run S E B)
    → ((a : A) → o ≡ ok a → EndsFrom P Q (f a) s)
    → ((e : E) → o ≡ err e → Q e s)
    → Ends P Q (continue o s f).0 (continue o s f).1
continue-Ends_known P Q (ok a) s f h k = h a refl
continue-Ends_known P Q (err e) s f h k = k e refl
continue-Ends_known P Q panic s f h k = tt
continue-Ends_known P Q out_of_fuel s f h k = tt

pub continue_ok :
    {S E A B : Type 0} (o : Outcome E A) (s : S) (f : A → Run S E B) (a : A)
    → o ≡ ok a
    → continue o s f ≡ f a s
continue_ok o s f a e = ap (λ x. continue x s f) e

both : (a b : Bool) → (a && b) ≡ true → (a ≡ true) × (b ≡ true)
both true b h = (refl, h)
both false b h = absurd cc

not_wrapped : (a b : ℕ) → a + b < u64_mod → a % u64_mod ≡ a
not_wrapped a b h = ground arith

pub neither :
    (b : Bool) (m n : ℕ) → (b && ltb m n) ≡ false → (b && ltb n m) ≡ false → b ≡ true → n ≡ m
neither b m n h k t = ground arith

module _ {S File L : Type 0} (dav_file : DavFile S File) where
  -- The plain loop: each chunk is written.
  abbrev pub write_all : File → List Chunk → Run (World S L) DavError File
  write_all file [] = pure file
  write_all file (chunk ∷ body) = do file' ← write_chunk dav_file chunk file; write_all file' body

  -- How the loop ends: with a total above the count, or with all chunks written and the length of the
  -- body as the total.
  abbrev pub IsWritten : Spot → ℕ → File → List Chunk → World S L → File × ℕ → World S L → Type 0
  IsWritten spot total file body w (file', total') w' =
      ((spot.have_count ≡ true) × (ltb spot.count total' ≡ true))
      ⊎ ((write_all file body w ≡ (ok file', w')) × (total' ≡ total + size body))

  write_chunk-IsWritten :
      (spot : Spot) (total : ℕ) (file : File) (chunk : Chunk) (body : List Chunk) (w : World S L)
      → total + size (chunk ∷ body) < u64_mod
      → ((file' : File) (w' : World S L)
          → EndsFrom
              (IsWritten spot ((total + remaining chunk) % u64_mod) file' body w')
              Any
              (write_body dav_file spot ((total + remaining chunk) % u64_mod) file' body)
              w')
      → EndsFrom
          (IsWritten spot total file (chunk ∷ body) w)
          Any
          (if spot.have_count && ltb spot.count ((total + remaining chunk) % u64_mod)
            then pure (file, (total + remaining chunk) % u64_mod)
            else (do
              file' ← write_chunk dav_file chunk file
              write_body dav_file spot ((total + remaining chunk) % u64_mod) file' body))
          w
  write_chunk-IsWritten spot total file chunk body w fits rec =
      let total' = (total + remaining chunk) % u64_mod in
      let P = IsWritten spot total file (chunk ∷ body) w in
      let one = write_chunk dav_file chunk file w in
      EndsFrom-if P Any (spot.have_count && ltb spot.count total') (pure (file, total')) _ w
        (λ over. inl (both spot.have_count (ltb spot.count total') over))
        (λ _.
          continue-Ends_known P Any one.0 one.1
            (λ file'. write_body dav_file spot total' file' body)
            (λ file' wrote.
              Ends-imp (IsWritten spot total' file' body one.1) P Any Any
                (write_body dav_file spot total' file' body one.1).0
                (write_body dav_file spot total' file' body one.1).1 (rec file' one.1)
                (λ a r. elim r [
                  | inl k ↦ inl k
                  | inr k ↦ inr (
                    continue_ok one.0 one.1 (λ f. write_all f body) file' wrote ∙ k.0,
                    omega (
                      arith,
                      k.1,
                      not_wrapped (total + remaining chunk) (size body) (omega (arith, fits)),
                    ),
                  )
                ])
                (λ e k. k))
            (λ e _. tt))

  pub write_body-IsWritten :
      (spot : Spot) (total : ℕ) (file : File) (body : List Chunk) (w : World S L)
      → total + size body < u64_mod
      → EndsFrom (IsWritten spot total file body w) Any (write_body dav_file spot total file body) w
  unfolding write_body
  write_body-IsWritten spot total file [] w fits = inr (refl, omega arith)
  write_body-IsWritten spot total file (failed e ∷ body) w fits = tt
  write_body-IsWritten spot total file (whole b ∷ body) w fits =
      write_chunk-IsWritten spot total file (whole b) body w fits (λ file' w'.
        write_body-IsWritten spot ((total + remaining (whole b)) % u64_mod) file' body w' (
          omega (
            arith,
            fits,
            not_wrapped (total + remaining (whole b)) (size body) (omega (arith, fits)),
          )))
  write_body-IsWritten spot total file (buf bs ∷ body) w fits =
      write_chunk-IsWritten spot total file (buf bs) body w fits (λ file' w'.
        write_body-IsWritten spot ((total + remaining (buf bs)) % u64_mod) file' body w' (
          omega (
            arith,
            fits,
            not_wrapped (total + remaining (buf bs)) (size body) (omega (arith, fits)),
          )))
