-- ===== src/DavPath/Normalize.antt =====
-- What `normalize_path` accepts and returns.
use mathlib.Core.List.{reverse, reverse_aux, reverse-cons, append_assoc, map-append, map-map}
use webdav_handler_rs.Prelude.{
  ◌+◌, ◌≡◌, refl, sym, ap, subst, ◌∙◌, ◌⊎◌, inl, inr, Bool, true, false, ◌||◌, List, [], ◌∷◌, ◌++◌,
  map, arith, Bytes, ◌==◌, nat_eq, list_eq, ltb, length, length-map, drop, any, All, concat,
  if◌then◌else◌, Bool-cases, ok, and_then-eq-ok,
}
use webdav_handler_rs.DavPath.Segments.{slash, split, ends_with_slash, starts_with}
use webdav_handler_rs.DavPath.{cut_query, push_piece, push_pieces, render, normalize_path}

-- The absolute path with these segments, and a slash at its end if it is a directory or the root.
unfoldable pub absolute : List Bytes → Bool → Bytes
absolute ss isdir =
    concat (map (λ s. slash ∷ s) ss) ++ (if isdir || length ss == 0 then slash ∷ [] else [])

pub concat-append {ℓ} :
    {A : Type ℓ} (xs ys : List (List A)) → concat (xs ++ ys) ≡ concat xs ++ concat ys
unfolding concat
concat-append [] ys = refl
concat-append (x ∷ xs) ys = rw (concat-append xs ys) (sym (append_assoc x (concat xs) (concat ys)))

-- Neither a NUL byte nor a slash.
abbrev pub IsSafe : Bytes → Type 0
IsSafe s = any (λ x. x == 0 || x == slash) s ≡ false

-- The vector of the loop holds a slash in front of each segment; its end comes first here.
unfoldable pub stack : List Bytes → List Bytes
stack [] = []
stack (s ∷ ss) = s ∷ (slash ∷ []) ∷ stack ss

length-stack-eq_zero : (ss : List Bytes) → (length (stack ss) == 0) ≡ (length ss == 0)
unfolding stack
length-stack-eq_zero [] = refl
length-stack-eq_zero (s ∷ ss) = ground arith

length-map-reverse_aux :
    (f : Bytes → Bytes) (ss ts : List Bytes)
    → length (map f (reverse_aux ss ts)) ≡ length ss + length ts
length-map-reverse_aux f [] ts = omega (arith, length-map f ts)
length-map-reverse_aux f (s ∷ ss) ts = omega (arith, length-map-reverse_aux f ss (s ∷ ts))

pub length-map-reverse :
    (f : Bytes → Bytes) (ss : List Bytes) → length (map f (reverse ss)) ≡ length ss
length-map-reverse f ss = omega (arith, length-map-reverse_aux f ss [])

-- `raw` is the path before the first `?`, and no `#` stands in it.
abbrev pub IsBeforeQuery : Bytes → Bytes → Type 0
IsBeforeQuery rp raw =
    (any (λ x. x == b'?' || x == b'#') raw ≡ false)
    × ((rp ≡ raw) ⊎ ((query : Bytes) × (rp ≡ raw ++ b'?' ∷ query)))

cut_query-IsBeforeQuery : (rp raw : Bytes) → cut_query rp ≡ ok raw → IsBeforeQuery rp raw
unfolding cut_query any
cut_query-IsBeforeQuery [] raw h = let q : raw ≡ [] = ground (arith, h) in rw q (refl, inl refl)
cut_query-IsBeforeQuery (c ∷ cs) raw h = elim (Bool-cases (c == b'#')) [
  | inl hash ↦ absurd (ground (arith, h, hash))
  | inr no_hash ↦ elim (Bool-cases (c == b'?')) [
    | inl mark ↦
        let q : raw ≡ [] = ground (arith, h, no_hash, mark) in
        rw q (refl, inr (cs, ground (arith, mark)))
    | inr no_mark ↦
        let (rest, e, h') =
          and_then-eq-ok (cut_query cs) (λ rest. ok (c ∷ rest)) (rw (no_hash, no_mark) at h) in
        let q : raw ≡ c ∷ rest = ground (arith, h') in
        let (plain, whole) = cut_query-IsBeforeQuery cs rest e in
        rw q (
          rw (no_hash, no_mark) plain,
          elim whole [
            | inl same ↦ inl (ap (◌∷◌ c) same)
            | inr (query, cut) ↦ inr (query, ap (◌∷◌ c) cut)
          ],
        )
  ]
]

-- What is left, the last one first, when a segment comes after others: `.` and nothing are skipped,
-- and `..` takes the one before it away.
abbrev pub step : List Bytes → Bytes → List Bytes
step ss segment =
    if segment == b'.' ∷ [] || segment == []
    then ss
    else if segment == b'.' ∷ b'.' ∷ []
    then drop 1 ss
    else segment ∷ ss

abbrev pub steps : List Bytes → List Bytes → List Bytes
steps ss [] = ss
steps ss (segment ∷ rest) = steps (step ss segment) rest

-- The segments of a path in order, with `.` and `..` resolved.
abbrev pub resolved : List Bytes → List Bytes
resolved segments = reverse (steps [] segments)

drop-stack : (ss : List Bytes) → drop 2 (stack ss) ≡ stack (drop 1 ss)
unfolding stack
drop-stack [] = refl
drop-stack (s ∷ ss) = refl

module _ (decode : Bytes → Bytes) where
  push_piece-step :
      (ss : List Bytes) (segment : Bytes) (v : List Bytes)
      → push_piece decode (stack ss) segment ≡ ok v
      → All (λ s. IsSafe (decode s)) ss
      → (v ≡ stack (step ss segment)) × All (λ s. IsSafe (decode s)) (step ss segment)
  unfolding push_piece stack
  push_piece-step ss segment v h safe = elim (Bool-cases (segment == b'.' ∷ [] || segment == [])) [
    | inl skipped ↦ rw skipped (ground (arith, h, skipped), safe)
    | inr kept ↦ elim (Bool-cases (segment == b'.' ∷ b'.' ∷ [])) [
      | inl up ↦ rw (kept, up) (ground (arith, h, kept, up, drop-stack ss), All-drop ss safe)
      | inr name ↦
          rw (kept, name) (ground (arith, h, kept, name), (ground (arith, h, kept, name), safe))
    ]
  ]
    where
      All-drop :
          (ss : List Bytes)
          → All (λ s. IsSafe (decode s)) ss
          → All (λ s. IsSafe (decode s)) (drop 1 ss)
      All-drop [] a = tt
      All-drop (s ∷ ss) a = a.1

  push_pieces-steps :
      (segments ss v : List Bytes)
      → push_pieces decode (stack ss) segments ≡ ok v
      → All (λ s. IsSafe (decode s)) ss
      → (v ≡ stack (steps ss segments)) × All (λ s. IsSafe (decode s)) (steps ss segments)
  unfolding push_pieces
  push_pieces-steps [] ss v h safe = (ground (arith, h), safe)
  push_pieces-steps (segment ∷ rest) ss v h safe =
      let (w, e, h') =
        and_then-eq-ok (push_piece decode (stack ss) segment) (λ w. push_pieces decode w rest) h in
      let (q, safe') = push_piece-step ss segment w e safe in
      push_pieces-steps rest (step ss segment) v
        (subst (λ x. push_pieces decode x rest ≡ ok v) q h') safe'

  module _ (plain : decode (slash ∷ []) ≡ slash ∷ []) where
    segments_map :
        (ss : List Bytes)
        → map (λ s. slash ∷ s) (map decode ss)
          ≡ map {A = Bytes} {B = Bytes} (λ s. slash ∷ decode s) ss
    segments_map ss = map-map (λ (s : Bytes). slash ∷ s) decode ss

    -- The decoded pieces of a stack, in order.
    concat-stack :
        (ss : List Bytes) (rest : List Bytes)
        → concat (map decode (reverse_aux (stack ss) rest))
          ≡ concat (map (λ s. slash ∷ decode s) (reverse ss)) ++ concat (map decode rest)
    unfolding stack concat
    concat-stack [] rest = refl
    concat-stack (s ∷ ss) rest =
        concat-stack ss ((slash ∷ []) ∷ s ∷ rest)
        ∙ simp (plain, reverse-cons, map-append, concat-append, append_assoc)

    pub render-stack :
        (isdir : Bool) (ss : List Bytes)
        → render decode isdir (stack ss) ≡ absolute (map decode (reverse ss)) isdir
    unfolding render absolute concat
    render-stack isdir ss = elim (Bool-cases (isdir || length ss == 0)) [
      | inl slashed ↦
          rw (length-stack-eq_zero ss, length-map-reverse decode ss, slashed)
            (concat-stack ss ((slash ∷ []) ∷ []) ∙ rw (plain, segments_map (reverse ss)) refl)
      | inr open_end ↦
          rw (length-stack-eq_zero ss, length-map-reverse decode ss, open_end)
            (concat-stack ss [] ∙ rw (segments_map (reverse ss)) refl)
    ]

  All-map-reverse_aux :
      (ss ts : List Bytes)
      → All (λ s. IsSafe (decode s)) ss
      → All IsSafe (map decode ts)
      → All IsSafe (map decode (reverse_aux ss ts))
  All-map-reverse_aux [] ts h k = k
  All-map-reverse_aux (s ∷ ss) ts h k = All-map-reverse_aux ss (s ∷ ts) h.1 (h.0, k)

  -- If the decoder leaves a slash alone, then what `normalize_path` accepts is made of the raw
  -- path before its query: that starts with a slash, its segments between slashes are taken with
  -- the empty ones and `.` left out and each `..` against the one before it, each is decoded, and
  -- none that is decoded holds a NUL byte or a slash; the result is the absolute path of these,
  -- with a slash at the end if the raw path ends in one or nothing is left.
  pub normalize_path-resolved :
      (rp p : Bytes)
      → decode (slash ∷ []) ≡ slash ∷ []
      → normalize_path decode rp ≡ ok p
      → (raw : Bytes) × IsBeforeQuery rp raw
        × (starts_with raw (slash ∷ []) ≡ true)
        × (p ≡ absolute (map decode (resolved (split raw))) (ends_with_slash raw))
        × All IsSafe (map decode (resolved (split raw)))
  unfolding normalize_path stack
  normalize_path-resolved rp p plain h = elim (Bool-cases (any (λ x. ltb x 32 || ltb 126 x) rp)) [
    | inl unprintable ↦ absurd (ground arith)
    | inr printable ↦
        let (raw, cut, h1) = and_then-eq-ok (cut_query rp) _ (rw printable at h) in
        elim (Bool-cases (starts_with raw (slash ∷ []))) [
          | inl rooted ↦
              let (v, loop, h2) =
                and_then-eq-ok (push_pieces decode [] (split raw)) _ (rw rooted at h1) in
              let (e, safe) = push_pieces-steps (split raw) [] v loop tt in
              (
                raw,
                cut_query-IsBeforeQuery rp raw cut,
                rooted,
                ground (arith, render-stack plain (ends_with_slash raw) (steps [] (split raw))),
                All-map-reverse_aux (steps [] (split raw)) [] safe tt,
              )
          | inr relative ↦ absurd (ground arith)
        ]
  ]
