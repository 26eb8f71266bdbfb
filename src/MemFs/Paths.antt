-- ===== src/MemFs/Paths.antt =====
-- The lookups of src/memfs.rs along a path.
use webdav_handler_rs.Prelude.{
  ℕ, ◌≡◌, refl, ap, ◌∙◌, Bool, true, false, List, [], ◌∷◌, ◌++◌, Bytes, nat_eq, list_eq, arith, ok,
  err, and_then, and_then-eq-ok, inl, inr, Bool-cases,
}
use webdav_handler_rs.Errors.{FsError}
use webdav_handler_rs.Tree.{get_node, get_child, root_id}
use webdav_handler_rs.MemFs.Nodes.{MemFsNode, MemFsDirNode, MemFsFileNode, is_dir}
use webdav_handler_rs.MemFs.Lookup.{FsTree, lookup_from, lookup_segs}

lookup_from-step :
    (t : FsTree) (n : ℕ) (seg : Bytes) (rest : List Bytes) (node : MemFsNode)
    → get_node t n ≡ ok node
    → is_dir node ≡ true
    → lookup_from t n true (seg ∷ rest)
      ≡ and_then (get_child t n seg) (λ c. lookup_from t c true rest)
unfolding lookup_from
lookup_from-step t n seg rest node found d = rw (lookup_from, found, d) refl

lookup_from-at_file :
    (t : FsTree) (n : ℕ) (seg : Bytes) (rest : List Bytes) (node : MemFsNode)
    → get_node t n ≡ ok node
    → is_dir node ≡ false
    → lookup_from t n true (seg ∷ rest) ≡ lookup_from t n false rest
unfolding lookup_from
lookup_from-at_file t n seg rest node found d = rw (lookup_from, found, d) refl

lookup_from-false :
    (t : FsTree) (n N : ℕ) (rest : List Bytes) → lookup_from t n false rest ≡ ok N → n ≡ N
unfolding lookup_from
lookup_from-false t n N [] h = ground arith
lookup_from-false t n N (seg ∷ rest) h = absurd (ground arith)

-- A lookup that ends at a directory goes on from there.
lookup_from-append :
    (t : FsTree) (n P : ℕ) (segs rest : List Bytes) (d : MemFsDirNode)
    → lookup_from t n true segs ≡ ok P
    → get_node t P ≡ ok (MemFsNode.dir d)
    → lookup_from t n true (segs ++ rest) ≡ lookup_from t P true rest
unfolding lookup_from is_dir
lookup_from-append t n P [] rest d h at = ap (λ i. lookup_from t i true rest) {x = n} (ground arith)
lookup_from-append t n P (seg ∷ segs) rest d h at =
    let (node, found, _) = and_then-eq-ok (get_node t n) _ h in
    elim (Bool-cases (is_dir node)) [
      | inl a_dir ↦
          let (c, there, later) =
            and_then-eq-ok (get_child t n seg) (λ c. lookup_from t c true segs)
              (rw (lookup_from-step t n seg segs node found a_dir) at h) in
          lookup_from-step t n seg (segs ++ rest) node found a_dir
          ∙ rw there (lookup_from-append t c P segs rest d later at)
      | inr a_file ↦
          let same : n ≡ P =
            lookup_from-false t n P segs
              (rw (lookup_from-at_file t n seg segs node found a_file) at h) in
          absurd (ground (arith, found, at, same, a_file))
    ]

-- A path that goes on after a file with one more segment leads to the file itself; with two or
-- more the lookup is forbidden.
pub lookup_segs-through_file :
    (t : FsTree) (segs : List Bytes) (name x y : Bytes) (more : List Bytes) (P N : ℕ)
    (d : MemFsDirNode) (f : MemFsFileNode)
    → lookup_segs t segs ≡ ok P
    → get_node t P ≡ ok (MemFsNode.dir d)
    → get_child t P name ≡ ok N
    → get_node t N ≡ ok (MemFsNode.file f)
    → (lookup_segs t (segs ++ name ∷ x ∷ []) ≡ ok N)
      × (lookup_segs t (segs ++ name ∷ x ∷ y ∷ more) ≡ err FsError.forbidden)
unfolding lookup_segs
lookup_segs-through_file t segs name x y more P N d f h at there file = (
  lookup_from-append t root_id P segs (name ∷ x ∷ []) d h at
      ∙ via (x ∷ [])
      ∙ at_file (x ∷ [])
      ∙ (unfold lookup_from in refl),
  lookup_from-append t root_id P segs (name ∷ x ∷ y ∷ more) d h at
      ∙ via (x ∷ y ∷ more)
      ∙ at_file (x ∷ y ∷ more)
      ∙ (unfold lookup_from in refl),
)
  where
    is_start : List Bytes → Bool
    is_start [] = true
    is_start (y ∷ rest) = false

    after : List Bytes → List Bytes
    after [] = []
    after (y ∷ rest) = rest

    via : (rest : List Bytes) → lookup_from t P true (name ∷ rest) ≡ lookup_from t N true rest
    via rest =
        lookup_from-step t P name rest (MemFsNode.dir d) at (unfold is_dir in refl) ∙ rw there refl

    at_file :
        (rest : List Bytes)
        → lookup_from t N true rest ≡ lookup_from t N (is_start rest) (after rest)
    at_file [] = refl
    at_file (y ∷ rest) =
        lookup_from-at_file t N y rest (MemFsNode.file f) file (unfold is_dir in refl)
