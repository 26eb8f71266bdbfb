-- ===== src/MemFs/OpenFile/Spliced.antt =====
-- The data of an open file of src/memfs.rs, when bytes are copied over a part of it.
use mathlib.Core.List.{append_assoc}
use webdav_handler_rs.Prelude.{
  ℕ, Bool, true, ◌&&◌, ◌⊎◌, ◌+◌, ◌-◌, ◌≤◌, ◌<◌, ◌≡◌, refl, sym, ap, ◌∙◌, List, [], ◌∷◌, ◌++◌, Bytes,
  nat_eq, arith, ltb, length, take, drop, replicate, concat, length-append, take_append_drop,
  length-take, drop-drop, take-length_append, drop-length_append, length-replicate, inl, inr,
  Bool-cases, Option-cases, ok, panic,
}
use webdav_handler_rs.HashMap.{get-insert}
use webdav_handler_rs.Tree.{find_node, get_node, update_node}
use webdav_handler_rs.MemFs.Nodes.{MemFsFileNode, as_file}
use webdav_handler_rs.MemFs.OpenFile.{
  FileState, read_file, set_data, isize_max, extended, grow, splice, store, copy_chunks,
}

pub splice-middle :
    (xs m ys b : Bytes)
    → length m ≡ length b
    → splice (length xs) b (xs ++ (m ++ ys)) ≡ xs ++ (b ++ ys)
splice-middle xs m ys b same =
    let rest : drop (length xs + length b) (xs ++ (m ++ ys)) ≡ ys =
      sym (drop-drop (length xs) (length b) (xs ++ (m ++ ys)))
      ∙ rw (drop-length_append xs (m ++ ys), sym same) (drop-length_append m ys) in
    rw (take-length_append xs (m ++ ys), rest) refl

copy_chunks-middle :
    (xs m ys : Bytes) (chunks : List Bytes)
    → length m ≡ length (concat chunks)
    → copy_chunks (length xs) chunks (xs ++ (m ++ ys)) ≡ xs ++ (concat chunks ++ ys)
unfolding copy_chunks concat
copy_chunks-middle xs [] ys [] h = refl
copy_chunks-middle xs (x ∷ m) ys [] h = absurd (ground arith)
copy_chunks-middle xs m ys (b ∷ rest) h =
    let fits : length b ≤ length m = omega (arith, length-append b (concat rest)) in
    let m1 : Bytes = take (length b) m in
    let m2 : Bytes = drop (length b) m in
    let l1 : length m1 ≡ length b = length-take (length b) m fits in
    let joined : m1 ++ m2 ≡ m = take_append_drop (length b) m in
    let l2 : length m2 ≡ length (concat rest) =
      omega (arith, length-append b (concat rest), length-append m1 m2, ap length joined) in
    let cut : xs ++ (m ++ ys) ≡ xs ++ (m1 ++ (m2 ++ ys)) =
      ap (λ z. xs ++ (z ++ ys)) (sym joined) ∙ ap (λ z. xs ++ z) (append_assoc m1 m2 ys) in
    let step : splice (length xs) b (xs ++ (m ++ ys)) ≡ (xs ++ b) ++ (m2 ++ ys) =
      ap (splice (length xs) b) cut
      ∙ splice-middle xs m1 (m2 ++ ys) b l1
      ∙ sym (append_assoc xs b (m2 ++ ys)) in
    ap (λ z. copy_chunks (length xs + length b) rest z) step
    ∙ ap (λ k. copy_chunks k rest ((xs ++ b) ++ (m2 ++ ys))) (sym (length-append xs b))
    ∙ copy_chunks-middle (xs ++ b) m2 ys rest l2
    ∙ append_assoc xs b (concat rest ++ ys)
    ∙ ap (λ z. xs ++ z) (sym (append_assoc b (concat rest) ys))

-- A long enough file is what stands before the position, what is to be overwritten, and the rest.
pub record Parts (p n : ℕ) (d : Bytes) : Type 0 where
  pub before : Bytes
  pub middle : Bytes
  pub after : Bytes
  pub whole : d ≡ before ++ (middle ++ after)
  pub length_before : length before ≡ p
  pub length_middle : length middle ≡ n

pub parts : (p n : ℕ) (d : Bytes) → p + n ≤ length d → Parts p n d
parts p n d fits = record {
  before = take p d;
  middle = take n (drop p d);
  after = drop n (drop p d);
  whole = sym (ap (λ z. take p d ++ z) (take_append_drop n (drop p d)) ∙ take_append_drop p d);
  length_before = length-take p d (omega arith);
  length_middle = length-take n (drop p d) (
      omega (
        arith,
        ap length (take_append_drop p d),
        length-append (take p d) (drop p d),
        length-take p d (omega arith),
      ));
}

-- Chunk by chunk or as a whole.
pub copy_chunks-splice :
    (p : ℕ) (chunks : List Bytes) (d : Bytes)
    → p + length (concat chunks) ≤ length d
    → copy_chunks p chunks d ≡ splice p (concat chunks) d
copy_chunks-splice p chunks d fits =
    let q = parts p (length (concat chunks)) d fits in
    ap (copy_chunks p chunks) q.whole
    ∙ ap (λ k. copy_chunks k chunks (q.before ++ (q.middle ++ q.after))) (sym q.length_before)
    ∙ copy_chunks-middle q.before q.middle q.after chunks q.length_middle
    ∙ sym (splice-middle q.before q.middle q.after (concat chunks) q.length_middle)
    ∙ ap (λ k. splice k (concat chunks) (q.before ++ (q.middle ++ q.after))) q.length_before
    ∙ ap (splice p (concat chunks)) (sym q.whole)

pub length-extended : (e : ℕ) (d : Bytes) → e ≤ length (extended e d)
length-extended e d =
    omega (
      arith,
      length-append d (replicate (e - length d) 0),
      length-replicate {A = ℕ} (e - length d) 0,
    )

-- A write changes the data of the open file and nothing else of it.
pub read_file-store :
    (s : FileState) (f : MemFsFileNode) (d : Bytes)
    → read_file s ≡ ok f
    → read_file (store d s) ≡ ok (record f { data_ = d })
unfolding read_file get_node update_node as_file
read_file-store s f d h = elim (Option-cases (find_node s.tree s.file.node_id)) [
  | inl absent ↦ absurd (ground arith)
  | inr (n, found) ↦ ground (
    arith,
    get-insert s.file.node_id s.file.node_id (record n { node_data = set_data d n.node_data })
        s.tree.nodes,
  )
]

-- The data is extended, or it would be too long.
pub grow_cases :
    (end : ℕ) (d : Bytes)
    → (grow end d ≡ ok (extended end d)) ⊎ ((grow end d ≡ panic) × (isize_max < end))
unfolding grow
grow_cases end d = elim (Bool-cases (ltb (length d) end && ltb isize_max end)) [
  | inl full ↦ inr (rw full refl, beyond (ltb (length d) end) end full)
  | inr short ↦ inl (rw short refl)
]
  where
    beyond : (b : Bool) (n : ℕ) → (b && ltb isize_max n) ≡ true → isize_max < n
    beyond b n h = ground arith
