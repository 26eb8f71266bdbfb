-- ===== src/LockTree/View.antt =====
-- The tree of locks by what the walks read of it: the locks at a node and its children.
use webdav_handler_rs.Prelude.{
  ℕ, ◌≤◌, ◌<◌, ◌≡◌, refl, inl, inr, Option, none, some, List, [], ◌∷◌, arith, Bytes, ◌==◌, nat_eq,
  list_eq, length, if◌then◌else◌, Option-cases, ok_or,
}
use webdav_handler_rs.Errors.{FsError}
use webdav_handler_rs.HashMap.{get, get-insert}
use webdav_handler_rs.Tree
use webdav_handler_rs.Tree.{Tree, Node, find_node, root_id, get_node, update_node}
use webdav_handler_rs.Tree.Invariant.{IsWellFormed}
use webdav_handler_rs.Ls.{DavLock}
use webdav_handler_rs.LockTree.{LockTree, get_child, find_path, locks_of}

module _ {Element : Type 0} where
  abbrev pub data_at : LockTree Element → ℕ → Option (List (DavLock Element))
  data_at t i = elim (find_node t i) [ none ↦ none | some n ↦ some n.node_data ]

  abbrev pub child_at : LockTree Element → ℕ → Bytes → Option ℕ
  child_at t i k = elim (find_node t i) [ none ↦ none | some n ↦ get k n.children ]

  pub get_node-data_at :
      (t : LockTree Element) (i : ℕ) → get_node t i ≡ ok_or (data_at t i) FsError.not_found
  unfolding get_node
  get_node-data_at t i = ground arith

  pub tree_get_child-child_at :
      (t : LockTree Element) (i : ℕ) (k : Bytes)
      → Tree.get_child t i k ≡ ok_or (child_at t i k) FsError.not_found
  unfolding Tree.get_child
  tree_get_child-child_at t i k = ground arith

  -- Where `get_child` leads.
  abbrev pub step_to : LockTree Element → ℕ → Bytes → Option ℕ
  step_to t i seg = if length seg == 0 then some i else child_at t i seg

  pub get_child-step_to :
      (t : LockTree Element) (i : ℕ) (seg : Bytes)
      → get_child t i seg ≡ ok_or (step_to t i seg) FsError.not_found
  unfolding get_child
  get_child-step_to t i seg = ground (arith, tree_get_child-child_at t i seg)

  pub locks_of-data_at :
      (t : LockTree Element) (i : ℕ)
      → locks_of t i ≡ (elim (data_at t i) [ none ↦ [] | some ls ↦ ls ])
  unfolding get_node
  locks_of-data_at t i = ground arith

  -- Ids grow from a node to its children.
  abbrev pub IsOrdered : LockTree Element → Type 0
  IsOrdered t = (i : ℕ) (k : Bytes) (c : ℕ) → child_at t i k ≡ some c → i < c

  -- The states that the handlers build.
  pub record IsLockTree (t : LockTree Element) : Type 0 where
    pub formed : IsWellFormed t
    pub ordered : IsOrdered t

  pub find_path-cons :
      (t : LockTree Element) (i : ℕ) (seg : Bytes) (rest : List Bytes)
      → find_path t i (seg ∷ rest)
        ≡ (elim (child_at t i seg) [ none ↦ none | some c ↦ find_path t c rest ])
  unfolding find_path
  find_path-cons t i seg rest = ground (arith, tree_get_child-child_at t i seg)

  -- A walk never leads to a smaller id.
  pub find_path-le :
      (t : LockTree Element) (i j : ℕ) (segs : List Bytes)
      → IsOrdered t
      → find_path t i segs ≡ some j
      → i ≤ j
  unfolding find_path
  find_path-le t i j [] o h = ground arith
  find_path-le t i j (seg ∷ rest) o h = elim (Option-cases (child_at t i seg)) [
    | inl absent ↦ absurd (ground (arith, find_path-cons t i seg rest))
    | inr (c, there) ↦
        ground (
          arith,
          o i seg c,
          find_path-le t c j rest o (ground (arith, find_path-cons t i seg rest)),
        )
  ]

  -- The locks of one node change, and nothing else.
  module _ (t : LockTree Element) (id : ℕ)
      (f : List (DavLock Element) → List (DavLock Element)) where
    abbrev pub changed : LockTree Element
    changed = (update_node id f t).1

    pub data_at-update_node :
        (i : ℕ)
        → data_at changed i ≡ (
            if id == i
            then (elim (data_at t i) [ none ↦ none | some ls ↦ some (f ls) ])
            else data_at t i)
    unfolding update_node
    data_at-update_node i = elim (Option-cases (find_node t id)) [
      | inl absent ↦ ground arith
      | inr (n, found) ↦
          ground (arith, get-insert id i (record n { node_data = f n.node_data }) t.nodes)
    ]

    pub child_at-update_node : (i : ℕ) (k : Bytes) → child_at changed i k ≡ child_at t i k
    unfolding update_node
    child_at-update_node i k = elim (Option-cases (find_node t id)) [
      | inl absent ↦ ground arith
      | inr (n, found) ↦
          ground (arith, get-insert id i (record n { node_data = f n.node_data }) t.nodes)
    ]

    pub find_path-update_node :
        (i : ℕ) (segs : List Bytes) → find_path changed i segs ≡ find_path t i segs
    find_path-update_node i [] = unfold find_path in refl
    find_path-update_node i (seg ∷ rest) = elim (Option-cases (child_at t i seg)) [
      | inl absent ↦ ground (
        arith,
        child_at-update_node i seg,
        find_path-cons t i seg rest,
        find_path-cons changed i seg rest,
      )
      | inr (c, there) ↦ ground (
        arith,
        child_at-update_node i seg,
        find_path-cons t i seg rest,
        find_path-cons changed i seg rest,
        find_path-update_node c rest,
      )
    ]
