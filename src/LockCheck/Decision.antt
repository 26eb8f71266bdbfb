-- ===== src/LockCheck/Decision.antt =====
-- The two checks of src/memls.rs and the locks that decide them.
use mathlib.Core.List.{Memᴰ}
use mathlib.Core.Path.{subst}
use webdav_handler_rs.Prelude.{
  ℕ, ◌≡◌, ◌⊎◌, refl, ◌∙◌, inl, inr, Bool, true, false, some, List, [], ◌∷◌, arith, Bytes, nat_eq,
  Bool-cases, Option-cases, ok, err,
}
use webdav_handler_rs.Tree.{Node, find_node, root_id}
use webdav_handler_rs.DavPath.{DavPath}
use webdav_handler_rs.Ls.{DavLock}
use webdav_handler_rs.LockTree.{LockTree, path_to_segs, find_path, lookup_node}
use webdav_handler_rs.LockTree.View.{child_at, find_path-cons, IsLockTree}
use webdav_handler_rs.LockTree.Create.{child_exists}
use webdav_handler_rs.LockCheck.{Claim, is_held, check_locks_to_path, check_locks_from_path}
use webdav_handler_rs.LockCheck.Covering.{covering, check_locks_to_path-covering}
use webdav_handler_rs.LockCheck.Judge.{passes, judge-passes, judge-stops}
use webdav_handler_rs.LockCheck.Below.{IsClear, Blocks, check_locks_from_node-cases}

module _ {Element : Type 0} where
  pub find_path-exists :
      (t : LockTree Element) (p N : ℕ) (segs : List Bytes) (n : Node Bytes (List (DavLock Element)))
      → IsLockTree t
      → find_node t p ≡ some n
      → find_path t p segs ≡ some N
      → (m : Node Bytes (List (DavLock Element))) × (find_node t N ≡ some m)
  unfolding find_path
  find_path-exists t p N [] n w found h = (n, ground arith)
  find_path-exists t p N (seg ∷ rest) n w found h = elim (Option-cases (child_at t p seg)) [
    | inl absent ↦ absurd (ground (arith, find_path-cons t p seg rest))
    | inr (c, there) ↦
        let (m, child) = child_exists t p seg c w there in
        find_path-exists t c N rest m w child (ground (arith, find_path-cons t p seg rest))
  ]

  -- No lock at the path or below it blocks.
  abbrev pub IsClearBelow : Claim → Bool → LockTree Element → List Bytes → Type 0
  IsClearBelow c shared_ok t segs =
      (id : ℕ) → find_path t root_id segs ≡ some id → IsClear c shared_ok t id

  module _ (c : Claim) (shared_ok : Bool) (t : LockTree Element) (path : DavPath)
      (segs : List Bytes) where
    -- The walk of `check_locks_to_path` decides exactly whether the locks that cover the path,
    -- the deep ones above it and all of those at its end, let the claim pass: it returns `ok` if
    -- they do, and else the error of one of them that the claim does not hold. They pass if each
    -- exclusive one is held, and one is held or shared locks do not count or there is none; so of
    -- several shared locks it is enough to hold one.
    pub check_locks_to_path-decided :
        path_to_segs {E = DavLock Element} path true ≡ ok ([] ∷ segs)
        → ((passes c shared_ok (covering t segs) ≡ true)
            × (check_locks_to_path c shared_ok t path ≡ ok tt))
          ⊎ ((passes c shared_ok (covering t segs) ≡ false)
              × (l : DavLock Element) × (check_locks_to_path c shared_ok t path ≡ err l)
              × Memᴰ l (covering t segs)
              × (is_held c l ≡ false))
    check_locks_to_path-decided e = elim (Bool-cases (passes c shared_ok (covering t segs))) [
      | inl h ↦ inl (
        h,
        check_locks_to_path-covering c shared_ok t path segs e
            ∙ judge-passes c shared_ok (covering t segs) h,
      )
      | inr h ↦
          let (l, q, m, u) = judge-stops c shared_ok (covering t segs) h in
          inr (h, l, check_locks_to_path-covering c shared_ok t path segs e ∙ q, m, u)
    ]

    -- In a sound tree, the recursion of `check_locks_from_path` ends with the fuel that it has,
    -- and decides exactly whether a lock at the path or at any depth below it blocks the claim:
    -- it returns `ok` if no node has the path or no lock there or below blocks, and else the
    -- error of a lock that does.
    pub check_locks_from_path-decided :
        IsLockTree t
        → path_to_segs {E = DavLock Element} path false ≡ ok segs
        → ((check_locks_from_path c shared_ok t path ≡ ok tt) × IsClearBelow c shared_ok t segs)
          ⊎ ((l : DavLock Element) × (id : ℕ) × (check_locks_from_path c shared_ok t path ≡ err l)
              × (find_path t root_id segs ≡ some id)
              × Blocks c shared_ok t id l)
    unfolding check_locks_from_path lookup_node webdav_handler_rs.HashMap.contains_key
    check_locks_from_path-decided w e = elim (Option-cases (find_node t root_id)) [
      | inl absent ↦ absurd (ground (arith, w.formed.root))
      | inr (root, there) ↦ elim (Option-cases (find_path t root_id segs)) [
        | inl no_path ↦ inl (rw (e, no_path) refl, λ id q. absurd (ground arith))
        | inr (id, at) ↦
            let (n, found) = find_path-exists t root_id id segs root w there at in
            elim (check_locks_from_node-cases c shared_ok t t.node_id id n w found (omega arith)) [
              | inl (ok_, clear) ↦
                  inl (rw (e, at) ok_, λ id' q. same_node id id' (ground arith) clear)
              | inr (l, fails, b) ↦ inr (l, id, rw (e, at) fails, at, b)
            ]
      ]
    ]
      where
        same_node : (i j : ℕ) → i ≡ j → IsClear c shared_ok t i → IsClear c shared_ok t j
        same_node i j q clear = subst (IsClear c shared_ok t) q clear
