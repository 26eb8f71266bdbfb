-- ===== src/MemLs/Preserved.antt =====
-- The handlers of src/memls.rs and the invariant of their tree.
use mathlib.Core.Option
use webdav_handler_rs.Prelude.{
  ℕ, ◌+◌, inl, inr, ◌+◌, ◌<◌, ◌≡◌, refl, true, Option, List, [], ◌∷◌, inl, inr, Bytes, ◌==◌, nat_eq,
  list_eq, length, Option-cases, Outcome, ok, err, panic, out_of_fuel, Run, pure, reads, Keeps,
  Keeps-bind, Keeps-reads, Keeps-fail, Keeps-if, Keeps-option,
}
use webdav_handler_rs.Errors.{FsError}
use webdav_handler_rs.Tree.{find_node, u64_mod, update_node, delete_node, delete_subtree}
use webdav_handler_rs.DavPath.{DavPath}
use webdav_handler_rs.Ls.{DavLock}
use webdav_handler_rs.LockTree.{LockTree, path_to_segs, lookup_lock, lookup_node}
use webdav_handler_rs.LockTree.View.{IsLockTree}
use webdav_handler_rs.LockTree.Kept.{
  new-IsLockTree, changed-IsLockTree, delete_node-IsLockTree, delete_subtree-IsLockTree,
}
use webdav_handler_rs.MemLs.{
  MemLs, LockRequest, new, tree_ok, change_locks, locks_at, lock, unlock_at, unlock, refresh_at,
  refresh, delete_at, delete, remove_token, refresh_token,
}
use webdav_handler_rs.MemLs.Locking.{
  path_check, deep_check, expiry_cases, lock_granted, lock_expired,
}

module _ {Element : Type 0} where
  abbrev pub IsSound : MemLs Element → Type 0
  IsSound s = IsLockTree s.tree

  pub new-IsSound : IsSound new
  unfolding new
  new-IsSound = new-IsLockTree

  change_locks-Keeps {κ} :
      {E : Type κ} (id : ℕ) (f : List (DavLock Element) → List (DavLock Element))
      → Keeps IsSound (change_locks {E = E} id f)
  unfolding change_locks update_node
  change_locks-Keeps {E = E} id f = record { at = kept }
    where
      kept : (s : MemLs Element) → IsSound s → IsSound (change_locks {E = E} id f s).1
      kept s w = elim (Option-cases (find_node s.tree id)) [
        | inl absent ↦ rw (change_locks, absent) w
        | inr (n, found) ↦ rw (change_locks, found) (changed-IsLockTree w id f)
      ]

  tree_ok-Keeps {ℓ κ} :
      {A : Type ℓ} {E : Type κ} (m : Run (LockTree Element) FsError A)
      → Keeps IsLockTree m
      → Keeps IsSound (tree_ok {E = E} m)
  unfolding tree_ok
  tree_ok-Keeps m k = record { at = λ s h. k.at s.tree h }

  unlock_at-Keeps : (token : Bytes) (id : ℕ) → Keeps IsSound (unlock_at token id)
  unfolding unlock_at
  unlock_at-Keeps token id = Keeps-bind (reads (locks_at id)) _ (Keeps-reads (locks_at id)) λ node.
      Keeps-bind (reads (λ _. remove_token token node)) _
        (Keeps-reads (λ _. remove_token token node))
        λ node'.
          Keeps-bind (change_locks id (λ _. node')) _ (change_locks-Keeps id (λ _. node')) λ _.
            Keeps-if (length node' == 0) (tree_ok (delete_node id)) (pure tt)
              (tree_ok-Keeps (delete_node id) (record { at = λ s h. delete_node-IsLockTree h id }))
              (record { at = λ s h. h })

  unlock-Keeps : (path : DavPath) (token : Bytes) → Keeps IsSound (unlock path token)
  unfolding unlock
  unlock-Keeps path token =
      Keeps-bind (reads (λ s. lookup_lock s.tree path token)) _
        (Keeps-reads (λ s. lookup_lock s.tree path token))
        λ found. Keeps-option found _ _ (Keeps-fail tt) (unlock_at-Keeps token)

  refresh_at-Keeps :
      (token : Bytes) (timeout : Option ℕ) (now id : ℕ)
      → Keeps IsSound (refresh_at token timeout now id)
  unfolding refresh_at
  refresh_at-Keeps token timeout now id =
      Keeps-bind (reads (locks_at id)) _ (Keeps-reads (locks_at id)) λ node.
        Keeps-bind (reads (λ _. refresh_token token timeout now node)) _
          (Keeps-reads (λ _. refresh_token token timeout now node))
          λ r.
            Keeps-bind (change_locks id (λ _. r.1)) _ (change_locks-Keeps id (λ _. r.1))
              λ _. record { at = λ s h. h }

  refresh-Keeps :
      (path : DavPath) (token : Bytes) (timeout : Option ℕ) (now : ℕ)
      → Keeps IsSound (refresh path token timeout now)
  unfolding refresh
  refresh-Keeps path token timeout now =
      Keeps-bind (reads (λ s. lookup_lock s.tree path token)) _
        (Keeps-reads (λ s. lookup_lock s.tree path token))
        λ found. Keeps-option found _ _ (Keeps-fail tt) (refresh_at-Keeps token timeout now)

  delete_at-Keeps : (id : ℕ) → Keeps IsSound (delete_at id)
  unfolding delete_at
  delete_at-Keeps id = record {
    at = λ s h.
        (tree_ok-Keeps {E = Unit {0}} (delete_subtree s.tree.node_id id)
            (delete_subtree-IsLockTree s.tree.node_id id)).at
          s h;
  }

  delete-Keeps : (path : DavPath) → Keeps IsSound (delete path)
  unfolding delete
  delete-Keeps path =
      Keeps-bind (reads (λ s. lookup_node s.tree path)) _
        (Keeps-reads (λ s. lookup_node s.tree path))
        λ found. Keeps-option found (pure tt) delete_at (record { at = λ s h. h }) delete_at-Keeps

  -- `unlock`, `refresh` and `delete` keep the lock tree sound, whatever they return.
  pub unlock-refresh-delete-IsSound :
      (path : DavPath) (token : Bytes) (timeout : Option ℕ) (now : ℕ) (s : MemLs Element)
      → IsSound s
      → IsSound (unlock path token s).1
        × IsSound (refresh path token timeout now s).1
        × IsSound (delete path s).1
  unlock-refresh-delete-IsSound path token timeout now s w = (
    (unlock-Keeps path token).at s w,
    (refresh-Keeps path token timeout now).at s w,
    (delete-Keeps path).at s w,
  )

  -- `lock` keeps the lock tree sound, whatever it returns, while ids are left for the nodes of
  -- the path: the tree is well-formed, and ids grow from a node to its children.
  pub lock-IsSound :
      (r : LockRequest Element) (token : Bytes) (now : ℕ) (s : MemLs Element) (segs : List Bytes)
      → path_to_segs {E = DavLock Element} r.path true ≡ ok ([] ∷ segs)
      → s.tree.node_id + length segs < u64_mod
      → IsSound s
      → IsSound (lock r token now s).1
  unfolding lock
  lock-IsSound r token now s segs e room w = by_checks (path_check r s) (deep_check r s) refl refl
    where
      by_checks :
          (a b : Outcome (DavLock Element) (Unit {0}))
          → path_check r s ≡ a
          → deep_check r s ≡ b
          → IsSound (lock r token now s).1
      by_checks (ok u) (ok v) p q = elim (expiry_cases {E = DavLock Element} now r.timeout) [
        | inl due ↦
            let (N, t, g) =
              lock_granted r s segs token now w e room p q (Option.map (λ d. now + d) r.timeout)
                due in
            rw (g.granted) (changed-IsLockTree g.created.tree N _)
        | inr (late, _) ↦
            let (N, t, x) = lock_expired r s segs token now w e room p q late in
            rw (x.expired) x.created.tree
      ]
      by_checks (ok u) (err x) p q = rw (p, q) w
      by_checks (ok u) panic p q = rw (p, q) w
      by_checks (ok u) out_of_fuel p q = rw (p, q) w
      by_checks (err x) b p q = rw p w
      by_checks panic b p q = rw p w
      by_checks out_of_fuel b p q = rw p w
