-- ===== src/LockTree/Kept.antt =====
-- The calls of src/memls.rs on its tree, and the order of the ids.
use webdav_handler_rs.Prelude.{
  ℕ, zero, suc, ◌≡◌, inl, inr, some, List, [], arith, Bytes, nat_eq, list_eq, ltb, length,
  Bool-cases, Option-cases, Keeps, Keeps-bind, Keeps-reads, Keeps-for_each, continue_failed,
}
use webdav_handler_rs.HashMap
use webdav_handler_rs.HashMap.{get, get-insert, get-remove}
use webdav_handler_rs.Tree.{
  Tree, Node, find_node, key_of, drop_child, root_id, new, update_node, delete_node_from_parent,
  remove_node, delete_node, delete_subtree,
}
use webdav_handler_rs.Tree.Invariant.{with_node, update_node-IsWellFormed}
use webdav_handler_rs.Tree.Preserved.{
  new-IsWellFormed, delete_node_from_parent-IsWellFormed, delete_node_from_parent_cases,
}
use webdav_handler_rs.Tree.Removal.{delete_node-IsWellFormed}
use webdav_handler_rs.Ls.{DavLock}
use webdav_handler_rs.LockTree.{LockTree}
use webdav_handler_rs.LockTree.View.{changed, child_at-update_node, IsOrdered, IsLockTree}

module _ {Element : Type 0} where
  pub new-IsLockTree : IsLockTree {Element = Element} (new [])
  unfolding new get webdav_handler_rs.Tree.new_node HashMap.insert
  new-IsLockTree = record {
    formed = new-IsWellFormed [];
    ordered = λ i k c h. absurd (ground arith);
  }

  module _ {t : LockTree Element} (w : IsLockTree t) where
    pub changed-IsLockTree :
        (id : ℕ) (f : List (DavLock Element) → List (DavLock Element)) → IsLockTree (changed t id f)
    changed-IsLockTree id f = record {
      formed = update_node-IsWellFormed w.formed id f;
      ordered = λ i k c h. w.ordered i k c (ground (arith, child_at-update_node t id f i k));
    }

    unlinked-IsOrdered :
        (p : ℕ) (k : Bytes) (n : Node Bytes (List (DavLock Element)))
        → find_node t p ≡ some n
        → IsOrdered (with_node p (drop_child k n) t)
    unlinked-IsOrdered p k n found = λ i j c h.
        ground (
          arith,
          get-insert p i (drop_child k n) t.nodes,
          get-remove k j n.children,
          w.ordered i j c,
        )

    removed-IsOrdered : (id : ℕ) → IsOrdered (record t { nodes = HashMap.remove id t.nodes })
    removed-IsOrdered id = λ i j c h. ground (arith, get-remove id i t.nodes, w.ordered i j c)

    pub delete_node_from_parent-IsLockTree : (id : ℕ) → IsLockTree (delete_node_from_parent id t).1
    delete_node_from_parent-IsLockTree id = record {
      formed = delete_node_from_parent-IsWellFormed w.formed id;
      ordered = elim (delete_node_from_parent_cases w.formed id) [
        | inl (same, _) ↦ rw same w.ordered
        | inr (n, p, k, _, pfound, _, e) ↦ rw e (unlinked-IsOrdered n.parent_id k p pfound)
      ];
    }

  remove_node-IsOrdered :
      (t : LockTree Element) (id : ℕ) → IsLockTree t → IsOrdered (remove_node id t).1
  unfolding remove_node
  remove_node-IsOrdered t id w = elim (Option-cases (find_node t id)) [
    | inl absent ↦ rw (absent, remove_node) w.ordered
    | inr (n, found) ↦ rw (found, remove_node) (removed-IsOrdered w id)
  ]

  module _ {t : LockTree Element} (w : IsLockTree t) where
    delete_node-IsOrdered : (id : ℕ) → IsOrdered (delete_node id t).1
    unfolding delete_node
    delete_node-IsOrdered id = elim (Option-cases (find_node t id)) [
      | inl absent ↦ rw absent w.ordered
      | inr (n, found) ↦ elim (Bool-cases (ltb 0 (length n.children))) [
        | inl some_children ↦ rw (found, some_children) w.ordered
        | inr no_children ↦ elim (delete_node_from_parent_cases w.formed id) [
          | inl (same, failed) ↦
              rw (found, no_children)
                (rw
                  (
                    continue_failed (delete_node_from_parent id t).0
                        (delete_node_from_parent id t).1 (λ _. remove_node id) (λ u. failed),
                    same,
                  )
                  w.ordered)
          | inr (n', p, k, found', pfound, kfound, e) ↦
              rw (found, no_children, e)
                (remove_node-IsOrdered _ id (rw e at (delete_node_from_parent-IsLockTree w id)))
        ]
      ]
    ]

    pub delete_node-IsLockTree : (id : ℕ) → IsLockTree (delete_node id t).1
    delete_node-IsLockTree id = record {
      formed = delete_node-IsWellFormed w.formed id;
      ordered = delete_node-IsOrdered id;
    }

  pub delete_subtree-IsLockTree :
      (fuel id : ℕ) → Keeps (IsLockTree {Element = Element}) (delete_subtree fuel id)
  unfolding delete_subtree
  delete_subtree-IsLockTree zero id = record { at = λ s h. h }
  delete_subtree-IsLockTree (suc fuel) id = Keeps-bind _ _ (Keeps-reads _) λ n.
      Keeps-bind _ _ (Keeps-for_each _ _ (delete_subtree-IsLockTree fuel))
        λ _. record { at = λ s h. delete_node_from_parent-IsLockTree h id }
