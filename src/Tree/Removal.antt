-- ===== src/Tree/Removal.antt =====
-- `delete_node_from_parent`, `delete_subtree` and `move_node` of src/tree.rs and the invariant.
use webdav_handler_rs.Prelude.{
  ℕ, zero, suc, ◌≡◌, ◌≢◌, some, arith, Eq, nat_eq, ltb, length, Bool-cases, Option-cases, inl, inr,
  continue_failed, Keeps, Keeps-bind, Keeps-reads, Keeps-for_each,
}
use webdav_handler_rs.Tree.{
  Tree, Node, find_node, root_id, key_of, drop_child, delete_node_from_parent, remove_node,
  delete_node, delete_subtree,
}
use webdav_handler_rs.Tree.Invariant.{
  IsWellFormed, with_node, unlink-IsWellFormed, remove-IsWellFormed,
}
use webdav_handler_rs.Tree.Preserved.{
  get-key_of, delete_node_from_parent_cases, drop_child-IsUnlinked,
  delete_node_from_parent-IsWellFormed,
}

module _ {ℓ} {K D : Type ℓ} ⦃e : Eq K⦄ where
  module _ {t : Tree K D} (w : IsWellFormed t) where
    -- A node that has an entry is not the root.
    pub ne-root_id_of_linked :
        (id i : ℕ) (p : Node K D) (k : K)
        → find_node t i ≡ some p
        → key_of id p.children ≡ some k
        → id ≢ root_id
    ne-root_id_of_linked id i p k found kfound = λ q.
        ground (arith, w.not_root i p k, get-key_of id k p.children (w.distinct i p found) kfound)

    after_unlink :
        (id : ℕ) (n p : Node K D) (k : K)
        → find_node t id ≡ some n
        → find_node t n.parent_id ≡ some p
        → key_of id p.children ≡ some k
        → IsWellFormed (remove_node id (with_node n.parent_id (drop_child k p) t)).1
    unfolding remove_node
    after_unlink id n p k found pfound kfound =
        let t' : Tree K D = with_node n.parent_id (drop_child k p) t in
        let w' : IsWellFormed t' = unlink-IsWellFormed w n.parent_id k p pfound in
        elim (Option-cases (find_node t' id)) [
          | inl absent ↦ rw (absent, remove_node) w'
          | inr (m, there) ↦
              rw (there, remove_node)
                (remove-IsWellFormed w' id (drop_child-IsUnlinked w id n p k found pfound kfound)
                  (ne-root_id_of_linked id n.parent_id p k pfound kfound))
        ]

    pub delete_node-IsWellFormed : (id : ℕ) → IsWellFormed (delete_node id t).1
    unfolding delete_node
    delete_node-IsWellFormed id = elim (Option-cases (find_node t id)) [
      | inl absent ↦ rw absent w
      | inr (n, found) ↦ elim (Bool-cases (ltb 0 (length n.children))) [
        | inl some_children ↦ rw (found, some_children) w
        | inr no_children ↦ elim (delete_node_from_parent_cases w id) [
          | inl (same, failed) ↦
              rw (found, no_children)
                (rw
                  (
                    continue_failed (delete_node_from_parent id t).0
                        (delete_node_from_parent id t).1 (λ _. remove_node id) (λ u. failed),
                    same,
                  )
                  w)
          | inr (n', p, k, found', pfound, kfound, e) ↦
              rw (found, no_children, e) (after_unlink id n' p k found' pfound kfound)
        ]
      ]
    ]

  -- `delete_subtree` keeps the tree well-formed, whatever its fuel.
  pub delete_subtree-IsWellFormed :
      (fuel id : ℕ) → Keeps (IsWellFormed {K = K} {D = D}) (delete_subtree fuel id)
  unfolding delete_subtree
  delete_subtree-IsWellFormed zero id = record { at = λ s h. h }
  delete_subtree-IsWellFormed (suc fuel) id = Keeps-bind _ _ (Keeps-reads _) λ n.
      Keeps-bind _ _ (Keeps-for_each _ _ (delete_subtree-IsWellFormed fuel))
        λ _. record { at = λ s h. delete_node_from_parent-IsWellFormed h id }

  -- `delete_node`, and `delete_subtree` with any fuel, keep a tree well-formed, whatever they
  -- return.
  pub delete-IsWellFormed :
      (t : Tree K D) (fuel id : ℕ)
      → IsWellFormed t
      → IsWellFormed (delete_node id t).1 × IsWellFormed (delete_subtree fuel id t).1
  delete-IsWellFormed t fuel id w =
      (delete_node-IsWellFormed w id, (delete_subtree-IsWellFormed fuel id).at t w)
