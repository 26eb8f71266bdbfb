-- ===== src/MemLs/Root.antt =====
-- `unlock` and `delete` of src/memls.rs at the root of the tree, which has no parent.
use webdav_handler_rs.Prelude.{
  ℕ, zero, suc, ◌≡◌, ◌≢◌, ==_refl, refl, ap, true, false, none, some, List, [], ◌∷◌, arith, Bytes,
  ◌==◌, nat_eq, list_eq, any, ok, panic, for_each,
}
use webdav_handler_rs.HashMap
use webdav_handler_rs.HashMap.{get, get-insert}
use webdav_handler_rs.Tree.{
  Node, find_node, root_id, get_node, update_node, delete_node_from_parent, delete_node,
  delete_subtree,
}
use webdav_handler_rs.DavPath.{DavPath}
use webdav_handler_rs.Ls.{DavLock}
use webdav_handler_rs.LockTree.{
  LockTree, path_to_segs, find_path, get_child, has_token, lookup_lock_from, lookup_lock,
  lookup_node,
}
use webdav_handler_rs.MemLs.{
  MemLs, tree_ok, change_locks, locks_at, remove_token, unlock_at, unlock, delete_at, delete,
}

module _ {Element : Type 0} where
  -- A root without children, as a new tree has it.
  pub record IsBareRoot (t : LockTree Element) (n : Node Bytes (List (DavLock Element)))
      : Type 0 where
    pub found : find_node t root_id ≡ some n
    pub no_parent : find_node t n.parent_id ≡ none
    pub no_children : n.children ≡ []

  delete_node_from_parent-root :
      (t : LockTree Element) (n : Node Bytes (List (DavLock Element)))
      → find_node t root_id ≡ some n
      → find_node t n.parent_id ≡ none
      → delete_node_from_parent root_id t ≡ (panic, t)
  unfolding delete_node_from_parent
  delete_node_from_parent-root t n found orphan = rw (found, orphan) refl

  delete_node-root :
      (t : LockTree Element) (n : Node Bytes (List (DavLock Element)))
      → IsBareRoot t n
      → (delete_node root_id t).0 ≡ panic
  unfolding delete_node
  delete_node-root t n b =
      rw (b.found, b.no_children, delete_node_from_parent-root t n b.found b.no_parent) refl

  -- Emptying the root's locks leaves it bare.
  abbrev emptied :
      (t : LockTree Element) (n : Node Bytes (List (DavLock Element))) → LockTree Element
  emptied t n = record t { nodes = HashMap.insert root_id (record n { node_data = [] }) t.nodes }

  emptied-IsBareRoot :
      (t : LockTree Element) (n : Node Bytes (List (DavLock Element)))
      → IsBareRoot t n
      → IsBareRoot (emptied t n) (record n { node_data = [] })
  emptied-IsBareRoot t n b = record {
    found = ground (arith, get-insert root_id root_id (record n { node_data = [] }) t.nodes);
    no_parent = ground (
      arith,
      b.found,
      b.no_parent,
      get-insert root_id n.parent_id (record n { node_data = [] }) t.nodes,
    );
    no_children = b.no_children;
  }

  lookup_lock-root :
      (t : LockTree Element) (n : Node Bytes (List (DavLock Element))) (path : DavPath)
      (token : Bytes) (segs : List Bytes)
      → path_to_segs {E = Unit {0}} path true ≡ ok ([] ∷ segs)
      → find_node t root_id ≡ some n
      → has_token token n.node_data ≡ true
      → lookup_lock {E = Unit {0}} t path token ≡ ok (some root_id)
  unfolding lookup_lock lookup_lock_from get_child get_node
  lookup_lock-root t n path token segs e found has = rw e first
    where
      first : lookup_lock_from {E = Unit {0}} t root_id ([] ∷ segs) token ≡ ok (some root_id)
      first = rw (lookup_lock_from, found, has) refl

  locks_at-found :
      (s : MemLs Element) (i : ℕ) (n : Node Bytes (List (DavLock Element)))
      → find_node s.tree i ≡ some n
      → locks_at {E = Unit {0}} i s ≡ ok n.node_data
  unfolding locks_at get_node
  locks_at-found s i n found = rw (locks_at, found) refl

  change_locks-root :
      (s : MemLs Element) (n : Node Bytes (List (DavLock Element)))
      → find_node s.tree root_id ≡ some n
      → change_locks {E = Unit {0}} root_id (λ _. []) s
        ≡ (ok tt, record s { tree = emptied s.tree n })
  unfolding change_locks update_node
  change_locks-root s n found =
      let run : update_node root_id (λ _. []) s.tree ≡ (ok tt, emptied s.tree n) =
        rw (update_node, found) refl in
      rw (change_locks, found) (ap (λ x. (ok tt, record s { tree = x.1 })) run)

  tree_ok-panic :
      (s : MemLs Element)
      → (delete_node root_id s.tree).0 ≡ panic
      → (tree_ok {E = Unit {0}} (delete_node root_id) s).0 ≡ panic
  unfolding tree_ok
  tree_ok-panic s h = rw h refl

  -- `unlock` of the only lock at a root that has no children and no parent node panics, through
  -- any path: it deletes the emptied root, which has no parent to leave.
  pub unlock-root_panics :
      (s : MemLs Element) (n : Node Bytes (List (DavLock Element))) (path : DavPath)
      (segs : List Bytes) (l : DavLock Element)
      → path_to_segs {E = Unit {0}} path true ≡ ok ([] ∷ segs)
      → IsBareRoot s.tree n
      → n.node_data ≡ l ∷ []
      → (unlock path l.token s).0 ≡ panic
  unfolding unlock unlock_at remove_token has_token any
  unlock-root_panics s n path segs l e b one =
      let same : (l.token == l.token) ≡ true = ==_refl l.token in
      rw
        (
          lookup_lock-root s.tree n path l.token segs e b.found (rw (one, same) refl),
          locks_at-found s root_id n b.found,
          one,
          same,
          change_locks-root s n b.found,
        )
        (tree_ok-panic (record s { tree = emptied s.tree n })
          (delete_node-root (emptied s.tree n) (record n { node_data = [] })
            (emptied-IsBareRoot s.tree n b)))

  -- `delete` of the path `/` panics if the root has no children and no parent node.
  pub delete-root_panics :
      (s : MemLs Element) (n : Node Bytes (List (DavLock Element))) (path : DavPath)
      → path_to_segs {E = Unit {0}} path false ≡ ok []
      → IsBareRoot s.tree n
      → s.tree.node_id ≢ 0
      → (delete path s).0 ≡ panic
  unfolding delete delete_at lookup_node find_path tree_ok delete_subtree for_each
  delete-root_panics s n path e b started = rw e (bare s.tree.node_id started)
    where
      bare :
          (fuel : ℕ) → fuel ≢ 0 → (tree_ok {E = Unit {0}} (delete_subtree fuel root_id) s).0 ≡ panic
      bare zero h = absurd (h refl)
      bare (suc fuel) h =
          rw (b.found, b.no_children, delete_node_from_parent-root s.tree n b.found b.no_parent)
            refl
