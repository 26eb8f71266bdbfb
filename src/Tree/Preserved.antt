-- ===== src/Tree/Preserved.antt =====
-- The methods of src/tree.rs and the invariant, operation by operation.
use webdav_handler_rs.Prelude.{
  ℕ, ◌+◌, ◌<◌, ◌≡◌, ◌≢◌, ◌⊎◌, refl, Bool, true, false, not, ◌&&◌, none, some, [], ◌∷◌, arith, Eq,
  nat_eq, Bool-cases, Option-cases, inl, inr, ok, err,
}
use webdav_handler_rs.Errors.{FsError}
use webdav_handler_rs.HashMap
use webdav_handler_rs.HashMap.{HashMap, get, is_distinct, get-insert, get-remove}
use webdav_handler_rs.Tree.{
  Tree, Node, find_node, root_id, u64_mod, key_of, new, new_node, add_child, put_child, drop_child,
  delete_node_from_parent,
}
use webdav_handler_rs.Tree.Invariant.{
  IsWellFormed, IsUnlinked, parent_of, with_node, link-IsWellFormed, unlink-IsWellFormed,
}

module _ {ℓ} {K : Type ℓ} ⦃e : Eq K⦄ where
  -- The search by value finds a key of the map, if the keys are distinct.
  pub get-key_of :
      (c : ℕ) (k : K) (m : HashMap K ℕ)
      → is_distinct m ≡ true
      → key_of c m ≡ some k
      → get k m ≡ some c
  unfolding key_of get is_distinct HashMap.contains_key
  get-key_of c k [] h q = ground arith
  get-key_of c k ((j, d) ∷ m) h q = ground (arith, e.beq_iff j k, get-key_of c k m)

  pub key_of-none : (c : ℕ) (k : K) (m : HashMap K ℕ) → key_of c m ≡ none → get k m ≢ some c
  unfolding key_of get
  key_of-none c k [] q = ground arith
  key_of-none c k ((j, d) ∷ m) q = ground (arith, e.beq_iff j k, key_of-none c k m)

module _ {ℓ} {K D : Type ℓ} ⦃e : Eq K⦄ where
  -- A new tree is well-formed.
  pub new-IsWellFormed : (d : D) → IsWellFormed {K = K} (new d)
  unfolding new new_node get HashMap.contains_key HashMap.insert is_distinct
  new-IsWellFormed d = record {
    root = refl;
    fresh = λ i n h. ground arith;
    ids = λ i n h. ground arith;
    distinct = λ i n h. ground arith;
    linked = λ i n k c h q. ground arith;
    unique = λ i n j k c h q r. ground arith;
    not_root = λ i n k h q. ground arith;
  }

  module _ {t : Tree K D} (w : IsWellFormed t) where
    pub next_id_absent : find_node t t.node_id ≡ none
    next_id_absent = elim (Option-cases (find_node t t.node_id)) [
      | inl absent ↦ absent
      | inr (n, found) ↦ absurd (omega (arith, w.fresh t.node_id n found))
    ]

    pub new_node-IsWellFormed :
        (p : ℕ) (d : D) → t.node_id + 1 < u64_mod → IsWellFormed (new_node p d t).1
    unfolding new_node get is_distinct HashMap.contains_key
    new_node-IsWellFormed p d room =
        let c : ℕ = t.node_id in
        let n' : Node K D = record { id = c; parent_id = p; node_data = d; children = [] } in
        record {
          root = ground (arith, get-insert c root_id n' t.nodes, w.root);
          fresh = λ j m h. ground (arith, get-insert c j n' t.nodes, w.fresh j m);
          ids = λ j m h. ground (arith, get-insert c j n' t.nodes, w.ids j m);
          distinct = λ j m h. ground (arith, get-insert c j n' t.nodes, w.distinct j m);
          linked = λ j m k d h q. ground (
            arith,
            get-insert c j n' t.nodes,
            get-insert c d n' t.nodes,
            w.linked j m k d,
            next_id_absent,
          );
          unique = λ j m a b d h q r. ground (arith, get-insert c j n' t.nodes, w.unique j m a b d);
          not_root = λ j m i h q. ground (arith, get-insert c j n' t.nodes, w.not_root j m i);
        }

    abbrev pub added : ℕ → K → D → Node K D → Tree K D
    added p k d n = with_node p (put_child k t.node_id n) (new_node p d t).1

    -- The three outcomes of `add_child`.
    pub add_child_absent :
        (p : ℕ) (k : K) (d : D) (overwrite : Bool)
        → find_node t p ≡ none
        → add_child p k d overwrite t ≡ (err FsError.not_found, t)
    unfolding add_child
    add_child_absent p k d overwrite absent = rw absent

    pub add_child_exists :
        (p : ℕ) (k : K) (d : D) (overwrite : Bool) (n : Node K D)
        → find_node t p ≡ some n
        → (not overwrite && HashMap.contains_key k n.children) ≡ true
        → add_child p k d overwrite t ≡ (err FsError.exists, t)
    unfolding add_child
    add_child_exists p k d overwrite n found taken = rw (found, taken)

    pub find-new_node :
        (p i : ℕ) (d : D) (n : Node K D)
        → find_node t i ≡ some n
        → find_node (new_node p d t).1 i ≡ some n
    unfolding new_node
    find-new_node p i d n found = ground (
      arith,
      w.fresh i n,
      get-insert t.node_id i
          (record { id = t.node_id; parent_id = p; node_data = d; children = [] }) t.nodes,
    )

    pub add_child_lem :
        (p : ℕ) (k : K) (d : D) (overwrite : Bool) (n : Node K D)
        → find_node t p ≡ some n
        → (not overwrite && HashMap.contains_key k n.children) ≡ false
        → add_child p k d overwrite t ≡ (ok t.node_id, added p k d n)
    unfolding add_child
    add_child_lem p k d overwrite n found free =
        rw (found, free) (ground (arith, find-new_node p p d n found))

    parent_of-new_node : (p : ℕ) (d : D) → parent_of (new_node p d t).1 t.node_id ≡ some p
    unfolding new_node
    parent_of-new_node p d = ground (
      arith,
      get-insert t.node_id t.node_id
          (record { id = t.node_id; parent_id = p; node_data = d; children = [] }) t.nodes,
    )

    new_node-IsUnlinked : (p : ℕ) (d : D) → IsUnlinked (new_node p d t).1 t.node_id
    unfolding new_node get
    new_node-IsUnlinked p d = λ i m k h q. ground (
      arith,
      next_id_absent,
      w.linked i m k t.node_id,
      get-insert t.node_id i
          (record { id = t.node_id; parent_id = p; node_data = d; children = [] }) t.nodes,
    )

    next_id-ne-root_id : t.node_id ≢ root_id
    unfolding HashMap.contains_key
    next_id-ne-root_id = λ q. ground (arith, next_id_absent, w.root)

    -- `add_child` keeps a tree well-formed, whatever it returns, also when it replaces an entry,
    -- if the next id but one does not wrap round.
    pub add_child-IsWellFormed :
        (p : ℕ) (k : K) (d : D) (overwrite : Bool)
        → t.node_id + 1 < u64_mod
        → IsWellFormed (add_child p k d overwrite t).1
    add_child-IsWellFormed p k d overwrite room = elim (Option-cases (find_node t p)) [
      | inl absent ↦ rw (add_child_absent p k d overwrite absent) w
      | inr (n, found) ↦ elim (Bool-cases (not overwrite && HashMap.contains_key k n.children)) [
        | inl taken ↦ rw (add_child_exists p k d overwrite n found taken) w
        | inr free ↦ rw (add_child_lem p k d overwrite n found free) (
            link-IsWellFormed (new_node-IsWellFormed p d room) p t.node_id k n
              (find-new_node p p d n found) (parent_of-new_node p d) (new_node-IsUnlinked p d)
              next_id-ne-root_id)
      ]
    ]

    -- What `delete_node_from_parent` comes to: nothing, or the entry for the node is gone.
    pub delete_node_from_parent_cases :
        (id : ℕ)
        → (((delete_node_from_parent id t).1 ≡ t) × ((delete_node_from_parent id t).0 ≢ ok tt))
          ⊎ ((n : Node K D) × (p : Node K D) × (k : K) × (find_node t id ≡ some n)
              × (find_node t n.parent_id ≡ some p)
              × (key_of id p.children ≡ some k)
              × (delete_node_from_parent id t ≡ (ok tt, with_node n.parent_id (drop_child k p) t)))
    unfolding delete_node_from_parent
    delete_node_from_parent_cases id = elim (Option-cases (find_node t id)) [
      | inl absent ↦ rw absent (inl (refl, λ q. cc))
      | inr (n, found) ↦ elim (Option-cases (find_node t n.parent_id)) [
        | inl absent ↦ rw (found, absent) (inl (refl, λ q. cc))
        | inr (p, pfound) ↦ elim (Option-cases (key_of id p.children)) [
          | inl absent ↦ rw (found, pfound, absent) (inl (refl, λ q. cc))
          | inr (k, kfound) ↦ inr (n, p, k, found, pfound, kfound, ground arith)
        ]
      ]
    ]

    pub drop_child-IsUnlinked :
        (id : ℕ) (n p : Node K D) (k : K)
        → find_node t id ≡ some n
        → find_node t n.parent_id ≡ some p
        → key_of id p.children ≡ some k
        → IsUnlinked (with_node n.parent_id (drop_child k p) t) id
    drop_child-IsUnlinked id n p k found pfound kfound = λ i m j h q. ground (
      arith,
      get-insert n.parent_id i (drop_child k p) t.nodes,
      w.linked i m j id,
      get-remove k j p.children,
      e.beq_iff k j,
      w.unique n.parent_id p j k id,
      get-key_of id k p.children (w.distinct n.parent_id p pfound) kfound,
    )

    pub delete_node_from_parent-IsWellFormed :
        (id : ℕ) → IsWellFormed (delete_node_from_parent id t).1
    delete_node_from_parent-IsWellFormed id = elim (delete_node_from_parent_cases id) [
      | inl (same, _) ↦ rw same w
      | inr (n, p, k, _, pfound, _, e) ↦ rw e (unlink-IsWellFormed w n.parent_id k p pfound)
    ]
