-- ===== src/LockTree/Create.antt =====
-- `get_or_create_path_node` of src/memls.rs.
use webdav_handler_rs.Prelude.{
  ℕ, ◌+◌, ◌<◌, ◌≡◌, refl, ap, ◌∙◌, inl, inr, false, ◌&&◌, none, some, List, [], ◌∷◌, arith, Bytes,
  ◌==◌, nat_eq, list_eq, list_beq_iff, length, if◌then◌else◌, Option-cases, ok,
}
use webdav_handler_rs.HashMap
use webdav_handler_rs.HashMap.{get, get-insert}
use webdav_handler_rs.Tree.{Node, find_node, u64_mod, new_node, put_child}
use webdav_handler_rs.Tree.Preserved.{added, add_child_lem, add_child-IsWellFormed, next_id_absent}
use webdav_handler_rs.Ls.{DavLock}
use webdav_handler_rs.LockTree.{LockTree, find_path, get_or_add_child, create_path}
use webdav_handler_rs.LockTree.View.{
  data_at, child_at, tree_get_child-child_at, find_path-cons, IsLockTree,
}

module _ {Element : Type 0} where
  -- `t'` has what `t` has, and new nodes, without locks, below.
  pub record Extends (t t' : LockTree Element) : Type 0 where
    pub data_old :
        (i : ℕ) (ls : List (DavLock Element)) → data_at t i ≡ some ls → data_at t' i ≡ some ls
    pub data_new :
        (i : ℕ) (ls : List (DavLock Element))
        → data_at t i ≡ none
        → data_at t' i ≡ some ls
        → ls ≡ []
    pub child_old : (i : ℕ) (k : Bytes) (c : ℕ) → child_at t i k ≡ some c → child_at t' i k ≡ some c
    pub child_new :
        (i : ℕ) (k : Bytes) (c : ℕ)
        → child_at t i k ≡ none
        → child_at t' i k ≡ some c
        → data_at t c ≡ none

  pub Extends-refl : (t : LockTree Element) → Extends t t
  Extends-refl t = record {
    data_old = λ i ls h. h;
    data_new = λ i ls h q. absurd (ground arith);
    child_old = λ i k c h. h;
    child_new = λ i k c h q. absurd (ground arith);
  }

  pub Extends-trans : (t u v : LockTree Element) → Extends t u → Extends u v → Extends t v
  Extends-trans t u v a b = record {
    data_old = λ i ls h. b.data_old i ls (a.data_old i ls h);
    data_new = λ i ls h q. elim (Option-cases (data_at u i)) [
      | inl absent ↦ b.data_new i ls absent q
      | inr (ls', there) ↦ ground (arith, a.data_new i ls', b.data_old i ls')
    ];
    child_old = λ i k c h. b.child_old i k c (a.child_old i k c h);
    child_new = λ i k c h q. elim (Option-cases (child_at u i k)) [
      | inl absent ↦ elim (Option-cases (data_at t c)) [
        | inl none_t ↦ none_t
        | inr (ls, some_t) ↦ absurd (ground (arith, a.data_old c ls, b.child_new i k c))
      ]
      | inr (c', there) ↦ ground (arith, a.child_new i k c', b.child_old i k c')
    ];
  }

  module _ (t : LockTree Element) (w : IsLockTree t) (p : ℕ) (k : Bytes)
      (n : Node Bytes (List (DavLock Element))) (found : find_node t p ≡ some n) where
    abbrev grown : LockTree Element
    grown = added w.formed p k [] n

    data_at-added : (i : ℕ) → data_at grown i ≡ (if t.node_id == i then some [] else data_at t i)
    unfolding new_node
    data_at-added i = ground (
      arith,
      w.formed.fresh p n,
      get-insert p i (put_child k t.node_id n) (new_node p [] t).1.nodes,
      get-insert t.node_id i
          (record { id = t.node_id; parent_id = p; node_data = []; children = [] }) t.nodes,
    )

    child_at-added :
        (i : ℕ) (j : Bytes)
        → child_at grown i j ≡ (
            if p == i && k == j
            then some t.node_id
            else if t.node_id == i
            then none
            else child_at t i j)
    unfolding new_node get
    child_at-added i j = ground (
      arith,
      w.formed.fresh p n,
      get-insert p i (put_child k t.node_id n) (new_node p [] t).1.nodes,
      get-insert k j t.node_id n.children,
      get-insert t.node_id i
          (record { id = t.node_id; parent_id = p; node_data = []; children = [] }) t.nodes,
    )

    find_node-added_new :
        find_node grown t.node_id
        ≡ some (record { id = t.node_id; parent_id = p; node_data = []; children = [] })
    unfolding new_node
    find_node-added_new = ground (
      arith,
      w.formed.fresh p n,
      get-insert p t.node_id (put_child k t.node_id n) (new_node p [] t).1.nodes,
      get-insert t.node_id t.node_id
          (record { id = t.node_id; parent_id = p; node_data = []; children = [] }) t.nodes,
    )

    next_id-added : t.node_id + 1 < u64_mod → grown.node_id ≡ t.node_id + 1
    unfolding new_node
    next_id-added room = ground arith

    grown-IsLockTree : child_at t p k ≡ none → t.node_id + 1 < u64_mod → IsLockTree grown
    unfolding HashMap.contains_key
    grown-IsLockTree absent room = record {
      formed =
          rw (add_child_lem w.formed p k [] false n found (ground arith)) at
            (add_child-IsWellFormed w.formed p k [] false room);
      ordered = λ i j c h. ground (arith, child_at-added i j, w.formed.fresh p n, w.ordered i j c);
    }

    grown-Extends : child_at t p k ≡ none → Extends t grown
    grown-Extends absent = record {
      data_old = λ i ls h. ground (arith, data_at-added i, next_id_absent w.formed);
      data_new = λ i ls h q. ground (arith, data_at-added i);
      child_old =
          λ i j c h. ground (arith, child_at-added i j, list_beq_iff k j, next_id_absent w.formed);
      child_new = λ i j c h q. ground (arith, child_at-added i j, next_id_absent w.formed);
    }

    get_or_add_child-absent : child_at t p k ≡ none → get_or_add_child t p k ≡ (ok t.node_id, grown)
    unfolding get_or_add_child HashMap.contains_key
    get_or_add_child-absent absent = ground (
      arith,
      tree_get_child-child_at t p k,
      add_child_lem w.formed p k [] false n found (ground arith),
    )

  get_or_add_child-there :
      (t : LockTree Element) (p : ℕ) (k : Bytes) (c : ℕ)
      → child_at t p k ≡ some c
      → get_or_add_child t p k ≡ (ok c, t)
  unfolding get_or_add_child
  get_or_add_child-there t p k c there = ground (arith, tree_get_child-child_at t p k)

  -- A child of a well-formed tree exists.
  pub child_exists :
      (t : LockTree Element) (p : ℕ) (k : Bytes) (c : ℕ)
      → IsLockTree t
      → child_at t p k ≡ some c
      → (m : Node Bytes (List (DavLock Element))) × (find_node t c ≡ some m)
  child_exists t p k c w there = elim (Option-cases (find_node t p)) [
    | inl no_parent ↦ absurd (ground arith)
    | inr (n, found) ↦ elim (Option-cases (find_node t c)) [
      | inl no_child ↦ absurd (ground (arith, w.formed.linked p n k c))
      | inr (m, child) ↦ (m, child)
    ]
  ]

  -- `create_path` returns the node of the path, in a tree that has it and is otherwise as before.
  pub record Creates (t : LockTree Element) (p : ℕ) (segs : List Bytes) (N : ℕ)
      (t' : LockTree Element) : Type 0 where
    pub returns : create_path {E = DavLock Element} p segs t ≡ (ok N, t')
    pub tree : IsLockTree t'
    pub extends : Extends t t'
    pub at_path : find_path t' p segs ≡ some N
    pub exists : (m : Node Bytes (List (DavLock Element))) × (find_node t' N ≡ some m)

  create_path-cons :
      (t t' : LockTree Element) (p c : ℕ) (seg : Bytes) (rest : List Bytes)
      → get_or_add_child t p seg ≡ (ok c, t')
      → create_path {E = DavLock Element} p (seg ∷ rest) t ≡ create_path c rest t'
  unfolding create_path
  create_path-cons t t' p c seg rest h = rw (create_path, h) (ap (λ x. create_path c rest x.1) h)

  pub create_path_lem :
      (t : LockTree Element) (p : ℕ) (segs : List Bytes) (n : Node Bytes (List (DavLock Element)))
      → IsLockTree t
      → find_node t p ≡ some n
      → t.node_id + length segs < u64_mod
      → (N : ℕ) × (t' : LockTree Element) × Creates t p segs N t'
  unfolding create_path find_path
  create_path_lem t p [] n w found room = (
    p,
    t,
    record {
      returns = refl;
      tree = w;
      extends = Extends-refl t;
      at_path = refl;
      exists = (n, found);
    },
  )
  create_path_lem t p (seg ∷ rest) n w found room = elim (Option-cases (child_at t p seg)) [
    | inl absent ↦
        let (N, t', r) =
          create_path_lem (grown t w p seg n found) t.node_id rest
            (record { id = t.node_id; parent_id = p; node_data = []; children = [] })
            (grown-IsLockTree t w p seg n found absent (omega arith))
            (find_node-added_new t w p seg n found)
            (omega (arith, next_id-added t w p seg n found (omega arith))) in
        (
          N,
          t',
          record {
            returns =
                create_path-cons t _ p t.node_id seg rest
                  (get_or_add_child-absent t w p seg n found absent)
                ∙ r.returns;
            tree = r.tree;
            extends =
                Extends-trans t (grown t w p seg n found) t'
                  (grown-Extends t w p seg n found absent) r.extends;
            at_path = ground (
              arith,
              find_path-cons t' p seg rest,
              child_at-added t w p seg n found p seg,
              list_beq_iff seg seg,
              r.extends.child_old p seg t.node_id,
              r.at_path,
            );
            exists = r.exists;
          },
        )
    | inr (c, there) ↦
        let (m, child) = child_exists t p seg c w there in
        let (N, t', r) = create_path_lem t c rest m w child (omega arith) in
        (
          N,
          t',
          record {
            returns =
                create_path-cons t t p c seg rest (get_or_add_child-there t p seg c there)
                ∙ r.returns;
            tree = r.tree;
            extends = r.extends;
            at_path =
                ground (
                  arith,
                  find_path-cons t' p seg rest,
                  r.extends.child_old p seg c there,
                  r.at_path,
                );
            exists = r.exists;
          },
        )
  ]
