-- ===== src/Tree/Moves.antt =====
-- `move_node` of src/tree.rs and the invariant of the tree.
use webdav_handler_rs.Prelude.{
  ℕ, ◌≡◌, ◌≢◌, refl, Bool, Option, none, some, arith, Eq, nat_eq, Option-cases, inl, inr, Outcome,
  ok, err, panic, out_of_fuel, continue, ◌>>◌, continue_failed, ap, ◌∙◌,
}
use webdav_handler_rs.Errors.{FsError}
use webdav_handler_rs.HashMap
use webdav_handler_rs.HashMap.{get, get-insert, get-remove, length-get-ne_zero}
use webdav_handler_rs.Tree.{
  Tree, Node, find_node, root_id, key_of, put_child, drop_child, delete_node_from_parent,
  modify_node, move_dest, remove_dest, move_finish, move_node,
}
use webdav_handler_rs.Tree.Invariant.{
  IsWellFormed, IsUnlinked, with_node, parent_of, link-IsWellFormed, unlink-IsWellFormed,
  remove-IsWellFormed, reparent-IsWellFormed,
}
use webdav_handler_rs.Tree.Preserved.{
  get-key_of, delete_node_from_parent_cases, drop_child-IsUnlinked,
}
use webdav_handler_rs.Tree.Removal.{ne-root_id_of_linked}

module _ {ℓ} {K D : Type ℓ} ⦃e : Eq K⦄ where
  -- Trees with the same nodes by every id.
  same_nodes-IsWellFormed :
      (s t : Tree K D)
      → IsWellFormed s
      → ((i : ℕ) → find_node t i ≡ find_node s i)
      → t.node_id ≡ s.node_id
      → IsWellFormed t
  unfolding HashMap.contains_key
  same_nodes-IsWellFormed s t w same next = record {
    root = ground (arith, same root_id, w.root);
    fresh = λ i n h. ground (arith, same i, w.fresh i n);
    ids = λ i n h. ground (arith, same i, w.ids i n);
    distinct = λ i n h. ground (arith, same i, w.distinct i n);
    linked = λ i n k c h q. ground (arith, same i, same c, w.linked i n k c);
    unique = λ i n j k c h q r. ground (arith, same i, w.unique i n j k c);
    not_root = λ i n k h q. ground (arith, same i, w.not_root i n k);
  }

  -- The last steps of a move: the entry `name` of `p` leads to `id`, and the node that it led to
  -- before is gone.
  module _ {t : Tree K D} (w : IsWellFormed t) (id p : ℕ) (name : K) (n : Node K D)
      (found : find_node t p ≡ some n) (child : parent_of t id ≡ some p) (free : IsUnlinked t id)
      (below : id ≢ root_id) where
    linked-IsWellFormed : IsWellFormed (with_node p (put_child name id n) t)
    linked-IsWellFormed = link-IsWellFormed w p id name n found child free below

    replaced-IsUnlinked :
        (d : ℕ)
        → get name n.children ≡ some d
        → d ≢ id
        → IsUnlinked (with_node p (put_child name id n) t) d
    replaced-IsUnlinked d old other = λ i m j h q. ground (
      arith,
      get-insert p i (put_child name id n) t.nodes,
      get-insert name j id n.children,
      e.beq_iff name j,
      w.linked i m j d,
      w.linked p n name d,
      w.unique p n j name d,
    )

    replace_child-IsWellFormed :
        (d : ℕ)
        → get name n.children ≡ some d
        → d ≢ id
        → d ≢ p
        → IsWellFormed
            (with_node p (put_child name id n) (record t { nodes = HashMap.remove d t.nodes }))
    replace_child-IsWellFormed d old other away =
        same_nodes-IsWellFormed _ _
          (remove-IsWellFormed linked-IsWellFormed d (replaced-IsUnlinked d old other)
            (λ q. ground (arith, w.not_root p n name)))
          (λ i. ground (
            arith,
            get-insert p i (put_child name id n) (HashMap.remove d t.nodes),
            get-remove d i t.nodes,
            get-remove d i (HashMap.insert p (put_child name id n) t.nodes),
            get-insert p i (put_child name id n) t.nodes,
          ))
          refl

  move_dest-ok :
      (t : Tree K D) (n : Node K D) (name : K) (overwrite : Bool) (x : Option ℕ)
      → move_dest t n name overwrite ≡ ok x
      → get name n.children ≡ x
  unfolding move_dest
  move_dest-ok t n name overwrite x h = ground arith

  -- The node that a move replaces has no children, so it is not the new parent.
  move_dest-ne :
      (t : Tree K D) (p : ℕ) (n : Node K D) (name : K) (overwrite : Bool) (d : ℕ)
      → find_node t p ≡ some n
      → move_dest t n name overwrite ≡ ok (some d)
      → d ≢ p
  unfolding move_dest
  move_dest-ne t p n name overwrite d found h =
      λ q. ground (arith, length-get-ne_zero name d n.children)

  -- After the node has left its parent and has the new one.
  module _ {t : Tree K D} (w : IsWellFormed t) (id to : ℕ) (name : K) (n p m : Node K D) (k : K)
      (found : find_node t id ≡ some n) (pfound : find_node t n.parent_id ≡ some p)
      (kfound : key_of id p.children ≡ some k)
      (there : find_node (with_node n.parent_id (drop_child k p) t) id ≡ some m) where
    abbrev unlinked : Tree K D
    unlinked = with_node n.parent_id (drop_child k p) t

    abbrev reparented : Tree K D
    reparented = with_node id (record m { parent_id = to }) unlinked

    reparented-IsWellFormed : IsWellFormed reparented
    reparented-IsWellFormed =
        reparent-IsWellFormed (unlink-IsWellFormed w n.parent_id k p pfound) id to m there
          (drop_child-IsUnlinked w id n p k found pfound kfound)

    reparented-IsUnlinked : IsUnlinked reparented id
    reparented-IsUnlinked = λ i l j h q. ground (
      arith,
      get-insert id i (record m { parent_id = to }) unlinked.nodes,
      drop_child-IsUnlinked w id n p k found pfound kfound i l j,
      drop_child-IsUnlinked w id n p k found pfound kfound id m j,
    )

    parent_of-reparented : parent_of reparented id ≡ some to
    parent_of-reparented =
        ground (arith, get-insert id id (record m { parent_id = to }) unlinked.nodes)

    find-reparented :
        (pn : Node K D)
        → find_node t to ≡ some pn
        → get name pn.children ≢ some id
        → (n2 : Node K D) × (find_node reparented to ≡ some n2)
          × (get name n2.children ≡ get name pn.children)
    find-reparented pn tofound other = elim (Option-cases (find_node reparented to)) [
      | inl absent ↦ absurd (
          ground (
            arith,
            get-insert id to (record m { parent_id = to }) unlinked.nodes,
            get-insert n.parent_id to (drop_child k p) t.nodes,
          ))
      | inr (n2, h) ↦ (
        n2,
        h,
        ground (
          arith,
          get-insert id to (record m { parent_id = to }) unlinked.nodes,
          get-insert n.parent_id to (drop_child k p) t.nodes,
          get-insert n.parent_id id (drop_child k p) t.nodes,
          get-remove k name p.children,
          e.beq_iff k name,
          get-key_of id k p.children (w.distinct n.parent_id p pfound) kfound,
        ),
      )
    ]

    finish_absent-IsWellFormed :
        (pn : Node K D)
        → find_node t to ≡ some pn
        → get name pn.children ≡ none
        → IsWellFormed (move_finish id to name none unlinked).1
    unfolding move_finish modify_node remove_dest
    finish_absent-IsWellFormed pn tofound absent =
        let (n2, h, same) = find-reparented pn tofound (λ q. ground arith) in
        let run : move_finish id to name none unlinked
            ≡ (ok tt, with_node to (put_child name id n2) reparented) =
          ground arith in
        rw run (
          linked-IsWellFormed reparented-IsWellFormed id to name n2 h parent_of-reparented
            reparented-IsUnlinked (ne-root_id_of_linked w id n.parent_id p k pfound kfound))

    finish_replace-IsWellFormed :
        (pn : Node K D) (d : ℕ)
        → find_node t to ≡ some pn
        → get name pn.children ≡ some d
        → d ≢ id
        → d ≢ to
        → IsWellFormed (move_finish id to name (some d) unlinked).1
    unfolding move_finish modify_node remove_dest
    finish_replace-IsWellFormed pn d tofound old other away =
        let (n2, h, same) = find-reparented pn tofound (λ q. ground arith) in
        let kept : find_node (record reparented { nodes = HashMap.remove d reparented.nodes }) to
            ≡ some n2 =
          ground (arith, get-remove d to reparented.nodes) in
        let run : move_finish id to name (some d) unlinked ≡ (
          ok tt,
          with_node to (put_child name id n2)
              (record reparented { nodes = HashMap.remove d reparented.nodes }),
        ) =
          ground arith in
        rw run (
          replace_child-IsWellFormed reparented-IsWellFormed id to name n2 h parent_of-reparented
            reparented-IsUnlinked (ne-root_id_of_linked w id n.parent_id p k pfound kfound) d
            (same ∙ old) other away)

  module _ {t : Tree K D} (w : IsWellFormed t) (id to : ℕ) (name : K) where
    move_from-IsWellFormed :
        (pn : Node K D) (overwrite : Bool) (x : Option ℕ)
        → find_node t to ≡ some pn
        → move_dest t pn name overwrite ≡ ok x
        → get name pn.children ≢ some id
        → IsWellFormed ((delete_node_from_parent id >> move_finish id to name x) t).1
    move_from-IsWellFormed pn overwrite x tofound dest other =
        elim (delete_node_from_parent_cases w id) [
          | inl (same, failed) ↦
              rw
                (
                  continue_failed (delete_node_from_parent id t).0 (delete_node_from_parent id t).1
                      (λ _. move_finish id to name x) (λ u. failed),
                  same,
                )
                w
          | inr (n, p, k, found, pfound, kfound, e) ↦
              rw e (elim (Option-cases (find_node (with_node n.parent_id (drop_child k p) t) id)) [
                | inl absent ↦
                    absurd (ground (arith, get-insert n.parent_id id (drop_child k p) t.nodes))
                | inr (m, there) ↦
                    finish x (λ y q. move_dest-ne t to pn name overwrite y tofound (dest ∙ ap ok q))
                      (move_dest-ok t pn name overwrite x dest) n p m k found pfound kfound there
              ])
        ]
      where
        finish :
            (y : Option ℕ)
            → ((d : ℕ) → y ≡ some d → d ≢ to)
            → get name pn.children ≡ y
            → (n p m : Node K D) (k : K) → find_node t id ≡ some n
            → find_node t n.parent_id ≡ some p
            → key_of id p.children ≡ some k
            → find_node (with_node n.parent_id (drop_child k p) t) id ≡ some m
            → IsWellFormed (move_finish id to name y (with_node n.parent_id (drop_child k p) t)).1
        finish none away old n p m k found pfound kfound there =
            finish_absent-IsWellFormed w id to name n p m k found pfound kfound there pn tofound old
        finish (some d) away old n p m k found pfound kfound there =
            finish_replace-IsWellFormed w id to name n p m k found pfound kfound there pn d tofound
              old (λ q. other (old ∙ ap some q)) (away d refl)

    -- `move_node` keeps a tree well-formed, whatever it returns, if the new place is not the
    -- entry that the node already has.
    pub move_node-IsWellFormed :
        (overwrite : Bool)
        → ((pn : Node K D) → find_node t to ≡ some pn → get name pn.children ≢ some id)
        → IsWellFormed (move_node id to name overwrite t).1
    unfolding move_node
    move_node-IsWellFormed overwrite other = elim (Option-cases (find_node t to)) [
      | inl absent ↦ rw absent w
      | inr (pn, tofound) ↦ rw tofound (from_dest (move_dest t pn name overwrite) pn tofound refl)
    ]
      where
        from_dest :
            (o : Outcome FsError (Option ℕ)) (pn : Node K D)
            → find_node t to ≡ some pn
            → move_dest t pn name overwrite ≡ o
            → IsWellFormed
                (continue o t (λ dest. delete_node_from_parent id >> move_finish id to name dest)).1
        from_dest (ok x) pn tofound dest =
            move_from-IsWellFormed pn overwrite x tofound dest (other pn tofound)
        from_dest (err x) pn tofound dest = w
        from_dest panic pn tofound dest = w
        from_dest out_of_fuel pn tofound dest = w
