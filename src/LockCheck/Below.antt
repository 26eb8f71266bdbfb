-- ===== src/LockCheck/Below.antt =====
-- `check_locks_from_node` of src/memls.rs and the locks below the node.
use mathlib.Core.List.Memᴰ
use mathlib.Core.List.{Memᴰ}
use webdav_handler_rs.Prelude.{
  ℕ, zero, suc, ◌+◌, ◌≤◌, ◌≡◌, ◌⊎◌, refl, ap, inl, inr, Bool, true, false, some, List, [], ◌∷◌,
  arith, Bytes, nat_eq, list_eq, any, Bool-cases, Option-cases, Outcome, ok, err, and_then,
  and_then-congr,
}
use webdav_handler_rs.HashMap.{HashMap, get-Mem, Mem-get}
use webdav_handler_rs.Tree.{Node, find_node, get_node, get_children}
use webdav_handler_rs.Ls.{DavLock}
use webdav_handler_rs.LockTree.{LockTree, find_path}
use webdav_handler_rs.LockTree.View.{data_at, child_at, find_path-cons, IsLockTree}
use webdav_handler_rs.LockTree.Create.{child_exists}
use webdav_handler_rs.LockCheck.{
  Claim, blocks_below, check_node_locks, check_children, check_locks_from_node,
}

module _ {Element : Type 0} (c : Claim) (shared_ok : Bool) where
  -- The check of one node's locks.
  check_node_locks-cases :
      (ls : List (DavLock Element))
      → ((check_node_locks c shared_ok ls ≡ ok tt) × (any (blocks_below c shared_ok) ls ≡ false))
        ⊎ ((l : DavLock Element) × (check_node_locks c shared_ok ls ≡ err l)
            × Memᴰ l ls
            × (blocks_below c shared_ok l ≡ true))
  unfolding check_node_locks any
  check_node_locks-cases [] = inl (refl, refl)
  check_node_locks-cases (l ∷ ls) = elim (Bool-cases (blocks_below c shared_ok l)) [
    | inl blocks ↦ inr (l, rw blocks, Memᴰ.head refl, blocks)
    | inr lets_by ↦ elim (check_node_locks-cases ls) [
      | inl (e, none_blocks) ↦ inl (rw lets_by e, ground arith)
      | inr (l', e, m, blocks) ↦ inr (l', rw lets_by e, Memᴰ.tail m, blocks)
    ]
  ]

  module _ (t : LockTree Element) where
    -- No lock at the node or below it blocks.
    abbrev pub IsClear : ℕ → Type 0
    IsClear id =
        (segs : List Bytes) (j : ℕ) (ls : List (DavLock Element))
        → find_path t id segs ≡ some j
        → data_at t j ≡ some ls
        → any (blocks_below c shared_ok) ls ≡ false

    -- A lock at the node or below it that blocks.
    pub record Blocks (id : ℕ) (l : DavLock Element) : Type 0 where
      pub segs : List Bytes
      pub node : ℕ
      pub locks : List (DavLock Element)
      pub at_path : find_path t id segs ≡ some node
      pub stored : data_at t node ≡ some locks
      pub member : Memᴰ l locks
      pub blocks : blocks_below c shared_ok l ≡ true

    abbrev Decided : ℕ → Outcome (DavLock Element) (Unit {0}) → Type 0
    Decided id o = ((o ≡ ok tt) × IsClear id) ⊎ ((l : DavLock Element) × (o ≡ err l) × Blocks id l)

    check_children-cases :
        (f : ℕ → Outcome (DavLock Element) (Unit {0})) (kids : HashMap Bytes ℕ)
        → ((k : Bytes) (i : ℕ) → Memᴰ (k, i) kids → Decided i (f i))
        → ((check_children c shared_ok f kids ≡ ok tt)
            × ((k : Bytes) (i : ℕ) → Memᴰ (k, i) kids → IsClear i))
          ⊎ ((l : DavLock Element) × (k : Bytes) × (i : ℕ) × (check_children c shared_ok f kids
                ≡ err l)
              × Memᴰ (k, i) kids
              × Blocks i l)
    unfolding check_children
    check_children-cases f [] h = inl (refl, λ k i m. elim m [ ])
    check_children-cases f ((k, i) ∷ kids) h = elim (h k i (Memᴰ.head refl)) [
      | inr (l, e, b) ↦ inr (l, k, i, rw e, Memᴰ.head refl, b)
      | inl (e, clear) ↦ elim (check_children-cases f kids (λ k' i' m. h k' i' (Memᴰ.tail m))) [
        | inr (l, k', i', e', m, b) ↦ inr (l, k', i', rw e e', Memᴰ.tail m, b)
        | inl (e', rest) ↦ inl (
          rw e e',
          λ k' i' m. elim (Memᴰ.cases_cons m) [
            | inl same ↦ rw (ap (λ x. x.1) same) clear
            | inr later ↦ rest k' i' later
          ],
        )
      ]
    ]

    module _ (w : IsLockTree t) (id : ℕ) (n : Node Bytes (List (DavLock Element)))
        (found : find_node t id ≡ some n) where
      IsClear-children :
          any (blocks_below c shared_ok) n.node_data ≡ false
          → ((k : Bytes) (i : ℕ) → Memᴰ (k, i) n.children → IsClear i)
          → IsClear id
      unfolding find_path
      IsClear-children own kids [] j ls at_path stored =
          let same : n.node_data ≡ ls = ground arith in rw same at own
      IsClear-children own kids (seg ∷ rest) j ls at_path stored =
          elim (Option-cases (child_at t id seg)) [
            | inl absent ↦ absurd (ground (arith, find_path-cons t id seg rest))
            | inr (i, there) ↦
                kids seg i (get-Mem seg i n.children (ground arith)) rest j ls
                  (ground (arith, find_path-cons t id seg rest)) stored
          ]

      Blocks-own :
          (l : DavLock Element)
          → Memᴰ l n.node_data
          → blocks_below c shared_ok l ≡ true
          → Blocks id l
      unfolding find_path
      Blocks-own l m b = record {
        segs = [];
        node = id;
        locks = n.node_data;
        at_path = refl;
        stored = ground arith;
        member = m;
        blocks = b;
      }

      Blocks-child :
          (k : Bytes) (i : ℕ) (l : DavLock Element)
          → Memᴰ (k, i) n.children
          → Blocks i l
          → Blocks id l
      Blocks-child k i l m b = record {
        segs = k ∷ b.segs;
        node = b.node;
        locks = b.locks;
        at_path = ground (
          arith,
          find_path-cons t id k b.segs,
          b.at_path,
          Mem-get k i n.children (w.formed.distinct id n found) m,
        );
        stored = b.stored;
        member = b.member;
        blocks = b.blocks;
      }

    check_locks_from_node-found :
        (fuel id : ℕ) (n : Node Bytes (List (DavLock Element)))
        → find_node t id ≡ some n
        → check_locks_from_node c shared_ok (suc fuel) t id
          ≡ and_then (check_node_locks c shared_ok n.node_data) (λ _.
            check_children c shared_ok (check_locks_from_node c shared_ok fuel t) n.children)
    unfolding check_locks_from_node get_node get_children
    check_locks_from_node-found fuel id n found =
        let kids : get_children t id ≡ ok n.children = rw (get_children, found) refl in
        rw (check_locks_from_node, found)
          (and_then-congr (check_node_locks c shared_ok n.node_data) (λ _. rw kids refl))

    -- With as much fuel as there are ids from the node on, the check returns: `ok` exactly if no
    -- lock at the node or below it blocks, and else a lock that does.
    pub check_locks_from_node-cases :
        (fuel id : ℕ) (n : Node Bytes (List (DavLock Element)))
        → IsLockTree t
        → find_node t id ≡ some n
        → t.node_id ≤ id + fuel
        → Decided id (check_locks_from_node c shared_ok fuel t id)
    check_locks_from_node-cases zero id n w found enough =
        absurd (omega (arith, w.formed.fresh id n found))
    check_locks_from_node-cases (suc fuel) id n w found enough =
        elim (check_node_locks-cases n.node_data) [
          | inr (l, e, m, b) ↦ inr (
            l,
            rw (check_locks_from_node-found fuel id n found, e) refl,
            Blocks-own w id n found l m b,
          )
          | inl (e, own) ↦
              elim (check_children-cases (check_locks_from_node c shared_ok fuel t) n.children
                (λ k i m.
                  let (node, child) =
                    child_exists t id k i w
                      (ground (arith, Mem-get k i n.children (w.formed.distinct id n found) m)) in
                  check_locks_from_node-cases fuel i node w child (
                    omega (
                      arith,
                      w.ordered id k i
                          (ground (arith, Mem-get k i n.children (w.formed.distinct id n found) m)),
                    )))) [
                      | inl (e', kids) ↦ inl (
                        rw (check_locks_from_node-found fuel id n found, e) e',
                        IsClear-children w id n found own kids,
                      )
                      | inr (l, k, i, e', m, b) ↦ inr (
                        l,
                        rw (check_locks_from_node-found fuel id n found, e) e',
                        Blocks-child w id n found k i l m b,
                      )
                    ]
        ]
