-- ===== src/LockCheck/Covering.antt =====
-- The locks that cover a path: the deep ones above it and all of those at its end, in the order in
-- which `check_locks_to_path` of src/memls.rs walks over them.
use webdav_handler_rs.Prelude.{
  ℕ, suc, ◌+◌, ◌-◌, ◌≡◌, refl, sym, ◌∙◌, inl, inr, Bool, true, false, List, [], ◌∷◌, ◌++◌, arith,
  Bytes, ltb, length, filter, filter_kept, filter_dropped, Bool-cases, Outcome, ok, err, panic,
  out_of_fuel, and_then, and_then-congr, and_then_assoc, ◌<◌,
}
use webdav_handler_rs.Errors.{FsError}
use webdav_handler_rs.Tree.{root_id, get_node}
use webdav_handler_rs.DavPath.{DavPath}
use webdav_handler_rs.Ls.{DavLock}
use webdav_handler_rs.LockTree.{LockTree, path_to_segs, get_child}
use webdav_handler_rs.LockCheck.{
  Claim, Seen, nothing_seen, see_lock, see_locks, walk_path, verdict, check_locks_to_path,
}

module _ {Element : Type 0} where
  -- Of the locks at a node those that count for a path that goes on with `rest`.
  unfoldable pub counted : List Bytes → List (DavLock Element) → List (DavLock Element)
  counted [] node_locks = node_locks
  counted (seg ∷ rest) node_locks = filter (λ nl. nl.deep) node_locks

  unfoldable pub covering_from : LockTree Element → ℕ → List Bytes → List (DavLock Element)
  unfolding counted
  covering_from tree node_id [] = []
  covering_from tree node_id (seg ∷ rest) = elim (get_child tree node_id seg) [
    | ok n ↦ elim (get_node tree n) [
      | ok node_locks ↦ counted rest node_locks ++ covering_from tree n rest
      | _ ↦ []
    ]
    | _ ↦ []
  ]

  -- The first segment is the empty one of the root.
  abbrev pub covering : LockTree Element → List Bytes → List (DavLock Element)
  covering tree segs = covering_from tree root_id ([] ∷ segs)

  module _ (c : Claim) (shared_ok : Bool) where
    -- The check of a plain list of locks.
    unfoldable pub judge : List (DavLock Element) → Outcome (DavLock Element) (Unit {0})
    judge ls = and_then (see_locks c shared_ok false nothing_seen ls) verdict

    see_lock_deep :
        (st : Seen Element) (nl : DavLock Element)
        → nl.deep ≡ true
        → see_lock c shared_ok true st nl ≡ see_lock c shared_ok false st nl
    unfolding see_lock
    see_lock_deep st nl deep = ground arith

    see_lock_shallow :
        (st : Seen Element) (nl : DavLock Element)
        → nl.deep ≡ false
        → see_lock c shared_ok true st nl ≡ ok st
    unfolding see_lock
    see_lock_shallow st nl shallow = ground arith

    see_locks-filter :
        (st : Seen Element) (ls : List (DavLock Element))
        → see_locks c shared_ok true st ls
          ≡ see_locks c shared_ok false st (filter (λ nl. nl.deep) ls)
    unfolding see_locks
    see_locks-filter st [] = unfold filter in refl
    see_locks-filter st (nl ∷ rest) = elim (Bool-cases nl.deep) [
      | inl deep ↦
          rw (filter_kept (λ (x : DavLock Element). x.deep) nl rest deep, see_lock_deep st nl deep)
            (and_then-congr (see_lock c shared_ok false st nl) (λ st'. see_locks-filter st' rest))
      | inr shallow ↦
          rw
            (
              filter_dropped (λ (x : DavLock Element). x.deep) nl rest shallow,
              see_lock_shallow st nl shallow,
            )
            (see_locks-filter st rest)
    ]

    pub see_locks-append :
        (st : Seen Element) (xs ys : List (DavLock Element))
        → see_locks c shared_ok false st (xs ++ ys)
          ≡ and_then (see_locks c shared_ok false st xs) (λ st'. see_locks c shared_ok false st' ys)
    unfolding see_locks
    see_locks-append st [] ys = refl
    see_locks-append st (nl ∷ rest) ys =
        and_then-congr (see_lock c shared_ok false st nl) (λ st'. see_locks-append st' rest ys)
        ∙ sym (and_then_assoc (see_lock c shared_ok false st nl) _ _)

    -- Above the end of the path the check skips what is not deep.
    see_locks-counted :
        (last i : ℕ) (st : Seen Element) (rest : List Bytes) (ls : List (DavLock Element))
        → i + length rest ≡ last
        → see_locks c shared_ok (ltb i last) st ls
          ≡ see_locks c shared_ok false st (counted rest ls)
    unfolding counted
    see_locks-counted last i st [] ls h = rw (below i last (omega arith)) refl
      where
        below : (a b : ℕ) → a ≡ b → ltb a b ≡ false
        below a b e = ground arith
    see_locks-counted last i st (seg ∷ rest) ls h =
        rw (above i last (omega arith)) (see_locks-filter st ls)
      where
        above : (a b : ℕ) → a < b → ltb a b ≡ true
        above a b e = ground arith

    walk_path-covering :
        (tree : LockTree Element) (last i node_id : ℕ) (st : Seen Element) (segs : List Bytes)
        → i + length segs ≡ last + 1
        → walk_path c shared_ok tree last i node_id st segs
          ≡ see_locks c shared_ok false st (covering_from tree node_id segs)
    unfolding walk_path covering_from see_locks
    walk_path-covering tree last i node_id st [] h = refl
    walk_path-covering tree last i node_id st (seg ∷ rest) h =
        by_child (get_child tree node_id seg) refl
          (λ n st'. walk_path-covering tree last (i + 1) n st' rest (omega arith))
      where
        Rest : Type 0
        Rest =
            (n : ℕ) (st' : Seen Element)
            → walk_path c shared_ok tree last (i + 1) n st' rest
              ≡ see_locks c shared_ok false st' (covering_from tree n rest)

        by_node :
            (n : ℕ) (o : Outcome FsError (List (DavLock Element)))
            → get_child tree node_id seg ≡ ok n
            → get_node tree n ≡ o
            → Rest
            → walk_path c shared_ok tree last i node_id st (seg ∷ rest)
              ≡ see_locks c shared_ok false st (covering_from tree node_id (seg ∷ rest))
        by_node n (ok ls) e e' later =
            rw (walk_path, covering_from, e, e', see_locks-counted last i st rest ls (omega arith))
              (and_then-congr (see_locks c shared_ok false st (counted rest ls)) (later n)
                ∙ sym (see_locks-append st (counted rest ls) (covering_from tree n rest)))
        by_node n (err x) e e' later = rw (walk_path, covering_from, e, e')
        by_node n panic e e' later = rw (walk_path, covering_from, e, e')
        by_node n out_of_fuel e e' later = rw (walk_path, covering_from, e, e')

        by_child :
            (o : Outcome FsError ℕ)
            → get_child tree node_id seg ≡ o
            → Rest
            → walk_path c shared_ok tree last i node_id st (seg ∷ rest)
              ≡ see_locks c shared_ok false st (covering_from tree node_id (seg ∷ rest))
        by_child (ok n) e later = by_node n (get_node tree n) e refl later
        by_child (err x) e later = rw (walk_path, covering_from, e)
        by_child panic e later = rw (walk_path, covering_from, e)
        by_child out_of_fuel e later = rw (walk_path, covering_from, e)

    -- The check of a path judges the locks that cover it.
    pub check_locks_to_path-covering :
        (tree : LockTree Element) (path : DavPath) (segs : List Bytes)
        → path_to_segs {E = DavLock Element} path true ≡ ok ([] ∷ segs)
        → check_locks_to_path c shared_ok tree path ≡ judge (covering tree segs)
    unfolding check_locks_to_path judge
    check_locks_to_path-covering tree path segs e = rw (
      e,
      walk_path-covering tree (suc (length segs) - 1) 0 root_id nothing_seen ([] ∷ segs)
          (omega arith),
    )
