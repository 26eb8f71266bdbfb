-- ===== src/LockCheck.antt =====
-- The checks of src/memls.rs: do the locks on the way to a path, or below it, stand in the way?
pub mod Covering
pub mod Judge
pub mod Standing
pub mod Below
pub mod Decision
pub mod Grown
use webdav_handler_rs.Prelude.{
  ℕ, zero, suc, ◌+◌, ◌-◌, Bool, true, false, not, ◌&&◌, ◌||◌, Option, none, some, List, [], ◌∷◌,
  Bytes, Eq, ◌==◌, nat_eq, list_eq, option_eq, ltb, length, any, if◌then◌else◌, Outcome, ok, err,
  panic, out_of_fuel, and_then,
}
use webdav_handler_rs.HashMap.{HashMap}
use webdav_handler_rs.Tree.{root_id, get_node, get_children}
use webdav_handler_rs.DavPath.{DavPath}
use webdav_handler_rs.Ls.{DavLock}
use webdav_handler_rs.LockTree.{LockTree, path_to_segs, get_child, lookup_node}

-- What a caller shows: its principal, and the tokens of the locks that it claims to hold.
pub record Claim : Type 0 where
  pub principal : Option Bytes
  pub ignore_principal : Bool
  pub submitted_tokens : List Bytes

-- `holds_lock` and `first_lock_seen`
pub record Seen (Element : Type 0) : Type 0 where
  pub holds_lock : Bool
  pub first_lock_seen : Option (DavLock Element)

module _ {Element : Type 0} where
  unfoldable pub is_submitted : Claim → DavLock Element → Bool
  is_submitted c nl = any (λ t. nl.token == t) c.submitted_tokens

  -- The claim is good for the lock.
  unfoldable pub is_held : Claim → DavLock Element → Bool
  unfolding is_submitted
  is_held c nl = is_submitted c nl && (c.ignore_principal || c.principal == nl.principal)

  abbrev pub nothing_seen : Seen Element
  nothing_seen = record { holds_lock = false; first_lock_seen = none }

  abbrev pub or_insert : Option (DavLock Element) → DavLock Element → Option (DavLock Element)
  or_insert none nl = some nl
  or_insert (some first) nl = some first

  -- A shared lock of another counts if no lock is held.
  unfoldable pub verdict : Seen Element → Outcome (DavLock Element) (Unit {0})
  verdict st =
      if st.holds_lock then ok tt else elim st.first_lock_seen [ none ↦ ok tt | some nl ↦ err nl ]

  module _ (c : Claim) (shared_ok : Bool) where
    -- One lock. Above the last segment, only deep locks count.
    unfoldable pub see_lock :
        Bool → Seen Element → DavLock Element → Outcome (DavLock Element) (Seen Element)
    unfolding is_held
    see_lock above st nl =
        if above && not nl.deep
        then ok st
        else if is_held c nl
        then ok (record st { holds_lock = true })
        else if not nl.shared
        then err nl
        else if not shared_ok
        then ok (record st { first_lock_seen = or_insert st.first_lock_seen nl })
        else ok st

    unfoldable pub see_locks :
        Bool → Seen Element → List (DavLock Element) → Outcome (DavLock Element) (Seen Element)
    see_locks above st [] = ok st
    see_locks above st (nl ∷ rest) = and_then (see_lock above st nl) λ st'. see_locks above st' rest

    -- The loop over the segments; `i` counts them up to `last_seg`.
    unfoldable pub walk_path :
        LockTree Element
        → ℕ
        → ℕ
        → ℕ
        → Seen Element
        → List Bytes
        → Outcome (DavLock Element) (Seen Element)
    walk_path tree last_seg i node_id st [] = ok st
    walk_path tree last_seg i node_id st (seg ∷ rest) = elim (get_child tree node_id seg) [
      | ok n ↦ elim (get_node tree n) [
        | ok node_locks ↦
            and_then (see_locks (ltb i last_seg) st node_locks)
              λ st'. walk_path tree last_seg (i + 1) n st' rest
        | _ ↦ ok st
      ]
      | _ ↦ ok st
    ]

    unfoldable pub check_locks_to_path :
        LockTree Element → DavPath → Outcome (DavLock Element) (Unit {0})
    check_locks_to_path tree path =
        and_then (path_to_segs path true)
          λ segs. and_then (walk_path tree (length segs - 1) 0 root_id nothing_seen segs) verdict

    -- One lock below the path.
    unfoldable pub blocks_below : DavLock Element → Bool
    unfolding is_submitted
    blocks_below nl =
        (not nl.shared || not shared_ok)
        && (not (is_submitted c nl)
            || (not c.ignore_principal && not (c.principal == nl.principal)))

    unfoldable pub check_node_locks : List (DavLock Element) → Outcome (DavLock Element) (Unit {0})
    check_node_locks [] = ok tt
    check_node_locks (nl ∷ rest) = if blocks_below nl then err nl else check_node_locks rest

    -- `for (_, node_id) in children`: the first error is returned.
    unfoldable pub check_children :
        (ℕ → Outcome (DavLock Element) (Unit {0}))
        → HashMap Bytes ℕ
        → Outcome (DavLock Element) (Unit {0})
    check_children check [] = ok tt
    check_children check ((_, node_id) ∷ rest) =
        and_then (check node_id) λ _. check_children check rest

    -- The recursion goes down one level at each step.
    unfoldable pub check_locks_from_node :
        ℕ → LockTree Element → ℕ → Outcome (DavLock Element) (Unit {0})
    check_locks_from_node zero tree node_id = out_of_fuel
    check_locks_from_node (suc fuel) tree node_id = elim (get_node tree node_id) [
      | ok node_locks ↦ and_then (check_node_locks node_locks) λ _.
          elim (get_children tree node_id) [
            | ok children ↦ check_children (check_locks_from_node fuel tree) children
            | _ ↦ ok tt
          ]
      | _ ↦ ok tt
    ]

    -- Ids grow from parent to child, so the next free id bounds the depth.
    unfoldable pub check_locks_from_path :
        LockTree Element → DavPath → Outcome (DavLock Element) (Unit {0})
    check_locks_from_path tree path =
        and_then (lookup_node tree path) λ found. elim found [
          | none ↦ ok tt
          | some id ↦ check_locks_from_node tree.node_id tree id
        ]
