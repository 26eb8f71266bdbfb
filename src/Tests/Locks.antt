-- ===== src/Tests/Locks.antt =====
-- Locks on `/a`, and requests on `/a/b` and `/`.
use mathlib.Core.List.{Memᴰ}
use webdav_handler_rs.Prelude.{
  ℕ, ◌≤◌, panic, ◌+◌, ◌<◌, ◌≡◌, ◌⊎◌, refl, inr, true, false, none, some, List, [], ◌∷◌, list_beq,
  option_beq, arith, Bytes, any, filter, ok, err,
}
use webdav_handler_rs.HashMap
use webdav_handler_rs.Tree
use webdav_handler_rs.Tree.{Node, u64_mod, root_id}
use webdav_handler_rs.DavPath.{DavPath, as_bytes}
use webdav_handler_rs.DavPath.Segments.{split, is_nonempty, segments}
use webdav_handler_rs.Ls.{DavLock}
use webdav_handler_rs.LockTree.{
  path_to_segs, find_path, get_child, get_or_add_child, create_path, get_or_create_path_node,
  lookup_node,
}
use webdav_handler_rs.LockCheck.{
  Claim, is_submitted, is_held, verdict, see_lock, see_locks, walk_path, check_locks_to_path,
  blocks_below, check_node_locks, check_children, check_locks_from_node, check_locks_from_path,
}
use webdav_handler_rs.LockCheck.Covering.{covering}
use webdav_handler_rs.LockCheck.Judge.{passes}
use webdav_handler_rs.LockCheck.Below.{Blocks}
use webdav_handler_rs.LockTree.View.{data_at}
use webdav_handler_rs.LockCheck.Decision.{
  IsClearBelow, check_locks_to_path-decided, check_locks_from_path-decided,
}
use webdav_handler_rs.MemLs.{
  MemLs, LockRequest, new, on_tree, change_locks, new_lock, time_end, lock, check, unlock, refresh,
  delete, discover,
}
use webdav_handler_rs.MemLs.Preserved.{
  IsSound, new-IsSound, unlock-refresh-delete-IsSound, lock-IsSound,
}
use webdav_handler_rs.MemLs.Exclusion.{lock-check_refused, lock-lock_refused}
use webdav_handler_rs.MemLs.Holding.{lock-check_passes}
use webdav_handler_rs.MemLs.Returns.{check_returns, lock_returns, lock-all_shared}
use webdav_handler_rs.MemLs.Discovery.{lock-discover}

-- What the runs below compute with.
program : Unit {0}
unfolding any filter HashMap.get HashMap.insert HashMap.contains_key Tree.new Tree.new_node
    Tree.modify_node Tree.get_node Tree.get_child Tree.get_children Tree.add_child Tree.update_node
    as_bytes split is_nonempty segments path_to_segs find_path get_child get_or_add_child
    create_path get_or_create_path_node lookup_node is_submitted is_held verdict see_lock see_locks
    walk_path check_locks_to_path blocks_below check_node_locks check_children check_locks_from_node
    check_locks_from_path new on_tree change_locks lock
program = tt

abbrev name_a : Bytes
name_a = b'a' ∷ []

abbrev name_b : Bytes
name_b = b'b' ∷ []

abbrev path_a : DavPath
path_a = record { fullpath = b'/' ∷ b'a' ∷ []; pfxlen = none }

abbrev path_ab : DavPath
path_ab = record { fullpath = b'/' ∷ b'a' ∷ b'/' ∷ b'b' ∷ []; pfxlen = none }

abbrev token : Bytes
token = b't' ∷ []

-- A deep exclusive lock, and a shared one below it.
abbrev exclusive_a : LockRequest ℕ
exclusive_a = record {
  path = path_a;
  principal = none;
  owner = none;
  timeout = none;
  shared = false;
  deep = true;
}

abbrev shared_ab : LockRequest ℕ
shared_ab = record {
  path = path_ab;
  principal = none;
  owner = none;
  timeout = none;
  shared = true;
  deep = false;
}

abbrev nobody : Claim
nobody = record { principal = none; ignore_principal = true; submitted_tokens = [] }

abbrev lock_a : DavLock ℕ
lock_a = new_lock exclusive_a token none

segs_a : path_to_segs {E = DavLock ℕ} path_a true ≡ ok ([] ∷ name_a ∷ [])
unfolding program
segs_a = refl

segs_ab : path_to_segs {E = DavLock ℕ} path_ab true ≡ ok ([] ∷ name_a ∷ name_b ∷ [])
unfolding program
segs_ab = refl

room : Tree.Tree.node_id (MemLs.tree (new {Element = ℕ})) + 1 < u64_mod
unfolding program
room = omega arith

granted : (lock exclusive_a token 0 new).0 ≡ ok lock_a
unfolding program
granted = refl

nobody_unheld : is_held nobody lock_a ≡ false
unfolding program
nobody_unheld = refl

lock-check_refused_example :
    (by : DavLock ℕ) × (check path_ab nobody false (lock exclusive_a token 0 new).1 ≡ err by)
    × (is_held nobody by ≡ false)
lock-check_refused_example =
    lock-check_refused exclusive_a token 0 new (name_a ∷ []) (name_b ∷ []) lock_a path_ab
      new-IsSound segs_a room granted segs_ab (inr refl) nobody false refl nobody_unheld

lock-lock_refused_example :
    (by : DavLock ℕ) × (lock shared_ab token 1 (lock exclusive_a token 0 new).1
      ≡ (err by, (lock exclusive_a token 0 new).1))
lock-lock_refused_example =
    lock-lock_refused exclusive_a token 0 new (name_a ∷ []) (name_b ∷ []) lock_a shared_ab token 1
      new-IsSound segs_a room granted segs_ab (inr refl) refl

abbrev holder : Claim
holder = record { principal = none; ignore_principal = false; submitted_tokens = token ∷ [] }

holder_held : is_held holder lock_a ≡ true
unfolding program list_beq option_beq
holder_held = refl

lock-check_passes_example : check path_a holder false (lock exclusive_a token 0 new).1 ≡ ok tt
lock-check_passes_example =
    lock-check_passes exclusive_a token 0 new (name_a ∷ []) lock_a holder new-IsSound segs_a room
      granted refl holder_held

lock_returns_example :
    ((lock exclusive_a token 0 new).0 ≡ ok lock_a)
    ⊎ ((l : DavLock ℕ) × (lock exclusive_a token 0 new ≡ (err l, new)))
    ⊎ (((lock exclusive_a token 0 new).0 ≡ panic)
        × ((d : ℕ) × (exclusive_a.timeout ≡ some d) × (time_end ≤ 0 + d)))
lock_returns_example = lock_returns exclusive_a token 0 new (name_a ∷ []) new-IsSound segs_a room

-- The state with the lock.
abbrev locked : MemLs ℕ
locked = (lock exclusive_a token 0 new).1

locked-IsSound : IsSound locked
locked-IsSound = lock-IsSound exclusive_a token 0 new (name_a ∷ []) segs_a room new-IsSound

lock-IsSound_example : IsSound (lock exclusive_a token 0 (new {Element = ℕ})).1
lock-IsSound_example = lock-IsSound exclusive_a token 0 new (name_a ∷ []) segs_a room new-IsSound

unlock-refresh-delete-IsSound_example :
    IsSound (unlock path_ab token locked).1
    × IsSound (refresh path_ab token none 5 locked).1
    × IsSound (delete path_ab locked).1
unlock-refresh-delete-IsSound_example =
    unlock-refresh-delete-IsSound path_ab token none 5 locked locked-IsSound

check_locks_to_path-decided_example :
    ((passes nobody false (covering (MemLs.tree locked) (name_a ∷ name_b ∷ [])) ≡ true)
      × (check_locks_to_path nobody false (MemLs.tree locked) path_ab ≡ ok tt))
    ⊎ ((passes nobody false (covering (MemLs.tree locked) (name_a ∷ name_b ∷ [])) ≡ false)
        × (l : DavLock ℕ) × (check_locks_to_path nobody false (MemLs.tree locked) path_ab ≡ err l)
        × Memᴰ l (covering (MemLs.tree locked) (name_a ∷ name_b ∷ []))
        × (is_held nobody l ≡ false))
check_locks_to_path-decided_example =
    check_locks_to_path-decided nobody false (MemLs.tree locked) path_ab (name_a ∷ name_b ∷ [])
      segs_ab

segs_a_below : path_to_segs {E = DavLock ℕ} path_a false ≡ ok (name_a ∷ [])
unfolding program
segs_a_below = refl

check_locks_from_path-decided_example :
    ((check_locks_from_path nobody false (MemLs.tree locked) path_a ≡ ok tt)
      × IsClearBelow nobody false (MemLs.tree locked) (name_a ∷ []))
    ⊎ ((l : DavLock ℕ) × (id : ℕ) × (check_locks_from_path nobody false (MemLs.tree locked) path_a
          ≡ err l)
        × (find_path (MemLs.tree locked) root_id (name_a ∷ []) ≡ some id)
        × Blocks nobody false (MemLs.tree locked) id l)
check_locks_from_path-decided_example =
    check_locks_from_path-decided nobody false (MemLs.tree locked) path_a (name_a ∷ [])
      locked-IsSound segs_a_below

-- A shared lock on `/a/b`, and then a deep shared one on `/a`.
abbrev lock_ab : DavLock ℕ
lock_ab = new_lock shared_ab token none

abbrev with_ab : MemLs ℕ
with_ab = (lock shared_ab token 0 new).1

abbrev shared_a : LockRequest ℕ
shared_a = record exclusive_a { shared = true; timeout = some 10 }

abbrev lock_shared_a : DavLock ℕ
lock_shared_a = new_lock shared_a token (some 12)

granted_a : (lock shared_a token 2 with_ab).0 ≡ ok lock_shared_a
unfolding program list_beq
granted_a = refl

room_ab : Tree.Tree.node_id (MemLs.tree (new {Element = ℕ})) + 2 < u64_mod
unfolding program
room_ab = omega arith

room_with_ab : Tree.Tree.node_id (MemLs.tree with_ab) + 1 < u64_mod
unfolding program list_beq
room_with_ab = omega arith

with_ab-IsSound : IsSound with_ab
with_ab-IsSound =
    lock-IsSound shared_ab token 0 new (name_a ∷ name_b ∷ []) segs_ab room_ab new-IsSound

found_ab : find_path (MemLs.tree with_ab) root_id (name_a ∷ name_b ∷ []) ≡ some 3
unfolding program list_beq
found_ab = refl

stored_ab : data_at (MemLs.tree with_ab) 3 ≡ some (lock_ab ∷ [])
unfolding program list_beq
stored_ab = refl

lock-all_shared_example : (lock_ab.shared ≡ true) × (lock_shared_a.shared ≡ true)
lock-all_shared_example =
    lock-all_shared shared_a token 2 with_ab (name_a ∷ []) (name_b ∷ []) lock_shared_a 3
      (lock_ab ∷ []) lock_ab with_ab-IsSound segs_a room_with_ab refl granted_a found_ab stored_ab
      (Memᴰ.head refl)

segs_ab_below : path_to_segs {E = DavLock ℕ} path_ab false ≡ ok (name_a ∷ name_b ∷ [])
unfolding program
segs_ab_below = refl

lock-discover_example :
    (ls : List (DavLock ℕ)) × (discover {E = DavLock ℕ} path_ab locked ≡ ok ls) × Memᴰ lock_a ls
lock-discover_example =
    lock-discover exclusive_a token 0 new (name_a ∷ []) (name_b ∷ []) lock_a path_ab new-IsSound
      segs_a room granted segs_ab_below

check_returns_example :
    ((check path_ab nobody true with_ab ≡ ok tt)
      ⊎ ((l : DavLock ℕ) × (check path_ab nobody true with_ab ≡ err l)))
    ⊎ ((as_bytes {E = DavLock ℕ} path_ab ≡ panic) × (check path_ab nobody true with_ab ≡ panic))
check_returns_example = check_returns path_ab nobody true with_ab with_ab-IsSound
