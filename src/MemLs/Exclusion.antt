-- ===== src/MemLs/Exclusion.antt =====
-- `lock` of src/memls.rs, and then `check` or another `lock`.
use mathlib.Core.List.Memᴰ
use mathlib.Core.List.{Memᴰ}
use webdav_handler_rs.Prelude.{
  ℕ, Option, ◌+◌, ◌<◌, ◌≡◌, ◌⊎◌, refl, ◌∙◌, inl, inr, Bool, true, false, ◌&&◌, some, List, [], ◌∷◌,
  ◌++◌, arith, Bytes, nat_eq, any, length, Bool-cases, Outcome, ok, err,
}
use webdav_handler_rs.Tree.{u64_mod, root_id}
use webdav_handler_rs.DavPath.{DavPath}
use webdav_handler_rs.Ls.{DavLock}
use webdav_handler_rs.LockTree.{LockTree, path_to_segs, find_path}
use webdav_handler_rs.LockTree.View.{
  data_at, data_at-update_node, find_path-update_node, IsLockTree,
}
use webdav_handler_rs.LockTree.Kept.{changed-IsLockTree}
use webdav_handler_rs.LockCheck.{Claim, is_submitted, is_held, check_locks_to_path}
use webdav_handler_rs.LockCheck.Covering.{covering, check_locks_to_path-covering}
use webdav_handler_rs.LockCheck.Judge.{is_barred, passes, judge-stops}
use webdav_handler_rs.LockCheck.Standing.{
  Mem-covering, any-Mem, path_to_segs-IsSegment, check_locks_to_path-barred,
}
use webdav_handler_rs.MemLs.{MemLs, LockRequest, no_claim, new_lock, lock, check}
use webdav_handler_rs.MemLs.Locking.{push, lock_checked, lock_granted, lock_due}
use webdav_handler_rs.MemLs.Preserved.{IsSound}

module _ {Element : Type 0} where
  Mem-push : (l : DavLock Element) (ls : List (DavLock Element)) → Memᴰ l (push l ls)
  Mem-push l ls = Memᴰ.append_right ls (Memᴰ.head refl)

  -- Where the granted lock stands.
  pub record Stands (l : DavLock Element) (segs : List Bytes) (t : LockTree Element) : Type 0 where
    pub N : ℕ
    pub locks : List (DavLock Element)
    pub sound : IsLockTree t
    pub at_path : find_path t root_id segs ≡ some N
    pub stored : data_at t N ≡ some locks
    pub member : Memᴰ l locks

  pub lock-Stands :
      (r : LockRequest Element) (token : Bytes) (now : ℕ) (s : MemLs Element) (segs : List Bytes)
      (l : DavLock Element)
      → IsSound s
      → path_to_segs {E = DavLock Element} r.path true ≡ ok ([] ∷ segs)
      → s.tree.node_id + length segs < u64_mod
      → (lock r token now s).0 ≡ ok l
      → (timeout_at : Option ℕ) × (l ≡ new_lock r token timeout_at)
        × Stands l segs (lock r token now s).1.tree
  lock-Stands r token now s segs l w e room h =
      let (p, q) = lock_checked r s token now l h in
      let (timeout_at, due) = lock_due r s segs token now w e room p q l h in
      let (N, t, g) = lock_granted r s segs token now w e room p q timeout_at due in
      let (m, found) = g.created.exists in
      let l' : DavLock Element = new_lock r token timeout_at in
      let returned : ◌≡◌ {A = Outcome (DavLock Element) (DavLock Element)}
          (ok (new_lock r token timeout_at)) (ok l) =
        rw (g.granted) at h in
      let same : l ≡ l' = ground (arith, returned) in
      (
        timeout_at,
        same,
        rw (g.granted) (record {
          N = N;
          locks = push l' m.node_data;
          sound = changed-IsLockTree g.created.tree N (push l');
          at_path = find_path-update_node t N (push l') root_id segs ∙ g.created.at_path;
          stored = ground (arith, data_at-update_node t N (push l') N);
          member = rw same (Mem-push l' m.node_data);
        }),
      )

  -- The check looks at the segments only, so it is refused before the deep part.
  check-path :
      (path : DavPath) (c : Claim) (deep : Bool) (s : MemLs Element) (by : DavLock Element)
      → check_locks_to_path c false s.tree path ≡ err by
      → check path c deep s ≡ err by
  unfolding check
  check-path path c deep s by h = rw h

  module _ (r : LockRequest Element) (token : Bytes) (now : ℕ) (s : MemLs Element)
      (segs more : List Bytes) (l : DavLock Element) (path : DavPath) (w : IsSound s)
      (e : path_to_segs {E = DavLock Element} r.path true ≡ ok ([] ∷ segs))
      (room : s.tree.node_id + length segs < u64_mod) (granted : (lock r token now s).0 ≡ ok l)
      (e' : path_to_segs {E = DavLock Element} path true ≡ ok ([] ∷ segs ++ more))
      (at_or_below : (more ≡ []) ⊎ (r.deep ≡ true)) where
    -- After `lock` has granted an exclusive lock, in a sound state with ids left for its path,
    -- `check` returns an error to every claim that does not hold the lock, on the path of the
    -- lock, and on every path below it if the lock is deep; the lock that the error shows is one
    -- that the claim does not hold either.
    pub lock-check_refused :
        (c : Claim) (deep : Bool)
        → r.shared ≡ false
        → is_held c l ≡ false
        → (by : DavLock Element) × (check path c deep (lock r token now s).1 ≡ err by)
          × (is_held c by ≡ false)
    lock-check_refused c deep exclusive unheld =
        let (_, same, st) = lock-Stands r token now s segs l w e room granted in
        let (by, q, _, u) =
          check_locks_to_path-barred c false (lock r token now s).1.tree path st.N segs more
            st.locks l st.sound e' (path_to_segs-IsSegment r.path segs e) st.at_path st.stored
            st.member (ground (arith, at_or_below, same)) (ground (arith, same)) in
        (by, check-path path c deep (lock r token now s).1 by q, u)

  -- `lock` itself claims nothing: a lock on the way passes only if it is shared and shared is asked for.
  passes-no_claim :
      (shared_ok : Bool) (l : DavLock Element) (ls : List (DavLock Element))
      → Memᴰ l ls
      → (l.shared && shared_ok) ≡ false
      → passes no_claim shared_ok ls ≡ false
  unfolding is_held is_submitted any
  passes-no_claim shared_ok l ls m h = elim (Bool-cases l.shared) [
    | inl shared ↦ nobody (ground arith) ls m
    | inr exclusive ↦ ground (arith, any-Mem (is_barred no_claim shared_ok) l ls m (ground arith))
  ]
    where
      unclaimed : (xs : List (DavLock Element)) → any (is_held no_claim) xs ≡ false
      unclaimed [] = refl
      unclaimed (x ∷ xs) = ground (arith, unclaimed xs)

      nobody :
          shared_ok ≡ false
          → (xs : List (DavLock Element)) → Memᴰ l xs
          → passes no_claim shared_ok xs ≡ false
      nobody off [] mem = elim mem [ ]
      nobody off (x ∷ xs) mem = ground (arith, unclaimed (x ∷ xs))

  module _ (r : LockRequest Element) (token : Bytes) (now : ℕ) (s : MemLs Element)
      (segs more : List Bytes) (l : DavLock Element) (r' : LockRequest Element) (token' : Bytes)
      (now' : ℕ) (w : IsSound s)
      (e : path_to_segs {E = DavLock Element} r.path true ≡ ok ([] ∷ segs))
      (room : s.tree.node_id + length segs < u64_mod) (granted : (lock r token now s).0 ≡ ok l)
      (e' : path_to_segs {E = DavLock Element} r'.path true ≡ ok ([] ∷ segs ++ more))
      (at_or_below : (more ≡ []) ⊎ (r.deep ≡ true)) where
    -- After `lock` has granted a lock, in a sound state with ids left for its path, a second
    -- `lock` on the same path, or on a path below it if the first lock is deep, is refused unless
    -- both are shared, and changes nothing.
    pub lock-lock_refused :
        (r.shared && r'.shared) ≡ false
        → (by : DavLock Element) × (lock r' token' now' (lock r token now s).1
            ≡ (err by, (lock r token now s).1))
    unfolding lock
    lock-lock_refused either =
        let (_, same, st) = lock-Stands r token now s segs l w e room granted in
        let inside : Memᴰ l (covering (lock r token now s).1.tree (segs ++ more)) =
          Mem-covering (lock r token now s).1.tree st.N segs more st.locks l st.sound
            (path_to_segs-IsSegment r.path segs e) st.at_path st.stored st.member
            (ground (arith, at_or_below, same)) in
        let (by, q, _, _) =
          judge-stops no_claim r'.shared (covering (lock r token now s).1.tree (segs ++ more)) (
            passes-no_claim r'.shared l (covering (lock r token now s).1.tree (segs ++ more)) inside
              (ground (arith, same))) in
        (
          by,
          rw
              (check_locks_to_path-covering no_claim r'.shared (lock r token now s).1.tree r'.path
                  (segs ++ more) e'
                ∙ q)
              refl,
        )
