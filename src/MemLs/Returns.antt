-- ===== src/MemLs/Returns.antt =====
-- The outcomes of `lock` and `check` of src/memls.rs.
use mathlib.Core.List.{Memᴰ}
use mathlib.Core.Option
use webdav_handler_rs.Prelude.{
  ℕ, drop, Option-cases, panic, leb, Bool-cases, any, ◌++◌, not, ◌||◌, ◌&&◌, ◌≤◌, ◌+◌, ◌<◌, ◌≡◌,
  ◌⊎◌, refl, ap, inl, inr, Bool, true, false, some, List, [], ◌∷◌, arith, Bytes, nat_eq, length,
  if◌then◌else◌, Outcome, ok, err,
}
use webdav_handler_rs.Tree.{u64_mod, root_id}
use webdav_handler_rs.DavPath.{DavPath, as_bytes, prefix_len}
use webdav_handler_rs.DavPath.Segments.{segments}
use webdav_handler_rs.Ls.{DavLock}
use webdav_handler_rs.LockTree.{LockTree, path_to_segs, find_path}
use webdav_handler_rs.LockTree.View.{data_at, child_at, find_path-cons}
use webdav_handler_rs.LockCheck.Standing.{any-Mem}
use webdav_handler_rs.LockCheck.{
  Claim, is_submitted, blocks_below, check_locks_to_path, check_locks_from_path,
}
use webdav_handler_rs.LockCheck.Decision.{
  check_locks_to_path-decided, check_locks_from_path-decided,
}
use webdav_handler_rs.MemLs.{MemLs, LockRequest, no_claim, time_end, new_lock, lock, check}
use webdav_handler_rs.MemLs.Locking.{
  path_to_segs_root, lock_checked, expiry_cases, lock_granted, lock_expired,
}
use webdav_handler_rs.MemLs.Exclusion.{lock-Stands}
use webdav_handler_rs.MemLs.Preserved.{IsSound}

-- A path can be read, or to read it panics.
path_to_segs_cases :
    {E : Type 0} (path : DavPath)
    → ((segs : List Bytes) × (path_to_segs {E = E} path true ≡ ok ([] ∷ segs)))
      ⊎ (as_bytes {E = E} path ≡ panic)
unfolding path_to_segs as_bytes
path_to_segs_cases path = elim (Bool-cases (leb (prefix_len path) (length path.fullpath))) [
  | inl within ↦ inl (segments (drop (prefix_len path) path.fullpath), rw within refl)
  | inr beyond ↦ inr (rw beyond refl)
]

module _ {Element : Type 0} where
  to_path-panic :
      (c : Claim) (shared_ok : Bool) (s : MemLs Element) (path : DavPath)
      → as_bytes {E = DavLock Element} path ≡ panic
      → check_locks_to_path c shared_ok s.tree path ≡ panic
  unfolding check_locks_to_path path_to_segs
  to_path-panic c shared_ok s path unread = rw unread refl

  -- `ok` or an error.
  abbrev HasReturned : Outcome (DavLock Element) (Unit {0}) → Type 0
  HasReturned o = (o ≡ ok tt) ⊎ ((l : DavLock Element) × (o ≡ err l))

  module _ (c : Claim) (shared_ok : Bool) (s : MemLs Element) (path : DavPath) (segs : List Bytes)
      (w : IsSound s) (e : path_to_segs {E = DavLock Element} path true ≡ ok ([] ∷ segs)) where
    to_path-HasReturned : HasReturned (check_locks_to_path c shared_ok s.tree path)
    to_path-HasReturned = elim (check_locks_to_path-decided c shared_ok s.tree path segs e) [
      | inl (_, h) ↦ inl h
      | inr (_, l, h, _, _) ↦ inr (l, h)
    ]

    from_path-HasReturned : HasReturned (check_locks_from_path c shared_ok s.tree path)
    from_path-HasReturned =
        elim (check_locks_from_path-decided c shared_ok s.tree path segs w
          (path_to_segs_root path segs e)) [ inl (h, _) ↦ inl h | inr (l, _, h, _, _) ↦ inr (l, h) ]

    deep-HasReturned :
        (deep : Bool)
        → HasReturned (if deep then check_locks_from_path c shared_ok s.tree path else ok tt)
    deep-HasReturned true = from_path-HasReturned
    deep-HasReturned false = inl refl

  -- In a sound state, `check` ends with the fuel that it has, deep or not: it returns `ok` or an
  -- error, or it panics, and then so does the reading of the path, which is shorter than its
  -- prefix.
  pub check_returns :
      (path : DavPath) (c : Claim) (deep : Bool) (s : MemLs Element)
      → IsSound s
      → ((check path c deep s ≡ ok tt) ⊎ ((l : DavLock Element) × (check path c deep s ≡ err l)))
        ⊎ ((as_bytes {E = DavLock Element} path ≡ panic) × (check path c deep s ≡ panic))
  unfolding check
  check_returns path c deep s w = elim (path_to_segs_cases {E = DavLock Element} path) [
    | inr unread ↦ inr (unread, rw (to_path-panic c false s path unread) refl)
    | inl (segs, e) ↦ inl (elim (to_path-HasReturned c false s path segs w e) [
      | inr (l, h) ↦ inr (l, rw h refl)
      | inl h ↦ elim (deep-HasReturned c false s path segs w e deep) [
        | inl h' ↦ inl (rw h h')
        | inr (l, h') ↦ inr (l, rw h h')
      ]
    ])
  ]

  -- In a sound state, of a path that can be read and with ids left for its nodes, `lock` ends
  -- with the fuel that it has: it returns the new lock with its time of expiry, or an error, and
  -- then the state is unchanged, or it panics, and then it has a timeout and the time of expiry
  -- lies past the end of time.
  pub lock_returns :
      (r : LockRequest Element) (token : Bytes) (now : ℕ) (s : MemLs Element) (segs : List Bytes)
      → IsSound s
      → path_to_segs {E = DavLock Element} r.path true ≡ ok ([] ∷ segs)
      → s.tree.node_id + length segs < u64_mod
      → ((lock r token now s).0 ≡ ok (new_lock r token (Option.map (λ d. now + d) r.timeout)))
        ⊎ ((l : DavLock Element) × (lock r token now s ≡ (err l, s)))
        ⊎ (((lock r token now s).0 ≡ panic)
            × ((d : ℕ) × (r.timeout ≡ some d) × (time_end ≤ now + d)))
  unfolding lock
  lock_returns r token now s segs w e room =
      elim (to_path-HasReturned no_claim r.shared s r.path segs w e) [
        | inr (l, h) ↦ inr (inl (l, rw h refl))
        | inl h ↦ elim (deep-HasReturned no_claim r.shared s r.path segs w e r.deep) [
          | inr (l, h') ↦ inr (inl (l, rw (h, h') refl))
          | inl h' ↦ elim (expiry_cases {E = DavLock Element} now r.timeout) [
            | inl due ↦
                let (N, t, g) =
                  lock_granted r s segs token now w e room h h'
                    (Option.map (λ d. now + d) r.timeout) due in
                inl (ap (λ x. x.0) g.granted)
            | inr (late, past) ↦
                let (N, t, x) = lock_expired r s segs token now w e room h h' late in
                inr (inr (ap (λ v. v.0) x.expired, past))
          ]
        ]
      ]

  find_path-split :
      (t : LockTree Element) (n : ℕ) (segs more : List Bytes) (id : ℕ)
      → find_path t n (segs ++ more) ≡ some id
      → (mid : ℕ) × (find_path t n segs ≡ some mid) × (find_path t mid more ≡ some id)
  unfolding find_path
  find_path-split t n [] more id found = (n, refl, found)
  find_path-split t n (seg ∷ segs) more id found = elim (Option-cases (child_at t n seg)) [
    | inl absent ↦ absurd (ground (arith, found, find_path-cons t n seg (segs ++ more), absent))
    | inr (c, there) ↦
        let (mid, a, b) =
          find_path-split t c segs more id
            (ground (arith, found, find_path-cons t n seg (segs ++ more), there)) in
        (mid, ground (arith, a, find_path-cons t n seg segs, there), b)
  ]

  any-none :
      (p : DavLock Element → Bool) (l : DavLock Element) (ls : List (DavLock Element))
      → Memᴰ l ls
      → any p ls ≡ false
      → p l ≡ false
  any-none p l ls m h = elim (Bool-cases (p l)) [
    | inr off ↦ off
    | inl on ↦ absurd (ground (arith, any-Mem p l ls m on, h))
  ]

  -- What does not block a request without a claim is shared, and the request is for a shared lock.
  unclaimed-shared :
      (shared_ok : Bool) (l : DavLock Element)
      → blocks_below no_claim shared_ok l ≡ false
      → (l.shared ≡ true) × (shared_ok ≡ true)
  unfolding blocks_below is_submitted any
  unclaimed-shared shared_ok l h = both l.shared shared_ok h
    where
      both : (a b : Bool) → ((not a || not b) && true) ≡ false → (a ≡ true) × (b ≡ true)
      both true true e = (refl, refl)
      both true false e = absurd cc
      both false b e = absurd cc

  -- If a deep lock is granted in a sound state with ids left for its path, then every lock that
  -- was held at its path or at any depth below it was shared, and the new lock is shared too; so,
  -- above any exclusive lock, no deep lock is granted, and above a shared one none that is
  -- exclusive.
  pub lock-all_shared :
      (r : LockRequest Element) (token : Bytes) (now : ℕ) (s : MemLs Element)
      (segs more : List Bytes) (l : DavLock Element) (id : ℕ) (ls : List (DavLock Element))
      (other : DavLock Element)
      → IsSound s
      → path_to_segs {E = DavLock Element} r.path true ≡ ok ([] ∷ segs)
      → s.tree.node_id + length segs < u64_mod
      → r.deep ≡ true
      → (lock r token now s).0 ≡ ok l
      → find_path s.tree root_id (segs ++ more) ≡ some id
      → data_at s.tree id ≡ some ls
      → Memᴰ other ls
      → (other.shared ≡ true) × (l.shared ≡ true)
  lock-all_shared r token now s segs more l id ls other w e room deep granted found stored member =
      let (_, q) = lock_checked r s token now l granted in
      let (_, same, _) = lock-Stands r token now s segs l w e room granted in
      let (mid, to_mid, below) = find_path-split s.tree root_id segs more id found in
      elim (check_locks_from_path-decided no_claim r.shared s.tree r.path segs w
        (path_to_segs_root r.path segs e)) [
          | inl (_, clear) ↦
              let (a, b) = unclaimed-shared r.shared other (
                any-none (blocks_below no_claim r.shared) other ls member
                  (clear mid to_mid more id ls below stored)) in
              (a, ground (arith, same, b))
          | inr (by, _, h, _, _) ↦ absurd (ground (arith, q, h, deep))
        ]
