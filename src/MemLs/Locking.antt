-- ===== src/MemLs/Locking.antt =====
-- The steps of `lock` of src/memls.rs.
use webdav_handler_rs.Prelude.{
  ℕ, ◌+◌, ◌<◌, ◌≤◌, ◌≡◌, ◌⊎◌, refl, sym, ap, ◌∙◌, Bool-cases, Option, none, ltb, inl, inr, true,
  false, some, List, [], ◌∷◌, ◌++◌, arith, Bytes, nat_eq, length, if◌then◌else◌, Option-cases,
  Outcome, ok, err, panic, out_of_fuel, and_then-eq-ok,
}
use mathlib.Core.Option
use webdav_handler_rs.HashMap
use webdav_handler_rs.Tree.{Node, find_node, root_id, u64_mod, update_node}
use webdav_handler_rs.DavPath.{DavPath, as_bytes}
use webdav_handler_rs.Ls.{DavLock}
use webdav_handler_rs.LockTree.{LockTree, path_to_segs, get_or_create_path_node}
use webdav_handler_rs.LockTree.View.{changed, IsLockTree}
use webdav_handler_rs.LockTree.Create.{Creates, create_path_lem}
use webdav_handler_rs.LockCheck.{check_locks_to_path, check_locks_from_path}
use webdav_handler_rs.MemLs.{
  MemLs, LockRequest, expiry, time_end, no_claim, on_tree, change_locks, new_lock, lock,
}

-- With the empty segment of the root or without.
pub path_to_segs_root {κ} :
    {E : Type κ} (path : DavPath) (segs : List Bytes)
    → path_to_segs {E = E} path true ≡ ok ([] ∷ segs)
    → (path_to_segs {E = E} path false ≡ ok segs)
unfolding path_to_segs
path_to_segs_root {E = E} path segs h =
    let (bytes, same, q) = and_then-eq-ok (as_bytes {E = E} path) _ h in rw same (ground (arith, q))

-- The sum can be held, or `SystemTime` panics.
pub expiry_cases {κ} :
    {E : Type κ} (now : ℕ) (timeout : Option ℕ)
    → (expiry {E = E} now timeout ≡ ok (Option.map (λ d. now + d) timeout))
      ⊎ ((expiry {E = E} now timeout ≡ panic)
          × ((d : ℕ) × (timeout ≡ some d) × (time_end ≤ now + d)))
unfolding expiry
expiry_cases now none = inl refl
expiry_cases now (some d) = elim (Bool-cases (ltb (now + d) time_end)) [
  | inl within ↦ inl (rw within refl)
  | inr late ↦ inr (rw late refl, (d, refl, not_within (now + d) time_end late))
]
  where
    not_within : (m n : ℕ) → ltb m n ≡ false → n ≤ m
    not_within m n h = ground arith

module _ {Element : Type 0} where
  abbrev pub push : DavLock Element → List (DavLock Element) → List (DavLock Element)
  push l ls = ls ++ l ∷ []

  change_locks-found :
      (s : MemLs Element) (N : ℕ) (f : List (DavLock Element) → List (DavLock Element))
      (m : Node Bytes (List (DavLock Element)))
      → find_node s.tree N ≡ some m
      → change_locks {E = DavLock Element} N f s ≡ (ok tt, record s { tree = changed s.tree N f })
  unfolding change_locks update_node
  change_locks-found s N f m found = rw (change_locks, found) refl

  module _ (r : LockRequest Element) (s : MemLs Element) where
    abbrev pub path_check : Outcome (DavLock Element) (Unit {0})
    path_check = check_locks_to_path no_claim r.shared s.tree r.path

    abbrev pub deep_check : Outcome (DavLock Element) (Unit {0})
    deep_check = if r.deep then check_locks_from_path no_claim r.shared s.tree r.path else ok tt

    pub lock_checked :
        (token : Bytes) (now : ℕ) (l : DavLock Element)
        → (lock r token now s).0 ≡ ok l
        → (path_check ≡ ok tt) × (deep_check ≡ ok tt)
    unfolding lock
    lock_checked token now l h = first path_check deep_check refl refl h
      where
        first :
            (a b : Outcome (DavLock Element) (Unit {0}))
            → path_check ≡ a
            → deep_check ≡ b
            → (lock r token now s).0 ≡ ok l
            → (path_check ≡ ok tt) × (deep_check ≡ ok tt)
        first (ok u) (ok v) p q e = (p, q)
        first (ok u) (err x) p q e = absurd (ground (arith, p, q))
        first (ok u) panic p q e = absurd (ground (arith, p, q))
        first (ok u) out_of_fuel p q e = absurd (ground (arith, p, q))
        first (err x) b p q e = absurd (ground (arith, p))
        first panic b p q e = absurd (ground (arith, p))
        first out_of_fuel b p q e = absurd (ground (arith, p))

    -- The node of the path, and the tree once it is there.
    pub record Grants (segs : List Bytes) (token : Bytes) (now : ℕ) (timeout_at : Option ℕ) (N : ℕ)
        (t : LockTree Element) : Type 0 where
      pub created : Creates s.tree root_id segs N t
      pub granted : lock r token now s ≡ (
        ok (new_lock r token timeout_at),
        record s { tree = changed t N (push (new_lock r token timeout_at)) },
      )

    -- The same, where the timeout runs past the end of time.
    pub record Expires (segs : List Bytes) (token : Bytes) (now N : ℕ) (t : LockTree Element)
        : Type 0 where
      pub created : Creates s.tree root_id segs N t
      pub expired : lock r token now s ≡ (panic, record s { tree = t })

    module _ (segs : List Bytes) (token : Bytes) (now : ℕ) (w : IsLockTree s.tree)
        (e : path_to_segs {E = DavLock Element} r.path true ≡ ok ([] ∷ segs))
        (room : s.tree.node_id + length segs < u64_mod) (p : path_check ≡ ok tt)
        (q : deep_check ≡ ok tt) where
      create_path : (N : ℕ) × (t : LockTree Element) × Creates s.tree root_id segs N t
      unfolding HashMap.contains_key
      create_path = elim (Option-cases (find_node s.tree root_id)) [
        | inl absent ↦ absurd (ground (arith, w.formed.root))
        | inr (root, there) ↦ create_path_lem s.tree root_id segs root w there room
      ]

      pub lock_granted :
          (timeout_at : Option ℕ)
          → expiry {E = DavLock Element} now r.timeout ≡ ok timeout_at
          → (N : ℕ) × (t : LockTree Element) × Grants segs token now timeout_at N t
      unfolding lock on_tree get_or_create_path_node
      lock_granted timeout_at due =
          let (N, t, c) = create_path in
          let (m, found) = c.exists in
          (
            N,
            t,
            record {
              created = c;
              granted =
                  rw
                    (
                      p,
                      q,
                      path_to_segs_root r.path segs e,
                      c.returns,
                      due,
                      change_locks-found (record s { tree = t }) N
                          (push (new_lock r token timeout_at)) m found,
                    )
                    refl;
            },
          )

      pub lock_expired :
          expiry {E = DavLock Element} now r.timeout ≡ panic
          → (N : ℕ) × (t : LockTree Element) × Expires segs token now N t
      unfolding lock on_tree get_or_create_path_node
      lock_expired late =
          let (N, t, c) = create_path in
          (
            N,
            t,
            record {
              created = c;
              expired = rw (p, q, path_to_segs_root r.path segs e, c.returns, late) refl;
            },
          )

      -- A lock that has been granted ends at a time that can be held.
      pub lock_due :
          (l : DavLock Element)
          → (lock r token now s).0 ≡ ok l
          → (timeout_at : Option ℕ) × (expiry {E = DavLock Element} now r.timeout ≡ ok timeout_at)
      lock_due l granted = elim (expiry_cases {E = DavLock Element} now r.timeout) [
        | inl due ↦ (Option.map (λ d. now + d) r.timeout, due)
        | inr (late, _) ↦
            let (N, t, x) = lock_expired late in
            absurd (panic_ne l (sym (ap (λ v. v.0) x.expired) ∙ granted))
      ]
        where
          panic_ne :
              (l : DavLock Element)
              → ◌≡◌ {A = Outcome (DavLock Element) (DavLock Element)} panic (ok l)
              → ⊥
          panic_ne l h = cc
