-- ===== src/LockCheck/Standing.antt =====
-- `check_locks_to_path` of src/memls.rs and a lock on the way to the path.
use mathlib.Core.List.Memᴰ
use mathlib.Core.List.{Memᴰ}
use webdav_handler_rs.Prelude.{
  ℕ, ◌≡◌, ◌⊎◌, sym, ap, ◌∙◌, inl, inr, Bool, true, false, some, List, [], ◌∷◌, ◌++◌, arith, Bytes,
  any, filter, filter_kept, filter_dropped, Bool-cases, Option-cases, ok, err, and_then-eq-ok, All,
}
use webdav_handler_rs.Tree.{find_node, root_id}
use webdav_handler_rs.DavPath.{DavPath, as_bytes}
use webdav_handler_rs.DavPath.Parent.{IsSegment, segments-IsSegment}
use webdav_handler_rs.Ls.{DavLock}
use webdav_handler_rs.LockTree.{LockTree, path_to_segs, find_path}
use webdav_handler_rs.LockTree.View.{
  data_at, child_at, step_to, get_child-step_to, get_node-data_at, find_path-cons, IsLockTree,
}
use webdav_handler_rs.LockTree.Create.{child_exists}
use webdav_handler_rs.LockCheck.{Claim, is_held, check_locks_to_path}
use webdav_handler_rs.LockCheck.Covering.{
  counted, covering_from, covering, check_locks_to_path-covering,
}
use webdav_handler_rs.LockCheck.Judge.{is_barred, judge-stops}

-- The segments of a path, as the walks get them.
pub path_to_segs-IsSegment {κ} :
    {E : Type κ} (path : DavPath) (segs : List Bytes)
    → path_to_segs {E = E} path true ≡ ok ([] ∷ segs)
    → All IsSegment segs
unfolding path_to_segs
path_to_segs-IsSegment {E = E} path segs h =
    let (bytes, _, q) = and_then-eq-ok (as_bytes {E = E} path) _ h in
    let same : webdav_handler_rs.DavPath.Segments.segments bytes ≡ segs = ground arith in
    rw same at (segments-IsSegment bytes)

module _ {Element : Type 0} where
  pub step_to_segment :
      (t : LockTree Element) (i : ℕ) (seg : Bytes)
      → IsSegment seg
      → step_to t i seg ≡ child_at t i seg
  step_to_segment t i [] s =
      absurd (unfold webdav_handler_rs.DavPath.Segments.is_nonempty in ground (arith, s.nonempty))
  step_to_segment t i (b ∷ bs) s = ground arith

  pub covering_from-cons :
      (t : LockTree Element) (i c : ℕ) (seg : Bytes) (rest : List Bytes)
      (ls : List (DavLock Element))
      → step_to t i seg ≡ some c
      → data_at t c ≡ some ls
      → covering_from t i (seg ∷ rest) ≡ counted rest ls ++ covering_from t c rest
  unfolding covering_from
  covering_from-cons t i c seg rest ls step stored =
      rw (covering_from, get_child-step_to t i seg, step, get_node-data_at t c, stored)

  Mem-filter :
      (p : DavLock Element → Bool) (l : DavLock Element) (ls : List (DavLock Element))
      → Memᴰ l ls
      → p l ≡ true
      → Memᴰ l (filter p ls)
  Mem-filter p l [] m h = elim m [ ]
  Mem-filter p l (x ∷ ls) (Memᴰ.head q) h = rw (filter_kept p x ls (ap p (sym q) ∙ h)) (Memᴰ.head q)
  Mem-filter p l (x ∷ ls) (Memᴰ.tail m) h = elim (Bool-cases (p x)) [
    | inl kept ↦ rw (filter_kept p x ls kept) (Memᴰ.tail (Mem-filter p l ls m h))
    | inr dropped ↦ rw (filter_dropped p x ls dropped) (Mem-filter p l ls m h)
  ]

  Mem-counted :
      (l : DavLock Element) (more : List Bytes) (ls : List (DavLock Element))
      → Memᴰ l ls
      → (more ≡ []) ⊎ (l.deep ≡ true)
      → Memᴰ l (counted more ls)
  unfolding counted
  Mem-counted l [] ls m h = m
  Mem-counted l (x ∷ more) ls m (inl q) = absurd cc
  Mem-counted l (x ∷ more) ls m (inr deep) = Mem-filter (λ nl. nl.deep) l ls m deep

  -- Seen from a node on the way.
  Mem-covering_from :
      (t : LockTree Element) (n N : ℕ) (segs more : List Bytes) (here ls : List (DavLock Element))
      (l : DavLock Element)
      → IsLockTree t
      → All IsSegment segs
      → find_path t n segs ≡ some N
      → data_at t N ≡ some ls
      → data_at t n ≡ some here
      → Memᴰ l ls
      → (more ≡ []) ⊎ (l.deep ≡ true)
      → Memᴰ l (counted (segs ++ more) here ++ covering_from t n (segs ++ more))
  unfolding find_path
  Mem-covering_from t n N [] more here ls l w s found stored start m h =
      let same : here ≡ ls = ground arith in
      Memᴰ.append_left (covering_from t n more) (Mem-counted l more here (rw same m) h)
  Mem-covering_from t n N (seg ∷ rest) more here ls l w s found stored start m h =
      elim (Option-cases (child_at t n seg)) [
        | inl absent ↦ absurd (ground (arith, find_path-cons t n seg rest))
        | inr (c, there) ↦
            let (node, child) = child_exists t n seg c w there in
            let next : data_at t c ≡ some node.node_data = ground arith in
            Memᴰ.append_right (counted (seg ∷ rest ++ more) here) (
              rw
                (covering_from-cons t n c seg (rest ++ more) node.node_data
                  (step_to_segment t n seg s.0 ∙ there) next)
                (Mem-covering_from t c N rest more node.node_data ls l w s.1
                  (ground (arith, find_path-cons t n seg rest)) stored next m h))
      ]

  -- The root comes first.
  pub Mem-covering :
      (t : LockTree Element) (N : ℕ) (segs more : List Bytes) (ls : List (DavLock Element))
      (l : DavLock Element)
      → IsLockTree t
      → All IsSegment segs
      → find_path t root_id segs ≡ some N
      → data_at t N ≡ some ls
      → Memᴰ l ls
      → (more ≡ []) ⊎ (l.deep ≡ true)
      → Memᴰ l (covering t (segs ++ more))
  unfolding webdav_handler_rs.HashMap.contains_key
  Mem-covering t N segs more ls l w s found stored m h = elim (Option-cases (find_node t root_id)) [
    | inl absent ↦ absurd (ground (arith, w.formed.root))
    | inr (root, there) ↦
        rw
          (covering_from-cons t root_id root_id [] (segs ++ more) root.node_data (ground arith)
            (ground arith))
          (Mem-covering_from t root_id N segs more root.node_data ls l w s found stored
            (ground arith) m h)
  ]

  pub any-Mem :
      (p : DavLock Element → Bool) (l : DavLock Element) (ls : List (DavLock Element))
      → Memᴰ l ls
      → p l ≡ true
      → any p ls ≡ true
  unfolding any
  any-Mem p l [] m h = elim m [ ]
  any-Mem p l (x ∷ ls) (Memᴰ.head q) h = ground (arith, ap p q)
  any-Mem p l (x ∷ ls) (Memᴰ.tail m) h = ground (arith, any-Mem p l ls m h)

  -- Whoever is barred by a lock on the way, or by one at the end, is refused.
  pub check_locks_to_path-barred :
      (c : Claim) (shared_ok : Bool) (t : LockTree Element) (path : DavPath) (N : ℕ)
      (segs more : List Bytes) (ls : List (DavLock Element)) (l : DavLock Element)
      → IsLockTree t
      → path_to_segs {E = DavLock Element} path true ≡ ok ([] ∷ segs ++ more)
      → All IsSegment segs
      → find_path t root_id segs ≡ some N
      → data_at t N ≡ some ls
      → Memᴰ l ls
      → (more ≡ []) ⊎ (l.deep ≡ true)
      → is_barred c shared_ok l ≡ true
      → (by : DavLock Element) × (check_locks_to_path c shared_ok t path ≡ err by)
        × Memᴰ by (covering t (segs ++ more))
        × (is_held c by ≡ false)
  check_locks_to_path-barred c shared_ok t path N segs more ls l w e s found stored m h barred =
      let inside = Mem-covering t N segs more ls l w s found stored m h in
      let (by, q, mem, unheld) = judge-stops c shared_ok (covering t (segs ++ more)) (
        ground
          (arith, any-Mem (is_barred c shared_ok) l (covering t (segs ++ more)) inside barred)) in
      (by, check_locks_to_path-covering c shared_ok t path (segs ++ more) e ∙ q, mem, unheld)
