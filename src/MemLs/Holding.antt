-- ===== src/MemLs/Holding.antt =====
-- `lock` of src/memls.rs, and then the `check` of its holder.
use webdav_handler_rs.Prelude.{
  ℕ, ◌+◌, ◌<◌, ◌≡◌, refl, sym, ap, ◌∙◌, inl, inr, true, false, List, [], ◌∷◌, ◌++◌, arith, Bytes,
  any, length, Outcome, ok,
}
use webdav_handler_rs.Tree.{u64_mod}
use webdav_handler_rs.Ls.{DavLock}
use webdav_handler_rs.LockTree.{path_to_segs}
use webdav_handler_rs.LockCheck.{Claim, is_submitted, is_held, check_locks_to_path}
use webdav_handler_rs.LockCheck.Covering.{covering, check_locks_to_path-covering}
use webdav_handler_rs.LockCheck.Judge.{passes, judge-passes}
use webdav_handler_rs.LockCheck.Standing.{path_to_segs-IsSegment}
use webdav_handler_rs.LockCheck.Decision.{check_locks_to_path-decided}
use webdav_handler_rs.LockCheck.Grown.{covering-pushed}
use webdav_handler_rs.MemLs.{MemLs, LockRequest, no_claim, new_lock, lock, check}
use webdav_handler_rs.MemLs.Locking.{lock_checked, lock_granted, lock_due}
use webdav_handler_rs.MemLs.Preserved.{IsSound}

module _ {Element : Type 0} where
  -- An exclusive request without a claim passes only if there is no lock.
  passes-nothing : (ls : List (DavLock Element)) → passes no_claim false ls ≡ true → ls ≡ []
  unfolding is_held is_submitted any
  passes-nothing [] h = refl
  passes-nothing (l ∷ ls) h = absurd (ground (arith, unclaimed ls))
    where
      unclaimed : (xs : List (DavLock Element)) → any (is_held no_claim) xs ≡ false
      unclaimed [] = refl
      unclaimed (x ∷ xs) = ground (arith, unclaimed xs)

  passes-held :
      (c : Claim) (l : DavLock Element) → is_held c l ≡ true → passes c false (l ∷ []) ≡ true
  unfolding any
  passes-held c l h = ground arith

  -- After `lock` has granted an exclusive lock, in a sound state with ids left for its path,
  -- `check` of that path, not deep, passes every claim that holds the lock.
  pub lock-check_passes :
      (r : LockRequest Element) (token : Bytes) (now : ℕ) (s : MemLs Element) (segs : List Bytes)
      (l : DavLock Element) (c : Claim)
      → IsSound s
      → path_to_segs {E = DavLock Element} r.path true ≡ ok ([] ∷ segs)
      → s.tree.node_id + length segs < u64_mod
      → (lock r token now s).0 ≡ ok l
      → r.shared ≡ false
      → is_held c l ≡ true
      → check r.path c false (lock r token now s).1 ≡ ok tt
  unfolding check
  lock-check_passes r token now s segs l c w e room granted exclusive held =
      let (p, q) = lock_checked r s token now l granted in
      let (timeout_at, due) = lock_due r s segs token now w e room p q l granted in
      let (N, t, g) = lock_granted r s segs token now w e room p q timeout_at due in
      let l' : DavLock Element = new_lock r token timeout_at in
      let returned : ◌≡◌ {A = Outcome (DavLock Element) (DavLock Element)} (ok l') (ok l) =
        rw (g.granted) at granted in
      let same : l ≡ l' = ground (arith, returned) in
      let free : covering s.tree segs ≡ [] =
        elim (check_locks_to_path-decided no_claim false s.tree r.path segs e) [
          | inl (h, _) ↦ passes-nothing (covering s.tree segs) h
          | inr (_, by, h, _, _) ↦ absurd (ground (arith, p, h, exclusive))
        ] in
      let alone : covering (lock r token now s).1.tree segs ≡ l ∷ [] =
        ap (λ x. covering x.1.tree segs) g.granted
        ∙ covering-pushed s.tree t segs N l' w g.created.tree g.created.extends
            (path_to_segs-IsSegment r.path segs e) g.created.at_path
        ∙ ap (λ x. x ++ l' ∷ []) free
        ∙ ap (λ x. x ∷ []) (sym same) in
      let passed : check_locks_to_path c false (lock r token now s).1.tree r.path ≡ ok tt =
        check_locks_to_path-covering c false (lock r token now s).1.tree r.path segs e
        ∙ judge-passes c false (covering (lock r token now s).1.tree segs)
            (rw alone (passes-held c l held)) in
      rw passed refl
