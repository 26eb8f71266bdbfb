-- ===== src/MemLs/Discovery.antt =====
-- `lock` of src/memls.rs, and then `discover`.
use mathlib.Core.List.Memᴰ
use mathlib.Core.List.{Memᴰ}
use webdav_handler_rs.Prelude.{
  ℕ, ◌+◌, ◌<◌, ◌≡◌, refl, inl, inr, true, false, some, List, [], ◌∷◌, ◌++◌, arith, Bytes, nat_eq,
  list_eq, length, Option-cases, ok,
}
use webdav_handler_rs.Tree.{root_id, u64_mod}
use webdav_handler_rs.DavPath.{DavPath}
use webdav_handler_rs.Ls.{DavLock}
use webdav_handler_rs.LockTree.{
  LockTree, path_to_segs, find_path, locks_of, list_locks_from, list_locks,
}
use webdav_handler_rs.LockTree.View.{
  data_at, child_at, tree_get_child-child_at, locks_of-data_at, find_path-cons,
}
use webdav_handler_rs.MemLs.{MemLs, LockRequest, lock, discover}
use webdav_handler_rs.MemLs.Preserved.{IsSound}
use webdav_handler_rs.MemLs.Exclusion.{lock-Stands}

module _ {Element : Type 0} where
  list_locks_from-cons :
      (t : LockTree Element) (n c : ℕ) (seg : Bytes) (rest : List Bytes)
      → child_at t n seg ≡ some c
      → list_locks_from t n (seg ∷ rest) ≡ locks_of t c ++ list_locks_from t c rest
  unfolding list_locks_from
  list_locks_from-cons t n c seg rest there =
      rw (list_locks_from, tree_get_child-child_at t n seg, there)

  Mem-locks_of :
      (t : LockTree Element) (n : ℕ) (ls : List (DavLock Element)) (l : DavLock Element)
      → data_at t n ≡ some ls
      → Memᴰ l ls
      → Memᴰ l (locks_of t n)
  Mem-locks_of t n ls l stored m = rw (locks_of-data_at t n, stored) m

  Mem-list_locks_from :
      (t : LockTree Element) (n N : ℕ) (segs more : List Bytes) (ls : List (DavLock Element))
      (l : DavLock Element)
      → find_path t n segs ≡ some N
      → data_at t N ≡ some ls
      → Memᴰ l ls
      → Memᴰ l (locks_of t n ++ list_locks_from t n (segs ++ more))
  unfolding find_path
  Mem-list_locks_from t n N [] more ls l found stored m =
      Memᴰ.append_left (list_locks_from t n more) (Mem-locks_of t n ls l (ground arith) m)
  Mem-list_locks_from t n N (seg ∷ rest) more ls l found stored m =
      elim (Option-cases (child_at t n seg)) [
        | inl absent ↦ absurd (ground (arith, find_path-cons t n seg rest))
        | inr (c, there) ↦ Memᴰ.append_right (locks_of t n) (
            rw (list_locks_from-cons t n c seg (rest ++ more) there) (
              Mem-list_locks_from t c N rest more ls l (ground (arith, find_path-cons t n seg rest))
                stored m))
      ]

  -- A lock that has been granted, in a sound state with ids left for its path, deep or not, is
  -- among the locks that `discover` returns for its path and for every path below.
  pub lock-discover :
      (r : LockRequest Element) (token : Bytes) (now : ℕ) (s : MemLs Element)
      (segs more : List Bytes) (l : DavLock Element) (path : DavPath)
      → IsSound s
      → path_to_segs {E = DavLock Element} r.path true ≡ ok ([] ∷ segs)
      → s.tree.node_id + length segs < u64_mod
      → (lock r token now s).0 ≡ ok l
      → path_to_segs {E = DavLock Element} path false ≡ ok (segs ++ more)
      → (ls : List (DavLock Element)) × (discover {E = DavLock Element} path (lock r token now s).1
          ≡ ok ls)
        × Memᴰ l ls
  unfolding discover list_locks
  lock-discover r token now s segs more l path w e room granted e' =
      let (_, _, st) = lock-Stands r token now s segs l w e room granted in
      (
        locks_of (lock r token now s).1.tree root_id
            ++ list_locks_from (lock r token now s).1.tree root_id (segs ++ more),
        rw e' refl,
        Mem-list_locks_from (lock r token now s).1.tree root_id st.N segs more st.locks l st.at_path
            st.stored st.member,
      )
