-- ===== src/Tests/LockRoot.antt =====
-- A lock on `/` of a new lock system, and the calls that panic then.
use webdav_handler_rs.Prelude.{
  ℕ, ◌≡◌, ◌≢◌, refl, true, false, none, List, [], ◌∷◌, arith, Bytes, filter, ok, panic,
}
use webdav_handler_rs.HashMap
use webdav_handler_rs.Tree.{Node, no_parent}
use webdav_handler_rs.DavPath.{DavPath, as_bytes}
use webdav_handler_rs.DavPath.Segments.{split, is_nonempty, segments}
use webdav_handler_rs.Ls.{DavLock}
use webdav_handler_rs.LockTree.{path_to_segs}
use webdav_handler_rs.MemLs.{MemLs, unlock}
use webdav_handler_rs.MemLs.Root.{IsBareRoot, unlock-root_panics}

abbrev root_path : DavPath
root_path = record { fullpath = b'/' ∷ []; pfxlen = none }

abbrev root_lock : DavLock ℕ
root_lock = record {
  token = b't' ∷ [];
  path = root_path;
  principal = none;
  owner = none;
  timeout_at = none;
  timeout = none;
  shared = false;
  deep = true;
}

abbrev root_node : Node Bytes (List (DavLock ℕ))
root_node = record { node_data = root_lock ∷ []; id = 1; parent_id = no_parent; children = [] }

-- As `lock` leaves it.
abbrev locked_root : MemLs ℕ
locked_root = record { tree = record { nodes = (1, root_node) ∷ []; node_id = 2 }; locks = [] }

locked_root-IsBareRoot : IsBareRoot (MemLs.tree locked_root) root_node
unfolding HashMap.get
locked_root-IsBareRoot = record { found = refl; no_parent = refl; no_children = refl }

segs_root : path_to_segs {E = Unit {0}} root_path true ≡ ok ([] ∷ [])
unfolding path_to_segs as_bytes segments split is_nonempty filter
segs_root = refl

segs_root_below : path_to_segs {E = Unit {0}} root_path false ≡ ok []
unfolding path_to_segs as_bytes segments split is_nonempty filter
segs_root_below = refl

unlock-root_panics_example : (unlock root_path (b't' ∷ []) locked_root).0 ≡ panic
unlock-root_panics_example =
    unlock-root_panics locked_root root_node root_path [] root_lock segs_root locked_root-IsBareRoot
      refl

two_ne_zero : ◌≢◌ {A = ℕ} 2 0
two_ne_zero = λ q. ground arith
