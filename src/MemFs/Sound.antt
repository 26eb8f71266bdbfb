-- ===== src/MemFs/Sound.antt =====
-- The methods of src/memfs.rs and the invariant of their tree.
use webdav_handler_rs.Prelude.{
  List, pure, Bool, true, false, if◌then◌else◌, Keeps-if, Keeps-fail, continue-Keeps, continue-at,
  ◌≡◌, refl, ℕ, ◌+◌, ◌<◌, false, Bytes, nat_eq, list_eq, Outcome, ok, err, panic, out_of_fuel,
  reads, continue, Keeps, Keeps-bind, Keeps-reads,
}
use webdav_handler_rs.Errors.{FsError}
use webdav_handler_rs.Tree.{get_node, update_node, delete_node, add_child, u64_mod}
use webdav_handler_rs.Tree.Invariant.{IsWellFormed, update_node-IsWellFormed}
use webdav_handler_rs.Tree.Preserved.{add_child-IsWellFormed}
use webdav_handler_rs.Tree.Removal.{delete_node-IsWellFormed}
use webdav_handler_rs.DavPath.{DavPath, as_bytes}
use webdav_handler_rs.MemFs.Nodes.{
  DavProp, OpenOptions, open_write, MemFsNode, new_file, new_dir, update_mtime, update_crtime,
  is_dir, get_node_props, set_node_props,
}
use webdav_handler_rs.MemFs.Lookup.{FsTree, lookup, lookup_parent, file_name}
use webdav_handler_rs.MemFs.{
  truncated, open_node, do_open, open_path, create_dir, remove_file, remove_dir, copy, patch_props,
  patch_all,
}

abbrev pub IsSound : FsTree → Type 0
IsSound t = IsWellFormed t

update-IsSound : (id : ℕ) (f : MemFsNode → MemFsNode) → Keeps IsSound (update_node id f)
update-IsSound id f = record { at = λ t w. update_node-IsWellFormed w id f }

remove_file-Keeps : (path : DavPath) (now : ℕ) → Keeps IsSound (remove_file path now)
unfolding remove_file
remove_file-Keeps path now =
    Keeps-bind (reads (λ _. as_bytes path)) _ (Keeps-reads (λ _. as_bytes path)) λ bytes.
      Keeps-bind (reads (λ t. lookup_parent t bytes)) _ (Keeps-reads (λ t. lookup_parent t bytes))
        λ parent_id.
          Keeps-bind (reads (λ t. lookup t bytes)) _ (Keeps-reads (λ t. lookup t bytes)) λ node_id.
            Keeps-bind (delete_node node_id) _
              (record { at = λ t w. delete_node-IsWellFormed w node_id })
              λ _. update-IsSound parent_id (update_mtime now)

remove_dir-Keeps : (path : DavPath) (now : ℕ) → Keeps IsSound (remove_dir path now)
unfolding remove_file remove_dir
remove_dir-Keeps path now = remove_file-Keeps path now

-- `remove_file` and `remove_dir` keep the tree of the file system well-formed, whatever they
-- return.
pub remove-IsSound :
    (path : DavPath) (now : ℕ) (t : FsTree)
    → IsSound t
    → IsSound (remove_file path now t).1 × IsSound (remove_dir path now t).1
remove-IsSound path now t w =
    ((remove_file-Keeps path now).at t w, (remove_dir-Keeps path now).at t w)

-- `create_dir` keeps the tree of the file system well-formed, whatever it returns, if the next id
-- but one does not wrap round.
pub create_dir-IsSound :
    (path : DavPath) (now : ℕ) (t : FsTree)
    → t.node_id + 1 < u64_mod
    → IsSound t
    → IsSound (create_dir path now t).1
unfolding create_dir
create_dir-IsSound path now t room w = continue-at IsSound (as_bytes path) t _ w λ bytes.
    continue-at IsSound (lookup_parent t bytes) t _ w λ p.
      continue-Keeps (add_child p (file_name bytes) (new_dir now) false t).0
        (add_child p (file_name bytes) (new_dir now) false t).1
        (λ _. update_node p (update_mtime now))
        (add_child-IsWellFormed w p (file_name bytes) (new_dir now) false room)
        λ _. update-IsSound p (update_mtime now)

open_node-IsSound :
    (path : Bytes) (options : OpenOptions) (now : ℕ) (t : FsTree)
    → t.node_id + 1 < u64_mod
    → IsSound t
    → IsSound (open_node path options now t).1
unfolding open_node
open_node-IsSound path options now t room w = by_lookup (lookup t path) refl
  where
    added :
        (o : Outcome FsError ℕ)
        → IsSound (continue o t (λ p. add_child p (file_name path) (new_file now) true)).1
    added (ok p) = add_child-IsWellFormed w p (file_name path) (new_file now) true room
    added (err x) = w
    added panic = w
    added out_of_fuel = w

    create :
        (b : Bool)
        → options.create ≡ b
        → lookup t path ≡ err FsError.not_found
        → IsSound (open_node path options now t).1
    create true c e = rw (open_node, e, c) (added (lookup_parent t path))
    create false c e = rw (open_node, e, c) w

    exists :
        (b : Bool) (n : ℕ)
        → options.create_new ≡ b
        → lookup t path ≡ ok n
        → IsSound (open_node path options now t).1
    exists true n c e = rw (open_node, e, c) w
    exists false n c e = rw (open_node, e, c) w

    by_lookup :
        (o : Outcome FsError ℕ) → lookup t path ≡ o → IsSound (open_node path options now t).1
    by_lookup (ok n) e = exists options.create_new n refl e
    by_lookup (err FsError.not_found) e = create options.create refl e
    by_lookup (err x) e = rw (open_node, e) w
    by_lookup panic e = rw (open_node, e) w
    by_lookup out_of_fuel e = rw (open_node, e) w

do_open-IsSound :
    (path : Bytes) (options : OpenOptions) (now : ℕ) (t : FsTree)
    → t.node_id + 1 < u64_mod
    → IsSound t
    → IsSound (do_open path options now t).1
unfolding do_open
do_open-IsSound path options now t room w =
    continue-Keeps (open_node path options now t).0 (open_node path options now t).1 _
      (open_node-IsSound path options now t room w)
      λ node_id. Keeps-bind _ _ (Keeps-reads _) λ node.
        Keeps-if (is_dir node) _ _ (Keeps-fail FsError.forbidden) (
          Keeps-bind (if options.truncate then update_node node_id (truncated now) else pure tt) _
            (Keeps-if options.truncate _ _ (update-IsSound node_id (truncated now))
              (record { at = λ s h. h }))
            λ _. record { at = λ s h. h })

copy-IsSound :
    (from to : DavPath) (now : ℕ) (t : FsTree)
    → t.node_id + 1 < u64_mod
    → IsSound t
    → IsSound (copy from to now t).1
unfolding copy
copy-IsSound from to now t room w = continue-at IsSound (as_bytes from) t _ w λ from_bytes.
    continue-at IsSound (lookup t from_bytes) t _ w λ snode_id.
      continue-at IsSound (as_bytes to) t _ w λ to_bytes.
        let options : OpenOptions = record open_write { create = true } in
        continue-Keeps (do_open to_bytes options now t).0 (do_open to_bytes options now t).1 _
          (do_open-IsSound to_bytes options now t room w)
          λ _.
            Keeps-bind (reads (λ u. lookup u to_bytes)) _ (Keeps-reads (λ u. lookup u to_bytes))
              λ dnode_id.
                Keeps-bind (reads (λ u. get_node u snode_id)) _
                  (Keeps-reads (λ u. get_node u snode_id))
                  λ node. update-IsSound dnode_id (λ _. update_crtime now node)

patch_props-Keeps :
    (path : DavPath) (patch : List (Bool × DavProp)) → Keeps IsSound (patch_props path patch)
unfolding patch_props
patch_props-Keeps path patch =
    Keeps-bind (reads (λ _. as_bytes path)) _ (Keeps-reads (λ _. as_bytes path)) λ bytes.
      Keeps-bind (reads (λ t. lookup t bytes)) _ (Keeps-reads (λ t. lookup t bytes)) λ node_id.
        Keeps-bind
          (update_node node_id
            (λ node. set_node_props (patch_all patch (get_node_props node)) node))
          _
          (update-IsSound node_id
            (λ node. set_node_props (patch_all patch (get_node_props node)) node))
          λ _. record { at = λ s h. h }

-- `open`, `copy` and `patch_props` keep the tree of the file system well-formed, whatever they
-- return, if the next id but one does not wrap round.
pub open-copy-patch-IsSound :
    (path to : DavPath) (options : OpenOptions) (patch : List (Bool × DavProp)) (now : ℕ)
    (t : FsTree)
    → t.node_id + 1 < u64_mod
    → IsSound t
    → IsSound (open_path path options now t).1
      × IsSound (copy path to now t).1
      × IsSound (patch_props path patch t).1
unfolding open_path
open-copy-patch-IsSound path to options patch now t room w = (
  continue-at IsSound (as_bytes path) t _ w (λ bytes. do_open-IsSound bytes options now t room w),
  copy-IsSound path to now t room w,
  (patch_props-Keeps path patch).at t w,
)
