-- ===== src/MemFs.antt =====
-- src/memfs.rs: the in-memory file system. Each method is a call on the tree behind the mutex.
-- `now` is the clock as the call reads it.
pub mod Nodes
pub mod Lookup
pub mod OpenFile
pub mod Sound
pub mod Paths
pub mod Props
use webdav_handler_rs.Prelude.{
  ℕ, Bool, true, false, not, Option, none, some, List, [], ◌∷◌, Bytes, Eq, ◌==◌, nat_eq, list_eq,
  map, if◌then◌else◌, Outcome, ok, err, panic, out_of_fuel, ok_or, and_then, Run, pure, fail, reads,
  continue, ◌>>=◌, ◌>>◌,
}
use webdav_handler_rs.HashMap
use webdav_handler_rs.HashMap.{HashMap}
use webdav_handler_rs.Errors.{FsError}
use webdav_handler_rs.Tree.{
  Tree, get_node, get_children, update_node, add_child, delete_node, move_node,
}
use webdav_handler_rs.Tree
use webdav_handler_rs.DavPath.{DavPath, as_bytes}
use webdav_handler_rs.MemFs.Nodes.{
  DavProp, OpenOptions, open_write, MemFsNode, MemFsDirEntry, new_dir, new_file, as_dirent,
  update_mtime, update_crtime, is_dir, as_file, get_node_props, set_node_props, propkey, cloneprop,
}
use webdav_handler_rs.MemFs.Lookup.{FsTree, lookup, lookup_parent, file_name}

-- An open file: the node that it reads and writes, and the position.
pub record MemFsFile : Type 0 where
  pub node_id : ℕ
  pub pos : ℕ
  pub append : Bool

unfoldable pub new : ℕ → FsTree
unfolding Tree.new new_dir
new now = Tree.new (new_dir now)

-- `truncate(0)` and the new mtime.
unfoldable pub truncated : ℕ → MemFsNode → MemFsNode
truncated now (MemFsNode.file f) = MemFsNode.file (record f { data_ = []; mtime = now })
truncated now (MemFsNode.dir d) = MemFsNode.dir d

-- The node to open: the one that is there, or a new one.
unfoldable pub open_node : Bytes → OpenOptions → ℕ → Run FsTree FsError ℕ
open_node path options now tree = elim (lookup tree path) [
  | ok n ↦ if options.create_new then (err FsError.exists, tree) else (ok n, tree)
  | err e ↦ elim e [
    | FsError.not_found ↦
        if not options.create
        then (err FsError.not_found, tree)
        else (do
          parent_id ← reads (λ t. lookup_parent t path)
          add_child parent_id (file_name path) (new_file now) true)
            tree
    | e' ↦ (err e', tree)
  ]
  | panic ↦ (panic, tree)
  | out_of_fuel ↦ (out_of_fuel, tree)
]

-- `get_node_mut(node_id).unwrap()` and what follows.
unfoldable pub do_open : Bytes → OpenOptions → ℕ → Run FsTree FsError MemFsFile
unfolding open_node
do_open path options now = do
  node_id ← open_node path options now
  node ← reads (λ t. elim (get_node t node_id) [ ok n ↦ ok n | _ ↦ panic ])
  if is_dir node then fail FsError.forbidden else do
    if options.truncate then update_node node_id (truncated now) else pure tt
    pure (record { node_id = node_id; pos = 0; append = options.append })

-- `DavFileSystem::open`
unfoldable pub open_path : DavPath → OpenOptions → ℕ → Run FsTree FsError MemFsFile
unfolding do_open
open_path path options now = do bytes ← reads (λ _. as_bytes path); do_open bytes options now

unfoldable pub metadata : FsTree → DavPath → Outcome FsError MemFsDirEntry
metadata tree path = and_then (as_bytes path) λ bytes.
    and_then (lookup tree bytes)
      λ node_id. and_then (get_node tree node_id) λ node. ok (as_dirent node bytes)

-- The entries of the children that exist.
unfoldable pub dirents : FsTree → HashMap Bytes ℕ → List MemFsDirEntry
dirents tree [] = []
dirents tree ((name, dnode_id) ∷ rest) = elim (get_node tree dnode_id) [
  | ok node ↦ as_dirent node name ∷ dirents tree rest
  | _ ↦ dirents tree rest
]

unfoldable pub read_dir : FsTree → DavPath → Outcome FsError (List MemFsDirEntry)
read_dir tree path = and_then (as_bytes path) λ bytes. and_then (lookup tree bytes) λ node_id.
    and_then (get_node tree node_id) λ node.
      if not (is_dir node)
      then err FsError.forbidden
      else and_then (get_children tree node_id) λ children. ok (dirents tree children)

unfoldable pub create_dir : DavPath → ℕ → Run FsTree FsError (Unit {0})
create_dir path now = do
  bytes ← reads (λ _. as_bytes path)
  parent_id ← reads (λ t. lookup_parent t bytes)
  add_child parent_id (file_name bytes) (new_dir now) false
  update_node parent_id (update_mtime now)

unfoldable pub remove_file : DavPath → ℕ → Run FsTree FsError (Unit {0})
remove_file path now = do
  bytes ← reads (λ _. as_bytes path)
  parent_id ← reads (λ t. lookup_parent t bytes)
  node_id ← reads (λ t. lookup t bytes)
  delete_node node_id
  update_node parent_id (update_mtime now)

-- The same body: a directory goes if it is empty, a file too.
unfoldable pub remove_dir : DavPath → ℕ → Run FsTree FsError (Unit {0})
remove_dir path now = do
  bytes ← reads (λ _. as_bytes path)
  parent_id ← reads (λ t. lookup_parent t bytes)
  node_id ← reads (λ t. lookup t bytes)
  delete_node node_id
  update_node parent_id (update_mtime now)

unfoldable pub rename : DavPath → DavPath → ℕ → Run FsTree FsError (Unit {0})
rename from to now = do
  from_bytes ← reads (λ _. as_bytes from)
  node_id ← reads (λ t. lookup t from_bytes)
  parent_id ← reads (λ t. lookup_parent t from_bytes)
  to_bytes ← reads (λ _. as_bytes to)
  dst_id ← reads (λ t. lookup_parent t to_bytes)
  move_node node_id dst_id (file_name to_bytes) true
  update_node parent_id (update_mtime now)
  update_node dst_id (update_mtime now)

unfoldable pub copy : DavPath → DavPath → ℕ → Run FsTree FsError (Unit {0})
copy from to now = do
  from_bytes ← reads (λ _. as_bytes from)
  snode_id ← reads (λ t. lookup t from_bytes)
  to_bytes ← reads (λ _. as_bytes to)
  do_open to_bytes (record open_write { create = true }) now
  dnode_id ← reads (λ t. lookup t to_bytes)
  node ← reads (λ t. get_node t snode_id)
  update_node dnode_id (λ _. update_crtime now node)

-- One instruction of a patch: `(set, prop)`.
unfoldable pub patch_prop : Bool × DavProp → HashMap Bytes DavProp → HashMap Bytes DavProp
patch_prop (set, p) props =
    if set
    then HashMap.insert (propkey p.namespace p.name) p props
    else HashMap.remove (propkey p.namespace p.name) props

unfoldable pub patch_all : List (Bool × DavProp) → HashMap Bytes DavProp → HashMap Bytes DavProp
patch_all [] props = props
patch_all (x ∷ rest) props = patch_all rest (patch_prop x props)

-- The status is 200 for each.
unfoldable pub patch_props :
    DavPath → List (Bool × DavProp) → Run FsTree FsError (List (ℕ × DavProp))
patch_props path patch = do
  bytes ← reads (λ _. as_bytes path)
  node_id ← reads (λ t. lookup t bytes)
  update_node node_id (λ node. set_node_props (patch_all patch (get_node_props node)) node)
  pure (map (λ x. (200, cloneprop x.1)) patch)

unfoldable pub get_props : FsTree → DavPath → Bool → Outcome FsError (List DavProp)
get_props tree path do_content = and_then (as_bytes path) λ bytes.
    and_then (lookup tree bytes) λ node_id.
      and_then (get_node tree node_id)
        λ node. ok (map (λ x. if do_content then x.1 else cloneprop x.1) (get_node_props node))

unfoldable pub get_prop : FsTree → DavPath → DavProp → Outcome FsError Bytes
get_prop tree path prop = and_then (as_bytes path) λ bytes. and_then (lookup tree bytes) λ node_id.
    and_then (get_node tree node_id) λ node.
      and_then
        (ok_or (HashMap.get (propkey prop.namespace prop.name) (get_node_props node))
          FsError.not_found)
        λ p. ok_or p.xml FsError.not_found
