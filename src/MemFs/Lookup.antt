-- ===== src/MemFs/Lookup.antt =====
-- `TreeExt` of src/memfs.rs: from a path to a node id.
use webdav_handler_rs.Prelude.{
  ℕ, Bool, true, false, not, none, some, List, [], ◌∷◌, Bytes, nat_eq, list_eq, last?, drop_last,
  if◌then◌else◌, Outcome, ok, err, and_then,
}
use webdav_handler_rs.Errors.{FsError}
use webdav_handler_rs.Tree.{Tree, root_id, get_node, get_child}
use webdav_handler_rs.DavPath.Segments.{segments}
use webdav_handler_rs.MemFs.Nodes.{MemFsNode, is_dir}

abbrev pub FsTree : Type 0
FsTree = Tree Bytes MemFsNode

-- The loop of `lookup_segs`, with its two variables.
unfoldable pub lookup_from : FsTree → ℕ → Bool → List Bytes → Outcome FsError ℕ
lookup_from tree node_id isdir [] = ok node_id
lookup_from tree node_id isdir (seg ∷ rest) =
    if not isdir
    then err FsError.forbidden
    else and_then (get_node tree node_id) λ node.
      if is_dir node
      then (and_then (get_child tree node_id seg) λ n. lookup_from tree n isdir rest)
      else lookup_from tree node_id false rest

unfoldable pub lookup_segs : FsTree → List Bytes → Outcome FsError ℕ
unfolding lookup_from
lookup_segs tree segs = lookup_from tree root_id true segs

unfoldable pub lookup : FsTree → Bytes → Outcome FsError ℕ
unfolding lookup_segs
lookup tree path = lookup_segs tree (segments path)

unfoldable pub lookup_parent : FsTree → Bytes → Outcome FsError ℕ
unfolding lookup_segs is_dir
lookup_parent tree path = and_then (lookup_segs tree (drop_last (segments path))) λ node_id.
    and_then (get_node tree node_id)
      λ node. if not (is_dir node) then err FsError.forbidden else ok node_id

unfoldable pub file_name : Bytes → Bytes
file_name path = elim (last? (segments path)) [ none ↦ [] | some s ↦ s ]
