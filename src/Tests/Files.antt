-- ===== src/Tests/Files.antt =====
-- A file system with the file `/f`, opened.
use webdav_handler_rs.Prelude.{
  some, true, ◌+◌, ◌<◌, ◌≤◌, ◌≡◌, refl, false, none, List, [], ◌∷◌, arith, Bytes, nat_eq, list_eq,
  list_beq, filter, length, concat, ok,
}
use webdav_handler_rs.Errors.{FsError}
use webdav_handler_rs.HashMap
use webdav_handler_rs.Tree
use webdav_handler_rs.Tree.{Node, no_parent, root_id, u64_mod}
use webdav_handler_rs.Tree.Preserved.{new-IsWellFormed}
use webdav_handler_rs.DavPath.{DavPath, as_bytes}
use webdav_handler_rs.DavPath.Segments.{split, is_nonempty, segments}
use webdav_handler_rs.MemFs.Nodes.{
  OpenOptions, open_write, is_dir, DavProp, MemFsNode, MemFsDirNode, MemFsFileNode, as_file,
  new_dir,
}
use webdav_handler_rs.MemFs.Lookup.{FsTree, lookup_from, lookup_segs, lookup}
use webdav_handler_rs.MemFs.{open_path, copy, patch_props, get_prop, new}
use webdav_handler_rs.MemFs.Sound.{IsSound, open-copy-patch-IsSound}
use webdav_handler_rs.MemFs.Props.{patch_props-get_prop}
use webdav_handler_rs.MemFs.OpenFile.{
  FileState, SeekFrom, isize_max, read_file, write_pos, write_bytes, write_buf, read_bytes, seek,
}
use webdav_handler_rs.MemFs.OpenFile.Written.{write_buf-write_bytes, write_bytes-read_bytes}

abbrev root_dir : MemFsDirNode
root_dir = record { props = []; mtime = 0; crtime = 0 }

abbrev file_f : MemFsFileNode
file_f = record { props = []; mtime = 0; crtime = 0; data_ = 1 ∷ 2 ∷ 3 ∷ [] }

abbrev name_f : Bytes
name_f = b'f' ∷ []

abbrev with_file : FsTree
with_file = record {
  nodes =
      (
        1,
        record {
          node_data = MemFsNode.dir root_dir;
          id = 1;
          parent_id = no_parent;
          children = (name_f, 2) ∷ [];
        },
      )
      ∷ (2, record { node_data = MemFsNode.file file_f; id = 2; parent_id = 1; children = [] })
      ∷ [];
  node_id = 3;
}

-- In the middle of the file.
abbrev opened : FileState
opened = record { tree = with_file; file = record { node_id = 2; pos = 2; append = false } }

opened_file : read_file opened ≡ ok file_f
unfolding read_file Tree.get_node HashMap.get as_file
opened_file = refl

abbrev chunks : List Bytes
chunks = (7 ∷ 8 ∷ []) ∷ (9 ∷ []) ∷ []

abbrev buf : Bytes
buf = 7 ∷ 8 ∷ []

small : length (concat chunks) < u64_mod
unfolding concat
small = omega arith

write_buf-write_bytes_example : write_buf chunks opened ≡ write_bytes (concat chunks) opened
write_buf-write_bytes_example = write_buf-write_bytes chunks opened small

room : write_pos opened file_f + length buf ≤ isize_max
room = omega arith

write_bytes-read_bytes_example :
    ((write_bytes buf opened).0 ≡ ok tt)
    × ((read_bytes 2 (seek (SeekFrom.from_start 2) (write_bytes buf opened).1).1).0 ≡ ok buf)
write_bytes-read_bytes_example = write_bytes-read_bytes buf opened file_f opened_file room

at_root : lookup_segs with_file [] ≡ ok root_id
unfolding lookup_segs lookup_from
at_root = refl

root_node : Tree.get_node with_file root_id ≡ ok (MemFsNode.dir root_dir)
unfolding Tree.get_node HashMap.get
root_node = refl

child_f : Tree.get_child with_file root_id name_f ≡ ok 2
unfolding Tree.get_child HashMap.get list_beq
child_f = refl

node_f : Tree.get_node with_file 2 ≡ ok (MemFsNode.file file_f)
unfolding Tree.get_node HashMap.get
node_f = refl

abbrev path_d : DavPath
path_d = record { fullpath = b'/' ∷ b'd' ∷ []; pfxlen = none }

new-IsSound : IsSound (new 0)
unfolding new
new-IsSound = new-IsWellFormed (new_dir 0)

room_new : Tree.Tree.node_id (new 0) + 1 < u64_mod
unfolding new Tree.new Tree.new_node
room_new = omega arith

abbrev path_f : DavPath
path_f = record { fullpath = b'/' ∷ b'f' ∷ []; pfxlen = none }

abbrev color : DavProp
color = record { name = b'c' ∷ []; prefix = none; namespace = none; xml = some (5 ∷ []) }

bytes_f : as_bytes {E = FsError} path_f ≡ ok (b'/' ∷ b'f' ∷ [])
unfolding as_bytes
bytes_f = refl

lookup_f : lookup with_file (b'/' ∷ b'f' ∷ []) ≡ ok 2
unfolding lookup lookup_segs lookup_from segments split is_nonempty filter Tree.get_node
    Tree.get_child HashMap.get is_dir list_beq
lookup_f = refl

patch_props-get_prop_example :
    get_prop (patch_props path_f ((true, color) ∷ []) with_file).1 path_f color ≡ ok (5 ∷ [])
patch_props-get_prop_example =
    patch_props-get_prop with_file path_f (b'/' ∷ b'f' ∷ []) 2 (MemFsNode.file file_f) [] true color
      color bytes_f lookup_f node_f refl

abbrev create_options : OpenOptions
create_options = record open_write { create = true }

open-copy-patch-IsSound_example :
    IsSound (open_path path_f create_options 7 (new 0)).1
    × IsSound (copy path_f path_d 7 (new 0)).1
    × IsSound (patch_props path_f ((true, color) ∷ []) (new 0)).1
open-copy-patch-IsSound_example =
    open-copy-patch-IsSound path_f path_d create_options ((true, color) ∷ []) 7 (new 0) room_new
      new-IsSound
