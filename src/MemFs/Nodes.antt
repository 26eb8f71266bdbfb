-- ===== src/MemFs/Nodes.antt =====
-- The nodes of src/memfs.rs, and the types of src/fs.rs that its methods take and return. A
-- `String` is its bytes; the time is a number.
use webdav_handler_rs.Prelude.{
  ℕ, Bool, true, false, Option, none, some, [], ◌++◌, Bytes, length, Outcome, ok, err,
}
use webdav_handler_rs.HashMap.{HashMap}
use webdav_handler_rs.Errors.{FsError}

-- fs.rs
pub record DavProp : Type 0 where
  pub name : Bytes
  pub prefix : Option Bytes
  pub namespace : Option Bytes
  pub xml : Option Bytes

pub record OpenOptions : Type 0 where
  pub read : Bool
  pub write : Bool
  pub append : Bool
  pub truncate : Bool
  pub create : Bool
  pub create_new : Bool

-- `OpenOptions::write()`
abbrev pub open_write : OpenOptions
open_write = record {
  read = false;
  write = true;
  append = false;
  truncate = false;
  create = false;
  create_new = false;
}

pub record MemFsDirNode : Type 0 where
  pub props : HashMap Bytes DavProp
  pub mtime : ℕ
  pub crtime : ℕ

pub record MemFsFileNode : Type 0 where
  pub props : HashMap Bytes DavProp
  pub mtime : ℕ
  pub crtime : ℕ
  pub data_ : Bytes

pub data MemFsNode : Type 0 where
  dir : MemFsDirNode → MemFsNode
  file : MemFsFileNode → MemFsNode

-- The metadata of a node.
pub record MemFsDirEntry : Type 0 where
  pub mtime : ℕ
  pub crtime : ℕ
  pub is_dir : Bool
  pub name : Bytes
  pub size : ℕ

unfoldable pub new_dir : ℕ → MemFsNode
new_dir now = MemFsNode.dir (record { crtime = now; mtime = now; props = [] })

unfoldable pub new_file : ℕ → MemFsNode
new_file now = MemFsNode.file (record { crtime = now; mtime = now; props = []; data_ = [] })

unfoldable pub as_dirent : MemFsNode → Bytes → MemFsDirEntry
as_dirent (MemFsNode.file f) name = record {
  name = name;
  mtime = f.mtime;
  crtime = f.crtime;
  is_dir = false;
  size = length f.data_;
}
as_dirent (MemFsNode.dir d) name = record {
  name = name;
  mtime = d.mtime;
  crtime = d.crtime;
  is_dir = true;
  size = 0;
}

unfoldable pub update_mtime : ℕ → MemFsNode → MemFsNode
update_mtime tm (MemFsNode.dir d) = MemFsNode.dir (record d { mtime = tm })
update_mtime tm (MemFsNode.file f) = MemFsNode.file (record f { mtime = tm })

-- The copy that `copy` stores.
unfoldable pub update_crtime : ℕ → MemFsNode → MemFsNode
update_crtime tm (MemFsNode.dir d) = MemFsNode.dir (record d { crtime = tm })
update_crtime tm (MemFsNode.file f) = MemFsNode.file (record f { crtime = tm })

unfoldable pub is_dir : MemFsNode → Bool
is_dir (MemFsNode.dir d) = true
is_dir (MemFsNode.file f) = false

-- `as_file` and `as_file_mut`
unfoldable pub as_file : MemFsNode → Outcome FsError MemFsFileNode
as_file (MemFsNode.file n) = ok n
as_file (MemFsNode.dir d) = err FsError.forbidden

unfoldable pub get_node_props : MemFsNode → HashMap Bytes DavProp
get_node_props (MemFsNode.file n) = n.props
get_node_props (MemFsNode.dir d) = d.props

-- A write through `get_props_mut`.
unfoldable pub set_node_props : HashMap Bytes DavProp → MemFsNode → MemFsNode
set_node_props props (MemFsNode.file n) = MemFsNode.file (record n { props = props })
set_node_props props (MemFsNode.dir d) = MemFsNode.dir (record d { props = props })

unfoldable pub propkey : Option Bytes → Bytes → Bytes
propkey none name = name
propkey (some ns) name = ns ++ name

unfoldable pub cloneprop : DavProp → DavProp
cloneprop p = record { name = p.name; namespace = p.namespace; prefix = p.prefix; xml = none }
