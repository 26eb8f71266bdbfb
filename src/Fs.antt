-- ===== src/Fs.antt =====
-- The traits of src/fs.rs, and that of src/ls.rs, as the handlers use them: a file system and a lock
-- system are records of calls on a state. A directory entry is asked for its metadata when it is
-- looked at. Times are nanoseconds from the epoch.
use webdav_handler_rs.Prelude.{ℕ, Bool, Option, List, Bytes, Outcome, Run, ℤ}
use webdav_handler_rs.Errors.{FsError}
use webdav_handler_rs.DavPath.{DavPath}
use webdav_handler_rs.Ls.{DavLock}
use webdav_handler_rs.LockCheck.{Claim}
use webdav_handler_rs.MemLs.{LockRequest}
use webdav_handler_rs.Conditional
use webdav_handler_rs.MemFs.Nodes.{OpenOptions}

-- `DavMetaData`
pub record DavMetaData : Type 0 where
  pub len : ℕ
  pub is_dir : Bool
  pub is_file : Bool
  pub is_symlink : Bool
  pub modified : Option ℤ
  pub etag : Option Bytes

-- What the conditional headers look at.
abbrev pub conditional_meta : DavMetaData → Conditional.Meta
conditional_meta m = record { modified = m.modified; etag = m.etag }

-- `DavFileSystem` over the state `S`, with `DavDirEntry` and `DavFile`.
pub record DavFileSystem (S Entry File : Type 0) : Type 0 where
  pub metadata : DavPath → S → Outcome FsError DavMetaData
  pub symlink_metadata : DavPath → S → Outcome FsError DavMetaData
  pub read_dir : DavPath → S → Outcome FsError (List Entry)
  pub entry_name : Entry → Bytes
  pub entry_metadata : Entry → S → Outcome FsError DavMetaData
  pub create_dir : DavPath → Run S FsError (Unit {0})
  pub remove_dir : DavPath → Run S FsError (Unit {0})
  pub remove_file : DavPath → Run S FsError (Unit {0})
  pub rename : DavPath → DavPath → Run S FsError (Unit {0})
  pub copy : DavPath → DavPath → Run S FsError (Unit {0})
  pub open_ : DavPath → OpenOptions → Run S FsError File

-- `DavFile`: each call also returns the file as it is then, with its position. `seek` is from the start.
pub record DavFile (S File : Type 0) : Type 0 where
  pub seek : ℕ → File → Run S FsError File
  pub write_bytes : Bytes → File → Run S FsError File
  pub write_buf : List Bytes → File → Run S FsError File
  pub flush : File → Run S FsError File
  pub file_metadata : File → S → Outcome FsError DavMetaData

-- `DavLockSystem` over the state `S`.
pub record DavLockSystem (S Element : Type 0) : Type 0 where
  pub lock : LockRequest Element → Run S (DavLock Element) (DavLock Element)
  pub unlock : DavPath → Bytes → Run S (Unit {0}) (Unit {0})
  pub refresh : DavPath → Bytes → Option ℕ → Run S (Unit {0}) (DavLock Element)
  pub check : DavPath → Claim → Bool → S → Outcome (DavLock Element) (Unit {0})
  pub discover : DavPath → S → List (DavLock Element)
  pub delete : DavPath → Run S (Unit {0}) (Unit {0})
