-- ===== src/Ls.antt =====
-- src/ls.rs: a lock, as the lock systems store and return it. The XML element of the owner is of
-- the crate xmltree: its type is the parameter `Element`. Times and durations are numbers.
use webdav_handler_rs.Prelude.{ℕ, Bool, Option, Bytes}
use webdav_handler_rs.DavPath.{DavPath}

pub record DavLock (Element : Type 0) : Type 0 where
  pub token : Bytes
  pub path : DavPath
  pub principal : Option Bytes
  pub owner : Option Element
  pub timeout_at : Option ℕ
  pub timeout : Option ℕ
  pub shared : Bool
  pub deep : Bool
