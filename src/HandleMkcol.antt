-- ===== src/HandleMkcol.antt =====
-- src/handle_mkcol.rs.
pub mod Made
use webdav_handler_rs.Prelude.{
  ℕ, Bool, true, false, Option, none, some, List, [], ◌∷◌, Bytes, if◌then◌else◌, Outcome, ok, err,
  panic, out_of_fuel, and_then, Run, pure, fail, reads, on_result, matching, continue, ◌>>=◌,
}
use webdav_handler_rs.Errors.{FsError, DavError}
use webdav_handler_rs.DavPath.{DavPath, is_collection, add_slash, as_url_string}
use webdav_handler_rs.Fs.{DavFileSystem, DavMetaData}
use webdav_handler_rs.Server.{
  DavInner, DavRequest, World, on_files, path, get_tokens, check_locks, found,
}

-- The status of an error of `create_dir`.
unfoldable pub create_error : FsError → DavError
create_error FsError.exists = DavError.status 405
create_error FsError.not_found = DavError.status 409
create_error e = DavError.fs_error e

-- A reply with a status and, perhaps, a Content-Location.
pub record Created : Type 0 where
  pub status : ℕ
  pub location : Option Bytes

module _ {S Entry File L Element : Type 0} (percent_decode : Bytes → Bytes)
    (percent_encode : (ℕ → Bool) → Bytes → Bytes) (inner : DavInner S Entry File L Element) where
  -- What is checked first.
  unfoldable pub prepare : DavRequest → World S L → Outcome DavError DavPath
  unfolding path get_tokens check_locks
  prepare req w = and_then (path percent_decode inner req) λ p.
      and_then (found (inner.fs.metadata p w.files)) λ meta.
        and_then (get_tokens percent_decode inner DavError.status req meta p w) λ tokens.
          and_then (check_locks percent_decode inner (DavError.status 423) p false tokens w)
            λ _. ok p

  -- The reply, with the path that the prefix belongs to.
  unfoldable pub created : DavPath → Outcome DavError Created
  created p = and_then (is_collection p) λ dir.
      if dir
      then (and_then (add_slash p) λ q.
          and_then (as_url_string percent_encode (record q { pfxlen = none }))
            λ url. ok (record { status = 201; location = some url }))
      else ok (record { status = 201; location = none })

  unfoldable pub handle_mkcol : DavRequest → Run (World S L) DavError Created
  unfolding prepare create_error created
  handle_mkcol req = do
    p ← reads (prepare req)
    matching (on_files (inner.fs.create_dir p)) (λ _. reads (λ w. created p))
        (λ e. fail (create_error e))
