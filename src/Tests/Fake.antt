-- ===== src/Tests/Fake.antt =====
-- A lock of the fake lock system, and its refresh.
use webdav_handler_rs.Prelude.{ℕ, ◌+◌, ◌*◌, ◌≡◌, refl, true, none, some, [], ◌∷◌, Bytes, any, ok}
use webdav_handler_rs.DavPath.{DavPath}
use webdav_handler_rs.Ls.{DavLock}
use webdav_handler_rs.MemLs.{LockRequest}
use webdav_handler_rs.DavPath.Accepted.{HasNoSlash}
use webdav_handler_rs.FakeLs.{longest, nanos, tm_limit, make_token, lock, refresh}
use webdav_handler_rs.FakeLs.Refresh.{lock-refresh}

abbrev file_path : DavPath
file_path = record { fullpath = b'/' ∷ b'f' ∷ []; pfxlen = none }

-- For 500 seconds.
abbrev request : LockRequest ℕ
request = record {
  path = file_path;
  principal = some (b'p' ∷ []);
  owner = some 7;
  timeout = some (500 * nanos);
  shared = true;
  deep = true;
}

abbrev some_uuid : Bytes
some_uuid = b'8' ∷ b'-' ∷ b'a' ∷ []

some_uuid-HasNoSlash : HasNoSlash some_uuid
unfolding any
some_uuid-HasNoSlash = refl

abbrev granted_lock : DavLock ℕ
granted_lock = record {
  token = make_token some_uuid true true;
  path = file_path;
  principal = some (b'p' ∷ []);
  owner = some 7;
  timeout_at = some (1000 + longest);
  timeout = some longest;
  shared = true;
  deep = true;
}

request_granted : lock request some_uuid 1000 ≡ ok granted_lock
unfolding lock tm_limit
request_granted = refl

lock-refresh_example :
    refresh file_path (make_token some_uuid true true) (some nanos) 2000
    ≡ ok (record granted_lock {
      principal = none;
      owner = none;
      timeout_at = some (2000 + tm_limit (some nanos));
      timeout = some (tm_limit (some nanos));
    })
lock-refresh_example =
    lock-refresh request some_uuid 1000 2000 (some nanos) granted_lock some_uuid-HasNoSlash
      request_granted
