-- ===== src/FakeLs.antt =====
-- src/fakels.rs: the lock system that grants every lock and keeps none. Durations and times are
-- nanoseconds. The time `now` and the random UUID are arguments of the calls that make them.
pub mod Refresh
use webdav_handler_rs.Prelude.{
  ℕ, ◌+◌, ◌*◌, ◌/◌, Bool, false, Option, none, some, List, [], ◌∷◌, ◌++◌, Bytes, ◌==◌, nat_eq,
  list_eq, ltb, get_elem?, if◌then◌else◌, Outcome, ok,
}
use webdav_handler_rs.DavPath.{DavPath}
use webdav_handler_rs.DavPath.Segments.{slash, split}
use webdav_handler_rs.Ls.{DavLock}
use webdav_handler_rs.LockCheck.{Claim}
use webdav_handler_rs.MemLs.{LockRequest}

abbrev pub nanos : ℕ
nanos = 1000000000

-- `Duration::new(120, 0)`
abbrev pub longest : ℕ
longest = 120 * nanos

unfoldable pub tm_limit : Option ℕ → ℕ
tm_limit none = longest
tm_limit (some d) = if ltb 120 (d / nanos) then longest else d

-- `opaquetoken:`
abbrev pub scheme : Bytes
scheme = b'o' ∷ b'p' ∷ b'a' ∷ b'q' ∷ b'u' ∷ b'e' ∷ b't' ∷ b'o' ∷ b'k' ∷ b'e' ∷ b'n' ∷ b':' ∷ []

-- The flag `I` or `0` of a deep or shallow lock, and `S` or `E` of a shared or exclusive one.
abbrev pub depth_flag : Bool → ℕ
depth_flag deep = if deep then b'I' else b'0'

abbrev pub share_flag : Bool → ℕ
share_flag shared = if shared then b'S' else b'E'

unfoldable pub make_token : Bytes → Bool → Bool → Bytes
make_token uuid deep shared =
    (scheme ++ uuid) ++ slash ∷ depth_flag deep ∷ slash ∷ share_flag shared ∷ []

-- `v.len() > i && v[i] == "c"`
unfoldable pub has_flag : List Bytes → ℕ → ℕ → Bool
has_flag v i c = elim (get_elem? v i) [ none ↦ false | some piece ↦ piece == c ∷ [] ]

unfoldable pub unlock : DavPath → Bytes → Outcome (Unit {0}) (Unit {0})
unlock path token = ok tt

unfoldable pub delete : DavPath → Outcome (Unit {0}) (Unit {0})
delete path = ok tt

module _ {Element : Type 0} where
  unfoldable pub lock :
      LockRequest Element → Bytes → ℕ → Outcome (DavLock Element) (DavLock Element)
  lock r uuid now = ok (record {
    token = make_token uuid r.deep r.shared;
    path = r.path;
    principal = r.principal;
    owner = r.owner;
    timeout_at = some (now + tm_limit r.timeout);
    timeout = some (tm_limit r.timeout);
    shared = r.shared;
    deep = r.deep;
  })

  unfoldable pub refresh : DavPath → Bytes → Option ℕ → ℕ → Outcome (Unit {0}) (DavLock Element)
  refresh path token timeout now = ok (record {
    token = token;
    path = path;
    principal = none;
    owner = none;
    timeout_at = some (now + tm_limit timeout);
    timeout = some (tm_limit timeout);
    shared = has_flag (split token) 2 b'S';
    deep = has_flag (split token) 1 b'I';
  })

  unfoldable pub check : DavPath → Claim → Bool → Outcome (DavLock Element) (Unit {0})
  check path c deep = ok tt

  unfoldable pub discover : DavPath → List (DavLock Element)
  discover path = []
