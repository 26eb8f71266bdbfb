-- ===== src/FakeLs/Refresh.antt =====
-- `lock` of src/fakels.rs, and then `refresh`.
use webdav_handler_rs.Prelude.{
  ℕ, ◌+◌, ◌≡◌, refl, ap, subst, ◌∙◌, Outcome, Bool, true, false, Option, none, some, [], ◌∷◌, ◌++◌,
  Bytes, nat_eq, list_beq, any, arith, ok,
}
use webdav_handler_rs.DavPath.Segments.{slash, split}
use webdav_handler_rs.DavPath.Accepted.{HasNoSlash, split-append_slash}
use webdav_handler_rs.Ls.{DavLock}
use webdav_handler_rs.MemLs.{LockRequest}
use webdav_handler_rs.FakeLs.{
  tm_limit, scheme, depth_flag, share_flag, make_token, has_flag, lock, refresh,
}

flags-split :
    (deep shared : Bool)
    → split (depth_flag deep ∷ slash ∷ share_flag shared ∷ [])
      ≡ (depth_flag deep ∷ []) ∷ (share_flag shared ∷ []) ∷ []
unfolding split
flags-split true true = refl
flags-split true false = refl
flags-split false true = refl
flags-split false false = refl

scheme-HasNoSlash : HasNoSlash scheme
unfolding any
scheme-HasNoSlash = refl

-- The token falls into three pieces.
split-make_token :
    (uuid : Bytes) (deep shared : Bool)
    → HasNoSlash uuid
    → split (make_token uuid deep shared)
      ≡ (scheme ++ uuid) ∷ (depth_flag deep ∷ []) ∷ (share_flag shared ∷ []) ∷ []
unfolding make_token
split-make_token uuid deep shared h =
    split-append_slash (scheme ++ uuid) (depth_flag deep ∷ slash ∷ share_flag shared ∷ [])
      (unfold any in h)
    ∙ ap (λ v. (scheme ++ uuid) ∷ v) (flags-split deep shared)

has_flag-deep :
    (p q : Bytes) (deep : Bool) → has_flag (p ∷ (depth_flag deep ∷ []) ∷ q ∷ []) 1 b'I' ≡ deep
unfolding has_flag list_beq
has_flag-deep p q true = refl
has_flag-deep p q false = refl

has_flag-shared :
    (p q : Bytes) (shared : Bool) → has_flag (p ∷ q ∷ (share_flag shared ∷ []) ∷ []) 2 b'S' ≡ shared
unfolding has_flag list_beq
has_flag-shared p q true = refl
has_flag-shared p q false = refl

deep_kept :
    (uuid : Bytes) (deep shared : Bool)
    → HasNoSlash uuid
    → has_flag (split (make_token uuid deep shared)) 1 b'I' ≡ deep
deep_kept uuid deep shared h =
    rw (split-make_token uuid deep shared h)
      (has_flag-deep (scheme ++ uuid) (share_flag shared ∷ []) deep)

shared_kept :
    (uuid : Bytes) (deep shared : Bool)
    → HasNoSlash uuid
    → has_flag (split (make_token uuid deep shared)) 2 b'S' ≡ shared
shared_kept uuid deep shared h =
    rw (split-make_token uuid deep shared h)
      (has_flag-shared (scheme ++ uuid) (depth_flag deep ∷ []) shared)

module _ {Element : Type 0} where
  -- In the fake lock system, which keeps no lock, `refresh` of the token of a lock that `lock`
  -- has granted, whose UUID holds no slash, rebuilds that lock from the token, deep and shared as
  -- it was, with a timeout of its own, and without its principal and owner.
  pub lock-refresh :
      (r : LockRequest Element) (uuid : Bytes) (now later : ℕ) (timeout : Option ℕ)
      (l : DavLock Element)
      → HasNoSlash uuid
      → lock r uuid now ≡ ok l
      → refresh r.path l.token timeout later
        ≡ ok (record l {
          principal = none;
          owner = none;
          timeout_at = some (later + tm_limit timeout);
          timeout = some (tm_limit timeout);
        })
  unfolding lock refresh
  lock-refresh r uuid now later timeout l h granted =
      let made : DavLock Element = record {
        token = make_token uuid r.deep r.shared;
        path = r.path;
        principal = r.principal;
        owner = r.owner;
        timeout_at = some (now + tm_limit r.timeout);
        timeout = some (tm_limit r.timeout);
        shared = r.shared;
        deep = r.deep;
      } in
      let returned : ◌≡◌ {A = Outcome (DavLock Element) (DavLock Element)} (ok made) (ok l) =
        granted in
      let same : made ≡ l = ground (arith, returned) in
      subst
        (λ x.
          refresh r.path x.token timeout later
          ≡ ok (record x {
            principal = none;
            owner = none;
            timeout_at = some (later + tm_limit timeout);
            timeout = some (tm_limit timeout);
          }))
        same
        (rw (refresh, shared_kept uuid r.deep r.shared h, deep_kept uuid r.deep r.shared h) refl)
