-- ===== src/Conditional/Codes.antt =====
-- The statuses that src/conditional.rs answers.
use webdav_handler_rs.Prelude.{
  ℕ, ◌≡◌, ◌⊎◌, refl, Bool, true, Option, none, some, List, Bytes, arith, nat_eq, Bool-cases,
  Option-cases, inl, inr, Outcome, ok, err,
}
use webdav_handler_rs.Errors.{FsError}
use webdav_handler_rs.DavPath.{DavPath}
use webdav_handler_rs.LockCheck.{Claim}
use webdav_handler_rs.Conditional.{
  ETagList, Request, Meta, is_get_or_head, etaglist_match, precondition_fails, not_modified,
  http_if_match, dav_if_match, if_match, if_match_get_tokens,
}

-- The conditional headers of HTTP let a request go on, or answer it 412 or 304, and 304 only if
-- it is a GET or HEAD.
pub http_if_match-codes :
    (req : Request) (meta : Option Meta)
    → (http_if_match req meta ≡ none)
      ⊎ (http_if_match req meta ≡ some 412)
      ⊎ ((http_if_match req meta ≡ some 304) × (is_get_or_head req.method ≡ true))
unfolding http_if_match not_modified
http_if_match-codes req meta = ground arith

-- On a resource that does not exist, a request with If-Match is answered 412, whatever it lists,
-- and one with If-None-Match and neither If-Match nor If-Unmodified-Since goes on.
pub http_if_match-absent :
    (req req' : Request) (l l' : ETagList)
    → req.if_match ≡ some l
    → req'.if_match ≡ none
    → req'.if_unmodified_since ≡ none
    → req'.if_none_match ≡ some l'
    → (http_if_match req none ≡ some 412) × (http_if_match req' none ≡ none)
unfolding http_if_match not_modified precondition_fails etaglist_match
http_if_match-absent req req' l l' h k q r = (ground arith, ground arith)

module _ {L : Type 0} (percent_decode : Bytes → Bytes) (metadata : DavPath → Outcome FsError Meta)
    (check : Option (DavPath → Claim → Bool → Outcome L (Unit {0}))) where
  -- Once the If header has been evaluated, `if_match` and `if_match_get_tokens` let the same
  -- requests pass, the latter with the tokens; a refusal of the latter has status 412 or that of
  -- the other headers.
  pub if_match-get_tokens :
      (req : Request) (meta : Option Meta) (path : DavPath) (r : Bool × List Bytes)
      → dav_if_match {E = ℕ} percent_decode metadata check req path ≡ ok r
      → ((if_match {E = ℕ} percent_decode metadata check req meta path ≡ ok none)
          × (if_match_get_tokens percent_decode metadata check req meta path ≡ ok r.1))
        ⊎ ((c : ℕ) × (if_match {E = ℕ} percent_decode metadata check req meta path ≡ ok (some c))
            × (c' : ℕ) × (if_match_get_tokens percent_decode metadata check req meta path ≡ err c')
            × ((c' ≡ 412) ⊎ (http_if_match req meta ≡ some c')))
  unfolding if_match if_match_get_tokens
  if_match-get_tokens req meta path r h = elim (Option-cases (http_if_match req meta)) [
    | inl go_on ↦ elim (Bool-cases r.0) [
      | inl passes ↦
          inl (rw (h, passes, go_on) refl, rw (if_match_get_tokens, go_on, h, passes) refl)
      | inr fails ↦
          inr
            (412, rw (h, fails) refl, 412, rw (if_match_get_tokens, go_on, h, fails) refl, inl refl)
    ]
    | inr (code, stops) ↦ elim (Bool-cases r.0) [
      | inl passes ↦
          inr (
            code,
            rw (h, passes, stops) refl,
            code,
            rw (if_match_get_tokens, stops) refl,
            inr stops,
          )
      | inr fails ↦
          inr (412, rw (h, fails) refl, code, rw (if_match_get_tokens, stops) refl, inr stops)
    ]
  ]
