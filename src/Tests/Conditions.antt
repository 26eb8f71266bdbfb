-- ===== src/Tests/Conditions.antt =====
-- Requests with conditional headers, and the statuses of errors.
use webdav_handler_rs.Prelude.{
  ℕ, ◌≡◌, refl, Bool, true, false, ◌&&◌, Option, none, some, List, [], ◌∷◌, Bytes, nat_eq, list_eq,
  Outcome, ok, err,
}
use webdav_handler_rs.Errors.{FsError, DavError, must_close}
use webdav_handler_rs.DavPath.{DavPath}
use webdav_handler_rs.DavPath.Segments.{starts_with}
use webdav_handler_rs.LockCheck.{Claim}
use webdav_handler_rs.Conditional.{
  IfItem, IfCondition, IfList, Request, Meta, Method, condition_ok, conditions_ok, list_resource,
  list_ok, dav_if_match,
}
use webdav_handler_rs.Conditional.Lists.{
  all_hold, has_some, all_tokens, header_holds, header_lists, conditions_ok-all_hold,
  dav_if_match-any,
}

-- A server with no files and no locks.
abbrev decode : Bytes → Bytes
decode s = s

abbrev no_file : DavPath → Outcome FsError Meta
no_file p = err FsError.not_found

abbrev no_locks : Option (DavPath → Claim → Bool → Outcome ℕ (Unit {0}))
no_locks = none

abbrev path : DavPath
path = record { fullpath = b'/' ∷ []; pfxlen = none }

-- `If: (Not <t>)`
abbrev not_t : IfCondition
not_t = record { negated = true; item = IfItem.state_token (b't' ∷ []) }

abbrev list_not_t : IfList
list_not_t = record { resource_tag = none; conditions = not_t ∷ [] }

abbrev plain : Request
plain = record {
  method = Method.get;
  if_match = none;
  if_none_match = none;
  if_modified_since = none;
  if_unmodified_since = none;
  if_ = none;
}

abbrev with_if : Request
with_if = record plain { if_ = some (list_not_t ∷ []) }

abbrev never : IfItem → Bool
never item = false

abbrev always : IfList → Bool
always l = true

not_t_false :
    condition_ok {E = ℕ} decode no_file no_locks path true (IfItem.state_token (b't' ∷ []))
    ≡ ok false
unfolding condition_ok starts_with
not_t_false = refl

conditions_ok-all_hold_example :
    conditions_ok {E = ℕ} decode no_file no_locks path true false (not_t ∷ [])
    ≡ ok (has_some (not_t ∷ []) && all_hold never (not_t ∷ []))
conditions_ok-all_hold_example =
    conditions_ok-all_hold decode no_file no_locks path true never (not_t ∷ []) (not_t_false, tt)

list_not_t_ok : list_ok {E = ℕ} decode no_file no_locks path list_not_t ≡ ok true
unfolding list_ok list_resource conditions_ok condition_ok starts_with
list_not_t_ok = refl

dav_if_match-any_example :
    dav_if_match {E = ℕ} decode no_file no_locks with_if path
    ≡ ok
        (header_holds always (Request.if_ with_if), all_tokens (header_lists (Request.if_ with_if)))
dav_if_match-any_example =
    dav_if_match-any decode no_file no_locks with_if path always (list_not_t_ok, tt)

with_if_passes :
    dav_if_match {E = ℕ} decode no_file no_locks with_if path
    ≡ ok
        (header_holds always (Request.if_ with_if), all_tokens (header_lists (Request.if_ with_if)))
with_if_passes = dav_if_match-any decode no_file no_locks with_if path always (list_not_t_ok, tt)

abbrev passed : Bool × List Bytes
passed =
    (header_holds always (Request.if_ with_if), all_tokens (header_lists (Request.if_ with_if)))

abbrev missing : DavError
missing = DavError.fs_error FsError.not_found

missing_open : must_close missing ≡ false
unfolding must_close
missing_open = refl
