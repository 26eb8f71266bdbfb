-- ===== src/MultiError.antt =====
-- src/multierror.rs: the statuses of a request's paths, and the reply that they make. The stream of
-- the items is the list of those that the handler has sent when it is done. The XML is left out.
pub mod Answers
use webdav_handler_rs.Prelude.{
  ℕ, List, [], ◌∷◌, ◌++◌, map, ◌==◌, nat_eq, if◌then◌else◌, Outcome, ok, err, Run,
}
use webdav_handler_rs.Errors.{DavError, statuscode}
use webdav_handler_rs.DavPath.{DavPath, eq}
use webdav_handler_rs.Server.{World}

-- A plain reply with a status, or a 207 with the statuses of some paths.
pub data Reply : Type 0 where
  plain : ℕ → Reply
  multistatus : List (DavPath × ℕ) → Reply

module _ {S L : Type 0} where
  -- `MultiError::add_status`
  unfoldable pub add_status {κ} : {E : Type κ} → DavPath → DavError → Run (World S L) E (Unit {0})
  add_status path e w = (ok tt, record w { items = World.items w ++ (path, statuscode e) ∷ [] })

-- How an item is written: `NO_CONTENT` as `OK`.
unfoldable pub shown : DavPath × ℕ → DavPath × ℕ
shown (path, status) = (path, if status == 204 then 200 else status)

unfoldable pub multi_error : DavPath → List (DavPath × ℕ) → Outcome DavError Reply
unfolding shown
multi_error req_path [] = err DavError.chan_error
multi_error req_path ((path, status) ∷ []) =
    if eq path req_path then ok (plain status) else ok (multistatus (shown (path, status) ∷ []))
multi_error req_path (first ∷ second ∷ rest) = ok (multistatus (map shown (first ∷ second ∷ rest)))
