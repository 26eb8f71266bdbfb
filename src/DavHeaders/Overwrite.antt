-- ===== src/DavHeaders/Overwrite.antt =====
-- The header Overwrite of src/davheaders.rs.
use webdav_handler_rs.Prelude.{
  Bool, true, false, List, [], ◌∷◌, Bytes, ◌==◌, nat_eq, list_eq, if◌then◌else◌, Outcome, ok, err,
  and_then,
}
use webdav_handler_rs.DavHeaders.{HeaderError, invalid, one}

unfoldable pub read : Bytes → Outcome HeaderError Bool
read line =
    if line == b'F' ∷ [] then ok false else if line == b'T' ∷ [] then ok true else err invalid

unfoldable pub decode : List Bytes → Outcome HeaderError Bool
unfolding one read
decode values = and_then (one values) read

unfoldable pub encode : Bool → List Bytes
encode overwrite = (if overwrite then b'T' ∷ [] else b'F' ∷ []) ∷ []
