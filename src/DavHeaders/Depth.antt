-- ===== src/DavHeaders/Depth.antt =====
-- The header Depth of src/davheaders.rs.
use webdav_handler_rs.Prelude.{
  ◌||◌, List, [], ◌∷◌, Bytes, ◌==◌, nat_eq, list_eq, if◌then◌else◌, Outcome, ok, err, and_then,
}
use webdav_handler_rs.DavHeaders.{HeaderError, invalid, one as one_value}

pub data Depth : Type 0 where
  zero one infinity : Depth

-- `infinity` and `Infinity`.
abbrev pub small_infinity : Bytes
small_infinity = b'i' ∷ b'n' ∷ b'f' ∷ b'i' ∷ b'n' ∷ b'i' ∷ b't' ∷ b'y' ∷ []

abbrev pub capital_infinity : Bytes
capital_infinity = b'I' ∷ b'n' ∷ b'f' ∷ b'i' ∷ b'n' ∷ b'i' ∷ b't' ∷ b'y' ∷ []

unfoldable pub read : Bytes → Outcome HeaderError Depth
read v =
    if v == b'0' ∷ []
    then ok Depth.zero
    else if v == b'1' ∷ []
    then ok Depth.one
    else if v == small_infinity || v == capital_infinity
    then ok Depth.infinity
    else err invalid

unfoldable pub decode : List Bytes → Outcome HeaderError Depth
unfolding one_value read
decode values = and_then (one_value values) read

unfoldable pub encode : Depth → List Bytes
encode Depth.zero = (b'0' ∷ []) ∷ []
encode Depth.one = (b'1' ∷ []) ∷ []
encode Depth.infinity = capital_infinity ∷ []
