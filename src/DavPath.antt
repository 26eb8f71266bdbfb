-- ===== src/DavPath.antt =====
-- src/davpath.rs: the path part of a URL as a path of the filesystem, with a hidden prefix. The
-- decoder of the crate percent_encoding is the parameter `percent_decode`, its encoder, which takes
-- the set of the bytes to encode, is `percent_encode`.
pub mod Segments
pub mod Normalize
pub mod Accepted
pub mod Prefix
pub mod Parent
use webdav_handler_rs.Prelude.{
  ℕ, suc, ◌+◌, ◌-◌, ◌≤◌, Bool, true, false, not, ◌&&◌, ◌||◌, Option, none, some, List, [], ◌∷◌,
  ◌++◌, map, Bytes, ◌==◌, nat_eq, list_eq, ltb, leb, length, take, drop, drop_last, last?, any,
  get_elem?, concat, if◌then◌else◌, Outcome, ok, err, panic, and_then,
}
use mathlib.Core.List.{reverse}
use webdav_handler_rs.Errors.{DavError}
use Segments.{slash, split, segments, join, starts_with, ends_with_slash}

pub record DavPath : Type 0 where
  pub fullpath : Bytes
  pub pfxlen : Option ℕ

pub data ParseError : Type 0 where
  invalid_path prefix_mismatch forbidden_path : ParseError

unfoldable pub parse_error_into : ParseError → DavError
parse_error_into ParseError.invalid_path = DavError.invalid_path
parse_error_into ParseError.prefix_mismatch = DavError.illegal_path
parse_error_into ParseError.forbidden_path = DavError.forbidden_path

-- `ENCODE_SET.contains`
unfoldable pub encode_set : ℕ → Bool
encode_set byte =
    not (
      (leb b'A' byte && leb byte b'Z')
      || (leb b'a' byte && leb byte b'z')
      || (leb b'0' byte && leb byte b'9')
      || byte == b'-'
      || byte == b'_'
      || byte == b'.'
      || byte == b'~')
    && not (byte == slash)

-- The rest of the path up to the first `?`; a `#` before it is refused.
unfoldable pub cut_query : Bytes → Outcome ParseError Bytes
cut_query [] = ok []
cut_query (c ∷ cs) =
    if c == b'#'
    then err ParseError.invalid_path
    else if c == b'?'
    then ok []
    else and_then (cut_query cs) λ rest. ok (c ∷ rest)

module _ (percent_decode : Bytes → Bytes) where
  unfoldable pub valid_segment : Bytes → Outcome ParseError (Unit {0})
  valid_segment src =
      if any (λ x. x == 0 || x == slash) (percent_decode src)
      then err ParseError.invalid_path
      else ok tt

  -- One round of the loop over the segments. The vector `v` is kept with its end in front.
  unfoldable pub push_piece : List Bytes → Bytes → Outcome ParseError (List Bytes)
  unfolding valid_segment
  push_piece v segment =
      if segment == b'.' ∷ [] || segment == []
      then ok v
      else if segment == b'.' ∷ b'.' ∷ []
      then (if ltb (length v) 2 then err ParseError.forbidden_path else ok (drop 2 v))
      else and_then (valid_segment segment) λ _. ok (segment ∷ (slash ∷ []) ∷ v)

  unfoldable pub push_pieces : List Bytes → List Bytes → Outcome ParseError (List Bytes)
  push_pieces v [] = ok v
  push_pieces v (segment ∷ rest) = and_then (push_piece v segment) λ v'. push_pieces v' rest

  -- The pieces, decoded and put together; `isdir` or no piece at all adds a slash.
  unfoldable pub render : Bool → List Bytes → Bytes
  render isdir v =
      let v' = if isdir || length v == 0 then (slash ∷ []) ∷ v else v in
      concat (map percent_decode (reverse v'))

  unfoldable pub normalize_path : Bytes → Outcome ParseError Bytes
  normalize_path rp =
      if any (λ x. ltb x 32 || ltb 126 x) rp
      then err ParseError.invalid_path
      else and_then (cut_query rp) λ rawpath.
        if not (starts_with rawpath (slash ∷ []))
        then err ParseError.invalid_path
        else and_then (push_pieces [] (split rawpath)) λ v. ok (render (ends_with_slash rawpath) v)

  -- `DavPath::new`
  unfoldable pub new : Bytes → Outcome ParseError DavPath
  new src = and_then (normalize_path src) λ path. ok (record { fullpath = path; pfxlen = none })

-- One trailing slash ignored, as the comparison does.
abbrev pub without_slash : Bytes → Bytes
without_slash a = if ltb 1 (length a) && ends_with_slash a then drop_last a else a

-- `==` on `DavPath`
unfoldable pub eq : DavPath → DavPath → Bool
eq a b = without_slash a.fullpath == without_slash b.fullpath

unfoldable pub set_prefix : DavPath → Bytes → Outcome ParseError DavPath
set_prefix p pfx =
    let len = length pfx in
    if not (starts_with p.fullpath pfx)
    then err ParseError.prefix_mismatch
    else if ends_with_slash pfx
    then elim (get_elem? p.fullpath (len - 1)) [
      | none ↦ panic
      | some c ↦
          if c == slash
          then ok (record p { pfxlen = some (len - 1) })
          else err ParseError.prefix_mismatch
    ]
    else if length p.fullpath == len
    then ok (record { fullpath = p.fullpath ++ slash ∷ []; pfxlen = some len })
    else ok (record p { pfxlen = some len })

module _ (percent_decode : Bytes → Bytes) where
  unfoldable pub from_str_and_prefix : Bytes → Bytes → Outcome ParseError DavPath
  from_str_and_prefix src pfx = and_then (new percent_decode src) λ p. set_prefix p pfx

  -- The first argument is `uri.path()`.
  unfoldable pub from_uri_and_prefix : Bytes → Bytes → Outcome ParseError DavPath
  from_uri_and_prefix path pfx =
      if path == b'*' ∷ []
      then ok (record { fullpath = b'*' ∷ []; pfxlen = none })
      else if starts_with path (slash ∷ [])
      then from_str_and_prefix path pfx
      else err ParseError.invalid_path

-- `DavPath::from_uri`, of `uri.path()`.
unfoldable pub from_uri : Bytes → DavPath
from_uri path = record { fullpath = path; pfxlen = none }

abbrev pub prefix_len : DavPath → ℕ
prefix_len p = elim p.pfxlen [ none ↦ 0 | some n ↦ n ]

-- `&self.fullpath[pfxlen..]`, which `deref` makes and every method of `DavPathRef` reads: it panics
-- past the end.
unfoldable pub as_bytes {κ} : {E : Type κ} → DavPath → Outcome E Bytes
as_bytes p =
    if leb (prefix_len p) (length p.fullpath) then ok (drop (prefix_len p) p.fullpath) else panic

-- `&self.fullpath[..pfxlen]`
unfoldable pub get_prefix {κ} : {E : Type κ} → DavPath → Outcome E Bytes
get_prefix p =
    if leb (prefix_len p) (length p.fullpath) then ok (take (prefix_len p) p.fullpath) else panic

unfoldable pub is_collection {κ} : {E : Type κ} → DavPath → Outcome E Bool
is_collection p = and_then (as_bytes p) λ path. ok (ends_with_slash path)

unfoldable pub is_star {κ} : {E : Type κ} → DavPath → Outcome E Bool
is_star p = and_then (as_bytes p) λ path. ok (path == b'*' ∷ [])

unfoldable pub add_slash {κ} : {E : Type κ} → DavPath → Outcome E DavPath
add_slash p =
    and_then (is_collection p)
      λ dir. ok (if dir then p else record p { fullpath = p.fullpath ++ slash ∷ [] })

unfoldable pub add_slash_if {κ} : {E : Type κ} → DavPath → Bool → Outcome E DavPath
add_slash_if p b = if b then add_slash p else ok p

unfoldable pub push_segment {κ} : {E : Type κ} → DavPath → Bytes → Outcome E DavPath
push_segment p b = and_then (add_slash p) λ q. ok (record q { fullpath = q.fullpath ++ b })

-- The parent directory. The prefix length stays as it is.
unfoldable pub parent : DavPath → DavPath
parent p =
    let segs = drop_last (segments p.fullpath) in
    let segs' = if ltb 0 (length segs) then segs ++ [] ∷ [] else segs in
    record { pfxlen = p.pfxlen; fullpath = join ([] ∷ segs') }

-- The last segment, or nothing.
unfoldable pub file_name {κ} : {E : Type κ} → DavPath → Outcome E Bytes
file_name p =
    and_then (as_bytes p) λ path. ok (elim (last? (segments path)) [ none ↦ [] | some s ↦ s ])

-- As a path of the operating system, relative, without the first and the last slash.
unfoldable pub as_rel_ospath {κ} : {E : Type κ} → DavPath → Outcome E Bytes
as_rel_ospath p = and_then (as_bytes p) λ spath.
    let path = if ltb 0 (length spath) then drop 1 spath else spath in
    ok (if ends_with_slash path then drop_last path else path)

-- The same, absolute: it never ends in a slash, but for the root.
unfoldable pub as_pathbuf {κ} : {E : Type κ} → DavPath → Outcome E Bytes
as_pathbuf p = and_then (as_bytes p) λ b. ok (without_slash b)

module _ (percent_encode : (ℕ → Bool) → Bytes → Bytes) where
  unfoldable pub encode_path : Bytes → Bytes
  encode_path src = percent_encode encode_set src

  -- `as_url_string` of a `DavPathRef`.
  unfoldable pub as_url_string {κ} : {E : Type κ} → DavPath → Outcome E Bytes
  as_url_string p = and_then (as_bytes p) λ path. ok (encode_path path)
