-- ===== src/DavHeaders/UpdateRange.antt =====
-- The header X-Update-Range of src/davheaders.rs.
pub mod RoundTrip
use webdav_handler_rs.Prelude.{
  ℕ, ◌^◌, Bool, not, ◌&&◌, Option, none, some, List, [], ◌∷◌, ◌++◌, Bytes, ◌==◌, nat_eq, list_eq,
  drop, if◌then◌else◌, Outcome, ok, err, ok_or, and_then,
}
use webdav_handler_rs.DavPath.Segments.{starts_with}
use webdav_handler_rs.Tree.{u64_mod}
use webdav_handler_rs.Text.{split_on, parse_uint, decimal}
use webdav_handler_rs.DavHeaders.{HeaderError, invalid, one, to_str, encode_text}

pub data XUpdateRange : Type 0 where
  from_to : ℕ → ℕ → XUpdateRange
  all_from : ℕ → XUpdateRange
  last : ℕ → XUpdateRange
  append : XUpdateRange

-- `append` and `bytes=`.
abbrev pub append_word : Bytes
append_word = b'a' ∷ b'p' ∷ b'p' ∷ b'e' ∷ b'n' ∷ b'd' ∷ []

abbrev pub bytes_prefix : Bytes
bytes_prefix = b'b' ∷ b'y' ∷ b't' ∷ b'e' ∷ b's' ∷ b'=' ∷ []

unfoldable pub read_num : Bytes → Outcome HeaderError ℕ
read_num s = ok_or (parse_uint u64_mod s) invalid

-- The two numbers, of which one may be empty.
unfoldable pub read_pair : List Bytes → Outcome HeaderError XUpdateRange
unfolding read_num
read_pair (a ∷ b ∷ []) =
    if not (a == []) && not (b == [])
    then (and_then (read_num a) λ m. and_then (read_num b) λ n. ok (from_to m n))
    else if not (a == [])
    then (and_then (read_num a) λ m. ok (all_from m))
    else if not (b == [])
    then (and_then (read_num b) λ n. ok (last n))
    else err invalid
read_pair _ = err invalid

unfoldable pub read : Bytes → Outcome HeaderError XUpdateRange
unfolding read_pair
read s =
    if s == append_word
    then ok append
    else if not (starts_with s bytes_prefix)
    then err invalid
    else read_pair (split_on b'-' (drop 6 s))

module _ (is_text : Bytes → Bool) where
  unfoldable pub decode : List Bytes → Outcome HeaderError XUpdateRange
  unfolding one to_str read
  decode values = and_then (one values) λ v. and_then (to_str is_text v) read

unfoldable pub show : XUpdateRange → Bytes
show append = append_word
show (from_to b e) = decimal b ++ b'-' ∷ decimal e
show (all_from b) = decimal b ++ b'-' ∷ []
show (last e) = b'-' ∷ decimal e

module _ (is_value : Bytes → Bool) where
  unfoldable pub encode {κ} : {E : Type κ} → XUpdateRange → Outcome E (List Bytes)
  unfolding show encode_text
  encode r = encode_text is_value (show r)
