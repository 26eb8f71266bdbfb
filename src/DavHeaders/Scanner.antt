-- ===== src/DavHeaders/Scanner.antt =====
-- The tokens of the header If in src/davheaders.rs.
pub mod Progress
use webdav_handler_rs.Prelude.{
  ℕ, Bool, true, false, not, ◌&&◌, ◌||◌, List, [], ◌∷◌, Bytes, ◌==◌, nat_eq, list_eq, ltb, drop,
  any, if◌then◌else◌, Outcome, ok, err, panic, and_then,
}
use webdav_handler_rs.DavPath.Segments.{starts_with}
use webdav_handler_rs.Text.{is_utf8}
use webdav_handler_rs.Conditional.{ETag}
use webdav_handler_rs.DavHeaders.{HeaderError, invalid}
use webdav_handler_rs.DavHeaders.Tag
use webdav_handler_rs.DavHeaders.Tag.{quote}

pub data IfToken : Type 0 where
  list_open list_close not_ : IfToken
  word pointy : Bytes → IfToken
  etag : ETag → IfToken
  end : IfToken

unfoldable pub is_whitespace : ℕ → Bool
is_whitespace c = c == b' ' || c == b'\t' || c == b'\r' || c == b'\n'

unfoldable pub is_special : ℕ → Bool
is_special c = c == b'<' || c == b'>' || c == b'(' || c == b')' || c == b'[' || c == b']'

unfoldable pub trim_left : Bytes → Bytes
trim_left [] = []
trim_left (c ∷ cs) = if is_whitespace c then trim_left cs else c ∷ cs

-- `Not`
abbrev pub not_word : Bytes
not_word = b'N' ∷ b'o' ∷ b't' ∷ []

-- The loop of `scan_until` at some index: the bytes up to `c`, and those after it. The buffer is
-- never found empty, and an index past its end panics.
unfoldable pub scan_from : ℕ → Bool → Bytes → Outcome HeaderError (Bytes × Bytes)
scan_from c quoted [] = panic
scan_from c quoted (x ∷ xs) =
    let rest = scan_from c (if x == quote then not quoted else quoted) xs in
    if not quoted && x == c
    then ok ([], xs)
    else if is_whitespace x
    then err invalid
    else and_then rest λ r. ok (x ∷ r.0, r.1)

-- The index starts at 1.
unfoldable pub scan_until : ℕ → Bytes → Outcome HeaderError (Bytes × Bytes)
unfolding scan_from
scan_until c [] = panic
scan_until c (b ∷ bs) = scan_from c false bs

unfoldable pub ends_word : ℕ → Bool
unfolding is_whitespace is_special
ends_word c = is_whitespace c || is_special c || ltb c 32

-- The bytes up to the end of the word, and those from there.
unfoldable pub word_from : Bytes → Bytes × Bytes
unfolding ends_word
word_from [] = ([], [])
word_from (c ∷ cs) = let r = word_from cs in if ends_word c then ([], c ∷ cs) else (c ∷ r.0, r.1)

unfoldable pub scan_word : Bytes → Outcome HeaderError (Bytes × Bytes)
unfolding word_from
scan_word [] = ok ([], [])
scan_word (c ∷ cs) = if ends_word c then err invalid else ok (word_from (c ∷ cs))

-- `String::from_utf8(tok).map_err(map_invalid)`
unfoldable pub from_utf8 : Bytes → Outcome HeaderError Bytes
from_utf8 tok = if is_utf8 tok then ok tok else err invalid

-- `get_token` on what is left of the white space.
unfoldable pub token_at : Bytes → Outcome HeaderError (IfToken × Bytes)
unfolding scan_until scan_word from_utf8
token_at [] = ok (end, [])
token_at (c ∷ cs) =
    if c == b'('
    then ok (list_open, cs)
    else if c == b')'
    then ok (list_close, cs)
    else if starts_with (c ∷ cs) not_word
    then ok (not_, drop 3 (c ∷ cs))
    else if c == b'<'
    then (and_then (scan_until b'>' (c ∷ cs)) λ r. and_then (from_utf8 r.0) λ s. ok (pointy s, r.1))
    else if c == b'['
    then (and_then (scan_until b']' (c ∷ cs))
        λ r. and_then (from_utf8 r.0) λ s. and_then (Tag.from_str s) λ t. ok (etag t, r.1))
    else and_then (scan_word (c ∷ cs)) λ r.
      if r.0 == not_word then ok (not_, r.1) else and_then (from_utf8 r.0) λ s. ok (word s, r.1)

unfoldable pub get_token : Bytes → Outcome HeaderError (IfToken × Bytes)
unfolding trim_left token_at
get_token buf = token_at (trim_left buf)
