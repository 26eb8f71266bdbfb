-- ===== src/DavHeaders/If/Written.antt =====
-- The header If of src/davheaders.rs, as it is written.
use webdav_handler_rs.Prelude.{
  ℕ, ◌≡◌, ◌≢◌, refl, Bool, true, false, not, ◌&&◌, Option, none, some, List, [], ◌∷◌, ◌++◌, Bytes,
  ◌==◌, nat_eq, All, arith, if◌then◌else◌, ok,
}
use webdav_handler_rs.DavPath.Segments.{starts_with}
use webdav_handler_rs.Text.{contains, is_utf8}
use webdav_handler_rs.Conditional.{ETag, IfList, IfCondition, IfItem, state_token}
use webdav_handler_rs.DavHeaders.Tag.{quote}
use webdav_handler_rs.DavHeaders.Scanner.{
  list_open, list_close, not_, pointy, etag, not_word, is_whitespace, trim_left, scan_from,
  scan_until, from_utf8, token_at, get_token,
}
use webdav_handler_rs.DavHeaders.Scanner.Progress.{IsRead}

-- A list as it is written: the url in front of it, if any, and its conditions.
pub record Written : Type 0 where
  pub url : Option Bytes
  pub conditions : List IfCondition

-- Each part is written in front of what follows it.
unfoldable pub write_item : IfItem → Bytes → Bytes
write_item (state_token s) rest = b'<' ∷ (s ++ b'>' ∷ rest)
write_item (IfItem.etag e) rest = b'[' ∷ (e.tag ++ b']' ∷ rest)

unfoldable pub write_condition : IfCondition → Bytes → Bytes
unfolding write_item
write_condition c rest =
    if c.negated then not_word ++ write_item c.item rest else write_item c.item rest

unfoldable pub write_conditions : List IfCondition → Bytes → Bytes
unfolding write_condition
write_conditions [] rest = b')' ∷ rest
write_conditions (c ∷ cs) rest = write_condition c (write_conditions cs rest)

unfoldable pub write_url : Option Bytes → Bytes → Bytes
write_url none rest = rest
write_url (some u) rest = b'<' ∷ (u ++ b'>' ∷ rest)

unfoldable pub write : List Written → Bytes
unfolding write_url write_conditions
write [] = []
write (w ∷ ws) = write_url w.url (b'(' ∷ write_conditions w.conditions (write ws))

-- `s` can stand before the byte `c`: no white space, and `c` and the last byte only between quotes.
unfoldable pub fits : ℕ → Bool → Bytes → Bool
fits c quoted [] = not quoted
fits c quoted (x ∷ xs) =
    not (not quoted && x == c)
    && not (is_whitespace x)
    && fits c (if x == quote then not quoted else quoted) xs

pub record IsText (c : ℕ) (s : Bytes) : Type 0 where
  pub fitting : fits c false s ≡ true
  pub utf8 : is_utf8 s ≡ true

abbrev pub IsWritable : IfCondition → Type 0
IsWritable c = elim c.item [
  | state_token s ↦ IsText b'>' s × (contains s b':' ≡ true)
  | IfItem.etag e ↦ IsText b']' e.tag × IsRead e
]

module _ (parse_url : Bytes → Option Bytes) where
  abbrev pub IsUrl : Option Bytes → Type 0
  IsUrl none = Unit
  IsUrl (some u) = IsText b'>' u × (parse_url u ≢ none)

  pub record IsWritten (w : Written) : Type 0 where
    pub url : IsUrl w.url
    pub nonempty : w.conditions ≢ []
    pub writable : All IsWritable w.conditions

  -- The list that is meant.
  abbrev pub meaning : Written → IfList
  meaning w = record {
    resource_tag = elim w.url [ none ↦ none | some u ↦ parse_url u ];
    conditions = w.conditions;
  }

scan_from-fits :
    (c : ℕ) (quoted : Bool) (s rest : Bytes)
    → fits c quoted s ≡ true
    → scan_from c quoted (s ++ c ∷ rest) ≡ ok (s, rest)
unfolding scan_from fits
scan_from-fits c true [] rest h = cc
scan_from-fits c false [] rest h = ground arith
scan_from-fits c quoted (x ∷ xs) rest h =
    ground (arith, scan_from-fits c (if x == quote then not quoted else quoted) xs rest)

pub get_token-pointy :
    (s rest : Bytes) → IsText b'>' s → get_token (b'<' ∷ (s ++ b'>' ∷ rest)) ≡ ok (pointy s, rest)
unfolding get_token trim_left is_whitespace token_at scan_until from_utf8 starts_with
get_token-pointy s rest h = rw (scan_from-fits b'>' false s rest h.fitting, h.utf8)

pub get_token-etag :
    (e : ETag) (rest : Bytes)
    → IsText b']' e.tag
    → IsRead e
    → get_token (b'[' ∷ (e.tag ++ b']' ∷ rest)) ≡ ok (etag e, rest)
unfolding get_token trim_left is_whitespace token_at scan_until from_utf8 starts_with
get_token-etag e rest h read = rw (scan_from-fits b']' false e.tag rest h.fitting, h.utf8, read)

pub get_token-not : (rest : Bytes) → get_token (not_word ++ rest) ≡ ok (not_, rest)
unfolding get_token trim_left is_whitespace token_at starts_with
get_token-not rest = refl

pub get_token-open : (rest : Bytes) → get_token (b'(' ∷ rest) ≡ ok (list_open, rest)
unfolding get_token trim_left is_whitespace token_at
get_token-open rest = refl

pub get_token-close : (rest : Bytes) → get_token (b')' ∷ rest) ≡ ok (list_close, rest)
unfolding get_token trim_left is_whitespace token_at
get_token-close rest = refl
