-- ===== src/DavHeaders/Timeout.antt =====
-- The header Timeout of src/davheaders.rs.
pub mod RoundTrip
use webdav_handler_rs.Prelude.{
  ℕ, ◌^◌, Bool, false, not, Option, none, some, List, [], ◌∷◌, ◌++◌, Bytes, ◌==◌, nat_eq, list_eq,
  drop, if◌then◌else◌, Outcome, ok, err, and_then,
}
use webdav_handler_rs.DavPath.Segments.{starts_with}
use webdav_handler_rs.Text.{split_on, parse_uint, decimal}
use webdav_handler_rs.DavHeaders.{HeaderError, invalid, one, to_str, encode_text}

pub data DavTimeout : Type 0 where
  seconds : ℕ → DavTimeout
  infinite : DavTimeout

abbrev pub u32_mod : ℕ
u32_mod = 2 ^ 32

-- `Infinite` and `Second-`.
abbrev pub infinite_word : Bytes
infinite_word = b'I' ∷ b'n' ∷ b'f' ∷ b'i' ∷ b'n' ∷ b'i' ∷ b't' ∷ b'e' ∷ []

abbrev pub second_prefix : Bytes
second_prefix = b'S' ∷ b'e' ∷ b'c' ∷ b'o' ∷ b'n' ∷ b'd' ∷ b'-' ∷ []

unfoldable pub read_word : Bytes → Outcome HeaderError DavTimeout
read_word word =
    if word == infinite_word
    then ok infinite
    else if starts_with word second_prefix
    then (elim (parse_uint u32_mod (drop 7 word)) [ none ↦ err invalid | some n ↦ ok (seconds n) ])
    else err invalid

unfoldable pub read_words : List Bytes → Outcome HeaderError (List DavTimeout)
unfolding read_word
read_words [] = ok []
read_words (word ∷ words) =
    and_then (read_word word) λ w. and_then (read_words words) λ v. ok (w ∷ v)

module _ (is_text : Bytes → Bool) where
  unfoldable pub decode : List Bytes → Outcome HeaderError (List DavTimeout)
  unfolding one to_str
  decode values =
      and_then (one values) λ v. and_then (to_str is_text v) λ s. read_words (split_on b',' s)

unfoldable pub show_timeout : DavTimeout → Bytes
show_timeout (seconds n) = second_prefix ++ decimal n
show_timeout infinite = infinite_word

-- `first` starts and stays false, so that each one gets a comma in front.
unfoldable pub show_timeouts : Bool → List DavTimeout → Bytes
unfolding show_timeout
show_timeouts first [] = []
show_timeouts first (t ∷ ts) =
    (if not first then b',' ∷ b' ' ∷ [] else []) ++ (show_timeout t ++ show_timeouts false ts)

module _ (is_value : Bytes → Bool) where
  unfoldable pub encode {κ} : {E : Type κ} → List DavTimeout → Outcome E (List Bytes)
  unfolding show_timeouts encode_text
  encode timeouts = encode_text is_value (show_timeouts false timeouts)
