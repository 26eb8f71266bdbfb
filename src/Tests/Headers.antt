-- ===== src/Tests/Headers.antt =====
-- Header values, decoded.
use webdav_handler_rs.Prelude.{
  ◌≡◌, ◌≢◌, ◌↔◌, ◌⊎◌, refl, Bool, true, false, Option, some, ◌||◌, ◌==◌, nat_eq, List, [], ◌∷◌,
  ◌++◌, map, Bytes, any, ok, err, panic, Ensures, arith,
}
use webdav_handler_rs.Text.{ends_with, slice, lead, utf8_from}
use webdav_handler_rs.DavPath.Segments.{starts_with}
use webdav_handler_rs.Conditional.{ETag, IfItem, state_token}
use webdav_handler_rs.DavHeaders.{invalid}
use webdav_handler_rs.DavHeaders.Tag.{quote, weak_mark, from_str}
use webdav_handler_rs.DavHeaders.Tag.Made.{from_str-panic}
use webdav_handler_rs.DavHeaders.Timeout
use webdav_handler_rs.DavHeaders.Timeout.{DavTimeout, seconds, infinite, show_timeouts}
use webdav_handler_rs.DavHeaders.Timeout.RoundTrip.{comma_list, decode-comma_list}
use webdav_handler_rs.DavHeaders.UpdateRange
use webdav_handler_rs.DavHeaders.UpdateRange.{from_to, append, show}
use webdav_handler_rs.DavHeaders.UpdateRange.RoundTrip.{written, decode-written}
use webdav_handler_rs.DavHeaders.Scanner.{is_whitespace}
use webdav_handler_rs.DavHeaders.If
use webdav_handler_rs.DavHeaders.If.Sound.{IsDecoded, decode-IsDecoded}
use webdav_handler_rs.DavHeaders.If.Written.{Written, write, fits, IsWritten, meaning}
use webdav_handler_rs.DavHeaders.If.RoundTrip.{decode-write}
use webdav_handler_rs.DavHeaders.If.Unclosed.{decode-unclosed}

abbrev all_text : Bytes → Bool
all_text v = true

-- `W/"x"`
abbrev tag_x : ETag
tag_x = record { tag = weak_mark ++ quote ∷ b'x' ∷ quote ∷ []; weak = true }

-- `u:1`
abbrev token_u : Bytes
token_u = b'u' ∷ b':' ∷ b'1' ∷ []

-- `<u:1>(Not<u:1>[W/"x"])`
abbrev written_list : Written
written_list = record {
  url = some token_u;
  conditions =
      record { negated = true; item = state_token token_u }
      ∷ record { negated = false; item = IfItem.etag tag_x }
      ∷ [];
}

abbrev parse_all : Bytes → Option Bytes
parse_all u = some u

written_list-IsWritten : IsWritten parse_all written_list
unfolding fits is_whitespace lead utf8_from any from_str starts_with ends_with slice
written_list-IsWritten = record {
  url = (record { fitting = refl; utf8 = refl }, λ e. cc);
  nonempty = λ e. cc;
  writable = (
    (record { fitting = refl; utf8 = refl }, refl),
    ((record { fitting = refl; utf8 = refl }, refl), tt),
  );
}

decode-write_example :
    If.decode parse_all (write (written_list ∷ []) ∷ [])
    ≡ ok (map (meaning parse_all) (written_list ∷ []))
decode-write_example =
    decode-write parse_all (written_list ∷ []) (written_list-IsWritten, tt) (λ e. cc)

decode-IsDecoded_example : Ensures IsDecoded (If.decode parse_all (write (written_list ∷ []) ∷ []))
decode-IsDecoded_example = decode-IsDecoded parse_all (write (written_list ∷ []) ∷ [])

no_end : any (λ x. x == b'>' || is_whitespace x) token_u ≡ false
unfolding any is_whitespace
no_end = refl

decode-unclosed_example : If.decode parse_all ((b'<' ∷ token_u) ∷ []) ≡ panic
decode-unclosed_example = decode-unclosed parse_all token_u no_end

decode-written_example :
    (UpdateRange.decode all_text (written (from_to 3 14) ∷ []) ≡ ok (from_to 3 14))
    × (from_to 3 14 ≢ append → UpdateRange.decode all_text (show (from_to 3 14) ∷ []) ≡ err invalid)
decode-written_example = decode-written all_text (from_to 3 14) (omega arith, omega arith) refl

abbrev timeouts : List DavTimeout
timeouts = infinite ∷ seconds 3600 ∷ []

decode-comma_list_example :
    (Timeout.decode all_text (comma_list timeouts ∷ []) ≡ ok timeouts)
    × (Timeout.decode all_text (show_timeouts false timeouts ∷ []) ≡ err invalid)
decode-comma_list_example =
    decode-comma_list all_text infinite (seconds 3600 ∷ []) (tt, (omega arith, tt)) refl

from_str-panic_example : (from_str (quote ∷ []) ≡ panic) ↔ (
    (◌≡◌ {A = Bytes} (quote ∷ []) (quote ∷ []))
    ⊎ (◌≡◌ {A = Bytes} (quote ∷ []) (weak_mark ++ quote ∷ [])))
from_str-panic_example = from_str-panic (quote ∷ [])
