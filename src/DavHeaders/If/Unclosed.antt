-- ===== src/DavHeaders/If/Unclosed.antt =====
-- A header If of src/davheaders.rs that is cut off inside a url or a token.
use webdav_handler_rs.Prelude.{
  ℕ, suc, ◌+◌, ap, ◌∙◌, ◌≡◌, refl, Bool, false, not, ◌||◌, Option, [], ◌∷◌, Bytes, ◌==◌, nat_eq,
  any, length, arith, if◌then◌else◌, panic,
}
use webdav_handler_rs.DavPath.Segments.{starts_with}
use webdav_handler_rs.DavHeaders.{one}
use webdav_handler_rs.DavHeaders.Tag.{quote}
use webdav_handler_rs.DavHeaders.Scanner.{
  is_whitespace, trim_left, scan_from, scan_until, token_at, get_token,
}
use webdav_handler_rs.DavHeaders.If.{run, initial, decode}

scan_from-unclosed :
    (c : ℕ) (quoted : Bool) (s : Bytes)
    → any (λ x. x == c || is_whitespace x) s ≡ false
    → scan_from c quoted s ≡ panic
unfolding scan_from any
scan_from-unclosed c quoted [] h = refl
scan_from-unclosed c quoted (x ∷ xs) h =
    ground (arith, scan_from-unclosed c (if x == quote then not quoted else quoted) xs)

-- An If header that begins with `<` and goes on with neither `>` nor white space panics: the scan
-- runs past the end of the value.
pub decode-unclosed :
    (parse_url : Bytes → Option Bytes) (s : Bytes)
    → any (λ x. x == b'>' || is_whitespace x) s ≡ false
    → decode parse_url ((b'<' ∷ s) ∷ []) ≡ panic
unfolding decode one
decode-unclosed parse_url s h = ap (λ n. run parse_url n initial (b'<' ∷ s)) more ∙ first
  where
    more : length {A = ℕ} (b'<' ∷ s) + 2 ≡ suc (length s + 2)
    more = omega arith

    token : get_token (b'<' ∷ s) ≡ panic
    token =
        unfold get_token trim_left is_whitespace token_at starts_with scan_until in
        rw (scan_from-unclosed b'>' false s h) refl

    first : run parse_url (suc (length s + 2)) initial (b'<' ∷ s) ≡ panic
    first = unfold run in rw token refl
