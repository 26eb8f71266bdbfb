-- ===== src/DavHeaders/Timeout/RoundTrip.antt =====
-- The header Timeout of src/davheaders.rs, written and decoded.
use webdav_handler_rs.Prelude.{
  ◌+◌, ◌<◌, ◌≡◌, refl, ap, ◌∙◌, Bool, true, false, List, [], ◌∷◌, map, Bytes, ◌==◌, nat_eq, list_eq,
  list_beq, any, any-append, All, arith, if◌then◌else◌, ok, err, and_then,
}
use webdav_handler_rs.DavPath.Segments.{starts_with}
use webdav_handler_rs.Text.{is_digit, split_on, join_with, decimal, contains}
use webdav_handler_rs.Text.Decimal.{any-digits, parse_uint-decimal}
use webdav_handler_rs.Text.Split.{split_on-join}
use webdav_handler_rs.DavHeaders.{invalid, one, to_str}
use webdav_handler_rs.DavHeaders.Timeout.{
  DavTimeout, seconds, infinite, u32_mod, second_prefix, read_word, read_words, decode,
  show_timeout, show_timeouts,
}

abbrev pub IsU32 : DavTimeout → Type 0
IsU32 (seconds n) = n < u32_mod
IsU32 infinite = Unit

read_word-show : (t : DavTimeout) → IsU32 t → read_word (show_timeout t) ≡ ok t
unfolding read_word show_timeout
read_word-show (seconds n) h =
    unfold list_beq starts_with in rw (parse_uint-decimal u32_mod n h) refl
read_word-show infinite h = unfold list_beq in refl

no_comma : (t : DavTimeout) → contains (show_timeout t) b',' ≡ false
unfolding show_timeout any decimal
no_comma (seconds n) =
    any-append (λ x. x == b',') second_prefix (decimal n)
    ∙ rw (any-digits (λ x. x == b',') (λ c d. unfold is_digit in ground (arith, d)) (n + 1) n) refl
no_comma infinite = refl

All-no_comma : (ts : List DavTimeout) → All (λ w. contains w b',' ≡ false) (map show_timeout ts)
All-no_comma [] = tt
All-no_comma (t ∷ ts) = (no_comma t, All-no_comma ts)

read_words-map : (ts : List DavTimeout) → All IsU32 ts → read_words (map show_timeout ts) ≡ ok ts
unfolding read_words
read_words-map [] h = refl
read_words-map (t ∷ ts) h = rw (read_word-show t h.0, read_words-map ts h.1) refl

-- The words with commas between them.
abbrev pub comma_list : List DavTimeout → Bytes
comma_list ts = join_with (b',' ∷ []) (map show_timeout ts)

-- What `encode` writes begins with a comma, or is empty.
read_words-encoded :
    (ts : List DavTimeout) → read_words (split_on b',' (show_timeouts false ts)) ≡ err invalid
unfolding read_words show_timeouts split_on read_word
read_words-encoded [] = unfold list_beq starts_with in refl
read_words-encoded (t ∷ ts) = unfold list_beq starts_with in refl

-- Timeouts below 2^32 seconds, written as text with commas between them, are decoded to the same
-- timeouts; as `encode` writes them, with a comma and a space in front of each one, they are
-- refused.
pub decode-comma_list :
    (is_text : Bytes → Bool) (t : DavTimeout) (ts : List DavTimeout)
    → All IsU32 (t ∷ ts)
    → is_text (comma_list (t ∷ ts)) ≡ true
    → (decode is_text (comma_list (t ∷ ts) ∷ []) ≡ ok (t ∷ ts))
      × (decode is_text (show_timeouts false (t ∷ ts) ∷ []) ≡ err invalid)
unfolding decode one to_str
decode-comma_list is_text t ts h text = (
  rw text (
      ap read_words
        (split_on-join b',' (show_timeout t) (map show_timeout ts) (All-no_comma (t ∷ ts)))
      ∙ read_words-map (t ∷ ts) h),
  refused (is_text (show_timeouts false (t ∷ ts))),
)
  where
    refused :
        (b : Bool)
        → and_then
            (if b then ok (show_timeouts false (t ∷ ts)) else err invalid)
            (λ s. read_words (split_on b',' s))
          ≡ err invalid
    refused true = read_words-encoded (t ∷ ts)
    refused false = refl
