-- ===== src/DavHeaders/Scanner/Progress.antt =====
-- `get_token` of src/davheaders.rs: what it leaves of its input.
use webdav_handler_rs.Prelude.{
  ℕ, zero, suc, ◌-◌, ◌≤◌, ◌<◌, ◌≡◌, refl, ap, ◌∙◌, Bool, true, false, not, ◌&&◌, [], ◌∷◌, Bytes,
  ◌==◌, nat_eq, list_eq, length, drop, arith, if◌then◌else◌, Outcome, ok, err, panic, out_of_fuel,
  and_then, Ensures, Ensures-imp, Ensures-if, Ensures-and_then,
}
use webdav_handler_rs.DavPath.Segments.{starts_with}
use webdav_handler_rs.Text.{contains, slice, is_utf8}
use webdav_handler_rs.Conditional.{ETag}
use webdav_handler_rs.DavHeaders.{HeaderError, invalid}
use webdav_handler_rs.DavHeaders.Tag
use webdav_handler_rs.DavHeaders.Tag.{quote}
use webdav_handler_rs.DavHeaders.Scanner.{
  IfToken, list_open, list_close, not_, word, pointy, etag, end, is_whitespace, trim_left, not_word,
  scan_from, scan_until, ends_word, word_from, scan_word, from_utf8, token_at, get_token,
}

length-trim_left : (buf : Bytes) → length (trim_left buf) ≤ length buf
unfolding trim_left
length-trim_left [] = omega arith
length-trim_left (c ∷ cs) = ground (arith, length-trim_left cs)

-- Fewer bytes are left than there were.
abbrev Shorter : Bytes → Bytes × Bytes → Type 0
Shorter s r = length r.1 < length s

scan_from-Shorter : (c : ℕ) (quoted : Bool) (s : Bytes) → Ensures (Shorter s) (scan_from c quoted s)
unfolding scan_from
scan_from-Shorter c quoted [] = tt
scan_from-Shorter c quoted (x ∷ xs) =
    Ensures-if (Shorter (x ∷ xs)) (not quoted && x == c) (ok ([], xs)) _ (λ _. omega arith)
      λ _.
        Ensures-if (Shorter (x ∷ xs)) (is_whitespace x) (err invalid) _ (λ _. tt)
          λ _.
            let flag = if x == quote then not quoted else quoted in
            Ensures-and_then (Shorter xs) (Shorter (x ∷ xs)) (scan_from c flag xs)
              (λ r. ok (x ∷ r.0, r.1)) (scan_from-Shorter c flag xs) (λ r h. omega (arith, h))

scan_until-Shorter : (c : ℕ) (s : Bytes) → Ensures (Shorter s) (scan_until c s)
unfolding scan_until
scan_until-Shorter c [] = tt
scan_until-Shorter c (b ∷ bs) =
    Ensures-imp (Shorter bs) (Shorter (b ∷ bs)) (scan_from c false bs)
      (scan_from-Shorter c false bs) (λ r h. omega (arith, h))

length-word_from : (s : Bytes) → length (word_from s).1 ≤ length s
unfolding word_from
length-word_from [] = omega arith
length-word_from (c ∷ cs) = ground (arith, length-word_from cs)

scan_word-Shorter : (c : ℕ) (cs : Bytes) → Ensures (Shorter (c ∷ cs)) (scan_word (c ∷ cs))
unfolding scan_word
scan_word-Shorter c cs =
    Ensures-if (Shorter (c ∷ cs)) (ends_word c) (err invalid) _ (λ _. tt)
      λ inside. word_shorter inside
  where
    word_shorter : ends_word c ≡ false → length (word_from (c ∷ cs)).1 < length (c ∷ cs)
    word_shorter inside = unfold word_from in ground (arith, length-word_from cs)

length-drop : (n : ℕ) (s : Bytes) → length (drop n s) ≤ length s
length-drop zero s = omega arith
length-drop (suc n) [] = omega arith
length-drop (suc n) (c ∷ cs) = omega (arith, length-drop n cs)

from_utf8-Ensures : (s : Bytes) → Ensures (λ _. Unit {0}) (from_utf8 s)
unfolding from_utf8
from_utf8-Ensures s = Ensures-if _ (is_utf8 s) _ _ (λ _. tt) (λ _. tt)

-- `from_str` keeps the text, and reads it again.
abbrev pub IsRead : ETag → Type 0
IsRead e = Tag.from_str e.tag ≡ ok e

slice-Ensures : (s : Bytes) → Ensures {E = HeaderError} (λ _. Unit {0}) (slice s 1 (length s - 1))
unfolding slice
slice-Ensures s = Ensures-if (λ _. Unit {0}) _ (ok _) panic (λ _. tt) (λ _. tt)

read_quoted-Ensures :
    (t : Bytes) (weak : Bool) (s : Bytes) → Ensures (λ e. e.tag ≡ t) (Tag.read_quoted t weak s)
unfolding Tag.read_quoted
read_quoted-Ensures t weak s =
    let P : ETag → Type 0 = λ e. e.tag ≡ t in
    Ensures-if P _ _ (err invalid)
      (λ _.
        Ensures-and_then (λ _. Unit) P (slice s 1 (length s - 1)) _ (slice-Ensures s)
          (λ inner _.
            Ensures-if P (contains inner quote) (err invalid) (ok (record { tag = t; weak = weak }))
              (λ _. tt) (λ _. refl)))
      (λ _. tt)

from_str-Ensures : (t : Bytes) → Ensures IsRead (Tag.from_str t)
from_str-Ensures t = by_outcome (Tag.from_str t) refl (
    unfold Tag.from_str in
    Ensures-if (λ e. e.tag ≡ t) _ _ _ (λ _. read_quoted-Ensures t true (drop 2 t))
      (λ _. read_quoted-Ensures t false t))
  where
    by_outcome :
        (o : Outcome HeaderError ETag)
        → Tag.from_str t ≡ o
        → Ensures (λ e. e.tag ≡ t) o
        → Ensures IsRead o
    by_outcome (ok e) h k = ap Tag.from_str k ∙ h
    by_outcome (err x) h k = tt
    by_outcome panic h k = tt
    by_outcome out_of_fuel h k = k

-- What `get_token` returns: a token that takes a byte at least, or the end; a tag as it was read.
abbrev pub IsTokenOf : Bytes → IfToken × Bytes → Type 0
IsTokenOf buf (etag e, rest) = IsRead e × (length rest < length buf)
IsTokenOf buf (end, rest) = Unit
IsTokenOf buf (tok, rest) = length rest < length buf

module _ (c : ℕ) (cs : Bytes) where
  pointy_token :
      Ensures
        (IsTokenOf (c ∷ cs))
        (and_then (scan_until b'>' (c ∷ cs)) λ r. and_then (from_utf8 r.0) λ s. ok (pointy s, r.1))
  pointy_token =
      Ensures-and_then (Shorter (c ∷ cs)) (IsTokenOf (c ∷ cs)) _ _
        (scan_until-Shorter b'>' (c ∷ cs))
        λ r h.
          Ensures-and_then (λ _. Unit) (IsTokenOf (c ∷ cs)) _ _ (from_utf8-Ensures r.0) λ s _. h

  etag_token : Ensures (IsTokenOf (c ∷ cs)) (
      and_then
        (scan_until b']' (c ∷ cs))
        λ r. and_then (from_utf8 r.0) λ s. and_then (Tag.from_str s) λ t. ok (etag t, r.1))
  etag_token =
      Ensures-and_then (Shorter (c ∷ cs)) (IsTokenOf (c ∷ cs)) _ _
        (scan_until-Shorter b']' (c ∷ cs))
        λ r h.
          Ensures-and_then (λ _. Unit) (IsTokenOf (c ∷ cs)) _ _ (from_utf8-Ensures r.0)
            λ s _.
              Ensures-and_then IsRead (IsTokenOf (c ∷ cs)) _ _ (from_str-Ensures s) λ t k. (k, h)

  word_token : Ensures (IsTokenOf (c ∷ cs)) (
      and_then (scan_word (c ∷ cs)) λ r.
        if r.0 == not_word then ok (not_, r.1) else and_then (from_utf8 r.0) λ s. ok (word s, r.1))
  word_token =
      Ensures-and_then (Shorter (c ∷ cs)) (IsTokenOf (c ∷ cs)) _ _ (scan_word-Shorter c cs) λ r h.
        Ensures-if (IsTokenOf (c ∷ cs)) (r.0 == not_word) _ _ (λ _. h)
          λ _.
            Ensures-and_then (λ _. Unit) (IsTokenOf (c ∷ cs)) _ _ (from_utf8-Ensures r.0) λ s _. h

token_at-IsTokenOf : (buf : Bytes) → Ensures (IsTokenOf buf) (token_at buf)
unfolding token_at
token_at-IsTokenOf [] = tt
token_at-IsTokenOf (c ∷ cs) =
    let P : IfToken × Bytes → Type 0 = IsTokenOf (c ∷ cs) in
    Ensures-if P (c == b'(') _ _ (λ _. omega arith)
      λ _.
        Ensures-if P (c == b')') _ _ (λ _. omega arith)
          λ _.
            Ensures-if P (starts_with (c ∷ cs) not_word) _ _ (λ _. omega (arith, length-drop 2 cs))
              λ _.
                Ensures-if P (c == b'<') _ _ (λ _. pointy_token c cs)
                  λ _. Ensures-if P (c == b'[') _ _ (λ _. etag_token c cs) λ _. word_token c cs

pub get_token-IsTokenOf : (buf : Bytes) → Ensures (IsTokenOf buf) (get_token buf)
unfolding get_token
get_token-IsTokenOf buf =
    Ensures-imp (IsTokenOf (trim_left buf)) (IsTokenOf buf) (token_at (trim_left buf))
      (token_at-IsTokenOf (trim_left buf)) longer
  where
    longer : (t : IfToken × Bytes) → IsTokenOf (trim_left buf) t → IsTokenOf buf t
    longer (list_open, rest) h = omega (arith, h, length-trim_left buf)
    longer (list_close, rest) h = omega (arith, h, length-trim_left buf)
    longer (not_, rest) h = omega (arith, h, length-trim_left buf)
    longer (word s, rest) h = omega (arith, h, length-trim_left buf)
    longer (pointy s, rest) h = omega (arith, h, length-trim_left buf)
    longer (etag e, rest) h = (h.0, omega (arith, h.1, length-trim_left buf))
    longer (end, rest) h = tt
