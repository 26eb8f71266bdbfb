-- ===== src/DavHeaders/Tag/Made.antt =====
-- `ETag::new` and `ETag::from_str` of src/davheaders.rs.
use webdav_handler_rs.Prelude.{
  ℕ, ◌+◌, ◌-◌, ◌≤◌, ◌≡◌, ◌≢◌, ◌↔◌, ◌⊎◌, refl, sym, ap, ◌∙◌, Bool, true, false, ◌&&◌, [], ◌∷◌, ◌++◌,
  Bytes, nat_eq, some, length, length-append, take, drop, last?, take-length_append, arith,
  if◌then◌else◌, Outcome, ok, err, panic, and_then, Bool-cases, inl, inr,
}
use webdav_handler_rs.DavPath.Segments.{starts_with}
use webdav_handler_rs.Text.{contains, ends_with, slice}
use webdav_handler_rs.Conditional.{ETag}
use webdav_handler_rs.DavHeaders.{HeaderError, invalid}
use webdav_handler_rs.DavHeaders.Tag.{quote, weak_mark, new, read_quoted, from_str}

last-snoc : (s : Bytes) (c : ℕ) → last? (s ++ c ∷ []) ≡ some c
last-snoc [] c = refl
last-snoc (x ∷ []) c = refl
last-snoc (x ∷ y ∷ ys) c = last-snoc (y ∷ ys) c

last-quoted : (t : Bytes) → last? (quote ∷ (t ++ quote ∷ [])) ≡ some quote
last-quoted t = last-snoc (quote ∷ t) quote

slice_lem :
    (s : Bytes) (lo hi : ℕ)
    → lo ≤ hi
    → hi ≤ length s
    → slice {E = HeaderError} s lo hi ≡ ok (take (hi - lo) (drop lo s))
unfolding slice
slice_lem s lo hi h k = ground arith

slice-quoted :
    (t : Bytes)
    → slice {E = HeaderError}
        (quote ∷ (t ++ quote ∷ []))
        1
        (length {A = ℕ} (quote ∷ (t ++ quote ∷ [])) - 1)
      ≡ ok t
slice-quoted t =
    let n : length (t ++ quote ∷ []) ≡ length t + 1 = omega (arith, length-append t (quote ∷ [])) in
    slice_lem (quote ∷ (t ++ quote ∷ [])) 1 (length {A = ℕ} (quote ∷ (t ++ quote ∷ [])) - 1)
      (omega (arith, n)) (omega arith)
    ∙ ap (λ k. ok (take k (t ++ quote ∷ []))) (omega (arith, n))
    ∙ ap ok (take-length_append t (quote ∷ []))

read_quoted-quoted :
    (whole : Bytes) (weak : Bool) (t : Bytes)
    → contains t quote ≡ false
    → read_quoted whole weak (quote ∷ (t ++ quote ∷ [])) ≡ ok (record { tag = whole; weak = weak })
unfolding ends_with read_quoted starts_with
read_quoted-quoted whole weak t h = rw (read_quoted, ends_with_lem, slice-quoted t, h) refl
  where
    ends_with_lem : ends_with (quote ∷ (t ++ quote ∷ [])) quote ≡ true
    ends_with_lem = rw (ends_with, last-quoted t) refl

-- `ETag::new` refuses a text with a quote in it; of any other text it makes a tag that `from_str`
-- reads back.
pub from_str-new :
    (weak : Bool) (t : Bytes)
    → ((contains t quote ≡ true) × (new weak t ≡ err invalid))
      ⊎ ((e : ETag) × (new weak t ≡ ok e) × (from_str e.tag ≡ ok e))
unfolding new from_str starts_with
from_str-new weak t = elim (Bool-cases (contains t quote)) [
  | inl quoted ↦ inl (quoted, rw quoted refl)
  | inr plain ↦ inr (made weak, rw plain refl, read weak plain)
]
  where
    made : Bool → ETag
    made b = record { tag = (if b then weak_mark else []) ++ quote ∷ (t ++ quote ∷ []); weak = b }

    read : (b : Bool) → contains t quote ≡ false → from_str (made b).tag ≡ ok (made b)
    read true plain = read_quoted-quoted (made true).tag true t plain
    read false plain = read_quoted-quoted (made false).tag false t plain

-- The slice between the quotes panics on a lone quote, and only there.
read_quoted-panic :
    (whole : Bytes) (weak : Bool) (s : Bytes) → read_quoted whole weak s ≡ panic → s ≡ quote ∷ []
unfolding read_quoted starts_with
read_quoted-panic whole weak [] h = cc
read_quoted-panic whole weak (c ∷ []) h = ground arith
read_quoted-panic whole weak (c ∷ d ∷ s) h = absurd (
    kept (starts_with (c ∷ d ∷ s) (quote ∷ []) && ends_with (c ∷ d ∷ s) quote)
      (slice (c ∷ d ∷ s) 1 (length {A = ℕ} (c ∷ d ∷ s) - 1))
      (slice_lem (c ∷ d ∷ s) 1 (length {A = ℕ} (c ∷ d ∷ s) - 1) (omega arith) (omega arith)) h)
  where
    kept :
        (b : Bool) (o : Outcome HeaderError Bytes) {inner : Bytes}
        → o ≡ ok inner
        → (if b
            then (and_then {B = ETag} o λ inner.
                if contains inner quote
                then err invalid
                else ok (record { tag = whole; weak = weak }))
            else err invalid)
          ≢ panic
    kept b o e k = ground (arith, e, k)

from_str-plain : (s : Bytes) → starts_with s weak_mark ≡ false → from_str s ≡ read_quoted s false s
unfolding from_str
from_str-plain s plain = rw plain refl

from_str-marked :
    (s : Bytes) → starts_with s weak_mark ≡ true → from_str s ≡ read_quoted s true (drop 2 s)
unfolding from_str
from_str-marked s marked = rw marked refl

marked_lem : (s : Bytes) → starts_with s weak_mark ≡ true → s ≡ weak_mark ++ drop 2 s
unfolding starts_with
marked_lem [] h = cc
marked_lem (c ∷ []) h = ground arith
marked_lem (c ∷ d ∷ s) h = ground arith

-- `ETag::from_str` panics on a lone quote and on one behind `W/`, and on no other text.
pub from_str-panic :
    (t : Bytes) → (from_str t ≡ panic) ↔ ((t ≡ quote ∷ []) ⊎ (t ≡ weak_mark ++ quote ∷ []))
unfolding from_str starts_with
from_str-panic t =
    (only, λ h. elim h [ inl e ↦ ap from_str e ∙ refl | inr e ↦ ap from_str e ∙ refl ])
  where
    only : from_str t ≡ panic → (t ≡ quote ∷ []) ⊎ (t ≡ weak_mark ++ quote ∷ [])
    only h = elim (Bool-cases (starts_with t weak_mark)) [
      | inl marked ↦ inr (
          marked_lem t marked
          ∙ ap (λ s. weak_mark ++ s)
              (read_quoted-panic t true (drop 2 t) (sym (from_str-marked t marked) ∙ h)))
      | inr plain ↦ inl (read_quoted-panic t false t (sym (from_str-plain t plain) ∙ h))
    ]
