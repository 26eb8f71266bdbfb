-- ===== src/DavPath/Parent.antt =====
-- The segments of a path, and its parent.
use mathlib.Core.List.{append-nil, append_assoc}
use webdav_handler_rs.Prelude.{
  ℕ, ◌+◌, ◌-◌, ◌<◌, ◌≡◌, refl, sym, ap, ◌∙◌, inl, inr, Bool, true, false, some, List, [], ◌∷◌, ◌++◌,
  map, arith, Bytes, ◌==◌, nat_eq, length, length-append, any, filter, filter-append, drop_last,
  drop_last-snoc, All, All-imp, All-snoc, concat, if◌then◌else◌, Bool-cases, panic,
}
use webdav_handler_rs.DavPath.Segments.{slash, split, cons_head, is_nonempty, segments, join}
use webdav_handler_rs.DavPath.{DavPath, parent, as_bytes}
use webdav_handler_rs.DavPath.Normalize.{absolute}
use webdav_handler_rs.DavPath.Accepted.{HasNoSlash, body, split-body, absolute-nil, absolute-cons}

-- What `segments` gives: no slash, and not empty.
pub record IsSegment (s : Bytes) : Type 0 where
  pub no_slash : HasNoSlash s
  pub nonempty : is_nonempty s ≡ true

filter-segments : (ss : List Bytes) → All IsSegment ss → filter is_nonempty ss ≡ ss
unfolding filter
filter-segments [] h = refl
filter-segments (s ∷ ss) h = rw (h.0.nonempty, filter-segments ss h.1)

filter_tail : (isdir : Bool) → filter is_nonempty (if isdir then [] ∷ [] else []) ≡ []
unfolding filter is_nonempty
filter_tail true = refl
filter_tail false = refl

-- The segments of an absolute path are those that it was made of.
pub segments-absolute :
    (ss : List Bytes) (isdir : Bool) → All IsSegment ss → segments (absolute ss isdir) ≡ ss
unfolding segments
segments-absolute [] isdir h = rw (absolute-nil isdir)
segments-absolute (s ∷ ss) isdir h =
    rw
      (
        absolute-cons s ss isdir,
        split-body [] (s ∷ ss) isdir (unfold any in refl) (All-imp (λ x i. i.no_slash) (s ∷ ss) h),
      )
      (unfold filter is_nonempty in
        filter-append is_nonempty (s ∷ ss) (if isdir then [] ∷ [] else [])
        ∙ rw (filter-segments (s ∷ ss) h, filter_tail isdir, append-nil) refl)

cons_head-HasNoSlash :
    (c : ℕ) (ss : List Bytes)
    → (c == slash) ≡ false
    → All HasNoSlash ss
    → All HasNoSlash (cons_head c ss)
unfolding any
cons_head-HasNoSlash c [] h k = (ground arith, tt)
cons_head-HasNoSlash c (s ∷ ss) h k = (ground arith, k.1)

split-HasNoSlash : (path : Bytes) → All HasNoSlash (split path)
unfolding split any
split-HasNoSlash [] = (refl, tt)
split-HasNoSlash (c ∷ cs) = elim (Bool-cases (c == slash)) [
  | inl cut ↦ rw cut (refl, split-HasNoSlash cs)
  | inr kept ↦ rw kept (cons_head-HasNoSlash c (split cs) kept (split-HasNoSlash cs))
]

filter-IsSegment : (ss : List Bytes) → All HasNoSlash ss → All IsSegment (filter is_nonempty ss)
unfolding filter
filter-IsSegment [] h = tt
filter-IsSegment (s ∷ ss) h = elim (Bool-cases (is_nonempty s)) [
  | inl full ↦ rw full (record { no_slash = h.0; nonempty = full }, filter-IsSegment ss h.1)
  | inr empty ↦ rw empty (filter-IsSegment ss h.1)
]

pub segments-IsSegment : (path : Bytes) → All IsSegment (segments path)
unfolding segments
segments-IsSegment path = filter-IsSegment (split path) (split-HasNoSlash path)

-- Joined with a slash before each segment and one at the end, the segments are a directory.
join-body : (s : Bytes) (ss : List Bytes) → join (s ∷ ss ++ [] ∷ []) ≡ s ++ body ss true
unfolding join concat
join-body s [] = refl
join-body s (t ∷ ss) = rw (join-body t ss) (ap (λ x. s ++ slash ∷ x) (sym (append_assoc t _ _)))

parent-absolute :
    (p : DavPath) (s : Bytes) (ss : List Bytes)
    → drop_last (segments p.fullpath) ≡ s ∷ ss
    → (parent p).fullpath ≡ absolute (s ∷ ss) true
unfolding parent
parent-absolute p s ss e = ground (arith, join-body [] (s ∷ ss), absolute-cons s ss true)

parent-nil : (p : DavPath) → drop_last (segments p.fullpath) ≡ [] → (parent p).fullpath ≡ []
unfolding parent join
parent-nil p e = rw (e, parent)

drop_last-All : (ss : List Bytes) → All IsSegment ss → All IsSegment (drop_last ss)
drop_last-All [] h = tt
drop_last-All (s ∷ []) h = tt
drop_last-All (s ∷ t ∷ ss) h = (h.0, drop_last-All (t ∷ ss) h.1)

-- The parent of a path has the segments of the path but the last one.
pub segments-parent : (p : DavPath) → segments (parent p).fullpath ≡ drop_last (segments p.fullpath)
segments-parent p =
    by_segments (drop_last (segments p.fullpath)) refl
      (drop_last-All (segments p.fullpath) (segments-IsSegment p.fullpath))
  where
    by_segments :
        (ss : List Bytes)
        → drop_last (segments p.fullpath) ≡ ss
        → All IsSegment ss
        → segments (parent p).fullpath ≡ ss
    by_segments [] e h = rw (parent-nil p e) (unfold segments split filter is_nonempty in refl)
    by_segments (s ∷ ss) e h = rw (parent-absolute p s ss e) (segments-absolute (s ∷ ss) true h)

length-concat-snoc :
    (ss : List Bytes) (s : Bytes)
    → length (concat (map (λ t. slash ∷ t) (ss ++ s ∷ [])))
      ≡ length (concat (map (λ t. slash ∷ t) ss)) + 1 + length s
unfolding concat
length-concat-snoc [] s = ground (arith, append-nil s)
length-concat-snoc (t ∷ ss) s = ground (
  arith,
  length-append t (concat (map (λ t. slash ∷ t) ss)),
  length-append t (concat (map (λ t. slash ∷ t) (ss ++ s ∷ []))),
  length-concat-snoc ss s,
)

abbrev slashed : List Bytes → Bytes
slashed ss = concat (map (λ t. slash ∷ t) ss)

length-absolute : (ss : List Bytes) → length (absolute ss true) ≡ length (slashed ss) + 1
unfolding absolute
length-absolute ss = length-append (slashed ss) (slash ∷ [])

-- The parent is at least two bytes shorter.
length-parent-lt :
    (p : DavPath) (ss : List Bytes) (s : Bytes)
    → All IsSegment (ss ++ s ∷ [])
    → p.fullpath ≡ absolute (ss ++ s ∷ []) true
    → length (parent p).fullpath + 1 < length p.fullpath
length-parent-lt p ss s h e = by_segments ss refl
  where
    dropped : drop_last (segments p.fullpath) ≡ ss
    dropped = rw (e, segments-absolute (ss ++ s ∷ []) true h) (drop_last-snoc ss s)

    long : length p.fullpath ≡ length (slashed ss) + 1 + length s + 1
    long = rw e (omega (arith, length-absolute (ss ++ s ∷ []), length-concat-snoc ss s))

    some_length : 0 < length s
    some_length =
        let full : is_nonempty s ≡ true = (All-snoc IsSegment ss s h).nonempty in
        unfold is_nonempty in ground arith

    by_segments : (ts : List Bytes) → ss ≡ ts → length (parent p).fullpath + 1 < length p.fullpath
    by_segments [] q = rw (parent-nil p (dropped ∙ q)) (omega (arith, long, some_length))
    by_segments (t ∷ ts) q =
        rw (parent-absolute p t ts (dropped ∙ q)) (
          omega
            (arith, long, some_length, length-absolute (t ∷ ts), ap (λ x. length (slashed x)) q))

-- The parent of a path that is its prefix and a slash lies outside the prefix: to read it panics.
pub as_bytes-parent_of_prefix :
    (p : DavPath) (ss : List Bytes) (s : Bytes)
    → All IsSegment (ss ++ s ∷ [])
    → p.fullpath ≡ absolute (ss ++ s ∷ []) true
    → p.pfxlen ≡ some (length p.fullpath - 1)
    → as_bytes {E = Unit {0}} (parent p) ≡ panic
unfolding as_bytes parent
as_bytes-parent_of_prefix p ss s h e pfx = ground (arith, length-parent-lt p ss s h e)
