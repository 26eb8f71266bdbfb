-- ===== src/DavPath/Accepted.antt =====
-- Paths that `normalize_path` takes, and what becomes of them.
use mathlib.Core.Path.{ap₂}
use mathlib.Core.List.{reverse, reverse_aux, reverse-reverse, append-nil, append_assoc}
use webdav_handler_rs.Prelude.{
  ℕ, ◌≡◌, refl, sym, ◌∙◌, Bool, true, false, ◌||◌, List, [], ◌∷◌, ◌++◌, map, arith, Bytes, ◌==◌,
  nat_eq, list_eq, list_beq, ltb, any, any-append, All, All-imp, concat, if◌then◌else◌, ok,
}
use webdav_handler_rs.DavPath.Segments.{slash, split, ends_with_slash, starts_with}
use webdav_handler_rs.DavPath.{cut_query, push_piece, push_pieces, render, normalize_path}
use webdav_handler_rs.DavPath.Normalize.{absolute, stack, IsSafe, render-stack}

abbrev pub is_unprintable : ℕ → Bool
is_unprintable x = ltb x 32 || ltb 126 x

abbrev pub is_query : ℕ → Bool
is_query x = x == b'?' || x == b'#'

-- A segment as it may stand in a URL: printable, with no byte that ends a segment or the path, and
-- not empty, `.` or `..`.
pub record IsRaw (s : Bytes) : Type 0 where
  pub printable : any is_unprintable s ≡ false
  pub no_query : any is_query s ≡ false
  pub no_slash : any (λ x. x == slash) s ≡ false
  pub not_empty : (s == []) ≡ false
  pub not_dot : (s == b'.' ∷ []) ≡ false
  pub not_dotdot : (s == b'.' ∷ b'.' ∷ []) ≡ false

abbrev pub HasNoSlash : Bytes → Type 0
HasNoSlash s = any (λ x. x == slash) s ≡ false

split_piece : (s : Bytes) → any (λ x. x == slash) s ≡ false → split s ≡ s ∷ []
unfolding split any
split_piece [] h = refl
split_piece (c ∷ s) h = ground (arith, split_piece s)

pub split-append_slash :
    (s rest : Bytes) → any (λ x. x == slash) s ≡ false → split (s ++ slash ∷ rest) ≡ s ∷ split rest
unfolding split any
split-append_slash [] rest h = refl
split-append_slash (c ∷ s) rest h = ground (arith, split-append_slash s rest)

cut_query-plain : (s : Bytes) → any is_query s ≡ false → cut_query s ≡ ok s
unfolding cut_query any
cut_query-plain [] h = refl
cut_query-plain (c ∷ s) h = ground (arith, cut_query-plain s)

-- The bytes of an absolute path satisfy what the slash and those of its segments do not.
any-absolute :
    (p : ℕ → Bool) (ss : List Bytes) (isdir : Bool)
    → p slash ≡ false
    → All (λ s. any p s ≡ false) ss
    → any p (absolute ss isdir) ≡ false
unfolding absolute any concat
any-absolute p ss isdir h all = rw any-append (ground (arith, any-concat ss all))
  where
    any-concat :
        (ts : List Bytes)
        → All (λ s. any p s ≡ false) ts
        → any p (concat (map (λ s. slash ∷ s) ts)) ≡ false
    any-concat [] k = refl
    any-concat (t ∷ ts) k =
        ground (arith, any-append p t (concat (map (λ s. slash ∷ s) ts)), any-concat ts k.1, h)

-- The path after its first byte: segments with a slash before each, and one at the end of a
-- directory.
abbrev pub body : List Bytes → Bool → Bytes
body ss isdir = concat (map (λ s. slash ∷ s) ss) ++ (if isdir then slash ∷ [] else [])

abbrev pub AllRaw : List Bytes → Type 0
AllRaw = All IsRaw

body-cons :
    (t : Bytes) (ts : List Bytes) (isdir : Bool) → body (t ∷ ts) isdir ≡ slash ∷ t ++ body ts isdir
unfolding concat
body-cons t ts isdir = rw append_assoc

pub split-body :
    (s : Bytes) (ss : List Bytes) (isdir : Bool)
    → any (λ x. x == slash) s ≡ false
    → All HasNoSlash ss
    → split (s ++ body ss isdir) ≡ s ∷ ss ++ (if isdir then [] ∷ [] else [])
unfolding concat
split-body s [] true h k = split-append_slash s [] h ∙ (unfold split in refl)
split-body s [] false h k = rw append-nil (split_piece s h)
split-body s (t ∷ ts) isdir h k =
    rw
      (
        body-cons t ts isdir,
        split-append_slash s (t ++ body ts isdir) h,
        split-body t ts isdir k.0 k.1,
      )
      refl

ends_with_slash-append :
    (s : Bytes) (c : ℕ) (rest : Bytes)
    → ends_with_slash (s ++ c ∷ rest) ≡ ends_with_slash (c ∷ rest)
unfolding ends_with_slash
ends_with_slash-append [] c rest = refl
ends_with_slash-append (d ∷ []) c rest = refl
ends_with_slash-append (d ∷ d' ∷ s) c rest = ends_with_slash-append (d' ∷ s) c rest

ends_with_slash-no_slash : (s : Bytes) → any (λ x. x == slash) s ≡ false → ends_with_slash s ≡ false
unfolding ends_with_slash any
ends_with_slash-no_slash [] h = refl
ends_with_slash-no_slash (c ∷ []) h = ground arith
ends_with_slash-no_slash (c ∷ d ∷ s) h = ends_with_slash-no_slash (d ∷ s) (ground arith)

ends_with_slash-body :
    (s : Bytes) (ss : List Bytes) (isdir : Bool)
    → IsRaw s
    → AllRaw ss
    → ends_with_slash (s ++ body ss isdir) ≡ isdir
unfolding concat
ends_with_slash-body s [] true h k =
    ends_with_slash-append s slash [] ∙ (unfold ends_with_slash in refl)
ends_with_slash-body s [] false h k = rw append-nil (ends_with_slash-no_slash s h.no_slash)
ends_with_slash-body s ([] ∷ ts) isdir h k = absurd (unfold list_beq in ground arith)
ends_with_slash-body s ((c ∷ t) ∷ ts) isdir h k = rw (body-cons (c ∷ t) ts isdir) (
    ends_with_slash-append s slash ((c ∷ t) ++ body ts isdir)
    ∙ ends_with_slash-append (slash ∷ []) c (t ++ body ts isdir)
    ∙ ends_with_slash-body (c ∷ t) ts isdir k.0 k.1)

pub absolute-nil : (isdir : Bool) → absolute [] isdir ≡ slash ∷ []
unfolding absolute concat
absolute-nil true = refl
absolute-nil false = refl

pub absolute-cons :
    (s : Bytes) (ss : List Bytes) (isdir : Bool) → absolute (s ∷ ss) isdir ≡ body (s ∷ ss) isdir
unfolding absolute
absolute-cons s ss true = refl
absolute-cons s ss false = ground arith

starts_with-absolute :
    (ss : List Bytes) (isdir : Bool) → starts_with (absolute ss isdir) (slash ∷ []) ≡ true
unfolding starts_with concat
starts_with-absolute [] isdir = rw (absolute-nil isdir)
starts_with-absolute (s ∷ ss) isdir = rw (absolute-cons s ss isdir)

ends_with_slash-absolute :
    (c : ℕ) (s : Bytes) (ss : List Bytes) (isdir : Bool)
    → AllRaw ((c ∷ s) ∷ ss)
    → ends_with_slash (absolute ((c ∷ s) ∷ ss) isdir) ≡ isdir
ends_with_slash-absolute c s ss isdir h =
    rw (absolute-cons (c ∷ s) ss isdir, body-cons (c ∷ s) ss isdir)
      (ends_with_slash-append (slash ∷ []) c (s ++ body ss isdir)
        ∙ ends_with_slash-body (c ∷ s) ss isdir h.0 h.1)

module _ (decode : Bytes → Bytes) where
  push_piece-IsRaw :
      (v : List Bytes) (s : Bytes)
      → IsRaw s
      → IsSafe (decode s)
      → push_piece decode v s ≡ ok (s ∷ (slash ∷ []) ∷ v)
  unfolding push_piece
  push_piece-IsRaw v s h safe = ground arith

  push_piece-empty : (v : List Bytes) → push_piece decode v [] ≡ ok v
  unfolding push_piece list_beq
  push_piece-empty v = refl

  push_pieces-raw :
      (acc ss rest : List Bytes)
      → AllRaw ss
      → All (λ s. IsSafe (decode s)) ss
      → push_pieces decode (stack acc) (ss ++ rest)
        ≡ push_pieces decode (stack (reverse_aux ss acc)) rest
  unfolding push_pieces stack
  push_pieces-raw acc [] rest h safe = refl
  push_pieces-raw acc (s ∷ ss) rest h safe =
      rw (push_piece-IsRaw (stack acc) s h.0 safe.0) (push_pieces-raw (s ∷ acc) ss rest h.1 safe.1)

  push_pieces-tail :
      (v : List Bytes) (isdir : Bool) → push_pieces decode v (if isdir then [] ∷ [] else []) ≡ ok v
  unfolding push_pieces
  push_pieces-tail v true = rw (push_piece-empty v)
  push_pieces-tail v false = refl

  -- All the segments of an absolute path are pushed.
  push_pieces-absolute :
      (ss : List Bytes) (isdir : Bool)
      → AllRaw ss
      → All (λ s. IsSafe (decode s)) ss
      → push_pieces decode [] (split (absolute ss isdir)) ≡ ok (stack (reverse ss))
  unfolding absolute stack
  push_pieces-absolute [] isdir h safe =
      rw (absolute-nil isdir)
        (unfold split push_pieces stack in rw (push_piece-empty []) (rw (push_piece-empty [])))
  push_pieces-absolute (s ∷ ss) isdir h safe =
      rw
        (
          absolute-cons s ss isdir,
          split-body [] (s ∷ ss) isdir (unfold any in refl)
              (All-imp (λ x r. r.no_slash) (s ∷ ss) h),
        )
        (unfold push_pieces in
          rw (push_piece-empty []) (
            push_pieces-raw [] (s ∷ ss) (if isdir then [] ∷ [] else []) h safe
            ∙ push_pieces-tail (stack (reverse (s ∷ ss))) isdir))

  render-absolute :
      (ss : List Bytes) (isdir : Bool)
      → decode (slash ∷ []) ≡ slash ∷ []
      → AllRaw ss
      → render decode (ends_with_slash (absolute ss isdir)) (stack (reverse ss))
        ≡ absolute (map decode ss) isdir
  render-absolute [] isdir plain h =
      render-stack decode plain (ends_with_slash (absolute [] isdir)) []
      ∙ absolute-nil (ends_with_slash (absolute [] isdir))
      ∙ sym (absolute-nil isdir)
  render-absolute ([] ∷ ss) isdir plain h =
      absurd (unfold list_beq in ground (arith, h.0.not_empty))
  render-absolute ((c ∷ s) ∷ ss) isdir plain h =
      render-stack decode plain (ends_with_slash (absolute ((c ∷ s) ∷ ss) isdir))
        (reverse ((c ∷ s) ∷ ss))
      ∙ ap₂ (λ ts d. absolute (map decode ts) d) (reverse-reverse ((c ∷ s) ∷ ss))
          (ends_with_slash-absolute c s ss isdir h)

  -- If the decoder leaves a slash alone, then `normalize_path` accepts an absolute path made of
  -- raw segments whose decoded bytes hold neither a NUL byte nor a slash, and decodes each of
  -- them. Raw are segments of printable bytes without `?`, `#` and slash that are neither empty
  -- nor `.` nor `..` before the decoding; what they decode to may be `..`.
  pub normalize_path-raw :
      (ss : List Bytes) (isdir : Bool)
      → decode (slash ∷ []) ≡ slash ∷ []
      → AllRaw ss
      → All (λ s. IsSafe (decode s)) ss
      → normalize_path decode (absolute ss isdir) ≡ ok (absolute (map decode ss) isdir)
  unfolding normalize_path
  normalize_path-raw ss isdir plain h safe =
      rw
        (
          any-absolute is_unprintable ss isdir refl (All-imp (λ s r. r.printable) ss h),
          cut_query-plain (absolute ss isdir)
              (any-absolute is_query ss isdir refl (All-imp (λ s r. r.no_query) ss h)),
          starts_with-absolute ss isdir,
          push_pieces-absolute ss isdir h safe,
        )
        (rw (render-absolute ss isdir plain h))
