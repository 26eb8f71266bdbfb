-- ===== src/DavPath/Prefix.antt =====
-- The prefix of a path: what `set_prefix` hides, and what `as_bytes` shows after it.
use mathlib.Core.List.{append-nil, append_assoc}
use webdav_handler_rs.Prelude.{
  ℕ, ◌≡◌, ◌≢◌, refl, sym, ap, subst, ◌∙◌, ◌⊎◌, inl, inr, true, false, not, ◌||◌, some, [], ◌∷◌,
  ◌++◌, arith, Bytes, ◌==◌, nat_eq, length, length-append, drop, drop_last, drop_last-snoc,
  get_elem?, if◌then◌else◌, Bool-cases, ok, err,
}
use webdav_handler_rs.DavPath.Segments.{slash, starts_with, ends_with_slash}
use webdav_handler_rs.DavPath.{DavPath, ParseError, set_prefix, as_bytes}

pub starts_with-append :
    (path pfx : Bytes) → starts_with path pfx ≡ true → (rest : Bytes) × (path ≡ pfx ++ rest)
unfolding starts_with
starts_with-append path [] h = (path, refl)
starts_with-append [] (p ∷ ps) h = absurd (ground arith)
starts_with-append (c ∷ cs) (p ∷ ps) h =
    let (rest, e) = starts_with-append cs ps (ground arith) in (rest, ground arith)

pub starts_with_self : (pfx rest : Bytes) → starts_with (pfx ++ rest) pfx ≡ true
unfolding starts_with
starts_with_self [] [] = refl
starts_with_self [] (c ∷ rest) = refl
starts_with_self (p ∷ ps) rest = ground (arith, starts_with_self ps rest)

ends_with_slash-drop_last : (s : Bytes) → ends_with_slash s ≡ true → s ≡ drop_last s ++ slash ∷ []
unfolding ends_with_slash
ends_with_slash-drop_last [] h = absurd (ground arith)
ends_with_slash-drop_last (c ∷ []) h = ground arith
ends_with_slash-drop_last (c ∷ d ∷ s) h = ap (◌∷◌ c) (ends_with_slash-drop_last (d ∷ s) h)

ends_with_slash-snoc : (s : Bytes) → ends_with_slash (s ++ slash ∷ []) ≡ true
unfolding ends_with_slash
ends_with_slash-snoc [] = refl
ends_with_slash-snoc (c ∷ []) = refl
ends_with_slash-snoc (c ∷ d ∷ s) = ends_with_slash-snoc (d ∷ s)

drop-append : (a b : Bytes) → drop (length a) (a ++ b) ≡ b
drop-append [] b = refl
drop-append (c ∷ a) b = drop-append a b

get_elem?-append : (a : Bytes) (c : ℕ) (b : Bytes) → get_elem? (a ++ c ∷ b) (length a) ≡ some c
get_elem?-append [] c b = refl
get_elem?-append (d ∷ a) c b = get_elem?-append a c b

-- The prefix without the slash at its end.
abbrev pub prefix_bytes : Bytes → Bytes
prefix_bytes pfx = if ends_with_slash pfx then drop_last pfx else pfx

-- With the length of `a` as its prefix, a path that begins with `a` shows the rest.
pub as_bytes-append {κ} :
    {E : Type κ} (a rest : Bytes)
    → as_bytes {E = E} (record { fullpath = a ++ rest; pfxlen = some (length a) }) ≡ ok rest
unfolding as_bytes
as_bytes-append a rest = ground (arith, length-append a rest, drop-append a rest)

-- A prefix that ends in a slash hides all but that slash.
set_prefix-slash :
    (n : DavPath) (pre rest : Bytes)
    → n.fullpath ≡ pre ++ slash ∷ rest
    → set_prefix n (pre ++ slash ∷ []) ≡ ok (record n { pfxlen = some (length pre) })
unfolding set_prefix
set_prefix-slash n pre rest e =
    let starts : starts_with n.fullpath (pre ++ slash ∷ []) ≡ true =
      rw e (rw (← append_slash) (starts_with_self (pre ++ slash ∷ []) rest)) in
    ground (
      arith,
      starts,
      ends_with_slash-snoc pre,
      length-append pre (slash ∷ []),
      get_elem?-append pre slash rest,
    )
  where
    append_slash : (pre ++ slash ∷ []) ++ rest ≡ pre ++ slash ∷ rest
    append_slash = append_assoc pre (slash ∷ []) rest

-- Another prefix of the path hides just its own bytes, and of the bare prefix it makes a directory.
set_prefix-open :
    (n : DavPath) (pfx rest : Bytes)
    → ends_with_slash pfx ≡ false
    → n.fullpath ≡ pfx ++ rest
    → set_prefix n pfx
      ≡ ok (record {
        fullpath = pfx ++ (if length rest == 0 then slash ∷ [] else rest);
        pfxlen = some (length pfx);
      })
unfolding set_prefix
set_prefix-open n pfx [] open_end e = ground (arith, starts_with_self pfx [], append-nil pfx)
set_prefix-open n pfx (c ∷ rest) open_end e =
    ground (arith, starts_with_self pfx (c ∷ rest), length-append pfx (c ∷ rest))

abbrev pub Shows : DavPath → Bytes → Type 0
Shows q rest = as_bytes {E = ParseError} q ≡ ok rest

starts_with-slash_mid :
    (pre path : Bytes)
    → starts_with path (pre ++ slash ∷ []) ≡ true
    → (rest : Bytes) × (path ≡ pre ++ slash ∷ rest)
starts_with-slash_mid pre path h =
    let (rest, e) = starts_with-append path (pre ++ slash ∷ []) h in
    (rest, e ∙ append_assoc pre (slash ∷ []) rest)

-- The path after `set_prefix`: the prefix is cut off, and what follows it in the path is left, or a
-- slash if the path is the prefix itself; it begins with a slash if the prefix ends in one.
pub record IsHidden (n : DavPath) (pfx : Bytes) (q : DavPath) (rest : Bytes) : Type 0 where
  pub result : set_prefix n pfx ≡ ok q
  pub kept : (n.fullpath ≡ prefix_bytes pfx ++ rest) ⊎ ((n.fullpath ≡ pfx) × (rest ≡ slash ∷ []))
  pub whole : q.fullpath ≡ prefix_bytes pfx ++ rest
  pub shown : as_bytes {E = ParseError} q ≡ ok rest
  pub not_empty : rest ≢ []
  pub rooted : (not (ends_with_slash pfx) || starts_with rest (slash ∷ [])) ≡ true

IsHidden-slash :
    (n : DavPath) (pre : Bytes)
    → starts_with n.fullpath (pre ++ slash ∷ []) ≡ true
    → (q : DavPath) × (rest : Bytes) × IsHidden n (pre ++ slash ∷ []) q rest
IsHidden-slash n pre starts =
    let (rest, whole) = starts_with-slash_mid pre n.fullpath starts in
    (
      record n { pfxlen = some (length pre) },
      slash ∷ rest,
      record {
        result = set_prefix-slash n pre rest whole;
        kept = inl (rw (ends_with_slash-snoc pre, drop_last-snoc pre slash) whole);
        whole = rw (ends_with_slash-snoc pre, drop_last-snoc pre slash) whole;
        shown = rw whole (as_bytes-append pre (slash ∷ rest));
        not_empty = λ q. cc;
        rooted = ground (arith, starts_with_self (slash ∷ []) rest);
      },
    )

IsHidden-open :
    (n : DavPath) (pfx rest : Bytes)
    → ends_with_slash pfx ≡ false
    → n.fullpath ≡ pfx ++ rest
    → (q : DavPath) × (rest' : Bytes) × IsHidden n pfx q rest'
IsHidden-open n pfx [] open_end e = (
  _,
  slash ∷ [],
  record {
    result = set_prefix-open n pfx [] open_end e;
    kept = inr (e ∙ append-nil pfx, refl);
    whole = rw open_end refl;
    shown = as_bytes-append pfx (slash ∷ []);
    not_empty = λ q. cc;
    rooted = ground arith;
  },
)
IsHidden-open n pfx (c ∷ rest) open_end e = (
  _,
  c ∷ rest,
  record {
    result = set_prefix-open n pfx (c ∷ rest) open_end e ∙ ground arith;
    kept = inl (rw open_end e);
    whole = rw open_end refl;
    shown = as_bytes-append pfx (c ∷ rest);
    not_empty = λ q. cc;
    rooted = ground arith;
  },
)

-- `set_prefix` refuses a path that does not start with the prefix, and never panics. Of any other
-- path it hides the prefix, without its last slash, and nothing else: the result is the path as
-- it was, with a slash added if the path is the prefix itself and does not end in one, and
-- `as_bytes` shows what follows the prefix in it, which is not empty, and begins with a slash if
-- the prefix ends in one.
pub set_prefix-IsHidden :
    (n : DavPath) (pfx : Bytes)
    → ((starts_with n.fullpath pfx ≡ true)
        × ((q : DavPath) × (rest : Bytes) × IsHidden n pfx q rest))
      ⊎ ((starts_with n.fullpath pfx ≡ false) × (set_prefix n pfx ≡ err ParseError.prefix_mismatch))
set_prefix-IsHidden n pfx = elim (Bool-cases (starts_with n.fullpath pfx)) [
  | inr other ↦ inr (other, unfold set_prefix in rw other)
  | inl starts ↦ inl (
    starts,
    elim (Bool-cases (ends_with_slash pfx)) [
      | inl closed ↦
          let e : pfx ≡ drop_last pfx ++ slash ∷ [] = ends_with_slash-drop_last pfx closed in
          subst (λ (x : Bytes). (q : DavPath) × (rest : Bytes) × IsHidden n x q rest) (sym e)
            (IsHidden-slash n (drop_last pfx)
              (subst (λ x. starts_with n.fullpath x ≡ true) e starts))
      | inr open_end ↦
          let (rest, whole) = starts_with-append n.fullpath pfx starts in
          IsHidden-open n pfx rest open_end whole
    ],
  )
]

-- A prefix that does not end in a slash is also accepted on a path whose next byte goes on with
-- the prefix's last name, and `as_bytes` then shows a path that begins with that byte, whatever
-- it is.
pub set_prefix-joined_name :
    (n : DavPath) (pfx rest : Bytes) (c : ℕ)
    → ends_with_slash pfx ≡ false
    → n.fullpath ≡ pfx ++ c ∷ rest
    → (q : DavPath) × (set_prefix n pfx ≡ ok q) × Shows q (c ∷ rest)
set_prefix-joined_name n pfx rest c open_end e =
    (_, set_prefix-open n pfx (c ∷ rest) open_end e ∙ ground arith, as_bytes-append pfx (c ∷ rest))
