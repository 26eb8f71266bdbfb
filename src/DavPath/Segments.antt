-- ===== src/DavPath/Segments.antt =====
-- Byte strings cut at the slashes: `split`, `filter`, `join`, `starts_with` and `ends_with` of the
-- standard library, as src/davpath.rs, src/memls.rs and src/memfs.rs use them.
use webdav_handler_rs.Prelude.{
  ℕ, Bool, true, false, ◌&&◌, none, some, List, [], ◌∷◌, ◌++◌, Bytes, ◌==◌, nat_eq, last?, filter,
  if◌then◌else◌,
}

-- The byte `/`.
abbrev pub slash : ℕ
slash = b'/'

-- The first piece gets one more byte in front.
abbrev pub cons_head : ℕ → List Bytes → List Bytes
cons_head c [] = (c ∷ []) ∷ []
cons_head c (s ∷ ss) = (c ∷ s) ∷ ss

-- `path.split(|c| c == b'/')`: one piece more than there are slashes.
unfoldable pub split : Bytes → List Bytes
split [] = [] ∷ []
split (c ∷ cs) = if c == slash then [] ∷ split cs else cons_head c (split cs)

unfoldable pub is_nonempty : Bytes → Bool
is_nonempty [] = false
is_nonempty (c ∷ cs) = true

-- `path.split(|c| c == b'/').filter(|s| s.len() > 0)`
unfoldable pub segments : Bytes → List Bytes
unfolding split is_nonempty filter
segments path = filter is_nonempty (split path)

-- `segs.join(&b'/')`
unfoldable pub join : List Bytes → Bytes
join [] = []
join (s ∷ []) = s
join (s ∷ t ∷ ss) = s ++ slash ∷ join (t ∷ ss)

unfoldable pub starts_with : Bytes → Bytes → Bool
starts_with path [] = true
starts_with [] (p ∷ ps) = false
starts_with (c ∷ cs) (p ∷ ps) = c == p && starts_with cs ps

-- `path.ends_with(b"/")`
unfoldable pub ends_with_slash : Bytes → Bool
ends_with_slash path = elim (last? path) [ none ↦ false | some c ↦ c == slash ]
