-- ===== src/Tests/Paths.antt =====
-- Paths, with a decoder that knows one escape, `%2e%2e`.
use webdav_handler_rs.Prelude.{
  ◌≡◌, ◌⊎◌, refl, true, false, none, some, [], ◌∷◌, ◌++◌, map, Bytes, ◌==◌, nat_eq, list_eq,
  list_beq, drop_last, any, concat, All, if◌then◌else◌, ok, err, panic,
}
use webdav_handler_rs.DavPath.Segments.{
  slash, split, is_nonempty, segments, starts_with, ends_with_slash,
}
use webdav_handler_rs.DavPath.{
  DavPath, ParseError, cut_query, valid_segment, push_piece, push_pieces, render, normalize_path,
  set_prefix, parent, as_bytes,
}
use webdav_handler_rs.DavPath.Normalize.{
  absolute, IsSafe, IsBeforeQuery, resolved, normalize_path-resolved,
}
use webdav_handler_rs.DavPath.Accepted.{IsRaw, normalize_path-raw}
use webdav_handler_rs.DavPath.Prefix.{IsHidden, set_prefix-IsHidden}
use webdav_handler_rs.DavPath.Parent.{IsSegment, segments-parent, as_bytes-parent_of_prefix}

abbrev dots : Bytes
dots = b'%' ∷ b'2' ∷ b'e' ∷ b'%' ∷ b'2' ∷ b'e' ∷ []

abbrev decode : Bytes → Bytes
decode s = if s == dots then b'.' ∷ b'.' ∷ [] else s

abbrev name_x : Bytes
name_x = b'x' ∷ []

-- `/y/../x?q`
abbrev raw : Bytes
raw = b'/' ∷ b'y' ∷ b'/' ∷ b'.' ∷ b'.' ∷ b'/' ∷ b'x' ∷ b'?' ∷ b'q' ∷ []

decode-slash : decode (slash ∷ []) ≡ slash ∷ []
unfolding list_beq
decode-slash = refl

normalized : normalize_path decode raw ≡ ok (b'/' ∷ b'x' ∷ [])
unfolding list_beq any cut_query valid_segment push_piece push_pieces render normalize_path concat
    split starts_with ends_with_slash
normalized = refl

normalize_path-resolved_example :
    (r : Bytes) × IsBeforeQuery raw r
    × (starts_with r (slash ∷ []) ≡ true)
    × (b'/' ∷ b'x' ∷ [] ≡ absolute (map decode (resolved (split r))) (ends_with_slash r))
    × All IsSafe (map decode (resolved (split r)))
normalize_path-resolved_example =
    normalize_path-resolved decode raw (b'/' ∷ b'x' ∷ []) decode-slash normalized

dots-IsRaw : IsRaw dots
unfolding any list_beq
dots-IsRaw = record {
  printable = refl;
  no_query = refl;
  no_slash = refl;
  not_empty = refl;
  not_dot = refl;
  not_dotdot = refl;
}

x-IsRaw : IsRaw name_x
unfolding any list_beq
x-IsRaw = record {
  printable = refl;
  no_query = refl;
  no_slash = refl;
  not_empty = refl;
  not_dot = refl;
  not_dotdot = refl;
}

dots-IsSafe : IsSafe (decode dots)
unfolding any list_beq
dots-IsSafe = refl

x-IsSafe : IsSafe (decode name_x)
unfolding any list_beq
x-IsSafe = refl

-- `/%2e%2e/x` is accepted as `/../x`.
normalize_path-raw_example :
    normalize_path decode (absolute (dots ∷ name_x ∷ []) false)
    ≡ ok (absolute (map decode (dots ∷ name_x ∷ [])) false)
normalize_path-raw_example =
    normalize_path-raw decode (dots ∷ name_x ∷ []) false decode-slash (dots-IsRaw, (x-IsRaw, tt))
      (dots-IsSafe, (x-IsSafe, tt))

-- The prefix `/x` of the path `/xx`.
abbrev path_xx : DavPath
path_xx = record { fullpath = b'/' ∷ b'x' ∷ b'x' ∷ []; pfxlen = none }

abbrev prefix_x : Bytes
prefix_x = b'/' ∷ b'x' ∷ []

set_prefix-IsHidden_example :
    ((starts_with (DavPath.fullpath path_xx) prefix_x ≡ true)
      × ((q : DavPath) × (rest : Bytes) × IsHidden path_xx prefix_x q rest))
    ⊎ ((starts_with (DavPath.fullpath path_xx) prefix_x ≡ false)
        × (set_prefix path_xx prefix_x ≡ err ParseError.prefix_mismatch))
set_prefix-IsHidden_example = set_prefix-IsHidden path_xx prefix_x

open_x : ends_with_slash prefix_x ≡ false
unfolding ends_with_slash
open_x = refl

-- The path `/x/` with all of it as the prefix.
abbrev at_prefix : DavPath
at_prefix = record { fullpath = b'/' ∷ b'x' ∷ b'/' ∷ []; pfxlen = some 2 }

segments-parent_example :
    segments (DavPath.fullpath (parent at_prefix))
    ≡ drop_last (segments (DavPath.fullpath at_prefix))
segments-parent_example = segments-parent at_prefix

x-IsSegment : IsSegment name_x
unfolding any is_nonempty
x-IsSegment = record { no_slash = refl; nonempty = refl }

whole_x : DavPath.fullpath at_prefix ≡ absolute ([] ++ name_x ∷ []) true
unfolding absolute concat
whole_x = refl

as_bytes-parent_of_prefix_example : as_bytes {E = Unit {0}} (parent at_prefix) ≡ panic
as_bytes-parent_of_prefix_example =
    as_bytes-parent_of_prefix at_prefix [] name_x (x-IsSegment, tt) whole_x refl
