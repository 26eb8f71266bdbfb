-- ===== src/DavHeaders/Tag.antt =====
-- `ETag` and the lists of them in src/davheaders.rs, in If-Match and If-None-Match.
pub mod Made
use webdav_handler_rs.Prelude.{
  ℕ, ◌-◌, Bool, true, false, not, ◌&&◌, List, [], ◌∷◌, ◌++◌, map, Bytes, ◌==◌, nat_eq, list_eq,
  length, drop, any, if◌then◌else◌, Outcome, ok, err, panic, out_of_fuel, and_then,
}
use webdav_handler_rs.DavPath.Segments.{starts_with}
use webdav_handler_rs.Text.{contains, ends_with, slice, split_on, join_with, trim}
use webdav_handler_rs.Conditional.{ETag, ETagList, tags, star}
use webdav_handler_rs.DavHeaders.{HeaderError, invalid, one, to_str, encode_text}

abbrev pub quote : ℕ
quote = b'"'

-- `W/`, in front of a weak tag.
abbrev pub weak_mark : Bytes
weak_mark = b'W' ∷ b'/' ∷ []

unfoldable pub new : Bool → Bytes → Outcome HeaderError ETag
new weak t =
    if contains t quote
    then err invalid
    else ok (record {
      tag = (if weak then weak_mark else []) ++ quote ∷ (t ++ quote ∷ []);
      weak = weak;
    })

-- `from_str`, after the mark. The slice of a lone quote ends before it starts.
unfoldable pub read_quoted : Bytes → Bool → Bytes → Outcome HeaderError ETag
unfolding ends_with slice
read_quoted t weak s =
    if starts_with s (quote ∷ []) && ends_with s quote
    then (and_then (slice s 1 (length s - 1))
        λ inner. if contains inner quote then err invalid else ok (record { tag = t; weak = weak }))
    else err invalid

unfoldable pub from_str : Bytes → Outcome HeaderError ETag
unfolding read_quoted
from_str t =
    if starts_with t weak_mark then read_quoted t true (drop 2 t) else read_quoted t false t

-- `to_string`
unfoldable pub fmt : ETag → Bytes
fmt e = quote ∷ (e.tag ++ quote ∷ [])

-- `if let Ok(t) = ETag::from_str(t.trim())`: misformed tags are skipped.
unfoldable pub read_tags : List Bytes → Outcome HeaderError (List ETag)
unfolding from_str
read_tags [] = ok []
read_tags (t ∷ ts) = elim (from_str (trim t)) [
  | ok e ↦ and_then (read_tags ts) λ es. ok (e ∷ es)
  | err _ ↦ read_tags ts
  | panic ↦ panic
  | out_of_fuel ↦ out_of_fuel
]

module _ (is_text : Bytes → Bool) where
  unfoldable pub decode : List Bytes → Outcome HeaderError ETag
  unfolding one to_str from_str
  decode values = and_then (one values) λ v. and_then (to_str is_text v) from_str

  -- The loop over the values, after some whose tags are `v`.
  unfoldable pub read_values : List ETag → List Bytes → Outcome HeaderError ETagList
  unfolding to_str read_tags
  read_values v [] = ok (tags v)
  read_values v (value ∷ values) = and_then (to_str is_text value) λ s.
      if trim s == b'*' ∷ []
      then ok star
      else and_then (read_tags (split_on b',' s)) λ more. read_values (v ++ more) values

  -- `decode_etaglist`: not an empty list of values.
  unfoldable pub decode_list : List Bytes → Outcome HeaderError ETagList
  unfolding read_values
  decode_list [] = err invalid
  decode_list (value ∷ values) = read_values [] (value ∷ values)

module _ (is_value : Bytes → Bool) where
  unfoldable pub encode {κ} : {E : Type κ} → ETag → Outcome E (List Bytes)
  unfolding encode_text
  encode e = encode_text is_value e.tag

  unfoldable pub encode_list {κ} : {E : Type κ} → ETagList → Outcome E (List Bytes)
  unfolding encode_text
  encode_list star = encode_text is_value (b'*' ∷ [])
  encode_list (tags ts) =
      encode_text is_value (join_with (b',' ∷ b' ' ∷ []) (map (λ (e : ETag). e.tag) ts))
