-- ===== src/DavHeaders/Range.antt =====
-- The header If-Range of src/davheaders.rs. The crate headers decodes and encodes dates.
use webdav_handler_rs.Prelude.{
  Bool, List, [], ◌∷◌, Bytes, Outcome, ok, err, panic, out_of_fuel, and_then, ℤ,
}
use webdav_handler_rs.Conditional.{IfRange}
use webdav_handler_rs.DavHeaders.{HeaderError, invalid, one}
use webdav_handler_rs.DavHeaders.Tag

module _ (is_text : Bytes → Bool) (decode_date : List Bytes → Outcome HeaderError ℤ) where
  unfoldable pub read_tag : Bytes → Outcome HeaderError IfRange
  read_tag value = elim (Tag.decode is_text (value ∷ [])) [
    | ok t ↦ ok (IfRange.etag t)
    | err _ ↦ err invalid
    | panic ↦ panic
    | out_of_fuel ↦ out_of_fuel
  ]

  unfoldable pub decode : List Bytes → Outcome HeaderError IfRange
  unfolding one read_tag
  decode values = and_then (one values) λ value. elim (decode_date (value ∷ [])) [
    | ok tm ↦ ok (IfRange.date tm)
    | err _ ↦ read_tag value
    | panic ↦ panic
    | out_of_fuel ↦ out_of_fuel
  ]

module _ (is_value : Bytes → Bool) {E : Type 0} (encode_date : ℤ → Outcome E (List Bytes)) where
  unfoldable pub encode : IfRange → Outcome E (List Bytes)
  encode (IfRange.date d) = encode_date d
  encode (IfRange.etag t) = Tag.encode is_value t
