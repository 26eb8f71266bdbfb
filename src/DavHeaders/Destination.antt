-- ===== src/DavHeaders/Destination.antt =====
-- The header Destination of src/davheaders.rs. The first group that the regular expression of a URL
-- captures, its path, is the parameter `url_path`.
use webdav_handler_rs.Prelude.{
  Bool, Option, List, [], ◌∷◌, Bytes, if◌then◌else◌, Outcome, ok, ok_or, and_then,
}
use webdav_handler_rs.DavPath.Segments.{slash, starts_with}
use webdav_handler_rs.DavHeaders.{HeaderError, invalid, one, to_str, encode_text}

module _ (is_text : Bytes → Bool) (url_path : Bytes → Option Bytes) where
  unfoldable pub decode : List Bytes → Outcome HeaderError Bytes
  unfolding one to_str starts_with
  decode values = and_then (one values) λ v.
      and_then (to_str is_text v)
        λ s. if starts_with s (slash ∷ []) then ok s else ok_or (url_path s) invalid

module _ (is_value : Bytes → Bool) where
  unfoldable pub encode {κ} : {E : Type κ} → Bytes → Outcome E (List Bytes)
  unfolding encode_text
  encode destination = encode_text is_value destination
