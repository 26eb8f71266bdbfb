-- ===== src/DavHeaders.antt =====
-- src/davheaders.rs: the headers of WebDAV, decoded from header values and encoded to them. A value
-- is its bytes. What the crate http takes as text (`to_str`) and as a value (`from_str`) are the
-- parameters `is_text` and `is_value`. Each header has a module of its own.
pub mod Depth
pub mod Overwrite
pub mod Destination
pub mod Timeout
pub mod Language
pub mod Tag
pub mod Range
pub mod UpdateRange
pub mod Scanner
pub mod If
use webdav_handler_rs.Prelude.{
  ℕ, Bool, List, [], ◌∷◌, Bytes, if◌then◌else◌, Outcome, ok, err, panic, and_then,
}

-- `headers::Error`
pub data HeaderError : Type 0 where
  invalid : HeaderError

-- `one`: exactly one value.
unfoldable pub one : List Bytes → Outcome HeaderError Bytes
one [] = err invalid
one (v ∷ []) = ok v
one (v ∷ w ∷ ws) = err invalid

module _ (is_text : Bytes → Bool) where
  -- `value.to_str().map_err(map_invalid)`
  unfoldable pub to_str : Bytes → Outcome HeaderError Bytes
  to_str v = if is_text v then ok v else err invalid

  -- `decode` of the macro `header!`: the headers that are plain text.
  unfoldable pub decode_text : List Bytes → Outcome HeaderError Bytes
  unfolding one to_str
  decode_text values = and_then (one values) to_str

-- `HeaderValue::from_str(&s).unwrap()`, and `encode` of the macro `header!`.
module _ (is_value : Bytes → Bool) where
  unfoldable pub encode_text {κ} : {E : Type κ} → Bytes → Outcome E (List Bytes)
  encode_text s = if is_value s then ok (s ∷ []) else panic
