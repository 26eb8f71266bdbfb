-- ===== src/DavHeaders/Language.antt =====
-- The header Content-Language of src/davheaders.rs. The list of languages is the crate headers':
-- `decode_vary` is its decoder and `iter_strs` in one.
use webdav_handler_rs.Prelude.{
  Bool, false, ◌&&◌, ◌||◌, none, some, List, [], ◌∷◌, Bytes, ◌==◌, nat_eq, ltb, length, get_elem?,
  if◌then◌else◌, Outcome, ok, err, and_then,
}
use webdav_handler_rs.DavHeaders.{HeaderError, invalid}

unfoldable pub is_language : Bytes → Bool
is_language lang =
    length lang == 2
    || (ltb 4 (length lang) && (elim (get_elem? lang 2) [ none ↦ false | some c ↦ c == b'-' ]))

unfoldable pub check_langs : List Bytes → Outcome HeaderError (Unit {0})
unfolding is_language
check_langs [] = ok tt
check_langs (lang ∷ langs) = if is_language lang then check_langs langs else err invalid

module _ (decode_vary : List Bytes → Outcome HeaderError (List Bytes)) where
  unfoldable pub decode : List Bytes → Outcome HeaderError (List Bytes)
  unfolding check_langs
  decode values = and_then (decode_vary values) λ h. and_then (check_langs h) λ _. ok h
