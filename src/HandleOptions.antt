-- ===== src/HandleOptions.antt =====
-- src/handle_options.rs. The reply is the list of the methods whose names the header Allow joins; the
-- other headers are constant.
pub mod Offered
use webdav_handler_rs.Prelude.{
  ℕ, Bool, true, false, not, ◌&&◌, ◌||◌, Option, none, some, List, [], ◌∷◌, ◌++◌, Bytes, ◌==◌,
  nat_eq, list_eq, if◌then◌else◌, Outcome, ok, err, panic, out_of_fuel, and_then,
}
use webdav_handler_rs.Errors.{DavError}
use webdav_handler_rs.DavPath.{DavPath, is_star, as_url_string}
use webdav_handler_rs.Fs.{DavFileSystem, DavMetaData}
use webdav_handler_rs.Server.{DavInner, DavRequest, World, path, found}
use webdav_handler_rs.Methods.{DavMethod, DavMethodSet, bit, dav_method, contains}
use webdav_handler_rs.Dispatch.{is_allowed}

-- `==` of methods.
unfoldable pub is_method : DavMethod → DavMethod → Bool
unfolding bit
is_method a b = bit a == bit b

abbrev pub is_lock : DavMethod → Bool
is_lock m = is_method m DavMethod.lock || is_method m DavMethod.unlock

-- `dav_method(..).unwrap_or(DavMethod::Options)`
abbrev pub method_or_options : Outcome DavError DavMethod → DavMethod
method_or_options (ok m) = m
method_or_options _ = DavMethod.options

-- What the helper `mm` reads: the allowed methods, whether there is a lock system, and the method.
pub record Offer : Type 0 where
  pub allow : Option DavMethodSet
  pub has_ls : Bool
  pub method : DavMethod

abbrev pub differ : Bool → Bool → Bool
differ true b = not b
differ false b = b

-- The test of `mm`.
unfoldable pub is_offered : Offer → DavMethod → Bool
unfolding is_method contains
is_offered o y =
    (is_method y DavMethod.options
      || (not (is_method y o.method) || differ (is_lock y) (is_lock o.method)))
    && (not (is_lock y) || o.has_ls)
    && is_allowed o.allow y

-- Some calls of `mm`, one after the other.
unfoldable pub offer_all : Offer → List DavMethod → List DavMethod → List DavMethod
unfolding is_offered
offer_all o v [] = v
offer_all o v (y ∷ ys) = offer_all o (if is_offered o y then v ++ y ∷ [] else v) ys

-- The choice of the methods.
unfoldable pub offers : Offer → Bool → Bool → Bool → Bool → List DavMethod
unfolding offer_all
offers o is_unmapped is_file star is_root =
    if is_unmapped && not star
    then offer_all o [] (DavMethod.options ∷ DavMethod.mk_col ∷ DavMethod.put ∷ DavMethod.lock ∷ [])
    else (let v0 =
          if is_file || star
          then offer_all o []
              (DavMethod.head ∷ DavMethod.get ∷ DavMethod.patch ∷ DavMethod.put ∷ [])
          else [] in
        let v1 = offer_all o v0 (DavMethod.options ∷ DavMethod.prop_find ∷ DavMethod.copy ∷ []) in
        let v2 = if is_root then v1 else offer_all o v1 (DavMethod.move ∷ DavMethod.delete ∷ []) in
        offer_all o v2 (DavMethod.lock ∷ DavMethod.unlock ∷ []))

abbrev pub has_some : {A : Type 0} → Option A → Bool
has_some none = false
has_some (some a) = true

abbrev pub is_file_of : Option DavMetaData → Bool
is_file_of none = false
is_file_of (some m) = m.is_file

module _ {S Entry File L Element : Type 0} (percent_decode : Bytes → Bytes)
    (percent_encode : (ℕ → Bool) → Bytes → Bytes) (inner : DavInner S Entry File L Element)
    (allow : Option DavMethodSet) where
  -- The first argument is the method of the request.
  unfoldable pub handle_options : Bytes → DavRequest → World S L → Outcome DavError (List DavMethod)
  unfolding path dav_method offers is_method
  handle_options name req w =
      let method = method_or_options (dav_method name) in
      and_then (path percent_decode inner req) λ p.
        and_then (found (inner.fs.metadata p w.files)) λ meta. and_then (is_star p) λ star.
          and_then (as_url_string percent_encode p) λ url. ok (
            offers (record { allow = allow; has_ls = has_some inner.ls; method = method })
              (not (has_some meta)) (is_file_of meta) (star && is_method method DavMethod.options)
              (url == b'/' ∷ []))
