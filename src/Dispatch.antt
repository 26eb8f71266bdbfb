-- ===== src/Dispatch.antt =====
-- The dispatcher of src/davhandler.rs: a request's way from its method to the handler.
pub mod Read
pub mod Checked
pub mod Named
pub mod Dispatched
use webdav_handler_rs.Prelude.{
  ℕ, ◌+◌, Bool, true, false, not, ◌&&◌, Option, none, some, List, [], ◌∷◌, ◌++◌, Bytes, ◌==◌,
  nat_eq, ltb, length, concat, if◌then◌else◌, Outcome, ok, err, panic, out_of_fuel, and_then, Run,
  pure, fail, reads, matching, continue, on_result, ◌>>=◌,
}
use webdav_handler_rs.Errors.{ErrorKind, DavError, statuscode, must_close}
use webdav_handler_rs.DavPath.{DavPath, parse_error_into, from_uri_and_prefix}
use webdav_handler_rs.Server.{map_err}
use webdav_handler_rs.Methods
use webdav_handler_rs.Methods.{DavMethod, DavMethodSet, dav_method, no_methods, contains}

-- What `body.data()` returns: the pieces of a `Buf`, none of them empty, or an error.
-- Its kind is `UnexpectedEof`, which has the status of `other`.
pub data Data : Type 0 where
  pieces : List Bytes → Data
  broken : Data

-- What the dispatcher reads of a request: `uri.path()`, and whether the user agent's name has
-- `Microsoft` in it.
pub record Request : Type 0 where
  pub method : Bytes
  pub uri : Bytes
  pub is_ms : Bool
  pub body : List Data

-- The fields of `DavInner` that the dispatcher reads, and the answer of `is_voidfs`.
pub record Inner : Type 0 where
  pub prefix : Bytes
  pub allow : Option DavMethodSet
  pub is_voidfs : Bool

-- The handlers, over a state `W`, with what they are given. `options` reads the allowed methods.
pub record Handlers (W R : Type 0) : Type 0 where
  pub options : Option DavMethodSet → Run W DavError R
  pub propfind : Bytes → Run W DavError R
  pub proppatch : Bytes → Run W DavError R
  pub mkcol : Run W DavError R
  pub delete : Run W DavError R
  pub lock : Bytes → Run W DavError R
  pub unlock : Run W DavError R
  pub get : Run W DavError R
  pub copymove : DavMethod → Run W DavError R
  pub put : List Data → Run W DavError R

-- The loop over one buffer.
unfoldable pub read_pieces : ℕ → Bytes → List Bytes → Outcome DavError Bytes
read_pieces max_size data_ [] = ok data_
read_pieces max_size data_ (b ∷ bs) =
    if ltb max_size (length data_ + length (b ++ concat bs))
    then err (DavError.status 413)
    else read_pieces max_size (data_ ++ b) bs

unfoldable pub read_all : ℕ → Bytes → List Data → Outcome DavError Bytes
unfolding read_pieces
read_all max_size data_ [] = ok data_
read_all max_size data_ (broken ∷ body) = err (DavError.io_error ErrorKind.other)
read_all max_size data_ (pieces bs ∷ body) =
    and_then (read_pieces max_size data_ bs) λ data'. read_all max_size data' body

-- `DavInner::read_request`
unfoldable pub read_request : List Data → ℕ → Outcome DavError Bytes
unfolding read_all
read_request body max_size = read_all max_size [] body

-- A server without a file system only answers OPTIONS.
unfoldable pub without_files : Inner → DavMethod → Outcome DavError (Option DavMethodSet)
unfolding contains Methods.add
without_files inner DavMethod.options =
    if not inner.is_voidfs
    then ok inner.allow
    else if (elim inner.allow [ none ↦ true | some a ↦ contains a DavMethod.options ])
    then ok (some (Methods.add no_methods DavMethod.options))
    else ok inner.allow
without_files inner method =
    if not inner.is_voidfs then ok inner.allow else err (DavError.status_close 405)

abbrev pub is_allowed : Option DavMethodSet → DavMethod → Bool
is_allowed none method = true
is_allowed (some a) method = contains a method

-- The methods whose handler reads the body itself, and those that are given one.
abbrev pub is_streamed : DavMethod → Bool
is_streamed DavMethod.put = true
is_streamed DavMethod.patch = true
is_streamed _ = false

abbrev pub takes_body : DavMethod → Bool
takes_body DavMethod.put = true
takes_body DavMethod.patch = true
takes_body DavMethod.prop_find = true
takes_body DavMethod.prop_patch = true
takes_body DavMethod.lock = true
takes_body _ = false

-- A request that has passed the checks.
pub record Accepted : Type 0 where
  pub method : DavMethod
  pub allow : Option DavMethodSet
  pub body_data : Bytes

-- The reply: a handler's own, or that of an error.
pub data Reply (R : Type 0) : Type 0 where
  sent : R → Reply R
  failure : ℕ → Bool → Bool → Reply R

module _ (percent_decode : Bytes → Bytes) (inner : Inner) where
  -- The checks of `handle2`.
  unfoldable pub accept : Request → Outcome DavError Accepted
  unfolding dav_method without_files contains read_request
  accept req = and_then (dav_method req.method) λ method.
      and_then (without_files inner method) λ allow.
        if not (is_allowed allow method)
        then err (DavError.status_close 405)
        else (and_then
            (map_err parse_error_into (from_uri_and_prefix percent_decode req.uri inner.prefix))
            λ path.
              and_then (if is_streamed method then ok [] else read_request req.body 65536)
                λ body_data.
                  if not (takes_body method) && ltb 0 (length body_data)
                  then err (DavError.status 415)
                  else ok (record { method = method; allow = allow; body_data = body_data }))

module _ {W R : Type 0} (handlers : Handlers W R) where
  -- The handler of a method.
  unfoldable pub dispatch : List Data → Option DavMethodSet → Bytes → DavMethod → Run W DavError R
  dispatch body allow body_data DavMethod.options = handlers.options allow
  dispatch body allow body_data DavMethod.prop_find = handlers.propfind body_data
  dispatch body allow body_data DavMethod.prop_patch = handlers.proppatch body_data
  dispatch body allow body_data DavMethod.mk_col = handlers.mkcol
  dispatch body allow body_data DavMethod.delete = handlers.delete
  dispatch body allow body_data DavMethod.lock = handlers.lock body_data
  dispatch body allow body_data DavMethod.unlock = handlers.unlock
  dispatch body allow body_data DavMethod.head = handlers.get
  dispatch body allow body_data DavMethod.get = handlers.get
  dispatch body allow body_data DavMethod.copy = handlers.copymove DavMethod.copy
  dispatch body allow body_data DavMethod.move = handlers.copymove DavMethod.move
  dispatch body allow body_data DavMethod.put = handlers.put body
  dispatch body allow body_data DavMethod.patch = handlers.put body

  module _ (percent_decode : Bytes → Bytes) (inner : Inner) where
    unfoldable pub handle2 : Request → Run W DavError R
    unfolding accept dispatch
    handle2 req = do
      a ← reads (λ _. accept percent_decode inner req)
      dispatch req.body a.allow a.body_data a.method

    -- `DavInner::handle`: an error is a reply with its status, whether to close the connection, and
    -- whether it must not be cached.
    unfoldable pub handle : Request → Run W DavError (Reply R)
    unfolding handle2
    handle req =
        matching (handle2 req) (λ resp. pure (sent resp))
          (λ e. pure (failure (statuscode e) (must_close e) (req.is_ms && (statuscode e == 404))))
