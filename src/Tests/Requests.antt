-- ===== src/Tests/Requests.antt =====
-- Requests on their way to a handler.
use webdav_handler_rs.Prelude.{
  ℕ, suc, ◌≡◌, ◌≢◌, ◌⊎◌, Option, some, List, [], ◌∷◌, Bytes, if◌then◌else◌, ltb, length, map, ok,
  err, Run, false,
}
use webdav_handler_rs.Errors.{DavError}
use webdav_handler_rs.Methods.{DavMethod, DavMethodSet, http_ro}
use webdav_handler_rs.Dispatch.{pieces, Request, Inner, Handlers, read_request, handle2}
use webdav_handler_rs.Dispatch.Read.{body_bytes, read_request_lem}
use webdav_handler_rs.Dispatch.Dispatched.{IsChecked, IsServed, handle2-IsServed}

abbrev decode : Bytes → Bytes
decode s = s

-- The state counts the calls of handlers.
abbrev counted : Run ℕ DavError ℕ
counted n = (ok 200, suc n)

abbrev handlers : Handlers ℕ ℕ
handlers = record {
  options = λ _. counted;
  propfind = λ _. counted;
  proppatch = λ _. counted;
  mkcol = counted;
  delete = counted;
  lock = λ _. counted;
  unlock = counted;
  get = counted;
  copymove = λ _. counted;
  put = λ _. counted;
}

abbrev read_only : Inner
read_only = record { prefix = []; allow = some http_ro; is_voidfs = false }

abbrev get_request : Request
get_request = record {
  method = b'G' ∷ b'E' ∷ b'T' ∷ [];
  uri = b'/' ∷ b'x' ∷ [];
  is_ms = false;
  body = [];
}

handle2-IsServed_example :
    ((m : DavMethod) × (allow : Option DavMethodSet) × IsChecked decode read_only get_request m
        allow
      × IsServed handlers get_request allow 0 (handle2 handlers decode read_only get_request 0))
    ⊎ (((handle2 handlers decode read_only get_request 0).1 ≡ 0)
        × ((r : ℕ) → (handle2 handlers decode read_only get_request 0).0 ≢ ok r))
handle2-IsServed_example = handle2-IsServed handlers decode read_only get_request 0

abbrev buffers : List (List Bytes)
buffers = ((b'a' ∷ []) ∷ (b'b' ∷ []) ∷ []) ∷ ((b'c' ∷ []) ∷ []) ∷ []

read_request_lem_example : read_request (map pieces buffers) 3 ≡ (
    if ltb 3 (length (body_bytes buffers))
    then err (DavError.status 413)
    else ok (body_bytes buffers))
read_request_lem_example = read_request_lem buffers 3
