-- ===== src/Errors/Status.antt =====
-- The statuses of src/errors.rs.
use webdav_handler_rs.Prelude.{ℕ, ◌≤◌, ◌<◌, ◌≡◌, ◌⊎◌, refl, inl, inr, false, arith}
use webdav_handler_rs.Errors.{
  FsError, DavError, fserror_to_status, ioerror_to_status, statuscode, must_close,
}

-- Unless an error carries its own status, its status is one of a client or server error, 400 to
-- 599.
pub statuscode-range :
    (e : DavError)
    → ((n : ℕ) × ((e ≡ DavError.status n) ⊎ (e ≡ DavError.status_close n)))
      ⊎ ((400 ≤ statuscode e) × (statuscode e < 600))
unfolding statuscode fserror_to_status ioerror_to_status
statuscode-range (DavError.status n) = inl (n, inl refl)
statuscode-range (DavError.status_close n) = inl (n, inr refl)
statuscode-range (DavError.fs_error f) = inr (ground arith)
statuscode-range (DavError.io_error k) = inr (ground arith)
statuscode-range e = inr (ground arith)

-- The connection stays open only for an error that carries its status, and for file system errors
-- whose status is 404, 403 or 405.
pub must_close-open :
    (e : DavError)
    → must_close e ≡ false
    → ((n : ℕ) × (e ≡ DavError.status n))
      ⊎ (((statuscode e ≡ 404) ⊎ (statuscode e ≡ 403) ⊎ (statuscode e ≡ 405))
          × (f : FsError) × (e ≡ DavError.fs_error f))
unfolding must_close statuscode fserror_to_status
must_close-open e h = ground arith
