-- ===== src/Errors.antt =====
-- The error values: `FsError` of src/fs.rs, and `DavError` of src/errors.rs with the status code
-- that an error becomes.
pub mod Status
use webdav_handler_rs.Prelude.{ℕ, Bool, true, false}

-- fs.rs
pub data FsError : Type 0 where
  not_implemented general_failure exists not_found forbidden : FsError
  insufficient_storage loop_detected path_too_long too_large is_remote : FsError

-- `std::io::ErrorKind`, the kinds that the program names and any other.
pub data ErrorKind : Type 0 where
  not_found permission_denied already_exists timed_out invalid_input other : ErrorKind

-- `http::StatusCode` is its number. The payload of an xml error, which nothing reads, is left out.
pub data DavError : Type 0 where
  xml_read_error xml_parse_error invalid_path illegal_path forbidden_path : DavError
  unknown_dav_method chan_error utf8_error : DavError
  status status_close : ℕ → DavError
  fs_error : FsError → DavError
  io_error : ErrorKind → DavError
  xml_reader_error xml_writer_error : DavError

unfoldable pub fserror_to_ioerror : FsError → ErrorKind
fserror_to_ioerror FsError.exists = ErrorKind.already_exists
fserror_to_ioerror FsError.not_found = ErrorKind.not_found
fserror_to_ioerror FsError.forbidden = ErrorKind.permission_denied
fserror_to_ioerror _ = ErrorKind.other

unfoldable pub ioerror_to_status : ErrorKind → ℕ
ioerror_to_status ErrorKind.not_found = 404
ioerror_to_status ErrorKind.permission_denied = 403
ioerror_to_status ErrorKind.already_exists = 409
ioerror_to_status ErrorKind.timed_out = 504
ioerror_to_status _ = 502

unfoldable pub fserror_to_status : FsError → ℕ
fserror_to_status FsError.not_implemented = 501
fserror_to_status FsError.general_failure = 500
fserror_to_status FsError.exists = 405
fserror_to_status FsError.not_found = 404
fserror_to_status FsError.forbidden = 403
fserror_to_status FsError.insufficient_storage = 507
fserror_to_status FsError.loop_detected = 508
fserror_to_status FsError.path_too_long = 414
fserror_to_status FsError.too_large = 413
fserror_to_status FsError.is_remote = 502

unfoldable pub statuscode : DavError → ℕ
unfolding ioerror_to_status fserror_to_status
statuscode DavError.xml_read_error = 400
statuscode DavError.xml_parse_error = 400
statuscode DavError.invalid_path = 400
statuscode DavError.illegal_path = 502
statuscode DavError.forbidden_path = 403
statuscode DavError.unknown_dav_method = 501
statuscode DavError.chan_error = 500
statuscode DavError.utf8_error = 415
statuscode (DavError.io_error e) = ioerror_to_status e
statuscode (DavError.fs_error e) = fserror_to_status e
statuscode (DavError.status e) = e
statuscode (DavError.status_close e) = e
statuscode DavError.xml_reader_error = 400
statuscode DavError.xml_writer_error = 500

unfoldable pub must_close : DavError → Bool
must_close (DavError.status _) = false
must_close (DavError.fs_error FsError.not_found) = false
must_close (DavError.fs_error FsError.forbidden) = false
must_close (DavError.fs_error FsError.exists) = false
must_close _ = true

-- `impl From<DavError> for io::Error`
unfoldable pub daverror_to_ioerror : DavError → ErrorKind
unfolding fserror_to_ioerror
daverror_to_ioerror (DavError.io_error e) = e
daverror_to_ioerror (DavError.fs_error e) = fserror_to_ioerror e
daverror_to_ioerror _ = ErrorKind.other
