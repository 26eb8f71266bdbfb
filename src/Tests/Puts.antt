-- ===== src/Tests/Puts.antt =====
-- A body that is put and a directory that is made, on a file system that counts bytes.
use webdav_handler_rs.Prelude.{
  ℕ, ◌+◌, none, some, List, [], ◌∷◌, Bytes, ok, err, length, EndsFrom, Bool, false,
}
use webdav_handler_rs.Errors.{FsError}
use webdav_handler_rs.Conditional.{Method}
use webdav_handler_rs.Fs.{DavFileSystem, DavFile}
use webdav_handler_rs.Server.{DavInner, DavRequest, World}
use webdav_handler_rs.HandlePut.{Chunk, whole, PutRequest, ContentRange}
use webdav_handler_rs.Methods.{http_rw}
use webdav_handler_rs.HandleOptions.{handle_options}
use webdav_handler_rs.HandleOptions.Offered.{Replies, IsAllow, handle_options-IsAllow}
use webdav_handler_rs.HandleMkcol.{handle_mkcol}
use webdav_handler_rs.HandleMkcol.Made.{IsMade, IsRefused, handle_mkcol-IsMade}

abbrev decode : Bytes → Bytes
decode s = s

abbrev encode : (ℕ → Bool) → Bytes → Bytes
encode f s = s

-- The state is the number of bytes that have been written. There are no files before.
abbrev disk : DavFileSystem ℕ Bytes ℕ
disk = record {
  metadata = λ p n. err FsError.not_found;
  symlink_metadata = λ p n. err FsError.not_found;
  read_dir = λ p n. ok [];
  entry_name = λ e. e;
  entry_metadata = λ e n. err FsError.not_found;
  create_dir = λ p n. (ok tt, n);
  remove_dir = λ p n. (ok tt, n);
  remove_file = λ p n. (ok tt, n);
  rename = λ p q n. (ok tt, n);
  copy = λ p q n. (ok tt, n);
  open_ = λ p o n. (ok 0, n);
}

abbrev open_file : DavFile ℕ ℕ
open_file = record {
  seek = λ p f n. (ok p, n);
  write_bytes = λ b f n. (ok (f + length b), n + length b);
  write_buf = λ bs f n. (ok f, n);
  flush = λ f n. (ok f, n);
  file_metadata = λ f n. err FsError.not_found;
}

abbrev inner : DavInner ℕ Bytes ℕ ℕ ℕ
inner = record { prefix = []; fs = disk; ls = none; principal = none }

abbrev empty : World ℕ ℕ
empty = record { files = 0; locks = 0; items = [] }

abbrev request : DavRequest
request = record {
  uri = b'/' ∷ b'd' ∷ [];
  conditional = record {
    method = Method.other;
    if_match = none;
    if_none_match = none;
    if_modified_since = none;
    if_unmodified_since = none;
    if_ = none;
  };
  depth = none;
  overwrite = none;
  destination = none;
}

abbrev put_request : PutRequest
put_request = record {
  base = request;
  is_patch = false;
  content_length = some 2;
  content_type = none;
  update_range = none;
  content_range = ContentRange.absent;
}

abbrev body : List Chunk
body = whole (b'a' ∷ b'b' ∷ []) ∷ []

handle_mkcol-IsMade_example :
    EndsFrom
      (IsMade decode encode inner request empty)
      (IsRefused decode encode inner request empty)
      (handle_mkcol decode encode inner request)
      empty
handle_mkcol-IsMade_example = handle_mkcol-IsMade decode encode inner request empty

handle_options-IsAllow_example :
    Replies
      (IsAllow decode encode inner (some http_rw))
      (handle_options decode encode inner (some http_rw) [] request empty)
handle_options-IsAllow_example =
    handle_options-IsAllow decode encode inner (some http_rw) [] request empty
