-- ===== src/HandlePut.antt =====
-- src/handle_put.rs: PUT and PATCH. The body is the list of its chunks.
pub mod Announced
pub mod Written
pub mod Stored
use webdav_handler_rs.Prelude.{
  ℕ, ◌+◌, ◌-◌, ◌%◌, Bool, true, false, not, ◌&&◌, ◌||◌, Option, none, some, List, [], ◌∷◌, ◌++◌,
  Bytes, ◌==◌, nat_eq, list_eq, ltb, length, if◌then◌else◌, Outcome, ok, err, panic, out_of_fuel,
  and_then, Run, pure, fail, reads, on_result, matching, continue, ◌>>=◌, ◌>>◌, concat, ℤ,
}
use webdav_handler_rs.Errors.{FsError, ErrorKind, DavError}
use webdav_handler_rs.DavPath.{DavPath}
use webdav_handler_rs.Tree.{u64_mod}
use webdav_handler_rs.MemFs.Nodes.{OpenOptions, open_write}
use webdav_handler_rs.DavHeaders.UpdateRange.{XUpdateRange}
use webdav_handler_rs.Conditional
use webdav_handler_rs.Conditional.{ETag, ETagList, from_meta}
use webdav_handler_rs.Fs.{DavFileSystem, DavFile, DavMetaData, conditional_meta}
use webdav_handler_rs.Server.{
  DavInner, DavRequest, World, on_files, path, get_tokens, check_locks, found,
}

-- What `typed_try_get` of `Content-Range` returns, with its `bytes_range`.
pub data ContentRange : Type 0 where
  absent invalid : ContentRange
  present : Option (ℕ × ℕ) → ContentRange

pub record PutRequest : Type 0 where
  pub base : DavRequest
  pub is_patch : Bool
  pub content_length : Option ℕ
  pub content_type : Option Bytes
  pub update_range : Option XUpdateRange
  pub content_range : ContentRange

-- What `body.data()` returns: a `Bytes`, another `Buf` of some pieces, or an error, as `to_ioerror`
-- makes it.
pub data Chunk : Type 0 where
  whole : Bytes → Chunk
  buf : List Bytes → Chunk
  failed : ErrorKind → Chunk

-- `buf.remaining()`
abbrev pub remaining : Chunk → ℕ
remaining (whole b) = length b
remaining (buf bs) = length (concat bs)
remaining (failed e) = 0

-- The variables at the head of the handler, and the options that a range changes.
pub record Spot : Type 0 where
  pub start : ℕ
  pub count : ℕ
  pub have_count : Bool
  pub do_range : Bool
  pub append : Bool
  pub truncate : Bool

abbrev pub sabre : Bytes
sabre =
    b'a' ∷ b'p' ∷ b'p' ∷ b'l' ∷ b'i' ∷ b'c' ∷ b'a' ∷ b't' ∷ b'i' ∷ b'o' ∷ b'n' ∷ b'/' ∷ b'x' ∷ b'-'
    ∷ b's' ∷ b'a' ∷ b'b' ∷ b'r' ∷ b'e' ∷ b'd' ∷ b'a' ∷ b'v' ∷ b'-' ∷ b'p' ∷ b'a' ∷ b'r' ∷ b't'
    ∷ b'i' ∷ b'a' ∷ b'l' ∷ b'u' ∷ b'p' ∷ b'd' ∷ b'a' ∷ b't' ∷ b'e' ∷ []

-- `e - b + 1`
abbrev pub range_size : ℕ → ℕ → ℕ
range_size b e = (e - b + 1) % u64_mod

-- `Err(DavError::StatusClose(..))`
abbrev pub close : {A : Type 0} → ℕ → Outcome DavError A
close status = err (DavError.status_close status)

unfoldable pub initial : Option ℕ → Spot
initial none = record {
  start = 0;
  count = 0;
  have_count = false;
  do_range = false;
  append = false;
  truncate = true;
}
initial (some n) = record {
  start = 0;
  count = n;
  have_count = true;
  do_range = false;
  append = false;
  truncate = true;
}

unfoldable pub update : XUpdateRange → Option DavMetaData → Spot → Outcome DavError Spot
update (XUpdateRange.from_to b e) meta spot =
    if ltb e b || not (range_size b e == spot.count)
    then close 416
    else ok (record spot { start = b })
update (XUpdateRange.all_from b) meta spot = ok (record spot { start = b })
update (XUpdateRange.last n) none spot = ok spot
update (XUpdateRange.last n) (some m) spot =
    if ltb m.len n then close 416 else ok (record spot { start = m.len - n })
update XUpdateRange.append meta spot = ok (record spot { append = true })

abbrev pub is_sabre : Option Bytes → Bool
is_sabre none = false
is_sabre (some t) = t == sabre

-- A PATCH in the style of SabreDAV.
unfoldable pub patch : PutRequest → Option DavMetaData → Spot → Outcome DavError Spot
unfolding update
patch req meta spot =
    if not req.is_patch
    then ok spot
    else if not (is_sabre req.content_type)
    then close 415
    else if not spot.have_count
    then close 411
    else elim req.update_range [
      | none ↦ close 400
      | some r ↦
          and_then (update r meta spot) λ s. ok (record s { do_range = true; truncate = false })
    ]

-- A Content-Range header.
unfoldable pub ranged : ContentRange → Spot → Outcome DavError Spot
ranged absent spot = ok spot
ranged invalid spot = close 400
ranged (present none) spot = ok spot
ranged (present (some (b, e))) spot =
    if ltb e b
    then close 416
    else if spot.have_count && not (range_size b e == spot.count)
    then close 416
    else ok (record spot {
      start = b;
      count = if spot.have_count then spot.count else range_size b e;
      have_count = true;
      do_range = true;
      truncate = false;
    })

abbrev pub is_star : Option ETagList → Bool
is_star (some ETagList.star) = true
is_star _ = false

unfoldable pub open_options : DavRequest → Spot → OpenOptions
open_options req spot = record open_write {
  append = spot.append;
  truncate = spot.truncate;
  create = not (is_star (Conditional.Request.if_match req.conditional));
  create_new = is_star (Conditional.Request.if_none_match req.conditional);
}

-- What the handler has found out before it opens the file.
pub record PutPlan : Type 0 where
  pub path : DavPath
  pub meta : Option DavMetaData
  pub spot : Spot
  pub options : OpenOptions

-- The status and the headers about the file.
pub record PutReply : Type 0 where
  pub status : ℕ
  pub etag : Option ETag
  pub modified : Option ℤ

abbrev pub put_status : Option DavMetaData → ℕ
put_status (some m) = 204
put_status none = 201

unfoldable pub open_error : OpenOptions → FsError → DavError
open_error oo FsError.not_found =
    DavError.status_close (if not oo.create || oo.create_new then 412 else 409)
open_error oo FsError.exists =
    DavError.status_close (if not oo.create || oo.create_new then 412 else 409)
open_error oo e = DavError.fs_error e

module _ {S Entry File L Element : Type 0} (percent_decode : Bytes → Bytes)
    (inner : DavInner S Entry File L Element) where
  unfoldable pub prepare : PutRequest → World S L → Outcome DavError PutPlan
  unfolding patch ranged open_options path get_tokens check_locks
  prepare req w = and_then (path percent_decode inner req.base) λ p.
      and_then (found (inner.fs.metadata p w.files)) λ meta.
        and_then (patch req meta (initial req.content_length)) λ patched.
          and_then (ranged req.content_range patched) λ spot.
            and_then (get_tokens percent_decode inner DavError.status_close req.base meta p w)
              λ tokens.
                and_then
                  (check_locks percent_decode inner (DavError.status_close 423) p false tokens w)
                  λ _. ok (record {
                    path = p;
                    meta = meta;
                    spot = spot;
                    options = open_options req.base spot;
                  })

module _ {S File L : Type 0} (dav_file : DavFile S File) where
  -- `?` on a call of the file.
  abbrev pub raising : {A : Type 0} → Run S FsError A → Run (World S L) DavError A
  raising m = matching (on_files m) pure (λ e. fail (DavError.fs_error e))

  unfoldable pub write_chunk : Chunk → File → Run (World S L) DavError File
  write_chunk (whole b) file = raising (dav_file.write_bytes b file)
  write_chunk (buf bs) file = raising (dav_file.write_buf bs file)
  write_chunk (failed e) file = fail (DavError.io_error e)

  -- The loop over the body, which ends before the chunk that is too much.
  unfoldable pub write_body : Spot → ℕ → File → List Chunk → Run (World S L) DavError (File × ℕ)
  unfolding write_chunk
  write_body spot total file [] = pure (file, total)
  write_body spot total file (failed e ∷ body) = fail (DavError.io_error e)
  write_body spot total file (chunk ∷ body) =
      if spot.have_count && ltb spot.count ((total + remaining chunk) % u64_mod)
      then pure (file, (total + remaining chunk) % u64_mod)
      else (do
        file' ← write_chunk chunk file
        write_body spot ((total + remaining chunk) % u64_mod) file' body)

  unfoldable pub seek_to : Spot → File → Run (World S L) DavError File
  seek_to spot file =
      if spot.do_range
      then matching (on_files (dav_file.seek spot.start file)) pure
          (λ e. fail (DavError.status_close 416))
      else pure file

  -- The reply, if the body was as long as announced.
  unfoldable pub put_reply : PutPlan → File → ℕ → World S L → Outcome DavError PutReply
  put_reply plan file total w =
      if Spot.have_count (PutPlan.spot plan) && ltb (Spot.count (PutPlan.spot plan)) total
      then close 400
      else if Spot.have_count (PutPlan.spot plan) && ltb total (Spot.count (PutPlan.spot plan))
      then close 400
      else elim (dav_file.file_metadata file w.files) [
        | ok m ↦ ok (record {
          status = put_status plan.meta;
          etag = from_meta (conditional_meta m);
          modified = m.modified;
        })
        | err _ ↦ ok (record { status = put_status plan.meta; etag = none; modified = none })
        | panic ↦ panic
        | out_of_fuel ↦ out_of_fuel
      ]

module _ {S Entry File L Element : Type 0} (percent_decode : Bytes → Bytes)
    (inner : DavInner S Entry File L Element) (dav_file : DavFile S File) where
  unfoldable pub open_file : PutPlan → Run (World S L) DavError File
  unfolding open_error
  open_file plan =
      matching (on_files (inner.fs.open_ plan.path plan.options)) pure
        (λ e. fail (open_error plan.options e))

  -- From the opening of the file on.
  unfoldable pub store_body : PutPlan → List Chunk → Run (World S L) DavError PutReply
  unfolding open_file seek_to write_body put_reply
  store_body plan body = do
    opened ← open_file plan
    file ← seek_to dav_file plan.spot opened
    (written, total) ← write_body dav_file plan.spot 0 file body
    flushed ← raising dav_file (dav_file.flush written)
    reads (put_reply dav_file plan flushed total)

  unfoldable pub handle_put : PutRequest → List Chunk → Run (World S L) DavError PutReply
  unfolding prepare store_body
  handle_put req body = do plan ← reads (prepare percent_decode inner req); store_body plan body
