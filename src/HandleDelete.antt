-- ===== src/HandleDelete.antt =====
-- src/handle_delete.rs. The recursion over the file system takes fuel, one for each level.
pub mod Reported
pub mod Confined
pub mod Replies
pub mod Returns
use webdav_handler_rs.Prelude.{
  ℕ, zero, suc, Bool, true, false, not, Option, none, some, List, [], ◌∷◌, Bytes, if◌then◌else◌,
  Outcome, ok, err, panic, out_of_fuel, and_then, Run, pure, fail, reads, out_of_fuel_run,
  on_result, matching, continue, ◌>>=◌, ◌>>◌,
}
use webdav_handler_rs.Errors.{FsError, DavError, statuscode}
use webdav_handler_rs.DavPath.{DavPath, push_segment, add_slash_if}
use webdav_handler_rs.DavHeaders.Depth.{Depth}
use webdav_handler_rs.Fs.{DavFileSystem, DavMetaData}
use webdav_handler_rs.Server.{
  DavInner, DavRequest, World, on_files, reads_files, map_err, path, get_tokens, check_locks,
  delete_locks,
}
use webdav_handler_rs.MultiError
use webdav_handler_rs.MultiError.{Reply, multi_error}

-- The status of an error of the file system.
abbrev pub fs_status : FsError → ℕ
fs_status e = statuscode (DavError.fs_error e)

-- `remove_dir` after its entries: `Exists` is a conflict.
unfoldable pub dir_error : FsError → ℕ
dir_error FsError.exists = 409
dir_error e = fs_status e

module _ {S L A : Type 0} where
  -- `Err(add_status(res, path, e).await)`
  unfoldable pub report : DavPath → ℕ → Run (World S L) DavError A
  unfolding MultiError.add_status
  report p status = do
    MultiError.add_status p (DavError.status status)
    fail (DavError.status status)

module _ {S Entry File L Element : Type 0} (inner : DavInner S Entry File L Element) where
  -- A call on the file system whose error is reported.
  unfoldable pub reporting :
      {A : Type 0} → DavPath → (FsError → ℕ) → Run S FsError A → Run (World S L) DavError A
  unfolding report
  reporting p status m = matching (on_files m) pure (λ e. report p (status e))

  -- The path of an entry.
  unfoldable pub entry_path : DavPath → Entry → DavMetaData → Outcome DavError DavPath
  entry_path p dirent meta =
      and_then (push_segment p (inner.fs.entry_name dirent)) λ npath. add_slash_if npath meta.is_dir

  -- What is left of an entry's error in `result`: only a status lets the loop go on.
  unfoldable pub keep_status : DavError → Run (World S L) DavError (Option DavError)
  keep_status (DavError.status n) = pure (some (DavError.status n))
  keep_status e = fail e

  -- One entry, by the call that deletes what it leads to.
  unfoldable pub delete_entry :
      (DavMetaData → DavPath → Run (World S L) DavError (Unit {0}))
      → DavPath
      → Option DavError
      → Entry
      → Run (World S L) DavError (Option DavError)
  unfolding report entry_path keep_status
  delete_entry delete p result dirent =
      matching (reads_files (inner.fs.entry_metadata dirent))
        (λ meta. do
          npath ← reads (λ _. entry_path p dirent meta)
          matching (delete meta npath) (λ _. pure result) keep_status)
        (λ e.
          matching (report {A = Unit {0}} p (fs_status e)) (λ _. pure result)
            (λ e'. pure (some e')))

  unfoldable pub delete_entries :
      (DavMetaData → DavPath → Run (World S L) DavError (Unit {0}))
      → DavPath
      → Option DavError
      → List Entry
      → Run (World S L) DavError (Option DavError)
  unfolding delete_entry
  delete_entries delete p result [] = pure result
  delete_entries delete p result (dirent ∷ entries) = do
    result' ← delete_entry delete p result dirent
    delete_entries delete p result' entries

  -- `result?`, and then the directory itself.
  unfoldable pub delete_dir : DavPath → Option DavError → Run (World S L) DavError (Unit {0})
  unfolding reporting dir_error
  delete_dir p (some e) = fail e
  delete_dir p none = reporting p dir_error (inner.fs.remove_dir p)

  -- A directory with all that is below it.
  unfoldable pub delete_tree :
      (DavMetaData → DavPath → Run (World S L) DavError (Unit {0}))
      → DavPath
      → Run (World S L) DavError (Unit {0})
  unfolding reporting delete_entries delete_dir
  delete_tree delete p = do
    entries ← reporting p fs_status (λ s. (inner.fs.read_dir p s, s))
    result ← delete_entries delete p none entries
    delete_dir p result

  unfoldable pub delete_items :
      ℕ → Depth → DavMetaData → DavPath → Run (World S L) DavError (Unit {0})
  unfolding reporting delete_tree
  delete_items zero depth meta p = out_of_fuel_run
  delete_items (suc fuel) depth meta p =
      if not meta.is_dir then reporting p fs_status (inner.fs.remove_file p) else elim depth [
        | Depth.zero ↦ reporting p fs_status (inner.fs.remove_dir p)
        | deep ↦ delete_tree (delete_items fuel deep) p
      ]

module _ {S Entry File L Element : Type 0} (percent_decode : Bytes → Bytes)
    (inner : DavInner S Entry File L Element) where
  unfoldable pub delete_depth : Option Depth → Outcome DavError Depth
  delete_depth none = ok Depth.infinity
  delete_depth (some Depth.infinity) = ok Depth.infinity
  delete_depth (some Depth.zero) = ok Depth.zero
  delete_depth (some Depth.one) = err (DavError.status 400)

  -- A slash if the path is of a directory, or of a link to one.
  unfoldable pub resolve_path : DavMetaData → DavPath → World S L → Outcome DavError DavPath
  resolve_path meta p w =
      and_then
        (if meta.is_symlink
          then elim (inner.fs.metadata p w.files) [
            | ok m2 ↦ add_slash_if p m2.is_dir
            | err _ ↦ ok p
            | panic ↦ panic
            | out_of_fuel ↦ out_of_fuel
          ]
          else ok p)
        λ q. add_slash_if q meta.is_dir

  -- All that `handle_delete` does before it deletes anything.
  unfoldable pub prepare : DavRequest → World S L → Outcome DavError (Depth × DavMetaData × DavPath)
  unfolding delete_depth resolve_path path get_tokens check_locks
  prepare req w = and_then (delete_depth req.depth) λ depth.
      and_then (path percent_decode inner req) λ p.
        and_then (map_err DavError.fs_error (inner.fs.symlink_metadata p w.files)) λ meta.
          and_then (resolve_path meta p w) λ q.
            and_then (get_tokens percent_decode inner DavError.status req (some meta) q w) λ tokens.
              and_then (check_locks percent_decode inner (DavError.status 423) q true tokens w)
                λ _. ok (depth, meta, q)

  -- The task behind the stream: it reports what it has done, and never fails itself.
  unfoldable pub delete_all :
      ℕ → Depth → DavMetaData → DavPath → Run (World S L) DavError (Unit {0})
  unfolding delete_items delete_locks MultiError.add_status
  delete_all fuel depth meta p =
      matching (delete_items inner fuel depth meta p)
        (λ _. do delete_locks percent_decode inner p; MultiError.add_status p (DavError.status 204))
        (λ _. pure tt)

  unfoldable pub handle_delete : ℕ → DavRequest → Run (World S L) DavError Reply
  unfolding prepare delete_all multi_error
  handle_delete fuel req = do
    (depth, meta, p) ← reads (prepare req)
    (λ w. delete_all fuel depth meta p (record w { items = [] }))
    reads (λ w. multi_error p w.items)
