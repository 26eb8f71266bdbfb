-- ===== src/HandleCopymove.antt =====
-- src/handle_copymove.rs. The recursion over the source takes fuel, one for each level.
pub mod Reported
pub mod Cleared
pub mod Planned
pub mod Replies
use webdav_handler_rs.Prelude.{
  ℕ, zero, suc, Bool, true, false, not, ◌&&◌, ◌||◌, Option, none, some, List, [], ◌∷◌, Bytes,
  if◌then◌else◌, Outcome, ok, err, panic, out_of_fuel, and_then, Run, pure, fail, reads,
  out_of_fuel_run, on_result, matching, continue, ◌>>=◌, ◌>>◌,
}
use webdav_handler_rs.Errors.{FsError, DavError, statuscode}
use webdav_handler_rs.DavPath.{
  DavPath, parse_error_into, from_str_and_prefix, eq, add_slash, add_slash_if, push_segment,
}
use webdav_handler_rs.DavHeaders.Depth.{Depth}
use webdav_handler_rs.Fs.{DavFileSystem, DavMetaData}
use webdav_handler_rs.Server.{
  DavInner, DavRequest, World, on_files, reads_files, map_err, path, has_parent, get_tokens,
  check_locks, delete_locks,
}
use webdav_handler_rs.MultiError
use webdav_handler_rs.MultiError.{Reply, multi_error}
use webdav_handler_rs.HandleDelete.{delete_items}

-- `DavMethod::Copy` and `DavMethod::Move`, the methods that the handler is called with.
pub data CopyMove : Type 0 where
  copy move : CopyMove

abbrev pub is_zero : Depth → Bool
is_zero Depth.zero = true
is_zero _ = false

-- `e != FsError::Exists`
abbrev pub is_exists : FsError → Bool
is_exists FsError.exists = true
is_exists _ = false

module _ {S L A : Type 0} where
  -- `add_status`, which passes the error on.
  unfoldable pub report : DavPath → FsError → Run (World S L) DavError A
  unfolding MultiError.add_status
  report p e = do MultiError.add_status p (DavError.fs_error e); fail (DavError.fs_error e)

module _ {S Entry File L Element : Type 0} (inner : DavInner S Entry File L Element) where
  -- A call on the file system whose error is reported.
  unfoldable pub reporting : {A : Type 0} → DavPath → Run S FsError A → Run (World S L) DavError A
  unfolding report
  reporting p m = matching (on_files m) pure (report p)

  -- The paths of an entry in the source and in the destination.
  unfoldable pub entry_paths :
      DavPath → DavPath → Entry → DavMetaData → Outcome DavError (DavPath × DavPath)
  entry_paths source dest dirent meta =
      and_then (push_segment source (inner.fs.entry_name dirent)) λ nsrc.
        and_then (push_segment dest (inner.fs.entry_name dirent)) λ ndest.
          if meta.is_dir
          then (and_then (add_slash nsrc)
              λ nsrc'. and_then (add_slash ndest) λ ndest'. ok (nsrc', ndest'))
          else ok (nsrc, ndest)

  -- The loop over the entries, with `retval`: an error of an entry's copy is kept, and one of its
  -- metadata ends the loop.
  unfoldable pub copy_entries :
      (DavPath → DavPath → Run (World S L) DavError (Unit {0}))
      → DavPath
      → DavPath
      → Option DavError
      → List Entry
      → Run (World S L) DavError (Option DavError)
  unfolding report entry_paths
  copy_entries rec source dest retval [] = pure retval
  copy_entries rec source dest retval (dirent ∷ entries) = do
    meta ← matching (reads_files (inner.fs.entry_metadata dirent)) pure (report source)
    paths ← reads (λ _. entry_paths source dest dirent meta)
    retval' ← matching (rec paths.0 paths.1) (λ _. pure retval) (λ e. pure (some e))
    copy_entries rec source dest retval' entries

  unfoldable pub copy_result : Option DavError → Run (World S L) DavError (Unit {0})
  copy_result none = pure tt
  copy_result (some e) = fail e

  -- The entries of a directory.
  unfoldable pub copy_below :
      (DavPath → DavPath → Run (World S L) DavError (Unit {0}))
      → DavPath
      → DavPath
      → Run (World S L) DavError (Unit {0})
  unfolding reporting copy_entries copy_result
  copy_below rec source dest = do
    entries ← reporting source (λ s. (inner.fs.read_dir source s, s))
    retval ← copy_entries rec source dest none entries
    copy_result retval

  -- `create_dir`: with Depth 0 the directory may exist.
  unfoldable pub make_dir : Depth → DavPath → Run (World S L) DavError (Unit {0})
  unfolding report
  make_dir depth dest =
      matching (on_files (inner.fs.create_dir dest)) pure
        λ e. if not (is_zero depth) || not (is_exists e) then report dest e else pure tt

  unfoldable pub do_copy :
      ℕ → DavPath → Depth → DavPath → DavPath → Run (World S L) DavError (Unit {0})
  unfolding reporting make_dir copy_below
  do_copy zero topdest depth source dest = out_of_fuel_run
  do_copy (suc fuel) topdest depth source dest = if eq source topdest then pure tt else (do
    meta ← reporting source (λ s. (inner.fs.metadata source s, s))
    if not meta.is_dir then reporting source (inner.fs.copy source dest) else (do
      make_dir depth dest
      if is_zero depth then pure tt else copy_below (do_copy fuel topdest depth) source dest))

  unfoldable pub do_move : DavPath → DavPath → Run (World S L) DavError (Unit {0})
  unfolding reporting
  do_move source dest = reporting source (inner.fs.rename source dest)

-- What `handle_copymove` has found out before it changes anything.
pub record Plan : Type 0 where
  pub depth : Depth
  pub path : DavPath
  pub dest : DavPath
  pub dest_meta : Option DavMetaData
  pub dest_is_file : Bool

unfoldable pub copy_depth : CopyMove → Option Depth → Outcome DavError Depth
copy_depth method none = ok Depth.infinity
copy_depth method (some Depth.infinity) = ok Depth.infinity
copy_depth copy (some Depth.zero) = ok Depth.zero
copy_depth method (some _) = err (DavError.status 400)

abbrev pub is_there : Option DavMetaData → Bool
is_there none = false
is_there (some m) = true

-- `map_or(true, |o| o.0)`
abbrev pub overwrites : DavRequest → Bool
overwrites req = elim req.overwrite [ none ↦ true | some o ↦ o ]

-- The status of success.
abbrev pub created : Option DavMetaData → ℕ
created none = 201
created (some m) = 204

module _ {S Entry File L Element : Type 0} (percent_decode : Bytes → Bytes)
    (inner : DavInner S Entry File L Element) where
  unfoldable pub destination : Option Bytes → Outcome DavError DavPath
  destination none = err (DavError.status 400)
  destination (some d) =
      map_err parse_error_into (from_str_and_prefix percent_decode d inner.prefix)

  -- The metadata of the source, and its path with a slash if it is a directory or, for a move, a
  -- link to one.
  unfoldable pub source_meta :
      CopyMove → DavPath → World S L → Outcome DavError (DavMetaData × DavPath)
  source_meta copy p w =
      and_then (map_err DavError.fs_error (inner.fs.metadata p w.files))
        λ meta. and_then (add_slash_if p meta.is_dir) λ q. ok (meta, q)
  source_meta move p w =
      and_then (map_err DavError.fs_error (inner.fs.symlink_metadata p w.files)) λ meta.
        and_then
          (if meta.is_symlink
            then (and_then (map_err DavError.fs_error (inner.fs.metadata p w.files))
                λ m2. add_slash_if p m2.is_dir)
            else ok p)
          λ q. and_then (add_slash_if q meta.is_dir) λ r. ok (meta, r)

  -- Is the destination a file, or a link to one? And its metadata, if there is any.
  unfoldable pub dest_meta : DavPath → World S L → Outcome DavError (Bool × Option DavMetaData)
  dest_meta dest w = elim (inner.fs.symlink_metadata dest w.files) [
    | err _ ↦ ok (false, none)
    | panic ↦ panic
    | out_of_fuel ↦ out_of_fuel
    | ok meta ↦
        and_then
          (if meta.is_symlink
            then elim (inner.fs.metadata dest w.files) [
              | ok m ↦ ok m.is_file
              | err _ ↦ ok false
              | panic ↦ panic
              | out_of_fuel ↦ out_of_fuel
            ]
            else ok false)
          λ linked. ok ((if meta.is_file then true else linked), some meta)
  ]

  -- A move also asks for the locks of the source.
  unfoldable pub check_both :
      CopyMove → DavPath → DavPath → List Bytes → World S L → Outcome DavError (Unit {0})
  unfolding check_locks
  check_both copy p dest tokens w =
      check_locks percent_decode inner (DavError.status 423) dest true tokens w
  check_both move p dest tokens w =
      and_then (check_locks percent_decode inner (DavError.status 423) p true tokens w)
        λ _. check_locks percent_decode inner (DavError.status 423) dest true tokens w

  unfoldable pub prepare : CopyMove → DavRequest → World S L → Outcome DavError Plan
  unfolding copy_depth destination path source_meta has_parent dest_meta get_tokens check_both
  prepare method req w = and_then (copy_depth method req.depth) λ depth.
      and_then (destination req.destination) λ dest. and_then (path percent_decode inner req) λ p.
        and_then (source_meta method p w) λ m.
          and_then (has_parent percent_decode inner dest w) λ parent.
            if not parent
            then err (DavError.status 409)
            else (and_then (dest_meta dest w) λ d.
                if not (overwrites req) && is_there d.1
                then err (DavError.status 412)
                else if eq m.1 dest
                then err (DavError.status 403)
                else (and_then
                    (get_tokens percent_decode inner DavError.status req (some m.0) m.1 w)
                    λ tokens. and_then (check_both method m.1 dest tokens w) λ _. ok (record {
                      depth = depth;
                      path = m.1;
                      dest = dest;
                      dest_meta = d.1;
                      dest_is_file = d.0;
                    })))

  -- The destination is deleted first if it may be overwritten and is no file.
  unfoldable pub clear_dest : ℕ → Bool → Plan → Run (World S L) DavError (Unit {0})
  unfolding delete_items delete_locks
  clear_dest fuel overwrite plan = elim plan.dest_meta [
    | none ↦ pure tt
    | some meta ↦
        if overwrite && not (is_zero (Plan.depth plan)) && not (Plan.dest_is_file plan)
        then (do
          delete_items inner fuel Depth.infinity meta (Plan.dest plan)
          delete_locks percent_decode inner (Plan.dest plan))
        else pure tt
  ]

  unfoldable pub transfer : ℕ → CopyMove → Plan → Run (World S L) DavError (Unit {0})
  unfolding do_copy do_move delete_locks
  transfer fuel copy plan = do_copy inner fuel plan.dest plan.depth plan.path plan.dest
  transfer fuel move plan = do
    do_move inner plan.path plan.dest
    delete_locks percent_decode inner plan.path

  -- The task behind the stream: what fails has been reported, and ends it.
  unfoldable pub copy_all : ℕ → CopyMove → Bool → Plan → Run (World S L) DavError (Unit {0})
  unfolding clear_dest transfer MultiError.add_status
  copy_all fuel method overwrite plan =
      matching (do clear_dest fuel overwrite plan; transfer fuel method plan)
        (λ _. MultiError.add_status plan.path (DavError.status (created plan.dest_meta)))
        (λ _. pure tt)

  unfoldable pub handle_copymove : ℕ → CopyMove → DavRequest → Run (World S L) DavError Reply
  unfolding prepare copy_all multi_error
  handle_copymove fuel method req = do
    plan ← reads (prepare method req)
    (λ w. copy_all fuel method (overwrites req) plan (record w { items = [] }))
    reads (λ w. multi_error plan.path w.items)
