-- ===== src/HandleDelete/Confined.antt =====
-- What `delete_items` of src/handle_delete.rs touches.
use webdav_handler_rs.Prelude.{
  ℕ, zero, suc, ◌≡◌, refl, not, Option, none, some, List, [], ◌∷◌, ok, Run, pure, Keeps, Keeps-bind,
  Keeps-if, Keeps-matching, Keeps-reads_bind,
}
use webdav_handler_rs.Errors.{FsError, DavError}
use webdav_handler_rs.DavPath.{DavPath}
use webdav_handler_rs.DavHeaders.Depth.{Depth}
use webdav_handler_rs.Fs.{DavMetaData}
use webdav_handler_rs.Server.{DavInner, World, on_files, reads_files}
use webdav_handler_rs.MultiError
use webdav_handler_rs.HandleDelete.{
  fs_status, dir_error, report, reporting, entry_path, keep_status, delete_entry, delete_entries,
  delete_dir, delete_tree, delete_items,
}

module _ {S Entry File L Element : Type 0} (inner : DavInner S Entry File L Element) where
  -- The paths that the recursion makes from `p`: each is that of an entry in the one before it.
  pub data Under (p : DavPath) : DavPath → Type 0 where
    here : Under p p
    below :
        {q r : DavPath} (dirent : Entry) (meta : DavMetaData)
        → Under p q
        → entry_path inner q dirent meta ≡ ok r
        → Under p r

  module _ (P : S → Type 0) (locks : L) (p : DavPath)
      (file_kept : (q : DavPath) → Under p q → Keeps P (inner.fs.remove_file q))
      (dir_kept : (q : DavPath) → Under p q → Keeps P (inner.fs.remove_dir q)) where
    abbrev Confined : World S L → Type 0
    Confined w = P w.files × (w.locks ≡ locks)

    on_files-Confined : {A : Type 0} (m : Run S FsError A) → Keeps P m → Keeps Confined (on_files m)
    on_files-Confined m k = record { at = λ w h. (k.at w.files h.0, h.1) }

    report-Confined : (A : Type 0) (q : DavPath) (n : ℕ) → Keeps Confined (report {A = A} q n)
    unfolding report MultiError.add_status
    report-Confined A q n = record { at = λ w h. h }

    reporting-Confined :
        (A : Type 0) (q : DavPath) (status : FsError → ℕ) (m : Run S FsError A)
        → Keeps P m
        → Keeps Confined (reporting inner q status m)
    unfolding reporting
    reporting-Confined A q status m k =
        Keeps-matching (on_files m) pure (λ e. report q (status e)) (on_files-Confined m k)
          (λ a. record { at = λ w h. h }) (λ e. report-Confined A q (status e))

    keep_status-Confined : (e : DavError) → Keeps Confined (keep_status inner e)
    unfolding keep_status
    keep_status-Confined (DavError.status n) = record { at = λ w h. h }
    keep_status-Confined e = record { at = λ w h. h }

    module _ (delete : DavMetaData → DavPath → Run (World S L) DavError (Unit {0}))
        (kept : (meta : DavMetaData) (q : DavPath)
          → Under p q
          → Keeps Confined (delete meta q)) where
      delete_entry-Confined :
          (q : DavPath) (result : Option DavError) (dirent : Entry)
          → Under p q
          → Keeps Confined (delete_entry inner delete q result dirent)
      unfolding delete_entry
      delete_entry-Confined q result dirent u =
          Keeps-matching (reads_files (inner.fs.entry_metadata dirent)) _ _
            (record { at = λ w h. h })
            (λ meta. Keeps-reads_bind (entry_path inner q dirent meta) _ λ r e.
              Keeps-matching (delete meta r) (λ _. pure result) (keep_status inner)
                (kept meta r (below dirent meta u e)) (λ _. record { at = λ w h. h })
                keep_status-Confined)
            (λ e.
              Keeps-matching (report {A = Unit {0}} q (fs_status e)) (λ _. pure result)
                (λ e'. pure (some e')) (report-Confined (Unit {0}) q (fs_status e))
                (λ _. record { at = λ w h. h }) (λ _. record { at = λ w h. h }))

      delete_entries-Confined :
          (q : DavPath) (result : Option DavError) (entries : List Entry)
          → Under p q
          → Keeps Confined (delete_entries inner delete q result entries)
      unfolding delete_entries
      delete_entries-Confined q result [] u = record { at = λ w h. h }
      delete_entries-Confined q result (dirent ∷ entries) u =
          Keeps-bind (delete_entry inner delete q result dirent)
            (λ r. delete_entries inner delete q r entries) (delete_entry-Confined q result dirent u)
            (λ r. delete_entries-Confined q r entries u)

      delete_dir-Confined :
          (q : DavPath) (result : Option DavError)
          → Under p q
          → Keeps Confined (delete_dir inner q result)
      unfolding delete_dir
      delete_dir-Confined q none u =
          reporting-Confined _ q dir_error (inner.fs.remove_dir q) (dir_kept q u)
      delete_dir-Confined q (some e) u = record { at = λ w h. h }

      delete_tree-Confined : (q : DavPath) → Under p q → Keeps Confined (delete_tree inner delete q)
      unfolding delete_tree
      delete_tree-Confined q u =
          Keeps-bind (reporting inner q fs_status (λ s. (inner.fs.read_dir q s, s))) _
            (reporting-Confined _ q fs_status (λ s. (inner.fs.read_dir q s, s))
              (record { at = λ s h. h }))
            (λ entries.
              Keeps-bind (delete_entries inner delete q none entries) (delete_dir inner q)
                (delete_entries-Confined q none entries u) (λ r. delete_dir-Confined q r u))

    delete_items-Confined :
        (fuel : ℕ) (depth : Depth) (meta : DavMetaData) (q : DavPath)
        → Under p q
        → Keeps Confined (delete_items inner fuel depth meta q)
    unfolding delete_items
    delete_items-Confined zero depth meta q u = record { at = λ w h. h }
    delete_items-Confined (suc fuel) depth meta q u =
        Keeps-if (not meta.is_dir) _ _
          (reporting-Confined _ q fs_status (inner.fs.remove_file q) (file_kept q u))
          (by_depth depth (λ d.
            delete_tree-Confined (delete_items inner fuel d) (delete_items-Confined fuel d) q u))
      where
        by_depth :
            (d : Depth)
            → ((d : Depth) → Keeps Confined (delete_tree inner (delete_items inner fuel d) q))
            → Keeps Confined (elim d [
              | Depth.zero ↦ reporting inner q fs_status (inner.fs.remove_dir q)
              | deep ↦ delete_tree inner (delete_items inner fuel deep) q
            ])
        by_depth Depth.zero tree =
            reporting-Confined _ q fs_status (inner.fs.remove_dir q) (dir_kept q u)
        by_depth Depth.one tree = tree Depth.one
        by_depth Depth.infinity tree = tree Depth.infinity

  -- `delete_items` of a path changes the files only by `remove_file` and `remove_dir` of that
  -- path and of the paths of entries below it: what these calls keep is kept, whatever it
  -- returns. The locks are as before.
  pub delete_items-kept :
      (P : S → Type 0) (p : DavPath)
      → ((q : DavPath) → Under p q → Keeps P (inner.fs.remove_file q))
      → ((q : DavPath) → Under p q → Keeps P (inner.fs.remove_dir q))
      → (fuel : ℕ) (depth : Depth) (meta : DavMetaData) (w : World S L) → P w.files
      → P (delete_items inner fuel depth meta p w).1.files
        × ((delete_items inner fuel depth meta p w).1.locks ≡ w.locks)
  delete_items-kept P p file_kept dir_kept fuel depth meta w h =
      (delete_items-Confined P w.locks p file_kept dir_kept fuel depth meta p here).at w (h, refl)
