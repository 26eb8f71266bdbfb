-- ===== src/HandleDelete/Returns.antt =====
-- The fuel of `delete_items` of src/handle_delete.rs.
use webdav_handler_rs.Prelude.{
  IsDone, Halts, continue-Halts, on_result-Halts, and_then-IsDone, if-IsDone, ℕ, zero, suc, ◌≡◌,
  ◌≢◌, refl, subst, true, Option, none, some, List, [], ◌∷◌, All, Bool-cases, inl, inr, Outcome, ok,
  err, panic, out_of_fuel, Run, pure, continue,
}
use webdav_handler_rs.Errors.{FsError, DavError}
use webdav_handler_rs.DavPath.{
  DavPath, as_bytes, is_collection, add_slash, add_slash_if, push_segment,
}
use webdav_handler_rs.DavHeaders.Depth.{Depth}
use webdav_handler_rs.Fs.{DavFileSystem, DavMetaData}
use webdav_handler_rs.Server.{DavInner, World}
use webdav_handler_rs.MultiError
use webdav_handler_rs.HandleDelete.{
  fs_status, dir_error, report, reporting, entry_path, keep_status, delete_entry, delete_entries,
  delete_dir, delete_tree, delete_items,
}

-- A file system whose calls end, and whose removals keep `P`.
pub record IsTotal {S Entry File : Type 0} (P : S → Type 0) (fs : DavFileSystem S Entry File)
    : Type 0 where
  pub read_dir_done : (p : DavPath) (s : S) → IsDone (fs.read_dir p s)
  pub entry_metadata_done : (e : Entry) (s : S) → IsDone (fs.entry_metadata e s)
  pub remove_file_halts :
      (p : DavPath) (s : S) → P s → Halts P (fs.remove_file p s).0 (fs.remove_file p s).1
  pub remove_dir_halts :
      (p : DavPath) (s : S) → P s → Halts P (fs.remove_dir p s).0 (fs.remove_dir p s).1

add_slash-IsDone : (p : DavPath) → IsDone {E = DavError} (add_slash p)
unfolding add_slash is_collection as_bytes
add_slash-IsDone p =
    and_then-IsDone (is_collection p) _
      (and_then-IsDone (as_bytes p) _ (if-IsDone _ (ok _) panic tt tt) (λ path. tt)) (λ dir. tt)

module _ {S Entry File L Element : Type 0} (inner : DavInner S Entry File L Element)
    (P : S → Type 0) where
  -- What is at a path has at most so many levels of entries, in any state with `P`.
  abbrev pub HasLevels : ℕ → DavMetaData → DavPath → Type 0
  HasLevels zero meta p = ⊥
  HasLevels (suc n) meta p =
      meta.is_dir ≡ true
      → (s : S) → P s
      → (entries : List Entry) → inner.fs.read_dir p s ≡ ok entries
      → All
          (λ e.
            (s' : S)
            → P s'
            → (m : DavMetaData) → inner.fs.entry_metadata e s' ≡ ok m
            → (q : DavPath) → entry_path inner p e m ≡ ok q
            → HasLevels n m q)
          entries

  abbrev Files : World S L → Type 0
  Files w = P w.files

  abbrev EndsWell : {A : Type 0} → Run (World S L) DavError A → World S L → Type 0
  EndsWell m w = Halts Files (m w).0 (m w).1

  -- The entries of `p` in a state, each with its levels.
  abbrev EntryLevels : ℕ → DavPath → Entry → Type 0
  EntryLevels n p e =
      (s' : S)
      → P s'
      → (m : DavMetaData) → inner.fs.entry_metadata e s' ≡ ok m
      → (q : DavPath) → entry_path inner p e m ≡ ok q
      → HasLevels n m q

  report-Halts :
      (A : Type 0) (p : DavPath) (n : ℕ) (w : World S L)
      → Files w
      → Halts Files (report {A = A} p n w).0 (report {A = A} p n w).1
  unfolding report MultiError.add_status
  report-Halts A p n w h = (tt, h)

  reporting-Halts :
      (A : Type 0) (p : DavPath) (status : FsError → ℕ) (m : Run S FsError A) (w : World S L)
      → Halts P (m w.files).0 (m w.files).1
      → Halts Files (reporting inner p status m w).0 (reporting inner p status m w).1
  unfolding reporting
  reporting-Halts A p status m w h =
      on_result-Halts Files (m w.files).0 (record w { files = (m w.files).1 }) pure
        (λ e. report p (status e)) h (λ a _. (tt, h.1))
        (λ e. report-Halts A p (status e) (record w { files = (m w.files).1 }) h.1)

  -- A question to the file system, and what follows it.
  asking-Halts :
      {A B : Type 0} (p : DavPath) (o : Outcome FsError A) (w : World S L)
      (k : A → Run (World S L) DavError B)
      → IsDone o
      → Files w
      → ((a : A) → o ≡ ok a → Halts Files (k a w).0 (k a w).1)
      → Halts Files
          (continue
            (reporting inner p fs_status (λ s. (o, s)) w).0
            (reporting inner p fs_status (λ s. (o, s)) w).1
            k).0
          (continue
            (reporting inner p fs_status (λ s. (o, s)) w).0
            (reporting inner p fs_status (λ s. (o, s)) w).1
            k).1
  unfolding reporting report MultiError.add_status
  asking-Halts p (ok a) w k done h rest = rest a refl
  asking-Halts p (err e) w k done h rest = (tt, h)
  asking-Halts p panic w k done h rest = (tt, h)
  asking-Halts p out_of_fuel w k done h rest = absurd done

  entry_path-IsDone : (p : DavPath) (e : Entry) (m : DavMetaData) → IsDone (entry_path inner p e m)
  unfolding entry_path push_segment add_slash_if
  entry_path-IsDone p e m =
      and_then-IsDone (push_segment p (inner.fs.entry_name e)) _
        (and_then-IsDone (add_slash p) _ (add_slash-IsDone p) (λ q. tt))
        (λ q. if-IsDone m.is_dir _ (ok q) (add_slash-IsDone q) tt)

  keep_status-Halts :
      (e : DavError) (w : World S L)
      → Files w
      → Halts Files (keep_status inner e w).0 (keep_status inner e w).1
  unfolding keep_status
  keep_status-Halts (DavError.status n) w h = (tt, h)
  keep_status-Halts e w h = (tt, h)

  module _ (total : IsTotal P inner.fs) where
    delete_dir-Halts :
        (p : DavPath) (result : Option DavError) (w : World S L)
        → Files w
        → Halts Files (delete_dir inner p result w).0 (delete_dir inner p result w).1
    unfolding delete_dir
    delete_dir-Halts p (some e) w h = (tt, h)
    delete_dir-Halts p none w h =
        reporting-Halts (Unit {0}) p dir_error (inner.fs.remove_dir p) w
          (total.remove_dir_halts p w.files h)

    module _ (n : ℕ) (delete : DavMetaData → DavPath → Run (World S L) DavError (Unit {0}))
        (halts : (m : DavMetaData) (q : DavPath)
          → HasLevels n m q
          → (w : World S L) → Files w
          → Halts Files (delete m q w).0 (delete m q w).1) where
      delete_entry-Halts :
          (p : DavPath) (result : Option DavError) (e : Entry) (w : World S L)
          → EntryLevels n p e
          → Files w
          → Halts Files
              (delete_entry inner delete p result e w).0
              (delete_entry inner delete p result e w).1
      unfolding delete_entry
      delete_entry-Halts p result e w levels h =
          on_result-Halts Files (inner.fs.entry_metadata e w.files) w _ _
            (total.entry_metadata_done e w.files, h)
            (λ m read.
              continue-Halts Files (entry_path inner p e m) w _ (entry_path-IsDone p e m, h)
                (λ q at.
                  on_result-Halts Files (delete m q w).0 (delete m q w).1 (λ _. pure result)
                    (keep_status inner) (halts m q (levels w.files h m read q at) w h)
                    (λ _ _. (tt, (halts m q (levels w.files h m read q at) w h).1))
                    (λ e'.
                      keep_status-Halts e' (delete m q w).1
                        (halts m q (levels w.files h m read q at) w h).1)))
            (λ e'.
              let r = report {A = Unit {0}} p (fs_status e') w in
              on_result-Halts Files {E' = DavError} r.0 r.1 (λ _. pure result)
                (λ e''. pure (some e'')) (report-Halts (Unit {0}) p (fs_status e') w h)
                (λ _ _. (tt, (report-Halts (Unit {0}) p (fs_status e') w h).1))
                (λ e''. (tt, (report-Halts (Unit {0}) p (fs_status e') w h).1)))

      delete_entries-Halts :
          (p : DavPath) (result : Option DavError) (entries : List Entry) (w : World S L)
          → All (EntryLevels n p) entries
          → Files w
          → Halts Files
              (delete_entries inner delete p result entries w).0
              (delete_entries inner delete p result entries w).1
      unfolding delete_entries
      delete_entries-Halts p result [] w levels h = (tt, h)
      delete_entries-Halts p result (e ∷ entries) w levels h =
          let one = delete_entry inner delete p result e w in
          let done = delete_entry-Halts p result e w levels.0 h in
          continue-Halts Files one.0 one.1 (λ r. delete_entries inner delete p r entries) done
            (λ r _. delete_entries-Halts p r entries one.1 levels.1 done.1)

      delete_tree-Halts :
          (p : DavPath) (w : World S L)
          → ((entries : List Entry)
              → inner.fs.read_dir p w.files ≡ ok entries
              → All (EntryLevels n p) entries)
          → Files w
          → Halts Files (delete_tree inner delete p w).0 (delete_tree inner delete p w).1
      unfolding delete_tree
      delete_tree-Halts p w levels h =
          asking-Halts p (inner.fs.read_dir p w.files) w _ (total.read_dir_done p w.files) h
            (λ entries read.
              let loop = delete_entries inner delete p none entries w in
              let done = delete_entries-Halts p none entries w (levels entries read) h in
              continue-Halts Files loop.0 loop.1 (delete_dir inner p) done
                (λ r _. delete_dir-Halts p r loop.1 done.1))

    delete_items-Halts :
        (fuel : ℕ) (depth : Depth) (m : DavMetaData) (p : DavPath)
        → HasLevels fuel m p
        → (w : World S L) → Files w
        → Halts Files
            (delete_items inner fuel depth m p w).0
            (delete_items inner fuel depth m p w).1
    unfolding delete_items
    delete_items-Halts zero depth m p levels w h = absurd levels
    delete_items-Halts (suc fuel) depth m p levels w h = elim (Bool-cases m.is_dir) [
      | inl is_dir ↦ rw is_dir (
          by_depth depth (λ d.
            delete_tree-Halts fuel (delete_items inner fuel d) (delete_items-Halts fuel d) p w
              (levels is_dir w.files h) h))
      | inr is_file ↦ rw is_file (
          reporting-Halts (Unit {0}) p fs_status (inner.fs.remove_file p) w
            (total.remove_file_halts p w.files h))
    ]
      where
        by_depth :
            (d : Depth)
            → ((d : Depth) → EndsWell (delete_tree inner (delete_items inner fuel d) p) w)
            → EndsWell
                (elim d [
                  | Depth.zero ↦ reporting inner p fs_status (inner.fs.remove_dir p)
                  | deep ↦ delete_tree inner (delete_items inner fuel deep) p
                ])
                w
        by_depth Depth.zero tree =
            reporting-Halts (Unit {0}) p fs_status (inner.fs.remove_dir p) w
              (total.remove_dir_halts p w.files h)
        by_depth Depth.one tree = tree Depth.one
        by_depth Depth.infinity tree = tree Depth.infinity

  -- On a file system whose calls end, `delete_items` ends with as much fuel as there are levels
  -- of entries at its path: it returns, fails or panics.
  pub delete_items_returns :
      IsTotal P inner.fs
      → (fuel : ℕ) (depth : Depth) (m : DavMetaData) (p : DavPath) → HasLevels fuel m p
      → (w : World S L) → P w.files
      → (delete_items inner fuel depth m p w).0 ≢ out_of_fuel
  delete_items_returns total fuel depth m p levels w h e =
      subst IsDone e (delete_items-Halts total fuel depth m p levels w h).0
