-- ===== src/HandleDelete/Reported.antt =====
-- `delete_items` of src/handle_delete.rs and the statuses that it sends.
use webdav_handler_rs.Prelude.{
  ℕ, zero, suc, ◌≤◌, ◌≡◌, refl, sym, subst, Bytes, Bool, true, false, not, Option, none, some, List,
  [], ◌∷◌, arith, if◌then◌else◌, Outcome, ok, err, panic, out_of_fuel, and_then, Run, pure, Ends,
  EndsFrom, Ends-any, EndsFrom-if, continue-Ends, on_result-Ends,
}
use webdav_handler_rs.Errors.{FsError, DavError, statuscode, fserror_to_status}
use webdav_handler_rs.DavPath.{
  DavPath, as_bytes, is_collection, add_slash, add_slash_if, push_segment,
}
use webdav_handler_rs.DavHeaders.Depth.{Depth}
use webdav_handler_rs.Fs.{DavMetaData}
use webdav_handler_rs.Server.{DavInner, World}
use webdav_handler_rs.MultiError
use webdav_handler_rs.MultiError.Answers.{Reports, Reports-one, Reports-then, Silent}
use webdav_handler_rs.HandleDelete.{
  fs_status, dir_error, report, reporting, entry_path, keep_status, delete_entry, delete_entries,
  delete_dir, delete_tree, delete_items,
}

-- A call that fails does so with a status, and has sent failures.
abbrev pub Fails : List (DavPath × ℕ) → DavError → List (DavPath × ℕ) → Type 0
Fails before e after = ((n : ℕ) × (e ≡ DavError.status n)) × Reports before after

fs_status-failure : (e : FsError) → 400 ≤ fs_status e
unfolding statuscode fserror_to_status
fs_status-failure e = ground arith

dir_error-failure : (e : FsError) → 400 ≤ dir_error e
unfolding dir_error statuscode fserror_to_status
dir_error-failure e = ground arith

-- Paths only panic.
abbrev pub NoError : {A : Type 0} → Outcome DavError A → Type 0
NoError (err e) = ⊥
NoError _ = Unit

pub NoError-and_then :
    {A B : Type 0} (o : Outcome DavError A) (f : A → Outcome DavError B)
    → NoError o
    → ((a : A) → NoError (f a))
    → NoError (and_then o f)
NoError-and_then (ok a) f h k = k a
NoError-and_then (err e) f h k = elim h [ ]
NoError-and_then panic f h k = tt
NoError-and_then out_of_fuel f h k = tt

pub NoError-if :
    {A : Type 0} (b : Bool) (x y : Outcome DavError A)
    → NoError x
    → NoError y
    → NoError (if b then x else y)
NoError-if true x y h k = h
NoError-if false x y h k = k

pub NoError-Ends :
    {A S : Type 0} (P : A → S → Type 0) (Q : DavError → S → Type 0) (o : Outcome DavError A) (w : S)
    → NoError o
    → ((a : A) → P a w)
    → Ends P Q o w
NoError-Ends P Q (ok a) w h f = f a
NoError-Ends P Q (err e) w h f = elim h [ ]
NoError-Ends P Q panic w h f = tt
NoError-Ends P Q out_of_fuel w h f = tt

pub add_slash-NoError : (p : DavPath) → NoError (add_slash p)
unfolding add_slash is_collection as_bytes
add_slash-NoError p =
    NoError-and_then (is_collection p) _
      (NoError-and_then (as_bytes p) _ (NoError-if _ (ok _) panic tt tt) (λ path. tt)) (λ dir. tt)

add_slash_if-NoError : (p : DavPath) (b : Bool) → NoError (add_slash_if p b)
unfolding add_slash_if
add_slash_if-NoError p b = NoError-if b _ _ (add_slash-NoError p) tt

pub push_segment-NoError : (p : DavPath) (b : Bytes) → NoError (push_segment p b)
unfolding push_segment
push_segment-NoError p b = NoError-and_then (add_slash p) _ (add_slash-NoError p) (λ q. tt)

module _ {S L : Type 0} where
  report-Fails :
      (A : Type 0) (p : DavPath) (n : ℕ) (w : World S L)
      → 400 ≤ n
      → EndsFrom {A = A}
          (λ a w'. Silent w.items w'.items)
          (λ e w'. Fails w.items e w'.items)
          (report p n)
          w
  unfolding report MultiError.add_status statuscode
  report-Fails A p n w h = ((n, refl), Reports-one w.items p n h)

module _ {S Entry File L Element : Type 0} (inner : DavInner S Entry File L Element) where
  abbrev pub Reported : {A : Type 0} → Run (World S L) DavError A → World S L → Type 0
  Reported m w = EndsFrom (λ a w'. Silent w.items w'.items) (λ e w'. Fails w.items e w'.items) m w

  reporting-Reported :
      {A : Type 0} (p : DavPath) (status : FsError → ℕ) (m : Run S FsError A) (w : World S L)
      → ((e : FsError) → 400 ≤ status e)
      → Reported (reporting inner p status m) w
  unfolding reporting
  reporting-Reported {A} p status m w h =
      on_result-Ends (λ a w'. Silent w.items w'.items) (λ e w'. Silent w.items w'.items) _ _
        (m w.files).0 (record w { files = (m w.files).1 }) pure (λ e. report p (status e))
        (Ends-any _ _ (m w.files).0 _ (λ a. refl) (λ e. refl)) (λ a k. k)
        (λ e k. report-Fails A p (status e) w (h e))

  entry_path-NoError :
      (p : DavPath) (dirent : Entry) (meta : DavMetaData) → NoError (entry_path inner p dirent meta)
  unfolding entry_path
  entry_path-NoError p dirent meta =
      NoError-and_then (push_segment p (inner.fs.entry_name dirent)) _ (push_segment-NoError p _)
        (λ q. add_slash_if-NoError q meta.is_dir)

  -- Where the loop stands, by its `result`.
  abbrev Tracks : List (DavPath × ℕ) → Option DavError → List (DavPath × ℕ) → Type 0
  Tracks before none after = Silent before after
  Tracks before (some e) after = Fails before e after

  -- A failure after what the loop has done.
  Fails-after :
      {before : List (DavPath × ℕ)} (result : Option DavError) {now after : List (DavPath × ℕ)}
      {e : DavError}
      → Tracks before result now
      → Fails now e after
      → Fails before e after
  Fails-after {before} none {now} {after} {e} t f = subst (λ x. Fails x e after) t f
  Fails-after (some e') t f = (f.0, Reports-then t.1 f.1)

  abbrev LoopEnds :
      List (DavPath × ℕ) → Run (World S L) DavError (Option DavError) → World S L → Type 0
  LoopEnds before m w =
      EndsFrom (λ r w'. Tracks before r w'.items) (λ e w'. Fails before e w'.items) m w

  keep_status-LoopEnds :
      (before : List (DavPath × ℕ)) (e : DavError) (w : World S L)
      → Fails before e w.items
      → LoopEnds before (keep_status inner e) w
  unfolding keep_status
  keep_status-LoopEnds before e w f =
      let (n, q) = f.0 in
      subst (λ x. LoopEnds before (keep_status inner x) w) (sym q)
        (subst (λ x. Fails before x w.items) q f)

  delete_dir-Reported :
      (before : List (DavPath × ℕ)) (p : DavPath) (result : Option DavError) (w : World S L)
      → Tracks before result w.items
      → EndsFrom
          (λ a w'. Silent before w'.items)
          (λ e w'. Fails before e w'.items)
          (delete_dir inner p result)
          w
  unfolding delete_dir
  delete_dir-Reported before p (some e) w t = t
  delete_dir-Reported before p none w t =
      subst
        (λ x.
          EndsFrom (λ a w'. Silent x w'.items) (λ e w'. Fails x e w'.items)
            (reporting inner p dir_error (inner.fs.remove_dir p)) w)
        t (reporting-Reported p dir_error (inner.fs.remove_dir p) w dir_error-failure)

  module _ (delete : DavMetaData → DavPath → Run (World S L) DavError (Unit {0}))
      (h : (meta : DavMetaData) (p : DavPath) (w : World S L) → Reported (delete meta p) w) where
    delete_entry-LoopEnds :
        (before : List (DavPath × ℕ)) (p : DavPath) (result : Option DavError) (dirent : Entry)
        (w : World S L)
        → Tracks before result w.items
        → LoopEnds before (delete_entry inner delete p result dirent) w
    unfolding delete_entry
    delete_entry-LoopEnds before p result dirent w t =
        let P : Option DavError → World S L → Type 0 = λ r w'. Tracks before r w'.items in
        let Q : DavError → World S L → Type 0 = λ e w'. Fails before e w'.items in
        on_result-Ends (λ _ _. Unit {0}) (λ _ _. Unit {0}) P Q
          (inner.fs.entry_metadata dirent w.files) w _ _
          (Ends-any (λ _ _. Unit {0}) (λ _ _. Unit {0}) (inner.fs.entry_metadata dirent w.files) w
            (λ _. tt) (λ _. tt))
          (λ meta _.
            continue-Ends (λ _ _. Unit {0}) P Q (entry_path inner p dirent meta) w _
              (NoError-Ends (λ _ _. Unit {0}) Q (entry_path inner p dirent meta) w
                (entry_path-NoError p dirent meta) (λ _. tt))
              (λ npath _.
                on_result-Ends (λ a w'. Silent w.items w'.items) (λ e w'. Fails w.items e w'.items)
                  P Q (delete meta npath w).0 (delete meta npath w).1 (λ _. pure result)
                  (keep_status inner) (h meta npath w)
                  (λ a k. subst (Tracks before result) (sym k) t)
                  (λ e k. keep_status-LoopEnds before e _ (Fails-after result t k))))
          (λ e _.
            on_result-Ends (λ _ w'. Silent w.items w'.items) (λ e' w'. Fails w.items e' w'.items) P
              Q (report {A = Unit {0}} p (fs_status e) w).0
              (report {A = Unit {0}} p (fs_status e) w).1 (λ _. pure result) (λ e'. pure (some e'))
              (report-Fails (Unit {0}) p (fs_status e) w (fs_status-failure e))
              (λ a k. subst (Tracks before result) (sym k) t) (λ e' k. Fails-after result t k))

    delete_entries-LoopEnds :
        (before : List (DavPath × ℕ)) (p : DavPath) (result : Option DavError)
        (entries : List Entry) (w : World S L)
        → Tracks before result w.items
        → LoopEnds before (delete_entries inner delete p result entries) w
    unfolding delete_entries
    delete_entries-LoopEnds before p result [] w t = t
    delete_entries-LoopEnds before p result (dirent ∷ entries) w t =
        let one = delete_entry inner delete p result dirent w in
        continue-Ends (λ r w'. Tracks before r w'.items) _ _ one.0 one.1
          (λ r. delete_entries inner delete p r entries)
          (delete_entry-LoopEnds before p result dirent w t)
          (λ r k. delete_entries-LoopEnds before p r entries one.1 k)

    delete_tree-Reported : (p : DavPath) (w : World S L) → Reported (delete_tree inner delete p) w
    unfolding delete_tree
    delete_tree-Reported p w =
        let P : Unit {0} → World S L → Type 0 = λ a w'. Silent w.items w'.items in
        let Q : DavError → World S L → Type 0 = λ e w'. Fails w.items e w'.items in
        let read : Run (World S L) DavError (List Entry) =
          reporting inner p fs_status (λ s. (inner.fs.read_dir p s, s)) in
        continue-Ends (λ _ w'. Silent w.items w'.items) P Q (read w).0 (read w).1 _
          (reporting-Reported p fs_status (λ s. (inner.fs.read_dir p s, s)) w fs_status-failure)
          (λ entries k.
            let loop = delete_entries inner delete p none entries (read w).1 in
            continue-Ends (λ r w'. Tracks w.items r w'.items) P Q loop.0 loop.1 (delete_dir inner p)
              (delete_entries-LoopEnds w.items p none entries (read w).1 k)
              (λ r k'. delete_dir-Reported w.items p r loop.1 k'))

  -- A call without a failure sends nothing; after a failure it fails with a status, and has sent one
  -- failure at least and nothing else.
  pub delete_items-Reported :
      (fuel : ℕ) (depth : Depth) (meta : DavMetaData) (p : DavPath) (w : World S L)
      → Reported (delete_items inner fuel depth meta p) w
  unfolding delete_items
  delete_items-Reported zero depth meta p w = tt
  delete_items-Reported (suc fuel) depth meta p w =
      EndsFrom-if (λ a w'. Silent w.items w'.items) (λ e w'. Fails w.items e w'.items)
        (not meta.is_dir) _ _ w
        (λ _. reporting-Reported p fs_status (inner.fs.remove_file p) w fs_status-failure)
        (λ _. by_depth depth (λ d.
          delete_tree-Reported (delete_items inner fuel d) (delete_items-Reported fuel d) p w))
    where
      by_depth :
          (d : Depth)
          → ((d : Depth) → Reported (delete_tree inner (delete_items inner fuel d) p) w)
          → Reported
              (elim d [
                | Depth.zero ↦ reporting inner p fs_status (inner.fs.remove_dir p)
                | deep ↦ delete_tree inner (delete_items inner fuel deep) p
              ])
              w
      by_depth Depth.zero tree =
          reporting-Reported p fs_status (inner.fs.remove_dir p) w fs_status-failure
      by_depth Depth.one tree = tree Depth.one
      by_depth Depth.infinity tree = tree Depth.infinity
