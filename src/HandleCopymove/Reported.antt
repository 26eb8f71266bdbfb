-- ===== src/HandleCopymove/Reported.antt =====
-- `do_copy` and `do_move` of src/handle_copymove.rs and the statuses that they send.
use webdav_handler_rs.Prelude.{
  ℕ, zero, suc, ◌≤◌, ◌≡◌, refl, sym, subst, not, ◌||◌, Option, none, some, List, [], ◌∷◌, arith,
  if◌then◌else◌, Outcome, ok, Run, pure, on_result, matching, continue, Ends, EndsFrom, Ends-any,
  EndsFrom-if, continue-Ends, on_result-Ends,
}
use webdav_handler_rs.Errors.{FsError, DavError, statuscode, fserror_to_status}
use webdav_handler_rs.DavPath.{DavPath, eq, add_slash, push_segment}
use webdav_handler_rs.DavHeaders.Depth.{Depth}
use webdav_handler_rs.Fs.{DavMetaData}
use webdav_handler_rs.Server.{DavInner, World, reads_files}
use webdav_handler_rs.MultiError
use webdav_handler_rs.MultiError.Answers.{Reports, Reports-one, Reports-then, Silent}
use webdav_handler_rs.HandleDelete.Reported.{
  NoError, NoError-and_then, NoError-if, NoError-Ends, add_slash-NoError, push_segment-NoError,
}
use webdav_handler_rs.HandleCopymove.{
  is_zero, is_exists, report, reporting, entry_paths, copy_entries, copy_result, copy_below,
  make_dir, do_copy, do_move,
}

fs_failure : (e : FsError) → 400 ≤ statuscode (DavError.fs_error e)
unfolding statuscode fserror_to_status
fs_failure e = ground arith

module _ {S L : Type 0} where
  -- A call that is done sends nothing, and one that fails has sent failures.
  abbrev pub Reported : {A : Type 0} → Run (World S L) DavError A → World S L → Type 0
  Reported m w = EndsFrom (λ a w'. Silent w.items w'.items) (λ e w'. Reports w.items w'.items) m w

  -- Reported, as from `before`.
  abbrev pub Since : {A : Type 0} → List (DavPath × ℕ) → Outcome DavError A → World S L → Type 0
  Since before o w = Ends (λ a w'. Silent before w'.items) (λ e w'. Reports before w'.items) o w

  report-Reports :
      (A : Type 0) (p : DavPath) (e : FsError) (w : World S L) → Reported (report {A = A} p e) w
  unfolding report MultiError.add_status
  report-Reports A p e w = Reports-one w.items p _ (fs_failure e)

  -- A silent call, and what follows it.
  pub silent-then :
      (A B : Type 0) (before : List (DavPath × ℕ)) (o : Outcome DavError A) (w : World S L)
      (f : A → Run (World S L) DavError B)
      → Since before o w
      → ((a : A) (w' : World S L) → Reported (f a) w')
      → Since before (continue o w f).0 (continue o w f).1
  silent-then A B before o w f h k =
      continue-Ends (λ a w'. Silent before w'.items) (λ a w'. Silent before w'.items)
        (λ e w'. Reports before w'.items) o w f h
        (λ a q. subst (λ x. Since x (f a w).0 (f a w).1) q (k a w))

module _ {S Entry File L Element : Type 0} (inner : DavInner S Entry File L Element) where
  reporting-Reported :
      (A : Type 0) (p : DavPath) (m : Run S FsError A) (w : World S L)
      → Reported (reporting inner p m) w
  unfolding reporting
  reporting-Reported A p m w =
      on_result-Ends (λ a w'. Silent w.items w'.items) (λ e w'. Silent w.items w'.items)
        (λ a w'. Silent w.items w'.items) (λ e w'. Reports w.items w'.items) (m w.files).0
        (record w { files = (m w.files).1 }) pure (report p)
        (Ends-any (λ a w'. Silent w.items w'.items) (λ e w'. Silent w.items w'.items) (m w.files).0
          (record w { files = (m w.files).1 }) (λ a. refl) (λ e. refl))
        (λ a k. k) (λ e k. report-Reports A p e (record w { files = (m w.files).1 }))

  make_dir-Reported :
      (depth : Depth) (dest : DavPath) (w : World S L) → Reported (make_dir inner depth dest) w
  unfolding make_dir
  make_dir-Reported depth dest w =
      let r = inner.fs.create_dir dest w.files in
      let w' : World S L = record w { files = r.1 } in
      on_result-Ends (λ a w'. Silent w.items w'.items) (λ e w'. Silent w.items w'.items)
        (λ a w'. Silent w.items w'.items) (λ e w'. Reports w.items w'.items) r.0 w' pure
        (λ e. if not (is_zero depth) || not (is_exists e) then report dest e else pure tt)
        (Ends-any (λ a w'. Silent w.items w'.items) (λ e w'. Silent w.items w'.items) r.0 w'
          (λ a. refl) (λ e. refl))
        (λ a k. k)
        (λ e k.
          EndsFrom-if (λ a w'. Silent w.items w'.items) (λ e w'. Reports w.items w'.items)
            (not (is_zero depth) || not (is_exists e)) (report dest e) (pure tt) w'
            (λ _. report-Reports (Unit {0}) dest e w') (λ _. refl))

  entry_paths-NoError :
      (source dest : DavPath) (dirent : Entry) (meta : DavMetaData)
      → NoError (entry_paths inner source dest dirent meta)
  unfolding entry_paths
  entry_paths-NoError source dest dirent meta =
      NoError-and_then (push_segment source (inner.fs.entry_name dirent)) _
        (push_segment-NoError source _)
        λ nsrc.
          NoError-and_then (push_segment dest (inner.fs.entry_name dirent)) _
            (push_segment-NoError dest _)
            λ ndest.
              NoError-if meta.is_dir _ (ok (nsrc, ndest))
                (NoError-and_then (add_slash nsrc) _ (add_slash-NoError nsrc) λ nsrc'.
                  NoError-and_then (add_slash ndest) _ (add_slash-NoError ndest) λ ndest'. tt)
                tt

  -- Where the loop stands, by its `retval`.
  abbrev Tracks : List (DavPath × ℕ) → Option DavError → List (DavPath × ℕ) → Type 0
  Tracks before none after = Silent before after
  Tracks before (some e) after = Reports before after

  Reports-after :
      (before : List (DavPath × ℕ)) (retval : Option DavError) (now after : List (DavPath × ℕ))
      → Tracks before retval now
      → Reports now after
      → Reports before after
  Reports-after before none now after t r = subst (λ x. Reports x after) t r
  Reports-after before (some e) now after t r = Reports-then t r

  module _ (rec : DavPath → DavPath → Run (World S L) DavError (Unit {0}))
      (h : (source dest : DavPath) (w : World S L) → Reported (rec source dest) w) where
    copy_entries-Tracks :
        (before : List (DavPath × ℕ)) (source dest : DavPath) (retval : Option DavError)
        (entries : List Entry) (w : World S L)
        → Tracks before retval w.items
        → EndsFrom
            (λ r w'. Tracks before r w'.items)
            (λ e w'. Reports before w'.items)
            (copy_entries inner rec source dest retval entries)
            w
    unfolding copy_entries
    copy_entries-Tracks before source dest retval [] w t = t
    copy_entries-Tracks before source dest retval (dirent ∷ entries) w t =
        let P : Option DavError → World S L → Type 0 = λ r w'. Tracks before r w'.items in
        let Q : DavError → World S L → Type 0 = λ e w'. Reports before w'.items in
        let asked =
          matching (reads_files (inner.fs.entry_metadata dirent)) pure (report source) w in
        continue-Ends (λ _ w'. w' ≡ w) P Q asked.0 asked.1 _
          (on_result-Ends (λ _ w'. w' ≡ w) (λ _ w'. w' ≡ w) (λ _ w'. w' ≡ w) Q
            (inner.fs.entry_metadata dirent w.files) w pure (report source)
            (Ends-any (λ _ w'. w' ≡ w) (λ _ w'. w' ≡ w) (inner.fs.entry_metadata dirent w.files) w
              (λ _. refl) (λ _. refl))
            (λ _ k. k)
            (λ e _.
              Reports-after before retval w.items _ t (report-Reports DavMetaData source e w)))
          (λ meta same.
            let now = asked.1 in
            let here : Tracks before retval now.items =
              subst (λ v. Tracks before retval v.items) (sym same) t in
            continue-Ends (λ _ w'. Tracks before retval w'.items) P Q
              (entry_paths inner source dest dirent meta) now _
              (NoError-Ends (λ _ w'. Tracks before retval w'.items) Q
                (entry_paths inner source dest dirent meta) now
                (entry_paths-NoError source dest dirent meta) (λ _. here))
              (λ paths here'.
                let r = rec paths.0 paths.1 now in
                let kept =
                  on_result {E' = DavError} r.0 r.1 (λ _. pure retval) (λ e. pure (some e)) in
                continue-Ends P P Q kept.0 kept.1
                  (λ r'. copy_entries inner rec source dest r' entries)
                  (on_result-Ends (λ _ w'. Silent now.items w'.items)
                    (λ _ w'. Reports now.items w'.items) P Q r.0 r.1 (λ _. pure retval)
                    (λ e. pure (some e)) (h paths.0 paths.1 now)
                    (λ _ k. subst (Tracks before retval) (sym k) here')
                    (λ e k. Reports-after before retval now.items r.1.items here' k))
                  (λ r' k. copy_entries-Tracks before source dest r' entries kept.1 k)))

    copy_result-Ends :
        (before : List (DavPath × ℕ)) (retval : Option DavError) (w : World S L)
        → Tracks before retval w.items
        → EndsFrom
            (λ _ w'. Silent before w'.items)
            (λ _ w'. Reports before w'.items)
            (copy_result inner retval)
            w
    unfolding copy_result
    copy_result-Ends before none w t = t
    copy_result-Ends before (some e) w t = t

    copy_below-Reported :
        (source dest : DavPath) (w : World S L) → Reported (copy_below inner rec source dest) w
    unfolding copy_below
    copy_below-Reported source dest w =
        let P : Unit {0} → World S L → Type 0 = λ _ w'. Silent w.items w'.items in
        let Q : DavError → World S L → Type 0 = λ _ w'. Reports w.items w'.items in
        let read : Run (World S L) DavError (List Entry) =
          reporting inner source (λ s. (inner.fs.read_dir source s, s)) in
        continue-Ends (λ _ w'. Silent w.items w'.items) P Q (read w).0 (read w).1 _
          (reporting-Reported (List Entry) source (λ s. (inner.fs.read_dir source s, s)) w)
          (λ entries k.
            let loop = copy_entries inner rec source dest none entries (read w).1 in
            continue-Ends (λ r w'. Tracks w.items r w'.items) P Q loop.0 loop.1 (copy_result inner)
              (copy_entries-Tracks w.items source dest none entries (read w).1 k)
              (λ r k'. copy_result-Ends w.items r loop.1 k'))

  -- A copy without a failure sends nothing; after a failure it fails, and has sent one failure at
  -- least and nothing else.
  pub do_copy-Reported :
      (fuel : ℕ) (topdest : DavPath) (depth : Depth) (source dest : DavPath) (w : World S L)
      → Reported (do_copy inner fuel topdest depth source dest) w
  unfolding do_copy
  do_copy-Reported zero topdest depth source dest w = tt
  do_copy-Reported (suc fuel) topdest depth source dest w =
      let P : Unit {0} → World S L → Type 0 = λ _ w'. Silent w.items w'.items in
      let Q : DavError → World S L → Type 0 = λ _ w'. Reports w.items w'.items in
      let rec = do_copy inner fuel topdest depth in
      EndsFrom-if P Q (eq source topdest) (pure tt) _ w (λ _. refl)
        (λ _.
          let asked : Run (World S L) DavError DavMetaData =
            reporting inner source (λ s. (inner.fs.metadata source s, s)) in
          silent-then DavMetaData (Unit {0}) w.items (asked w).0 (asked w).1 _
            (reporting-Reported DavMetaData source (λ s. (inner.fs.metadata source s, s)) w)
            (λ meta w1.
              EndsFrom-if (λ _ w'. Silent w1.items w'.items) (λ _ w'. Reports w1.items w'.items)
                (not meta.is_dir) (reporting inner source (inner.fs.copy source dest)) _ w1
                (λ _. reporting-Reported (Unit {0}) source (inner.fs.copy source dest) w1)
                (λ _.
                  let made = make_dir inner depth dest w1 in
                  silent-then (Unit {0}) (Unit {0}) w1.items made.0 made.1 _
                    (make_dir-Reported depth dest w1)
                    (λ _ w2.
                      EndsFrom-if (λ _ w'. Silent w2.items w'.items)
                        (λ _ w'. Reports w2.items w'.items) (is_zero depth) (pure tt)
                        (copy_below inner rec source dest) w2 (λ _. refl)
                        (λ _.
                          copy_below-Reported rec (do_copy-Reported fuel topdest depth) source dest
                            w2)))))

  pub do_move-Reported :
      (source dest : DavPath) (w : World S L) → Reported (do_move inner source dest) w
  unfolding do_move
  do_move-Reported source dest w =
      reporting-Reported (Unit {0}) source (inner.fs.rename source dest) w
