-- ===== src/HandleDelete/Replies.antt =====
-- The replies of `handle_delete` of src/handle_delete.rs.
use webdav_handler_rs.Prelude.{
  ℕ, ◌≤◌, ◌≡◌, ◌⊎◌, refl, sym, ap, subst, ◌∙◌, inl, inr, [], ◌∷◌, ◌++◌, All, Bytes, nat_eq, list_eq,
  Outcome, ok, err, panic, out_of_fuel, pure, reads, on_result, continue, ◌>>◌, Ends, EndsFrom,
  Ends-imp, continue-Ends,
}
use webdav_handler_rs.Errors.{DavError, statuscode}
use webdav_handler_rs.DavPath.{DavPath}
use webdav_handler_rs.DavHeaders.Depth.{Depth}
use webdav_handler_rs.Fs.{DavMetaData}
use webdav_handler_rs.Server.{DavInner, DavRequest, World, delete_in, delete_locks}
use webdav_handler_rs.MultiError
use webdav_handler_rs.MultiError.Answers.{Silent, IsFailure, multi_error-failures, multi_error_self}
use webdav_handler_rs.Server.Unlocked.{delete_in-kept}
use webdav_handler_rs.MultiError.{Reply, plain, multistatus, shown, multi_error}
use webdav_handler_rs.HandleDelete.{prepare, delete_items, delete_all, handle_delete}
use webdav_handler_rs.HandleDelete.Reported.{Fails, delete_items-Reported}

module _ {S Entry File L Element : Type 0} (percent_decode : Bytes → Bytes)
    (inner : DavInner S Entry File L Element) where
  -- The call that deletes, with nothing sent yet.
  abbrev pub deletion :
      ℕ → Depth × DavMetaData × DavPath → World S L → Outcome DavError (Unit {0}) × World S L
  deletion fuel (depth, meta, p) w = delete_items inner fuel depth meta p (record w { items = [] })

  abbrev pub IsAnswer : ℕ → DavRequest → World S L → Reply → World S L → Type 0
  IsAnswer fuel req w reply w' =
      (x : Depth × DavMetaData × DavPath) × (prepare percent_decode inner req w ≡ ok x)
      × ((((deletion fuel x w).0 ≡ ok tt)
            × (reply ≡ plain 204)
            × (w'.files ≡ (deletion fuel x w).1.files))
          ⊎ (((e : DavError) × ((deletion fuel x w).0 ≡ err e))
              × IsFailure reply
              × (w' ≡ (deletion fuel x w).1)))

  module _ (fuel : ℕ) (req : DavRequest) (w : World S L) (x : Depth × DavMetaData × DavPath)
      (ready : prepare percent_decode inner req w ≡ ok x) where
    -- Behind the deletion, by how it has ended.
    abbrev rest : Outcome DavError (Unit {0}) → World S L → Outcome DavError Reply × World S L
    rest o s =
        let done =
          on_result {E' = DavError} o s
            (λ _.
              delete_locks percent_decode inner x.2
              >> MultiError.add_status x.2 (DavError.status 204))
            (λ _. pure tt) in
        continue done.0 done.1 (λ _. reads (λ w'. multi_error x.2 w'.items))

    deleted :
        (s : World S L)
        → s.items ≡ []
        → EndsFrom
            (λ _ w'. (w'.files ≡ s.files) × (w'.items ≡ (x.2, 204) ∷ []))
            (λ _ _. ⊥)
            (delete_locks percent_decode inner x.2
              >> MultiError.add_status x.2 (DavError.status 204))
            s
    unfolding MultiError.add_status statuscode delete_locks
    deleted s none_ =
        let dl = delete_in inner.ls x.2 s in
        continue-Ends (λ _ w'. (w'.files ≡ s.files) × (w'.items ≡ s.items)) _ (λ _ _. ⊥) dl.0 dl.1
          (λ _. MultiError.add_status x.2 (DavError.status 204)) (delete_in-kept inner.ls x.2 s)
          (λ _ k. (k.0, ap (λ v. v ++ (x.2, 204) ∷ []) (k.1 ∙ none_)))

    rest-IsAnswer :
        (o : Outcome DavError (Unit {0})) (s : World S L)
        → (deletion fuel x w).0 ≡ o
        → (deletion fuel x w).1 ≡ s
        → Ends (λ _ w'. Silent [] w'.items) (λ e w'. Fails [] e w'.items) o s
        → Ends (IsAnswer fuel req w) (λ e w'. w' ≡ w) (rest o s).0 (rest o s).1
    rest-IsAnswer panic s q0 q1 h = tt
    rest-IsAnswer out_of_fuel s q0 q1 h = tt
    rest-IsAnswer (ok u) s q0 q1 h =
        let done =
          (delete_locks percent_decode inner x.2 >> MultiError.add_status x.2 (DavError.status 204))
            s in
        continue-Ends (λ _ w'. (w'.files ≡ s.files) × (w'.items ≡ (x.2, 204) ∷ []))
          (IsAnswer fuel req w) (λ e w'. w' ≡ w) done.0 done.1
          (λ _. reads (λ w'. multi_error x.2 w'.items))
          (Ends-imp _ _ (λ _ _. ⊥) (λ e w'. w' ≡ w) done.0 done.1 (deleted s h) (λ _ k. k)
            (λ _ k. absurd k))
          (λ _ k.
            subst (λ r. Ends (IsAnswer fuel req w) (λ e w'. w' ≡ w) r done.1)
              (sym (ap (multi_error x.2) k.1 ∙ multi_error_self x.2 204))
              (x, ready, inl (q0, refl, k.0 ∙ ap World.files (sym q1))))
    rest-IsAnswer (err e) s q0 q1 (status, sent) =
        let (reply, answered, failure) =
          multi_error-failures x.2 s.items (λ k. sent.sent_ne (sym sent.after_eq ∙ k))
            (subst (All (λ i. 400 ≤ i.1)) (sym sent.after_eq) sent.failures) in
        subst (λ r. Ends (IsAnswer fuel req w) (λ e' w'. w' ≡ w) r s) (sym answered)
          (x, ready, inr ((e, q0), failure, sym q1))

  -- If `handle_delete` returns an error, then nothing has been changed. If it returns a reply,
  -- then its checks have passed, and either all has been deleted and the reply is a plain 204,
  -- with the files as the deletion left them, or the deletion has failed and the reply shows
  -- failures only, one at least, with the files and locks as the deletion left them. Of a panic
  -- and of too little fuel nothing is said.
  pub handle_delete-reply :
      (fuel : ℕ) (req : DavRequest) (w : World S L)
      → EndsFrom
          (IsAnswer fuel req w)
          (λ e w'. w' ≡ w)
          (handle_delete percent_decode inner fuel req)
          w
  unfolding handle_delete delete_all
  handle_delete-reply fuel req w = prepared (prepare percent_decode inner req w) refl
    where
      prepared :
          (o : Outcome DavError (Depth × DavMetaData × DavPath))
          → prepare percent_decode inner req w ≡ o
          → EndsFrom
              (IsAnswer fuel req w)
              (λ e w'. w' ≡ w)
              (λ w'. continue o w' (λ x. do
                (λ w''.
                    delete_all percent_decode inner fuel x.0 x.1 x.2 (record w'' { items = [] }))
                reads (λ w''. multi_error x.2 w''.items)))
              w
      prepared (err e) q = refl
      prepared panic q = tt
      prepared out_of_fuel q = tt
      prepared (ok x) q =
          rest-IsAnswer fuel req w x q (deletion fuel x w).0 (deletion fuel x w).1 refl refl
            (delete_items-Reported inner fuel x.0 x.1 x.2 (record w { items = [] }))
