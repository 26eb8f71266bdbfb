-- ===== src/HandleCopymove/Replies.antt =====
-- The replies of `handle_copymove` of src/handle_copymove.rs.
use webdav_handler_rs.Prelude.{
  ℕ, ◌≤◌, ◌≡◌, ◌⊎◌, refl, sym, ap, subst, ◌∙◌, inl, inr, Bool, [], ◌∷◌, ◌++◌, All, Bytes, Outcome,
  ok, err, panic, out_of_fuel, Run, pure, reads, on_result, continue, ◌>>◌, Ends, EndsFrom,
}
use webdav_handler_rs.Errors.{DavError, statuscode}
use webdav_handler_rs.Server.{DavInner, DavRequest, World}
use webdav_handler_rs.MultiError
use webdav_handler_rs.MultiError.Answers.{
  Reports, Silent, IsFailure, multi_error-failures, multi_error_self,
}
use webdav_handler_rs.MultiError.{Reply, plain, multistatus, multi_error}
use webdav_handler_rs.HandleCopymove.{
  CopyMove, Plan, prepare, created, destination, overwrites, clear_dest, transfer, copy_all,
  handle_copymove,
}
use webdav_handler_rs.HandleCopymove.Reported.{silent-then}
use webdav_handler_rs.HandleCopymove.Planned.{IsCreated, IsPlanned, prepare-IsPlanned}
use webdav_handler_rs.HandleCopymove.Cleared.{clear_dest-Reported, transfer-Reported}

module _ {S Entry File L Element : Type 0} (percent_decode : Bytes → Bytes)
    (inner : DavInner S Entry File L Element) where
  -- Clearing the destination, and then the copy or the move.
  abbrev pub attempt : ℕ → CopyMove → Bool → Plan → Run (World S L) DavError (Unit {0})
  attempt fuel method overwrite plan = do
    clear_dest percent_decode inner fuel overwrite plan
    transfer percent_decode inner fuel method plan

  attempt-Ends :
      (fuel : ℕ) (method : CopyMove) (overwrite : Bool) (plan : Plan) (w : World S L)
      → EndsFrom
          (λ _ w'. Silent w.items w'.items)
          (λ _ w'. Reports w.items w'.items)
          (attempt fuel method overwrite plan)
          w
  attempt-Ends fuel method overwrite plan w =
      let cleared = clear_dest percent_decode inner fuel overwrite plan w in
      silent-then (Unit {0}) (Unit {0}) w.items cleared.0 cleared.1 _
        (clear_dest-Reported percent_decode inner fuel overwrite plan w)
        (λ _ w1. transfer-Reported percent_decode inner fuel method plan w1)

  -- That attempt, with nothing sent yet.
  abbrev pub attempted :
      ℕ → CopyMove → DavRequest → Plan → World S L → Outcome DavError (Unit {0}) × World S L
  attempted fuel method req plan w =
      attempt fuel method (overwrites req) plan (record w { items = [] })

  abbrev pub IsAnswer : ℕ → CopyMove → DavRequest → World S L → Reply → World S L → Type 0
  IsAnswer fuel method req w reply w' =
      (plan : Plan) × (prepare percent_decode inner method req w ≡ ok plan)
      × (destination percent_decode inner req.destination ≡ ok plan.dest)
      × ((((attempted fuel method req plan w).0 ≡ ok tt)
            × ((status : ℕ) × IsCreated percent_decode inner plan.dest w status
                × (reply ≡ plain status))
            × (w'.files ≡ (attempted fuel method req plan w).1.files)
            × (w'.locks ≡ (attempted fuel method req plan w).1.locks))
          ⊎ (((e : DavError) × ((attempted fuel method req plan w).0 ≡ err e))
              × IsFailure reply
              × (w' ≡ (attempted fuel method req plan w).1)))

  module _ (fuel : ℕ) (method : CopyMove) (req : DavRequest) (w : World S L) (plan : Plan)
      (ready : prepare percent_decode inner method req w ≡ ok plan) where
    -- Behind the attempt, by how it has ended.
    abbrev rest : Outcome DavError (Unit {0}) → World S L → Outcome DavError Reply × World S L
    rest o s =
        let done =
          on_result {E' = DavError} o s
            (λ _. MultiError.add_status plan.path (DavError.status (created plan.dest_meta)))
            (λ _. pure tt) in
        continue done.0 done.1 (λ _. reads (λ w'. multi_error plan.path w'.items))

    known : IsPlanned percent_decode inner req w plan
    known = prepare-IsPlanned percent_decode inner method req w plan ready

    rest-IsAnswer :
        (o : Outcome DavError (Unit {0})) (s : World S L)
        → (attempted fuel method req plan w).0 ≡ o
        → (attempted fuel method req plan w).1 ≡ s
        → Ends (λ _ w'. Silent [] w'.items) (λ _ w'. Reports [] w'.items) o s
        → Ends (IsAnswer fuel method req w) (λ e w'. w' ≡ w) (rest o s).0 (rest o s).1
    unfolding MultiError.add_status statuscode
    rest-IsAnswer panic s q0 q1 h = tt
    rest-IsAnswer out_of_fuel s q0 q1 h = tt
    rest-IsAnswer (ok u) s q0 q1 h =
        subst (λ r. Ends (IsAnswer fuel method req w) (λ e w'. w' ≡ w) r (rest (ok u) s).1)
          (sym (
            ap (λ v. multi_error plan.path (v ++ (plan.path, created plan.dest_meta) ∷ [])) h
            ∙ multi_error_self plan.path (created plan.dest_meta)))
          (
            plan,
            ready,
            known.target,
            inl (
              q0,
              (created plan.dest_meta, known.is_created, refl),
              ap World.files (sym q1),
              ap World.locks (sym q1),
            ),
          )
    rest-IsAnswer (err e) s q0 q1 sent =
        let (reply, answered, failure) =
          multi_error-failures plan.path s.items (λ k. sent.sent_ne (sym sent.after_eq ∙ k))
            (subst (All (λ i. 400 ≤ i.1)) (sym sent.after_eq) sent.failures) in
        subst (λ r. Ends (IsAnswer fuel method req w) (λ e' w'. w' ≡ w) r s) (sym answered)
          (plan, ready, known.target, inr ((e, q0), failure, sym q1))

  -- If `handle_copymove` returns an error, then nothing has been changed. If it returns a reply,
  -- then its checks have passed, its destination is that of the Destination header, and
  -- `clear_dest`, which deletes the destination if that may be overwritten, is no file and Depth
  -- is not 0, and then the copy or move, have been run. Either both have returned `ok`, and the
  -- reply is a plain 201 if `symlink_metadata` failed for the destination before, and a plain 204
  -- if it did not; or one of them has failed, and the reply shows failures only, one at least.
  -- The files and locks are as that work left them. Of a panic and of too little fuel nothing is
  -- said.
  pub handle_copymove-reply :
      (fuel : ℕ) (method : CopyMove) (req : DavRequest) (w : World S L)
      → EndsFrom
          (IsAnswer fuel method req w)
          (λ e w'. w' ≡ w)
          (handle_copymove percent_decode inner fuel method req)
          w
  unfolding handle_copymove copy_all
  handle_copymove-reply fuel method req w =
      prepared (prepare percent_decode inner method req w) refl
    where
      prepared :
          (o : Outcome DavError Plan)
          → prepare percent_decode inner method req w ≡ o
          → EndsFrom
              (IsAnswer fuel method req w)
              (λ e w'. w' ≡ w)
              (λ w'. continue o w' (λ plan. do
                (λ w''.
                    copy_all percent_decode inner fuel method
                      (overwrites req)
                      plan
                      (record w'' { items = [] }))
                reads (λ w''. multi_error plan.path w''.items)))
              w
      prepared (err e) q = refl
      prepared panic q = tt
      prepared out_of_fuel q = tt
      prepared (ok plan) q =
          let o = attempted fuel method req plan w in
          rest-IsAnswer fuel method req w plan q o.0 o.1 refl refl
            (attempt-Ends fuel method (overwrites req) plan (record w { items = [] }))
