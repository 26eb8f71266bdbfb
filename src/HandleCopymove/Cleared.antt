-- ===== src/HandleCopymove/Cleared.antt =====
-- The task behind the stream of `handle_copymove` of src/handle_copymove.rs and the statuses that it
-- sends.
use webdav_handler_rs.Prelude.{
  ℕ, ◌≡◌, refl, Bytes, Bool, not, ◌&&◌, Option, none, some, if◌then◌else◌, pure, ◌>>◌, Ends-imp,
  EndsFrom-if,
}
use webdav_handler_rs.DavPath.{DavPath}
use webdav_handler_rs.DavHeaders.Depth.{Depth}
use webdav_handler_rs.Fs.{DavMetaData}
use webdav_handler_rs.Server.{DavInner, World, delete_in, delete_locks}
use webdav_handler_rs.Server.Unlocked.{delete_in-kept}
use webdav_handler_rs.MultiError.Answers.{Reports, Silent}
use webdav_handler_rs.HandleDelete.{delete_items}
use webdav_handler_rs.HandleDelete.Reported.{Fails, delete_items-Reported}
use webdav_handler_rs.HandleCopymove.{
  CopyMove, copy, move, is_zero, do_move, Plan, clear_dest, transfer,
}
use webdav_handler_rs.HandleCopymove.Reported.{
  Reported, silent-then, do_copy-Reported, do_move-Reported,
}

module _ {S Entry File L Element : Type 0} (percent_decode : Bytes → Bytes)
    (inner : DavInner S Entry File L Element) where
  delete_locks-Reported :
      (p : DavPath) (w : World S L) → Reported (delete_locks percent_decode inner p) w
  unfolding delete_locks
  delete_locks-Reported p w =
      let dl = delete_in inner.ls p w in
      Ends-imp (λ _ w'. (w'.files ≡ w.files) × (w'.items ≡ w.items))
        (λ _ w'. Silent w.items w'.items) (λ _ _. ⊥) (λ _ w'. Reports w.items w'.items) dl.0 dl.1
        (delete_in-kept inner.ls p w) (λ _ k. k.1) (λ _ k. absurd k)

  pub clear_dest-Reported :
      (fuel : ℕ) (overwrite : Bool) (plan : Plan) (w : World S L)
      → Reported (clear_dest percent_decode inner fuel overwrite plan) w
  unfolding clear_dest
  clear_dest-Reported fuel overwrite plan w = found plan.dest_meta
    where
      found :
          (m : Option DavMetaData)
          → Reported
              (elim m [
                | none ↦ pure tt
                | some meta ↦
                    if overwrite && not (is_zero (Plan.depth plan)) && not (Plan.dest_is_file plan)
                    then (do
                      delete_items inner fuel Depth.infinity meta (Plan.dest plan)
                      delete_locks percent_decode inner (Plan.dest plan))
                    else pure tt
              ])
              w
      found none = refl
      found (some meta) =
          let deleted = delete_items inner fuel Depth.infinity meta plan.dest w in
          EndsFrom-if (λ _ w'. Silent w.items w'.items) (λ _ w'. Reports w.items w'.items)
            (overwrite && not (is_zero plan.depth) && not plan.dest_is_file) _ (pure tt) w
            (λ _.
              silent-then (Unit {0}) (Unit {0}) w.items deleted.0 deleted.1 _
                (Ends-imp (λ _ w'. Silent w.items w'.items) (λ _ w'. Silent w.items w'.items)
                  (λ e w'. Fails w.items e w'.items) (λ _ w'. Reports w.items w'.items) deleted.0
                  deleted.1 (delete_items-Reported inner fuel Depth.infinity meta plan.dest w)
                  (λ _ k. k) (λ _ k. k.1))
                (λ _ w1. delete_locks-Reported plan.dest w1))
            (λ _. refl)

  pub transfer-Reported :
      (fuel : ℕ) (method : CopyMove) (plan : Plan) (w : World S L)
      → Reported (transfer percent_decode inner fuel method plan) w
  unfolding transfer
  transfer-Reported fuel copy plan w =
      do_copy-Reported inner fuel plan.dest plan.depth plan.path plan.dest w
  transfer-Reported fuel move plan w =
      let moved = do_move inner plan.path plan.dest w in
      silent-then (Unit {0}) (Unit {0}) w.items moved.0 moved.1 _
        (do_move-Reported inner plan.path plan.dest w) (λ _ w1. delete_locks-Reported plan.path w1)
