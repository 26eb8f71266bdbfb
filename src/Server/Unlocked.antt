-- ===== src/Server/Unlocked.antt =====
-- The calls of src/davhandler.rs that delete the locks of a path.
use webdav_handler_rs.Prelude.{
  ◌≡◌, refl, Option, none, some, Outcome, ok, err, panic, out_of_fuel, Ends, EndsFrom,
}
use webdav_handler_rs.Errors.{DavError}
use webdav_handler_rs.DavPath.{DavPath}
use webdav_handler_rs.Fs.{DavLockSystem}
use webdav_handler_rs.Server.{World, delete_in, forget}

forget-Ends :
    {A E S : Type 0} (P : S → Type 0) (o : Outcome E A) (s : S)
    → P s
    → Ends {E = DavError} (λ _. P) (λ _ _. ⊥) (forget o) s
forget-Ends P (ok a) s h = h
forget-Ends P (err e) s h = h
forget-Ends P panic s h = tt
forget-Ends P out_of_fuel s h = tt

pub delete_in-kept :
    {S L Element : Type 0} (ls : Option (DavLockSystem L Element)) (p : DavPath) (w : World S L)
    → EndsFrom (λ _ w'. (w'.files ≡ w.files) × (w'.items ≡ w.items)) (λ _ _. ⊥) (delete_in ls p) w
unfolding delete_in
delete_in-kept none p w = (refl, refl)
delete_in-kept (some ls) p w =
    forget-Ends (λ w'. (w'.files ≡ w.files) × (w'.items ≡ w.items)) (ls.delete p w.locks).0
      (record w { locks = (ls.delete p w.locks).1 }) (refl, refl)
