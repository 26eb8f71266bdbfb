-- ===== src/HandleMkcol/Made.antt =====
-- The replies of `handle_mkcol` of src/handle_mkcol.rs.
use webdav_handler_rs.Prelude.{
  ℕ, ◌≡◌, ◌⊎◌, refl, subst, inl, inr, Bool, true, false, none, some, Bytes, Outcome, ok, err, panic,
  out_of_fuel, fail, reads, on_result, matching, continue, arith, Ends, EndsFrom, Ends-imp, leb,
  length,
}
use webdav_handler_rs.Errors.{FsError, DavError}
use webdav_handler_rs.DavPath.{
  DavPath, encode_set, encode_path, is_collection, add_slash, as_bytes, as_url_string,
}
use webdav_handler_rs.HandleDelete.Reported.{NoError, NoError-and_then, NoError-if}
use webdav_handler_rs.Server.{DavInner, DavRequest, World, on_files}
use webdav_handler_rs.HandleMkcol.{create_error, Created, prepare, created, handle_mkcol}

is_collection-NoError : (p : DavPath) → NoError (is_collection p)
unfolding is_collection as_bytes
is_collection-NoError p =
    NoError-and_then (as_bytes p) _ (NoError-if _ (ok _) panic tt tt) (λ path. tt)

-- A path without a prefix is all that is shown.
as_bytes_whole :
    (p : DavPath) → as_bytes {E = DavError} (record p { pfxlen = none }) ≡ ok p.fullpath
unfolding as_bytes
as_bytes_whole p = rw (zero_leb (length p.fullpath)) refl
  where
    zero_leb : (n : ℕ) → leb 0 n ≡ true
    zero_leb n = ground arith

module _ {S Entry File L Element : Type 0} (percent_decode : Bytes → Bytes)
    (percent_encode : (ℕ → Bool) → Bytes → Bytes) (inner : DavInner S Entry File L Element) where
  -- The header Content-Location, by how the path ends.
  abbrev pub IsLocated : DavPath → Created → Type 0
  IsLocated p reply =
      ((is_collection {E = DavError} p ≡ ok true)
        × (reply.location ≡ some (percent_encode encode_set p.fullpath)))
      ⊎ ((is_collection {E = DavError} p ≡ ok false) × (reply.location ≡ none))

  -- A directory has been made, or not.
  abbrev pub IsMade : DavRequest → World S L → Created → World S L → Type 0
  IsMade req w reply w' =
      (p : DavPath) × (prepare percent_decode percent_encode inner req w ≡ ok p)
      × (inner.fs.create_dir p w.files ≡ (ok tt, w'.files))
      × (w'.locks ≡ w.locks)
      × (reply.status ≡ 201)
      × IsLocated p reply

  abbrev pub IsRefused : DavRequest → World S L → DavError → World S L → Type 0
  IsRefused req w e w' =
      (w' ≡ w)
      ⊎ ((p : DavPath) × (prepare percent_decode percent_encode inner req w ≡ ok p)
          × ((e' : FsError) × (inner.fs.create_dir p w.files ≡ (err e', w'.files))
              × (e ≡ create_error e')))

  created-IsLocated :
      (p : DavPath) (o : Outcome DavError Bool) (w : World S L)
      → is_collection p ≡ o
      → EndsFrom
          (λ reply w'. (w' ≡ w) × (reply.status ≡ 201) × IsLocated p reply)
          (λ e w'. ⊥)
          (reads (λ _. created percent_decode percent_encode inner p))
          w
  unfolding created add_slash as_url_string encode_path
  created-IsLocated p (ok true) w e = rw (e, as_bytes_whole p) (refl, refl, inl (refl, refl))
  created-IsLocated p (ok false) w e = rw e (refl, refl, inr (refl, refl))
  created-IsLocated p (err x) w e = absurd (subst NoError e (is_collection-NoError p))
  created-IsLocated p panic w e = rw e tt
  created-IsLocated p out_of_fuel w e = rw e tt

  -- If `handle_mkcol` replies, then it has made the directory of the path of the request, the
  -- status is 201, the locks are as before, and there is a Content-Location, of the path itself,
  -- exactly if the path already ends in a slash. If it fails, then nothing has been changed, or
  -- the checks have passed, and `create_dir` has failed with the error that the status comes
  -- from. Of a panic, and of too little fuel in a call of the file system or the lock system,
  -- nothing is said.
  pub handle_mkcol-IsMade :
      (req : DavRequest) (w : World S L)
      → EndsFrom
          (IsMade req w)
          (IsRefused req w)
          (handle_mkcol percent_decode percent_encode inner req)
          w
  unfolding handle_mkcol
  handle_mkcol-IsMade req w = prepared (prepare percent_decode percent_encode inner req w) refl
    where
      made :
          (p : DavPath)
          → prepare percent_decode percent_encode inner req w ≡ ok p
          → (o : Outcome FsError (Unit {0})) (s : S) → inner.fs.create_dir p w.files ≡ (o, s)
          → Ends
              (IsMade req w)
              (IsRefused req w)
              (on_result o
                (record w { files = s })
                (λ _. reads (λ w'. created percent_decode percent_encode inner p))
                (λ e. fail (create_error e))).0
              (on_result o
                (record w { files = s })
                (λ _. reads (λ w'. created percent_decode percent_encode inner p))
                (λ e. fail (create_error e))).1
      made p ready (ok u) s q =
          let w' : World S L = record w { files = s } in
          Ends-imp (λ reply v. (v ≡ w') × (reply.status ≡ 201) × IsLocated p reply) (IsMade req w)
            (λ e v. ⊥) (IsRefused req w) (created percent_decode percent_encode inner p) w'
            (created-IsLocated p (is_collection p) w' refl)
            (λ reply k. (p, ready, q, refl, k.1, k.2)) (λ e k. absurd k)
      made p ready (err e) s q = inr (p, ready, (e, q, refl))
      made p ready panic s q = tt
      made p ready out_of_fuel s q = tt

      prepared :
          (o : Outcome DavError DavPath)
          → prepare percent_decode percent_encode inner req w ≡ o
          → EndsFrom
              (IsMade req w)
              (IsRefused req w)
              (λ w'. continue o w' (λ p.
                matching
                  (on_files (inner.fs.create_dir p))
                  (λ _. reads (λ w''. created percent_decode percent_encode inner p))
                  (λ e. fail (create_error e))))
              w
      prepared (ok p) ready =
          made p ready (inner.fs.create_dir p w.files).0 (inner.fs.create_dir p w.files).1 refl
      prepared (err e) ready = inl refl
      prepared panic ready = tt
      prepared out_of_fuel ready = tt
