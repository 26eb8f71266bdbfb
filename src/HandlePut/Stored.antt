-- ===== src/HandlePut/Stored.antt =====
-- What `handle_put` of src/handle_put.rs has stored when it replies.
use webdav_handler_rs.Prelude.{
  ℕ, ◌≤◌, ◌+◌, ◌-◌, ◌%◌, ◌≡◌, some, true, false, List, Bytes, ltb, nat_eq, ok, Run, ◌>>=◌,
}
use webdav_handler_rs.Errors.{DavError}
use webdav_handler_rs.Tree.{u64_mod}
use webdav_handler_rs.Fs.{DavFile}
use webdav_handler_rs.DavHeaders.UpdateRange.{XUpdateRange}
use webdav_handler_rs.Server.{DavInner, World, path}
use webdav_handler_rs.HandlePut.Announced.{IsFound}
use webdav_handler_rs.HandlePut.{
  ContentRange, Chunk, Spot, PutRequest, PutPlan, PutReply, put_status, prepare, raising, seek_to,
  open_file,
}
use webdav_handler_rs.HandlePut.Written.{size, write_all}

module _ {S File L : Type 0} (dav_file : DavFile S File) where
  -- What is known of a reply that is made for a total.
  abbrev IsCounted : PutPlan → ℕ → World S L → PutReply → World S L → Type 0
  IsCounted plan total w reply w' =
      (reply.status ≡ put_status plan.meta)
      × (w' ≡ w)
      × (ltb (Spot.count (PutPlan.spot plan)) total ≡ true
          → Spot.have_count (PutPlan.spot plan) ≡ true
          → ⊥)
      × (Spot.have_count (PutPlan.spot plan) ≡ true → total ≡ Spot.count (PutPlan.spot plan))

module _ {S Entry File L Element : Type 0} (percent_decode : Bytes → Bytes)
    (inner : DavInner S Entry File L Element) (dav_file : DavFile S File) where
  -- The plain sequence: open, seek, write every chunk, flush.
  abbrev pub store_all : PutPlan → List Chunk → Run (World S L) DavError File
  store_all plan body = do
    opened ← open_file percent_decode inner dav_file plan
    file ← seek_to dav_file plan.spot opened
    written ← write_all dav_file file body
    raising dav_file (dav_file.flush written)

  -- The body is as long as it has been announced to be.
  abbrev pub IsWhole : PutRequest → List Chunk → PutPlan → Type 0
  IsWhole req body plan =
      ((n : ℕ) → req.content_length ≡ some n → size body ≡ n)
      × (req.is_patch ≡ true
          → (b e : ℕ) → req.update_range ≡ some (XUpdateRange.from_to b e)
          → (b ≤ e) × (size body ≡ (e - b + 1) % u64_mod))
      × ((b e : ℕ)
          → req.content_range ≡ ContentRange.present (some (b, e))
          → (b ≤ e)
            × (size body ≡ (e - b + 1) % u64_mod)
            × (plan.spot.start ≡ b)
            × (plan.spot.do_range ≡ true)
            × (plan.options.truncate ≡ false))

  abbrev pub IsStored : PutRequest → List Chunk → World S L → PutReply → World S L → Type 0
  IsStored req body w reply w' =
      (plan : PutPlan) × (prepare percent_decode inner req w ≡ ok plan)
      × (path percent_decode inner req.base ≡ ok plan.path)
      × IsFound percent_decode inner plan.path w reply.status
      × IsWhole req body plan
      × ((file : File) × (store_all plan body w ≡ (ok file, w')))
