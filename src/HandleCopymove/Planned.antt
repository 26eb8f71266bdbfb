-- ===== src/HandleCopymove/Planned.antt =====
-- What `handle_copymove` of src/handle_copymove.rs knows of the destination.
use webdav_handler_rs.Prelude.{
  ℕ, ◌≡◌, ◌⊎◌, refl, sym, ap, subst, inl, inr, Bool, not, ◌&&◌, Option, none, some, Bytes, true,
  false, Outcome, ok, err, panic, out_of_fuel, and_then, and_then-eq-ok, if-eq-ok, ok-inj,
  if◌then◌else◌,
}
use webdav_handler_rs.Errors.{FsError, DavError}
use webdav_handler_rs.DavPath.{DavPath, eq}
use webdav_handler_rs.Fs.{DavMetaData}
use webdav_handler_rs.Server.{DavInner, DavRequest, World, path, has_parent, get_tokens}
use webdav_handler_rs.HandleCopymove.{
  CopyMove, Plan, copy_depth, overwrites, is_there, created, destination, source_meta, dest_meta,
  check_both, prepare,
}

-- What a chain returns with a fixed second part.
behind :
    (o : Outcome DavError Bool) (f : Bool → Bool) (m : DavMetaData) (d : Bool × Option DavMetaData)
    → and_then o (λ l. ok (f l, some m)) ≡ ok d
    → some m ≡ d.1
behind (ok l) f m d h = ap (λ x. x.1) (ok-inj (f l, some m) d h)
behind (err e) f m d h = absurd cc
behind panic f m d h = absurd cc
behind out_of_fuel f m d h = absurd cc

module _ {S Entry File L Element : Type 0} (percent_decode : Bytes → Bytes)
    (inner : DavInner S Entry File L Element) where
  -- 201 for what is created, 204 for what was there.
  abbrev pub IsCreated : DavPath → World S L → ℕ → Type 0
  IsCreated dest w status =
      (((e : FsError) × (inner.fs.symlink_metadata dest w.files ≡ err e)) × (status ≡ 201))
      ⊎ (((m : DavMetaData) × (inner.fs.symlink_metadata dest w.files ≡ ok m)) × (status ≡ 204))

  dest_meta-IsCreated :
      (dest : DavPath) (w : World S L) (d : Bool × Option DavMetaData)
      → dest_meta percent_decode inner dest w ≡ ok d
      → IsCreated dest w (created d.1)
  unfolding dest_meta
  dest_meta-IsCreated dest w d h = asked (inner.fs.symlink_metadata dest w.files) refl h
    where
      asked :
          (o : Outcome FsError DavMetaData)
          → inner.fs.symlink_metadata dest w.files ≡ o
          → ◌≡◌ {A = Outcome DavError (Bool × Option DavMetaData)}
              (elim o [
                | err _ ↦ ok (false, none)
                | panic ↦ panic
                | out_of_fuel ↦ out_of_fuel
                | ok meta ↦
                    and_then
                      (if meta.is_symlink
                        then elim (inner.fs.metadata dest w.files) [
                          | ok m ↦ ok m.is_file
                          | err _ ↦ ok false
                          | panic ↦ panic
                          | out_of_fuel ↦ out_of_fuel
                        ]
                        else ok false)
                      λ linked. ok ((if meta.is_file then true else linked), some meta)
              ])
              (ok d)
          → IsCreated dest w (created d.1)
      asked (err e) q k = inl ((e, q), ap (λ x. created x.1) (sym (ok-inj (false, none) d k)))
      asked (ok m) q k =
          inr ((m, q), ap created (sym (behind _ (λ l. if m.is_file then true else l) m d k)))
      asked panic q k = absurd cc
      asked out_of_fuel q k = absurd cc

  pub record IsPlanned (req : DavRequest) (w : World S L) (plan : Plan) : Type 0 where
    pub target : destination percent_decode inner req.destination ≡ ok plan.dest
    pub is_created : IsCreated plan.dest w (created plan.dest_meta)

  pub prepare-IsPlanned :
      (method : CopyMove) (req : DavRequest) (w : World S L) (plan : Plan)
      → prepare percent_decode inner method req w ≡ ok plan
      → IsPlanned req w plan
  unfolding prepare
  prepare-IsPlanned method req w plan e =
      let (depth, _, e1) = and_then-eq-ok (copy_depth method req.depth) _ e in
      let (dest, target, e2) =
        and_then-eq-ok (destination percent_decode inner req.destination) _ e1 in
      let (p, _, e3) = and_then-eq-ok (path percent_decode inner req) _ e2 in
      let (m, _, e4) = and_then-eq-ok (source_meta percent_decode inner method p w) _ e3 in
      let (parent, _, e5) = and_then-eq-ok (has_parent percent_decode inner dest w) _ e4 in
      let (_, e6) = if-eq-ok (not parent) _ _ e5 in
      let (d, there, e7) = and_then-eq-ok (dest_meta percent_decode inner dest w) _ e6 in
      let (_, e8) = if-eq-ok (not (overwrites req) && is_there d.1) _ _ e7 in
      let (_, e9) = if-eq-ok (eq m.1 dest) _ _ e8 in
      let (tokens, _, e10) =
        and_then-eq-ok (get_tokens percent_decode inner DavError.status req (some m.0) m.1 w) _
          e9 in
      let (_, _, e11) =
        and_then-eq-ok (check_both percent_decode inner method m.1 dest tokens w) _ e10 in
      subst (IsPlanned req w) (ok-inj _ plan e11)
        (record { target = target; is_created = dest_meta-IsCreated dest w d there })
