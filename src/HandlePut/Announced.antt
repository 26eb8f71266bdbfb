-- ===== src/HandlePut/Announced.antt =====
-- What the headers of a PUT or PATCH have announced, by the checks of src/handle_put.rs.
use webdav_handler_rs.Prelude.{
  ℕ, ◌≤◌, ◌≡◌, ◌⊎◌, refl, sym, ap, subst, ◌∙◌, inl, inr, arith, Bool, Bool-cases, true, false, not,
  ◌&&◌, ◌||◌, Option, some, none, Bytes, ◌==◌, nat_eq, ltb, if◌then◌else◌, Outcome, ok, err, panic,
  out_of_fuel, and_then, and_then-eq-ok, if-eq-ok, ok-inj,
}
use webdav_handler_rs.Errors.{FsError, DavError}
use webdav_handler_rs.DavPath.{DavPath}
use webdav_handler_rs.DavHeaders.UpdateRange.{XUpdateRange}
use webdav_handler_rs.Fs.{DavMetaData}
use webdav_handler_rs.Server.{DavInner, World, path, get_tokens, check_locks, found}
use webdav_handler_rs.HandlePut.{
  ContentRange, Spot, PutRequest, PutPlan, put_status, range_size, initial, update, is_sabre, patch,
  ranged, prepare, open_options,
}

-- That many bytes are expected.
abbrev pub Counts : Spot → ℕ → Type 0
Counts spot n = (spot.have_count ≡ true) × (spot.count ≡ n)

initial-Counts : (n : ℕ) → Counts (initial (some n)) n
unfolding initial
initial-Counts n = (refl, refl)

-- The bytes of a range, which does not end before it starts.
abbrev pub IsRange : Spot → ℕ → ℕ → Type 0
IsRange spot b e = (b ≤ e) × Counts spot (range_size b e)

not_above : (b e : ℕ) → ltb e b ≡ false → b ≤ e
not_above b e h = ground arith

or_false : (a b : Bool) → (a || b) ≡ false → (a ≡ false) × (b ≡ false)
or_false false b h = (refl, h)
or_false true b h = absurd cc

same_size : (m n : ℕ) → not (m == n) ≡ false → n ≡ m
same_size m n h = ground arith

shown_true : (b : Bool) → not b ≡ false → b ≡ true
shown_true true h = refl
shown_true false h = absurd cc

-- The range of a PATCH leaves the count as it is, and agrees with it.
abbrev Keeps : Spot → Spot → Type 0
Keeps spot s = (n : ℕ) → Counts spot n → Counts s n

update-Keeps :
    (r : XUpdateRange) (meta : Option DavMetaData) (spot s : Spot)
    → update r meta spot ≡ ok s
    → Keeps spot s
unfolding update
update-Keeps (XUpdateRange.from_to b e) meta spot s h =
    let (_, k) = if-eq-ok (ltb e b || not (range_size b e == spot.count)) _ _ h in
    subst (Keeps spot) (ok-inj _ s k) (λ n c. c)
update-Keeps (XUpdateRange.all_from b) meta spot s h = subst (Keeps spot) (ok-inj _ s h) (λ n c. c)
update-Keeps (XUpdateRange.last n) none spot s h = subst (Keeps spot) (ok-inj _ s h) (λ n c. c)
update-Keeps (XUpdateRange.last n) (some m) spot s h =
    let (_, k) = if-eq-ok (ltb m.len n) _ _ h in subst (Keeps spot) (ok-inj _ s k) (λ n c. c)
update-Keeps XUpdateRange.append meta spot s h = subst (Keeps spot) (ok-inj _ s h) (λ n c. c)

update-IsRange :
    (b e : ℕ) (meta : Option DavMetaData) (spot s : Spot)
    → update (XUpdateRange.from_to b e) meta spot ≡ ok s
    → (b ≤ e) × (spot.count ≡ range_size b e)
unfolding update
update-IsRange b e meta spot s h =
    let (k, _) = if-eq-ok (ltb e b || not (range_size b e == spot.count)) _ _ h in
    let (forward, same) = or_false (ltb e b) (not (range_size b e == spot.count)) k in
    (not_above b e forward, same_size (range_size b e) spot.count same)

-- What a PATCH has announced.
abbrev pub IsPatched : PutRequest → Spot → Spot → Type 0
IsPatched req spot s =
    Keeps spot s
    × (req.is_patch ≡ true
        → (b e : ℕ) → req.update_range ≡ some (XUpdateRange.from_to b e)
        → IsRange s b e)

patch-IsPatched :
    (req : PutRequest) (meta : Option DavMetaData) (spot s : Spot)
    → patch req meta spot ≡ ok s
    → IsPatched req spot s
unfolding patch
patch-IsPatched req meta spot s h = elim (Bool-cases req.is_patch) [
  | inr put ↦
      subst (IsPatched req spot) (ok-inj spot s (rw put at h)) ((λ n c. c), λ is_patch. absurd cc)
  | inl is_patch ↦
      let (_, h1) = if-eq-ok (not (is_sabre req.content_type)) _ _ (rw is_patch at h) in
      let (have, h2) = if-eq-ok (not spot.have_count) _ _ h1 in
      by_range req.update_range refl (shown_true spot.have_count have) h2
]
  where
    by_range :
        (u : Option XUpdateRange)
        → req.update_range ≡ u
        → spot.have_count ≡ true
        → ◌≡◌ {A = Outcome DavError Spot}
            (elim u [
              | none ↦ err (DavError.status_close 400)
              | some r ↦
                  and_then
                    (update r meta spot)
                    λ s'. ok (record s' { do_range = true; truncate = false })
            ])
            (ok s)
        → IsPatched req spot s
    by_range none q have k = absurd cc
    by_range (some r) q have k =
        let (s', updated, k1) = and_then-eq-ok (update r meta spot) _ k in
        subst (IsPatched req spot) (ok-inj _ s k1) (
          (λ n c. update-Keeps r meta spot s' updated n c),
          λ _ b e to.
              let (forward, same) =
                update-IsRange b e meta spot s' (
                  subst (λ x. update x meta spot ≡ ok s') (range_inj r b e (sym q ∙ to)) updated) in
              (forward, update-Keeps r meta spot s' updated (range_size b e) (have, same)),
        )
      where
        range_inj :
            (r : XUpdateRange) (b e : ℕ)
            → some r ≡ some (XUpdateRange.from_to b e)
            → r ≡ XUpdateRange.from_to b e
        range_inj r b e k = cc

-- What a Content-Range has announced: the bytes are written from its start on, and nothing is
-- truncated.
abbrev pub IsRanged : ContentRange → Spot → Spot → Type 0
IsRanged r spot s =
    Keeps spot s
    × ((b e : ℕ)
        → r ≡ ContentRange.present (some (b, e))
        → IsRange s b e × (s.start ≡ b) × (s.do_range ≡ true) × (s.truncate ≡ false))

ranged-IsRanged : (r : ContentRange) (spot s : Spot) → ranged r spot ≡ ok s → IsRanged r spot s
unfolding ranged
ranged-IsRanged ContentRange.absent spot s h =
    subst (IsRanged ContentRange.absent spot) (ok-inj _ s h) ((λ n c. c), λ b e k. absurd cc)
ranged-IsRanged ContentRange.invalid spot s h = absurd cc
ranged-IsRanged (ContentRange.present none) spot s h =
    subst (IsRanged (ContentRange.present none) spot) (ok-inj _ s h)
      ((λ n c. c), λ b e k. absurd cc)
ranged-IsRanged (ContentRange.present (some (b, e))) spot s h =
    let (forward, h1) = if-eq-ok (ltb e b) _ _ h in
    let (same, h2) = if-eq-ok (spot.have_count && not (range_size b e == spot.count)) _ _ h1 in
    subst (IsRanged (ContentRange.present (some (b, e))) spot) (ok-inj _ s h2) (
      (λ n c. (refl, kept spot.have_count spot.count n (range_size b e) c)),
      λ b' e' k.
          subst
            (λ (x, y).
              IsRange to x y × (to.start ≡ x) × (to.do_range ≡ true) × (to.truncate ≡ false))
            (present_inj b e b' e' k)
            (
              (
                not_above b e forward,
                (refl, counted spot.have_count (range_size b e) spot.count same),
              ),
              refl,
              refl,
              refl,
            ),
    )
  where
    to : Spot
    to = record spot {
      start = b;
      count = if spot.have_count then spot.count else range_size b e;
      have_count = true;
      do_range = true;
      truncate = false;
    }

    present_inj :
        (b e b' e' : ℕ)
        → ContentRange.present (some (b, e)) ≡ ContentRange.present (some (b', e'))
        → ◌≡◌ {A = ℕ × ℕ} (b, e) (b', e')
    present_inj b e b' e' k = cc

    counted :
        (have : Bool) (size count : ℕ)
        → (have && not (size == count)) ≡ false
        → (if have then count else size) ≡ size
    counted true size count h = same_size size count h
    counted false size count h = refl

    kept :
        (have : Bool) (count n size : ℕ)
        → (have ≡ true) × (count ≡ n)
        → (if have then count else size) ≡ n
    kept true count n size c = c.1
    kept false count n size c = absurd cc

module _ {S Entry File L Element : Type 0} (percent_decode : Bytes → Bytes)
    (inner : DavInner S Entry File L Element) where
  -- 201 for a path without a file, 204 for one with a file.
  abbrev pub IsFound : DavPath → World S L → ℕ → Type 0
  IsFound p w status =
      (((e : FsError) × (inner.fs.metadata p w.files ≡ err e)) × (status ≡ 201))
      ⊎ (((m : DavMetaData) × (inner.fs.metadata p w.files ≡ ok m)) × (status ≡ 204))

  found-IsFound :
      (p : DavPath) (w : World S L) (meta : Option DavMetaData)
      → found (inner.fs.metadata p w.files) ≡ ok meta
      → IsFound p w (put_status meta)
  found-IsFound p w meta h = asked (inner.fs.metadata p w.files) refl h
    where
      asked :
          (o : Outcome FsError DavMetaData)
          → inner.fs.metadata p w.files ≡ o
          → found o ≡ ok meta
          → IsFound p w (put_status meta)
      asked (ok m) q k = inr ((m, q), ap put_status (sym (ok-inj (some m) meta k)))
      asked (err e) q k = inl ((e, q), ap put_status (sym (ok-inj none meta k)))
      asked panic q k = absurd cc
      asked out_of_fuel q k = absurd cc

  pub record IsAnnounced (req : PutRequest) (w : World S L) (plan : PutPlan) : Type 0 where
    pub path_of : path percent_decode inner req.base ≡ ok plan.path
    pub is_found : IsFound plan.path w (put_status plan.meta)
    pub with_length : (n : ℕ) → req.content_length ≡ some n → Counts plan.spot n
    pub patched :
        req.is_patch ≡ true
        → (b e : ℕ) → req.update_range ≡ some (XUpdateRange.from_to b e)
        → IsRange plan.spot b e
    pub ranged :
        (b e : ℕ)
        → req.content_range ≡ ContentRange.present (some (b, e))
        → IsRange plan.spot b e
          × (plan.spot.start ≡ b)
          × (plan.spot.do_range ≡ true)
          × (plan.options.truncate ≡ false)

  pub prepare-IsAnnounced :
      (req : PutRequest) (w : World S L) (plan : PutPlan)
      → prepare percent_decode inner req w ≡ ok plan
      → IsAnnounced req w plan
  unfolding prepare open_options
  prepare-IsAnnounced req w plan h =
      let (p, path_of, h1) = and_then-eq-ok (path percent_decode inner req.base) _ h in
      let (meta, there, h2) = and_then-eq-ok (found (inner.fs.metadata p w.files)) _ h1 in
      let (s, patching, h3) = and_then-eq-ok (patch req meta (initial req.content_length)) _ h2 in
      let (spot, ranging, h4) = and_then-eq-ok (ranged req.content_range s) _ h3 in
      let (tokens, _, h5) =
        and_then-eq-ok (get_tokens percent_decode inner DavError.status_close req.base meta p w) _
          h4 in
      let (_, _, h6) =
        and_then-eq-ok
          (check_locks percent_decode inner (DavError.status_close 423) p false tokens w) _ h5 in
      let (keeps, by_patch) = patch-IsPatched req meta (initial req.content_length) s patching in
      let (keeps_too, by_range) = ranged-IsRanged req.content_range s spot ranging in
      subst (IsAnnounced req w) (ok-inj _ plan h6) (record {
        path_of = path_of;
        is_found = found-IsFound p w meta there;
        with_length = λ n k.
            keeps_too n (keeps n (subst (λ l. Counts (initial l) n) (sym k) (initial-Counts n)));
        patched = λ is_patch b e k.
            let r = by_patch is_patch b e k in (r.0, keeps_too (range_size b e) r.1);
        ranged = by_range;
      })
