-- ===== src/HandleOptions/Offered.antt =====
-- Which methods `handle_options` of src/handle_options.rs offers.
use webdav_handler_rs.Prelude.{
  ℕ, ◌==◌, nat_eq, list_eq, ◌≡◌, refl, sym, ◌∙◌, Bool, true, false, not, ◌&&◌, ◌||◌, Bool-cases,
  inl, inr, Option, List, [], ◌∷◌, ◌++◌, Bytes, All, All-append, if◌then◌else◌, Outcome, ok, err,
  panic, out_of_fuel, and_then, any, any-append,
}
use webdav_handler_rs.Errors.{DavError}
use webdav_handler_rs.DavPath.{is_star, as_url_string}
use webdav_handler_rs.Server.{DavInner, DavRequest, World, path, found}
use webdav_handler_rs.Methods.{DavMethod, DavMethodSet, dav_method}
use webdav_handler_rs.Dispatch.{is_allowed}
use webdav_handler_rs.HandleOptions.{
  is_lock, is_method, method_or_options, has_some, is_file_of, Offer, is_offered, offer_all, offers,
  handle_options,
}

-- A method that may be called: allowed, and of locks only with a lock system.
abbrev pub MayCall : Offer → DavMethod → Type 0
MayCall o y = (is_allowed o.allow y ≡ true) × (is_lock y ≡ true → o.has_ls ≡ true)

may_call : (a l h m : Bool) → (a && (not l || h) && m) ≡ true → (m ≡ true) × (l ≡ true → h ≡ true)
may_call true true true true e = (refl, λ _. refl)
may_call true false h true e = (refl, λ k. absurd cc)
may_call true true false m e = absurd cc
may_call true true true false e = absurd cc
may_call true false h false e = absurd cc
may_call false l h m e = absurd cc

is_offered-MayCall : (o : Offer) (y : DavMethod) → is_offered o y ≡ true → MayCall o y
unfolding is_offered
is_offered-MayCall o y e = may_call _ (is_lock y) o.has_ls (is_allowed o.allow y) e

-- All that is offered may be called, and OPTIONS is among it if `b`.
abbrev IsOffer : Offer → Bool → List DavMethod → Type 0
IsOffer o b v = All (MayCall o) v × (b ≡ true → any (λ y. is_method y DavMethod.options) v ≡ true)

any_kept :
    (v w : List DavMethod)
    → any (λ y. is_method y DavMethod.options) v ≡ true
    → any (λ y. is_method y DavMethod.options) (v ++ w) ≡ true
any_kept v w e = rw (any-append (λ y. is_method y DavMethod.options) v w, e) refl

offer_all-IsOffer :
    (o : Offer) (b : Bool) (v ys : List DavMethod) → IsOffer o b v → IsOffer o b (offer_all o v ys)
unfolding offer_all
offer_all-IsOffer o b v [] h = h
offer_all-IsOffer o b v (y ∷ ys) h = elim (Bool-cases (is_offered o y)) [
  | inl offered ↦ rw offered (
      offer_all-IsOffer o b (v ++ y ∷ []) ys (
        All-append (MayCall o) v (y ∷ []) h.0 (is_offered-MayCall o y offered, tt),
        λ k. any_kept v (y ∷ []) (h.1 k),
      ))
  | inr other ↦ rw other (offer_all-IsOffer o b v ys h)
]

options_offered :
    (o : Offer)
    → is_allowed o.allow DavMethod.options ≡ true
    → is_offered o DavMethod.options ≡ true
unfolding is_offered is_method
options_offered o allowed = rw allowed refl

last_one : (b : Bool) → (b || true) ≡ true
last_one true = refl
last_one false = refl

ends :
    (v : List DavMethod)
    → any (λ y. is_method y DavMethod.options) (v ++ DavMethod.options ∷ []) ≡ true
unfolding any is_method
ends v =
    rw (any-append (λ y. is_method y DavMethod.options) v (DavMethod.options ∷ []))
      (last_one (any (λ y. is_method y DavMethod.options) v))

-- A list that begins with OPTIONS.
options-IsOffer :
    (o : Offer) (b may : Bool) (v ys : List DavMethod)
    → (may ≡ true → is_allowed o.allow DavMethod.options ≡ true)
    → IsOffer o b v
    → IsOffer o may (offer_all o v (DavMethod.options ∷ ys))
unfolding offer_all
options-IsOffer o b may v ys allows h = elim (Bool-cases (is_offered o DavMethod.options)) [
  | inl offered ↦ rw offered (
      offer_all-IsOffer o may (v ++ DavMethod.options ∷ []) ys (
        All-append (MayCall o) v (DavMethod.options ∷ []) h.0
            (is_offered-MayCall o DavMethod.options offered, tt),
        λ _. ends v,
      ))
  | inr other ↦ rw other (
      offer_all-IsOffer o may v ys
        (h.0, λ m. absurd (clash (sym (options_offered o (allows m)) ∙ other))))
]
  where
    clash : true ≡ false → ⊥
    clash e = cc

if-IsOffer :
    (o : Offer) (b c : Bool) (v w : List DavMethod)
    → IsOffer o b v
    → IsOffer o b w
    → IsOffer o b (if c then v else w)
if-IsOffer o b true v w h k = h
if-IsOffer o b false v w h k = k

offers-IsOffer :
    (o : Offer) (is_unmapped is_file star is_root : Bool)
    → IsOffer o (is_allowed o.allow DavMethod.options) (offers o is_unmapped is_file star is_root)
unfolding offers
offers-IsOffer o is_unmapped is_file star is_root =
    let may = is_allowed o.allow DavMethod.options in
    let nothing : IsOffer o false [] = (tt, λ k. absurd cc) in
    let v0 =
      if is_file || star
      then offer_all o [] (DavMethod.head ∷ DavMethod.get ∷ DavMethod.patch ∷ DavMethod.put ∷ [])
      else [] in
    let v1 = offer_all o v0 (DavMethod.options ∷ DavMethod.prop_find ∷ DavMethod.copy ∷ []) in
    let v2 = if is_root then v1 else offer_all o v1 (DavMethod.move ∷ DavMethod.delete ∷ []) in
    let h1 : IsOffer o may v1 =
      options-IsOffer o false may v0 (DavMethod.prop_find ∷ DavMethod.copy ∷ []) (λ h. h)
        (if-IsOffer o false (is_file || star)
          (offer_all o [] (DavMethod.head ∷ DavMethod.get ∷ DavMethod.patch ∷ DavMethod.put ∷ []))
          []
          (offer_all-IsOffer o false []
            (DavMethod.head ∷ DavMethod.get ∷ DavMethod.patch ∷ DavMethod.put ∷ []) nothing)
          nothing) in
    if-IsOffer o may (is_unmapped && not star) _
      (offer_all o v2 (DavMethod.lock ∷ DavMethod.unlock ∷ []))
      (options-IsOffer o false may [] (DavMethod.mk_col ∷ DavMethod.put ∷ DavMethod.lock ∷ [])
        (λ h. h) nothing)
      (offer_all-IsOffer o may v2 (DavMethod.lock ∷ DavMethod.unlock ∷ []) (
        if-IsOffer o may is_root v1 (offer_all o v1 (DavMethod.move ∷ DavMethod.delete ∷ [])) h1
          (offer_all-IsOffer o may v1 (DavMethod.move ∷ DavMethod.delete ∷ []) h1)))

-- What holds of a reply, if there is one.
abbrev pub Replies : {A : Type 0} → (A → Type 0) → Outcome DavError A → Type 0
Replies P (ok a) = P a
Replies P _ = Unit

Replies-and_then :
    {A B : Type 0} (P : B → Type 0) (o : Outcome DavError A) (f : A → Outcome DavError B)
    → ((a : A) → Replies P (f a))
    → Replies P (and_then o f)
Replies-and_then P (ok a) f h = h a
Replies-and_then P (err e) f h = tt
Replies-and_then P panic f h = tt
Replies-and_then P out_of_fuel f h = tt

module _ {S Entry File L Element : Type 0} (percent_decode : Bytes → Bytes)
    (percent_encode : (ℕ → Bool) → Bytes → Bytes) (inner : DavInner S Entry File L Element)
    (allow : Option DavMethodSet) where
  -- Each method is allowed, and of locks only with a lock system; OPTIONS is there if allowed.
  abbrev pub IsAllow : List DavMethod → Type 0
  IsAllow ms =
      All (λ y. (is_allowed allow y ≡ true) × (is_lock y ≡ true → has_some inner.ls ≡ true)) ms
      × (is_allowed allow DavMethod.options ≡ true
          → any (λ y. is_method y DavMethod.options) ms ≡ true)

  -- Each method that the reply of `handle_options` names is allowed, and LOCK and UNLOCK are
  -- named only if there is a lock system; OPTIONS is named if it is allowed.
  pub handle_options-IsAllow :
      (name : Bytes) (req : DavRequest) (w : World S L)
      → Replies IsAllow (handle_options percent_decode percent_encode inner allow name req w)
  unfolding handle_options
  handle_options-IsAllow name req w =
      Replies-and_then IsAllow (path percent_decode inner req) _ λ p.
        Replies-and_then IsAllow (found (inner.fs.metadata p w.files)) _ λ meta.
          Replies-and_then IsAllow (is_star p) _ λ star.
            Replies-and_then IsAllow (as_url_string percent_encode p) _ λ url.
              offers-IsOffer
                (record {
                  allow = allow;
                  has_ls = has_some inner.ls;
                  method = method_or_options (dav_method name);
                })
                (not (has_some meta)) (is_file_of meta)
                (star && is_method (method_or_options (dav_method name)) DavMethod.options)
                (url == b'/' ∷ [])
