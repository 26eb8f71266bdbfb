-- ===== src/Dispatch/Checked.antt =====
-- What `handle2` of src/davhandler.rs has checked before a handler runs.
use webdav_handler_rs.Prelude.{
  ℕ, ◌≡◌, refl, Bool-cases, sym, ◌∙◌, some, none, ap, subst, inl, inr, Bool, true, false, not, ◌&&◌,
  Option, [], ◌∷◌, Bytes, ltb, length, suc, arith, if◌then◌else◌, Outcome, ok, err, panic,
  out_of_fuel, and_then-eq-ok, if-eq-ok, ok-inj,
}
use webdav_handler_rs.Errors.{DavError}
use webdav_handler_rs.DavPath.{DavPath, ParseError, parse_error_into, from_uri_and_prefix}
use webdav_handler_rs.Server.{map_err}
use webdav_handler_rs.Methods
use webdav_handler_rs.Methods.{DavMethod, DavMethodSet, dav_method, contains, no_methods}
use webdav_handler_rs.Dispatch.{
  Request, Inner, Accepted, without_files, is_allowed, is_streamed, takes_body, read_request,
  accept,
}

module _ (percent_decode : Bytes → Bytes) (inner : Inner) where
  -- What holds of a request that has been accepted.
  pub record IsAccepted (req : Request) (a : Accepted) : Type 0 where
    pub known : dav_method req.method ≡ ok a.method
    pub has_files : inner.is_voidfs ≡ true → a.method ≡ DavMethod.options
    pub allowed : (s : DavMethodSet) → inner.allow ≡ some s → contains s a.method ≡ true
    pub same_allow : inner.is_voidfs ≡ false → a.allow ≡ inner.allow
    pub only_options :
        inner.is_voidfs ≡ true → a.allow ≡ some (Methods.add no_methods DavMethod.options)
    pub valid_path :
        (p : DavPath) × (from_uri_and_prefix percent_decode req.uri inner.prefix ≡ ok p)
    pub has_no_body : takes_body a.method ≡ false → a.body_data ≡ []
    pub read : is_streamed a.method ≡ false → read_request req.body 65536 ≡ ok a.body_data

map_err_ok :
    {A : Type 0} (f : ParseError → DavError) (o : Outcome ParseError A) (a : A)
    → map_err f o ≡ ok a
    → o ≡ ok a
map_err_ok f (ok x) a e = ap ok (ok-inj x a e)
map_err_ok f (err x) a e = absurd cc
map_err_ok f panic a e = absurd cc
map_err_ok f out_of_fuel a e = absurd cc

no_files :
    (v : Bool) (x y : Option DavMethodSet) (z : DavError)
    → (if not v then ok x else err z) ≡ ok y
    → v ≡ true
    → ⊥
no_files true x y z e h = cc
no_files false x y z e h = cc

without_files_ok :
    (inner : Inner) (m : DavMethod) (allow : Option DavMethodSet)
    → without_files inner m ≡ ok allow
    → inner.is_voidfs ≡ true
    → m ≡ DavMethod.options
unfolding without_files
without_files_ok inner DavMethod.options allow e h = refl
without_files_ok inner m allow e h =
    absurd (no_files inner.is_voidfs inner.allow allow (DavError.status_close 405) e h)

positive : (n : ℕ) → ltb 0 (suc n) ≡ false → ⊥
positive n e = ground arith

files_allow :
    (inner : Inner) (m : DavMethod) (allow : Option DavMethodSet)
    → without_files inner m ≡ ok allow
    → inner.is_voidfs ≡ false
    → allow ≡ inner.allow
unfolding without_files
files_allow inner DavMethod.options allow e h = ground (arith, e, h)
files_allow inner m allow e h = ground (arith, e, h)

abbrev only_options : Option DavMethodSet
only_options = some (Methods.add no_methods DavMethod.options)

-- Without a file system, by the methods that were allowed before.
without_files_allow :
    (given allow : Option DavMethodSet)
    → ◌≡◌ {A = Outcome DavError (Option DavMethodSet)}
        (if (elim given [ none ↦ true | some a ↦ contains a DavMethod.options ])
          then ok only_options
          else ok given)
        (ok allow)
    → is_allowed allow DavMethod.options ≡ true
    → (allow ≡ only_options) × (is_allowed given DavMethod.options ≡ true)
without_files_allow none allow e h = (sym (ok-inj only_options allow e), refl)
without_files_allow (some s) allow e h = elim (Bool-cases (contains s DavMethod.options)) [
  | inl in_set ↦ (sym (ok-inj only_options allow (rw in_set at e)), in_set)
  | inr not_in_set ↦
      let same : some s ≡ allow = ok-inj (some s) allow (rw not_in_set at e) in
      absurd
        (clash (sym (subst (λ x. is_allowed x DavMethod.options ≡ true) (sym same) h) ∙ not_in_set))
]
  where
    clash : true ≡ false → ⊥
    clash e = cc

void_allow :
    (inner : Inner) (m : DavMethod) (allow : Option DavMethodSet)
    → without_files inner m ≡ ok allow
    → is_allowed allow m ≡ true
    → inner.is_voidfs ≡ true
    → (allow ≡ only_options) × (is_allowed inner.allow m ≡ true)
unfolding without_files
void_allow inner DavMethod.options allow e h void =
    without_files_allow inner.allow allow (rw void at e) h
void_allow inner m allow e h void =
    absurd (no_files inner.is_voidfs inner.allow allow (DavError.status_close 405) e void)

in_allowed :
    (inner : Inner) (m : DavMethod) (allow : Option DavMethodSet)
    → without_files inner m ≡ ok allow
    → is_allowed allow m ≡ true
    → (s : DavMethodSet) → inner.allow ≡ some s
    → contains s m ≡ true
in_allowed inner m allow e h s given = elim (Bool-cases inner.is_voidfs) [
  | inl void ↦ subst (λ x. is_allowed x m ≡ true) given (void_allow inner m allow e h void).1
  | inr files ↦ subst (λ x. is_allowed x m ≡ true) (files_allow inner m allow e files ∙ given) h
]

nothing : (d : Bytes) (t : Bool) → (not t && ltb 0 (length d)) ≡ false → t ≡ false → d ≡ []
nothing [] t e h = refl
nothing (x ∷ d) true e h = absurd cc
nothing (x ∷ d) false e h = absurd (positive (length d) e)

read_ok :
    (streamed : Bool) (o : Outcome DavError Bytes) (d : Bytes)
    → (if streamed then ok [] else o) ≡ ok d
    → streamed ≡ false
    → o ≡ ok d
read_ok true o d e h = absurd cc
read_ok false o d e h = e

module _ (percent_decode : Bytes → Bytes) (inner : Inner) where
  pub accept-IsAccepted :
      (req : Request) (a : Accepted)
      → accept percent_decode inner req ≡ ok a
      → IsAccepted percent_decode inner req a
  unfolding accept
  accept-IsAccepted req a e =
      let (method, known, e1) = and_then-eq-ok (dav_method req.method) _ e in
      let (allow, files, e2) = and_then-eq-ok (without_files inner method) _ e1 in
      let (allowed, e3) = if-eq-ok (not (is_allowed allow method)) _ _ e2 in
      let (path, valid, e4) =
        and_then-eq-ok
          (map_err parse_error_into (from_uri_and_prefix percent_decode req.uri inner.prefix)) _
          e3 in
      let (body_data, read, e5) =
        and_then-eq-ok (if is_streamed method then ok [] else read_request req.body 65536) _ e4 in
      let (bare, e6) = if-eq-ok (not (takes_body method) && ltb 0 (length body_data)) _ _ e5 in
      subst (IsAccepted percent_decode inner req) (ok-inj _ a e6) (record {
        known = known;
        has_files = without_files_ok inner method allow files;
        allowed = in_allowed inner method allow files (not_false (is_allowed allow method) allowed);
        same_allow = files_allow inner method allow files;
        only_options = λ void.
            (void_allow inner method allow files (not_false (is_allowed allow method) allowed)
              void).0;
        valid_path = (
          path,
          map_err_ok parse_error_into (from_uri_and_prefix percent_decode req.uri inner.prefix) path
              valid,
        );
        has_no_body = nothing body_data (takes_body method) bare;
        read = read_ok (is_streamed method) (read_request req.body 65536) body_data read;
      })
    where
      not_false : (b : Bool) → not b ≡ false → b ≡ true
      not_false true h = refl
      not_false false h = absurd cc
