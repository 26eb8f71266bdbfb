-- ===== src/Dispatch/Dispatched.antt =====
-- The handler that `handle2` of src/davhandler.rs calls.
use webdav_handler_rs.Prelude.{
  ◌≡◌, ◌≢◌, ◌⊎◌, refl, ◌∙◌, some, ap, inl, inr, true, false, Option, [], ◌∷◌, Bytes, Outcome, ok,
  err, panic, out_of_fuel, continue,
}
use webdav_handler_rs.Errors.{DavError}
use webdav_handler_rs.DavPath.{DavPath, from_uri_and_prefix}
use webdav_handler_rs.Methods
use webdav_handler_rs.Methods.{DavMethod, DavMethodSet, dav_method, contains, no_methods}
use webdav_handler_rs.Dispatch.{
  Request, Inner, Handlers, Accepted, is_streamed, takes_body, read_request, accept, dispatch,
  handle2,
}
use webdav_handler_rs.Dispatch.Checked.{IsAccepted, accept-IsAccepted}
use webdav_handler_rs.Dispatch.Named.{
  method_named, is_options, is_head, is_get, is_put, is_patch, is_prop_find, is_prop_patch,
  is_mk_col, is_copy, is_move, is_delete, is_lock, is_unlock,
}

module _ (percent_decode : Bytes → Bytes) (inner : Inner) where
  -- What has been checked of a request with the method `m`; `allow` is what OPTIONS may offer.
  pub record IsChecked (req : Request) (m : DavMethod) (allow : Option DavMethodSet) : Type 0 where
    pub known : dav_method req.method ≡ ok m
    pub has_files : inner.is_voidfs ≡ true → m ≡ DavMethod.options
    pub allowed : (s : DavMethodSet) → inner.allow ≡ some s → contains s m ≡ true
    pub same_allow : inner.is_voidfs ≡ false → allow ≡ inner.allow
    pub only_options :
        inner.is_voidfs ≡ true → allow ≡ some (Methods.add no_methods DavMethod.options)
    pub valid_path :
        (p : DavPath) × (from_uri_and_prefix percent_decode req.uri inner.prefix ≡ ok p)

module _ {W R : Type 0} (handlers : Handlers W R) where
  -- The handler that has been called by the name of the method, and what it has been given: the body
  -- as it has been read, which is empty where the handler takes none, or the body itself.
  pub record IsServed (req : Request) (allow : Option DavMethodSet) (w : W)
      (o : Outcome DavError R × W) : Type 0 where
    pub options :
        req.method ≡ b'O' ∷ b'P' ∷ b'T' ∷ b'I' ∷ b'O' ∷ b'N' ∷ b'S' ∷ []
        → (read_request req.body 65536 ≡ ok []) × (o ≡ handlers.options allow w)
    pub head :
        req.method ≡ b'H' ∷ b'E' ∷ b'A' ∷ b'D' ∷ []
        → (read_request req.body 65536 ≡ ok []) × (o ≡ handlers.get w)
    pub get :
        req.method ≡ b'G' ∷ b'E' ∷ b'T' ∷ []
        → (read_request req.body 65536 ≡ ok []) × (o ≡ handlers.get w)
    pub put : req.method ≡ b'P' ∷ b'U' ∷ b'T' ∷ [] → o ≡ handlers.put req.body w
    pub patch : req.method ≡ b'P' ∷ b'A' ∷ b'T' ∷ b'C' ∷ b'H' ∷ [] → o ≡ handlers.put req.body w
    pub prop_find :
        req.method ≡ b'P' ∷ b'R' ∷ b'O' ∷ b'P' ∷ b'F' ∷ b'I' ∷ b'N' ∷ b'D' ∷ []
        → (d : Bytes) × (read_request req.body 65536 ≡ ok d) × (o ≡ handlers.propfind d w)
    pub prop_patch :
        req.method ≡ b'P' ∷ b'R' ∷ b'O' ∷ b'P' ∷ b'P' ∷ b'A' ∷ b'T' ∷ b'C' ∷ b'H' ∷ []
        → (d : Bytes) × (read_request req.body 65536 ≡ ok d) × (o ≡ handlers.proppatch d w)
    pub mk_col :
        req.method ≡ b'M' ∷ b'K' ∷ b'C' ∷ b'O' ∷ b'L' ∷ []
        → (read_request req.body 65536 ≡ ok []) × (o ≡ handlers.mkcol w)
    pub copy :
        req.method ≡ b'C' ∷ b'O' ∷ b'P' ∷ b'Y' ∷ []
        → (read_request req.body 65536 ≡ ok []) × (o ≡ handlers.copymove DavMethod.copy w)
    pub move :
        req.method ≡ b'M' ∷ b'O' ∷ b'V' ∷ b'E' ∷ []
        → (read_request req.body 65536 ≡ ok []) × (o ≡ handlers.copymove DavMethod.move w)
    pub delete :
        req.method ≡ b'D' ∷ b'E' ∷ b'L' ∷ b'E' ∷ b'T' ∷ b'E' ∷ []
        → (read_request req.body 65536 ≡ ok []) × (o ≡ handlers.delete w)
    pub lock :
        req.method ≡ b'L' ∷ b'O' ∷ b'C' ∷ b'K' ∷ []
        → (d : Bytes) × (read_request req.body 65536 ≡ ok d) × (o ≡ handlers.lock d w)
    pub unlock :
        req.method ≡ b'U' ∷ b'N' ∷ b'L' ∷ b'O' ∷ b'C' ∷ b'K' ∷ []
        → (read_request req.body 65536 ≡ ok []) × (o ≡ handlers.unlock w)

module _ {W R : Type 0} (handlers : Handlers W R) (percent_decode : Bytes → Bytes) (inner : Inner)
    (req : Request) (a : Accepted) (acc : IsAccepted percent_decode inner req a) where
  -- A method whose handler takes no body.
  no_body :
      (m : DavMethod)
      → a.method ≡ m
      → is_streamed m ≡ false
      → takes_body m ≡ false
      → read_request req.body 65536 ≡ ok []
  no_body m e s t = acc.read (ap is_streamed e ∙ s) ∙ ap ok (acc.has_no_body (ap takes_body e ∙ t))

  -- The method by its name, and what is run by the method.
  named : {name : Bytes} {m : DavMethod} → dav_method name ≡ ok m → req.method ≡ name → a.method ≡ m
  named {name} {m} is_m e = method_named req.method name a.method m acc.known is_m e

  by_method :
      {m : DavMethod} (w : W)
      → a.method ≡ m
      → dispatch handlers req.body a.allow a.body_data a.method w
        ≡ dispatch handlers req.body a.allow a.body_data m w
  by_method w e = ap (λ m. dispatch handlers req.body a.allow a.body_data m w) e

  accepted-IsServed :
      (w : W)
      → IsServed handlers req a.allow w (dispatch handlers req.body a.allow a.body_data a.method w)
  unfolding dispatch
  accepted-IsServed w = record {
    options = λ e. (
      no_body DavMethod.options (named is_options e) refl refl,
      by_method w (named is_options e),
    );
    head = λ e. (no_body DavMethod.head (named is_head e) refl refl, by_method w (named is_head e));
    get = λ e. (no_body DavMethod.get (named is_get e) refl refl, by_method w (named is_get e));
    put = λ e. by_method w (named is_put e);
    patch = λ e. by_method w (named is_patch e);
    prop_find = λ e. (
      a.body_data,
      acc.read (ap is_streamed (named is_prop_find e)),
      by_method w (named is_prop_find e),
    );
    prop_patch = λ e. (
      a.body_data,
      acc.read (ap is_streamed (named is_prop_patch e)),
      by_method w (named is_prop_patch e),
    );
    mk_col = λ e.
        (no_body DavMethod.mk_col (named is_mk_col e) refl refl, by_method w (named is_mk_col e));
    copy = λ e. (no_body DavMethod.copy (named is_copy e) refl refl, by_method w (named is_copy e));
    move = λ e. (no_body DavMethod.move (named is_move e) refl refl, by_method w (named is_move e));
    delete = λ e.
        (no_body DavMethod.delete (named is_delete e) refl refl, by_method w (named is_delete e));
    lock = λ e.
        (a.body_data, acc.read (ap is_streamed (named is_lock e)), by_method w (named is_lock e));
    unlock = λ e.
        (no_body DavMethod.unlock (named is_unlock e) refl refl, by_method w (named is_unlock e));
  }

module _ (percent_decode : Bytes → Bytes) (inner : Inner) (req : Request) (a : Accepted) where
  accepted-IsChecked :
      IsAccepted percent_decode inner req a → IsChecked percent_decode inner req a.method a.allow
  accepted-IsChecked acc = record {
    known = acc.known;
    has_files = acc.has_files;
    allowed = acc.allowed;
    same_allow = acc.same_allow;
    only_options = acc.only_options;
    valid_path = acc.valid_path;
  }

module _ {W R : Type 0} (handlers : Handlers W R) (percent_decode : Bytes → Bytes)
    (inner : Inner) where
  -- Either `handle2` is, on the same state, the call of the handler that belongs to the literal
  -- name of the method, GET's for HEAD, PUT's for PATCH and that of copy and move with its
  -- method. Then the method is known and, if the server restricts the methods, among those
  -- allowed; it is OPTIONS if there is no file system, and what OPTIONS may offer is then OPTIONS
  -- only, and otherwise the allowed methods of the server; the path is valid; PUT and PATCH are
  -- given the body itself, and of any other the body has been read within its bound, and is
  -- handed over to PROPFIND, PROPPATCH and LOCK, and empty for the others. Or `handle2` has
  -- changed nothing and does not reply.
  pub handle2-IsServed :
      (req : Request) (w : W)
      → ((m : DavMethod) × (allow : Option DavMethodSet) × IsChecked percent_decode inner req m
            allow
          × IsServed handlers req allow w (handle2 handlers percent_decode inner req w))
        ⊎ (((handle2 handlers percent_decode inner req w).1 ≡ w)
            × ((r : R) → (handle2 handlers percent_decode inner req w).0 ≢ ok r))
  unfolding handle2
  handle2-IsServed req w = accepted (accept percent_decode inner req) refl
    where
      accepted :
          (o : Outcome DavError Accepted)
          → accept percent_decode inner req ≡ o
          → ((m : DavMethod) × (allow : Option DavMethodSet) × IsChecked percent_decode inner req m
                allow
              × IsServed handlers req allow w
                  (continue o w (λ a. dispatch handlers req.body a.allow a.body_data a.method)))
            ⊎ (((continue o w (λ a. dispatch handlers req.body a.allow a.body_data a.method)).1 ≡ w)
                × ((r : R)
                    → (continue o w
                        (λ a. dispatch handlers req.body a.allow a.body_data a.method)).0
                      ≢ ok r))
      accepted (ok a) e =
          let acc = accept-IsAccepted percent_decode inner req a e in
          inl (
            a.method,
            a.allow,
            accepted-IsChecked percent_decode inner req a acc,
            accepted-IsServed handlers percent_decode inner req a acc w,
          )
      accepted (err x) e = inr (refl, λ r k. cc)
      accepted panic e = inr (refl, λ r k. cc)
      accepted out_of_fuel e = inr (refl, λ r k. cc)
