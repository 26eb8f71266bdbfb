-- ===== src/MultiError/Answers.antt =====
-- The replies of src/multierror.rs to what a handler has sent.
use webdav_handler_rs.Prelude.{
  ℕ, ◌≤◌, ◌≡◌, ◌≢◌, refl, ap, ◌∙◌, inl, inr, List, [], ◌∷◌, ◌++◌, map, All, All-append, Bytes,
  nat_eq, list_eq, ==_refl, arith, Bool-cases, ok,
}
use mathlib.Core.List.{append_assoc}
use webdav_handler_rs.DavPath.{DavPath, eq}
use webdav_handler_rs.MultiError.{Reply, plain, multistatus, shown, multi_error}

-- Some failures have been sent after `before`, and nothing else.
pub record Reports (before after : List (DavPath × ℕ)) : Type 0 where
  pub sent : List (DavPath × ℕ)
  pub after_eq : after ≡ before ++ sent
  pub sent_ne : sent ≢ []
  pub failures : All (λ i. 400 ≤ i.1) sent

pub Reports-one :
    (before : List (DavPath × ℕ)) (p : DavPath) (n : ℕ)
    → 400 ≤ n
    → Reports before (before ++ (p, n) ∷ [])
Reports-one before p n h = record {
  sent = (p, n) ∷ [];
  after_eq = refl;
  sent_ne = λ e. cc;
  failures = (h, tt);
}

append-ne-nil : {A : Type 0} (xs ys : List A) → xs ≢ [] → xs ++ ys ≢ []
append-ne-nil [] ys h e = h refl
append-ne-nil (x ∷ xs) ys h e = cc

pub Reports-then : {a b c : List (DavPath × ℕ)} → Reports a b → Reports b c → Reports a c
Reports-then {a} r q = record {
  sent = r.sent ++ q.sent;
  after_eq = q.after_eq ∙ ap (λ x. x ++ q.sent) r.after_eq ∙ append_assoc a r.sent q.sent;
  sent_ne = append-ne-nil r.sent q.sent r.sent_ne;
  failures = All-append (λ i. 400 ≤ i.1) r.sent q.sent r.failures q.failures;
}

-- A call that is done has sent nothing.
abbrev pub Silent : List (DavPath × ℕ) → List (DavPath × ℕ) → Type 0
Silent before after = after ≡ before

-- A reply that shows failures, and nothing else.
abbrev pub IsFailure : Reply → Type 0
IsFailure (plain status) = 400 ≤ status
IsFailure (multistatus items) = (items ≢ []) × All (λ i. 400 ≤ i.1) items

shown-failures :
    (items : List (DavPath × ℕ))
    → All (λ i. 400 ≤ i.1) items
    → All (λ i. 400 ≤ i.1) (map shown items)
unfolding shown
shown-failures [] h = tt
shown-failures ((p, n) ∷ items) h = (ground (arith, h.0), shown-failures items h.1)

pub multi_error-failures :
    (p : DavPath) (items : List (DavPath × ℕ))
    → items ≢ []
    → All (λ i. 400 ≤ i.1) items
    → (reply : Reply) × (multi_error p items ≡ ok reply) × IsFailure reply
unfolding multi_error
multi_error-failures p [] some_ h = absurd (some_ refl)
multi_error-failures p ((q, n) ∷ []) some_ h = elim (Bool-cases (eq q p)) [
  | inl same ↦ (plain n, rw same refl, h.0)
  | inr other ↦
      (multistatus (shown (q, n) ∷ []), rw other refl, ((λ e. cc), shown-failures ((q, n) ∷ []) h))
]
multi_error-failures p (i ∷ j ∷ items) some_ h =
    (multistatus (map shown (i ∷ j ∷ items)), refl, ((λ e. cc), shown-failures (i ∷ j ∷ items) h))

pub multi_error_self : (p : DavPath) (n : ℕ) → multi_error p ((p, n) ∷ []) ≡ ok (plain n)
unfolding multi_error eq
multi_error_self p n = rw (==_refl {A = Bytes} _) refl
