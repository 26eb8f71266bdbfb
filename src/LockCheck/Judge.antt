-- ===== src/LockCheck/Judge.antt =====
-- `check_locks_to_path` of src/memls.rs on a plain list of locks.
use mathlib.Core.List.{Memᴰ}
use webdav_handler_rs.Prelude.{
  ◌≡◌, refl, ◌∙◌, inl, inr, Bool, true, false, not, ◌&&◌, ◌||◌, Option, none, some, List, [], ◌∷◌,
  arith, any, if◌then◌else◌, Bool-cases, ok, err,
}
use webdav_handler_rs.Ls.{DavLock}
use webdav_handler_rs.LockCheck.{
  Claim, Seen, nothing_seen, is_held, or_insert, see_lock, see_locks, verdict,
}
use webdav_handler_rs.LockCheck.Covering.{judge}

module _ {Element : Type 0} (c : Claim) (shared_ok : Bool) where
  -- An exclusive lock that the claim is not good for.
  abbrev pub is_barred : DavLock Element → Bool
  is_barred nl = not (is_held c nl) && not nl.shared

  -- The first shared lock that counts against the request.
  first_unheld : Option (DavLock Element) → List (DavLock Element) → Option (DavLock Element)
  first_unheld first [] = first
  first_unheld first (nl ∷ rest) =
      first_unheld (if is_held c nl || shared_ok then first else or_insert first nl) rest

  abbrev seen : Seen Element → DavLock Element → Seen Element
  seen st nl = record {
    holds_lock = st.holds_lock || is_held c nl;
    first_lock_seen =
        if is_held c nl || shared_ok then st.first_lock_seen else or_insert st.first_lock_seen nl;
  }

  see_lock-ok :
      (st : Seen Element) (nl : DavLock Element)
      → is_barred nl ≡ false
      → see_lock c shared_ok false st nl ≡ ok (seen st nl)
  unfolding see_lock
  see_lock-ok st nl h = ground arith

  see_lock-err :
      (st : Seen Element) (nl : DavLock Element)
      → is_barred nl ≡ true
      → see_lock c shared_ok false st nl ≡ err nl
  unfolding see_lock
  see_lock-err st nl h = ground arith

  -- Without a barred lock the loop ends, with what it saw.
  see_locks-ok :
      (st : Seen Element) (ls : List (DavLock Element))
      → any is_barred ls ≡ false
      → see_locks c shared_ok false st ls
        ≡ ok (record {
          holds_lock = st.holds_lock || any (is_held c) ls;
          first_lock_seen = first_unheld st.first_lock_seen ls;
        })
  unfolding see_locks any first_unheld
  see_locks-ok st [] h = ground arith
  see_locks-ok st (nl ∷ rest) h =
      rw (see_lock-ok st nl (ground arith))
        (see_locks-ok (seen st nl) rest (ground arith) ∙ ground arith)

  -- The first barred lock is the error.
  see_locks-err :
      (st : Seen Element) (ls : List (DavLock Element))
      → any is_barred ls ≡ true
      → (l : DavLock Element) × (see_locks c shared_ok false st ls ≡ err l)
        × Memᴰ l ls
        × (is_barred l ≡ true)
  unfolding see_locks any
  see_locks-err st [] h = absurd (ground arith)
  see_locks-err st (nl ∷ rest) h = elim (Bool-cases (is_barred nl)) [
    | inl barred ↦ (nl, rw (see_lock-err st nl barred), Memᴰ.head refl, barred)
    | inr free ↦
        let (l, e, m, b) = see_locks-err (seen st nl) rest (ground arith) in
        (l, rw (see_lock-ok st nl free) e, Memᴰ.tail m, b)
  ]

  first_unheld-some :
      (first : DavLock Element) (ls : List (DavLock Element))
      → first_unheld (some first) ls ≡ some first
  unfolding first_unheld
  first_unheld-some first [] = refl
  first_unheld-some first (nl ∷ rest) = ground (arith, first_unheld-some first rest)

  first_unheld-shared_ok :
      (ls : List (DavLock Element)) → shared_ok ≡ true → first_unheld none ls ≡ none
  unfolding first_unheld
  first_unheld-shared_ok [] h = refl
  first_unheld-shared_ok (nl ∷ rest) h = ground (arith, first_unheld-shared_ok rest)

  -- With no lock held, the first of the list is remembered.
  first_unheld-head :
      (nl : DavLock Element) (rest : List (DavLock Element))
      → shared_ok ≡ false
      → is_held c nl ≡ false
      → first_unheld none (nl ∷ rest) ≡ some nl
  unfolding first_unheld
  first_unheld-head nl rest h k = ground (arith, first_unheld-some nl rest)

  abbrev is_nil : List (DavLock Element) → Bool
  is_nil [] = true
  is_nil (l ∷ ls) = false

  -- The locks let a request pass exactly if none is barred, and one is held, or shared locks do
  -- not count, or there is none.
  abbrev pub passes : List (DavLock Element) → Bool
  passes ls = not (any is_barred ls) && (any (is_held c) ls || shared_ok || is_nil ls)

  pub judge-passes : (ls : List (DavLock Element)) → passes ls ≡ true → judge c shared_ok ls ≡ ok tt
  unfolding judge verdict
  judge-passes [] h = unfold see_locks in refl
  judge-passes (nl ∷ rest) h =
      rw (see_locks-ok nothing_seen (nl ∷ rest) (ground arith))
        (ground (arith, first_unheld-shared_ok (nl ∷ rest)))

  pub judge-stops :
      (ls : List (DavLock Element))
      → passes ls ≡ false
      → (l : DavLock Element) × (judge c shared_ok ls ≡ err l) × Memᴰ l ls × (is_held c l ≡ false)
  unfolding judge verdict
  judge-stops [] h = absurd (unfold any in ground arith)
  judge-stops (nl ∷ rest) h = elim (Bool-cases (any is_barred (nl ∷ rest))) [
    | inl barred ↦
        let (l, e, m, b) = see_locks-err nothing_seen (nl ∷ rest) barred in
        (l, rw e, m, ground arith)
    | inr free ↦
        let unheld : is_held c nl ≡ false = unfold any in ground arith in
        (
          nl,
          rw (see_locks-ok nothing_seen (nl ∷ rest) free)
              (ground (arith, first_unheld-head nl rest)),
          Memᴰ.head refl,
          unheld,
        )
  ]
