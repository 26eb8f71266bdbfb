-- ===== src/LockCheck/Grown.antt =====
-- The locks that cover a path of src/memls.rs, once `lock` has made the nodes of the path and stored
-- a lock there.
use mathlib.Core.List.{append-nil, append_assoc}
use webdav_handler_rs.Prelude.{
  ℕ, ◌≡◌, ◌≢◌, refl, sym, ap, ◌∙◌, inl, inr, none, some, List, [], ◌∷◌, ◌++◌, arith, Bytes, filter,
  Option-cases, All,
}
use webdav_handler_rs.Tree.{find_node, root_id}
use webdav_handler_rs.DavPath.Parent.{IsSegment}
use webdav_handler_rs.Ls.{DavLock}
use webdav_handler_rs.LockTree.{LockTree, find_path}
use webdav_handler_rs.LockTree.View.{
  data_at, child_at, step_to, get_child-step_to, changed, data_at-update_node, child_at-update_node,
  find_path-cons, find_path-le, IsLockTree,
}
use webdav_handler_rs.LockTree.Create.{Extends, child_exists}
use webdav_handler_rs.LockCheck.Covering.{counted, covering_from, covering}
use webdav_handler_rs.LockCheck.Standing.{covering_from-cons, step_to_segment}

module _ {Element : Type 0} where
  covering_from-stops :
      (t : LockTree Element) (i : ℕ) (seg : Bytes) (rest : List Bytes)
      → step_to t i seg ≡ none
      → covering_from t i (seg ∷ rest) ≡ []
  unfolding covering_from
  covering_from-stops t i seg rest step = rw (covering_from, get_child-step_to t i seg, step)

  counted-nil : (segs : List Bytes) → counted {Element = Element} segs [] ≡ []
  unfolding counted filter
  counted-nil [] = refl
  counted-nil (s ∷ ss) = refl

  module _ (t t' : LockTree Element) (w : IsLockTree t) (w' : IsLockTree t')
      (e : Extends t t') where
    -- Below a new node there are no locks.
    covering_from-new :
        (c : ℕ) (segs : List Bytes)
        → All IsSegment segs
        → data_at t c ≡ none
        → covering_from t' c segs ≡ []
    unfolding covering_from
    covering_from-new c [] s absent = refl
    covering_from-new c (seg ∷ rest) s absent = elim (Option-cases (child_at t' c seg)) [
      | inl none_there ↦
          covering_from-stops t' c seg rest (step_to_segment t' c seg s.0 ∙ none_there)
      | inr (d, there) ↦
          let fresh : data_at t d ≡ none = e.child_new c seg d (ground arith) there in
          let (m, found) = child_exists t' c seg d w' there in
          let bare : m.node_data ≡ [] = e.data_new d m.node_data fresh (ground arith) in
          covering_from-cons t' c d seg rest m.node_data (step_to_segment t' c seg s.0 ∙ there)
            (ground arith)
          ∙ rw (bare, counted-nil rest) (covering_from-new d rest s.1 fresh)
    ]

    -- The new nodes of an extended tree add no lock.
    covering_from-Extends :
        (n : ℕ) (segs : List Bytes)
        → All IsSegment segs
        → covering_from t' n segs ≡ covering_from t n segs
    unfolding covering_from
    covering_from-Extends n [] s = refl
    covering_from-Extends n (seg ∷ rest) s = elim (Option-cases (child_at t n seg)) [
      | inr (c, there) ↦
          let (m, found) = child_exists t n seg c w there in
          let stored : data_at t c ≡ some m.node_data = ground arith in
          covering_from-cons t' n c seg rest m.node_data
            (step_to_segment t' n seg s.0 ∙ e.child_old n seg c there)
            (e.data_old c m.node_data stored)
          ∙ ap (λ ls. counted rest m.node_data ++ ls) (covering_from-Extends c rest s.1)
          ∙ sym (
              covering_from-cons t n c seg rest m.node_data (step_to_segment t n seg s.0 ∙ there)
                stored)
      | inl absent ↦ elim (Option-cases (child_at t' n seg)) [
        | inl none_there ↦
            covering_from-stops t' n seg rest (step_to_segment t' n seg s.0 ∙ none_there)
            ∙ sym (covering_from-stops t n seg rest (step_to_segment t n seg s.0 ∙ absent))
        | inr (d, there) ↦
            let fresh : data_at t d ≡ none = e.child_new n seg d absent there in
            let (m, found) = child_exists t' n seg d w' there in
            let bare : m.node_data ≡ [] = e.data_new d m.node_data fresh (ground arith) in
            covering_from-cons t' n d seg rest m.node_data (step_to_segment t' n seg s.0 ∙ there)
              (ground arith)
            ∙ rw (bare, counted-nil rest) (covering_from-new d rest s.1 fresh)
            ∙ sym (covering_from-stops t n seg rest (step_to_segment t n seg s.0 ∙ absent))
      ]
    ]

  module _ (t : LockTree Element) (N : ℕ) (l : DavLock Element) (w : IsLockTree t) where
    abbrev pushed : LockTree Element
    pushed = changed t N (λ ls. ls ++ l ∷ [])

    -- Seen from a node on the way, whose own locks come first.
    covering_from-pushed :
        (n : ℕ) (segs : List Bytes) (here here' : List (DavLock Element))
        → All IsSegment segs
        → find_path t n segs ≡ some N
        → data_at t n ≡ some here
        → data_at pushed n ≡ some here'
        → counted segs here' ++ covering_from pushed n segs
          ≡ (counted segs here ++ covering_from t n segs) ++ l ∷ []
    unfolding find_path covering_from counted
    covering_from-pushed n [] here here' s at stored stored' =
        let same : here' ≡ here ++ l ∷ [] =
          ground (arith, data_at-update_node t N (λ ls. ls ++ l ∷ []) n) in
        append-nil here' ∙ same ∙ ap (λ ls. ls ++ l ∷ []) (sym (append-nil here))
    covering_from-pushed n (seg ∷ rest) here here' s at stored stored' =
        elim (Option-cases (child_at t n seg)) [
          | inl absent ↦ absurd (ground (arith, find_path-cons t n seg rest))
          | inr (c, there) ↦
              let (m, found) = child_exists t n seg c w there in
              let below : find_path t c rest ≡ some N =
                ground (arith, find_path-cons t n seg rest) in
              let unlike : n ≢ N = λ q.
                omega (arith, w.ordered n seg c there, find_path-le t c N rest w.ordered below) in
              let same : here' ≡ here =
                ground (arith, data_at-update_node t N (λ ls. ls ++ l ∷ []) n) in
              let there' : child_at pushed n seg ≡ some c =
                child_at-update_node t N (λ ls. ls ++ l ∷ []) n seg ∙ there in
              let next : data_at t c ≡ some m.node_data = ground arith in
              elim (Option-cases (data_at pushed c)) [
                | inl lost ↦ absurd (ground (arith, data_at-update_node t N (λ ls. ls ++ l ∷ []) c))
                | inr (ls', next') ↦
                    ap (λ x. counted (seg ∷ rest) here' ++ x)
                      (covering_from-cons pushed n c seg rest ls'
                          (step_to_segment pushed n seg s.0 ∙ there') next'
                        ∙ covering_from-pushed c rest m.node_data ls' s.1 below next next')
                    ∙ ap
                        (λ x.
                          counted (seg ∷ rest) x
                          ++ ((counted rest m.node_data ++ covering_from t c rest) ++ l ∷ []))
                        same
                    ∙ sym (
                        append_assoc (counted (seg ∷ rest) here)
                          (counted rest m.node_data ++ covering_from t c rest) (l ∷ []))
                    ∙ ap (λ x. (counted (seg ∷ rest) here ++ x) ++ l ∷ [])
                        (sym (
                          covering_from-cons t n c seg rest m.node_data
                            (step_to_segment t n seg s.0 ∙ there) next))
              ]
        ]

  covering-root :
      (t : LockTree Element) (segs : List Bytes) (here : List (DavLock Element))
      → data_at t root_id ≡ some here
      → covering t segs ≡ counted segs here ++ covering_from t root_id segs
  covering-root t segs here stored =
      covering_from-cons t root_id root_id [] segs here (ground arith) stored

  -- After a lock has been stored at the new node of the path, the locks that cover the path are
  -- those from before, and it.
  pub covering-pushed :
      (s t : LockTree Element) (segs : List Bytes) (N : ℕ) (l : DavLock Element)
      → IsLockTree s
      → IsLockTree t
      → Extends s t
      → All IsSegment segs
      → find_path t root_id segs ≡ some N
      → covering (changed t N (λ ls. ls ++ l ∷ [])) segs ≡ covering s segs ++ l ∷ []
  unfolding webdav_handler_rs.HashMap.contains_key
  covering-pushed s t segs N l w w' e segments at = elim (Option-cases (find_node s root_id)) [
    | inl absent ↦ absurd (ground (arith, w.formed.root))
    | inr (root, there) ↦
        let old : data_at s root_id ≡ some root.node_data = ground arith in
        let mid : data_at t root_id ≡ some root.node_data = e.data_old root_id root.node_data old in
        elim (Option-cases (data_at (changed t N (λ ls. ls ++ l ∷ [])) root_id)) [
          | inl lost ↦ absurd (ground (arith, data_at-update_node t N (λ ls. ls ++ l ∷ []) root_id))
          | inr (here', new) ↦
              covering-root (changed t N (λ ls. ls ++ l ∷ [])) segs here' new
              ∙ covering_from-pushed t N l w' root_id segs root.node_data here' segments at mid new
              ∙ ap (λ x. (counted segs root.node_data ++ x) ++ l ∷ [])
                  (covering_from-Extends s t w w' e root_id segs segments)
              ∙ ap (λ x. x ++ l ∷ []) (sym (covering-root s segs root.node_data old))
        ]
  ]
