-- ===== src/MemFs/Props.antt =====
-- `patch_props` and `get_prop` of src/memfs.rs.
use webdav_handler_rs.Prelude.{
  ℕ, ◌≡◌, refl, ◌∙◌, Bool, true, false, none, some, List, [], ◌∷◌, ◌++◌, Bytes, ◌==◌, nat_eq,
  list_eq, list_beq_iff, arith, if◌then◌else◌, Outcome, ok, err, panic, out_of_fuel, and_then,
  ok_or, inl, inr, Option-cases,
}
use webdav_handler_rs.Errors.{FsError}
use webdav_handler_rs.HashMap
use webdav_handler_rs.HashMap.{get, get-insert, get-remove}
use webdav_handler_rs.Tree.{find_node, get_node, get_child, update_node, root_id}
use webdav_handler_rs.DavPath.{DavPath, as_bytes}
use webdav_handler_rs.DavPath.Segments.{segments}
use webdav_handler_rs.MemFs.Nodes.{
  DavProp, MemFsNode, is_dir, get_node_props, set_node_props, propkey,
}
use webdav_handler_rs.MemFs.Lookup.{FsTree, lookup_from, lookup_segs, lookup}
use webdav_handler_rs.MemFs.{patch_prop, patch_all, patch_props, get_prop}

-- A change of one node that leaves its kind alone leaves every lookup alone.
module _ (t : FsTree) (id : ℕ) (f : MemFsNode → MemFsNode) where
  abbrev changed : FsTree
  changed = (update_node id f t).1

  get_node-update_node :
      (i : ℕ)
      → get_node changed i ≡ and_then (get_node t i) (λ node. ok (if id == i then f node else node))
  unfolding update_node get_node
  get_node-update_node i = elim (Option-cases (find_node t id)) [
    | inl absent ↦ ground arith
    | inr (n, found) ↦
        ground (arith, get-insert id i (record n { node_data = f n.node_data }) t.nodes)
  ]

  get_child-update_node : (i : ℕ) (k : Bytes) → get_child changed i k ≡ get_child t i k
  unfolding update_node get_child
  get_child-update_node i k = elim (Option-cases (find_node t id)) [
    | inl absent ↦ ground arith
    | inr (n, found) ↦
        ground (arith, get-insert id i (record n { node_data = f n.node_data }) t.nodes)
  ]

  module _ (kind : (node : MemFsNode) → is_dir (f node) ≡ is_dir node) where
    lookup_from-update_node :
        (i : ℕ) (isdir : Bool) (segs : List Bytes)
        → lookup_from changed i isdir segs ≡ lookup_from t i isdir segs
    unfolding lookup_from
    lookup_from-update_node i isdir [] = refl
    lookup_from-update_node i false (seg ∷ rest) = refl
    lookup_from-update_node i true (seg ∷ rest) =
        by_node (get_node t i) refl (λ c. lookup_from-update_node c true rest)
          (lookup_from-update_node i false rest)
      where
        by_child :
            (o : Outcome FsError ℕ)
            → ((c : ℕ) → lookup_from changed c true rest ≡ lookup_from t c true rest)
            → and_then o (λ n. lookup_from changed n true rest)
              ≡ and_then o (λ n. lookup_from t n true rest)
        by_child (ok c) later = later c
        by_child (err x) later = refl
        by_child panic later = refl
        by_child out_of_fuel later = refl

        same_kind : (node : MemFsNode) → is_dir (if id == i then f node else node) ≡ is_dir node
        same_kind node = ground (arith, kind node)

        by_node :
            (o : Outcome FsError MemFsNode)
            → get_node t i ≡ o
            → ((c : ℕ) → lookup_from changed c true rest ≡ lookup_from t c true rest)
            → lookup_from changed i false rest ≡ lookup_from t i false rest
            → lookup_from changed i true (seg ∷ rest) ≡ lookup_from t i true (seg ∷ rest)
        by_node (ok node) e later flat =
            rw (lookup_from, get_node-update_node i, e, same_kind node, get_child-update_node i seg)
              (choose (is_dir node) (by_child (get_child t i seg) later) flat)
          where
            choose :
                (b : Bool) {x y u v : Outcome FsError ℕ}
                → x ≡ y
                → u ≡ v
                → (if b then x else u) ≡ (if b then y else v)
            choose true p q = p
            choose false p q = q
        by_node (err x) e later flat = rw (lookup_from, get_node-update_node i, e) refl
        by_node panic e later flat = rw (lookup_from, get_node-update_node i, e) refl
        by_node out_of_fuel e later flat = rw (lookup_from, get_node-update_node i, e) refl

patch_all-snoc :
    (before : List (Bool × DavProp)) (x : Bool × DavProp) (props : HashMap.HashMap Bytes DavProp)
    → patch_all (before ++ x ∷ []) props ≡ patch_prop x (patch_all before props)
unfolding patch_all
patch_all-snoc [] x props = refl
patch_all-snoc (y ∷ before) x props = patch_all-snoc before x (patch_prop y props)

get-patch_prop :
    (set : Bool) (p : DavProp) (props : HashMap.HashMap Bytes DavProp)
    → get (propkey p.namespace p.name) (patch_prop (set, p) props) ≡ (if set then some p else none)
unfolding patch_prop
get-patch_prop set p props = ground (
  arith,
  get-insert (propkey p.namespace p.name) (propkey p.namespace p.name) p props,
  get-remove (propkey p.namespace p.name) (propkey p.namespace p.name) props,
  list_beq_iff (propkey p.namespace p.name) (propkey p.namespace p.name),
)

set_node_props-is_dir :
    (props : HashMap.HashMap Bytes DavProp) (node : MemFsNode)
    → is_dir (set_node_props props node) ≡ is_dir node
unfolding is_dir set_node_props
set_node_props-is_dir props (MemFsNode.dir d) = refl
set_node_props-is_dir props (MemFsNode.file f) = refl

get_node_props-set_node_props :
    (props : HashMap.HashMap Bytes DavProp) (node : MemFsNode)
    → get_node_props (set_node_props props node) ≡ props
unfolding get_node_props set_node_props
get_node_props-set_node_props props (MemFsNode.dir d) = refl
get_node_props-set_node_props props (MemFsNode.file f) = refl

module _ (t : FsTree) (path : DavPath) (bytes : Bytes) (id : ℕ) (node : MemFsNode)
    (read : as_bytes {E = FsError} path ≡ ok bytes) (found : lookup t bytes ≡ ok id)
    (there : get_node t id ≡ ok node) (patch : List (Bool × DavProp)) where
  abbrev patched_props : HashMap.HashMap Bytes DavProp
  patched_props = patch_all patch (get_node_props node)

  abbrev apply_patch : MemFsNode → MemFsNode
  apply_patch n = set_node_props (patch_all patch (get_node_props n)) n

  abbrev patched : FsTree
  patched = changed t id apply_patch

  update_node-ok : (update_node id apply_patch t).0 ≡ ok tt
  unfolding update_node get_node
  update_node-ok = elim (Option-cases (find_node t id)) [
    | inl absent ↦ absurd (ground arith)
    | inr (n, f) ↦ rw (update_node, f) refl
  ]

  patch_props-ok : (patch_props path patch t).1 ≡ patched
  unfolding patch_props
  patch_props-ok = rw (read, found, update_node-ok) refl

  lookup-patched : lookup patched bytes ≡ ok id
  unfolding lookup lookup_segs
  lookup-patched =
      lookup_from-update_node t id apply_patch
        (λ n. set_node_props-is_dir (patch_all patch (get_node_props n)) n) root_id true
        (segments bytes)
      ∙ found

  get_node-patched : get_node patched id ≡ ok (apply_patch node)
  get_node-patched = get_node-update_node t id apply_patch id ∙ rw there (ground arith)

  get_prop-patched :
      (q : DavProp)
      → get_prop (patch_props path patch t).1 path q
        ≡ and_then
            (ok_or (get (propkey q.namespace q.name) patched_props) FsError.not_found)
            (λ p. ok_or p.xml FsError.not_found)
  unfolding get_prop
  get_prop-patched q =
      rw
        (
          patch_props-ok,
          read,
          lookup-patched,
          get_node-patched,
          get_node_props-set_node_props patched_props node,
        )
        refl

-- After `patch_props` on a resource that exists, `get_prop` of the property that the last
-- instruction of the patch names by its namespace and name returns the value that the instruction
-- sets, and `not_found` if it sets none or removes the property, whatever the instructions before
-- it were.
pub patch_props-get_prop :
    (t : FsTree) (path : DavPath) (bytes : Bytes) (id : ℕ) (node : MemFsNode)
    (before : List (Bool × DavProp)) (set : Bool) (p q : DavProp)
    → as_bytes {E = FsError} path ≡ ok bytes
    → lookup t bytes ≡ ok id
    → get_node t id ≡ ok node
    → propkey q.namespace q.name ≡ propkey p.namespace p.name
    → get_prop (patch_props path (before ++ (set, p) ∷ []) t).1 path q
      ≡ (if set then ok_or p.xml FsError.not_found else err FsError.not_found)
patch_props-get_prop t path bytes id node before set p q read found there same =
    get_prop-patched t path bytes id node read found there (before ++ (set, p) ∷ []) q
    ∙ rw
        (
          same,
          patch_all-snoc before (set, p) (get_node_props node),
          get-patch_prop set p (patch_all before (get_node_props node)),
        )
        (by_set set)
  where
    by_set :
        (b : Bool)
        → and_then
            (ok_or (if b then some p else none) FsError.not_found)
            (λ r. ok_or r.xml FsError.not_found)
          ≡ (if b then ok_or p.xml FsError.not_found else err FsError.not_found)
    by_set true = refl
    by_set false = refl
