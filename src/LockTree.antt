-- ===== src/LockTree.antt =====
-- The walks of src/memls.rs over its tree of locks. The functions that return `Err` of a lock take
-- the error type as a parameter where they only can panic.
pub mod View
pub mod Create
pub mod Kept
use webdav_handler_rs.Prelude.{
  ℕ, zero, suc, ◌+◌, ◌-◌, Bool, true, false, not, ◌&&◌, ◌||◌, Option, none, some, List, [], ◌∷◌,
  ◌++◌, Bytes, Eq, ◌==◌, nat_eq, list_eq, option_eq, ltb, length, any, if◌then◌else◌, Outcome, ok,
  err, panic, out_of_fuel, and_then, Run, pure, reads, continue, ◌>>=◌,
}
use webdav_handler_rs.Errors.{FsError}
use webdav_handler_rs.Tree
use webdav_handler_rs.Tree.{Tree, root_id, get_node, get_children, add_child}
use webdav_handler_rs.DavPath.{DavPath, as_bytes}
use webdav_handler_rs.DavPath.Segments.{segments}
use webdav_handler_rs.Ls.{DavLock}

abbrev pub LockTree : Type 0 → Type 0
LockTree Element = Tree Bytes (List (DavLock Element))

unfoldable pub path_to_segs {κ} : {E : Type κ} → DavPath → Bool → Outcome E (List Bytes)
path_to_segs path include_root =
    and_then (as_bytes path)
      λ bytes. let segs = segments bytes in ok (if include_root then [] ∷ segs else segs)

module _ {Element : Type 0} where
  -- The empty segment stays at the node.
  unfoldable pub get_child : LockTree Element → ℕ → Bytes → Outcome FsError ℕ
  get_child tree node_id seg =
      if length seg == 0 then ok node_id else Tree.get_child tree node_id seg

  unfoldable pub find_path : LockTree Element → ℕ → List Bytes → Option ℕ
  find_path tree node_id [] = some node_id
  find_path tree node_id (seg ∷ rest) = elim (Tree.get_child tree node_id seg) [
    | ok n ↦ find_path tree n rest
    | _ ↦ none
  ]

  unfoldable pub lookup_node {κ} : {E : Type κ} → LockTree Element → DavPath → Outcome E (Option ℕ)
  unfolding path_to_segs find_path
  lookup_node tree path =
      and_then (path_to_segs path false) λ segs. ok (find_path tree root_id segs)

  unfoldable pub has_token : Bytes → List (DavLock Element) → Bool
  has_token token = any λ n. n.token == token

  unfoldable pub lookup_lock_from {κ} :
      {E : Type κ} → LockTree Element → ℕ → List Bytes → Bytes → Outcome E (Option ℕ)
  lookup_lock_from tree node_id [] token = ok none
  lookup_lock_from tree node_id (seg ∷ rest) token = elim (get_child tree node_id seg) [
    | ok n ↦ elim (get_node tree n) [
      | ok node ↦
          let later = lookup_lock_from tree n rest token in
          if has_token token node then ok (some n) else later
      | _ ↦ panic
    ]
    | _ ↦ ok none
  ]

  -- The first node on the path that holds a lock with the token.
  unfoldable pub lookup_lock {κ} :
      {E : Type κ} → LockTree Element → DavPath → Bytes → Outcome E (Option ℕ)
  lookup_lock tree path token =
      and_then (path_to_segs path true) λ segs. lookup_lock_from tree root_id segs token

  abbrev pub locks_of : LockTree Element → ℕ → List (DavLock Element)
  locks_of tree node_id = elim (get_node tree node_id) [ ok node ↦ node | _ ↦ [] ]

  unfoldable pub list_locks_from : LockTree Element → ℕ → List Bytes → List (DavLock Element)
  list_locks_from tree node_id [] = []
  list_locks_from tree node_id (seg ∷ rest) = elim (Tree.get_child tree node_id seg) [
    | ok n ↦ locks_of tree n ++ list_locks_from tree n rest
    | _ ↦ []
  ]

  -- All the locks on the way to the path, from the root on.
  unfoldable pub list_locks {κ} :
      {E : Type κ} → LockTree Element → DavPath → Outcome E (List (DavLock Element))
  list_locks tree path =
      and_then (path_to_segs path false)
        λ segs. ok (locks_of tree root_id ++ list_locks_from tree root_id segs)

  -- The child, or a new one without locks. `add_child(...).unwrap()` cannot return an error.
  unfoldable pub get_or_add_child :
      LockTree Element → ℕ → Bytes → Outcome FsError ℕ × LockTree Element
  get_or_add_child tree node_id seg = elim (Tree.get_child tree node_id seg) [
    | ok n ↦ (ok n, tree)
    | _ ↦ add_child node_id seg [] false tree
  ]

  unfoldable pub create_path {κ} : {E : Type κ} → ℕ → List Bytes → Run (LockTree Element) E ℕ
  create_path node_id [] tree = (ok node_id, tree)
  create_path node_id (seg ∷ rest) tree =
      let (found, tree') = get_or_add_child tree node_id seg in
      elim found [
        | ok n ↦ create_path n rest tree'
        | err x ↦ (panic, tree')
        | panic ↦ (panic, tree')
        | out_of_fuel ↦ (out_of_fuel, tree')
      ]

  -- `get_or_create_path_node`: the id of the node, whose locks the caller changes.
  unfoldable pub get_or_create_path_node {κ} : {E : Type κ} → DavPath → Run (LockTree Element) E ℕ
  get_or_create_path_node path = do
    segs ← reads (λ _. path_to_segs path false)
    create_path root_id segs
