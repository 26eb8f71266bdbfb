-- ===== src/MemLs.antt =====
-- src/memls.rs: the in-memory lock system. Each handler is a call on the state behind the mutex.
-- The time `now` and the fresh token (a random UUID) are arguments of the calls that make them.
pub mod Locking
pub mod Preserved
pub mod Exclusion
pub mod Returns
pub mod Discovery
pub mod Holding
pub mod Root
use webdav_handler_rs.Prelude.{
  ℕ, zero, suc, ◌+◌, ◌*◌, ◌^◌, ltb, Bool, true, false, Option, none, some, List, [], ◌∷◌, ◌++◌,
  Bytes, ◌==◌, nat_eq, list_eq, length, if◌then◌else◌, Outcome, ok, err, panic, out_of_fuel,
  and_then, Run, pure, fail, reads, continue, unwrap, ◌>>=◌, ◌>>◌,
}
use webdav_handler_rs.HashMap.{HashMap}
use webdav_handler_rs.Errors.{FsError}
use webdav_handler_rs.Tree
use webdav_handler_rs.Tree.{Tree, get_node, update_node, delete_node, delete_subtree}
use webdav_handler_rs.DavPath.{DavPath}
use webdav_handler_rs.Ls.{DavLock}
use webdav_handler_rs.LockTree.{
  LockTree, get_or_create_path_node, lookup_lock, lookup_node, list_locks,
}
use webdav_handler_rs.LockCheck.{Claim, check_locks_to_path, check_locks_from_path}

-- `MemLsInner`. Nothing reads or writes `locks`.
pub record MemLs (Element : Type 0) : Type 0 where
  pub tree : LockTree Element
  pub locks : HashMap Bytes ℕ

-- What `lock` is asked for.
pub record LockRequest (Element : Type 0) : Type 0 where
  pub path : DavPath
  pub principal : Option Bytes
  pub owner : Option Element
  pub timeout : Option ℕ
  pub shared : Bool
  pub deep : Bool

-- The first time that a `SystemTime` cannot hold, in nanoseconds: its seconds are an i64 (on Unix).
abbrev pub time_end : ℕ
time_end = 2 ^ 63 * 1000000000

-- `SystemTime::now() + d`, which panics if the sum cannot be held.
unfoldable pub expiry {κ} : {E : Type κ} → ℕ → Option ℕ → Outcome E (Option ℕ)
expiry now none = ok none
expiry now (some d) = if ltb (now + d) time_end then ok (some (now + d)) else panic

-- `check_locks_*` of `lock`: no principal, no tokens.
abbrev pub no_claim : Claim
no_claim = record { principal = none; ignore_principal = true; submitted_tokens = [] }

abbrev pub forget_error {ℓ κ} : {A : Type ℓ} {E : Type κ} → Outcome FsError A → Outcome E (Unit {0})
forget_error (ok a) = ok tt
forget_error (err e) = ok tt
forget_error panic = panic
forget_error out_of_fuel = out_of_fuel

module _ {Element : Type 0} where
  unfoldable pub new : MemLs Element
  unfolding Tree.new
  new = record { tree = Tree.new []; locks = [] }

  -- A call on the tree inside, with the error dropped (`.ok()`) or impossible (`.unwrap()`).
  unfoldable pub on_tree {ℓ κ} :
      {A : Type ℓ} {E : Type κ} → Run (LockTree Element) E A → Run (MemLs Element) E A
  on_tree m s = ((m s.tree).0, record s { tree = (m s.tree).1 })

  unfoldable pub tree_ok {ℓ κ} :
      {A : Type ℓ} {E : Type κ}
      → Run (LockTree Element) FsError A
      → Run (MemLs Element) E (Unit {0})
  tree_ok m s = (forget_error (m s.tree).0, record s { tree = (m s.tree).1 })

  -- `get_node_mut(id).unwrap()` and a change of the locks there.
  unfoldable pub change_locks {κ} :
      {E : Type κ}
      → ℕ
      → (List (DavLock Element) → List (DavLock Element))
      → Run (MemLs Element) E (Unit {0})
  change_locks id f s = elim (update_node id f s.tree).0 [
    | ok _ ↦ (ok tt, record s { tree = (update_node id f s.tree).1 })
    | _ ↦ (panic, s)
  ]

  unfoldable pub locks_at {κ} :
      {E : Type κ} → ℕ → MemLs Element → Outcome E (List (DavLock Element))
  locks_at id s = elim (get_node s.tree id) [ ok node ↦ ok node | _ ↦ panic ]

  abbrev pub new_lock : LockRequest Element → Bytes → Option ℕ → DavLock Element
  new_lock r token timeout_at = record {
    token = token;
    path = r.path;
    principal = r.principal;
    owner = r.owner;
    timeout_at = timeout_at;
    timeout = r.timeout;
    shared = r.shared;
    deep = r.deep;
  }

  unfoldable pub lock :
      LockRequest Element → Bytes → ℕ → Run (MemLs Element) (DavLock Element) (DavLock Element)
  unfolding expiry
  lock r token now = do
    reads (λ s. check_locks_to_path no_claim r.shared s.tree r.path)
    reads (λ s. if r.deep then check_locks_from_path no_claim r.shared s.tree r.path else ok tt)
    node ← on_tree (get_or_create_path_node r.path)
    timeout_at ← reads (λ _. expiry now r.timeout)
    change_locks node (λ node_locks. node_locks ++ new_lock r token timeout_at ∷ [])
    pure (new_lock r token timeout_at)

  -- `position` and `remove`: the first lock with the token goes.
  unfoldable pub remove_token :
      Bytes → List (DavLock Element) → Outcome (Unit {0}) (List (DavLock Element))
  remove_token token [] = panic
  remove_token token (n ∷ rest) =
      if n.token == token
      then ok rest
      else and_then (remove_token token rest) λ rest'. ok (n ∷ rest')

  -- `unlock` once the node is found.
  unfoldable pub unlock_at : Bytes → ℕ → Run (MemLs Element) (Unit {0}) (Unit {0})
  unlock_at token node_id = do
    node ← reads (locks_at node_id)
    node' ← reads (λ _. remove_token token node)
    change_locks node_id (λ _. node')
    if length node' == 0 then tree_ok (delete_node node_id) else pure tt

  unfoldable pub unlock : DavPath → Bytes → Run (MemLs Element) (Unit {0}) (Unit {0})
  unfolding unlock_at
  unlock path token = do
    found ← reads (λ s. lookup_lock s.tree path token)
    elim found [ none ↦ fail tt | some node_id ↦ unlock_at token node_id ]

  -- The first lock with the token gets the new timeout.
  unfoldable pub refresh_token :
      Bytes
      → Option ℕ
      → ℕ
      → List (DavLock Element)
      → Outcome (Unit {0}) (DavLock Element × List (DavLock Element))
  unfolding expiry
  refresh_token token timeout now [] = panic
  refresh_token token timeout now (n ∷ rest) =
      if n.token == token
      then (and_then (expiry now timeout) λ timeout_at. ok (
        record n { timeout = timeout; timeout_at = timeout_at },
        record n { timeout = timeout; timeout_at = timeout_at } ∷ rest,
      ))
      else and_then (refresh_token token timeout now rest) λ r. ok (r.0, n ∷ r.1)

  -- `refresh` once the node is found.
  unfoldable pub refresh_at :
      Bytes → Option ℕ → ℕ → ℕ → Run (MemLs Element) (Unit {0}) (DavLock Element)
  refresh_at token timeout now node_id = do
    node ← reads (locks_at node_id)
    r ← reads (λ _. refresh_token token timeout now node)
    change_locks node_id (λ _. r.1)
    pure r.0

  unfoldable pub refresh :
      DavPath → Bytes → Option ℕ → ℕ → Run (MemLs Element) (Unit {0}) (DavLock Element)
  unfolding refresh_at
  refresh path token timeout now = do
    found ← reads (λ s. lookup_lock s.tree path token)
    elim found [ none ↦ fail tt | some node_id ↦ refresh_at token timeout now node_id ]

  unfoldable pub check :
      DavPath → Claim → Bool → MemLs Element → Outcome (DavLock Element) (Unit {0})
  check path c deep s =
      and_then (check_locks_to_path c false s.tree path)
        λ _. if deep then check_locks_from_path c false s.tree path else ok tt

  unfoldable pub discover {κ} :
      {E : Type κ} → DavPath → MemLs Element → Outcome E (List (DavLock Element))
  discover path s = list_locks s.tree path

  -- The next free id bounds the depth of the tree.
  unfoldable pub delete_at : ℕ → Run (MemLs Element) (Unit {0}) (Unit {0})
  delete_at node_id s = tree_ok (delete_subtree s.tree.node_id node_id) s

  unfoldable pub delete : DavPath → Run (MemLs Element) (Unit {0}) (Unit {0})
  unfolding delete_at
  delete path = do
    found ← reads (λ s. lookup_node s.tree path)
    elim found [ none ↦ pure tt | some node_id ↦ delete_at node_id ]
