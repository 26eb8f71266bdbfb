-- ===== src/Tree.antt =====
-- src/tree.rs: a tree of nodes, stored in a map from node ids to nodes. Each method is a call on
-- the tree that returns the tree after it, also when it fails or panics. Ids are u64: the counter
-- wraps round.
pub mod Invariant
pub mod Preserved
pub mod Removal
pub mod Moves
use webdav_handler_rs.Prelude.{
  ℕ, zero, suc, ◌+◌, ◌%◌, ◌^◌, Bool, not, ◌&&◌, ◌||◌, Option, none, some, List, [], ◌∷◌, map, Eq,
  ◌==◌, nat_eq, ltb, if◌then◌else◌, length, Outcome, ok, err, panic, ok_or, unwrap, and_then, Run,
  pure, fail, reads, out_of_fuel_run, for_each, ◌>>=◌, ◌>>◌,
}
use webdav_handler_rs.HashMap
use webdav_handler_rs.HashMap.{HashMap}
use webdav_handler_rs.Errors.{FsError}

-- The id of the root node.
abbrev pub root_id : ℕ
root_id = 1

-- The `parent_id` of the root.
abbrev pub no_parent : ℕ
no_parent = 99999999

abbrev pub u64_mod : ℕ
u64_mod = 2 ^ 64

pub record Node {ℓ} (K D : Type ℓ) : Type ℓ where
  pub node_data : D
  pub id : ℕ
  pub parent_id : ℕ
  pub children : HashMap K ℕ

pub record Tree {ℓ} (K D : Type ℓ) : Type ℓ where
  pub nodes : HashMap ℕ (Node K D)
  pub node_id : ℕ

-- The key of the first child with the id, in the order of iteration.
unfoldable pub key_of {ℓ} : {K : Type ℓ} → ℕ → HashMap K ℕ → Option K
key_of i [] = none
key_of i ((k, c) ∷ m) = if c == i then some k else key_of i m

module _ {ℓ} {K D : Type ℓ} where
  abbrev pub find_node : Tree K D → ℕ → Option (Node K D)
  find_node t i = HashMap.get i t.nodes

  -- A write through `get_mut(&i).unwrap()`.
  unfoldable pub modify_node : ℕ → (Node K D → Node K D) → Run (Tree K D) FsError (Unit {0})
  modify_node i f t = elim (HashMap.get i t.nodes) [
    | none ↦ (panic, t)
    | some n ↦ (ok tt, record t { nodes = HashMap.insert i (f n) t.nodes })
  ]

  unfoldable pub new_node : ℕ → D → Run (Tree K D) FsError ℕ
  new_node parent d t = (
    ok t.node_id,
    record {
      node_id = (t.node_id + 1) % u64_mod;
      nodes =
          HashMap.insert t.node_id
            (record { id = t.node_id; parent_id = parent; node_data = d; children = [] }) t.nodes;
    },
  )

  unfoldable pub new : D → Tree K D
  unfolding new_node
  new d = (new_node no_parent d (record { nodes = []; node_id = root_id })).1

  unfoldable pub get_node : Tree K D → ℕ → Outcome FsError D
  get_node t id = and_then (ok_or (find_node t id) FsError.not_found) λ n. ok n.node_data

  -- A write of the data through `get_node_mut(id)?`.
  unfoldable pub update_node : ℕ → (D → D) → Run (Tree K D) FsError (Unit {0})
  update_node id f t = elim (HashMap.get id t.nodes) [
    | none ↦ (err FsError.not_found, t)
    | some n ↦ (
      ok tt,
      record t { nodes = HashMap.insert id (record n { node_data = f n.node_data }) t.nodes },
    )
  ]

  -- The pairs in the order of iteration.
  unfoldable pub get_children : Tree K D → ℕ → Outcome FsError (List (K × ℕ))
  get_children t parent =
      and_then (ok_or (find_node t parent) FsError.not_found) λ pnode. ok pnode.children

module _ {ℓ} {K D : Type ℓ} ⦃e : Eq K⦄ where
  unfoldable pub get_child : Tree K D → ℕ → K → Outcome FsError ℕ
  get_child t parent key =
      and_then (ok_or (find_node t parent) FsError.not_found)
        λ pnode. ok_or (HashMap.get key pnode.children) FsError.not_found

  abbrev pub put_child : K → ℕ → Node K D → Node K D
  put_child key id n = record n { children = HashMap.insert key id n.children }

  abbrev pub drop_child : K → Node K D → Node K D
  drop_child key n = record n { children = HashMap.remove key n.children }

  unfoldable pub add_child : ℕ → K → D → Bool → Run (Tree K D) FsError ℕ
  unfolding new_node modify_node
  add_child parent key d overwrite = do
    pnode ← reads (λ t. ok_or (find_node t parent) FsError.not_found)
    if not overwrite && HashMap.contains_key key pnode.children
        then fail FsError.exists
        else do id ← new_node parent d; modify_node parent (put_child key id); pure id

  unfoldable pub delete_node_from_parent : ℕ → Run (Tree K D) FsError (Unit {0})
  unfolding modify_node
  delete_node_from_parent id = do
    n ← reads (λ t. ok_or (find_node t id) FsError.not_found)
    pnode ← reads (λ t. unwrap (find_node t n.parent_id))
    key ← reads (λ t. unwrap (key_of id pnode.children))
    modify_node n.parent_id (drop_child key)

  -- `self.nodes.remove(&id).unwrap()`
  unfoldable pub remove_node : ℕ → Run (Tree K D) FsError (Node K D)
  remove_node id t = elim (HashMap.get id t.nodes) [
    | none ↦ (panic, t)
    | some n ↦ (ok n, record t { nodes = HashMap.remove id t.nodes })
  ]

  unfoldable pub delete_node : ℕ → Run (Tree K D) FsError (Node K D)
  delete_node id = do
    n ← reads (λ t. ok_or (find_node t id) FsError.not_found)
    if ltb 0 (length n.children)
        then fail FsError.forbidden
        else do delete_node_from_parent id; remove_node id

  -- The recursion goes down one level at each step: the fuel is the height of the tree. The nodes
  -- lose their places in the tree; nothing takes them out of `nodes`.
  unfoldable pub delete_subtree : ℕ → ℕ → Run (Tree K D) FsError (Unit {0})
  delete_subtree zero id = out_of_fuel_run
  delete_subtree (suc fuel) id = do
    n ← reads (λ t. ok_or (find_node t id) FsError.not_found)
    for_each (map (λ c. c.1) n.children) (delete_subtree fuel)
    delete_node_from_parent id

  -- The node that a move replaces, if there is one.
  unfoldable pub move_dest : Tree K D → Node K D → K → Bool → Outcome FsError (Option ℕ)
  move_dest t pnode new_name overwrite = elim (HashMap.get new_name pnode.children) [
    | none ↦ ok none
    | some cid ↦ and_then (unwrap (find_node t cid)) λ cnode.
        if not overwrite || ltb 0 (length cnode.children) then err FsError.exists else ok (some cid)
  ]

  -- `self.nodes.remove(&dest)` of the replaced node.
  unfoldable pub remove_dest : Option ℕ → Run (Tree K D) FsError (Unit {0})
  remove_dest none t = (ok tt, t)
  remove_dest (some cid) t = (ok tt, record t { nodes = HashMap.remove cid t.nodes })

  -- The last steps of a move, after the node has lost its old entry.
  unfoldable pub move_finish : ℕ → ℕ → K → Option ℕ → Run (Tree K D) FsError (Unit {0})
  move_finish id new_parent new_name dest = do
    modify_node id (λ n. record n { parent_id = new_parent })
    remove_dest dest
    modify_node new_parent (put_child new_name id)

  unfoldable pub move_node : ℕ → ℕ → K → Bool → Run (Tree K D) FsError (Unit {0})
  move_node id new_parent new_name overwrite = do
    pnode ← reads (λ t. ok_or (find_node t new_parent) FsError.not_found)
    dest ← reads (λ t. move_dest t pnode new_name overwrite)
    delete_node_from_parent id
    move_finish id new_parent new_name dest
