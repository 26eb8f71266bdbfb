-- ===== src/Tree/Invariant.antt =====
-- The invariant of src/tree.rs: each child entry leads to a node that names its parent, and no node
-- has two entries. A node need not have an entry.
use webdav_handler_rs.Prelude.{
  ℕ, ◌<◌, ◌≡◌, ◌≢◌, refl, true, Option, none, some, arith, Eq, nat_eq, Option-cases, inl, inr,
}
use webdav_handler_rs.HashMap
use webdav_handler_rs.HashMap.{get, is_distinct, get-insert, get-remove}
use webdav_handler_rs.Tree.{Tree, Node, find_node, root_id, update_node, put_child, drop_child}

-- The `parent_id` of the node with the id.
abbrev pub parent_of {ℓ} : {K D : Type ℓ} → Tree K D → ℕ → Option ℕ
parent_of t c = elim (find_node t c) [ none ↦ none | some m ↦ some m.parent_id ]

module _ {ℓ} {K D : Type ℓ} ⦃e : Eq K⦄ where
  pub record IsWellFormed (t : Tree K D) : Type ℓ where
    pub root : HashMap.contains_key root_id t.nodes ≡ true
    pub fresh : (i : ℕ) (n : Node K D) → find_node t i ≡ some n → i < t.node_id
    pub ids : (i : ℕ) (n : Node K D) → find_node t i ≡ some n → n.id ≡ i
    pub distinct : (i : ℕ) (n : Node K D) → find_node t i ≡ some n → is_distinct n.children ≡ true
    pub linked :
        (i : ℕ) (n : Node K D) (k : K) (c : ℕ)
        → find_node t i ≡ some n
        → get k n.children ≡ some c
        → parent_of t c ≡ some i
    pub unique :
        (i : ℕ) (n : Node K D) (j k : K) (c : ℕ)
        → find_node t i ≡ some n
        → get j n.children ≡ some c
        → get k n.children ≡ some c
        → j ≡ k
    pub not_root :
        (i : ℕ) (n : Node K D) (k : K) → find_node t i ≡ some n → get k n.children ≢ some root_id

  -- No child entry leads to the node.
  abbrev pub IsUnlinked : Tree K D → ℕ → Type ℓ
  IsUnlinked s c =
      (i : ℕ) (n : Node K D) (k : K) → find_node s i ≡ some n → get k n.children ≢ some c

  abbrev pub with_node : ℕ → Node K D → Tree K D → Tree K D
  with_node i n s = record s { nodes = HashMap.insert i n s.nodes }

  module _ {t : Tree K D} (w : IsWellFormed t) where
    -- Another node in the place of `n` with the same links.
    pub replace-IsWellFormed :
        (i : ℕ) (n n' : Node K D)
        → find_node t i ≡ some n
        → n'.id ≡ n.id
        → n'.parent_id ≡ n.parent_id
        → n'.children ≡ n.children
        → IsWellFormed (record t { nodes = HashMap.insert i n' t.nodes })
    unfolding HashMap.contains_key
    replace-IsWellFormed i n n' found same_id same_parent same_children = record {
      root = ground (arith, get-insert i root_id n' t.nodes, w.root);
      fresh = λ j m h. ground (arith, get-insert i j n' t.nodes, w.fresh j m, w.fresh i n);
      ids = λ j m h. ground (arith, get-insert i j n' t.nodes, w.ids j m, w.ids i n);
      distinct = λ j m h. ground (arith, get-insert i j n' t.nodes, w.distinct j m, w.distinct i n);
      linked = λ j m k c h q. ground (
        arith,
        get-insert i j n' t.nodes,
        get-insert i c n' t.nodes,
        w.linked j m k c,
        w.linked i n k c,
      );
      unique = λ j m a b c h q r.
          ground (arith, get-insert i j n' t.nodes, w.unique j m a b c, w.unique i n a b c);
      not_root = λ j m k h q.
          ground (arith, get-insert i j n' t.nodes, w.not_root j m k, w.not_root i n k);
    }

    pub update_node-IsWellFormed : (i : ℕ) (f : D → D) → IsWellFormed (update_node i f t).1
    unfolding update_node
    update_node-IsWellFormed i f = elim (Option-cases (find_node t i)) [
      | inl absent ↦ rw (absent, update_node) w
      | inr (n, found) ↦
          rw (found, update_node)
            (replace-IsWellFormed i n (record n { node_data = f n.node_data }) found refl refl refl)
    ]

    pub absent-IsUnlinked : (c : ℕ) → find_node t c ≡ none → IsUnlinked t c
    absent-IsUnlinked c absent = λ i n k h q. ground (arith, w.linked i n k c)

    -- A node that no entry leads to may get another parent.
    pub reparent-IsWellFormed :
        (c p : ℕ) (n : Node K D)
        → find_node t c ≡ some n
        → IsUnlinked t c
        → IsWellFormed (with_node c (record n { parent_id = p }) t)
    unfolding HashMap.contains_key
    reparent-IsWellFormed c p n found free =
        let n' : Node K D = record n { parent_id = p } in
        record {
          root = ground (arith, get-insert c root_id n' t.nodes, w.root);
          fresh = λ j m h. ground (arith, get-insert c j n' t.nodes, w.fresh j m, w.fresh c n);
          ids = λ j m h. ground (arith, get-insert c j n' t.nodes, w.ids j m, w.ids c n);
          distinct =
              λ j m h. ground (arith, get-insert c j n' t.nodes, w.distinct j m, w.distinct c n);
          linked = λ j m k d h q. ground (
            arith,
            get-insert c j n' t.nodes,
            get-insert c d n' t.nodes,
            w.linked j m k d,
            w.linked c n k d,
            free j m k,
            free c n k,
          );
          unique = λ j m a b d h q r.
              ground (arith, get-insert c j n' t.nodes, w.unique j m a b d, w.unique c n a b d);
          not_root = λ j m k h q.
              ground (arith, get-insert c j n' t.nodes, w.not_root j m k, w.not_root c n k);
        }

    -- An entry for a node that names its parent and has no entry yet.
    pub link-IsWellFormed :
        (p c : ℕ) (k : K) (n : Node K D)
        → find_node t p ≡ some n
        → parent_of t c ≡ some p
        → IsUnlinked t c
        → c ≢ root_id
        → IsWellFormed (with_node p (put_child k c n) t)
    unfolding HashMap.contains_key
    link-IsWellFormed p c k n found child free below =
        let n' : Node K D = put_child k c n in
        record {
          root = ground (arith, get-insert p root_id n' t.nodes, w.root);
          fresh = λ j m h. ground (arith, get-insert p j n' t.nodes, w.fresh j m, w.fresh p n);
          ids = λ j m h. ground (arith, get-insert p j n' t.nodes, w.ids j m, w.ids p n);
          distinct = λ j m h. ground (
            arith,
            get-insert p j n' t.nodes,
            w.distinct j m,
            w.distinct p n,
            HashMap.insert-is_distinct k c n.children,
          );
          linked = λ j m i d h q. ground (
            arith,
            get-insert p j n' t.nodes,
            get-insert p d n' t.nodes,
            get-insert k i c n.children,
            w.linked j m i d,
            w.linked p n i d,
          );
          unique = λ j m a b d h q r. ground (
            arith,
            get-insert p j n' t.nodes,
            get-insert k a c n.children,
            get-insert k b c n.children,
            e.beq_iff k a,
            e.beq_iff k b,
            w.unique j m a b d,
            w.unique p n a b d,
            free p n a,
            free p n b,
          );
          not_root = λ j m i h q. ground (
            arith,
            get-insert p j n' t.nodes,
            get-insert k i c n.children,
            w.not_root j m i,
            w.not_root p n i,
          );
        }

    pub unlink-IsWellFormed :
        (p : ℕ) (k : K) (n : Node K D)
        → find_node t p ≡ some n
        → IsWellFormed (with_node p (drop_child k n) t)
    unfolding HashMap.contains_key
    unlink-IsWellFormed p k n found =
        let n' : Node K D = drop_child k n in
        record {
          root = ground (arith, get-insert p root_id n' t.nodes, w.root);
          fresh = λ j m h. ground (arith, get-insert p j n' t.nodes, w.fresh j m, w.fresh p n);
          ids = λ j m h. ground (arith, get-insert p j n' t.nodes, w.ids j m, w.ids p n);
          distinct = λ j m h. ground (
            arith,
            get-insert p j n' t.nodes,
            w.distinct j m,
            w.distinct p n,
            HashMap.remove-is_distinct k n.children,
          );
          linked = λ j m i d h q. ground (
            arith,
            get-insert p j n' t.nodes,
            get-insert p d n' t.nodes,
            get-remove k i n.children,
            w.linked j m i d,
            w.linked p n i d,
          );
          unique = λ j m a b d h q r. ground (
            arith,
            get-insert p j n' t.nodes,
            get-remove k a n.children,
            get-remove k b n.children,
            w.unique j m a b d,
            w.unique p n a b d,
          );
          not_root = λ j m i h q. ground (
            arith,
            get-insert p j n' t.nodes,
            get-remove k i n.children,
            w.not_root j m i,
            w.not_root p n i,
          );
        }

    -- A node that no entry leads to may go.
    pub remove-IsWellFormed :
        (c : ℕ)
        → IsUnlinked t c
        → c ≢ root_id
        → IsWellFormed (record t { nodes = HashMap.remove c t.nodes })
    unfolding HashMap.contains_key
    remove-IsWellFormed c free below = record {
      root = ground (arith, get-remove c root_id t.nodes, w.root);
      fresh = λ j m h. ground (arith, get-remove c j t.nodes, w.fresh j m);
      ids = λ j m h. ground (arith, get-remove c j t.nodes, w.ids j m);
      distinct = λ j m h. ground (arith, get-remove c j t.nodes, w.distinct j m);
      linked = λ j m i d h q.
          ground
            (arith, get-remove c j t.nodes, get-remove c d t.nodes, w.linked j m i d, free j m i);
      unique = λ j m a b d h q r. ground (arith, get-remove c j t.nodes, w.unique j m a b d);
      not_root = λ j m i h q. ground (arith, get-remove c j t.nodes, w.not_root j m i);
    }
