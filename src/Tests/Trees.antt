-- ===== src/Tests/Trees.antt =====
-- A tree with one child, `7`, at the root.
use webdav_handler_rs.Prelude.{ℕ, ◌+◌, ◌<◌, ◌≡◌, ◌≢◌, true, false, some, arith, nat_eq}
use webdav_handler_rs.HashMap
use webdav_handler_rs.Tree.{
  Tree, Node, find_node, root_id, u64_mod, new, new_node, modify_node, add_child, move_node,
}
use webdav_handler_rs.Tree.Invariant.{IsWellFormed}
use webdav_handler_rs.Tree.Preserved.{new-IsWellFormed, add_child-IsWellFormed}
use webdav_handler_rs.Tree.Moves.{move_node-IsWellFormed}

abbrev bare : Tree ℕ ℕ
bare = new 0

abbrev grown : Tree ℕ ℕ
grown = (add_child root_id 7 0 false bare).1

room : Tree.node_id bare + 1 < u64_mod
unfolding new new_node
room = omega arith

grown-IsWellFormed : IsWellFormed grown
grown-IsWellFormed = add_child-IsWellFormed (new-IsWellFormed 0) root_id 7 0 false room

no_entry : (pn : Node ℕ ℕ) → find_node grown root_id ≡ some pn → HashMap.get 8 pn.children ≢ some 2
unfolding new new_node modify_node add_child HashMap.get HashMap.insert HashMap.contains_key
no_entry pn h = λ q. ground arith

-- The child under another name.
move_node-IsWellFormed_example : IsWellFormed (move_node 2 root_id 8 true grown).1
move_node-IsWellFormed_example = move_node-IsWellFormed grown-IsWellFormed 2 root_id 8 true no_entry
