-- ===== src/Tree/Tests.antt =====
-- Runs of the tree's statements on a small table, and its theorems at that table.
use metal_orm_cpp.Base.{
  ℕ, ◌≡◌, refl, inl, inr, true, Option, none, some, List, [], ◌∷◌, map, arith, ok, err,
}
use metal_orm_cpp.Base.Int.{pos, ◌+ℤ◌, ◌-ℤ◌, ◌<ℤ◌}
use metal_orm_cpp.Tree.{
  TreeRow, below_itself, is_descendant_of, shift_for_insert, delete_subtree, insert_as_child,
  move_subtree, remove_from_tree, move_to, swap_adjacent,
}
use metal_orm_cpp.Tree.Order.{Nested, IsTree}
use metal_orm_cpp.Tree.Shift.{
  raised, insert_as_child-IsTree, shift_for_insert-is_descendant_of, delete_subtree-IsTree,
}
use metal_orm_cpp.Tree.Move.{relocated, adopted, move_subtree_lem}
use metal_orm_cpp.Tree.Moved.{move_subtree-IsTree}
use metal_orm_cpp.Tree.Removal.{remove_from_tree-IsTree}
use metal_orm_cpp.Tree.Placing.{Outcome, move_to-IsTree}

abbrev node : ℕ → Option ℕ → ℕ → ℕ → ℕ → TreeRow
node pk parent lft rght depth = record {
  pk = pk;
  parent_id = parent;
  lft = pos lft;
  rght = pos rght;
  depth = pos depth;
}

-- The root 1 has the children 2 and 4, and 2 has the child 3.
abbrev root : TreeRow
root = node 1 none 1 8 0

abbrev branch : TreeRow
branch = node 2 (some 1) 2 5 1

abbrev twig : TreeRow
twig = node 3 (some 2) 3 4 2

abbrev leaf : TreeRow
leaf = node 4 (some 1) 6 7 1

abbrev table : List TreeRow
table = root ∷ branch ∷ twig ∷ leaf ∷ []

inside : (a b : TreeRow) → a.lft <ℤ b.lft → b.rght <ℤ a.rght → Nested a b
inside a b l r = inr (inr (inr (l, r)))

table-IsTree : IsTree table
table-IsTree = (
  omega arith,
  omega arith,
  (
    inside root branch (omega arith) (omega arith),
    (
      inside root twig (omega arith) (omega arith),
      (inside root leaf (omega arith) (omega arith), tt),
    ),
  ),
  (
    omega arith,
    omega arith,
    (inside branch twig (omega arith) (omega arith), (inl (omega arith), tt)),
    (omega arith, omega arith, (inl (omega arith), tt), (omega arith, omega arith, tt, tt)),
  ),
)

insert_as_child-IsTree_example : IsTree (insert_as_child 5 branch table)
insert_as_child-IsTree_example =
    insert_as_child-IsTree 5 branch (root ∷ []) (twig ∷ leaf ∷ []) table-IsTree

shift_for_insert-is_descendant_of_example :
    (shift_for_insert (pos 5) (pos 2) table ≡ map (raised (pos 5) (pos 2)) table)
    × (is_descendant_of (raised (pos 5) (pos 2) twig) (raised (pos 5) (pos 2) branch) ≡ true)
shift_for_insert-is_descendant_of_example =
    shift_for_insert-is_descendant_of (pos 5) (pos 2) table twig branch (omega arith)

delete_subtree-IsTree_example : IsTree (delete_subtree (pos 2) (pos 5) table)
delete_subtree-IsTree_example =
    delete_subtree-IsTree branch (root ∷ []) (twig ∷ leaf ∷ []) table-IsTree

delete_branch :
    delete_subtree (pos 2) (pos 5) table ≡ node 1 none 1 4 0 ∷ node 4 (some 1) 2 3 1 ∷ []
unfolding delete_subtree ◌+ℤ◌ ◌-ℤ◌
delete_branch = refl

move_subtree_lem_example :
    move_subtree branch (pos 4) (some 1) (pos 1) table
    ≡ map (adopted branch (some 1)) (map (relocated branch (pos 4) (pos 1 -ℤ pos 1)) table)
move_subtree_lem_example =
    move_subtree_lem branch (pos 4) (some 1) (pos 1) (root ∷ []) (twig ∷ leaf ∷ []) table-IsTree
      (omega arith)

move_subtree-IsTree_example : IsTree (move_subtree branch (pos 4) (some 1) (pos 1) table)
move_subtree-IsTree_example =
    move_subtree-IsTree branch (pos 4) (some 1) (pos 1) (root ∷ []) (twig ∷ leaf ∷ []) table-IsTree
      (omega arith)

-- The branch goes below the leaf.
move_run :
    move_to branch (some 4) table
    ≡ ok (
        node 1 none 1 8 0
        ∷ node 2 (some 4) 3 6 2
        ∷ node 3 (some 2) 4 5 3
        ∷ node 4 (some 1) 2 7 1
        ∷ [])
unfolding move_to ◌+ℤ◌ ◌-ℤ◌
move_run = refl

move_to-IsTree_example : Outcome branch (some 4) table (move_to branch (some 4) table)
move_to-IsTree_example = move_to-IsTree branch (some 4) (root ∷ []) (twig ∷ leaf ∷ []) table-IsTree

-- A row does not go below its descendant.
move_below_itself : move_to branch (some 3) table ≡ err below_itself
unfolding move_to
move_below_itself = refl

-- A root that is made of a subtree stands last.
move_to_roots :
    move_to branch none table
    ≡ ok
        (node 1 none 1 4 0 ∷ node 2 none 5 8 0 ∷ node 3 (some 2) 6 7 1 ∷ node 4 (some 1) 2 3 1 ∷ [])
unfolding move_to ◌+ℤ◌ ◌-ℤ◌
move_to_roots = refl

-- The leaf goes before the branch.
swap_run :
    swap_adjacent branch leaf table
    ≡ some (root ∷ node 2 (some 1) 4 7 1 ∷ node 3 (some 2) 5 6 2 ∷ node 4 (some 1) 2 3 1 ∷ [])
unfolding swap_adjacent ◌+ℤ◌ ◌-ℤ◌
swap_run = refl

remove_from_tree-IsTree_example : IsTree (remove_from_tree branch table)
remove_from_tree-IsTree_example =
    remove_from_tree-IsTree branch (root ∷ []) (twig ∷ leaf ∷ []) table-IsTree (refl, tt)
      (refl, (refl, tt))

remove_run :
    remove_from_tree branch table
    ≡ node 1 none 1 6 0 ∷ node 2 none 7 8 0 ∷ node 3 (some 1) 2 3 1 ∷ node 4 (some 1) 4 5 1 ∷ []
unfolding remove_from_tree ◌+ℤ◌ ◌-ℤ◌
remove_run = refl
