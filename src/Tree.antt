-- ===== src/Tree.antt =====
-- include/metal/tree.hpp: the bounds of nested sets, and the statements by which `TreeManager` changes
-- them. A table is the list of the rows in the manager's scope. An UPDATE maps the assignment over
-- the rows that its WHERE clause names, and a DELETE drops them; the rows keep their order.
pub mod Order
pub mod Shift
pub mod Move
pub mod Moved
pub mod Largest
pub mod Targets
pub mod Placing
pub mod Removal
mod Tests
use metal_orm_cpp.Base.{
  ℕ, Bool, true, false, ◌&&◌, ◌||◌, not, Result, ok, err, Option, none, some, List, [], ◌∷◌, ◌++◌,
  map, if◌then◌else◌, ◌==◌,
}
use metal_orm_cpp.Base.Int.{ℤ, pos, ◌+ℤ◌, ◌-ℤ◌, ltb_ℤ, leb_ℤ, eqb_ℤ}

-- `TreeNodeResult` without what is computed from these fields; the table has a depth column.
pub record TreeRow : Type 0 where
  pub pk : ℕ
  pub parent_id : Option ℕ
  pub lft : ℤ
  pub rght : ℤ
  pub depth : ℤ

unfoldable pub subtree_width : ℤ → ℤ → ℤ
subtree_width lft rght = rght -ℤ lft +ℤ pos 1

unfoldable pub is_leaf : ℤ → ℤ → Bool
is_leaf lft rght = eqb_ℤ (rght -ℤ lft) (pos 1)

abbrev pub is_descendant_of : TreeRow → TreeRow → Bool
is_descendant_of a b = ltb_ℤ b.lft a.lft && ltb_ℤ a.rght b.rght

abbrev pub is_ancestor_of : TreeRow → TreeRow → Bool
is_ancestor_of a b = ltb_ℤ a.lft b.lft && ltb_ℤ b.rght a.rght

-- The test of the WHERE clauses: within the bounds, both included.
abbrev pub is_within : ℤ → ℤ → TreeRow → Bool
is_within lft rght r = leb_ℤ lft r.lft && leb_ℤ r.rght rght

unfoldable pub update_where : (TreeRow → Bool) → (TreeRow → TreeRow) → List TreeRow → List TreeRow
update_where test f [] = []
update_where test f (r ∷ rs) = (if test r then f r else r) ∷ update_where test f rs

unfoldable pub delete_where : (TreeRow → Bool) → List TreeRow → List TreeRow
delete_where test [] = []
delete_where test (r ∷ rs) = let rest = delete_where test rs in if test r then rest else r ∷ rest

-- `shift_for_insert`: the right bounds, then the left.
unfoldable pub shift_for_insert : ℤ → ℤ → List TreeRow → List TreeRow
unfolding update_where
shift_for_insert point width rs =
    update_where (λ r. leb_ℤ point r.lft) (λ r. record r { lft = r.lft +ℤ width })
      (update_where (λ r. leb_ℤ point r.rght) (λ r. record r { rght = r.rght +ℤ width }) rs)

-- `shift_for_delete`: the left bounds, then the right.
unfoldable pub shift_for_delete : ℤ → ℤ → List TreeRow → List TreeRow
unfolding update_where
shift_for_delete deleted_rght width rs =
    update_where (λ r. ltb_ℤ deleted_rght r.rght) (λ r. record r { rght = r.rght -ℤ width })
      (update_where (λ r. ltb_ℤ deleted_rght r.lft) (λ r. record r { lft = r.lft -ℤ width }) rs)

unfoldable pub move_range : ℤ → ℤ → ℤ → List TreeRow → List TreeRow
unfolding update_where
move_range lft rght delta rs =
    update_where (is_within lft rght)
      (λ r. record r { lft = r.lft +ℤ delta; rght = r.rght +ℤ delta }) rs

unfoldable pub delete_subtree : ℤ → ℤ → List TreeRow → List TreeRow
unfolding delete_where shift_for_delete subtree_width
delete_subtree lft rght rs =
    shift_for_delete rght (subtree_width lft rght) (delete_where (is_within lft rght) rs)

-- `insert_as_child` below the row that `get_node` found: the new row stands last in the table.
unfoldable pub insert_as_child : ℕ → TreeRow → List TreeRow → List TreeRow
unfolding shift_for_insert
insert_as_child new_pk parent rs =
    shift_for_insert parent.rght (pos 2) rs
    ++ record {
      pk = new_pk;
      parent_id = some parent.pk;
      lft = parent.rght;
      rght = parent.rght +ℤ pos 1;
      depth = parent.depth +ℤ pos 1;
    }
      ∷ []

abbrev pub temp : ℤ
temp = pos 10000000

-- `swap_adjacent`: none where it returns false.
unfoldable pub swap_adjacent : TreeRow → TreeRow → List TreeRow → Option (List TreeRow)
unfolding move_range subtree_width
swap_adjacent left right rs =
    if leb_ℤ right.lft left.rght
    then none
    else some (
        move_range (right.lft +ℤ temp) (right.rght +ℤ temp)
          (pos 0 -ℤ temp -ℤ subtree_width left.lft left.rght)
          (move_range left.lft left.rght (subtree_width right.lft right.rght)
            (move_range right.lft right.rght temp rs)))

-- `move_subtree`: the subtree goes below zero, the gap closes, a gap opens at the target, and the
-- subtree comes back; then the node's parent changes. Rows of a table have different primary keys.
unfoldable pub restore : ℤ → ℤ → ℤ → ℤ → List TreeRow → List TreeRow
unfolding update_where
restore lft rght delta depth_delta rs =
    update_where (is_within lft rght)
      (λ r. record r {
        lft = r.lft +ℤ delta;
        rght = r.rght +ℤ delta;
        depth = r.depth +ℤ depth_delta;
      })
      rs

unfoldable pub move_subtree : TreeRow → ℤ → Option ℕ → ℤ → List TreeRow → List TreeRow
unfolding move_range shift_for_delete shift_for_insert restore update_where subtree_width
move_subtree node target_lft new_parent_id new_depth rs =
    let width = subtree_width node.lft node.rght in
    let isolate_delta = pos 0 -ℤ temp -ℤ node.rght in
    update_where (λ r. r.pk == node.pk) (λ r. record r { parent_id = new_parent_id })
      (restore (node.lft +ℤ isolate_delta) (node.rght +ℤ isolate_delta)
        (target_lft -ℤ node.lft -ℤ isolate_delta) (new_depth -ℤ node.depth)
        (shift_for_insert target_lft width
          (shift_for_delete node.rght width (move_range node.lft node.rght isolate_delta rs))))

pub data TreeError : Type 0 where
  parent_not_found : TreeError
  below_itself : TreeError

-- `get_node`: the first row that the query returns.
unfoldable pub get_node : ℕ → List TreeRow → Option TreeRow
get_node id [] = none
get_node id (r ∷ rs) = let rest = get_node id rs in if r.pk == id then some r else rest

-- `max_rght`: 0 where there is no row.
unfoldable pub larger : ℤ → ℤ → ℤ
larger a b = if ltb_ℤ a b then b else a

unfoldable pub max_of : ℤ → List TreeRow → ℤ
unfolding larger
max_of m [] = m
max_of m (r ∷ rs) = max_of (larger m r.rght) rs

unfoldable pub max_rght : List TreeRow → ℤ
unfolding max_of
max_rght [] = pos 0
max_rght (r ∷ rs) = max_of r.rght rs

-- `if (target > node.rght) target -= width;`
unfoldable pub close_target : TreeRow → ℤ → ℤ
unfolding subtree_width
close_target node target =
    if ltb_ℤ node.rght target then target -ℤ subtree_width node.lft node.rght else target

unfoldable pub move_below : TreeRow → TreeRow → List TreeRow → Result TreeError (List TreeRow)
unfolding close_target move_subtree
move_below node parent rs =
    if is_descendant_of parent node || eqb_ℤ parent.lft node.lft && eqb_ℤ parent.rght node.rght
    then err below_itself
    else ok (
        move_subtree node (close_target node parent.rght) (some parent.pk) (parent.depth +ℤ pos 1)
          rs)

-- `move_to`, in a table with a depth column, which `get_level` reads.
unfoldable pub move_to : TreeRow → Option ℕ → List TreeRow → Result TreeError (List TreeRow)
unfolding move_below get_node max_rght close_target move_subtree
move_to node none rs =
    ok (move_subtree node (close_target node (max_rght rs +ℤ pos 1)) none (pos 0) rs)
move_to node (some id) rs = elim (get_node id rs) [
  | none ↦ err parent_not_found
  | some parent ↦ move_below node parent rs
]

-- `remove_from_tree`: the children go to the node's parent, the descendants lose the node's left
-- bound, the gap closes, and the node becomes the last root.
unfoldable pub promoted_from : TreeRow → TreeRow → Option ℕ → TreeRow
promoted_from node r none = r
promoted_from node r (some p) = if p == node.pk then record r { parent_id = node.parent_id } else r

unfoldable pub promoted : TreeRow → TreeRow → TreeRow
unfolding promoted_from
promoted node r = promoted_from node r r.parent_id

unfoldable pub promote : TreeRow → List TreeRow → List TreeRow
unfolding promoted
promote node [] = []
promote node (r ∷ rs) = promoted node r ∷ promote node rs

unfoldable pub lift_descendants : TreeRow → List TreeRow → List TreeRow
unfolding update_where
lift_descendants node rs =
    if ltb_ℤ (pos 1) (node.rght -ℤ node.lft)
    then update_where (λ r. is_descendant_of r node)
        (λ r. record r { lft = r.lft -ℤ pos 1; rght = r.rght -ℤ pos 1; depth = r.depth -ℤ pos 1 })
        rs
    else rs

unfoldable pub remove_from_tree : TreeRow → List TreeRow → List TreeRow
unfolding promote lift_descendants shift_for_delete update_where max_rght
remove_from_tree node rs =
    let max = max_rght rs in
    update_where (λ r. r.pk == node.pk)
      (λ r. record r { parent_id = none; lft = max -ℤ pos 1; rght = max; depth = pos 0 })
      (shift_for_delete node.rght (pos 2) (lift_descendants node (promote node rs)))
