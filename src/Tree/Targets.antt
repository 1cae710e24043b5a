-- ===== src/Tree/Targets.antt =====
-- include/metal/tree.hpp: where `move_to` puts a row, and the rows below which it does not.
use metal_orm_cpp.Base.{
  ◌≡◌, refl, inl, inr, true, false, ◌&&◌, ◌||◌, if◌then◌else◌, Bool-cases, arith,
}
use metal_orm_cpp.Base.Int.{
  ℤ, pos, ◌+ℤ◌, ◌-ℤ◌, ◌<ℤ◌, ◌≤ℤ◌, ltb_ℤ, leb_ℤ, eqb_ℤ, +ℤ_parts, -ℤ_parts, eq_of_parts,
}
use metal_orm_cpp.Tree.{TreeRow, subtree_width, is_descendant_of, is_within, close_target}
use metal_orm_cpp.Tree.Shift.{Related}
use metal_orm_cpp.Tree.Move.{relocated}

-- In a nested set the test of `move_to` is that the parent stands within the node's bounds.
pub guard_lem :
    (node p : TreeRow)
    → node.lft <ℤ node.rght
    → p.lft <ℤ p.rght
    → Related node p
    → (is_descendant_of p node || eqb_ℤ p.lft node.lft && eqb_ℤ p.rght node.rght)
      ≡ is_within node.lft node.rght p
guard_lem node p o q (inl (e, f)) = ground (arith, e, f)
guard_lem node p o q (inr (inl e)) = ground (arith, e)
guard_lem node p o q (inr (inr (inl e))) = ground (arith, e)
guard_lem node p o q (inr (inr (inr (inl e)))) = ground (arith, e)
guard_lem node p o q (inr (inr (inr (inr e)))) = ground (arith, e)

pub close_target_low :
    (n : TreeRow) (target : ℤ) → pos 0 <ℤ n.lft → pos 0 <ℤ target → pos 0 <ℤ close_target n target
unfolding close_target subtree_width
close_target_low n target l t = ground (
  arith,
  -ℤ_parts n.rght n.lft,
  +ℤ_parts (n.rght -ℤ n.lft) (pos 1),
  -ℤ_parts target (n.rght -ℤ n.lft +ℤ pos 1),
)

-- The node's own row goes with its subtree.
pub relocated_self :
    (n : TreeRow) (target deeper : ℤ)
    → n.lft <ℤ n.rght
    → ((relocated n target deeper n).rght ≡ n.rght +ℤ (target -ℤ n.lft))
      × ((relocated n target deeper n).depth ≡ n.depth +ℤ deeper)
relocated_self n target deeper o =
    let h : is_within n.lft n.rght n ≡ true = ground (arith, o) in (rw h refl, rw h refl)

pub depth_there : (n : TreeRow) (d : ℤ) → n.depth +ℤ (d -ℤ n.depth) ≡ d
depth_there n d =
    eq_of_parts (n.depth +ℤ (d -ℤ n.depth)) d
      (omega (arith, +ℤ_parts n.depth (d -ℤ n.depth), -ℤ_parts d n.depth))

-- Behind the greatest right bound, the node's right bound becomes the greatest.
pub end_rght :
    (n : TreeRow) (m : ℤ) → n.rght ≤ℤ m → n.rght +ℤ (close_target n (m +ℤ pos 1) -ℤ n.lft) ≡ m
unfolding close_target subtree_width
end_rght n m h =
    let w = n.rght -ℤ n.lft +ℤ pos 1 in
    let e : ltb_ℤ n.rght (m +ℤ pos 1) ≡ true = ground (arith, h, +ℤ_parts m (pos 1)) in
    rw e (
      eq_of_parts (n.rght +ℤ ((m +ℤ pos 1 -ℤ w) -ℤ n.lft)) m (
        omega (
          arith,
          +ℤ_parts n.rght ((m +ℤ pos 1 -ℤ w) -ℤ n.lft),
          -ℤ_parts (m +ℤ pos 1 -ℤ w) n.lft,
          -ℤ_parts (m +ℤ pos 1) w,
          +ℤ_parts m (pos 1),
          -ℤ_parts n.rght n.lft,
          +ℤ_parts (n.rght -ℤ n.lft) (pos 1),
        )))

leb_ℤ_refl : (x : ℤ) → leb_ℤ x x ≡ true
leb_ℤ_refl x = ground arith

-- The right bound of the parent, which the closing gap has moved, or not, and the opening one moves.
moved_twice :
    (l r x : ℤ)
    → (if leb_ℤ (x -ℤ (r -ℤ l +ℤ pos 1)) (x -ℤ (r -ℤ l +ℤ pos 1))
        then x -ℤ (r -ℤ l +ℤ pos 1) +ℤ (r -ℤ l +ℤ pos 1)
        else x -ℤ (r -ℤ l +ℤ pos 1))
      ≡ r +ℤ (x -ℤ (r -ℤ l +ℤ pos 1) -ℤ l) +ℤ pos 1
moved_twice l r x =
    let w = r -ℤ l +ℤ pos 1 in
    rw (leb_ℤ_refl (x -ℤ w)) (
      eq_of_parts (x -ℤ w +ℤ w) (r +ℤ (x -ℤ w -ℤ l) +ℤ pos 1) (
        omega (
          arith,
          +ℤ_parts (x -ℤ w) w,
          -ℤ_parts x w,
          +ℤ_parts (r +ℤ (x -ℤ w -ℤ l)) (pos 1),
          +ℤ_parts r (x -ℤ w -ℤ l),
          -ℤ_parts (x -ℤ w) l,
          +ℤ_parts (r -ℤ l) (pos 1),
          -ℤ_parts r l,
        )))

moved_once :
    (l r x : ℤ) → (if leb_ℤ x x then x +ℤ (r -ℤ l +ℤ pos 1) else x) ≡ r +ℤ (x -ℤ l) +ℤ pos 1
moved_once l r x =
    let w = r -ℤ l +ℤ pos 1 in
    rw (leb_ℤ_refl x) (
      eq_of_parts (x +ℤ w) (r +ℤ (x -ℤ l) +ℤ pos 1) (
        omega (
          arith,
          +ℤ_parts x w,
          +ℤ_parts (r +ℤ (x -ℤ l)) (pos 1),
          +ℤ_parts r (x -ℤ l),
          -ℤ_parts x l,
          +ℤ_parts (r -ℤ l) (pos 1),
          -ℤ_parts r l,
        )))

-- Below a row that is not within the node's bounds, the node becomes the last child: the parent's right
-- bound follows the node's at once.
pub child_rght :
    (n p : TreeRow) (deeper : ℤ)
    → is_within n.lft n.rght p ≡ false
    → (relocated n (close_target n p.rght) deeper p).rght
      ≡ n.rght +ℤ (close_target n p.rght -ℤ n.lft) +ℤ pos 1
unfolding close_target subtree_width
child_rght n p deeper h = rw h (elim (Bool-cases (ltb_ℤ n.rght p.rght)) [
  | inl e ↦ rw e (moved_twice n.lft n.rght p.rght)
  | inr e ↦ rw e (moved_once n.lft n.rght p.rght)
])
