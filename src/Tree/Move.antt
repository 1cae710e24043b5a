-- ===== src/Tree/Move.antt =====
-- include/metal/tree.hpp: `move_subtree`.
use metal_orm_cpp.Base.{
  ℕ, ◌≡◌, refl, ap, ◌∙◌, inl, inr, true, false, Option, List, [], ◌∷◌, ◌++◌, map, if◌then◌else◌,
  Bool-cases, arith, ◌==◌,
}
use metal_orm_cpp.Base.Int.{ℤ, pos, ◌+ℤ◌, ◌-ℤ◌, ◌<ℤ◌, ◌≤ℤ◌, +ℤ_parts, -ℤ_parts, eq_of_parts}
use metal_orm_cpp.Tree.{TreeRow, subtree_width, is_within, move_range, restore, move_subtree, temp}
use metal_orm_cpp.Tree.Order.{IsTree, update_where-map}
use metal_orm_cpp.Tree.Shift.{
  up, down, raised, lowered, lowered_low, shift_for_insert-map, shift_for_delete-map,
  IsTree-ordered,
}

-- A row with both bounds moved.
abbrev slid : ℤ → TreeRow → TreeRow
slid delta r = record r { lft = r.lft +ℤ delta; rght = r.rght +ℤ delta }

abbrev away : TreeRow → ℤ
away n = pos 0 -ℤ temp -ℤ n.rght

abbrev pub width : TreeRow → ℤ
width n = subtree_width n.lft n.rght

abbrev isolated : TreeRow → TreeRow → TreeRow
isolated n r = if is_within n.lft n.rght r then slid (away n) r else r

abbrev back : TreeRow → ℤ → ℤ → TreeRow → TreeRow
back n target deeper r =
    if is_within (n.lft +ℤ away n) (n.rght +ℤ away n) r
    then record r {
      lft = r.lft +ℤ (target -ℤ n.lft -ℤ away n);
      rght = r.rght +ℤ (target -ℤ n.lft -ℤ away n);
      depth = r.depth +ℤ deeper;
    }
    else r

-- Where a row is in the end.
abbrev pub relocated : TreeRow → ℤ → ℤ → TreeRow → TreeRow
relocated n target deeper r =
    if is_within n.lft n.rght r
    then record r {
      lft = r.lft +ℤ (target -ℤ n.lft);
      rght = r.rght +ℤ (target -ℤ n.lft);
      depth = r.depth +ℤ deeper;
    }
    else raised target (width n) (lowered n.rght (width n) r)

same_row :
    (r : TreeRow) (l l' g g' d : ℤ)
    → l ≡ l'
    → g ≡ g'
    → ◌≡◌ {A = TreeRow}
        (record r { lft = l; rght = g; depth = d })
        (record r { lft = l'; rght = g'; depth = d })
same_row r l l' g g' d e f = cc (e, f)

-- Neither shift touches what is below zero.
untouched :
    (n : TreeRow) (target x : ℤ)
    → pos 0 <ℤ n.rght
    → pos 0 <ℤ target
    → x ≤ℤ n.rght
    → up target (width n) (down n.rght (width n) (x +ℤ away n)) ≡ x +ℤ away n
untouched n target x l t h =
    ground (arith, +ℤ_parts x (away n), -ℤ_parts (pos 0) temp, -ℤ_parts (pos 0 -ℤ temp) n.rght)

there_and_back : (a x l t : ℤ) → x +ℤ a +ℤ (t -ℤ l -ℤ a) ≡ x +ℤ (t -ℤ l)
there_and_back a x l t = eq_of_parts (x +ℤ a +ℤ (t -ℤ l -ℤ a)) (x +ℤ (t -ℤ l)) (
    omega (
      arith,
      +ℤ_parts x a,
      -ℤ_parts t l,
      -ℤ_parts (t -ℤ l) a,
      +ℤ_parts (x +ℤ a) (t -ℤ l -ℤ a),
      +ℤ_parts x (t -ℤ l),
    ))

slid_within :
    (n r : TreeRow) (a : ℤ)
    → is_within n.lft n.rght r ≡ true
    → is_within (n.lft +ℤ a) (n.rght +ℤ a) (slid a r) ≡ true
slid_within n r a h =
    ground (arith, h, +ℤ_parts n.lft a, +ℤ_parts n.rght a, +ℤ_parts r.lft a, +ℤ_parts r.rght a)

move_inside :
    (n r : TreeRow) (target deeper : ℤ)
    → pos 0 <ℤ n.rght
    → pos 0 <ℤ target
    → r.lft <ℤ r.rght
    → is_within n.lft n.rght r ≡ true
    → back n target deeper (raised target (width n) (lowered n.rght (width n) (slid (away n) r)))
      ≡ record r {
        lft = r.lft +ℤ (target -ℤ n.lft);
        rght = r.rght +ℤ (target -ℤ n.lft);
        depth = r.depth +ℤ deeper;
      }
move_inside n r target deeper l t o w =
    ap (back n target deeper) still
    ∙ ap
        (λ b.
          if b
          then record r {
            lft = r.lft +ℤ away n +ℤ (target -ℤ n.lft -ℤ away n);
            rght = r.rght +ℤ away n +ℤ (target -ℤ n.lft -ℤ away n);
            depth = r.depth +ℤ deeper;
          }
          else slid (away n) r)
        (slid_within n r (away n) w)
    ∙ same_row r _ _ _ _ (r.depth +ℤ deeper) (there_and_back (away n) r.lft n.lft target)
        (there_and_back (away n) r.rght n.lft target)
  where
    still : raised target (width n) (lowered n.rght (width n) (slid (away n) r)) ≡ slid (away n) r
    still =
        same_row r _ _ _ _ r.depth (untouched n target r.lft l t (ground (arith, w, o)))
          (untouched n target r.rght l t (ground (arith, w, o)))

-- A row that stays above zero does not come back.
not_back : (n q : TreeRow) (target deeper : ℤ) → pos 0 <ℤ q.rght → back n target deeper q ≡ q
not_back n q target deeper h =
    ap
      (λ b.
        if b
        then record q {
          lft = q.lft +ℤ (target -ℤ n.lft -ℤ away n);
          rght = q.rght +ℤ (target -ℤ n.lft -ℤ away n);
          depth = q.depth +ℤ deeper;
        }
        else q)
      {x = is_within (n.lft +ℤ away n) (n.rght +ℤ away n) q} {y = false}
      (ground (
        arith,
        h,
        +ℤ_parts n.rght (away n),
        -ℤ_parts (pos 0) temp,
        -ℤ_parts (pos 0 -ℤ temp) n.rght,
      ))

pub width_low : (n : TreeRow) → n.lft <ℤ n.rght → pos 0 ≤ℤ width n
unfolding subtree_width
width_low n o = omega (arith, -ℤ_parts n.rght n.lft, +ℤ_parts (n.rght -ℤ n.lft) (pos 1))

pub up_low : (p w x : ℤ) → pos 0 ≤ℤ w → pos 0 <ℤ x → pos 0 <ℤ up p w x
up_low p w x h k = ground (arith, +ℤ_parts x w)

-- The four statements move each row of a nested set to its place.
move_row :
    (n r : TreeRow) (target deeper : ℤ)
    → pos 0 <ℤ n.lft
    → n.lft <ℤ n.rght
    → pos 0 <ℤ target
    → pos 0 <ℤ r.lft
    → r.lft <ℤ r.rght
    → back n target deeper (raised target (width n) (lowered n.rght (width n) (isolated n r)))
      ≡ relocated n target deeper r
move_row n r target deeper low order t l o = elim (Bool-cases (is_within n.lft n.rght r)) [
  | inl w ↦ rw w (move_inside n r target deeper (ground (arith, low, order)) t o w)
  | inr w ↦ rw w (
      not_back n (raised target (width n) (lowered n.rght (width n) r)) target deeper (
        up_low target (width n) (down n.rght (width n) r.rght) (width_low n order)
          (lowered_low n.lft n.rght r.rght order low (ground (arith, l, o)))))
]

move_rows :
    (n : TreeRow) (target deeper : ℤ) (rs : List TreeRow)
    → pos 0 <ℤ n.lft
    → n.lft <ℤ n.rght
    → pos 0 <ℤ target
    → IsTree rs
    → map
        (back n target deeper)
        (map (raised target (width n)) (map (lowered n.rght (width n)) (map (isolated n) rs)))
      ≡ map (relocated n target deeper) rs
move_rows n target deeper [] low order t i = refl
move_rows n target deeper (r ∷ rs) low order t (l, o, ns, i) =
    cc (move_row n r target deeper low order t l o, move_rows n target deeper rs low order t i)

abbrev pub adopted : TreeRow → Option ℕ → TreeRow → TreeRow
adopted n parent r = if r.pk == n.pk then record r { parent_id = parent } else r

-- `move_subtree` of a row of a nested set, to any place from 1 on, moves the node's subtree as one
-- block to the target, closes the gap that it leaves and opens the one that it takes; only the node's
-- own row gets the new parent.
pub move_subtree_lem :
    (node : TreeRow) (target : ℤ) (parent : Option ℕ) (new_depth : ℤ) (before after : List TreeRow)
    → IsTree (before ++ node ∷ after)
    → pos 0 <ℤ target
    → move_subtree node target parent new_depth (before ++ node ∷ after)
      ≡ map
          (adopted node parent)
          (map (relocated node target (new_depth -ℤ node.depth)) (before ++ node ∷ after))
unfolding move_subtree move_range restore
move_subtree_lem node target parent new_depth before after i t =
    let rs = before ++ node ∷ after in
    let deeper = new_depth -ℤ node.depth in
    let (low, order) = IsTree-ordered node before after i in
    let closed = map (lowered node.rght (width node)) (map (isolated node) rs) in
    update_where-map (λ r. r.pk == node.pk) (λ r. record r { parent_id = parent }) _
    ∙ ap (map (adopted node parent)) (
        update_where-map (is_within (node.lft +ℤ away node) (node.rght +ℤ away node)) _ _
        ∙ ap (map (back node target deeper)) (
            shift_for_insert-map target (width node) _
            ∙ ap (map (raised target (width node))) (
                shift_for_delete-map node.rght (width node) _
                ∙ ap (map (lowered node.rght (width node)))
                    (update_where-map (is_within node.lft node.rght) (slid (away node)) rs)))
        ∙ move_rows node target deeper rs low order t i)
