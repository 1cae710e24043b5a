-- ===== src/Tree/Placing.antt =====
-- include/metal/tree.hpp: `move_to`.
use metal_orm_cpp.Base.{
  ℕ, ◌≡◌, ◌≢◌, refl, sym, ap, ◌∙◌, subst, inl, inr, ◌⊎◌, Bool, true, false, ◌&&◌, ◌||◌, Option,
  none, some, List, ◌∷◌, ◌++◌, map, if◌then◌else◌, Bool-cases, arith, Result, ok, err, All,
}
use metal_orm_cpp.Base.Int.{ℤ, pos, ◌+ℤ◌, ◌-ℤ◌, ◌<ℤ◌, eqb_ℤ, +ℤ_parts}
use metal_orm_cpp.Tree.{
  TreeRow, TreeError, parent_not_found, below_itself, is_descendant_of, is_within, max_rght,
  close_target, move_subtree, move_below, move_to,
}
use metal_orm_cpp.Tree.Order.{IsTree}
use metal_orm_cpp.Tree.Shift.{Related, IsTree-Related, IsTree-ordered}
use metal_orm_cpp.Tree.Move.{relocated, adopted, move_subtree_lem}
use metal_orm_cpp.Tree.Moved.{move_subtree-IsTree}
use metal_orm_cpp.Tree.Largest.{
  Holds, IsLargest, max_rght-IsLargest_middle, All-Holds, max_rght-middle, IsTree-bounds,
  get_node_lem,
}
use metal_orm_cpp.Tree.Targets.{
  guard_lem, close_target_low, relocated_self, depth_there, end_rght, child_rght,
}

-- The table after the node's subtree has gone to the target and its own row has got the new parent.
abbrev pub relocation : TreeRow → ℤ → ℤ → Option ℕ → List TreeRow → List TreeRow
relocation node target deeper parent rs =
    map (adopted node parent) (map (relocated node target deeper) rs)

-- Where the node's row stands: last of the roots, or last of the new parent's children.
abbrev pub StandsLast : TreeRow → ℤ → ℤ → Option ℕ → List TreeRow → Type 0
StandsLast node target deeper new_parent rs =
    let node' = relocated node target deeper node in
    ((new_parent ≡ none) × IsLargest node'.rght rs × (node'.depth ≡ pos 0))
    ⊎ ((p : TreeRow) × (new_parent ≡ some p.pk)
        × Holds p rs
        × (is_within node.lft node.rght p ≡ false)
        × ((relocated node target deeper p).rght ≡ node'.rght +ℤ pos 1)
        × (node'.depth ≡ p.depth +ℤ pos 1))

-- The outcomes of a move, no two of which are possible at once.
abbrev pub Outcome : TreeRow → Option ℕ → List TreeRow → Result TreeError (List TreeRow) → Type 0
Outcome node new_parent rs answer =
    ((target : ℤ) × (deeper : ℤ) × (answer ≡ ok (relocation node target deeper new_parent rs))
      × IsTree (relocation node target deeper new_parent rs)
      × StandsLast node target deeper new_parent rs)
    ⊎ ((id : ℕ) × (new_parent ≡ some id)
        × All (λ r. r.pk ≢ id) rs
        × (answer ≡ err parent_not_found))
    ⊎ ((p : TreeRow) × (new_parent ≡ some p.pk)
        × Holds p rs
        × (is_within node.lft node.rght p ≡ true)
        × (answer ≡ err below_itself))

moved_Outcome :
    (node : TreeRow) (target new_depth : ℤ) (new_parent : Option ℕ) (before after : List TreeRow)
    → IsTree (before ++ node ∷ after)
    → pos 0 <ℤ target
    → StandsLast node target (new_depth -ℤ node.depth) new_parent (before ++ node ∷ after)
    → Outcome node new_parent
        (before ++ node ∷ after)
        (ok (move_subtree node target new_parent new_depth (before ++ node ∷ after)))
moved_Outcome node target new_depth new_parent before after t low placed =
    let rs = before ++ node ∷ after in
    let same = move_subtree_lem node target new_parent new_depth before after t low in
    inl (
      target,
      new_depth -ℤ node.depth,
      ap ok same,
      subst IsTree same (move_subtree-IsTree node target new_parent new_depth before after t low),
      placed,
    )

-- `move_to` of a row of a nested set gives one of three outcomes. The node's subtree goes as one block
-- to a place at which the table is a nested set again: to the roots, where its right bound is the
-- greatest of the table, at depth 0, or below a row with the key `new_parent`, which is not within the
-- node's bounds, whose right bound then follows the node's at once, one level deeper than this row. Or
-- it throws that the parent does not exist, where no row has the key; or that the move goes below
-- itself, where the row with the key stands within the node's bounds.
pub move_to-IsTree :
    (node : TreeRow) (new_parent : Option ℕ) (before after : List TreeRow)
    → IsTree (before ++ node ∷ after)
    → Outcome node new_parent
        (before ++ node ∷ after)
        (move_to node new_parent (before ++ node ∷ after))
unfolding move_to
move_to-IsTree node none before after t =
    let rs = before ++ node ∷ after in
    let (low, order) = IsTree-ordered node before after t in
    let m = max_rght rs in
    let target = close_target node (m +ℤ pos 1) in
    let deeper = pos 0 -ℤ node.depth in
    let largest = max_rght-IsLargest_middle node before after in
    let last = max_rght-middle node before after in
    let self = relocated_self node target deeper order in
    moved_Outcome node target (pos 0) none before after t
      (close_target_low node (m +ℤ pos 1) low (omega (arith, low, order, last, +ℤ_parts m (pos 1))))
      (inl (
        refl,
        subst (λ x. IsLargest x rs) (sym (self.0 ∙ end_rght node m last)) largest,
        self.1 ∙ depth_there node (pos 0),
      ))
move_to-IsTree node (some id) before after t = elim (get_node_lem id (before ++ node ∷ after)) [
  | inl (a, e) ↦ inr (inl (id, refl, a, rw (e, move_to) refl))
  | inr (p, held, key, e) ↦
      let rs = before ++ node ∷ after in
      let (low, order) = IsTree-ordered node before after t in
      let bounds = All-Holds _ p rs (IsTree-bounds rs t) held in
      let related = All-Holds (Related node) p rs (IsTree-Related node before after t) held in
      let same = guard_lem node p order bounds.1 related in
      let target = close_target node p.rght in
      let self = relocated_self node target (p.depth +ℤ pos 1 -ℤ node.depth) order in
      elim (Bool-cases (is_within node.lft node.rght p)) [
        | inl h ↦
            inr (inr (p, ap some (sym key), held, h, rw (e, move_to) (answered p true (same ∙ h))))
        | inr h ↦
            subst (Outcome node (some id) rs) (sym (rw (e, move_to) (answered p false (same ∙ h))))
              (subst
                (λ k.
                  Outcome node (some k) rs
                    (ok (move_subtree node target (some p.pk) (p.depth +ℤ pos 1) rs)))
                key
                (moved_Outcome node target (p.depth +ℤ pos 1) (some p.pk) before after t
                  (close_target_low node p.rght low (omega (arith, bounds.0, bounds.1)))
                  (inr (
                    p,
                    refl,
                    held,
                    h,
                    child_rght node p (p.depth +ℤ pos 1 -ℤ node.depth) h
                        ∙ ap (λ x. x +ℤ pos 1) (sym self.0),
                    self.1 ∙ depth_there node (p.depth +ℤ pos 1),
                  ))))
      ]
]
  where
    answered :
        (p : TreeRow) (b : Bool)
        → (is_descendant_of p node || eqb_ℤ p.lft node.lft && eqb_ℤ p.rght node.rght) ≡ b
        → move_below node p (before ++ node ∷ after) ≡ (
            if b
            then err below_itself
            else ok (
                move_subtree node
                  (close_target node p.rght)
                  (some p.pk)
                  (p.depth +ℤ pos 1)
                  (before ++ node ∷ after)))
    answered p b h =
        unfold move_below in
        ap
          (λ c.
            if c
            then err below_itself
            else ok (
                move_subtree node (close_target node p.rght) (some p.pk) (p.depth +ℤ pos 1)
                  (before ++ node ∷ after)))
          h
