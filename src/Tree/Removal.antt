-- ===== src/Tree/Removal.antt =====
-- include/metal/tree.hpp: `remove_from_tree`.
use metal_orm_cpp.Base.{
  ℕ, ◌≡◌, refl, sym, ap, ◌∙◌, subst, inl, inr, ◌⊎◌, true, false, Option, none, some, List, [], ◌∷◌,
  ◌++◌, map, if◌then◌else◌, Bool-cases, arith, All, ◌==◌,
}
use metal_orm_cpp.Base.Int.{ℤ, pos, pos_part, neg_part, ◌-ℤ◌, ◌<ℤ◌, ◌≤ℤ◌, ltb_ℤ, -ℤ_parts}
use metal_orm_cpp.Tree.{
  TreeRow, is_descendant_of, promoted, promoted_from, promote, lift_descendants, remove_from_tree,
  max_rght,
}
use metal_orm_cpp.Tree.Order.{Nested, IsTree, update_where-map}
use metal_orm_cpp.Tree.Shift.{
  down, lowered, shift_for_delete-map, IsTree-ordered, All-middle, swap-Nested,
}
use metal_orm_cpp.Tree.Largest.{max_rght-All, max_rght-middle}

-- Where a bound of another row goes.
abbrev pulled : TreeRow → ℤ → ℤ
pulled n x = if ltb_ℤ n.rght x then x -ℤ pos 2 else if ltb_ℤ n.lft x then x -ℤ pos 1 else x

abbrev Off : TreeRow → ℤ → Type 0
Off n x = ((x <ℤ n.lft) ⊎ (n.lft <ℤ x)) × ((x <ℤ n.rght) ⊎ (n.rght <ℤ x))

pulled_mono :
    (n : TreeRow) (x y : ℤ)
    → n.lft <ℤ n.rght
    → Off n x
    → Off n y
    → x <ℤ y
    → pulled n x <ℤ pulled n y
pulled_mono n x y o a b h =
    ground (arith, -ℤ_parts x (pos 2), -ℤ_parts x (pos 1), -ℤ_parts y (pos 2), -ℤ_parts y (pos 1))

pulled_low :
    (n : TreeRow) (x : ℤ) → pos 0 <ℤ n.lft → n.lft <ℤ n.rght → pos 0 <ℤ x → pos 0 <ℤ pulled n x
pulled_low n x l o h = ground (arith, -ℤ_parts x (pos 2), -ℤ_parts x (pos 1))

-- Every other bound ends below the last root.
pulled_high :
    (n : TreeRow) (x m : ℤ)
    → n.lft <ℤ n.rght
    → n.rght ≤ℤ m
    → x ≤ℤ m
    → Off n x
    → pulled n x <ℤ m -ℤ pos 1
pulled_high n x m o h k a =
    ground (arith, -ℤ_parts x (pos 2), -ℤ_parts x (pos 1), -ℤ_parts m (pos 1))

-- The bounds of a row that is nested with the node are not the node's.
off : (n r : TreeRow) → n.lft <ℤ n.rght → r.lft <ℤ r.rght → Nested r n → Off n r.lft × Off n r.rght
off n r o q (inl e) =
    ((inl (omega (arith, e, q)), inl (omega (arith, e, q, o))), (inl e, inl (omega (arith, e, o))))
off n r o q (inr (inl e)) =
    ((inr (omega (arith, e, o)), inr e), (inr (omega (arith, e, q, o)), inr (omega (arith, e, q))))
off n r o q (inr (inr (inl (e, f)))) =
    ((inr e, inl (omega (arith, f, q))), (inr (omega (arith, e, q)), inl f))
off n r o q (inr (inr (inr (e, f)))) =
    ((inl e, inl (omega (arith, e, o))), (inr (omega (arith, f, o)), inr f))

abbrev lifted : TreeRow → TreeRow → TreeRow
lifted n r =
    if is_descendant_of r n
    then record r { lft = r.lft -ℤ pos 1; rght = r.rght -ℤ pos 1; depth = r.depth -ℤ pos 1 }
    else r

-- The first three statements pull the bounds of every other row.
lifted_bounds :
    (n r : TreeRow)
    → n.lft <ℤ n.rght
    → r.lft <ℤ r.rght
    → Nested r n
    → ((lowered n.rght (pos 2) (lifted n r)).lft ≡ pulled n r.lft)
      × ((lowered n.rght (pos 2) (lifted n r)).rght ≡ pulled n r.rght)
lifted_bounds n r o q h = elim (Bool-cases (is_descendant_of r n)) [
  | inl w ↦ rw w (inner w)
  | inr w ↦ rw w (outer w h)
]
  where
    inner :
        is_descendant_of r n ≡ true
        → (down n.rght (pos 2) (r.lft -ℤ pos 1) ≡ pulled n r.lft)
          × (down n.rght (pos 2) (r.rght -ℤ pos 1) ≡ pulled n r.rght)
    inner w = (
      ground (arith, w, q, -ℤ_parts r.lft (pos 1)),
      ground (arith, w, q, -ℤ_parts r.rght (pos 1)),
    )

    outer :
        is_descendant_of r n ≡ false
        → Nested r n
        → (down n.rght (pos 2) r.lft ≡ pulled n r.lft)
          × (down n.rght (pos 2) r.rght ≡ pulled n r.rght)
    outer w (inl e) = (ground (arith, e, q, o), ground (arith, e, o))
    outer w (inr (inl e)) = (ground (arith, e, q, o), ground (arith, e, q, o))
    outer w (inr (inr (inl (e, f)))) = ground (arith, w, e, f)
    outer w (inr (inr (inr (e, f)))) = (ground (arith, e, o), ground (arith, f, o))

pk_kept : (n r : TreeRow) → (lifted n r).pk ≡ r.pk
pk_kept n r = elim (Bool-cases (is_descendant_of r n)) [ inl w ↦ rw w refl | inr w ↦ rw w refl ]

abbrev settled : TreeRow → ℤ → TreeRow → TreeRow
settled n m r =
    if (lifted n r).pk == n.pk
    then record (lowered n.rght (pos 2) (lifted n r)) {
      parent_id = none;
      lft = m -ℤ pos 1;
      rght = m;
      depth = pos 0;
    }
    else lowered n.rght (pos 2) (lifted n r)

-- The node's own row, or another that is nested with it; no bound is past the maximum.
abbrev Placed : TreeRow → ℤ → TreeRow → Type 0
Placed n m r =
    (((r.pk == n.pk) ≡ true) × (r.lft ≡ n.lft) × (r.rght ≡ n.rght))
    ⊎ (((r.pk == n.pk) ≡ false) × Nested r n × (r.rght ≤ℤ m))

abbrev At : TreeRow → ℤ → ℤ → Type 0
At r l g = (r.lft ≡ l) × (r.rght ≡ g)

node_bounds : (n r : TreeRow) (m : ℤ) → (r.pk == n.pk) ≡ true → At (settled n m r) (m -ℤ pos 1) m
node_bounds n r m h =
    subst (λ q. At q (m -ℤ pos 1) m)
      (ap
        (λ b.
          if b
          then record (lowered n.rght (pos 2) (lifted n r)) {
            parent_id = none;
            lft = m -ℤ pos 1;
            rght = m;
            depth = pos 0;
          }
          else lowered n.rght (pos 2) (lifted n r))
        (sym (ap (λ k. k == n.pk) (pk_kept n r) ∙ h)))
      (refl, refl)

other_bounds :
    (n r : TreeRow) (m : ℤ)
    → n.lft <ℤ n.rght
    → r.lft <ℤ r.rght
    → (r.pk == n.pk) ≡ false
    → Nested r n
    → At (settled n m r) (pulled n r.lft) (pulled n r.rght)
other_bounds n r m o q h nested =
    subst (λ x. At x (pulled n r.lft) (pulled n r.rght))
      (ap
        (λ b.
          if b
          then record (lowered n.rght (pos 2) (lifted n r)) {
            parent_id = none;
            lft = m -ℤ pos 1;
            rght = m;
            depth = pos 0;
          }
          else lowered n.rght (pos 2) (lifted n r))
        (sym (ap (λ k. k == n.pk) (pk_kept n r) ∙ h)))
      (lifted_bounds n r o q nested)

-- Nestedness is a matter of the bounds.
At-Nested :
    (a b : TreeRow) (al ag bl bg : ℤ)
    → At a al ag
    → At b bl bg
    → (ag <ℤ bl) ⊎ (bg <ℤ al) ⊎ ((bl <ℤ al) × (ag <ℤ bg)) ⊎ ((al <ℤ bl) × (bg <ℤ ag))
    → Nested a b
At-Nested a b al ag bl bg (e, f) (g, h) n = rw (e, f, g, h) n

settled-Nested :
    (n a b : TreeRow) (m : ℤ)
    → n.lft <ℤ n.rght
    → n.rght ≤ℤ m
    → a.lft <ℤ a.rght
    → b.lft <ℤ b.rght
    → Placed n m a
    → Placed n m b
    → Nested a b
    → Nested (settled n m a) (settled n m b)
settled-Nested n a b m o hm oa ob (inl (pa, la, ga)) (inl (pb, lb, gb)) h =
    absurd (apart a.lft a.rght b.lft b.rght (la ∙ sym lb) (ga ∙ sym gb) oa h)
  where
    apart :
        (al ag bl bg : ℤ)
        → al ≡ bl
        → ag ≡ bg
        → al <ℤ ag
        → (ag <ℤ bl) ⊎ (bg <ℤ al) ⊎ ((bl <ℤ al) × (ag <ℤ bg)) ⊎ ((al <ℤ bl) × (bg <ℤ ag))
        → ⊥
    apart al ag bl bg e f q k =
        ground (arith, k, q, ap pos_part e, ap neg_part e, ap pos_part f, ap neg_part f)
settled-Nested n a b m o hm oa ob (inl (pa, la, ga)) (inr (pb, nb, hb)) h =
    At-Nested (settled n m a) (settled n m b) (m -ℤ pos 1) m (pulled n b.lft) (pulled n b.rght)
      (node_bounds n a m pa) (other_bounds n b m o ob pb nb)
      (inr (inl (pulled_high n b.rght m o hm hb (off n b o ob nb).1)))
settled-Nested n a b m o hm oa ob (inr (pa, na, ha)) (inl (pb, lb, gb)) h =
    At-Nested (settled n m a) (settled n m b) (pulled n a.lft) (pulled n a.rght) (m -ℤ pos 1) m
      (other_bounds n a m o oa pa na) (node_bounds n b m pb)
      (inl (pulled_high n a.rght m o hm ha (off n a o oa na).1))
settled-Nested n a b m o hm oa ob (inr (pa, na, ha)) (inr (pb, nb, hb)) h =
    At-Nested (settled n m a) (settled n m b) (pulled n a.lft) (pulled n a.rght) (pulled n b.lft)
      (pulled n b.rght) (other_bounds n a m o oa pa na) (other_bounds n b m o ob pb nb) (both h)
  where
    both :
        Nested a b
        → (pulled n a.rght <ℤ pulled n b.lft)
          ⊎ (pulled n b.rght <ℤ pulled n a.lft)
          ⊎ ((pulled n b.lft <ℤ pulled n a.lft) × (pulled n a.rght <ℤ pulled n b.rght))
          ⊎ ((pulled n a.lft <ℤ pulled n b.lft) × (pulled n b.rght <ℤ pulled n a.rght))
    both k =
        let (al, ag) = off n a o oa na in
        let (bl, bg) = off n b o ob nb in
        elim k [
          | inl e ↦ inl (pulled_mono n a.rght b.lft o ag bl e)
          | inr (inl e) ↦ inr (inl (pulled_mono n b.rght a.lft o bg al e))
          | inr (inr (inl (e, f))) ↦ inr (
              inr
                (inl (pulled_mono n b.lft a.lft o bl al e, pulled_mono n a.rght b.rght o ag bg f)))
          | inr (inr (inr (e, f))) ↦ inr (
              inr
                (inr (pulled_mono n a.lft b.lft o al bl e, pulled_mono n b.rght a.rght o bg ag f)))
        ]

settled-All :
    (n a : TreeRow) (m : ℤ) (rs : List TreeRow)
    → n.lft <ℤ n.rght
    → n.rght ≤ℤ m
    → a.lft <ℤ a.rght
    → Placed n m a
    → IsTree rs
    → All (Placed n m) rs
    → All (Nested a) rs
    → All (Nested (settled n m a)) (map (settled n m) rs)
settled-All n a m [] o hm oa pa t h ns = tt
settled-All n a m (r ∷ rs) o hm oa pa (low, order, ms, t) (h, hs) (k, ns) =
    (settled-Nested n a r m o hm oa order pa h k, settled-All n a m rs o hm oa pa t hs ns)

settled_order :
    (n r : TreeRow) (m : ℤ)
    → pos 0 <ℤ n.lft
    → n.lft <ℤ n.rght
    → n.rght ≤ℤ m
    → pos 0 <ℤ r.lft
    → r.lft <ℤ r.rght
    → Placed n m r
    → (pos 0 <ℤ (settled n m r).lft) × ((settled n m r).lft <ℤ (settled n m r).rght)
settled_order n r m low o hm l q (inl (p, e, f)) =
    let (x, y) = node_bounds n r m p in
    rw (x, y) (omega (arith, low, o, hm, -ℤ_parts m (pos 1)), omega (arith, -ℤ_parts m (pos 1)))
settled_order n r m low o hm l q (inr (p, nested, h)) =
    let (x, y) = other_bounds n r m o q p nested in
    let (a, b) = off n r o q nested in
    rw (x, y) (pulled_low n r.lft low o l, pulled_mono n r.lft r.rght o a b q)

settled-IsTree :
    (n : TreeRow) (m : ℤ) (rs : List TreeRow)
    → pos 0 <ℤ n.lft
    → n.lft <ℤ n.rght
    → n.rght ≤ℤ m
    → IsTree rs
    → All (Placed n m) rs
    → IsTree (map (settled n m) rs)
settled-IsTree n m [] low o hm t h = tt
settled-IsTree n m (r ∷ rs) low o hm (l, q, ns, t) (h, hs) =
    let order = settled_order n r m low o hm l q h in
    (order.0, order.1, settled-All n r m rs o hm q h t hs ns, settled-IsTree n m rs low o hm t hs)

-- Where the node is a leaf, nothing is below it to lift.
lifted_none :
    (n r : TreeRow) → ltb_ℤ (pos 1) (n.rght -ℤ n.lft) ≡ false → r.lft <ℤ r.rght → r ≡ lifted n r
lifted_none n r h q =
    ap
      (λ b.
        if b
        then record r { lft = r.lft -ℤ pos 1; rght = r.rght -ℤ pos 1; depth = r.depth -ℤ pos 1 }
        else r)
      {x = false} {y = is_descendant_of r n} (ground (arith, h, q, -ℤ_parts n.rght n.lft))

lifted_none_all :
    (n : TreeRow) (rs : List TreeRow)
    → ltb_ℤ (pos 1) (n.rght -ℤ n.lft) ≡ false
    → IsTree rs
    → rs ≡ map (lifted n) rs
lifted_none_all n [] h t = refl
lifted_none_all n (r ∷ rs) h (l, q, ns, t) = cc (lifted_none n r h q, lifted_none_all n rs h t)

lift_descendants-map :
    (n : TreeRow) (rs : List TreeRow) → IsTree rs → lift_descendants n rs ≡ map (lifted n) rs
unfolding lift_descendants
lift_descendants-map n rs t = elim (Bool-cases (ltb_ℤ (pos 1) (n.rght -ℤ n.lft))) [
  | inl h ↦ rw h (update_where-map (λ r. is_descendant_of r n) _ rs)
  | inr h ↦ rw h (lifted_none_all n rs h t)
]

-- No other row has the node's primary key.
abbrev pub Others : TreeRow → List TreeRow → Type 0
Others n = All (λ r. (r.pk == n.pk) ≡ false)

Nested-Placed :
    (n : TreeRow) (m : ℤ) (rs : List TreeRow)
    → Others n rs
    → All (Nested n) rs
    → All (λ r. r.rght ≤ℤ m) rs
    → All (Placed n m) rs
Nested-Placed n m [] d h k = tt
Nested-Placed n m (r ∷ rs) (d, ds) (h, hs) (k, ks) =
    (inr (d, swap-Nested n r h, k), Nested-Placed n m rs ds hs ks)

IsTree-Placed :
    (n : TreeRow) (m : ℤ) (before after : List TreeRow)
    → Others n before
    → Others n after
    → IsTree (before ++ n ∷ after)
    → All (λ r. r.rght ≤ℤ m) (before ++ n ∷ after)
    → All (Placed n m) (before ++ n ∷ after)
IsTree-Placed n m [] after d e (low, order, ns, t) (k, ks) =
    (inl (ground arith, refl, refl), Nested-Placed n m after e ns ks)
IsTree-Placed n m (b ∷ before) after (d, ds) e (low, order, ns, t) (k, ks) =
    (inr (d, All-middle b n before after ns, k), IsTree-Placed n m before after ds e t ks)

promoted_bounds :
    (n r : TreeRow)
    → ((promoted n r).lft ≡ r.lft) × ((promoted n r).rght ≡ r.rght) × ((promoted n r).pk ≡ r.pk)
unfolding promoted promoted_from
promoted_bounds n r = by_parent r.parent_id
  where
    by_parent :
        (o : Option ℕ)
        → ((promoted_from n r o).lft ≡ r.lft)
          × ((promoted_from n r o).rght ≡ r.rght)
          × ((promoted_from n r o).pk ≡ r.pk)
    by_parent none = (refl, refl, refl)
    by_parent (some p) = elim (Bool-cases (p == n.pk)) [
      | inl h ↦ rw h (refl, refl, refl)
      | inr h ↦ rw h (refl, refl, refl)
    ]

promote-All :
    (n a : TreeRow) (rs : List TreeRow)
    → All (Nested a) rs
    → All (Nested (promoted n a)) (promote n rs)
unfolding promote
promote-All n a [] h = tt
promote-All n a (r ∷ rs) (h, hs) =
    let (al, ag, ap') = promoted_bounds n a in
    let (rl, rg, rp) = promoted_bounds n r in (rw (al, ag, rl, rg) h, promote-All n a rs hs)

promote-IsTree : (n : TreeRow) (rs : List TreeRow) → IsTree rs → IsTree (promote n rs)
unfolding promote
promote-IsTree n [] t = tt
promote-IsTree n (r ∷ rs) (l, o, ns, t) =
    let (rl, rg, rp) = promoted_bounds n r in
    (rw rl l, rw (rl, rg) o, promote-All n r rs ns, promote-IsTree n rs t)

promote-Placed :
    (n : TreeRow) (m : ℤ) (rs : List TreeRow)
    → All (Placed n m) rs
    → All (Placed n m) (promote n rs)
unfolding promote
promote-Placed n m [] h = tt
promote-Placed n m (r ∷ rs) (h, hs) =
    let (rl, rg, rp) = promoted_bounds n r in (rw (rl, rg, rp) h, promote-Placed n m rs hs)

map-map-settled :
    (n : TreeRow) (m : ℤ) (rs : List TreeRow)
    → map
        (λ r.
          if r.pk == n.pk
          then record r { parent_id = none; lft = m -ℤ pos 1; rght = m; depth = pos 0 }
          else r)
        (map (lowered n.rght (pos 2)) (map (lifted n) rs))
      ≡ map (settled n m) rs
map-map-settled n m [] = refl
map-map-settled n m (r ∷ rs) = ap (◌∷◌ (settled n m r)) (map-map-settled n m rs)

-- `remove_from_tree` of a row of a nested set, whose primary key no other row has, leaves a nested
-- set.
pub remove_from_tree-IsTree :
    (node : TreeRow) (before after : List TreeRow)
    → IsTree (before ++ node ∷ after)
    → Others node before
    → Others node after
    → IsTree (remove_from_tree node (before ++ node ∷ after))
unfolding remove_from_tree
remove_from_tree-IsTree node before after t d e =
    let rs = before ++ node ∷ after in
    let m = max_rght rs in
    let (low, order) = IsTree-ordered node before after t in
    subst IsTree
      (sym (
        update_where-map (λ r. r.pk == node.pk) _ _
        ∙ ap
            (map (λ r.
              if r.pk == node.pk
              then record r { parent_id = none; lft = m -ℤ pos 1; rght = m; depth = pos 0 }
              else r))
            (shift_for_delete-map node.rght (pos 2) _
              ∙ ap (map (lowered node.rght (pos 2)))
                  (lift_descendants-map node (promote node rs) (promote-IsTree node rs t)))
        ∙ map-map-settled node m (promote node rs)))
      (settled-IsTree node m (promote node rs) low order (max_rght-middle node before after)
        (promote-IsTree node rs t)
        (promote-Placed node m rs
          (IsTree-Placed node m before after d e t (max_rght-All node before after))))
