-- ===== src/Tree/Moved.antt =====
-- include/metal/tree.hpp: the table that `move_subtree` leaves.
use metal_orm_cpp.Base.{
  ℕ, ◌≡◌, refl, sym, subst, inl, inr, ◌⊎◌, true, false, Option, List, [], ◌∷◌, ◌++◌, map,
  Bool-cases, arith, All, ◌==◌,
}
use metal_orm_cpp.Base.Int.{ℤ, pos, ◌+ℤ◌, ◌-ℤ◌, ◌<ℤ◌, ◌≤ℤ◌, leb_ℤ, +ℤ_parts, -ℤ_parts}
use metal_orm_cpp.Tree.{TreeRow, subtree_width, is_within, move_subtree}
use metal_orm_cpp.Tree.Order.{Nested, IsTree}
use metal_orm_cpp.Tree.Shift.{
  up, down, raised, lowered, up_mono, down_mono, raised-Nested, lowered-Nested, lowered_low,
  survivor, Outside, Related, swap-Nested, IsTree-Related, IsTree-ordered,
}
use metal_orm_cpp.Tree.Move.{relocated, adopted, width, width_low, up_low, move_subtree_lem}

slid_mono : (d x y : ℤ) → x <ℤ y → x +ℤ d <ℤ y +ℤ d
slid_mono d x y h = omega (arith, +ℤ_parts x d, +ℤ_parts y d)

abbrev Clear : ℤ → ℤ → ℤ → Type 0
Clear t e x = (x <ℤ t) ⊎ (e ≤ℤ x)

-- An interval with both bounds outside a block, and the intervals in the block.
block-Nested :
    (t e : ℤ) (a b : TreeRow)
    → t ≤ℤ a.lft
    → a.rght <ℤ e
    → t <ℤ e
    → b.lft <ℤ b.rght
    → Clear t e b.lft
    → Clear t e b.rght
    → Nested a b
block-Nested t e a b la ra te o (inl h) (inl k) = inr (inl (omega (arith, k, la)))
block-Nested t e a b la ra te o (inl h) (inr k) =
    inr (inr (inl (omega (arith, h, la), omega (arith, k, ra))))
block-Nested t e a b la ra te o (inr h) k = inl (omega (arith, h, ra))

-- What was outside the node's bounds is clear of the block at the target.
landing :
    (n : TreeRow) (target x : ℤ)
    → n.lft <ℤ n.rght
    → Outside n x
    → Clear target (target +ℤ width n) (up target (width n) (down n.rght (width n) x))
landing n target x o out = elim (Bool-cases (leb_ℤ target (down n.rght (width n) x))) [
  | inl h ↦ rw h (
      inr (
        omega (
          arith,
          +ℤ_parts target (width n),
          +ℤ_parts (down n.rght (width n) x) (width n),
          leb_lem target (down n.rght (width n) x) h,
        )))
  | inr h ↦ rw h (inl (not_leb target (down n.rght (width n) x) h))
]
  where
    leb_lem : (a b : ℤ) → leb_ℤ a b ≡ true → a ≤ℤ b
    leb_lem a b h = ground (arith, h)

    not_leb : (a b : ℤ) → leb_ℤ a b ≡ false → b <ℤ a
    not_leb a b h = ground (arith, h)

-- The two bounds of a row of the subtree stay in the block.
in_block :
    (n r : TreeRow) (target : ℤ)
    → is_within n.lft n.rght r ≡ true
    → (target ≤ℤ r.lft +ℤ (target -ℤ n.lft)) × (r.rght +ℤ (target -ℤ n.lft) <ℤ target +ℤ width n)
unfolding subtree_width
in_block n r target w =
    let (l, g) = within_parts n r w in
    (
      omega (arith, l, -ℤ_parts target n.lft, +ℤ_parts r.lft (target -ℤ n.lft)),
      omega (
        arith,
        g,
        -ℤ_parts target n.lft,
        +ℤ_parts r.rght (target -ℤ n.lft),
        -ℤ_parts n.rght n.lft,
        +ℤ_parts (n.rght -ℤ n.lft) (pos 1),
        +ℤ_parts target (n.rght -ℤ n.lft +ℤ pos 1),
      ),
    )
  where
    within_parts :
        (m s : TreeRow) → is_within m.lft m.rght s ≡ true → (m.lft ≤ℤ s.lft) × (s.rght ≤ℤ m.rght)
    within_parts m s h = ground (arith, h)

block_order : (n : TreeRow) (target : ℤ) → n.lft <ℤ n.rght → target <ℤ target +ℤ width n
unfolding subtree_width
block_order n target o = omega (
  arith,
  -ℤ_parts n.rght n.lft,
  +ℤ_parts (n.rght -ℤ n.lft) (pos 1),
  +ℤ_parts target (n.rght -ℤ n.lft +ℤ pos 1),
)

block_pair :
    (n a b : TreeRow) (target deeper : ℤ)
    → n.lft <ℤ n.rght
    → b.lft <ℤ b.rght
    → is_within n.lft n.rght a ≡ true
    → Outside n b.lft × Outside n b.rght
    → Nested
        (record a {
          lft = a.lft +ℤ (target -ℤ n.lft);
          rght = a.rght +ℤ (target -ℤ n.lft);
          depth = a.depth +ℤ deeper;
        })
        (raised target (width n) (lowered n.rght (width n) b))
block_pair n a b target deeper o ob wa (l, g) =
    let (t, e) = in_block n a target wa in
    block-Nested target (target +ℤ width n)
      (record a {
        lft = a.lft +ℤ (target -ℤ n.lft);
        rght = a.rght +ℤ (target -ℤ n.lft);
        depth = a.depth +ℤ deeper;
      })
      (raised target (width n) (lowered n.rght (width n) b)) t e (block_order n target o)
      (up_mono target (width n) (down n.rght (width n) b.lft) (down n.rght (width n) b.rght)
        (width_low n o) (down_mono n.lft n.rght b.lft b.rght o l g ob))
      (landing n target b.lft o l) (landing n target b.rght o g)

slid-Nested :
    (a b : TreeRow) (d da db : ℤ)
    → Nested a b
    → Nested
        (record a { lft = a.lft +ℤ d; rght = a.rght +ℤ d; depth = da })
        (record b { lft = b.lft +ℤ d; rght = b.rght +ℤ d; depth = db })
slid-Nested a b d da db (inl e) = inl (slid_mono d a.rght b.lft e)
slid-Nested a b d da db (inr (inl e)) = inr (inl (slid_mono d b.rght a.lft e))
slid-Nested a b d da db (inr (inr (inl (e, f)))) =
    inr (inr (inl (slid_mono d b.lft a.lft e, slid_mono d a.rght b.rght f)))
slid-Nested a b d da db (inr (inr (inr (e, f)))) =
    inr (inr (inr (slid_mono d a.lft b.lft e, slid_mono d b.rght a.rght f)))

relocated-Nested :
    (n a b : TreeRow) (target deeper : ℤ)
    → n.lft <ℤ n.rght
    → a.lft <ℤ a.rght
    → b.lft <ℤ b.rght
    → Related n a
    → Related n b
    → Nested a b
    → Nested (relocated n target deeper a) (relocated n target deeper b)
relocated-Nested n a b target deeper o oa ob ra rb h =
    elim (Bool-cases (is_within n.lft n.rght a)) [
      | inl wa ↦ elim (Bool-cases (is_within n.lft n.rght b)) [
        | inl wb ↦
            rw (wa, wb)
              (slid-Nested a b (target -ℤ n.lft) (a.depth +ℤ deeper) (b.depth +ℤ deeper) h)
        | inr wb ↦ rw (wa, wb) (block_pair n a b target deeper o ob wa (survivor n b ob wb rb))
      ]
      | inr wa ↦ elim (Bool-cases (is_within n.lft n.rght b)) [
        | inl wb ↦
            rw (wa, wb)
              (swap-Nested
                (record b {
                  lft = b.lft +ℤ (target -ℤ n.lft);
                  rght = b.rght +ℤ (target -ℤ n.lft);
                  depth = b.depth +ℤ deeper;
                })
                (raised target (width n) (lowered n.rght (width n) a))
                (block_pair n b a target deeper o oa wb (survivor n a oa wa ra)))
        | inr wb ↦
            rw (wa, wb)
              (raised-Nested target (width n) (lowered n.rght (width n) a)
                (lowered n.rght (width n) b) (width_low n o)
                (lowered-Nested n a b o (survivor n a oa wa ra) (survivor n b ob wb rb) h))
      ]
    ]

relocated-All :
    (n a : TreeRow) (target deeper : ℤ) (rs : List TreeRow)
    → n.lft <ℤ n.rght
    → a.lft <ℤ a.rght
    → Related n a
    → IsTree rs
    → All (Related n) rs
    → All (Nested a) rs
    → All (Nested (relocated n target deeper a)) (map (relocated n target deeper) rs)
relocated-All n a target deeper [] o oa ra t h ns = tt
relocated-All n a target deeper (r ∷ rs) o oa ra (low, order, ms, t) (h, hs) (m, ns) = (
  relocated-Nested n a r target deeper o oa order ra h m,
  relocated-All n a target deeper rs o oa ra t hs ns,
)

relocated_bounds :
    (n r : TreeRow) (target deeper : ℤ)
    → pos 0 <ℤ n.lft
    → n.lft <ℤ n.rght
    → pos 0 <ℤ target
    → pos 0 <ℤ r.lft
    → r.lft <ℤ r.rght
    → Related n r
    → (pos 0 <ℤ (relocated n target deeper r).lft)
      × ((relocated n target deeper r).lft <ℤ (relocated n target deeper r).rght)
relocated_bounds n r target deeper low order t l o h =
    elim (Bool-cases (is_within n.lft n.rght r)) [
      | inl w ↦
          let (b, c) = in_block n r target w in
          rw w (omega (arith, b, t), slid_mono (target -ℤ n.lft) r.lft r.rght o)
      | inr w ↦
          let (x, y) = survivor n r o w h in
          rw w (
            up_low target (width n) (down n.rght (width n) r.lft) (width_low n order)
                (lowered_low n.lft n.rght r.lft order low l),
            up_mono target (width n) (down n.rght (width n) r.lft) (down n.rght (width n) r.rght)
                (width_low n order) (down_mono n.lft n.rght r.lft r.rght order x y o),
          )
    ]

relocated-IsTree :
    (n : TreeRow) (target deeper : ℤ) (rs : List TreeRow)
    → pos 0 <ℤ n.lft
    → n.lft <ℤ n.rght
    → pos 0 <ℤ target
    → IsTree rs
    → All (Related n) rs
    → IsTree (map (relocated n target deeper) rs)
relocated-IsTree n target deeper [] low order t i h = tt
relocated-IsTree n target deeper (r ∷ rs) low order t (l, o, ns, i) (h, hs) =
    let bounds = relocated_bounds n r target deeper low order t l o h in
    (
      bounds.0,
      bounds.1,
      relocated-All n r target deeper rs order o h i hs ns,
      relocated-IsTree n target deeper rs low order t i hs,
    )

adopted_bounds :
    (n r : TreeRow) (p : Option ℕ) → ((adopted n p r).lft ≡ r.lft) × ((adopted n p r).rght ≡ r.rght)
adopted_bounds n r p = elim (Bool-cases (r.pk == n.pk)) [
  | inl h ↦ rw h (refl, refl)
  | inr h ↦ rw h (refl, refl)
]

adopted-All :
    (n a : TreeRow) (p : Option ℕ) (rs : List TreeRow)
    → All (Nested a) rs
    → All (Nested (adopted n p a)) (map (adopted n p) rs)
adopted-All n a p [] h = tt
adopted-All n a p (r ∷ rs) (h, hs) =
    let (al, ag) = adopted_bounds n a p in
    let (rl, rg) = adopted_bounds n r p in (rw (al, ag, rl, rg) h, adopted-All n a p rs hs)

-- A new parent changes no bounds.
adopted-IsTree :
    (n : TreeRow) (p : Option ℕ) (rs : List TreeRow) → IsTree rs → IsTree (map (adopted n p) rs)
adopted-IsTree n p [] t = tt
adopted-IsTree n p (r ∷ rs) (l, o, ns, t) =
    let (rl, rg) = adopted_bounds n r p in
    (rw rl l, rw (rl, rg) o, adopted-All n r p rs ns, adopted-IsTree n p rs t)

-- `move_subtree` of a row of a nested set to any place from 1 on leaves a nested set.
pub move_subtree-IsTree :
    (node : TreeRow) (target : ℤ) (parent : Option ℕ) (new_depth : ℤ) (before after : List TreeRow)
    → IsTree (before ++ node ∷ after)
    → pos 0 <ℤ target
    → IsTree (move_subtree node target parent new_depth (before ++ node ∷ after))
move_subtree-IsTree node target parent new_depth before after i t =
    let rs = before ++ node ∷ after in
    let deeper = new_depth -ℤ node.depth in
    let (low, order) = IsTree-ordered node before after i in
    subst IsTree (sym (move_subtree_lem node target parent new_depth before after i t)) (
      adopted-IsTree node parent (map (relocated node target deeper) rs)
        (relocated-IsTree node target deeper rs low order t i (IsTree-Related node before after i)))
