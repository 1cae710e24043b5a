-- ===== src/Tree/Largest.antt =====
-- include/metal/tree.hpp: `max_rght` and `get_node` find a row of the table.
use metal_orm_cpp.Base.{
  ℕ, ◌≡◌, ◌≢◌, refl, sym, ◌∙◌, subst, inl, inr, ◌⊎◌, none, some, List, [], ◌∷◌, ◌++◌, Bool-cases,
  arith, ◌==◌, All,
}
use metal_orm_cpp.Base.Int.{ℤ, pos, ◌<ℤ◌, ◌≤ℤ◌, ltb_ℤ}
use metal_orm_cpp.Tree.{TreeRow, get_node, larger, max_of, max_rght}
use metal_orm_cpp.Tree.Order.{IsTree}

-- The row is one of the table's.
abbrev pub Holds : TreeRow → List TreeRow → Type 0
Holds p [] = ⊥
Holds p (r ∷ rs) = (r ≡ p) ⊎ Holds p rs

-- The greatest right bound of the table.
abbrev pub IsLargest : ℤ → List TreeRow → Type 0
IsLargest m rs = All (λ r. r.rght ≤ℤ m) rs × ((r : TreeRow) × Holds r rs × (r.rght ≡ m))

larger_cases : (a b : ℤ) → ((larger a b ≡ a) × (b ≤ℤ a)) ⊎ ((larger a b ≡ b) × (a ≤ℤ b))
unfolding larger
larger_cases a b = elim (Bool-cases (ltb_ℤ a b)) [
  | inl h ↦ inr (rw h refl, ground (arith, h))
  | inr h ↦ inl (rw h refl, ground (arith, h))
]

max_of_ge : (m : ℤ) (rs : List TreeRow) → m ≤ℤ max_of m rs
unfolding max_of larger
max_of_ge m [] = omega arith
max_of_ge m (r ∷ rs) = ground (arith, max_of_ge (larger m r.rght) rs)

max_of-All : (m : ℤ) (rs : List TreeRow) → All (λ r. r.rght ≤ℤ max_of m rs) rs
unfolding max_of larger
max_of-All m [] = tt
max_of-All m (r ∷ rs) =
    (ground (arith, max_of_ge (larger m r.rght) rs), max_of-All (larger m r.rght) rs)

max_of_attained :
    (m : ℤ) (rs : List TreeRow)
    → (max_of m rs ≡ m) ⊎ ((r : TreeRow) × Holds r rs × (r.rght ≡ max_of m rs))
unfolding max_of
max_of_attained m [] = inl refl
max_of_attained m (r ∷ rs) = elim (max_of_attained (larger m r.rght) rs) [
  | inr (q, h, e) ↦ inr (q, inr h, e)
  | inl e ↦ elim (larger_cases m r.rght) [
    | inl (k, l) ↦ inl (e ∙ k)
    | inr (k, l) ↦ inr (r, inl refl, sym (e ∙ k))
  ]
]

max_rght-IsLargest : (r : TreeRow) (rs : List TreeRow) → IsLargest (max_rght (r ∷ rs)) (r ∷ rs)
unfolding max_rght
max_rght-IsLargest r rs = (
  (max_of_ge r.rght rs, max_of-All r.rght rs),
  elim (max_of_attained r.rght rs) [ inl e ↦ (r, inl refl, sym e) | inr (q, h, e) ↦ (q, inr h, e) ],
)

pub max_rght-IsLargest_middle :
    (n : TreeRow) (before after : List TreeRow)
    → IsLargest (max_rght (before ++ n ∷ after)) (before ++ n ∷ after)
max_rght-IsLargest_middle n [] after = max_rght-IsLargest n after
max_rght-IsLargest_middle n (b ∷ before) after = max_rght-IsLargest b (before ++ n ∷ after)

pub All-middle :
    (P : TreeRow → Type 0) (n : TreeRow) (before after : List TreeRow)
    → All P (before ++ n ∷ after)
    → P n
All-middle P n [] after h = h.0
All-middle P n (b ∷ before) after h = All-middle P n before after h.1

pub All-Holds :
    (P : TreeRow → Type 0) (p : TreeRow) (rs : List TreeRow) → All P rs → Holds p rs → P p
All-Holds P p [] h k = elim k [ ]
All-Holds P p (r ∷ rs) (h, hs) (inl e) = subst P e h
All-Holds P p (r ∷ rs) (h, hs) (inr k) = All-Holds P p rs hs k

pub max_rght-All :
    (n : TreeRow) (before after : List TreeRow)
    → All (λ r. r.rght ≤ℤ max_rght (before ++ n ∷ after)) (before ++ n ∷ after)
max_rght-All n before after = (max_rght-IsLargest_middle n before after).0

pub max_rght-middle :
    (n : TreeRow) (before after : List TreeRow) → n.rght ≤ℤ max_rght (before ++ n ∷ after)
max_rght-middle n before after =
    All-middle (λ r. r.rght ≤ℤ max_rght (before ++ n ∷ after)) n before after
      (max_rght-All n before after)

pub IsTree-bounds :
    (rs : List TreeRow) → IsTree rs → All (λ r. (pos 0 <ℤ r.lft) × (r.lft <ℤ r.rght)) rs
IsTree-bounds [] t = tt
IsTree-bounds (r ∷ rs) (l, o, ns, t) = ((l, o), IsTree-bounds rs t)

-- `get_node` finds a row with the key, where there is one.
pub get_node_lem :
    (id : ℕ) (rs : List TreeRow)
    → (All (λ r. r.pk ≢ id) rs × (get_node id rs ≡ none))
      ⊎ ((p : TreeRow) × Holds p rs × (p.pk ≡ id) × (get_node id rs ≡ some p))
unfolding get_node
get_node_lem id [] = inl (tt, refl)
get_node_lem id (r ∷ rs) = elim (Bool-cases (r.pk == id)) [
  | inl h ↦ inr (r, inl refl, ground (arith, h), rw h refl)
  | inr h ↦ elim (get_node_lem id rs) [
    | inl (a, e) ↦ inl ((λ q. ground (arith, h, q), a), rw h e)
    | inr (p, k, q, e) ↦ inr (p, inr k, q, rw h e)
  ]
]
