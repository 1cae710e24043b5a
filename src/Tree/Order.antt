-- ===== src/Tree/Order.antt =====
-- include/metal/tree.hpp: tables of nested sets, and the lemmas on UPDATE and DELETE.
use metal_orm_cpp.Base.{◌≡◌, refl, ap, ◌⊎◌, Bool, List, [], ◌∷◌, map, if◌then◌else◌, All}
use metal_orm_cpp.Base.Int.{pos, ◌<ℤ◌}
use metal_orm_cpp.Tree.{TreeRow, update_where}

-- An UPDATE is a map.
pub update_where-map :
    (test : TreeRow → Bool) (f : TreeRow → TreeRow) (rs : List TreeRow)
    → update_where test f rs ≡ map (λ r. if test r then f r else r) rs
unfolding update_where
update_where-map test f [] = refl
update_where-map test f (r ∷ rs) = ap (◌∷◌ (if test r then f r else r)) (update_where-map test f rs)

pub map-map :
    (g f : TreeRow → TreeRow) (rs : List TreeRow) → map g (map f rs) ≡ map (λ r. g (f r)) rs
map-map g f [] = refl
map-map g f (r ∷ rs) = ap (◌∷◌ (g (f r))) (map-map g f rs)

-- Two rows whose intervals are apart, or one of which is strictly inside the other.
abbrev pub Nested : TreeRow → TreeRow → Type 0
Nested a b =
    (a.rght <ℤ b.lft)
    ⊎ (b.rght <ℤ a.lft)
    ⊎ ((b.lft <ℤ a.lft) × (a.rght <ℤ b.rght))
    ⊎ ((a.lft <ℤ b.lft) × (b.rght <ℤ a.rght))

-- A nested set: every row has its bounds in order, the least of them positive, and any two rows are
-- nested.
abbrev pub IsTree : List TreeRow → Type 0
IsTree [] = Unit
IsTree (r ∷ rs) = (pos 0 <ℤ r.lft) × (r.lft <ℤ r.rght) × All (Nested r) rs × IsTree rs
