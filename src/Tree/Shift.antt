-- ===== src/Tree/Shift.antt =====
-- include/metal/tree.hpp: opening and closing a gap keeps the table a nested set, and `insert_as_child`
-- and `delete_subtree` with it.
use metal_orm_cpp.Base.{
  ℕ, ◌≡◌, refl, sym, ap, subst, inl, inr, ◌⊎◌, false, some, List, [], ◌∷◌, ◌++◌, map, if◌then◌else◌,
  Bool-cases, arith, All,
}
use metal_orm_cpp.Base.Int.{
  ℤ, pos, pos_part, neg_part, ◌+ℤ◌, ◌-ℤ◌, ◌<ℤ◌, ◌≤ℤ◌, ltb_ℤ, leb_ℤ, +ℤ_parts, -ℤ_parts,
}
use metal_orm_cpp.Tree.{
  TreeRow, subtree_width, is_within, is_descendant_of, update_where, delete_where, shift_for_insert,
  shift_for_delete, delete_subtree, insert_as_child,
}
use metal_orm_cpp.Tree.Order.{Nested, IsTree}

abbrev pub up : ℤ → ℤ → ℤ → ℤ
up point width x = if leb_ℤ point x then x +ℤ width else x

abbrev pub down : ℤ → ℤ → ℤ → ℤ
down point width x = if ltb_ℤ point x then x -ℤ width else x

abbrev pub raised : ℤ → ℤ → TreeRow → TreeRow
raised point width r = record r { lft = up point width r.lft; rght = up point width r.rght }

abbrev pub lowered : ℤ → ℤ → TreeRow → TreeRow
lowered point width r = record r { lft = down point width r.lft; rght = down point width r.rght }

pub up_mono : (p w x y : ℤ) → pos 0 ≤ℤ w → x <ℤ y → up p w x <ℤ up p w y
up_mono p w x y h l = ground (arith, +ℤ_parts x w, +ℤ_parts y w)

up_reflects : (p w x y : ℤ) → pos 0 ≤ℤ w → ltb_ℤ (up p w x) (up p w y) ≡ ltb_ℤ x y
up_reflects p w x y h = ground (arith, +ℤ_parts x w, +ℤ_parts y w)

-- Bounds outside the gap that closes keep their order.
pub down_mono :
    (l r x y : ℤ)
    → l <ℤ r
    → (x <ℤ l) ⊎ (r <ℤ x)
    → (y <ℤ l) ⊎ (r <ℤ y)
    → x <ℤ y
    → down r (subtree_width l r) x <ℤ down r (subtree_width l r) y
unfolding subtree_width
down_mono l r x y h a b c = ground (
  arith,
  -ℤ_parts r l,
  +ℤ_parts (r -ℤ l) (pos 1),
  -ℤ_parts x (r -ℤ l +ℤ pos 1),
  -ℤ_parts y (r -ℤ l +ℤ pos 1),
)

pub raised-Nested :
    (p w : ℤ) (a b : TreeRow) → pos 0 ≤ℤ w → Nested a b → Nested (raised p w a) (raised p w b)
raised-Nested p w a b h (inl e) = inl (up_mono p w a.rght b.lft h e)
raised-Nested p w a b h (inr (inl e)) = inr (inl (up_mono p w b.rght a.lft h e))
raised-Nested p w a b h (inr (inr (inl (e, f)))) =
    inr (inr (inl (up_mono p w b.lft a.lft h e, up_mono p w a.rght b.rght h f)))
raised-Nested p w a b h (inr (inr (inr (e, f)))) =
    inr (inr (inr (up_mono p w a.lft b.lft h e, up_mono p w b.rght a.rght h f)))

-- What `shift_for_insert` does to each row.
raised_lem :
    (p w : ℤ) (r : TreeRow)
    → (if leb_ℤ p (if leb_ℤ p r.rght then record r { rght = r.rght +ℤ w } else r).lft
        then record (if leb_ℤ p r.rght then record r { rght = r.rght +ℤ w } else r) {
          lft = (if leb_ℤ p r.rght then record r { rght = r.rght +ℤ w } else r).lft +ℤ w;
        }
        else (if leb_ℤ p r.rght then record r { rght = r.rght +ℤ w } else r))
      ≡ raised p w r
raised_lem p w r = elim (Bool-cases (leb_ℤ p r.rght)) [
  | inl h ↦ rw h (elim (Bool-cases (leb_ℤ p r.lft)) [ inl k ↦ rw k refl | inr k ↦ rw k refl ])
  | inr h ↦ rw h (elim (Bool-cases (leb_ℤ p r.lft)) [ inl k ↦ rw k refl | inr k ↦ rw k refl ])
]

pub shift_for_insert-map :
    (p w : ℤ) (rs : List TreeRow) → shift_for_insert p w rs ≡ map (raised p w) rs
unfolding shift_for_insert update_where
shift_for_insert-map p w [] = refl
shift_for_insert-map p w (r ∷ rs) = cc (raised_lem p w r, shift_for_insert-map p w rs)

lowered_lem :
    (p w : ℤ) (r : TreeRow)
    → (if ltb_ℤ p (if ltb_ℤ p r.lft then record r { lft = r.lft -ℤ w } else r).rght
        then record (if ltb_ℤ p r.lft then record r { lft = r.lft -ℤ w } else r) {
          rght = (if ltb_ℤ p r.lft then record r { lft = r.lft -ℤ w } else r).rght -ℤ w;
        }
        else (if ltb_ℤ p r.lft then record r { lft = r.lft -ℤ w } else r))
      ≡ lowered p w r
lowered_lem p w r = elim (Bool-cases (ltb_ℤ p r.lft)) [
  | inl h ↦ rw h (elim (Bool-cases (ltb_ℤ p r.rght)) [ inl k ↦ rw k refl | inr k ↦ rw k refl ])
  | inr h ↦ rw h (elim (Bool-cases (ltb_ℤ p r.rght)) [ inl k ↦ rw k refl | inr k ↦ rw k refl ])
]

pub shift_for_delete-map :
    (p w : ℤ) (rs : List TreeRow) → shift_for_delete p w rs ≡ map (lowered p w) rs
unfolding shift_for_delete update_where
shift_for_delete-map p w [] = refl
shift_for_delete-map p w (r ∷ rs) = cc (lowered_lem p w r, shift_for_delete-map p w rs)

raised-All :
    (p w : ℤ) (a : TreeRow) (rs : List TreeRow)
    → pos 0 ≤ℤ w
    → All (Nested a) rs
    → All (Nested (raised p w a)) (map (raised p w) rs)
raised-All p w a [] h n = tt
raised-All p w a (r ∷ rs) h (n, ns) = (raised-Nested p w a r h n, raised-All p w a rs h ns)

-- Opening a gap keeps a nested set.
raised-IsTree :
    (p w : ℤ) (rs : List TreeRow) → pos 0 ≤ℤ w → IsTree rs → IsTree (map (raised p w) rs)
raised-IsTree p w [] h t = tt
raised-IsTree p w (r ∷ rs) h (low, order, ns, t) = (
  ground (arith, low, +ℤ_parts r.lft w),
  up_mono p w r.lft r.rght h order,
  raised-All p w r rs h ns,
  raised-IsTree p w rs h t,
)

-- The node's own row, or one that is nested with it.
abbrev pub Related : TreeRow → TreeRow → Type 0
Related n r = ((r.lft ≡ n.lft) × (r.rght ≡ n.rght)) ⊎ Nested r n

pub swap-Nested : (a b : TreeRow) → Nested a b → Nested b a
swap-Nested a b (inl e) = inr (inl e)
swap-Nested a b (inr (inl e)) = inl e
swap-Nested a b (inr (inr (inl e))) = inr (inr (inr e))
swap-Nested a b (inr (inr (inr e))) = inr (inr (inl e))

pub All-middle :
    (a n : TreeRow) (before after : List TreeRow)
    → All (Nested a) (before ++ n ∷ after)
    → Nested a n
All-middle a n [] after (h, hs) = h
All-middle a n (b ∷ before) after (h, hs) = All-middle a n before after hs

All-Related : (n : TreeRow) (rs : List TreeRow) → All (Nested n) rs → All (Related n) rs
All-Related n [] h = tt
All-Related n (r ∷ rs) (h, hs) = (inr (swap-Nested n r h), All-Related n rs hs)

-- A row of a nested set is nested with all the others.
pub IsTree-Related :
    (n : TreeRow) (before after : List TreeRow)
    → IsTree (before ++ n ∷ after)
    → All (Related n) (before ++ n ∷ after)
IsTree-Related n [] after (low, order, ns, t) = (inl (refl, refl), All-Related n after ns)
IsTree-Related n (b ∷ before) after (low, order, ns, t) =
    (inr (All-middle b n before after ns), IsTree-Related n before after t)

pub IsTree-ordered :
    (n : TreeRow) (before after : List TreeRow)
    → IsTree (before ++ n ∷ after)
    → (pos 0 <ℤ n.lft) × (n.lft <ℤ n.rght)
IsTree-ordered n [] after (low, order, ns, t) = (low, order)
IsTree-ordered n (b ∷ before) after (low, order, ns, t) = IsTree-ordered n before after t

-- The new row is nested with every other.
raised-new :
    (n new r : TreeRow)
    → r.lft <ℤ r.rght
    → n.lft <ℤ n.rght
    → new.lft ≡ n.rght
    → new.rght ≡ n.rght +ℤ pos 1
    → Related n r
    → Nested (raised n.rght (pos 2) r) new
raised-new n new r order ordered el er (inl (e, f)) = inr (
    inr (
      inr (
        rw (el, e) (ground (arith, ordered, order)),
        rw (er, f) (ground (arith, +ℤ_parts n.rght (pos 1), +ℤ_parts n.rght (pos 2))),
      )))
raised-new n new r order ordered el er (inr (inl e)) =
    inl (rw el (ground (arith, e, order, ordered)))
raised-new n new r order ordered el er (inr (inr (inl e))) =
    inr (inl (rw er (ground (arith, e, +ℤ_parts n.rght (pos 1), +ℤ_parts r.lft (pos 2)))))
raised-new n new r order ordered el er (inr (inr (inr (inl (e, f))))) =
    inl (rw el (ground (arith, f)))
raised-new n new r order ordered el er (inr (inr (inr (inr (e, f))))) = inr (
    inr (
      inr (
        rw el (ground (arith, e, ordered)),
        rw er (ground (arith, f, +ℤ_parts n.rght (pos 1), +ℤ_parts r.rght (pos 2))),
      )))

raised-new_All :
    (n new : TreeRow) (rs : List TreeRow)
    → n.lft <ℤ n.rght
    → new.lft ≡ n.rght
    → new.rght ≡ n.rght +ℤ pos 1
    → IsTree rs
    → All (Related n) rs
    → All (λ r. Nested r new) (map (raised n.rght (pos 2)) rs)
raised-new_All n new [] ordered el er t h = tt
raised-new_All n new (r ∷ rs) ordered el er (low, order, ns, t) (h, hs) =
    (raised-new n new r order ordered el er h, raised-new_All n new rs ordered el er t hs)

All-append :
    (a new : TreeRow) (rs : List TreeRow)
    → All (Nested a) rs
    → Nested a new
    → All (Nested a) (rs ++ new ∷ [])
All-append a new [] h n = (n, tt)
All-append a new (r ∷ rs) (h, hs) n = (h, All-append a new rs hs n)

IsTree-append :
    (new : TreeRow) (rs : List TreeRow)
    → pos 0 <ℤ new.lft
    → new.lft <ℤ new.rght
    → IsTree rs
    → All (λ r. Nested r new) rs
    → IsTree (rs ++ new ∷ [])
IsTree-append new [] low order t h = (low, order, tt, tt)
IsTree-append new (r ∷ rs) l o (low, order, ns, t) (h, hs) =
    (low, order, All-append r new rs ns h, IsTree-append new rs l o t hs)

-- `insert_as_child` below any row of a nested set gives a nested set.
pub insert_as_child-IsTree :
    (new_pk : ℕ) (parent : TreeRow) (before after : List TreeRow)
    → IsTree (before ++ parent ∷ after)
    → IsTree (insert_as_child new_pk parent (before ++ parent ∷ after))
unfolding insert_as_child
insert_as_child-IsTree new_pk parent before after t =
    let rs = before ++ parent ∷ after in
    let new : TreeRow = record {
      pk = new_pk;
      parent_id = some parent.pk;
      lft = parent.rght;
      rght = parent.rght +ℤ pos 1;
      depth = parent.depth +ℤ pos 1;
    } in
    let (low, order) = IsTree-ordered parent before after t in
    subst (λ xs. IsTree (xs ++ new ∷ [])) (sym (shift_for_insert-map parent.rght (pos 2) rs))
      (IsTree-append new (map (raised parent.rght (pos 2)) rs) (ground (arith, low, order))
        (ground (arith, +ℤ_parts parent.rght (pos 1)))
        (raised-IsTree parent.rght (pos 2) rs (omega arith) t)
        (raised-new_All parent new rs order refl refl t (IsTree-Related parent before after t)))

-- For a width that is not negative, `shift_for_insert` maps the rows one by one, in any table and at
-- any point, and a row is a descendant of another after it just where it was before.
pub shift_for_insert-is_descendant_of :
    (point width : ℤ) (rs : List TreeRow) (a b : TreeRow)
    → pos 0 ≤ℤ width
    → (shift_for_insert point width rs ≡ map (raised point width) rs)
      × (is_descendant_of (raised point width a) (raised point width b) ≡ is_descendant_of a b)
shift_for_insert-is_descendant_of point width rs a b h = (
  shift_for_insert-map point width rs,
  cc (up_reflects point width b.lft a.lft h, up_reflects point width a.rght b.rght h),
)

-- Outside the bounds that a deletion frees.
abbrev pub Outside : TreeRow → ℤ → Type 0
Outside n x = (x <ℤ n.lft) ⊎ (n.rght <ℤ x)

pub survivor :
    (n r : TreeRow)
    → r.lft <ℤ r.rght
    → is_within n.lft n.rght r ≡ false
    → Related n r
    → Outside n r.lft × Outside n r.rght
survivor n r order w (inl (e, f)) =
    ground (arith, w, ap pos_part e, ap neg_part e, ap pos_part f, ap neg_part f)
survivor n r order w (inr (inl e)) = ground (arith, w, e, order)
survivor n r order w (inr (inr (inl e))) = (inr e, inr (ground (arith, e, order)))
survivor n r order w (inr (inr (inr (inl (e, f))))) = ground (arith, w, e, f)
survivor n r order w (inr (inr (inr (inr (e, f))))) = (inl e, inr f)

pub lowered-Nested :
    (n a b : TreeRow)
    → n.lft <ℤ n.rght
    → Outside n a.lft × Outside n a.rght
    → Outside n b.lft × Outside n b.rght
    → Nested a b
    → Nested
        (lowered n.rght (subtree_width n.lft n.rght) a)
        (lowered n.rght (subtree_width n.lft n.rght) b)
lowered-Nested n a b o (al, ar) (bl, br) (inl e) =
    inl (down_mono n.lft n.rght a.rght b.lft o ar bl e)
lowered-Nested n a b o (al, ar) (bl, br) (inr (inl e)) =
    inr (inl (down_mono n.lft n.rght b.rght a.lft o br al e))
lowered-Nested n a b o (al, ar) (bl, br) (inr (inr (inl (e, f)))) = inr (
    inr (
      inl (
        down_mono n.lft n.rght b.lft a.lft o bl al e,
        down_mono n.lft n.rght a.rght b.rght o ar br f,
      )))
lowered-Nested n a b o (al, ar) (bl, br) (inr (inr (inr (e, f)))) = inr (
    inr (
      inr (
        down_mono n.lft n.rght a.lft b.lft o al bl e,
        down_mono n.lft n.rght b.rght a.rght o br ar f,
      )))

delete-All :
    (n a : TreeRow) (rs : List TreeRow)
    → n.lft <ℤ n.rght
    → Outside n a.lft × Outside n a.rght
    → IsTree rs
    → All (Related n) rs
    → All (Nested a) rs
    → All (Nested (lowered n.rght (subtree_width n.lft n.rght) a)) (
        map
          (lowered n.rght (subtree_width n.lft n.rght))
          (delete_where (is_within n.lft n.rght) rs))
unfolding delete_where
delete-All n a [] o out t h ns = tt
delete-All n a (r ∷ rs) o out (low, order, ms, t) (h, hs) (m, ns) =
    elim (Bool-cases (is_within n.lft n.rght r)) [
      | inl w ↦ rw w (delete-All n a rs o out t hs ns)
      | inr w ↦
          rw w
            (lowered-Nested n a r o out (survivor n r order w h) m, delete-All n a rs o out t hs ns)
    ]

pub lowered_low :
    (l r x : ℤ) → l <ℤ r → pos 0 <ℤ l → pos 0 <ℤ x → pos 0 <ℤ down r (subtree_width l r) x
unfolding subtree_width
lowered_low l r x o h k =
    ground (arith, -ℤ_parts r l, +ℤ_parts (r -ℤ l) (pos 1), -ℤ_parts x (r -ℤ l +ℤ pos 1))

delete-IsTree :
    (n : TreeRow) (rs : List TreeRow)
    → pos 0 <ℤ n.lft
    → n.lft <ℤ n.rght
    → IsTree rs
    → All (Related n) rs
    → IsTree (
        map
          (lowered n.rght (subtree_width n.lft n.rght))
          (delete_where (is_within n.lft n.rght) rs))
unfolding delete_where
delete-IsTree n [] l o t h = tt
delete-IsTree n (r ∷ rs) l o (low, order, ns, t) (h, hs) =
    elim (Bool-cases (is_within n.lft n.rght r)) [
      | inl w ↦ rw w (delete-IsTree n rs l o t hs)
      | inr w ↦
          let out = survivor n r order w h in
          rw w (
            lowered_low n.lft n.rght r.lft o l low,
            down_mono n.lft n.rght r.lft r.rght o (fst_out n r out) (snd_out n r out) order,
            delete-All n r rs o out t hs ns,
            delete-IsTree n rs l o t hs,
          )
    ]
  where
    fst_out :
        (m s : TreeRow) → Outside m s.lft × Outside m s.rght → (s.lft <ℤ m.lft) ⊎ (m.rght <ℤ s.lft)
    fst_out m s p = p.0

    snd_out :
        (m s : TreeRow)
        → Outside m s.lft × Outside m s.rght
        → (s.rght <ℤ m.lft) ⊎ (m.rght <ℤ s.rght)
    snd_out m s p = p.1

-- `delete_subtree` of any row of a nested set gives a nested set.
pub delete_subtree-IsTree :
    (node : TreeRow) (before after : List TreeRow)
    → IsTree (before ++ node ∷ after)
    → IsTree (delete_subtree node.lft node.rght (before ++ node ∷ after))
unfolding delete_subtree
delete_subtree-IsTree node before after t =
    let rs = before ++ node ∷ after in
    let (low, order) = IsTree-ordered node before after t in
    subst IsTree
      (sym (
        shift_for_delete-map node.rght (subtree_width node.lft node.rght)
          (delete_where (is_within node.lft node.rght) rs)))
      (delete-IsTree node rs low order t (IsTree-Related node before after t))
