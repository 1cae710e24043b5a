-- ===== src/Cache/Codec/Fields.antt =====
-- The fields of a row in the order in which `encode_query_result` writes them.
use mathlib.Core.List.{Perm}
use mathlib.Core.List.Perm
use metal_orm_cpp.Base.{
  suc, ◌≡◌, refl, ap, ◌∙◌, inl, inr, true, false, [], ◌∷◌, ◌++◌, Text, length, All, arith, text_eq,
  text_eq_iff, text_lt, if◌then◌else◌, Bool-cases,
}
use metal_orm_cpp.Value.{Value, Row}
use metal_orm_cpp.Cache.Codec.{insert_field, sort_fields, has_name}

-- The names of a row, a map, are distinct.
abbrev pub Distinct : Row → Type 0
Distinct [] = Unit
Distinct ((name, v) ∷ row) = (has_name name row ≡ false) × Distinct row

insert_field-perm : (f : Text × Value) (row : Row) → Perm (f ∷ row) (insert_field f row)
unfolding insert_field
insert_field-perm f [] = Perm.refl (f ∷ [])
insert_field-perm f (g ∷ row) = elim (Bool-cases (text_lt g.0 f.0)) [
  | inl e ↦ rw e (Perm.trans (Perm.swap g f row) (Perm.cons g (insert_field-perm f row)))
  | inr e ↦ rw e (Perm.refl (f ∷ g ∷ row))
]

pub sort_fields-perm : (row : Row) → Perm row (sort_fields row)
unfolding sort_fields
sort_fields-perm [] = Perm.nil
sort_fields-perm (f ∷ row) =
    Perm.trans (Perm.cons f (sort_fields-perm row)) (insert_field-perm f (sort_fields row))

length-insert_field :
    (f : Text × Value) (row : Row) → length (insert_field f row) ≡ suc (length row)
unfolding insert_field
length-insert_field f [] = refl
length-insert_field f (g ∷ row) = ground (arith, length-insert_field f row)

pub length-sort_fields : (row : Row) → length (sort_fields row) ≡ length row
unfolding sort_fields
length-sort_fields [] = refl
length-sort_fields (f ∷ row) =
    length-insert_field f (sort_fields row) ∙ ap suc (length-sort_fields row)

has_name-insert_field :
    (k name : Text) (v : Value) (row : Row)
    → has_name k (insert_field (name, v) row) ≡ (if text_eq name k then true else has_name k row)
unfolding insert_field has_name
has_name-insert_field k name v [] = refl
has_name-insert_field k name v ((n, w) ∷ row) = ground (arith, has_name-insert_field k name v row)

has_name-sort_fields : (k : Text) (row : Row) → has_name k (sort_fields row) ≡ has_name k row
unfolding sort_fields has_name
has_name-sort_fields k [] = refl
has_name-sort_fields k ((n, v) ∷ row) =
    ground (arith, has_name-insert_field k n v (sort_fields row), has_name-sort_fields k row)

text_eq-false_sym : (s t : Text) → text_eq s t ≡ false → text_eq t s ≡ false
text_eq-false_sym s t h = ground (arith, text_eq_iff s t, text_eq_iff t s)

insert_field-Distinct :
    (name : Text) (v : Value) (row : Row)
    → has_name name row ≡ false
    → Distinct row
    → Distinct (insert_field (name, v) row)
unfolding insert_field has_name
insert_field-Distinct name v [] h d = (refl, tt)
insert_field-Distinct name v ((n, w) ∷ row) h d = ground (
  arith,
  has_name-insert_field n name v row,
  text_eq-false_sym n name,
  insert_field-Distinct name v row,
)

pub sort_fields-Distinct : (row : Row) → Distinct row → Distinct (sort_fields row)
unfolding sort_fields
sort_fields-Distinct [] d = tt
sort_fields-Distinct ((n, v) ∷ row) d =
    insert_field-Distinct n v (sort_fields row) (has_name-sort_fields n row ∙ d.0)
      (sort_fields-Distinct row d.1)

pub sort_fields-All : (P : Text × Value → Type 0) (row : Row) → All P row → All P (sort_fields row)
unfolding sort_fields
sort_fields-All P [] h = tt
sort_fields-All P (f ∷ row) h = insert_all f (sort_fields row) h.0 (sort_fields-All P row h.1)
  where
    insert_all : (f : Text × Value) (row : Row) → P f → All P row → All P (insert_field f row)
    insert_all f [] p h = (p, tt)
    insert_all f (g ∷ row) p h = elim (Bool-cases (text_lt g.0 f.0)) [
      | inl e ↦ rw e (h.0, insert_all f row p h.1)
      | inr e ↦ rw e (p, h)
    ]

has_name-middle :
    (k n : Text) (v : Value) (acc rest : Row)
    → has_name k (acc ++ (n, v) ∷ rest) ≡ false
    → text_eq n k ≡ false
unfolding has_name
has_name-middle k n v [] rest h = ground arith
has_name-middle k n v ((m, w) ∷ acc) rest h = ground (arith, has_name-middle k n v acc rest)

-- What `emplace` finds: the name is not among the fields that are there already.
pub fresh_name :
    (acc : Row) (n : Text) (v : Value) (rest : Row)
    → Distinct (acc ++ (n, v) ∷ rest)
    → has_name n acc ≡ false
unfolding has_name
fresh_name [] n v rest d = refl
fresh_name ((m, w) ∷ acc) n v rest d =
    ground (
      arith,
      text_eq-false_sym n m (has_name-middle m n v acc rest d.0),
      fresh_name acc n v rest d.1,
    )
