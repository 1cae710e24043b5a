-- ===== src/Query/Revalued.antt =====
-- Statements whose bound values are exchanged.
use metal_orm_cpp.Base.{
  ℕ, suc, ◌≡◌, refl, ap, ◌∙◌, List, [], ◌∷◌, ◌++◌, map, Text, Result, ok, err, All,
}
use metal_orm_cpp.Value.{Value}
use metal_orm_cpp.Dialect.{Dialect}
use metal_orm_cpp.Query.{QueryError, CompiledQuery}
use metal_orm_cpp.Query.Pieces.{
  Piece, sql, bound, text_of, values_of, Pieces, statement, ◌then◌, fixed, enclosed,
  separated_pieces,
}

-- The same SQL, with `f` applied to the parameters; an error stays the error.
unfoldable pub revalued :
    (Value → Value) → Result QueryError CompiledQuery → Result QueryError CompiledQuery
revalued f (ok q) = ok (record q { params = map f q.params })
revalued f (err e) = err e

unfoldable pub revalue_all : (Value → Value) → List Piece → List Piece
revalue_all f [] = []
revalue_all f (sql t ∷ ps) = sql t ∷ revalue_all f ps
revalue_all f (bound v ∷ ps) = bound (f v) ∷ revalue_all f ps

unfoldable pub revalue : (Value → Value) → Pieces → Pieces
unfolding revalue_all
revalue f (ok ps) = ok (revalue_all f ps)
revalue f (err e) = err e

text_of-revalue_all :
    (d : Dialect) (f : Value → Value) (n : ℕ) (ps : List Piece)
    → text_of d n (revalue_all f ps) ≡ text_of d n ps
unfolding text_of revalue_all
text_of-revalue_all d f n [] = refl
text_of-revalue_all d f n (sql t ∷ ps) = ap (◌++◌ t) (text_of-revalue_all d f n ps)
text_of-revalue_all d f n (bound v ∷ ps) =
    ap (◌++◌ (d.placeholder (suc n))) (text_of-revalue_all d f (suc n) ps)

values_of-revalue_all :
    (f : Value → Value) (ps : List Piece) → values_of (revalue_all f ps) ≡ map f (values_of ps)
unfolding values_of revalue_all
values_of-revalue_all f [] = refl
values_of-revalue_all f (sql t ∷ ps) = values_of-revalue_all f ps
values_of-revalue_all f (bound v ∷ ps) = ap (◌∷◌ (f v)) (values_of-revalue_all f ps)

query_path :
    {s t : Text} {vs ws : List Value}
    → s ≡ t
    → vs ≡ ws
    → ◌≡◌ {A = Result QueryError CompiledQuery}
        (ok (record { sql = s; params = vs }))
        (ok (record { sql = t; params = ws }))
query_path e h = cc

pub statement-revalue :
    (d : Dialect) (f : Value → Value) (r : Pieces)
    → statement d (revalue f r) ≡ revalued f (statement d r)
unfolding statement revalue revalued
statement-revalue d f (ok ps) =
    query_path (text_of-revalue_all d f 0 ps) (values_of-revalue_all f ps)
statement-revalue d f (err e) = refl

revalue_all-append :
    (f : Value → Value) (ps qs : List Piece)
    → revalue_all f (ps ++ qs) ≡ revalue_all f ps ++ revalue_all f qs
unfolding revalue_all
revalue_all-append f [] qs = refl
revalue_all-append f (sql t ∷ ps) qs = ap (◌∷◌ (sql t)) (revalue_all-append f ps qs)
revalue_all-append f (bound v ∷ ps) qs = ap (◌∷◌ (bound (f v))) (revalue_all-append f ps qs)

pub revalue-then :
    (f : Value → Value) (r s : Pieces) → revalue f (r then s) ≡ (revalue f r then revalue f s)
unfolding revalue ◌then◌
revalue-then f (ok ps) (ok qs) = ap ok (revalue_all-append f ps qs)
revalue-then f (ok ps) (err e) = refl
revalue-then f (err e) s = refl

pub revalue-enclosed :
    (f : Value → Value) (before behind : Text) (r : Pieces)
    → revalue f (enclosed before r behind) ≡ enclosed before (revalue f r) behind
unfolding enclosed revalue revalue_all
revalue-enclosed f before behind r =
    revalue-then f (fixed before) (r then fixed behind)
    ∙ ap (λ s. fixed before then s) (revalue-then f r (fixed behind))

-- A list of parts: `g` writes each, and `h` the exchanged ones.
pub revalue-separated_pieces :
    {A B : Type 0} (f : Value → Value) (separator : Text) (change : A → B) (g : A → Pieces)
    (h : B → Pieces) (xs : List A)
    → All (λ x. revalue f (g x) ≡ h (change x)) xs
    → revalue f (separated_pieces separator (map g xs))
      ≡ separated_pieces separator (map h (map change xs))
unfolding separated_pieces revalue revalue_all
revalue-separated_pieces f separator change g h [] k = refl
revalue-separated_pieces f separator change g h (x ∷ []) k = k.0
revalue-separated_pieces f separator change g h (x ∷ y ∷ ys) k =
    revalue-then f (g x) (fixed separator then separated_pieces separator (map g (y ∷ ys)))
    ∙ ap (λ r. r then revalue f (fixed separator then separated_pieces separator (map g (y ∷ ys))))
        k.0
    ∙ ap (λ r. h (change x) then r)
        (revalue-then f (fixed separator) (separated_pieces separator (map g (y ∷ ys)))
          ∙ ap (λ r. fixed separator then r)
              (revalue-separated_pieces f separator change g h (y ∷ ys) k.1))
