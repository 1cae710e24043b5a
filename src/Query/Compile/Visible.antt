-- ===== src/Query/Compile/Visible.antt =====
-- include/metal/query/sqlite_compiler.hpp: an expression never compiles to the empty text.
use metal_orm_cpp.Base.{
  ◌+◌, ◌≢◌, refl, sym, ◌∙◌, Bool, true, false, [], ◌∷◌, ◌++◌, Text, codes, map, if◌then◌else◌, ok,
  err, length,
}
use metal_orm_cpp.Dialect.{Dialect}
use metal_orm_cpp.Query.{compare_token}
use metal_orm_cpp.Query.Pieces.{
  sql, Pieces, fixed, ◌then◌, enclosed, separated_pieces, bound_value, text_of, values_of,
  text_of-append, IsVisible,
}
use metal_orm_cpp.Query.Nodes.{
  Subquery, ExprNode, comparison, null_check, like, between, in_values, in_subquery, exists,
  logical, not_expr, ScalarNode,
}
use metal_orm_cpp.Query.Compile.{CompileContext, between_word, in_word, logic_word}
use metal_orm_cpp.Query.Compile.Meaning.{scalar_pieces, expression_pieces}

front-IsVisible : (s t : Text) → s ≢ [] → s ++ t ≢ []
front-IsVisible [] t h = absurd (h refl)
front-IsVisible (c ∷ cs) t h = λ e. cc

back-IsVisible : (s t : Text) → t ≢ [] → s ++ t ≢ []
back-IsVisible [] t h = h
back-IsVisible (c ∷ cs) t h = λ e. cc

then-IsVisible : (d : Dialect) (r s : Pieces) → IsVisible d s → IsVisible d (r then s)
unfolding ◌then◌
then-IsVisible d (err e) s h = tt
then-IsVisible d (ok ps) (err e) h = tt
then-IsVisible d (ok ps) (ok qs) h = λ n e.
    back-IsVisible (text_of d n ps) (text_of d (n + length (values_of ps)) qs)
      (h (n + length (values_of ps))) (sym (text_of-append d n ps qs) ∙ e)

opened-IsVisible :
    (d : Dialect) (t : Text) (r : Pieces) (behind : Text)
    → t ≢ []
    → IsVisible d (enclosed t r behind)
unfolding enclosed ◌then◌ text_of
opened-IsVisible d t (err e) behind h = tt
opened-IsVisible d t (ok ps) behind h =
    λ n. front-IsVisible t (text_of d n (ps ++ sql behind ∷ [])) h

closed-IsVisible :
    (d : Dialect) (t : Text) (r : Pieces) (behind : Text)
    → behind ≢ []
    → IsVisible d (enclosed t r behind)
unfolding enclosed text_of
closed-IsVisible d t r behind h =
    then-IsVisible d (fixed t) (r then fixed behind)
      (then-IsVisible d r (fixed behind) (λ n. front-IsVisible behind [] h))

after_scalar-IsVisible :
    (ctx : CompileContext) (meaning : Subquery → Pieces) (s : ScalarNode) (t : Text) (r : Pieces)
    (behind : Text)
    → t ≢ []
    → IsVisible ctx.dialect (scalar_pieces ctx meaning s then enclosed t r behind)
after_scalar-IsVisible ctx meaning s t r behind h =
    then-IsVisible ctx.dialect (scalar_pieces ctx meaning s) (enclosed t r behind)
      (opened-IsVisible ctx.dialect t r behind h)

in-IsVisible :
    (ctx : CompileContext) (meaning : Subquery → Pieces) (s : ScalarNode) (negated : Bool)
    (r : Pieces)
    → IsVisible ctx.dialect
        (scalar_pieces ctx meaning s then enclosed (in_word negated) r (codes ")"))
unfolding in_word
in-IsVisible ctx meaning s true r =
    after_scalar-IsVisible ctx meaning s (codes " NOT IN (") r (codes ")") (λ e. cc)
in-IsVisible ctx meaning s false r =
    after_scalar-IsVisible ctx meaning s (codes " IN (") r (codes ")") (λ e. cc)

-- The pieces of every expression, where it has some, are a text with at least one character.
pub expression_pieces-IsVisible :
    (ctx : CompileContext) (meaning : Subquery → Pieces) (e : ExprNode)
    → IsVisible ctx.dialect (expression_pieces ctx meaning e)
unfolding expression_pieces between_word in_word logic_word text_of
expression_pieces-IsVisible ctx meaning (comparison left op right) =
    then-IsVisible ctx.dialect (scalar_pieces ctx meaning left)
      (enclosed (codes " " ++ (compare_token op ++ codes " ")) (scalar_pieces ctx meaning right) [])
      (opened-IsVisible ctx.dialect (codes " " ++ (compare_token op ++ codes " "))
        (scalar_pieces ctx meaning right) [] (λ e. cc))
expression_pieces-IsVisible ctx meaning (null_check s true) =
    closed-IsVisible ctx.dialect [] (scalar_pieces ctx meaning s) (codes " IS NOT NULL") (λ e. cc)
expression_pieces-IsVisible ctx meaning (null_check s false) =
    closed-IsVisible ctx.dialect [] (scalar_pieces ctx meaning s) (codes " IS NULL") (λ e. cc)
expression_pieces-IsVisible ctx meaning (like s shape true) =
    after_scalar-IsVisible ctx meaning s (codes " NOT LIKE ") (scalar_pieces ctx meaning shape) []
      (λ e. cc)
expression_pieces-IsVisible ctx meaning (like s shape false) =
    after_scalar-IsVisible ctx meaning s (codes " LIKE ") (scalar_pieces ctx meaning shape) []
      (λ e. cc)
expression_pieces-IsVisible ctx meaning (between s lower upper negated) =
    then-IsVisible ctx.dialect (scalar_pieces ctx meaning s)
      (enclosed (if negated then codes " NOT BETWEEN " else codes " BETWEEN ")
          (scalar_pieces ctx meaning lower) []
        then enclosed (codes " AND ") (scalar_pieces ctx meaning upper) [])
      (then-IsVisible ctx.dialect
        (enclosed (if negated then codes " NOT BETWEEN " else codes " BETWEEN ")
          (scalar_pieces ctx meaning lower) [])
        (enclosed (codes " AND ") (scalar_pieces ctx meaning upper) [])
        (opened-IsVisible ctx.dialect (codes " AND ") (scalar_pieces ctx meaning upper) []
          (λ e. cc)))
expression_pieces-IsVisible ctx meaning (in_values s [] true) = λ n e. cc
expression_pieces-IsVisible ctx meaning (in_values s [] false) = λ n e. cc
expression_pieces-IsVisible ctx meaning (in_values s (v ∷ vs) negated) =
    in-IsVisible ctx meaning s negated (separated_pieces (codes ", ") (map bound_value (v ∷ vs)))
expression_pieces-IsVisible ctx meaning (in_subquery s q negated) =
    in-IsVisible ctx meaning s negated (meaning q)
expression_pieces-IsVisible ctx meaning (exists q true) =
    opened-IsVisible ctx.dialect (codes "NOT EXISTS (") (meaning q) (codes ")") (λ e. cc)
expression_pieces-IsVisible ctx meaning (exists q false) =
    opened-IsVisible ctx.dialect (codes "EXISTS (") (meaning q) (codes ")") (λ e. cc)
expression_pieces-IsVisible ctx meaning (logical op left right) =
    opened-IsVisible ctx.dialect (codes "(")
      (expression_pieces ctx meaning left
        then enclosed (logic_word op) (expression_pieces ctx meaning right) [])
      (codes ")") (λ e. cc)
expression_pieces-IsVisible ctx meaning (not_expr e) =
    opened-IsVisible ctx.dialect (codes "NOT (") (expression_pieces ctx meaning e) (codes ")")
      (λ e. cc)
