-- ===== src/Query/Compile.antt =====
-- include/metal/query/sqlite_compiler.hpp: columns, scalars and expressions compile to SQL.
pub mod Ordered
pub mod Meaning
pub mod Args
pub mod Laws
pub mod Visible
pub mod Swapped
mod Tests
use metal_orm_cpp.Base.{
  ℕ, Bool, true, false, not, Option, none, some, List, [], ◌∷◌, ◌++◌, map, Text, codes, text_eq,
  Result, ok, err, ◌==◌, length, if◌then◌else◌, ◌&&◌,
}
use metal_orm_cpp.Value.{Value}
use metal_orm_cpp.Dialect.{Dialect, is_postgresql, offset_placeholders}
use metal_orm_cpp.Query.{
  QueryError, outside_scope, bad_function_name, wrong_arity, empty_case, CompiledQuery, Compiler,
  pure, fail, ◌>>=◌, bind, within, followed_by, separated, join_sql, compare_token, embed,
}
use metal_orm_cpp.Query.Nodes.{
  LogicOp, and, or, arithmetic_token, aggregate_token, ColumnRef, AggregateRef, WindowOrderRef,
  Subquery, ScalarNode, column_ref, literal, arithmetic, aggregate, function, case_of, window,
  Scalars, no_args, arg, Branches, no_else, else_value, when, ExprNode, comparison, null_check,
  like, between, in_values, in_subquery, exists, logical, not_expr,
}
use metal_orm_cpp.Query.Templates.{lit, Template, Rule, fill, join_from}
use metal_orm_cpp.Query.Functions.{function_template, is_function_identifier, upper_ascii}

-- `CompileContext` without `params`, which compiling passes on.
pub record CompileContext : Type 0 where
  pub dialect : Dialect
  pub aliases : List (ℕ × Text)

unfoldable pub alias_in : List (ℕ × Text) → ℕ → Result QueryError Text
alias_in [] owner = err outside_scope
alias_in ((o, alias) ∷ aliases) owner =
    let rest = alias_in aliases owner in if o == owner then ok alias else rest

unfoldable pub alias_for : CompileContext → ℕ → Result QueryError Text
unfolding alias_in
alias_for ctx owner = alias_in ctx.aliases owner

unfoldable pub qualified : Dialect → Text → Text → Text
qualified d [] column = d.quote_identifier column
qualified d (c ∷ cs) column =
    d.quote_identifier (c ∷ cs) ++ (codes "." ++ d.quote_identifier column)

unfoldable pub compile_column : CompileContext → ColumnRef → Result QueryError Text
unfolding alias_for qualified
compile_column ctx column = elim (alias_for ctx column.owner) [
  | ok alias ↦ ok (qualified ctx.dialect alias column.column)
  | err e ↦ err e
]

unfoldable pub counted : CompileContext → Option ColumnRef → Result QueryError Text
unfolding compile_column
counted ctx none = ok (codes "*")
counted ctx (some column) = compile_column ctx column

unfoldable pub compile_aggregate : CompileContext → AggregateRef → Result QueryError Text
unfolding counted aggregate_token
compile_aggregate ctx a = elim (counted ctx a.column) [
  | ok column ↦ ok (
      aggregate_token a.kind
      ++ (codes "(" ++ ((if a.distinct then codes "DISTINCT " else []) ++ (column ++ codes ")"))))
  | err e ↦ err e
]

unfoldable pub columns_sql : CompileContext → List ColumnRef → Result QueryError (List Text)
unfolding compile_column
columns_sql ctx [] = ok []
columns_sql ctx (c ∷ cs) = elim (compile_column ctx c) [
  | err e ↦ err e
  | ok t ↦ elim (columns_sql ctx cs) [ err e ↦ err e | ok ts ↦ ok (t ∷ ts) ]
]

unfoldable pub orders_sql : CompileContext → List WindowOrderRef → Result QueryError (List Text)
unfolding compile_column
orders_sql ctx [] = ok []
orders_sql ctx (o ∷ os) = elim (compile_column ctx o.column) [
  | err e ↦ err e
  | ok t ↦ elim (orders_sql ctx os) [
    | err e ↦ err e
    | ok ts ↦ ok ((t ++ (if o.ascending then codes " ASC" else codes " DESC")) ∷ ts)
  ]
]

unfoldable pub part_of : Text → List Text → Text
unfolding join_sql
part_of word [] = []
part_of word (t ∷ ts) = word ++ join_sql (t ∷ ts) (codes ", ")

unfoldable pub gap : List Text → List Text → Text
gap (t ∷ ts) (u ∷ us) = codes " "
gap ts us = []

-- What `compile_window` writes behind the arguments.
unfoldable pub over : CompileContext → List ColumnRef → List WindowOrderRef → Result QueryError Text
unfolding columns_sql orders_sql part_of gap
over ctx partition order = elim (columns_sql ctx partition) [
  | err e ↦ err e
  | ok ts ↦ elim (orders_sql ctx order) [
    | err e ↦ err e
    | ok us ↦ ok (
        codes ") OVER ("
        ++ (part_of (codes "PARTITION BY ") ts
            ++ (gap ts us ++ (part_of (codes "ORDER BY ") us ++ codes ")"))))
  ]
]

unfoldable pub window_rule : CompileContext → Text → List ColumnRef → List WindowOrderRef → Rule
unfolding over join_from
window_rule ctx name partition order n = elim (over ctx partition order) [
  | err e ↦ err e
  | ok t ↦ ok (lit (name ++ codes "(") ∷ (join_from (codes ", ") 0 n ++ lit t ∷ []))
]

-- A result of code that leaves `params` alone.
unfoldable pub lift : Result QueryError Text → Compiler Text
lift (ok t) params = ok (t, params)
lift (err e) params = err e

unfoldable pub fill_with : Result QueryError Template → List Text → Compiler Text
unfolding fill
fill_with (ok template) args = pure (fill template args)
fill_with (err e) args = fail e

unfoldable pub filled : Rule → List Text → Compiler Text
unfolding fill_with
filled rule args = fill_with (rule (length args)) args

-- TRUNCATE on SQLite compiles its arguments itself.
unfoldable pub is_truncate : Dialect → Text → Bool
unfolding is_postgresql upper_ascii
is_truncate d name = not (is_postgresql d.family) && text_eq (upper_ascii name) (codes "TRUNCATE")

unfoldable pub embed_subquery : Dialect → Subquery → Compiler Text
unfolding embed
embed_subquery d q params = embed (q (offset_placeholders d (length params))) params

unfoldable pub between_word : Bool → Text
between_word negated = if negated then codes " NOT BETWEEN " else codes " BETWEEN "

unfoldable pub in_word : Bool → Text
in_word negated = if negated then codes " NOT IN (" else codes " IN ("

unfoldable pub logic_word : LogicOp → Text
logic_word and = codes " AND "
logic_word or = codes " OR "

unfoldable mutual
  unfolding bind lift filled is_truncate function_template window_rule compile_column
      compile_aggregate followed_by within separated embed_subquery between_word in_word logic_word
      is_function_identifier

  pub compile_scalar : CompileContext → ScalarNode → Compiler Text
  compile_scalar ctx (column_ref c) = lift (compile_column ctx c)
  compile_scalar ctx (literal v) = bind ctx.dialect v
  compile_scalar ctx (arithmetic left op right) =
      within (codes "(")
        (followed_by (compile_scalar ctx left)
          (within (codes " " ++ (arithmetic_token op ++ codes " ")) (compile_scalar ctx right) []))
        (codes ")")
  compile_scalar ctx (aggregate a) = lift (compile_aggregate ctx a)
  compile_scalar ctx (function name args) = elim (is_function_identifier name) [
    | false ↦ fail bad_function_name
    | true ↦ elim (is_truncate ctx.dialect name) [
      | true ↦ compile_truncate ctx args
      | false ↦
          compile_args ctx args >>= λ ts. filled (function_template ctx.dialect.family name) ts
    ]
  ]
  compile_scalar ctx (case_of no_else) = fail empty_case
  compile_scalar ctx (case_of (else_value s)) = fail empty_case
  compile_scalar ctx (case_of (when e s bs)) =
      within (codes "CASE") (compile_branches ctx (when e s bs)) (codes " END")
  compile_scalar ctx (window name args partition order) = elim (is_function_identifier name) [
    | false ↦ fail bad_function_name
    | true ↦ compile_args ctx args >>= λ ts. filled (window_rule ctx name partition order) ts
  ]

  pub compile_args : CompileContext → Scalars → Compiler (List Text)
  compile_args ctx no_args = pure []
  compile_args ctx (arg a rest) =
      compile_scalar ctx a >>= λ t. compile_args ctx rest >>= λ ts. pure (t ∷ ts)

  pub compile_truncate : CompileContext → Scalars → Compiler Text
  compile_truncate ctx no_args = fail wrong_arity
  compile_truncate ctx (arg a no_args) = fail wrong_arity
  compile_truncate ctx (arg a (arg b no_args)) =
      within (codes "(CAST((")
        (followed_by (compile_scalar ctx a) (
          followed_by (within (codes ") * pow(10.0, ") (compile_scalar ctx b) [])
            (within (codes ") AS INTEGER) / pow(10.0, ") (compile_scalar ctx b) [])))
        (codes "))")
  compile_truncate ctx (arg a (arg b (arg c rest))) = fail wrong_arity

  pub compile_branches : CompileContext → Branches → Compiler Text
  compile_branches ctx no_else = pure []
  compile_branches ctx (else_value s) = within (codes " ELSE ") (compile_scalar ctx s) []
  compile_branches ctx (when e s bs) =
      followed_by (within (codes " WHEN ") (compile_expression ctx e) [])
        (followed_by (within (codes " THEN ") (compile_scalar ctx s) []) (compile_branches ctx bs))

  pub compile_expression : CompileContext → ExprNode → Compiler Text
  compile_expression ctx (comparison left op right) =
      followed_by (compile_scalar ctx left)
        (within (codes " " ++ (compare_token op ++ codes " ")) (compile_scalar ctx right) [])
  compile_expression ctx (null_check s negated) =
      within [] (compile_scalar ctx s) (if negated then codes " IS NOT NULL" else codes " IS NULL")
  compile_expression ctx (like s shape negated) = followed_by (compile_scalar ctx s) (
      within (if negated then codes " NOT LIKE " else codes " LIKE ") (compile_scalar ctx shape) [])
  compile_expression ctx (between s lower upper negated) = followed_by (compile_scalar ctx s) (
      followed_by (within (between_word negated) (compile_scalar ctx lower) [])
        (within (codes " AND ") (compile_scalar ctx upper) []))
  compile_expression ctx (in_values s [] negated) =
      pure (if negated then codes "1 = 1" else codes "0 = 1")
  compile_expression ctx (in_values s (v ∷ vs) negated) =
      followed_by (compile_scalar ctx s)
        (within (in_word negated) (separated (codes ", ") (bind ctx.dialect) (v ∷ vs)) (codes ")"))
  compile_expression ctx (in_subquery s q negated) =
      followed_by (compile_scalar ctx s)
        (within (in_word negated) (embed_subquery ctx.dialect q) (codes ")"))
  compile_expression ctx (exists q negated) =
      within (if negated then codes "NOT EXISTS (" else codes "EXISTS (")
        (embed_subquery ctx.dialect q) (codes ")")
  compile_expression ctx (logical op left right) =
      within (codes "(")
        (followed_by (compile_expression ctx left)
          (within (logic_word op) (compile_expression ctx right) []))
        (codes ")")
  compile_expression ctx (not_expr e) =
      within (codes "NOT (") (compile_expression ctx e) (codes ")")
