-- ===== src/Query/Compile/Meaning.antt =====
-- include/metal/query/sqlite_compiler.hpp: what expressions compile to, as pieces without numbers.
use metal_orm_cpp.Base.{
  ℕ, true, false, List, [], ◌∷◌, ◌++◌, map, codes, Text, Result, ok, err, length, ◌≡◌,
  if◌then◌else◌,
}
use metal_orm_cpp.Dialect.{offset_placeholders}
use metal_orm_cpp.Query.{QueryError, bad_function_name, wrong_arity, empty_case, compare_token}
use metal_orm_cpp.Query.Pieces.{
  Piece, bound, Pieces, bound_value, fixed, ◌then◌, enclosed, separated_pieces, statement,
}
use metal_orm_cpp.Query.Nodes.{
  arithmetic_token, Subquery, ScalarNode, column_ref, literal, arithmetic, aggregate, function,
  case_of, window, Scalars, no_args, arg, Branches, no_else, else_value, when, ExprNode, comparison,
  null_check, like, between, in_values, in_subquery, exists, logical, not_expr,
}
use metal_orm_cpp.Query.Templates.{Rule}
use metal_orm_cpp.Query.Functions.{function_template, is_function_identifier}
use metal_orm_cpp.Query.Compile.{
  CompileContext, compile_column, compile_aggregate, window_rule, is_truncate, between_word,
  in_word, logic_word,
}
use metal_orm_cpp.Query.Compile.Ordered.{rule_pieces, IsInOrder}

abbrev pub Arguments : Type 0
Arguments = Result QueryError (List (List Piece))

unfoldable pub fixed_result : Result QueryError Text → Pieces
fixed_result (ok t) = fixed t
fixed_result (err e) = err e

unfoldable pub before : Pieces → Arguments → Arguments
before (err e) rs = err e
before (ok ps) (err e) = err e
before (ok ps) (ok pss) = ok (ps ∷ pss)

unfoldable pub applied : Rule → Arguments → Pieces
unfolding rule_pieces
applied rule (err e) = err e
applied rule (ok pss) = rule_pieces (rule (length pss)) pss

-- `meaning`: the pieces of each subquery.
unfoldable mutual
  unfolding fixed_result before applied enclosed separated_pieces ◌then◌

  pub scalar_pieces : CompileContext → (Subquery → Pieces) → ScalarNode → Pieces
  scalar_pieces ctx meaning (column_ref c) = fixed_result (compile_column ctx c)
  scalar_pieces ctx meaning (literal v) = ok (bound v ∷ [])
  scalar_pieces ctx meaning (arithmetic left op right) =
      enclosed (codes "(")
        (scalar_pieces ctx meaning left
          then enclosed (codes " " ++ (arithmetic_token op ++ codes " "))
              (scalar_pieces ctx meaning right) [])
        (codes ")")
  scalar_pieces ctx meaning (aggregate a) = fixed_result (compile_aggregate ctx a)
  scalar_pieces ctx meaning (function name args) = elim (is_function_identifier name) [
    | false ↦ err bad_function_name
    | true ↦ elim (is_truncate ctx.dialect name) [
      | true ↦ truncate_pieces ctx meaning args
      | false ↦ applied (function_template ctx.dialect.family name) (args_pieces ctx meaning args)
    ]
  ]
  scalar_pieces ctx meaning (case_of no_else) = err empty_case
  scalar_pieces ctx meaning (case_of (else_value s)) = err empty_case
  scalar_pieces ctx meaning (case_of (when e s bs)) =
      enclosed (codes "CASE") (branches_pieces ctx meaning (when e s bs)) (codes " END")
  scalar_pieces ctx meaning (window name args partition order) =
      elim (is_function_identifier name) [
        | false ↦ err bad_function_name
        | true ↦ applied (window_rule ctx name partition order) (args_pieces ctx meaning args)
      ]

  pub args_pieces : CompileContext → (Subquery → Pieces) → Scalars → Arguments
  args_pieces ctx meaning no_args = ok []
  args_pieces ctx meaning (arg a rest) =
      before (scalar_pieces ctx meaning a) (args_pieces ctx meaning rest)

  pub truncate_pieces : CompileContext → (Subquery → Pieces) → Scalars → Pieces
  truncate_pieces ctx meaning no_args = err wrong_arity
  truncate_pieces ctx meaning (arg a no_args) = err wrong_arity
  truncate_pieces ctx meaning (arg a (arg b no_args)) =
      enclosed (codes "(CAST((")
        (scalar_pieces ctx meaning a
          then enclosed (codes ") * pow(10.0, ") (scalar_pieces ctx meaning b) []
          then enclosed (codes ") AS INTEGER) / pow(10.0, ") (scalar_pieces ctx meaning b) [])
        (codes "))")
  truncate_pieces ctx meaning (arg a (arg b (arg c rest))) = err wrong_arity

  pub branches_pieces : CompileContext → (Subquery → Pieces) → Branches → Pieces
  branches_pieces ctx meaning no_else = ok []
  branches_pieces ctx meaning (else_value s) =
      enclosed (codes " ELSE ") (scalar_pieces ctx meaning s) []
  branches_pieces ctx meaning (when e s bs) =
      enclosed (codes " WHEN ") (expression_pieces ctx meaning e) []
      then enclosed (codes " THEN ") (scalar_pieces ctx meaning s) []
      then branches_pieces ctx meaning bs

  pub expression_pieces : CompileContext → (Subquery → Pieces) → ExprNode → Pieces
  expression_pieces ctx meaning (comparison left op right) =
      scalar_pieces ctx meaning left
      then enclosed (codes " " ++ (compare_token op ++ codes " ")) (scalar_pieces ctx meaning right)
          []
  expression_pieces ctx meaning (null_check s negated) =
      enclosed [] (scalar_pieces ctx meaning s)
        (if negated then codes " IS NOT NULL" else codes " IS NULL")
  expression_pieces ctx meaning (like s shape negated) =
      scalar_pieces ctx meaning s
      then enclosed (if negated then codes " NOT LIKE " else codes " LIKE ")
          (scalar_pieces ctx meaning shape) []
  expression_pieces ctx meaning (between s lower upper negated) =
      scalar_pieces ctx meaning s
      then enclosed (between_word negated) (scalar_pieces ctx meaning lower) []
      then enclosed (codes " AND ") (scalar_pieces ctx meaning upper) []
  expression_pieces ctx meaning (in_values s [] negated) =
      fixed (if negated then codes "1 = 1" else codes "0 = 1")
  expression_pieces ctx meaning (in_values s (v ∷ vs) negated) =
      scalar_pieces ctx meaning s
      then enclosed (in_word negated) (separated_pieces (codes ", ") (map bound_value (v ∷ vs)))
          (codes ")")
  expression_pieces ctx meaning (in_subquery s q negated) =
      scalar_pieces ctx meaning s then enclosed (in_word negated) (meaning q) (codes ")")
  expression_pieces ctx meaning (exists q negated) =
      enclosed (if negated then codes "NOT EXISTS (" else codes "EXISTS (") (meaning q) (codes ")")
  expression_pieces ctx meaning (logical op left right) =
      enclosed (codes "(")
        (expression_pieces ctx meaning left
          then enclosed (logic_word op) (expression_pieces ctx meaning right) [])
        (codes ")")
  expression_pieces ctx meaning (not_expr e) =
      enclosed (codes "NOT (") (expression_pieces ctx meaning e) (codes ")")

-- A subquery compiles to the statement of its pieces, from any number on.
abbrev pub Means : CompileContext → (Subquery → Pieces) → Subquery → Type 0
Means ctx meaning q =
    (k : ℕ)
    → q (offset_placeholders ctx.dialect k)
      ≡ statement (offset_placeholders ctx.dialect k) (meaning q)

abbrev pub AppliedInOrder : Rule → Arguments → Type 0
AppliedInOrder rule (err e) = Unit
AppliedInOrder rule (ok pss) = IsInOrder (rule (length pss)) (length pss)

-- Every function's arguments stand in its SQL each once and in their order, and every subquery has
-- its meaning.
unfoldable mutual
  unfolding args_pieces

  pub ScalarOrdered : CompileContext → (Subquery → Pieces) → ScalarNode → Type 0
  ScalarOrdered ctx meaning (column_ref c) = Unit
  ScalarOrdered ctx meaning (literal v) = Unit
  ScalarOrdered ctx meaning (arithmetic left op right) =
      ScalarOrdered ctx meaning left × ScalarOrdered ctx meaning right
  ScalarOrdered ctx meaning (aggregate a) = Unit
  ScalarOrdered ctx meaning (function name args) =
      AppliedInOrder (function_template ctx.dialect.family name) (args_pieces ctx meaning args)
      × ArgsOrdered ctx meaning args
  ScalarOrdered ctx meaning (case_of bs) = BranchesOrdered ctx meaning bs
  ScalarOrdered ctx meaning (window name args partition order) =
      AppliedInOrder (window_rule ctx name partition order) (args_pieces ctx meaning args)
      × ArgsOrdered ctx meaning args

  pub ArgsOrdered : CompileContext → (Subquery → Pieces) → Scalars → Type 0
  ArgsOrdered ctx meaning no_args = Unit
  ArgsOrdered ctx meaning (arg a rest) = ScalarOrdered ctx meaning a × ArgsOrdered ctx meaning rest

  pub BranchesOrdered : CompileContext → (Subquery → Pieces) → Branches → Type 0
  BranchesOrdered ctx meaning no_else = Unit
  BranchesOrdered ctx meaning (else_value s) = ScalarOrdered ctx meaning s
  BranchesOrdered ctx meaning (when e s bs) =
      ExprOrdered ctx meaning e × (ScalarOrdered ctx meaning s × BranchesOrdered ctx meaning bs)

  pub ExprOrdered : CompileContext → (Subquery → Pieces) → ExprNode → Type 0
  ExprOrdered ctx meaning (comparison left op right) =
      ScalarOrdered ctx meaning left × ScalarOrdered ctx meaning right
  ExprOrdered ctx meaning (null_check s negated) = ScalarOrdered ctx meaning s
  ExprOrdered ctx meaning (like s shape negated) =
      ScalarOrdered ctx meaning s × ScalarOrdered ctx meaning shape
  ExprOrdered ctx meaning (between s lower upper negated) =
      ScalarOrdered ctx meaning s
      × (ScalarOrdered ctx meaning lower × ScalarOrdered ctx meaning upper)
  ExprOrdered ctx meaning (in_values s vs negated) = ScalarOrdered ctx meaning s
  ExprOrdered ctx meaning (in_subquery s q negated) =
      ScalarOrdered ctx meaning s × Means ctx meaning q
  ExprOrdered ctx meaning (exists q negated) = Means ctx meaning q
  ExprOrdered ctx meaning (logical op left right) =
      ExprOrdered ctx meaning left × ExprOrdered ctx meaning right
  ExprOrdered ctx meaning (not_expr e) = ExprOrdered ctx meaning e
