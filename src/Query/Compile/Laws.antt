-- ===== src/Query/Compile/Laws.antt =====
-- include/metal/query/sqlite_compiler.hpp: expressions number their placeholders in order.
use metal_orm_cpp.Base.{true, false, [], ◌∷◌, ◌++◌, map, codes, if◌then◌else◌}
use metal_orm_cpp.Query.{
  wrong_arity, empty_case, ◌>>=◌, bind, within, followed_by, separated, compare_token,
}
use metal_orm_cpp.Query.Pieces.{
  Pieces, bound_value, ◌then◌, enclosed, separated_pieces, Writes, fixed-Writes, nothing-Writes,
  fail-Writes, bind-Writes, followed_by-Writes, within-Writes,
}
use metal_orm_cpp.Query.Nodes.{
  arithmetic_token, Subquery, ScalarNode, column_ref, literal, arithmetic, aggregate, function,
  case_of, window, Scalars, no_args, arg, Branches, no_else, else_value, when, ExprNode, comparison,
  null_check, like, between, in_values, in_subquery, exists, logical, not_expr,
}
use metal_orm_cpp.Query.Functions.{function_template, is_function_identifier}
use metal_orm_cpp.Query.Compile.{
  CompileContext, compile_column, compile_aggregate, window_rule, filled, is_truncate,
  embed_subquery, between_word, in_word, logic_word, compile_scalar, compile_args, compile_truncate,
  compile_branches, compile_expression,
}
use metal_orm_cpp.Query.Compile.Meaning.{
  applied, scalar_pieces, args_pieces, truncate_pieces, branches_pieces, expression_pieces,
  ScalarOrdered, ArgsOrdered, BranchesOrdered, ExprOrdered,
}
use metal_orm_cpp.Query.Compile.Args.{
  lift-Writes, ArgsWrites, no_args-Writes, before-Writes, applied-Writes, subquery-Writes,
  pair-Writes, members-Writes, named-Writes, either-Writes,
}

mutual
  unfolding compile_scalar compile_args compile_truncate compile_branches compile_expression
      scalar_pieces args_pieces truncate_pieces branches_pieces expression_pieces ScalarOrdered
      ArgsOrdered BranchesOrdered ExprOrdered

  pub scalar-Writes :
      (ctx : CompileContext) (meaning : Subquery → Pieces) (s : ScalarNode)
      → ScalarOrdered ctx meaning s
      → Writes ctx.dialect (compile_scalar ctx s) (scalar_pieces ctx meaning s)
  scalar-Writes ctx meaning (column_ref c) h = lift-Writes ctx.dialect (compile_column ctx c)
  scalar-Writes ctx meaning (literal v) h = bind-Writes ctx.dialect v
  scalar-Writes ctx meaning (arithmetic left op right) h =
      within-Writes ctx.dialect (codes "(") (codes ")")
        (followed_by (compile_scalar ctx left)
          (within (codes " " ++ (arithmetic_token op ++ codes " ")) (compile_scalar ctx right) []))
        (scalar_pieces ctx meaning left
          then enclosed (codes " " ++ (arithmetic_token op ++ codes " "))
              (scalar_pieces ctx meaning right) [])
        (pair-Writes ctx.dialect (codes " " ++ (arithmetic_token op ++ codes " ")) []
          (compile_scalar ctx left) (compile_scalar ctx right) (scalar_pieces ctx meaning left)
          (scalar_pieces ctx meaning right) (scalar-Writes ctx meaning left h.0)
          (scalar-Writes ctx meaning right h.1))
  scalar-Writes ctx meaning (aggregate a) h = lift-Writes ctx.dialect (compile_aggregate ctx a)
  scalar-Writes ctx meaning (function name args) h =
      named-Writes ctx.dialect (is_function_identifier name)
        (elim (is_truncate ctx.dialect name) [
          | true ↦ compile_truncate ctx args
          | false ↦
              compile_args ctx args >>= λ ts. filled (function_template ctx.dialect.family name) ts
        ])
        (elim (is_truncate ctx.dialect name) [
          | true ↦ truncate_pieces ctx meaning args
          | false ↦
              applied (function_template ctx.dialect.family name) (args_pieces ctx meaning args)
        ])
        (either-Writes ctx.dialect (is_truncate ctx.dialect name) (compile_truncate ctx args)
          (compile_args ctx args >>= λ ts. filled (function_template ctx.dialect.family name) ts)
          (truncate_pieces ctx meaning args)
          (applied (function_template ctx.dialect.family name) (args_pieces ctx meaning args))
          (truncate-Writes ctx meaning args h.1)
          (applied-Writes ctx.dialect (function_template ctx.dialect.family name)
            (compile_args ctx args) (args_pieces ctx meaning args)
            (args-Writes ctx meaning args h.1) h.0))
  scalar-Writes ctx meaning (case_of no_else) h = fail-Writes ctx.dialect empty_case
  scalar-Writes ctx meaning (case_of (else_value s)) h = fail-Writes ctx.dialect empty_case
  scalar-Writes ctx meaning (case_of (when e s bs)) h =
      within-Writes ctx.dialect (codes "CASE") (codes " END") (compile_branches ctx (when e s bs))
        (branches_pieces ctx meaning (when e s bs)) (branches-Writes ctx meaning (when e s bs) h)
  scalar-Writes ctx meaning (window name args partition order) h =
      named-Writes ctx.dialect (is_function_identifier name)
        (compile_args ctx args >>= λ ts. filled (window_rule ctx name partition order) ts)
        (applied (window_rule ctx name partition order) (args_pieces ctx meaning args))
        (applied-Writes ctx.dialect (window_rule ctx name partition order) (compile_args ctx args)
          (args_pieces ctx meaning args) (args-Writes ctx meaning args h.1) h.0)

  args-Writes :
      (ctx : CompileContext) (meaning : Subquery → Pieces) (args : Scalars)
      → ArgsOrdered ctx meaning args
      → ArgsWrites ctx.dialect (compile_args ctx args) (args_pieces ctx meaning args)
  args-Writes ctx meaning no_args h = no_args-Writes ctx.dialect
  args-Writes ctx meaning (arg a rest) h =
      before-Writes ctx.dialect (compile_scalar ctx a) (compile_args ctx rest)
        (scalar_pieces ctx meaning a) (args_pieces ctx meaning rest)
        (scalar-Writes ctx meaning a h.0) (args-Writes ctx meaning rest h.1)

  truncate-Writes :
      (ctx : CompileContext) (meaning : Subquery → Pieces) (args : Scalars)
      → ArgsOrdered ctx meaning args
      → Writes ctx.dialect (compile_truncate ctx args) (truncate_pieces ctx meaning args)
  truncate-Writes ctx meaning no_args h = fail-Writes ctx.dialect wrong_arity
  truncate-Writes ctx meaning (arg a no_args) h = fail-Writes ctx.dialect wrong_arity
  truncate-Writes ctx meaning (arg a (arg b no_args)) h =
      within-Writes ctx.dialect (codes "(CAST((") (codes "))")
        (followed_by (compile_scalar ctx a) (
          followed_by (within (codes ") * pow(10.0, ") (compile_scalar ctx b) [])
            (within (codes ") AS INTEGER) / pow(10.0, ") (compile_scalar ctx b) [])))
        (scalar_pieces ctx meaning a
          then enclosed (codes ") * pow(10.0, ") (scalar_pieces ctx meaning b) []
          then enclosed (codes ") AS INTEGER) / pow(10.0, ") (scalar_pieces ctx meaning b) [])
        (followed_by-Writes ctx.dialect (compile_scalar ctx a)
          (followed_by (within (codes ") * pow(10.0, ") (compile_scalar ctx b) [])
            (within (codes ") AS INTEGER) / pow(10.0, ") (compile_scalar ctx b) []))
          (scalar_pieces ctx meaning a)
          (enclosed (codes ") * pow(10.0, ") (scalar_pieces ctx meaning b) []
            then enclosed (codes ") AS INTEGER) / pow(10.0, ") (scalar_pieces ctx meaning b) [])
          (scalar-Writes ctx meaning a h.0)
          (pair-Writes ctx.dialect (codes ") AS INTEGER) / pow(10.0, ") []
            (within (codes ") * pow(10.0, ") (compile_scalar ctx b) []) (compile_scalar ctx b)
            (enclosed (codes ") * pow(10.0, ") (scalar_pieces ctx meaning b) [])
            (scalar_pieces ctx meaning b)
            (within-Writes ctx.dialect (codes ") * pow(10.0, ") [] (compile_scalar ctx b)
              (scalar_pieces ctx meaning b) (scalar-Writes ctx meaning b h.1.0))
            (scalar-Writes ctx meaning b h.1.0)))
  truncate-Writes ctx meaning (arg a (arg b (arg c rest))) h = fail-Writes ctx.dialect wrong_arity

  branches-Writes :
      (ctx : CompileContext) (meaning : Subquery → Pieces) (bs : Branches)
      → BranchesOrdered ctx meaning bs
      → Writes ctx.dialect (compile_branches ctx bs) (branches_pieces ctx meaning bs)
  branches-Writes ctx meaning no_else h = nothing-Writes ctx.dialect
  branches-Writes ctx meaning (else_value s) h =
      within-Writes ctx.dialect (codes " ELSE ") [] (compile_scalar ctx s)
        (scalar_pieces ctx meaning s) (scalar-Writes ctx meaning s h)
  branches-Writes ctx meaning (when e s bs) h =
      followed_by-Writes ctx.dialect (within (codes " WHEN ") (compile_expression ctx e) [])
        (followed_by (within (codes " THEN ") (compile_scalar ctx s) []) (compile_branches ctx bs))
        (enclosed (codes " WHEN ") (expression_pieces ctx meaning e) [])
        (enclosed (codes " THEN ") (scalar_pieces ctx meaning s) []
          then branches_pieces ctx meaning bs)
        (within-Writes ctx.dialect (codes " WHEN ") [] (compile_expression ctx e)
          (expression_pieces ctx meaning e) (expression-Writes ctx meaning e h.0))
        (followed_by-Writes ctx.dialect (within (codes " THEN ") (compile_scalar ctx s) [])
          (compile_branches ctx bs) (enclosed (codes " THEN ") (scalar_pieces ctx meaning s) [])
          (branches_pieces ctx meaning bs)
          (within-Writes ctx.dialect (codes " THEN ") [] (compile_scalar ctx s)
            (scalar_pieces ctx meaning s) (scalar-Writes ctx meaning s h.1.0))
          (branches-Writes ctx meaning bs h.1.1))

  expression-Writes :
      (ctx : CompileContext) (meaning : Subquery → Pieces) (e : ExprNode)
      → ExprOrdered ctx meaning e
      → Writes ctx.dialect (compile_expression ctx e) (expression_pieces ctx meaning e)
  expression-Writes ctx meaning (comparison left op right) h =
      pair-Writes ctx.dialect (codes " " ++ (compare_token op ++ codes " ")) []
        (compile_scalar ctx left) (compile_scalar ctx right) (scalar_pieces ctx meaning left)
        (scalar_pieces ctx meaning right) (scalar-Writes ctx meaning left h.0)
        (scalar-Writes ctx meaning right h.1)
  expression-Writes ctx meaning (null_check s negated) h =
      within-Writes ctx.dialect [] (if negated then codes " IS NOT NULL" else codes " IS NULL")
        (compile_scalar ctx s) (scalar_pieces ctx meaning s) (scalar-Writes ctx meaning s h)
  expression-Writes ctx meaning (like s shape negated) h =
      pair-Writes ctx.dialect (if negated then codes " NOT LIKE " else codes " LIKE ") []
        (compile_scalar ctx s) (compile_scalar ctx shape) (scalar_pieces ctx meaning s)
        (scalar_pieces ctx meaning shape) (scalar-Writes ctx meaning s h.0)
        (scalar-Writes ctx meaning shape h.1)
  expression-Writes ctx meaning (between s lower upper negated) h =
      followed_by-Writes ctx.dialect (compile_scalar ctx s)
        (followed_by (within (between_word negated) (compile_scalar ctx lower) [])
          (within (codes " AND ") (compile_scalar ctx upper) []))
        (scalar_pieces ctx meaning s)
        (enclosed (between_word negated) (scalar_pieces ctx meaning lower) []
          then enclosed (codes " AND ") (scalar_pieces ctx meaning upper) [])
        (scalar-Writes ctx meaning s h.0)
        (pair-Writes ctx.dialect (codes " AND ") []
          (within (between_word negated) (compile_scalar ctx lower) []) (compile_scalar ctx upper)
          (enclosed (between_word negated) (scalar_pieces ctx meaning lower) [])
          (scalar_pieces ctx meaning upper)
          (within-Writes ctx.dialect (between_word negated) [] (compile_scalar ctx lower)
            (scalar_pieces ctx meaning lower) (scalar-Writes ctx meaning lower h.1.0))
          (scalar-Writes ctx meaning upper h.1.1))
  expression-Writes ctx meaning (in_values s [] negated) h =
      fixed-Writes ctx.dialect (if negated then codes "1 = 1" else codes "0 = 1")
  expression-Writes ctx meaning (in_values s (v ∷ vs) negated) h =
      pair-Writes ctx.dialect (in_word negated) (codes ")") (compile_scalar ctx s)
        (separated (codes ", ") (bind ctx.dialect) (v ∷ vs)) (scalar_pieces ctx meaning s)
        (separated_pieces (codes ", ") (map bound_value (v ∷ vs))) (scalar-Writes ctx meaning s h)
        (members-Writes ctx.dialect (v ∷ vs))
  expression-Writes ctx meaning (in_subquery s q negated) h =
      pair-Writes ctx.dialect (in_word negated) (codes ")") (compile_scalar ctx s)
        (embed_subquery ctx.dialect q) (scalar_pieces ctx meaning s) (meaning q)
        (scalar-Writes ctx meaning s h.0) (subquery-Writes ctx meaning q h.1)
  expression-Writes ctx meaning (exists q negated) h =
      within-Writes ctx.dialect (if negated then codes "NOT EXISTS (" else codes "EXISTS (")
        (codes ")") (embed_subquery ctx.dialect q) (meaning q) (subquery-Writes ctx meaning q h)
  expression-Writes ctx meaning (logical op left right) h =
      within-Writes ctx.dialect (codes "(") (codes ")")
        (followed_by (compile_expression ctx left)
          (within (logic_word op) (compile_expression ctx right) []))
        (expression_pieces ctx meaning left
          then enclosed (logic_word op) (expression_pieces ctx meaning right) [])
        (pair-Writes ctx.dialect (logic_word op) [] (compile_expression ctx left)
          (compile_expression ctx right) (expression_pieces ctx meaning left)
          (expression_pieces ctx meaning right) (expression-Writes ctx meaning left h.0)
          (expression-Writes ctx meaning right h.1))
  expression-Writes ctx meaning (not_expr e) h =
      within-Writes ctx.dialect (codes "NOT (") (codes ")") (compile_expression ctx e)
        (expression_pieces ctx meaning e) (expression-Writes ctx meaning e h)

-- Every expression writes its pieces, or throws their error: the placeholders are numbered from left
-- to right, on from what stands before it, and behind the parameters that are there it appends the
-- value of each placeholder. The condition is that each function's SQL has its arguments each once
-- and in their order, and that each subquery compiles to a statement itself, from any number on.
pub compile_expression-expression_pieces :
    (ctx : CompileContext) (meaning : Subquery → Pieces) (e : ExprNode)
    → ExprOrdered ctx meaning e
    → Writes ctx.dialect (compile_expression ctx e) (expression_pieces ctx meaning e)
compile_expression-expression_pieces ctx meaning e h = expression-Writes ctx meaning e h
