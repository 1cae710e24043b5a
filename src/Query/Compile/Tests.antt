-- ===== src/Query/Compile/Tests.antt =====
-- Runs of the compiler of expressions, and its theorems at an expression.
use metal_orm_cpp.Base.{
  ◌≡◌, refl, inr, true, false, List, [], ◌∷◌, codes, ok, err, text_eq, starts_with,
}
use metal_orm_cpp.Value.{int, text, pos}
use metal_orm_cpp.Dialect.{postgres_dialect, sqlite_dialect, offset_placeholders}
use metal_orm_cpp.Query.{gt, eq, compare_token, compiled, bind, within, outside_scope}
use metal_orm_cpp.Query.Pieces.{Piece, Pieces, bound, sql, emit, statement, text_of, values_of}
use metal_orm_cpp.Query.Nodes.{
  and, Subquery, ScalarNode, column_ref, literal, function, case_of, no_args, arg, else_value, when,
  ExprNode, comparison, in_subquery, in_values, logical, not_expr,
}
use metal_orm_cpp.Query.Compile.{
  CompileContext, is_truncate, compile_column, compile_scalar, compile_expression,
}
use metal_orm_cpp.Query.Functions.{function_template, is_function_identifier}
use metal_orm_cpp.Query.Compile.Ordered.{in_order}
use metal_orm_cpp.Query.Compile.Meaning.{
  expression_pieces, scalar_pieces, ScalarOrdered, ExprOrdered,
}
use metal_orm_cpp.Query.Compile.Laws.{compile_expression-expression_pieces}
use metal_orm_cpp.Query.Compile.Swapped.{on_sqlite, sqlite_context, pair, position_swaps}

abbrev on_postgres : CompileContext
on_postgres = record { dialect = postgres_dialect; aliases = (1, codes "u") ∷ [] }

abbrev age : ScalarNode
age = column_ref (record { owner = 1; column = codes "age" })

-- A subquery with a value of its own.
abbrev managers : Subquery
managers d = compiled (within (codes "SELECT age FROM m WHERE id = ") (bind d (int (pos 9))) [])

abbrev managers_pieces : Subquery → Pieces
managers_pieces q =
    ok (sql (codes "SELECT age FROM m WHERE id = ") ∷ bound (int (pos 9)) ∷ sql [] ∷ [])

abbrev ages : ExprNode
ages =
    logical and
      (comparison (function (codes "mod") (arg age (arg (literal (int (pos 7))) no_args))) gt
        (literal (int (pos 1))))
      (not_expr (in_subquery age managers false))

ages_run :
    compile_expression on_postgres ages (text (codes "x") ∷ [])
    ≡ ok (
      codes
          "(mod(\"u\".\"age\", $2) > $3 AND NOT (\"u\".\"age\" IN (SELECT age FROM m WHERE id = $4)))",
      text (codes "x") ∷ int (pos 7) ∷ int (pos 1) ∷ int (pos 9) ∷ [],
    )
unfolding compile_expression postgres_dialect offset_placeholders text_eq starts_with compiled
    compare_token
ages_run = refl

-- Both scales of TRUNCATE are bound on SQLite.
truncate_run :
    compile_scalar on_sqlite (function (codes "truncate") (pair (int (pos 5)) (int (pos 2)))) []
    ≡ ok (
      codes "(CAST((?) * pow(10.0, ?) AS INTEGER) / pow(10.0, ?))",
      int (pos 5) ∷ int (pos 2) ∷ int (pos 2) ∷ [],
    )
unfolding compile_scalar sqlite_dialect text_eq
truncate_run = refl

scope_run :
    compile_expression on_sqlite (in_values age (int (pos 1) ∷ []) true) [] ≡ err outside_scope
unfolding compile_expression
scope_run = refl

case_run :
    compile_scalar on_postgres
      (case_of (
        when
          (comparison age eq (literal (int (pos 1))))
          (literal (text (codes "one")))
          (else_value (function (codes "QUARTER") (arg age no_args)))))
      []
    ≡ ok (
      codes "CASE WHEN \"u\".\"age\" = $1 THEN $2 ELSE EXTRACT(QUARTER FROM \"u\".\"age\") END",
      int (pos 1) ∷ text (codes "one") ∷ [],
    )
unfolding compile_scalar postgres_dialect text_eq starts_with compare_token
case_run = refl

-- POSITION on SQLite searches the first value for the second.
position_run :
    compile_scalar on_sqlite
      (function (codes "POSITION") (pair (text (codes "a")) (text (codes "banana"))))
      []
    ≡ ok (codes "instr(?, ?)", text (codes "a") ∷ text (codes "banana") ∷ [])
unfolding compile_scalar sqlite_dialect text_eq
position_run = refl

-- What is looked for is a value, and what is searched holds one.
abbrev needle : ScalarNode
needle = literal (text (codes "a"))

abbrev haystack : ScalarNode
haystack = function (codes "IF_NULL") (arg age (arg (literal (text (codes "b"))) no_args))

abbrev haystack_pieces : List Piece
haystack_pieces =
    sql (codes "COALESCE(")
    ∷ sql (codes "\"u\".\"age\"")
    ∷ sql (codes ", ")
    ∷ bound (text (codes "b"))
    ∷ sql (codes ")")
    ∷ []

haystack_ordered : ScalarOrdered (sqlite_context ((1, codes "u") ∷ [])) managers_pieces haystack
unfolding ScalarOrdered sqlite_dialect text_eq starts_with compile_column function_template in_order
haystack_ordered = (refl, (tt, (tt, tt)))

needle_ordered : ScalarOrdered (sqlite_context ((1, codes "u") ∷ [])) managers_pieces needle
unfolding ScalarOrdered
needle_ordered = tt

needle_lem :
    scalar_pieces (sqlite_context ((1, codes "u") ∷ [])) managers_pieces needle
    ≡ ok (bound (text (codes "a")) ∷ [])
unfolding scalar_pieces
needle_lem = refl

haystack_lem :
    scalar_pieces (sqlite_context ((1, codes "u") ∷ [])) managers_pieces haystack
    ≡ ok haystack_pieces
unfolding scalar_pieces sqlite_dialect text_eq starts_with compile_column function_template
    is_function_identifier is_truncate
haystack_lem = refl

position_swaps_example :
    let ctx = sqlite_context ((1, codes "u") ∷ []) in
    (compile_scalar ctx (function (codes "LOCATE") (arg needle (arg haystack no_args))) []
      ≡ ok (codes "instr(COALESCE(\"u\".\"age\", ?), ?)", text (codes "a") ∷ text (codes "b") ∷ []))
    × (compile_scalar ctx (function (codes "instr") (arg haystack (arg needle no_args))) []
        ≡ ok (
          codes "instr(COALESCE(\"u\".\"age\", ?), ?)",
          text (codes "b") ∷ text (codes "a") ∷ [],
        ))
unfolding sqlite_dialect text_of values_of
position_swaps_example =
    position_swaps ((1, codes "u") ∷ []) managers_pieces (codes "LOCATE") needle haystack
      (bound (text (codes "a")) ∷ []) haystack_pieces [] (inr refl) needle_ordered haystack_ordered
      needle_lem haystack_lem

ages_ordered : ExprOrdered on_postgres managers_pieces ages
unfolding ExprOrdered postgres_dialect text_eq starts_with statement text_of compiled within
    offset_placeholders compile_column function_template in_order bind values_of
ages_ordered = (((refl, (tt, (tt, tt))), tt), (tt, λ k. refl))

compile_expression-expression_pieces_example :
    compile_expression on_postgres ages (text (codes "x") ∷ [])
    ≡ emit postgres_dialect
        (text (codes "x") ∷ [])
        (expression_pieces on_postgres managers_pieces ages)
compile_expression-expression_pieces_example =
    compile_expression-expression_pieces on_postgres managers_pieces ages ages_ordered
      (text (codes "x") ∷ [])
