-- ===== src/Dml/Where.antt =====
-- include/metal/dml.hpp: `dml_where`, a predicate of UPDATE and DELETE given as an expression.
use metal_orm_cpp.Base.{ℕ, ◌≡◌, some, [], ◌∷◌}
use metal_orm_cpp.Dialect.{Dialect}
use metal_orm_cpp.Query.Pieces.{Pieces, statement}
use metal_orm_cpp.Query.Nodes.{Subquery, ExprNode}
use metal_orm_cpp.Query.Compile.{CompileContext, compile_expression}
use metal_orm_cpp.Query.Compile.Meaning.{expression_pieces, ExprOrdered}
use metal_orm_cpp.Query.Compile.Laws.{compile_expression-expression_pieces}
use metal_orm_cpp.Query.Compile.Visible.{expression_pieces-IsVisible}
use metal_orm_cpp.Dml.{DmlWhereCompiler, UpdateNode, compile_update}
use metal_orm_cpp.Dml.Statements.{update_pieces, compile_update-statement}

-- The entity's columns are named without a table.
abbrev pub where_context : Dialect → ℕ → CompileContext
where_context d owner = record { dialect = d; aliases = (owner, []) ∷ [] }

unfoldable pub dml_where : ℕ → ExprNode → DmlWhereCompiler
dml_where owner expression d = compile_expression (where_context d owner) expression

unfoldable pub with_expression : UpdateNode → ℕ → ExprNode → UpdateNode
unfolding dml_where
with_expression node owner expression = record node {
  extra_where = some (dml_where owner expression);
}

-- An UPDATE with a predicate that is an expression compiles to the statement of its pieces, with the
-- expression's among them, or throws their error: where each function in it has its arguments each
-- once and in their order, and each subquery compiles to a statement itself, from any number on. It
-- is never refused since the expression would compile to nothing.
pub compile_update-with_expression :
    (d : Dialect) (node : UpdateNode) (owner : ℕ) (expression : ExprNode)
    (meaning : Subquery → Pieces)
    → ExprOrdered (where_context d owner) meaning expression
    → compile_update d (with_expression node owner expression)
      ≡ statement d (
          update_pieces d
            (expression_pieces (where_context d owner) meaning expression)
            (with_expression node owner expression))
unfolding with_expression
compile_update-with_expression d node owner expression meaning h =
    compile_update-statement d (with_expression node owner expression)
      (expression_pieces (where_context d owner) meaning expression)
      (
        compile_expression-expression_pieces (where_context d owner) meaning expression h,
        expression_pieces-IsVisible (where_context d owner) meaning expression,
      )
