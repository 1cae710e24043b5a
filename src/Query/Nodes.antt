-- ===== src/Query/Nodes.antt =====
-- include/metal/query/core_types.hpp: the nodes of SQL expressions. A `std::type_index` is a number,
-- and a shared node stands where it is used.
use metal_orm_cpp.Base.{ℕ, Bool, Option, List, Text, Result, codes}
use metal_orm_cpp.Value.{Value}
use metal_orm_cpp.Dialect.{Dialect}
use metal_orm_cpp.Query.{QueryError, CompiledQuery, CompareOp}

pub data LogicOp : Type 0 where
  and or : LogicOp

pub data ArithmeticOp : Type 0 where
  add subtract multiply divide modulo : ArithmeticOp

unfoldable pub arithmetic_token : ArithmeticOp → Text
arithmetic_token add = codes "+"
arithmetic_token subtract = codes "-"
arithmetic_token multiply = codes "*"
arithmetic_token divide = codes "/"
arithmetic_token modulo = codes "%"

pub data AggregateKind : Type 0 where
  count sum avg min max stddev variance : AggregateKind

unfoldable pub aggregate_token : AggregateKind → Text
aggregate_token count = codes "COUNT"
aggregate_token sum = codes "SUM"
aggregate_token avg = codes "AVG"
aggregate_token min = codes "MIN"
aggregate_token max = codes "MAX"
aggregate_token stddev = codes "STDDEV"
aggregate_token variance = codes "VARIANCE"

pub record ColumnRef : Type 0 where
  pub owner : ℕ
  pub column : Text

pub record AggregateRef : Type 0 where
  pub kind : AggregateKind
  pub column : Option ColumnRef
  pub distinct : Bool

pub record WindowOrderRef : Type 0 where
  pub column : ColumnRef
  pub ascending : Bool

-- The `compile_subquery` of a node.
abbrev pub Subquery : Type 0
Subquery = Dialect → Result QueryError CompiledQuery

mutual
  -- `ArithmeticRef`, `FunctionRef`, `CaseRef` and `WindowRef` are the arguments of their cases.
  pub data ScalarNode : Type 0 where
    column_ref : ColumnRef → ScalarNode
    literal : Value → ScalarNode
    arithmetic : ScalarNode → ArithmeticOp → ScalarNode → ScalarNode
    aggregate : AggregateRef → ScalarNode
    function : Text → Scalars → ScalarNode
    case_of : Branches → ScalarNode
    window : Text → Scalars → List ColumnRef → List WindowOrderRef → ScalarNode

  pub data Scalars : Type 0 where
    no_args : Scalars
    arg : ScalarNode → Scalars → Scalars

  -- `branches`, and `else_value` behind them.
  pub data Branches : Type 0 where
    no_else : Branches
    else_value : ScalarNode → Branches
    when : ExprNode → ScalarNode → Branches → Branches

  pub data ExprNode : Type 0 where
    comparison : ScalarNode → CompareOp → ScalarNode → ExprNode
    null_check : ScalarNode → Bool → ExprNode
    like : ScalarNode → ScalarNode → Bool → ExprNode
    between : ScalarNode → ScalarNode → ScalarNode → Bool → ExprNode
    in_values : ScalarNode → List Value → Bool → ExprNode
    in_subquery : ScalarNode → Subquery → Bool → ExprNode
    exists : Subquery → Bool → ExprNode
    logical : LogicOp → ExprNode → ExprNode → ExprNode
    not_expr : ExprNode → ExprNode
