-- ===== src/Dml/Delete.antt =====
-- include/metal/dml.hpp: `DeleteQueryBuilder`. A member returns the node that it leaves; where the
-- source reflects on an entity, its table's name and what its expression compiles to are arguments.
use metal_orm_cpp.Base.{
  Bool, none, some, List, [], ◌∷◌, ◌++◌, Text, text_eq, Result, ok, err, if◌then◌else◌,
}
use metal_orm_cpp.Value.{Value}
use metal_orm_cpp.Query.{QueryError, wrong_owner, eq}
use metal_orm_cpp.Dml.{DmlPredicate, DmlWhereCompiler, DmlReturning, DeleteNode}

unfoldable pub delete_from : Text → DeleteNode
delete_from table = record {
  table = table;
  predicates = [];
  in_predicates = [];
  extra_where = none;
  returning = [];
}

unfoldable pub filtered : DeleteNode → List DmlPredicate → DeleteNode
filtered node predicates = record node {
  predicates = predicates;
  in_predicates = [];
  extra_where = none;
}

unfoldable pub and_where : DeleteNode → Text → DmlWhereCompiler → Result QueryError DeleteNode
and_where node owner expression =
    if text_eq node.table owner
    then ok (record node { extra_where = some expression })
    else err wrong_owner

unfoldable pub where_expression :
    DeleteNode → Text → DmlWhereCompiler → Result QueryError DeleteNode
unfolding and_where
where_expression node owner expression =
    and_where (record node { predicates = []; in_predicates = [] }) owner expression

unfoldable pub where_eq : DeleteNode → Text → Value → DeleteNode
where_eq node column v = record node {
  predicates = node.predicates ++ record { column = column; op = eq; against = v } ∷ [];
}

unfoldable pub where_in : DeleteNode → Text → List Value → Bool → DeleteNode
where_in node column vs negated = record node {
  in_predicates =
      node.in_predicates ++ record { column = column; values = vs; negated = negated } ∷ [];
}

unfoldable pub returning : DeleteNode → List DmlReturning → DeleteNode
returning node rs = record node { returning = rs }
