-- ===== src/Dml/Update.antt =====
-- include/metal/dml.hpp: `UpdateQueryBuilder`. A member returns the node that it leaves; where the
-- source reflects on an entity, its table's name and what its expression compiles to are arguments.
use metal_orm_cpp.Base.{
  Bool, none, some, List, [], ◌∷◌, ◌++◌, Text, text_eq, Result, ok, err, if◌then◌else◌,
}
use metal_orm_cpp.Value.{Value}
use metal_orm_cpp.Query.{QueryError, wrong_owner, eq}
use metal_orm_cpp.Dml.{DmlAssignment, DmlPredicate, DmlWhereCompiler, DmlReturning, UpdateNode}

unfoldable pub update : Text → UpdateNode
update table = record {
  table = table;
  assignments = [];
  predicates = [];
  in_predicates = [];
  extra_where = none;
  returning = [];
}

unfoldable pub set : UpdateNode → List DmlAssignment → UpdateNode
set node assignments = record node { assignments = assignments }

unfoldable pub filtered : UpdateNode → List DmlPredicate → UpdateNode
filtered node predicates = record node {
  predicates = predicates;
  in_predicates = [];
  extra_where = none;
}

unfoldable pub and_where : UpdateNode → Text → DmlWhereCompiler → Result QueryError UpdateNode
and_where node owner expression =
    if text_eq node.table owner
    then ok (record node { extra_where = some expression })
    else err wrong_owner

unfoldable pub where_expression :
    UpdateNode → Text → DmlWhereCompiler → Result QueryError UpdateNode
unfolding and_where
where_expression node owner expression =
    and_where (record node { predicates = []; in_predicates = [] }) owner expression

unfoldable pub where_eq : UpdateNode → Text → Value → UpdateNode
where_eq node column v = record node {
  predicates = node.predicates ++ record { column = column; op = eq; against = v } ∷ [];
}

unfoldable pub where_in : UpdateNode → Text → List Value → Bool → UpdateNode
where_in node column vs negated = record node {
  in_predicates =
      node.in_predicates ++ record { column = column; values = vs; negated = negated } ∷ [];
}

unfoldable pub returning : UpdateNode → List DmlReturning → UpdateNode
returning node rs = record node { returning = rs }
