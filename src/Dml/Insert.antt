-- ===== src/Dml/Insert.antt =====
-- include/metal/dml.hpp: `InsertQueryBuilder` and `ConflictBuilder`. A member returns the builder that it leaves; the SELECT of
-- `from_select` is what it compiles to.
use metal_orm_cpp.Base.{
  true, false, Option, none, some, List, [], ◌∷◌, ◌++◌, map, Text, Result, ok, err,
}
use metal_orm_cpp.Query.{
  QueryError, mixed_sources, no_select_columns, empty_constraint, no_conflict_assignments,
}
use metal_orm_cpp.Dml.{
  DmlAssignment, DmlPredicate, SelectSource, DmlReturning, DmlConflictClause, InsertNode,
}

pub record InsertQueryBuilder : Type 0 where
  pub node : InsertNode
  pub known_table_columns : List Text

unfoldable pub insert_into : Text → List Text → InsertQueryBuilder
insert_into table known = record {
  node = record {
    table = table;
    columns = [];
    rows = [];
    select_source = none;
    conflict = none;
    returning = [];
  };
  known_table_columns = known;
}

unfoldable pub or_columns : List Text → List Text → List Text
or_columns [] known = known
or_columns (c ∷ cs) known = c ∷ cs

unfoldable pub columns : InsertQueryBuilder → List Text → InsertQueryBuilder
unfolding or_columns
columns b names = record b { node = record b.node { columns = or_columns names b.node.columns } }

unfoldable pub columns_of : List DmlAssignment → List Text
columns_of row = map (λ a. a.column) row

unfoldable pub add_row : InsertQueryBuilder → List DmlAssignment → InsertQueryBuilder
unfolding or_columns columns_of
add_row b [] = b
add_row b (a ∷ row) = record b {
  node = record b.node {
    columns = or_columns b.node.columns (columns_of (a ∷ row));
    rows = b.node.rows ++ (a ∷ row) ∷ [];
  };
}

unfoldable pub values :
    InsertQueryBuilder → List DmlAssignment → Result QueryError InsertQueryBuilder
unfolding add_row
values b row = elim b.node.select_source [
  | some source ↦ err mixed_sources
  | none ↦ ok (add_row b row)
]

unfoldable pub values_all :
    InsertQueryBuilder → List (List DmlAssignment) → Result QueryError InsertQueryBuilder
unfolding values
values_all b [] = ok b
values_all b (row ∷ rows) = elim (values b row) [ ok b' ↦ values_all b' rows | err e ↦ err e ]

unfoldable pub with_source :
    InsertQueryBuilder → SelectSource → List Text → Result QueryError InsertQueryBuilder
with_source b source [] = err no_select_columns
with_source b source (c ∷ cs) =
    ok (record b { node = record b.node { columns = c ∷ cs; select_source = some source } })

unfoldable pub from_select :
    InsertQueryBuilder → SelectSource → List Text → Result QueryError InsertQueryBuilder
unfolding with_source or_columns
from_select b source names = elim b.node.rows [
  | row ∷ rows ↦ err mixed_sources
  | [] ↦ with_source b source (or_columns (or_columns names b.node.columns) b.known_table_columns)
]

-- `ConflictBuilder` without its owner, which is the builder that it returns.
pub record ConflictBuilder : Type 0 where
  pub columns : List Text
  pub constraint : Option Text

unfoldable pub on_conflict : List Text → ConflictBuilder
on_conflict names = record { columns = names; constraint = none }

unfoldable pub on_conflict_constraint : Text → Result QueryError ConflictBuilder
on_conflict_constraint [] = err empty_constraint
on_conflict_constraint (c ∷ cs) = ok (record { columns = []; constraint = some (c ∷ cs) })

unfoldable pub set_conflict : InsertQueryBuilder → DmlConflictClause → InsertQueryBuilder
set_conflict b clause = record b { node = record b.node { conflict = some clause } }

unfoldable pub do_nothing : InsertQueryBuilder → ConflictBuilder → InsertQueryBuilder
unfolding set_conflict
do_nothing b c = set_conflict b (record {
  columns = c.columns;
  constraint = c.constraint;
  do_nothing = true;
  assignments = [];
  predicates = [];
})

unfoldable pub do_update :
    InsertQueryBuilder
    → ConflictBuilder
    → List DmlAssignment
    → List DmlPredicate
    → Result QueryError InsertQueryBuilder
unfolding set_conflict
do_update b c [] predicates = err no_conflict_assignments
do_update b c (a ∷ rest) predicates = ok (
    set_conflict b (record {
      columns = c.columns;
      constraint = c.constraint;
      do_nothing = false;
      assignments = a ∷ rest;
      predicates = predicates;
    }))

-- `returning` with names of columns, and with `DmlReturning`, as in the three builders.
unfoldable pub returning_names : List Text → List DmlReturning
returning_names names = map (λ c. record { column = c; name = none }) names

unfoldable pub returning : InsertQueryBuilder → List DmlReturning → InsertQueryBuilder
returning b rs = record b { node = record b.node { returning = rs } }
