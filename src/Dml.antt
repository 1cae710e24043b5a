-- ===== src/Dml.antt =====
-- include/metal/dml.hpp: the nodes of INSERT, UPDATE and DELETE and how they compile. A function that
-- appends to `sql` returns what it appends.
pub mod Insert
pub mod Update
pub mod Delete
pub mod Statements
pub mod Inserts
pub mod Revalued
pub mod RevaluedInserts
pub mod Where
mod Tests
use metal_orm_cpp.Base.{
  Bool, true, false, ◌&&◌, Option, none, some, List, [], ◌∷◌, ◌++◌, map, Text, codes, text_eq,
  Result, ok, err, if◌then◌else◌,
}
use metal_orm_cpp.Value.{Value}
use metal_orm_cpp.Dialect.{is_postgresql, Dialect, DialectFamily, postgresql}
use metal_orm_cpp.Query.{
  QueryError, excluded_outside, no_insert_columns, no_rows, constraint_unsupported,
  no_conflict_columns, no_conflict_assignments, empty_fragment, no_assignments, missing_column,
  CompiledQuery, Compiler, pure, fail, ◌>>=◌, bind, within, followed_by, separated, join_sql,
  CompareOp, compare_token, embed, compiled,
}

pub data DmlOperand : Type 0 where
  value : Value → DmlOperand
  excluded : Text → DmlOperand

pub record DmlAssignment : Type 0 where
  pub column : Text
  pub operand : DmlOperand

pub record DmlPredicate : Type 0 where
  pub column : Text
  pub op : CompareOp
  pub against : Value

pub record DmlInPredicate : Type 0 where
  pub column : Text
  pub values : List Value
  pub negated : Bool

abbrev pub DmlWhereCompiler : Type 0
DmlWhereCompiler = Dialect → Compiler Text

pub record DmlReturning : Type 0 where
  pub column : Text
  pub name : Option Text

pub record DmlConflictClause : Type 0 where
  pub columns : List Text
  pub constraint : Option Text
  pub do_nothing : Bool
  pub assignments : List DmlAssignment
  pub predicates : List DmlPredicate

abbrev pub SelectSource : Type 0
SelectSource = Dialect → Result QueryError CompiledQuery

pub record InsertNode : Type 0 where
  pub table : Text
  pub columns : List Text
  pub rows : List (List DmlAssignment)
  pub select_source : Option SelectSource
  pub conflict : Option DmlConflictClause
  pub returning : List DmlReturning

pub record UpdateNode : Type 0 where
  pub table : Text
  pub assignments : List DmlAssignment
  pub predicates : List DmlPredicate
  pub in_predicates : List DmlInPredicate
  pub extra_where : Option DmlWhereCompiler
  pub returning : List DmlReturning

pub record DeleteNode : Type 0 where
  pub table : Text
  pub predicates : List DmlPredicate
  pub in_predicates : List DmlInPredicate
  pub extra_where : Option DmlWhereCompiler
  pub returning : List DmlReturning

unfoldable pub compile_dml_operand : Dialect → Bool → DmlOperand → Compiler Text
unfolding bind
compile_dml_operand d allow_excluded (value v) = bind d v
compile_dml_operand d allow_excluded (excluded column) =
    if allow_excluded
    then pure (codes "excluded." ++ d.quote_identifier column)
    else fail excluded_outside

unfoldable pub compile_assignment : Dialect → Bool → DmlAssignment → Compiler Text
unfolding compile_dml_operand within
compile_assignment d allow_excluded a =
    within (d.quote_identifier a.column ++ codes " = ")
      (compile_dml_operand d allow_excluded a.operand) []

unfoldable pub compile_predicate : Dialect → DmlPredicate → Compiler Text
unfolding within compare_token
compile_predicate d p =
    within (d.quote_identifier p.column ++ (codes " " ++ (compare_token p.op ++ codes " ")))
      (bind d p.against) []

unfoldable pub append_dml_predicates : Dialect → List DmlPredicate → Compiler Text
unfolding within separated compile_predicate
append_dml_predicates d [] = pure []
append_dml_predicates d (p ∷ ps) =
    within (codes " WHERE ") (separated (codes " AND ") (compile_predicate d) (p ∷ ps)) []

unfoldable pub compile_members : Dialect → Text → Bool → List Value → Compiler Text
unfolding within separated bind
compile_members d column negated [] = pure (if negated then codes "1" else codes "0")
compile_members d column negated (v ∷ vs) =
    within (d.quote_identifier column ++ (if negated then codes " NOT IN (" else codes " IN ("))
      (separated (codes ", ") (bind d) (v ∷ vs)) (codes ")")

unfoldable pub compile_in_predicate : Dialect → DmlInPredicate → Compiler Text
unfolding compile_members
compile_in_predicate d p = compile_members d p.column p.negated p.values

unfoldable pub not_empty : Text → Compiler Text
not_empty [] = fail empty_fragment
not_empty (c ∷ cs) = pure (c ∷ cs)

unfoldable pub compile_extra : Dialect → DmlWhereCompiler → Compiler Text
unfolding within not_empty
compile_extra d extra_where =
    within (codes "(") (extra_where d >>= λ fragment. not_empty fragment) (codes ")")

-- The terms of `append_dml_where` in the order of its loops; `append_and` is what separates them.
pub data Term : Type 0 where
  plain : DmlPredicate → Term
  member : DmlInPredicate → Term
  extra : DmlWhereCompiler → Term

unfoldable pub extra_terms : Option DmlWhereCompiler → List Term
extra_terms none = []
extra_terms (some w) = extra w ∷ []

unfoldable pub terms : List DmlPredicate → List DmlInPredicate → Option DmlWhereCompiler → List Term
unfolding extra_terms
terms predicates in_predicates extra_where =
    map plain predicates ++ (map member in_predicates ++ extra_terms extra_where)

unfoldable pub compile_term : Dialect → Term → Compiler Text
unfolding compile_predicate compile_in_predicate compile_extra
compile_term d (plain p) = compile_predicate d p
compile_term d (member p) = compile_in_predicate d p
compile_term d (extra w) = compile_extra d w

unfoldable pub where_terms : Dialect → List Term → Compiler Text
unfolding within separated compile_term
where_terms d [] = pure []
where_terms d (t ∷ ts) =
    within (codes " WHERE ") (separated (codes " AND ") (compile_term d) (t ∷ ts)) []

unfoldable pub append_dml_where :
    Dialect → List DmlPredicate → List DmlInPredicate → Option DmlWhereCompiler → Compiler Text
unfolding where_terms terms
append_dml_where d predicates in_predicates extra_where =
    where_terms d (terms predicates in_predicates extra_where)

unfoldable pub returning_column : Dialect → DmlReturning → Text
returning_column d r =
    d.quote_identifier r.column
    ++ elim r.name [ none ↦ [] | some name ↦ codes " AS " ++ d.quote_identifier name ]

unfoldable pub append_returning : Dialect → List DmlReturning → Text
unfolding join_sql returning_column
append_returning d [] = []
append_returning d (r ∷ rs) =
    codes " RETURNING " ++ join_sql (map (returning_column d) (r ∷ rs)) (codes ", ")

-- `std::find_if` by the column.
unfoldable pub find_operand : Text → List DmlAssignment → Option DmlOperand
find_operand column [] = none
find_operand column (a ∷ row) =
    let rest = find_operand column row in if text_eq a.column column then some a.operand else rest

unfoldable pub compile_found : Dialect → Text → Option DmlOperand → Compiler Text
unfolding compile_dml_operand
compile_found d column none = fail (missing_column column)
compile_found d column (some operand) = compile_dml_operand d false operand

unfoldable pub compile_cell : Dialect → List DmlAssignment → Text → Compiler Text
unfolding find_operand compile_found
compile_cell d row column = compile_found d column (find_operand column row)

unfoldable pub compile_row : Dialect → List Text → List DmlAssignment → Compiler Text
unfolding within separated compile_cell
compile_row d columns row =
    within (codes "(") (separated (codes ", ") (compile_cell d row) columns) (codes ")")

unfoldable pub compile_rows : Dialect → List Text → List (List DmlAssignment) → Compiler Text
unfolding within separated compile_row
compile_rows d columns [] = fail no_rows
compile_rows d columns (row ∷ rows) =
    within (codes "VALUES ") (separated (codes ", ") (compile_row d columns) (row ∷ rows)) []

unfoldable pub compile_source :
    Dialect → List Text → List (List DmlAssignment) → Option SelectSource → Compiler Text
unfolding embed compile_rows
compile_source d columns rows (some source) = embed (source d)
compile_source d columns rows none = compile_rows d columns rows

unfoldable pub column_list : Dialect → List Text → Text
unfolding join_sql
column_list d columns = join_sql (map d.quote_identifier columns) (codes ", ")

-- The part of `InsertQueryBuilder::compile` up to the rows or the SELECT.
unfoldable pub compile_target :
    Dialect → List Text → List (List DmlAssignment) → Option SelectSource → Compiler Text
unfolding within compile_source column_list
compile_target d [] [] none = pure (codes " DEFAULT VALUES")
compile_target d [] [] (some source) = fail no_insert_columns
compile_target d [] (row ∷ rows) source = fail no_insert_columns
compile_target d (c ∷ cs) rows source =
    within (codes " (" ++ (column_list d (c ∷ cs) ++ codes ") "))
      (compile_source d (c ∷ cs) rows source) []

unfoldable pub conflict_target : Dialect → Option Text → List Text → Compiler Text
unfolding is_postgresql column_list
conflict_target d (some name) columns =
    if is_postgresql d.family
    then pure (codes " ON CONFLICT ON CONSTRAINT " ++ d.quote_identifier name)
    else fail constraint_unsupported
conflict_target d none [] = fail no_conflict_columns
conflict_target d none (c ∷ cs) =
    pure (codes " ON CONFLICT (" ++ (column_list d (c ∷ cs) ++ codes ")"))

unfoldable pub update_set : Dialect → List DmlAssignment → List DmlPredicate → Compiler Text
unfolding within separated compile_assignment append_dml_predicates followed_by
update_set d [] predicates = fail no_conflict_assignments
update_set d (a ∷ rest) predicates =
    followed_by
      (within (codes " DO UPDATE SET ")
        (separated (codes ", ") (compile_assignment d true) (a ∷ rest)) [])
      (append_dml_predicates d predicates)

unfoldable pub conflict_action : Dialect → DmlConflictClause → Compiler Text
unfolding update_set
conflict_action d c =
    if c.do_nothing then pure (codes " DO NOTHING") else update_set d c.assignments c.predicates

unfoldable pub compile_conflict : Dialect → Option DmlConflictClause → Compiler Text
unfolding conflict_target conflict_action followed_by
compile_conflict d none = pure []
compile_conflict d (some c) =
    followed_by (conflict_target d c.constraint c.columns) (conflict_action d c)

unfoldable pub insert_text : Dialect → InsertNode → Compiler Text
unfolding within compile_target compile_conflict append_returning followed_by
insert_text d node =
    within (codes "INSERT INTO " ++ d.quote_identifier node.table)
      (followed_by (compile_target d node.columns node.rows node.select_source)
        (compile_conflict d node.conflict))
      (append_returning d node.returning ++ codes ";")

unfoldable pub compile_insert : Dialect → InsertNode → Result QueryError CompiledQuery
unfolding compiled insert_text
compile_insert d node = compiled (insert_text d node)

unfoldable pub compile_set : Dialect → List DmlAssignment → Compiler Text
unfolding separated compile_assignment
compile_set d [] = fail no_assignments
compile_set d (a ∷ rest) = separated (codes ", ") (compile_assignment d false) (a ∷ rest)

unfoldable pub update_text : Dialect → UpdateNode → Compiler Text
unfolding within followed_by compile_set append_dml_where append_returning
update_text d node =
    within (codes "UPDATE " ++ (d.quote_identifier node.table ++ codes " SET "))
      (followed_by (compile_set d node.assignments)
        (append_dml_where d node.predicates node.in_predicates node.extra_where))
      (append_returning d node.returning ++ codes ";")

unfoldable pub compile_update : Dialect → UpdateNode → Result QueryError CompiledQuery
unfolding compiled update_text
compile_update d node = compiled (update_text d node)

unfoldable pub delete_text : Dialect → DeleteNode → Compiler Text
unfolding within append_dml_where append_returning
delete_text d node =
    within (codes "DELETE FROM " ++ d.quote_identifier node.table)
      (append_dml_where d node.predicates node.in_predicates node.extra_where)
      (append_returning d node.returning ++ codes ";")

unfoldable pub compile_delete : Dialect → DeleteNode → Result QueryError CompiledQuery
unfolding compiled delete_text
compile_delete d node = compiled (delete_text d node)
