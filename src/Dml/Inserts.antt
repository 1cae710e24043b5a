-- ===== src/Dml/Inserts.antt =====
-- include/metal/dml.hpp: what INSERT compiles to, as pieces without numbers.
use metal_orm_cpp.Base.{
  All-every, ◌≡◌, Bool, true, false, Option, none, some, List, [], ◌∷◌, ◌++◌, map, Text, codes, ok,
  err, if◌then◌else◌,
}
use metal_orm_cpp.Dialect.{is_postgresql, Dialect}
use metal_orm_cpp.Query.{
  no_insert_columns, no_rows, constraint_unsupported, no_conflict_columns, no_conflict_assignments,
  missing_column, pure, fail, within, followed_by, separated, embed,
}
use metal_orm_cpp.Query.Pieces.{
  values_of, Pieces, fixed, ◌then◌, enclosed, separated_pieces, statement, emit, Writes,
  compiled-statement_at, fixed-Writes, nothing-Writes, fail-Writes, followed_by_at,
  followed_by-Writes, within-Writes, separated-Writes, embed_at, within_at,
}
use metal_orm_cpp.Dml.{
  DmlOperand, DmlAssignment, DmlPredicate, DmlConflictClause, InsertNode, SelectSource,
  compile_predicate, append_dml_predicates, compile_assignment, append_returning, find_operand,
  compile_found, compile_cell, compile_row, compile_rows, compile_source, column_list,
  compile_target, conflict_target, update_set, conflict_action, compile_conflict, insert_text,
  compile_insert,
}
use metal_orm_cpp.Dml.Statements.{
  operand_pieces, assignment_pieces, predicate_pieces, operand-Writes, assignment-Writes,
  predicate-Writes,
}

unfoldable pub found_pieces : Dialect → Text → Option DmlOperand → Pieces
unfolding operand_pieces
found_pieces d column none = err (missing_column column)
found_pieces d column (some operand) = operand_pieces d false operand

unfoldable pub cell_pieces : Dialect → List DmlAssignment → Text → Pieces
unfolding found_pieces
cell_pieces d row column = found_pieces d column (find_operand column row)

unfoldable pub row_pieces : Dialect → List Text → List DmlAssignment → Pieces
unfolding enclosed separated_pieces cell_pieces
row_pieces d columns row =
    enclosed (codes "(") (separated_pieces (codes ", ") (map (cell_pieces d row) columns))
      (codes ")")

unfoldable pub rows_pieces : Dialect → List Text → List (List DmlAssignment) → Pieces
unfolding enclosed separated_pieces row_pieces
rows_pieces d columns [] = err no_rows
rows_pieces d columns (row ∷ rows) =
    enclosed (codes "VALUES ")
      (separated_pieces (codes ", ") (map (row_pieces d columns) (row ∷ rows))) []

-- `meaning`: the pieces of the SELECT.
unfoldable pub source_pieces :
    Dialect → Pieces → List Text → List (List DmlAssignment) → Option SelectSource → Pieces
unfolding rows_pieces
source_pieces d meaning columns rows (some source) = meaning
source_pieces d meaning columns rows none = rows_pieces d columns rows

unfoldable pub target_pieces :
    Dialect → Pieces → List Text → List (List DmlAssignment) → Option SelectSource → Pieces
unfolding enclosed source_pieces
target_pieces d meaning [] [] none = fixed (codes " DEFAULT VALUES")
target_pieces d meaning [] [] (some source) = err no_insert_columns
target_pieces d meaning [] (row ∷ rows) source = err no_insert_columns
target_pieces d meaning (c ∷ cs) rows source =
    enclosed (codes " (" ++ (column_list d (c ∷ cs) ++ codes ") "))
      (source_pieces d meaning (c ∷ cs) rows source) []

unfoldable pub conflict_target_pieces : Dialect → Option Text → List Text → Pieces
conflict_target_pieces d (some name) columns =
    if is_postgresql d.family
    then fixed (codes " ON CONFLICT ON CONSTRAINT " ++ d.quote_identifier name)
    else err constraint_unsupported
conflict_target_pieces d none [] = err no_conflict_columns
conflict_target_pieces d none (c ∷ cs) =
    fixed (codes " ON CONFLICT (" ++ (column_list d (c ∷ cs) ++ codes ")"))

unfoldable pub condition_pieces : Dialect → List DmlPredicate → Pieces
unfolding enclosed separated_pieces predicate_pieces
condition_pieces d [] = ok []
condition_pieces d (p ∷ ps) =
    enclosed (codes " WHERE ")
      (separated_pieces (codes " AND ") (map (predicate_pieces d) (p ∷ ps))) []

unfoldable pub update_set_pieces : Dialect → List DmlAssignment → List DmlPredicate → Pieces
unfolding enclosed separated_pieces assignment_pieces condition_pieces ◌then◌
update_set_pieces d [] predicates = err no_conflict_assignments
update_set_pieces d (a ∷ rest) predicates =
    enclosed (codes " DO UPDATE SET ")
      (separated_pieces (codes ", ") (map (assignment_pieces d true) (a ∷ rest))) []
    then condition_pieces d predicates

unfoldable pub conflict_action_pieces : Dialect → DmlConflictClause → Pieces
unfolding update_set_pieces
conflict_action_pieces d c =
    if c.do_nothing
    then fixed (codes " DO NOTHING")
    else update_set_pieces d c.assignments c.predicates

unfoldable pub conflict_pieces : Dialect → Option DmlConflictClause → Pieces
unfolding conflict_target_pieces conflict_action_pieces ◌then◌
conflict_pieces d none = ok []
conflict_pieces d (some c) =
    conflict_target_pieces d c.constraint c.columns then conflict_action_pieces d c

unfoldable pub insert_pieces : Dialect → Pieces → InsertNode → Pieces
unfolding enclosed target_pieces conflict_pieces ◌then◌
insert_pieces d meaning node =
    enclosed (codes "INSERT INTO " ++ d.quote_identifier node.table)
      (target_pieces d meaning node.columns node.rows node.select_source
        then conflict_pieces d node.conflict)
      (append_returning d node.returning ++ codes ";")

-- The SELECT compiles to the statement of the pieces, or throws their error.
abbrev pub Selects : Dialect → Pieces → Option SelectSource → Type 0
Selects d meaning none = Unit
Selects d meaning (some source) = source d ≡ statement d meaning

found-Writes :
    (d : Dialect) (column : Text) (o : Option DmlOperand)
    → Writes d (compile_found d column o) (found_pieces d column o)
unfolding compile_found found_pieces
found-Writes d column none = fail-Writes d (missing_column column)
found-Writes d column (some o) = operand-Writes d false o

row-Writes :
    (d : Dialect) (columns : List Text) (row : List DmlAssignment)
    → Writes d (compile_row d columns row) (row_pieces d columns row)
unfolding compile_row row_pieces compile_cell cell_pieces
row-Writes d columns row =
    within-Writes d (codes "(") (codes ")") (separated (codes ", ") (compile_cell d row) columns)
      (separated_pieces (codes ", ") (map (cell_pieces d row) columns))
      (separated-Writes d (codes ", ") (compile_cell d row) (cell_pieces d row) columns (
        All-every (λ c. Writes d (compile_cell d row c) (cell_pieces d row c)) columns
          (λ c. found-Writes d c (find_operand c row))))

rows-Writes :
    (d : Dialect) (columns : List Text) (rows : List (List DmlAssignment))
    → Writes d (compile_rows d columns rows) (rows_pieces d columns rows)
unfolding compile_rows rows_pieces
rows-Writes d columns [] = fail-Writes d no_rows
rows-Writes d columns (row ∷ rows) =
    within-Writes d (codes "VALUES ") []
      (separated (codes ", ") (compile_row d columns) (row ∷ rows))
      (separated_pieces (codes ", ") (map (row_pieces d columns) (row ∷ rows)))
      (separated-Writes d (codes ", ") (compile_row d columns) (row_pieces d columns) (row ∷ rows) (
        All-every (λ r. Writes d (compile_row d columns r) (row_pieces d columns r)) (row ∷ rows)
          (row-Writes d columns)))

conflict_target-Writes :
    (d : Dialect) (constraint : Option Text) (columns : List Text)
    → Writes d (conflict_target d constraint columns) (conflict_target_pieces d constraint columns)
unfolding conflict_target conflict_target_pieces
conflict_target-Writes d (some name) columns params = go (is_postgresql d.family)
  where
    go :
        (b : Bool)
        → (if b
              then pure (codes " ON CONFLICT ON CONSTRAINT " ++ d.quote_identifier name)
              else fail constraint_unsupported)
            params
          ≡ emit d params (
              if b
              then fixed (codes " ON CONFLICT ON CONSTRAINT " ++ d.quote_identifier name)
              else err constraint_unsupported)
    go true = fixed-Writes d (codes " ON CONFLICT ON CONSTRAINT " ++ d.quote_identifier name) params
    go false = fail-Writes d constraint_unsupported params
conflict_target-Writes d none [] params = fail-Writes d no_conflict_columns params
conflict_target-Writes d none (c ∷ cs) params =
    fixed-Writes d (codes " ON CONFLICT (" ++ (column_list d (c ∷ cs) ++ codes ")")) params

condition-Writes :
    (d : Dialect) (ps : List DmlPredicate)
    → Writes d (append_dml_predicates d ps) (condition_pieces d ps)
unfolding append_dml_predicates condition_pieces
condition-Writes d [] = nothing-Writes d
condition-Writes d (p ∷ ps) =
    within-Writes d (codes " WHERE ") [] (separated (codes " AND ") (compile_predicate d) (p ∷ ps))
      (separated_pieces (codes " AND ") (map (predicate_pieces d) (p ∷ ps)))
      (separated-Writes d (codes " AND ") (compile_predicate d) (predicate_pieces d) (p ∷ ps) (
        All-every (λ x. Writes d (compile_predicate d x) (predicate_pieces d x)) (p ∷ ps)
          (predicate-Writes d)))

update_set-Writes :
    (d : Dialect) (xs : List DmlAssignment) (ps : List DmlPredicate)
    → Writes d (update_set d xs ps) (update_set_pieces d xs ps)
unfolding update_set update_set_pieces
update_set-Writes d [] ps = fail-Writes d no_conflict_assignments
update_set-Writes d (a ∷ rest) ps =
    followed_by-Writes d
      (within (codes " DO UPDATE SET ")
        (separated (codes ", ") (compile_assignment d true) (a ∷ rest)) [])
      (append_dml_predicates d ps)
      (enclosed (codes " DO UPDATE SET ")
        (separated_pieces (codes ", ") (map (assignment_pieces d true) (a ∷ rest))) [])
      (condition_pieces d ps)
      (within-Writes d (codes " DO UPDATE SET ") []
        (separated (codes ", ") (compile_assignment d true) (a ∷ rest))
        (separated_pieces (codes ", ") (map (assignment_pieces d true) (a ∷ rest)))
        (separated-Writes d (codes ", ") (compile_assignment d true) (assignment_pieces d true)
          (a ∷ rest)
          (All-every (λ x. Writes d (compile_assignment d true x) (assignment_pieces d true x))
            (a ∷ rest) (assignment-Writes d true))))
      (condition-Writes d ps)

conflict_action-Writes :
    (d : Dialect) (c : DmlConflictClause)
    → Writes d (conflict_action d c) (conflict_action_pieces d c)
unfolding conflict_action conflict_action_pieces
conflict_action-Writes d c params = go c.do_nothing
  where
    go :
        (b : Bool)
        → (if b then pure (codes " DO NOTHING") else update_set d c.assignments c.predicates) params
          ≡ emit d params (
              if b
              then fixed (codes " DO NOTHING")
              else update_set_pieces d c.assignments c.predicates)
    go true = fixed-Writes d (codes " DO NOTHING") params
    go false = update_set-Writes d c.assignments c.predicates params

conflict-Writes :
    (d : Dialect) (c : Option DmlConflictClause)
    → Writes d (compile_conflict d c) (conflict_pieces d c)
unfolding compile_conflict conflict_pieces
conflict-Writes d none = nothing-Writes d
conflict-Writes d (some c) =
    followed_by-Writes d (conflict_target d c.constraint c.columns) (conflict_action d c)
      (conflict_target_pieces d c.constraint c.columns) (conflict_action_pieces d c)
      (conflict_target-Writes d c.constraint c.columns) (conflict_action-Writes d c)

target_at :
    (d : Dialect) (meaning : Pieces) (columns : List Text) (rows : List (List DmlAssignment))
    (source : Option SelectSource)
    → Selects d meaning source
    → compile_target d columns rows source []
      ≡ emit d [] (target_pieces d meaning columns rows source)
unfolding compile_target target_pieces compile_source source_pieces
target_at d meaning [] [] none h = fixed-Writes d (codes " DEFAULT VALUES") []
target_at d meaning [] [] (some source) h = fail-Writes d no_insert_columns []
target_at d meaning [] (row ∷ rows) source h = fail-Writes d no_insert_columns []
target_at d meaning (c ∷ cs) rows (some source) h =
    within_at d (codes " (" ++ (column_list d (c ∷ cs) ++ codes ") ")) [] (embed (source d)) meaning
      (embed_at d (source d) meaning h)
target_at d meaning (c ∷ cs) rows none h =
    within_at d (codes " (" ++ (column_list d (c ∷ cs) ++ codes ") ")) []
      (compile_rows d (c ∷ cs) rows) (rows_pieces d (c ∷ cs) rows) (rows-Writes d (c ∷ cs) rows [])

-- For every INSERT and every dialect, `compile` gives the statement of `insert_pieces`, or throws its
-- error: the SQL with the placeholders numbered from 1 on from left to right, and in `params` the
-- value of each placeholder at its number. Where the rows come from a SELECT, it has to compile to
-- such a statement itself.
pub compile_insert-statement :
    (d : Dialect) (node : InsertNode) (meaning : Pieces)
    → Selects d meaning node.select_source
    → compile_insert d node ≡ statement d (insert_pieces d meaning node)
unfolding compile_insert insert_text insert_pieces
compile_insert-statement d node meaning h =
    compiled-statement_at d (insert_text d node) (insert_pieces d meaning node) (
      within_at d (codes "INSERT INTO " ++ d.quote_identifier node.table)
        (append_returning d node.returning ++ codes ";")
        (followed_by (compile_target d node.columns node.rows node.select_source)
          (compile_conflict d node.conflict))
        (target_pieces d meaning node.columns node.rows node.select_source
          then conflict_pieces d node.conflict)
        (followed_by_at d [] (compile_target d node.columns node.rows node.select_source)
          (compile_conflict d node.conflict)
          (target_pieces d meaning node.columns node.rows node.select_source)
          (conflict_pieces d node.conflict)
          (target_at d meaning node.columns node.rows node.select_source h)
          (λ ps _. conflict-Writes d node.conflict ([] ++ values_of ps))))
