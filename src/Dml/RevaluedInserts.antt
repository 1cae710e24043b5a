-- ===== src/Dml/RevaluedInserts.antt =====
-- include/metal/dml.hpp: INSERT binds its values too.
use metal_orm_cpp.Base.{
  All-every, ◌≡◌, refl, sym, ap, ◌∙◌, true, false, Option, none, some, List, [], ◌∷◌, ◌++◌, map,
  Text, text_eq, codes, if◌then◌else◌, Bool-cases, inl, inr,
}
use metal_orm_cpp.Value.{Value}
use metal_orm_cpp.Dialect.{is_postgresql, Dialect}
use metal_orm_cpp.Query.Pieces.{Pieces, ◌then◌, enclosed, separated_pieces, statement}
use metal_orm_cpp.Query.Revalued.{
  revalued, revalue_all, revalue, statement-revalue, revalue-then, revalue-enclosed,
  revalue-separated_pieces,
}
use metal_orm_cpp.Dml.{
  DmlOperand, DmlAssignment, DmlPredicate, DmlConflictClause, InsertNode, SelectSource,
  append_returning, column_list, find_operand, compile_insert,
}
use metal_orm_cpp.Dml.Statements.{predicate_pieces, assignment_pieces}
use metal_orm_cpp.Dml.Revalued.{
  rebind_operand, rebind_assignment, rebind_predicate, rebind_conflict, change_option,
  rebind_insert, operand_rebound, predicate_rebound, assignments_rebound,
}
use metal_orm_cpp.Dml.Inserts.{
  found_pieces, cell_pieces, row_pieces, rows_pieces, source_pieces, target_pieces,
  conflict_target_pieces, condition_pieces, update_set_pieces, conflict_action_pieces,
  conflict_pieces, insert_pieces, Selects, compile_insert-statement,
}

find_operand_rebound :
    (f : Value → Value) (column : Text) (row : List DmlAssignment)
    → find_operand column (map (rebind_assignment f) row)
      ≡ change_option (rebind_operand f) (find_operand column row)
unfolding find_operand change_option rebind_assignment
find_operand_rebound f column [] = refl
find_operand_rebound f column (a ∷ row) = elim (Bool-cases (text_eq a.column column)) [
  | inl q ↦ rw q refl
  | inr q ↦ rw q (find_operand_rebound f column row)
]

found_rebound :
    (d : Dialect) (f : Value → Value) (column : Text) (o : Option DmlOperand)
    → revalue f (found_pieces d column o)
      ≡ found_pieces d column (change_option (rebind_operand f) o)
unfolding found_pieces change_option revalue
found_rebound d f column none = refl
found_rebound d f column (some o) = operand_rebound d f false o

keep : {A : Type 0} → A → A
keep x = x

map-keep : {A : Type 0} (xs : List A) → map keep xs ≡ xs
unfolding keep
map-keep [] = refl
map-keep (x ∷ xs) = ap (◌∷◌ x) (map-keep xs)

row_rebound :
    (d : Dialect) (f : Value → Value) (columns : List Text) (row : List DmlAssignment)
    → revalue f (row_pieces d columns row) ≡ row_pieces d columns (map (rebind_assignment f) row)
unfolding row_pieces cell_pieces keep
row_rebound d f columns row =
    revalue-enclosed f (codes "(") (codes ")")
      (separated_pieces (codes ", ") (map (cell_pieces d row) columns))
    ∙ ap (λ r. enclosed (codes "(") r (codes ")"))
        (revalue-separated_pieces f (codes ", ") keep (cell_pieces d row)
            (cell_pieces d (map (rebind_assignment f) row)) columns
            (All-every
              (λ c.
                revalue f (cell_pieces d row c) ≡ cell_pieces d (map (rebind_assignment f) row) c)
              columns
              (λ c.
                found_rebound d f c (find_operand c row)
                ∙ ap (found_pieces d c) (sym (find_operand_rebound f c row))))
          ∙ ap
              (λ cs.
                separated_pieces (codes ", ")
                  (map (cell_pieces d (map (rebind_assignment f) row)) cs))
              (map-keep columns))

rows_rebound :
    (d : Dialect) (f : Value → Value) (columns : List Text) (rows : List (List DmlAssignment))
    → revalue f (rows_pieces d columns rows)
      ≡ rows_pieces d columns (map (map (rebind_assignment f)) rows)
unfolding rows_pieces revalue
rows_rebound d f columns [] = refl
rows_rebound d f columns (row ∷ rows) =
    revalue-enclosed f (codes "VALUES ") []
      (separated_pieces (codes ", ") (map (row_pieces d columns) (row ∷ rows)))
    ∙ ap (λ r. enclosed (codes "VALUES ") r [])
        (revalue-separated_pieces f (codes ", ") (map (rebind_assignment f)) (row_pieces d columns)
          (row_pieces d columns) (row ∷ rows)
          (All-every
            (λ r.
              revalue f (row_pieces d columns r)
              ≡ row_pieces d columns (map (rebind_assignment f) r))
            (row ∷ rows) (row_rebound d f columns)))

target_rebound :
    (d : Dialect) (f : Value → Value) (g : SelectSource → SelectSource) (meaning : Pieces)
    (columns : List Text) (rows : List (List DmlAssignment)) (source : Option SelectSource)
    → revalue f (target_pieces d meaning columns rows source)
      ≡ target_pieces d
          (revalue f meaning)
          columns
          (map (map (rebind_assignment f)) rows)
          (change_option g source)
unfolding target_pieces source_pieces change_option revalue revalue_all
target_rebound d f g meaning [] [] none = refl
target_rebound d f g meaning [] [] (some source) = refl
target_rebound d f g meaning [] (row ∷ rows) source = refl
target_rebound d f g meaning (c ∷ cs) rows (some source) =
    revalue-enclosed f (codes " (" ++ (column_list d (c ∷ cs) ++ codes ") ")) [] meaning
target_rebound d f g meaning (c ∷ cs) rows none =
    revalue-enclosed f (codes " (" ++ (column_list d (c ∷ cs) ++ codes ") ")) []
      (rows_pieces d (c ∷ cs) rows)
    ∙ ap (λ r. enclosed (codes " (" ++ (column_list d (c ∷ cs) ++ codes ") ")) r [])
        (rows_rebound d f (c ∷ cs) rows)

condition_rebound :
    (d : Dialect) (f : Value → Value) (ps : List DmlPredicate)
    → revalue f (condition_pieces d ps) ≡ condition_pieces d (map (rebind_predicate f) ps)
unfolding condition_pieces revalue revalue_all
condition_rebound d f [] = refl
condition_rebound d f (p ∷ ps) =
    revalue-enclosed f (codes " WHERE ") []
      (separated_pieces (codes " AND ") (map (predicate_pieces d) (p ∷ ps)))
    ∙ ap (λ r. enclosed (codes " WHERE ") r [])
        (revalue-separated_pieces f (codes " AND ") (rebind_predicate f) (predicate_pieces d)
          (predicate_pieces d) (p ∷ ps)
          (All-every
            (λ x. revalue f (predicate_pieces d x) ≡ predicate_pieces d (rebind_predicate f x))
            (p ∷ ps) (predicate_rebound d f)))

update_set_rebound :
    (d : Dialect) (f : Value → Value) (xs : List DmlAssignment) (ps : List DmlPredicate)
    → revalue f (update_set_pieces d xs ps)
      ≡ update_set_pieces d (map (rebind_assignment f) xs) (map (rebind_predicate f) ps)
unfolding update_set_pieces revalue
update_set_rebound d f [] ps = refl
update_set_rebound d f (a ∷ rest) ps =
    revalue-then f
      (enclosed (codes " DO UPDATE SET ")
        (separated_pieces (codes ", ") (map (assignment_pieces d true) (a ∷ rest))) [])
      (condition_pieces d ps)
    ∙ ap (λ r. r then revalue f (condition_pieces d ps))
        (revalue-enclosed f (codes " DO UPDATE SET ") []
            (separated_pieces (codes ", ") (map (assignment_pieces d true) (a ∷ rest)))
          ∙ ap (λ r. enclosed (codes " DO UPDATE SET ") r [])
              (assignments_rebound d f true (a ∷ rest)))
    ∙ ap
        (λ r.
          enclosed (codes " DO UPDATE SET ")
            (separated_pieces (codes ", ")
              (map (assignment_pieces d true) (map (rebind_assignment f) (a ∷ rest))))
            []
          then r)
        (condition_rebound d f ps)

conflict_target_rebound :
    (d : Dialect) (f : Value → Value) (constraint : Option Text) (columns : List Text)
    → revalue f (conflict_target_pieces d constraint columns)
      ≡ conflict_target_pieces d constraint columns
unfolding conflict_target_pieces revalue revalue_all
conflict_target_rebound d f none [] = refl
conflict_target_rebound d f none (c ∷ cs) = refl
conflict_target_rebound d f (some name) columns = elim (Bool-cases (is_postgresql d.family)) [
  | inl q ↦ rw q refl
  | inr q ↦ rw q refl
]

conflict_action_rebound :
    (d : Dialect) (f : Value → Value) (c : DmlConflictClause)
    → revalue f (conflict_action_pieces d c) ≡ conflict_action_pieces d (rebind_conflict f c)
unfolding conflict_action_pieces rebind_conflict revalue revalue_all
conflict_action_rebound d f c = elim (Bool-cases c.do_nothing) [
  | inl q ↦ rw q refl
  | inr q ↦ rw q (update_set_rebound d f c.assignments c.predicates)
]

conflict_rebound :
    (d : Dialect) (f : Value → Value) (c : Option DmlConflictClause)
    → revalue f (conflict_pieces d c) ≡ conflict_pieces d (change_option (rebind_conflict f) c)
unfolding conflict_pieces change_option revalue revalue_all rebind_conflict
conflict_rebound d f none = refl
conflict_rebound d f (some c) =
    revalue-then f (conflict_target_pieces d c.constraint c.columns) (conflict_action_pieces d c)
    ∙ ap (λ r. r then revalue f (conflict_action_pieces d c))
        (conflict_target_rebound d f c.constraint c.columns)
    ∙ ap (λ r. conflict_target_pieces d c.constraint c.columns then r)
        (conflict_action_rebound d f c)

insert_rebound :
    (d : Dialect) (f : Value → Value) (g : SelectSource → SelectSource) (meaning : Pieces)
    (node : InsertNode)
    → revalue f (insert_pieces d meaning node)
      ≡ insert_pieces d (revalue f meaning) (rebind_insert f g node)
unfolding insert_pieces rebind_insert
insert_rebound d f g meaning node =
    revalue-enclosed f (codes "INSERT INTO " ++ d.quote_identifier node.table)
      (append_returning d node.returning ++ codes ";")
      (target_pieces d meaning node.columns node.rows node.select_source
        then conflict_pieces d node.conflict)
    ∙ ap
        (λ r.
          enclosed (codes "INSERT INTO " ++ d.quote_identifier node.table) r
            (append_returning d node.returning ++ codes ";"))
        (revalue-then f (target_pieces d meaning node.columns node.rows node.select_source)
            (conflict_pieces d node.conflict)
          ∙ ap (λ r. r then revalue f (conflict_pieces d node.conflict))
              (target_rebound d f g meaning node.columns node.rows node.select_source)
          ∙ ap
              (λ r.
                target_pieces d (revalue f meaning) node.columns
                  (map (map (rebind_assignment f)) node.rows) (change_option g node.select_source)
                then r)
              (conflict_rebound d f node.conflict))

-- The SQL of an INSERT never depends on the values in it: with `f` applied to every value of its rows
-- and of its conflict clause, `compile` throws the same error, or gives the same SQL, with `f` applied
-- to the parameters. A SELECT that gives the rows has to behave so itself.
pub compile_insert-rebind_insert :
    (d : Dialect) (f : Value → Value) (g : SelectSource → SelectSource) (node : InsertNode)
    (meaning : Pieces)
    → Selects d meaning node.select_source
    → Selects d (revalue f meaning) (change_option g node.select_source)
    → compile_insert d (rebind_insert f g node) ≡ revalued f (compile_insert d node)
unfolding rebind_insert
compile_insert-rebind_insert d f g node meaning h k =
    compile_insert-statement d (rebind_insert f g node) (revalue f meaning) k
    ∙ ap (statement d) (sym (insert_rebound d f g meaning node))
    ∙ statement-revalue d f (insert_pieces d meaning node)
    ∙ ap (revalued f) (sym (compile_insert-statement d node meaning h))
