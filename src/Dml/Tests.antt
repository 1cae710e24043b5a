-- ===== src/Dml/Tests.antt =====
-- Runs of the statements' builders, and the theorems at an input.
use metal_orm_cpp.Base.{
  ◌≡◌, refl, true, false, none, some, [], ◌∷◌, Text, codes, ok, err, text_eq, ◌≢◌, ℕ, ◌++◌,
}
use metal_orm_cpp.Value.{Value, int, text, pos}
use metal_orm_cpp.Dialect.{postgres_dialect, sqlite_dialect, offset_placeholders}
use metal_orm_cpp.Query.{missing_column, eq, ge, within, bind, compiled}
use metal_orm_cpp.Query.Pieces.{
  Pieces, enclosed, bound, sql, text_of, values_of, statement, within-Writes, bind-Writes,
}
use metal_orm_cpp.Query.Revalued.{revalued}
use metal_orm_cpp.Dml.{
  value, excluded, DmlAssignment, DmlWhereCompiler, InsertNode, UpdateNode, compile_insert,
  compile_update,
}
use metal_orm_cpp.Dml.Insert
use metal_orm_cpp.Dml.Statements.{update_pieces, compile_update-statement}
use metal_orm_cpp.Dml.Inserts.{insert_pieces, compile_insert-statement}
use metal_orm_cpp.Dml.Revalued.{
  change_option, rebind_insert, rebind_update, compile_update-rebind_update,
}
use metal_orm_cpp.Dml.RevaluedInserts.{compile_insert-rebind_insert}
use metal_orm_cpp.Query.Nodes.{ExprNode, Subquery, column_ref, in_subquery}
use metal_orm_cpp.Query.Compile.Meaning.{expression_pieces, ExprOrdered}
use metal_orm_cpp.Dml.Where.{where_context, with_expression, compile_update-with_expression}

-- A subquery with a value of its own.
abbrev managers : Subquery
managers d = compiled (within (codes "SELECT age FROM m WHERE id = ") (bind d (int (pos 9))) [])

abbrev managers_pieces : Subquery → Pieces
managers_pieces q =
    ok (sql (codes "SELECT age FROM m WHERE id = ") ∷ bound (int (pos 9)) ∷ sql [] ∷ [])

abbrev set_to : Text → Value → DmlAssignment
set_to c v = record { column = c; operand = value v }

abbrev upsert : InsertNode
upsert = record {
  table = codes "users";
  columns = codes "id" ∷ codes "name" ∷ [];
  rows =
      (set_to (codes "name") (text (codes "a'b")) ∷ set_to (codes "id") (int (pos 7)) ∷ [])
      ∷ (set_to (codes "id") (int (pos 8)) ∷ set_to (codes "name") (text (codes "c")) ∷ [])
      ∷ [];
  select_source = none;
  conflict = some (record {
    columns = codes "id" ∷ [];
    constraint = none;
    do_nothing = false;
    assignments = record { column = codes "name"; operand = excluded (codes "name") } ∷ [];
    predicates = record { column = codes "age"; op = ge; against = int (pos 18) } ∷ [];
  });
  returning = record { column = codes "id"; name = some (codes "key") } ∷ [];
}

insert_run :
    compile_insert postgres_dialect upsert
    ≡ ok (record {
      sql =
          codes
            "INSERT INTO \"users\" (\"id\", \"name\") VALUES ($1, $2), ($3, $4) ON CONFLICT (\"id\") DO UPDATE SET \"name\" = excluded.\"name\" WHERE \"age\" >= $5 RETURNING \"id\" AS \"key\";";
      params =
          int (pos 7) ∷ text (codes "a'b") ∷ int (pos 8) ∷ text (codes "c") ∷ int (pos 18) ∷ [];
    })
unfolding compile_insert postgres_dialect text_eq
insert_run = refl

-- A builder's row fixes the columns, and a later row without one of them is refused when it compiles.
missing_run :
    elim (Insert.values_all (Insert.insert_into (codes "t") []) (
      (set_to (codes "a") (int (pos 1)) ∷ set_to (codes "b") (int (pos 2)) ∷ [])
      ∷ (set_to (codes "a") (int (pos 3)) ∷ [])
      ∷ [])) [ ok b ↦ compile_insert sqlite_dialect b.node | err e ↦ err e ]
    ≡ err (missing_column (codes "b"))
unfolding compile_insert sqlite_dialect Insert.values_all Insert.insert_into text_eq
missing_run = refl

abbrev older : DmlWhereCompiler
older d = within (codes "\"age\" > ") (bind d (int (pos 65))) []

abbrev older_pieces : Pieces
older_pieces = enclosed (codes "\"age\" > ") (ok (bound (int (pos 65)) ∷ [])) []

abbrev rename : UpdateNode
rename = record {
  table = codes "users";
  assignments = set_to (codes "name") (text (codes "x")) ∷ [];
  predicates = record { column = codes "id"; op = eq; against = int (pos 3) } ∷ [];
  in_predicates =
      record { column = codes "k"; values = int (pos 4) ∷ int (pos 5) ∷ []; negated = true } ∷ [];
  extra_where = some older;
  returning = [];
}

update_run :
    compile_update postgres_dialect rename
    ≡ ok (record {
      sql =
          codes
            "UPDATE \"users\" SET \"name\" = $1 WHERE \"id\" = $2 AND \"k\" NOT IN ($3, $4) AND (\"age\" > $5);";
      params = text (codes "x") ∷ int (pos 3) ∷ int (pos 4) ∷ int (pos 5) ∷ int (pos 65) ∷ [];
    })
unfolding compile_update postgres_dialect
update_run = refl

older-IsVisible :
    (n : ℕ)
    → text_of postgres_dialect n
        (sql (codes "\"age\" > ") ∷ (bound (int (pos 65)) ∷ []) ++ sql [] ∷ [])
      ≢ []
unfolding text_of
older-IsVisible n = λ e. cc

compile_update-statement_example :
    compile_update postgres_dialect rename
    ≡ statement postgres_dialect (update_pieces postgres_dialect older_pieces rename)
unfolding enclosed
compile_update-statement_example = compile_update-statement postgres_dialect rename older_pieces (
  within-Writes postgres_dialect (codes "\"age\" > ") [] (bind postgres_dialect (int (pos 65)))
      (ok (bound (int (pos 65)) ∷ [])) (bind-Writes postgres_dialect (int (pos 65))),
  older-IsVisible,
)

compile_insert-statement_example :
    compile_insert postgres_dialect upsert
    ≡ statement postgres_dialect (insert_pieces postgres_dialect (ok []) upsert)
compile_insert-statement_example = compile_insert-statement postgres_dialect upsert (ok []) tt

abbrev zeroed : Value → Value
zeroed v = int (pos 0)

compile_insert-rebind_insert_example :
    compile_insert sqlite_dialect (rebind_insert zeroed (λ s. s) upsert)
    ≡ revalued zeroed (compile_insert sqlite_dialect upsert)
unfolding change_option
compile_insert-rebind_insert_example =
    compile_insert-rebind_insert sqlite_dialect zeroed (λ s. s) upsert (ok []) tt tt

abbrev rename_older : UpdateNode
rename_older = record rename { extra_where = none }

compile_update-rebind_update_example :
    compile_update sqlite_dialect (rebind_update zeroed (λ w. w) rename_older)
    ≡ revalued zeroed (compile_update sqlite_dialect rename_older)
unfolding change_option
compile_update-rebind_update_example =
    compile_update-rebind_update sqlite_dialect zeroed (λ w. w) rename_older (ok []) tt tt

abbrev of_managers : ExprNode
of_managers = in_subquery (column_ref (record { owner = 1; column = codes "age" })) managers true

of_managers_ordered : ExprOrdered (where_context sqlite_dialect 1) managers_pieces of_managers
unfolding ExprOrdered sqlite_dialect statement text_of compiled within offset_placeholders bind
    values_of
of_managers_ordered = (tt, λ k. refl)

compile_update-with_expression_example :
    compile_update sqlite_dialect (with_expression rename 1 of_managers)
    ≡ statement sqlite_dialect (
        update_pieces sqlite_dialect
          (expression_pieces (where_context sqlite_dialect 1) managers_pieces of_managers)
          (with_expression rename 1 of_managers))
compile_update-with_expression_example =
    compile_update-with_expression sqlite_dialect rename 1 of_managers managers_pieces
      of_managers_ordered
