-- ===== src/Sqlite/Constraints.antt =====
-- include/metal/sqlite_ddl_parser.hpp: the three passes over the segments of a CREATE TABLE statement,
-- for foreign keys, UNIQUE and CHECK. The body of each loop is a function on one segment; the empty
-- segment is passed over.
use metal_orm_cpp.Base.{
  ℕ, zero, suc, ◌+◌, Bool, true, false, ◌&&◌, ◌||◌, Option, none, some, List, [], ◌∷◌, Text, codes,
  text_eq, if◌then◌else◌, ltb, ◌==◌, ◌++◌,
}
use metal_orm_cpp.Schema.{DatabaseColumn, DatabaseTable, ForeignKeyReference}
use metal_orm_cpp.Sqlite.{sql_keyword_at, skip_sql_space, read_sql_identifier}
use metal_orm_cpp.Sqlite.Scan.{
  find_sql_matching_paren, find_sql_keyword_top_level, extract_check_expression,
  split_sqlite_table_body,
}

-- One round of the search of `constraint_name_for_reference` and `constraint_name_for_unique`, which
-- are the same but for the names: the constraint's name where it ends at `target`.
unfoldable pub name_before : Text → ℕ → ℕ → Option Text
name_before segment target constraint_pos =
    let (name, pos) = read_sql_identifier segment (constraint_pos + 10) in
    elim name [
      | none ↦ none
      | some n ↦ if skip_sql_space segment pos == target then some n else none
    ]

-- The loop over `search`, in at most as many rounds as the first argument says: none if it has not
-- ended by then, and else what it returns.
unfoldable pub name_loop : ℕ → Text → ℕ → ℕ → Option (Option Text)
unfolding name_before
name_loop zero segment target search = none
name_loop (suc fuel) segment target search =
    if ltb search target
    then elim (find_sql_keyword_top_level segment (codes "CONSTRAINT") search) [
      | none ↦ some none
      | some constraint_pos ↦
          if ltb constraint_pos target
          then elim (name_before segment target constraint_pos) [
            | some n ↦ some (some n)
            | none ↦ name_loop fuel segment target (constraint_pos + 10)
          ]
          else some none
    ]
    else some none

-- `search` grows in each round, so that one round more than `target` is enough.
unfoldable pub constraint_name_for : Text → ℕ → Option Text
unfolding name_loop
constraint_name_for segment target = elim (name_loop (suc target) segment target 0) [
  | none ↦ none
  | some name ↦ name
]

-- "INITIALLY DEFERRED" behind the DEFERRABLE at `deferrable_pos`.
unfoldable pub initially_deferred : Text → ℕ → Bool
initially_deferred segment deferrable_pos =
    let pos = skip_sql_space segment (deferrable_pos + 10) in
    sql_keyword_at segment pos (codes "INITIALLY")
    && sql_keyword_at segment (skip_sql_space segment (pos + 9)) (codes "DEFERRED")

unfoldable pub negated_at : Text → ℕ → Option ℕ → Bool
negated_at segment deferrable_pos none = false
negated_at segment deferrable_pos (some not_pos) =
    ltb not_pos deferrable_pos && skip_sql_space segment (not_pos + 3) == deferrable_pos

unfoldable pub sqlite_reference_is_deferred : Text → ℕ → Bool
unfolding initially_deferred negated_at
sqlite_reference_is_deferred segment reference_pos =
    elim (find_sql_keyword_top_level segment (codes "DEFERRABLE") (reference_pos + 10)) [
      | none ↦ false
      | some deferrable_pos ↦
          if negated_at segment deferrable_pos
            (find_sql_keyword_top_level segment (codes "NOT") (reference_pos + 10))
          then false
          else initially_deferred segment deferrable_pos
    ]

-- `std::find_if` by the name, and a change of the column that it finds.
unfoldable pub change_column :
    Text → (DatabaseColumn → DatabaseColumn) → List DatabaseColumn → List DatabaseColumn
change_column name f [] = []
change_column name f (c ∷ cs) =
    let rest = change_column name f cs in if text_eq c.name name then f c ∷ cs else c ∷ rest

unfoldable pub has_column : Text → List DatabaseColumn → Bool
has_column name [] = false
has_column name (c ∷ cs) = text_eq c.name name || has_column name cs

unfoldable pub name_or : Option Text → Option Text → Option Text
name_or none found = found
name_or (some n) found = some n

unfoldable pub modified_reference :
    Text → ℕ → Option Text → ForeignKeyReference → ForeignKeyReference
unfolding constraint_name_for sqlite_reference_is_deferred name_or
modified_reference segment reference_pos constraint_name r = record r {
  name = name_or constraint_name (constraint_name_for segment reference_pos);
  deferrable = sqlite_reference_is_deferred segment reference_pos;
}

unfoldable pub apply_sqlite_reference_modifiers :
    DatabaseTable → Text → Text → ℕ → Option Text → DatabaseTable
unfolding change_column modified_reference
apply_sqlite_reference_modifiers table column_name segment reference_pos constraint_name =
    record table {
      columns =
          change_column column_name
            (λ c. record c {
              references = elim c.references [
                | none ↦ none
                | some r ↦ some (modified_reference segment reference_pos constraint_name r)
              ];
            })
            table.columns;
    }

-- The segment's CONSTRAINT, where it has one: its name, and the position behind it.
unfoldable pub leading_constraint : Text → Option Text × ℕ
leading_constraint segment =
    let pos = skip_sql_space segment 0 in
    if sql_keyword_at segment pos (codes "CONSTRAINT")
    then (let (name, after) = read_sql_identifier segment (pos + 10) in
        (name, skip_sql_space segment after))
    else (none, pos)

-- The only column between the parentheses at `pos`, and where they close.
unfoldable pub single_column : Text → ℕ → Option (Text × ℕ)
single_column segment pos = elim (find_sql_matching_paren segment pos) [
  | none ↦ none
  | some close ↦
      let (name, after) = read_sql_identifier segment (suc pos) in
      elim name [
        | none ↦ none
        | some n ↦ if skip_sql_space segment after == close then some (n, close) else none
      ]
]

-- FOREIGN at `pos`: its KEY, column and REFERENCES.
unfoldable pub foreign_key_segment : DatabaseTable → Text → ℕ → Option Text → DatabaseTable
unfolding single_column apply_sqlite_reference_modifiers
foreign_key_segment table segment pos constraint_name =
    let key_pos = skip_sql_space segment (pos + 7) in
    if sql_keyword_at segment key_pos (codes "KEY")
    then elim (single_column segment (skip_sql_space segment (key_pos + 3))) [
      | none ↦ table
      | some (child, close) ↦
          elim (find_sql_keyword_top_level segment (codes "REFERENCES") (suc close)) [
            | none ↦ table
            | some reference_pos ↦
                apply_sqlite_reference_modifiers table child segment reference_pos constraint_name
          ]
    ]
    else table

unfoldable pub reference_segment : DatabaseTable → Text → DatabaseTable
unfolding apply_sqlite_reference_modifiers
reference_segment table segment =
    let (name, pos) = read_sql_identifier segment 0 in
    elim name [
      | none ↦ table
      | some column_name ↦ elim (find_sql_keyword_top_level segment (codes "REFERENCES") pos) [
        | none ↦ table
        | some reference_pos ↦
            apply_sqlite_reference_modifiers table column_name segment reference_pos none
      ]
    ]

unfoldable pub foreign_key_pass : DatabaseTable → Text → DatabaseTable
unfolding leading_constraint foreign_key_segment reference_segment
foreign_key_pass table [] = table
foreign_key_pass table (ch ∷ cs) =
    let segment = ch ∷ cs in
    let (name, pos) = leading_constraint segment in
    if sql_keyword_at segment pos (codes "FOREIGN")
    then foreign_key_segment table segment pos name
    else reference_segment table segment

-- A pass over all segments.
unfoldable pub over_segments :
    (DatabaseTable → Text → DatabaseTable) → DatabaseTable → List Text → DatabaseTable
over_segments pass table [] = table
over_segments pass table (s ∷ ss) = over_segments pass (pass table s) ss

unfoldable pub parse_sqlite_foreign_key_modifiers : Text → DatabaseTable → DatabaseTable
unfolding over_segments foreign_key_pass
parse_sqlite_foreign_key_modifiers create_sql table =
    over_segments foreign_key_pass table (split_sqlite_table_body create_sql)

unfoldable pub apply_sqlite_column_unique : DatabaseTable → Text → Option Text → DatabaseTable
unfolding change_column
apply_sqlite_column_unique table column_name constraint_name = record table {
  columns =
      change_column column_name (λ c. record c { unique = true; unique_name = constraint_name })
        table.columns;
}

unfoldable pub column_unique_segment : DatabaseTable → Text → DatabaseTable
unfolding apply_sqlite_column_unique constraint_name_for
column_unique_segment table segment =
    let (name, pos) = read_sql_identifier segment 0 in
    elim name [
      | none ↦ table
      | some column_name ↦ elim (find_sql_keyword_top_level segment (codes "UNIQUE") pos) [
        | none ↦ table
        | some unique_pos ↦
            apply_sqlite_column_unique table column_name (constraint_name_for segment unique_pos)
      ]
    ]

unfoldable pub table_unique_segment : DatabaseTable → Text → ℕ → Option Text → DatabaseTable
unfolding single_column apply_sqlite_column_unique
table_unique_segment table segment pos constraint_name =
    elim (single_column segment (skip_sql_space segment (pos + 6))) [
      | none ↦ table
      | some (column_name, close) ↦ apply_sqlite_column_unique table column_name constraint_name
    ]

unfoldable pub unique_pass : DatabaseTable → Text → DatabaseTable
unfolding leading_constraint table_unique_segment column_unique_segment
unique_pass table [] = table
unique_pass table (ch ∷ cs) =
    let segment = ch ∷ cs in
    let (name, pos) = leading_constraint segment in
    if sql_keyword_at segment pos (codes "UNIQUE")
    then table_unique_segment table segment pos name
    else column_unique_segment table segment

unfoldable pub parse_sqlite_unique_constraints : Text → DatabaseTable → DatabaseTable
unfolding over_segments unique_pass
parse_sqlite_unique_constraints create_sql table =
    over_segments unique_pass table (split_sqlite_table_body create_sql)

unfoldable pub table_check_segment : DatabaseTable → Text → ℕ → Option Text → DatabaseTable
unfolding extract_check_expression
table_check_segment table segment check_pos constraint_name =
    elim (extract_check_expression segment check_pos) [
      | none ↦ table
      | some e ↦ record table {
        checks = table.checks ++ record { name = constraint_name; expression = e } ∷ [];
      }
    ]

unfoldable pub check_at : DatabaseTable → Text → Text → ℕ → DatabaseTable
unfolding extract_check_expression change_column
check_at table segment column_name check_pos = elim (extract_check_expression segment check_pos) [
  | none ↦ table
  | some e ↦ record table {
    columns = change_column column_name (λ c. record c { check = some e }) table.columns;
  }
]

unfoldable pub column_check_segment : DatabaseTable → Text → DatabaseTable
unfolding check_at has_column
column_check_segment table segment =
    let (name, pos) = read_sql_identifier segment 0 in
    elim name [
      | none ↦ table
      | some column_name ↦
          if has_column column_name table.columns
          then elim (find_sql_keyword_top_level segment (codes "CHECK") pos) [
            | none ↦ table
            | some check_pos ↦ check_at table segment column_name check_pos
          ]
          else table
    ]

unfoldable pub check_pass : DatabaseTable → Text → DatabaseTable
unfolding leading_constraint table_check_segment column_check_segment
check_pass table [] = table
check_pass table (ch ∷ cs) =
    let segment = ch ∷ cs in
    let (name, pos) = leading_constraint segment in
    if sql_keyword_at segment pos (codes "CHECK")
    then table_check_segment table segment pos name
    else column_check_segment table segment

unfoldable pub parse_sqlite_check_constraints : Text → DatabaseTable → DatabaseTable
unfolding over_segments check_pass
parse_sqlite_check_constraints create_sql table =
    over_segments check_pass table (split_sqlite_table_body create_sql)
