-- ===== src/Sqlite/Tests.antt =====
-- Runs of the SQLite parser on a statement, and its theorems at it.
use metal_orm_cpp.Base.{
  List, ◌+◌, ◌≡◌, refl, true, false, none, some, [], ◌∷◌, ◌++◌, map, Text, codes, arith, length,
  text_eq,
}
use metal_orm_cpp.Schema.{DatabaseColumn, DatabaseTable}
use metal_orm_cpp.Dialect.{quote_ansi_identifier}
use metal_orm_cpp.Sqlite.{
  trim_sql_view, read_sql_identifier, is_space, sql_keyword_at, skip_sql_space,
}
use metal_orm_cpp.Sqlite.Scan.{
  plain, advance, is_code, peek, extract_check_expression, split_sqlite_table_body,
  find_sql_matching_paren, keyword_loop, find_sql_keyword_top_level,
}
use metal_orm_cpp.Sqlite.Constraints.{
  name_loop, constraint_name_for, parse_sqlite_unique_constraints, parse_sqlite_check_constraints,
}
use metal_orm_cpp.Sqlite.Segments.{
  Closed, IsSegment, joined, run, unbroken, is_head, split_sqlite_table_body-joined,
}
use metal_orm_cpp.Sqlite.Quoted.{Column, definition, create, split_sqlite_table_body-create}
use metal_orm_cpp.Sqlite.Names.{
  read_sql_identifier-quote_ansi_identifier, extract_check_expression_lem,
  constraint_name_for_enough,
}

abbrev head : Text
head = codes "CREATE TABLE \"a(b\" "

abbrev id_segment : Text
id_segment = codes " id INTEGER CHECK (id IN (1, 2)) /* a, b */"

abbrev name_segment : Text
name_segment = codes "\n  name TEXT DEFAULT ',)'"

id_segment-IsSegment : IsSegment id_segment
unfolding run unbroken is_code advance
id_segment-IsSegment = (
  record { whole = refl; ends = refl },
  record { whole = refl; ends = refl },
  record { whole = refl; ends = refl },
)

name_segment-IsSegment : IsSegment name_segment
unfolding run unbroken is_code advance
name_segment-IsSegment = (
  record { whole = refl; ends = refl },
  record { whole = refl; ends = refl },
  record { whole = refl; ends = refl },
)

head_lem : is_head plain false head ≡ true
unfolding is_head
head_lem = refl

joined_run :
    split_sqlite_table_body
      (head ++ b'(' ∷ (joined id_segment (name_segment ∷ []) ++ b')' ∷ codes " STRICT"))
    ≡ map trim_sql_view (id_segment ∷ name_segment ∷ [])
joined_run =
    split_sqlite_table_body-joined head (codes " STRICT") id_segment (name_segment ∷ []) head_lem
      (id_segment-IsSegment, (name_segment-IsSegment, tt))

read_sql_identifier-quote_ansi_identifier_example :
    read_sql_identifier (codes "x " ++ (quote_ansi_identifier (codes "a\"b") ++ codes " TEXT")) 2
    ≡ (some (codes "a\"b"), 2 + length (quote_ansi_identifier (codes "a\"b")))
read_sql_identifier-quote_ansi_identifier_example =
    read_sql_identifier-quote_ansi_identifier (codes "x ") (codes "a\"b") (codes " TEXT")
      (unfold peek in (λ e. omega (arith, e)))

abbrev bounds : Text
bounds = codes " price > (0) "

bounds-Closed : Closed bounds b')'
unfolding run unbroken is_code advance
bounds-Closed = record { whole = refl; ends = refl }

extract_check_expression_lem_example :
    extract_check_expression (codes "CHECK" ++ (codes " " ++ b'(' ∷ (bounds ++ b')' ∷ []))) 0
    ≡ some (trim_sql_view bounds)
unfolding is_space
extract_check_expression_lem_example =
    extract_check_expression_lem (codes "CHECK") (codes " ") bounds [] 0 refl (refl, tt)
      bounds-Closed

-- The name before REFERENCES is the second constraint's.
abbrev named_twice : Text
named_twice = codes "x CONSTRAINT n CHECK (1) CONSTRAINT fk REFERENCES t(id)"

constraint_name_for_enough_example :
    name_loop 40 named_twice 39 0 ≡ some (constraint_name_for named_twice 39)
constraint_name_for_enough_example = constraint_name_for_enough named_twice 39 40 (omega arith)

constraint_name_run : constraint_name_for named_twice 39 ≡ some (codes "fk")
unfolding constraint_name_for find_sql_keyword_top_level keyword_loop advance is_code sql_keyword_at
    read_sql_identifier
constraint_name_run = refl

abbrev column : Text → DatabaseColumn
column name = record {
  name = name;
  type_name = codes "TEXT";
  not_null = false;
  unique = false;
  unique_name = none;
  default_value = none;
  auto_increment = false;
  references = none;
  check = none;
  comment = none;
}

abbrev users : DatabaseTable
users = record {
  name = codes "users";
  columns = column (codes "id") ∷ column (codes "mail") ∷ [];
  primary_key = [];
  indexes = [];
  checks = [];
  comment = none;
  primary_key_name = none;
}

abbrev users_sql : Text
users_sql =
    codes
      "CREATE TABLE users (id INTEGER CHECK (id > 0), \"mail\" TEXT CONSTRAINT um UNIQUE, CONSTRAINT \"c\" CHECK (mail <> ')'))"

check_run : parse_sqlite_check_constraints users_sql users ≡ record users {
  columns =
      record (column (codes "id")) { check = some (codes "id > 0") } ∷ column (codes "mail") ∷ [];
  checks = record { name = some (codes "c"); expression = codes "mail <> ')'" } ∷ [];
}
unfolding parse_sqlite_check_constraints split_sqlite_table_body find_sql_matching_paren
    trim_sql_view sql_keyword_at skip_sql_space read_sql_identifier text_eq
    find_sql_keyword_top_level
check_run = refl

unique_run : parse_sqlite_unique_constraints users_sql users ≡ record users {
  columns =
      column (codes "id")
      ∷ record (column (codes "mail")) { unique = true; unique_name = some (codes "um") }
      ∷ [];
}
unfolding parse_sqlite_unique_constraints split_sqlite_table_body find_sql_matching_paren
    trim_sql_view sql_keyword_at skip_sql_space read_sql_identifier text_eq
    find_sql_keyword_top_level
unique_run = refl

integer-IsSegment : IsSegment (codes " INTEGER CHECK (\"a\" IN (1, 2))")
unfolding run unbroken is_code advance
integer-IsSegment = (
  record { whole = refl; ends = refl },
  record { whole = refl; ends = refl },
  record { whole = refl; ends = refl },
)

text-IsSegment : IsSegment (codes " TEXT -- a, b\n")
unfolding run unbroken is_code advance
text-IsSegment = (
  record { whole = refl; ends = refl },
  record { whole = refl; ends = refl },
  record { whole = refl; ends = refl },
)

abbrev odd_columns : List Column
odd_columns = (codes "/*\"(", codes "TEXT -- a, b\n") ∷ []

split_sqlite_table_body-create_example :
    split_sqlite_table_body (
      create (codes "a(b")
      ++ b'('
        ∷ (joined
              (definition (codes "x,y", codes "INTEGER CHECK (\"a\" IN (1, 2))"))
              (map definition odd_columns)
            ++ b')' ∷ codes " STRICT"))
    ≡ map trim_sql_view
        (map definition ((codes "x,y", codes "INTEGER CHECK (\"a\" IN (1, 2))") ∷ odd_columns))
split_sqlite_table_body-create_example =
    split_sqlite_table_body-create (codes "a(b") (codes " STRICT")
      (codes "x,y", codes "INTEGER CHECK (\"a\" IN (1, 2))") odd_columns
      (integer-IsSegment, (text-IsSegment, tt))
