-- ===== src/Query/Functions.antt =====
-- include/metal/query/sqlite_compiler.hpp: the names of functions, and the template of one.
use metal_orm_cpp.Base.{
  ℕ, Bool, true, false, ◌&&◌, ◌||◌, [], ◌∷◌, map, Text, leb, ◌==◌, if◌then◌else◌,
}
use metal_orm_cpp.Dialect.{DialectFamily, is_postgresql}
use metal_orm_cpp.Sqlite.{is_alnum, to_upper}
use metal_orm_cpp.Query.Templates.{Rule}
use metal_orm_cpp.Query.SqliteFunctions.{sqlite_function}
use metal_orm_cpp.Query.PostgresFunctions.{compile_postgres_function}

unfoldable pub upper_ascii : Text → Text
unfolding to_upper
upper_ascii value = map to_upper value

unfoldable pub starts_identifier : ℕ → Bool
starts_identifier c = leb b'A' c && leb c b'Z' || leb b'a' c && leb c b'z' || c == b'_'

unfoldable pub all_identifier : Text → Bool
unfolding is_alnum
all_identifier [] = true
all_identifier (c ∷ cs) = (is_alnum c || c == b'_') && all_identifier cs

unfoldable pub is_function_identifier : Text → Bool
unfolding starts_identifier all_identifier
is_function_identifier [] = false
is_function_identifier (c ∷ cs) = starts_identifier c && all_identifier (c ∷ cs)

-- The template of a function, but for TRUNCATE on SQLite.
unfoldable pub function_template : DialectFamily → Text → Rule
unfolding is_postgresql compile_postgres_function sqlite_function upper_ascii
function_template family given =
    if is_postgresql family
    then compile_postgres_function given (upper_ascii given)
    else sqlite_function given (upper_ascii given)
