-- ===== src/Query/PostgresFunctions.antt =====
-- include/metal/query/postgres_function_compiler.hpp: the SQL of functions on PostgreSQL.
use metal_orm_cpp.Base.{
  none, some, List, [], ◌∷◌, ◌++◌, map, Text, codes, starts_with, ok, err, ◌==◌, drop,
  if◌then◌else◌,
}
use metal_orm_cpp.Query.{wrong_arity}
use metal_orm_cpp.Query.Templates.{lit, slot, Rule, exactly, call, up_to_one, find_rule, to_lower}

unfoldable pub extract : Text → Rule
extract part =
    exactly 1 (lit (codes "EXTRACT(" ++ (part ++ codes " FROM ")) ∷ slot 0 ∷ lit (codes ")") ∷ [])

unfoldable pub group_concat : Rule
group_concat n =
    if n == 1
    then ok (lit (codes "STRING_AGG(") ∷ slot 0 ∷ lit (codes ", ',')") ∷ [])
    else if n == 2
    then ok (lit (codes "STRING_AGG(") ∷ slot 0 ∷ lit (codes ", ") ∷ slot 1 ∷ lit (codes ")") ∷ [])
    else err wrong_arity

abbrev pub postgres_rules : List (Text × Rule)
postgres_rules =
    (codes "NOW", exactly 0 (lit (codes "NOW()") ∷ []))
    ∷ (codes "CURRENT_DATE", exactly 0 (lit (codes "CURRENT_DATE") ∷ []))
    ∷ (codes "CURRENT_TIME", exactly 0 (lit (codes "CURRENT_TIME") ∷ []))
    ∷ (codes "UTC_NOW", exactly 0 (lit (codes "(NOW() AT TIME ZONE 'UTC')") ∷ []))
    ∷ (codes "LOCAL_TIME", exactly 0 (lit (codes "LOCALTIME") ∷ []))
    ∷ (codes "LOCAL_TIMESTAMP", exactly 0 (lit (codes "LOCALTIMESTAMP") ∷ []))
    ∷ (
      codes "POSITION",
      exactly 2
          (lit (codes "POSITION(") ∷ slot 0 ∷ lit (codes " IN ") ∷ slot 1 ∷ lit (codes ")") ∷ []),
    )
    ∷ (
      codes "LOCATE",
      exactly 2
          (lit (codes "POSITION(") ∷ slot 0 ∷ lit (codes " IN ") ∷ slot 1 ∷ lit (codes ")") ∷ []),
    )
    ∷ (
      codes "INSTR",
      exactly 2 (lit (codes "STRPOS(") ∷ slot 0 ∷ lit (codes ", ") ∷ slot 1 ∷ lit (codes ")") ∷ []),
    )
    ∷ (codes "IF_NULL", call (codes "COALESCE"))
    ∷ (codes "GROUP_CONCAT", group_concat)
    ∷ (codes "RANDOM", exactly 0 (lit (codes "RANDOM()") ∷ []))
    ∷ (codes "RAND", exactly 0 (lit (codes "RANDOM()") ∷ []))
    ∷ (
      codes "TRUNCATE",
      exactly 2 (lit (codes "TRUNC(") ∷ slot 0 ∷ lit (codes ", ") ∷ slot 1 ∷ lit (codes ")") ∷ []),
    )
    ∷ (codes "YEAR", extract (codes "YEAR"))
    ∷ (codes "MONTH", extract (codes "MONTH"))
    ∷ (codes "DAY", extract (codes "DAY"))
    ∷ (codes "HOUR", extract (codes "HOUR"))
    ∷ (codes "MINUTE", extract (codes "MINUTE"))
    ∷ (codes "SECOND", extract (codes "SECOND"))
    ∷ (codes "QUARTER", extract (codes "QUARTER"))
    ∷ (codes "DAY_OF_WEEK", extract (codes "DOW"))
    ∷ (codes "WEEK_OF_YEAR", extract (codes "WEEK"))
    ∷ (
      codes "DATE_DIFF",
      exactly 2 (
          lit (codes "(") ∷ slot 0 ∷ lit (codes "::DATE - ") ∷ slot 1 ∷ lit (codes "::DATE)") ∷ []),
    )
    ∷ (
      codes "DATE_FORMAT",
      exactly 2
          (lit (codes "TO_CHAR(") ∷ slot 0 ∷ lit (codes ", ") ∷ slot 1 ∷ lit (codes ")") ∷ []),
    )
    ∷ (
      codes "UNIX_TIMESTAMP",
      up_to_one (lit (codes "EXTRACT(EPOCH FROM NOW())::BIGINT") ∷ [])
          (lit (codes "EXTRACT(EPOCH FROM ") ∷ slot 0 ∷ lit (codes ")::BIGINT") ∷ []),
    )
    ∷ (
      codes "FROM_UNIXTIME",
      exactly 1 (lit (codes "TO_TIMESTAMP(") ∷ slot 0 ∷ lit (codes ")") ∷ []),
    )
    ∷ (
      codes "END_OF_MONTH",
      exactly 1 (
          lit (codes "(DATE_TRUNC('month', ")
          ∷ slot 0
          ∷ lit (codes ") + INTERVAL '1 month' - INTERVAL '1 day')::DATE")
          ∷ []),
    )
    ∷ (
      codes "JSON_PATH",
      exactly 2 (
          lit (codes "(JSONB_PATH_QUERY_FIRST((")
          ∷ slot 0
          ∷ lit (codes ")::JSONB, (")
          ∷ slot 1
          ∷ lit (codes ")::JSONPATH) #>> '{}')")
          ∷ []),
    )
    ∷ (
      codes "JSON_LENGTH",
      exactly 1 (lit (codes "JSONB_ARRAY_LENGTH((") ∷ slot 0 ∷ lit (codes ")::JSONB)") ∷ []),
    )
    ∷ (codes "JSON_ARRAYAGG", exactly 1 (lit (codes "JSONB_AGG(") ∷ slot 0 ∷ lit (codes ")") ∷ []))
    ∷ []

unfoldable pub postgres_shift : Text → Text → Rule
postgres_shift sign unit = exactly 2 (
    lit (codes "(")
    ∷ slot 0
    ∷ lit (sign ++ codes "(")
    ∷ slot 1
    ∷ lit (codes " || ' " ++ (unit ++ codes "')::INTERVAL)"))
    ∷ [])

unfoldable pub postgres_trunc : Text → Rule
postgres_trunc part =
    exactly 1 (lit (codes "DATE_TRUNC('" ++ (part ++ codes "', ")) ∷ slot 0 ∷ lit (codes ")") ∷ [])

unfoldable pub postgres_by_prefix : Text → Text → Rule
unfolding extract postgres_trunc postgres_shift call to_lower
postgres_by_prefix given name =
    if starts_with (codes "DATE_ADD_") name
    then postgres_shift (codes " + ") (map to_lower (drop 9 name))
    else if starts_with (codes "DATE_SUB_") name
    then postgres_shift (codes " - ") (map to_lower (drop 9 name))
    else if starts_with (codes "DATE_TRUNC_") name
    then postgres_trunc (map to_lower (drop 11 name))
    else if starts_with (codes "EXTRACT_") name
    then extract (drop 8 name)
    else call given

unfoldable pub compile_postgres_function : Text → Text → Rule
unfolding find_rule postgres_by_prefix
compile_postgres_function given name = elim (find_rule name postgres_rules) [
  | some rule ↦ rule
  | none ↦ postgres_by_prefix given name
]
