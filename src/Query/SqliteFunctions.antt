-- ===== src/Query/SqliteFunctions.antt =====
-- include/metal/query/sqlite_compiler.hpp: the SQL of functions on SQLite.
use metal_orm_cpp.Base.{
  ◌||◌, not, Option, none, some, List, [], ◌∷◌, ◌++◌, map, Text, codes, text_eq, starts_with, ok,
  err, ◌==◌, drop, if◌then◌else◌,
}
use metal_orm_cpp.Query.{wrong_arity, unsupported_part}
use metal_orm_cpp.Query.Templates.{
  lit, slot, Rule, exactly, always, call, concat_template, up_to_one, strftime, json_length,
  find_rule, to_lower,
}

abbrev pub sqlite_rules : List (Text × Rule)
sqlite_rules =
    (codes "NOW", always (lit (codes "datetime('now', 'localtime')") ∷ []))
    ∷ (codes "CURRENT_DATE", always (lit (codes "date('now', 'localtime')") ∷ []))
    ∷ (codes "CURRENT_TIME", always (lit (codes "time('now', 'localtime')") ∷ []))
    ∷ (codes "UTC_NOW", always (lit (codes "datetime('now')") ∷ []))
    ∷ (codes "LOCAL_TIME", always (lit (codes "time('now', 'localtime')") ∷ []))
    ∷ (codes "LOCAL_TIMESTAMP", always (lit (codes "datetime('now', 'localtime')") ∷ []))
    ∷ (codes "CONCAT", concat_template)
    ∷ (
      codes "LEFT",
      exactly 2
          (lit (codes "substr(") ∷ slot 0 ∷ lit (codes ", 1, ") ∷ slot 1 ∷ lit (codes ")") ∷ []),
    )
    ∷ (
      codes "RIGHT",
      exactly 2
          (lit (codes "substr(") ∷ slot 0 ∷ lit (codes ", -(") ∷ slot 1 ∷ lit (codes "))") ∷ []),
    )
    ∷ (
      codes "ASCII",
      exactly 1 (lit (codes "unicode(substr(") ∷ slot 0 ∷ lit (codes ", 1, 1))") ∷ []),
    )
    ∷ (codes "CHR", exactly 1 (lit (codes "char(") ∷ slot 0 ∷ lit (codes ")") ∷ []))
    ∷ (
      codes "BIT_LENGTH",
      exactly 1 (lit (codes "(length(CAST(") ∷ slot 0 ∷ lit (codes " AS BLOB)) * 8)") ∷ []),
    )
    ∷ (
      codes "OCTET_LENGTH",
      exactly 1 (lit (codes "length(CAST(") ∷ slot 0 ∷ lit (codes " AS BLOB))") ∷ []),
    )
    ∷ (
      codes "POSITION",
      exactly 2 (lit (codes "instr(") ∷ slot 1 ∷ lit (codes ", ") ∷ slot 0 ∷ lit (codes ")") ∷ []),
    )
    ∷ (
      codes "LOCATE",
      exactly 2 (lit (codes "instr(") ∷ slot 1 ∷ lit (codes ", ") ∷ slot 0 ∷ lit (codes ")") ∷ []),
    )
    ∷ (codes "IF_NULL", call (codes "COALESCE"))
    ∷ (codes "GREATEST", call (codes "max"))
    ∷ (codes "LEAST", call (codes "min"))
    ∷ (codes "RANDOM", always (lit (codes "(abs(random()) / 9223372036854775808.0)") ∷ []))
    ∷ (codes "RAND", always (lit (codes "(abs(random()) / 9223372036854775808.0)") ∷ []))
    ∷ (
      codes "MOD",
      exactly 2 (lit (codes "((") ∷ slot 0 ∷ lit (codes ") % (") ∷ slot 1 ∷ lit (codes "))") ∷ []),
    )
    ∷ (codes "COT", exactly 1 (lit (codes "(1.0 / tan(") ∷ slot 0 ∷ lit (codes "))") ∷ []))
    ∷ (codes "CBRT", exactly 1 (lit (codes "pow(") ∷ slot 0 ∷ lit (codes ", 1.0 / 3.0)") ∷ []))
    ∷ (codes "YEAR", strftime (codes "%Y"))
    ∷ (codes "MONTH", strftime (codes "%m"))
    ∷ (codes "DAY", strftime (codes "%d"))
    ∷ (codes "HOUR", strftime (codes "%H"))
    ∷ (codes "MINUTE", strftime (codes "%M"))
    ∷ (codes "SECOND", strftime (codes "%S"))
    ∷ (codes "DAY_OF_WEEK", strftime (codes "%w"))
    ∷ (codes "WEEK_OF_YEAR", strftime (codes "%W"))
    ∷ (
      codes "QUARTER",
      exactly 1 (
          lit (codes "((CAST(strftime('%m', ")
          ∷ slot 0
          ∷ lit (codes ") AS INTEGER) + 2) / 3)")
          ∷ []),
    )
    ∷ (
      codes "DATE_DIFF",
      exactly 2 (
          lit (codes "CAST(julianday(")
          ∷ slot 0
          ∷ lit (codes ") - julianday(")
          ∷ slot 1
          ∷ lit (codes ") AS INTEGER)")
          ∷ []),
    )
    ∷ (
      codes "DATE_FORMAT",
      exactly 2
          (lit (codes "strftime(") ∷ slot 1 ∷ lit (codes ", ") ∷ slot 0 ∷ lit (codes ")") ∷ []),
    )
    ∷ (
      codes "UNIX_TIMESTAMP",
      up_to_one (lit (codes "CAST(strftime('%s', 'now') AS INTEGER)") ∷ [])
          (lit (codes "CAST(strftime('%s', ") ∷ slot 0 ∷ lit (codes ") AS INTEGER)") ∷ []),
    )
    ∷ (
      codes "FROM_UNIXTIME",
      exactly 1 (lit (codes "datetime(") ∷ slot 0 ∷ lit (codes ", 'unixepoch')") ∷ []),
    )
    ∷ (
      codes "END_OF_MONTH",
      exactly 1 (
          lit (codes "date(")
          ∷ slot 0
          ∷ lit (codes ", 'start of month', '+1 month', '-1 day')")
          ∷ []),
    )
    ∷ (
      codes "JSON_PATH",
      exactly 2
          (lit (codes "json_extract(") ∷ slot 0 ∷ lit (codes ", ") ∷ slot 1 ∷ lit (codes ")") ∷ []),
    )
    ∷ (codes "JSON_LENGTH", json_length)
    ∷ (
      codes "JSON_ARRAYAGG",
      exactly 1 (lit (codes "json_group_array(") ∷ slot 0 ∷ lit (codes ")") ∷ []),
    )
    ∷ []

-- `EXTRACT_`: the part's format.
unfoldable pub extract_format : Text → Option Text
extract_format part =
    if text_eq part (codes "YEAR")
    then some (codes "%Y")
    else if text_eq part (codes "MONTH")
    then some (codes "%m")
    else if text_eq part (codes "DAY")
    then some (codes "%d")
    else if text_eq part (codes "HOUR")
    then some (codes "%H")
    else if text_eq part (codes "MINUTE")
    then some (codes "%M")
    else if text_eq part (codes "SECOND")
    then some (codes "%S")
    else if text_eq part (codes "DOW")
    then some (codes "%w")
    else if text_eq part (codes "WEEK")
    then some (codes "%W")
    else none

unfoldable pub sqlite_extract : Text → Rule
unfolding extract_format strftime
sqlite_extract part n =
    if n == 1
    then elim (extract_format part) [
      | none ↦ err unsupported_part
      | some format ↦ strftime format n
    ]
    else err wrong_arity

unfoldable pub sqlite_trunc : Text → Rule
sqlite_trunc part n =
    if not (n == 1)
    then err wrong_arity
    else if text_eq part (codes "day")
    then ok (lit (codes "date(") ∷ slot 0 ∷ lit (codes ")") ∷ [])
    else if text_eq part (codes "year") || text_eq part (codes "month")
    then ok (lit (codes "date(") ∷ slot 0 ∷ lit (codes ", 'start of " ++ (part ++ codes "')")) ∷ [])
    else err unsupported_part

unfoldable pub sqlite_shift : Text → Text → Rule
sqlite_shift sign unit = exactly 2 (
    lit (codes "datetime(")
    ∷ slot 0
    ∷ lit (codes ", '" ++ (sign ++ codes "' || "))
    ∷ slot 1
    ∷ lit (codes " || ' " ++ (unit ++ codes "')"))
    ∷ [])

-- The rules for what a name begins with, then the call under the name as it was given.
unfoldable pub sqlite_by_prefix : Text → Text → Rule
unfolding sqlite_extract sqlite_trunc sqlite_shift call to_lower
sqlite_by_prefix given name =
    if starts_with (codes "DATE_ADD_") name
    then sqlite_shift (codes "+") (map to_lower (drop 9 name))
    else if starts_with (codes "DATE_SUB_") name
    then sqlite_shift (codes "-") (map to_lower (drop 9 name))
    else if starts_with (codes "DATE_TRUNC_") name
    then sqlite_trunc (map to_lower (drop 11 name))
    else if starts_with (codes "EXTRACT_") name
    then sqlite_extract (drop 8 name)
    else call given

unfoldable pub sqlite_function : Text → Text → Rule
unfolding find_rule sqlite_by_prefix
sqlite_function given name = elim (find_rule name sqlite_rules) [
  | some rule ↦ rule
  | none ↦ sqlite_by_prefix given name
]
