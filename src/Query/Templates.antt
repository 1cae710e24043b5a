-- ===== src/Query/Templates.antt =====
-- include/metal/query/sqlite_compiler.hpp and postgres_function_compiler.hpp: what the source joins from
-- texts and `args[i]` is a template with slots; `n` is `args.size()`.
use metal_orm_cpp.Base.{
  ℕ, zero, suc, ◌+◌, ◌&&◌, ◌||◌, not, Option, none, some, List, [], ◌∷◌, ◌++◌, Text, codes, text_eq,
  Result, ok, err, leb, ◌==◌, get_elem?, if◌then◌else◌,
}
use metal_orm_cpp.Query.{QueryError, wrong_arity}

pub data Part : Type 0 where
  lit : Text → Part
  slot : ℕ → Part

abbrev pub Template : Type 0
Template = List Part

abbrev pub Rule : Type 0
Rule = ℕ → Result QueryError Template

unfoldable pub fill : Template → List Text → Text
fill [] args = []
fill (lit t ∷ ps) args = t ++ fill ps args
fill (slot i ∷ ps) args = elim (get_elem? args i) [ some a ↦ a | none ↦ [] ] ++ fill ps args

-- `args.size() != count` throws.
abbrev pub exactly : ℕ → Template → Rule
exactly count t n = if n == count then ok t else err wrong_arity

abbrev pub always : Template → Rule
always t n = ok t

-- `join_sql(args, separator)` from the argument `i` on.
unfoldable pub join_from : Text → ℕ → ℕ → Template
join_from separator i zero = []
join_from separator i (suc zero) = slot i ∷ []
join_from separator i (suc (suc n)) = slot i ∷ lit separator ∷ join_from separator (suc i) (suc n)

unfoldable pub call : Text → Rule
unfolding join_from
call name n = ok (lit (name ++ codes "(") ∷ (join_from (codes ", ") 0 n ++ lit (codes ")") ∷ []))

unfoldable pub concat_template : Rule
unfolding join_from
concat_template zero = ok (lit (codes "''") ∷ [])
concat_template (suc n) =
    ok (lit (codes "(") ∷ (join_from (codes " || ") 0 (suc n) ++ lit (codes ")") ∷ []))

unfoldable pub up_to_one : Template → Template → Rule
up_to_one t u zero = ok t
up_to_one t u (suc zero) = ok u
up_to_one t u (suc (suc n)) = err wrong_arity

unfoldable pub strftime : Text → Rule
strftime format = exactly 1 (
    lit (codes "CAST(strftime('" ++ (format ++ codes "', "))
    ∷ slot 0
    ∷ lit (codes ") AS INTEGER)")
    ∷ [])

unfoldable pub json_length : Rule
unfolding call
json_length n =
    if n == 0 || not (leb n 2) then err wrong_arity else call (codes "json_array_length") n

unfoldable pub find_rule : Text → List (Text × Rule) → Option Rule
find_rule name [] = none
find_rule name ((key, rule) ∷ rules) =
    let rest = find_rule name rules in if text_eq key name then some rule else rest

unfoldable pub to_lower : ℕ → ℕ
to_lower c = if leb b'A' c && leb c b'Z' then c + 32 else c
