-- ===== src/Sqlite.antt =====
-- include/metal/sqlite_ddl_parser.hpp: characters, keywords and identifiers. `std::isspace`,
-- `std::isalnum` and `std::toupper` are those of the "C" locale. A position that a function moves is
-- part of its result.
pub mod Scan
pub mod Constraints
pub mod Segments
pub mod Names
pub mod Quoted
mod Tests
use metal_orm_cpp.Base.{
  ℕ, zero, suc, ◌+◌, ◌-◌, Bool, true, false, ◌&&◌, ◌||◌, not, Option, none, some, List, [], ◌∷◌,
  ◌++◌, Text, codes, if◌then◌else◌, ltb, leb, ◌==◌, length, get_elem?, take, drop,
}

unfoldable pub is_space : ℕ → Bool
is_space c = c == 32 || leb 9 c && leb c 13

unfoldable pub is_alnum : ℕ → Bool
is_alnum c = leb b'0' c && leb c b'9' || leb b'A' c && leb c b'Z' || leb b'a' c && leb c b'z'

unfoldable pub to_upper : ℕ → ℕ
to_upper c = if leb b'a' c && leb c b'z' then c - 32 else c

-- `trim_sql_view`: the loop over the front, and the one over the back.
unfoldable pub trim_front : Text → Text
unfolding is_space
trim_front [] = []
trim_front (c ∷ cs) = let rest = trim_front cs in if is_space c then rest else c ∷ cs

unfoldable pub trim_back : Text → Text
unfolding is_space
trim_back [] = []
trim_back (c ∷ cs) = elim (trim_back cs) [
  | [] ↦ if is_space c then [] else c ∷ []
  | d ∷ ds ↦ c ∷ d ∷ ds
]

unfoldable pub trim_sql_view : Text → Text
unfolding trim_front trim_back
trim_sql_view value = trim_back (trim_front value)

unfoldable pub sql_identifier_char : ℕ → Bool
unfolding is_alnum
sql_identifier_char c = is_alnum c || c == b'_'

unfoldable pub identifier_char_at : Text → ℕ → Bool
unfolding sql_identifier_char
identifier_char_at text i = elim (get_elem? text i) [
  | none ↦ false
  | some c ↦ sql_identifier_char c
]

unfoldable pub same_letters : Text → Text → Bool
unfolding to_upper
same_letters [] text = true
same_letters (k ∷ ks) [] = false
same_letters (k ∷ ks) (c ∷ cs) = to_upper c == to_upper k && same_letters ks cs

unfoldable pub sql_keyword_at : Text → ℕ → Text → Bool
unfolding identifier_char_at same_letters
sql_keyword_at text pos keyword =
    not (ltb (length text) (pos + length keyword))
    && not (ltb 0 pos && identifier_char_at text (pos - 1))
    && not (identifier_char_at text (pos + length keyword))
    && same_letters keyword (drop pos text)

-- The loop of `skip_sql_space` over the text from `pos` on.
unfoldable pub skip_from : ℕ → Text → ℕ
unfolding is_space
skip_from pos [] = pos
skip_from pos (c ∷ cs) = let rest = skip_from (suc pos) cs in if is_space c then rest else pos

unfoldable pub skip_sql_space : Text → ℕ → ℕ
unfolding skip_from
skip_sql_space text pos = skip_from pos (drop pos text)

-- A quoted identifier behind its opening quote: `result` so far, and the text from `pos` on.
unfoldable pub read_quoted : ℕ → ℕ → Text → Text → Option Text × ℕ
read_quoted close pos result [] = (none, pos)
read_quoted close pos result (c ∷ []) =
    if c == close then (some result, suc pos) else (none, suc pos)
read_quoted close pos result (c ∷ d ∷ cs) =
    let doubled = read_quoted close (suc (suc pos)) (result ++ close ∷ []) cs in
    let more = read_quoted close (suc pos) (result ++ c ∷ []) (d ∷ cs) in
    if c == close then (if d == close then doubled else (some result, suc pos)) else more

unfoldable pub ends_bare : ℕ → Bool
unfolding is_space
ends_bare c = is_space c || c == b'(' || c == b')' || c == b','

unfoldable pub bare_length : Text → ℕ
unfolding ends_bare
bare_length [] = 0
bare_length (c ∷ cs) = let rest = bare_length cs in if ends_bare c then 0 else suc rest

unfoldable pub read_bare : ℕ → Text → Option Text × ℕ
unfolding bare_length
read_bare pos text =
    if bare_length text == 0
    then (none, pos)
    else (some (take (bare_length text) text), pos + bare_length text)

unfoldable pub read_from : ℕ → Text → Option Text × ℕ
unfolding read_quoted read_bare
read_from pos [] = (none, pos)
read_from pos (c ∷ cs) =
    if c == b'"' || c == b'`' || c == b'['
    then read_quoted (if c == b'[' then b']' else c) (suc pos) [] cs
    else read_bare pos (c ∷ cs)

unfoldable pub read_sql_identifier : Text → ℕ → Option Text × ℕ
unfolding skip_sql_space read_from
read_sql_identifier text pos =
    let start = skip_sql_space text pos in read_from start (drop start text)
