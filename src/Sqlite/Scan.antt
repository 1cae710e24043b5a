-- ===== src/Sqlite/Scan.antt =====
-- include/metal/sqlite_ddl_parser.hpp: the loops that read past quotes, brackets and comments. A loop
-- runs over the text from its index on; `skip` says that the last round has read this character too.
use metal_orm_cpp.Base.{
  ℕ, suc, ◌+◌, ◌-◌, Bool, true, false, ◌&&◌, ◌||◌, not, Option, none, some, List, [], ◌∷◌, Text,
  if◌then◌else◌, ◌==◌, get_elem?, take, drop,
}
use metal_orm_cpp.Sqlite.{trim_sql_view, sql_keyword_at, skip_sql_space}

-- The variables `quote`, `bracket`, `line_comment` and `block_comment`, one of which is set at most.
pub data Mode : Type 0 where
  plain : Mode
  line_comment : Mode
  block_comment : Mode
  quoted : ℕ → Mode
  bracketed : Mode

-- What a round does before it looks at parentheses: `fall` where it gets that far.
pub record Round : Type 0 where
  pub mode : Mode
  pub skip : Bool
  pub fall : Bool

abbrev round : Mode → Bool → Bool → Round
round m s f = record { mode = m; skip = s; fall = f }

unfoldable pub lex_plain : ℕ → ℕ → Round
lex_plain ch next =
    if ch == b'-' && next == b'-'
    then round line_comment true false
    else if ch == b'/' && next == b'*'
    then round block_comment true false
    else if ch == b'\'' || ch == b'"' || ch == b'`'
    then round (quoted ch) false false
    else if ch == b'['
    then round bracketed false false
    else round plain false true

unfoldable pub lex : Mode → ℕ → ℕ → Round
unfolding lex_plain
lex plain ch next = lex_plain ch next
lex line_comment ch next =
    round (if ch == b'\n' || ch == b'\r' then plain else line_comment) false false
lex block_comment ch next =
    if ch == b'*' && next == b'/' then round plain true false else round block_comment false false
lex (quoted q) ch next =
    if ch == q
    then (if next == q then round (quoted q) true false else round plain false false)
    else round (quoted q) false false
lex bracketed ch next =
    if ch == b']'
    then (if next == b']' then round bracketed true false else round plain false false)
    else round bracketed false false

-- `next`: 0 behind the last character.
unfoldable pub peek : Text → ℕ
peek [] = 0
peek (c ∷ cs) = c

-- A loop's variables but for the index.
pub record Cursor : Type 0 where
  pub mode : Mode
  pub skip : Bool
  pub depth : ℕ

abbrev pub at_start : ℕ → Cursor
at_start depth = record { mode = plain; skip = false; depth = depth }

-- A round's effect on the variables; `--depth` stops at 0, where `find_sql_matching_paren` returns.
unfoldable pub next_depth : ℕ → ℕ → ℕ
next_depth ch depth = if ch == b'(' then suc depth else if ch == b')' then depth - 1 else depth

unfoldable pub advance : Cursor → ℕ → ℕ → Cursor
unfolding lex next_depth
advance c ch next = if c.skip then record c { skip = false } else record {
  mode = (lex c.mode ch next).mode;
  skip = (lex c.mode ch next).skip;
  depth = if (lex c.mode ch next).fall then next_depth ch c.depth else c.depth;
}

-- The character is read as code: not skipped, quoted or in a comment.
unfoldable pub is_code : Cursor → ℕ → ℕ → Bool
unfolding lex
is_code c ch next = not c.skip && (lex c.mode ch next).fall

unfoldable pub match_loop : Cursor → ℕ → Text → Option ℕ
unfolding advance is_code peek
match_loop c i [] = none
match_loop c i (ch ∷ cs) =
    let rest = match_loop (advance c ch (peek cs)) (suc i) cs in
    if is_code c ch (peek cs) && ch == b')' && c.depth == 1 then some i else rest

unfoldable pub find_sql_matching_paren : Text → ℕ → Option ℕ
unfolding match_loop
find_sql_matching_paren text start = elim (get_elem? text start) [
  | none ↦ none
  | some ch ↦
      if ch == b'(' then match_loop (at_start 1) (suc start) (drop (suc start) text) else none
]

unfoldable pub keyword_loop : Text → Text → Cursor → ℕ → Text → Option ℕ
unfolding advance is_code peek
keyword_loop text keyword c i [] = none
keyword_loop text keyword c i (ch ∷ cs) =
    let rest = keyword_loop text keyword (advance c ch (peek cs)) (suc i) cs in
    if is_code c ch (peek cs)
      && not (ch == b'(')
      && not (ch == b')')
      && c.depth == 0
      && sql_keyword_at text i keyword
    then some i
    else rest

unfoldable pub find_sql_keyword_top_level : Text → Text → ℕ → Option ℕ
unfolding keyword_loop
find_sql_keyword_top_level text keyword start =
    keyword_loop text keyword (at_start 0) start (drop start text)

unfoldable pub check_between : Text → ℕ → ℕ → Text
check_between segment from to = trim_sql_view (take (to - from - 1) (drop (suc from) segment))

unfoldable pub extract_check_expression : Text → ℕ → Option Text
unfolding check_between
extract_check_expression segment check_pos =
    let pos = skip_sql_space segment (check_pos + 5) in
    elim (find_sql_matching_paren segment pos) [
      | none ↦ none
      | some close ↦ some (check_between segment pos close)
    ]

-- The first loop of `split_sqlite_table_body`, which knows no comments, and for which "]]" ends the
-- brackets.
unfoldable pub lex_head : Mode → ℕ → ℕ → Round
lex_head (quoted q) ch next =
    if ch == q
    then (if next == q then round (quoted q) true false else round plain false false)
    else round (quoted q) false false
lex_head bracketed ch next = round (if ch == b']' then plain else bracketed) false false
lex_head m ch next =
    if ch == b'\'' || ch == b'"' || ch == b'`'
    then round (quoted ch) false false
    else if ch == b'['
    then round bracketed false false
    else round plain false true

unfoldable pub open_loop : Mode → Bool → ℕ → Text → Option ℕ
unfolding lex_head peek
open_loop m skip i [] = none
open_loop m skip i (ch ∷ cs) =
    let r = lex_head m ch (peek cs) in
    let rest = open_loop (if skip then m else r.mode) (if skip then false else r.skip) (suc i) cs in
    if not skip && r.fall && ch == b'(' then some i else rest

-- The second loop: the positions of the commas that split the body.
unfoldable pub comma_loop : Cursor → ℕ → Text → List ℕ
unfolding advance is_code peek
comma_loop c i [] = []
comma_loop c i (ch ∷ cs) =
    let rest = comma_loop (advance c ch (peek cs)) (suc i) cs in
    if is_code c ch (peek cs) && ch == b',' && c.depth == 0 then i ∷ rest else rest

unfoldable pub segments_at : Text → ℕ → List ℕ → List Text
segments_at body start [] = trim_sql_view (drop start body) ∷ []
segments_at body start (i ∷ cuts) =
    trim_sql_view (take (i - start) (drop start body)) ∷ segments_at body (suc i) cuts

unfoldable pub split_body : Text → List Text
unfolding comma_loop segments_at
split_body body = segments_at body 0 (comma_loop (at_start 0) 0 body)

unfoldable pub split_from : Text → ℕ → List Text
unfolding split_body
split_from create_sql start = elim (find_sql_matching_paren create_sql start) [
  | none ↦ []
  | some close ↦ split_body (take (close - start - 1) (drop (suc start) create_sql))
]

unfoldable pub split_sqlite_table_body : Text → List Text
unfolding open_loop split_from
split_sqlite_table_body create_sql = elim (open_loop plain false 0 create_sql) [
  | none ↦ []
  | some start ↦ split_from create_sql start
]
