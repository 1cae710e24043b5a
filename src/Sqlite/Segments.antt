-- ===== src/Sqlite/Segments.antt =====
-- include/metal/sqlite_ddl_parser.hpp: `split_sqlite_table_body` finds the segments that were joined.
use metal_orm_cpp.Base.{
  ℕ, suc, ◌+◌, ◌-◌, ◌≡◌, refl, sym, ap, ◌∙◌, inl, inr, Bool, true, false, ◌&&◌, ◌||◌, not, some,
  List, [], ◌∷◌, ◌++◌, map, Text, if◌then◌else◌, ◌==◌, length, get_elem?, take, drop, arith,
  Bool-cases, All, length-append, take-append, drop-append,
}
use mathlib.Core.List.{append-nil, append_assoc}
use metal_orm_cpp.Sqlite.{trim_sql_view}
use metal_orm_cpp.Sqlite.Scan.{
  Mode, plain, line_comment, block_comment, quoted, bracketed, lex, peek, Cursor, at_start,
  next_depth, advance, is_code, match_loop, find_sql_matching_paren, lex_head, open_loop,
  comma_loop, segments_at, split_body, split_from, split_sqlite_table_body,
}

-- The character behind a text that `f` follows.
abbrev pub peek_or : Text → ℕ → ℕ
peek_or [] f = f
peek_or (c ∷ cs) f = c

-- The variables of a loop behind a text.
unfoldable pub run : Cursor → Text → ℕ → Cursor
run c [] f = c
run c (x ∷ xs) f = run (advance c x (peek_or xs f)) xs f

-- The character is code, at depth 0, and a comma or a closing parenthesis.
unfoldable pub breaks : Cursor → ℕ → ℕ → Bool
breaks c ch next = is_code c ch next && (ch == b',' || ch == b')') && c.depth == 0

unfoldable pub unbroken : Cursor → Text → ℕ → Bool
unfolding breaks
unbroken c [] f = true
unbroken c (x ∷ xs) f =
    not (breaks c x (peek_or xs f)) && unbroken (advance c x (peek_or xs f)) xs f

-- In front of `f`, the text closes all that it opens and has no comma outside of it.
pub record Closed (s : Text) (f : ℕ) : Type 0 where
  pub whole : unbroken (at_start 0) s f ≡ true
  pub ends : run (at_start 0) s f ≡ at_start 0

-- So it is before a comma, a closing parenthesis and the end.
abbrev pub IsSegment : Text → Type 0
IsSegment s = Closed s b',' × Closed s b')' × Closed s 0

abbrev pub joined : Text → List Text → Text
joined s [] = s
joined s (t ∷ ts) = s ++ b',' ∷ joined t ts

peek-append : (xs rest : Text) (f : ℕ) → peek rest ≡ f → peek (xs ++ rest) ≡ peek_or xs f
unfolding peek
peek-append [] rest f e = e
peek-append (x ∷ xs) rest f e = refl

split_and : (a b : Bool) → (not a && b) ≡ true → (a ≡ false) × (b ≡ true)
split_and true b h = cc
split_and false b h = (refl, h)

comma_loop-run :
    (s rest : Text) (f : ℕ) (c : Cursor) (i : ℕ)
    → peek rest ≡ f
    → unbroken c s f ≡ true
    → comma_loop c i (s ++ rest) ≡ comma_loop (run c s f) (i + length s) rest
unfolding comma_loop run unbroken breaks
comma_loop-run [] rest f c i e h = ap (λ j. comma_loop c j rest) (omega arith)
comma_loop-run (x ∷ xs) rest f c i e h =
    let (a, b) = split_and _ _ h in
    rw (peek-append xs rest f e) (
      uncut a
      ∙ comma_loop-run xs rest f (advance c x (peek_or xs f)) (suc i) e b
      ∙ ap (λ j. comma_loop (run (advance c x (peek_or xs f)) xs f) j rest) (omega arith))
  where
    uncut :
        breaks c x (peek_or xs f) ≡ false
        → (if is_code c x (peek_or xs f) && x == b',' && c.depth == 0
            then i ∷ comma_loop (advance c x (peek_or xs f)) (suc i) (xs ++ rest)
            else comma_loop (advance c x (peek_or xs f)) (suc i) (xs ++ rest))
          ≡ comma_loop (advance c x (peek_or xs f)) (suc i) (xs ++ rest)
    uncut a = ground (arith, a)

-- One parenthesis further in.
abbrev deeper : Cursor → Cursor
deeper c = record c { depth = suc c.depth }

depth_deeper :
    (fall : Bool) (x d : ℕ)
    → (fall && (x == b',' || x == b')') && d == 0) ≡ false
    → (if fall then next_depth x (suc d) else suc d) ≡ suc (if fall then next_depth x d else d)
unfolding next_depth
depth_deeper true x d h = ground (arith, h)
depth_deeper false x d h = refl

advance-deeper :
    (c : Cursor) (x n : ℕ) → breaks c x n ≡ false → advance (deeper c) x n ≡ deeper (advance c x n)
unfolding advance
advance-deeper c x n h = elim (Bool-cases c.skip) [
  | inl k ↦ rw k refl
  | inr k ↦ rw k (
      ap (λ d. record { mode = (lex c.mode x n).mode; skip = (lex c.mode x n).skip; depth = d })
        (depth_deeper (lex c.mode x n).fall x c.depth (code k)))
]
  where
    code :
        c.skip ≡ false → ((lex c.mode x n).fall && (x == b',' || x == b')') && c.depth == 0) ≡ false
    code k = unfold breaks is_code in ground (arith, k, h)

match_loop-run :
    (s rest : Text) (f : ℕ) (c : Cursor) (i : ℕ)
    → peek rest ≡ f
    → unbroken c s f ≡ true
    → match_loop (deeper c) i (s ++ rest) ≡ match_loop (deeper (run c s f)) (i + length s) rest
unfolding match_loop run unbroken
match_loop-run [] rest f c i e h = ap (λ j. match_loop (deeper c) j rest) (omega arith)
match_loop-run (x ∷ xs) rest f c i e h =
    let (a, b) = split_and _ _ h in
    rw (peek-append xs rest f e) (
      onward a
      ∙ match_loop-run xs rest f (advance c x (peek_or xs f)) (suc i) e b
      ∙ ap (λ j. match_loop (deeper (run (advance c x (peek_or xs f)) xs f)) j rest) (omega arith))
  where
    onward :
        breaks c x (peek_or xs f) ≡ false
        → (if is_code (deeper c) x (peek_or xs f) && x == b')' && suc c.depth == 1
            then some i
            else match_loop (advance (deeper c) x (peek_or xs f)) (suc i) (xs ++ rest))
          ≡ match_loop (deeper (advance c x (peek_or xs f))) (suc i) (xs ++ rest)
    onward a = unfold breaks is_code in ground (arith, a, advance-deeper c x (peek_or xs f) a)

pub match_closing : (tail : Text) (i : ℕ) → match_loop (at_start 1) i (b')' ∷ tail) ≡ some i
unfolding match_loop is_code lex
match_closing tail i = refl

match_comma :
    (rest : Text) (i : ℕ)
    → match_loop (at_start 1) i (b',' ∷ rest) ≡ match_loop (at_start 1) (suc i) rest
unfolding match_loop is_code advance lex next_depth
match_comma rest i = refl

comma_comma :
    (rest : Text) (i : ℕ)
    → comma_loop (at_start 0) i (b',' ∷ rest) ≡ i ∷ comma_loop (at_start 0) (suc i) rest
unfolding comma_loop is_code advance lex next_depth
comma_comma rest i = refl

pub match_segment :
    (s rest : Text) (f i : ℕ)
    → peek rest ≡ f
    → Closed s f
    → match_loop (at_start 1) i (s ++ rest) ≡ match_loop (at_start 1) (i + length s) rest
match_segment s rest f i e h =
    match_loop-run s rest f (at_start 0) i e h.whole
    ∙ ap (λ c. match_loop (deeper c) (i + length s) rest) h.ends

-- The parenthesis behind the segments is the one that matches.
match_joined :
    (s : Text) (ts : List Text) (tail : Text) (i : ℕ)
    → All IsSegment (s ∷ ts)
    → match_loop (at_start 1) i (joined s ts ++ b')' ∷ tail) ≡ some (i + length (joined s ts))
match_joined s [] tail i ((comma, close, last), hs) =
    match_segment s (b')' ∷ tail) b')' i (unfold peek in refl) close
    ∙ match_closing tail (i + length s)
match_joined s (t ∷ ts) tail i ((comma, close, last), hs) =
    ap (match_loop (at_start 1) i) (append_assoc s (b',' ∷ joined t ts) (b')' ∷ tail))
    ∙ match_segment s (b',' ∷ joined t ts ++ b')' ∷ tail) b',' i (unfold peek in refl) comma
    ∙ match_comma (joined t ts ++ b')' ∷ tail) (i + length s)
    ∙ match_joined t ts tail (suc (i + length s)) hs
    ∙ ap some (omega (arith, length-append s (b',' ∷ joined t ts)))

cut_segment :
    (s rest : Text) (f i : ℕ)
    → peek rest ≡ f
    → Closed s f
    → comma_loop (at_start 0) i (s ++ rest) ≡ comma_loop (at_start 0) (i + length s) rest
cut_segment s rest f i e h =
    comma_loop-run s rest f (at_start 0) i e h.whole
    ∙ ap (λ c. comma_loop c (i + length s) rest) h.ends

pub drop_past : (xs : Text) (c : ℕ) (ys : Text) → drop (suc (length xs)) (xs ++ c ∷ ys) ≡ ys
drop_past [] c ys = refl
drop_past (x ∷ xs) c ys = drop_past xs c ys

pub get_past : (xs : Text) (c : ℕ) (ys : Text) → get_elem? (xs ++ c ∷ ys) (length xs) ≡ some c
get_past [] c ys = refl
get_past (x ∷ xs) c ys = get_past xs c ys

comma_nil : (c : Cursor) (i : ℕ) → comma_loop c i [] ≡ []
unfolding comma_loop
comma_nil c i = refl

segments_at-joined :
    (s : Text) (ts : List Text) (before : Text)
    → All IsSegment (s ∷ ts)
    → segments_at
        (before ++ joined s ts)
        (length before)
        (comma_loop (at_start 0) (length before) (joined s ts))
      ≡ map trim_sql_view (s ∷ ts)
unfolding segments_at
segments_at-joined s [] before ((comma, close, last), hs) =
    ap (segments_at (before ++ s) (length before)) (
      ap (comma_loop (at_start 0) (length before)) (sym (append-nil s))
      ∙ cut_segment s [] 0 (length before) (unfold peek in refl) last
      ∙ comma_nil (at_start 0) (length before + length s))
    ∙ ap (λ x. trim_sql_view x ∷ []) (drop-append before s)
segments_at-joined s (t ∷ ts) before ((comma, close, last), hs) =
    let rest = joined t ts in
    let next = before ++ (s ++ b',' ∷ []) in
    let body = before ++ (s ++ b',' ∷ rest) in
    let e : length next ≡ suc (length before + length s) =
      omega (arith, length-append before (s ++ b',' ∷ []), length-append s (b',' ∷ [])) in
    ap (segments_at body (length before)) (
      cut_segment s (b',' ∷ rest) b',' (length before) (unfold peek in refl) comma
      ∙ comma_comma rest (length before + length s))
    ∙ ap
        (λ x.
          trim_sql_view x
          ∷ segments_at body (suc (length before + length s))
              (comma_loop (at_start 0) (suc (length before + length s)) rest))
        (first_segment before s rest)
    ∙ ap (◌∷◌ (trim_sql_view s)) (
        ap (λ n. segments_at body n (comma_loop (at_start 0) n rest)) (sym e)
        ∙ ap (λ b. segments_at b (length next) (comma_loop (at_start 0) (length next) rest))
            (sym (
              append_assoc before (s ++ b',' ∷ []) rest
              ∙ ap (λ x. before ++ x) (append_assoc s (b',' ∷ []) rest)))
        ∙ segments_at-joined t ts next hs)
  where
    first_segment :
        (before s rest : Text)
        → take
            (length before + length s - length before)
            (drop (length before) (before ++ (s ++ b',' ∷ rest)))
          ≡ s
    first_segment before s rest =
        ap (λ n. take n (drop (length before) (before ++ (s ++ b',' ∷ rest))))
          {x = length before + length s - length before} {y = length s} (omega arith)
        ∙ ap (take (length s)) (drop-append before (s ++ b',' ∷ rest))
        ∙ take-append s (b',' ∷ rest)

abbrev is_plain : Mode → Bool
is_plain plain = true
is_plain m = false

-- A text before the first opening parenthesis of the statement, which leaves quotes and brackets
-- closed.
unfoldable pub is_head : Mode → Bool → Text → Bool
unfolding lex_head
is_head m skip [] = not skip && is_plain m
is_head m skip (x ∷ xs) =
    let r = lex_head m x (peek_or xs b'(') in
    not (not skip && r.fall && x == b'(')
    && is_head (if skip then m else r.mode) (if skip then false else r.skip) xs

open_loop-head :
    (xs tail : Text) (m : Mode) (skip : Bool) (i : ℕ)
    → is_head m skip xs ≡ true
    → open_loop m skip i (xs ++ b'(' ∷ tail) ≡ some (i + length xs)
unfolding open_loop is_head
open_loop-head [] tail plain false i h = ap some (omega arith)
open_loop-head [] tail plain true i h = cc
open_loop-head [] tail line_comment skip i h = ground (arith, h)
open_loop-head [] tail block_comment skip i h = ground (arith, h)
open_loop-head [] tail (quoted q) skip i h = ground (arith, h)
open_loop-head [] tail bracketed skip i h = ground (arith, h)
open_loop-head (x ∷ xs) tail m skip i h =
    let n = peek_or xs b'(' in
    let (a, b) =
      split_and (not skip && (lex_head m x n).fall && x == b'(')
        (is_head (if skip then m else (lex_head m x n).mode)
          (if skip then false else (lex_head m x n).skip) xs)
        h in
    rw (peek-append xs (b'(' ∷ tail) b'(' (unfold peek in refl)) (
      rw a (
        open_loop-head xs tail (if skip then m else (lex_head m x n).mode)
          (if skip then false else (lex_head m x n).skip) (suc i) b
        ∙ ap some (omega arith)))

pub matching :
    (xs rest : Text)
    → find_sql_matching_paren (xs ++ b'(' ∷ rest) (length xs)
      ≡ match_loop (at_start 1) (suc (length xs)) rest
unfolding find_sql_matching_paren
matching xs rest =
    rw (get_past xs b'(' rest, find_sql_matching_paren)
      (ap (match_loop (at_start 1) (suc (length xs))) (drop_past xs b'(' rest))

pub body_between :
    (xs ys zs : Text)
    → take
        (suc (length xs) + length ys - length xs - 1)
        (drop (suc (length xs)) (xs ++ b'(' ∷ (ys ++ b')' ∷ zs)))
      ≡ ys
body_between xs ys zs =
    ap (λ n. take n (drop (suc (length xs)) (xs ++ b'(' ∷ (ys ++ b')' ∷ zs))))
      {x = suc (length xs) + length ys - length xs - 1} {y = length ys} (omega arith)
    ∙ ap (take (length ys)) (drop_past xs b'(' (ys ++ b')' ∷ zs))
    ∙ take-append ys (b')' ∷ zs)

split_from-joined :
    (head tail s : Text) (ts : List Text)
    → All IsSegment (s ∷ ts)
    → split_from (head ++ b'(' ∷ (joined s ts ++ b')' ∷ tail)) (0 + length head)
      ≡ map trim_sql_view (s ∷ ts)
unfolding split_from split_body
split_from-joined head tail s ts hs =
    let sql = head ++ b'(' ∷ (joined s ts ++ b')' ∷ tail) in
    ap (split_from sql) {x = 0 + length head} {y = length head} (omega arith)
    ∙ rw
        (
          matching head (joined s ts ++ b')' ∷ tail)
              ∙ match_joined s ts tail (suc (length head)) hs,
          split_from,
        )
        (ap split_body (body_between head (joined s ts) tail) ∙ segments_at-joined s ts [] hs)

-- `split_sqlite_table_body` returns the segments of a CREATE TABLE statement, trimmed and in order:
-- for every head, such as `CREATE TABLE "t"`, without an opening parenthesis outside of quotes and
-- brackets; for all segments that close their quotes, brackets, comments and parentheses and have no
-- comma outside of these; and for any text behind the body.
pub split_sqlite_table_body-joined :
    (head tail s : Text) (ts : List Text)
    → is_head plain false head ≡ true
    → All IsSegment (s ∷ ts)
    → split_sqlite_table_body (head ++ b'(' ∷ (joined s ts ++ b')' ∷ tail))
      ≡ map trim_sql_view (s ∷ ts)
unfolding split_sqlite_table_body split_from split_body
split_sqlite_table_body-joined head tail s ts h hs =
    let sql = head ++ b'(' ∷ (joined s ts ++ b')' ∷ tail) in
    rw (open_loop-head head (joined s ts ++ b')' ∷ tail) plain false 0 h, split_sqlite_table_body)
      (split_from-joined head tail s ts hs)
