-- ===== src/Sqlite/Names.antt =====
-- include/metal/sqlite_ddl_parser.hpp: identifiers and CHECK expressions are read back, and the search
-- for a constraint's name ends.
use mathlib.Core.List.{append-nil, append_assoc}
use metal_orm_cpp.Base.{
  ℕ, zero, suc, ◌+◌, ◌≤◌, ◌<◌, ◌≡◌, ◌≢◌, refl, sym, ap, ◌∙◌, inl, inr, true, false, Option, none,
  some, [], ◌∷◌, ◌++◌, Text, codes, ltb, ◌==◌, length, drop, arith, Bool-cases, Option-cases, All,
  length-append, drop-append,
}
use metal_orm_cpp.Dialect.{double_quotes, quote_ansi_identifier}
use metal_orm_cpp.Sqlite.{
  is_space, trim_sql_view, skip_from, skip_sql_space, read_quoted, read_from, read_sql_identifier,
}
use metal_orm_cpp.Sqlite.Scan.{
  peek, Cursor, at_start, keyword_loop, advance, find_sql_keyword_top_level,
  find_sql_matching_paren, check_between, extract_check_expression,
}
use metal_orm_cpp.Sqlite.Constraints.{name_before, name_loop, constraint_name_for}
use metal_orm_cpp.Sqlite.Segments.{Closed, matching, match_segment, match_closing, body_between}

read_quoted-closing :
    (rest result : Text) (pos : ℕ)
    → peek rest ≢ b'"'
    → read_quoted b'"' pos result (b'"' ∷ rest) ≡ (some result, suc pos)
unfolding read_quoted peek
read_quoted-closing [] result pos h = refl
read_quoted-closing (c ∷ cs) result pos h = ground (arith, h)

read_quoted-plain :
    (c : ℕ) (cs result : Text) (pos : ℕ)
    → (c == b'"') ≡ false
    → cs ≢ []
    → read_quoted b'"' pos result (c ∷ cs) ≡ read_quoted b'"' (suc pos) (result ++ c ∷ []) cs
unfolding read_quoted
read_quoted-plain c [] result pos h k = absurd (k refl)
read_quoted-plain c (d ∷ cs) result pos h k = rw h refl

ne_nil : (xs : Text) (c : ℕ) (ys : Text) → xs ++ c ∷ ys ≢ []
ne_nil [] c ys = λ e. cc
ne_nil (x ∷ xs) c ys = λ e. cc

read_quoted-double_quotes :
    (id rest result : Text) (pos : ℕ)
    → peek rest ≢ b'"'
    → read_quoted b'"' pos result (double_quotes id ++ b'"' ∷ rest)
      ≡ (some (result ++ id), pos + length (double_quotes id) + 1)
unfolding double_quotes
read_quoted-double_quotes [] rest result pos h =
    read_quoted-closing rest result pos h
    ∙ ap (λ r. (some r, suc pos)) (sym (append-nil result))
    ∙ ap (λ n. (some (result ++ []), n)) (omega arith)
read_quoted-double_quotes (c ∷ cs) rest result pos h = elim (Bool-cases (c == b'"')) [
  | inl q ↦ rw q (
      doubled
      ∙ read_quoted-double_quotes cs rest (result ++ b'"' ∷ []) (suc (suc pos)) h
      ∙ ap (λ r. (some r, suc (suc pos) + length (double_quotes cs) + 1))
          (append_assoc result (b'"' ∷ []) cs
            ∙ ap (λ x. result ++ x ∷ cs) {x = b'"'} {y = c} (ground (arith, q)))
      ∙ ap (λ n. (some (result ++ c ∷ cs), n)) (omega arith))
  | inr q ↦ rw q (
      read_quoted-plain c (double_quotes cs ++ b'"' ∷ rest) result pos q
        (ne_nil (double_quotes cs) b'"' rest)
      ∙ read_quoted-double_quotes cs rest (result ++ c ∷ []) (suc pos) h
      ∙ ap (λ r. (some r, suc pos + length (double_quotes cs) + 1))
          (append_assoc result (c ∷ []) cs)
      ∙ ap (λ n. (some (result ++ c ∷ cs), n)) (omega arith))
]
  where
    doubled :
        read_quoted b'"' pos result (b'"' ∷ b'"' ∷ (double_quotes cs ++ b'"' ∷ rest))
        ≡ read_quoted b'"' (suc (suc pos)) (result ++ b'"' ∷ []) (double_quotes cs ++ b'"' ∷ rest)
    doubled = unfold read_quoted in refl

drop_front : (before rest : Text) → drop (length before) (before ++ rest) ≡ rest
drop_front before rest = drop-append before rest

-- Every identifier, of whatever characters, that a dialect quotes is read back as it was, anywhere in a
-- text, and reading ends behind the closing quote, unless another quote follows at once.
pub read_sql_identifier-quote_ansi_identifier :
    (before id rest : Text)
    → peek rest ≢ b'"'
    → read_sql_identifier (before ++ (quote_ansi_identifier id ++ rest)) (length before)
      ≡ (some id, length before + length (quote_ansi_identifier id))
unfolding read_sql_identifier skip_sql_space quote_ansi_identifier
read_sql_identifier-quote_ansi_identifier before id rest h =
    ap (λ (n : ℕ). read_from n (drop n text)) at_quote
    ∙ ap (read_from (length before)) (drop_front before (quoted_id ++ rest))
    ∙ unfold read_from in
      (ap (λ x. read_quoted b'"' (suc (length before)) [] x)
          (append_assoc (double_quotes id) (b'"' ∷ []) rest)
        ∙ read_quoted-double_quotes id rest [] (suc (length before)) h
        ∙ ap (λ n. (some id, n)) (omega (arith, length-append (double_quotes id) (b'"' ∷ []))))
  where
    quoted_id : Text
    quoted_id = b'"' ∷ (double_quotes id ++ b'"' ∷ [])

    text : Text
    text = before ++ (quoted_id ++ rest)

    at_quote : skip_from (length before) (drop (length before) text) ≡ length before
    at_quote =
        ap (skip_from (length before)) (drop_front before (quoted_id ++ rest))
        ∙ unfold skip_from in refl

abbrev pub IsBlank : Text → Type 0
IsBlank = All (λ c. is_space c ≡ true)

skip_from-blank :
    (ws : Text) (c : ℕ) (rest : Text) (pos : ℕ)
    → IsBlank ws
    → is_space c ≡ false
    → skip_from pos (ws ++ c ∷ rest) ≡ pos + length ws
unfolding skip_from
skip_from-blank [] c rest pos h k = rw k (omega arith)
skip_from-blank (w ∷ ws) c rest pos (h, hs) k =
    rw h (skip_from-blank ws c rest (suc pos) hs k ∙ omega arith)

skip_sql_space-blank :
    (before ws : Text) (c : ℕ) (rest : Text)
    → IsBlank ws
    → is_space c ≡ false
    → skip_sql_space (before ++ (ws ++ c ∷ rest)) (length before) ≡ length (before ++ ws)
unfolding skip_sql_space
skip_sql_space-blank before ws c rest h k =
    ap (skip_from (length before)) (drop-append before (ws ++ c ∷ rest))
    ∙ skip_from-blank ws c rest (length before) h k
    ∙ sym (length-append before ws)

-- The expression of a CHECK is what stands between its parentheses, trimmed: for every expression that
-- closes its quotes, brackets, comments and parentheses and has no comma outside of these, with blanks
-- before the opening parenthesis and any text behind the closing one.
pub extract_check_expression_lem :
    (before ws e rest : Text) (check_pos : ℕ)
    → check_pos + 5 ≡ length before
    → IsBlank ws
    → Closed e b')'
    → extract_check_expression (before ++ (ws ++ b'(' ∷ (e ++ b')' ∷ rest))) check_pos
      ≡ some (trim_sql_view e)
unfolding extract_check_expression check_between
extract_check_expression_lem before ws e rest check_pos h blank closed =
    let segment = before ++ (ws ++ b'(' ∷ (e ++ b')' ∷ rest)) in
    let from = before ++ ws in
    let same : segment ≡ from ++ b'(' ∷ (e ++ b')' ∷ rest) =
      sym (append_assoc before ws (b'(' ∷ (e ++ b')' ∷ rest))) in
    ap (check_of segment) (
      ap (skip_sql_space segment) h
      ∙ skip_sql_space-blank before ws b'(' (e ++ b')' ∷ rest) blank (unfold is_space in refl))
    ∙ ap (λ s. check_of s (length from)) same
    ∙ ap (check_close (from ++ b'(' ∷ (e ++ b')' ∷ rest)) (length from)) (
        matching from (e ++ b')' ∷ rest)
        ∙ match_segment e (b')' ∷ rest) b')' (suc (length from)) (unfold peek in refl) closed
        ∙ match_closing rest (suc (length from) + length e))
    ∙ ap (λ x. some (trim_sql_view x)) (body_between from e rest)
  where
    check_close : Text → ℕ → Option ℕ → Option Text
    check_close s pos none = none
    check_close s pos (some close) = some (check_between s pos close)

    check_of : Text → ℕ → Option Text
    check_of s pos = check_close s pos (find_sql_matching_paren s pos)

keyword_loop-ge :
    (text keyword : Text) (c : Cursor) (i : ℕ) (cs : Text) (j : ℕ)
    → keyword_loop text keyword c i cs ≡ some j
    → i ≤ j
unfolding keyword_loop
keyword_loop-ge text keyword c i [] j h = cc
keyword_loop-ge text keyword c i (ch ∷ cs) j h =
    ground (arith, h, keyword_loop-ge text keyword (advance c ch (peek cs)) (suc i) cs j)

-- With more than `fuel` rounds the loop ends, with a result that does not depend on how many.
abbrev Ends : ℕ → Text → ℕ → ℕ → Type 0
Ends fuel segment target from =
    (r : Option Text) × ((rounds : ℕ)
      → fuel ≤ rounds
      → name_loop (suc rounds) segment target from ≡ some r)

name_loop_ended :
    (fuel : ℕ) (segment : Text) (target from : ℕ) → target ≤ from → Ends fuel segment target from
unfolding name_loop
name_loop_ended fuel segment target from h = (none, λ rounds l. rw (past, name_loop) refl)
  where
    past : ltb from target ≡ false
    past = ground (arith, h)

-- A round that finds no name goes on from behind the CONSTRAINT that it found.
name_loop_round :
    (fuel : ℕ) (segment : Text) (target from : ℕ)
    → ((p : ℕ) → from ≤ p → Ends fuel segment target (p + 10))
    → Ends (suc fuel) segment target from
unfolding name_loop
name_loop_round fuel segment target from h = elim (Bool-cases (ltb from target)) [
  | inr e ↦ (none, λ rounds l. rw (e, name_loop) refl)
  | inl e ↦ elim (Option-cases found) [
    | inl k ↦ (none, λ rounds l. rw (e, k, name_loop) refl)
    | inr (p, k) ↦ elim (Bool-cases (ltb p target)) [
      | inr m ↦ (none, λ rounds l. rw (e, k, m, name_loop) refl)
      | inl m ↦ elim (Option-cases (name_before segment target p)) [
        | inr (n, q) ↦ (some n, λ rounds l. rw (e, k, m, q, name_loop) refl)
        | inl q ↦
            let (r, later) = h p (after p k) in
            (r, λ rounds l. rw (e, k, m, q, name_loop) (next p r later rounds l))
      ]
    ]
  ]
]
  where
    found : Option ℕ
    found = find_sql_keyword_top_level segment (codes "CONSTRAINT") from

    after : (p : ℕ) → found ≡ some p → from ≤ p
    after p k =
        unfold find_sql_keyword_top_level in
        keyword_loop-ge segment (codes "CONSTRAINT") (at_start 0) from (drop from segment) p k

    next :
        (p : ℕ) (r : Option Text)
        → ((rounds : ℕ) → fuel ≤ rounds → name_loop (suc rounds) segment target (p + 10) ≡ some r)
        → (rounds : ℕ) → suc fuel ≤ rounds
        → name_loop rounds segment target (p + 10) ≡ some r
    next p r later zero l = absurd (omega (arith, l))
    next p r later (suc rounds) l = later rounds (omega (arith, l))

name_loop-Ends :
    (fuel : ℕ) (segment : Text) (target from : ℕ)
    → target ≤ fuel + from
    → Ends fuel segment target from
name_loop-Ends zero segment target from h =
    name_loop_ended zero segment target from (omega (arith, h))
name_loop-Ends (suc fuel) segment target from h =
    name_loop_round fuel segment target from
      (λ p l. name_loop-Ends fuel segment target (p + 10) (omega (arith, h, l)))

-- The search for a constraint's name ends, in every text and for every position that it looks for: in
-- any number of rounds that is greater than this position, it has returned what
-- `constraint_name_for` returns.
pub constraint_name_for_enough :
    (segment : Text) (target rounds : ℕ)
    → target < rounds
    → name_loop rounds segment target 0 ≡ some (constraint_name_for segment target)
unfolding constraint_name_for
constraint_name_for_enough segment target zero h = absurd (omega (arith, h))
constraint_name_for_enough segment target (suc rounds) h =
    let (r, ends) = name_loop-Ends target segment target 0 (omega arith) in
    ends rounds (omega (arith, h))
    ∙ ap (λ o. some (elim o as (λ x. Option Text) [ none ↦ none | some name ↦ name ]))
        (sym (ends target (omega arith)))
