-- ===== src/Sqlite/Quoted.antt =====
-- include/metal/sqlite_ddl_parser.hpp: quoted identifiers of any characters inside of a statement.
use metal_orm_cpp.Base.{
  ℕ, ◌≡◌, refl, sym, ap, ◌∙◌, subst, inl, inr, true, false, not, ◌&&◌, List, [], ◌∷◌, ◌++◌, map,
  Text, codes, ◌==◌, Bool-cases, All,
}
use mathlib.Core.List.{append_assoc}
use metal_orm_cpp.Dialect.{double_quotes, quote_ansi_identifier}
use metal_orm_cpp.Sqlite.{trim_sql_view}
use metal_orm_cpp.Sqlite.Scan.{
  plain, quoted, lex, lex_head, Cursor, at_start, advance, is_code, split_sqlite_table_body,
}
use metal_orm_cpp.Sqlite.Segments.{
  peek_or, run, breaks, unbroken, Closed, IsSegment, joined, is_head,
  split_sqlite_table_body-joined,
}

abbrev inside : Cursor
inside = record { mode = quoted b'"'; skip = false; depth = 0 }

advance-inside : (c n : ℕ) → (c == b'"') ≡ false → advance inside c n ≡ inside
unfolding advance lex
advance-inside c n q = rw q refl

breaks-inside : (c n : ℕ) → (c == b'"') ≡ false → breaks inside c n ≡ false
unfolding breaks is_code lex
breaks-inside c n q = rw q refl

run-double_quotes :
    (id t : Text) (f : ℕ)
    → (peek_or t f == b'"') ≡ false
    → run inside (double_quotes id ++ b'"' ∷ t) f ≡ run (at_start 0) t f
unfolding run advance lex double_quotes
run-double_quotes [] t f h = rw h refl
run-double_quotes (c ∷ cs) t f h = elim (Bool-cases (c == b'"')) [
  | inl q ↦ rw q (run-double_quotes cs t f h)
  | inr q ↦ rw q (
      ap (λ k. run k (double_quotes cs ++ b'"' ∷ t) f)
        (advance-inside c (peek_or (double_quotes cs ++ b'"' ∷ t) f) q)
      ∙ run-double_quotes cs t f h)
]

unbroken-double_quotes :
    (id t : Text) (f : ℕ)
    → (peek_or t f == b'"') ≡ false
    → unbroken inside (double_quotes id ++ b'"' ∷ t) f ≡ unbroken (at_start 0) t f
unfolding unbroken breaks is_code advance lex double_quotes
unbroken-double_quotes [] t f h = rw h refl
unbroken-double_quotes (c ∷ cs) t f h = elim (Bool-cases (c == b'"')) [
  | inl q ↦ rw q (unbroken-double_quotes cs t f h)
  | inr q ↦ rw q (
      ap
        (λ b.
          not b
          && unbroken (advance inside c (peek_or (double_quotes cs ++ b'"' ∷ t) f))
              (double_quotes cs ++ b'"' ∷ t) f)
        (breaks-inside c (peek_or (double_quotes cs ++ b'"' ∷ t) f) q)
      ∙ ap (λ k. unbroken k (double_quotes cs ++ b'"' ∷ t) f)
          (advance-inside c (peek_or (double_quotes cs ++ b'"' ∷ t) f) q)
      ∙ unbroken-double_quotes cs t f h)
]

requoted : (id t : Text) → quote_ansi_identifier id ++ t ≡ b'"' ∷ (double_quotes id ++ b'"' ∷ t)
unfolding quote_ansi_identifier
requoted id t = ap (◌∷◌ b'"') (append_assoc (double_quotes id) (b'"' ∷ []) t)

quoted-Closed :
    (id t : Text) (f : ℕ)
    → (peek_or t f == b'"') ≡ false
    → Closed t f
    → Closed (quote_ansi_identifier id ++ t) f
unfolding run unbroken breaks is_code advance lex
quoted-Closed id t f h k =
    subst (λ s. Closed s f) (sym (requoted id t))
      (record {
        whole = unbroken-double_quotes id t f h ∙ k.whole;
        ends = run-double_quotes id t f h ∙ k.ends;
      })

-- A column's definition: what stands behind its name begins with a space.
abbrev pub Column : Type 0
Column = Text × Text

abbrev pub definition : Column → Text
definition (name, rest) = quote_ansi_identifier name ++ b' ' ∷ rest

definition-IsSegment : (c : Column) → IsSegment (b' ' ∷ c.1) → IsSegment (definition c)
definition-IsSegment c (h, k, l) = (
  quoted-Closed c.0 (b' ' ∷ c.1) b',' refl h,
  quoted-Closed c.0 (b' ' ∷ c.1) b')' refl k,
  quoted-Closed c.0 (b' ' ∷ c.1) 0 refl l,
)

definitions-IsSegment :
    (cs : List Column) → All (λ c. IsSegment (b' ' ∷ c.1)) cs → All IsSegment (map definition cs)
definitions-IsSegment [] h = tt
definitions-IsSegment (c ∷ cs) h = (definition-IsSegment c h.0, definitions-IsSegment cs h.1)

is_head-double_quotes :
    (id t : Text)
    → (peek_or t b'(' == b'"') ≡ false
    → is_head (quoted b'"') false (double_quotes id ++ b'"' ∷ t) ≡ is_head plain false t
unfolding is_head lex_head double_quotes
is_head-double_quotes [] t h = rw h refl
is_head-double_quotes (c ∷ cs) t h = elim (Bool-cases (c == b'"')) [
  | inl q ↦ rw q (is_head-double_quotes cs t h)
  | inr q ↦ rw q (rw q (is_head-double_quotes cs t h))
]

abbrev pub create : Text → Text
create name = codes "CREATE TABLE " ++ (quote_ansi_identifier name ++ codes " ")

create-is_head : (name : Text) → is_head plain false (create name) ≡ true
unfolding is_head lex_head
create-is_head name =
    ap (λ t. is_head plain false (codes "CREATE TABLE " ++ t)) (requoted name (codes " "))
    ∙ is_head-double_quotes name (codes " ") refl

-- `split_sqlite_table_body` returns the columns of a CREATE TABLE statement in order, trimmed: the
-- names of the table and of the columns are quoted and may be any texts, with quotes, commas,
-- parentheses, brackets or the marks of a comment in them. What stands behind a name begins with a
-- space, closes its quotes, brackets, comments and parentheses, and has no comma outside of these.
-- There may be any text behind the body.
pub split_sqlite_table_body-create :
    (name tail : Text) (c : Column) (cs : List Column)
    → All (λ d. IsSegment (b' ' ∷ d.1)) (c ∷ cs)
    → split_sqlite_table_body
        (create name ++ b'(' ∷ (joined (definition c) (map definition cs) ++ b')' ∷ tail))
      ≡ map trim_sql_view (map definition (c ∷ cs))
split_sqlite_table_body-create name tail c cs h =
    split_sqlite_table_body-joined (create name) tail (definition c) (map definition cs)
      (create-is_head name) (definitions-IsSegment (c ∷ cs) h)
