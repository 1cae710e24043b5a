-- ===== src/Query/Compile/Swapped.antt =====
-- include/metal/query/sqlite_compiler.hpp: the rule of POSITION and LOCATE exchanges what is bound.
use mathlib.Core.List.{append-nil}
use metal_orm_cpp.Base.{
  ℕ, suc, ◌+◌, ◌≡◌, refl, sym, ap, ◌∙◌, subst, inl, inr, ◌⊎◌, List, [], ◌∷◌, ◌++◌, Text, codes,
  text_eq, starts_with, Result, ok, err, length,
}
use metal_orm_cpp.Value.{Value}
use metal_orm_cpp.Dialect.{DialectFamily, sqlite_dialect}
use metal_orm_cpp.Query.{QueryError}
use metal_orm_cpp.Query.Pieces.{Piece, Pieces, text_of, values_of, Writes}
use metal_orm_cpp.Query.Functions.{function_template}
use metal_orm_cpp.Query.Nodes.{Subquery, Scalars, ScalarNode, literal, function, no_args, arg}
use metal_orm_cpp.Query.Compile.{CompileContext, compile_scalar, compile_args, filled}
use metal_orm_cpp.Query.Compile.Ordered.{texts_of, all_values}
use metal_orm_cpp.Query.Compile.Meaning.{before, scalar_pieces, ScalarOrdered}
use metal_orm_cpp.Query.Compile.Args.{
  ArgsWrites, args_path, emit_args, no_args-Writes, before-Writes,
}
use metal_orm_cpp.Query.Compile.Laws.{scalar-Writes}

abbrev pub on_sqlite : CompileContext
on_sqlite = record { dialect = sqlite_dialect; aliases = [] }

abbrev pub pair : Value → Value → Scalars
pair v w = arg (literal v) (arg (literal w) no_args)

-- Placeholders of SQLite carry no number.
text_of-sqlite :
    (m n : ℕ) (ps : List Piece) → text_of sqlite_dialect m ps ≡ text_of sqlite_dialect n ps
unfolding text_of sqlite_dialect
text_of-sqlite m n [] = refl
text_of-sqlite m n (Piece.sql t ∷ ps) = ap (◌++◌ t) (text_of-sqlite m n ps)
text_of-sqlite m n (Piece.bound v ∷ ps) = ap (◌++◌ (codes "?")) (text_of-sqlite (suc m) (suc n) ps)

compile_args-two :
    (ctx : CompileContext) (a b : ScalarNode) (ps qs : List Piece)
    → Writes ctx.dialect (compile_scalar ctx a) (ok ps)
    → Writes ctx.dialect (compile_scalar ctx b) (ok qs)
    → ArgsWrites ctx.dialect (compile_args ctx (arg a (arg b no_args))) (ok (ps ∷ qs ∷ []))
unfolding compile_args before
compile_args-two ctx a b ps qs h k =
    before-Writes ctx.dialect (compile_scalar ctx a) (compile_args ctx (arg b no_args)) (ok ps)
      (ok (qs ∷ [])) h
      (before-Writes ctx.dialect (compile_scalar ctx b) (compile_args ctx no_args) (ok qs) (ok []) k
        (no_args-Writes ctx.dialect))

-- The text of `instr` with two arguments.
abbrev pub instr_sql : List Piece → List Piece → Text
instr_sql ps qs =
    codes "instr("
    ++ (text_of sqlite_dialect 0 ps ++ (codes ", " ++ (text_of sqlite_dialect 0 qs ++ codes ")")))

abbrev pub sqlite_context : List (ℕ × Text) → CompileContext
sqlite_context aliases = record { dialect = sqlite_dialect; aliases = aliases }

two_texts :
    (aliases : List (ℕ × Text)) (a b : ScalarNode) (ps qs : List Piece) (params : List Value)
    → Writes sqlite_dialect (compile_scalar (sqlite_context aliases) a) (ok ps)
    → Writes sqlite_dialect (compile_scalar (sqlite_context aliases) b) (ok qs)
    → compile_args (sqlite_context aliases) (arg a (arg b no_args)) params
      ≡ ok (
        text_of sqlite_dialect 0 ps ∷ text_of sqlite_dialect 0 qs ∷ [],
        params ++ (values_of ps ++ values_of qs),
      )
unfolding emit_args texts_of all_values
two_texts aliases a b ps qs params h k =
    compile_args-two (sqlite_context aliases) a b ps qs h k params
    ∙ args_path
        (ap (λ t. t ∷ text_of sqlite_dialect (length params + length (values_of ps)) qs ∷ [])
            (text_of-sqlite (length params) 0 ps)
          ∙ ap (λ t. text_of sqlite_dialect 0 ps ∷ t ∷ [])
              (text_of-sqlite (length params + length (values_of ps)) 0 qs))
        (ap (λ vs. params ++ (values_of ps ++ vs)) (append-nil (values_of qs)))

-- Behind the compiled arguments.
abbrev then_call :
    Text → Result QueryError (List Text × List Value) → Result QueryError (Text × List Value)
then_call name x = elim x [
  | ok (ts, params) ↦ filled (function_template DialectFamily.sqlite name) ts params
  | err e ↦ err e
]

written_by :
    (aliases : List (ℕ × Text)) (meaning : Subquery → Pieces) (s : ScalarNode) (ps : List Piece)
    → ScalarOrdered (sqlite_context aliases) meaning s
    → scalar_pieces (sqlite_context aliases) meaning s ≡ ok ps
    → Writes sqlite_dialect (compile_scalar (sqlite_context aliases) s) (ok ps)
unfolding sqlite_dialect
written_by aliases meaning s ps h e =
    subst (Writes sqlite_dialect (compile_scalar (sqlite_context aliases) s)) e
      (scalar-Writes (sqlite_context aliases) meaning s h)

-- On SQLite, POSITION and LOCATE of two arguments, the text that is looked for and the text that is
-- searched, have the SQL of a call of `instr` with these arguments exchanged; but where that call
-- appends the values of the exchanged arguments to the parameters, they append those of the first
-- argument and then those of the second. This holds for all arguments that compile and in which each
-- function's SQL has its arguments each once and in their order, and each subquery compiles to a
-- statement itself, from any number on.
pub position_swaps :
    (aliases : List (ℕ × Text)) (meaning : Subquery → Pieces) (name : Text) (a b : ScalarNode)
    (ps qs : List Piece) (params : List Value)
    → (name ≡ codes "POSITION") ⊎ (name ≡ codes "LOCATE")
    → ScalarOrdered (sqlite_context aliases) meaning a
    → ScalarOrdered (sqlite_context aliases) meaning b
    → scalar_pieces (sqlite_context aliases) meaning a ≡ ok ps
    → scalar_pieces (sqlite_context aliases) meaning b ≡ ok qs
    → let ctx = sqlite_context aliases in
      (compile_scalar ctx (function name (arg a (arg b no_args))) params
        ≡ ok (instr_sql qs ps, params ++ (values_of ps ++ values_of qs)))
      × (compile_scalar ctx (function (codes "instr") (arg b (arg a no_args))) params
          ≡ ok (instr_sql qs ps, params ++ (values_of qs ++ values_of ps)))
unfolding compile_scalar sqlite_dialect text_eq starts_with
position_swaps aliases meaning name a b ps qs params n h k e f =
    let first = written_by aliases meaning a ps h e in
    let second = written_by aliases meaning b qs k f in
    (
      by_name first second n,
      ap (then_call (codes "instr")) (two_texts aliases b a qs ps params second first),
    )
  where
    exchanged : Text → Type 0
    exchanged x =
        compile_scalar (sqlite_context aliases) (function x (arg a (arg b no_args))) params
        ≡ ok (instr_sql qs ps, params ++ (values_of ps ++ values_of qs))

    by_name :
        Writes sqlite_dialect (compile_scalar (sqlite_context aliases) a) (ok ps)
        → Writes sqlite_dialect (compile_scalar (sqlite_context aliases) b) (ok qs)
        → (name ≡ codes "POSITION") ⊎ (name ≡ codes "LOCATE")
        → exchanged name
    by_name first second (inl is) =
        subst exchanged (sym is)
          (ap (then_call (codes "POSITION")) (two_texts aliases a b ps qs params first second))
    by_name first second (inr is) =
        subst exchanged (sym is)
          (ap (then_call (codes "LOCATE")) (two_texts aliases a b ps qs params first second))
