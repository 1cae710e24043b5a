-- ===== src/Query/Compile/Args.antt =====
-- include/metal/query/sqlite_compiler.hpp: arguments and parts of expressions, and what they write.
use mathlib.Core.List.{append-nil, append_assoc}
use metal_orm_cpp.Base.{
  All-every, ◌≡◌, refl, sym, ap, ◌∙◌, Bool, true, false, List, [], ◌∷◌, ◌++◌, map, Text, codes,
  Result, ok, err, length, if◌then◌else◌, length-append,
}
use metal_orm_cpp.Value.{Value}
use metal_orm_cpp.Dialect.{Dialect}
use metal_orm_cpp.Query.{
  QueryError, bad_function_name, Compiler, pure, fail, ◌>>=◌, bind, within, followed_by, separated,
}
use metal_orm_cpp.Query.Pieces.{
  Pieces, bound_value, ◌then◌, enclosed, separated_pieces, text_of, values_of, emit, Writes,
  fixed-Writes, fail-Writes, bind-Writes, followed_by-Writes, within-Writes, separated-Writes,
  embed-Writes,
}
use metal_orm_cpp.Query.Nodes.{Subquery}
use metal_orm_cpp.Query.Templates.{Rule}
use metal_orm_cpp.Query.Compile.{CompileContext, lift, filled, embed_subquery}
use metal_orm_cpp.Query.Compile.Ordered.{texts_of, all_values, filled_at}
use metal_orm_cpp.Query.Compile.Meaning.{
  Arguments, fixed_result, before, applied, Means, AppliedInOrder,
}

pub lift-Writes : (d : Dialect) (r : Result QueryError Text) → Writes d (lift r) (fixed_result r)
unfolding lift fixed_result
lift-Writes d (ok t) params = fixed-Writes d t params
lift-Writes d (err e) params = fail-Writes d e params

unfoldable pub emit_args :
    Dialect → List Value → Arguments → Result QueryError (List Text × List Value)
emit_args d params (ok pss) = ok (texts_of d (length params) pss, params ++ all_values pss)
emit_args d params (err e) = err e

abbrev pub ArgsWrites : Dialect → Compiler (List Text) → Arguments → Type 0
ArgsWrites d m rs = (params : List Value) → m params ≡ emit_args d params rs

pub args_path :
    {s t : List Text} {vs ws : List Value}
    → s ≡ t
    → vs ≡ ws
    → ◌≡◌ {A = Result QueryError (List Text × List Value)} (ok (s, vs)) (ok (t, ws))
args_path e f = cc

pub no_args-Writes : (d : Dialect) → ArgsWrites d (pure []) (ok [])
unfolding emit_args texts_of all_values
no_args-Writes d params = args_path refl (sym (append-nil params))

abbrev then_args :
    Compiler (List Text)
    → Result QueryError (Text × List Value)
    → Result QueryError (List Text × List Value)
then_args n x = elim x [ ok (t, params) ↦ (n >>= λ ts. pure (t ∷ ts)) params | err e ↦ err e ]

abbrev put_first :
    Text → Result QueryError (List Text × List Value) → Result QueryError (List Text × List Value)
put_first t x = elim x [ ok (ts, params) ↦ pure (t ∷ ts) params | err e ↦ err e ]

pub before-Writes :
    (d : Dialect) (m : Compiler Text) (n : Compiler (List Text)) (r : Pieces) (rs : Arguments)
    → Writes d m r
    → ArgsWrites d n rs
    → ArgsWrites d (m >>= λ t. n >>= λ ts. pure (t ∷ ts)) (before r rs)
unfolding emit emit_args before texts_of all_values
before-Writes d m n (err e) rs hm hn params = ap (then_args n) (hm params)
before-Writes d m n (ok ps) (err e) hm hn params =
    ap (then_args n) (hm params)
    ∙ ap (put_first (text_of d (length params) ps)) (hn (params ++ values_of ps))
before-Writes d m n (ok ps) (ok pss) hm hn params =
    ap (then_args n) (hm params)
    ∙ ap (put_first (text_of d (length params) ps)) (hn (params ++ values_of ps))
    ∙ args_path
        (ap (λ k. text_of d (length params) ps ∷ texts_of d k pss)
          (length-append params (values_of ps)))
        (append_assoc params (values_of ps) (all_values pss))

abbrev then_filled :
    Rule → Result QueryError (List Text × List Value) → Result QueryError (Text × List Value)
then_filled rule x = elim x [ ok (ts, params) ↦ filled rule ts params | err e ↦ err e ]

pub applied-Writes :
    (d : Dialect) (rule : Rule) (m : Compiler (List Text)) (rs : Arguments)
    → ArgsWrites d m rs
    → AppliedInOrder rule rs
    → Writes d (m >>= λ ts. filled rule ts) (applied rule rs)
unfolding emit emit_args applied
applied-Writes d rule m (err e) h k params = ap (then_filled rule) (h params)
applied-Writes d rule m (ok pss) h k params =
    ap (then_filled rule) (h params) ∙ filled_at d rule pss params k

pub subquery-Writes :
    (ctx : CompileContext) (meaning : Subquery → Pieces) (q : Subquery)
    → Means ctx meaning q
    → Writes ctx.dialect (embed_subquery ctx.dialect q) (meaning q)
unfolding embed_subquery
subquery-Writes ctx meaning q h = embed-Writes ctx.dialect q (meaning q) h

-- A part behind another, with text around it.
pub pair-Writes :
    (d : Dialect) (first last : Text) (m n : Compiler Text) (r s : Pieces)
    → Writes d m r
    → Writes d n s
    → Writes d (followed_by m (within first n last)) (r then enclosed first s last)
pair-Writes d first last m n r s hm hn =
    followed_by-Writes d m (within first n last) r (enclosed first s last) hm
      (within-Writes d first last n s hn)

pub members-Writes :
    (d : Dialect) (vs : List Value)
    → Writes d
        (separated (codes ", ") (bind d) vs)
        (separated_pieces (codes ", ") (map bound_value vs))
members-Writes d vs =
    separated-Writes d (codes ", ") (bind d) bound_value vs
      (All-every (λ v. Writes d (bind d v) (bound_value v)) vs (bind-Writes d))

-- The test of a function's name, and the one for TRUNCATE.
pub named-Writes :
    (d : Dialect) (b : Bool) (m : Compiler Text) (r : Pieces)
    → Writes d m r
    → Writes d
        (elim b [ false ↦ fail bad_function_name | true ↦ m ])
        (elim b [ false ↦ err bad_function_name | true ↦ r ])
named-Writes d false m r h = fail-Writes d bad_function_name
named-Writes d true m r h = h

pub either-Writes :
    (d : Dialect) (b : Bool) (m n : Compiler Text) (r s : Pieces)
    → Writes d m r
    → Writes d n s
    → Writes d (elim b [ true ↦ m | false ↦ n ]) (elim b [ true ↦ r | false ↦ s ])
either-Writes d true m n r s h k = h
either-Writes d false m n r s h k = k
