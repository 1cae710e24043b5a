-- ===== src/Dml/Statements.antt =====
-- include/metal/dml.hpp: what INSERT, UPDATE and DELETE compile to, as pieces without numbers.
use metal_orm_cpp.Base.{
  All-every, ◌≡◌, ◌≢◌, refl, ap, ◌∙◌, Bool, true, false, Option, none, some, List, [], ◌∷◌, ◌++◌,
  map, Text, codes, Result, ok, err, if◌then◌else◌, All, length,
}
use metal_orm_cpp.Value.{Value}
use metal_orm_cpp.Dialect.{Dialect}
use metal_orm_cpp.Query.{
  QueryError, excluded_outside, no_assignments, bind, followed_by, separated, compare_token, ◌>>=◌,
}
use metal_orm_cpp.Query.Pieces.{
  IsVisible, bound_value, bound, Pieces, fixed, ◌then◌, enclosed, separated_pieces, text_of,
  values_of, statement, emit, Writes, compiled-statement, fixed-Writes, nothing-Writes, bind-Writes,
  fail-Writes, followed_by-Writes, within-Writes, separated-Writes,
}
use metal_orm_cpp.Dml.{
  DmlOperand, value, excluded, DmlAssignment, DmlPredicate, DmlInPredicate, DmlWhereCompiler,
  UpdateNode, DeleteNode, Term, plain, member, extra, terms, compile_dml_operand,
  compile_assignment, compile_predicate, compile_members, not_empty, compile_extra, compile_term,
  where_terms, append_dml_where, extra_terms, compile_in_predicate, append_returning, compile_set,
  update_text, compile_update, delete_text, compile_delete,
}

unfoldable pub operand_pieces : Dialect → Bool → DmlOperand → Pieces
operand_pieces d allow_excluded (value v) = ok (bound v ∷ [])
operand_pieces d allow_excluded (excluded column) =
    if allow_excluded
    then fixed (codes "excluded." ++ d.quote_identifier column)
    else err excluded_outside

unfoldable pub assignment_pieces : Dialect → Bool → DmlAssignment → Pieces
unfolding operand_pieces enclosed
assignment_pieces d allow_excluded a =
    enclosed (d.quote_identifier a.column ++ codes " = ")
      (operand_pieces d allow_excluded a.operand) []

unfoldable pub predicate_pieces : Dialect → DmlPredicate → Pieces
unfolding enclosed
predicate_pieces d p =
    enclosed (d.quote_identifier p.column ++ (codes " " ++ (compare_token p.op ++ codes " ")))
      (ok (bound p.against ∷ [])) []

unfoldable pub member_pieces : Dialect → Text → Bool → List Value → Pieces
unfolding enclosed separated_pieces
member_pieces d column negated [] = fixed (if negated then codes "1" else codes "0")
member_pieces d column negated (v ∷ vs) =
    enclosed (d.quote_identifier column ++ (if negated then codes " NOT IN (" else codes " IN ("))
      (separated_pieces (codes ", ") (map bound_value (v ∷ vs))) (codes ")")

-- `meaning`: the pieces of the predicate that the caller gives as an expression.
unfoldable pub term_pieces : Dialect → Pieces → Term → Pieces
unfolding predicate_pieces member_pieces enclosed
term_pieces d meaning (plain p) = predicate_pieces d p
term_pieces d meaning (member p) = member_pieces d p.column p.negated p.values
term_pieces d meaning (extra w) = enclosed (codes "(") meaning (codes ")")

unfoldable pub where_pieces : Dialect → Pieces → List Term → Pieces
unfolding term_pieces enclosed separated_pieces
where_pieces d meaning [] = ok []
where_pieces d meaning (t ∷ ts) =
    enclosed (codes " WHERE ")
      (separated_pieces (codes " AND ") (map (term_pieces d meaning) (t ∷ ts))) []

unfoldable pub set_pieces : Dialect → List DmlAssignment → Pieces
unfolding assignment_pieces separated_pieces
set_pieces d [] = err no_assignments
set_pieces d (a ∷ rest) = separated_pieces (codes ", ") (map (assignment_pieces d false) (a ∷ rest))

unfoldable pub update_pieces : Dialect → Pieces → UpdateNode → Pieces
unfolding set_pieces where_pieces enclosed ◌then◌
update_pieces d meaning node =
    enclosed (codes "UPDATE " ++ (d.quote_identifier node.table ++ codes " SET "))
      (set_pieces d node.assignments
        then where_pieces d meaning (terms node.predicates node.in_predicates node.extra_where))
      (append_returning d node.returning ++ codes ";")

unfoldable pub delete_pieces : Dialect → Pieces → DeleteNode → Pieces
unfolding where_pieces enclosed
delete_pieces d meaning node =
    enclosed (codes "DELETE FROM " ++ d.quote_identifier node.table)
      (where_pieces d meaning (terms node.predicates node.in_predicates node.extra_where))
      (append_returning d node.returning ++ codes ";")

-- A predicate writes the pieces, which are not the empty text.
abbrev pub Means : Dialect → Pieces → Option DmlWhereCompiler → Type 0
Means d meaning none = Unit
Means d meaning (some w) = Writes d (w d) meaning × IsVisible d meaning

pub operand-Writes :
    (d : Dialect) (allow_excluded : Bool) (o : DmlOperand)
    → Writes d (compile_dml_operand d allow_excluded o) (operand_pieces d allow_excluded o)
unfolding compile_dml_operand operand_pieces
operand-Writes d allow_excluded (value v) = bind-Writes d v
operand-Writes d true (excluded column) =
    fixed-Writes d (codes "excluded." ++ d.quote_identifier column)
operand-Writes d false (excluded column) = fail-Writes d excluded_outside

pub assignment-Writes :
    (d : Dialect) (allow_excluded : Bool) (a : DmlAssignment)
    → Writes d (compile_assignment d allow_excluded a) (assignment_pieces d allow_excluded a)
unfolding compile_assignment assignment_pieces
assignment-Writes d allow_excluded a =
    within-Writes d (d.quote_identifier a.column ++ codes " = ") []
      (compile_dml_operand d allow_excluded a.operand) (operand_pieces d allow_excluded a.operand)
      (operand-Writes d allow_excluded a.operand)

pub predicate-Writes :
    (d : Dialect) (p : DmlPredicate) → Writes d (compile_predicate d p) (predicate_pieces d p)
unfolding compile_predicate predicate_pieces
predicate-Writes d p =
    within-Writes d
      (d.quote_identifier p.column ++ (codes " " ++ (compare_token p.op ++ codes " "))) []
      (bind d p.against) (ok (bound p.against ∷ [])) (bind-Writes d p.against)

members-Writes :
    (d : Dialect) (column : Text) (negated : Bool) (vs : List Value)
    → Writes d (compile_members d column negated vs) (member_pieces d column negated vs)
unfolding compile_members member_pieces
members-Writes d column negated [] = fixed-Writes d (if negated then codes "1" else codes "0")
members-Writes d column negated (v ∷ vs) =
    within-Writes d
      (d.quote_identifier column ++ (if negated then codes " NOT IN (" else codes " IN ("))
      (codes ")") (separated (codes ", ") (bind d) (v ∷ vs))
      (separated_pieces (codes ", ") (map bound_value (v ∷ vs)))
      (separated-Writes d (codes ", ") (bind d) bound_value (v ∷ vs)
        (All-every (λ x. Writes d (bind d x) (bound_value x)) (v ∷ vs) (bind-Writes d)))

abbrev checked : Result QueryError (Text × List Value) → Result QueryError (Text × List Value)
checked x = elim x [ ok (t, params) ↦ not_empty t params | err e ↦ err e ]

not_empty_lem : (t : Text) (params : List Value) → t ≢ [] → not_empty t params ≡ ok (t, params)
unfolding not_empty
not_empty_lem [] params h = absurd (h refl)
not_empty_lem (c ∷ cs) params h = refl

checked-Writes :
    (d : Dialect) (w : DmlWhereCompiler) (meaning : Pieces)
    → Means d meaning (some w)
    → Writes d (w d >>= λ fragment. not_empty fragment) meaning
unfolding emit
checked-Writes d w (err e) (h, k) params = ap checked (h params)
checked-Writes d w (ok ps) (h, k) params =
    ap checked (h params)
    ∙ not_empty_lem (text_of d (length params) ps) (params ++ values_of ps) (k (length params))

extra-Writes :
    (d : Dialect) (w : DmlWhereCompiler) (meaning : Pieces)
    → Means d meaning (some w)
    → Writes d (compile_extra d w) (term_pieces d meaning (extra w))
unfolding compile_extra term_pieces
extra-Writes d w meaning h =
    within-Writes d (codes "(") (codes ")") (w d >>= λ fragment. not_empty fragment) meaning
      (checked-Writes d w meaning h)

abbrev TermWrites : Dialect → Pieces → Term → Type 0
TermWrites d meaning t = Writes d (compile_term d t) (term_pieces d meaning t)

terms-Writes :
    (d : Dialect) (meaning : Pieces) (ps : List DmlPredicate) (qs : List DmlInPredicate)
    (w : Option DmlWhereCompiler)
    → Means d meaning w
    → All (TermWrites d meaning) (terms ps qs w)
unfolding terms extra_terms compile_term term_pieces compile_in_predicate
terms-Writes d meaning [] [] none h = tt
terms-Writes d meaning [] [] (some w) h = (extra-Writes d w meaning h, tt)
terms-Writes d meaning [] (q ∷ qs) w h =
    (members-Writes d q.column q.negated q.values, terms-Writes d meaning [] qs w h)
terms-Writes d meaning (p ∷ ps) qs w h = (predicate-Writes d p, terms-Writes d meaning ps qs w h)

where-Writes :
    (d : Dialect) (meaning : Pieces) (ts : List Term)
    → All (TermWrites d meaning) ts
    → Writes d (where_terms d ts) (where_pieces d meaning ts)
unfolding where_terms where_pieces
where-Writes d meaning [] h = nothing-Writes d
where-Writes d meaning (t ∷ ts) h =
    within-Writes d (codes " WHERE ") [] (separated (codes " AND ") (compile_term d) (t ∷ ts))
      (separated_pieces (codes " AND ") (map (term_pieces d meaning) (t ∷ ts)))
      (separated-Writes d (codes " AND ") (compile_term d) (term_pieces d meaning) (t ∷ ts) h)

set-Writes : (d : Dialect) (xs : List DmlAssignment) → Writes d (compile_set d xs) (set_pieces d xs)
unfolding compile_set set_pieces
set-Writes d [] = fail-Writes d no_assignments
set-Writes d (a ∷ rest) =
    separated-Writes d (codes ", ") (compile_assignment d false) (assignment_pieces d false)
      (a ∷ rest)
      (All-every (λ x. Writes d (compile_assignment d false x) (assignment_pieces d false x))
        (a ∷ rest) (assignment-Writes d false))

-- For every UPDATE and every dialect, `compile` gives the statement of `update_pieces`, or throws its
-- error: the SQL with the placeholders numbered from 1 on from left to right, and in `params` the
-- value of each placeholder at its number. The predicate that the caller may have added has to write
-- pieces itself, from any number on, and not the empty text.
pub compile_update-statement :
    (d : Dialect) (node : UpdateNode) (meaning : Pieces)
    → Means d meaning node.extra_where
    → compile_update d node ≡ statement d (update_pieces d meaning node)
unfolding compile_update update_text update_pieces append_dml_where
compile_update-statement d node meaning h =
    compiled-statement d (update_text d node) (update_pieces d meaning node) (
      within-Writes d (codes "UPDATE " ++ (d.quote_identifier node.table ++ codes " SET "))
        (append_returning d node.returning ++ codes ";")
        (followed_by (compile_set d node.assignments)
          (where_terms d (terms node.predicates node.in_predicates node.extra_where)))
        (set_pieces d node.assignments
          then where_pieces d meaning (terms node.predicates node.in_predicates node.extra_where))
        (followed_by-Writes d (compile_set d node.assignments)
          (where_terms d (terms node.predicates node.in_predicates node.extra_where))
          (set_pieces d node.assignments)
          (where_pieces d meaning (terms node.predicates node.in_predicates node.extra_where))
          (set-Writes d node.assignments)
          (where-Writes d meaning (terms node.predicates node.in_predicates node.extra_where)
            (terms-Writes d meaning node.predicates node.in_predicates node.extra_where h))))

-- For every DELETE and every dialect, `compile` gives the statement of `delete_pieces`, or throws its
-- error, with the placeholders numbered as in an UPDATE and under the same condition.
pub compile_delete-statement :
    (d : Dialect) (node : DeleteNode) (meaning : Pieces)
    → Means d meaning node.extra_where
    → compile_delete d node ≡ statement d (delete_pieces d meaning node)
unfolding compile_delete delete_text delete_pieces append_dml_where
compile_delete-statement d node meaning h =
    compiled-statement d (delete_text d node) (delete_pieces d meaning node) (
      within-Writes d (codes "DELETE FROM " ++ d.quote_identifier node.table)
        (append_returning d node.returning ++ codes ";")
        (where_terms d (terms node.predicates node.in_predicates node.extra_where))
        (where_pieces d meaning (terms node.predicates node.in_predicates node.extra_where))
        (where-Writes d meaning (terms node.predicates node.in_predicates node.extra_where)
          (terms-Writes d meaning node.predicates node.in_predicates node.extra_where h)))
