-- ===== src/Dml/Revalued.antt =====
-- include/metal/dml.hpp: values are bound, never written into the SQL.
use metal_orm_cpp.Base.{
  All-every, ◌≡◌, refl, sym, ap, ◌∙◌, Bool, true, false, Option, none, some, List, [], ◌∷◌, ◌++◌,
  map, Text, codes, if◌then◌else◌,
}
use metal_orm_cpp.Value.{Value}
use metal_orm_cpp.Dialect.{Dialect}
use metal_orm_cpp.Query.Pieces.{bound_value, Pieces, ◌then◌, enclosed, separated_pieces, statement}
use metal_orm_cpp.Query.Revalued.{
  revalued, revalue_all, revalue, statement-revalue, revalue-then, revalue-enclosed,
  revalue-separated_pieces,
}
use metal_orm_cpp.Dml.{
  DmlOperand, value, excluded, DmlAssignment, DmlPredicate, DmlInPredicate, DmlWhereCompiler,
  DmlConflictClause, InsertNode, UpdateNode, SelectSource, Term, plain, member, extra, terms,
  extra_terms, append_returning, compile_update,
}
use metal_orm_cpp.Dml.Statements.{
  operand_pieces, assignment_pieces, predicate_pieces, member_pieces, term_pieces, where_pieces,
  set_pieces, update_pieces, Means, compile_update-statement,
}

-- The nodes with `f` applied to each value.
unfoldable pub rebind_operand : (Value → Value) → DmlOperand → DmlOperand
rebind_operand f (value v) = value (f v)
rebind_operand f (excluded column) = excluded column

unfoldable pub rebind_assignment : (Value → Value) → DmlAssignment → DmlAssignment
unfolding rebind_operand
rebind_assignment f a = record a { operand = rebind_operand f a.operand }

unfoldable pub rebind_predicate : (Value → Value) → DmlPredicate → DmlPredicate
rebind_predicate f p = record p { against = f p.against }

unfoldable pub rebind_in_predicate : (Value → Value) → DmlInPredicate → DmlInPredicate
rebind_in_predicate f p = record p { values = map f p.values }

unfoldable pub rebind_conflict : (Value → Value) → DmlConflictClause → DmlConflictClause
unfolding rebind_assignment rebind_predicate
rebind_conflict f c = record c {
  assignments = map (rebind_assignment f) c.assignments;
  predicates = map (rebind_predicate f) c.predicates;
}

unfoldable pub change_option : {A B : Type 0} → (A → B) → Option A → Option B
change_option g none = none
change_option g (some a) = some (g a)

-- `g` changes the SELECT, or the predicate that the caller has given.
unfoldable pub rebind_insert :
    (Value → Value) → (SelectSource → SelectSource) → InsertNode → InsertNode
unfolding rebind_assignment rebind_conflict change_option
rebind_insert f g node = record node {
  rows = map (map (rebind_assignment f)) node.rows;
  select_source = change_option g node.select_source;
  conflict = change_option (rebind_conflict f) node.conflict;
}

unfoldable pub rebind_update :
    (Value → Value) → (DmlWhereCompiler → DmlWhereCompiler) → UpdateNode → UpdateNode
unfolding rebind_assignment rebind_predicate rebind_in_predicate change_option
rebind_update f g node = record node {
  assignments = map (rebind_assignment f) node.assignments;
  predicates = map (rebind_predicate f) node.predicates;
  in_predicates = map (rebind_in_predicate f) node.in_predicates;
  extra_where = change_option g node.extra_where;
}

revalue-if :
    (f : Value → Value) (b : Bool) (r s : Pieces)
    → revalue f (if b then r else s) ≡ (if b then revalue f r else revalue f s)
revalue-if f true r s = refl
revalue-if f false r s = refl

pub operand_rebound :
    (d : Dialect) (f : Value → Value) (allow_excluded : Bool) (o : DmlOperand)
    → revalue f (operand_pieces d allow_excluded o)
      ≡ operand_pieces d allow_excluded (rebind_operand f o)
unfolding operand_pieces rebind_operand revalue revalue_all
operand_rebound d f allow_excluded (value v) = refl
operand_rebound d f true (excluded column) = refl
operand_rebound d f false (excluded column) = refl

pub assignment_rebound :
    (d : Dialect) (f : Value → Value) (allow_excluded : Bool) (a : DmlAssignment)
    → revalue f (assignment_pieces d allow_excluded a)
      ≡ assignment_pieces d allow_excluded (rebind_assignment f a)
unfolding assignment_pieces rebind_assignment
assignment_rebound d f allow_excluded a =
    revalue-enclosed f (d.quote_identifier a.column ++ codes " = ") []
      (operand_pieces d allow_excluded a.operand)
    ∙ ap (λ r. enclosed (d.quote_identifier a.column ++ codes " = ") r [])
        (operand_rebound d f allow_excluded a.operand)

pub predicate_rebound :
    (d : Dialect) (f : Value → Value) (p : DmlPredicate)
    → revalue f (predicate_pieces d p) ≡ predicate_pieces d (rebind_predicate f p)
unfolding predicate_pieces rebind_predicate enclosed ◌then◌ revalue revalue_all
predicate_rebound d f p = refl

members_rebound :
    (d : Dialect) (f : Value → Value) (column : Text) (negated : Bool) (vs : List Value)
    → revalue f (member_pieces d column negated vs) ≡ member_pieces d column negated (map f vs)
unfolding member_pieces revalue revalue_all
members_rebound d f column negated [] = refl
members_rebound d f column negated (v ∷ vs) =
    revalue-enclosed f
      (d.quote_identifier column ++ (if negated then codes " NOT IN (" else codes " IN ("))
      (codes ")") (separated_pieces (codes ", ") (map bound_value (v ∷ vs)))
    ∙ ap
        (λ r.
          enclosed
            (d.quote_identifier column ++ (if negated then codes " NOT IN (" else codes " IN (")) r
            (codes ")"))
        (revalue-separated_pieces f (codes ", ") f bound_value bound_value (v ∷ vs)
          (All-every (λ x. revalue f (bound_value x) ≡ bound_value (f x)) (v ∷ vs) (λ x. refl)))

pub assignments_rebound :
    (d : Dialect) (f : Value → Value) (allow_excluded : Bool) (xs : List DmlAssignment)
    → revalue f (separated_pieces (codes ", ") (map (assignment_pieces d allow_excluded) xs))
      ≡ separated_pieces
          (codes ", ")
          (map (assignment_pieces d allow_excluded) (map (rebind_assignment f) xs))
assignments_rebound d f allow_excluded xs =
    revalue-separated_pieces f (codes ", ") (rebind_assignment f)
      (assignment_pieces d allow_excluded) (assignment_pieces d allow_excluded) xs
      (All-every
        (λ a.
          revalue f (assignment_pieces d allow_excluded a)
          ≡ assignment_pieces d allow_excluded (rebind_assignment f a))
        xs (assignment_rebound d f allow_excluded))

set_rebound :
    (d : Dialect) (f : Value → Value) (xs : List DmlAssignment)
    → revalue f (set_pieces d xs) ≡ set_pieces d (map (rebind_assignment f) xs)
unfolding set_pieces revalue
set_rebound d f [] = refl
set_rebound d f (a ∷ rest) = assignments_rebound d f false (a ∷ rest)

unfoldable rebind_term : (Value → Value) → (DmlWhereCompiler → DmlWhereCompiler) → Term → Term
unfolding rebind_predicate rebind_in_predicate
rebind_term f g (plain p) = plain (rebind_predicate f p)
rebind_term f g (member p) = member (rebind_in_predicate f p)
rebind_term f g (extra w) = extra (g w)

terms_rebound :
    (f : Value → Value) (g : DmlWhereCompiler → DmlWhereCompiler) (ps : List DmlPredicate)
    (qs : List DmlInPredicate) (w : Option DmlWhereCompiler)
    → terms (map (rebind_predicate f) ps) (map (rebind_in_predicate f) qs) (change_option g w)
      ≡ map (rebind_term f g) (terms ps qs w)
unfolding terms extra_terms change_option rebind_term
terms_rebound f g [] [] none = refl
terms_rebound f g [] [] (some w) = refl
terms_rebound f g [] (q ∷ qs) w =
    ap (◌∷◌ (member (rebind_in_predicate f q))) (terms_rebound f g [] qs w)
terms_rebound f g (p ∷ ps) qs w =
    ap (◌∷◌ (plain (rebind_predicate f p))) (terms_rebound f g ps qs w)

term_rebound :
    (d : Dialect) (f : Value → Value) (g : DmlWhereCompiler → DmlWhereCompiler) (meaning : Pieces)
    (t : Term)
    → revalue f (term_pieces d meaning t) ≡ term_pieces d (revalue f meaning) (rebind_term f g t)
unfolding term_pieces rebind_term rebind_in_predicate
term_rebound d f g meaning (plain p) = predicate_rebound d f p
term_rebound d f g meaning (member p) = members_rebound d f p.column p.negated p.values
term_rebound d f g meaning (extra w) = revalue-enclosed f (codes "(") (codes ")") meaning

where_rebound :
    (d : Dialect) (f : Value → Value) (g : DmlWhereCompiler → DmlWhereCompiler) (meaning : Pieces)
    (ts : List Term)
    → revalue f (where_pieces d meaning ts)
      ≡ where_pieces d (revalue f meaning) (map (rebind_term f g) ts)
unfolding where_pieces revalue revalue_all
where_rebound d f g meaning [] = refl
where_rebound d f g meaning (t ∷ ts) =
    revalue-enclosed f (codes " WHERE ") []
      (separated_pieces (codes " AND ") (map (term_pieces d meaning) (t ∷ ts)))
    ∙ ap (λ r. enclosed (codes " WHERE ") r [])
        (revalue-separated_pieces f (codes " AND ") (rebind_term f g) (term_pieces d meaning)
          (term_pieces d (revalue f meaning)) (t ∷ ts)
          (All-every
            (λ x.
              revalue f (term_pieces d meaning x)
              ≡ term_pieces d (revalue f meaning) (rebind_term f g x))
            (t ∷ ts) (term_rebound d f g meaning)))

update_rebound :
    (d : Dialect) (f : Value → Value) (g : DmlWhereCompiler → DmlWhereCompiler) (meaning : Pieces)
    (node : UpdateNode)
    → revalue f (update_pieces d meaning node)
      ≡ update_pieces d (revalue f meaning) (rebind_update f g node)
unfolding update_pieces rebind_update
update_rebound d f g meaning node =
    revalue-enclosed f (codes "UPDATE " ++ (d.quote_identifier node.table ++ codes " SET "))
      (append_returning d node.returning ++ codes ";")
      (set_pieces d node.assignments
        then where_pieces d meaning (terms node.predicates node.in_predicates node.extra_where))
    ∙ ap
        (λ r.
          enclosed (codes "UPDATE " ++ (d.quote_identifier node.table ++ codes " SET ")) r
            (append_returning d node.returning ++ codes ";"))
        (revalue-then f (set_pieces d node.assignments)
            (where_pieces d meaning (terms node.predicates node.in_predicates node.extra_where))
          ∙ ap
              (λ r.
                r
                then revalue f (
                    where_pieces d meaning
                      (terms node.predicates node.in_predicates node.extra_where)))
              (set_rebound d f node.assignments)
          ∙ ap (λ r. set_pieces d (map (rebind_assignment f) node.assignments) then r)
              (where_rebound d f g meaning
                  (terms node.predicates node.in_predicates node.extra_where)
                ∙ ap (where_pieces d (revalue f meaning))
                    (sym (terms_rebound f g node.predicates node.in_predicates node.extra_where))))

-- The SQL of an UPDATE never depends on the values in it: with `f` applied to every value of its
-- assignments and predicates, `compile` throws the same error, or gives the same SQL, with `f`
-- applied to the parameters. The predicate that the caller may have added has to behave so itself.
pub compile_update-rebind_update :
    (d : Dialect) (f : Value → Value) (g : DmlWhereCompiler → DmlWhereCompiler) (node : UpdateNode)
    (meaning : Pieces)
    → Means d meaning node.extra_where
    → Means d (revalue f meaning) (change_option g node.extra_where)
    → compile_update d (rebind_update f g node) ≡ revalued f (compile_update d node)
unfolding rebind_update
compile_update-rebind_update d f g node meaning h k =
    compile_update-statement d (rebind_update f g node) (revalue f meaning) k
    ∙ ap (statement d) (sym (update_rebound d f g meaning node))
    ∙ statement-revalue d f (update_pieces d meaning node)
    ∙ ap (revalued f) (sym (compile_update-statement d node meaning h))
