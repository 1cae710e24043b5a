-- ===== src/Query/Pieces.antt =====
-- What a compiled statement consists of: fixed SQL and bound values, without numbers of placeholders.
use mathlib.Core.List.{append-nil, append_assoc}
use metal_orm_cpp.Base.{
  ℕ, suc, ◌+◌, ◌≡◌, ◌≢◌, refl, sym, ap, ◌∙◌, subst, List, [], ◌∷◌, ◌++◌, map, Text, Result, ok, err,
  length, length-append, arith, All,
}
use metal_orm_cpp.Value.{Value}
use metal_orm_cpp.Dialect.{Dialect, offset_placeholders}
use metal_orm_cpp.Query.{
  QueryError, CompiledQuery, Compiler, bind, within, followed_by, separated, embed, pure, fail,
  ◌>>=◌, compiled, finished,
}

pub data Piece : Type 0 where
  sql : Text → Piece
  bound : Value → Piece

-- Pieces, or what compiling them throws.
abbrev pub Pieces : Type 0
Pieces = Result QueryError (List Piece)

abbrev pub bound_value : Value → Pieces
bound_value v = ok (bound v ∷ [])

-- The SQL, with `n` placeholders before it.
unfoldable pub text_of : Dialect → ℕ → List Piece → Text
text_of d n [] = []
text_of d n (sql t ∷ ps) = t ++ text_of d n ps
text_of d n (bound v ∷ ps) = d.placeholder (suc n) ++ text_of d (suc n) ps

unfoldable pub values_of : List Piece → List Value
values_of [] = []
values_of (sql t ∷ ps) = values_of ps
values_of (bound v ∷ ps) = v ∷ values_of ps

unfoldable pub statement : Dialect → Pieces → Result QueryError CompiledQuery
statement d (ok ps) = ok (record { sql = text_of d 0 ps; params = values_of ps })
statement d (err e) = err e

-- Not the empty text, with whatever number it begins.
abbrev pub IsVisible : Dialect → Pieces → Type 0
IsVisible d (ok ps) = (n : ℕ) → text_of d n ps ≢ []
IsVisible d (err e) = Unit

infixr 20 ◌then◌
unfoldable pub ◌then◌ : Pieces → Pieces → Pieces
(ok ps) then (ok qs) = ok (ps ++ qs)
(ok ps) then (err e) = err e
(err e) then r = err e

abbrev pub fixed : Text → Pieces
fixed t = ok (sql t ∷ [])

unfoldable pub separated_pieces : Text → List Pieces → Pieces
separated_pieces separator [] = ok []
separated_pieces separator (r ∷ []) = r
separated_pieces separator (r ∷ s ∷ rs) =
    r then fixed separator then separated_pieces separator (s ∷ rs)

pub text_of-append :
    (d : Dialect) (n : ℕ) (ps qs : List Piece)
    → text_of d n (ps ++ qs) ≡ text_of d n ps ++ text_of d (n + length (values_of ps)) qs
unfolding text_of values_of
text_of-append d n [] qs = ap (λ k. text_of d k qs) {x = n} {y = n + 0} (omega arith)
text_of-append d n (sql t ∷ ps) qs =
    ap (◌++◌ t) (text_of-append d n ps qs)
    ∙ sym (append_assoc t (text_of d n ps) (text_of d (n + length (values_of ps)) qs))
text_of-append d n (bound v ∷ ps) qs =
    ap (◌++◌ (d.placeholder (suc n))) (text_of-append d (suc n) ps qs)
    ∙ sym (
        append_assoc (d.placeholder (suc n)) (text_of d (suc n) ps)
          (text_of d (suc n + length (values_of ps)) qs))
    ∙ ap (λ k. (d.placeholder (suc n) ++ text_of d (suc n) ps) ++ text_of d k qs)
        {x = suc n + length (values_of ps)} {y = n + suc (length (values_of ps))} (omega arith)

pub values_of-append : (ps qs : List Piece) → values_of (ps ++ qs) ≡ values_of ps ++ values_of qs
unfolding values_of
values_of-append [] qs = refl
values_of-append (sql t ∷ ps) qs = values_of-append ps qs
values_of-append (bound v ∷ ps) qs = ap (◌∷◌ v) (values_of-append ps qs)

-- `m` writes the pieces, or throws: behind `params`, it numbers on from them and appends its values.
unfoldable pub emit : Dialect → List Value → Pieces → Result QueryError (Text × List Value)
emit d params (ok ps) = ok (text_of d (length params) ps, params ++ values_of ps)
emit d params (err e) = err e

abbrev pub Writes : Dialect → Compiler Text → Pieces → Type 0
Writes d m r = (params : List Value) → m params ≡ emit d params r

pub compiled-statement_at :
    (d : Dialect) (m : Compiler Text) (r : Pieces) → m [] ≡ emit d [] r → compiled m ≡ statement d r
unfolding compiled finished statement emit
compiled-statement_at d m (ok ps) h = ap finished h
compiled-statement_at d m (err e) h = ap finished h

pub compiled-statement :
    (d : Dialect) (m : Compiler Text) (r : Pieces) → Writes d m r → compiled m ≡ statement d r
compiled-statement d m r h = compiled-statement_at d m r (h [])

pub written :
    {s t : Text} {vs ws : List Value}
    → s ≡ t
    → vs ≡ ws
    → ◌≡◌ {A = Result QueryError (Text × List Value)} (ok (s, vs)) (ok (t, ws))
written e f = cc

pub fixed-Writes : (d : Dialect) (t : Text) → Writes d (pure t) (fixed t)
unfolding emit text_of values_of
fixed-Writes d t params = written (sym (append-nil t)) (sym (append-nil params))

pub nothing-Writes : (d : Dialect) → Writes d (pure []) (ok [])
unfolding emit text_of values_of
nothing-Writes d params = written refl (sym (append-nil params))

pub fail-Writes : (d : Dialect) (e : QueryError) → Writes d (fail e) (err e)
unfolding emit
fail-Writes d e params = refl

pub bind-Writes : (d : Dialect) (v : Value) → Writes d (bind d v) (ok (bound v ∷ []))
unfolding emit text_of values_of bind
bind-Writes d v params = written (sym (append-nil (d.placeholder (suc (length params))))) refl

abbrev pub then_of :
    Compiler Text → Result QueryError (Text × List Value) → Result QueryError (Text × List Value)
then_of n x = elim x [ ok (s, params) ↦ (n >>= λ t. pure (s ++ t)) params | err e ↦ err e ]

abbrev behind : Text → Result QueryError (Text × List Value) → Result QueryError (Text × List Value)
behind s x = elim x [ ok (t, params) ↦ pure (s ++ t) params | err e ↦ err e ]

pub followed_by_at :
    (d : Dialect) (params : List Value) (m n : Compiler Text) (r s : Pieces)
    → m params ≡ emit d params r
    → ((ps : List Piece)
        → r ≡ ok ps
        → n (params ++ values_of ps) ≡ emit d (params ++ values_of ps) s)
    → followed_by m n params ≡ emit d params (r then s)
unfolding emit followed_by ◌then◌
followed_by_at d params m n (err e) s hm hn = ap (then_of n) hm
followed_by_at d params m n (ok ps) (err e) hm hn =
    ap (then_of n) hm ∙ ap (behind (text_of d (length params) ps)) (hn ps refl)
followed_by_at d params m n (ok ps) (ok qs) hm hn =
    ap (then_of n) hm
    ∙ ap (behind (text_of d (length params) ps)) (hn ps refl)
    ∙ written
        (sym (
          text_of-append d (length params) ps qs
          ∙ ap (λ k. text_of d (length params) ps ++ text_of d k qs)
              (sym (length-append params (values_of ps)))))
        (append_assoc params (values_of ps) (values_of qs)
          ∙ ap (◌++◌ params) (sym (values_of-append ps qs)))

pub followed_by-Writes :
    (d : Dialect) (m n : Compiler Text) (r s : Pieces)
    → Writes d m r
    → Writes d n s
    → Writes d (followed_by m n) (r then s)
followed_by-Writes d m n r s hm hn params =
    followed_by_at d params m n r s (hm params) (λ ps _. hn (params ++ values_of ps))

-- Fixed text around what is written.
unfoldable pub enclosed : Text → Pieces → Text → Pieces
unfolding ◌then◌
enclosed before r behind = fixed before then r then fixed behind

pub within-Writes :
    (d : Dialect) (before behind : Text) (m : Compiler Text) (r : Pieces)
    → Writes d m r
    → Writes d (within before m behind) (enclosed before r behind)
unfolding within enclosed
within-Writes d before behind m r h =
    followed_by-Writes d (pure before) (followed_by m (pure behind)) (fixed before)
      (r then fixed behind) (fixed-Writes d before)
      (followed_by-Writes d m (pure behind) r (fixed behind) h (fixed-Writes d behind))

pub separated-Writes :
    {A : Type 0} (d : Dialect) (separator : Text) (f : A → Compiler Text) (g : A → Pieces)
    (xs : List A)
    → All (λ x. Writes d (f x) (g x)) xs
    → Writes d (separated separator f xs) (separated_pieces separator (map g xs))
unfolding separated separated_pieces
separated-Writes d separator f g [] h = nothing-Writes d
separated-Writes d separator f g (x ∷ []) h = h.0
separated-Writes d separator f g (x ∷ y ∷ ys) h =
    followed_by-Writes d (f x) (followed_by (pure separator) (separated separator f (y ∷ ys))) (g x)
      (fixed separator then separated_pieces separator (map g (y ∷ ys))) h.0
      (followed_by-Writes d (pure separator) (separated separator f (y ∷ ys)) (fixed separator)
        (separated_pieces separator (map g (y ∷ ys))) (fixed-Writes d separator)
        (separated-Writes d separator f g (y ∷ ys) h.1))

-- With the placeholders of an offset dialect, numbers go on behind the offset.
pub text_of-offset_placeholders :
    (d : Dialect) (k n : ℕ) (ps : List Piece)
    → text_of (offset_placeholders d k) n ps ≡ text_of d (k + n) ps
unfolding text_of offset_placeholders
text_of-offset_placeholders d k n [] = refl
text_of-offset_placeholders d k n (sql t ∷ ps) = ap (◌++◌ t) (text_of-offset_placeholders d k n ps)
text_of-offset_placeholders d k n (bound v ∷ ps) =
    ap (λ r. d.placeholder (k + suc n) ++ r) (text_of-offset_placeholders d k (suc n) ps)
    ∙ ap (λ m. d.placeholder m ++ text_of d m ps) {x = k + suc n} {y = suc (k + n)} (omega arith)

-- A subquery that an offset dialect compiles stands among the pieces of the statement around it.
pub embed-Writes :
    (d : Dialect) (q : Dialect → Result QueryError CompiledQuery) (r : Pieces)
    → ((k : ℕ) → q (offset_placeholders d k) ≡ statement (offset_placeholders d k) r)
    → Writes d (λ params. embed (q (offset_placeholders d (length params))) params) r
unfolding embed statement emit
embed-Writes d q (ok ps) h params =
    ap (λ c. embed c params) (h (length params))
    ∙ written
        (text_of-offset_placeholders d (length params) 0 ps
          ∙ ap (λ k. text_of d k ps) {x = length params + 0} (omega arith))
        refl
embed-Writes d q (err e) h params = ap (λ c. embed c params) (h (length params))

-- A statement that stands at the very front needs no offset.
pub embed_at :
    (d : Dialect) (q : Result QueryError CompiledQuery) (r : Pieces)
    → q ≡ statement d r
    → embed q [] ≡ emit d [] r
unfolding embed statement emit
embed_at d q (ok ps) h = ap (λ c. embed c []) h
embed_at d q (err e) h = ap (λ c. embed c []) h

abbrev values_in : Pieces → List Value
values_in r = elim r [ ok ps ↦ values_of ps | err e ↦ [] ]

-- Fixed text before what stands at the very front, and text behind it.
pub within_at :
    (d : Dialect) (before behind : Text) (m : Compiler Text) (r : Pieces)
    → m [] ≡ emit d [] r
    → within before m behind [] ≡ emit d [] (enclosed before r behind)
unfolding within enclosed values_of
within_at d before behind m r h =
    followed_by_at d [] (pure before) (followed_by m (pure behind)) (fixed before)
      (r then fixed behind) (fixed-Writes d before [])
      (λ ps e.
        subst (λ vs. followed_by m (pure behind) vs ≡ emit d vs (r then fixed behind))
          (ap values_in e)
          (followed_by_at d [] m (pure behind) r (fixed behind) h
            (λ qs _. fixed-Writes d behind ([] ++ values_of qs))))
