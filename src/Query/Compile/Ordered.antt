-- ===== src/Query/Compile/Ordered.antt =====
-- include/metal/query/sqlite_compiler.hpp: templates whose slots stand in the order of the arguments.
use metal_orm_cpp.Base.{
  ℕ, zero, suc, ◌+◌, ◌≤◌, ◌≡◌, refl, sym, ap, ◌∙◌, Bool, true, false, ◌&&◌, none, some, List, [],
  ◌∷◌, ◌++◌, Text, Result, ok, err, ◌==◌, length, get_elem?, drop, arith,
}
use metal_orm_cpp.Value.{Value}
use metal_orm_cpp.Dialect.{Dialect}
use metal_orm_cpp.Query.{QueryError}
use metal_orm_cpp.Query.Pieces.{
  Piece, sql, text_of, values_of, Pieces, text_of-append, values_of-append, emit, written,
}
use metal_orm_cpp.Query.Templates.{lit, slot, Template, Rule, fill}
use metal_orm_cpp.Query.Compile.{filled, fill_with}

-- The slots from `k` on, each once and in order, and no other.
unfoldable pub in_order : ℕ → ℕ → Template → Bool
in_order k n [] = k == n
in_order k n (lit t ∷ ps) = in_order k n ps
in_order k n (slot i ∷ ps) = i == k && in_order (suc k) n ps

abbrev slot_of : {A : Type 0} → List (List A) → ℕ → List A
slot_of pss i = elim (get_elem? pss i) [ some ps ↦ ps | none ↦ [] ]

-- The template with the arguments' pieces in its slots.
unfoldable pub weave : Template → List (List Piece) → List Piece
weave [] pss = []
weave (lit t ∷ ps) pss = sql t ∷ weave ps pss
weave (slot i ∷ ps) pss = slot_of pss i ++ weave ps pss

-- The arguments' texts, numbered one behind the other, and all their values.
unfoldable pub texts_of : Dialect → ℕ → List (List Piece) → List Text
unfolding text_of values_of
texts_of d n [] = []
texts_of d n (ps ∷ pss) = text_of d n ps ∷ texts_of d (n + length (values_of ps)) pss

unfoldable pub all_values : List (List Piece) → List Value
unfolding values_of
all_values [] = []
all_values (ps ∷ pss) = values_of ps ++ all_values pss

slot_drop :
    {A : Type 0} (k : ℕ) (xs : List (List A)) (x : List A) (rest : List (List A))
    → drop k xs ≡ x ∷ rest
    → slot_of xs k ≡ x
slot_drop zero [] x rest h = cc
slot_drop zero (y ∷ ys) x rest h = cc
slot_drop (suc k) [] x rest h = cc
slot_drop (suc k) (y ∷ ys) x rest h = slot_drop k ys x rest h

drop_next :
    {A : Type 0} (k : ℕ) (xs : List A) (x : A) (rest : List A)
    → drop k xs ≡ x ∷ rest
    → drop (suc k) xs ≡ rest
drop_next zero [] x rest h = cc
drop_next zero (y ∷ ys) x rest h = cc
drop_next (suc k) [] x rest h = cc
drop_next (suc k) (y ∷ ys) x rest h = drop_next k ys x rest h

slot_next : (i k : ℕ) (b : Bool) → (i == k && b) ≡ true → (i ≡ k) × (b ≡ true)
slot_next i k true h = (ground (arith, h), refl)
slot_next i k false h = absurd (ground (arith, h))

in_order_le : (k n : ℕ) (ps : Template) → in_order k n ps ≡ true → k ≤ n
unfolding in_order
in_order_le k n [] h = ground (arith, h)
in_order_le k n (lit t ∷ ps) h = in_order_le k n ps h
in_order_le k n (slot i ∷ ps) h =
    omega (arith, in_order_le (suc k) n ps (slot_next i k (in_order (suc k) n ps) h).1)

-- What a text written by the rest of a template is, `rest` being the arguments from `k` on.
fill-weave :
    (d : Dialect) (k m n : ℕ) (t : Template) (ts : List Text) (pss rest : List (List Piece))
    → drop k ts ≡ texts_of d m rest
    → drop k pss ≡ rest
    → n ≡ k + length rest
    → in_order k n t ≡ true
    → fill t ts ≡ text_of d m (weave t pss)
unfolding fill weave text_of in_order texts_of
fill-weave d k m n [] ts pss rest hts hps hn h = refl
fill-weave d k m n (lit s ∷ t) ts pss rest hts hps hn h =
    ap (◌++◌ s) (fill-weave d k m n t ts pss rest hts hps hn h)
fill-weave d k m n (slot i ∷ t) ts pss [] hts hps hn h =
    absurd (omega (arith, hn, in_order_le (suc k) n t (slot_next i k (in_order (suc k) n t) h).1))
fill-weave d k m n (slot i ∷ t) ts pss (p ∷ rest) hts hps hn h =
    ap (λ j. slot_of ts j ++ fill t ts) e.0
    ∙ ap (λ u. u ++ fill t ts) (slot_drop k ts (text_of d m p) later hts)
    ∙ ap (◌++◌ (text_of d m p)) (
        fill-weave d (suc k) (m + length (values_of p)) n t ts pss rest
          (drop_next k ts (text_of d m p) later hts) (drop_next k pss p rest hps)
          (omega (arith, hn)) e.1)
    ∙ sym (text_of-append d m p (weave t pss))
    ∙ ap (λ q. text_of d m (q ++ weave t pss))
        (sym (ap (slot_of pss) e.0 ∙ slot_drop k pss p rest hps))
  where
    e : (i ≡ k) × (in_order (suc k) n t ≡ true)
    e = slot_next i k (in_order (suc k) n t) h

    later : List Text
    later = texts_of d (m + length (values_of p)) rest

all_values-weave :
    (k n : ℕ) (t : Template) (pss rest : List (List Piece))
    → drop k pss ≡ rest
    → n ≡ k + length rest
    → in_order k n t ≡ true
    → values_of (weave t pss) ≡ all_values rest
unfolding weave values_of in_order all_values
all_values-weave k n [] pss [] hps hn h = refl
all_values-weave k n [] pss (p ∷ rest) hps hn h = absurd (ground (arith, hn, h))
all_values-weave k n (lit s ∷ t) pss rest hps hn h = all_values-weave k n t pss rest hps hn h
all_values-weave k n (slot i ∷ t) pss [] hps hn h =
    absurd (omega (arith, hn, in_order_le (suc k) n t (slot_next i k (in_order (suc k) n t) h).1))
all_values-weave k n (slot i ∷ t) pss (p ∷ rest) hps hn h =
    values_of-append (slot_of pss i) (weave t pss)
    ∙ ap (λ q. values_of q ++ values_of (weave t pss))
        (ap (slot_of pss) e.0 ∙ slot_drop k pss p rest hps)
    ∙ ap (◌++◌ (values_of p))
        (all_values-weave (suc k) n t pss rest (drop_next k pss p rest hps) (omega (arith, hn)) e.1)
  where
    e : (i ≡ k) × (in_order (suc k) n t ≡ true)
    e = slot_next i k (in_order (suc k) n t) h

length-texts_of :
    (d : Dialect) (n : ℕ) (pss : List (List Piece)) → length (texts_of d n pss) ≡ length pss
unfolding texts_of
length-texts_of d n [] = refl
length-texts_of d n (ps ∷ pss) = ap suc (length-texts_of d (n + length (values_of ps)) pss)

unfoldable pub rule_pieces : Result QueryError Template → List (List Piece) → Pieces
unfolding weave
rule_pieces (ok t) pss = ok (weave t pss)
rule_pieces (err e) pss = err e

-- The rule's template, where it has one, takes `n` arguments in order.
abbrev pub IsInOrder : Result QueryError Template → ℕ → Type 0
IsInOrder (ok t) n = in_order 0 n t ≡ true
IsInOrder (err e) n = Unit

fill_with_at :
    (d : Dialect) (r : Result QueryError Template) (pss : List (List Piece)) (params : List Value)
    → IsInOrder r (length pss)
    → fill_with r (texts_of d (length params) pss) (params ++ all_values pss)
      ≡ emit d params (rule_pieces r pss)
unfolding fill_with rule_pieces emit
fill_with_at d (err e) pss params h = refl
fill_with_at d (ok t) pss params h =
    written
      (fill-weave d 0 (length params) (length pss) t (texts_of d (length params) pss) pss pss refl
        refl (omega arith) h)
      (ap (◌++◌ params) (sym (all_values-weave 0 (length pss) t pss pss refl (omega arith) h)))

-- A function whose arguments have been written.
pub filled_at :
    (d : Dialect) (rule : Rule) (pss : List (List Piece)) (params : List Value)
    → IsInOrder (rule (length pss)) (length pss)
    → filled rule (texts_of d (length params) pss) (params ++ all_values pss)
      ≡ emit d params (rule_pieces (rule (length pss)) pss)
unfolding filled
filled_at d rule pss params h =
    ap (λ n. fill_with (rule n) (texts_of d (length params) pss) (params ++ all_values pss))
      (length-texts_of d (length params) pss)
    ∙ fill_with_at d (rule (length pss)) pss params h
