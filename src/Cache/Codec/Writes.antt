-- ===== src/Cache/Codec/Writes.antt =====
-- What each member of `Writer` appends does not depend on what was written before.
use mathlib.Core.List.{append_assoc, append-nil}
use metal_orm_cpp.Base.{
  ℕ, zero, suc, ◌+◌, ◌/◌, ◌%◌, ◌^◌, ◌≡◌, refl, sym, ap, ◌∙◌, List, [], ◌∷◌, ◌++◌, Text, length,
}
use metal_orm_cpp.Value.{ℤ, Value, null, int, real, text, flag, blob, Row}
use metal_orm_cpp.Cache.Codec.{
  put_u64_loop, put_u64, put_i64, put_bytes, put_value, put_fields, put_rows, sort_fields, to_bits,
}

pub put_u64_loop-append :
    (n s v : ℕ) (out : Text) → put_u64_loop n s v out ≡ out ++ put_u64_loop n s v []
unfolding put_u64_loop
put_u64_loop-append zero s v out = sym (append-nil out)
put_u64_loop-append (suc n) s v out =
    put_u64_loop-append n (s + 8) v (out ++ b ∷ [])
    ∙ append_assoc out (b ∷ []) (put_u64_loop n (s + 8) v [])
    ∙ ap (◌++◌ out) (sym (put_u64_loop-append n (s + 8) v (b ∷ [])))
  where
    b : ℕ
    b = v / 2 ^ s % 256

pub put_u64-append : (out : Text) (v : ℕ) → put_u64 out v ≡ out ++ put_u64 [] v
unfolding put_u64
put_u64-append out v = put_u64_loop-append 8 0 v out

pub put_i64-append : (out : Text) (z : ℤ) → put_i64 out z ≡ out ++ put_i64 [] z
unfolding put_i64
put_i64-append out z = put_u64-append out (to_bits z)

pub put_bytes-append : (out s : Text) → put_bytes out s ≡ out ++ put_bytes [] s
unfolding put_bytes
put_bytes-append out s = rw (put_u64-append out (length s)) (append_assoc out _ s)

-- A tag, and what is written behind it.
tagged :
    (put : Text → Text) (out : Text) (tag : ℕ)
    → ((o : Text) → put o ≡ o ++ put [])
    → put (out ++ tag ∷ []) ≡ out ++ put (tag ∷ [])
tagged put out tag h =
    h (out ++ tag ∷ []) ∙ append_assoc out (tag ∷ []) (put []) ∙ ap (◌++◌ out) (sym (h (tag ∷ [])))

pub put_value-append : (out : Text) (v : Value) → put_value out v ≡ out ++ put_value [] v
unfolding put_value
put_value-append out null = refl
put_value-append out (int n) = tagged (λ o. put_i64 o n) out 1 (λ o. put_i64-append o n)
put_value-append out (real bits) = tagged (λ o. put_u64 o bits) out 2 (λ o. put_u64-append o bits)
put_value-append out (text s) = tagged (λ o. put_bytes o s) out 3 (λ o. put_bytes-append o s)
put_value-append out (flag b) = append_assoc out _ _
put_value-append out (blob s) = tagged (λ o. put_bytes o s) out 5 (λ o. put_bytes-append o s)

-- The bytes of one field.
abbrev pub field_bytes : Text → Value → Text
field_bytes name v = put_bytes [] name ++ put_value [] v

pub put_field-append :
    (out name : Text) (v : Value) → put_value (put_bytes out name) v ≡ out ++ field_bytes name v
put_field-append out name v =
    put_value-append (put_bytes out name) v
    ∙ rw (put_bytes-append out name) (append_assoc out (put_bytes [] name) (put_value [] v))

pub put_fields-append : (out : Text) (row : Row) → put_fields out row ≡ out ++ put_fields [] row
unfolding put_fields
put_fields-append out [] = sym (append-nil out)
put_fields-append out ((name, v) ∷ rest) =
    ap (λ o. put_fields o rest) (put_field-append out name v)
    ∙ put_fields-append (out ++ field_bytes name v) rest
    ∙ append_assoc out (field_bytes name v) (put_fields [] rest)
    ∙ ap (◌++◌ out) (
        sym (
          ap (λ o. put_fields o rest) (put_field-append [] name v)
          ∙ put_fields-append (field_bytes name v) rest))

-- The bytes of one row.
abbrev pub row_bytes : Row → Text
row_bytes row = put_u64 [] (length (sort_fields row)) ++ put_fields [] (sort_fields row)

pub put_row-append :
    (out : Text) (row : Row)
    → put_fields (put_u64 out (length (sort_fields row))) (sort_fields row) ≡ out ++ row_bytes row
put_row-append out row =
    put_fields-append _ (sort_fields row)
    ∙ rw (put_u64-append out (length (sort_fields row))) (append_assoc out _ _)

pub put_rows-append : (out : Text) (rows : List Row) → put_rows out rows ≡ out ++ put_rows [] rows
unfolding put_rows
put_rows-append out [] = sym (append-nil out)
put_rows-append out (row ∷ rest) =
    ap (λ o. put_rows o rest) (put_row-append out row)
    ∙ put_rows-append (out ++ row_bytes row) rest
    ∙ append_assoc out (row_bytes row) (put_rows [] rest)
    ∙ ap (◌++◌ out) (
        sym (
          ap (λ o. put_rows o rest) (put_row-append [] row) ∙ put_rows-append (row_bytes row) rest))
