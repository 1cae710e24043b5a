-- ===== src/Cache/Codec/RoundTrip.antt =====
-- `decode_query_result` after `encode_query_result`.
use mathlib.Core.List.{append_assoc, append-nil, Perm}
use metal_orm_cpp.Base.{
  ℕ, ◌≤◌, ◌<◌, ◌≡◌, refl, sym, ap, ◌∙◌, subst, true, false, List, [], ◌∷◌, ◌++◌, map, Text, ok, err,
  length, All, length-drop, arith, ltb, ◌==◌, if◌then◌else◌,
}
use metal_orm_cpp.Value.{IsInt64, Value, Row, QueryResult}
use metal_orm_cpp.Cache.Codec.{
  Reader, Decoder, ◌>>=◌, pure, fail, get_count, emplace, has_name, get_fields, get_rows, get_magic,
  check_done, get_result, decode_query_result, put_u64, put_i64, put_bytes, put_value, put_fields,
  put_rows, sort_fields, encode_query_result, magic, u64_mod, max_collection_size,
  count_exceeds_limit, bad_magic, duplicate_column, CacheCodecError,
}
use metal_orm_cpp.Cache.Codec.Writes.{
  field_bytes, row_bytes, put_u64-append, put_i64-append, put_field-append, put_fields-append,
  put_row-append, put_rows-append,
}
use metal_orm_cpp.Cache.Codec.Reads.{
  At, At-advance, advance, bind-ok, Reads, Reads-pure, Reads-bind, Reads-bytes, Reads-result,
  get_byte-Reads, get_u64-Reads, get_bytes-Reads, get_i64-Reads, get_count-Reads, get_value-Reads,
  IsValue,
}
use metal_orm_cpp.Cache.Codec.Fields.{
  Distinct, sort_fields-perm, length-sort_fields, sort_fields-Distinct, sort_fields-All, fresh_name,
}

-- What the source's types say of a field.
abbrev pub IsField : Text × Value → Type 0
IsField (name, v) = (length name < u64_mod) × IsValue v

-- A row that the cache can hold: a map, with at most `max_collection_size` columns.
pub record IsRow (row : Row) : Type 0 where
  pub distinct : Distinct row
  pub fields : All IsField row
  pub few : length row ≤ max_collection_size

-- A result that the cache can hold.
pub record IsStorable (r : QueryResult) : Type 0 where
  pub rows : All IsRow r.rows
  pub few : length r.rows ≤ max_collection_size
  pub affected_rows : IsInt64 r.affected_rows
  pub last_insert_id : IsInt64 r.last_insert_id

-- Rows are maps: the same fields, in any order.
abbrev pub SameRows : List Row → List Row → Type 0
SameRows [] [] = Unit
SameRows [] (y ∷ ys) = ⊥
SameRows (x ∷ xs) [] = ⊥
SameRows (x ∷ xs) (y ∷ ys) = Perm x y × SameRows xs ys

emplace-fresh :
    (acc : Row) (name : Text) (v : Value)
    → has_name name acc ≡ false
    → Reads (emplace acc name v) [] (acc ++ (name, v) ∷ [])
unfolding emplace
emplace-fresh acc name v h =
    subst
      (λ b.
        Reads (if b then fail duplicate_column else pure (acc ++ (name, v) ∷ [])) []
          (acc ++ (name, v) ∷ []))
      (sym h) (Reads-pure (acc ++ (name, v) ∷ []))

get_fields-Reads :
    (fields acc : Row)
    → Distinct (acc ++ fields)
    → All IsField fields
    → Reads (get_fields (length fields) acc) (put_fields [] fields) (acc ++ fields)
unfolding get_fields put_fields
get_fields-Reads [] acc d h = Reads-result (sym (append-nil acc)) (Reads-pure acc)
get_fields-Reads ((name, v) ∷ rest) acc d h = Reads-bytes (sym bytes_eq) (
    Reads-bind _ (get_bytes-Reads name h.0.0) (
      Reads-bind _ (get_value-Reads v h.0.1) (
        Reads-bind _ (emplace-fresh acc name v (fresh_name acc name v rest d)) (
          Reads-result regroup
            (get_fields-Reads rest (acc ++ (name, v) ∷ []) (subst Distinct (sym regroup) d) h.1)))))
  where
    regroup : (acc ++ (name, v) ∷ []) ++ rest ≡ acc ++ (name, v) ∷ rest
    regroup = append_assoc acc ((name, v) ∷ []) rest

    bytes_eq :
        put_fields (put_value (put_bytes [] name) v) rest
        ≡ put_bytes [] name ++ (put_value [] v ++ put_fields [] rest)
    bytes_eq =
        ap (λ o. put_fields o rest) (put_field-append [] name v)
        ∙ put_fields-append (field_bytes name v) rest
        ∙ append_assoc (put_bytes [] name) (put_value [] v) (put_fields [] rest)

get_rows-Reads :
    (rows acc : List Row)
    → All IsRow rows
    → Reads (get_rows (length rows) acc) (put_rows [] rows) (acc ++ map sort_fields rows)
unfolding get_rows put_rows
get_rows-Reads [] acc h = Reads-result (sym (append-nil acc)) (Reads-pure acc)
get_rows-Reads (row ∷ rest) acc h = Reads-bytes (sym bytes_eq) (
    Reads-bind _ (get_count-Reads (length sorted) (omega (arith, length-sort_fields row, h.0.few)))
      (Reads-bind _
        (get_fields-Reads sorted [] (sort_fields-Distinct row h.0.distinct)
          (sort_fields-All IsField row h.0.fields))
        (Reads-result (append_assoc acc (sorted ∷ []) (map sort_fields rest))
          (get_rows-Reads rest (acc ++ sorted ∷ []) h.1))))
  where
    sorted : Row
    sorted = sort_fields row

    bytes_eq :
        put_rows [] (row ∷ rest)
        ≡ put_u64 [] (length sorted) ++ (put_fields [] sorted ++ put_rows [] rest)
    bytes_eq =
        ap (λ o. put_rows o rest) (put_row-append [] row)
        ∙ put_rows-append (row_bytes row) rest
        ∙ append_assoc (put_u64 [] (length sorted)) (put_fields [] sorted) (put_rows [] rest)

get_magic-Reads : (cs : Text) → Reads (get_magic cs) cs tt
unfolding get_magic
get_magic-Reads [] = Reads-pure tt
get_magic-Reads (c ∷ cs) = Reads-bind _ (get_byte-Reads c) (
    subst (λ b. Reads (if b then get_magic cs else fail bad_magic) cs tt) (sym (same c))
      (get_magic-Reads cs))
  where
    same : (c : ℕ) → (c == c) ≡ true
    same c = ground arith

-- `m` reads the whole input.
record Finishes {A : Type 0} (m : Decoder A) (bs : Text) (a : A) : Type 0 where
  run : (r : Reader) → At r bs → (r' : Reader) × (m r ≡ ok (a, r'))

-- `m` throws behind `bs`.
record Throws {A : Type 0} (m : Decoder A) (bs : Text) (e : CacheCodecError) : Type 0 where
  run : (r : Reader) (rest : Text) → At r (bs ++ rest) → m r ≡ err e

module _ {A B : Type 0} {m : Decoder A} (f : A → Decoder B) {bs cs : Text} {a : A} where
  Finishes-bind : {b : B} → Reads m bs a → Finishes (f a) cs b → Finishes (m >>= f) (bs ++ cs) b
  Finishes-bind p q = record {
    run = λ r h.
        let (r', e) = q.run (advance r (length bs)) (At-advance r bs cs h) in
        (r', bind-ok m f r (p.run r cs h) ∙ e);
  }

  Throws-bind :
      {e : CacheCodecError} → Reads m bs a → Throws (f a) cs e → Throws (m >>= f) (bs ++ cs) e
  Throws-bind p q = record {
    run = λ r rest h.
        let here : At r (bs ++ (cs ++ rest)) = (h.0 ∙ append_assoc bs cs rest, h.1) in
        bind-ok m f r (p.run r (cs ++ rest) here)
        ∙ q.run (advance r (length bs)) rest (At-advance r bs (cs ++ rest) here);
  }

Throws-first :
    {A B : Type 0} {m : Decoder A} (f : A → Decoder B) {bs : Text} {e : CacheCodecError}
    → Throws m bs e
    → Throws (m >>= f) bs e
Throws-first f p = record { run = λ r rest h. rw (p.run r rest h, ◌>>=◌) }

check_done-Finishes : (result : QueryResult) → Finishes (check_done result) [] result
unfolding check_done
check_done-Finishes result = record { run = λ r h. (r, here r h) }
  where
    at_end : (r : Reader) → At r [] → r.position ≡ length r.input
    at_end r h = omega (arith, ap length h.0, length-drop r.position r.input, h.1)

    same : (m n : ℕ) → m ≡ n → (m == n) ≡ true
    same m n e = ground arith

    here : (r : Reader) → At r [] → check_done result r ≡ ok (result, r)
    here r h = rw (same r.position (length r.input) (at_end r h), check_done)

-- The bytes of a result.
encode_bytes :
    (r : QueryResult)
    → encode_query_result r
      ≡ magic
        ++ (put_u64 [] (length r.rows)
            ++ (put_rows [] r.rows
                ++ (put_i64 [] r.affected_rows ++ (put_i64 [] r.last_insert_id ++ []))))
unfolding encode_query_result
encode_bytes r =
    put_i64-append _ r.last_insert_id
    ∙ ap (λ o. o ++ put_i64 [] r.last_insert_id)
        (put_i64-append _ r.affected_rows
          ∙ ap (λ o. o ++ put_i64 [] r.affected_rows)
              (put_rows-append _ r.rows
                ∙ ap (λ o. o ++ put_rows [] r.rows) (put_u64-append magic (length r.rows))))
    ∙ regroup magic (put_u64 [] (length r.rows)) (put_rows [] r.rows) (put_i64 [] r.affected_rows)
        (put_i64 [] r.last_insert_id)
  where
    regroup :
        (m u rs a l : Text) → (((m ++ u) ++ rs) ++ a) ++ l ≡ m ++ (u ++ (rs ++ (a ++ (l ++ []))))
    regroup m u rs a l = simp (append_assoc, append-nil)

-- The result with the fields of each row in the order of their names.
abbrev sorted_result : QueryResult → QueryResult
sorted_result r = record r { rows = map sort_fields r.rows }

get_result-Finishes :
    (r : QueryResult) → IsStorable r → Finishes get_result (encode_query_result r) (sorted_result r)
unfolding get_result
get_result-Finishes r h =
    subst (λ bs. Finishes get_result bs (sorted_result r)) (sym (encode_bytes r))
      (Finishes-bind _ (get_magic-Reads magic) (
        Finishes-bind _ (get_count-Reads (length r.rows) h.few) (
          Finishes-bind _ (get_rows-Reads r.rows [] h.rows) (
            Finishes-bind _ (get_i64-Reads r.affected_rows h.affected_rows) (
              Finishes-bind _ (get_i64-Reads r.last_insert_id h.last_insert_id)
                (check_done-Finishes (sorted_result r)))))))

At-start : (bs : Text) → At (record { input = bs; position = 0 }) bs
At-start bs = (refl, omega arith)

SameRows-sorted : (rows : List Row) → SameRows rows (map sort_fields rows)
SameRows-sorted [] = tt
SameRows-sorted (row ∷ rest) = (sort_fields-perm row, SameRows-sorted rest)

-- Decoding what `encode_query_result` wrote succeeds for every result that the cache can hold, and
-- returns the same rows, each with the same fields (a row is a map), and the same two counters.
pub decode-encode :
    (r : QueryResult)
    → IsStorable r
    → (r' : QueryResult) × (decode_query_result (encode_query_result r) ≡ ok r')
      × SameRows r.rows r'.rows
      × (r'.affected_rows ≡ r.affected_rows)
      × (r'.last_insert_id ≡ r.last_insert_id)
unfolding decode_query_result
decode-encode r h =
    let (r', e) = (get_result-Finishes r h).run _ (At-start (encode_query_result r)) in
    (sorted_result r, rw (e, decode_query_result), SameRows-sorted r.rows, refl, refl)

get_count-Throws :
    (n : ℕ)
    → max_collection_size < n
    → n < u64_mod
    → Throws get_count (put_u64 [] n ++ []) count_exceeds_limit
unfolding get_count
get_count-Throws n big h = Throws-bind _ (get_u64-Reads n h) (
    subst (λ b. Throws (if b then fail count_exceeds_limit else pure n) [] count_exceeds_limit)
      (sym (over max_collection_size n big)) (record { run = λ r rest at. refl }))
  where
    over : (k n : ℕ) → k < n → ltb k n ≡ true
    over k n h = ground arith

-- `encode_query_result` does not check the limit on rows that `decode_query_result` enforces: a
-- result of more than 1,000,000 rows is written, and its payload is refused when it is read.
pub decode-encode_too_many :
    (r : QueryResult)
    → max_collection_size < length r.rows
    → length r.rows < u64_mod
    → decode_query_result (encode_query_result r) ≡ err count_exceeds_limit
unfolding decode_query_result get_result
decode-encode_too_many r big h =
    let t : Throws get_result (magic ++ (put_u64 [] (length r.rows) ++ [])) count_exceeds_limit =
      Throws-bind _ (get_magic-Reads magic)
        (Throws-first _ (get_count-Throws (length r.rows) big h)) in
    let split =
      encode_bytes r
      ∙ regroup magic (put_u64 [] (length r.rows)) (
          put_rows [] r.rows
          ++ (put_i64 [] r.affected_rows ++ (put_i64 [] r.last_insert_id ++ []))) in
    rw (
      t.run (record { input = encode_query_result r; position = 0 }) _ (split, omega arith),
      decode_query_result,
    )
  where
    regroup : (m u rest : Text) → m ++ (u ++ rest) ≡ (m ++ (u ++ [])) ++ rest
    regroup m u rest = simp (append_assoc, append-nil)
