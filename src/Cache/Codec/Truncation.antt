-- ===== src/Cache/Codec/Truncation.antt =====
-- `decode_query_result` on a payload that was cut short, or that goes on too long.
use metal_orm_cpp.Base.{
  ℕ, zero, suc, ◌+◌, ◌-◌, ◌≤◌, ◌<◌, ◌≡◌, ◌≢◌, refl, ap, ◌∙◌, subst, inl, inr, Bool, true, false,
  List, [], ◌∷◌, ◌++◌, Text, Result, ok, err, length, take, drop, get_elem?, length-append, arith,
  ltb, if◌then◌else◌, Bool-cases,
}
use metal_orm_cpp.Value.{Value, int, real, text, blob, Row, QueryResult}
use metal_orm_cpp.Cache.Codec.{
  Reader, Decoder, CacheCodecError, ◌>>=◌, pure, fail, get_byte, get_u64_loop, get_u64, get_i64,
  get_count, take_bytes, get_bytes, get_flag, get_tagged, get_value, emplace, get_fields, get_rows,
  get_magic, check_done, get_result, decode_query_result, encode_query_result, trailing_bytes,
  magic,
}
use metal_orm_cpp.Cache.Codec.Reads.{bind-ok}
use metal_orm_cpp.Cache.Codec.RoundTrip.{IsStorable, decode-encode}

abbrev extend : Reader → Text → Reader
extend r x = record r { input = r.input ++ x }

abbrev InRange : Reader → Type 0
InRange r = r.position ≤ length r.input

-- What `m` reads does not depend on what follows.
record IsStable {A : Type 0} (m : Decoder A) : Type 0 where
  keeps :
      (r r' : Reader) (a : A) (x : Text)
      → InRange r
      → m r ≡ ok (a, r')
      → (m (extend r x) ≡ ok (a, extend r' x)) × InRange r'

-- What `m` reads is the whole input.
record IsExact {A : Type 0} (m : Decoder A) : Type 0 where
  refuses :
      (r r' : Reader) (a : A) (x : Text)
      → InRange r
      → x ≢ []
      → m r ≡ ok (a, r')
      → m (extend r x) ≡ err trailing_bytes

-- Inversion of a bind that returned.
bind-inv :
    {A B : Type 0} (m : Decoder A) (f : A → Decoder B) (r : Reader) {b : B} {r' : Reader}
    → (m >>= f) r ≡ ok (b, r')
    → (a : A) × (s : Reader) × (m r ≡ ok (a, s)) × (f a s ≡ ok (b, r'))
bind-inv {A} {B} m f r {b} {r'} = go (m r) refl
  where
    go :
        (q : Result CacheCodecError (A × Reader))
        → m r ≡ q
        → (m >>= f) r ≡ ok (b, r')
        → (a : A) × (s : Reader) × (m r ≡ ok (a, s)) × (f a s ≡ ok (b, r'))
    go (ok (a, s)) e h = (a, s, e, (rw (e, ◌>>=◌) at h))
    go (err c) e h = cc (rw (e, ◌>>=◌) at h)

ok-injective :
    {A : Type 0} {p q : A × Reader}
    → ◌≡◌ {A = Result CacheCodecError (A × Reader)} (ok p) (ok q)
    → p ≡ q
ok-injective {p = p} h = ap (λ r. elim r [ ok q ↦ q | err e ↦ p ]) h

pure-IsStable : {A : Type 0} (a : A) → IsStable (pure a)
pure-IsStable a = record {
  keeps = λ r r' b x i h.
      let e = ok-injective h in (ap (λ p. ok (p.0, extend p.1 x)) e, subst (λ p. InRange p.1) e i);
}

fail-IsStable : {A : Type 0} (e : CacheCodecError) → IsStable (fail {A = A} e)
fail-IsStable e = record { keeps = λ r r' b x i h. cc }

if-IsStable :
    {A : Type 0} (b : Bool) (m n : Decoder A)
    → IsStable m
    → IsStable n
    → IsStable (if b then m else n)
if-IsStable true m n p q = p
if-IsStable false m n p q = q

bind-IsStable :
    {A B : Type 0} {m : Decoder A} (f : A → Decoder B)
    → IsStable m
    → ((a : A) → IsStable (f a))
    → IsStable (m >>= f)
bind-IsStable {m = m} f p q = record {
  keeps = λ r r' b x i h.
      let (a, s, e, k) = bind-inv m f r h in
      let (e', j) = p.keeps r s a x i e in
      let (k', l) = (q a).keeps s r' b x j k in (bind-ok m f (extend r x) e' ∙ k', l);
}

bind-IsExact :
    {A B : Type 0} {m : Decoder A} (f : A → Decoder B)
    → IsStable m
    → ((a : A) → IsExact (f a))
    → IsExact (m >>= f)
bind-IsExact {m = m} f p q = record {
  refuses = λ r r' b x i more h.
      let (a, s, e, k) = bind-inv m f r h in
      let (e', j) = p.keeps r s a x i e in
      bind-ok m f (extend r x) e' ∙ (q a).refuses s r' b x j more k;
}

get_elem?-append : (n : ℕ) (xs x : Text) → n < length xs → get_elem? (xs ++ x) n ≡ get_elem? xs n
get_elem?-append n [] x h = absurd (omega arith)
get_elem?-append zero (y ∷ xs) x h = refl
get_elem?-append (suc n) (y ∷ xs) x h = get_elem?-append n xs x (omega arith)

take-drop-append :
    (n p : ℕ) (xs x : Text) → p + n ≤ length xs → take n (drop p (xs ++ x)) ≡ take n (drop p xs)
take-drop-append zero p xs x h = refl
take-drop-append (suc n) p [] x h = absurd (omega arith)
take-drop-append (suc n) zero (y ∷ xs) x h = ap (◌∷◌ y) (take-drop-append n zero xs x (omega arith))
take-drop-append (suc n) (suc p) (y ∷ xs) x h = take-drop-append (suc n) p xs x (omega arith)

get_byte-IsStable : IsStable get_byte
unfolding get_byte
get_byte-IsStable = record {
  keeps = λ r r' b x i h. (
    ground (arith, length-append r.input x, get_elem?-append r.position r.input x),
    ground arith,
  );
}

take_bytes-IsStable : (n : ℕ) → IsStable (take_bytes n)
unfolding take_bytes
take_bytes-IsStable n = record {
  keeps = λ r r' b x i h. (
    ground (arith, length-append r.input x, take-drop-append n r.position r.input x),
    ground arith,
  );
}

get_u64_loop-IsStable : (n s v : ℕ) → IsStable (get_u64_loop n s v)
unfolding get_u64_loop
get_u64_loop-IsStable zero s v = pure-IsStable v
get_u64_loop-IsStable (suc n) s v =
    bind-IsStable _ get_byte-IsStable (λ b. get_u64_loop-IsStable n (s + 8) _)

not-ltb_mono : (k m n : ℕ) → ltb m k ≡ false → m ≤ n → ltb n k ≡ false
not-ltb_mono k m n h le = ground arith

get_u64-IsStable : IsStable get_u64
unfolding get_u64
get_u64-IsStable = record {
  keeps = λ r r' b x i h.
      let loop : get_u64_loop 8 0 0 r ≡ ok (b, r') = enough r h in
      let (k, l) = (get_u64_loop-IsStable 8 0 0).keeps r r' b x i loop in (rw (still r x h) k, l);
}
  where
    enough : (r : Reader) {q : ℕ × Reader} → get_u64 r ≡ ok q → get_u64_loop 8 0 0 r ≡ ok q
    enough r h = elim (Bool-cases (ltb (length r.input - r.position) 8)) [
      | inl e ↦ cc (rw e at h)
      | inr e ↦ (rw e at h)
    ]

    still :
        (r : Reader) (x : Text) {q : ℕ × Reader}
        → get_u64 r ≡ ok q
        → ltb (length (r.input ++ x) - r.position) 8 ≡ false
    still r x h = elim (Bool-cases (ltb (length r.input - r.position) 8)) [
      | inl e ↦ cc (rw e at h)
      | inr e ↦ not-ltb_mono 8 _ _ e (omega (arith, length-append r.input x))
    ]

get_i64-IsStable : IsStable get_i64
unfolding get_i64
get_i64-IsStable = bind-IsStable _ get_u64-IsStable (λ u. pure-IsStable _)

get_count-IsStable : IsStable get_count
unfolding get_count
get_count-IsStable =
    bind-IsStable _ get_u64-IsStable
      (λ raw. if-IsStable _ _ _ (fail-IsStable _) (pure-IsStable raw))

get_bytes-IsStable : IsStable get_bytes
unfolding get_bytes
get_bytes-IsStable = bind-IsStable _ get_u64-IsStable take_bytes-IsStable

get_flag-IsStable : IsStable get_flag
unfolding get_flag
get_flag-IsStable =
    bind-IsStable _ get_byte-IsStable (λ raw. if-IsStable _ _ _ (fail-IsStable _) (pure-IsStable _))

-- A constructor over what `m` reads.
make-IsStable :
    {A B : Type 0} {m : Decoder A} (make : A → B) → IsStable m → IsStable (m >>= λ a. pure (make a))
make-IsStable make p = bind-IsStable _ p (λ a. pure-IsStable (make a))

get_tagged-IsStable : (tag : ℕ) → IsStable (get_tagged tag)
unfolding get_tagged
get_tagged-IsStable tag = if-IsStable _ _ _ (pure-IsStable _) (
    if-IsStable _ _ _ (make-IsStable int get_i64-IsStable) (
      if-IsStable _ _ _ (make-IsStable real get_u64-IsStable) (
        if-IsStable _ _ _ (make-IsStable text get_bytes-IsStable) (
          if-IsStable _ _ _ get_flag-IsStable
            (if-IsStable _ _ _ (make-IsStable blob get_bytes-IsStable) (fail-IsStable _))))))

get_value-IsStable : IsStable get_value
unfolding get_value
get_value-IsStable = bind-IsStable _ get_byte-IsStable get_tagged-IsStable

emplace-IsStable : (row : Row) (name : Text) (v : Value) → IsStable (emplace row name v)
unfolding emplace
emplace-IsStable row name v = if-IsStable _ _ _ (fail-IsStable _) (pure-IsStable _)

get_fields-IsStable : (n : ℕ) (row : Row) → IsStable (get_fields n row)
unfolding get_fields
get_fields-IsStable zero row = pure-IsStable row
get_fields-IsStable (suc n) row = bind-IsStable _ get_bytes-IsStable λ name.
    bind-IsStable _ get_value-IsStable
      λ v. bind-IsStable _ (emplace-IsStable row name v) λ row'. get_fields-IsStable n row'

get_rows-IsStable : (n : ℕ) (rows : List Row) → IsStable (get_rows n rows)
unfolding get_rows
get_rows-IsStable zero rows = pure-IsStable rows
get_rows-IsStable (suc n) rows =
    bind-IsStable _ get_count-IsStable
      λ fields. bind-IsStable _ (get_fields-IsStable fields []) λ row. get_rows-IsStable n _

get_magic-IsStable : (cs : Text) → IsStable (get_magic cs)
unfolding get_magic
get_magic-IsStable [] = pure-IsStable tt
get_magic-IsStable (c ∷ cs) =
    bind-IsStable _ get_byte-IsStable
      (λ b. if-IsStable _ _ _ (get_magic-IsStable cs) (fail-IsStable _))

check_done-IsExact : (result : QueryResult) → IsExact (check_done result)
unfolding check_done
check_done-IsExact result = record {
  refuses = λ r r' b x i more h. ground (arith, length-append r.input x, nonempty x more);
}
  where
    nonempty : (x : Text) → x ≢ [] → 0 < length x
    nonempty [] h = absurd (h refl)
    nonempty (y ∷ x) h = omega arith

get_result-IsExact : IsExact get_result
unfolding get_result
get_result-IsExact = bind-IsExact _ (get_magic-IsStable magic) λ _.
    bind-IsExact _ get_count-IsStable λ n. bind-IsExact _ (get_rows-IsStable n []) λ rows.
      bind-IsExact _ get_i64-IsStable λ affected. bind-IsExact _ get_i64-IsStable λ last.
        check_done-IsExact (record { rows = rows; affected_rows = affected; last_insert_id = last })

-- A payload that decodes is complete: with any bytes behind it, it is refused as too long.
pub decode-append :
    (payload x : Text) (r : QueryResult)
    → decode_query_result payload ≡ ok r
    → x ≢ []
    → decode_query_result (payload ++ x) ≡ err trailing_bytes
unfolding decode_query_result
decode-append payload x r h more = go (get_result (record { input = payload; position = 0 })) refl h
  where
    go :
        (q : Result CacheCodecError (QueryResult × Reader))
        → get_result (record { input = payload; position = 0 }) ≡ q
        → decode_query_result payload ≡ ok r
        → decode_query_result (payload ++ x) ≡ err trailing_bytes
    go (ok (a, r')) e h = rw (
      get_result-IsExact.refuses (record { input = payload; position = 0 }) r' a x (omega arith)
          more e,
      decode_query_result,
    )
    go (err c) e h = cc (rw (e, decode_query_result) at h)

-- No payload of `encode_query_result` decodes after it has been cut short.
pub decode_truncated :
    (r r' : QueryResult) (payload x : Text)
    → IsStorable r
    → encode_query_result r ≡ payload ++ x
    → x ≢ []
    → decode_query_result payload ≢ ok r'
decode_truncated r r' payload x h split more e =
    cc ((decode-encode r h).1, ap decode_query_result split, decode-append payload x r' e more)
