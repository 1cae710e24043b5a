-- ===== src/Cache/Codec/Reads.antt =====
-- A member of `Reader` reads back what the member of `Writer` wrote, whatever follows.
use native.Mathlib.Nat.{mod-eq_of_lt}
use mathlib.Core.List.{append_assoc, append-nil}
use metal_orm_cpp.Base.{
  ℕ, zero, suc, ◌+◌, ◌*◌, ◌/◌, ◌%◌, ◌^◌, ◌≤◌, ◌<◌, ◌≡◌, refl, sym, ap, ◌∙◌, subst, Bool, true,
  false, [], ◌∷◌, ◌++◌, some, Text, ok, length, take, drop, get_elem?, length-append, length-drop,
  drop-drop, take-append, drop-append, arith, ltb, if◌then◌else◌,
}
use metal_orm_cpp.Value.{ℤ, IsInt64, pos, negsuc, Value, null, int, real, text, flag, blob}
use metal_orm_cpp.Cache.Codec.{
  Reader, Decoder, ◌>>=◌, pure, remaining, get_byte, get_u64_loop, get_u64, get_i64, get_count,
  take_bytes, get_bytes, get_flag, fail, count_exceeds_limit, get_tagged, get_value, put_u64_loop,
  put_u64, put_i64, put_bytes, put_value, to_bits, of_bits, u64_mod, max_collection_size,
}
use metal_orm_cpp.Cache.Codec.Bits.{bit_or_next_byte}
use metal_orm_cpp.Cache.Codec.Writes.{
  put_u64_loop-append, put_u64-append, put_i64-append, put_bytes-append,
}

-- What is left of the input.
abbrev pub At : Reader → Text → Type 0
At r bs = (drop r.position r.input ≡ bs) × (r.position ≤ length r.input)

abbrev pub advance : Reader → ℕ → Reader
advance r n = record r { position = r.position + n }

pub remaining-At : (r : Reader) {bs : Text} → At r bs → remaining r ≡ length bs
unfolding remaining
remaining-At r h = omega (arith, ap length h.0, length-drop r.position r.input)

pub At-advance : (r : Reader) (bs rest : Text) → At r (bs ++ rest) → At (advance r (length bs)) rest
At-advance r bs rest h = (
  sym (drop-drop (length bs) r.position r.input) ∙ ap (drop (length bs)) h.0 ∙ drop-append bs rest,
  omega (arith, ap length h.0, length-drop r.position r.input, length-append bs rest),
)

-- `m` reads `bs`, returns `a`, and leaves the rest.
pub record Reads {A : Type 0} (m : Decoder A) (bs : Text) (a : A) : Type 0 where
  pub run : (r : Reader) (rest : Text) → At r (bs ++ rest) → m r ≡ ok (a, advance r (length bs))

advance-zero : (r : Reader) → advance r 0 ≡ r
advance-zero r =
    let e : r.position + 0 ≡ r.position = omega arith in
    λ i. record { input = r.input; position = e i }

advance-advance : (r : Reader) (m n k : ℕ) → m + n ≡ k → advance (advance r m) n ≡ advance r k
advance-advance r m n k h =
    let e : r.position + m + n ≡ r.position + k = omega arith in
    λ i. record { input = r.input; position = e i }

pub Reads-pure : {A : Type 0} (a : A) → Reads (pure a) [] a
Reads-pure a = record { run = λ r rest h. ap (λ q. ok (a, q)) (sym (advance-zero r)) }

pub bind-ok :
    {A B : Type 0} (m : Decoder A) (f : A → Decoder B) (r : Reader) {a : A} {r' : Reader}
    → m r ≡ ok (a, r')
    → (m >>= f) r ≡ f a r'
bind-ok m f r e = rw (e, ◌>>=◌)

pub Reads-bind :
    {A B : Type 0} {m : Decoder A} (f : A → Decoder B) {bs cs : Text} {a : A} {b : B}
    → Reads m bs a
    → Reads (f a) cs b
    → Reads (m >>= f) (bs ++ cs) b
Reads-bind {m = m} f {bs = bs} {cs = cs} {a = a} {b = b} p q = record { run = step }
  where
    step :
        (r : Reader) (rest : Text)
        → At r ((bs ++ cs) ++ rest)
        → (m >>= f) r ≡ ok (b, advance r (length (bs ++ cs)))
    step r rest h =
        let here : At r (bs ++ (cs ++ rest)) = (h.0 ∙ append_assoc bs cs rest, h.1) in
        bind-ok m f r (p.run r (cs ++ rest) here)
        ∙ q.run (advance r (length bs)) rest (At-advance r bs (cs ++ rest) here)
        ∙ ap (λ x. ok (b, x))
            (advance-advance r (length bs) (length cs) (length (bs ++ cs))
              (sym (length-append bs cs)))

pub Reads-bytes :
    {A : Type 0} {m : Decoder A} {bs cs : Text} {a : A} → bs ≡ cs → Reads m bs a → Reads m cs a
Reads-bytes {m = m} {a = a} e p = subst (λ x. Reads m x a) e p

pub Reads-result :
    {A : Type 0} {m : Decoder A} {bs : Text} {a b : A} → a ≡ b → Reads m bs a → Reads m bs b
Reads-result {m = m} {bs = bs} e p = subst (Reads m bs) e p

get_elem?-drop :
    (n : ℕ) (xs : Text) {b : ℕ} {rest : Text} → drop n xs ≡ b ∷ rest → get_elem? xs n ≡ some b
get_elem?-drop zero [] h = cc
get_elem?-drop zero (x ∷ xs) h = cc
get_elem?-drop (suc n) [] h = cc
get_elem?-drop (suc n) (x ∷ xs) h = get_elem?-drop n xs h

pub get_byte-Reads : (b : ℕ) → Reads get_byte (b ∷ []) b
unfolding get_byte
get_byte-Reads b = record {
  run = λ r rest h.
      rw (remaining-At r h) (rw (get_elem?-drop r.position r.input h.0, get_byte) (ground arith));
}

not-ltb : (k n : ℕ) → n ≤ k → ltb k n ≡ false
not-ltb k n h = ground arith

enough-At : (r : Reader) {bs : Text} (k : ℕ) → At r bs → k ≤ length bs → ltb (remaining r) k ≡ false
enough-At r k h le = rw (remaining-At r h) (not-ltb _ k le)

get_u64_loop-Reads :
    (n s v k : ℕ)
    → s + 8 * n ≡ k
    → Reads (get_u64_loop n s (v % 2 ^ s)) (put_u64_loop n s v []) (v % 2 ^ k)
unfolding get_u64_loop put_u64_loop
get_u64_loop-Reads zero s v k h =
    let e : s ≡ k = omega arith in Reads-result (ap (λ j. v % 2 ^ j) e) (Reads-pure (v % 2 ^ s))
get_u64_loop-Reads (suc n) s v k h =
    Reads-bytes (sym (put_u64_loop-append n (s + 8) v (v / 2 ^ s % 256 ∷ []))) (
      Reads-bind _ (get_byte-Reads (v / 2 ^ s % 256)) (
        subst (λ w. Reads (get_u64_loop n (s + 8) w) (put_u64_loop n (s + 8) v []) (v % 2 ^ k))
          (sym (bit_or_next_byte s v)) (get_u64_loop-Reads n (s + 8) v k (omega arith))))

pub length-put_u64 : (v : ℕ) → length (put_u64 [] v) ≡ 8
unfolding put_u64
length-put_u64 v = refl

pub get_u64-Reads : (v : ℕ) → v < u64_mod → Reads get_u64 (put_u64 [] v) v
unfolding get_u64 put_u64
get_u64-Reads v h = record { run = step }
  where
    loop : Reads (get_u64_loop 8 0 0) (put_u64_loop 8 0 v []) v
    loop =
        subst (λ w. Reads (get_u64_loop 8 0 w) (put_u64_loop 8 0 v []) v) (omega arith)
          (Reads-result (mod-eq_of_lt h) (get_u64_loop-Reads 8 0 v 64 refl))

    step :
        (r : Reader) (rest : Text)
        → At r (put_u64 [] v ++ rest)
        → get_u64 r ≡ ok (v, advance r (length (put_u64 [] v)))
    step r rest h =
        rw (enough-At r 8 h (omega (arith, length-append (put_u64 [] v) rest, length-put_u64 v)))
          (loop.run r rest h)

-- `sized_length` and the bytes behind it.
take_bytes-Reads : (s : Text) → Reads (take_bytes (length s)) s s
unfolding take_bytes
take_bytes-Reads s = record {
  run = λ r rest h.
      rw (enough-At r (length s) h (omega (arith, length-append s rest)))
        (ap (λ t. ok (t, advance r (length s))) (ap (take (length s)) h.0 ∙ take-append s rest));
}

pub get_bytes-Reads : (s : Text) → length s < u64_mod → Reads get_bytes (put_bytes [] s) s
unfolding get_bytes put_bytes
get_bytes-Reads s h = Reads-bind take_bytes (get_u64-Reads (length s) h) (take_bytes-Reads s)

of_bits-to_bits : (z : ℤ) → IsInt64 z → of_bits (to_bits z) ≡ z
unfolding of_bits to_bits
of_bits-to_bits (pos n) h = ground arith
of_bits-to_bits (negsuc n) h = ground arith

to_bits-lt : (z : ℤ) → IsInt64 z → to_bits z < u64_mod
unfolding to_bits
to_bits-lt (pos n) h = omega arith
to_bits-lt (negsuc n) h = omega arith

pub get_i64-Reads : (z : ℤ) → IsInt64 z → Reads get_i64 (put_i64 [] z) z
unfolding get_i64 put_i64
get_i64-Reads z h = Reads-bytes (append-nil _) (
    Reads-result (of_bits-to_bits z h)
      (Reads-bind _ (get_u64-Reads (to_bits z) (to_bits-lt z h)) (Reads-pure _)))

-- A count within the limit.
pub get_count-Reads : (n : ℕ) → n ≤ max_collection_size → Reads get_count (put_u64 [] n) n
unfolding get_count
get_count-Reads n h = Reads-bytes (append-nil _) (
    Reads-bind _ (get_u64-Reads n (omega arith)) (
      subst (λ b. Reads (if b then fail count_exceeds_limit else pure n) [] n)
        (sym (not-ltb max_collection_size n h)) (Reads-pure n)))

-- What the source's types say of a value: an `int64_t`, 64 bits, a size below 2^64.
abbrev pub IsValue : Value → Type 0
IsValue null = Unit
IsValue (int z) = IsInt64 z
IsValue (real bits) = bits < u64_mod
IsValue (text s) = length s < u64_mod
IsValue (flag b) = Unit
IsValue (blob s) = length s < u64_mod

-- The tag, and a constructor over what is read behind it.
tagged-Reads :
    {A : Type 0} (tag : ℕ) (m : Decoder A) (make : A → Value) {bs : Text} {a : A}
    → get_tagged tag ≡ (m >>= λ x. pure (make x))
    → Reads m bs a
    → Reads get_value (tag ∷ bs) (make a)
unfolding get_value
tagged-Reads tag m make {bs = bs} {a = a} e p = Reads-bind get_tagged (get_byte-Reads tag) (
    subst (λ n. Reads n bs (make a)) (sym e)
      (Reads-bytes (append-nil bs) (Reads-bind _ p (Reads-pure _))))

flag-Reads : (b : Bool) → Reads get_value (put_value [] (flag b)) (flag b)
unfolding put_value get_value get_flag get_tagged
flag-Reads true =
    Reads-bind get_tagged (get_byte-Reads 4) (Reads-bind _ (get_byte-Reads 1) (Reads-pure _))
flag-Reads false =
    Reads-bind get_tagged (get_byte-Reads 4) (Reads-bind _ (get_byte-Reads 0) (Reads-pure _))

pub get_value-Reads : (v : Value) → IsValue v → Reads get_value (put_value [] v) v
unfolding put_value get_value
get_value-Reads null h =
    Reads-bind get_tagged (get_byte-Reads 0) (unfold get_tagged in Reads-pure null)
get_value-Reads (int z) h =
    Reads-bytes (sym (put_i64-append (1 ∷ []) z))
      (tagged-Reads 1 get_i64 int (unfold get_tagged in refl) (get_i64-Reads z h))
get_value-Reads (real bits) h =
    Reads-bytes (sym (put_u64-append (2 ∷ []) bits))
      (tagged-Reads 2 get_u64 real (unfold get_tagged in refl) (get_u64-Reads bits h))
get_value-Reads (text s) h =
    Reads-bytes (sym (put_bytes-append (3 ∷ []) s))
      (tagged-Reads 3 get_bytes text (unfold get_tagged in refl) (get_bytes-Reads s h))
get_value-Reads (flag b) h = flag-Reads b
get_value-Reads (blob s) h =
    Reads-bytes (sym (put_bytes-append (5 ∷ []) s))
      (tagged-Reads 5 get_bytes blob (unfold get_tagged in refl) (get_bytes-Reads s h))
