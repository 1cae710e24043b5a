-- ===== src/Cache/Codec.antt =====
-- include/metal/cache_codec.hpp: `Writer`, `Reader`, `encode_query_result`, `decode_query_result`.
-- `std::bit_cast` between `int64_t` and `uint64_t` is two's complement; a `double` is its bits.
pub mod Bits
pub mod Writes
pub mod Reads
pub mod Fields
pub mod RoundTrip
pub mod Truncation
use Prim.Native.Nat.{bit_or}
use metal_orm_cpp.Base.{
  ℕ, zero, suc, ◌+◌, ◌-◌, ◌*◌, ◌/◌, ◌%◌, ◌^◌, Bool, true, false, none, some, List, [], ◌∷◌, ◌++◌,
  Text, codes, text_eq, text_lt, Result, ok, err, length, take, drop, get_elem?, ltb, ◌==◌,
  if◌then◌else◌,
}
use metal_orm_cpp.Value.{ℤ, pos, negsuc, Value, null, int, real, text, flag, blob, Row, QueryResult}

pub data CacheCodecError : Type 0 where
  truncated count_exceeds_limit bad_boolean unknown_tag bad_magic : CacheCodecError
  duplicate_column trailing_bytes : CacheCodecError

abbrev pub magic : Text
magic = codes "MORMC001"

abbrev pub max_collection_size : ℕ
max_collection_size = 1000000

abbrev pub u64_mod : ℕ
u64_mod = 0x10000000000000000

-- `std::bit_cast<std::uint64_t>` of an `int64_t`, and back.
unfoldable pub to_bits : ℤ → ℕ
to_bits (pos n) = n
to_bits (negsuc n) = u64_mod - 1 - n

unfoldable pub of_bits : ℕ → ℤ
of_bits u = if ltb u 0x8000000000000000 then pos u else negsuc (u64_mod - 1 - u)

-- What has been written so far.
abbrev pub Writer : Type 0
Writer = Text

unfoldable pub put_byte : Writer → ℕ → Writer
put_byte out b = out ++ b ∷ []

-- The loop of `u64` over `shift`, with its rounds left.
unfoldable pub put_u64_loop : ℕ → ℕ → ℕ → Writer → Writer
unfolding put_byte
put_u64_loop zero shift value out = out
put_u64_loop (suc rounds) shift value out =
    put_u64_loop rounds (shift + 8) value (put_byte out (value / 2 ^ shift % 256))

unfoldable pub put_u64 : Writer → ℕ → Writer
unfolding put_u64_loop
put_u64 out value = put_u64_loop 8 0 value out

unfoldable pub put_i64 : Writer → ℤ → Writer
unfolding put_u64 to_bits
put_i64 out value = put_u64 out (to_bits value)

-- `bytes` and `blob` write the same: the length and the bytes.
unfoldable pub put_bytes : Writer → Text → Writer
unfolding put_u64
put_bytes out value = put_u64 out (length value) ++ value

unfoldable pub put_value : Writer → Value → Writer
unfolding put_byte put_i64 put_bytes
put_value out null = put_byte out 0
put_value out (int n) = put_i64 (put_byte out 1) n
put_value out (real bits) = put_u64 (put_byte out 2) bits
put_value out (text s) = put_bytes (put_byte out 3) s
put_value out (flag b) = put_byte (put_byte out 4) (if b then 1 else 0)
put_value out (blob s) = put_bytes (put_byte out 5) s

-- `std::sort` of the fields by name; the names of a row are distinct.
unfoldable pub insert_field : Text × Value → Row → Row
insert_field f [] = f ∷ []
insert_field f (g ∷ row) = if text_lt g.0 f.0 then g ∷ insert_field f row else f ∷ g ∷ row

unfoldable pub sort_fields : Row → Row
unfolding insert_field
sort_fields [] = []
sort_fields (f ∷ row) = insert_field f (sort_fields row)

unfoldable pub put_fields : Writer → Row → Writer
put_fields out [] = out
put_fields out ((name, value) ∷ rest) = put_fields (put_value (put_bytes out name) value) rest

unfoldable pub put_rows : Writer → List Row → Writer
unfolding put_fields sort_fields
put_rows out [] = out
put_rows out (row ∷ rest) =
    let fields = sort_fields row in put_rows (put_fields (put_u64 out (length fields)) fields) rest

unfoldable pub put_all : Writer → Text → Writer
unfolding put_byte
put_all out [] = out
put_all out (c ∷ cs) = put_all (put_byte out c) cs

unfoldable pub encode_query_result : QueryResult → Text
unfolding put_rows put_all
encode_query_result r =
    let out = put_u64 (put_all [] magic) (length r.rows) in
    put_i64 (put_i64 (put_rows out r.rows) r.affected_rows) r.last_insert_id

pub record Reader : Type 0 where
  pub input : Text
  pub position : ℕ

-- A member function of `Reader`, which may throw.
abbrev pub Decoder : Type 0 → Type 0
Decoder A = Reader → Result CacheCodecError (A × Reader)

infixl 10 ◌>>=◌
abbrev pub ◌>>=◌ : {A B : Type 0} → Decoder A → (A → Decoder B) → Decoder B
◌>>=◌ m f r = elim (m r) [ ok (a, r') ↦ f a r' | err e ↦ err e ]

abbrev pub pure : {A : Type 0} → A → Decoder A
pure a r = ok (a, r)

abbrev pub fail : {A : Type 0} → CacheCodecError → Decoder A
fail e r = err e

unfoldable pub remaining : Reader → ℕ
remaining r = length r.input - r.position

-- `require` and the read of `input_[position_]` (the index is in range behind the check).
unfoldable pub get_byte : Decoder ℕ
unfolding remaining
get_byte r = if ltb (remaining r) 1 then err truncated else elim (get_elem? r.input r.position) [
  | none ↦ err truncated
  | some b ↦ ok (b, record r { position = r.position + 1 })
]

-- The loop of `u64` over `shift`, with its rounds left.
unfoldable pub get_u64_loop : ℕ → ℕ → ℕ → Decoder ℕ
unfolding get_byte
get_u64_loop zero shift value = pure value
get_u64_loop (suc rounds) shift value =
    get_byte >>= λ b. get_u64_loop rounds (shift + 8) (bit_or value (b * 2 ^ shift))

unfoldable pub get_u64 : Decoder ℕ
unfolding get_u64_loop remaining
get_u64 r = if ltb (remaining r) 8 then err truncated else get_u64_loop 8 0 0 r

unfoldable pub get_i64 : Decoder ℤ
unfolding get_u64 of_bits
get_i64 = get_u64 >>= λ u. pure (of_bits u)

unfoldable pub get_count : Decoder ℕ
unfolding get_u64
get_count =
    get_u64 >>= λ raw. if ltb max_collection_size raw then fail count_exceeds_limit else pure raw

-- `bytes` and `blob`: `sized_length`, then the bytes. `std::size_t` has 64 bits, so that
-- `narrow_size` passes every value.
unfoldable pub take_bytes : ℕ → Decoder Text
unfolding remaining
take_bytes size r =
    if ltb (remaining r) size
    then err truncated
    else ok (take size (drop r.position r.input), record r { position = r.position + size })

unfoldable pub get_bytes : Decoder Text
unfolding take_bytes get_u64
get_bytes = get_u64 >>= take_bytes

unfoldable pub get_flag : Decoder Value
unfolding get_byte
get_flag = get_byte >>= λ raw. if ltb 1 raw then fail bad_boolean else pure (flag (raw == 1))

-- The switch of `Reader::value` on the tag.
unfoldable pub get_tagged : ℕ → Decoder Value
unfolding get_i64 get_u64 get_bytes get_flag
get_tagged tag =
    if tag == 0
    then pure null
    else if tag == 1
    then (get_i64 >>= λ n. pure (int n))
    else if tag == 2
    then (get_u64 >>= λ bits. pure (real bits))
    else if tag == 3
    then (get_bytes >>= λ s. pure (text s))
    else if tag == 4
    then get_flag
    else if tag == 5
    then (get_bytes >>= λ s. pure (blob s))
    else fail unknown_tag

unfoldable pub get_value : Decoder Value
unfolding get_byte get_tagged
get_value = get_byte >>= get_tagged

unfoldable pub has_name : Text → Row → Bool
has_name name [] = false
has_name name ((n, v) ∷ row) = if text_eq n name then true else has_name name row

-- `row.emplace`, and the error if the name is there already.
unfoldable pub emplace : Row → Text → Value → Decoder Row
unfolding has_name
emplace row name v =
    if has_name name row then fail duplicate_column else pure (row ++ (name, v) ∷ [])

-- The loop over the fields of a row, with its rounds left.
unfoldable pub get_fields : ℕ → Row → Decoder Row
unfolding get_bytes get_value emplace
get_fields zero row = pure row
get_fields (suc n) row =
    get_bytes >>= λ name. get_value >>= λ v. emplace row name v >>= λ row'. get_fields n row'

unfoldable pub get_rows : ℕ → List Row → Decoder (List Row)
unfolding get_count get_fields
get_rows zero rows = pure rows
get_rows (suc n) rows =
    get_count >>= λ fields. get_fields fields [] >>= λ row. get_rows n (rows ++ row ∷ [])

unfoldable pub get_magic : Text → Decoder (Unit {0})
unfolding get_byte
get_magic [] = pure tt
get_magic (c ∷ cs) = get_byte >>= λ b. if b == c then get_magic cs else fail bad_magic

unfoldable pub check_done : QueryResult → Decoder QueryResult
check_done result r = if r.position == length r.input then ok (result, r) else err trailing_bytes

unfoldable pub get_result : Decoder QueryResult
unfolding get_magic get_count get_rows get_i64 check_done
get_result = get_magic magic >>= λ _. get_count >>= λ n. get_rows n [] >>= λ rows.
    get_i64 >>= λ affected. get_i64 >>= λ last.
    check_done (record { rows = rows; affected_rows = affected; last_insert_id = last })

unfoldable pub decode_query_result : Text → Result CacheCodecError QueryResult
unfolding get_result
decode_query_result payload = elim (get_result (record { input = payload; position = 0 })) [
  | ok (result, _) ↦ ok result
  | err e ↦ err e
]
