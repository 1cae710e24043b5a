-- ===== src/Cache/Tests.antt =====
-- Runs of the cache's code on concrete input, and its theorems at concrete input.
use metal_orm_cpp.Base.{
  ℕ, zero, suc, ◌+◌, ◌≡◌, ◌≢◌, refl, ◌↔◌, true, false, none, some, List, [], ◌∷◌, ◌++◌, Text, codes,
  Result, ok, err, arith, length, if◌then◌else◌, contains, find, assign, include, text_eq,
  starts_with, subst,
}
use metal_orm_cpp.Base.Int.{ℤ, pos, negsuc, ◌+ℤ◌}
use metal_orm_cpp.Value.{null, int, text, flag, blob, Row, QueryResult}
use metal_orm_cpp.Cache.Codec.{
  encode_query_result, decode_query_result, count_exceeds_limit, trailing_bytes, put_i64, has_name,
}
use metal_orm_cpp.Cache.Codec.Fields.{Distinct}
use metal_orm_cpp.Cache.Codec.RoundTrip.{
  SameRows, IsStorable, decode-encode, decode-encode_too_many,
}
use metal_orm_cpp.Cache.Codec.Truncation.{decode-append, decode_truncated}
use metal_orm_cpp.Cache.Duration.{
  parse_duration, format_duration, is_valid_duration, invalid_duration,
}
use metal_orm_cpp.Cache.Duration.Parse.{IsDuration, parse_duration_exact, is_valid_duration_iff}
use metal_orm_cpp.Cache.Duration.Format.{parse-format}
use metal_orm_cpp.Cache.Tags.{
  TagIndex, empty_index, register_key, register_loop, set_of, store_tags,
}
use metal_orm_cpp.Cache.Tags
use metal_orm_cpp.Cache.Tags.Inv.{Inv, has_key, has_tag, register_key-Inv, unregister-Inv}
use metal_orm_cpp.Cache.Tags.Invalidation.{has_any, invalidate_tags_lem, invalidate_prefix_lem}
use metal_orm_cpp.Cache.Memory.{CacheEntry, MemoryCache, is_expired, expiry}
use metal_orm_cpp.Cache.Memory
use metal_orm_cpp.Cache.Memory.Laws.{
  get-set, get-invalidate_tags, get-invalidate_tags_registered, get-invalidate_prefix,
}
use metal_orm_cpp.Cache.Memory.Race.{get_around_set, get_around_set_loses_tags}
use metal_orm_cpp.Cache.Manager.{
  name, generate_key, CacheOptions, memory_provider, Executor, Thrown, should_cache, get_or_execute,
}
use metal_orm_cpp.Cache.Manager.Keys.{generate_key_numbers, generate_key_collision}
use metal_orm_cpp.Cache.Manager.Serving.{get_or_execute_twice}
use metal_orm_cpp.Cache.Manager.Kept.{get_or_execute_lem}

abbrev user_row : Row
user_row =
    (codes "name", text (codes "Celso"))
    ∷ (codes "id", int (negsuc 6))
    ∷ (codes "active", flag true)
    ∷ (codes "avatar", blob (0 ∷ 255 ∷ []))
    ∷ (codes "note", null)
    ∷ []

abbrev one_user : QueryResult
one_user = record { rows = user_row ∷ []; affected_rows = pos 0; last_insert_id = pos 7 }

user_row-Distinct : Distinct user_row
unfolding has_name text_eq
user_row-Distinct = (refl, (refl, (refl, (refl, (refl, tt)))))

one_user-IsStorable : IsStorable one_user
one_user-IsStorable = record {
  rows = (record { distinct = user_row-Distinct; fields = omega arith; few = omega arith }, tt);
  few = omega arith;
  affected_rows = omega arith;
  last_insert_id = omega arith;
}

decode-encode_example :
    (r' : QueryResult) × (decode_query_result (encode_query_result one_user) ≡ ok r')
    × SameRows one_user.rows r'.rows
    × (r'.affected_rows ≡ pos 0)
    × (r'.last_insert_id ≡ pos 7)
decode-encode_example = decode-encode one_user one_user-IsStorable

abbrev no_rows : QueryResult
no_rows = record { rows = []; affected_rows = pos 3; last_insert_id = pos 0 }

no_rows-IsStorable : IsStorable no_rows
no_rows-IsStorable = record {
  rows = tt;
  few = omega arith;
  affected_rows = omega arith;
  last_insert_id = omega arith;
}

-- The payload of `no_rows` without its last byte.
abbrev cut_payload : Text
cut_payload =
    codes "MORMC001"
    ++ (0 ∷ 0 ∷ 0 ∷ 0 ∷ 0 ∷ 0 ∷ 0 ∷ 0 ∷ 3 ∷ 0 ∷ 0 ∷ 0 ∷ 0 ∷ 0 ∷ 0 ∷ 0 ∷ 0 ∷ 0 ∷ 0 ∷ 0 ∷ 0 ∷ 0 ∷ 0
        ∷ [])

cut_payload_lem : encode_query_result no_rows ≡ cut_payload ++ 0 ∷ []
unfolding encode_query_result put_i64
cut_payload_lem = refl

decode_truncated_example : decode_query_result cut_payload ≢ ok one_user
decode_truncated_example =
    decode_truncated no_rows one_user cut_payload (0 ∷ []) no_rows-IsStorable cut_payload_lem
      (λ e. cc)

decode_no_rows : decode_query_result (encode_query_result no_rows) ≡ ok no_rows
unfolding encode_query_result decode_query_result put_i64
decode_no_rows = refl

decode-append_example :
    decode_query_result (encode_query_result no_rows ++ 9 ∷ []) ≡ err trailing_bytes
decode-append_example =
    decode-append (encode_query_result no_rows) (9 ∷ []) no_rows decode_no_rows (λ e. cc)

-- `n` empty rows.
blank_rows : ℕ → List Row
blank_rows zero = []
blank_rows (suc n) = [] ∷ blank_rows n

length-blank_rows : (n : ℕ) → length (blank_rows n) ≡ n
unfolding blank_rows
length-blank_rows zero = refl
length-blank_rows (suc n) = omega (arith, length-blank_rows n)

abbrev too_many : QueryResult
too_many = record { rows = blank_rows 1000001; affected_rows = pos 0; last_insert_id = pos 0 }

decode-encode_too_many_example :
    decode_query_result (encode_query_result too_many) ≡ err count_exceeds_limit
decode-encode_too_many_example =
    decode-encode_too_many too_many (omega (arith, length-blank_rows 1000001))
      (omega (arith, length-blank_rows 1000001))

-- "2h", "90s" and "1m30s".
two_hours : IsDuration (codes "2") b'h'
two_hours = record { some_digit = λ e. cc; digits = (refl, tt); unit_known = refl }

ninety_seconds : IsDuration (codes "90") b's'
ninety_seconds = record { some_digit = λ e. cc; digits = (refl, (refl, tt)); unit_known = refl }

parse_duration_exact_example : parse_duration (codes "2h") ≡ ok 7200000
parse_duration_exact_example = parse_duration_exact (codes "2") b'h' two_hours

minute_and_a_half : parse_duration (codes "90s") ≡ ok 90000
minute_and_a_half = parse_duration_exact (codes "90") b's' ninety_seconds

is_valid_duration_iff_example :
    (is_valid_duration (codes "90s") ≡ true)
    ↔ ((ds : Text) × (unit : ℕ) × (codes "90s" ≡ ds ++ unit ∷ []) × IsDuration ds unit)
is_valid_duration_iff_example = is_valid_duration_iff (codes "90s")

mixed_units : parse_duration (codes "1m30s") ≡ err invalid_duration
unfolding parse_duration
mixed_units = refl

-- Ninety seconds are printed as "1m", which is read back as sixty.
parse-format_example : parse_duration (format_duration (pos 90000)) ≡ ok 60000
parse-format_example = parse-format (pos 90000) (omega arith)

-- The tag index, the adapter and the manager.
abbrev tagged : TagIndex
tagged = record {
  tag_to_keys = (codes "users", codes "q1" ∷ []) ∷ [];
  key_to_tags = (codes "q1", codes "users" ∷ []) ∷ [];
}

tagged_lem : register_key empty_index (codes "q1") (codes "users" ∷ [] ∷ []) ≡ tagged
unfolding register_key register_loop set_of store_tags find assign include contains
tagged_lem = refl

empty_index-Inv : Inv empty_index
unfolding has_key has_tag set_of find contains
empty_index-Inv = record {
  agree = λ key tag. refl;
  tags_in_use = λ tag e. cc;
  keys_in_use = λ key e. cc;
  no_empty_tag = λ key. refl;
}

register_key-Inv_example : Inv (register_key empty_index (codes "q1") (codes "users" ∷ []))
register_key-Inv_example =
    register_key-Inv empty_index (codes "q1") (codes "users" ∷ []) empty_index-Inv

tagged-Inv : Inv tagged
tagged-Inv =
    subst Inv tagged_lem
      (register_key-Inv empty_index (codes "q1") (codes "users" ∷ [] ∷ []) empty_index-Inv)

unregister-Inv_example : Inv (Tags.unregister tagged (codes "q1"))
unregister-Inv_example = unregister-Inv tagged (codes "q1") tagged-Inv

invalidate_tags_lem_example :
    let (ks, idx') = Tags.invalidate_tags tagged (codes "users" ∷ []) in
    Inv idx'
    × ((k : Text) → contains k ks ≡ has_any tagged (codes "users" ∷ []) k)
    × ((k tag : Text)
        → has_tag idx'.key_to_tags k tag ≡ (
            if has_any tagged (codes "users" ∷ []) k
            then false
            else has_tag tagged.key_to_tags k tag))
invalidate_tags_lem_example = invalidate_tags_lem tagged (codes "users" ∷ []) tagged-Inv

invalidate_prefix_lem_example :
    let idx' = (Tags.invalidate_prefix tagged (codes "q")).1 in
    Inv idx'
    × ((k tag : Text)
        → has_tag idx'.key_to_tags k tag
          ≡ (if starts_with (codes "q") k then false else has_tag tagged.key_to_tags k tag))
invalidate_prefix_lem_example = invalidate_prefix_lem tagged (codes "q") tagged-Inv

-- One entry that expires at 1000, tagged "users".
abbrev old_entry : CacheEntry
old_entry = record { value = no_rows; expires_at = some (pos 1000) }

abbrev one_entry : MemoryCache
one_entry = record { storage = (codes "q1", old_entry) ∷ []; tag_index = tagged }

get-set_example :
    (Memory.get
      (pos 1500)
      (codes "q1")
      (Memory.set (pos 900) (codes "q1") one_user (some (pos 600)) one_entry)).0
    ≡ some one_user
unfolding text_eq is_expired expiry ◌+ℤ◌
get-set_example =
    get-set (pos 900) (pos 1500) (codes "q1") (codes "q1") one_user (some (pos 600)) one_entry

get-invalidate_tags_example :
    Inv (Memory.invalidate_tags (codes "users" ∷ []) one_entry).tag_index
    × ((Memory.get (pos 10) (codes "q1") (Memory.invalidate_tags (codes "users" ∷ []) one_entry)).0
        ≡ none)
unfolding has_any has_key set_of find contains text_eq
get-invalidate_tags_example =
    get-invalidate_tags (pos 10) (codes "users" ∷ []) (codes "q1") one_entry tagged-Inv

get-invalidate_tags_registered_example :
    (Memory.get (pos 10) (codes "q1") (
      Memory.invalidate_tags
        (codes "posts" ∷ [])
        (Memory.register_tags (codes "q1") (codes "posts" ∷ []) one_entry))).0
    ≡ none
unfolding contains text_eq
get-invalidate_tags_registered_example =
    get-invalidate_tags_registered (pos 10) (codes "q1") (codes "posts") (codes "posts" ∷ [])
      (codes "posts" ∷ []) one_entry tagged-Inv refl (λ e. cc) refl

get-invalidate_prefix_example :
    (Memory.get (pos 10) (codes "q1") (Memory.invalidate_prefix (codes "q") one_entry)).0 ≡ none
unfolding starts_with
get-invalidate_prefix_example = get-invalidate_prefix (pos 10) (codes "q") (codes "q1") one_entry

get_around_set_loses_tags_example :
    (Memory.get (pos 1100) (codes "q1") (
      Memory.invalidate_tags
        (codes "users" ∷ [])
        (get_around_set (pos 1001) (codes "q1") one_user none (codes "users" ∷ []) one_entry))).0
    ≡ (Memory.get
        (pos 1100)
        (codes "q1")
        (Memory.set (pos 1001) (codes "q1") one_user none one_entry)).0
unfolding find text_eq is_expired
get_around_set_loses_tags_example =
    get_around_set_loses_tags (pos 1001) (pos 1100) (codes "q1") old_entry one_user none
      (codes "users" ∷ []) (codes "users" ∷ []) one_entry tagged-Inv refl refl

generate_key_numbers_example : (◌≡◌ {A = ℤ} (negsuc 4) (negsuc 4)) × (codes "q" ≡ codes "q")
generate_key_numbers_example =
    generate_key_numbers (codes "q") (codes "q") (negsuc 4) (negsuc 4) (omega arith) (omega arith)
      refl

generate_key_collision_example :
    generate_key (codes "q") (some (name (codes "a:b")))
    ≡ generate_key (codes "b:q") (some (name (codes "a")))
generate_key_collision_example = generate_key_collision (codes "a") (codes "b") (codes "q")

abbrev by_users : CacheOptions
by_users = record {
  key = codes "q2";
  ttl = some (pos 500);
  tags = codes "users" ∷ [];
  condition = none;
}

-- The database counts its queries; the first executor answers, the second fails.
abbrev answering : Executor ℕ ℕ
answering n = (ok one_user, n + 1)

abbrev failing : Executor ℕ ℕ
failing n = (err 13, n + 1)

abbrev after_one : Result (Thrown ℕ) QueryResult × MemoryCache × ℕ
after_one =
    get_or_execute memory_provider (pos 3600000) (pos 100) by_users (some answering) none one_entry
      0

get_or_execute_twice_example :
    get_or_execute memory_provider
      (pos 3600000)
      (pos 600)
      by_users
      (some failing)
      none
      after_one.1
      after_one.2
    ≡ (ok one_user, after_one.1, 1)
unfolding generate_key Memory.get find text_eq should_cache ◌+ℤ◌
get_or_execute_twice_example =
    get_or_execute_twice (pos 3600000) (pos 100) (pos 600) none by_users answering failing one_entry
      0 1 one_user (λ e. cc) refl refl refl (λ e. cc) refl

-- The first query is stored, and found at its last instant.
get_or_execute_lem_example :
    (◌≡◌ {A = Result (Thrown ℕ) QueryResult × ℕ} (after_one.0, after_one.2) (ok one_user, 1))
    × ((Memory.get (pos 600) (codes "q2") after_one.1).0 ≡ some one_user)
unfolding generate_key Memory.get find text_eq ◌+ℤ◌
get_or_execute_lem_example =
    get_or_execute_lem (pos 3600000) (pos 100) (pos 600) none by_users answering one_entry 0
      (codes "q2") (λ e. cc) (omega arith)
