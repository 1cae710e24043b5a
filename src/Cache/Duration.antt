-- ===== src/Cache/Duration.antt =====
-- include/metal/cache_types.hpp: `is_valid_duration`, `parse_duration` and `format_duration`. A
-- number of milliseconds is an `int64_t`; what `parse_duration` returns is never negative.
pub mod Parse
pub mod Format
use Prim.Native.Nat.{◌+◌}
use metal_orm_cpp.Base.{
  ℕ, zero, suc, ◌-◌, ◌*◌, ◌/◌, ◌%◌, Bool, true, false, ◌&&◌, ◌||◌, List, [], ◌∷◌, ◌++◌, Text, codes,
  Result, ok, err, ltb, leb, ◌==◌, if◌then◌else◌,
}
use metal_orm_cpp.Base.Int.{ℤ, pos, negsuc}

pub data DurationError : Type 0 where
  invalid_duration too_large : DurationError

abbrev pub u64_max : ℕ
u64_max = 0xffffffffffffffff

-- `std::numeric_limits<std::int64_t>::max()`.
abbrev pub max_ms : ℕ
max_ms = 0x7fffffffffffffff

abbrev pub is_digit : ℕ → Bool
is_digit c = leb b'0' c && leb c b'9'

abbrev pub is_unit : ℕ → Bool
is_unit c = c == b's' || c == b'm' || c == b'h' || c == b'd' || c == b'w'

-- The loop over all characters but the last, and the test of `value.back()`.
unfoldable pub digits_then_unit : Text → Bool
digits_then_unit [] = false
digits_then_unit (c ∷ []) = is_unit c
digits_then_unit (c ∷ d ∷ rest) = is_digit c && digits_then_unit (d ∷ rest)

unfoldable pub is_valid_duration : Text → Bool
unfolding digits_then_unit
is_valid_duration [] = false
is_valid_duration (c ∷ []) = false
is_valid_duration (c ∷ d ∷ rest) = digits_then_unit (c ∷ d ∷ rest)

-- The loop that reads the digits into `amount`, and the unit behind them.
unfoldable pub read_amount : ℕ → Text → Result DurationError (ℕ × ℕ)
read_amount amount [] = err invalid_duration
read_amount amount (c ∷ []) = ok (amount, c)
read_amount amount (c ∷ d ∷ rest) =
    let digit = c - b'0' in
    let next = read_amount (amount * 10 + digit) (d ∷ rest) in
    if ltb ((u64_max - digit) / 10) amount then err too_large else next

unfoldable pub multiplier : ℕ → ℕ
multiplier unit =
    if unit == b's'
    then 1000
    else if unit == b'm'
    then 60000
    else if unit == b'h'
    then 3600000
    else if unit == b'd'
    then 86400000
    else if unit == b'w'
    then 604800000
    else 1000

-- The last test, and the product in `uint64_t`.
unfoldable pub scale : ℕ → ℕ → Result DurationError ℕ
scale amount factor =
    if ltb (max_ms / factor) amount then err too_large else ok (amount * factor % (u64_max + 1))

unfoldable pub scale_result : Result DurationError (ℕ × ℕ) → Result DurationError ℕ
unfolding multiplier scale
scale_result (ok (amount, unit)) = scale amount (multiplier unit)
scale_result (err e) = err e

unfoldable pub parse_duration : Text → Result DurationError ℕ
unfolding is_valid_duration read_amount scale_result
parse_duration value =
    if is_valid_duration value then scale_result (read_amount 0 value) else err invalid_duration

-- `std::to_string` of a number that is not negative; the digits of `n` in front of `acc`.
unfoldable pub digits_onto : ℕ → ℕ → Text → Text
digits_onto zero n acc = acc
digits_onto (suc fuel) n acc =
    let rest = digits_onto fuel (n / 10) ((b'0' + n % 10) ∷ acc) in
    if ltb n 10 then (b'0' + n) ∷ acc else rest

-- An `int64_t` has at most 19 digits.
unfoldable pub to_string : ℕ → Text
unfolding digits_onto
to_string n = digits_onto 20 n []

-- `std::to_string` of an `int64_t`.
unfoldable pub int_to_string : ℤ → Text
unfolding to_string
int_to_string (pos n) = to_string n
int_to_string (negsuc n) = b'-' ∷ to_string (n + 1)

unfoldable pub format_duration : ℤ → Text
unfolding int_to_string to_string
format_duration (negsuc n) = int_to_string (negsuc n) ++ codes "ms"
format_duration (pos ms) =
    if ltb ms 1000
    then int_to_string (pos ms) ++ codes "ms"
    else if ltb ms 60000
    then to_string (ms / 1000) ++ codes "s"
    else if ltb ms 3600000
    then to_string (ms / 60000) ++ codes "m"
    else if ltb ms 86400000
    then to_string (ms / 3600000) ++ codes "h"
    else if ltb ms 604800000
    then to_string (ms / 86400000) ++ codes "d"
    else to_string (ms / 604800000) ++ codes "w"
