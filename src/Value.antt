-- ===== src/Value.antt =====
-- include/metal/value.hpp and include/metal/execution.hpp: the values that the executor binds and
-- returns. `std::string` and `Blob` are lists of bytes; a `double` is its 64-bit pattern.
pub use metal_orm_cpp.Base.Int.{ℤ, pos, negsuc}
use metal_orm_cpp.Base.{ℕ, ◌<◌, List, Text, Bool}

-- The range of `std::int64_t`.
abbrev pub IsInt64 : ℤ → Type 0
IsInt64 (pos n) = n < 0x8000000000000000
IsInt64 (negsuc n) = n < 0x8000000000000000

abbrev pub Blob : Type 0
Blob = List ℕ

-- `std::variant<std::nullptr_t, std::int64_t, double, std::string, bool, Blob>`.
pub data Value : Type 0 where
  null : Value
  int : ℤ → Value
  real : ℕ → Value
  text : Text → Value
  flag : Bool → Value
  blob : Blob → Value

-- `std::unordered_map<std::string, Value>`, its entries in some order.
abbrev pub Row : Type 0
Row = List (Text × Value)

pub record QueryResult : Type 0 where
  pub rows : List Row
  pub affected_rows : ℤ
  pub last_insert_id : ℤ
