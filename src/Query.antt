-- ===== src/Query.antt =====
-- include/metal/query/core_types.hpp and the errors of the query builders: what compiles to SQL.
pub mod Pieces
pub mod Revalued
pub mod Nodes
pub mod Templates
pub mod SqliteFunctions
pub mod PostgresFunctions
pub mod Functions
pub mod Compile
use metal_orm_cpp.Base.{
  ℕ, suc, Bool, true, false, Option, none, some, List, [], ◌∷◌, ◌++◌, Text, codes, Result, ok, err,
  length, if◌then◌else◌,
}
use metal_orm_cpp.Value.{Value}
use metal_orm_cpp.Dialect.{Dialect}

-- The `std::logic_error` and `std::invalid_argument` that compiling throws; `source_error` is what a
-- subquery or a predicate given by the caller throws.
pub data QueryError : Type 0 where
  excluded_outside mixed_sources no_select_columns empty_constraint no_insert_columns : QueryError
  no_rows constraint_unsupported no_conflict_columns no_conflict_assignments : QueryError
  empty_fragment no_assignments wrong_owner source_error : QueryError
  outside_scope bad_function_name wrong_arity unsupported_part empty_case : QueryError
  missing_column : Text → QueryError

pub record CompiledQuery : Type 0 where
  pub sql : Text
  pub params : List Value

-- What compiles with the vector `params`, which it takes and leaves.
abbrev pub Compiler : Type 0 → Type 0
Compiler A = List Value → Result QueryError (A × List Value)

infixl 10 ◌>>=◌
abbrev pub ◌>>=◌ : {A B : Type 0} → Compiler A → (A → Compiler B) → Compiler B
◌>>=◌ m f params = elim (m params) [ ok (a, params') ↦ f a params' | err e ↦ err e ]

abbrev pub pure : {A : Type 0} → A → Compiler A
pure a params = ok (a, params)

abbrev pub fail : {A : Type 0} → QueryError → Compiler A
fail e params = err e

-- `params.push_back(v)` and the placeholder of its number.
unfoldable pub bind : Dialect → Value → Compiler Text
bind d v params = ok (d.placeholder (suc (length params)), params ++ v ∷ [])

-- One part behind another, and texts around a part.
unfoldable pub followed_by : Compiler Text → Compiler Text → Compiler Text
followed_by m n = m >>= λ s. n >>= λ t. pure (s ++ t)

unfoldable pub within : Text → Compiler Text → Text → Compiler Text
unfolding followed_by
within before m behind = followed_by (pure before) (followed_by m (pure behind))

-- A loop that appends, with `separator` from the second round on.
unfoldable pub separated : {A : Type 0} → Text → (A → Compiler Text) → List A → Compiler Text
unfolding followed_by
separated separator f [] = pure []
separated separator f (x ∷ []) = f x
separated separator f (x ∷ y ∷ ys) =
    followed_by (f x) (followed_by (pure separator) (separated separator f (y ∷ ys)))

unfoldable pub join_sql : List Text → Text → Text
join_sql [] separator = []
join_sql (x ∷ []) separator = x
join_sql (x ∷ y ∷ ys) separator = x ++ (separator ++ join_sql (y ∷ ys) separator)

pub data CompareOp : Type 0 where
  eq ne gt ge lt le : CompareOp

unfoldable pub compare_token : CompareOp → Text
compare_token eq = codes "="
compare_token ne = codes "<>"
compare_token gt = codes ">"
compare_token ge = codes ">="
compare_token lt = codes "<"
compare_token le = codes "<="

-- A compiled subquery inside of a statement.
unfoldable pub embed : Result QueryError CompiledQuery → Compiler Text
embed (ok q) params = ok (q.sql, params ++ q.params)
embed (err e) params = err e

unfoldable pub finished : Result QueryError (Text × List Value) → Result QueryError CompiledQuery
finished (ok (sql, params)) = ok (record { sql = sql; params = params })
finished (err e) = err e

-- Compiling starts without parameters.
unfoldable pub compiled : Compiler Text → Result QueryError CompiledQuery
unfolding finished
compiled m = finished (m [])
