-- ===== src/Lib.antt =====
-- Verification of MetalORM, an object-relational mapper in C++.
--
-- The program maps C++ structs to tables. A session executes compiled queries on an executor, which
-- may be pooled; results may be cached, by a manager that works on an exchangeable provider. The
-- parts modelled here are those that keep state of their own, the cache, the pool and the unit of
-- work; the trees that the library keeps in a table as nested sets; the compilers of expressions and
-- of INSERT, UPDATE and DELETE, whose statements the unit of work executes; and the parser that reads
-- a SQLite schema back.
--
-- Files:
--   Base: shared names. `length` and the other list functions on native numbers, texts as lists of
--     bytes, association lists for `std::unordered_map`, results, and integers.
--   Value: include/metal/value.hpp (`Value`) and execution.hpp (`Row`, `QueryResult`).
--   Cache.Codec: include/metal/cache_codec.hpp. `Writer` and `Reader` by their members' names (`byte`
--     is `put_byte` and `get_byte`, and so on), `encode_query_result` and `decode_query_result`. A
--     reader is the input and a position; every read returns a result or an error. Codec.Bits,
--     Codec.Writes, Codec.Reads and Codec.Fields hold the lemmas of the round trip.
--   Cache.Duration: include/metal/cache_types.hpp. `is_valid_duration`, `parse_duration` with its
--     checks of overflow, and `format_duration`.
--   Cache.Tags: include/metal/cache_tag_index.hpp. `TagIndex` and its members.
--   Cache.Memory: include/metal/cache_memory.hpp. `MemoryCacheAdapter` and its members; the clock's
--     value is an argument. Memory.Race has the two steps of `get` apart.
--   Cache.Manager: include/metal/query_cache_manager.hpp, cache_strategy.hpp and
--     cache_provider.hpp. `get_or_execute` over any `CacheProvider`, a record that the memory adapter
--     fills; the database is a state that the executor passes on, and the executor does not call the
--     cache.
--   Pool: include/metal/pool.hpp. One function for each block under the mutex: `admit`, `confirm` and
--     `enlist` in `acquire`, `release`, `unlease` in `destroy_leased_resource`, `close` in `destroy`,
--     `reap` in the reaper's loop. Pool.Threads has the threads: what a thread still has to do, and
--     the steps of `acquire`, `Lease::release`, `Lease::destroy`, `destroy` and the reaper in any
--     interleaving. A thread that waits may wake up or time out at any moment. Pool.Warm is
--     `warm_minimum`.
--   Tree: include/metal/tree.hpp. `NestedSetStrategy`'s tests and the statements of `TreeManager` as
--     their effect on the rows in its scope: `shift_for_insert`, `shift_for_delete`, `move_range`,
--     `insert_as_child`, `delete_subtree`, `remove_from_tree`, `move_subtree`, `move_to` and
--     `swap_adjacent`. Bounds are integers without a limit, and a table has a depth column. Tree.Order
--     says what a nested set is.
--   Session: include/metal/unit_of_work.hpp. `UnitOfWork`: `track`, `erase` (`untrack`),
--     `refresh_snapshot`, and the checkpoints. Objects are numbered, and what they hold is a state
--     beside the unit of work. Session.Flush is `flush`, over an executor and callbacks that are
--     arguments, `set_pk` among them; a throw ends it, and what it leaves behind is not modelled.
--   Schema: include/metal/schema_types.hpp, the description of a database's tables.
--   Dialect: include/metal/query/core_types.hpp, quoting and placeholders.
--   Query: query/core_types.hpp again, `CompiledQuery` and the state that compiling passes on, the
--     vector `params`. Query.Pieces says what a statement consists of, fixed SQL and bound values.
--     Query.Nodes has the nodes of expressions; Query.SqliteFunctions and Query.PostgresFunctions
--     the SQL of functions (query/sqlite_compiler.hpp, query/postgres_function_compiler.hpp), as
--     templates with slots for the arguments (Query.Templates); Query.Compile has `compile_scalar`
--     and `compile_expression`. Compile.Meaning says what an expression's pieces are.
--   Dml: include/metal/dml.hpp. `compile` of the three builders is `compile_insert`,
--     `compile_update` and `compile_delete`, with the functions that append to `sql` as ones that
--     return what they append. Dml.Insert, Dml.Update and Dml.Delete are the builders' members.
--     Dml.Statements and Dml.Inserts say what the statements are; Dml.Revalued and
--     Dml.RevaluedInserts exchange the values in them. Dml.Where is `dml_where`.
--   Sqlite: include/metal/sqlite_ddl_parser.hpp. Characters, keywords and identifiers; Sqlite.Scan has
--     the loops that read past quotes, brackets and comments, a round of which is `advance`, and the
--     split of a table's body; Sqlite.Constraints the three passes over its segments. A function
--     that moves a position returns it, and `npos` is `none`.
--
-- Bounds: a byte of a text is a number, and what is written as 64 bits is `% 2 ^ 64` or assumed in
-- that range. `put_u64_loop` and `get_u64_loop` have 8 rounds, as the source's loops. A number has at
-- most 20 decimal digits, which 64 bits allow. `warm` has `min` rounds, since each adds a resource
-- or ends the loop. The search for a constraint's name has one round more than the position that
-- it looks for, as each moves it on. A time point and a time to live are integers without a limit:
-- sums over 2^63 nanoseconds, which overflow in the source, are not modelled. The depth of
-- parentheses and the pool's counters are natural numbers, and subtraction stops at 0.
--
-- Not modelled: compile-time reflection, which runs in the compiler; the executors, introspection and
-- generators, which call other libraries or write source text; and, so far, the SELECT builder, bulk
-- statements, schema differences, the remote cache, collections, graphs and the session around them,
-- and the documents for OpenAPI.
pub mod Base
pub mod Value
pub mod Cache
pub mod Pool
pub mod Tree
pub mod Session
pub mod Schema
pub mod Dialect
pub mod Sqlite
pub mod Query
pub mod Dml
