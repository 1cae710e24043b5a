-- ===== src/Cache/Manager.antt =====
-- include/metal/cache_strategy.hpp, include/metal/cache_provider.hpp and
-- include/metal/query_cache_manager.hpp.
pub mod Keys
pub mod Serving
pub mod Kept
use metal_orm_cpp.Base.{
  ℕ, suc, ◌+◌, Bool, true, false, Option, none, some, List, [], ◌∷◌, ◌++◌, Text, codes, Result, ok,
  err, if◌then◌else◌,
}
use metal_orm_cpp.Base.Int.{ℤ, pos, negsuc}
use metal_orm_cpp.Value.{QueryResult}
use metal_orm_cpp.Cache.Duration.{int_to_string}
use metal_orm_cpp.Cache.Memory.{MemoryCache}
use metal_orm_cpp.Cache.Memory

-- `CacheTenantId`.
pub data TenantId : Type 0 where
  number : ℤ → TenantId
  name : Text → TenantId

unfoldable pub tenant_text : TenantId → Text
unfolding int_to_string
tenant_text (number n) = int_to_string n
tenant_text (name s) = s

unfoldable pub generate_key : Text → Option TenantId → Text
unfolding tenant_text
generate_key query_key none = query_key
generate_key query_key (some tenant) =
    codes "tenant:" ++ (tenant_text tenant ++ (codes ":" ++ query_key))

-- `CacheOptions`; the manager does not read `auto_invalidate`.
pub record CacheOptions : Type 0 where
  pub key : Text
  pub ttl : Option ℤ
  pub tags : List Text
  pub condition : Option (QueryResult → Bool)

unfoldable pub should_cache : QueryResult → CacheOptions → Bool
should_cache result options = elim options.condition [ none ↦ true | some f ↦ f result ]

-- The interfaces that the manager calls: `CacheReader::get`, `CacheWriter::set`, and
-- `CacheTagRegistrar` if the provider has it. `set` is given a time to live.
pub record CacheProvider : Type 1 where
  pub State : Type 0
  pub get : ℤ → Text → State → Option QueryResult × State
  pub set : ℤ → Text → QueryResult → ℤ → State → State
  pub registrar : Option (Text → List Text → State → State)

abbrev pub memory_provider : CacheProvider
memory_provider = record {
  State = MemoryCache;
  get = Memory.get;
  set = λ now key value ttl. Memory.set now key value (some ttl);
  registrar = some Memory.register_tags;
}

-- What `get_or_execute` throws: its own two errors, and what the executor throws.
pub data Thrown (E : Type 0) : Type 0 where
  empty_key empty_executor : Thrown E
  from_executor : E → Thrown E

-- `executor` runs the query against the database, whose state is `W`.
abbrev pub Executor : Type 0 → Type 0 → Type 0
Executor E W = W → Result E QueryResult × W

abbrev pub ttl_or : ℤ → Option ℤ → ℤ
ttl_or default_ttl none = default_ttl
ttl_or default_ttl (some ttl) = ttl

module _ (p : CacheProvider) where
  open p use {State, get, set, registrar}

  unfoldable pub register_tags : Text → List Text → State → State
  register_tags key tags s = elim registrar [ none ↦ s | some f ↦ f key tags s ]

  unfoldable pub register_if_any : Text → List Text → State → State
  unfolding register_tags
  register_if_any key [] s = s
  register_if_any key (t ∷ ts) s = register_tags key (t ∷ ts) s

  -- The calls behind `executor()`.
  unfoldable pub store_result : ℤ → Text → ℤ → CacheOptions → QueryResult → State → State
  unfolding should_cache register_if_any
  store_result now key ttl options result s =
      if should_cache result options
      then register_if_any key options.tags (set now key result ttl s)
      else s

  -- Behind the call of `executor()`, which may throw.
  unfoldable pub after_query :
      {E W : Type 0}
      → ℤ
      → Text
      → ℤ
      → CacheOptions
      → State
      → Result E QueryResult × W
      → Result (Thrown E) QueryResult × State × W
  unfolding store_result
  after_query now key ttl options s (ok result, w) =
      (ok result, store_result now key ttl options result s, w)
  after_query now key ttl options s (err e, w) = (err (from_executor e), s, w)

  -- Behind the call of `get`.
  unfoldable pub after_lookup :
      {E W : Type 0}
      → ℤ
      → Text
      → ℤ
      → CacheOptions
      → Executor E W
      → W
      → Option QueryResult × State
      → Result (Thrown E) QueryResult × State × W
  unfolding after_query
  after_lookup now key ttl options executor w (some result, s) = (ok result, s, w)
  after_lookup now key ttl options executor w (none, s) =
      after_query now key ttl options s (executor w)

  -- `get_or_execute` at the time `now`; an executor that is none is an empty `std::function`.
  unfoldable pub get_or_execute :
      {E W : Type 0}
      → ℤ
      → ℤ
      → CacheOptions
      → Option (Executor E W)
      → Option TenantId
      → State
      → W
      → Result (Thrown E) QueryResult × State × W
  unfolding after_lookup generate_key
  get_or_execute default_ttl now options executor tenant s w = elim options.key [
    | [] ↦ (err empty_key, s, w)
    | _ ∷ _ ↦ elim executor [
      | none ↦ (err empty_executor, s, w)
      | some run ↦
          after_lookup now (generate_key options.key tenant) (ttl_or default_ttl options.ttl)
            options run w (get now (generate_key options.key tenant) s)
    ]
  ]
