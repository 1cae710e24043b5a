-- ===== src/Cache/Manager/Kept.antt =====
-- What `QueryCacheManager` returns and what a later reader of `MemoryCacheAdapter` finds.
use metal_orm_cpp.Base.{
  ◌≡◌, ◌≢◌, refl, sym, ap, ◌∙◌, subst, inl, inr, Bool, true, Option, none, some, List, [], Text,
  Result, ok, err, text_eq, find, if◌then◌else◌, Bool-cases,
}
use metal_orm_cpp.Base.Int.{ℤ, ◌≤ℤ◌}
use metal_orm_cpp.Value.{QueryResult}
use metal_orm_cpp.Cache.Memory.{CacheEntry, MemoryCache, is_expired, expiry}
use metal_orm_cpp.Cache.Memory
use metal_orm_cpp.Cache.Memory.Laws.{visible, get-visible, is_alive, get-set, get-get}
use metal_orm_cpp.Cache.Manager.{
  TenantId, CacheOptions, memory_provider, Executor, Thrown, from_executor, ttl_or, generate_key,
  should_cache, register_if_any, store_result, after_query, after_lookup, get_or_execute,
}
use metal_orm_cpp.Cache.Manager.Serving.{storage-register_if_any, get_or_execute-lookup}

get-register_if_any :
    (later : ℤ) (k j : Text) (tags : List Text) (c : MemoryCache)
    → (Memory.get later j (register_if_any memory_provider k tags c)).0 ≡ (Memory.get later j c).0
get-register_if_any later k j tags c =
    get-visible later j (register_if_any memory_provider k tags c)
    ∙ ap (λ m. visible later (find j m)) (storage-register_if_any k tags c)
    ∙ sym (get-visible later j c)

-- What the query returned, or threw, for the caller.
abbrev pub returned : {E W : Type 0} → Result E QueryResult × W → Result (Thrown E) QueryResult × W
returned (ok r, w) = (ok r, w)
returned (err e, w) = (err (from_executor e), w)

-- What the caller gets and what is left of the database: a value that the cache serves, without the
-- query, or what the query returns or throws, having run once.
abbrev pub asked :
    {E W : Type 0} → Option QueryResult → Executor E W → W → Result (Thrown E) QueryResult × W
asked (some r) executor w = (ok r, w)
asked none executor w = returned (executor w)

abbrev pub accepted : QueryResult → Option (QueryResult → Bool) → Option QueryResult
accepted r none = some r
accepted r (some accepts) = if accepts r then some r else none

-- The result that has to be in the cache: of a query that ran, did not throw, and meets the condition.
abbrev pub to_keep :
    {E : Type 0}
    → Option QueryResult
    → Result E QueryResult
    → Option (QueryResult → Bool)
    → Option QueryResult
to_keep (some found) answer condition = none
to_keep none (err e) condition = none
to_keep none (ok r) condition = accepted r condition

-- What a later look finds: what was kept, under its own key and as long as it lives, and otherwise
-- what it had found before.
abbrev pub served :
    ℤ → ℤ → Option ℤ → ℤ → Bool → Option QueryResult → Option QueryResult → Option QueryResult
served now default_ttl ttl later same none before = before
served now default_ttl none later same (some r) before =
    if same then (if is_alive now (some default_ttl) later then some r else none) else before
served now default_ttl (some t) later same (some r) before =
    if same then (if is_alive now (some t) later then some r else none) else before

get-store_result :
    (now later default_ttl : ℤ) (k j : Text) (options : CacheOptions) (r : QueryResult)
    (c : MemoryCache)
    → (Memory.get later j
        (store_result memory_provider now k (ttl_or default_ttl options.ttl) options r c)).0
      ≡ served now default_ttl options.ttl later
          (text_eq k j)
          (accepted r options.condition)
          (Memory.get later j c).0
unfolding store_result should_cache
get-store_result now later default_ttl k j options r c =
    go options.condition options.ttl options.tags
  where
    stored :
        (ttl : Option ℤ) (tags : List Text)
        → (Memory.get later j (
            register_if_any memory_provider k tags
              (Memory.set now k r (some (ttl_or default_ttl ttl)) c))).0
          ≡ served now default_ttl ttl later (text_eq k j) (some r) (Memory.get later j c).0
    stored none tags =
        get-register_if_any later k j tags (Memory.set now k r (some default_ttl) c)
        ∙ get-set now later k j r (some default_ttl) c
    stored (some t) tags =
        get-register_if_any later k j tags (Memory.set now k r (some t) c)
        ∙ get-set now later k j r (some t) c

    go :
        (condition : Option (QueryResult → Bool)) (ttl : Option ℤ) (tags : List Text)
        → (Memory.get later j (
            if (elim condition [ none ↦ true | some f ↦ f r ])
            then register_if_any memory_provider k tags
                (Memory.set now k r (some (ttl_or default_ttl ttl)) c)
            else c)).0
          ≡ served now default_ttl ttl later
              (text_eq k j)
              (accepted r condition)
              (Memory.get later j c).0
    go none ttl tags = stored ttl tags
    go (some f) ttl tags = elim (Bool-cases (f r)) [
      | inl e ↦ rw e (stored ttl tags)
      | inr e ↦ rw e refl
    ]

after_lookup_lem :
    {E W : Type 0} (now later default_ttl : ℤ) (k j : Text) (options : CacheOptions)
    (executor : Executor E W) (w : W) (before : Option QueryResult)
    (looked : Option QueryResult × MemoryCache)
    → (Memory.get later j looked.1).0 ≡ before
    → let answer =
        after_lookup memory_provider now k
          (ttl_or default_ttl options.ttl)
          options
          executor
          w
          looked in
      ((answer.0, answer.2) ≡ asked looked.0 executor w)
      × ((Memory.get later j answer.1).0
          ≡ served now default_ttl options.ttl later
              (text_eq k j)
              (to_keep looked.0 (executor w).0 options.condition)
              before)
unfolding after_lookup after_query
after_lookup_lem now later default_ttl k j options executor w before (some r, c) h = (refl, h)
after_lookup_lem {E} {W} now later default_ttl k j options executor w before (none, c) h =
    go (executor w)
  where
    go :
        (ran : Result E QueryResult × W)
        → let answer =
            after_query memory_provider now k (ttl_or default_ttl options.ttl) options c ran in
          ((answer.0, answer.2) ≡ returned ran)
          × ((Memory.get later j answer.1).0
              ≡ served now default_ttl options.ttl later
                  (text_eq k j)
                  (to_keep none ran.0 options.condition)
                  before)
    go (err e, w') = (refl, h)
    go (ok r, w') = (
      refl,
      get-store_result now later default_ttl k j options r c
          ∙ ap
              (served now default_ttl options.ttl later (text_eq k j)
                (accepted r options.condition))
              h,
    )

-- Over `MemoryCacheAdapter`, `get_or_execute` with a key and an executor serves what `get` finds
-- under the tenant's key and does not run the query then; otherwise it runs the query once, and
-- returns what that returned or throws what it threw. A later `get`, for any key, finds the result
-- of a query that ran and did not throw, if the condition accepts it or there is none, under this
-- key and for its time to live, the options' or else the default; in every other case it finds what
-- it would have found without the call.
pub get_or_execute_lem :
    {E W : Type 0} (default_ttl now later : ℤ) (tenant : Option TenantId) (options : CacheOptions)
    (executor : Executor E W) (c : MemoryCache) (w : W) (j : Text)
    → options.key ≢ []
    → now ≤ℤ later
    → let k = generate_key options.key tenant in
      let found = (Memory.get now k c).0 in
      let answer =
        get_or_execute memory_provider default_ttl now options (some executor) tenant c w in
      ((answer.0, answer.2) ≡ asked found executor w)
      × ((Memory.get later j answer.1).0
          ≡ served now default_ttl options.ttl later
              (text_eq k j)
              (to_keep found (executor w).0 options.condition)
              (Memory.get later j c).0)
get_or_execute_lem {E} {W} default_ttl now later tenant options executor c w j h le =
    let k = generate_key options.key tenant in
    subst
      (λ (x : Result (Thrown E) QueryResult × MemoryCache × W).
        ((x.0, x.2) ≡ asked (Memory.get now k c).0 executor w)
        × ((Memory.get later j x.1).0
            ≡ served now default_ttl options.ttl later (text_eq k j)
                (to_keep (Memory.get now k c).0 (executor w).0 options.condition)
                (Memory.get later j c).0))
      (sym (get_or_execute-lookup default_ttl now tenant options executor c w h))
      (after_lookup_lem now later default_ttl k j options executor w (Memory.get later j c).0
        (Memory.get now k c) (get-get now later k j c le))
