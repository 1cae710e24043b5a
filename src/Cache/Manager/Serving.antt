-- ===== src/Cache/Manager/Serving.antt =====
-- When `QueryCacheManager` runs the query, over `MemoryCacheAdapter`.
use metal_orm_cpp.Base.{
  ◌≡◌, ◌≢◌, refl, sym, ap, ◌∙◌, subst, true, false, Option, none, some, List, [], ◌∷◌, Text, Result,
  ok, text_eq_refl, find, find-assign, arith,
}
use metal_orm_cpp.Base.Int.{ℤ, pos, ◌+ℤ◌, ltb_ℤ}
use metal_orm_cpp.Value.{QueryResult}
use metal_orm_cpp.Cache.Memory.{CacheEntry, MemoryCache, is_expired, expiry}
use metal_orm_cpp.Cache.Memory
use metal_orm_cpp.Cache.Memory.Laws.{is_expired-expiry}
use metal_orm_cpp.Cache.Manager.{
  TenantId, CacheOptions, memory_provider, Executor, Thrown, ttl_or, generate_key, should_cache,
  register_if_any, store_result, after_query, after_lookup, get_or_execute,
}

get-alive :
    (now : ℤ) (k : Text) (c : MemoryCache) (e : CacheEntry)
    → find k c.storage ≡ some e
    → is_expired now e ≡ false
    → Memory.get now k c ≡ (some e.value, c)
get-alive now k c e f a = unfold Memory.get in rw (f, Memory.read_storage) (rw a)

pub storage-register_if_any :
    (k : Text) (tags : List Text) (c : MemoryCache)
    → (register_if_any memory_provider k tags c).storage ≡ c.storage
unfolding register_if_any Memory.register_tags
storage-register_if_any k [] c = refl
storage-register_if_any k (t ∷ ts) c = refl

missed :
    (now : ℤ) (k : Text) (c : MemoryCache)
    → (Memory.get now k c).0 ≡ none
    → Memory.get now k c ≡ (none, (Memory.get now k c).1)
missed now k c h = λ i. (h i, (Memory.get now k c).1)

-- What `store_result` stores, whatever the tags.
find-store_result :
    (now : ℤ) (k : Text) (ttl : ℤ) (options : CacheOptions) (r : QueryResult) (c : MemoryCache)
    → should_cache r options ≡ true
    → find k (store_result memory_provider now k ttl options r c).storage
      ≡ some (record { value = r; expires_at = expiry now (some ttl) })
unfolding store_result
find-store_result now k ttl options r c h =
    let entry : CacheEntry = record { value = r; expires_at = expiry now (some ttl) } in
    rw h (
      ap (find k) (storage-register_if_any k options.tags (Memory.set now k r (some ttl) c))
      ∙ (unfold Memory.set in find-assign k k entry c.storage ∙ rw (text_eq_refl k)))

lookup_miss :
    {E W : Type 0} (now : ℤ) (k : Text) (ttl : ℤ) (options : CacheOptions) (executor : Executor E W)
    (w : W) (c : MemoryCache)
    → (Memory.get now k c).0 ≡ none
    → after_lookup memory_provider now k ttl options executor w (Memory.get now k c)
      ≡ after_query memory_provider now k ttl options (Memory.get now k c).1 (executor w)
unfolding after_lookup
lookup_miss now k ttl options executor w c h =
    ap (after_lookup memory_provider now k ttl options executor w) (missed now k c h)

lookup_hit :
    {E W : Type 0} (now : ℤ) (k : Text) (ttl : ℤ) (options : CacheOptions) (executor : Executor E W)
    (w : W) (c s : MemoryCache) (r : QueryResult)
    → Memory.get now k c ≡ (some r, s)
    → after_lookup memory_provider now k ttl options executor w (Memory.get now k c) ≡ (ok r, s, w)
unfolding after_lookup
lookup_hit now k ttl options executor w c s r h =
    ap (after_lookup memory_provider now k ttl options executor w) h

module _ {E W : Type 0} (default_ttl now : ℤ) (tenant : Option TenantId) where
  -- With a key and an executor, `get_or_execute` looks the key up.
  pub get_or_execute-lookup :
      (options : CacheOptions) (executor : Executor E W) (c : MemoryCache) (w : W)
      → options.key ≢ []
      → get_or_execute memory_provider default_ttl now options (some executor) tenant c w
        ≡ after_lookup memory_provider now
            (generate_key options.key tenant)
            (ttl_or default_ttl options.ttl)
            options
            executor
            w
            (Memory.get now (generate_key options.key tenant) c)
  unfolding get_or_execute
  get_or_execute-lookup options executor c w h = go options.key refl h
    where
      go :
          (k : Text)
          → options.key ≡ k
          → k ≢ []
          → get_or_execute memory_provider default_ttl now options (some executor) tenant c w
            ≡ after_lookup memory_provider now
                (generate_key options.key tenant)
                (ttl_or default_ttl options.ttl)
                options
                executor
                w
                (Memory.get now (generate_key options.key tenant) c)
      go [] e h = absurd (h refl)
      go (x ∷ xs) e h = simp (e, get_or_execute)

-- A query that ran and whose result was cached is not run again while the entry lives: a second call
-- with the same options and tenant, whatever its executor, returns the same result, and changes
-- neither the cache nor the database.
pub get_or_execute_twice :
    {E W : Type 0} (default_ttl now later : ℤ) (tenant : Option TenantId) (options : CacheOptions)
    (first second : Executor E W) (c : MemoryCache) (w w' : W) (r : QueryResult)
    → options.key ≢ []
    → (Memory.get now (generate_key options.key tenant) c).0 ≡ none
    → first w ≡ (ok r, w')
    → should_cache r options ≡ true
    → ttl_or default_ttl options.ttl ≢ pos 0
    → ltb_ℤ (now +ℤ ttl_or default_ttl options.ttl) later ≡ false
    → let once = get_or_execute memory_provider default_ttl now options (some first) tenant c w in
      get_or_execute memory_provider default_ttl later options (some second) tenant once.1 once.2
      ≡ (ok r, once.1, w')
unfolding after_query
get_or_execute_twice {E} {W} default_ttl now later tenant options first second c w w' r h miss run
      keep ttl alive =
    let k = generate_key options.key tenant in
    let t = ttl_or default_ttl options.ttl in
    let c' = (Memory.get now k c).1 in
    let stored : MemoryCache = store_result memory_provider now k t options r c' in
    let entry : CacheEntry = record { value = r; expires_at = expiry now (some t) } in
    let once : get_or_execute memory_provider default_ttl now options (some first) tenant c w
        ≡ (ok r, stored, w') =
      get_or_execute-lookup default_ttl now tenant options first c w h
      ∙ lookup_miss now k t options first w c miss
      ∙ ap (after_query memory_provider now k t options c') run in
    let hit : Memory.get later k stored ≡ (some r, stored) =
      get-alive later k stored entry (find-store_result now k t options r c' keep)
        (is_expired-expiry now later (some t) r ∙ ground arith) in
    subst
      (λ (x : Result (Thrown E) QueryResult × MemoryCache × W).
        get_or_execute memory_provider default_ttl later options (some second) tenant x.1 x.2
        ≡ (ok r, x.1, w'))
      (sym once)
      (get_or_execute-lookup default_ttl later tenant options second stored w' h
        ∙ lookup_hit later k t options second w' stored stored r hit)
