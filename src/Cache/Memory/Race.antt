-- ===== src/Cache/Memory/Race.antt =====
-- `MemoryCacheAdapter::get` gives up the storage's mutex before it takes an expired key out of the
-- tag index.
use metal_orm_cpp.Base.{
  ◌≡◌, refl, ap, ◌∙◌, true, false, Option, none, some, List, [], ◌∷◌, Text, text_eq_refl, arith,
  Map, find, assign, erase, find-assign,
}
use metal_orm_cpp.Base.Int.{ℤ}
use metal_orm_cpp.Value.{QueryResult}
use metal_orm_cpp.Cache.Tags.{TagIndex, is_empty}
use metal_orm_cpp.Cache.Tags
use metal_orm_cpp.Cache.Tags.Inv.{
  Inv, unregister-Inv, register_key-Inv, has_key, has_key-unregister,
}
use metal_orm_cpp.Cache.Tags.Invalidation.{has_any}
use metal_orm_cpp.Cache.Memory.{
  CacheEntry, MemoryCache, is_expired, read_storage, drop_tags, get, expiry, set, invalidate_tags,
  register_tags,
}
use metal_orm_cpp.Cache.Memory.Laws.{get-visible, is_expired-expiry, get-set, get-invalidate_tags}

-- The two steps of `get` on an expired entry, with another thread's `set` and `register_tags` of
-- the same key between them.
abbrev pub get_around_set :
    ℤ → Text → QueryResult → Option ℤ → List Text → MemoryCache → MemoryCache
get_around_set now k v ttl tags c =
    let (value, expired, storage) = read_storage now k c.storage in
    let c' = register_tags k tags (set now k v ttl (record c { storage = storage })) in
    record c' { tag_index = drop_tags expired k c'.tag_index }

expired_read :
    (now : ℤ) (k : Text) (old : CacheEntry) (m : Map CacheEntry)
    → find k m ≡ some old
    → is_expired now old ≡ true
    → read_storage now k m ≡ (none, true, erase k m)
unfolding read_storage
expired_read now k old m stored gone = rw (stored, read_storage) (rw gone)

-- The cache that this order leaves behind.
abbrev fresh : ℤ → Text → QueryResult → Option ℤ → List Text → MemoryCache → MemoryCache
fresh now k v ttl tags c = record {
  storage = assign k (record { value = v; expires_at = expiry now ttl }) (erase k c.storage);
  tag_index = Tags.unregister (Tags.register_key c.tag_index k tags) k;
}

around_eq :
    (now : ℤ) (k : Text) (old : CacheEntry) (v : QueryResult) (ttl : Option ℤ) (tags : List Text)
    (c : MemoryCache)
    → read_storage now k c.storage ≡ (none, true, erase k c.storage)
    → get_around_set now k v ttl tags c ≡ fresh now k v ttl tags c
unfolding set register_tags drop_tags
around_eq now k old v ttl tags c e = rw e

has_any_none :
    (idx : TagIndex) (tags : List Text) (k : Text)
    → ((t : Text) → has_key idx.tag_to_keys t k ≡ false)
    → has_any idx tags k ≡ false
unfolding has_any
has_any_none idx [] k h = refl
has_any_none idx (t ∷ tags) k h = rw (h t) (has_any_none idx tags k h)

-- In that order the fresh entry stays in the cache and has lost its tags: no `invalidate_tags`
-- removes it.
pub get_around_set_loses_tags :
    (now later : ℤ) (k : Text) (old : CacheEntry) (v : QueryResult) (ttl : Option ℤ)
    (tags others : List Text) (c : MemoryCache)
    → Inv c.tag_index
    → find k c.storage ≡ some old
    → is_expired now old ≡ true
    → (get later k (invalidate_tags others (get_around_set now k v ttl tags c))).0
      ≡ (get later k (set now k v ttl c)).0
get_around_set_loses_tags now later k old v ttl tags others c i stored gone =
    let read = expired_read now k old c.storage stored gone in
    let registered = register_key-Inv c.tag_index k tags i in
    let inv : Inv (Tags.unregister (Tags.register_key c.tag_index k tags) k) =
      unregister-Inv (Tags.register_key c.tag_index k tags) k registered in
    ap (λ x. (get later k (invalidate_tags others x)).0) (around_eq now k old v ttl tags c read)
    ∙ (get-invalidate_tags later others k (fresh now k v ttl tags c) inv).1
    ∙ rw
        (has_any_none (Tags.unregister (Tags.register_key c.tag_index k tags) k) others k
          (λ t. untagged t registered))
        (ground (
          arith,
          get-visible later k (fresh now k v ttl tags c),
          get-set now later k k v ttl c,
          is_expired-expiry now later ttl v,
          text_eq_refl k,
          find-assign k k (record { value = v; expires_at = expiry now ttl }) (erase k c.storage),
        ))
  where
    untagged :
        (t : Text)
        → Inv (Tags.register_key c.tag_index k tags)
        → has_key (Tags.unregister (Tags.register_key c.tag_index k tags) k).tag_to_keys t k ≡ false
    untagged t r =
        has_key-unregister (Tags.register_key c.tag_index k tags) k t k r ∙ rw (text_eq_refl k)
