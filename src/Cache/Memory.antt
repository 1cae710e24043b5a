-- ===== src/Cache/Memory.antt =====
-- include/metal/cache_memory.hpp: `MemoryCacheAdapter`. The clock is read once in a call, and its
-- value is an argument; times are integers without a limit. `get` takes the storage's mutex and then
-- the index's: it is two steps.
pub mod Laws
pub mod Race
use metal_orm_cpp.Base.{
  ℕ, Bool, true, false, Option, none, some, List, [], ◌∷◌, Text, if◌then◌else◌, Map, find, assign,
  erase, keys, length,
}
use metal_orm_cpp.Base.Int.{ℤ, pos, ◌+ℤ◌, ltb_ℤ, eqb_ℤ}
use metal_orm_cpp.Value.{QueryResult}
use metal_orm_cpp.Cache.Tags.{TagIndex, empty_index, CacheStats}
use metal_orm_cpp.Cache.Tags

pub record CacheEntry : Type 0 where
  pub value : QueryResult
  pub expires_at : Option ℤ

pub record MemoryCache : Type 0 where
  pub storage : Map CacheEntry
  pub tag_index : TagIndex

abbrev pub empty_cache : MemoryCache
empty_cache = record { storage = []; tag_index = empty_index }

unfoldable pub is_expired : ℤ → CacheEntry → Bool
is_expired now e = elim e.expires_at [ none ↦ false | some t ↦ ltb_ℤ t now ]

-- The part of `get` under the storage's mutex: the value, whether an entry has expired, and the
-- storage.
unfoldable pub read_storage : ℤ → Text → Map CacheEntry → Option QueryResult × Bool × Map CacheEntry
unfolding is_expired
read_storage now key storage = elim (find key storage) [
  | none ↦ (none, false, storage)
  | some e ↦
      if is_expired now e then (none, true, erase key storage) else (some e.value, false, storage)
]

-- The rest of `get`, behind the block.
unfoldable pub drop_tags : Bool → Text → TagIndex → TagIndex
drop_tags expired key idx = if expired then Tags.unregister idx key else idx

unfoldable pub get : ℤ → Text → MemoryCache → Option QueryResult × MemoryCache
unfolding read_storage drop_tags
get now key c =
    let (value, expired, storage) = read_storage now key c.storage in
    (value, record { storage = storage; tag_index = drop_tags expired key c.tag_index })

unfoldable pub has : ℤ → Text → MemoryCache → Bool × MemoryCache
unfolding get
has now key c = let (value, c') = get now key c in (elim value [ none ↦ false | some v ↦ true ], c')

-- `ttl` in milliseconds; none and 0 mean that the entry does not expire.
unfoldable pub expiry : ℤ → Option ℤ → Option ℤ
expiry now none = none
expiry now (some ttl) = if eqb_ℤ ttl (pos 0) then none else some (now +ℤ ttl)

unfoldable pub set : ℤ → Text → QueryResult → Option ℤ → MemoryCache → MemoryCache
set now key value ttl c = record c {
  storage = assign key (record { value = value; expires_at = expiry now ttl }) c.storage;
}

-- `delete_key`, and `invalidate`, which calls it.
unfoldable pub delete_key : Text → MemoryCache → MemoryCache
delete_key key c = record {
  storage = erase key c.storage;
  tag_index = Tags.unregister c.tag_index key;
}

unfoldable pub erase_all : List Text → Map CacheEntry → Map CacheEntry
erase_all [] m = m
erase_all (k ∷ ks) m = erase_all ks (erase k m)

unfoldable pub invalidate_tags : List Text → MemoryCache → MemoryCache
unfolding erase_all
invalidate_tags tags c =
    let (ks, idx) = Tags.invalidate_tags c.tag_index tags in
    record { storage = erase_all ks c.storage; tag_index = idx }

unfoldable pub delete_all : List Text → MemoryCache → MemoryCache
unfolding delete_key
delete_all [] c = c
delete_all (k ∷ ks) c = delete_all ks (delete_key k c)

unfoldable pub invalidate_prefix : Text → MemoryCache → MemoryCache
unfolding delete_all
invalidate_prefix prefix c = delete_all (Tags.with_prefix prefix (keys c.storage)) c

unfoldable pub register_tags : Text → List Text → MemoryCache → MemoryCache
register_tags key tags c = record c { tag_index = Tags.register_key c.tag_index key tags }

-- `clear_cache`, and `dispose`, which calls it.
unfoldable pub clear_cache : MemoryCache → MemoryCache
clear_cache c = record { storage = []; tag_index = Tags.clear c.tag_index }

unfoldable pub cache_stats : MemoryCache → CacheStats
unfolding Tags.stats
cache_stats c = record { size = length c.storage; tags = (Tags.stats c.tag_index).tags }
