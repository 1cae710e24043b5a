-- ===== src/Cache/Memory/Laws.antt =====
-- What a reader of `MemoryCacheAdapter` sees after each call.
use metal_orm_cpp.Base.{
  ◌≡◌, ◌≢◌, refl, ◌∙◌, inl, inr, Bool, true, false, ◌||◌, not, Option, none, some, List, [], ◌∷◌,
  Text, text_eq, text_eq_iff, text_eq_refl, arith, if◌then◌else◌, Map, find, erase, keys,
  find-assign, find-erase, contains, contains-keys, starts_with, Bool-cases,
}
use metal_orm_cpp.Base.Int.{ℤ, pos, ◌+ℤ◌, ◌≤ℤ◌, leb_ℤ, eqb_ℤ}
use metal_orm_cpp.Value.{QueryResult}
use metal_orm_cpp.Cache.Tags.{TagIndex, is_empty}
use metal_orm_cpp.Cache.Tags
use metal_orm_cpp.Cache.Tags.Inv.{Inv, register_key-Inv, has_key, has_key-register_key}
use metal_orm_cpp.Cache.Tags.Invalidation.{has_any, invalidate_tags_lem, contains-with_prefix}
use metal_orm_cpp.Cache.Memory.{
  CacheEntry, MemoryCache, is_expired, read_storage, get, expiry, set, delete_key, erase_all,
  invalidate_tags, delete_all, invalidate_prefix, register_tags,
}

-- What `get` returns is read from the storage alone.
abbrev pub visible : ℤ → Option CacheEntry → Option QueryResult
visible now none = none
visible now (some e) = if is_expired now e then none else some e.value

pub get-visible :
    (now : ℤ) (k : Text) (c : MemoryCache) → (get now k c).0 ≡ visible now (find k c.storage)
unfolding get
get-visible now k c = ground arith

-- Whether what is stored at `now` is still served at `later`: for ever without a time to live or with
-- the time 0, else up to the last instant of its time, that instant included.
abbrev pub is_alive : ℤ → Option ℤ → ℤ → Bool
is_alive now none later = true
is_alive now (some ttl) later = eqb_ℤ ttl (pos 0) || leb_ℤ later (now +ℤ ttl)

pub is_expired-expiry :
    (now later : ℤ) (ttl : Option ℤ) (v : QueryResult)
    → is_expired later (record { value = v; expires_at = expiry now ttl })
      ≡ not (is_alive now ttl later)
unfolding is_expired expiry
is_expired-expiry now later none v = refl
is_expired-expiry now later (some ttl) v = elim (Bool-cases (eqb_ℤ ttl (pos 0))) [
  | inl e ↦ rw (e, is_expired)
  | inr e ↦ rw (e, is_expired) (ground arith)
]

-- After `set` with a time to live, `get` returns the value up to and including the instant at which
-- that time has passed, and nothing from then on; without one, or with the time 0, it returns the
-- value at any time. What `get` returns for the other keys does not change.
pub get-set :
    (now later : ℤ) (k j : Text) (v : QueryResult) (ttl : Option ℤ) (c : MemoryCache)
    → (get later j (set now k v ttl c)).0 ≡ (
        if text_eq k j
        then (if is_alive now ttl later then some v else none)
        else (get later j c).0)
unfolding set
get-set now later k j v ttl c =
    get-visible later j (set now k v ttl c)
    ∙ ground (
      arith,
      find-assign k j (record { value = v; expires_at = expiry now ttl }) c.storage,
      get-visible later j c,
      is_expired-expiry now later ttl v,
    )

-- Looking a key up changes nothing for a later look: the entry that it drops has expired for good.
pub get-get :
    (now later : ℤ) (k j : Text) (c : MemoryCache)
    → now ≤ℤ later
    → (get later j (get now k c).1).0 ≡ (get later j c).0
unfolding get read_storage is_expired
get-get now later k j c h = ground (arith, find-erase k j c.storage, text_eq_iff k j)

find-erase_all :
    (ks : List Text) (j : Text) (m : Map CacheEntry)
    → find j (erase_all ks m) ≡ (if contains j ks then none else find j m)
unfolding erase_all contains
find-erase_all [] j m = refl
find-erase_all (k ∷ ks) j m = ground (arith, find-erase_all ks j (erase k m), find-erase k j m)

-- After `invalidate_tags`, `get` finds none of the entries that are registered under one of the
-- tags, and every other entry as before; the tag index stays consistent.
pub get-invalidate_tags :
    (now : ℤ) (tags : List Text) (j : Text) (c : MemoryCache)
    → Inv c.tag_index
    → Inv (invalidate_tags tags c).tag_index
      × ((get now j (invalidate_tags tags c)).0
          ≡ (if has_any c.tag_index tags j then none else (get now j c).0))
unfolding invalidate_tags
get-invalidate_tags now tags j c v =
    let l = invalidate_tags_lem c.tag_index tags v in
    (
      l.0,
      get-visible now j (invalidate_tags tags c)
          ∙ ground (
            arith,
            find-erase_all (Tags.invalidate_tags c.tag_index tags).0 j c.storage,
            l.1 j,
            get-visible now j c,
          ),
    )

has_any_of_contains :
    (idx : TagIndex) (tags : List Text) (tag k : Text)
    → contains tag tags ≡ true
    → has_key idx.tag_to_keys tag k ≡ true
    → has_any idx tags k ≡ true
unfolding has_any contains
has_any_of_contains idx [] tag k c h = cc
has_any_of_contains idx (t ∷ tags) tag k c h =
    ground (arith, has_any_of_contains idx tags tag k, text_eq_iff t tag)

-- An entry that was cached under tags is gone after one of them has been invalidated.
pub get-invalidate_tags_registered :
    (now : ℤ) (k tag : Text) (tags others : List Text) (c : MemoryCache)
    → Inv c.tag_index
    → contains tag tags ≡ true
    → tag ≢ []
    → contains tag others ≡ true
    → (get now k (invalidate_tags others (register_tags k tags c))).0 ≡ none
get-invalidate_tags_registered now k tag tags others c v h ne o =
    let idx = Tags.register_key c.tag_index k tags in
    let c' = register_tags k tags c in
    unfold register_tags in
    ground (
      arith,
      (get-invalidate_tags now others k c'
          (unfold register_tags in register_key-Inv c.tag_index k tags v)).1,
      has_any_of_contains idx others tag k o (
          ground (
            arith,
            has_key-register_key c.tag_index k tags tag k,
            text_eq_refl k,
            nonempty tag ne,
          )),
    )
  where
    nonempty : (tag : Text) → tag ≢ [] → is_empty tag ≡ false
    nonempty [] h = absurd (h refl)
    nonempty (x ∷ xs) h = refl

get-delete_all :
    (now : ℤ) (ks : List Text) (j : Text) (c : MemoryCache)
    → (get now j (delete_all ks c)).0 ≡ (if contains j ks then none else (get now j c).0)
unfolding delete_all contains delete_key
get-delete_all now [] j c = refl
get-delete_all now (k ∷ ks) j c = ground (
  arith,
  get-delete_all now ks j (delete_key k c),
  get-visible now j (delete_key k c),
  get-visible now j c,
  find-erase k j c.storage,
)

-- `delete_key` removes the entry and every tag of the key, and nothing else.
pub get-delete_key :
    (now : ℤ) (k j : Text) (c : MemoryCache)
    → (get now j (delete_key k c)).0 ≡ (if text_eq k j then none else (get now j c).0)
unfolding delete_key
get-delete_key now k j c =
    ground
      (arith, get-visible now j (delete_key k c), get-visible now j c, find-erase k j c.storage)

-- After `invalidate_prefix`, `get` finds no entry whose key begins with the prefix, and every other
-- entry as before.
pub get-invalidate_prefix :
    (now : ℤ) (prefix j : Text) (c : MemoryCache)
    → (get now j (invalidate_prefix prefix c)).0
      ≡ (if starts_with prefix j then none else (get now j c).0)
unfolding invalidate_prefix
get-invalidate_prefix now prefix j c = ground (
  arith,
  get-delete_all now (Tags.with_prefix prefix (keys c.storage)) j c,
  contains-with_prefix prefix j (keys c.storage),
  contains-keys j c.storage,
  get-visible now j c,
)
