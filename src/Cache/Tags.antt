-- ===== src/Cache/Tags.antt =====
-- include/metal/cache_tag_index.hpp: `TagIndex`, two maps of sets. Each member function holds the
-- mutex throughout, so it is one step here.
pub mod Inv
pub mod Invalidation
use metal_orm_cpp.Base.{
  ℕ, Bool, true, false, ◌&&◌, ◌||◌, not, Option, none, some, List, [], ◌∷◌, ◌++◌, Text, text_eq,
  starts_with, if◌then◌else◌, Map, find, assign, erase, keys, contains, include, exclude, length,
}

pub record TagIndex : Type 0 where
  pub tag_to_keys : Map (List Text)
  pub key_to_tags : Map (List Text)

abbrev pub empty_index : TagIndex
empty_index = record { tag_to_keys = []; key_to_tags = [] }

-- `map[k]` of a map of sets: the set, or a new empty one.
unfoldable pub set_of : Text → Map (List Text) → List Text
set_of k m = elim (find k m) [ none ↦ [] | some s ↦ s ]

abbrev pub is_empty {ℓ} : {A : Type ℓ} → List A → Bool
is_empty [] = true
is_empty (x ∷ xs) = false

-- The loop of `register_key`: the tag map, and the tags of the key so far.
unfoldable pub register_loop :
    Text → List Text → Map (List Text) → List Text → Map (List Text) × List Text
register_loop key [] tag_to_keys key_tags = (tag_to_keys, key_tags)
register_loop key (tag ∷ tags) tag_to_keys key_tags =
    let skip = register_loop key tags tag_to_keys key_tags in
    let take_in =
      register_loop key tags (assign tag (include key (set_of tag tag_to_keys)) tag_to_keys)
        (include tag key_tags) in
    if is_empty tag then skip else take_in

unfoldable pub store_tags : Text → List Text → Map (List Text) → Map (List Text)
store_tags key key_tags m = if is_empty key_tags then erase key m else assign key key_tags m

unfoldable pub register_key : TagIndex → Text → List Text → TagIndex
unfolding register_loop store_tags
register_key idx key tags =
    let (tag_to_keys, key_tags) =
      register_loop key tags idx.tag_to_keys (set_of key idx.key_to_tags) in
    record { tag_to_keys = tag_to_keys; key_to_tags = store_tags key key_tags idx.key_to_tags }

-- One round of the loop of `unregister_locked`.
unfoldable pub drop_key : Text → Text → Map (List Text) → Map (List Text)
drop_key key tag tag_to_keys = elim (find tag tag_to_keys) [
  | none ↦ tag_to_keys
  | some s ↦
      if is_empty (exclude key s)
      then erase tag tag_to_keys
      else assign tag (exclude key s) tag_to_keys
]

unfoldable pub drop_key_everywhere : Text → List Text → Map (List Text) → Map (List Text)
unfolding drop_key
drop_key_everywhere key [] tag_to_keys = tag_to_keys
drop_key_everywhere key (tag ∷ tags) tag_to_keys =
    drop_key_everywhere key tags (drop_key key tag tag_to_keys)

-- `unregister` and `unregister_locked`.
unfoldable pub unregister : TagIndex → Text → TagIndex
unfolding drop_key_everywhere
unregister idx key = elim (find key idx.key_to_tags) [
  | none ↦ idx
  | some tags ↦ record {
    tag_to_keys = drop_key_everywhere key tags idx.tag_to_keys;
    key_to_tags = erase key idx.key_to_tags;
  }
]

unfoldable pub unregister_all : TagIndex → List Text → TagIndex
unfolding unregister
unregister_all idx [] = idx
unregister_all idx (key ∷ keys) = unregister_all (unregister idx key) keys

unfoldable pub keys_by_tag : TagIndex → Text → List Text
keys_by_tag idx tag = set_of tag idx.tag_to_keys

unfoldable pub tags_by_key : TagIndex → Text → List Text
tags_by_key idx key = set_of key idx.key_to_tags

-- `keys.insert(first, last)`
unfoldable pub include_all : List Text → List Text → List Text
include_all [] s = s
include_all (k ∷ ks) s = include_all ks (include k s)

-- The loop of `invalidate_tags` that collects the keys.
unfoldable pub keys_of_tags : TagIndex → List Text → List Text → List Text
unfolding include_all
keys_of_tags idx [] acc = acc
keys_of_tags idx (tag ∷ tags) acc =
    keys_of_tags idx tags (include_all (set_of tag idx.tag_to_keys) acc)

unfoldable pub invalidate_tags : TagIndex → List Text → List Text × TagIndex
unfolding keys_of_tags unregister_all
invalidate_tags idx tags = let keys = keys_of_tags idx tags [] in (keys, unregister_all idx keys)

unfoldable pub with_prefix : Text → List Text → List Text
with_prefix prefix [] = []
with_prefix prefix (k ∷ ks) =
    let rest = with_prefix prefix ks in if starts_with prefix k then k ∷ rest else rest

unfoldable pub invalidate_prefix : TagIndex → Text → List Text × TagIndex
unfolding with_prefix unregister_all
invalidate_prefix idx prefix =
    let found = with_prefix prefix (keys idx.key_to_tags) in (found, unregister_all idx found)

unfoldable pub all_tags : TagIndex → List Text
all_tags idx = keys idx.tag_to_keys

unfoldable pub all_keys : TagIndex → List Text
all_keys idx = keys idx.key_to_tags

unfoldable pub clear : TagIndex → TagIndex
clear idx = empty_index

pub record CacheStats : Type 0 where
  pub size : ℕ
  pub tags : ℕ

unfoldable pub stats : TagIndex → CacheStats
stats idx = record { size = length idx.key_to_tags; tags = length idx.tag_to_keys }
