-- ===== src/Cache/Tags/Invalidation.antt =====
-- What the operations that take keys out of a `TagIndex` return and leave.
use metal_orm_cpp.Base.{
  ◌≡◌, refl, ap, ◌∙◌, Bool, true, false, List, [], ◌∷◌, Text, text_eq_iff, arith, if◌then◌else◌,
  starts_with, keys, contains, contains-keys, contains-include, include,
}
use metal_orm_cpp.Cache.Tags.{
  TagIndex, set_of, unregister, unregister_all, include_all, keys_of_tags, invalidate_tags,
  with_prefix, invalidate_prefix,
}
use metal_orm_cpp.Cache.Tags.Inv.{Inv, has_key, has_tag, has_tag-unregister, unregister-Inv}

unregister_all-Inv : (idx : TagIndex) (ks : List Text) → Inv idx → Inv (unregister_all idx ks)
unfolding unregister_all
unregister_all-Inv idx [] v = v
unregister_all-Inv idx (k ∷ ks) v =
    unregister_all-Inv (unregister idx k) ks (unregister-Inv idx k v)

has_tag-unregister_all :
    (idx : TagIndex) (ks : List Text) (k tag : Text)
    → has_tag (unregister_all idx ks).key_to_tags k tag
      ≡ (if contains k ks then false else has_tag idx.key_to_tags k tag)
unfolding unregister_all contains
has_tag-unregister_all idx [] k tag = refl
has_tag-unregister_all idx (j ∷ ks) k tag =
    ground
      (arith, has_tag-unregister_all (unregister idx j) ks k tag, has_tag-unregister idx j k tag)

-- Some tag of the list is one of the key's.
unfoldable pub has_any : TagIndex → List Text → Text → Bool
has_any idx [] k = false
has_any idx (tag ∷ tags) k = if has_key idx.tag_to_keys tag k then true else has_any idx tags k

contains-include_all :
    (k : Text) (ks s : List Text)
    → contains k (include_all ks s) ≡ (if contains k ks then true else contains k s)
unfolding include_all contains
contains-include_all k [] s = refl
contains-include_all k (j ∷ ks) s =
    ground (arith, contains-include_all k ks (include j s), contains-include j k s)

if_self : (b : Bool) → (if b then true else false) ≡ b
if_self b = ground arith

contains-keys_of_tags :
    (idx : TagIndex) (tags acc : List Text) (k : Text)
    → contains k (keys_of_tags idx tags acc) ≡ (if has_any idx tags k then true else contains k acc)
unfolding keys_of_tags has_any has_key
contains-keys_of_tags idx [] acc k = refl
contains-keys_of_tags idx (tag ∷ tags) acc k = ground (
  arith,
  contains-keys_of_tags idx tags (include_all (set_of tag idx.tag_to_keys) acc) k,
  contains-include_all k (set_of tag idx.tag_to_keys) acc,
)

-- `invalidate_tags` returns exactly the keys that have one of the tags, takes all tags from those
-- keys, and leaves every other key its tags; the two maps still agree.
pub invalidate_tags_lem :
    (idx : TagIndex) (tags : List Text)
    → Inv idx
    → let (ks, idx') = invalidate_tags idx tags in
      Inv idx'
      × ((k : Text) → contains k ks ≡ has_any idx tags k)
      × ((k tag : Text)
          → has_tag idx'.key_to_tags k tag
            ≡ (if has_any idx tags k then false else has_tag idx.key_to_tags k tag))
unfolding invalidate_tags contains
invalidate_tags_lem idx tags v = (
  unregister_all-Inv idx (keys_of_tags idx tags []) v,
  λ k. found k,
  λ k tag.
      has_tag-unregister_all idx (keys_of_tags idx tags []) k tag
      ∙ ap (λ b. if b then false else has_tag idx.key_to_tags k tag) (found k),
)
  where
    found : (k : Text) → contains k (keys_of_tags idx tags []) ≡ has_any idx tags k
    found k = contains-keys_of_tags idx tags [] k ∙ if_self (has_any idx tags k)

pub contains-with_prefix :
    (prefix k : Text) (ks : List Text)
    → contains k (with_prefix prefix ks) ≡ (if starts_with prefix k then contains k ks else false)
unfolding with_prefix contains
contains-with_prefix prefix k [] = ground arith
contains-with_prefix prefix k (j ∷ ks) =
    ground (arith, contains-with_prefix prefix k ks, text_eq_iff j k)

-- `invalidate_prefix` takes all tags from exactly the keys that begin with the prefix.
pub invalidate_prefix_lem :
    (idx : TagIndex) (prefix : Text)
    → Inv idx
    → let idx' = (invalidate_prefix idx prefix).1 in
      Inv idx'
      × ((k tag : Text)
          → has_tag idx'.key_to_tags k tag
            ≡ (if starts_with prefix k then false else has_tag idx.key_to_tags k tag))
unfolding invalidate_prefix
invalidate_prefix_lem idx prefix v =
    (unregister_all-Inv idx (with_prefix prefix (keys idx.key_to_tags)) v, λ k tag. left k tag)
  where
    left :
        (k tag : Text)
        → has_tag (unregister_all idx (with_prefix prefix (keys idx.key_to_tags))).key_to_tags k tag
          ≡ (if starts_with prefix k then false else has_tag idx.key_to_tags k tag)
    left k tag =
        unfold has_tag set_of contains in
        ground (
          arith,
          has_tag-unregister_all idx (with_prefix prefix (keys idx.key_to_tags)) k tag,
          contains-with_prefix prefix k (keys idx.key_to_tags),
          contains-keys k idx.key_to_tags,
        )
