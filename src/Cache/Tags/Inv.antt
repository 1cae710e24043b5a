-- ===== src/Cache/Tags/Inv.antt =====
-- The two maps of a `TagIndex` agree, and hold no empty sets.
use metal_orm_cpp.Base.{
  ◌≡◌, ◌≢◌, refl, sym, ap, ◌∙◌, inl, inr, Bool, true, false, some, List, [], ◌∷◌, Text, text_eq,
  text_eq_iff, arith, if◌then◌else◌, ◌&&◌, not, Map, find, assign, erase, find-assign, find-erase,
  contains, include, exclude, contains-include, contains-exclude, Bool-cases, Option-cases,
}
use metal_orm_cpp.Cache.Tags.{
  TagIndex, set_of, is_empty, register_loop, store_tags, register_key, drop_key,
  drop_key_everywhere, unregister,
}

-- `key` is registered under `tag`, as each of the two maps has it.
unfoldable pub has_key : Map (List Text) → Text → Text → Bool
has_key tag_to_keys tag key = contains key (set_of tag tag_to_keys)

unfoldable pub has_tag : Map (List Text) → Text → Text → Bool
has_tag key_to_tags key tag = contains tag (set_of key key_to_tags)

pub record Inv (idx : TagIndex) : Type 0 where
  pub agree : (key tag : Text) → has_key idx.tag_to_keys tag key ≡ has_tag idx.key_to_tags key tag
  pub tags_in_use : (tag : Text) → find tag idx.tag_to_keys ≢ some []
  pub keys_in_use : (key : Text) → find key idx.key_to_tags ≢ some []
  pub no_empty_tag : (key : Text) → has_tag idx.key_to_tags key [] ≡ false

set_of-assign :
    (k j : Text) (s : List Text) (m : Map (List Text))
    → set_of j (assign k s m) ≡ (if text_eq k j then s else set_of j m)
unfolding set_of
set_of-assign k j s m = ground (arith, find-assign k j s m)

set_of-erase :
    (k j : Text) (m : Map (List Text))
    → set_of j (erase k m) ≡ (if text_eq k j then [] else set_of j m)
unfolding set_of
set_of-erase k j m = ground (arith, find-erase k j m)

set_of-drop_key :
    (key tag t : Text) (m : Map (List Text))
    → set_of t (drop_key key tag m)
      ≡ (if text_eq tag t then exclude key (set_of t m) else set_of t m)
unfolding drop_key set_of exclude
set_of-drop_key key tag t m = elim (Option-cases (find tag m)) [
  | inl e ↦ ground (arith, e, text_eq_iff tag t)
  | inr (s, e) ↦
      ground (arith, e, text_eq_iff tag t, find-assign tag t (exclude key s) m, find-erase tag t m)
]

pub has_key-drop_key_everywhere :
    (key : Text) (tags : List Text) (t k : Text) (m : Map (List Text))
    → has_key (drop_key_everywhere key tags m) t k ≡ (
        if contains t tags then (if text_eq key k then false else has_key m t k) else has_key m t k)
unfolding has_key drop_key_everywhere contains
has_key-drop_key_everywhere key [] t k m = refl
has_key-drop_key_everywhere key (tag ∷ tags) t k m = ground (
  arith,
  has_key-drop_key_everywhere key tags t k (drop_key key tag m),
  set_of-drop_key key tag t m,
  contains-exclude key k (set_of t m),
)

drop_key-in_use :
    (key tag t : Text) (m : Map (List Text))
    → find t m ≢ some []
    → find t (drop_key key tag m) ≢ some []
unfolding drop_key
drop_key-in_use key tag t m h = elim (Option-cases (find tag m)) [
  | inl e ↦ rw (e, drop_key) h
  | inr (s, e) ↦ ground (arith, e, find-assign tag t (exclude key s) m, find-erase tag t m)
]

drop_key_everywhere-in_use :
    (key : Text) (tags : List Text) (t : Text) (m : Map (List Text))
    → find t m ≢ some []
    → find t (drop_key_everywhere key tags m) ≢ some []
unfolding drop_key_everywhere
drop_key_everywhere-in_use key [] t m h = h
drop_key_everywhere-in_use key (tag ∷ tags) t m h =
    drop_key_everywhere-in_use key tags t (drop_key key tag m) (drop_key-in_use key tag t m h)

-- After `unregister` the key has no tag, in either map, and the other keys have theirs.
pub has_key-unregister :
    (idx : TagIndex) (key tag k : Text)
    → Inv idx
    → has_key (unregister idx key).tag_to_keys tag k
      ≡ (if text_eq key k then false else has_key idx.tag_to_keys tag k)
unfolding unregister
has_key-unregister idx key tag k v = elim (Option-cases (find key idx.key_to_tags)) [
  | inl e ↦
      rw (e, unregister)
        (unfold has_tag set_of contains in ground (arith, e, v.agree key tag, text_eq_iff key k))
  | inr (tags, e) ↦
      rw (e, unregister)
        (unfold has_tag set_of in
          ground (
            arith,
            e,
            v.agree key tag,
            text_eq_iff key k,
            has_key-drop_key_everywhere key tags tag k idx.tag_to_keys,
          ))
]

pub has_tag-unregister :
    (idx : TagIndex) (key k tag : Text)
    → has_tag (unregister idx key).key_to_tags k tag
      ≡ (if text_eq key k then false else has_tag idx.key_to_tags k tag)
unfolding unregister has_tag set_of contains
has_tag-unregister idx key k tag = elim (Option-cases (find key idx.key_to_tags)) [
  | inl e ↦ rw (e, unregister) (ground (arith, e, text_eq_iff key k))
  | inr (tags, e) ↦ rw (e, unregister) (ground (arith, find-erase key k idx.key_to_tags))
]

unregister-tags_in_use :
    (idx : TagIndex) (key tag : Text)
    → find tag idx.tag_to_keys ≢ some []
    → find tag (unregister idx key).tag_to_keys ≢ some []
unregister-tags_in_use idx key tag h = elim (Option-cases (find key idx.key_to_tags)) [
  | inl e ↦ unfold unregister in rw (e, unregister) h
  | inr (tags, e) ↦
      unfold unregister in
      rw (e, unregister) (drop_key_everywhere-in_use key tags tag idx.tag_to_keys h)
]

unregister-keys_in_use :
    (idx : TagIndex) (key k : Text)
    → find k idx.key_to_tags ≢ some []
    → find k (unregister idx key).key_to_tags ≢ some []
unregister-keys_in_use idx key k h = elim (Option-cases (find key idx.key_to_tags)) [
  | inl e ↦ unfold unregister in rw (e, unregister) h
  | inr (tags, e) ↦
      unfold unregister in rw (e, unregister) (ground (arith, find-erase key k idx.key_to_tags))
]

-- `unregister` keeps the two maps consistent: no dangling key stays in a tag's set, and a tag with no
-- key left is gone.
pub unregister-Inv : (idx : TagIndex) (key : Text) → Inv idx → Inv (unregister idx key)
unregister-Inv idx key v = record {
  agree = λ k tag.
      cc (has_key-unregister idx key tag k v, has_tag-unregister idx key k tag, v.agree k tag);
  tags_in_use = λ tag. unregister-tags_in_use idx key tag (v.tags_in_use tag);
  keys_in_use = λ k. unregister-keys_in_use idx key k (v.keys_in_use k);
  no_empty_tag = λ k. ground (arith, has_tag-unregister idx key k [], v.no_empty_tag k);
}

-- The loop of `register_key` over both of its variables.
register_loop-has_key :
    (key : Text) (tags : List Text) (m : Map (List Text)) (kt : List Text) (t k : Text)
    → has_key (register_loop key tags m kt).0 t k
      ≡ (if text_eq key k && contains t tags && not (is_empty t) then true else has_key m t k)
unfolding register_loop has_key contains
register_loop-has_key key [] m kt t k = ground arith
register_loop-has_key key (tag ∷ tags) m kt t k = ground (
  arith,
  register_loop-has_key key tags m kt t k,
  register_loop-has_key key tags (assign tag (include key (set_of tag m)) m) (include tag kt) t k,
  set_of-assign tag t (include key (set_of tag m)) m,
  contains-include key k (set_of tag m),
  text_eq_iff tag t,
)

register_loop-contains :
    (key : Text) (tags : List Text) (m : Map (List Text)) (kt : List Text) (t : Text)
    → contains t (register_loop key tags m kt).1
      ≡ (if contains t tags && not (is_empty t) then true else contains t kt)
unfolding register_loop contains
register_loop-contains key [] m kt t = ground arith
register_loop-contains key (tag ∷ tags) m kt t = ground (
  arith,
  register_loop-contains key tags m kt t,
  register_loop-contains key tags (assign tag (include key (set_of tag m)) m) (include tag kt) t,
  contains-include tag t kt,
  text_eq_iff tag t,
)

include-ne-nil : (k : Text) (s : List Text) → include k s ≢ []
unfolding include contains
include-ne-nil k [] h = cc
include-ne-nil k (j ∷ s) h = ground arith

register_loop-in_use :
    (key : Text) (tags : List Text) (m : Map (List Text)) (kt : List Text) (t : Text)
    → find t m ≢ some []
    → find t (register_loop key tags m kt).0 ≢ some []
unfolding register_loop
register_loop-in_use key [] m kt t h = h
register_loop-in_use key (tag ∷ tags) m kt t h = elim (Bool-cases (is_empty tag)) [
  | inl e ↦ rw e (register_loop-in_use key tags m kt t h)
  | inr e ↦ rw e (
      register_loop-in_use key tags (assign tag (include key (set_of tag m)) m) (include tag kt) t (
        ground (
          arith,
          find-assign tag t (include key (set_of tag m)) m,
          include-ne-nil key (set_of tag m),
        )))
]

set_of-store_tags :
    (key : Text) (kt : List Text) (m : Map (List Text)) (k : Text)
    → set_of k (store_tags key kt m) ≡ (if text_eq key k then kt else set_of k m)
unfolding store_tags
set_of-store_tags key [] m k = set_of-erase key k m
set_of-store_tags key (t ∷ kt) m k = set_of-assign key k (t ∷ kt) m

store_tags-in_use :
    (key : Text) (kt : List Text) (m : Map (List Text)) (k : Text)
    → find k m ≢ some []
    → find k (store_tags key kt m) ≢ some []
unfolding store_tags
store_tags-in_use key [] m k h = ground (arith, find-erase key k m)
store_tags-in_use key (t ∷ kt) m k h = ground (arith, find-assign key k (t ∷ kt) m)

-- After `register_key` the key has its former tags and those given, but the empty one.
pub has_tag-register_key :
    (idx : TagIndex) (key : Text) (tags : List Text) (k tag : Text)
    → has_tag (register_key idx key tags).key_to_tags k tag ≡ (
        if text_eq key k && contains tag tags && not (is_empty tag)
        then true
        else has_tag idx.key_to_tags k tag)
unfolding register_key has_tag
has_tag-register_key idx key tags k tag =
    let kt = set_of key idx.key_to_tags in
    ground (
      arith,
      text_eq_iff key k,
      set_of-store_tags key (register_loop key tags idx.tag_to_keys kt).1 idx.key_to_tags k,
      register_loop-contains key tags idx.tag_to_keys kt tag,
    )

pub has_key-register_key :
    (idx : TagIndex) (key : Text) (tags : List Text) (tag k : Text)
    → has_key (register_key idx key tags).tag_to_keys tag k ≡ (
        if text_eq key k && contains tag tags && not (is_empty tag)
        then true
        else has_key idx.tag_to_keys tag k)
unfolding register_key
has_key-register_key idx key tags tag k =
    register_loop-has_key key tags idx.tag_to_keys (set_of key idx.key_to_tags) tag k

-- `register_key` keeps the two maps consistent: they hold the same pairs of a key and a tag, no empty
-- set, and never the empty tag.
pub register_key-Inv :
    (idx : TagIndex) (key : Text) (tags : List Text) → Inv idx → Inv (register_key idx key tags)
register_key-Inv idx key tags v = record {
  agree = λ k tag.
      has_key-register_key idx key tags tag k
      ∙ ap (λ b. if text_eq key k && contains tag tags && not (is_empty tag) then true else b)
          (v.agree k tag)
      ∙ sym (has_tag-register_key idx key tags k tag);
  tags_in_use = λ tag.
      unfold register_key in
      register_loop-in_use key tags idx.tag_to_keys (set_of key idx.key_to_tags) tag
        (v.tags_in_use tag);
  keys_in_use =
      λ k. unfold register_key in store_tags-in_use key _ idx.key_to_tags k (v.keys_in_use k);
  no_empty_tag = λ k. no_empty k;
}
  where
    and_false : (a b : Bool) → (a && b && false) ≡ false
    and_false a b = ground arith

    no_empty : (k : Text) → has_tag (register_key idx key tags).key_to_tags k [] ≡ false
    no_empty k =
        has_tag-register_key idx key tags k []
        ∙ rw (and_false (text_eq key k) (contains [] tags)) (v.no_empty_tag k)
