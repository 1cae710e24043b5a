-- ===== src/Base/Maps.antt =====
-- `std::unordered_map` and `std::unordered_set` with string keys: the entries in some order, a key
-- once. No result of the source depends on the order, which the standard leaves open.
use mathlib.Core.Path.{◌≡◌, refl}
use mathlib.Core.Bool.{Bool, true, false}
use mathlib.Core.Option.{Option, none, some}
use mathlib.Core.List.{List, [], ◌∷◌}
use native.Mathlib.Omega.{arith}
use metal_orm_cpp.Base.Tests.{if◌then◌else◌}
use metal_orm_cpp.Base.Texts.{Text, text_eq, text_eq_iff}

abbrev pub Map {ℓ} : Type ℓ → Type ℓ
Map V = List (Text × V)

module _ {ℓ} {V : Type ℓ} where
  -- `m.find(k)`
  unfoldable pub find : Text → Map V → Option V
  find k [] = none
  find k ((j, v) ∷ m) = if text_eq j k then some v else find k m

  -- `m[k] = v`
  unfoldable pub assign : Text → V → Map V → Map V
  assign k v [] = (k, v) ∷ []
  assign k v ((j, w) ∷ m) = if text_eq j k then (k, v) ∷ m else (j, w) ∷ assign k v m

  -- `m.erase(k)`
  unfoldable pub erase : Text → Map V → Map V
  erase k [] = []
  erase k ((j, v) ∷ m) = let rest = erase k m in if text_eq j k then rest else (j, v) ∷ rest

  unfoldable pub keys : Map V → List Text
  keys [] = []
  keys ((j, v) ∷ m) = j ∷ keys m

  pub find-assign :
      (k j : Text) (v : V) (m : Map V)
      → find j (assign k v m) ≡ (if text_eq k j then some v else find j m)
  unfolding find assign
  find-assign k j v [] = refl
  find-assign k j v ((i, w) ∷ m) =
      ground (arith, text_eq_iff k j, text_eq_iff i k, text_eq_iff i j, find-assign k j v m)

  pub find-erase :
      (k j : Text) (m : Map V) → find j (erase k m) ≡ (if text_eq k j then none else find j m)
  unfolding find erase
  find-erase k j [] = ground arith
  find-erase k j ((i, w) ∷ m) =
      ground (arith, text_eq_iff k j, text_eq_iff i k, text_eq_iff i j, find-erase k j m)

-- `s.contains(k)`
unfoldable pub contains : Text → List Text → Bool
contains k [] = false
contains k (j ∷ s) = if text_eq j k then true else contains k s

-- `s.insert(k)`
unfoldable pub include : Text → List Text → List Text
unfolding contains
include k s = if contains k s then s else k ∷ s

-- `s.erase(k)`
unfoldable pub exclude : Text → List Text → List Text
exclude k [] = []
exclude k (j ∷ s) = let rest = exclude k s in if text_eq j k then rest else j ∷ rest

pub contains-include :
    (k j : Text) (s : List Text)
    → contains j (include k s) ≡ (if text_eq k j then true else contains j s)
unfolding include contains
contains-include k j s = ground (arith, text_eq_iff k j)

pub contains-exclude :
    (k j : Text) (s : List Text)
    → contains j (exclude k s) ≡ (if text_eq k j then false else contains j s)
unfolding exclude contains
contains-exclude k j [] = ground arith
contains-exclude k j (i ∷ s) =
    ground (arith, text_eq_iff k j, text_eq_iff i k, text_eq_iff i j, contains-exclude k j s)

-- The keys of a map, as a set.
pub contains-keys {ℓ} :
    {V : Type ℓ} (k : Text) (m : Map V)
    → contains k (keys m) ≡ elim (find k m) [ none ↦ false | some v ↦ true ]
unfolding find keys contains
contains-keys k [] = refl
contains-keys k ((j, v) ∷ m) = ground (arith, contains-keys k m)
