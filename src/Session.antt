-- ===== src/Session.antt =====
-- include/metal/unit_of_work.hpp: `UnitOfWork`, its tracked entities and its checkpoints. A key is the
-- number of an object, and `F` is what the object holds; the map of tracked entities is a function.
-- The callbacks of a tracked entity are there: `snapshot` reads the object and `restore_snapshot`
-- writes it. Session.Flush is `flush`.
pub mod Rollback
pub mod Flush
pub mod Touches
pub mod Settled
pub mod Twice
mod Tests
mod FlushTests
use metal_orm_cpp.Base.{
  ℕ, Bool, true, false, not, Option, none, some, List, [], ◌∷◌, ◌++◌, if◌then◌else◌, ◌==◌,
}

-- `EntityStatus`.
pub data Status : Type 0 where
  new_entity : Status
  managed : Status
  removed : Status
  detached : Status

pub record Tracked (F : Type 0) : Type 0 where
  pub status : Status
  pub original : F

pub record Entry (F : Type 0) : Type 0 where
  pub existed : Bool
  pub tracked : Tracked F
  pub current : F

pub record Checkpoint (F : Type 0) : Type 0 where
  pub entries : ℕ → Option (Entry F)
  pub order : List ℕ

pub record UnitOfWork (F : Type 0) : Type 0 where
  pub tracked : ℕ → Option (Tracked F)
  pub order : List ℕ
  pub checkpoints : List (Checkpoint F)
  pub objects : ℕ → F

unfoldable pub has : ℕ → List ℕ → Bool
has k [] = false
has k (j ∷ js) = if j == k then true else has k js

unfoldable pub without : ℕ → List ℕ → List ℕ
without k [] = []
without k (j ∷ js) = let rest = without k js in if j == k then rest else j ∷ rest

-- The map with `k` at `x`.
unfoldable pub put : {A : Type 0} → ℕ → A → (ℕ → A) → ℕ → A
put k x m j = if k == j then x else m j

module _ {F : Type 0} where
  unfoldable pub capture_entry : Bool → Tracked F → F → Entry F
  capture_entry existed t now = record { existed = existed; tracked = t; current = now }

  -- One checkpoint's part of `track`.
  unfoldable pub cover : ℕ → Tracked F → F → Checkpoint F → Checkpoint F
  unfolding put capture_entry
  cover k t now c = elim (c.entries k) [
    | some e ↦ c
    | none ↦ record c { entries = put k (some (capture_entry false t now)) c.entries }
  ]

  unfoldable pub cover_all : ℕ → Tracked F → F → List (Checkpoint F) → List (Checkpoint F)
  unfolding cover
  cover_all k t now [] = []
  cover_all k t now (c ∷ cs) = cover k t now c ∷ cover_all k t now cs

  unfoldable pub track : ℕ → Tracked F → UnitOfWork F → UnitOfWork F
  unfolding cover_all put
  track k t u = record {
    checkpoints = cover_all k t (u.objects k) u.checkpoints;
    tracked = put k (some t) u.tracked;
    order = elim (u.tracked k) [ some _ ↦ u.order | none ↦ u.order ++ k ∷ [] ];
    objects = u.objects;
  }

  -- `erase`.
  unfoldable pub untrack : ℕ → UnitOfWork F → UnitOfWork F
  unfolding put without
  untrack k u = record u { tracked = put k none u.tracked; order = without k u.order }

  unfoldable pub refresh_snapshot : ℕ → UnitOfWork F → UnitOfWork F
  unfolding put
  refresh_snapshot k u = elim (u.tracked k) [
    | none ↦ u
    | some t ↦ record u { tracked = put k (some (record t { original = u.objects k })) u.tracked }
  ]

  -- What `begin_checkpoint` captures of a key.
  unfoldable pub captured : UnitOfWork F → ℕ → Option (Entry F)
  unfolding has capture_entry
  captured u k =
      if has k u.order
      then elim (u.tracked k) [ none ↦ none | some t ↦ some (capture_entry true t (u.objects k)) ]
      else none

  unfoldable pub begin_checkpoint : UnitOfWork F → UnitOfWork F
  unfolding captured
  begin_checkpoint u = record u {
    checkpoints = record { entries = captured u; order = u.order } ∷ u.checkpoints;
  }

  -- `commit_checkpoint` and `rollback_checkpoint`; none where they throw. The loop over the entries
  -- treats each key once.
  unfoldable pub commit_checkpoint : UnitOfWork F → Option (UnitOfWork F)
  commit_checkpoint u = elim u.checkpoints [
    | [] ↦ none
    | c ∷ cs ↦ some (record u { checkpoints = cs })
  ]

  unfoldable pub restored_entity : Option (Entry F) → Option (Tracked F) → Option (Tracked F)
  restored_entity none t = t
  restored_entity (some e) t = if e.existed then some e.tracked else none

  unfoldable pub restored_object : Option (Entry F) → F → F
  restored_object none now = now
  restored_object (some e) now = e.current

  unfoldable pub restore_from : Checkpoint F → List (Checkpoint F) → UnitOfWork F → UnitOfWork F
  unfolding restored_entity restored_object
  restore_from c cs u = record {
    tracked = λ k. restored_entity (c.entries k) (u.tracked k);
    order = c.order;
    checkpoints = cs;
    objects = λ k. restored_object (c.entries k) (u.objects k);
  }

  unfoldable pub rollback_checkpoint : UnitOfWork F → Option (UnitOfWork F)
  unfolding restore_from
  rollback_checkpoint u = elim u.checkpoints [ [] ↦ none | c ∷ cs ↦ some (restore_from c cs u) ]
