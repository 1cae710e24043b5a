-- ===== src/Session/Tests.antt =====
-- A run of a checkpoint, and its theorem at that run.
use metal_orm_cpp.Base.{
  ℕ, ◌≡◌, ◌≢◌, refl, Option, none, some, List, [], ◌∷◌, if◌then◌else◌, ◌==◌, Bool-cases, inl, inr,
}
use metal_orm_cpp.Session.{
  Tracked, managed, new_entity, removed, UnitOfWork, has, begin_checkpoint, rollback_checkpoint,
}
use metal_orm_cpp.Session.Rollback.{
  do_track, do_untrack, do_refresh, do_assign, Action, perform_all, IsOrdered, rollback-begin,
}

abbrev first : Tracked ℕ
first = record { status = managed; original = 10 }

abbrev only_first : ℕ → Option (Tracked ℕ)
only_first k = if 1 == k then some first else none

abbrev before : UnitOfWork ℕ
before = record { tracked = only_first; order = 1 ∷ []; checkpoints = []; objects = λ k. 11 }

-- The first entity is changed and erased, and a second one comes and goes with it.
abbrev acts : List (Action ℕ)
acts =
    do_assign 1 99
    ∷ do_refresh 1
    ∷ do_track 2 (record { status = new_entity; original = 0 })
    ∷ do_untrack 1
    ∷ do_track 1 (record { status = removed; original = 5 })
    ∷ []

before-IsOrdered : IsOrdered before
unfolding has
before-IsOrdered k n = elim (Bool-cases (1 == k)) [
  | inl h ↦ rw h refl
  | inr h ↦ absurd (n (rw h refl))
]

rollback-begin_example :
    (v : UnitOfWork ℕ) × (rollback_checkpoint (perform_all acts (begin_checkpoint before)) ≡ some v)
    × (v.order ≡ 1 ∷ [])
    × ((k : ℕ) → v.tracked k ≡ only_first k)
    × ((k : ℕ) → only_first k ≢ none → v.objects k ≡ 11)
rollback-begin_example = rollback-begin before acts before-IsOrdered
