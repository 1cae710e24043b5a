-- ===== src/Pool.antt =====
-- include/metal/pool.hpp: `Pool::State` and each block of `Pool` that runs under the state's mutex, as
-- one function. A resource is the number of its `unique_ptr`; instants are milliseconds, and the
-- clock's value is an argument.
pub mod Threads
pub mod Counters
pub mod Local
pub mod Inv
pub mod Signals
pub mod Alerts
pub mod Wake
pub mod Ownership
pub mod Reap
pub mod Warm
mod Tests
use metal_orm_cpp.Base.{
  ℕ, zero, suc, ◌+◌, ◌-◌, Bool, true, false, ◌||◌, ◌&&◌, Option, none, some, List, [], ◌∷◌, ◌++◌,
  map, if◌then◌else◌, ltb, leb, ◌==◌, length, Result, ok, err,
}

pub record PoolOptions : Type 0 where
  pub max : ℕ
  pub min : ℕ
  pub idle_timeout : ℕ

pub data PoolError : Type 0 where
  max_must_be_positive : PoolError

-- `normalize_options`.
unfoldable pub normalize_options : PoolOptions → Result PoolError PoolOptions
normalize_options o =
    if o.max == 0
    then err max_must_be_positive
    else ok (record o { min = if ltb o.max o.min then o.max else o.min })

pub record IdleEntry : Type 0 where
  pub resource : ℕ
  pub last_used_at : ℕ

pub record State : Type 0 where
  pub idle : List IdleEntry
  pub creating : ℕ
  pub leased : ℕ
  pub destroyed : Bool

abbrev pub total_live : State → ℕ
total_live s = length s.idle + s.leased + s.creating

-- `idle.back()` and `idle.pop_back()`: the other entries, and the last.
unfoldable pub pop_back : IdleEntry → List IdleEntry → List IdleEntry × IdleEntry
pop_back e [] = ([], e)
pop_back e (f ∷ es) = let (rest, last) = pop_back f es in (e ∷ rest, last)

-- The condition that `acquire` waits for.
unfoldable pub is_ready : ℕ → State → Bool
is_ready max s = s.destroyed || (elim s.idle [ [] ↦ ltb (total_live s) max | e ∷ es ↦ true ])

-- The first block of `acquire`: what the thread does next.
pub data Admission : Type 0 where
  closed : Admission
  reuse : ℕ → Admission
  create_new : Admission
  wait : Admission

unfoldable pub admit_idle : ℕ → State → List IdleEntry → Admission × State
unfolding pop_back
admit_idle max s [] =
    if ltb (total_live s) max
    then (create_new, record s { creating = suc s.creating })
    else (wait, s)
admit_idle max s (e ∷ es) =
    let (rest, last) = pop_back e es in
    (reuse last.resource, record s { idle = rest; leased = suc s.leased })

unfoldable pub admit : ℕ → State → Admission × State
unfolding admit_idle
admit max s = if s.destroyed then (closed, s) else admit_idle max s s.idle

-- `--leased`, where `validate` threw or refused, and in `destroy_leased_resource`.
unfoldable pub unlease : State → State
unlease s = record s { leased = s.leased - 1 }

-- After a successful validation: whether the pool is destroyed, and the state.
unfoldable pub confirm : State → Bool × State
unfolding unlease
confirm s = (s.destroyed, if s.destroyed then unlease s else s)

-- `--creating`, where `create` failed.
unfoldable pub uncreate : State → State
uncreate s = record s { creating = s.creating - 1 }

-- After `create` succeeded.
unfoldable pub enlist : State → Bool × State
unfolding uncreate
enlist s =
    (s.destroyed, if s.destroyed then uncreate s else record (uncreate s) { leased = suc s.leased })

-- `release_resource`'s block: whether the caller destroys the resource, and the state.
unfoldable pub release : ℕ → ℕ → State → Bool × State
unfolding unlease
release now r s = (
  s.destroyed,
  if s.destroyed
      then unlease s
      else record (unlease s) { idle = s.idle ++ record { resource = r; last_used_at = now } ∷ [] },
)

abbrev pub resources : List IdleEntry → List ℕ
resources [] = []
resources (e ∷ es) = e.resource ∷ resources es

-- `destroy`'s block: nothing more to do, or the idle resources to destroy.
unfoldable pub close : State → Option (List ℕ) × State
close s =
    if s.destroyed
    then (none, s)
    else (some (resources s.idle), record s { idle = []; destroyed = true })

-- The reaper's loop over the idle entries: those that expire and those kept.
unfoldable pub reap_loop : ℕ → ℕ → ℕ → ℕ → List IdleEntry → List ℕ × List IdleEntry
reap_loop now timeout removable removed [] = ([], [])
reap_loop now timeout removable removed (e ∷ es) =
    let goes = leb (e.last_used_at + timeout) now && ltb removed removable in
    let (expired, keep) =
      reap_loop now timeout removable (if goes then suc removed else removed) es in
    if goes then (e.resource ∷ expired, keep) else (expired, e ∷ keep)

-- `idle.size() - min`, or 0 where that is negative, is how many may go.
unfoldable pub reap : ℕ → PoolOptions → State → List ℕ × State
unfolding reap_loop
reap now o s =
    let (expired, keep) = reap_loop now o.idle_timeout (length s.idle - o.min) 0 s.idle in
    (expired, record s { idle = keep })
