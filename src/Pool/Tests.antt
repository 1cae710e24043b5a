-- ===== src/Pool/Tests.antt =====
-- Runs of the pool on concrete threads, and its theorems at concrete systems.
use metal_orm_cpp.Base.{ℕ, ◌+◌, ◌≤◌, ◌≡◌, refl, true, false, Option, some, [], ◌∷◌, length, arith}
use metal_orm_cpp.Pool.{PoolOptions, State, is_ready, admit, unlease, reap}
use metal_orm_cpp.Pool.Threads.{
  resting, contending, waiting, holding, after_admit, enter, System, act, Reachable, begin,
  then_step,
}
use metal_orm_cpp.Pool.Counters.{sum, leases, creations}
use metal_orm_cpp.Pool.Signals.{waits, supply, bells, buried, Awake}
use metal_orm_cpp.Pool.Inv.{Inv, Reachable-Inv}
use metal_orm_cpp.Pool.Wake.{waiting-is_ready, lease_destroy_loses_wakeup}
use metal_orm_cpp.Pool.Ownership.{count, owns, Owned, Reachable-Owned}
use metal_orm_cpp.Pool.Reap.{reap_lem}
use metal_orm_cpp.Pool.Warm.{warm_minimum, warm_minimum_lem}

abbrev single : PoolOptions
single = record { max = 1; min = 0; idle_timeout = 100 }

-- The resource 5 is leased, and a second thread calls `acquire`.
abbrev full : State
full = record { idle = []; creating = 0; leased = 1; destroyed = false }

abbrev start : System
start = record { state = full; tasks = holding 5 ∷ contending ∷ []; made = 5 ∷ []; gone = [] }

abbrev blocked : System
blocked = record { state = full; tasks = holding 5 ∷ waiting ∷ []; made = 5 ∷ []; gone = [] }

start-blocked : Reachable single false start blocked
unfolding admit after_admit
start-blocked = then_step begin (act (holding 5 ∷ []) [] enter)

start-Inv : Inv 1 full (holding 5 ∷ contending ∷ [])
unfolding sum leases creations
start-Inv = record { leased = refl; creating = refl; capacity = omega arith; emptied = λ e. refl }

start-Awake : Awake 1 full (holding 5 ∷ contending ∷ [])
unfolding sum waits supply bells buried
start-Awake = record {
  alive = λ h m. omega arith;
  shut = λ h m. omega (arith, m);
  none_buried = refl;
}

Reachable-Inv_example : Inv 1 full (holding 5 ∷ waiting ∷ [])
Reachable-Inv_example = Reachable-Inv single false start blocked start-Inv start-blocked

waiting-is_ready_example : is_ready 1 full ≡ false
unfolding sum waits supply
waiting-is_ready_example =
    waiting-is_ready single start blocked start-Inv start-Awake start-blocked (omega arith) refl

lease_destroy_loses_wakeup_example :
    let end : System = record {
      state = unlease full;
      tasks = resting ∷ waiting ∷ [];
      made = 5 ∷ [];
      gone = 5 ∷ [];
    } in
    Reachable single true blocked end
    × (is_ready 1 (unlease full) ≡ true)
    × (sum supply end.tasks ≡ 0)
lease_destroy_loses_wakeup_example =
    lease_destroy_loses_wakeup single full 5 (5 ∷ []) [] refl refl (omega arith) refl

start-Owned : Owned 5 start
unfolding sum owns count
start-Owned = refl

Reachable-Owned_example : Owned 5 blocked
Reachable-Owned_example = Reachable-Owned single false 5 start blocked start-Owned start-blocked

abbrev stale : State
stale = record {
  idle =
      record { resource = 1; last_used_at = 10 }
      ∷ record { resource = 2; last_used_at = 950 }
      ∷ record { resource = 3; last_used_at = 20 }
      ∷ [];
  creating = 0;
  leased = 0;
  destroyed = false;
}

abbrev keep_one : PoolOptions
keep_one = record { max = 4; min = 1; idle_timeout = 100 }

-- At 1000, the resources 1 and 3 go; 2 has not timed out.
reap_run : (reap 1000 keep_one stale).0 ≡ 1 ∷ 3 ∷ []
unfolding reap
reap_run = refl

reap_lem_example :
    (length (reap 1000 keep_one stale).0 ≡ 2)
    × (length (reap 1000 keep_one stale).1.idle + length (reap 1000 keep_one stale).0 ≡ 3)
    × (1 ≤ length (reap 1000 keep_one stale).1.idle)
reap_lem_example = reap_lem 1000 keep_one stale

abbrev calls : ℕ → Option ℕ
calls k = some (k + 7)

warm_minimum_lem_example :
    (length (warm_minimum keep_one 0 calls).idle ≡ 1)
    × ((warm_minimum keep_one 0 calls).creating ≡ 0)
    × ((warm_minimum keep_one 0 calls).leased ≡ 0)
    × ((warm_minimum keep_one 0 calls).destroyed ≡ false)
warm_minimum_lem_example = warm_minimum_lem keep_one 0 calls (omega arith)
