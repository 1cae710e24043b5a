-- ===== src/Pool/Threads.antt =====
-- include/metal/pool.hpp: the threads around a `Pool`. A thread is what it still has to do before its
-- call returns; a step is one block under the mutex, one notification, or one call of the adapter.
-- The adapter is a parameter in the form of the steps it allows: `validate` and `create` may answer
-- or throw, and `destroy` throws only where `throws` is true.
use metal_orm_cpp.Base.{
  ℕ, ◌≡◌, Bool, true, false, Option, none, some, List, [], ◌∷◌, ◌++◌, if◌then◌else◌,
}
use metal_orm_cpp.Pool.{
  PoolOptions, State, Admission, closed, reuse, create_new, wait, is_ready, admit, unlease, confirm,
  uncreate, enlist, release, close, reap,
}

-- What follows a call of `destroy` that returned.
pub data Next : Type 0 where
  then_return : Next
  then_retry : Next
  then_signal : Next

pub data Task : Type 0 where
  resting : Task
  contending : Task
  waiting : Task
  validating : ℕ → Task
  making : Task
  holding : ℕ → Task
  signal_one : Task → Task
  signal_all : Task → Task
  dispose : ℕ → Next → Task
  dispose_quietly : ℕ → Task → Task

unfoldable pub after_destroy : Next → Task
after_destroy then_return = resting
after_destroy then_retry = contending
after_destroy then_signal = signal_one resting

-- What follows the first block of `acquire`.
unfoldable pub after_admit : Admission → Task
after_admit closed = resting
after_admit (reuse r) = validating r
after_admit create_new = making
after_admit wait = waiting

-- What follows the block behind a successful `validate`, and the one behind `create`: the lease, or
-- the exception of a destroyed pool.
unfoldable pub lease_unless : Bool → ℕ → Task
lease_unless destroyed r = if destroyed then signal_all (dispose r then_return) else holding r

unfoldable pub signal_created : Bool → ℕ → Task
signal_created destroyed r = signal_all (if destroyed then dispose r then_return else holding r)

unfoldable pub after_release : Bool → ℕ → Task
after_release destroyed r = if destroyed then dispose r then_signal else signal_one resting

unfoldable pub dispose_all : List ℕ → Task → Task
dispose_all [] t = t
dispose_all (r ∷ rs) t = dispose_quietly r (dispose_all rs t)

unfoldable pub after_close : Option (List ℕ) → Task
unfolding dispose_all
after_close none = resting
after_close (some rs) = signal_all (dispose_all rs resting)

-- The reaper sleeps again; it notifies the waiting threads only where something expired.
unfoldable pub after_reap : List ℕ → Task
unfolding dispose_all
after_reap [] = resting
after_reap (r ∷ rs) = dispose_all (r ∷ rs) (signal_all resting)

-- One step of one thread that leaves the other threads alone. `made` and `gone` are the resources
-- that `create` has returned and those that were given to `destroy`.
pub data Act (o : PoolOptions) (throws : Bool)
    : State → Task → State → Task → List ℕ → List ℕ → Type 0 where
  call_acquire : {s : State} → Act o throws s resting s contending [] []
  enter :
      {s : State}
      → Act o throws s contending (admit o.max s).1 (after_admit (admit o.max s).0) [] []
  wake : {s : State} → is_ready o.max s ≡ true → Act o throws s waiting s contending [] []
  time_out : {s : State} → is_ready o.max s ≡ false → Act o throws s waiting s resting [] []
  validate_throws :
      {s : State} {r : ℕ}
      → Act o throws s (validating r) (unlease s) (dispose_quietly r (signal_one resting)) [] []
  validate_refuses :
      {s : State} {r : ℕ}
      → Act o throws s (validating r) (unlease s) (signal_one (dispose r then_retry)) [] []
  validate_accepts :
      {s : State} {r : ℕ}
      → Act o throws s (validating r) (confirm s).1 (lease_unless (confirm s).0 r) [] []
  create_throws : {s : State} → Act o throws s making (uncreate s) (signal_all resting) [] []
  create_returns :
      {s : State} {r : ℕ}
      → Act o throws s making (enlist s).1 (signal_created (enlist s).0 r) (r ∷ []) []
  lease_release :
      {s : State} {r : ℕ} (now : ℕ)
      → Act o throws s (holding r) (release now r s).1 (after_release (release now r s).0 r) [] []
  lease_destroy :
      {s : State} {r : ℕ} → Act o throws s (holding r) (unlease s) (dispose r then_signal) [] []
  destroy_returns :
      {s : State} {r : ℕ} {n : Next} → Act o throws s (dispose r n) s (after_destroy n) [] (r ∷ [])
  destroy_throws :
      {s : State} {r : ℕ} {n : Next}
      → throws ≡ true
      → Act o throws s (dispose r n) s resting [] (r ∷ [])
  destroy_quietly :
      {s : State} {r : ℕ} {t : Task} → Act o throws s (dispose_quietly r t) s t [] (r ∷ [])
  call_destroy : {s : State} → Act o throws s resting (close s).1 (after_close (close s).0) [] []
  reaper_runs :
      {s : State} (now : ℕ)
      → s.destroyed ≡ false
      → Act o throws s resting (reap now o s).1 (after_reap (reap now o s).0) [] []

-- `notify_all`, and `notify_one` where somebody waits.
unfoldable pub woken : Task → Task
woken waiting = contending
woken t = t

unfoldable pub wake_all : List Task → List Task
wake_all [] = []
wake_all (t ∷ ts) = woken t ∷ wake_all ts

pub record System : Type 0 where
  pub state : State
  pub tasks : List Task
  pub made : List ℕ
  pub gone : List ℕ

pub data Step (o : PoolOptions) (throws : Bool) : System → System → Type 0 where
  act :
      {s s' : State} {t t' : Task} {new old made gone : List ℕ} (before after : List Task)
      → Act o throws s t s' t' new old
      → Step o throws
          (record { state = s; tasks = before ++ t ∷ after; made = made; gone = gone })
          (record {
            state = s';
            tasks = before ++ t' ∷ after;
            made = new ++ made;
            gone = old ++ gone;
          })
  notify_all :
      {s : State} {made gone : List ℕ} (t : Task) (before after : List Task)
      → Step o throws
          (record { state = s; tasks = before ++ signal_all t ∷ after; made = made; gone = gone })
          (record { state = s; tasks = wake_all (before ++ t ∷ after); made = made; gone = gone })
  notify_one :
      {s : State} {made gone : List ℕ} (t : Task) (before after left right : List Task)
      → before ++ t ∷ after ≡ left ++ waiting ∷ right
      → Step o throws
          (record { state = s; tasks = before ++ signal_one t ∷ after; made = made; gone = gone })
          (record { state = s; tasks = left ++ contending ∷ right; made = made; gone = gone })
  notify_nobody :
      {s : State} {made gone : List ℕ} (t : Task) (before after : List Task)
      → wake_all (before ++ t ∷ after) ≡ before ++ t ∷ after
      → Step o throws
          (record { state = s; tasks = before ++ signal_one t ∷ after; made = made; gone = gone })
          (record { state = s; tasks = before ++ t ∷ after; made = made; gone = gone })

-- The systems that a pool reaches from its warmed state, with any threads.
pub data Reachable (o : PoolOptions) (throws : Bool) (start : System) : System → Type 0 where
  begin : Reachable o throws start start
  then_step :
      {x y : System} → Reachable o throws start x → Step o throws x y → Reachable o throws start y
