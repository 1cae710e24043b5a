-- ===== src/Pool/Ownership.antt =====
-- include/metal/pool.hpp: where each resource is, from `create` to `destroy`.
use metal_orm_cpp.Base.{
  ℕ, suc, ◌+◌, ◌-◌, ◌≡◌, refl, subst, sym, ap, ◌∙◌, inl, inr, Bool, List, [], ◌∷◌, ◌++◌, length,
  arith, ltb, leb, ◌&&◌, Bool-cases, if◌then◌else◌, ◌==◌,
}
use metal_orm_cpp.Pool.{
  closed, PoolOptions, IdleEntry, State, total_live, pop_back, admit_idle, admit, unlease, confirm,
  uncreate, enlist, release, close, reap_loop, reap, resources,
}
use metal_orm_cpp.Pool.Threads.{
  Task, resting, contending, waiting, validating, making, holding, signal_one, signal_all, dispose,
  dispose_quietly, after_admit, lease_unless, signal_created, after_release, dispose_all,
  after_close, after_reap, Act, Next, then_return, then_retry, then_signal, after_destroy,
  call_acquire, enter, wake, time_out, validate_throws, validate_refuses, validate_accepts,
  create_throws, create_returns, lease_release, lease_destroy, destroy_returns, destroy_throws,
  destroy_quietly, call_destroy, reaper_runs, woken, System, Step, act, notify_all, notify_one,
  notify_nobody, Reachable, begin, then_step,
}
use metal_orm_cpp.Pool.Counters.{sum, sum-middle, wake_all-sum}

unfoldable pub count : ℕ → List ℕ → ℕ
count r [] = 0
count r (x ∷ xs) = (if x == r then 1 else 0) + count r xs

-- How often a task has the resource `r`.
unfoldable pub owns : ℕ → Task → ℕ
owns r (validating x) = if x == r then 1 else 0
owns r (holding x) = if x == r then 1 else 0
owns r (signal_one t) = owns r t
owns r (signal_all t) = owns r t
owns r (dispose x n) = if x == r then 1 else 0
owns r (dispose_quietly x t) = (if x == r then 1 else 0) + owns r t
owns r t = 0

count-append : (r : ℕ) (xs ys : List ℕ) → count r (xs ++ ys) ≡ count r xs + count r ys
unfolding count
count-append r [] ys = omega arith
count-append r (x ∷ xs) ys = omega (arith, count-append r xs ys)

count-pop_back :
    (r : ℕ) (e : IdleEntry) (es : List IdleEntry)
    → count r (resources (pop_back e es).0) + (if (pop_back e es).1.resource == r then 1 else 0)
      ≡ count r (resources (e ∷ es))
unfolding pop_back count
count-pop_back r e [] = omega arith
count-pop_back r e (f ∷ es) = omega (arith, count-pop_back r f es)

count-push_back :
    (r : ℕ) (es : List IdleEntry) (e : IdleEntry)
    → count r (resources (es ++ e ∷ []))
      ≡ count r (resources es) + (if e.resource == r then 1 else 0)
unfolding count
count-push_back r [] e = omega arith
count-push_back r (f ∷ es) e = omega (arith, count-push_back r es e)

count-reap_loop :
    (r now timeout removable removed : ℕ) (es : List IdleEntry)
    → count r (reap_loop now timeout removable removed es).0
        + count r (resources (reap_loop now timeout removable removed es).1)
      ≡ count r (resources es)
unfolding reap_loop count
count-reap_loop r now timeout removable removed [] = refl
count-reap_loop r now timeout removable removed (e ∷ es) =
    elim (Bool-cases (leb (e.last_used_at + timeout) now && ltb removed removable)) [
      | inl h ↦ rw h (omega (arith, count-reap_loop r now timeout removable (suc removed) es))
      | inr h ↦ rw h (omega (arith, count-reap_loop r now timeout removable removed es))
    ]

owns-dispose_all :
    (r : ℕ) (rs : List ℕ) (t : Task) → owns r (dispose_all rs t) ≡ count r rs + owns r t
unfolding dispose_all owns count
owns-dispose_all r [] t = omega arith
owns-dispose_all r (x ∷ rs) t = omega (arith, owns-dispose_all r rs t)

owns-after_reap : (r : ℕ) (rs : List ℕ) → owns r (after_reap rs) ≡ count r rs
unfolding after_reap owns count
owns-after_reap r [] = refl
owns-after_reap r (x ∷ rs) =
    owns-dispose_all r (x ∷ rs) (signal_all resting) ∙ unfold owns count in omega arith

owns-after_destroy : (r : ℕ) (n : Next) → owns r (after_destroy n) ≡ 0
unfolding after_destroy owns
owns-after_destroy r then_return = refl
owns-after_destroy r then_retry = refl
owns-after_destroy r then_signal = refl

owns-woken : (r : ℕ) (t : Task) → owns r (woken t) ≡ owns r t
unfolding owns woken
owns-woken r resting = refl
owns-woken r contending = refl
owns-woken r waiting = refl
owns-woken r (validating x) = refl
owns-woken r making = refl
owns-woken r (holding x) = refl
owns-woken r (signal_one t) = refl
owns-woken r (signal_all t) = refl
owns-woken r (dispose x n) = refl
owns-woken r (dispose_quietly x t) = refl

-- What one thread and the idle list have of `r`.
abbrev here : ℕ → State → Task → ℕ
here r s t = count r (resources s.idle) + owns r t

admit_idle-here :
    (r max : ℕ) (s : State) (es : List IdleEntry)
    → s.idle ≡ es
    → here r (admit_idle max s es).1 (after_admit (admit_idle max s es).0)
      ≡ count r (resources s.idle)
unfolding admit_idle after_admit owns
admit_idle-here r max s [] e = elim (Bool-cases (ltb (total_live s) max)) [
  | inl h ↦ rw (h, admit_idle) (omega arith)
  | inr h ↦ rw (h, admit_idle) (omega arith)
]
admit_idle-here r max s (f ∷ es) e = count-pop_back r f es ∙ ap (λ x. count r (resources x)) (sym e)

admit-here :
    (r max : ℕ) (s : State)
    → here r (admit max s).1 (after_admit (admit max s).0) ≡ count r (resources s.idle)
unfolding admit
admit-here r max s = elim (Bool-cases s.destroyed) [
  | inl h ↦
      subst (λ x. here r x.1 (after_admit x.0) ≡ count r (resources s.idle))
        (ap (λ c. if c then (closed, s) else admit_idle max s s.idle) (sym h))
        (unfold after_admit owns in omega arith)
  | inr h ↦
      subst (λ x. here r x.1 (after_admit x.0) ≡ count r (resources s.idle))
        (ap (λ c. if c then (closed, s) else admit_idle max s s.idle) (sym h))
        (admit_idle-here r max s s.idle refl)
]

Act-here :
    (o : PoolOptions) (throws : Bool) (r : ℕ) (s : State) (t : Task) (s' : State) (t' : Task)
    (new old : List ℕ)
    → Act o throws s t s' t' new old
    → here r s' t' + count r old ≡ here r s t + count r new
unfolding owns count unlease uncreate
Act-here o throws r s _ _ _ _ _ call_acquire = refl
Act-here o throws r s _ _ _ _ _ enter = omega (arith, admit-here r o.max s)
Act-here o throws r s _ _ _ _ _ (wake h) = refl
Act-here o throws r s _ _ _ _ _ (time_out h) = refl
Act-here o throws r s _ _ _ _ _ validate_throws = omega arith
Act-here o throws r s _ _ _ _ _ validate_refuses = omega arith
Act-here o throws r s _ _ _ _ _ validate_accepts = elim (Bool-cases s.destroyed) [
  | inl h ↦ unfold confirm lease_unless in rw (h, confirm, lease_unless) (omega arith)
  | inr h ↦ unfold confirm lease_unless in rw (h, confirm, lease_unless) (omega arith)
]
Act-here o throws r s _ _ _ _ _ create_throws = omega arith
Act-here o throws r s _ _ _ _ _ create_returns = elim (Bool-cases s.destroyed) [
  | inl h ↦ unfold enlist signal_created in rw (h, enlist, signal_created) (omega arith)
  | inr h ↦ unfold enlist signal_created in rw (h, enlist, signal_created) (omega arith)
]
Act-here o throws r s _ _ _ _ _ (lease_release {r = x} now) = elim (Bool-cases s.destroyed) [
  | inl h ↦ unfold release after_release in rw (h, release, after_release) (omega arith)
  | inr h ↦
      unfold release after_release in
      rw (h, release, after_release)
        (omega (arith, count-push_back r s.idle (record { resource = x; last_used_at = now })))
]
Act-here o throws r s _ _ _ _ _ lease_destroy = omega arith
Act-here o throws r s _ _ _ _ _ (destroy_returns {n = n}) = omega (arith, owns-after_destroy r n)
Act-here o throws r s _ _ _ _ _ (destroy_throws h) = omega arith
Act-here o throws r s _ _ _ _ _ destroy_quietly = omega arith
Act-here o throws r s _ _ _ _ _ call_destroy = elim (Bool-cases s.destroyed) [
  | inl h ↦ unfold close after_close in rw (h, close, after_close) (omega arith)
  | inr h ↦
      unfold close after_close in
      rw (h, close, after_close) (omega (arith, owns-dispose_all r (resources s.idle) resting))
]
Act-here o throws r s _ _ _ _ _ (reaper_runs now h) =
    unfold reap in
    omega (
      arith,
      owns-after_reap r (reap now o s).0,
      count-reap_loop r now o.idle_timeout (length s.idle - o.min) 0 s.idle,
    )

-- Each resource that `create` returned is idle, with one thread, or was given to `destroy`.
abbrev pub Owned : ℕ → System → Type 0
Owned r x =
    count r (resources x.state.idle) + sum (owns r) x.tasks + count r x.gone ≡ count r x.made

pub Step-Owned :
    (o : PoolOptions) (throws : Bool) (r : ℕ) (x y : System)
    → Step o throws x y
    → Owned r x
    → Owned r y
unfolding owns
Step-Owned o throws r _ _
      (act {s = s} {s' = s'} {t = t} {t' = t'} {new = new} {old = old} {made = made} {gone = gone}
        before after m)
      e =
    omega (
      arith,
      e,
      Act-here o throws r s t s' t' new old m,
      sum-middle (owns r) before t after,
      sum-middle (owns r) before t' after,
      count-append r new made,
      count-append r old gone,
    )
Step-Owned o throws r _ _ (notify_all t before after) e = omega (
  arith,
  e,
  wake_all-sum (owns r) (owns-woken r) (before ++ t ∷ after),
  sum-middle (owns r) before t after,
  sum-middle (owns r) before (signal_all t) after,
)
Step-Owned o throws r _ _ (notify_one t before after left right same) e = omega (
  arith,
  e,
  ap (sum (owns r)) same,
  sum-middle (owns r) before t after,
  sum-middle (owns r) before (signal_one t) after,
  sum-middle (owns r) left waiting right,
  sum-middle (owns r) left contending right,
)
Step-Owned o throws r _ _ (notify_nobody t before after same) e =
    omega (
      arith,
      e,
      sum-middle (owns r) before t after,
      sum-middle (owns r) before (signal_one t) after,
    )

-- In every system that a pool reaches from one where this holds of `r`: the resource `r` is idle, with
-- a thread or given to `destroy` as often in all as the adapter has created it.
pub Reachable-Owned :
    (o : PoolOptions) (throws : Bool) (r : ℕ) (start x : System)
    → Owned r start
    → Reachable o throws start x
    → Owned r x
Reachable-Owned o throws r start _ e begin = e
Reachable-Owned o throws r start _ e (then_step {x = x} {y = y} m step) =
    Step-Owned o throws r x y step (Reachable-Owned o throws r start x e m)
