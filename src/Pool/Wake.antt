-- ===== src/Pool/Wake.antt =====
-- include/metal/pool.hpp: `acquire`'s wait on the condition variable loses no wake-up, as long as the
-- adapter's `destroy` does not throw in `Lease::destroy`.
use metal_orm_cpp.Base.{
  ℕ, ◌+◌, ◌≤◌, ◌≡◌, refl, sym, ap, ◌∙◌, inl, inr, true, false, List, [], ◌∷◌, ◌++◌, length, arith,
  Bool-cases,
}
use metal_orm_cpp.Pool.{is_ready, PoolOptions, IdleEntry, State, total_live, unlease}
use metal_orm_cpp.Pool.Threads.{
  Task, resting, contending, waiting, validating, making, holding, signal_one, signal_all, dispose,
  dispose_quietly, lease_destroy, destroy_throws, woken, wake_all, System, Step, act, notify_all,
  notify_one, notify_nobody, Reachable, begin, then_step,
}
use metal_orm_cpp.Pool.Counters.{sum, sum-middle, wake_all-sum}
use metal_orm_cpp.Pool.Signals.{waits, supply, bells, buried, LocalAlert, Awake, more, nobody}
use metal_orm_cpp.Pool.Alerts.{Act-Alert}
use metal_orm_cpp.Pool.Inv.{Inv, Reachable-Inv}

to_LocalAlert :
    (max : ℕ) (s : State) (t : Task) (before after : List Task)
    → Awake max s (before ++ t ∷ after)
    → LocalAlert max s t
        (sum waits before + sum waits after)
        (sum supply before + sum supply after)
        (sum bells before + sum bells after)
        (sum buried before + sum buried after)
to_LocalAlert max s t before after a = record {
  alive = λ h m. omega (
    arith,
    sum-middle waits before t after,
    sum-middle supply before t after,
    a.alive h (omega (arith, sum-middle waits before t after)),
  );
  shut = λ h m. omega (
    arith,
    sum-middle bells before t after,
    a.shut h (omega (arith, sum-middle waits before t after)),
  );
  none_buried = omega (arith, a.none_buried, sum-middle buried before t after);
}

from_LocalAlert :
    (max : ℕ) (s : State) (t : Task) (before after : List Task)
    → LocalAlert max s t
        (sum waits before + sum waits after)
        (sum supply before + sum supply after)
        (sum bells before + sum bells after)
        (sum buried before + sum buried after)
    → Awake max s (before ++ t ∷ after)
from_LocalAlert max s t before after a = record {
  alive = λ h m. omega (
    arith,
    sum-middle supply before t after,
    a.alive h (omega (arith, sum-middle waits before t after)),
  );
  shut = λ h m. omega (
    arith,
    sum-middle bells before t after,
    a.shut h (omega (arith, sum-middle waits before t after)),
  );
  none_buried = omega (arith, a.none_buried, sum-middle buried before t after);
}

waits-woken : (t : Task) → waits (woken t) ≡ 0
unfolding waits woken
waits-woken resting = refl
waits-woken contending = refl
waits-woken waiting = refl
waits-woken (validating r) = refl
waits-woken making = refl
waits-woken (holding r) = refl
waits-woken (signal_one t) = refl
waits-woken (signal_all t) = refl
waits-woken (dispose r n) = refl
waits-woken (dispose_quietly r t) = refl

waits-wake_all : (ts : List Task) → sum waits (wake_all ts) ≡ 0
unfolding wake_all sum
waits-wake_all [] = refl
waits-wake_all (t ∷ ts) = omega (arith, waits-woken t, waits-wake_all ts)

buried-woken : (t : Task) → buried (woken t) ≡ buried t
unfolding buried woken
buried-woken resting = refl
buried-woken contending = refl
buried-woken waiting = refl
buried-woken (validating r) = refl
buried-woken making = refl
buried-woken (holding r) = refl
buried-woken (signal_one t) = refl
buried-woken (signal_all t) = refl
buried-woken (dispose r n) = refl
buried-woken (dispose_quietly r t) = refl

pub Step-Awake :
    (o : PoolOptions) (x y : System)
    → Step o false x y
    → Awake o.max x.state x.tasks
    → Awake o.max y.state y.tasks
unfolding waits supply bells buried
Step-Awake o _ _ (act {s = s} {s' = s'} {t = t} {t' = t'} {new = new} {old = old} before after m)
      a =
    from_LocalAlert o.max s' t' before after (
      Act-Alert o (sum waits before + sum waits after) (sum supply before + sum supply after)
        (sum bells before + sum bells after) (sum buried before + sum buried after) s t s' t' new
        old m (to_LocalAlert o.max s t before after a))
Step-Awake o _ _ (notify_all {s = s} t before after) a =
    let us = before ++ t ∷ after in
    let old = before ++ signal_all t ∷ after in
    nobody o.max s (sum waits old) (sum supply old) (sum bells old) (sum buried old)
      (sum waits (wake_all us)) (sum supply (wake_all us)) (sum bells (wake_all us))
      (sum buried (wake_all us)) (waits-wake_all us)
      (omega (
        arith,
        wake_all-sum buried buried-woken us,
        sum-middle buried before t after,
        sum-middle buried before (signal_all t) after,
      ))
      a
Step-Awake o _ _ (notify_one {s = s} t before after left right e) a =
    let old = before ++ signal_one t ∷ after in
    let new = left ++ contending ∷ right in
    let same : (w : Task → ℕ)
        → w t + (sum w before + sum w after) ≡ w waiting + (sum w left + sum w right) =
      λ w. sym (sum-middle w before t after) ∙ ap (sum w) e ∙ sum-middle w left waiting right in
    more o.max s s (sum waits old) (sum supply old) (sum bells old) (sum buried old) (sum waits new)
      (sum supply new) (sum bells new) (sum buried new) refl
      (omega (
        arith,
        same supply,
        sum-middle supply before (signal_one t) after,
        sum-middle supply left contending right,
      ))
      (omega (
        arith,
        same bells,
        sum-middle bells before (signal_one t) after,
        sum-middle bells left contending right,
      ))
      (omega (
        arith,
        a.none_buried,
        same waits,
        sum-middle buried before (signal_one t) after,
        sum-middle waits before (signal_one t) after,
        sum-middle waits left contending right,
      ))
      (omega (
        arith,
        same buried,
        sum-middle buried before (signal_one t) after,
        sum-middle buried left contending right,
      ))
      a
Step-Awake o _ _ (notify_nobody {s = s} t before after e) a =
    let us = before ++ t ∷ after in
    let old = before ++ signal_one t ∷ after in
    nobody o.max s (sum waits old) (sum supply old) (sum bells old) (sum buried old) (sum waits us)
      (sum supply us) (sum bells us) (sum buried us) (ap (sum waits) (sym e) ∙ waits-wake_all us)
      (omega
        (arith, sum-middle buried before t after, sum-middle buried before (signal_one t) after))
      a

pub Reachable-Awake :
    (o : PoolOptions) (start x : System)
    → Awake o.max start.state start.tasks
    → Reachable o false start x
    → Awake o.max x.state x.tasks
Reachable-Awake o start _ a begin = a
Reachable-Awake o start _ a (then_step {x = x} {y = y} r step) =
    Step-Awake o x y step (Reachable-Awake o start x a r)

bells-supply : (ts : List Task) → sum bells ts ≤ sum supply ts
unfolding sum bells supply
bells-supply [] = omega arith
bells-supply (signal_all t ∷ ts) = omega (arith, bells-supply ts)
bells-supply (resting ∷ ts) = omega (arith, bells-supply ts)
bells-supply (contending ∷ ts) = omega (arith, bells-supply ts)
bells-supply (waiting ∷ ts) = omega (arith, bells-supply ts)
bells-supply (validating r ∷ ts) = omega (arith, bells-supply ts)
bells-supply (making ∷ ts) = omega (arith, bells-supply ts)
bells-supply (holding r ∷ ts) = omega (arith, bells-supply ts)
bells-supply (signal_one t ∷ ts) = omega (arith, bells-supply ts)
bells-supply (dispose r n ∷ ts) = omega (arith, bells-supply ts)
bells-supply (dispose_quietly r t ∷ ts) = omega (arith, bells-supply ts)

idle_nil :
    (max : ℕ) (s : State)
    → length s.idle ≡ 0
    → max ≤ s.leased + s.creating
    → s.destroyed ≡ false
    → is_ready max s ≡ false
unfolding is_ready
idle_nil max s l m d = go s.idle refl
  where
    go : (es : List IdleEntry) → s.idle ≡ es → is_ready max s ≡ false
    go [] e = rw d (rw e (ground (arith, l, m, ap (λ x. length x) e)))
    go (f ∷ es) e = ground (arith, l, ap (λ x. length x) e)

-- Where the adapter's `destroy` does not throw, in every system that a pool reaches from one whose
-- counters are exact and whose waiting threads are provided for: when a thread waits and no thread is
-- left that contends for the pool or is about to notify somebody, the pool is not destroyed and has
-- neither an idle resource nor room for a new one.
pub waiting-is_ready :
    (o : PoolOptions) (start x : System)
    → Inv o.max start.state start.tasks
    → Awake o.max start.state start.tasks
    → Reachable o false start x
    → 1 ≤ sum waits x.tasks
    → sum supply x.tasks ≡ 0
    → is_ready o.max x.state ≡ false
waiting-is_ready o start x i a r some_wait quiet =
    let j = Reachable-Inv o false start x i r in
    let b = Reachable-Awake o start x a r in
    elim (Bool-cases x.state.destroyed) [
      | inl h ↦ ground (arith, b.shut h some_wait, bells-supply x.tasks, quiet)
      | inr h ↦
          let m = b.alive h some_wait in
          idle_nil o.max x.state (omega (arith, m, j.capacity, quiet)) (omega (arith, m, quiet)) h
    ]

-- Where `destroy` throws in `Lease::destroy`, the notification is skipped: from any pool that is full
-- and has no idle resource, with one thread that holds a lease and one that waits, the pool gets to a
-- state in which it has room, the second thread still waits, and no thread is left to notify it.
pub lease_destroy_loses_wakeup :
    (o : PoolOptions) (s : State) (r : ℕ) (made gone : List ℕ)
    → s.destroyed ≡ false
    → s.idle ≡ []
    → 1 ≤ s.leased
    → total_live s ≡ o.max
    → let start : System = record {
      state = s;
      tasks = holding r ∷ waiting ∷ [];
      made = made;
      gone = gone;
    } in
      let end : System = record {
        state = unlease s;
        tasks = resting ∷ waiting ∷ [];
        made = made;
        gone = r ∷ gone;
      } in
      Reachable o true start end × (is_ready o.max end.state ≡ true) × (sum supply end.tasks ≡ 0)
unfolding is_ready unlease sum supply
lease_destroy_loses_wakeup o s r made gone d e l m = (
  then_step (then_step begin (act [] (waiting ∷ []) lease_destroy))
      (act [] (waiting ∷ []) (destroy_throws refl)),
  rw (d, e) (ground (arith, m, l, ap (λ x. length x) e)),
  refl,
)
