-- ===== src/Pool/Alerts.antt =====
-- include/metal/pool.hpp: each step of one thread calls those that it makes room for.
use metal_orm_cpp.Base.{
  ℕ, suc, ◌+◌, ◌-◌, ◌≤◌, ◌≡◌, refl, subst, sym, ap, inl, inr, true, false, List, [], ◌∷◌, ◌++◌,
  length, arith, ltb, Bool-cases, if◌then◌else◌,
}
use metal_orm_cpp.Pool.{
  closed, PoolOptions, IdleEntry, State, total_live, admit_idle, admit, unlease, confirm, uncreate,
  enlist, release, close, reap, resources,
}
use metal_orm_cpp.Pool.Threads.{
  Task, resting, contending, waiting, validating, making, holding, signal_one, signal_all, dispose,
  dispose_quietly, after_admit, lease_unless, signal_created, after_release, dispose_all,
  after_close, after_reap, Act, Next, then_return, then_retry, then_signal, after_destroy,
  call_acquire, enter, wake, time_out, validate_throws, validate_refuses, validate_accepts,
  create_throws, create_returns, lease_release, lease_destroy, destroy_returns, destroy_throws,
  destroy_quietly, call_destroy, reaper_runs,
}
use metal_orm_cpp.Pool.Signals.{waits, supply, bells, buried, LocalAlert, more, ringing}

waits-dispose_all : (rs : List ℕ) (t : Task) → waits t ≡ 0 → waits (dispose_all rs t) ≡ 0
unfolding dispose_all waits
waits-dispose_all [] t h = h
waits-dispose_all (r ∷ rs) t h = refl

buried-dispose_all :
    (rs : List ℕ) (t : Task) → waits t ≡ 0 → buried t ≡ 0 → buried (dispose_all rs t) ≡ 0
unfolding dispose_all buried
buried-dispose_all [] t h k = k
buried-dispose_all (r ∷ rs) t h k =
    omega (arith, waits-dispose_all rs t h, buried-dispose_all rs t h k)

admit_idle-Alert :
    (max : ℕ) (s : State) (es : List IdleEntry) (w p b d : ℕ)
    → s.idle ≡ es
    → s.destroyed ≡ false
    → LocalAlert max s contending w p b d
    → LocalAlert max (admit_idle max s es).1 (after_admit (admit_idle max s es).0) w p b d
unfolding admit_idle after_admit waits supply bells buried
admit_idle-Alert max s [] w p b d e h a = elim (Bool-cases (ltb (total_live s) max)) [
  | inl l ↦
      rw (l, admit_idle)
        (more max s (record s { creating = suc s.creating }) (0 + w) (1 + p) (0 + b) (0 + d) (0 + w)
          (0 + p) (0 + b) (0 + d) refl (omega arith) (omega arith) (omega arith) (omega arith) a)
  | inr l ↦
      rw (l, admit_idle)
        (record {
          alive = λ _ m. ground (arith, l, ap (λ x. length x) e);
          shut = λ t m. ground (arith, h, t);
          none_buried = a.none_buried;
        })
]
admit_idle-Alert max s (e ∷ es) w p b d eq h a =
    more max s (admit_idle max s (e ∷ es)).1 (0 + w) (1 + p) (0 + b) (0 + d) (0 + w) (0 + p) (0 + b)
      (0 + d) refl (omega arith) (omega arith) (omega arith) (omega arith) a

admit-Alert :
    (max : ℕ) (s : State) (w p b d : ℕ)
    → LocalAlert max s contending w p b d
    → LocalAlert max (admit max s).1 (after_admit (admit max s).0) w p b d
unfolding admit
admit-Alert max s w p b d a = elim (Bool-cases s.destroyed) [
  | inl h ↦
      subst (λ x. LocalAlert max x.1 (after_admit x.0) w p b d)
        (ap (λ c. if c then (closed, s) else admit_idle max s s.idle) (sym h))
        (unfold after_admit waits supply bells buried in
          record {
            alive = λ f m. ground (arith, h, f);
            shut = λ t m. a.shut t m;
            none_buried = a.none_buried;
          })
  | inr h ↦
      subst (λ x. LocalAlert max x.1 (after_admit x.0) w p b d)
        (ap (λ c. if c then (closed, s) else admit_idle max s s.idle) (sym h))
        (admit_idle-Alert max s s.idle w p b d refl h a)
]

-- A step that only changes what the thread does next, and leaves no less to come.
same-Alert :
    (max : ℕ) (s : State) (t t' : Task) (w p b d : ℕ)
    → waits t' ≤ waits t
    → supply t ≤ supply t'
    → bells t ≤ bells t'
    → buried t' ≤ buried t
    → LocalAlert max s t w p b d
    → LocalAlert max s t' w p b d
same-Alert max s t t' w p b d ew ep eb ed a =
    more max s s (waits t + w) (supply t + p) (bells t + b) (buried t + d) (waits t' + w)
      (supply t' + p) (bells t' + b) (buried t' + d) refl (omega arith) (omega arith) (omega arith)
      (omega arith) a

-- A counter goes down, and a signal is to come.
unlease-Alert :
    (max : ℕ) (s : State) (t t' : Task) (w p b d : ℕ)
    → waits t' ≤ waits t
    → 1 + supply t ≤ supply t'
    → bells t ≤ bells t'
    → buried t' ≤ buried t
    → LocalAlert max s t w p b d
    → LocalAlert max (unlease s) t' w p b d
unfolding unlease
unlease-Alert max s t t' w p b d ew ep eb ed a =
    more max s (unlease s) (waits t + w) (supply t + p) (bells t + b) (buried t + d) (waits t' + w)
      (supply t' + p) (bells t' + b) (buried t' + d) refl (omega arith) (omega arith) (omega arith)
      (omega arith) a

uncreate-Alert :
    (max : ℕ) (s : State) (w p b d : ℕ)
    → LocalAlert max s making w p b d
    → LocalAlert max (uncreate s) (signal_all resting) w p b d
unfolding uncreate waits supply bells buried
uncreate-Alert max s w p b d a =
    more max s (uncreate s) (0 + w) (0 + p) (0 + b) (0 + d) (0 + w) (1 + 0 + p) (1 + b) (0 + 0 + d)
      refl (omega arith) (omega arith) (omega arith) (omega arith) a

enlist-Alert :
    (max r : ℕ) (s : State) (w p b d : ℕ)
    → LocalAlert max s making w p b d
    → LocalAlert max (enlist s).1 (signal_created (enlist s).0 r) w p b d
unfolding enlist signal_created uncreate waits supply bells buried
enlist-Alert max r s w p b d a = elim (Bool-cases s.destroyed) [
  | inl h ↦
      rw (h, enlist, signal_created)
        (ringing max s (record s { creating = s.creating - 1; destroyed = true }) (0 + w) (0 + p)
          (0 + b) (0 + d) (0 + w) (1 + 0 + p) (1 + b) (0 + 0 + d) refl (omega arith) (omega arith)
          a)
  | inr h ↦
      rw (h, enlist, signal_created)
        (more max s
          (record s { creating = s.creating - 1; leased = suc s.leased; destroyed = false }) (0 + w)
          (0 + p) (0 + b) (0 + d) (0 + w) (1 + 0 + p) (1 + b) (0 + 0 + d) (sym h) (omega arith)
          (omega arith) (omega arith) (omega arith) a)
]

confirm-Alert :
    (max r : ℕ) (s : State) (w p b d : ℕ)
    → LocalAlert max s (validating r) w p b d
    → LocalAlert max (confirm s).1 (lease_unless (confirm s).0 r) w p b d
unfolding confirm lease_unless unlease waits supply bells buried
confirm-Alert max r s w p b d a = elim (Bool-cases s.destroyed) [
  | inl h ↦
      rw (h, confirm, lease_unless)
        (ringing max s (record s { leased = s.leased - 1; destroyed = true }) (0 + w) (0 + p)
          (0 + b) (0 + d) (0 + w) (1 + 0 + p) (1 + b) (0 + 0 + d) refl (omega arith) (omega arith)
          a)
  | inr h ↦
      rw (h, confirm, lease_unless)
        (more max s (record s { destroyed = false }) (0 + w) (0 + p) (0 + b) (0 + d) (0 + w) (0 + p)
          (0 + b) (0 + d) (sym h) (omega arith) (omega arith) (omega arith) (omega arith) a)
]

release-Alert :
    (max now r : ℕ) (s : State) (w p b d : ℕ)
    → LocalAlert max s (holding r) w p b d
    → LocalAlert max (release now r s).1 (after_release (release now r s).0 r) w p b d
unfolding release after_release unlease waits supply bells buried
release-Alert max now r s w p b d a = elim (Bool-cases s.destroyed) [
  | inl h ↦
      rw (h, release, after_release)
        (more max s (record s { leased = s.leased - 1; destroyed = true }) (0 + w) (0 + p) (0 + b)
          (0 + d) (0 + w) (1 + p) (0 + b) (0 + d) (sym h) (omega arith) (omega arith) (omega arith)
          (omega arith) a)
  | inr h ↦
      rw (h, release, after_release)
        (more max s
          (record s {
            leased = s.leased - 1;
            destroyed = false;
            idle = s.idle ++ record { resource = r; last_used_at = now } ∷ [];
          })
          (0 + w) (0 + p) (0 + b) (0 + d) (0 + w) (1 + 0 + p) (0 + b) (0 + 0 + d) (sym h)
          (omega arith) (omega arith) (omega arith) (omega arith) a)
]

close-Alert :
    (max : ℕ) (s : State) (w p b d : ℕ)
    → LocalAlert max s resting w p b d
    → LocalAlert max (close s).1 (after_close (close s).0) w p b d
unfolding close after_close waits supply bells buried
close-Alert max s w p b d a = elim (Bool-cases s.destroyed) [
  | inl h ↦
      rw (h, close, after_close)
        (more max s (record s { destroyed = true }) (0 + w) (0 + p) (0 + b) (0 + d) (0 + w) (0 + p)
          (0 + b) (0 + d) (sym h) (omega arith) (omega arith) (omega arith) (omega arith) a)
  | inr h ↦
      rw (h, close, after_close)
        (ringing max s (record s { idle = []; destroyed = true }) (0 + w) (0 + p) (0 + b) (0 + d)
          (0 + w) (1 + supply (dispose_all (resources s.idle) resting) + p) (1 + b)
          (waits (dispose_all (resources s.idle) resting)
            + buried (dispose_all (resources s.idle) resting)
            + d)
          refl (omega arith)
          (omega (
            arith,
            waits-dispose_all (resources s.idle) resting refl,
            buried-dispose_all (resources s.idle) resting refl refl,
          ))
          a)
]

after_reap-quiet : (rs : List ℕ) → (waits (after_reap rs) ≡ 0) × (buried (after_reap rs) ≡ 0)
unfolding after_reap waits buried
after_reap-quiet [] = (refl, refl)
after_reap-quiet (r ∷ rs) = (
  waits-dispose_all (r ∷ rs) (signal_all resting) refl,
  buried-dispose_all (r ∷ rs) (signal_all resting) refl refl,
)

reap-Alert :
    (o : PoolOptions) (now : ℕ) (s : State) (w p b d : ℕ)
    → LocalAlert o.max s resting w p b d
    → LocalAlert o.max (reap now o s).1 (after_reap (reap now o s).0) w p b d
unfolding reap waits supply bells buried
reap-Alert o now s w p b d a =
    let t = after_reap (reap now o s).0 in
    more o.max s (reap now o s).1 (0 + w) (0 + p) (0 + b) (0 + d) (waits t + w) (supply t + p)
      (bells t + b) (buried t + d) refl (omega arith) (omega arith)
      (omega (arith, (after_reap-quiet (reap now o s).0).0))
      (omega (arith, (after_reap-quiet (reap now o s).0).1)) a

after_destroy-quiet :
    (r : ℕ) (n : Next)
    → (waits (after_destroy n) ≡ 0)
      × (buried (after_destroy n) ≡ 0)
      × (supply (after_destroy n) ≡ supply (dispose r n))
unfolding after_destroy waits buried supply
after_destroy-quiet r then_return = (refl, refl, refl)
after_destroy-quiet r then_retry = (refl, refl, refl)
after_destroy-quiet r then_signal = (refl, refl, refl)

pub Act-Alert :
    (o : PoolOptions) (w p b d : ℕ) (s : State) (t : Task) (s' : State) (t' : Task)
    (new old : List ℕ)
    → Act o false s t s' t' new old
    → LocalAlert o.max s t w p b d
    → LocalAlert o.max s' t' w p b d
unfolding waits supply bells buried
Act-Alert o w p b d s _ _ _ _ _ call_acquire a =
    same-Alert o.max s resting contending w p b d (omega arith) (omega arith) (omega arith)
      (omega arith) a
Act-Alert o w p b d s _ _ _ _ _ enter a = admit-Alert o.max s w p b d a
Act-Alert o w p b d s _ _ _ _ _ (wake h) a =
    same-Alert o.max s waiting contending w p b d (omega arith) (omega arith) (omega arith)
      (omega arith) a
Act-Alert o w p b d s _ _ _ _ _ (time_out h) a =
    same-Alert o.max s waiting resting w p b d (omega arith) (omega arith) (omega arith)
      (omega arith) a
Act-Alert o w p b d s _ _ _ _ _ (validate_throws {r = r}) a =
    unlease-Alert o.max s (validating r) (dispose_quietly r (signal_one resting)) w p b d
      (omega arith) (omega arith) (omega arith) (omega arith) a
Act-Alert o w p b d s _ _ _ _ _ (validate_refuses {r = r}) a =
    unlease-Alert o.max s (validating r) (signal_one (dispose r then_retry)) w p b d (omega arith)
      (omega arith) (omega arith) (omega arith) a
Act-Alert o w p b d s _ _ _ _ _ (validate_accepts {r = r}) a = confirm-Alert o.max r s w p b d a
Act-Alert o w p b d s _ _ _ _ _ create_throws a = uncreate-Alert o.max s w p b d a
Act-Alert o w p b d s _ _ _ _ _ (create_returns {r = r}) a = enlist-Alert o.max r s w p b d a
Act-Alert o w p b d s _ _ _ _ _ (lease_release {r = r} now) a =
    release-Alert o.max now r s w p b d a
Act-Alert o w p b d s _ _ _ _ _ (lease_destroy {r = r}) a =
    unlease-Alert o.max s (holding r) (dispose r then_signal) w p b d (omega arith) (omega arith)
      (omega arith) (omega arith) a
Act-Alert o w p b d s _ _ _ _ _ (destroy_returns {r = r} {n = n}) a =
    let q = after_destroy-quiet r n in
    same-Alert o.max s (dispose r n) (after_destroy n) w p b d (omega (arith, q.0))
      (omega (arith, q.2)) (omega arith) (omega (arith, q.1)) a
Act-Alert o w p b d s _ _ _ _ _ (destroy_throws {r = r} {n = n} h) a = absurd (cc h)
Act-Alert o w p b d s _ _ _ _ _ (destroy_quietly {r = r} {t = t}) a =
    same-Alert o.max s (dispose_quietly r t) t w p b d (omega (arith, a.none_buried)) (omega arith)
      (omega arith) (omega arith) a
Act-Alert o w p b d s _ _ _ _ _ call_destroy a = close-Alert o.max s w p b d a
Act-Alert o w p b d s _ _ _ _ _ (reaper_runs now h) a = reap-Alert o now s w p b d a
