-- ===== src/Pool/Local.antt =====
-- include/metal/pool.hpp: each step of one thread keeps the counters exact.
use metal_orm_cpp.Base.{
  ℕ, suc, ◌+◌, ◌-◌, ◌≤◌, ◌≡◌, refl, subst, sym, ap, inl, inr, Bool, true, false, List, [], ◌∷◌,
  length, length-append, arith, ltb, Bool-cases, if◌then◌else◌,
}
use metal_orm_cpp.Pool.{
  closed, PoolOptions, IdleEntry, State, total_live, admit_idle, admit, unlease, confirm, uncreate,
  enlist, release, close, reap, resources,
}
use metal_orm_cpp.Pool.Threads.{
  Task, resting, contending, waiting, validating, making, holding, signal_one, signal_all, dispose,
  dispose_quietly, after_admit, lease_unless, signal_created, after_release, dispose_all,
  after_close, after_reap, Act, Next, then_return, then_retry, then_signal, after_destroy,
  call_acquire, enter, wake, time_out, validate_throws, validate_refuses, validate_accepts,
  create_throws, create_returns, lease_release, lease_destroy, destroy_returns, destroy_throws,
  destroy_quietly, call_destroy, reaper_runs,
}
use metal_orm_cpp.Pool.Counters.{leases, creations, length-pop_back, length-reap_loop}

-- One step of one thread, where the rest of the threads has `l` leases and `c` creations.
pub record Local (max : ℕ) (s : State) (t : Task) (l c : ℕ) : Type 0 where
  pub leased : s.leased ≡ leases t + l
  pub creating : s.creating ≡ creations t + c
  pub capacity : total_live s ≤ max
  pub emptied : s.destroyed ≡ true → s.idle ≡ []

leases-dispose_all : (rs : List ℕ) (t : Task) → leases (dispose_all rs t) ≡ leases t
unfolding dispose_all leases
leases-dispose_all [] t = refl
leases-dispose_all (r ∷ rs) t = leases-dispose_all rs t

creations-dispose_all : (rs : List ℕ) (t : Task) → creations (dispose_all rs t) ≡ creations t
unfolding dispose_all creations
creations-dispose_all [] t = refl
creations-dispose_all (r ∷ rs) t = creations-dispose_all rs t

admit_idle-Local :
    (max : ℕ) (s : State) (es : List IdleEntry) (l c : ℕ)
    → s.idle ≡ es
    → s.destroyed ≡ false
    → Local max s contending l c
    → Local max (admit_idle max s es).1 (after_admit (admit_idle max s es).0) l c
unfolding admit_idle after_admit leases creations
admit_idle-Local max s [] l c e d i = elim (Bool-cases (ltb (total_live s) max)) [
  | inl h ↦
      rw (h, admit_idle)
        (record {
          leased = omega (arith, i.leased);
          creating = omega (arith, i.creating);
          capacity = ground (arith, h);
          emptied = i.emptied;
        })
  | inr h ↦
      rw (h, admit_idle)
        (record {
          leased = i.leased;
          creating = i.creating;
          capacity = i.capacity;
          emptied = i.emptied;
        })
]
admit_idle-Local max s (e ∷ es) l c eq d i = record {
  leased = omega (arith, i.leased);
  creating = i.creating;
  capacity = omega (arith, length-pop_back e es, ap (λ x. length x) eq, i.capacity);
  emptied = λ h. ground (arith, d, h);
}

release-Local :
    (max now r : ℕ) (s : State) (l c : ℕ)
    → Local max s (holding r) l c
    → Local max (release now r s).1 (after_release (release now r s).0 r) l c
unfolding release after_release unlease leases creations
release-Local max now r s l c i = elim (Bool-cases s.destroyed) [
  | inl h ↦
      rw (h, release, after_release)
        (record {
          leased = omega (arith, i.leased);
          creating = i.creating;
          capacity = omega (arith, i.capacity);
          emptied = λ e. i.emptied h;
        })
  | inr h ↦
      rw (h, release, after_release)
        (record {
          leased = omega (arith, i.leased);
          creating = i.creating;
          capacity = omega (
            arith,
            i.capacity,
            i.leased,
            length-append s.idle (record { resource = r; last_used_at = now } ∷ []),
          );
          emptied = λ e. ground (arith, h, e);
        })
]

enlist-Local :
    (max r : ℕ) (s : State) (l c : ℕ)
    → Local max s making l c
    → Local max (enlist s).1 (signal_created (enlist s).0 r) l c
unfolding enlist signal_created uncreate leases creations
enlist-Local max r s l c i = elim (Bool-cases s.destroyed) [
  | inl h ↦
      rw (h, enlist, signal_created)
        (record {
          leased = i.leased;
          creating = omega (arith, i.creating);
          capacity = omega (arith, i.capacity);
          emptied = λ e. i.emptied h;
        })
  | inr h ↦
      rw (h, enlist, signal_created)
        (record {
          leased = omega (arith, i.leased);
          creating = omega (arith, i.creating);
          capacity = omega (arith, i.capacity, i.creating);
          emptied = λ e. cc;
        })
]

confirm-Local :
    (max r : ℕ) (s : State) (l c : ℕ)
    → Local max s (validating r) l c
    → Local max (confirm s).1 (lease_unless (confirm s).0 r) l c
unfolding confirm lease_unless unlease leases creations
confirm-Local max r s l c i = elim (Bool-cases s.destroyed) [
  | inl h ↦
      rw (h, confirm, lease_unless)
        (record {
          leased = omega (arith, i.leased);
          creating = i.creating;
          capacity = omega (arith, i.capacity);
          emptied = λ e. i.emptied h;
        })
  | inr h ↦
      rw (h, confirm, lease_unless)
        (record {
          leased = i.leased;
          creating = i.creating;
          capacity = i.capacity;
          emptied = λ e. cc;
        })
]

close-Local :
    (max : ℕ) (s : State) (l c : ℕ)
    → Local max s resting l c
    → Local max (close s).1 (after_close (close s).0) l c
unfolding close after_close leases creations
close-Local max s l c i = elim (Bool-cases s.destroyed) [
  | inl h ↦
      rw (h, close, after_close)
        (record {
          leased = i.leased;
          creating = i.creating;
          capacity = i.capacity;
          emptied = λ e. i.emptied h;
        })
  | inr h ↦
      rw (h, close, after_close)
        (record {
          leased = omega (arith, i.leased, leases-dispose_all (resources s.idle) resting);
          creating = omega (arith, i.creating, creations-dispose_all (resources s.idle) resting);
          capacity = omega (arith, i.capacity);
          emptied = λ e. refl;
        })
]

after_reap-leases : (rs : List ℕ) → leases (after_reap rs) ≡ 0
unfolding after_reap leases
after_reap-leases [] = refl
after_reap-leases (r ∷ rs) = leases-dispose_all (r ∷ rs) (signal_all resting)

after_reap-creations : (rs : List ℕ) → creations (after_reap rs) ≡ 0
unfolding after_reap creations
after_reap-creations [] = refl
after_reap-creations (r ∷ rs) = creations-dispose_all (r ∷ rs) (signal_all resting)

reap-Local :
    (o : PoolOptions) (now : ℕ) (s : State) (l c : ℕ)
    → s.destroyed ≡ false
    → Local o.max s resting l c
    → Local o.max (reap now o s).1 (after_reap (reap now o s).0) l c
unfolding reap leases creations
reap-Local o now s l c d i = record {
  leased = omega (arith, i.leased, after_reap-leases (reap now o s).0);
  creating = omega (arith, i.creating, after_reap-creations (reap now o s).0);
  capacity =
      omega
        (arith, i.capacity, length-reap_loop now o.idle_timeout (length s.idle - o.min) 0 s.idle);
  emptied = λ e. ground (arith, d, e);
}

admit-Local :
    (max : ℕ) (s : State) (l c : ℕ)
    → Local max s contending l c
    → Local max (admit max s).1 (after_admit (admit max s).0) l c
unfolding admit
admit-Local max s l c i = elim (Bool-cases s.destroyed) [
  | inl h ↦
      rw (h, admit)
        (unfold after_admit leases creations in
          record {
            leased = i.leased;
            creating = i.creating;
            capacity = i.capacity;
            emptied = λ e. i.emptied h;
          })
  | inr h ↦
      subst (λ a. Local max a.1 (after_admit a.0) l c)
        (ap (λ b. if b then (closed, s) else admit_idle max s s.idle) (sym h))
        (admit_idle-Local max s s.idle l c refl h i)
]

-- A step that only changes what the thread does next.
same-Local :
    (max l c : ℕ) (s : State) (t t' : Task)
    → leases t' ≡ leases t
    → creations t' ≡ creations t
    → Local max s t l c
    → Local max s t' l c
same-Local max l c s t t' el ec i = record {
  leased = omega (arith, i.leased, el);
  creating = omega (arith, i.creating, ec);
  capacity = i.capacity;
  emptied = i.emptied;
}

unlease-Local :
    (max l c : ℕ) (s : State) (t t' : Task)
    → suc (leases t') ≡ leases t
    → creations t' ≡ creations t
    → Local max s t l c
    → Local max (unlease s) t' l c
unfolding unlease
unlease-Local max l c s t t' el ec i = record {
  leased = omega (arith, i.leased, el);
  creating = omega (arith, i.creating, ec);
  capacity = omega (arith, i.capacity);
  emptied = i.emptied;
}

uncreate-Local :
    (max l c : ℕ) (s : State) (t t' : Task)
    → leases t' ≡ leases t
    → suc (creations t') ≡ creations t
    → Local max s t l c
    → Local max (uncreate s) t' l c
unfolding uncreate
uncreate-Local max l c s t t' el ec i = record {
  leased = omega (arith, i.leased, el);
  creating = omega (arith, i.creating, ec);
  capacity = omega (arith, i.capacity);
  emptied = i.emptied;
}

after_destroy-leases : (n : Next) → leases (after_destroy n) ≡ 0
unfolding after_destroy leases
after_destroy-leases then_return = refl
after_destroy-leases then_retry = refl
after_destroy-leases then_signal = refl

after_destroy-creations : (n : Next) → creations (after_destroy n) ≡ 0
unfolding after_destroy creations
after_destroy-creations then_return = refl
after_destroy-creations then_retry = refl
after_destroy-creations then_signal = refl

-- Every step keeps the counters exact for the thread that takes it.
pub Act-Local :
    (o : PoolOptions) (throws : Bool) (l c : ℕ) (s : State) (t : Task) (s' : State) (t' : Task)
    (new old : List ℕ)
    → Act o throws s t s' t' new old
    → Local o.max s t l c
    → Local o.max s' t' l c
unfolding leases creations
Act-Local o throws l c s _ _ _ _ _ call_acquire i =
    same-Local o.max l c s resting contending refl refl i
Act-Local o throws l c s _ _ _ _ _ enter i = admit-Local o.max s l c i
Act-Local o throws l c s _ _ _ _ _ (wake h) i =
    same-Local o.max l c s waiting contending refl refl i
Act-Local o throws l c s _ _ _ _ _ (time_out h) i =
    same-Local o.max l c s waiting resting refl refl i
Act-Local o throws l c s _ _ _ _ _ (validate_throws {r = r}) i =
    unlease-Local o.max l c s (validating r) (dispose_quietly r (signal_one resting)) refl refl i
Act-Local o throws l c s _ _ _ _ _ (validate_refuses {r = r}) i =
    unlease-Local o.max l c s (validating r) (signal_one (dispose r then_retry)) refl refl i
Act-Local o throws l c s _ _ _ _ _ (validate_accepts {r = r}) i = confirm-Local o.max r s l c i
Act-Local o throws l c s _ _ _ _ _ create_throws i =
    uncreate-Local o.max l c s making (signal_all resting) refl refl i
Act-Local o throws l c s _ _ _ _ _ (create_returns {r = r}) i = enlist-Local o.max r s l c i
Act-Local o throws l c s _ _ _ _ _ (lease_release {r = r} now) i = release-Local o.max now r s l c i
Act-Local o throws l c s _ _ _ _ _ (lease_destroy {r = r}) i =
    unlease-Local o.max l c s (holding r) (dispose r then_signal) refl refl i
Act-Local o throws l c s _ _ _ _ _ (destroy_returns {r = r} {n = n}) i =
    same-Local o.max l c s (dispose r n) (after_destroy n) (after_destroy-leases n)
      (after_destroy-creations n) i
Act-Local o throws l c s _ _ _ _ _ (destroy_throws {r = r} {n = n} h) i =
    same-Local o.max l c s (dispose r n) resting refl refl i
Act-Local o throws l c s _ _ _ _ _ (destroy_quietly {r = r} {t = t}) i =
    same-Local o.max l c s (dispose_quietly r t) t refl refl i
Act-Local o throws l c s _ _ _ _ _ call_destroy i = close-Local o.max s l c i
Act-Local o throws l c s _ _ _ _ _ (reaper_runs now d) i = reap-Local o now s l c d i
