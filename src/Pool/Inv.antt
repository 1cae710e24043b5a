-- ===== src/Pool/Inv.antt =====
-- include/metal/pool.hpp: the pool's counters against its threads, in every interleaving.
use metal_orm_cpp.Base.{
  ℕ, ◌+◌, ◌≤◌, ◌≡◌, refl, sym, ap, ◌∙◌, Bool, true, List, [], ◌∷◌, ◌++◌, arith,
}
use metal_orm_cpp.Pool.{PoolOptions, State, total_live}
use metal_orm_cpp.Pool.Threads.{
  Task, contending, waiting, signal_one, signal_all, wake_all, System, Step, act, notify_all,
  notify_one, notify_nobody, Reachable, begin, then_step,
}
use metal_orm_cpp.Pool.Counters.{
  sum, sum-middle, leases, creations, wake_all-sum, leases-woken, creations-woken,
}
use metal_orm_cpp.Pool.Local.{Local, Act-Local}

-- The counters are what the threads hold, the resources in use and under way are within `max`, and a
-- destroyed pool keeps no resource.
pub record Inv (max : ℕ) (s : State) (ts : List Task) : Type 0 where
  pub leased : s.leased ≡ sum leases ts
  pub creating : s.creating ≡ sum creations ts
  pub capacity : total_live s ≤ max
  pub emptied : s.destroyed ≡ true → s.idle ≡ []

to_Local :
    (max : ℕ) (s : State) (t : Task) (before after : List Task)
    → Inv max s (before ++ t ∷ after)
    → Local max s t
        (sum leases before + sum leases after)
        (sum creations before + sum creations after)
to_Local max s t before after i = record {
  leased = i.leased ∙ sum-middle leases before t after;
  creating = i.creating ∙ sum-middle creations before t after;
  capacity = i.capacity;
  emptied = i.emptied;
}

from_Local :
    (max : ℕ) (s : State) (t : Task) (before after : List Task)
    → Local max s t
        (sum leases before + sum leases after)
        (sum creations before + sum creations after)
    → Inv max s (before ++ t ∷ after)
from_Local max s t before after i = record {
  leased = i.leased ∙ sym (sum-middle leases before t after);
  creating = i.creating ∙ sym (sum-middle creations before t after);
  capacity = i.capacity;
  emptied = i.emptied;
}

-- The same sums over other tasks.
moved :
    (max : ℕ) (s : State) (ts us : List Task)
    → sum leases us ≡ sum leases ts
    → sum creations us ≡ sum creations ts
    → Inv max s ts
    → Inv max s us
moved max s ts us el ec i = record {
  leased = i.leased ∙ sym el;
  creating = i.creating ∙ sym ec;
  capacity = i.capacity;
  emptied = i.emptied;
}

unsignal-sum :
    (w : Task → ℕ) (t t' : Task) (before after : List Task)
    → w t ≡ w t'
    → sum w (before ++ t ∷ after) ≡ sum w (before ++ t' ∷ after)
unsignal-sum w t t' before after e =
    omega (arith, e, sum-middle w before t after, sum-middle w before t' after)

-- No step of any thread breaks the invariant: the counters never run below 0 or past `max`.
pub Step-Inv :
    (o : PoolOptions) (throws : Bool) (x y : System)
    → Step o throws x y
    → Inv o.max x.state x.tasks
    → Inv o.max y.state y.tasks
unfolding leases creations
Step-Inv o throws _ _
      (act {s = s} {s' = s'} {t = t} {t' = t'} {new = new} {old = old} before after a) i =
    from_Local o.max s' t' before after (
      Act-Local o throws (sum leases before + sum leases after)
        (sum creations before + sum creations after) s t s' t' new old a
        (to_Local o.max s t before after i))
Step-Inv o throws _ _ (notify_all {s = s} t before after) i =
    moved o.max s (before ++ signal_all t ∷ after) (wake_all (before ++ t ∷ after))
      (wake_all-sum leases leases-woken (before ++ t ∷ after)
        ∙ unsignal-sum leases t (signal_all t) before after refl)
      (wake_all-sum creations creations-woken (before ++ t ∷ after)
        ∙ unsignal-sum creations t (signal_all t) before after refl)
      i
Step-Inv o throws _ _ (notify_one {s = s} t before after left right e) i =
    moved o.max s (before ++ signal_one t ∷ after) (left ++ contending ∷ right)
      (unsignal-sum leases contending waiting left right refl
        ∙ ap (sum leases) (sym e)
        ∙ unsignal-sum leases t (signal_one t) before after refl)
      (unsignal-sum creations contending waiting left right refl
        ∙ ap (sum creations) (sym e)
        ∙ unsignal-sum creations t (signal_one t) before after refl)
      i
Step-Inv o throws _ _ (notify_nobody {s = s} t before after e) i =
    moved o.max s (before ++ signal_one t ∷ after) (before ++ t ∷ after)
      (unsignal-sum leases t (signal_one t) before after refl)
      (unsignal-sum creations t (signal_one t) before after refl) i

-- In every system that a pool reaches from one where this holds, whatever the adapter does and in
-- whatever order its threads run: the counters are exact, no more than `max` resources are idle,
-- leased or being created, and a destroyed pool keeps none.
pub Reachable-Inv :
    (o : PoolOptions) (throws : Bool) (start x : System)
    → Inv o.max start.state start.tasks
    → Reachable o throws start x
    → Inv o.max x.state x.tasks
Reachable-Inv o throws start _ i begin = i
Reachable-Inv o throws start _ i (then_step {x = x} {y = y} r step) =
    Step-Inv o throws x y step (Reachable-Inv o throws start x i r)
