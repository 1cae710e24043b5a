-- ===== src/Pool/Counters.antt =====
-- include/metal/pool.hpp: what the pool's counters count, and the lemmas on the loops over its entries.
use metal_orm_cpp.Base.{ℕ, suc, ◌+◌, ◌≡◌, refl, ◌∙◌, List, [], ◌∷◌, ◌++◌, length, arith}
use metal_orm_cpp.Pool.{IdleEntry, pop_back, reap_loop}
use metal_orm_cpp.Pool.Threads.{
  Task, resting, contending, waiting, validating, making, holding, signal_one, signal_all, dispose,
  dispose_quietly, woken, wake_all,
}

-- What the tasks of a system have in all, by a measure of one task.
unfoldable pub sum : (Task → ℕ) → List Task → ℕ
sum w [] = 0
sum w (t ∷ ts) = w t + sum w ts

pub sum-append : (w : Task → ℕ) (xs ys : List Task) → sum w (xs ++ ys) ≡ sum w xs + sum w ys
unfolding sum
sum-append w [] ys = omega arith
sum-append w (x ∷ xs) ys = omega (arith, sum-append w xs ys)

pub sum-middle :
    (w : Task → ℕ) (xs : List Task) (t : Task) (ys : List Task)
    → sum w (xs ++ t ∷ ys) ≡ w t + (sum w xs + sum w ys)
sum-middle w xs t ys = sum-append w xs (t ∷ ys) ∙ unfold sum in omega arith

pub wake_all-sum :
    (w : Task → ℕ)
    → ((t : Task) → w (woken t) ≡ w t)
    → (ts : List Task) → sum w (wake_all ts) ≡ sum w ts
unfolding wake_all sum
wake_all-sum w h [] = refl
wake_all-sum w h (t ∷ ts) = omega (arith, h t, wake_all-sum w h ts)

-- A task counts as leased from the take-over of an idle resource or the end of a creation to the
-- return.
unfoldable pub leases : Task → ℕ
leases (validating r) = 1
leases (holding r) = 1
leases (signal_one t) = leases t
leases (signal_all t) = leases t
leases (dispose_quietly r t) = leases t
leases t = 0

unfoldable pub creations : Task → ℕ
creations making = 1
creations (signal_one t) = creations t
creations (signal_all t) = creations t
creations (dispose_quietly r t) = creations t
creations t = 0

pub length-pop_back : (e : IdleEntry) (es : List IdleEntry) → length (pop_back e es).0 ≡ length es
unfolding pop_back
length-pop_back e [] = refl
length-pop_back e (f ∷ es) = omega (arith, length-pop_back f es)

pub length-reap_loop :
    (now timeout removable removed : ℕ) (es : List IdleEntry)
    → length (reap_loop now timeout removable removed es).0
        + length (reap_loop now timeout removable removed es).1
      ≡ length es
unfolding reap_loop
length-reap_loop now timeout removable removed [] = refl
length-reap_loop now timeout removable removed (e ∷ es) = ground (
  arith,
  length-reap_loop now timeout removable (suc removed) es,
  length-reap_loop now timeout removable removed es,
)

pub leases-woken : (t : Task) → leases (woken t) ≡ leases t
unfolding woken leases
leases-woken resting = refl
leases-woken contending = refl
leases-woken waiting = refl
leases-woken (validating r) = refl
leases-woken making = refl
leases-woken (holding r) = refl
leases-woken (signal_one t) = refl
leases-woken (signal_all t) = refl
leases-woken (dispose r n) = refl
leases-woken (dispose_quietly r t) = refl

pub creations-woken : (t : Task) → creations (woken t) ≡ creations t
unfolding woken creations
creations-woken resting = refl
creations-woken contending = refl
creations-woken waiting = refl
creations-woken (validating r) = refl
creations-woken making = refl
creations-woken (holding r) = refl
creations-woken (signal_one t) = refl
creations-woken (signal_all t) = refl
creations-woken (dispose r n) = refl
creations-woken (dispose_quietly r t) = refl
