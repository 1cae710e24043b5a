-- ===== src/Session/Settled.antt =====
-- include/metal/unit_of_work.hpp: what `flush` has done, it does not do again.
use metal_orm_cpp.Base.{
  ap, ◌∙◌, ℕ, ◌≡◌, refl, ◌⊎◌, inl, inr, Option, none, some, List, [], ◌∷◌, ok, Map, All,
}
use metal_orm_cpp.Value.{Value}
use metal_orm_cpp.Session.{Tracked, managed, detached}
use metal_orm_cpp.Session.Flush.{
  then_ok, State, Setting, changed, flush_tracked, flush_status, flush_keys, flush,
  flush_update_if_dirty, update_changed,
}

module _ {W : Type 0} (x : Setting W) where
  -- Detached, or managed and without a changed field.
  abbrev pub Settled : ℕ → Option (Tracked (Map Value)) → Map Value → Type 0
  Settled k none now = Unit
  Settled k (some t) now =
      (t.status ≡ detached)
      ⊎ ((t.status ≡ managed) × (changed x.real_eq (x.entity k) t.original now ≡ []))

  clean_update :
      (k : ℕ) (original : Map Value) (s : State W)
      → changed x.real_eq (x.entity k) original (s.unit.objects k) ≡ []
      → flush_update_if_dirty x k original s ≡ ok s
  unfolding flush_update_if_dirty update_changed
  clean_update k original s h = ap (λ c. update_changed x k c s) h

  flush_tracked-Settled :
      (k : ℕ) (o : Option (Tracked (Map Value))) (s : State W)
      → Settled k o (s.unit.objects k)
      → flush_tracked x k o s ≡ ok s
  unfolding flush_tracked flush_status
  flush_tracked-Settled k none s h = refl
  flush_tracked-Settled k (some t) s (inl d) = ap (λ st. flush_status x st k t.original s) d
  flush_tracked-Settled k (some t) s (inr (m, c)) =
      ap (λ st. flush_status x st k t.original s) m ∙ clean_update k t.original s c

  flush_keys-Settled :
      (ks : List ℕ) (s : State W)
      → All (λ k. Settled k (s.unit.tracked k) (s.unit.objects k)) ks
      → flush_keys x ks s ≡ ok s
  unfolding flush_keys then_ok
  flush_keys-Settled [] s h = refl
  flush_keys-Settled (k ∷ ks) s h =
      rw (flush_tracked-Settled k (s.unit.tracked k) s h.0, flush_keys)
        (flush_keys-Settled ks s h.1)

  -- Where every tracked entity is detached, or managed without a changed field, `flush` executes
  -- nothing, calls nothing and changes nothing.
  pub flush-Settled :
      (s : State W)
      → All (λ k. Settled k (s.unit.tracked k) (s.unit.objects k)) s.unit.order
      → flush x s ≡ ok s
  unfolding flush
  flush-Settled s h = flush_keys-Settled s.unit.order s h
