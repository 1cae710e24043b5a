-- ===== src/Session/Twice.antt =====
-- include/metal/unit_of_work.hpp: after a flush there is nothing left to flush.
use metal_orm_cpp.Base.{
  ℕ, ◌≡◌, refl, sym, ap, subst, ◌∙◌, ◌⊎◌, inl, inr, true, Option, none, some, List, [], ◌∷◌, Result,
  ok, Map, All, ◌==◌, Bool-cases, arith,
}
use metal_orm_cpp.Value.{Value}
use metal_orm_cpp.Session.{
  Tracked, Status, managed, detached, new_entity, removed, refresh_snapshot, put, untrack, has,
}
use metal_orm_cpp.Session.Flush.{
  Callback, before_insert, after_insert, register_identity, before_update, after_update,
  before_delete, after_delete, erase_identity, FlushError, State, Setting, then_ok, and_then,
  mark_managed, changed, insert_row, update_row, delete_row, flush_insert, update_changed,
  flush_update_if_dirty, flush_delete, flush_tracked, flush_status, flush_keys, flush,
}
use metal_orm_cpp.Session.Touches.{
  then_ok-inv, ok_inj, Touches, Touches-refl, Touches-trans, put_same, put_other, untrack-Touches,
  mark_managed-Touches, insert_row-Touches, update_row_unit, delete_row_unit,
}
use metal_orm_cpp.Session.Settled.{Settled, flush-Settled}

has_first : (k : ℕ) (ks : List ℕ) → has k (k ∷ ks) ≡ true
unfolding has
has_first k ks = ground arith

has_later : (j k : ℕ) (ks : List ℕ) → has j ks ≡ true → has j (k ∷ ks) ≡ true
unfolding has
has_later j k ks h = ground (arith, h)

module _ {W : Type 0} (x : Setting W) where
  -- The callbacks return and change nothing.
  abbrev pub IsQuiet : Type 0
  IsQuiet = (c : Callback) (k : ℕ) (s : State W) → x.callback c k s ≡ ok s

  -- As `Settled`, or with a snapshot just taken.
  abbrev Flushed : ℕ → Option (Tracked (Map Value)) → Map Value → Type 0
  Flushed k none now = Unit
  Flushed k (some t) now =
      (t.status ≡ detached)
      ⊎ ((t.status ≡ managed)
          × ((changed x.real_eq (x.entity k) t.original now ≡ []) ⊎ (t.original ≡ now)))

  abbrev FlushedIn : State W → ℕ → Type 0
  FlushedIn s k = Flushed k (s.unit.tracked k) (s.unit.objects k)

  quiet_then :
      IsQuiet
      → (c : Callback) (k : ℕ) (g : State W → Result FlushError (State W)) (s : State W)
      → and_then x (x.callback c k) g s ≡ g s
  unfolding and_then then_ok
  quiet_then q c k g s = ap (λ r. then_ok r g) (q c k s)

  mark_managed-Flushed : (k : ℕ) (s : State W) → FlushedIn (mark_managed x k s) k
  unfolding mark_managed
  mark_managed-Flushed k s =
      subst (λ o. Flushed k o (s.unit.objects k))
        (sym (
          put_same k (some (record { status = managed; original = s.unit.objects k }))
            s.unit.tracked))
        (inr (refl, inr refl))

  flush_insert_lem :
      IsQuiet
      → (k : ℕ) (s t : State W) → flush_insert x k s ≡ ok t
      → Touches k s.unit t.unit × FlushedIn t k
  unfolding flush_insert and_then then_ok
  flush_insert_lem q k s t h =
      let (u, (h1, h2)) =
        then_ok-inv (insert_row x k s)
          (and_then x (λ r. ok (mark_managed x k r))
            (and_then x (x.callback register_identity k) (x.callback after_insert k)))
          t (sym (quiet_then q before_insert k _ s) ∙ h) in
      subst (λ r. Touches k s.unit r.unit × FlushedIn r k)
        (ok_inj (mark_managed x k u) t (
          sym (
            quiet_then q register_identity k (x.callback after_insert k) (mark_managed x k u)
            ∙ q after_insert k (mark_managed x k u))
          ∙ h2))
        (
          Touches-trans k s.unit u.unit (mark_managed x k u).unit (insert_row-Touches x k s u h1)
              (mark_managed-Touches x k u),
          mark_managed-Flushed k u,
        )

  -- The snapshot of a managed entity, taken anew.
  refreshed_lem :
      (k : ℕ) (a : Tracked (Map Value)) (u : State W)
      → u.unit.tracked k ≡ some a
      → refresh_snapshot k u.unit ≡ record u.unit {
        tracked = put k (some (record a { original = u.unit.objects k })) u.unit.tracked;
      }
  unfolding refresh_snapshot
  refreshed_lem k a u h = rw (h, refresh_snapshot) refl

  refreshed_Touches :
      (k : ℕ) (a : Tracked (Map Value)) (u t : State W)
      → u.unit.tracked k ≡ some a
      → a.status ≡ managed
      → ◌≡◌ {A = State W} (record u { unit = refresh_snapshot k u.unit }) t
      → Touches k u.unit t.unit × FlushedIn t k
  refreshed_Touches k a u t h m e =
      subst (λ r. Touches k u.unit r.unit × FlushedIn r k)
        (ap (λ v. record u { unit = v }) (sym (refreshed_lem k a u h)) ∙ e)
        (
          record {
            tracked = λ j g.
                put_other k j (some (record a { original = u.unit.objects k })) u.unit.tracked g;
            objects = λ j g. refl;
            order = λ j g. g;
          },
          subst (λ o. Flushed k o (u.unit.objects k))
              (sym (put_same k (some (record a { original = u.unit.objects k })) u.unit.tracked))
              (inr (m, inr refl)),
        )

  update_changed_lem :
      IsQuiet
      → (k : ℕ) (a : Tracked (Map Value)) (c : Map Value) (s t : State W)
      → s.unit.tracked k ≡ some a
      → a.status ≡ managed
      → changed x.real_eq (x.entity k) a.original (s.unit.objects k) ≡ c
      → update_changed x k c s ≡ ok t
      → Touches k s.unit t.unit × FlushedIn t k
  unfolding update_changed and_then then_ok
  update_changed_lem q k a [] s t g m e h =
      subst (λ r. Touches k s.unit r.unit × FlushedIn r k) (ok_inj s t h)
        (
          Touches-refl k s.unit,
          subst (λ o. Flushed k o (s.unit.objects k)) (sym g) (inr (m, inl e)),
        )
  update_changed_lem q k a (f ∷ fields) s t g m e h =
      let (u, (h1, h2)) =
        then_ok-inv (update_row x k (f ∷ fields) s)
          (and_then x (λ r. ok (record r { unit = refresh_snapshot k r.unit }))
            (x.callback after_update k))
          t (sym (quiet_then q before_update k _ s) ∙ h) in
      subst (λ v. Touches k v t.unit × FlushedIn t k) (update_row_unit x k (f ∷ fields) s u h1)
        (refreshed_Touches k a u t
          (ap (λ v. v.tracked k) (update_row_unit x k (f ∷ fields) s u h1) ∙ g) m
          (ok_inj (record u { unit = refresh_snapshot k u.unit }) t
            (sym (q after_update k (record u { unit = refresh_snapshot k u.unit })) ∙ h2)))

  flush_delete_lem :
      IsQuiet
      → (k : ℕ) (s t : State W) → flush_delete x k s ≡ ok t
      → Touches k s.unit t.unit × FlushedIn t k
  unfolding flush_delete and_then then_ok untrack
  flush_delete_lem q k s t h =
      let (u, (h1, h2)) =
        then_ok-inv (delete_row x k s)
          (and_then x (x.callback erase_identity k) (
            and_then x (λ r. ok (record r { unit = untrack k r.unit }))
              (x.callback after_delete k)))
          t (sym (quiet_then q before_delete k _ s) ∙ h) in
      subst (λ v. Touches k v t.unit × FlushedIn t k) (delete_row_unit x k s u h1)
        (subst (λ r. Touches k u.unit r.unit × FlushedIn r k)
          (ok_inj (record u { unit = untrack k u.unit }) t
            (sym (
                quiet_then q erase_identity k
                  (and_then x (λ r. ok (record r { unit = untrack k r.unit }))
                    (x.callback after_delete k))
                  u
                ∙ q after_delete k (record u { unit = untrack k u.unit }))
              ∙ h2))
          (
            untrack-Touches k u.unit,
            subst (λ o. Flushed k o (u.unit.objects k)) (sym (put_same k none u.unit.tracked)) tt,
          ))

  flush_status_lem :
      IsQuiet
      → (st : Status) (k : ℕ) (a : Tracked (Map Value)) (s t : State W) → s.unit.tracked k ≡ some a
      → a.status ≡ st
      → flush_status x st k a.original s ≡ ok t
      → Touches k s.unit t.unit × FlushedIn t k
  unfolding flush_status flush_update_if_dirty
  flush_status_lem q new_entity k a s t g e h = flush_insert_lem q k s t h
  flush_status_lem q managed k a s t g e h =
      update_changed_lem q k a (changed x.real_eq (x.entity k) a.original (s.unit.objects k)) s t g
        e refl h
  flush_status_lem q removed k a s t g e h = flush_delete_lem q k s t h
  flush_status_lem q detached k a s t g e h =
      subst (λ r. Touches k s.unit r.unit × FlushedIn r k) (ok_inj s t h)
        (Touches-refl k s.unit, subst (λ o. Flushed k o (s.unit.objects k)) (sym g) (inl e))

  flush_tracked_lem :
      IsQuiet
      → (k : ℕ) (o : Option (Tracked (Map Value))) (s t : State W) → s.unit.tracked k ≡ o
      → flush_tracked x k o s ≡ ok t
      → Touches k s.unit t.unit × FlushedIn t k
  unfolding flush_tracked
  flush_tracked_lem q k none s t g h =
      subst (λ r. Touches k s.unit r.unit × FlushedIn r k) (ok_inj s t h)
        (Touches-refl k s.unit, subst (λ o. Flushed k o (s.unit.objects k)) (sym g) tt)
  flush_tracked_lem q k (some a) s t g h = flush_status_lem q a.status k a s t g refl h

  kept :
      (k j : ℕ) (s t : State W)
      → Touches k s.unit t.unit × FlushedIn t k
      → FlushedIn s j
      → FlushedIn t j
  kept k j s t (m, f) h = elim (Bool-cases (k == j)) [
    | inl e ↦ subst (FlushedIn t) (ground (arith, e)) f
    | inr n ↦
        subst (λ o. Flushed j o (t.unit.objects j)) (sym (m.tracked j n))
          (subst (Flushed j (s.unit.tracked j)) (sym (m.objects j n)) h)
  ]

  -- What the loop over `ks` leaves.
  record Flushes (ks : List ℕ) (s t : State W) : Type 0 where
    keeps : (j : ℕ) → FlushedIn s j → FlushedIn t j
    reaches : (j : ℕ) → has j ks ≡ true → FlushedIn t j
    order : (j : ℕ) → has j t.unit.order ≡ true → has j s.unit.order ≡ true

  flush_keys_lem :
      IsQuiet → (ks : List ℕ) (s t : State W) → flush_keys x ks s ≡ ok t → Flushes ks s t
  unfolding flush_keys has
  flush_keys_lem q [] s t h =
      subst (Flushes [] s) (ok_inj s t h)
        (record { keeps = λ j g. g; reaches = λ j g. cc; order = λ j g. g })
  flush_keys_lem q (k ∷ ks) s t h =
      let (u, (h1, h2)) =
        then_ok-inv (flush_tracked x k (s.unit.tracked k) s) (flush_keys x ks) t h in
      let a = flush_tracked_lem q k (s.unit.tracked k) s u refl h1 in
      let later = flush_keys_lem q ks u t h2 in
      record {
        keeps = λ j g. later.keeps j (kept k j s u a g);
        reaches = λ j g. elim (Bool-cases (k == j)) [
          | inl e ↦ later.keeps j (subst (FlushedIn u) (ground (arith, e)) a.1)
          | inr n ↦ later.reaches j (ground (arith, g, n))
        ];
        order = λ j g. a.0.order j (later.order j g);
      }

  settled :
      (k : ℕ) (o : Option (Tracked (Map Value))) (now : Map Value)
      → changed x.real_eq (x.entity k) now now ≡ []
      → Flushed k o now
      → Settled x k o now
  settled k none now h f = tt
  settled k (some a) now h (inl d) = inl d
  settled k (some a) now h (inr (m, inl c)) = inr (m, c)
  settled k (some a) now h (inr (m, inr e)) =
      inr (m, ap (λ o. changed x.real_eq (x.entity k) o now) e ∙ h)

  -- The object has no changed field against its own values.
  abbrev pub IsSteady : State W → ℕ → Type 0
  IsSteady s k = changed x.real_eq (x.entity k) (s.unit.objects k) (s.unit.objects k) ≡ []

  settled_all :
      (ks : List ℕ) (s : State W)
      → ((j : ℕ) → has j ks ≡ true → FlushedIn s j)
      → All (IsSteady s) ks
      → All (λ k. Settled x k (s.unit.tracked k) (s.unit.objects k)) ks
  settled_all [] s f n = tt
  settled_all (k ∷ ks) s f n = (
    settled k (s.unit.tracked k) (s.unit.objects k) n.0 (f k (has_first k ks)),
    settled_all ks s (λ j g. f j (has_later j k ks g)) n.1,
  )

  -- A flush that has succeeded leaves nothing to flush: where the callbacks change nothing, and each
  -- object that is still tracked has no changed field against its own values, as it has without a NaN
  -- in it, a second flush executes nothing and changes nothing.
  pub flush-flush :
      (s t : State W)
      → IsQuiet
      → flush x s ≡ ok t
      → All (IsSteady t) t.unit.order
      → flush x t ≡ ok t
  unfolding flush
  flush-flush s t q h n =
      let all = flush_keys_lem q s.unit.order s t h in
      flush-Settled x t (settled_all t.unit.order t (λ j g. all.reaches j (all.order j g)) n)
