-- ===== src/Session/Rollback.antt =====
-- include/metal/unit_of_work.hpp: what `rollback_checkpoint` restores.
use metal_orm_cpp.Base.{
  ℕ, ◌≡◌, ◌≢◌, ◌⊎◌, refl, sym, ap, ◌∙◌, inl, inr, true, false, Option, none, some, List, [], ◌∷◌,
  if◌then◌else◌, ◌==◌, Bool-cases, Option-cases, ==_iff,
}
use metal_orm_cpp.Session.{
  Tracked, Entry, Checkpoint, UnitOfWork, has, put, capture_entry, cover, cover_all, track, untrack,
  refresh_snapshot, captured, begin_checkpoint, restored_entity, restored_object, restore_from,
  rollback_checkpoint,
}

-- What a session and its client do between the begin and the end of a checkpoint.
pub data Action (F : Type 0) : Type 0 where
  do_track : ℕ → Tracked F → Action F
  do_untrack : ℕ → Action F
  do_refresh : ℕ → Action F
  do_assign : ℕ → F → Action F

module _ {F : Type 0} where
  unfoldable pub perform : Action F → UnitOfWork F → UnitOfWork F
  unfolding track untrack refresh_snapshot put
  perform (do_track k t) u = track k t u
  perform (do_untrack k) u = untrack k u
  perform (do_refresh k) u = refresh_snapshot k u
  perform (do_assign k f) u = record u { objects = put k f u.objects }

  unfoldable pub perform_all : List (Action F) → UnitOfWork F → UnitOfWork F
  unfolding perform
  perform_all [] u = u
  perform_all (a ∷ acts) u = perform_all acts (perform a u)

  -- Every tracked key is in the order.
  abbrev pub IsOrdered : UnitOfWork F → Type 0
  IsOrdered u = (k : ℕ) → u.tracked k ≢ none → has k u.order ≡ true

  -- What the checkpoint has of a key against the unit of work at its begin, and the present one.
  abbrev Fine : UnitOfWork F → ℕ → Option (Entry F) → Option (Tracked F) → Type 0
  Fine u k none t = (u.tracked k ≡ none) × (t ≡ none)
  Fine u k (some e) t =
      ((if e.existed then some e.tracked else none) ≡ u.tracked k)
      × (e.existed ≡ true → e.current ≡ u.objects k)

  record Under (u : UnitOfWork F) (c : Checkpoint F) (v : UnitOfWork F) : Type 0 where
    order : c.order ≡ u.order
    fine : (k : ℕ) → Fine u k (c.entries k) (v.tracked k)

  -- An entry has what it needs, whatever becomes of the key.
  Fine-some :
      (u : UnitOfWork F) (k : ℕ) (e : Entry F) (o : Option (Entry F)) (t t' : Option (Tracked F))
      → o ≡ some e
      → Fine u k o t
      → Fine u k o t'
  Fine-some u k e none t t' q h = cc
  Fine-some u k e (some d) t t' q h = h

  begin-Under :
      (u : UnitOfWork F)
      → IsOrdered u
      → Under u (record { entries = captured u; order = u.order }) (begin_checkpoint u)
  unfolding begin_checkpoint captured capture_entry
  begin-Under u o = record { order = refl; fine = λ k. at k (Option-cases (u.tracked k)) }
    where
      at :
          (k : ℕ)
          → (u.tracked k ≡ none) ⊎ ((t : Tracked F) × (u.tracked k ≡ some t))
          → Fine u k (captured u k) (u.tracked k)
      at k (inl e) = elim (Bool-cases (has k u.order)) [
        | inl h ↦ rw (h, e, captured) (e, refl)
        | inr h ↦ rw (h, captured) (e, e)
      ]
      at k (inr (t, e)) = rw (o k (λ n. cc (n, e)), e, captured) (sym e, λ _. refl)

  cover-Under :
      (u v : UnitOfWork F) (c : Checkpoint F) (k : ℕ) (t : Tracked F) (now : F)
      → Under u c v
      → (w : UnitOfWork F) → w.tracked ≡ put k (some t) v.tracked
      → Under u (cover k t now c) w
  unfolding cover put capture_entry
  cover-Under u v c k t now i w same = elim (Option-cases (c.entries k)) [
    | inl e ↦
        rw (e, cover)
          (record {
            order = i.order;
            fine = λ j. elim (Bool-cases (k == j)) [
              | inl h ↦ rw (same, put) (rw h (fresh j h e))
              | inr h ↦ rw (same, put) (rw h (i.fine j))
            ];
          })
    | inr (d, e) ↦
        rw (e, cover)
          (record {
            order = i.order;
            fine = λ j. elim (Bool-cases (k == j)) [
              | inl h ↦
                  Fine-some u j d (c.entries j) (v.tracked j) (w.tracked j)
                    (ap c.entries (sym ((==_iff k j).0 h)) ∙ e) (i.fine j)
              | inr h ↦ rw (same, put) (rw h (i.fine j))
            ];
          })
  ]
    where
      absent : (j : ℕ) → c.entries j ≡ none → u.tracked j ≡ none
      absent j e = first j (c.entries j) e (i.fine j)
        where
          first :
              (m : ℕ) (o : Option (Entry F))
              → o ≡ none
              → Fine u m o (v.tracked m)
              → u.tracked m ≡ none
          first m none q h = h.0
          first m (some x) q h = cc

      fresh :
          (j : ℕ)
          → (k == j) ≡ true
          → c.entries k ≡ none
          → (none ≡ u.tracked j) × (false ≡ true → now ≡ u.objects j)
      fresh j h e = (sym (absent j (ap c.entries (sym ((==_iff k j).0 h)) ∙ e)), λ f. cc)

  abbrev Top : UnitOfWork F → UnitOfWork F → Type 0
  Top u v = (c : Checkpoint F) × (cs : List (Checkpoint F)) × (v.checkpoints ≡ c ∷ cs) × Under u c v

  -- A key that is changed without a new entry.
  put-Under :
      (u v w : UnitOfWork F) (c : Checkpoint F) (k : ℕ) (x : Option (Tracked F))
      → Under u c v
      → w.tracked ≡ put k x v.tracked
      → (v.tracked k ≡ none → x ≡ none)
      → Under u c w
  unfolding put
  put-Under u v w c k x i same known = record {
    order = i.order;
    fine = λ j. elim (Bool-cases (k == j)) [
      | inl h ↦ rw (same, put) (rw h (at j (c.entries j) (i.fine j) h))
      | inr h ↦ rw (same, put) (rw h (i.fine j))
    ];
  }
    where
      at :
          (j : ℕ) (o : Option (Entry F)) → Fine u j o (v.tracked j) → (k == j) ≡ true → Fine u j o x
      at j none h e = (h.0, known (ap v.tracked ((==_iff k j).0 e) ∙ h.1))
      at j (some d) h e = h

  perform-Top : (u v : UnitOfWork F) (a : Action F) → Top u v → Top u (perform a v)
  unfolding perform track untrack refresh_snapshot cover_all
  perform-Top u v (do_track k t) (c, cs, e, i) = (
    cover k t (v.objects k) c,
    cover_all k t (v.objects k) cs,
    ap (cover_all k t (v.objects k)) e,
    cover-Under u v c k t (v.objects k) i (track k t v) refl,
  )
  perform-Top u v (do_untrack k) (c, cs, e, i) =
      (c, cs, e, put-Under u v (untrack k v) c k none i refl (λ n. refl))
  perform-Top u v (do_refresh k) (c, cs, e, i) = elim (Option-cases (v.tracked k)) [
    | inl n ↦ rw (n, refresh_snapshot) (c, cs, e, i)
    | inr (t, n) ↦
        rw (n, refresh_snapshot)
          (
            c,
            cs,
            e,
            put-Under u v
                (record v {
                  tracked = put k (some (record t { original = v.objects k })) v.tracked;
                })
                c k (some (record t { original = v.objects k })) i refl (λ m. cc (m, n)),
          )
  ]
  perform-Top u v (do_assign k f) (c, cs, e, i) =
      (c, cs, e, record { order = i.order; fine = i.fine })

  perform_all-Top :
      (u v : UnitOfWork F) (acts : List (Action F)) → Top u v → Top u (perform_all acts v)
  unfolding perform_all
  perform_all-Top u v [] t = t
  perform_all-Top u v (a ∷ acts) t = perform_all-Top u (perform a v) acts (perform-Top u v a t)

  back_to :
      (u : UnitOfWork F) (k : ℕ) (o : Option (Entry F)) (t : Option (Tracked F)) (now : F)
      → Fine u k o t
      → (restored_entity o t ≡ u.tracked k)
        × (u.tracked k ≢ none → restored_object o now ≡ u.objects k)
  unfolding restored_entity restored_object
  back_to u k none t now (a, b) = (b ∙ sym a, λ n. absurd (n a))
  back_to u k (some e) t now (a, b) = (
    a,
    λ n. elim (Bool-cases e.existed) [
      | inl h ↦ b h
      | inr h ↦ absurd (n (sym (ap (λ x. if x then some e.tracked else none) (sym h) ∙ a)))
    ],
  )

  -- After any sequence of tracking, erasing and refreshing entities and of changes to the objects
  -- inside a checkpoint, `rollback_checkpoint` succeeds and restores the unit of work of its begin: the
  -- same entities with the same states and snapshots, in the same order, and every object that was
  -- tracked then has its values of then.
  pub rollback-begin :
      (u : UnitOfWork F) (acts : List (Action F))
      → IsOrdered u
      → (v : UnitOfWork F) × (rollback_checkpoint (perform_all acts (begin_checkpoint u)) ≡ some v)
        × (v.order ≡ u.order)
        × ((k : ℕ) → v.tracked k ≡ u.tracked k)
        × ((k : ℕ) → u.tracked k ≢ none → v.objects k ≡ u.objects k)
  unfolding rollback_checkpoint restore_from
  rollback-begin u acts o =
      let w = perform_all acts (begin_checkpoint u) in
      let (c, cs, e, i) = perform_all-Top u (begin_checkpoint u) acts (start u o) in
      (
        restore_from c cs w,
        rw (e, rollback_checkpoint) refl,
        i.order,
        λ k. (back_to u k (c.entries k) (w.tracked k) (w.objects k) (i.fine k)).0,
        λ k. (back_to u k (c.entries k) (w.tracked k) (w.objects k) (i.fine k)).1,
      )
    where
      start : (x : UnitOfWork F) → IsOrdered x → Top x (begin_checkpoint x)
      start x p = (
        record { entries = captured x; order = x.order },
        x.checkpoints,
        unfold begin_checkpoint in refl,
        begin-Under x p,
      )
