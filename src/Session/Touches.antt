-- ===== src/Session/Touches.antt =====
-- include/metal/unit_of_work.hpp: flushing one entity leaves the others as they are.
use metal_orm_cpp.Base.{
  ℕ, ◌≡◌, refl, sym, ap, subst, ◌∙◌, Bool, true, false, Option, none, some, List, [], ◌∷◌, Result,
  ok, err, Map, ◌==◌, if◌then◌else◌, arith,
}
use metal_orm_cpp.Value.{Value, QueryResult}
use metal_orm_cpp.Query.{QueryError, CompiledQuery}
use metal_orm_cpp.Session.{put, untrack, without, has}
use metal_orm_cpp.Session.Flush.{
  Entity, FlushError, State, Setting, then_ok, set_fields, set_key, store_key, run_query,
  mark_managed, needs_generated_key, generated_key, Objects, insert_row, insert_query, update_row,
  update_query, delete_row, delete_query,
}

pub then_ok-inv :
    {A B : Type 0} (r : Result FlushError A) (f : A → Result FlushError B) (b : B)
    → then_ok r f ≡ ok b
    → (a : A) × ((r ≡ ok a) × (f a ≡ ok b))
unfolding then_ok
then_ok-inv (ok a) f b h = (a, (refl, h))
then_ok-inv (err e) f b h = cc

pub ok_inj : {A : Type 0} (a b : A) → ◌≡◌ {A = Result FlushError A} (ok a) (ok b) → a ≡ b
ok_inj a b h = cc

-- From `u` to `v`, only the entity `k` and its object have changed, and no entity has come in.
pub record Touches (k : ℕ) (u v : Objects) : Type 0 where
  pub tracked : (j : ℕ) → (k == j) ≡ false → v.tracked j ≡ u.tracked j
  pub objects : (j : ℕ) → (k == j) ≡ false → v.objects j ≡ u.objects j
  pub order : (j : ℕ) → has j v.order ≡ true → has j u.order ≡ true

pub Touches-refl : (k : ℕ) (u : Objects) → Touches k u u
Touches-refl k u = record { tracked = λ j h. refl; objects = λ j h. refl; order = λ j h. h }

pub Touches-trans : (k : ℕ) (u v w : Objects) → Touches k u v → Touches k v w → Touches k u w
Touches-trans k u v w a b = record {
  tracked = λ j h. b.tracked j h ∙ a.tracked j h;
  objects = λ j h. b.objects j h ∙ a.objects j h;
  order = λ j h. a.order j (b.order j h);
}

pub put_other : {A : Type 0} (k j : ℕ) (a : A) (m : ℕ → A) → (k == j) ≡ false → put k a m j ≡ m j
unfolding put
put_other k j a m h = rw h refl

pub put_same : {A : Type 0} (k : ℕ) (a : A) (m : ℕ → A) → put k a m k ≡ a
unfolding put
put_same k a m = ground arith

pub has-without : (k j : ℕ) (ks : List ℕ) → has j (without k ks) ≡ true → has j ks ≡ true
unfolding has without
has-without k j [] h = cc
has-without k j (i ∷ ks) h = ground (arith, h, has-without k j ks)

pub untrack-Touches : (k : ℕ) (u : Objects) → Touches k u (untrack k u)
unfolding untrack
untrack-Touches k u = record {
  tracked = λ j h. put_other k j none u.tracked h;
  objects = λ j h. refl;
  order = λ j h. has-without k j u.order h;
}

module _ {W : Type 0} (x : Setting W) where
  pub run_query_unit :
      (q : Result QueryError CompiledQuery) (s : State W) (p : QueryResult × State W)
      → run_query x q s ≡ ok p
      → p.1.unit ≡ s.unit
  unfolding run_query
  run_query_unit (err e) s p h = cc
  run_query_unit (ok q) s p h =
      let (a, (h1, h2)) =
        then_ok-inv (x.execute q.sql q.params s.db) (λ r. ok (r.0, record s { db = r.1 })) p h in
      sym (ap (λ r. r.1.unit) (ok_inj (a.0, record s { db = a.1 }) p h2))

  pub mark_managed-Touches : (k : ℕ) (s : State W) → Touches k s.unit (mark_managed x k s).unit
  unfolding mark_managed
  mark_managed-Touches k s = record {
    tracked = λ j h. put_other k j _ s.unit.tracked h;
    objects = λ j h. refl;
    order = λ j h. h;
  }

  pub set_fields-Touches :
      (k : ℕ) (fields : Map Value) (s : State W) → Touches k s.unit (set_fields x k fields s).unit
  unfolding set_fields
  set_fields-Touches k fields s = record {
    tracked = λ j h. refl;
    objects = λ j h. put_other k j fields s.unit.objects h;
    order = λ j h. h;
  }

  pub set_key-Touches :
      (k : ℕ) (v : Option Value) (s t : State W) → set_key x k v s ≡ ok t → Touches k s.unit t.unit
  unfolding set_key
  set_key-Touches k none s t h = cc
  set_key-Touches k (some v) s t h =
      let (fields, (h1, h2)) =
        then_ok-inv (x.set_pk k v (s.unit.objects k)) (λ fields. ok (set_fields x k fields s)) t
          h in
      subst (λ r. Touches k s.unit r.unit) (ok_inj (set_fields x k fields s) t h2)
        (set_fields-Touches k fields s)

  pub store_key-Touches :
      (k : ℕ) (e : Entity) (r : QueryResult) (s t : State W)
      → store_key x k e r s ≡ ok t
      → Touches k s.unit t.unit
  unfolding store_key
  store_key-Touches k e r s t h = go (needs_generated_key e (s.unit.objects k)) h
    where
      go :
          (b : Bool)
          → (if b then set_key x k (generated_key x e r) s else ok s) ≡ ok t
          → Touches k s.unit t.unit
      go true g = set_key-Touches k (generated_key x e r) s t g
      go false g = subst (λ q. Touches k s.unit q.unit) (ok_inj s t g) (Touches-refl k s.unit)

  pub insert_row-Touches :
      (k : ℕ) (s t : State W) → insert_row x k s ≡ ok t → Touches k s.unit t.unit
  unfolding insert_row
  insert_row-Touches k s t h =
      let q = insert_query x.dialect x.returning (x.entity k) (s.unit.objects k) in
      let (p, (h1, h2)) =
        then_ok-inv (run_query x q s) (λ r. store_key x k (x.entity k) r.0 r.1) t h in
      subst (λ u. Touches k u t.unit) (run_query_unit q s p h1)
        (store_key-Touches k (x.entity k) p.0 p.1 t h2)

  pub update_row_unit :
      (k : ℕ) (fields : Map Value) (s t : State W)
      → update_row x k fields s ≡ ok t
      → t.unit ≡ s.unit
  unfolding update_row
  update_row_unit k fields s t h =
      let q = update_query x.dialect (x.entity k) fields (s.unit.objects k) in
      let (p, (h1, h2)) = then_ok-inv (run_query x q s) (λ r. ok r.1) t h in
      ap (λ r. r.unit) (sym (ok_inj p.1 t h2)) ∙ run_query_unit q s p h1

  pub delete_row_unit : (k : ℕ) (s t : State W) → delete_row x k s ≡ ok t → t.unit ≡ s.unit
  unfolding delete_row
  delete_row_unit k s t h =
      let q = delete_query x.dialect (x.entity k) (s.unit.objects k) in
      let (p, (h1, h2)) = then_ok-inv (run_query x q s) (λ r. ok r.1) t h in
      ap (λ r. r.unit) (sym (ok_inj p.1 t h2)) ∙ run_query_unit q s p h1
