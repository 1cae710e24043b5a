-- ===== src/Session/Flush.antt =====
-- include/metal/unit_of_work.hpp: `flush` and what it does with a new, a managed and a removed entity.
-- What an object holds is the map that `snapshot` reads; its primary key is a field of it.
use metal_orm_cpp.Base.{
  ℕ, zero, Bool, true, false, not, ◌&&◌, ◌||◌, Option, none, some, List, [], ◌∷◌, Text, text_eq,
  Result, ok, err, if◌then◌else◌, Map, find, ◌==◌,
}
use metal_orm_cpp.Value.{ℤ, pos, negsuc, Value, null, int, real, text, flag, blob, QueryResult}
use metal_orm_cpp.Cache.Codec.{sort_fields}
use metal_orm_cpp.Dialect.{Dialect}
use metal_orm_cpp.Query.{QueryError, CompiledQuery}
use metal_orm_cpp.Dml.{DmlAssignment, value, compile_insert, compile_update, compile_delete}
use metal_orm_cpp.Dml.Insert
use metal_orm_cpp.Dml.Update
use metal_orm_cpp.Dml.Delete
use metal_orm_cpp.Session.{
  Status, Tracked, new_entity, managed, removed, detached, UnitOfWork, put, untrack,
  refresh_snapshot,
}

-- What the reflected type of an entity says.
pub record Entity : Type 0 where
  pub table : Text
  pub primary_key : Text
  pub generated_pk : Bool

pub data FlushError : Type 0 where
  not_compiled : QueryError → FlushError
  no_generated_key execute_failed callback_failed : FlushError

-- The callbacks of a tracked entity but for those that read and write its values.
pub data Callback : Type 0 where
  before_insert after_insert before_update after_update before_delete after_delete : Callback
  register_identity erase_identity : Callback

abbrev pub Objects : Type 0
Objects = UnitOfWork (Map Value)

pub record State (W : Type 0) : Type 0 where
  pub unit : Objects
  pub db : W

-- What the unit of work is given: its dialect (`returning` where generated keys come back as rows),
-- the executor, the entities' types, the callbacks, of which `set_pk` reads a value into the field of
-- the primary key, with what the object holds then, and the comparison of two values of `double`.
pub record Setting (W : Type 0) : Type 0 where
  pub dialect : Dialect
  pub returning : Bool
  pub execute : Text → List Value → W → Result FlushError (QueryResult × W)
  pub entity : ℕ → Entity
  pub set_pk : ℕ → Value → Map Value → Result FlushError (Map Value)
  pub callback : Callback → ℕ → State W → Result FlushError (State W)
  pub real_eq : ℕ → ℕ → Bool

unfoldable pub int_eq : ℤ → ℤ → Bool
int_eq (pos m) (pos n) = m == n
int_eq (pos m) (negsuc n) = false
int_eq (negsuc m) (pos n) = false
int_eq (negsuc m) (negsuc n) = m == n

unfoldable pub flag_eq : Bool → Bool → Bool
flag_eq true b = b
flag_eq false b = not b

-- `operator==` of the variant.
unfoldable pub value_eq : (ℕ → ℕ → Bool) → Value → Value → Bool
unfolding int_eq flag_eq
value_eq real_eq null null = true
value_eq real_eq (int m) (int n) = int_eq m n
value_eq real_eq (real x) (real y) = real_eq x y
value_eq real_eq (text s) (text t) = text_eq s t
value_eq real_eq (flag a) (flag b) = flag_eq a b
value_eq real_eq (blob s) (blob t) = text_eq s t
value_eq real_eq v w = false

unfoldable pub is_empty_generated_value : Value → Bool
is_empty_generated_value null = true
is_empty_generated_value (int (pos zero)) = true
is_empty_generated_value v = false

unfoldable pub key_of : Entity → Map Value → Value
key_of e fields = elim (find e.primary_key fields) [ some v ↦ v | none ↦ null ]

unfoldable pub needs_generated_key : Entity → Map Value → Bool
unfolding key_of is_empty_generated_value
needs_generated_key e fields = e.generated_pk && is_empty_generated_value (key_of e fields)

unfoldable pub assignments_of : Map Value → List DmlAssignment
assignments_of [] = []
assignments_of ((name, v) ∷ fields) =
    record { column = name; operand = value v } ∷ assignments_of fields

unfoldable pub without_field : Text → Map Value → Map Value
without_field name [] = []
without_field name ((n, v) ∷ fields) =
    let rest = without_field name fields in if text_eq n name then rest else (n, v) ∷ rest

unfoldable pub inserted_fields : Entity → Map Value → Map Value
unfolding needs_generated_key without_field sort_fields
inserted_fields e fields =
    sort_fields
      (if needs_generated_key e fields then without_field e.primary_key fields else fields)

unfoldable pub insert_query : Dialect → Bool → Entity → Map Value → Result QueryError CompiledQuery
unfolding inserted_fields assignments_of Insert.add_row Insert.insert_into Insert.returning
    Insert.returning_names compile_insert
insert_query d returning e fields =
    let b =
      Insert.add_row (Insert.insert_into e.table []) (assignments_of (inserted_fields e fields)) in
    compile_insert d
      (if needs_generated_key e fields && returning
        then Insert.returning b (Insert.returning_names (e.primary_key ∷ []))
        else b).node

-- The fields that differ from `original`, or are not in it.
unfoldable pub changed : (ℕ → ℕ → Bool) → Entity → Map Value → Map Value → Map Value
unfolding value_eq
changed real_eq e original [] = []
changed real_eq e original ((name, v) ∷ fields) =
    let rest = changed real_eq e original fields in
    if text_eq name e.primary_key
      || elim (find name original) [ none ↦ false | some w ↦ value_eq real_eq w v ]
    then rest
    else (name, v) ∷ rest

unfoldable pub update_query :
    Dialect → Entity → Map Value → Map Value → Result QueryError CompiledQuery
unfolding assignments_of key_of Update.set Update.where_eq Update.update compile_update sort_fields
update_query d e fields now = compile_update d (
    Update.where_eq (Update.set (Update.update e.table) (assignments_of (sort_fields fields)))
      e.primary_key (key_of e now))

unfoldable pub delete_query : Dialect → Entity → Map Value → Result QueryError CompiledQuery
unfolding key_of Delete.where_eq Delete.delete_from compile_delete
delete_query d e fields =
    compile_delete d (Delete.where_eq (Delete.delete_from e.table) e.primary_key (key_of e fields))

-- What follows a call that may throw.
unfoldable pub then_ok :
    {A B : Type 0} → Result FlushError A → (A → Result FlushError B) → Result FlushError B
then_ok (ok a) f = f a
then_ok (err e) f = err e

module _ {W : Type 0} (x : Setting W) where
  -- A part of `flush`: it goes on, or throws.
  abbrev pub Step : Type 0
  Step = State W → Result FlushError (State W)

  unfoldable pub and_then : Step → Step → Step
  unfolding then_ok
  and_then f g s = then_ok (f s) g

  unfoldable pub run_query :
      Result QueryError CompiledQuery → State W → Result FlushError (QueryResult × State W)
  unfolding then_ok
  run_query (err e) s = err (not_compiled e)
  run_query (ok q) s =
      then_ok (x.execute q.sql q.params s.db) (λ p. ok (p.0, record s { db = p.1 }))

  unfoldable pub set_fields : ℕ → Map Value → State W → State W
  unfolding put
  set_fields k fields s = record s {
    unit = record s.unit { objects = put k fields s.unit.objects };
  }

  -- The key that the database has given.
  unfoldable pub generated_key : Entity → QueryResult → Option Value
  generated_key e r =
      if x.returning
      then elim r.rows [ [] ↦ none | row ∷ rows ↦ find e.primary_key row ]
      else some (int r.last_insert_id)

  unfoldable pub set_key : ℕ → Option Value → Step
  unfolding set_fields then_ok
  set_key k none s = err no_generated_key
  set_key k (some v) s =
      then_ok (x.set_pk k v (s.unit.objects k)) (λ fields. ok (set_fields k fields s))

  unfoldable pub store_key : ℕ → Entity → QueryResult → Step
  unfolding needs_generated_key generated_key set_key
  store_key k e r s =
      if needs_generated_key e (s.unit.objects k) then set_key k (generated_key e r) s else ok s

  -- `tracked.original = tracked.snapshot()` and the status.
  unfoldable pub mark_managed : ℕ → State W → State W
  unfolding put
  mark_managed k s = record s {
    unit = record s.unit {
      tracked =
          put k (some (record { status = managed; original = s.unit.objects k })) s.unit.tracked;
    };
  }

  unfoldable pub insert_row : ℕ → Step
  unfolding run_query insert_query store_key then_ok
  insert_row k s =
      then_ok (run_query (insert_query x.dialect x.returning (x.entity k) (s.unit.objects k)) s)
        (λ p. store_key k (x.entity k) p.0 p.1)

  unfoldable pub flush_insert : ℕ → Step
  unfolding and_then insert_row mark_managed
  flush_insert k = and_then (x.callback before_insert k) (
      and_then (insert_row k) (
        and_then (λ s. ok (mark_managed k s))
          (and_then (x.callback register_identity k) (x.callback after_insert k))))

  unfoldable pub update_row : ℕ → Map Value → Step
  unfolding run_query update_query then_ok
  update_row k fields s =
      then_ok (run_query (update_query x.dialect (x.entity k) fields (s.unit.objects k)) s)
        (λ p. ok p.1)

  -- The part of `flush_update_if_dirty` behind the list of the changed fields.
  unfoldable pub update_changed : ℕ → Map Value → Step
  unfolding and_then update_row refresh_snapshot
  update_changed k [] s = ok s
  update_changed k (f ∷ fields) s =
      and_then (x.callback before_update k)
        (and_then (update_row k (f ∷ fields)) (
          and_then (λ t. ok (record t { unit = refresh_snapshot k t.unit }))
            (x.callback after_update k)))
        s

  unfoldable pub flush_update_if_dirty : ℕ → Map Value → Step
  unfolding changed update_changed
  flush_update_if_dirty k original s =
      update_changed k (changed x.real_eq (x.entity k) original (s.unit.objects k)) s

  unfoldable pub delete_row : ℕ → Step
  unfolding run_query delete_query then_ok
  delete_row k s =
      then_ok (run_query (delete_query x.dialect (x.entity k) (s.unit.objects k)) s) (λ p. ok p.1)

  unfoldable pub flush_delete : ℕ → Step
  unfolding and_then delete_row untrack
  flush_delete k = and_then (x.callback before_delete k) (
      and_then (delete_row k) (
        and_then (x.callback erase_identity k)
          (and_then (λ s. ok (record s { unit = untrack k s.unit })) (x.callback after_delete k))))

  -- The switch of `flush` on the status.
  unfoldable pub flush_status : Status → ℕ → Map Value → Step
  unfolding flush_insert flush_update_if_dirty flush_delete
  flush_status new_entity k original s = flush_insert k s
  flush_status managed k original s = flush_update_if_dirty k original s
  flush_status removed k original s = flush_delete k s
  flush_status detached k original s = ok s

  unfoldable pub flush_tracked : ℕ → Option (Tracked (Map Value)) → Step
  unfolding flush_status
  flush_tracked k none s = ok s
  flush_tracked k (some t) s = flush_status t.status k t.original s

  unfoldable pub flush_keys : List ℕ → Step
  unfolding flush_tracked then_ok
  flush_keys [] s = ok s
  flush_keys (k ∷ ks) s = then_ok (flush_tracked k (s.unit.tracked k) s) (flush_keys ks)

  -- `keys()` is taken before the loop; a key without an entity is passed over.
  unfoldable pub flush : Step
  unfolding flush_keys
  flush s = flush_keys s.unit.order s
