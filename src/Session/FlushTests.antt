-- ===== src/Session/FlushTests.antt =====
-- Runs of `flush`, and its theorems at a unit of work.
use metal_orm_cpp.Base.{
  assign, ◌≡◌, refl, inr, true, false, none, some, List, [], ◌∷◌, ◌++◌, Text, codes, ok, err, Map,
  text_eq, text_lt, find, ◌==◌,
}
use metal_orm_cpp.Value.{Value, int, text, null, pos}
use metal_orm_cpp.Dialect.{sqlite_dialect}
use metal_orm_cpp.Session.{without, new_entity, managed, removed, put}
use metal_orm_cpp.Session.Flush.{State, Setting, flush, Objects, value_eq, changed}
use metal_orm_cpp.Session.Twice.{flush-flush}
use metal_orm_cpp.Session.Settled.{flush-Settled}

-- The database logs what it is given, and gives the number 5 to a new row.
abbrev Log : Type 0
Log = List (Text × List Value)

abbrev logging : Setting Log
logging = record {
  dialect = sqlite_dialect;
  returning = false;
  execute = λ sql params log. ok (
    record { rows = []; affected_rows = pos 1; last_insert_id = pos 5 },
    log ++ (sql, params) ∷ [],
  );
  entity = λ k. record { table = codes "users"; primary_key = codes "id"; generated_pk = true };
  set_pk = λ k v fields. ok (assign (codes "id") v fields);
  callback = λ c k s. ok s;
  real_eq = ◌==◌;
}

abbrev fields : Value → Text → Map Value
fields id name = (codes "name", text name) ∷ (codes "id", id) ∷ []

-- A new, a changed and a removed user.
abbrev users : Objects
users = record {
  tracked = put 1 (some (record { status = new_entity; original = [] })) (
      put 2 (some (record { status = managed; original = fields (int (pos 2)) (codes "b") }))
        (put 3 (some (record { status = removed; original = [] })) (λ k. none)));
  order = 1 ∷ 2 ∷ 3 ∷ [];
  checkpoints = [];
  objects =
      put 1 (fields null (codes "a"))
        (put 2 (fields (int (pos 2)) (codes "c")) (λ k. fields (int (pos 3)) (codes "d")));
}

abbrev log_of : Setting Log → State Log → Log
log_of x s = elim (flush x s) [ ok t ↦ t.db | err e ↦ [] ]

abbrev flushed_users : State Log
flushed_users = elim (flush logging (record { unit = users; db = [] })) [
  | ok t ↦ t
  | err e ↦ record { unit = users; db = [] }
]

flush-flush_example : flush logging flushed_users ≡ ok flushed_users
unfolding flush changed put text_eq find text_lt value_eq without sqlite_dialect assign
flush-flush_example =
    flush-flush logging (record { unit = users; db = [] }) flushed_users (λ c k s. refl) refl
      (refl, (refl, tt))

flush_run :
    log_of logging (record { unit = users; db = [] })
    ≡ (codes "INSERT INTO \"users\" (\"name\") VALUES (?);", text (codes "a") ∷ [])
      ∷ (
        codes "UPDATE \"users\" SET \"name\" = ? WHERE \"id\" = ?;",
        text (codes "c") ∷ int (pos 2) ∷ [],
      )
      ∷ (codes "DELETE FROM \"users\" WHERE \"id\" = ?;", int (pos 3) ∷ [])
      ∷ []
unfolding flush sqlite_dialect put text_eq find text_lt value_eq
flush_run = refl

abbrev settled_users : Objects
settled_users = record users {
  tracked =
      put 2 (some (record { status = managed; original = fields (int (pos 2)) (codes "c") }))
        (λ k. none);
}

settled_run :
    flush logging (record { unit = settled_users; db = [] })
    ≡ ok (record { unit = settled_users; db = [] })
unfolding changed put text_eq find value_eq
settled_run =
    flush-Settled logging (record { unit = settled_users; db = [] })
      (tt, (inr (refl, refl), (tt, tt)))
