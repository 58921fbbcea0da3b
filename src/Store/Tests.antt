-- ===== src/Store/Tests.antt =====
-- The store over a table in memory, which keeps the promises that are asked of the database.
use docker_faas.Base.{
  ℕ, String, ◌≡◌, refl, sym, ap, ◌∙◌, inl, inr, Option, none, some, map, eq_iff, if◌then◌else◌,
  ◌==◌, Bool-cases, Result, ok, err, nat_eq, string_eq, bool_eq,
}
use docker_faas.Base.Int.{ℤ, pos, int_eq}
use docker_faas.Base.Assoc.{lookup, erase, insert}
use docker_faas.Gateway.Types.{FunctionMetadata}
use docker_faas.Gateway.Laws.{Table, inserted, rewritten, rescaled, StoreLaws}
use docker_faas.Store.{Database, sql_store}
use docker_faas.Store.Rows.{Written, Deleted, DatabaseLaws, sql_store-StoreLaws}

insert_into : FunctionMetadata → ℕ → ℕ → Option FunctionMetadata → Table → Result (Result ℤ) × Table
insert_into m created updated none t =
    (ok (ok (pos 1)), insert m.name (inserted (pos 1) created updated m) t)
insert_into m created updated (some old) t = (err "UNIQUE constraint failed", t)

update_in :
    String
    → (FunctionMetadata → FunctionMetadata)
    → Option FunctionMetadata
    → Table
    → Result (Result ℕ) × Table
update_in name f none t = (ok (ok 0), t)
update_in name f (some old) t = (ok (ok 1), insert name (f old) t)

delete_from : String → Option FunctionMetadata → Table → Result (Result ℕ) × Table
delete_from name none t = (ok (ok 0), t)
delete_from name (some old) t = (ok (ok 1), erase name t)

named : String → Option FunctionMetadata → Option FunctionMetadata
named name none = none
named name (some m) = if m.name == name then some m else none

abbrev table : Database Table
table = record {
  now = λ t. 5;
  insert_row = λ m created updated t. insert_into m created updated (lookup m.name t) t;
  select_name = λ name t. (ok (named name (lookup name t)), t);
  select_all = λ t. (ok (map (λ r. ok r.1) t), t);
  update_name = λ m time t. update_in m.name (λ old. rewritten time old m) (lookup m.name t) t;
  delete_name = λ name t. delete_from name (lookup name t) t;
  update_replicas_name =
      λ name n time t. update_in name (λ old. rescaled time n old) (lookup name t) t;
  ping = λ t. (ok tt, t);
}

insert_into-ok :
    (m : FunctionMetadata) (created updated : ℕ) (o : Option FunctionMetadata) (t : Table)
    (r : Result ℤ)
    → (insert_into m created updated o t).0 ≡ ok r
    → (o ≡ none)
      × ((id : ℤ) × (r ≡ ok id)
          × ((insert_into m created updated o t).1
              ≡ insert m.name (inserted id created updated m) t))
unfolding insert_into
insert_into-ok m created updated none t r h = (refl, (pos 1, cc, refl))
insert_into-ok m created updated (some old) t r h = cc

insert_into-err :
    (m : FunctionMetadata) (created updated : ℕ) (o : Option FunctionMetadata) (t : Table)
    (e : String)
    → (insert_into m created updated o t).0 ≡ err e
    → (insert_into m created updated o t).1 ≡ t
unfolding insert_into
insert_into-err m created updated none t e h = cc
insert_into-err m created updated (some old) t e h = refl

named-some :
    (name : String) (o : Option FunctionMetadata) (m : FunctionMetadata)
    → ok (named name o) ≡ ok (some m)
    → (o ≡ some m) × (m.name ≡ name)
unfolding named
named-some name none m h = cc
named-some name (some k) m h = elim (Bool-cases (k.name == name)) [
  | inl e ↦
      let same : k ≡ m = cc (rw e at h) in
      (ap some same, ap (λ x. x.name) (sym same) ∙ (eq_iff k.name name).0 e)
  | inr e ↦ cc (rw e at h)
]

update_in-Written :
    (name : String) (f : FunctionMetadata → FunctionMetadata) (o : Option FunctionMetadata)
    (t : Table) (r : Result ℕ)
    → lookup name t ≡ o
    → (update_in name f o t).0 ≡ ok r
    → Written t (update_in name f o t).1 name f r
unfolding update_in
update_in-Written name f none t r e h = inl (cc, refl)
update_in-Written name f (some old) t r e h = inr (cc, (old, e, refl))

update_in-err :
    (name : String) (f : FunctionMetadata → FunctionMetadata) (o : Option FunctionMetadata)
    (t : Table) (e : String)
    → (update_in name f o t).0 ≡ err e
    → (update_in name f o t).1 ≡ t
unfolding update_in
update_in-err name f none t e h = refl
update_in-err name f (some old) t e h = cc

delete_from-Deleted :
    (name : String) (o : Option FunctionMetadata) (t : Table) (r : Result ℕ)
    → (delete_from name o t).0 ≡ ok r
    → Deleted t (delete_from name o t).1 name r
unfolding delete_from
delete_from-Deleted name none t r h = inl (cc, refl)
delete_from-Deleted name (some old) t r h = inr (0, (cc, refl))

delete_from-err :
    (name : String) (o : Option FunctionMetadata) (t : Table) (e : String)
    → (delete_from name o t).0 ≡ err e
    → (delete_from name o t).1 ≡ t
unfolding delete_from
delete_from-err name none t e h = refl
delete_from-err name (some old) t e h = cc

table_laws : DatabaseLaws table (λ t. t)
table_laws = record {
  insert_ok = λ m created updated t r h. insert_into-ok m created updated (lookup m.name t) t r h;
  insert_err = λ m created updated t e h. insert_into-err m created updated (lookup m.name t) t e h;
  select_keeps = λ name t. refl;
  select_ok = λ name t m h. named-some name (lookup name t) m h;
  all_keeps = λ t. refl;
  update_ok = λ m time t r h.
      update_in-Written m.name (λ old. rewritten time old m) (lookup m.name t) t r refl h;
  update_err =
      λ m time t e h. update_in-err m.name (λ old. rewritten time old m) (lookup m.name t) t e h;
  delete_ok = λ name t r h. delete_from-Deleted name (lookup name t) t r h;
  delete_err = λ name t e h. delete_from-err name (lookup name t) t e h;
  replicas_ok = λ name n time t r h.
      update_in-Written name (λ old. rescaled time n old) (lookup name t) t r refl h;
  replicas_err =
      λ name n time t e h. update_in-err name (λ old. rescaled time n old) (lookup name t) t e h;
}

sql_store-StoreLaws_example : StoreLaws (sql_store table) (λ t. t)
sql_store-StoreLaws_example = sql_store-StoreLaws table (λ t. t) table_laws
