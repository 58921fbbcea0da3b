-- ===== src/Store/Rows.antt =====
-- The store keeps the table of functions as the gateway expects.
use docker_faas.Base.{
  ℕ, suc, String, ◌≡◌, refl, ◌⊎◌, inl, inr, Option, none, some, arith, Result, ok, err, nat_eq,
  string_eq, bool_eq,
}
use docker_faas.Base.Int.{ℤ}
use docker_faas.Base.Assoc.{lookup, erase, insert}
use docker_faas.Gateway.Types.{FunctionMetadata}
use docker_faas.Gateway.Laws.{Table, inserted, rewritten, rescaled, StoreLaws}
use docker_faas.Store.{
  Database, last_id, finish_create, affected, finish_write, found_row, create_function,
  get_function, list_functions, update_function, delete_function, update_replicas, sql_store,
}

-- What an update of the row of a name leaves: it counts 0 and changes nothing where there is no row.
abbrev pub Written :
    Table → Table → String → (FunctionMetadata → FunctionMetadata) → Result ℕ → Type 0
Written before now name f r =
    ((r ≡ ok 0) × (now ≡ before))
    ⊎ ((r ≡ ok 1)
        × ((old : FunctionMetadata) × (lookup name before ≡ some old)
            × (now ≡ insert name (f old) before)))

-- What a removal of the rows of a name leaves
abbrev pub Deleted : Table → Table → String → Result ℕ → Type 0
Deleted before now name r =
    ((r ≡ ok 0) × (now ≡ before)) ⊎ ((n : ℕ) × ((r ≡ ok (suc n)) × (now ≡ erase name before)))

-- What SQLite promises of the statements: names are unique, a statement that fails changes nothing,
-- the number of affected rows and the last id are known, and reads change nothing.
pub record DatabaseLaws {D : Type 0} (db : Database D) (rows : D → Table) : Type 0 where
  pub insert_ok :
      (m : FunctionMetadata) (created updated : ℕ) (d : D) (r : Result ℤ)
      → (db.insert_row m created updated d).0 ≡ ok r
      → (lookup m.name (rows d) ≡ none)
        × ((id : ℤ) × (r ≡ ok id)
            × (rows (db.insert_row m created updated d).1
                ≡ insert m.name (inserted id created updated m) (rows d)))
  pub insert_err :
      (m : FunctionMetadata) (created updated : ℕ) (d : D) (e : String)
      → (db.insert_row m created updated d).0 ≡ err e
      → rows (db.insert_row m created updated d).1 ≡ rows d
  pub select_keeps : (name : String) (d : D) → rows (db.select_name name d).1 ≡ rows d
  pub select_ok :
      (name : String) (d : D) (m : FunctionMetadata)
      → (db.select_name name d).0 ≡ ok (some m)
      → (lookup name (rows d) ≡ some m) × (m.name ≡ name)
  pub all_keeps : (d : D) → rows (db.select_all d).1 ≡ rows d
  pub update_ok :
      (m : FunctionMetadata) (time : ℕ) (d : D) (r : Result ℕ)
      → (db.update_name m time d).0 ≡ ok r
      → Written (rows d) (rows (db.update_name m time d).1) m.name (λ old. rewritten time old m) r
  pub update_err :
      (m : FunctionMetadata) (time : ℕ) (d : D) (e : String)
      → (db.update_name m time d).0 ≡ err e
      → rows (db.update_name m time d).1 ≡ rows d
  pub delete_ok :
      (name : String) (d : D) (r : Result ℕ)
      → (db.delete_name name d).0 ≡ ok r
      → Deleted (rows d) (rows (db.delete_name name d).1) name r
  pub delete_err :
      (name : String) (d : D) (e : String)
      → (db.delete_name name d).0 ≡ err e
      → rows (db.delete_name name d).1 ≡ rows d
  pub replicas_ok :
      (name : String) (replicas : ℤ) (time : ℕ) (d : D) (r : Result ℕ)
      → (db.update_replicas_name name replicas time d).0 ≡ ok r
      → Written
          (rows d)
          (rows (db.update_replicas_name name replicas time d).1)
          name
          (λ old. rescaled time replicas old)
          r
  pub replicas_err :
      (name : String) (replicas : ℤ) (time : ℕ) (d : D) (e : String)
      → (db.update_replicas_name name replicas time d).0 ≡ err e
      → rows (db.update_replicas_name name replicas time d).1 ≡ rows d

found_row-ok :
    (name : String) (r : Result (Option FunctionMetadata)) (m : FunctionMetadata)
    → found_row name r ≡ ok m
    → r ≡ ok (some m)
unfolding found_row
found_row-ok name (ok none) m h = cc
found_row-ok name (ok (some k)) m h = cc
found_row-ok name (err e) m h = cc

-- How an insertion ends
created_lem :
    (m : FunctionMetadata) (created updated : ℕ) (before now : Table) (r : Result (Result ℤ))
    → ((i : Result ℤ)
        → r ≡ ok i
        → (lookup m.name before ≡ none)
          × ((id : ℤ) × (i ≡ ok id) × (now ≡ insert m.name (inserted id created updated m) before)))
    → finish_create r ≡ ok tt
    → (lookup m.name before ≡ none)
      × ((id : ℤ) × (now ≡ insert m.name (inserted id created updated m) before))
unfolding finish_create
created_lem m created updated before now (ok i) f h =
    let (fresh, (id, e, row)) = f i refl in (fresh, (id, row))
created_lem m created updated before now (err e) f h = cc

not_created_lem :
    (m : FunctionMetadata) (before now : Table) (r : Result (Result ℤ)) (e : String)
    → ((t : String) → r ≡ err t → now ≡ before)
    → ((i : Result ℤ) → r ≡ ok i → (id : ℤ) × (i ≡ ok id))
    → finish_create r ≡ err e
    → now ≡ before
unfolding finish_create last_id
not_created_lem m before now (err t) e f k h = f t refl
not_created_lem m before now (ok (ok i)) e f k h = cc
not_created_lem m before now (ok (err t)) e f k h = let (id, q) = k (err t) refl in cc

zero_rows : (name : String) (n : Result ℕ) → n ≡ ok 0 → ¬ (affected name n ≡ ok tt)
unfolding affected
zero_rows name n q h = cc (rw q at h)

affected-suc : (name : String) (i : ℕ) → affected name (ok (suc i)) ≡ ok tt
unfolding affected
affected-suc name i = ground arith

some_rows :
    (name : String) (n : Result ℕ) (i : ℕ) (e : String)
    → n ≡ ok (suc i)
    → ¬ (affected name n ≡ err e)
some_rows name n i e q h = let done = affected-suc name i in cc (rw q at h)

-- How an update of a row ends
written_lem :
    (what name : String) (before now : Table) (f : FunctionMetadata → FunctionMetadata)
    (r : Result (Result ℕ))
    → ((n : Result ℕ) → r ≡ ok n → Written before now name f n)
    → finish_write what name r ≡ ok tt
    → (old : FunctionMetadata) × (lookup name before ≡ some old)
      × (now ≡ insert name (f old) before)
unfolding finish_write affected
written_lem what name before now f (err e) k h = cc
written_lem what name before now f (ok n) k h = elim (k n refl) [
  | inr (q, row) ↦ row
  | inl (q, same) ↦ absurd (zero_rows name n q h)
]

not_written_lem :
    (what name : String) (before now : Table) (f : FunctionMetadata → FunctionMetadata)
    (r : Result (Result ℕ)) (e : String)
    → ((n : Result ℕ) → r ≡ ok n → Written before now name f n)
    → ((t : String) → r ≡ err t → now ≡ before)
    → finish_write what name r ≡ err e
    → now ≡ before
unfolding finish_write affected
not_written_lem what name before now f (err t) e k l h = l t refl
not_written_lem what name before now f (ok n) e k l h = elim (k n refl) [
  | inl (q, same) ↦ same
  | inr (q, row) ↦ absurd (some_rows name n 0 e q h)
]

-- How a removal ends
deleted_lem :
    (what name : String) (before now : Table) (r : Result (Result ℕ))
    → ((n : Result ℕ) → r ≡ ok n → Deleted before now name n)
    → finish_write what name r ≡ ok tt
    → now ≡ erase name before
unfolding finish_write
deleted_lem what name before now (err e) k h = cc
deleted_lem what name before now (ok n) k h = elim (k n refl) [
  | inr (i, (q, gone)) ↦ gone
  | inl (q, same) ↦ absurd (zero_rows name n q h)
]

not_deleted_lem :
    (what name : String) (before now : Table) (r : Result (Result ℕ)) (e : String)
    → ((n : Result ℕ) → r ≡ ok n → Deleted before now name n)
    → ((t : String) → r ≡ err t → now ≡ before)
    → finish_write what name r ≡ err e
    → now ≡ before
unfolding finish_write
not_deleted_lem what name before now (err t) e k l h = l t refl
not_deleted_lem what name before now (ok n) e k l h = elim (k n refl) [
  | inl (q, same) ↦ same
  | inr (i, (q, gone)) ↦ absurd (some_rows name n i e q h)
]

module _ {D : Type 0} (db : Database D) (rows : D → Table) (laws : DatabaseLaws db rows) where
  -- Over a database that keeps SQLite's promises, the store has the laws that the gateway's handlers
  -- rely on: each operation that succeeds changes the one row it names, and each that fails changes
  -- none.
  pub sql_store-StoreLaws : StoreLaws (sql_store db) rows
  unfolding list_functions get_function create_function update_function delete_function
      update_replicas
  sql_store-StoreLaws = record {
    list_keeps = laws.all_keeps;
    get_keeps = laws.select_keeps;
    get_ok =
        λ name d m h. laws.select_ok name d m (found_row-ok name (db.select_name name d).0 m h);
    create_ok = λ m d h.
        let now = db.now d in
        let call = db.insert_row m now now d in
        let (fresh, (id, row)) =
          created_lem m now now (rows d) (rows call.1) call.0 (laws.insert_ok m now now d) h in
        (fresh, (id, now, now, row));
    create_err = λ m d e h.
        let now = db.now d in
        let call = db.insert_row m now now d in
        not_created_lem m (rows d) (rows call.1) call.0 e (laws.insert_err m now now d)
          (λ i q. let (id, k, row) = (laws.insert_ok m now now d i q).1 in (id, k)) h;
    update_ok = λ m d h.
        let call = db.update_name m (db.now d) d in
        let (old, found, row) =
          written_lem _ m.name (rows d) (rows call.1) (λ old. rewritten (db.now d) old m) call.0
            (laws.update_ok m (db.now d) d) h in
        (old, db.now d, found, row);
    update_err = λ m d e h.
        let call = db.update_name m (db.now d) d in
        not_written_lem _ m.name (rows d) (rows call.1) (λ old. rewritten (db.now d) old m) call.0 e
          (laws.update_ok m (db.now d) d) (laws.update_err m (db.now d) d) h;
    delete_ok = λ name d h.
        let call = db.delete_name name d in
        deleted_lem _ name (rows d) (rows call.1) call.0 (laws.delete_ok name d) h;
    delete_err = λ name d e h.
        let call = db.delete_name name d in
        not_deleted_lem _ name (rows d) (rows call.1) call.0 e (laws.delete_ok name d)
          (laws.delete_err name d) h;
    replicas_ok = λ name n d h.
        let call = db.update_replicas_name name n (db.now d) d in
        let (old, found, row) =
          written_lem _ name (rows d) (rows call.1) (λ old. rescaled (db.now d) n old) call.0
            (laws.replicas_ok name n (db.now d) d) h in
        (old, db.now d, found, row);
    replicas_err = λ name n d e h.
        let call = db.update_replicas_name name n (db.now d) d in
        not_written_lem _ name (rows d) (rows call.1) (λ old. rescaled (db.now d) n old) call.0 e
          (laws.replicas_ok name n (db.now d) d) (laws.replicas_err name n (db.now d) d) h;
  }
