-- ===== src/Store.antt =====
-- pkg/store/store.go over the SQL database, which is a parameter: one call for each statement of the
-- source. The duration metric of each operation is left out.
pub mod Migrations
pub mod Rows
pub mod Tests
use Prim.Native.String
use docker_faas.Base.{
  ℕ, String, not, Option, none, some, List, [], ◌∷◌, ◌++◌, if◌then◌else◌, ◌==◌, Result, ok, err,
  ◌>>=◌, ◌>>◌, wrap, nat_eq, string_eq, bool_eq,
}
use docker_faas.Base.Calls.{Call}
use docker_faas.Base.Int.{ℤ, int_eq}
use docker_faas.Base.Assoc.{insert}
use docker_faas.Gateway.Types.{FunctionMetadata}
use docker_faas.Gateway.Services.{Store}

-- The statements on the table `functions`. The inner result is what `LastInsertId` or `RowsAffected`
-- answers, or what `Scan` makes of a row; a row that is missing is `none`. `now` is the clock.
pub record Database (D : Type 0) : Type 0 where
  pub now : D → ℕ
  pub insert_row : FunctionMetadata → ℕ → ℕ → Call D (Result ℤ)
  pub select_name : String → Call D (Option FunctionMetadata)
  pub select_all : Call D (List (Result FunctionMetadata))
  pub update_name : FunctionMetadata → ℕ → Call D (Result ℕ)
  pub delete_name : String → Call D (Result ℕ)
  pub update_replicas_name : String → ℤ → ℕ → Call D (Result ℕ)
  pub ping : Call D (Unit {0})

-- The id that is written to the caller's metadata is left out: it is not read again.
unfoldable pub last_id : Result ℤ → Result (Unit {0})
last_id (ok id) = ok tt
last_id (err e) = err (String.◌++◌ "failed to get last insert id: " e)

unfoldable pub finish_create : Result (Result ℤ) → Result (Unit {0})
unfolding last_id
finish_create (ok id) = last_id id
finish_create (err e) = err (String.◌++◌ "failed to create function: " e)

-- `if rowsAffected == 0`
unfoldable pub affected : String → Result ℕ → Result (Unit {0})
affected name (ok n) = if n == 0 then err (String.◌++◌ "function not found: " name) else ok tt
affected name (err e) = err (String.◌++◌ "failed to get rows affected: " e)

unfoldable pub finish_write : String → String → Result (Result ℕ) → Result (Unit {0})
unfolding affected
finish_write what name (ok rows) = affected name rows
finish_write what name (err e) = err (String.◌++◌ what e)

unfoldable pub found_row : String → Result (Option FunctionMetadata) → Result FunctionMetadata
found_row name (ok none) = err (String.◌++◌ "function not found: " name)
found_row name (ok (some m)) = ok m
found_row name (err e) = err (String.◌++◌ "failed to get function: " e)

scan_rows : List (Result FunctionMetadata) → Result (List FunctionMetadata)
scan_rows [] = ok []
scan_rows (row ∷ rows) = do
  metadata ← wrap "failed to scan function: " row
  functions ← scan_rows rows
  ok (metadata ∷ functions)

all_rows : Result (List (Result FunctionMetadata)) → Result (List FunctionMetadata)
unfolding scan_rows
all_rows (ok rows) = scan_rows rows
all_rows (err e) = err (String.◌++◌ "failed to list functions: " e)

module _ {D : Type 0} where
  unfoldable pub create_function : Database D → FunctionMetadata → Call D (Unit {0})
  unfolding finish_create
  create_function db metadata d =
      let (r, d') = db.insert_row metadata (db.now d) (db.now d) d in (finish_create r, d')

  unfoldable pub get_function : Database D → String → Call D FunctionMetadata
  unfolding found_row
  get_function db name d = let (r, d') = db.select_name name d in (found_row name r, d')

  unfoldable pub list_functions : Database D → Call D (List FunctionMetadata)
  unfolding all_rows
  list_functions db d = let (r, d') = db.select_all d in (all_rows r, d')

  unfoldable pub update_function : Database D → FunctionMetadata → Call D (Unit {0})
  unfolding finish_write
  update_function db metadata d =
      let (r, d') = db.update_name metadata (db.now d) d in
      (finish_write "failed to update function: " metadata.name r, d')

  unfoldable pub delete_function : Database D → String → Call D (Unit {0})
  unfolding finish_write
  delete_function db name d =
      let (r, d') = db.delete_name name d in (finish_write "failed to delete function: " name r, d')

  unfoldable pub update_replicas : Database D → String → ℤ → Call D (Unit {0})
  unfolding finish_write
  update_replicas db name replicas d =
      let (r, d') = db.update_replicas_name name replicas (db.now d) d in
      (finish_write "failed to update replicas: " name r, d')

  unfoldable pub health_check : Database D → Call D (Unit {0})
  health_check db d = db.ping d

-- The store as the gateway's interface
abbrev pub sql_store : {D : Type 0} → Database D → Store D
sql_store db = record {
  list_functions = list_functions db;
  get_function = get_function db;
  create_function = create_function db;
  update_function = update_function db;
  delete_function = delete_function db;
  update_replicas = update_replicas db;
}
