-- ===== src/Store/Migrations/Scripts.antt =====
-- The list `Migrations` of pkg/store/migrations.go with its SQL scripts.
use docker_faas.Base.{String, List, [], ◌∷◌}
use docker_faas.Base.Int.{ℤ, pos}
use docker_faas.Base.Text.{◌<>◌}

pub record Migration : Type 0 where
  pub version : ℤ
  pub description : String
  pub up : String
  pub down : String

abbrev pub functions_up : String
functions_up =
    "\n" <> "\t\t\tCREATE TABLE IF NOT EXISTS functions (\n"
    <> "\t\t\t\tid INTEGER PRIMARY KEY AUTOINCREMENT,\n" <> "\t\t\t\tname TEXT UNIQUE NOT NULL,\n"
    <> "\t\t\t\timage TEXT NOT NULL,\n" <> "\t\t\t\tenv_process TEXT,\n"
    <> "\t\t\t\tenv_vars TEXT,\n" <> "\t\t\t\tlabels TEXT,\n" <> "\t\t\t\tsecrets TEXT,\n"
    <> "\t\t\t\tnetwork TEXT NOT NULL,\n" <> "\t\t\t\treplicas INTEGER NOT NULL DEFAULT 1,\n"
    <> "\t\t\t\tlimits TEXT,\n" <> "\t\t\t\trequests TEXT,\n"
    <> "\t\t\t\tread_only BOOLEAN NOT NULL DEFAULT 0,\n"
    <> "\t\t\t\tcreated_at TIMESTAMP NOT NULL,\n" <> "\t\t\t\tupdated_at TIMESTAMP NOT NULL\n"
    <> "\t\t\t);\n" <> "\t\t\tCREATE INDEX IF NOT EXISTS idx_functions_name ON functions(name);\n"
    <> "\t\t\tCREATE INDEX IF NOT EXISTS idx_functions_created_at ON functions(created_at);\n"
    <> "\t\t"

abbrev pub functions_down : String
functions_down = "DROP TABLE IF EXISTS functions;"

abbrev pub debug_up : String
debug_up =
    "\n" <> "\t\t\tALTER TABLE functions ADD COLUMN debug BOOLEAN NOT NULL DEFAULT 0;\n" <> "\t\t"

abbrev pub debug_down : String
debug_down =
    "\n" <> "\t\t\t-- SQLite doesn't support DROP COLUMN directly\n"
    <> "\t\t\t-- Create new table without debug column, copy data, rename\n"
    <> "\t\t\tCREATE TABLE functions_backup AS SELECT\n"
    <> "\t\t\t\tid, name, image, env_process, env_vars, labels, secrets,\n"
    <> "\t\t\t\tnetwork, replicas, limits, requests, read_only, created_at, updated_at\n"
    <> "\t\t\tFROM functions;\n" <> "\t\t\tDROP TABLE functions;\n"
    <> "\t\t\tALTER TABLE functions_backup RENAME TO functions;\n"
    <> "\t\t\tCREATE INDEX IF NOT EXISTS idx_functions_name ON functions(name);\n"
    <> "\t\t\tCREATE INDEX IF NOT EXISTS idx_functions_created_at ON functions(created_at);\n"
    <> "\t\t"

abbrev pub initial_schema : Migration
initial_schema = record {
  version = pos 1;
  description = "Initial schema";
  up = functions_up;
  down = functions_down;
}

abbrev pub debug_column : Migration
debug_column = record {
  version = pos 2;
  description = "Add debug column for v2.0";
  up = debug_up;
  down = debug_down;
}

abbrev pub migrations : List Migration
migrations = initial_schema ∷ debug_column ∷ []
