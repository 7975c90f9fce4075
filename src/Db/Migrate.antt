-- ===== src/Db/Migrate.antt =====
-- internal/db/migrate.go: bringing a database up to the schema of this build.
pub mod Versions
use edge_grid.Prelude.{
  ℕ, zero, suc, ◌-◌, Bool, true, false, List, [], ◌∷◌, ◌++◌, Option, none, some, get_elem?, length,
  ltb, if◌then◌else◌,
}
use edge_grid.Prelude.Results.{Result, ok, err}
use edge_grid.Proc.{Proc, continue}

-- transfersSchema and tasksSchema
pub data Schema : Type 0 where
  transfers_schema tasks_schema : Schema

abbrev pub migrations : List Schema
migrations = transfers_schema ∷ tasks_schema ∷ []

abbrev pub schema_version : ℕ
schema_version = 2

-- PRAGMA user_version, and the schemas that were executed, in order.
pub record Database : Type 0 where
  pub version : ℕ
  pub applied : List Schema

-- How the transaction of a round turns out. One that fails is rolled back.
pub data TxEnd : Type 0 where
  committed begin_fails schema_fails version_fails commit_fails : TxEnd

pub data MigrateError : Type 0 where
  read_version : MigrateError
  newer : ℕ → MigrateError
  begin_failed schema_failed set_version commit_failed no_such_migration : ℕ → MigrateError

-- One round of the loop at `version`.
tx_round : TxEnd → ℕ → Option Schema → Proc Database MigrateError (Unit {0})
tx_round begin_fails v s d = (err (begin_failed v), d)
tx_round schema_fails v s d = (err (schema_failed v), d)
tx_round version_fails v s d = (err (set_version v), d)
tx_round commit_fails v s d = (err (commit_failed v), d)
tx_round committed v none d = (err (no_such_migration v), d)
tx_round committed v (some s) d =
    (ok tt, record { version = suc v; applied = d.applied ++ (s ∷ []) })

-- The loop, with the rounds that are left.
unfoldable pub migrate_loop : (ℕ → TxEnd) → ℕ → ℕ → Proc Database MigrateError (Unit {0})
unfolding tx_round
migrate_loop tx zero v d = (ok tt, d)
migrate_loop tx (suc left) v d =
    continue (tx_round (tx v) v (get_elem? migrations v) d) (λ _. migrate_loop tx left (suc v))

-- migrate; `reads` says whether the version can be read, and `tx` how the transaction of each version
-- turns out.
unfoldable pub migrate : Bool → (ℕ → TxEnd) → Proc Database MigrateError (Unit {0})
migrate false tx d = (err read_version, d)
migrate true tx d =
    if ltb schema_version d.version
    then (err (newer d.version), d)
    else migrate_loop tx (schema_version - d.version) d.version d
