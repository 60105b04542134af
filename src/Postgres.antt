-- ===== src/Postgres.antt =====
-- crates/pgtest-database-operations/src/manager.rs, manager/config.rs and manager/errors.rs: starting
-- the PostgreSQL manager. The server and the connection pools are outside of the program: what they
-- answer is a parameter. Of an error of theirs a number is kept.
pub mod Pipeline
pub mod Started
pub mod Ddl
pub mod Batches
pub mod Creations
pub mod Statements
pub mod Cleanup
pub mod Leftovers
pub mod Missed
pub mod Client
pub mod Reports
pub mod Tests
use pg_test.Base.{
  ℕ, zero, suc, ◌+◌, ◌/◌, Bool, true, false, Option, none, some, ◌>>=◌, List, [], ◌∷◌, ◌++◌, Result,
  ok, err, ltb, ◌==◌, if◌then◌else◌,
}
use pg_test.DatabaseName.{PostgresDatabaseName, new}
use pg_test.ReadString.{ReadString}

pub record PostgresConfig : Type 0 where
  pub pgtest_pg_host : ReadString
  pub pgtest_pg_port : ℕ
  pub pgtest_pg_user : ReadString
  pub pgtest_pg_database : ReadString
  pub pgtest_pg_creation_pool_connection : ℕ
  pub pgtest_pg_cleanup_pool_connection : ℕ

pub data Purpose : Type 0 where
  creation cleanup : Purpose

-- An `i64`: `negsuc n` is -(n + 1).
pub data ℤ : Type 0 where
  pos : ℕ → ℤ
  negsuc : ℕ → ℤ

pub data PostgresClientError : Type 0 where
  invalid_pool_size : Purpose → PostgresClientError
  unable_to_connect_to_postgres : ReadString → ReadString → ℕ → PostgresClientError
  unable_to_fetch_postgres_version : PostgresClientError
  unable_to_fetch_database_list : PostgresClientError
  database_does_not_exist : ReadString → PostgresClientError
  unsupported_version : ℕ → PostgresClientError
  unexpected_server_version_format_fetched : ℤ → PostgresClientError

-- The two pools are named by their purpose.
pub record PostgresManager : Type 0 where
  pub version : ℕ
  pub host : ReadString
  pub port : ℕ
  pub template_database_name : PostgresDatabaseName
  pub creation_concurrency : ℕ

abbrev pub min_server_version_num : ℕ
min_server_version_num = 13

-- What the server answers while the manager starts: whether a pool can be configured, whether it
-- connects, the names that a query for a pattern lists, and the version number. `none` is a failure to
-- get a connection, of the query, or to read its row.
pub record Startup : Type 0 where
  pub configures : Purpose → Bool
  pub connects : Purpose → Bool
  pub list_databases : ReadString → Option (List ReadString)
  pub server_version : Option ℤ

pub data PoolEvent : Type 0 where
  opened closed : Purpose → PoolEvent

-- `number / 10000`, which drops the fraction, and then `u8::try_from`.
unfoldable pub major_version : ℤ → Option ℕ
major_version (pos n) = if ltb (n / 10000) 256 then some (n / 10000) else none
major_version (negsuc n) = if ltb (suc n) 10000 then some 0 else none

unfoldable pub check_version : ℤ → Result ℕ PostgresClientError
check_version number = elim (major_version number) [
  | none ↦ err (unexpected_server_version_format_fetched number)
  | some version ↦
      if ltb version min_server_version_num then err (unsupported_version version) else ok version
]

module _ (world : Startup) where
  unfoldable pub is_valid_version : Result ℕ PostgresClientError
  is_valid_version = elim world.server_version [
    | none ↦ err unable_to_fetch_postgres_version
    | some number ↦ check_version number
  ]

  abbrev pub found_any : ReadString → List ReadString → Result (Unit {0}) PostgresClientError
  found_any name [] = err (database_does_not_exist name)
  found_any name (row ∷ rows) = ok tt

  unfoldable pub database_exists : ReadString → Result (Unit {0}) PostgresClientError
  database_exists database_name = elim (world.list_databases database_name) [
    | none ↦ err unable_to_fetch_database_list
    | some rows ↦ found_any database_name rows
  ]

  unfoldable pub validate : PostgresConfig → Result ℕ PostgresClientError
  validate config = elim (database_exists config.pgtest_pg_database) [
    | err e ↦ err e
    | ok u ↦ is_valid_version
  ]

  abbrev pub connection_error : PostgresConfig → PostgresClientError
  connection_error config =
      unable_to_connect_to_postgres config.pgtest_pg_user config.pgtest_pg_host
        config.pgtest_pg_port

  -- What was done with the pool, and whether it is there.
  unfoldable pub connect_pool :
      PostgresConfig → Purpose → Result (Unit {0}) PostgresClientError × List PoolEvent
  connect_pool config purpose =
      if world.configures purpose
      then if world.connects purpose
        then (ok tt, opened purpose ∷ [])
        else (err (connection_error config), opened purpose ∷ closed purpose ∷ [])
      else (err (connection_error config), [])

  abbrev pub manager_of : PostgresConfig → PostgresDatabaseName → ℕ → PostgresManager
  manager_of config names version = record {
    version = version;
    host = config.pgtest_pg_host;
    port = config.pgtest_pg_port;
    template_database_name = names;
    creation_concurrency = config.pgtest_pg_creation_pool_connection;
  }

  -- What is made of the cleanup pool, if the creation pool is there.
  unfoldable pub with_cleanup :
      PostgresConfig
      → PostgresDatabaseName
      → ℕ
      → List PoolEvent
      → Result (Unit {0}) PostgresClientError × List PoolEvent
      → Result PostgresManager PostgresClientError × List PoolEvent
  with_cleanup config names version events (err e, later) =
      (err e, events ++ (later ++ closed creation ∷ []))
  with_cleanup config names version events (ok u, later) =
      (ok (manager_of config names version), events ++ later)

  -- What is made of the creation pool: the server is checked on it before the other pool is opened.
  unfoldable pub with_creation :
      PostgresConfig
      → PostgresDatabaseName
      → Result (Unit {0}) PostgresClientError × List PoolEvent
      → Result ℕ PostgresClientError
      → Result PostgresManager PostgresClientError × List PoolEvent
  with_creation config names (err e, events) checked = (err e, events)
  with_creation config names (ok u, events) (err e) = (err e, events ++ closed creation ∷ [])
  with_creation config names (ok u, events) (ok version) =
      with_cleanup config names version events (connect_pool config cleanup)

  unfoldable pub open_pools :
      PostgresConfig
      → PostgresDatabaseName
      → Result PostgresManager PostgresClientError × List PoolEvent
  open_pools config names =
      with_creation config names (connect_pool config creation) (validate config)

  -- `PostgresManager::start`, and what was done with the pools. The template's prefix needs random
  -- numbers; `none` is a panic of theirs.
  unfoldable pub start :
      (ℕ → ℕ)
      → PostgresConfig
      → Option (Result PostgresManager PostgresClientError × List PoolEvent)
  start draw config =
      if config.pgtest_pg_creation_pool_connection == 0
      then some (err (invalid_pool_size creation), [])
      else if config.pgtest_pg_cleanup_pool_connection == 0
      then some (err (invalid_pool_size cleanup), [])
      else (new draw config.pgtest_pg_database >>= λ names. some (open_pools config names))
