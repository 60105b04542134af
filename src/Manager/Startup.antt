-- ===== src/Manager/Startup.antt =====
-- crates/pgtest-core/src/worker_manager/startup.rs and `WorkerEngineManager::start` of
-- worker_manager.rs: PostgreSQL is prepared, the engine is made and its first databases are created.
use pg_test.Base.{ℕ, Option, some, ◌>>=◌, List, [], Result, ok, err, ◌==◌, if◌then◌else◌}
use pg_test.Engine.Startup.{try_init}
use pg_test.Engine.State.{WorkerEngine, WorkerEngineConfig, new_engine}
use pg_test.Inventory.{PostgresDdlClientError}
use pg_test.Postgres.Cleanup.{drop_ddl_templates_like}
use pg_test.Postgres.Client.{create_databases}
use pg_test.Postgres.Ddl.{PostgresOperationsError, Server}
use pg_test.Postgres.{PostgresClientError, PostgresConfig, PostgresManager, Startup}
use pg_test.Postgres as Postgres
use pg_test.ReadString.{ReadString}

pub data StartError : Type 0 where
  invalid_lease_record_limit : StartError
  postgres : PostgresClientError → StartError
  initial_database_creation : PostgresDdlClientError → StartError

-- What the start meets: the pools and the server, the text of an error, and the random numbers.
pub record Site : Type 0 where
  pub startup : Startup
  pub server : Server
  pub to_string : PostgresOperationsError → ReadString
  pub draw : ℕ → ℕ
  pub draws : ℕ → ℕ → ℕ

abbrev pub map_start_error :
    Result PostgresManager PostgresClientError → Result PostgresManager StartError
map_start_error (ok manager) = ok manager
map_start_error (err e) = err (postgres e)

module _ (site : Site) where
  -- The client, and the databases whose drop was tried: an error of the cleanup is only logged.
  unfoldable pub clean_up :
      Result PostgresManager StartError → Result PostgresManager StartError × List ReadString
  clean_up (err e) = (err e, [])
  clean_up (ok manager) = (ok manager, (drop_ddl_templates_like site.server manager).1)

  unfoldable pub prepare_postgres :
      PostgresConfig → Option (Result PostgresManager StartError × List ReadString)
  prepare_postgres config =
      Postgres.start site.startup site.draw config >>= λ r. some (clean_up (map_start_error r.0))

  abbrev pub started_with :
      PostgresManager
      → Result (Unit {0}) PostgresDdlClientError × WorkerEngine
      → Result (PostgresManager × WorkerEngine) StartError
  started_with manager (ok u, e) = ok (manager, e)
  started_with manager (err error, e) = err (initial_database_creation error)

  -- The engine at the beginning of its loop. The two workers run from here on.
  unfoldable pub start_workers :
      PostgresManager
      → WorkerEngineConfig
      → Option (Result (PostgresManager × WorkerEngine) StartError)
  start_workers manager config = do
    outcomes ← create_databases site.to_string site.server manager site.draws config.initial_slots
    r ← try_init outcomes (new_engine config)
    some (started_with manager r)

  abbrev pub start_prepared :
      WorkerEngineConfig
      → Result PostgresManager StartError
      → Option (Result (PostgresManager × WorkerEngine) StartError)
  start_prepared config (err e) = some (err e)
  start_prepared config (ok manager) = start_workers manager config

  unfoldable pub start_manager :
      PostgresConfig
      → WorkerEngineConfig
      → Option (Result (PostgresManager × WorkerEngine) StartError)
  start_manager postgres_config config =
      if config.max_lease_records == 0
      then some (err invalid_lease_record_limit)
      else (prepare_postgres postgres_config >>= λ r. start_prepared config r.0)
