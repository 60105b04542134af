-- ===== src/Manager/StartTests.antt =====
-- The start of the manager at a concrete input: the second database is not created.
use pg_test.Base.{
  ℕ, true, some, [], ◌∷◌, arith, codes, ok, err, Returns, Result, ◌==◌, if◌then◌else◌,
}
use pg_test.Engine.State.{WorkerEngineConfig}
use pg_test.Manager.Ready.{StartedWell, start_manager-returns}
use pg_test.Manager.Startup.{Site, start_manager}
use pg_test.Postgres.{PostgresConfig, Purpose, cleanup, creation, pos}

abbrev refuses_second : Purpose → ℕ → Result (Unit {0}) ℕ
refuses_second creation index = if index == 1 then err 7 else ok tt
refuses_second cleanup index = ok tt

abbrev site : Site
site = record {
  startup = record {
    configures = λ p. true;
    connects = λ p. true;
    list_databases = λ pattern. some (codes "app" ∷ []);
    server_version = some (pos 160002);
  };
  server = record {
    acquire = refuses_second;
    execute = λ statement. ok tt;
    list_databases = λ pattern. ok [];
    picks = λ round. 0;
  };
  to_string = λ e. [];
  draw = λ i. 0;
  draws = λ index i. 0;
}

abbrev pg_config : PostgresConfig
pg_config = record {
  pgtest_pg_host = codes "localhost";
  pgtest_pg_port = 5432;
  pgtest_pg_user = codes "postgres";
  pgtest_pg_database = codes "app";
  pgtest_pg_creation_pool_connection = 2;
  pgtest_pg_cleanup_pool_connection = 1;
}

abbrev config : WorkerEngineConfig
config = record {
  initial_slots = 2;
  starvation_threshold = 1;
  grow_batch_size = 2;
  lease_claim_timeout_ms = 30000;
  max_lease_records = 10;
}

start_manager-returns_example :
    Returns (start_manager site pg_config config) (StartedWell site pg_config config)
start_manager-returns_example =
    start_manager-returns site pg_config config (λ i. omega arith) (λ index i. omega arith)
      (omega arith) (omega arith) (omega arith)
