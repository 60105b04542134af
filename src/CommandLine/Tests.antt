-- ===== src/CommandLine/Tests.antt =====
-- The command at concrete inputs.
use pg_test.Base.{◌≡◌, ◌⊎◌, refl, true, false, none, some, [], codes, ok, err}
use pg_test.CommandLine.Accepted.{IsConfigured, serve_options-IsConfigured}
use pg_test.CommandLine.Server.{ServeWorld, serve}
use pg_test.CommandLine.Stops.{EngineAround, IsBalanced, serve-IsBalanced}
use pg_test.CommandLine.{
  ServeOptions, engine_config, guard, is_some, parse_serve_options, postgres_config, serve_options,
  tcp_address,
}
use pg_test.DatabaseName.{new, truncate}
use pg_test.Manager.Startup.{Site, postgres, start_manager, prepare_postgres, clean_up}
use pg_test.Postgres as Postgres
use pg_test.Postgres.{PostgresManager, Startup, cleanup, unable_to_fetch_database_list}

abbrev options : ServeOptions
options = record {
  pg_host = codes "localhost";
  pg_port = 5432;
  pg_user = codes "postgres";
  pg_database = codes "app";
  listen_addr = some 2130706433;
  listen_port = none;
  unix_socket_dir = some (codes "/tmp");
  unix_socket_port = none;
  creation_pool_connection = 10;
  cleanup_pool_connection = 5;
  pool_initial_size = 16;
  pool_starvation_threshold = 8;
  pool_grow_batch_size = 16;
  lease_claim_timeout_ms = 30000;
  max_lease_records = 100000;
  log_filter = codes "info";
}

-- A server that does not list its databases.
abbrev site : Site
site = record {
  startup = record {
    configures = λ p. true;
    connects = λ p. true;
    list_databases = λ pattern. none;
    server_version = none;
  };
  server = record {
    acquire = λ p index. ok tt;
    execute = λ statement. ok tt;
    list_databases = λ pattern. ok [];
    picks = λ round. 0;
  };
  to_string = λ e. [];
  draw = λ i. 0;
  draws = λ index i. 0;
}

serve_options-IsConfigured_example :
    (options ≡ options)
    × ((is_some (tcp_address options) ≡ true) ⊎ (is_some options.unix_socket_dir ≡ true))
    × IsConfigured (err (postgres unable_to_fetch_database_list))
unfolding serve_options parse_serve_options guard start_manager engine_config prepare_postgres
    Postgres.start postgres_config new truncate clean_up Postgres.open_pools Postgres.with_creation
    Postgres.connect_pool Postgres.validate Postgres.database_exists
serve_options-IsConfigured_example =
    serve_options-IsConfigured site options options (err (postgres unable_to_fetch_database_list))
      refl refl

-- The TCP listener starts, and the Unix listener does not.
abbrev world : ServeWorld
world = record {
  interrupted = false;
  engine_starts = true;
  tcp_starts = λ address. true;
  unix_starts = λ directory port. false;
  retained = false;
}

serve-IsBalanced_example : IsBalanced (serve world options).1 × EngineAround (serve world options).1
serve-IsBalanced_example = serve-IsBalanced world refl options
