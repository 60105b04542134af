-- ===== src/Postgres/Tests.antt =====
-- The manager at concrete inputs: a server that takes every statement, and one without a connection
-- for the second creation and for cleaning up.
use pg_test.Base.{
  ℕ, ◌≡◌, ◌≤◌, ◌⊎◌, refl, true, false, some, List, [], ◌∷◌, ◌++◌, arith, codes, ℕ_discrete, length,
  count, map, Returns, Result, ok, err, ◌==◌, if◌then◌else◌, leb,
}
use pg_test.DatabaseName.{
  generate_database_name, generate_id, generate_parallel_test_id, random_letters, charset, find_cut,
  is_char_boundary, take, new, truncate,
}
use pg_test.Engine.Handlers.{process_messages}
use pg_test.Engine.Settle.{first_failure, successes}
use pg_test.Engine.Startup.{map_or_ok, try_init}
use pg_test.Engine.State.{WorkerEngineConfig, new_engine}
use pg_test.Inventory.Holdings.{within}
use pg_test.Inventory.{id_key}
use pg_test.Postgres.Batches.{drop_ddl_databases-each, drop_each}
use pg_test.Postgres.Cleanup.{
  cleanup_pattern, drop_batches, chunks, chunks_within, first_error, split_at,
  drop_ddl_templates_like,
}
use pg_test.Postgres.Client.{create_databases, drop_databases}
use pg_test.Postgres.Ddl.{
  PostgresOperationsError, Server, create_statement, drop_ddl_databases, drop_on_connection,
}
use pg_test.Postgres.Leftovers.{Listed, drop_ddl_templates_like-drops, like}
use pg_test.Postgres.Missed.{cleanup_pattern-misses}
use pg_test.Postgres.Pipeline.Ends.{rounds-bounded, run_bounded-reports}
use pg_test.Postgres.Pipeline.{fill, rounds, run_bounded}
use pg_test.Postgres.Reports.{drop_databases-reports, report_index, try_init-on_manager}
use pg_test.Postgres.Started.{PoolsSettled, start-settled}
use pg_test.Postgres.Statements.{create_statement-reads, read_create}
use pg_test.Postgres.{
  check_version, connect_pool, database_exists, is_valid_version, major_version, open_pools,
  validate, with_cleanup, with_creation, PostgresConfig, PostgresManager, PostgresClientError,
  PoolEvent, Purpose, Startup, cleanup, closed, creation, pos, opened, start,
  unable_to_connect_to_postgres,
}
use pg_test.Postgres.Pipeline.Laws.{weigh}
use pg_test.ReadString.{ReadString}

abbrev letters : ℕ → ℕ
letters i = 51

abbrev app : ReadString
app = codes "app"

abbrev stale : ReadString
stale = codes "app_old"

abbrev manager : PostgresManager
manager = record {
  version = 16;
  host = codes "localhost";
  port = 5432;
  template_database_name = record { name = app; prefix_template = app };
  creation_concurrency = 2;
}

abbrev taking : Server
taking = record {
  acquire = λ p index. ok tt;
  execute = λ statement. ok tt;
  list_databases = λ pattern. ok (codes "app_new" ∷ stale ∷ []);
  picks = λ round. round;
}

abbrev refusing_purpose : Purpose → ℕ → Result (Unit {0}) ℕ
refusing_purpose creation index = if index == 1 then err 7 else ok tt
refusing_purpose cleanup index = err 8

abbrev refusing : Server
refusing = record taking { acquire = refusing_purpose }

abbrev to_string : PostgresOperationsError → ReadString
to_string error = codes "error"

abbrev five : List ℕ
five = 5 ∷ 6 ∷ 7 ∷ 8 ∷ 9 ∷ []

run_bounded-reports_example :
    Returns
      (run_bounded 5 2 (λ round. round))
      (λ order. (length order ≡ 5) × ((index : ℕ) → count index order ≡ within 0 5 index))
run_bounded-reports_example = run_bounded-reports 5 2 (λ round. round) (omega arith)

rounds-bounded_example :
    (length (rounds (λ round. 1) 2 (fill 2 [] five)).in_flight ≤ 2)
    × (((rounds (λ round. 1) 2 (fill 2 [] five)).waiting ≡ [])
        ⊎ (length (rounds (λ round. 1) 2 (fill 2 [] five)).in_flight ≡ 2))
rounds-bounded_example = rounds-bounded 2 (λ round. 1) 2 five

-- The server is there, and its cleanup pool does not connect.
abbrev half : Startup
half = record {
  configures = λ p. true;
  connects = λ p. elim p [ creation ↦ true | cleanup ↦ false ];
  list_databases = λ pattern. some (app ∷ []);
  server_version = some (pos 160002);
}

abbrev config : PostgresConfig
config = record {
  pgtest_pg_host = codes "localhost";
  pgtest_pg_port = 5432;
  pgtest_pg_user = codes "postgres";
  pgtest_pg_database = app;
  pgtest_pg_creation_pool_connection = 4;
  pgtest_pg_cleanup_pool_connection = 1;
}

abbrev failed_start : Result PostgresManager PostgresClientError × List PoolEvent
failed_start = (
  err (unable_to_connect_to_postgres (codes "postgres") (codes "localhost") 5432),
  opened creation ∷ opened cleanup ∷ closed cleanup ∷ closed creation ∷ [],
)

half_fails : start half letters config ≡ some failed_start
unfolding start new truncate open_pools with_creation connect_pool validate database_exists
    is_valid_version check_version major_version with_cleanup
half_fails = refl

start-settled_example : PoolsSettled failed_start
start-settled_example = start-settled half letters config failed_start half_fails

create_statement-reads_example :
    read_create (create_statement 16 (codes "a\"b") app)
    ≡ some (codes "a\"b", app, if leb 15 16 then codes " STRATEGY=FILE_COPY" else [])
create_statement-reads_example = create_statement-reads 16 (codes "a\"b") app

drop_ddl_databases-each_example :
    ((drop_ddl_databases taking (app ∷ stale ∷ [])).0 ≡ ok tt)
    × ((f : ℕ × Result (Unit {0}) PostgresOperationsError → ℕ)
        → weigh f (drop_ddl_databases taking (app ∷ stale ∷ [])).1
          ≡ weigh f (drop_each taking 0 (app ∷ stale ∷ [])))
drop_ddl_databases-each_example = drop_ddl_databases-each taking (app ∷ stale ∷ []) refl

drop_databases-reports_example :
    count 1 (map report_index (drop_databases to_string refusing (app ∷ stale ∷ [])))
    ≡ within 0 (length (app ∷ stale ∷ [])) 1
drop_databases-reports_example = drop_databases-reports to_string refusing (app ∷ stale ∷ []) 1

abbrev engine_config : WorkerEngineConfig
engine_config = record {
  initial_slots = 3;
  grow_batch_size = 2;
  starvation_threshold = 1;
  lease_claim_timeout_ms = 30000;
  max_lease_records = 10;
}

-- The second creation gets no connection.
try_init-on_manager_example :
    Returns (create_databases to_string refusing manager (λ index. letters) 3) (λ outcomes.
      Returns (try_init outcomes (new_engine engine_config)) (λ r.
        (r.0 ≡ map_or_ok (first_failure outcomes))
        × (length r.1.inventory.ready ≡ successes outcomes)
        × (r.1.inventory.creating ≡ [])
        × Returns (process_messages [] r.1) (λ e. (e.inventory.ready ≡ []) ⊎ (e.waiters ≡ []))))
try_init-on_manager_example =
    try_init-on_manager to_string refusing manager (λ index. letters) (λ index i. omega arith)
      (omega arith) engine_config [] (omega arith) (omega arith) (omega arith) (omega arith)

drop_ddl_templates_like-drops_example :
    Listed (app ++ codes "_old") (drop_ddl_templates_like taking manager).1
    × (drop_on_connection taking (app ++ codes "_old") ≡ ok tt)
unfolding drop_ddl_templates_like drop_batches chunks chunks_within first_error split_at
    drop_on_connection count ℕ_discrete
drop_ddl_templates_like-drops_example =
    drop_ddl_templates_like-drops taking manager (codes "old") refl refl
      (λ names listed matches. (codes "app_new" ∷ [], [], cc listed))

-- A template of 26 bytes.
abbrev long_template : ReadString
long_template = codes "abcdefghijklmnopqrstuvwxyz"

-- Its prefix is its first 25 bytes, an underscore and four letters.
abbrev long_manager : PostgresManager
long_manager = record manager {
  template_database_name = record {
    name = long_template;
    prefix_template = codes "abcdefghijklmnopqrstuvwxy_zzzz";
  };
}

abbrev long_generated : ReadString
long_generated = codes "abcdefghijklmnopqrstuvwxy_zzzz_zzzzzzzzzzzzzzzzzzzzzzzzzzzzzzzz"

cleanup_pattern-misses_example : like false (cleanup_pattern long_manager) long_generated ≡ false
unfolding count ℕ_discrete new truncate generate_database_name generate_id generate_parallel_test_id
    random_letters charset find_cut is_char_boundary take
cleanup_pattern-misses_example =
    cleanup_pattern-misses letters letters long_manager long_template long_generated
      (λ i. omega arith) (refl, refl, refl) (omega arith) refl refl
