-- ===== src/Manager/Ready.antt =====
-- Starting the manager ends, and leaves an engine with its first databases or says what failed.
use pg_test.Base.{
  ℕ, ◌≡◌, ◌<◌, refl, none, some, ◌>>=◌, List, [], ◌∷◌, Result, ok, err, ◌==◌, length, arith,
  Returns, Bool-cases, Option-cases, inl, inr,
}
use pg_test.DatabaseName.Fits.{truncate-cuts}
use pg_test.DatabaseName.{new}
use pg_test.Engine.Settle.{first_failure, successes}
use pg_test.Engine.Started.{try_init-total}
use pg_test.Engine.Startup.{Outcome, map_or_ok}
use pg_test.Engine.State.{WorkerEngine, WorkerEngineConfig}
use pg_test.Inventory.{PostgresDdlClientError, id_key}
use pg_test.Manager.Startup.{
  Site, StartError, clean_up, initial_database_creation, invalid_lease_record_limit, postgres,
  prepare_postgres, start_manager, start_prepared, start_workers, started_with,
}
use pg_test.Postgres as Postgres
use pg_test.Postgres.Client.{create_databases}
use pg_test.Postgres.Reports.{create_databases-reports}
use pg_test.Postgres.Started.{PoolsSettled, start-settled}
use pg_test.Postgres.{
  PoolEvent, PostgresClientError, PostgresConfig, PostgresManager, Startup, open_pools,
}

successes-length :
    (outcomes : List Outcome) → first_failure outcomes ≡ none → successes outcomes ≡ length outcomes
unfolding first_failure successes
successes-length [] h = refl
successes-length ((index, ok name) ∷ outcomes) h = omega (arith, successes-length outcomes h)
successes-length ((index, err error) ∷ outcomes) h = absurd (cc h)

start-returns :
    (world : Startup) (draw : ℕ → ℕ) (config : PostgresConfig)
    → ((i : ℕ) → draw i < 52)
    → Returns (Postgres.start world draw config) PoolsSettled
unfolding Postgres.start new
start-returns world draw config drawn = elim (Option-cases (Postgres.start world draw config)) [
  | inl panics ↦
      let (prefix, done, shape) = truncate-cuts draw drawn config.pgtest_pg_database in
      absurd (ground (arith, panics, done))
  | inr (r, done) ↦ (r, done, start-settled world draw config r done)
]

-- What the start of the manager has come to.
abbrev pub StartedWell :
    Site
    → PostgresConfig
    → WorkerEngineConfig
    → Result (PostgresManager × WorkerEngine) StartError
    → Type 0
StartedWell site pg config (ok (manager, e)) =
    (0 < config.max_lease_records)
    × (length e.inventory.ready ≡ config.initial_slots)
    × (e.inventory.creating ≡ [])
StartedWell site pg config (err invalid_lease_record_limit) = config.max_lease_records ≡ 0
StartedWell site pg config (err (postgres error)) =
    (events : List PoolEvent) × (Postgres.start site.startup site.draw pg
      ≡ some (err error, events))
StartedWell site pg config (err (initial_database_creation error)) =
    (manager : PostgresManager) × (outcomes : List Outcome) × (create_databases site.to_string
        site.server manager site.draws config.initial_slots
      ≡ some outcomes)
    × (first_failure outcomes ≡ some error)

module _ (site : Site) (pg : PostgresConfig) (config : WorkerEngineConfig)
    (drawn : (i : ℕ) → site.draw i < 52) (drawn_later : (index i : ℕ) → site.draws index i < 52)
    (threshold : config.starvation_threshold < 65536) (batch : config.grow_batch_size < 65536)
    (slots : config.initial_slots < 65536) where
  started_with-StartedWell :
      (manager : PostgresManager) (outcomes : List Outcome)
      (r : Result (Unit {0}) PostgresDdlClientError × WorkerEngine)
      → 0 < config.max_lease_records
      → create_databases site.to_string site.server manager site.draws config.initial_slots
        ≡ some outcomes
      → r.0 ≡ map_or_ok (first_failure outcomes)
      → ((first_failure outcomes ≡ none) → length r.1.inventory.ready ≡ config.initial_slots)
      → r.1.inventory.creating ≡ []
      → StartedWell site pg config (started_with site manager r)
  started_with-StartedWell manager outcomes (ok u, e) room made result ready settled =
      elim (Option-cases (first_failure outcomes)) [
        | inl fine ↦ (room, ready fine, settled)
        | inr (error, failed) ↦ absurd (ground (arith, result, failed))
      ]
  started_with-StartedWell manager outcomes (err error, e) room made result ready settled =
      elim (Option-cases (first_failure outcomes)) [
        | inl fine ↦ absurd (ground (arith, result, fine))
        | inr (first, failed) ↦ (manager, outcomes, made, ground (arith, result, failed))
      ]

  start_workers-StartedWell :
      (manager : PostgresManager)
      → 0 < config.max_lease_records
      → 0 < manager.creation_concurrency
      → Returns (start_workers site manager config) (StartedWell site pg config)
  unfolding start_workers
  start_workers-StartedWell manager room limit =
      let (outcomes, made, (size, each)) =
        create_databases-reports site.to_string site.server manager site.draws drawn_later limit
          config.initial_slots in
      let (r, done, (result, ready, settled, later)) =
        try_init-total config outcomes threshold batch slots size
          (λ index found. ground (arith, found, each index)) [] (omega arith) in
      (
        started_with site manager r,
        rw (made, done) refl,
        started_with-StartedWell manager outcomes r room made result
            (λ fine. omega (arith, ready, size, successes-length outcomes fine)) settled,
      )

  prepared-StartedWell :
      (r : Result PostgresManager PostgresClientError × List PoolEvent)
      → Postgres.start site.startup site.draw pg ≡ some r
      → PoolsSettled r
      → 0 < config.max_lease_records
      → Returns
          (prepare_postgres site pg >>= λ p. start_prepared site config p.0)
          (StartedWell site pg config)
  unfolding prepare_postgres clean_up
  prepared-StartedWell (err e, events) started settled room =
      (err (postgres e), rw (started, prepare_postgres) refl, (events, started))
  prepared-StartedWell (ok manager, events) started settled room =
      let (x, ran, well) = start_workers-StartedWell manager room settled.0 in
      (x, rw (started, prepare_postgres) ran, well)

  -- With random numbers below 52 and with configured numbers below 2^16, starting the manager does not
  -- panic, whatever PostgreSQL answers. It fails because no lease records are allowed, because
  -- PostgreSQL is not ready, or because an initial database could not be created, with the error of
  -- the first one reported; else every initial database is ready and none is being created.
  pub start_manager-returns : Returns (start_manager site pg config) (StartedWell site pg config)
  unfolding start_manager
  start_manager-returns = elim (Bool-cases (config.max_lease_records == 0)) [
    | inl nothing ↦ (err invalid_lease_record_limit, rw nothing refl, ground (arith, nothing))
    | inr room ↦
        let (result, started, settled) = start-returns site.startup site.draw pg drawn in
        let (x, ran, well) = prepared-StartedWell result started settled (ground (arith, room)) in
        (x, rw (room, start_manager) ran, well)
  ]
