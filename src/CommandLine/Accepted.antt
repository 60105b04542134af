-- ===== src/CommandLine/Accepted.antt =====
-- What the guards promise to the program behind them.
use pg_test.Base.{
  ℕ, ◌≡◌, ◌<◌, ◌⊎◌, inl, inr, refl, Bool, true, false, some, ◌>>=◌, List, [], ◌∷◌, Result, ok, err,
  arith, bind-eq-some, subst, Bool-cases, Option-cases,
}
use pg_test.CommandLine.{
  GuardError, ServeOptions, engine_config, guard, is_some, parse_serve_options, postgres_config,
  serve_options, tcp_address,
}
use pg_test.ControlPanel.Protocol.Releases.{Result-cases}
use pg_test.DatabaseName.{PostgresDatabaseName, new}
use pg_test.Engine.Startup.{try_init}
use pg_test.Postgres.Client.{create_databases}
use pg_test.Engine.State.{new_engine, WorkerEngine, WorkerEngineConfig}
use pg_test.Manager.Startup.{
  Site, StartError, clean_up, initial_database_creation, invalid_lease_record_limit,
  map_start_error, postgres, prepare_postgres, start_manager, start_prepared, start_workers,
  started_with,
}
use pg_test.Inventory.{PostgresDdlClientError}
use pg_test.Postgres as Postgres
use pg_test.Postgres.{
  PoolEvent, PostgresClientError, PostgresConfig, PostgresManager, Purpose, Startup, found_any,
  cleanup, creation, check_version, connect_pool, database_exists, invalid_pool_size,
  is_valid_version, major_version, open_pools, validate, with_cleanup, with_creation, ℤ,
}
use pg_test.ReadString.{ReadString}

-- What holds of the options if every guard keeps them.
abbrev pub IsAccepted : ServeOptions → Type 0
IsAccepted o =
    (0 < o.pg_port)
    × (0 < o.creation_pool_connection)
    × (0 < o.cleanup_pool_connection)
    × (0 < o.max_lease_records)
    × ((is_some (tcp_address o) ≡ true) ⊎ (is_some o.unix_socket_dir ≡ true))

guard-ok :
    (holds : Bool) (e : GuardError) (r : Result ServeOptions GuardError) (o : ServeOptions)
    → guard holds e r ≡ ok o
    → (holds ≡ true) × (r ≡ ok o)
unfolding guard
guard-ok true e (ok options) o h = (refl, h)
guard-ok false e (ok options) o h = absurd (cc h)
guard-ok holds e (err first) o h = absurd (cc h)

serve_options-IsAccepted :
    (o accepted : ServeOptions) → serve_options o ≡ ok accepted → (accepted ≡ o) × IsAccepted o
unfolding serve_options parse_serve_options tcp_address
serve_options-IsAccepted o accepted h =
    let (_, h₁) = guard-ok _ _ _ accepted h in
    let (_, h₂) = guard-ok _ _ _ accepted h₁ in
    let (listens, h₃) = guard-ok _ _ _ accepted h₂ in
    let (records, h₄) = guard-ok _ _ _ accepted h₃ in
    let (cleanups, h₅) = guard-ok _ _ _ accepted h₄ in
    let (creations, h₆) = guard-ok _ _ _ accepted h₅ in
    let (_, h₇) = guard-ok _ _ _ accepted h₆ in
    let (_, h₈) = guard-ok _ _ _ accepted h₇ in
    let (_, h₉) = guard-ok _ _ _ accepted h₈ in
    let (port, h₁₀) = guard-ok _ _ _ accepted h₉ in
    let (_, h₁₁) = guard-ok _ _ _ accepted h₁₀ in
    (
      cc h₁₁,
      (
        ground (arith, port),
        ground (arith, creations),
        ground (arith, cleanups),
        ground (arith, records),
        elim (Option-cases o.listen_addr) [
          | inl nowhere ↦ inr (ground (arith, listens, nowhere))
          | inr (address, given) ↦ inl (rw (given, tcp_address) refl)
        ],
      ),
    )

module _ (world : Startup) where
  found_any-sized :
      (name : ReadString) (rows : List ReadString) (p : Purpose)
      → ¬ (found_any world name rows ≡ err (invalid_pool_size p))
  found_any-sized name [] p h = absurd (cc h)
  found_any-sized name (row ∷ rows) p h = absurd (cc h)

  database_exists-sized :
      (name : ReadString) (p : Purpose) → ¬ (database_exists world name ≡ err (invalid_pool_size p))
  unfolding database_exists
  database_exists-sized name p h = elim (Option-cases (world.list_databases name)) [
    | inl away ↦ absurd (ground (arith, h, away))
    | inr (rows, listed) ↦ found_any-sized name rows p (ground (arith, h, listed))
  ]

  is_valid_version-sized : (p : Purpose) → ¬ (is_valid_version world ≡ err (invalid_pool_size p))
  unfolding is_valid_version check_version
  is_valid_version-sized p h = elim (Option-cases world.server_version) [
    | inl away ↦ absurd (ground (arith, h, away))
    | inr (number, there) ↦ elim (Option-cases (major_version number)) [
      | inl odd ↦ absurd (ground (arith, h, there, odd))
      | inr (version, read) ↦ absurd (ground (arith, h, there, read))
    ]
  ]

  validate-sized :
      (config : PostgresConfig) (p : Purpose)
      → ¬ (validate world config ≡ err (invalid_pool_size p))
  unfolding validate
  validate-sized config p h =
      elim (Result-cases (database_exists world config.pgtest_pg_database)) [
        | inl (u, there) ↦ is_valid_version-sized p (ground (arith, h, there))
        | inr (e, missing) ↦
            database_exists-sized config.pgtest_pg_database p (ground (arith, h, missing))
      ]

  connect_pool-sized :
      (config : PostgresConfig) (q p : Purpose)
      → ¬ ((connect_pool world config q).0 ≡ err (invalid_pool_size p))
  unfolding connect_pool
  connect_pool-sized config q p h = elim (Bool-cases (world.configures q)) [
    | inr unset ↦ absurd (ground (arith, h, unset))
    | inl set_up ↦ elim (Bool-cases (world.connects q)) [
      | inl there ↦ absurd (ground (arith, h, set_up, there))
      | inr away ↦ absurd (ground (arith, h, set_up, away))
    ]
  ]

  with_cleanup-sized :
      (config : PostgresConfig) (names : PostgresDatabaseName) (version : ℕ)
      (events : List PoolEvent) (pool : Result (Unit {0}) PostgresClientError × List PoolEvent)
      (p : Purpose)
      → ¬ (pool.0 ≡ err (invalid_pool_size p))
      → ¬ ((with_cleanup world config names version events pool).0 ≡ err (invalid_pool_size p))
  unfolding with_cleanup
  with_cleanup-sized config names version events (err e, later) p sized h = sized (cc h)
  with_cleanup-sized config names version events (ok u, later) p sized h = absurd (cc h)

  with_creation-sized :
      (config : PostgresConfig) (names : PostgresDatabaseName)
      (pool : Result (Unit {0}) PostgresClientError × List PoolEvent)
      (checked : Result ℕ PostgresClientError) (p : Purpose)
      → ¬ (pool.0 ≡ err (invalid_pool_size p))
      → ¬ (checked ≡ err (invalid_pool_size p))
      → ¬ ((with_creation world config names pool checked).0 ≡ err (invalid_pool_size p))
  unfolding with_creation
  with_creation-sized config names (err e, events) checked p sized valid h = sized (cc h)
  with_creation-sized config names (ok u, events) (err e) p sized valid h = valid (cc h)
  with_creation-sized config names (ok u, events) (ok version) p sized valid h =
      with_cleanup-sized config names version events (connect_pool world config cleanup) p
        (connect_pool-sized config cleanup p) h

  -- The sizes of the pools are the manager's only complaint about the sizes of the pools.
  start-sized :
      (draw : ℕ → ℕ) (config : PostgresConfig) (p : Purpose) (events : List PoolEvent)
      → 0 < config.pgtest_pg_creation_pool_connection
      → 0 < config.pgtest_pg_cleanup_pool_connection
      → ¬ (Postgres.start world draw config ≡ some (err (invalid_pool_size p), events))
  unfolding Postgres.start open_pools
  start-sized draw config p events creations cleanups h =
      elim (Option-cases (new draw config.pgtest_pg_database)) [
        | inl panics ↦ absurd (ground (arith, h, creations, cleanups, panics))
        | inr (names, named) ↦
            with_creation-sized config names (connect_pool world config creation)
              (validate world config) p (connect_pool-sized config creation p)
              (validate-sized config p) (ground (arith, h, creations, cleanups, named))
      ]

-- No error that the options of the command would be to blame for.
abbrev pub IsConfigured : Result (PostgresManager × WorkerEngine) StartError → Type 0
IsConfigured (ok m) = Unit {0}
IsConfigured (err invalid_lease_record_limit) = ⊥
IsConfigured (err (postgres e)) = (p : Purpose) → ¬ (e ≡ invalid_pool_size p)
IsConfigured (err (initial_database_creation e)) = Unit {0}

module _ (site : Site) where
  started_with-IsConfigured :
      (manager : PostgresManager) (r : Result (Unit {0}) PostgresDdlClientError × WorkerEngine)
      → IsConfigured (started_with site manager r)
  started_with-IsConfigured manager (ok u, e) = tt
  started_with-IsConfigured manager (err error, e) = tt

  start_workers-IsConfigured :
      (manager : PostgresManager) (config : WorkerEngineConfig)
      (r : Result (PostgresManager × WorkerEngine) StartError)
      → start_workers site manager config ≡ some r
      → IsConfigured r
  unfolding start_workers
  start_workers-IsConfigured manager config r h =
      let (outcomes, made, h₁) =
        bind-eq-some
          (create_databases site.to_string site.server manager site.draws config.initial_slots)
          (λ outcomes.
            try_init outcomes (new_engine config) >>= λ s. some (started_with site manager s))
          h in
      let (s, done, h₂) =
        bind-eq-some (try_init outcomes (new_engine config))
          (λ s. some (started_with site manager s)) h₁ in
      subst IsConfigured (cc h₂) (started_with-IsConfigured manager s)

  module _ (pg : PostgresConfig) (config : WorkerEngineConfig) (room : 0 < config.max_lease_records)
      (creations : 0 < pg.pgtest_pg_creation_pool_connection)
      (cleanups : 0 < pg.pgtest_pg_cleanup_pool_connection)
      (r : Result (PostgresManager × WorkerEngine) StartError) where
    prepared-IsConfigured :
        (p : Result PostgresManager PostgresClientError × List PoolEvent)
        → Postgres.start site.startup site.draw pg ≡ some p
        → start_prepared site config (clean_up site (map_start_error p.0)).0 ≡ some r
        → IsConfigured r
    unfolding clean_up
    prepared-IsConfigured (ok manager, events) started h =
        start_workers-IsConfigured manager config r h
    prepared-IsConfigured (err e, events) started h =
        subst IsConfigured {x = err (postgres e)} (cc h) (λ p same.
          start-sized site.startup site.draw pg p events creations cleanups (cc (started, same)))

    start_manager-IsConfigured : start_manager site pg config ≡ some r → IsConfigured r
    unfolding start_manager prepare_postgres
    start_manager-IsConfigured h =
        let h₀ : (prepare_postgres site pg >>= λ p. start_prepared site config p.0) ≡ some r =
          ground (arith, h, room) in
        let (q, prepared, h₁) =
          bind-eq-some (prepare_postgres site pg) (λ p. start_prepared site config p.0) h₀ in
        let (p, started, h₂) =
          bind-eq-some (Postgres.start site.startup site.draw pg)
            (λ p. some (clean_up site (map_start_error p.0))) prepared in
        prepared-IsConfigured p started (cc (h₁, h₂))

-- Options that the guards of the command keep are kept as they are and ask for a listener; and a start
-- with them never fails for the size of a pool or for a capacity without room for a lease.
pub serve_options-IsConfigured :
    (site : Site) (o accepted : ServeOptions)
    (r : Result (PostgresManager × WorkerEngine) StartError)
    → serve_options o ≡ ok accepted
    → start_manager site (postgres_config accepted) (engine_config accepted) ≡ some r
    → (accepted ≡ o)
      × ((is_some (tcp_address o) ≡ true) ⊎ (is_some o.unix_socket_dir ≡ true))
      × IsConfigured r
unfolding postgres_config engine_config
serve_options-IsConfigured site o accepted r h started =
    let (same, (port, creations, cleanups, records, listens)) =
      serve_options-IsAccepted o accepted h in
    (
      same,
      listens,
      start_manager-IsConfigured site (postgres_config accepted) (engine_config accepted)
          (rw same records) (rw same creations) (rw same cleanups) r started,
    )
