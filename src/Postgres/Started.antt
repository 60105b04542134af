-- ===== src/Postgres/Started.antt =====
-- Starting the manager: which servers it takes, and what becomes of the pools.
use pg_test.Base.{
  ℕ, ◌+◌, ◌/◌, ◌≤◌, ◌<◌, ◌≡◌, ◌↔◌, ◌⊎◌, inl, inr, refl, some, subst, List, [], ◌∷◌, arith, Result,
  ok, err, ◌==◌, Bool-cases, Option-cases,
}
use pg_test.DatabaseName.{PostgresDatabaseName, new}
use pg_test.Postgres.{
  PoolEvent, PostgresClientError, PostgresConfig, invalid_pool_size, PostgresManager, Purpose,
  Startup, check_version, cleanup, closed, connect_pool, connection_error, creation, major_version,
  with_cleanup, with_creation, negsuc, open_pools, opened, pos, start, validate, ℤ,
}

-- A version is taken exactly if the server's number is from 13.0 up to the last one of major version
-- 255, and it is the major version.
pub check_version-accepts :
    (number : ℤ) (version : ℕ)
    → (check_version number ≡ ok version)
      ↔ ((n : ℕ) × (number ≡ pos n) × (130000 ≤ n) × (n < 2560000) × (version ≡ n / 10000))
unfolding check_version major_version
check_version-accepts (pos n) version = (
  λ h. (n, refl, ground (arith, h), ground (arith, h), ground (arith, h)),
  λ h. let (m, same, low, high, major) = h in ground (arith, same, low, high, major),
)
check_version-accepts (negsuc n) version =
    (λ h. absurd (ground (arith, h)), λ h. let (m, same, low, high, major) = h in cc same)

-- How often a pool was opened less how often it was closed, as two numbers.
abbrev pub opens : Purpose → PoolEvent → ℕ
opens creation (opened creation) = 1
opens cleanup (opened cleanup) = 1
opens p e = 0

abbrev pub closes : Purpose → PoolEvent → ℕ
closes creation (closed creation) = 1
closes cleanup (closed cleanup) = 1
closes p e = 0

abbrev pub sum_events : (PoolEvent → ℕ) → List PoolEvent → ℕ
sum_events f [] = 0
sum_events f (e ∷ es) = f e + sum_events f es

-- A failed start leaves no pool open; one that succeeds leaves each open, and allows a creation at a
-- time at least.
abbrev pub PoolsSettled : Result PostgresManager PostgresClientError × List PoolEvent → Type 0
PoolsSettled (err e, events) =
    (p : Purpose) → sum_events (opens p) events ≡ sum_events (closes p) events
PoolsSettled (ok manager, events) =
    (0 < manager.creation_concurrency)
    × ((p : Purpose) → (sum_events (opens p) events ≡ 1) × (sum_events (closes p) events ≡ 0))

each_purpose : (P : Purpose → Type 0) → P creation → P cleanup → (p : Purpose) → P p
each_purpose P first second creation = first
each_purpose P first second cleanup = second

module _ (world : Startup) where
  connect_pool-cases :
      (config : PostgresConfig) (p : Purpose)
      → (connect_pool world config p ≡ (ok tt, opened p ∷ []))
        ⊎ ((e : PostgresClientError) × (events : List PoolEvent) × (connect_pool world config p
              ≡ (err e, events))
            × ((events ≡ []) ⊎ (events ≡ opened p ∷ closed p ∷ [])))
  unfolding connect_pool
  connect_pool-cases config p = elim (Bool-cases (world.configures p)) [
    | inr unset ↦ inr (connection_error world config, [], rw unset refl, inl refl)
    | inl set_up ↦ elim (Bool-cases (world.connects p)) [
      | inl there ↦ inl (rw (set_up, there) refl)
      | inr away ↦ inr (
        connection_error world config,
        opened p ∷ closed p ∷ [],
        rw (set_up, away) refl,
        inr refl,
      )
    ]
  ]

  with_cleanup-settled :
      (config : PostgresConfig) (names : PostgresDatabaseName) (version : ℕ)
      → 0 < config.pgtest_pg_creation_pool_connection
      → PoolsSettled (
          with_cleanup world config names version
            (opened creation ∷ [])
            (connect_pool world config cleanup))
  unfolding with_cleanup
  with_cleanup-settled config names version some_connections =
      elim (connect_pool-cases config cleanup) [
        | inl there ↦ rw there (some_connections, each_purpose _ (refl, refl) (refl, refl))
        | inr (e, events, away, inl unset) ↦ rw (away, unset) (each_purpose _ refl refl)
        | inr (e, events, away, inr both) ↦ rw (away, both) (each_purpose _ refl refl)
      ]

  with_creation-settled :
      (config : PostgresConfig) (names : PostgresDatabaseName)
      (checked : Result ℕ PostgresClientError)
      → 0 < config.pgtest_pg_creation_pool_connection
      → PoolsSettled (with_creation world config names (connect_pool world config creation) checked)
  unfolding with_creation
  with_creation-settled config names checked some_connections =
      elim (connect_pool-cases config creation) [
        | inl there ↦ rw there (go checked)
        | inr (e, events, away, inl unset) ↦ rw (away, unset) (each_purpose _ refl refl)
        | inr (e, events, away, inr both) ↦ rw (away, both) (each_purpose _ refl refl)
      ]
    where
      go :
          (checked : Result ℕ PostgresClientError)
          → PoolsSettled (with_creation world config names (ok tt, opened creation ∷ []) checked)
      go (err e) = each_purpose _ refl refl
      go (ok version) = with_cleanup-settled config names version some_connections

  -- Whatever the server and the pools do: a start that fails has closed every pool that it opened, and
  -- one that succeeds has opened each pool once, closed none, and allows a creation at a time at least.
  pub start-settled :
      (draw : ℕ → ℕ) (config : PostgresConfig)
      (started : Result PostgresManager PostgresClientError × List PoolEvent)
      → start world draw config ≡ some started
      → PoolsSettled started
  unfolding start open_pools
  start-settled draw config started h =
      elim (Bool-cases (config.pgtest_pg_creation_pool_connection == 0)) [
        | inl unset ↦
            settled_by (err (invalid_pool_size creation), []) (λ p. refl) (ground (arith, h, unset))
        | inr creations ↦ elim (Bool-cases (config.pgtest_pg_cleanup_pool_connection == 0)) [
          | inl unset ↦
              settled_by (err (invalid_pool_size cleanup), []) (λ p. refl)
                (ground (arith, h, creations, unset))
          | inr cleanups ↦ elim (Option-cases (new draw config.pgtest_pg_database)) [
            | inl panics ↦ absurd (ground (arith, h, creations, cleanups, panics))
            | inr (names, named) ↦
                settled_by (open_pools world config names)
                  (with_creation-settled config names (validate world config)
                    (ground (arith, creations)))
                  (ground (arith, h, creations, cleanups, named))
          ]
        ]
      ]
    where
      settled_by :
          (other : Result PostgresManager PostgresClientError × List PoolEvent)
          → PoolsSettled other
          → other ≡ started
          → PoolsSettled started
      settled_by other settled same = subst PoolsSettled same settled
