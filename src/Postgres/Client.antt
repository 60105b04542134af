-- ===== src/Postgres/Client.antt =====
-- crates/pgtest-core/src/postgres_manager.rs: the manager as the client of the engine's jobs. An error
-- reaches the engine as its text, which the parameter `to_string` makes.
use pg_test.Base.{ℕ, Option, some, ◌>>=◌, List, [], ◌++◌, Result, ok, err, codes, map}
use pg_test.Inventory.{PostgresDdlClientError, operation_failed}
use pg_test.Postgres.Ddl.{
  PostgresOperationsError, Server, create_ddl_database, create_ddl_databases, drop_ddl_database,
  drop_ddl_databases, enumerate,
}
use pg_test.Postgres.{PostgresManager}
use pg_test.ReadString.{ReadString}

module _ (to_string : PostgresOperationsError → ReadString) where
  -- `result.map_err(Into::into)`
  unfoldable pub into {ℓ} :
      {A : Type ℓ} → Result A PostgresOperationsError → Result A PostgresDdlClientError
  into (ok x) = ok x
  into (err error) = err (operation_failed (to_string error))

  abbrev pub into_report {ℓ} :
      {A : Type ℓ} → ℕ × Result A PostgresOperationsError → ℕ × Result A PostgresDdlClientError
  into_report (index, result) = (index, into result)

  abbrev pub unable_to_drop :
      PostgresOperationsError → ℕ × ReadString → ℕ × Result (Unit {0}) PostgresDdlClientError
  unable_to_drop error (index, name) = (
    index,
    err (
        operation_failed
          (codes "unable to drop database " ++ (name ++ (codes ": " ++ to_string error)))),
  )

  -- What is reported if the batch as a whole failed: no name was tried then.
  unfoldable pub report_failure :
      Result (Unit {0}) PostgresOperationsError
      → List ReadString
      → List (ℕ × Result (Unit {0}) PostgresDdlClientError)
  report_failure (ok u) names = []
  report_failure (err error) names = map (unable_to_drop error) (enumerate 0 names)

  module _ (server : Server) where
    unfoldable pub create_databases :
        PostgresManager
        → (ℕ → ℕ → ℕ)
        → ℕ
        → Option (List (ℕ × Result ReadString PostgresDdlClientError))
    create_databases manager draws amount =
        create_ddl_databases server manager draws amount >>= λ reports.
        some (map into_report reports)

    unfoldable pub drop_databases :
        List ReadString → List (ℕ × Result (Unit {0}) PostgresDdlClientError)
    drop_databases names =
        let (result, reports) = drop_ddl_databases server names in
        map into_report reports ++ report_failure result names

    unfoldable pub drop_database : ReadString → Result (Unit {0}) PostgresDdlClientError
    drop_database name = into (drop_ddl_database server name)

    unfoldable pub create_database :
        PostgresManager → (ℕ → ℕ) → ℕ → Option (Result ReadString PostgresDdlClientError)
    create_database manager draw index =
        create_ddl_database server manager draw index >>= λ result. some (into result)
