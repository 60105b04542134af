-- ===== src/Postgres/Ddl.antt =====
-- crates/pgtest-database-operations/src/manager.rs: creating and dropping databases.
use pg_test.Base.{
  ℕ, zero, suc, ◌+◌, Option, some, ◌>>=◌, List, [], ◌∷◌, ◌++◌, Result, ok, err, leb, if◌then◌else◌,
  codes, map,
}
use pg_test.DatabaseName.{generate_database_name, quote_ident}
use pg_test.Postgres.Pipeline.{drain, run_bounded}
use pg_test.Postgres.{PostgresManager, Purpose, cleanup, creation}
use pg_test.ReadString.{ReadString}

pub data PostgresOperationsError : Type 0 where
  unable_to_create_database : ReadString → ℕ → PostgresOperationsError
  unable_to_drop_database : ReadString → ℕ → PostgresOperationsError
  unable_to_list_databases : ℕ → PostgresOperationsError

-- The pools, the server and the order in which operations complete: whether the operation with an
-- index gets a connection, what the server answers to a statement, the names that it lists for a
-- pattern, and which operation in flight completes next.
pub record Server : Type 0 where
  pub acquire : Purpose → ℕ → Result (Unit {0}) ℕ
  pub execute : ReadString → Result (Unit {0}) ℕ
  pub list_databases : ReadString → Result (List ReadString) ℕ
  pub picks : ℕ → ℕ

abbrev pub cleanup_pipeline_depth : ℕ
cleanup_pipeline_depth = 32

unfoldable pub drop_statement : ReadString → ReadString
drop_statement name =
    codes "DROP DATABASE IF EXISTS " ++ (quote_ident name ++ codes " WITH (FORCE)")

abbrev pub strategy : ℕ → ReadString
strategy version = if leb 15 version then codes " STRATEGY=FILE_COPY" else []

unfoldable pub create_statement : ℕ → ReadString → ReadString → ReadString
create_statement version name template =
    codes "CREATE DATABASE "
    ++ (quote_ident name ++ (codes " TEMPLATE " ++ (quote_ident template ++ strategy version)))

-- The elements with their indices, from one on.
unfoldable pub enumerate {ℓ} : {A : Type ℓ} → ℕ → List A → List (ℕ × A)
enumerate index [] = []
enumerate index (x ∷ xs) = (index, x) ∷ enumerate (index + 1) xs

-- The results of a computation that may panic, for each element in turn.
unfoldable pub collect : {A B : Type 0} → (A → Option B) → List A → Option (List B)
collect f [] = some []
collect f (x ∷ xs) = do y ← f x; ys ← collect f xs; some (y ∷ ys)

module _ (server : Server) where
  unfoldable pub drop_on_connection : ReadString → Result (Unit {0}) PostgresOperationsError
  drop_on_connection name = elim (server.execute (drop_statement name)) [
    | ok u ↦ ok tt
    | err e ↦ err (unable_to_drop_database name e)
  ]

  unfoldable pub drop_ddl_database : ReadString → Result (Unit {0}) PostgresOperationsError
  drop_ddl_database name = elim (server.acquire cleanup 0) [
    | ok u ↦ drop_on_connection name
    | err e ↦ err (unable_to_drop_database name e)
  ]

  abbrev pub drop_indexed : ℕ × ReadString → ℕ × Result (Unit {0}) PostgresOperationsError
  drop_indexed (index, name) = (index, drop_on_connection name)

  unfoldable pub drop_all :
      List (ℕ × ReadString) → List (ℕ × Result (Unit {0}) PostgresOperationsError)
  drop_all names = map drop_indexed (drain cleanup_pipeline_depth server.picks names)

  -- What is reported, and the outer result.
  unfoldable pub drop_ddl_databases :
      List ReadString
      → Result (Unit {0}) PostgresOperationsError
        × List (ℕ × Result (Unit {0}) PostgresOperationsError)
  drop_ddl_databases [] = (ok tt, [])
  drop_ddl_databases (name ∷ names) = elim (server.acquire cleanup 0) [
    | err e ↦ (err (unable_to_drop_database (codes "cleanup batch") e), [])
    | ok u ↦ (ok tt, drop_all (enumerate 0 (name ∷ names)))
  ]

  module _ (manager : PostgresManager) where
    unfoldable pub create_on_connection : ReadString → Result ReadString PostgresOperationsError
    create_on_connection name =
        let template = manager.template_database_name.name in
        elim (server.execute (create_statement manager.version name template)) [
          | ok u ↦ ok name
          | err e ↦ err (unable_to_create_database name e)
        ]

    -- The database is named before a connection is there. `index` tells the attempts apart.
    unfoldable pub create_ddl_database :
        (ℕ → ℕ) → ℕ → Option (Result ReadString PostgresOperationsError)
    create_ddl_database draw index =
        generate_database_name draw manager.template_database_name >>= λ name.
        some (elim (server.acquire creation index) [
          | ok u ↦ create_on_connection name
          | err e ↦ err (unable_to_create_database name e)
        ])

    abbrev pub create_indexed :
        (ℕ → ℕ → ℕ) → ℕ → Option (ℕ × Result ReadString PostgresOperationsError)
    create_indexed draws index =
        create_ddl_database (draws index) index >>= λ result. some (index, result)

    -- The reports of a batch, in their order.
    unfoldable pub create_ddl_databases :
        (ℕ → ℕ → ℕ) → ℕ → Option (List (ℕ × Result ReadString PostgresOperationsError))
    create_ddl_databases draws zero = some []
    create_ddl_databases draws (suc n) = do
      order ← run_bounded (suc n) manager.creation_concurrency server.picks
      collect (create_indexed draws) order
