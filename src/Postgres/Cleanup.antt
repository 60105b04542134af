-- ===== src/Postgres/Cleanup.antt =====
-- crates/pgtest-database-operations/src/manager.rs: the cleanup at the start, which drops what an
-- earlier run has left behind. Next to the result stand the names for which a drop was tried.
use pg_test.Base.{
  ℕ, zero, suc, Option, none, some, List, [], ◌∷◌, ◌++◌, Result, ok, err, codes, length, map,
}
use pg_test.Postgres.Ddl.{
  PostgresOperationsError, Server, cleanup_pipeline_depth, drop_on_connection,
  unable_to_list_databases,
}
use pg_test.Postgres.{PostgresManager, cleanup}
use pg_test.ReadString.{ReadString}

-- The pattern `{template}_%`.
abbrev pub cleanup_pattern : PostgresManager → ReadString
cleanup_pattern manager = manager.template_database_name.name ++ codes "_%"

-- The first elements, and what is behind them.
unfoldable pub split_at {ℓ} : {A : Type ℓ} → ℕ → List A → List A × List A
split_at zero xs = ([], xs)
split_at (suc n) [] = ([], [])
split_at (suc n) (x ∷ xs) = let (first, later) = split_at n xs in (x ∷ first, later)

-- `names.chunks(width)`, of as many chunks as there are elements at most.
unfoldable pub chunks_within {ℓ} : {A : Type ℓ} → ℕ → ℕ → List A → List (List A)
chunks_within zero width xs = []
chunks_within (suc n) width [] = []
chunks_within (suc n) width (x ∷ xs) =
    let (chunk, later) = split_at width (x ∷ xs) in chunk ∷ chunks_within n width later

unfoldable pub chunks {ℓ} : {A : Type ℓ} → ℕ → List A → List (List A)
chunks width xs = chunks_within (length xs) width xs

-- `for result in results { result?; }`
unfoldable pub first_error {ℓ} : {E : Type ℓ} → List (Result (Unit {0}) E) → Option E
first_error [] = none
first_error (ok u ∷ results) = first_error results
first_error (err e ∷ results) = some e

module _ (server : Server) where
  -- The drops of a batch are awaited together. A batch with an error among them is the last one.
  unfoldable pub drop_batches :
      List (List ReadString) → Result (Unit {0}) PostgresOperationsError × List ReadString
  drop_batches [] = (ok tt, [])
  drop_batches (batch ∷ batches) =
      let (result, tried) = drop_batches batches in
      elim (first_error (map (drop_on_connection server) batch)) [
        | some e ↦ (err e, batch)
        | none ↦ (result, batch ++ tried)
      ]

  unfoldable pub drop_ddl_templates_like :
      PostgresManager → Result (Unit {0}) PostgresOperationsError × List ReadString
  drop_ddl_templates_like manager = elim (server.acquire cleanup 0) [
    | err e ↦ (err (unable_to_list_databases e), [])
    | ok u ↦ elim (server.list_databases (cleanup_pattern manager)) [
      | err e ↦ (err (unable_to_list_databases e), [])
      | ok names ↦ drop_batches (chunks cleanup_pipeline_depth names)
    ]
  ]
