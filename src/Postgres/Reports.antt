-- ===== src/Postgres/Reports.antt =====
-- What the client reports to the engine: each index of a batch once, whatever fails.
use pg_test.Base.{
  ℕ, ◌+◌, ◌<◌, ◌≡◌, refl, List, [], ◌∷◌, ◌++◌, arith, length, count, map, same, ◌⊎◌, Result, err,
  Returns, subst, sym, inl, inr, codes,
}
use pg_test.ControlPanel.Protocol.Releases.{Result-cases}
use pg_test.Engine.Invariant.{history_bound}
use pg_test.Engine.Handlers.{process_messages}
use pg_test.Engine.Settle.{first_failure, successes}
use pg_test.Engine.Settle as Settle
use pg_test.Engine.Started.{try_init-total}
use pg_test.Engine.Startup.{map_or_ok, try_init}
use pg_test.Engine.State.{EngineMessage, Environment, WorkerEngineConfig, new_engine}
use pg_test.Inventory.Holdings.{within}
use pg_test.Inventory.{id_key}
use pg_test.Postgres.Batches.{
  drop_ddl_databases-connected, drop_ddl_databases-disconnected, drop_all-each, drop_each-index,
}
use pg_test.Postgres.Client.{
  create_databases, drop_databases, into_report, report_failure, unable_to_drop,
}
use pg_test.Postgres.Creations.{length-map, create_ddl_databases-returns}
use pg_test.Postgres.Ddl.{
  unable_to_drop_database, PostgresOperationsError, Server, drop_all, drop_ddl_databases, enumerate,
}
use pg_test.Postgres.Pipeline.Laws.{weigh}
use pg_test.Postgres.{PostgresManager, cleanup}
use pg_test.ReadString.{ReadString}

abbrev pub report_index {ℓ κ} : {A : Type ℓ} {B : Type κ} → ℕ × Result A B → ℕ
report_index (index, result) = index

count-weigh :
    {A B : Type 0} (k : ℕ) (reports : List (ℕ × Result A B))
    → count k (map report_index reports) ≡ weigh (λ r. same (report_index r) k) reports
unfolding count weigh
count-weigh k [] = refl
count-weigh k (r ∷ reports) = omega (arith, count-weigh k reports)

append_nil : {A : Type 0} (xs : List A) → xs ++ [] ≡ xs
append_nil [] = refl
append_nil (x ∷ xs) = rw (append_nil xs) refl

module _ (to_string : PostgresOperationsError → ReadString) where
  indices-into :
      {A : Type 0} (reports : List (ℕ × Result A PostgresOperationsError))
      → map report_index (map (into_report to_string) reports) ≡ map report_index reports
  indices-into [] = refl
  indices-into (r ∷ reports) = rw (indices-into reports) refl

  count-failures :
      (error : PostgresOperationsError) (k index : ℕ) (names : List ReadString)
      → count k (map report_index (map (unable_to_drop to_string error) (enumerate index names)))
        ≡ within index (length names) k
  unfolding count enumerate
  count-failures error k index [] = ground arith
  count-failures error k index (name ∷ names) =
      ground (arith, count-failures error k (index + 1) names)

  module _ (server : Server) where
    drop_databases-nothing : drop_databases to_string server [] ≡ []
    unfolding drop_databases report_failure drop_ddl_databases enumerate
    drop_databases-nothing = refl

    -- Every batch of drops, one without a connection and one with failures among its drops too, reports
    -- each index of its names exactly once, and no other.
    pub drop_databases-reports :
        (names : List ReadString) (index : ℕ)
        → count index (map report_index (drop_databases to_string server names))
          ≡ within 0 (length names) index
    unfolding drop_databases report_failure count
    drop_databases-reports names index = elim (Result-cases (server.acquire cleanup 0)) [
      | inl (u, there) ↦
          rw
            (
              drop_databases,
              drop_ddl_databases-connected server names there,
              append_nil (map (into_report to_string) (drop_all server (enumerate 0 names))),
              indices-into (drop_all server (enumerate 0 names)),
            )
            (omega (
              arith,
              count-weigh index (drop_all server (enumerate 0 names)),
              drop_all-each server (λ r. same r.0 index) names,
              drop_each-index server index 0 names,
            ))
      | inr (e, away) ↦ without e away names
    ]
      where
        without :
            (e : ℕ)
            → server.acquire cleanup 0 ≡ err e
            → (names : List ReadString)
            → count index (map report_index (drop_databases to_string server names))
              ≡ within 0 (length names) index
        without e away [] = rw drop_databases-nothing (ground arith)
        without e away (name ∷ names) =
            rw (drop_databases, drop_ddl_databases-disconnected server name names e away)
              (count-failures (unable_to_drop_database (codes "cleanup batch") e) index 0
                (name ∷ names))

    module _ (manager : PostgresManager) (draws : ℕ → ℕ → ℕ)
        (drawn : (index i : ℕ) → draws index i < 52)
        (some_limit : 0 < manager.creation_concurrency) where
      -- The client answers for each index of a creation once, so the engine's start can rely on it.
      pub create_databases-reports :
          (amount : ℕ)
          → Returns (create_databases to_string server manager draws amount) (λ outcomes.
            (length outcomes ≡ amount)
            × ((index : ℕ) → count index (map Settle.index_of outcomes) ≡ within 0 amount index))
      unfolding create_databases
      create_databases-reports amount =
          let (reports, made, (size, each, named)) =
            create_ddl_databases-returns server manager draws drawn amount some_limit in
          (
            map (into_report to_string) reports,
            rw made refl,
            (
              omega (arith, size, length-map (into_report to_string) reports),
              λ index.
                  subst (λ indices. count index indices ≡ within 0 amount index)
                    (sym (indices-into reports)) (each index),
            ),
          )

      -- The engine starts on the manager: with a limit of creations, with random numbers below 52 and
      -- with configured numbers below 2^16, the first databases are created and settled without a
      -- panic, whatever the server answers and in whatever order. One database is ready for each that
      -- was created and none is being created any more; and the fewer than 2^31 messages that follow are
      -- handled without a panic, and leave no lease waiting while a database is ready.
      pub try_init-on_manager :
          (config : WorkerEngineConfig) (messages : List (Environment × EngineMessage))
          → config.starvation_threshold < 65536
          → config.grow_batch_size < 65536
          → config.initial_slots < 65536
          → length messages < history_bound
          → Returns
              (create_databases to_string server manager draws config.initial_slots)
              (λ outcomes. Returns (try_init outcomes (new_engine config)) (λ r.
                (r.0 ≡ map_or_ok (first_failure outcomes))
                × (length r.1.inventory.ready ≡ successes outcomes)
                × (r.1.inventory.creating ≡ [])
                × Returns
                    (process_messages messages r.1)
                    (λ e. (e.inventory.ready ≡ []) ⊎ (e.waiters ≡ []))))
      try_init-on_manager config messages threshold batch slots short =
          let (outcomes, made, (size, each)) = create_databases-reports config.initial_slots in
          (
            outcomes,
            made,
            try_init-total config outcomes threshold batch slots size
                (λ index found. ground (arith, found, each index)) messages short,
          )
