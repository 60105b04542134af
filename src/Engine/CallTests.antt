-- ===== src/Engine/CallTests.antt =====
-- The theorems about single calls of the engine, and about its start, at concrete inputs.
use pg_test.Base.Map.{get, insert}
use pg_test.Base.{
  ℕ, ◌+◌, ◌≤◌, ◌<◌, ◌≡◌, ◌⊎◌, ◌↔◌, refl, true, false, some, List, [], ◌∷◌, ok, err, arith, count,
  length, ℕ_discrete, Returns, inr, map,
}
use pg_test.Engine.Growth.{grow, growth_required}
use pg_test.Engine.Handlers.{handle_detach, handle_max_time, process_messages}
use pg_test.Engine.Leases.{assign_database, fresh_entry, reply_attached, schedule_expiration}
use pg_test.Engine.Soundness.{new_engine-Sound}
use pg_test.Engine.Stale.{
  assign_database-stale, reply_attached-detach, reply_attached-fails, schedule_expiration-delay,
}
use pg_test.Engine.Settle.{first_failure, index_of, successes}
use pg_test.Engine.Started.{try_init-total}
use pg_test.Engine.Startup.{Outcome, map_or_ok, try_init}
use pg_test.Engine.State.{
  creation_requested, attached, failed_to_attach, replied, EngineMessage, Environment, LeaseEntry,
  WorkerEngine, WorkerEngineConfig, attach_or_join_msg, new_engine, perform, timer_set,
}
use pg_test.Engine.Supply.{grow-supply}
use pg_test.Inventory.{CreateDatabases, Database, id_key, operation_failed, supply_len}
use pg_test.LeaseId.{LeaseId, LeaseId-discrete, lease_key}

abbrev lease : LeaseId
lease = record { value = b'l' ∷ [] }

abbrev accepting : Environment
accepting = record { delivers = λ c r. true; accepts_creation = λ r. true; elapsed_ms = λ t. 0 }

abbrev refusing : Environment
refusing = record { delivers = λ c r. false; accepts_creation = λ r. false; elapsed_ms = λ t. 0 }

-- Its timeout is 2^32 milliseconds.
abbrev config : WorkerEngineConfig
config = record {
  initial_slots = 2;
  starvation_threshold = 0;
  grow_batch_size = 2;
  lease_claim_timeout_ms = 4294967296;
  max_lease_records = 3;
}

abbrev database : Database
database = record { database_id = 1; database_name = b'd' ∷ [] }

abbrev entry : LeaseEntry
entry = record { database = database; conns = 1; generation = 1; cancellation = 1 }

-- An engine whose lease has a database.
abbrev leased : WorkerEngine
leased = record (new_engine config) { leases = (lease, entry) ∷ []; next_generation = 1 }

abbrev assigned : WorkerEngine
assigned = perform (timer_set lease 1 0 1) (record (new_engine config) {
  leases = (lease, fresh_entry database 1) ∷ [];
  next_generation = 1;
})

assign_database-stale_example :
    (handle_detach lease 0 assigned ≡ assigned)
    × (handle_max_time accepting lease 0 assigned ≡ some assigned)
unfolding assign_database new_engine insert get
assign_database-stale_example =
    assign_database-stale accepting lease database 0 (b'd' ∷ []) (new_engine config) assigned refl
      (omega arith)

reply_attached-detach_example : Returns (reply_attached accepting lease (b'd' ∷ []) 7 leased) (λ e'.
    (get lease e'.leases ≡ some (record entry { conns = 2 }))
    × (get lease (handle_detach lease 1 e').leases ≡ some entry))
unfolding get LeaseId-discrete ℕ_discrete
reply_attached-detach_example =
    reply_attached-detach accepting lease (b'd' ∷ []) 7 entry leased refl (omega arith) refl

reply_attached-fails_example : Returns (reply_attached refusing lease (b'd' ∷ []) 7 leased) (λ e'.
    (get lease e'.leases ≡ some entry)
    × (((entry.conns ≡ 65535) × (e'.effects ≡ replied 7 failed_to_attach ∷ leased.effects))
        ⊎ ((entry.conns < 65535)
            × (e'.effects ≡ replied 7 (attached (b'd' ∷ []) 1 1) ∷ leased.effects))))
unfolding get LeaseId-discrete ℕ_discrete
reply_attached-fails_example =
    reply_attached-fails refusing lease (b'd' ∷ []) 7 entry leased refl (inr (omega arith, refl))

schedule_expiration-delay_example :
    (schedule_expiration lease 1 (new_engine config)
      ≡ perform (timer_set lease 1 4294967296 1) (new_engine config))
    ↔ (4294967296 < 4294967296)
unfolding new_engine
schedule_expiration-delay_example =
    schedule_expiration-delay lease 1 (new_engine config) (omega arith)

grow-supply_example : Returns (grow accepting (new_engine config)) (λ e'.
    ((growth_required accepting (new_engine config) ≤ supply_len (new_engine config).inventory)
      × (e' ≡ new_engine config))
    ⊎ ((supply_len (new_engine config).inventory < growth_required accepting (new_engine config))
        × ((request : CreateDatabases) × (e'.effects
              ≡ creation_requested request ∷ (new_engine config).effects)
            × (request.first_database_id ≡ (new_engine config).inventory.next_database_id + 1)
            × (((accepting.accepts_creation request ≡ true)
                  × (supply_len e'.inventory
                      ≡ supply_len (new_engine config).inventory + request.amount)
                  × (growth_required accepting (new_engine config) ≤ supply_len e'.inventory)
                  × (supply_len e'.inventory
                      < growth_required accepting (new_engine config)
                        + (new_engine config).config.grow_batch_size))
                ⊎ ((accepting.accepts_creation request ≡ false)
                    × (supply_len e'.inventory ≡ supply_len (new_engine config).inventory))))))
unfolding new_engine
grow-supply_example =
    grow-supply accepting 0 (new_engine config)
      (new_engine-Sound config (omega arith) (omega arith)) (omega arith) (omega arith)

-- The second creation fails first, then the first one succeeds.
abbrev outcomes : List Outcome
outcomes = (1, err (operation_failed (b'x' ∷ []))) ∷ (0, ok (b'd' ∷ [])) ∷ []

outcomes-each_once :
    (index : ℕ)
    → 0 < count index (map index_of outcomes)
    → (count index (map index_of outcomes) ≡ 1) × (index < 2)
unfolding count ℕ_discrete
outcomes-each_once index h = (ground (arith, h), ground (arith, h))

abbrev asking : List (Environment × EngineMessage)
asking = (accepting, attach_or_join_msg lease 7 0) ∷ []

try_init-total_example : Returns (try_init outcomes (new_engine config)) (λ r.
    (r.0 ≡ map_or_ok (first_failure outcomes))
    × (length r.1.inventory.ready ≡ successes outcomes)
    × (r.1.inventory.creating ≡ [])
    × Returns (process_messages asking r.1) (λ e. (e.inventory.ready ≡ []) ⊎ (e.waiters ≡ [])))
try_init-total_example =
    try_init-total config outcomes (omega arith) (omega arith) (omega arith) refl outcomes-each_once
      asking (omega arith)
