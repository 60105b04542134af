-- ===== src/Engine/Growth.antt =====
-- core.rs: keeping enough databases in supply, and giving up a lease's database. `none` is a panic.
use pg_test.Base.Map.{Map, get, remove, present}
use pg_test.Base.{
  ℕ, ◌+◌, ◌-◌, ◌*◌, ◌/◌, Bool, false, not, ◌&&◌, ◌||◌, Option, none, some, ◌>>=◌, List, [], ◌∷◌,
  ltb, leb, ◌==◌, if◌then◌else◌,
}
use pg_test.Engine.State.{
  Consumer, Environment, Instant, LeaseEntry, WorkerEngine, WorkerEngineConfig, add_u64, cancelled,
  cleanup_requested, creation_requested, perform,
}
use pg_test.Inventory.{CreateDatabases, cancel_creations, reserve_creations, retire, supply_len}
use pg_test.LeaseId.{LeaseId, lease_key}

-- A consumer that has waited for the whole timeout is not served any more.
unfoldable pub timed_out? : Environment → WorkerEngineConfig → Instant → Bool
timed_out? env config queued_at =
    ltb 0 config.lease_claim_timeout_ms
    && ltb config.lease_claim_timeout_ms (env.elapsed_ms queued_at)

unfoldable pub any_alive : Environment → WorkerEngineConfig → List (Consumer × Instant) → Bool
any_alive env config [] = false
any_alive env config ((reply, queued_at) ∷ replies) =
    (config.lease_claim_timeout_ms == 0
      || leb (env.elapsed_ms queued_at) config.lease_claim_timeout_ms)
    || any_alive env config replies

-- How many leases wait for a database with somebody still there to take it.
unfoldable pub count_waiting :
    Environment
    → WorkerEngineConfig
    → Map LeaseId LeaseEntry
    → Map LeaseId (List (Consumer × Instant))
    → ℕ
count_waiting env config leases [] = 0
count_waiting env config leases ((lease, replies) ∷ groups) =
    (if not (present (get lease leases)) && any_alive env config replies then 1 else 0)
    + count_waiting env config leases groups

unfoldable pub growth_required : Environment → WorkerEngine → ℕ
growth_required env e =
    count_waiting env e.config e.leases e.group_waiters + e.config.starvation_threshold + 1

unfoldable pub growth_count : ℕ → ℕ → ℕ
growth_count deficit batch_size = (deficit + batch_size - 1) / batch_size * batch_size

unfoldable pub submit_creation :
    Environment → CreateDatabases → ℕ → WorkerEngine → Option WorkerEngine
submit_creation env request amount e =
    if env.accepts_creation request then some (perform (creation_requested request) e) else (do
      inventory ← cancel_creations request 0 request.amount e.inventory
      some (
          perform (creation_requested request) (record e {
            inventory = inventory;
            counters = record e.counters {
              unable_to_start_database_slots =
                  add_u64 e.counters.unable_to_start_database_slots amount;
            };
          })))

unfoldable pub grow_by : Environment → ℕ → WorkerEngine → Option WorkerEngine
grow_by env amount e = do
  (reserved, inventory) ← reserve_creations e.inventory amount
  request ← reserved
  submit_creation env request amount (record e { inventory = inventory })

unfoldable pub grow : Environment → WorkerEngine → Option WorkerEngine
grow env e =
    if e.config.grow_batch_size == 0
    then some e
    else (let deficit = growth_required env e - supply_len e.inventory in
        if deficit == 0
        then some e
        else grow_by env (growth_count deficit e.config.grow_batch_size) e)

unfoldable pub retire_lease : Environment → LeaseId → WorkerEngine → Option WorkerEngine
retire_lease env lease e = elim (get lease e.leases) [
  | none ↦ some e
  | some entry ↦ do
    (request, inventory) ← retire e.inventory entry.database
    grow env (
        perform (cleanup_requested request) (
          perform (cancelled entry.cancellation)
            (record e { leases = remove lease e.leases; inventory = inventory })))
]
