-- ===== src/Engine/State.antt =====
-- The engine's data: core.rs (`WorkerEngineConfig`, `LeaseStatus`, `LeaseEntry`, `WorkerEngine`,
-- `EngineCounters`), messages.rs, errors.rs, the traits of traits.rs as an environment, and
-- database_jobs.rs (`DatabaseWorkerMessages`).
use pg_test.Base.Map.{Map}
use pg_test.Base.{ℕ, ◌+◌, ◌%◌, Bool, List, [], ◌∷◌, Result}
use pg_test.Inventory.{
  CleanupDatabase, CreateDatabases, Database, DatabaseId, DatabaseInventory, PostgresDdlClientError,
  empty_inventory, u64_bound,
}
use pg_test.LeaseId.{LeaseId}
use pg_test.ReadString.{ReadString}

pub record WorkerEngineConfig : Type 0 where
  pub initial_slots : ℕ
  pub starvation_threshold : ℕ
  pub grow_batch_size : ℕ
  pub lease_claim_timeout_ms : ℕ
  pub max_lease_records : ℕ

pub data LeaseStatus : Type 0 where
  opened closed : LeaseStatus

-- A token is named by the generation that it was made for; 0 is the engine's root token.
abbrev pub CancellationToken : Type 0
CancellationToken = ℕ

-- The handle of a reply channel, and a point in time.
abbrev pub Consumer : Type 0
Consumer = ℕ

abbrev pub Instant : Type 0
Instant = ℕ

pub record LeaseEntry : Type 0 where
  pub database : Database
  pub conns : ℕ
  pub generation : ℕ
  pub cancellation : CancellationToken

pub data ReleaseError : Type 0 where
  invalid_lease_id lease_record_limit_reached engine_unavailable : ReleaseError
  reply_timed_out unexpected_reply : ReleaseError

pub data AttachError : Type 0 where
  invalid_lease_id lease_record_limit_reached lease_closed template_mismatch : AttachError
  engine_unavailable timed_out failed : AttachError

pub data ConsumerReply : Type 0 where
  attached : ReadString → ℕ → CancellationToken → ConsumerReply
  failed_to_attach : ConsumerReply
  attach_rejected : AttachError → ConsumerReply
  release_result : Result (Unit {0}) ReleaseError → ConsumerReply

pub data DatabaseWorkerMessages : Type 0 where
  creation_finished : DatabaseId → Result ReadString PostgresDdlClientError → DatabaseWorkerMessages
  cleanup_finished : DatabaseId → Result (Unit {0}) PostgresDdlClientError → DatabaseWorkerMessages

-- The `Barrier` message exists in the tests only.
pub data EngineMessage : Type 0 where
  attach_or_join_msg : LeaseId → Consumer → Instant → EngineMessage
  release_lease_msg : LeaseId → Consumer → EngineMessage
  detach : LeaseId → ℕ → EngineMessage
  lease_max_time_reached : LeaseId → ℕ → EngineMessage
  database_worker : DatabaseWorkerMessages → EngineMessage
  shutdown : EngineMessage

-- The traits that the engine is generic over, and the clock, while one message is handled: does the
-- reply channel take the reply, does the creation queue take the request, and how many milliseconds
-- have passed since an instant. That a cleanup request or a timer is refused is only logged, so
-- nothing depends on it. Every message may meet another environment.
pub record Environment : Type 0 where
  pub delivers : Consumer → ConsumerReply → Bool
  pub accepts_creation : CreateDatabases → Bool
  pub elapsed_ms : Instant → ℕ

-- What the engine has asked of its environment.
pub data Effect : Type 0 where
  replied : Consumer → ConsumerReply → Effect
  creation_requested : CreateDatabases → Effect
  cleanup_requested : CleanupDatabase → Effect
  timer_set : LeaseId → ℕ → ℕ → CancellationToken → Effect
  cancelled : CancellationToken → Effect

pub record EngineCounters : Type 0 where
  pub rejected_attach_max_lifetime : ℕ
  pub waiter_timeouts : ℕ
  pub template_create_failures : ℕ
  pub detach_on_zero : ℕ
  pub non_ready_slots : ℕ
  pub unable_to_start_database_slots : ℕ

-- `effects` holds the requests, the latest first.
pub record WorkerEngine : Type 0 where
  pub leases : Map LeaseId LeaseEntry
  pub lease_records : Map LeaseId LeaseStatus
  pub next_generation : ℕ
  pub config : WorkerEngineConfig
  pub waiters : List LeaseId
  pub group_waiters : Map LeaseId (List (Consumer × Instant))
  pub counters : EngineCounters
  pub effects : List Effect
  pub inventory : DatabaseInventory

abbrev pub zero_counters : EngineCounters
zero_counters = record {
  rejected_attach_max_lifetime = 0;
  waiter_timeouts = 0;
  template_create_failures = 0;
  detach_on_zero = 0;
  non_ready_slots = 0;
  unable_to_start_database_slots = 0;
}

unfoldable pub new_engine : WorkerEngineConfig → WorkerEngine
new_engine config = record {
  leases = [];
  lease_records = [];
  next_generation = 0;
  config = config;
  waiters = [];
  group_waiters = [];
  counters = zero_counters;
  effects = [];
  inventory = empty_inventory;
}

-- A `u64` counter goes up by `n`.
abbrev pub add_u64 : ℕ → ℕ → ℕ
add_u64 a n = (a + n) % u64_bound

abbrev pub root_token : CancellationToken
root_token = 0

abbrev pub perform : Effect → WorkerEngine → WorkerEngine
perform effect e = record e { effects = effect ∷ e.effects }

abbrev pub send : Consumer → ConsumerReply → WorkerEngine → WorkerEngine
send consumer reply = perform (replied consumer reply)
