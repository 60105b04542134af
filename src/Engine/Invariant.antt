-- ===== src/Engine/Invariant.antt =====
-- The invariants of the engine, over the parts of its state that they speak of.
use pg_test.Base.Map.{Map, copies, get, missing, present, tally}
use pg_test.Base.{
  ℕ, ◌+◌, ◌*◌, ◌≤◌, ◌<◌, ◌≡◌, ◌⊎◌, true, none, some, List, [], length, same, count, arith,
}
use pg_test.Engine.State.{
  Consumer, Instant, LeaseEntry, LeaseStatus, WorkerEngine, WorkerEngineConfig, opened,
}
use pg_test.Inventory.Holdings.{holdings}
use pg_test.Inventory.{DatabaseId, DatabaseInventory, id_key, u64_bound}
use pg_test.LeaseId.{LeaseId, lease_key}

-- How many leases have the database.
abbrev pub lease_count : DatabaseId → Map LeaseId LeaseEntry → ℕ
lease_count i = tally (λ entry. same entry.database.database_id i)

-- Every database identity is in one place at most: with a lease, being created, ready, retiring, or in
-- the hand of the handler that moves it. The identities not yet given out are in none.
pub record Owned (hand : DatabaseId → ℕ) (leases : Map LeaseId LeaseEntry)
    (inventory : DatabaseInventory) : Type 0 where
  pub unique : (i : DatabaseId) → hand i + lease_count i leases + holdings i inventory ≤ 1
  pub fresh :
      (i : DatabaseId)
      → inventory.next_database_id < i
      → hand i + lease_count i leases + holdings i inventory ≡ 0

abbrev pub empty_hand : DatabaseId → ℕ
empty_hand i = 0

-- The leases, their records, the queue and the groups fit together.
pub record Orderly (leases : Map LeaseId LeaseEntry) (records : Map LeaseId LeaseStatus)
    (next_generation : ℕ) (waiters : List LeaseId)
    (groups : Map LeaseId (List (Consumer × Instant))) : Type 0 where
  pub single : (l : LeaseId) → copies l leases ≤ 1
  pub queued : (l : LeaseId) → count l waiters + missing (get l groups) ≡ 1
  pub waiting : (l : LeaseId) → present (get l groups) ≡ true → get l leases ≡ none
  pub waiting_open : (l : LeaseId) → present (get l groups) ≡ true → get l records ≡ some opened
  pub leased_open : (l : LeaseId) → present (get l leases) ≡ true → get l records ≡ some opened
  pub generations :
      (l : LeaseId) (entry : LeaseEntry)
      → get l leases ≡ some entry
      → entry.generation ≤ next_generation

-- Nobody waits while a database is ready.
abbrev pub Fair : DatabaseInventory → List LeaseId → Type 0
Fair inventory waiters = (inventory.ready ≡ []) ⊎ (waiters ≡ [])

abbrev pub batch_room : ℕ
batch_room = 131072

-- After `t` messages that could add a waiter: the bounds on what the engine has numbered, the
-- databases up to `k`. The configuration's fields are `u16`.
pub record Roomy (t k : ℕ) (config : WorkerEngineConfig) (next_generation next_database_id : ℕ)
    (waiters : List LeaseId) (groups : Map LeaseId (List (Consumer × Instant))) : Type 0 where
  pub threshold : config.starvation_threshold < 65536
  pub batch : config.grow_batch_size < 65536
  pub generated : next_generation + length waiters ≤ t
  pub grouped : length groups ≤ t
  pub reserved : next_database_id ≤ k

abbrev pub history_bound : ℕ
history_bound = 2147483648

-- What holds all the time, also while the waiters are served.
pub record IsKept (t k : ℕ) (e : WorkerEngine) : Type 0 where
  pub owned : Owned empty_hand e.leases e.inventory
  pub orderly : Orderly e.leases e.lease_records e.next_generation e.waiters e.group_waiters
  pub roomy :
      Roomy t k e.config e.next_generation e.inventory.next_database_id e.waiters e.group_waiters

-- The state between two messages.
pub record IsSound (t k : ℕ) (e : WorkerEngine) : Type 0 where
  pub kept : IsKept t k e
  pub fair : Fair e.inventory e.waiters

-- How many databases `t` messages can have asked for.
abbrev pub id_limit : ℕ → ℕ
id_limit t = (t + 1) * (t + batch_room)

pub id_limit_step : (t : ℕ) → id_limit t + (t + 1 + batch_room) ≤ id_limit (t + 1)
id_limit_step t = grind arith

pub id_limit_bound : (t : ℕ) → t < history_bound → id_limit t + (t + 1 + batch_room) < u64_bound
id_limit_bound t h = grind arith
