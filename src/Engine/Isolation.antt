-- ===== src/Engine/Isolation.antt =====
-- What soundness means for the test suites that share the engine.
use pg_test.Base.Map.{get, missing, present, tally-get, tally-get_two}
use pg_test.Base.{
  ◌+◌, ◌<◌, ◌≡◌, ◌⊎◌, ℕ, Returns-at, inl, inr, true, none, count, List, [], arith, length, Returns,
  some, same,
}
use pg_test.Engine.Attach.{Sound}
use pg_test.Engine.Handlers.{process_messages}
use pg_test.Engine.Invariant.{history_bound}
use pg_test.Engine.Soundness.{new_engine-Sound, process_messages-Sound}
use pg_test.Engine.State.{
  EngineMessage, Environment, LeaseEntry, WorkerEngine, WorkerEngineConfig, new_engine, opened,
}
use pg_test.Inventory.Holdings.{holdings}
use pg_test.Inventory.{id_key}
use pg_test.LeaseId.{LeaseId, LeaseId-discrete, lease_key}

-- In a sound state two leases never share a database, and a leased database is not in the inventory.
Sound-isolated :
    (t : ℕ) (e : WorkerEngine) (l₁ l₂ : LeaseId) (a b : LeaseEntry)
    → Sound t e
    → get l₁ e.leases ≡ some a
    → get l₂ e.leases ≡ some b
    → a.database.database_id ≡ b.database.database_id
    → (l₁ ≡ l₂) × (holdings a.database.database_id e.inventory ≡ 0)
Sound-isolated t e l₁ l₂ a b s h₁ h₂ shared =
    let id = a.database.database_id in
    let measure = λ (x : LeaseEntry). same x.database.database_id id in
    let once = s.kept.owned.unique id in
    elim (LeaseId-discrete l₁ l₂) [
      | yes same_lease ↦ (same_lease, ground (arith, once, tally-get measure l₁ a e.leases h₁))
      | no other ↦
          absurd (ground (arith, once, tally-get_two measure l₁ l₂ a b e.leases h₁ h₂ other))
    ]

module _ (config : WorkerEngineConfig) (messages : List (Environment × EngineMessage))
    (threshold : config.starvation_threshold < 65536) (batch : config.grow_batch_size < 65536)
    (short : length messages < history_bound) where
  -- From a new engine whose configuration fits its `u16` fields, fewer than 2^31 messages are handled
  -- without a panic, whatever the environment answers. In the state that they leave no lease waits
  -- while a database is ready, a lease is in the queue exactly once if it has waiting consumers and
  -- not at all if not, a waiting lease has no database, and a lease that waits or has a database is
  -- recorded as open.
  pub process_messages-total : Returns (process_messages messages (new_engine config)) (λ e.
      ((e.inventory.ready ≡ []) ⊎ (e.waiters ≡ []))
      × ((l : LeaseId) → count l e.waiters + missing (get l e.group_waiters) ≡ 1)
      × ((l : LeaseId) → present (get l e.group_waiters) ≡ true → get l e.leases ≡ none)
      × ((l : LeaseId)
          → (present (get l e.group_waiters) ≡ true) ⊎ (present (get l e.leases) ≡ true)
          → get l e.lease_records ≡ some opened))
  process_messages-total =
      let (e, done, s) =
        process_messages-Sound messages 0 (new_engine config) (omega arith)
          (new_engine-Sound config threshold batch) in
      let b = s.kept.orderly in
      (
        e,
        done,
        (
          s.fair,
          b.queued,
          b.waiting,
          λ l h. elim h [
            | inl waits ↦ b.waiting_open l waits
            | inr leased ↦ b.leased_open l leased
          ],
        ),
      )

  -- In the state that the messages leave, two leases that hold databases of one identity are the same
  -- lease, and no identity that a lease holds is being created, ready or retiring.
  pub process_messages_isolated :
      (e : WorkerEngine) (l₁ l₂ : LeaseId) (a b : LeaseEntry)
      → process_messages messages (new_engine config) ≡ some e
      → get l₁ e.leases ≡ some a
      → get l₂ e.leases ≡ some b
      → a.database.database_id ≡ b.database.database_id
      → (l₁ ≡ l₂) × (holdings a.database.database_id e.inventory ≡ 0)
  process_messages_isolated e l₁ l₂ a b ran h₁ h₂ shared =
      Sound-isolated (0 + length messages) e l₁ l₂ a b
        (Returns-at (Sound (0 + length messages)) (process_messages messages (new_engine config))
          (process_messages-Sound messages 0 (new_engine config) (omega arith)
            (new_engine-Sound config threshold batch))
          ran)
        h₁ h₂ shared
