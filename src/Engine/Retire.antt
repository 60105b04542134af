-- ===== src/Engine/Retire.antt =====
-- Giving a lease's database up: `retire_lease` cannot panic, and the lease has no database after it.
use pg_test.Base.Map.{Map, copies, copies-remove-le, get, get-remove, remove}
use pg_test.Base.{
  ℕ, ◌+◌, ◌≤◌, ◌<◌, ◌≡◌, refl, ite, inl, inr, Option, none, some, List, arith, length, Option-cases,
  ◌∙◌,
}
use pg_test.Engine.Custody.{Owned-remove, Owned-retire, in_hand_absent}
use pg_test.Engine.Grow.{grow-Grown}
use pg_test.Engine.Growth.{grow, retire_lease}
use pg_test.Engine.Invariant.{Owned, batch_room, empty_hand}
use pg_test.Engine.State.{
  Effect, EngineCounters, Environment, LeaseEntry, WorkerEngine, cancelled, cleanup_requested,
  perform,
}
use pg_test.Inventory.Moves.{cleanup_of, retire_lem, retired}
use pg_test.Inventory.{DatabaseInventory, u64_bound}
use pg_test.LeaseId.{LeaseId, LeaseId-discrete, lease_key}

pub record Retired (n : ℕ) (lease : LeaseId) (e : WorkerEngine) (result : Option WorkerEngine)
    : Type 0 where
  pub leases : Map LeaseId LeaseEntry
  pub inventory : DatabaseInventory
  pub counters : EngineCounters
  pub effects : List Effect
  pub no_panic :
      result
      ≡ some (record e {
        leases = leases;
        inventory = inventory;
        counters = counters;
        effects = effects;
      })
  pub owned : Owned empty_hand leases inventory
  pub gone : (l : LeaseId) → get l leases ≡ ite (LeaseId-discrete lease l) none (get l e.leases)
  pub fewer : (l : LeaseId) → copies l leases ≤ copies l e.leases
  pub same_ready : inventory.ready ≡ e.inventory.ready
  pub next_bound : inventory.next_database_id ≤ e.inventory.next_database_id + n

-- The state that `retire_lease` hands to `grow`.
abbrev handed_over : LeaseId → LeaseEntry → WorkerEngine → WorkerEngine
handed_over lease entry e = perform (cleanup_requested (cleanup_of entry.database)) (
    perform (cancelled entry.cancellation)
      (record e { leases = remove lease e.leases; inventory = retired e.inventory entry.database }))

retire_lease-grow :
    (env : Environment) (lease : LeaseId) (entry : LeaseEntry) (e : WorkerEngine)
    → Owned empty_hand e.leases e.inventory
    → copies lease e.leases ≤ 1
    → get lease e.leases ≡ some entry
    → (Owned empty_hand (remove lease e.leases) (retired e.inventory entry.database))
      × (retire_lease env lease e ≡ grow env (handed_over lease entry e))
unfolding retire_lease
retire_lease-grow env lease entry e o c here =
    let taken = Owned-remove e.leases e.inventory lease entry o c here in
    let free = in_hand_absent (remove lease e.leases) e.inventory entry.database taken in
    (
      Owned-retire (remove lease e.leases) e.inventory entry.database taken,
      ground (arith, retire_lem e.inventory entry.database free),
    )

pub retire_lease-Retired :
    (env : Environment) (lease : LeaseId) (e : WorkerEngine) (t : ℕ)
    → Owned empty_hand e.leases e.inventory
    → copies lease e.leases ≤ 1
    → e.config.starvation_threshold < 65536
    → e.config.grow_batch_size < 65536
    → length e.group_waiters ≤ t
    → e.inventory.next_database_id + (t + batch_room) < u64_bound
    → Retired (t + batch_room) lease e (retire_lease env lease e)
unfolding retire_lease
retire_lease-Retired env lease e t o c threshold batch groups room =
    elim (Option-cases (get lease e.leases)) [
      | inl absent ↦ record {
        leases = e.leases;
        inventory = e.inventory;
        counters = e.counters;
        effects = e.effects;
        no_panic = ground arith;
        owned = o;
        gone = λ l. ground arith;
        fewer = λ l. omega arith;
        same_ready = refl;
        next_bound = omega arith;
      }
      | inr (entry, here) ↦
          let (owned', step) = retire_lease-grow env lease entry e o c here in
          let g = grow-Grown env (handed_over lease entry e) t owned' threshold batch groups room in
          record {
            leases = remove lease e.leases;
            inventory = g.inventory;
            counters = g.counters;
            effects = g.effects;
            no_panic = step ∙ g.no_panic;
            owned = g.owned;
            gone = λ l. get-remove l lease e.leases;
            fewer = λ l. copies-remove-le l lease e.leases;
            same_ready = g.same_ready;
            next_bound = g.next_bound;
          }
    ]
