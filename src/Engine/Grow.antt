-- ===== src/Engine/Grow.antt =====
-- Growing the supply: `grow` cannot panic, and touches the inventory, the counters and the effects only.
use pg_test.Base.Map.{Map}
use pg_test.Base.{
  ℕ, ◌+◌, ◌-◌, ◌≤◌, ◌<◌, ◌≡◌, refl, Option, some, List, [], ◌∷◌, arith, ◌==◌, length, count,
  Bool-cases, inl, inr,
}
use pg_test.Engine.Growth.{
  count_waiting, grow, grow_by, growth_count, growth_required, submit_creation,
}
use pg_test.Engine.Invariant.{Owned, batch_room}
use pg_test.Engine.State.{
  Consumer, Effect, EngineCounters, Environment, Instant, LeaseEntry, WorkerEngine,
  WorkerEngineConfig, add_u64, creation_requested,
}
use pg_test.Inventory.Holdings.{cancel_creations_lem, within, holdings, reserve_creations_lem}
use pg_test.Inventory.{
  cancel_creations, creations, DatabaseId, DatabaseInventory, id_key, supply_len, u64_bound,
}
use pg_test.LeaseId.{LeaseId}

-- What a growth leaves behind.
pub record Grown (hand : DatabaseId → ℕ) (n : ℕ) (e : WorkerEngine) (result : Option WorkerEngine)
    : Type 0 where
  pub inventory : DatabaseInventory
  pub counters : EngineCounters
  pub effects : List Effect
  pub no_panic :
      result ≡ some (record e { inventory = inventory; counters = counters; effects = effects })
  pub owned : Owned hand e.leases inventory
  pub same_ready : inventory.ready ≡ e.inventory.ready
  pub next_bound : inventory.next_database_id ≤ e.inventory.next_database_id + n

module _ {hand : DatabaseId → ℕ} (e : WorkerEngine) (o : Owned hand e.leases e.inventory) where
  Grown-none : (n : ℕ) → Grown hand n e (some e)
  Grown-none n = record {
    inventory = e.inventory;
    counters = e.counters;
    effects = e.effects;
    no_panic = refl;
    owned = o;
    same_ready = refl;
    next_bound = omega arith;
  }

  module _ (n : ℕ) (c : List DatabaseId) where
    abbrev pub reservation : DatabaseInventory
    reservation = record e.inventory {
      creating = c;
      next_database_id = e.inventory.next_database_id + n;
    }

    reservation-Owned :
        ((i : DatabaseId)
          → count i c
            ≡ count i e.inventory.creating + within (e.inventory.next_database_id + 1) n i)
        → Owned hand e.leases reservation
    unfolding holdings
    reservation-Owned counts = record {
      unique = λ i. ground (arith, o.unique i, o.fresh i, counts i);
      fresh = λ i h. ground (arith, o.fresh i, counts i);
    }

  module _ (n : ℕ) (b : e.inventory.next_database_id + n < u64_bound) (c : List DatabaseId) where
    pub given_up :
        ((i : DatabaseId)
          → count i c
            ≡ count i e.inventory.creating + within (e.inventory.next_database_id + 1) n i)
        → (c' : List DatabaseId) × (cancel_creations
              (creations (e.inventory.next_database_id + 1) n)
              0
              n
              (reservation n c)
            ≡ some (record (reservation n c) { creating = c' }))
          × Owned hand e.leases (record (reservation n c) { creating = c' })
          × (length c' + n ≡ length c)
    unfolding holdings
    given_up counts =
        let (c', done, counts', size) =
          cancel_creations_lem (creations (e.inventory.next_database_id + 1) n) n 0
            (reservation n c) (omega arith) (omega arith)
            (λ i w. ground (arith, o.fresh i, counts i)) in
        (
          c',
          done,
          record {
            unique = λ i. ground (arith, o.unique i, o.fresh i, counts i, counts' i);
            fresh = λ i h. ground (arith, o.fresh i, counts i, counts' i);
          },
          size,
        )

  pub Grown-weaken :
      {n m : ℕ} {result : Option WorkerEngine}
      → Grown hand n e result
      → n ≤ m
      → Grown hand m e result
  Grown-weaken g h = record {
    inventory = g.inventory;
    counters = g.counters;
    effects = g.effects;
    no_panic = g.no_panic;
    owned = g.owned;
    same_ready = g.same_ready;
    next_bound = omega (arith, g.next_bound);
  }

  pub grow_by-Grown :
      (env : Environment) (n : ℕ)
      → 0 < n
      → e.inventory.next_database_id + n < u64_bound
      → Grown hand n e (grow_by env n e)
  unfolding grow_by submit_creation holdings
  grow_by-Grown env n h b =
      let (c, reserved, counts, size) =
        reserve_creations_lem e.inventory n h b (λ i g. ground (arith, o.fresh i g)) in
      let (c', cancelled, owned', size') = given_up n b c counts in
      let request = creations (e.inventory.next_database_id + 1) n in
      elim (Bool-cases (env.accepts_creation request)) [
        | inl yes_it_does ↦ record {
          inventory = reservation n c;
          counters = e.counters;
          effects = creation_requested request ∷ e.effects;
          no_panic = rw (reserved, yes_it_does);
          owned = reservation-Owned n c counts;
          same_ready = refl;
          next_bound = omega arith;
        }
        | inr refused ↦ record {
          inventory = record (reservation n c) { creating = c' };
          counters = record e.counters {
            unable_to_start_database_slots = add_u64 e.counters.unable_to_start_database_slots n;
          };
          effects = creation_requested request ∷ e.effects;
          no_panic = rw (reserved, refused, cancelled);
          owned = owned';
          same_ready = refl;
          next_bound = omega arith;
        }
      ]

pub count_waiting-le :
    (env : Environment) (config : WorkerEngineConfig) (leases : Map LeaseId LeaseEntry)
    (groups : Map LeaseId (List (Consumer × Instant)))
    → count_waiting env config leases groups ≤ length groups
unfolding count_waiting
count_waiting-le env config leases [] = omega arith
count_waiting-le env config leases ((l, replies) ∷ groups) =
    ground (arith, count_waiting-le env config leases groups)

-- The count is the smallest multiple of the batch size that covers the deficit.
pub growth_count_bounds :
    (deficit batch_size : ℕ)
    → 0 < batch_size
    → (deficit ≤ growth_count deficit batch_size)
      × (growth_count deficit batch_size < deficit + batch_size)
unfolding growth_count
growth_count_bounds d b h = grind arith

pub grow-Grown :
    {hand : DatabaseId → ℕ} (env : Environment) (e : WorkerEngine) (t : ℕ)
    → Owned hand e.leases e.inventory
    → e.config.starvation_threshold < 65536
    → e.config.grow_batch_size < 65536
    → length e.group_waiters ≤ t
    → e.inventory.next_database_id + (t + batch_room) < u64_bound
    → Grown hand (t + batch_room) e (grow env e)
unfolding grow growth_required
grow-Grown {hand} env e t o threshold batch groups room =
    let batch_size = e.config.grow_batch_size in
    let deficit = growth_required env e - supply_len e.inventory in
    let amount = growth_count deficit batch_size in
    let few = count_waiting-le env e.config e.leases e.group_waiters in
    elim (Bool-cases (batch_size == 0)) [
      | inl zero_batch ↦ rw zero_batch (Grown-none e o (t + batch_room))
      | inr batches ↦ elim (Bool-cases (deficit == 0)) [
        | inl covered ↦ rw (batches, covered) (Grown-none e o (t + batch_room))
        | inr short ↦
            let (enough, less) = growth_count_bounds deficit batch_size (ground arith) in
            rw (batches, short)
              (Grown-weaken e o (grow_by-Grown e o env amount (ground arith) (omega arith))
                (omega arith))
      ]
    ]
