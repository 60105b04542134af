-- ===== src/Engine/Started.antt =====
-- Starting the engine: every outcome of the first creations is settled, and the loop can run.
use pg_test.Base.{
  ℕ, zero, suc, ◌+◌, ◌<◌, ◌≡◌, refl, none, some, List, [], arith, length, count, Returns, ok, map,
  inl, inr, ap, ◌⊎◌, Bool-cases, List-cases, ◌==◌,
}
use pg_test.Base.Map.{copies, tally}
use pg_test.Engine.Attach.{Sound}
use pg_test.Engine.Handlers.{process_messages}
use pg_test.Engine.Invariant.{Owned, empty_hand, history_bound}
use pg_test.Engine.Settle.{first_failure, index_of, settle_all-lem, successes}
use pg_test.Engine.Startup.{Outcome, map_or_ok, try_init}
use pg_test.Engine.Soundness.{new_engine-Sound, process_messages-Sound}
use pg_test.Engine.State.{EngineMessage, Environment, WorkerEngineConfig, new_engine}
use pg_test.Inventory.Holdings.{holdings, ready_count, within, reserve_creations_lem}
use pg_test.Inventory.{
  DatabaseId, DatabaseInventory, creations, empty_inventory, id_key, reserve_creations,
}

-- The engine before its first message, with what was created for it.
stocked-Sound :
    (config : WorkerEngineConfig) (inventory : DatabaseInventory)
    → config.starvation_threshold < 65536
    → config.grow_batch_size < 65536
    → Owned empty_hand [] inventory
    → inventory.next_database_id < 65536
    → Sound 0 (record (new_engine config) { inventory = inventory })
unfolding new_engine
stocked-Sound config inventory threshold batch o few =
    let s = new_engine-Sound config threshold batch in
    record {
      kept = record {
        owned = o;
        orderly = s.kept.orderly;
        roomy = record {
          threshold = threshold;
          batch = batch;
          generated = omega arith;
          grouped = omega arith;
          reserved = omega (arith, few);
        };
      };
      fair = inr refl;
    }

-- The first reservation, of `n` databases from 1 on.
abbrev first_reservation : ℕ → List DatabaseId → DatabaseInventory
first_reservation n c = record empty_inventory { creating = c; next_database_id = 0 + n }

first_reservation-Owned :
    (n : ℕ) (c : List DatabaseId)
    → ((i : DatabaseId) → count i c ≡ 0 + within 1 n i)
    → Owned empty_hand [] (first_reservation n c)
unfolding holdings tally ready_count copies empty_inventory
first_reservation-Owned n c counts = record {
  unique = λ i. ground (arith, counts i);
  fresh = λ i h. ground (arith, counts i);
}

first_reservation-lem :
    (n : ℕ)
    → 0 < n
    → n < 65536
    → (c : List DatabaseId) × (reserve_creations empty_inventory n
        ≡ some (some (creations 1 n), first_reservation n c))
      × ((i : DatabaseId) → count i c ≡ 0 + within 1 n i)
      × (length c ≡ n)
unfolding empty_inventory count
first_reservation-lem n h b =
    let (c, reserved, counts, size) =
      reserve_creations_lem empty_inventory n h (omega arith) (λ i g. refl) in
    (c, reserved, counts, omega (arith, size))

reserve_creations-nothing :
    (n : ℕ) → n ≡ 0 → reserve_creations empty_inventory n ≡ some (none, empty_inventory)
unfolding reserve_creations
reserve_creations-nothing zero h = refl
reserve_creations-nothing (suc n) h = absurd (omega (arith, h))

module _ (config : WorkerEngineConfig) (outcomes : List Outcome)
    (threshold : config.starvation_threshold < 65536) (batch : config.grow_batch_size < 65536)
    (slots : config.initial_slots < 65536) (complete : length outcomes ≡ config.initial_slots)
    (each_once : (index : ℕ)
      → 0 < count index (map index_of outcomes)
      → (count index (map index_of outcomes) ≡ 1) × (index < config.initial_slots)) where
  started-Sound : Returns (try_init outcomes (new_engine config)) (λ r.
      (r.0 ≡ map_or_ok (first_failure outcomes))
      × (length r.1.inventory.ready ≡ successes outcomes)
      × (r.1.inventory.creating ≡ [])
      × Sound 0 r.1)
  unfolding try_init new_engine empty_inventory first_failure successes
  started-Sound = elim (Bool-cases (config.initial_slots == 0)) [
    | inl none_wanted ↦ elim (List-cases outcomes) [
      | inl nothing ↦ (
        (ok tt, record (new_engine config) { inventory = empty_inventory }),
        rw (reserve_creations-nothing config.initial_slots (ground arith)) refl,
        (rw nothing refl, rw nothing refl, refl, new_engine-Sound config threshold batch),
      )
      | inr (outcome, others, nonempty) ↦ absurd (ground (arith, complete, nonempty))
    ]
    | inr wanted ↦
        let slots_wanted = config.initial_slots in
        let (c, reserved, counts, size) = first_reservation-lem slots_wanted (ground arith) slots in
        let o = first_reservation-Owned slots_wanted c (λ i. counts i) in
        let (r, done, (error, owned, next, ready, left)) =
          settle_all-lem (creations 1 slots_wanted) (omega arith) outcomes none
            (first_reservation slots_wanted c)
            (λ index h. (
              (each_once index h).0,
              (each_once index h).1,
              ground (arith, each_once index h, counts (1 + index)),
            ))
            o in
        (
          (map_or_ok r.0, record (new_engine config) { inventory = r.1 }),
          rw reserved (rw done refl),
          (
            ap map_or_ok error,
            omega (arith, ready),
            ground (arith, left, size, complete),
            stocked-Sound config r.1 threshold batch owned (omega (arith, next)),
          ),
        )
  ]

  -- The first creations are started for `initial_slots` databases, and the database client answers
  -- once for each of them, in any order. Then starting does not panic and reports the first error, if
  -- there is one. One database is ready for each success and none is being created any more; and the
  -- fewer than 2^31 messages that follow are handled without a panic, and leave no lease waiting
  -- while a database is ready.
  pub try_init-total :
      (messages : List (Environment × EngineMessage))
      → length messages < history_bound
      → Returns (try_init outcomes (new_engine config)) (λ r.
        (r.0 ≡ map_or_ok (first_failure outcomes))
        × (length r.1.inventory.ready ≡ successes outcomes)
        × (r.1.inventory.creating ≡ [])
        × Returns
            (process_messages messages r.1)
            (λ e. (e.inventory.ready ≡ []) ⊎ (e.waiters ≡ [])))
  try_init-total messages short =
      let (r, done, (result, ready, settled, sound)) = started-Sound in
      let (e, ran, s) = process_messages-Sound messages 0 r.1 (omega arith) sound in
      (r, done, (result, ready, settled, (e, ran, s.fair)))
