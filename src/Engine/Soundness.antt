-- ===== src/Engine/Soundness.antt =====
-- The engine as a whole: every message keeps the state sound and none makes the engine panic.
use pg_test.Base.Map.{copies, get, tally}
use pg_test.Base.{
  ℕ, suc, ◌+◌, ◌-◌, ◌≤◌, ◌<◌, ◌≡◌, refl, inl, inr, List, [], ◌∷◌, arith, length, Returns,
  Returns-bind, Bool-cases, Result, ok, err, Option-cases, ◌==◌, count,
}
use pg_test.Engine.Attach.{Sound, Sound-later, Sound-mono, Sound-trace, dispatch-grow-Sound}
use pg_test.Engine.Close.{handle_max_time-Sound, release_lease-Sound}
use pg_test.Engine.Custody.{Owned-fewer, Owned-update}
use pg_test.Engine.Fresh.{attach_or_join-Sound}
use pg_test.Engine.Handlers.{
  count_failure, handle_cleanup_finished, handle_creation_finished, handle_database_worker_message,
  handle_detach, handle_message, is_shutdown, process_messages, release_lease,
}
use pg_test.Engine.Invariant.{IsKept, empty_hand, history_bound, id_limit, id_limit_step}
use pg_test.Engine.Order.{Orderly-insert}
use pg_test.Engine.State.{
  EngineCounters, EngineMessage, Environment, WorkerEngine, WorkerEngineConfig, attach_or_join_msg,
  cleanup_finished, creation_finished, database_worker, detach, lease_max_time_reached, new_engine,
  release_lease_msg, shutdown,
}
use pg_test.Engine.Steps.{leased_facts}
use pg_test.Inventory.Completion.{
  complete_cleanup-next, complete_cleanup-ready, complete_creation-holdings-le,
  complete_creation-next, complete_creation_unknown,
}
use pg_test.Inventory.Holdings.{holdings, ready_count}
use pg_test.Inventory.Moves.{complete_cleanup-holdings}
use pg_test.Inventory.{
  DatabaseId, DatabaseInventory, PostgresDdlClientError, complete_cleanup, complete_creation,
  empty_inventory,
}
use pg_test.LeaseId.{LeaseId, lease_key}
use pg_test.ReadString.{ReadString}

-- An inventory that lost databases, or moved them, in a sound engine.
with_inventory :
    (t : ℕ) (e : WorkerEngine) (inventory : DatabaseInventory)
    → Sound t e
    → inventory.next_database_id ≡ e.inventory.next_database_id
    → ((i : DatabaseId) → holdings i inventory ≤ holdings i e.inventory)
    → IsKept (t + 1) (id_limit t) (record e { inventory = inventory })
with_inventory t e inventory s same fewer = record {
  owned = Owned-fewer e.leases e.inventory empty_hand inventory s.kept.owned same fewer;
  orderly = s.kept.orderly;
  roomy = record {
    threshold = s.kept.roomy.threshold;
    batch = s.kept.roomy.batch;
    generated = omega (arith, s.kept.roomy.generated);
    grouped = omega (arith, s.kept.roomy.grouped);
    reserved = omega (arith, same, s.kept.roomy.reserved);
  };
}

count_failure-counters :
    (outcome : Result (Unit {0}) PostgresDdlClientError) (e : WorkerEngine)
    → (counters : EngineCounters) × (count_failure outcome e ≡ record e { counters = counters })
count_failure-counters (ok u) e = (e.counters, refl)
count_failure-counters (err x) e = (_, refl)

handle_creation_finished-Sound :
    (env : Environment) (id : DatabaseId) (result : Result ReadString PostgresDdlClientError)
    (t : ℕ) (e : WorkerEngine)
    → t + 1 < history_bound
    → Sound t e
    → Returns (handle_creation_finished env id result e) (Sound (t + 1))
unfolding handle_creation_finished
handle_creation_finished-Sound env id result t e small s =
    let inventory = (complete_creation e.inventory id result).1 in
    let once = s.kept.owned.unique id in
    let k =
      with_inventory t e inventory s (complete_creation-next e.inventory id result)
        (λ i. complete_creation-holdings-le e.inventory id result i (omega (arith, once))) in
    elim (Option-cases (complete_creation e.inventory id result).0) [
      | inl unknown ↦ (
        e,
        ground (arith, unknown, complete_creation_unknown e.inventory id result unknown),
        Sound-later t e s,
      )
      | inr (outcome, known) ↦
          let (counters, counted) =
            count_failure-counters outcome (record e { inventory = inventory }) in
          let (e', done, sound) =
            dispatch-grow-Sound env t (record e { inventory = inventory; counters = counters })
              small (record { owned = k.owned; orderly = k.orderly; roomy = k.roomy }) in
          (e', ground (arith, known, counted, done), sound)
    ]

handle_cleanup_finished-Sound :
    (id : DatabaseId) (result : Result (Unit {0}) PostgresDdlClientError) (t : ℕ) (e : WorkerEngine)
    → Sound t e
    → Sound (t + 1) (handle_cleanup_finished id result e)
unfolding handle_cleanup_finished
handle_cleanup_finished-Sound id result t e s =
    let k =
      with_inventory t e (complete_cleanup e.inventory id result).1 s
        (complete_cleanup-next e.inventory id result)
        (complete_cleanup-holdings e.inventory id result) in
    record {
      kept = record {
        owned = k.owned;
        orderly = k.orderly;
        roomy = record {
          threshold = k.roomy.threshold;
          batch = k.roomy.batch;
          generated = k.roomy.generated;
          grouped = k.roomy.grouped;
          reserved = omega (arith, k.roomy.reserved, id_limit_step t);
        };
      };
      fair = ground (arith, s.fair, complete_cleanup-ready e.inventory id result);
    }

handle_detach-Sound :
    (lease : LeaseId) (generation t : ℕ) (e : WorkerEngine)
    → Sound t e
    → Sound t (handle_detach lease generation e)
unfolding handle_detach
handle_detach-Sound lease generation t e s = elim (Option-cases (get lease e.leases)) [
  | inl absent ↦ rw (absent, handle_detach) s
  | inr (entry, here) ↦ elim (Bool-cases (entry.generation == generation)) [
    | inr stale ↦ rw (here, handle_detach, stale) s
    | inl current ↦ elim (Bool-cases (entry.conns == 0)) [
      | inl none_left ↦ rw (here, handle_detach, current, none_left) (Sound-trace t e _ _ s)
      | inr some_left ↦
          let entry' = record entry { conns = entry.conns - 1 } in
          let facts = leased_facts empty_hand lease entry e s.kept.owned s.kept.orderly here in
          rw (here, handle_detach, current, some_left)
            (record {
              kept = record {
                owned =
                    Owned-update e.leases e.inventory empty_hand lease entry entry' s.kept.owned
                      here refl;
                orderly =
                    Orderly-insert e.leases e.lease_records e.next_generation e.waiters
                      e.group_waiters s.kept.orderly lease entry' e.next_generation facts.0 facts.1
                      facts.2 (omega arith);
                roomy = s.kept.roomy;
              };
              fair = s.fair;
            })
    ]
  ]
]

-- Every message leaves a sound state sound, and none makes the engine panic: no `expect` fails, no
-- debug assertion is violated and no identity or generation overflows, as long as fewer than 2^31
-- messages have come.
pub handle_message-Sound :
    (env : Environment) (message : EngineMessage) (t : ℕ) (e : WorkerEngine)
    → t + 1 < history_bound
    → Sound t e
    → Returns (handle_message env message e) (Sound (t + 1))
unfolding handle_message handle_database_worker_message
handle_message-Sound env (attach_or_join_msg lease reply queued_at) t e small s =
    attach_or_join-Sound env lease reply queued_at t e small s
handle_message-Sound env (release_lease_msg lease reply) t e small s =
    Returns-bind (Sound (t + 1)) (release_lease env lease e) _
      (release_lease-Sound env lease t e small s)
      λ r sound. (_, refl, Sound-trace (t + 1) r.1 _ _ sound)
handle_message-Sound env (detach lease generation) t e small s =
    (_, refl, Sound-later t _ (handle_detach-Sound lease generation t e s))
handle_message-Sound env (lease_max_time_reached lease generation) t e small s =
    handle_max_time-Sound env lease generation t e small s
handle_message-Sound env (database_worker (creation_finished id result)) t e small s =
    handle_creation_finished-Sound env id result t e small s
handle_message-Sound env (database_worker (cleanup_finished id result)) t e small s =
    (_, refl, handle_cleanup_finished-Sound id result t e s)
handle_message-Sound env shutdown t e small s =
    (_, refl, Sound-trace (t + 1) e _ _ (Sound-later t e s))

pub process_messages-Sound :
    (messages : List (Environment × EngineMessage)) (t : ℕ) (e : WorkerEngine)
    → t + length messages < history_bound
    → Sound t e
    → Returns (process_messages messages e) (Sound (t + length messages))
unfolding process_messages
process_messages-Sound [] t e small s = (e, refl, Sound-mono t (t + 0) e (omega arith) s)
process_messages-Sound ((env, message) ∷ messages) t e small s =
    Returns-bind (Sound (t + suc (length messages))) (handle_message env message e) _
      (handle_message-Sound env message t e (omega arith) s)
      λ e' s'.
        let (e'', done, s'') = process_messages-Sound messages (t + 1) e' (omega arith) s' in
        elim (Bool-cases (is_shutdown message)) [
          | inl stops ↦
              rw stops
                (e', refl, Sound-mono (t + 1) (t + suc (length messages)) e' (omega arith) s')
          | inr goes_on ↦ rw goes_on (
            e'',
            done,
            Sound-mono (t + 1 + length messages) (t + suc (length messages)) e'' (omega arith) s'',
          )
        ]

-- A new engine is sound.
pub new_engine-Sound :
    (config : WorkerEngineConfig)
    → config.starvation_threshold < 65536
    → config.grow_batch_size < 65536
    → Sound 0 (new_engine config)
unfolding new_engine empty_inventory holdings ready_count tally copies get count
new_engine-Sound config threshold batch = record {
  kept = record {
    owned = record { unique = λ i. omega arith; fresh = λ i h. omega arith };
    orderly = record {
      single = λ l. omega arith;
      queued = λ l. omega arith;
      waiting = λ l h. refl;
      waiting_open = λ l h. cc;
      leased_open = λ l h. cc;
      generations = λ l entry h. cc;
    };
    roomy = record {
      threshold = threshold;
      batch = batch;
      generated = omega arith;
      grouped = omega arith;
      reserved = omega arith;
    };
  };
  fair = inr refl;
}
