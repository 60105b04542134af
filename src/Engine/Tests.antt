-- ===== src/Engine/Tests.antt =====
-- The engine on small histories, and the theorems about it at concrete inputs.
use mathlib.Core.Option
use pg_test.Base.Map.{copies, get, insert, missing, present, remove, tally}
use pg_test.Base.Set.{member, set_insert, set_remove}
use pg_test.Base.{
  length, ◌≤◌, ℕ, ◌+◌, ◌≡◌, ◌⊎◌, refl, true, Option, none, some, List, [], ◌∷◌, ok, arith, count,
  ℕ_discrete, Returns,
}
use pg_test.Engine.Dispatch.{
  database_for, dispatch_lease, dispatch_queue, dispatch_waiters, reject_all, serve_group,
  serve_replies, serve_reply,
}
use pg_test.Engine.Growth.{
  any_alive, count_waiting, grow, grow_by, growth_count, growth_required, retire_lease,
  submit_creation, timed_out?,
}
use pg_test.Engine.Handlers.{
  attach_fresh, attach_opened, attach_or_join, close_lease, enqueue, handle_cleanup_finished,
  handle_creation_finished, handle_database_worker_message, handle_detach, handle_max_time,
  handle_message, process_messages, release_lease,
}
use pg_test.Engine.Ledger.{empty_ledger, ledger_run}
use pg_test.Engine.Refinement.{process_messages-Ledger}
use pg_test.Engine.Isolation.{process_messages-total, process_messages_isolated}
use pg_test.Engine.Leases.{admit_lease, assign_database, reply_attached, restore_unclaimed_database}
use pg_test.Engine.Release.{release_lease-permanent}
use pg_test.Engine.State.{
  AttachError, EngineMessage, Environment, LeaseEntry, WorkerEngine, WorkerEngineConfig,
  attach_or_join_msg, attach_rejected, closed, creation_finished, database_worker, new_engine,
  opened, send,
}
use pg_test.Inventory.Holdings.{holdings, ready_count}
use pg_test.Inventory.{
  any_ready, cancel_creation, cancel_creations, complete_cleanup, complete_creation, contains,
  empty_inventory, extend_creating, id_key, nth_database_id, reserve_creations, retire,
  return_ready, supply_len, take_ready,
}
use pg_test.LeaseId.{LeaseId, LeaseId-discrete, lease_key}

abbrev lease : ℕ → LeaseId
lease n = record { value = n ∷ [] }

-- Every reply and request is accepted, and no time passes.
abbrev calm : Environment
calm = record { delivers = λ c r. true; accepts_creation = λ r. true; elapsed_ms = λ t. 0 }

abbrev small : WorkerEngineConfig
small = record {
  initial_slots = 0;
  starvation_threshold = 0;
  grow_batch_size = 2;
  lease_claim_timeout_ms = 30000;
  max_lease_records = 3;
}

abbrev calmly : List EngineMessage → List (Environment × EngineMessage)
calmly [] = []
calmly (m ∷ ms) = (calm, m) ∷ calmly ms

-- Runs the engine; its line opens all that a history computes with.
after : List EngineMessage → WorkerEngine → Option WorkerEngine
unfolding process_messages handle_message handle_database_worker_message handle_creation_finished
    handle_cleanup_finished handle_max_time handle_detach release_lease close_lease attach_or_join
    attach_opened attach_fresh enqueue dispatch_waiters dispatch_queue dispatch_lease serve_group
    serve_replies serve_reply database_for reject_all retire_lease grow grow_by growth_count
    growth_required count_waiting any_alive timed_out? submit_creation admit_lease assign_database
    reply_attached restore_unclaimed_database new_engine empty_inventory extend_creating
    nth_database_id reserve_creations cancel_creation cancel_creations complete_creation take_ready
    any_ready contains return_ready retire complete_cleanup supply_len get insert remove member
    set_insert set_remove LeaseId-discrete ℕ_discrete count tally holdings ready_count copies
after ms e = process_messages (calmly ms) e

abbrev or_new : Option WorkerEngine → WorkerEngine
or_new none = new_engine small
or_new (some e) = e

-- Two leases wait for the first two databases; the first one is then released.
abbrev waiting_history : List EngineMessage
waiting_history =
    attach_or_join_msg (lease 65) 1 0
    ∷ attach_or_join_msg (lease 66) 2 0
    ∷ database_worker (creation_finished 1 (ok (100 ∷ [])))
    ∷ database_worker (creation_finished 2 (ok (101 ∷ [])))
    ∷ []

abbrev served : WorkerEngine
served = or_new (process_messages (calmly waiting_history) (new_engine small))

served_leases :
    (Option.map (λ (x : LeaseEntry). x.database.database_id) (get (lease 65) served.leases)
      ≡ some 1)
    × (Option.map (λ (x : LeaseEntry). x.database.database_id) (get (lease 66) served.leases)
        ≡ some 2)
unfolding after
served_leases = (refl, refl)

process_messages-total_example :
    Returns (process_messages (calmly waiting_history) (new_engine small)) (λ e.
      ((e.inventory.ready ≡ []) ⊎ (e.waiters ≡ []))
      × ((l : LeaseId) → count l e.waiters + missing (get l e.group_waiters) ≡ 1)
      × ((l : LeaseId) → present (get l e.group_waiters) ≡ true → get l e.leases ≡ none)
      × ((l : LeaseId)
          → (present (get l e.group_waiters) ≡ true) ⊎ (present (get l e.leases) ≡ true)
          → get l e.lease_records ≡ some opened))
process_messages-total_example =
    process_messages-total small (calmly waiting_history) (omega arith) (omega arith) (omega arith)

abbrev second_entry : LeaseEntry
second_entry = record {
  database = record { database_id = 2; database_name = 101 ∷ [] };
  conns = 1;
  generation = 2;
  cancellation = 2;
}

process_messages_isolated_example : (lease 66 ≡ lease 66) × (holdings 2 served.inventory ≡ 0)
unfolding after
process_messages_isolated_example =
    process_messages_isolated small (calmly waiting_history) (omega arith) (omega arith)
      (omega arith) served (lease 66) (lease 66) second_entry second_entry refl refl refl refl

-- A lease that is released before anybody asked for it, and that somebody asks for then.
abbrev released : WorkerEngine
released = record (new_engine small) { lease_records = (lease 65, closed) ∷ [] }

abbrev much_later : WorkerEngine
much_later = send 3 (attach_rejected AttachError.lease_closed) released

release_lease-permanent_example :
    (attach_or_join calm (lease 65) 5 0 much_later
      ≡ some (send 5 (attach_rejected AttachError.lease_closed) much_later))
    × (release_lease calm (lease 65) much_later ≡ some (ok tt, much_later))
unfolding after
release_lease-permanent_example =
    release_lease-permanent calm calm (lease 65) 5 0
      (calmly (attach_or_join_msg (lease 65) 3 0 ∷ [])) (new_engine small) released much_later refl
      refl

process_messages-Ledger_example :
    ((l : LeaseId)
      → get l served.lease_records
        ≡ (ledger_run small.max_lease_records (calmly waiting_history) empty_ledger).status l)
    × (length served.lease_records
        ≡ (ledger_run small.max_lease_records (calmly waiting_history) empty_ledger).size)
    × (length served.lease_records ≤ small.max_lease_records)
unfolding after
process_messages-Ledger_example = process_messages-Ledger small (calmly waiting_history) served refl
