-- ===== src/Engine/Dispatch.antt =====
-- core.rs: `dispatch_waiters`, the loop that serves waiting leases while databases are ready.
use pg_test.Base.Map.{get, remove, present}
use pg_test.Base.{Bool, true, false, Option, none, some, ◌>>=◌, List, [], ◌∷◌, if◌then◌else◌}
use pg_test.Engine.Growth.{timed_out?}
use pg_test.Engine.Leases.{assign_database, reply_attached, restore_unclaimed_database}
use pg_test.Engine.State.{
  AttachError, Consumer, Environment, Instant, LeaseStatus, WorkerEngine, add_u64, attach_rejected,
  closed, opened, send,
}
use pg_test.Inventory.{take_ready}
use pg_test.LeaseId.{LeaseId, lease_key}
use pg_test.ReadString.{ReadString}

unfoldable pub reject_all : List (Consumer × Instant) → WorkerEngine → WorkerEngine
reject_all [] e = e
reject_all ((reply, queued_at) ∷ replies) e =
    reject_all replies (send reply (attach_rejected AttachError.lease_closed) e)

abbrev pub is_closed : Option LeaseStatus → Bool
is_closed (some closed) = true
is_closed (some opened) = false
is_closed none = false

unfoldable pub database_for : LeaseId → WorkerEngine → Option (ReadString × WorkerEngine)
database_for lease e = elim (get lease e.leases) [
  | some entry ↦ some (entry.database.database_name, e)
  | none ↦ do
    database ← (take_ready e.inventory).0
    assign_database lease database (record e { inventory = (take_ready e.inventory).1 })
]

unfoldable pub serve_reply :
    Environment → LeaseId → Consumer → Instant → WorkerEngine → Option WorkerEngine
serve_reply env lease reply queued_at e =
    if timed_out? env e.config queued_at
    then some (record e {
      counters = record e.counters { waiter_timeouts = add_u64 e.counters.waiter_timeouts 1 };
    })
    else (do (name, e') ← database_for lease e; reply_attached env lease name reply e')

unfoldable pub serve_replies :
    Environment → LeaseId → List (Consumer × Instant) → WorkerEngine → Option WorkerEngine
serve_replies env lease [] e = some e
serve_replies env lease ((reply, queued_at) ∷ replies) e =
    serve_reply env lease reply queued_at e >>= λ e'. serve_replies env lease replies e'

unfoldable pub serve_group :
    Environment → LeaseId → List (Consumer × Instant) → WorkerEngine → Option WorkerEngine
serve_group env lease replies e =
    if is_closed (get lease e.lease_records)
    then some (reject_all replies e)
    else serve_replies env lease replies e >>= λ e'.
        if present (get lease e.leases)
        then some e'
        else (restore_unclaimed_database lease e' >>= λ r. some r.1)

-- One round of the loop, for the lease that was popped.
unfoldable pub dispatch_lease : Environment → LeaseId → WorkerEngine → Option WorkerEngine
dispatch_lease env lease e = elim (get lease e.group_waiters) [
  | none ↦ some e
  | some replies ↦
      serve_group env lease replies (record e { group_waiters = remove lease e.group_waiters })
]

-- The loop: the list is the queue of waiters, which nothing but the loop's `pop_front` changes.
unfoldable pub dispatch_queue : Environment → List LeaseId → WorkerEngine → Option WorkerEngine
dispatch_queue env [] e = some (record e { waiters = [] })
dispatch_queue env (lease ∷ rest) e = elim e.inventory.ready [
  | [] ↦ some (record e { waiters = lease ∷ rest })
  | _ ∷ _ ↦
      dispatch_lease env lease (record e { waiters = rest }) >>= λ e'. dispatch_queue env rest e'
]

unfoldable pub dispatch_waiters : Environment → WorkerEngine → Option WorkerEngine
dispatch_waiters env e = dispatch_queue env e.waiters e
