-- ===== src/Engine/Handlers.antt =====
-- core.rs: the handlers of the engine's messages, and its loop. `none` is a panic.
use pg_test.Base.Map.{get, insert, remove}
use pg_test.Base.Set.{set_remove}
use pg_test.Base.{
  ℕ, ◌-◌, Bool, true, false, Option, none, some, ◌>>=◌, List, [], ◌∷◌, ◌++◌, Result, ok, err, ◌==◌,
  if◌then◌else◌,
}
use pg_test.Engine.Dispatch.{dispatch_waiters, reject_all}
use pg_test.Engine.Growth.{grow, retire_lease}
use pg_test.Engine.Leases.{
  admit_lease, assign_database, reply_attached, restore_unclaimed_database, set_entry,
}
use pg_test.Engine.State.{
  AttachError, Consumer, DatabaseWorkerMessages, EngineMessage, Environment, Instant, LeaseEntry,
  ReleaseError, WorkerEngine, add_u64, attach_or_join_msg, attach_rejected, cancelled,
  cleanup_finished, closed, creation_finished, database_worker, detach, lease_max_time_reached,
  opened, perform, release_lease_msg, release_result, root_token, send, shutdown,
}
use pg_test.Inventory.{
  Database, DatabaseId, PostgresDdlClientError, complete_cleanup, complete_creation, take_ready,
}
use pg_test.LeaseId.{LeaseId, lease_key}
use pg_test.ReadString.{ReadString}

unfoldable pub enqueue : LeaseId → Consumer → Instant → WorkerEngine → WorkerEngine
enqueue lease reply queued_at e = elim (get lease e.group_waiters) [
  | none ↦ record e {
    waiters = e.waiters ++ lease ∷ [];
    group_waiters = insert lease ((reply, queued_at) ∷ []) e.group_waiters;
  }
  | some replies ↦ record e {
    group_waiters = insert lease (replies ++ (reply, queued_at) ∷ []) e.group_waiters;
  }
]

abbrev pub attach_error : ReleaseError → AttachError
attach_error ReleaseError.invalid_lease_id = AttachError.invalid_lease_id
attach_error _ = AttachError.lease_record_limit_reached

-- The lease has no database, and this one was taken from the ready ones.
unfoldable pub attach_fresh :
    Environment → LeaseId → Consumer → Database → WorkerEngine → Option WorkerEngine
attach_fresh env lease reply database e = do
  (name, e₁) ← assign_database lease database e
  e₂ ← reply_attached env lease name reply e₁
  (restored, e₃) ← restore_unclaimed_database lease e₂
  e₄ ← if restored then dispatch_waiters env e₃ else some e₃
  grow env e₄

unfoldable pub attach_opened :
    Environment → LeaseId → Consumer → Instant → WorkerEngine → Option WorkerEngine
attach_opened env lease reply queued_at e = elim (get lease e.leases) [
  | some entry ↦ reply_attached env lease entry.database.database_name reply e
  | none ↦
      let (taken, inventory) = take_ready e.inventory in
      elim taken [
        | none ↦ grow env (enqueue lease reply queued_at (record e { inventory = inventory }))
        | some database ↦ attach_fresh env lease reply database (record e { inventory = inventory })
      ]
]

unfoldable pub attach_or_join :
    Environment → LeaseId → Consumer → Instant → WorkerEngine → Option WorkerEngine
attach_or_join env lease reply queued_at e =
    let (admitted, e') = admit_lease lease e in
    elim admitted [
      | ok opened ↦ attach_opened env lease reply queued_at e'
      | ok closed ↦ some (send reply (attach_rejected AttachError.lease_closed) e')
      | err error ↦ some (send reply (attach_rejected (attach_error error)) e')
    ]

abbrev pub waiting_replies : Option (List (Consumer × Instant)) → List (Consumer × Instant)
waiting_replies none = []
waiting_replies (some replies) = replies

-- The lease is open: close it, turn its waiters away and give its database up.
unfoldable pub close_lease : Environment → LeaseId → WorkerEngine → Option WorkerEngine
close_lease env lease e =
    let replies = waiting_replies (get lease e.group_waiters) in
    let e' = reject_all replies (record e {
      lease_records = insert lease closed e.lease_records;
      group_waiters = remove lease e.group_waiters;
    }) in
    retire_lease env lease (record e' { waiters = set_remove lease e'.waiters })

unfoldable pub release_lease :
    Environment → LeaseId → WorkerEngine → Option (Result (Unit {0}) ReleaseError × WorkerEngine)
release_lease env lease e =
    let (admitted, e') = admit_lease lease e in
    elim admitted [
      | ok opened ↦ close_lease env lease e' >>= λ e''. some (ok tt, e'')
      | ok closed ↦ some (ok tt, e')
      | err error ↦ some (err error, e')
    ]

unfoldable pub handle_detach : LeaseId → ℕ → WorkerEngine → WorkerEngine
handle_detach lease generation e = elim (get lease e.leases) [
  | none ↦ e
  | some entry ↦
      if entry.generation == generation
      then (if entry.conns == 0
          then record e {
            counters = record e.counters { detach_on_zero = add_u64 e.counters.detach_on_zero 1 };
          }
          else set_entry lease (record entry { conns = entry.conns - 1 }) e)
      else e
]

abbrev pub has_generation : ℕ → Option LeaseEntry → Bool
has_generation generation none = false
has_generation generation (some entry) = entry.generation == generation

unfoldable pub handle_max_time : Environment → LeaseId → ℕ → WorkerEngine → Option WorkerEngine
handle_max_time env lease generation e =
    if has_generation generation (get lease e.leases)
    then retire_lease env lease (record e {
      counters = record e.counters {
        rejected_attach_max_lifetime = add_u64 e.counters.rejected_attach_max_lifetime 1;
      };
    })
    else some e

abbrev pub count_failure : Result (Unit {0}) PostgresDdlClientError → WorkerEngine → WorkerEngine
count_failure (ok _) e = e
count_failure (err _) e = record e {
  counters = record e.counters {
    template_create_failures = add_u64 e.counters.template_create_failures 1;
  };
}

unfoldable pub handle_creation_finished :
    Environment
    → DatabaseId
    → Result ReadString PostgresDdlClientError
    → WorkerEngine
    → Option WorkerEngine
handle_creation_finished env database_id result e =
    let (settled, inventory) = complete_creation e.inventory database_id result in
    elim settled [
      | none ↦ some (record e { inventory = inventory })
      | some outcome ↦ do
        e' ← dispatch_waiters env (count_failure outcome (record e { inventory = inventory }))
        grow env e'
    ]

unfoldable pub handle_cleanup_finished :
    DatabaseId → Result (Unit {0}) PostgresDdlClientError → WorkerEngine → WorkerEngine
handle_cleanup_finished database_id result e = record e {
  inventory = (complete_cleanup e.inventory database_id result).1;
}

unfoldable pub handle_database_worker_message :
    Environment → DatabaseWorkerMessages → WorkerEngine → Option WorkerEngine
handle_database_worker_message env (creation_finished id result) e =
    handle_creation_finished env id result e
handle_database_worker_message env (cleanup_finished id result) e =
    some (handle_cleanup_finished id result e)

-- The arm of the loop for each message.
unfoldable pub handle_message : Environment → EngineMessage → WorkerEngine → Option WorkerEngine
handle_message env (attach_or_join_msg lease reply queued_at) e =
    attach_or_join env lease reply queued_at e
handle_message env (release_lease_msg lease reply) e =
    release_lease env lease e >>= λ r. some (send reply (release_result r.0) r.1)
handle_message env (detach lease generation) e = some (handle_detach lease generation e)
handle_message env (lease_max_time_reached lease generation) e =
    handle_max_time env lease generation e
handle_message env (database_worker message) e = handle_database_worker_message env message e
handle_message env shutdown e = some (perform (cancelled root_token) e)

abbrev pub is_shutdown : EngineMessage → Bool
is_shutdown shutdown = true
is_shutdown _ = false

-- The messages that the inbox delivers, each with the environment that it meets. The loop ends at
-- `shutdown`, and when the inbox is closed.
unfoldable pub process_messages :
    List (Environment × EngineMessage) → WorkerEngine → Option WorkerEngine
process_messages [] e = some e
process_messages ((env, message) ∷ messages) e = handle_message env message e >>= λ e'.
    let rest = process_messages messages e' in if is_shutdown message then some e' else rest

unfoldable pub run : List (Environment × EngineMessage) → WorkerEngine → Option WorkerEngine
run messages e = process_messages messages e >>= λ e'. some (perform (cancelled root_token) e')
