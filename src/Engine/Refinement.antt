-- ===== src/Engine/Refinement.antt =====
-- The engine's records of the leases against the ledger: every message changes them as the ledger's
-- step for that message says.
use pg_test.Base.Map.{get}
use pg_test.Base.{
  ℕ, ◌≤◌, ◌≡◌, refl, List, [], ◌∷◌, arith, some, ◌>>=◌, Option-cases, Bool-cases, inl, inr, Result,
  length,
}
use pg_test.Engine.Dispatch.{dispatch_waiters}
use pg_test.Engine.Growth.{grow}
use pg_test.Engine.Handlers.{
  count_failure, handle_cleanup_finished, handle_creation_finished, handle_database_worker_message,
  handle_detach, handle_max_time, handle_message, is_shutdown, process_messages,
}
use pg_test.Engine.Records.{
  Keeps, KeepsOption, Keeps-after, Keeps-bind, dispatch_waiters-Keeps, grow-Keeps,
  retire_lease-Keeps,
}
use pg_test.Engine.Release.{count_failure-Keeps}
use pg_test.Engine.State.{
  EngineMessage, Environment, WorkerEngine, WorkerEngineConfig, add_u64, attach_or_join_msg,
  cleanup_finished, creation_finished, database_worker, detach, lease_max_time_reached, new_engine,
  release_lease_msg, shutdown,
}
use pg_test.Inventory.{DatabaseId, PostgresDdlClientError, complete_creation}
use pg_test.LeaseId.{LeaseId, lease_key}
use pg_test.ReadString.{ReadString}
use pg_test.Engine.Ledger.{Ledger, Matches, MatchesOption, empty_ledger, ledger_run, ledger_step}
use pg_test.Engine.Ledger.Laws.{Keeps-Matches, run-room}
use pg_test.Engine.Admission.{attach_or_join-Matches, release_lease-Matches}

handle_detach-Keeps :
    (lease : LeaseId) (generation : ℕ) (e : WorkerEngine)
    → Keeps e (handle_detach lease generation e)
unfolding handle_detach
handle_detach-Keeps lease generation e = ground arith

handle_max_time-Keeps :
    (env : Environment) (lease : LeaseId) (generation : ℕ) (e : WorkerEngine)
    → KeepsOption e (handle_max_time env lease generation e)
unfolding handle_max_time
handle_max_time-Keeps env lease generation e =
    let counted = record e {
      counters = record e.counters {
        rejected_attach_max_lifetime = add_u64 e.counters.rejected_attach_max_lifetime 1;
      };
    } in
    ground (arith, retire_lease-Keeps env lease counted)

handle_creation_finished-Keeps :
    (env : Environment) (id : DatabaseId) (result : Result ReadString PostgresDdlClientError)
    (e : WorkerEngine)
    → KeepsOption e (handle_creation_finished env id result e)
unfolding handle_creation_finished
handle_creation_finished-Keeps env id result e =
    let moved = record e { inventory = (complete_creation e.inventory id result).1 } in
    elim (Option-cases (complete_creation e.inventory id result).0) [
      | inl unknown ↦ ground arith
      | inr (outcome, known) ↦
          let counted = count_failure outcome moved in
          let kept : Keeps moved counted = count_failure-Keeps outcome moved in
          let served = Keeps-after moved counted (dispatch_waiters env counted >>= grow env) kept (
            Keeps-bind counted (dispatch_waiters env counted) (grow env)
              (dispatch_waiters-Keeps env counted) (grow-Keeps env)) in
          ground (arith, served)
    ]

handle_message-Matches :
    (env : Environment) (capacity : ℕ) (message : EngineMessage) (l : Ledger) (e : WorkerEngine)
    → Matches capacity l e
    → MatchesOption capacity (ledger_step capacity message l) (handle_message env message e)
unfolding handle_message handle_database_worker_message handle_cleanup_finished ledger_step
handle_message-Matches env capacity (attach_or_join_msg lease reply queued_at) l e known =
    attach_or_join-Matches env capacity lease reply queued_at l e known
handle_message-Matches env capacity (release_lease_msg lease reply) l e known =
    release_lease-Matches env capacity lease reply l e known
handle_message-Matches env capacity (detach lease generation) l e known =
    Keeps-Matches capacity l e (some (handle_detach lease generation e)) known
      (handle_detach-Keeps lease generation e)
handle_message-Matches env capacity (lease_max_time_reached lease generation) l e known =
    Keeps-Matches capacity l e (handle_max_time env lease generation e) known
      (handle_max_time-Keeps env lease generation e)
handle_message-Matches env capacity (database_worker (creation_finished id result)) l e known =
    Keeps-Matches capacity l e (handle_creation_finished env id result e) known
      (handle_creation_finished-Keeps env id result e)
handle_message-Matches env capacity (database_worker (cleanup_finished id result)) l e known = known
handle_message-Matches env capacity shutdown l e known = known

process_messages-Matches :
    (capacity : ℕ) (messages : List (Environment × EngineMessage)) (l : Ledger) (e : WorkerEngine)
    → Matches capacity l e
    → MatchesOption capacity (ledger_run capacity messages l) (process_messages messages e)
unfolding process_messages ledger_run
process_messages-Matches capacity [] l e known = known
process_messages-Matches capacity ((env, message) ∷ messages) l e known =
    elim (Option-cases (handle_message env message e)) [
      | inl panics ↦ rw (panics, process_messages) tt
      | inr (e', done) ↦
          let first : Matches capacity (ledger_step capacity message l) e' =
            rw done at (handle_message-Matches env capacity message l e known) in
          let rest =
            process_messages-Matches capacity messages (ledger_step capacity message l) e' first in
          elim (Bool-cases (is_shutdown message)) [
            | inl over ↦ rw (done, over, process_messages, ledger_run) first
            | inr goes_on ↦ rw (done, goes_on, process_messages, ledger_run) rest
          ]
    ]

-- Whatever messages the engine handles, it has for every lease exactly the status that the ledger
-- computes from the same messages, whatever the environment does: an attach or a release of a lease
-- that is not known opens it while there is room, a release closes an open lease, a closed lease stays
-- closed, and no other message changes anything. It has as many records as the ledger knows leases,
-- and never more than the configuration allows.
pub process_messages-Ledger :
    (config : WorkerEngineConfig) (messages : List (Environment × EngineMessage)) (e : WorkerEngine)
    → process_messages messages (new_engine config) ≡ some e
    → ((lease : LeaseId)
        → get lease e.lease_records
          ≡ (ledger_run config.max_lease_records messages empty_ledger).status lease)
      × (length e.lease_records ≡ (ledger_run config.max_lease_records messages empty_ledger).size)
      × (length e.lease_records ≤ config.max_lease_records)
unfolding new_engine get
process_messages-Ledger config messages e ran =
    let capacity = config.max_lease_records in
    let (statuses, size, same) : Matches capacity (ledger_run capacity messages empty_ledger) e =
      rw ran at (
        process_messages-Matches capacity messages empty_ledger (new_engine config)
          (λ lease. refl, refl, refl)) in
    let room = run-room capacity messages empty_ledger (omega arith) in
    (statuses, size, omega (arith, size, room))
