-- ===== src/Manager.antt =====
-- crates/pgtest-core/src/worker_manager.rs and worker_manager/worker_io.rs: what the manager makes of
-- the engine's replies. A reply crosses a channel that holds one message; a session that is dropped
-- sends a detach to the engine. The functions return the messages that were sent to the engine by
-- dropping sessions.
pub mod Sessions
pub mod Startup
pub mod Ready
pub mod StartTests
pub mod Tests
use pg_test.Base.{
  ℕ, Bool, true, false, Option, none, some, List, [], ◌∷◌, Result, ok, err, ◌==◌, if◌then◌else◌,
}
use pg_test.Connection.{ReadString-discrete}
use pg_test.Engine.State.{
  AttachError, CancellationToken, ConsumerReply, EngineMessage, ReleaseError, attach_rejected,
  attached, detach, lease_closed, failed, timed_out, template_mismatch, failed_to_attach,
  release_result, unexpected_reply, reply_timed_out,
}
use pg_test.LeaseId.{LeaseId}
use pg_test.ReadString.{ReadString}

pub record LeaseSession : Type 0 where
  pub database_name : ReadString
  pub lease_id : LeaseId
  pub generation : ℕ
  pub cancellation : CancellationToken
  pub detach_on_drop : Bool

pub data ManagerReply : Type 0 where
  attached_session : LeaseSession → ManagerReply
  engine : ConsumerReply → ManagerReply

-- The sender of the channel is left out: `is_open` tells where it is used.
pub record ConsumerWorker : Type 0 where
  pub attachment : Option LeaseId

abbrev pub new_session : ReadString → LeaseId → ℕ → CancellationToken → LeaseSession
new_session name lease generation cancellation = record {
  database_name = name;
  lease_id = lease;
  generation = generation;
  cancellation = cancellation;
  detach_on_drop = true;
}

-- `LeaseSession::drop`
unfoldable pub drop_session : LeaseSession → List EngineMessage
drop_session session =
    if session.detach_on_drop then detach session.lease_id session.generation ∷ [] else []

unfoldable pub drop_reply : ManagerReply → List EngineMessage
drop_reply (attached_session session) = drop_session session
drop_reply (engine reply) = []

-- What became of a reply: the result that the engine sees, what is in the channel, and what was sent.
pub record Delivery : Type 0 where
  pub result : Result (Unit {0}) ConsumerReply
  pub delivered : Option ManagerReply
  pub sent : List EngineMessage

abbrev pub deliver : Bool → ConsumerReply → ManagerReply → List EngineMessage → Delivery
deliver is_open msg reply dropped =
    if is_open
    then record { result = ok tt; delivered = some reply; sent = [] }
    else record { result = err msg; delivered = none; sent = dropped }

unfoldable pub reply_for : Bool → Option LeaseId → ConsumerReply → Delivery
reply_for is_open (some lease) (attached name generation cancellation) =
    let session = new_session name lease generation cancellation in
    deliver is_open (attached name generation cancellation) (attached_session session)
      (drop_session (record session { detach_on_drop = false }))
reply_for is_open attachment msg = deliver is_open msg (engine msg) []

-- `ConsumerWorker::reply`. The session of a failed delivery is told not to detach.
unfoldable pub reply : Bool → ConsumerWorker → ConsumerReply → Delivery
reply is_open worker msg = reply_for is_open worker.attachment msg

-- How waiting for the reply ends. A reply that was not read in time is dropped with the channel.
pub data Awaited : Type 0 where
  received : ManagerReply → Awaited
  disconnected : Awaited
  too_late : Option ManagerReply → Awaited

-- What the manager meets: whether the engine takes messages, how waiting ends without and with a
-- deadline, and which tokens are cancelled when the reply is looked at.
pub record ManagerWorld : Type 0 where
  pub engine_open : Bool
  pub await_reply : Awaited
  pub await_until : ℕ → Awaited
  pub is_cancelled : CancellationToken → Bool

abbrev pub dropped_with : Option ManagerReply → List EngineMessage
dropped_with none = []
dropped_with (some unread) = drop_reply unread

unfoldable pub accept_reply :
    (CancellationToken → Bool) → ManagerReply → Result LeaseSession AttachError × List EngineMessage
accept_reply is_cancelled (attached_session session) =
    if is_cancelled session.cancellation
    then (err lease_closed, drop_session session)
    else (ok session, [])
accept_reply is_cancelled (engine (attach_rejected error)) = (err error, [])
accept_reply is_cancelled (engine other) = (err failed, [])

unfoldable pub conclude :
    (CancellationToken → Bool) → Awaited → Result LeaseSession AttachError × List EngineMessage
conclude is_cancelled (received r) = accept_reply is_cancelled r
conclude is_cancelled disconnected = (err AttachError.engine_unavailable, [])
conclude is_cancelled (too_late unread) = (err timed_out, dropped_with unread)

-- `WorkerEngineManager::attach`
unfoldable pub attach :
    ReadString
    → ℕ
    → ManagerWorld
    → ReadString
    → Result LeaseSession AttachError × List EngineMessage
attach template_name lease_claim_timeout world database_name =
    elim (ReadString-discrete template_name database_name) [
      | no other ↦ (err template_mismatch, [])
      | yes same ↦
          if world.engine_open
          then if lease_claim_timeout == 0
            then conclude world.is_cancelled world.await_reply
            else conclude world.is_cancelled (world.await_until lease_claim_timeout)
          else (err AttachError.engine_unavailable, [])
    ]

-- `WorkerEngineManager::release`, which waits for 5 seconds.
unfoldable pub accept_release : ManagerReply → Result (Unit {0}) ReleaseError
accept_release (engine (release_result result)) = result
accept_release other = err unexpected_reply

unfoldable pub release : ManagerWorld → Result (Unit {0}) ReleaseError
release world =
    if world.engine_open
    then (elim (world.await_until 5000) [
      | received r ↦ accept_release r
      | disconnected ↦ err ReleaseError.engine_unavailable
      | too_late unread ↦ err reply_timed_out
    ])
    else err ReleaseError.engine_unavailable
