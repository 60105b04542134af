-- ===== src/Manager/Sessions.antt =====
-- Every consumer that the engine counts is counted off again when its session is gone.
use pg_test.Base.Map.{get}
use pg_test.Base.{
  ℕ, ◌<◌, ◌≡◌, ◌⊎◌, refl, Bool, true, false, some, List, [], ◌∷◌, ◌++◌, ok, err, inl, inr, Returns,
  ◌∙◌, Bool-cases, if◌then◌else◌, ◌==◌, arith,
}
use pg_test.Engine.Handlers.{handle_detach}
use pg_test.Engine.Leases.{reply_attached}
use pg_test.Engine.Stale.{reply_attached-sends, reply_attached-detach, reply_attached-fails}
use pg_test.Engine.State.{
  AttachError, Consumer, ConsumerReply, EngineMessage, replied, Environment, LeaseEntry,
  WorkerEngine, attached, detach,
}
use pg_test.Connection.{ReadString-discrete}
use pg_test.LeaseId.{LeaseId, lease_key}
use pg_test.Manager.{
  Awaited, ManagerWorld, attach, ConsumerWorker, Delivery, LeaseSession, accept_reply,
  attached_session, conclude, drop_reply, drop_session, dropped_with, received, reply, reply_for,
  too_late,
}
use pg_test.ReadString.{ReadString}

-- The engine handles the detaches that it is sent.
abbrev pub detach_all : List EngineMessage → WorkerEngine → WorkerEngine
detach_all [] e = e
detach_all (detach lease generation ∷ messages) e =
    detach_all messages (handle_detach lease generation e)
detach_all (other ∷ messages) e = detach_all messages e

-- What is sent to the engine by the time that a delivered reply is dropped.
abbrev pub sent_when_gone : Delivery → List EngineMessage
sent_when_gone delivery = delivery.sent ++ dropped_with delivery.delivered

-- What the engine is told of a delivery.
abbrev pub is_delivered : Delivery → Bool
is_delivered delivery = elim delivery.result [ ok u ↦ true | err msg ↦ false ]

-- Attaching a consumer to a lease that has a database, over a channel that is open or not: one reply is
-- sent. Once this reply, or the session in it, is dropped and the engine has handled what that sent,
-- the entry of the lease is what it was before. The number of consumers fits in a `u16` with one more,
-- and the engine is told of each delivery what the reply returns.
pub reply-balanced :
    (env : Environment) (lease : LeaseId) (name : ReadString) (consumer : Consumer)
    (entry : LeaseEntry) (e : WorkerEngine) (is_open : Bool) (worker : ConsumerWorker)
    → get lease e.leases ≡ some entry
    → entry.conns < 65535
    → worker.attachment ≡ some lease
    → ((msg : ConsumerReply) → env.delivers consumer msg ≡ is_delivered (reply is_open worker msg))
    → Returns (reply_attached env lease name consumer e) (λ e'.
      (msg : ConsumerReply) × (e'.effects ≡ replied consumer msg ∷ e.effects)
      × (get lease (detach_all (sent_when_gone (reply is_open worker msg)) e').leases ≡ some entry))
unfolding reply reply_for drop_session drop_reply
reply-balanced env lease name consumer entry e true worker here room asks told =
    let msg = attached name entry.generation entry.cancellation in
    let delivered : env.delivers consumer msg ≡ true = rw asks at (told msg) in
    let (e', done, (counted, back)) =
      reply_attached-detach env lease name consumer entry e here room delivered in
    let sent = reply_attached-sends env lease name consumer entry e e' here room done in
    (e', done, (msg, sent, rw asks back))
reply-balanced env lease name consumer entry e false worker here room asks told =
    let msg = attached name entry.generation entry.cancellation in
    let lost : env.delivers consumer msg ≡ false = rw asks at (told msg) in
    let (e', done, (kept, _)) =
      reply_attached-fails env lease name consumer entry e here (inr (room, lost)) in
    let sent = reply_attached-sends env lease name consumer entry e e' here room done in
    (e', done, (msg, sent, rw asks kept))

-- How the waiting of an attach ends: without a timeout, or at its deadline.
abbrev pub awaited : ℕ → ManagerWorld → Awaited
awaited timeout world = if timeout == 0 then world.await_reply else world.await_until timeout

attach-concludes :
    (template : ReadString) (timeout : ℕ) (world : ManagerWorld)
    → world.engine_open ≡ true
    → attach template timeout world template ≡ conclude world.is_cancelled (awaited timeout world)
unfolding attach
attach-concludes template timeout world open_engine = elim (ReadString-discrete template template) [
  | no other ↦ absurd (other refl)
  | yes same ↦ ground arith
]

-- A session that reached the channel of an attach to the manager's own template, while the engine takes
-- messages, is handed to the caller exactly if it was read in time and its lease is not closed. Else
-- the caller is told that the lease is closed, or that the time is over, and the engine is sent
-- exactly one detach, of the lease and generation of the session.
pub attach-session :
    (template : ReadString) (timeout : ℕ) (world : ManagerWorld) (session : LeaseSession)
    → world.engine_open ≡ true
    → session.detach_on_drop ≡ true
    → ((awaited timeout world ≡ received (attached_session session))
        ⊎ (awaited timeout world ≡ too_late (some (attached_session session))))
    → ((awaited timeout world ≡ received (attached_session session))
        × (world.is_cancelled session.cancellation ≡ false)
        × (attach template timeout world template ≡ (ok session, [])))
      ⊎ (((awaited timeout world ≡ received (attached_session session))
            × (world.is_cancelled session.cancellation ≡ true)
            × (attach template timeout world template
                ≡ (err AttachError.lease_closed, detach session.lease_id session.generation ∷ [])))
          ⊎ ((awaited timeout world ≡ too_late (some (attached_session session)))
              × (attach template timeout world template
                  ≡ (err AttachError.timed_out, detach session.lease_id session.generation ∷ []))))
unfolding conclude accept_reply drop_reply drop_session
attach-session template timeout world session open_engine guarded (inl read) =
    let concluded = attach-concludes template timeout world open_engine in
    elim (Bool-cases (world.is_cancelled session.cancellation)) [
      | inl over ↦ inr (inl (read, over, concluded ∙ rw read (rw (over, guarded) refl)))
      | inr going ↦ inl (read, going, concluded ∙ rw read (rw going refl))
    ]
attach-session template timeout world session open_engine guarded (inr unread) =
    let concluded = attach-concludes template timeout world open_engine in
    inr (inr (unread, concluded ∙ rw unread (rw guarded refl)))
