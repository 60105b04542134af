-- ===== src/Manager/Tests.antt =====
-- Sessions at concrete inputs.
use pg_test.Base.Map.{get}
use pg_test.Base.{
  ◌≡◌, ◌⊎◌, refl, true, false, some, none, Option, [], ◌∷◌, ok, err, arith, inr, Returns,
  ℕ_discrete,
}
use pg_test.Engine.Leases.{reply_attached}
use pg_test.Engine.State.{
  ConsumerReply, replied, failed_to_attach, attach_rejected, release_result, AttachError,
  Environment, LeaseEntry, WorkerEngine, WorkerEngineConfig, attached, detach, new_engine,
}
use pg_test.LeaseId.{LeaseId, LeaseId-discrete, lease_key}
use pg_test.Manager.Sessions.{
  attach-session, awaited, is_delivered, detach_all, reply-balanced, sent_when_gone,
}
use pg_test.Manager.{
  ConsumerWorker, LeaseSession, ManagerWorld, attach, received, disconnected, reply_for,
  attached_session, new_session, reply, too_late,
}

abbrev lease : LeaseId
lease = record { value = b'l' ∷ [] }

abbrev closed_channel : Environment
closed_channel = record {
  delivers = λ c r. false;
  accepts_creation = λ r. true;
  elapsed_ms = λ t. 0;
}

abbrev config : WorkerEngineConfig
config = record {
  initial_slots = 0;
  starvation_threshold = 0;
  grow_batch_size = 1;
  lease_claim_timeout_ms = 30000;
  max_lease_records = 3;
}

abbrev entry : LeaseEntry
entry = record {
  database = record { database_id = 1; database_name = b'd' ∷ [] };
  conns = 1;
  generation = 1;
  cancellation = 1;
}

abbrev leased : WorkerEngine
leased = record (new_engine config) { leases = (lease, entry) ∷ []; next_generation = 1 }

abbrev worker : ConsumerWorker
worker = record { attachment = some lease }

-- Nothing is delivered over a closed channel.
lost :
    (attachment : Option LeaseId) (msg : ConsumerReply)
    → false ≡ is_delivered (reply false (record { attachment = attachment }) msg)
unfolding reply reply_for
lost none msg = refl
lost (some l) (attached name generation token) = refl
lost (some l) failed_to_attach = refl
lost (some l) (attach_rejected error) = refl
lost (some l) (release_result result) = refl

reply-balanced_example : Returns (reply_attached closed_channel lease (b'd' ∷ []) 7 leased) (λ e'.
    (msg : ConsumerReply) × (e'.effects ≡ replied 7 msg ∷ leased.effects)
    × (get lease (detach_all (sent_when_gone (reply false worker msg)) e').leases ≡ some entry))
unfolding get LeaseId-discrete ℕ_discrete
reply-balanced_example =
    reply-balanced closed_channel lease (b'd' ∷ []) 7 entry leased false worker refl (omega arith)
      refl (lost worker.attachment)

abbrev session : LeaseSession
session = new_session (b'd' ∷ []) lease 1 1

-- The reply comes, and is not read before the deadline.
abbrev late : ManagerWorld
late = record {
  engine_open = true;
  await_reply = disconnected;
  await_until = λ t. too_late (some (attached_session session));
  is_cancelled = λ c. false;
}

attach-session_example :
    ((awaited 5 late ≡ received (attached_session session))
      × (late.is_cancelled session.cancellation ≡ false)
      × (attach (b't' ∷ []) 5 late (b't' ∷ []) ≡ (ok session, [])))
    ⊎ (((awaited 5 late ≡ received (attached_session session))
          × (late.is_cancelled session.cancellation ≡ true)
          × (attach (b't' ∷ []) 5 late (b't' ∷ [])
              ≡ (err AttachError.lease_closed, detach lease 1 ∷ [])))
        ⊎ ((awaited 5 late ≡ too_late (some (attached_session session)))
            × (attach (b't' ∷ []) 5 late (b't' ∷ [])
                ≡ (err AttachError.timed_out, detach lease 1 ∷ []))))
attach-session_example = attach-session (b't' ∷ []) 5 late session refl refl (inr refl)
