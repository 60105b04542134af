-- ===== src/Engine/Release.antt =====
-- Releasing a lease: what it does once, that it does nothing twice, and that it is for ever.
use pg_test.Base.Map.{get, get-insert, insert, remove}
use pg_test.Base.Set.{set_remove}
use pg_test.Base.{
  ℕ, ◌≡◌, refl, List, [], ◌∷◌, arith, Option, none, some, ◌>>=◌, Option-cases, inl, inr, Result, ok,
  err, if◌then◌else◌,
}
use pg_test.Engine.Growth.{grow, retire_lease}
use pg_test.Engine.Handlers.{
  attach_fresh, attach_opened, attach_or_join, close_lease, count_failure, enqueue,
  handle_cleanup_finished, handle_creation_finished, handle_database_worker_message, handle_detach,
  handle_max_time, handle_message, process_messages, release_lease, waiting_replies,
}
use pg_test.Engine.Dispatch.{dispatch_waiters, reject_all}
use pg_test.Engine.Leases.{admit_lease, assign_database, reply_attached, restore_unclaimed_database}
use pg_test.Engine.Records.{
  Keeps, KeepsOption, Keeps-after, Keeps-bind, Keeps-bind_pair, dispatch_waiters-Keeps, grow-Keeps,
  reject_all-Keeps, reply_attached-Keeps, restore-Keeps, retire_lease-Keeps, assign_database-Keeps,
}
use pg_test.Engine.State.{
  AttachError, Consumer, EngineMessage, Environment, Instant, WorkerEngine, attach_or_join_msg,
  attach_rejected, cleanup_finished, closed, creation_finished, database_worker, detach,
  lease_max_time_reached, add_u64, opened, release_lease_msg, send, shutdown,
}
use pg_test.ReadString.{ReadString}
use pg_test.Inventory.{Database, DatabaseId, PostgresDdlClientError, complete_creation, take_ready}
use pg_test.LeaseId.{LeaseId, lease_key}

-- The lease was released before.
abbrev pub IsClosed : LeaseId → WorkerEngine → Type 0
IsClosed lease e = get lease e.lease_records ≡ some closed

abbrev StaysClosed : LeaseId → Option WorkerEngine → Type 0
StaysClosed lease none = Unit {0}
StaysClosed lease (some e) = IsClosed lease e

attach_fresh-Keeps :
    (env : Environment) (l : LeaseId) (reply : Consumer) (d : Database) (e : WorkerEngine)
    → KeepsOption e (attach_fresh env l reply d e)
unfolding attach_fresh
attach_fresh-Keeps env l reply d e =
    Keeps-bind_pair e (assign_database l d e) _ (assign_database-Keeps l d e) λ r.
      Keeps-bind r.1 (reply_attached env l r.0 reply r.1) _
        (reply_attached-Keeps env l r.0 reply r.1)
        λ e₂. Keeps-bind_pair e₂ (restore_unclaimed_database l e₂) _ (restore-Keeps l e₂) λ q.
          Keeps-bind q.1 (if q.0 then dispatch_waiters env q.1 else some q.1) _
            (ground (arith, dispatch_waiters-Keeps env q.1)) (grow-Keeps env)

enqueue-Keeps :
    (l : LeaseId) (reply : Consumer) (queued_at : Instant) (e : WorkerEngine)
    → Keeps e (enqueue l reply queued_at e)
unfolding enqueue
enqueue-Keeps l reply queued_at e = ground arith

pub attach_opened-Keeps :
    (env : Environment) (l : LeaseId) (reply : Consumer) (queued_at : Instant) (e : WorkerEngine)
    → KeepsOption e (attach_opened env l reply queued_at e)
unfolding attach_opened
attach_opened-Keeps env l reply queued_at e = elim (Option-cases (get l e.leases)) [
  | inr (entry, here) ↦
      ground (arith, reply_attached-Keeps env l entry.database.database_name reply e)
  | inl absent ↦
      let e' = record e { inventory = (take_ready e.inventory).1 } in
      elim (Option-cases (take_ready e.inventory).0) [
        | inl empty ↦
            let waits = enqueue l reply queued_at e' in
            let grown =
              Keeps-after e waits (grow env waits) (enqueue-Keeps l reply queued_at e')
                (grow-Keeps env waits) in
            ground (arith, grown)
        | inr (d, first) ↦ ground (arith, attach_fresh-Keeps env l reply d e')
      ]
]

StaysClosed-Keeps :
    (lease : LeaseId) (e : WorkerEngine) (m : Option WorkerEngine)
    → IsClosed lease e
    → KeepsOption e m
    → StaysClosed lease m
StaysClosed-Keeps lease e none c k = tt
StaysClosed-Keeps lease e (some e') c k = rw k.0 c

-- A released lease is turned away, and nothing changes.
attach_or_join-closed :
    (env : Environment) (lease : LeaseId) (reply : Consumer) (queued_at : Instant)
    (e : WorkerEngine)
    → IsClosed lease e
    → attach_or_join env lease reply queued_at e
      ≡ some (send reply (attach_rejected AttachError.lease_closed) e)
unfolding attach_or_join admit_lease
attach_or_join-closed env lease reply queued_at e c = ground arith

attach_or_join-StaysClosed :
    (lease : LeaseId) (env : Environment) (l : LeaseId) (reply : Consumer) (queued_at : Instant)
    (e : WorkerEngine)
    → IsClosed lease e
    → StaysClosed lease (attach_or_join env l reply queued_at e)
unfolding attach_or_join admit_lease
attach_or_join-StaysClosed lease env l reply queued_at e c =
    let known = get-insert lease l opened e.lease_records in
    let new = record e { lease_records = insert l opened e.lease_records } in
    let old_way =
      StaysClosed-Keeps lease e (attach_opened env l reply queued_at e) c
        (attach_opened-Keeps env l reply queued_at e) in
    elim (Option-cases (get l e.lease_records)) [
      | inr (opened, here) ↦ ground (arith, old_way)
      | inr (closed, here) ↦ ground arith
      | inl unknown ↦
          let new_way =
            StaysClosed-Keeps lease new (attach_opened env l reply queued_at new)
              (ground (arith, known)) (attach_opened-Keeps env l reply queued_at new) in
          ground (arith, new_way)
    ]

close_lease-StaysClosed :
    (lease : LeaseId) (env : Environment) (l : LeaseId) (e : WorkerEngine)
    → IsClosed lease e
    → StaysClosed lease (close_lease env l e)
unfolding close_lease
close_lease-StaysClosed lease env l e c =
    let books = record e {
      lease_records = insert l closed e.lease_records;
      group_waiters = remove l e.group_waiters;
    } in
    let rejected = reject_all (waiting_replies (get l e.group_waiters)) books in
    let same = reject_all-Keeps (waiting_replies (get l e.group_waiters)) books in
    let before = record rejected { waiters = set_remove l rejected.waiters } in
    let known = get-insert lease l closed e.lease_records in
    StaysClosed-Keeps lease before (retire_lease env l before) (rw same.0 (ground (arith, known)))
      (retire_lease-Keeps env l before)

close_lease-closes :
    (env : Environment) (lease : LeaseId) (e : WorkerEngine)
    → StaysClosed lease (close_lease env lease e)
unfolding close_lease
close_lease-closes env lease e =
    let books = record e {
      lease_records = insert lease closed e.lease_records;
      group_waiters = remove lease e.group_waiters;
    } in
    let rejected = reject_all (waiting_replies (get lease e.group_waiters)) books in
    let same = reject_all-Keeps (waiting_replies (get lease e.group_waiters)) books in
    let before = record rejected { waiters = set_remove lease rejected.waiters } in
    let known = get-insert lease lease closed e.lease_records in
    StaysClosed-Keeps lease before (retire_lease env lease before)
      (rw same.0 (ground (arith, known))) (retire_lease-Keeps env lease before)

-- A successful release leaves the lease closed.
release_lease-closes :
    (env : Environment) (lease : LeaseId) (e e' : WorkerEngine)
    → release_lease env lease e ≡ some (ok tt, e')
    → IsClosed lease e'
unfolding release_lease admit_lease
release_lease-closes env lease e e' h =
    let new = record e { lease_records = insert lease opened e.lease_records } in
    ground (arith, close_lease-closes env lease e, close_lease-closes env lease new)

pub count_failure-Keeps :
    (outcome : Result (Unit {0}) PostgresDdlClientError) (e : WorkerEngine)
    → Keeps e (count_failure outcome e)
count_failure-Keeps (ok u) e = (refl, refl)
count_failure-Keeps (err x) e = (refl, refl)

release_lease-StaysClosed :
    (lease : LeaseId) (env : Environment) (l : LeaseId) (reply : Consumer) (e : WorkerEngine)
    → IsClosed lease e
    → StaysClosed lease (handle_message env (release_lease_msg l reply) e)
unfolding handle_message release_lease admit_lease
release_lease-StaysClosed lease env l reply e c =
    let known = get-insert lease l opened e.lease_records in
    let new = record e { lease_records = insert l opened e.lease_records } in
    let old_way = close_lease-StaysClosed lease env l e c in
    elim (Option-cases (get l e.lease_records)) [
      | inr (opened, here) ↦ ground (arith, old_way)
      | inr (closed, here) ↦ ground arith
      | inl unknown ↦
          let new_way = close_lease-StaysClosed lease env l new (ground (arith, known)) in
          ground (arith, new_way)
    ]

handle_max_time-StaysClosed :
    (lease : LeaseId) (env : Environment) (l : LeaseId) (generation : ℕ) (e : WorkerEngine)
    → IsClosed lease e
    → StaysClosed lease (handle_max_time env l generation e)
unfolding handle_max_time
handle_max_time-StaysClosed lease env l generation e c =
    let counted = record e {
      counters = record e.counters {
        rejected_attach_max_lifetime = add_u64 e.counters.rejected_attach_max_lifetime 1;
      };
    } in
    let retired =
      StaysClosed-Keeps lease counted (retire_lease env l counted) c
        (retire_lease-Keeps env l counted) in
    ground (arith, retired)

handle_creation_finished-StaysClosed :
    (lease : LeaseId) (env : Environment) (id : DatabaseId)
    (result : Result ReadString PostgresDdlClientError) (e : WorkerEngine)
    → IsClosed lease e
    → StaysClosed lease (handle_creation_finished env id result e)
unfolding handle_creation_finished
handle_creation_finished-StaysClosed lease env id result e c =
    let moved = record e { inventory = (complete_creation e.inventory id result).1 } in
    elim (Option-cases (complete_creation e.inventory id result).0) [
      | inl unknown ↦ ground arith
      | inr (outcome, known) ↦
          let counted = count_failure outcome moved in
          let kept : Keeps moved counted = count_failure-Keeps outcome moved in
          let served =
            StaysClosed-Keeps lease counted (dispatch_waiters env counted >>= grow env)
              (rw kept.0 c)
              (Keeps-bind counted (dispatch_waiters env counted) (grow env)
                (dispatch_waiters-Keeps env counted) (grow-Keeps env)) in
          ground (arith, served)
    ]

handle_message-StaysClosed :
    (lease : LeaseId) (env : Environment) (message : EngineMessage) (e : WorkerEngine)
    → IsClosed lease e
    → StaysClosed lease (handle_message env message e)
unfolding handle_message handle_database_worker_message handle_cleanup_finished handle_detach
handle_message-StaysClosed lease env (attach_or_join_msg l reply queued_at) e c =
    attach_or_join-StaysClosed lease env l reply queued_at e c
handle_message-StaysClosed lease env (release_lease_msg l reply) e c =
    release_lease-StaysClosed lease env l reply e c
handle_message-StaysClosed lease env (detach l generation) e c = ground arith
handle_message-StaysClosed lease env (lease_max_time_reached l generation) e c =
    handle_max_time-StaysClosed lease env l generation e c
handle_message-StaysClosed lease env (database_worker (creation_finished id result)) e c =
    handle_creation_finished-StaysClosed lease env id result e c
handle_message-StaysClosed lease env (database_worker (cleanup_finished id result)) e c = c
handle_message-StaysClosed lease env shutdown e c = c

process_messages-StaysClosed :
    (lease : LeaseId) (messages : List (Environment × EngineMessage)) (e : WorkerEngine)
    → IsClosed lease e
    → StaysClosed lease (process_messages messages e)
unfolding process_messages
process_messages-StaysClosed lease [] e c = c
process_messages-StaysClosed lease ((env, message) ∷ messages) e c =
    elim (Option-cases (handle_message env message e)) [
      | inl panics ↦ ground arith
      | inr (e', done) ↦
          let still : StaysClosed lease (some e') =
            rw done at (handle_message-StaysClosed lease env message e c) in
          ground (arith, process_messages-StaysClosed lease messages e' still)
    ]

-- Once a release has succeeded, whatever messages are handled after it, a consumer that asks for the
-- lease is told that it is closed, another release succeeds, and neither changes anything but the
-- reply that is sent.
pub release_lease-permanent :
    (env later : Environment) (lease : LeaseId) (reply : Consumer) (queued_at : Instant)
    (messages : List (Environment × EngineMessage)) (e e₁ e₂ : WorkerEngine)
    → release_lease env lease e ≡ some (ok tt, e₁)
    → process_messages messages e₁ ≡ some e₂
    → (attach_or_join later lease reply queued_at e₂
        ≡ some (send reply (attach_rejected AttachError.lease_closed) e₂))
      × (release_lease later lease e₂ ≡ some (ok tt, e₂))
unfolding release_lease admit_lease
release_lease-permanent env later lease reply queued_at messages e e₁ e₂ released ran =
    let over = release_lease-closes env lease e e₁ released in
    let c : IsClosed lease e₂ = rw ran at (process_messages-StaysClosed lease messages e₁ over) in
    (attach_or_join-closed later lease reply queued_at e₂ c, ground (arith, c))
