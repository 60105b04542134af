-- ===== src/Engine/Fresh.antt =====
-- The three ways of an admitted consumer: its lease has a database, gets one, or waits for one.
use pg_test.Base.Map.{get, get-insert, insert, length-insert, remove}
use pg_test.Base.{
  ℕ, ◌+◌, ◌<◌, ◌≡◌, refl, inl, inr, Option, none, some, List, [], ◌∷◌, ◌++◌, arith, length-append,
  Option-cases, Returns, count, ◌>>=◌, if◌then◌else◌,
}
use pg_test.Engine.Attach.{
  Sound, dispatch-grow-Sound, grow-Sound, Sound-later, Sound-trace, was_closed, refused, admitted,
  admit_lease-Admitted,
}
use pg_test.Engine.Custody.{Owned-take, in_hand}
use pg_test.Engine.Dispatch.{dispatch_waiters}
use pg_test.Engine.Growth.{grow}
use pg_test.Engine.Handlers.{attach_fresh, attach_opened, attach_or_join, enqueue}
use pg_test.Engine.Invariant.{IsKept, IsSound, Owned, Roomy, empty_hand, history_bound, id_limit}
use pg_test.Engine.Leases.{fresh_entry, restore_unclaimed_database}
use pg_test.Engine.Order.{Orderly-enqueue, Orderly-join}
use pg_test.Engine.State.{
  AttachError, Consumer, Environment, Instant, WorkerEngine, attach_rejected, opened, send,
}
use pg_test.Engine.Steps.{
  BooksOf, assign_database-Assigned, claimed, reply_attached-Replied, restore-Restored, restored,
}
use pg_test.Inventory.Moves.{take_ready_cases}
use pg_test.Inventory.{Database}
use pg_test.LeaseId.{LeaseId, lease_key}

-- The consumer waits: the lease is in the queue once, however many consumers it has there.
enqueue-IsSound :
    (lease : LeaseId) (reply : Consumer) (queued_at : Instant) (t : ℕ) (e : WorkerEngine)
    → Sound t e
    → get lease e.leases ≡ none
    → get lease e.lease_records ≡ some opened
    → e.inventory.ready ≡ []
    → IsSound (t + 1) (id_limit t) (enqueue lease reply queued_at e)
unfolding enqueue
enqueue-IsSound lease reply queued_at t e s absent open_record empty =
    elim (Option-cases (get lease e.group_waiters)) [
      | inl new ↦
          let replies : List (Consumer × Instant) = (reply, queued_at) ∷ [] in
          rw (new, enqueue)
            (record {
              kept = record {
                owned = s.kept.owned;
                orderly =
                    Orderly-enqueue e.leases e.lease_records e.next_generation e.waiters
                      e.group_waiters s.kept.orderly lease replies absent open_record new;
                roomy = record {
                  threshold = s.kept.roomy.threshold;
                  batch = s.kept.roomy.batch;
                  generated =
                      omega (arith, length-append e.waiters (lease ∷ []), s.kept.roomy.generated);
                  grouped =
                      omega
                        (arith, length-insert lease replies e.group_waiters, s.kept.roomy.grouped);
                  reserved = s.kept.roomy.reserved;
                };
              };
              fair = inl empty;
            })
      | inr (before, here) ↦
          let replies : List (Consumer × Instant) = before ++ (reply, queued_at) ∷ [] in
          rw (here, enqueue)
            (record {
              kept = record {
                owned = s.kept.owned;
                orderly =
                    Orderly-join e.leases e.lease_records e.next_generation e.waiters
                      e.group_waiters s.kept.orderly lease replies absent open_record (rw here);
                roomy = record {
                  threshold = s.kept.roomy.threshold;
                  batch = s.kept.roomy.batch;
                  generated = omega (arith, s.kept.roomy.generated);
                  grouped =
                      omega
                        (arith, length-insert lease replies e.group_waiters, s.kept.roomy.grouped);
                  reserved = s.kept.roomy.reserved;
                };
              };
              fair = inl empty;
            })
    ]

-- The tail of `attach_fresh`: if nobody was told, the database goes to a waiter or stays ready.
settle-Sound :
    (env : Environment) (lease : LeaseId) (t : ℕ) (e : WorkerEngine)
    → t + 1 < history_bound
    → IsKept (t + 1) (id_limit t) e
    → e.waiters ≡ []
    → Returns
        (restore_unclaimed_database lease e >>= λ r.
          (if r.0 then dispatch_waiters env r.1 else some r.1) >>= λ e'. grow env e')
        (Sound (t + 1))
settle-Sound env lease t e small k w = elim (restore-Restored lease e k.owned k.orderly) [
  | claimed done ↦ rw done (grow-Sound env t e small (record { kept = k; fair = inr w }))
  | restored d effects done o b ↦ rw done (
      dispatch-grow-Sound env t
        (record e {
          leases = remove lease e.leases;
          inventory = record e.inventory { ready = d ∷ e.inventory.ready };
          effects = effects;
        })
        small (record { owned = o; orderly = b; roomy = k.roomy }))
]

-- The database in hand goes to the lease; nobody waits, since a database was ready.
attach_fresh-Sound :
    (env : Environment) (lease : LeaseId) (reply : Consumer) (d : Database) (t : ℕ)
    (e : WorkerEngine)
    → t + 1 < history_bound
    → Owned (in_hand d) e.leases e.inventory
    → BooksOf e e.leases e.next_generation
    → Roomy t
        (id_limit t)
        e.config
        e.next_generation
        e.inventory.next_database_id
        e.waiters
        e.group_waiters
    → get lease e.leases ≡ none
    → get lease e.lease_records ≡ some opened
    → e.waiters ≡ []
    → Returns (attach_fresh env lease reply d e) (Sound (t + 1))
unfolding attach_fresh count
attach_fresh-Sound env lease reply d t e small o b r absent open_record w =
    let alone : get lease e.group_waiters ≡ none = nobody (get lease e.group_waiters) in
    let a =
      assign_database-Assigned lease d e o b absent alone open_record
        (omega (arith, r.generated)) in
    let entry = fresh_entry d (e.next_generation + 1) in
    let e₁ = record e {
      leases = insert lease entry e.leases;
      next_generation = e.next_generation + 1;
      effects = a.effects;
    } in
    let found = get-insert lease lease entry e.leases in
    let here : get lease e₁.leases ≡ some entry = ground (arith, found) in
    let told =
      reply_attached-Replied empty_hand lease entry e₁ a.owned a.orderly here env d.database_name
        reply in
    let e₂ = record e₁ { leases = told.leases; effects = told.effects } in
    let k : IsKept (t + 1) (id_limit t) e₂ = record {
      owned = told.owned;
      orderly = told.orderly;
      roomy = record {
        threshold = r.threshold;
        batch = r.batch;
        generated = omega (arith, r.generated);
        grouped = omega (arith, r.grouped);
        reserved = r.reserved;
      };
    } in
    rw (a.no_panic, told.no_panic) (settle-Sound env lease t e₂ small k w)
  where
    queue_empty : count lease e.waiters ≡ 0
    queue_empty = rw w

    nobody : (x : Option (List (Consumer × Instant))) → get lease e.group_waiters ≡ none
    nobody x = ground (arith, b.queued lease, queue_empty)

-- An admitted consumer joins its lease's database, gets a ready one, or waits.
attach_opened-Sound :
    (env : Environment) (lease : LeaseId) (reply : Consumer) (queued_at : Instant) (t : ℕ)
    (e : WorkerEngine)
    → t + 1 < history_bound
    → Sound t e
    → get lease e.lease_records ≡ some opened
    → Returns (attach_opened env lease reply queued_at e) (Sound (t + 1))
unfolding attach_opened
attach_opened-Sound env lease reply queued_at t e small s open_record =
    elim (Option-cases (get lease e.leases)) [
      | inr (entry, here) ↦
          let told =
            reply_attached-Replied empty_hand lease entry e s.kept.owned s.kept.orderly here env
              entry.database.database_name reply in
          (
            record e { leases = told.leases; effects = told.effects },
            ground (arith, told.no_panic),
            Sound-later t _ (record {
              kept = record { owned = told.owned; orderly = told.orderly; roomy = s.kept.roomy };
              fair = s.fair;
            }),
          )
      | inl absent ↦ elim (take_ready_cases e.inventory) [
        | inl (empty, taken) ↦
            let (e', done, sound) =
              grow-Sound env t (enqueue lease reply queued_at e) small
                (enqueue-IsSound lease reply queued_at t e s absent open_record empty) in
            (e', ground (arith, taken, done), sound)
        | inr (d, rest, first, taken, moved) ↦
            let inventory = record e.inventory { ready = rest } in
            let (e', done, sound) =
              attach_fresh-Sound env lease reply d t (record e { inventory = inventory }) small
                (Owned-take e.leases e.inventory d inventory s.kept.owned refl moved) s.kept.orderly
                s.kept.roomy absent open_record (ground (arith, s.fair, first)) in
            (e', ground (arith, taken, done), sound)
      ]
    ]

-- `attach_or_join` never panics, and keeps the state sound.
pub attach_or_join-Sound :
    (env : Environment) (lease : LeaseId) (reply : Consumer) (queued_at : Instant) (t : ℕ)
    (e : WorkerEngine)
    → t + 1 < history_bound
    → Sound t e
    → Returns (attach_or_join env lease reply queued_at e) (Sound (t + 1))
unfolding attach_or_join
attach_or_join-Sound env lease reply queued_at t e small s =
    elim (admit_lease-Admitted lease e s.kept.orderly) [
      | was_closed known done ↦ (
        send reply (attach_rejected AttachError.lease_closed) e,
        ground (arith, done),
        Sound-trace (t + 1) e _ _ (Sound-later t e s),
      )
      | refused done ↦ (
        send reply (attach_rejected AttachError.lease_record_limit_reached) e,
        ground (arith, done),
        Sound-trace (t + 1) e _ _ (Sound-later t e s),
      )
      | admitted records done now b ↦
          let (e', attached_it, sound) =
            attach_opened-Sound env lease reply queued_at t (record e { lease_records = records })
              small
              (record {
                kept = record { owned = s.kept.owned; orderly = b; roomy = s.kept.roomy };
                fair = s.fair;
              })
              now in
          (e', ground (arith, done, attached_it), sound)
    ]
