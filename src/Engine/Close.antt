-- ===== src/Engine/Close.antt =====
-- Releasing a lease, and losing it to its timer: no panic, and a sound state.
use pg_test.Base.Map.{get, insert, length-remove-le, remove}
use pg_test.Base.Set.{set_remove, length-set_remove}
use pg_test.Base.{
  ℕ, ◌+◌, ◌<◌, ◌≡◌, refl, inl, inr, List, [], ◌∷◌, arith, Returns, Bool-cases, ok, err,
}
use pg_test.Engine.Attach.{Sound, Sound-later, admit_lease-Admitted, admitted, refused, was_closed}
use pg_test.Engine.Dispatch.{reject_all}
use pg_test.Engine.Handlers.{
  close_lease, handle_max_time, has_generation, release_lease, waiting_replies,
}
use pg_test.Engine.Invariant.{Fair, history_bound, id_limit_bound, id_limit_step}
use pg_test.Engine.Order.{Orderly-close, Orderly-fewer}
use pg_test.Engine.Retire.{retire_lease-Retired}
use pg_test.Engine.State.{
  Consumer, Effect, Environment, Instant, ReleaseError, WorkerEngine, add_u64, closed,
}
use pg_test.Inventory.{DatabaseInventory}
use pg_test.LeaseId.{LeaseId, lease_key}

-- Turning waiters away only sends replies.
pub reject_all-effects :
    (replies : List (Consumer × Instant)) (e : WorkerEngine)
    → (effects : List Effect) × (reject_all replies e ≡ record e { effects = effects })
unfolding reject_all
reject_all-effects [] e = (e.effects, refl)
reject_all-effects ((reply, queued_at) ∷ replies) e =
    let (effects, same) = reject_all-effects replies _ in (effects, same)

Fair-fewer :
    (inventory inventory' : DatabaseInventory) (lease : LeaseId) (waiters : List LeaseId)
    → Fair inventory waiters
    → inventory'.ready ≡ inventory.ready
    → Fair inventory' (set_remove lease waiters)
unfolding set_remove
Fair-fewer s s' lease waiters f e = ground arith

close_lease-Sound :
    (env : Environment) (lease : LeaseId) (t : ℕ) (e : WorkerEngine)
    → t + 1 < history_bound
    → Sound t e
    → Returns (close_lease env lease e) (Sound (t + 1))
unfolding close_lease
close_lease-Sound env lease t e small s =
    let r = s.kept.roomy in
    let books = record e {
      lease_records = insert lease closed e.lease_records;
      group_waiters = remove lease e.group_waiters;
    } in
    let (effects, same) = reject_all-effects (waiting_replies (get lease e.group_waiters)) books in
    let before = record books { effects = effects; waiters = set_remove lease e.waiters } in
    let fewer = length-remove-le lease e.group_waiters in
    let done =
      retire_lease-Retired env lease before (t + 1) s.kept.owned (s.kept.orderly.single lease)
        r.threshold r.batch (omega (arith, fewer, r.grouped))
        (omega (arith, r.reserved, id_limit_bound t)) in
    rw same (
      record before {
        leases = done.leases;
        inventory = done.inventory;
        counters = done.counters;
        effects = done.effects;
      },
      done.no_panic,
      record {
        kept = record {
          owned = done.owned;
          orderly =
              Orderly-close e.leases e.lease_records e.next_generation e.waiters e.group_waiters
                s.kept.orderly lease done.leases done.gone done.fewer;
          roomy = record {
            threshold = r.threshold;
            batch = r.batch;
            generated = omega (arith, length-set_remove lease e.waiters, r.generated);
            grouped = omega (arith, fewer, r.grouped);
            reserved = omega (arith, done.next_bound, r.reserved, id_limit_step t);
          };
        };
        fair = Fair-fewer e.inventory done.inventory lease e.waiters s.fair done.same_ready;
      },
    )

-- `release_lease` never panics, and keeps the state sound.
pub release_lease-Sound :
    (env : Environment) (lease : LeaseId) (t : ℕ) (e : WorkerEngine)
    → t + 1 < history_bound
    → Sound t e
    → Returns (release_lease env lease e) (λ r. Sound (t + 1) r.1)
unfolding release_lease
release_lease-Sound env lease t e small s = elim (admit_lease-Admitted lease e s.kept.orderly) [
  | was_closed known done ↦ ((ok tt, e), ground (arith, done), Sound-later t e s)
  | refused done ↦
      ((err ReleaseError.lease_record_limit_reached, e), ground (arith, done), Sound-later t e s)
  | admitted records done now b ↦
      let admitted_state : Sound t (record e { lease_records = records }) = record {
        kept = record { owned = s.kept.owned; orderly = b; roomy = s.kept.roomy };
        fair = s.fair;
      } in
      let (e', closed_it, sound) =
        close_lease-Sound env lease t (record e { lease_records = records }) small admitted_state in
      ((ok tt, e'), ground (arith, done, closed_it), sound)
]

-- The timer of a lease that still has its generation takes the database away; another does nothing.
pub handle_max_time-Sound :
    (env : Environment) (lease : LeaseId) (generation t : ℕ) (e : WorkerEngine)
    → t + 1 < history_bound
    → Sound t e
    → Returns (handle_max_time env lease generation e) (Sound (t + 1))
unfolding handle_max_time
handle_max_time-Sound env lease generation t e small s =
    elim (Bool-cases (has_generation generation (get lease e.leases))) [
      | inr stale ↦ rw (stale, handle_max_time) (e, refl, Sound-later t e s)
      | inl current ↦
          let r = s.kept.roomy in
          let counters = record e.counters {
            rejected_attach_max_lifetime = add_u64 e.counters.rejected_attach_max_lifetime 1;
          } in
          let before = record e { counters = counters } in
          let done =
            retire_lease-Retired env lease before (t + 1) s.kept.owned (s.kept.orderly.single lease)
              r.threshold r.batch (omega (arith, r.grouped))
              (omega (arith, r.reserved, id_limit_bound t)) in
          rw (current, handle_max_time)
            (
              record before {
                leases = done.leases;
                inventory = done.inventory;
                counters = done.counters;
                effects = done.effects;
              },
              done.no_panic,
              record {
                kept = record {
                  owned = done.owned;
                  orderly =
                      Orderly-fewer e.leases e.lease_records e.next_generation e.waiters
                        e.group_waiters s.kept.orderly lease done.leases done.gone done.fewer;
                  roomy = record {
                    threshold = r.threshold;
                    batch = r.batch;
                    generated = omega (arith, r.generated);
                    grouped = omega (arith, r.grouped);
                    reserved = omega (arith, done.next_bound, r.reserved, id_limit_step t);
                  };
                };
                fair = ground (arith, s.fair, done.same_ready);
              },
            )
    ]
