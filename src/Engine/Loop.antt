-- ===== src/Engine/Loop.antt =====
-- The dispatch loop ends with the books kept, and with no database ready or nobody waiting.
use pg_test.Base.Map.{Map, get, get-remove, length-remove-le, remove}
use pg_test.Base.{
  ℕ, Bool, ◌>>=◌, ◌+◌, ◌≤◌, ◌<◌, ◌≡◌, ◌≢◌, refl, ◌∙◌, inl, inr, Option, none, some, List, [], ◌∷◌,
  arith, Option-cases, List-cases, Returns, Returns-bind, count,
}
use pg_test.Engine.Dispatch.{
  dispatch_lease, dispatch_queue, dispatch_waiters, serve_group, serve_replies,
}
use pg_test.Engine.Invariant.{IsKept, IsSound, Orderly, Owned, Roomy, empty_hand, history_bound}
use pg_test.Engine.Order.{Orderly-pop}
use pg_test.Engine.Serve.{Phase, Serves, Service, serve_replies-Serves, served, unserved}
use pg_test.Engine.State.{Consumer, Environment, Instant, LeaseEntry, WorkerEngine}
use pg_test.Engine.Steps.{Restored, claimed, restore-Restored, restored}
use pg_test.Inventory.{Database}
use pg_test.LeaseId.{LeaseId, lease_key}

-- The state in which the loop stands before the queue `q`.
pub record Ready (t k : ℕ) (q : List LeaseId) (e : WorkerEngine) : Type 0 where
  pub owned : Owned empty_hand e.leases e.inventory
  pub orderly : Orderly e.leases e.lease_records e.next_generation q e.group_waiters
  pub roomy : Roomy t k e.config e.next_generation e.inventory.next_database_id q e.group_waiters

-- What a round leaves for the next one: the queue is the one it was given.
abbrev Round : ℕ → ℕ → List LeaseId → WorkerEngine → Type 0
Round t k rest e = Ready t k rest e × (e.waiters ≡ rest)

-- Serving a lease uses one generation at most: the room that the lease had in the queue.
last_generation :
    {lease : LeaseId} {g n : ℕ} {leases : Map LeaseId LeaseEntry} {ready : List Database}
    → Phase lease g leases n ready
    → n ≤ g + 1
last_generation (unserved a e r) = omega arith
last_generation (served entry h e) = omega arith

module _ (t k : ℕ) (lease : LeaseId) (rest : List LeaseId) (g : ℕ) (e e' : WorkerEngine)
    (r : Roomy t k e.config g e.inventory.next_database_id (lease ∷ rest) e.group_waiters)
    (w : e.waiters ≡ rest) (served_all : Serves lease g e e') where
  room_left :
      Roomy t k e'.config e'.next_generation e'.inventory.next_database_id rest e'.group_waiters
  room_left =
      let same = served_all.1 in
      record {
        threshold = ground (arith, r.threshold, same.3);
        batch = ground (arith, r.batch, same.3);
        generated = omega (arith, r.generated, last_generation served_all.0.phase);
        grouped = ground (arith, r.grouped, same.1);
        reserved = ground (arith, r.reserved, same.4);
      }

  after_waiters : e'.waiters ≡ rest
  after_waiters = served_all.1.2 ∙ w

  after_service : Round t k rest e'
  after_service = (
    record {
      owned = served_all.0.owned;
      orderly = rw after_waiters at served_all.0.orderly;
      roomy = room_left;
    },
    after_waiters,
  )

  after_restore :
      {result : Option (Bool × WorkerEngine)}
      → Restored lease e' result
      → Returns (result >>= λ r. some r.1) (Round t k rest)
  after_restore (claimed done) = (e', ground arith, after_service)
  after_restore (restored d effects done o b) = (
    record e' {
      leases = remove lease e'.leases;
      inventory = record e'.inventory { ready = d ∷ e'.inventory.ready };
      effects = effects;
    },
    ground arith,
    (record { owned = o; orderly = rw after_waiters at b; roomy = room_left }, after_waiters),
  )

module _ (env : Environment) (t k : ℕ) (small : t < history_bound) (lease : LeaseId)
    (rest : List LeaseId) where
  serve_group-Round :
      (replies : List (Consumer × Instant)) (e : WorkerEngine)
      → Service lease e.next_generation e
      → get lease e.leases ≡ none
      → Roomy t k e.config e.next_generation e.inventory.next_database_id
          (lease ∷ rest)
          e.group_waiters
      → e.waiters ≡ rest
      → Returns (serve_group env lease replies e) (Round t k rest)
  unfolding serve_group
  serve_group-Round replies e s absent r w =
      rw (s.is_open, absent)
        (Returns-bind (Round t k rest) (serve_replies env lease replies e) _
          (serve_replies-Serves env lease e.next_generation replies e s)
          λ e' p.
            after_restore t k lease rest e.next_generation e e' r w p
              (restore-Restored lease e' p.0.owned p.0.orderly))

  dispatch_lease-Round :
      (e : WorkerEngine)
      → Ready t k (lease ∷ rest) e
      → e.waiters ≡ rest
      → e.inventory.ready ≢ []
      → Returns (dispatch_lease env lease e) (Round t k rest)
  unfolding dispatch_lease count
  dispatch_lease-Round e x w some_ready = elim (Option-cases (get lease e.group_waiters)) [
    | inl absent ↦ absurd (ground (arith, x.orderly.queued lease))
    | inr (replies, here) ↦
        let groups = remove lease e.group_waiters in
        let popped =
          Orderly-pop e.leases e.lease_records e.next_generation lease rest e.group_waiters
            x.orderly in
        let absent = x.orderly.waiting lease (rw here) in
        let gone = get-remove lease lease e.group_waiters in
        let s : Service lease e.next_generation (record e { group_waiters = groups }) = record {
          owned = x.owned;
          orderly = rw w popped;
          alone = ground (arith, gone);
          is_open = x.orderly.waiting_open lease (rw here);
          room = omega (arith, x.roomy.generated);
          phase = unserved absent refl some_ready;
        } in
        let r : Roomy t k e.config e.next_generation e.inventory.next_database_id (lease ∷ rest)
            groups =
          record {
            threshold = x.roomy.threshold;
            batch = x.roomy.batch;
            generated = x.roomy.generated;
            grouped = omega (arith, x.roomy.grouped, length-remove-le lease e.group_waiters);
            reserved = x.roomy.reserved;
          } in
        let (e', done, round) =
          serve_group-Round replies (record e { group_waiters = groups }) s absent r w in
        (e', ground (arith, done), round)
  ]

dispatch_queue-IsSound :
    (env : Environment) (t k : ℕ) (small : t < history_bound) (q : List LeaseId) (e : WorkerEngine)
    → Ready t k q e
    → Returns (dispatch_queue env q e) (IsSound t k)
unfolding dispatch_queue
dispatch_queue-IsSound env t k small [] e x = (
  _,
  refl,
  record {
    kept = record { owned = x.owned; orderly = x.orderly; roomy = x.roomy };
    fair = inr refl;
  },
)
dispatch_queue-IsSound env t k small (lease ∷ rest) e x = elim (List-cases e.inventory.ready) [
  | inl empty ↦ (
    record e { waiters = lease ∷ rest },
    ground arith,
    record {
      kept = record { owned = x.owned; orderly = x.orderly; roomy = x.roomy };
      fair = inl empty;
    },
  )
  | inr (d, ds, some_ready) ↦
      let (e', done, round) =
        dispatch_lease-Round env t k small lease rest (record e { waiters = rest })
          (record { owned = x.owned; orderly = x.orderly; roomy = x.roomy }) refl
          (λ none_ready. cc) in
      let (e'', done', sound) = dispatch_queue-IsSound env t k small rest e' round.0 in
      (e'', ground (arith, done, done'), sound)
]

-- The loop does not panic, and leaves a sound state from any in which the books are kept.
pub dispatch_waiters-IsSound :
    (env : Environment) (t k : ℕ) (e : WorkerEngine)
    → t < history_bound
    → IsKept t k e
    → Returns (dispatch_waiters env e) (IsSound t k)
unfolding dispatch_waiters
dispatch_waiters-IsSound env t k e small kept =
    dispatch_queue-IsSound env t k small e.waiters e
      (record { owned = kept.owned; orderly = kept.orderly; roomy = kept.roomy })
