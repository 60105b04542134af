-- ===== src/Engine/Serve.antt =====
-- Serving the consumers of one lease that waited: no panic, and the books are kept.
use pg_test.Base.Map.{Map, get, get-insert, insert}
use pg_test.Base.{
  ℕ, ◌+◌, ◌<◌, ◌≡◌, ◌≢◌, refl, ◌∙◌, inl, inr, none, some, List, [], ◌∷◌, arith, Bool-cases, Returns,
  Returns-bind,
}
use pg_test.Engine.Custody.{Owned-take}
use pg_test.Engine.Dispatch.{database_for, serve_replies, serve_reply}
use pg_test.Engine.Growth.{timed_out?}
use pg_test.Engine.Invariant.{Owned, empty_hand}
use pg_test.Engine.Leases.{fresh_entry, reply_attached}
use pg_test.Engine.State.{Consumer, Environment, Instant, LeaseEntry, WorkerEngine, opened}
use pg_test.Engine.Steps.{BooksOf, assign_database-Assigned, reply_attached-Replied}
use pg_test.Inventory.Moves.{take_ready_cases}
use pg_test.Inventory.{Database, u64_bound}
use pg_test.LeaseId.{LeaseId, lease_key}
use pg_test.ReadString.{ReadString}

-- What serving a lease leaves alone.
abbrev pub SameBooks : WorkerEngine → WorkerEngine → Type 0
SameBooks e e' =
    (e'.lease_records ≡ e.lease_records)
    × (e'.group_waiters ≡ e.group_waiters)
    × (e'.waiters ≡ e.waiters)
    × (e'.config ≡ e.config)
    × (e'.inventory.next_database_id ≡ e.inventory.next_database_id)

SameBooks-trans : (a b c : WorkerEngine) → SameBooks a b → SameBooks b c → SameBooks a c
SameBooks-trans a b c x y = (y.0 ∙ x.0, y.1 ∙ x.1, y.2 ∙ x.2, y.3 ∙ x.3, y.4 ∙ x.4)

SameBooks-refl : (e : WorkerEngine) → SameBooks e e
SameBooks-refl e = (refl, refl, refl, refl, refl)

-- The lease has no database yet, one is ready, and `g` is the last generation; or the lease has one.
pub data Phase (lease : LeaseId) (g : ℕ) (leases : Map LeaseId LeaseEntry) (next_generation : ℕ)
    (ready : List Database) : Type 0 where
  unserved :
      get lease leases ≡ none
      → next_generation ≡ g
      → ready ≢ []
      → Phase lease g leases next_generation ready
  served :
      (entry : LeaseEntry)
      → get lease leases ≡ some entry
      → next_generation ≡ g + 1
      → Phase lease g leases next_generation ready

pub record Service (lease : LeaseId) (g : ℕ) (e : WorkerEngine) : Type 0 where
  pub owned : Owned empty_hand e.leases e.inventory
  pub orderly : BooksOf e e.leases e.next_generation
  pub alone : get lease e.group_waiters ≡ none
  pub is_open : get lease e.lease_records ≡ some opened
  pub room : g + 1 < u64_bound
  pub phase : Phase lease g e.leases e.next_generation e.inventory.ready

abbrev pub Serves : LeaseId → ℕ → WorkerEngine → WorkerEngine → Type 0
Serves lease g e e' = Service lease g e' × SameBooks e e'

abbrev pub HasDatabase : LeaseId → ℕ → WorkerEngine → Type 0
HasDatabase lease g e =
    (entry : LeaseEntry) × (get lease e.leases ≡ some entry) × (e.next_generation ≡ g + 1)

module _ (env : Environment) (lease : LeaseId) (g : ℕ) where
  tell :
      (name : ReadString) (reply : Consumer) (e : WorkerEngine)
      → Service lease g e
      → HasDatabase lease g e
      → Returns (reply_attached env lease name reply e) (Serves lease g e)
  tell name reply e s (entry, here, last) =
      let r =
        reply_attached-Replied empty_hand lease entry e s.owned s.orderly here env name reply in
      (
        record e { leases = r.leases; effects = r.effects },
        r.no_panic,
        (
          record {
            owned = r.owned;
            orderly = r.orderly;
            alone = s.alone;
            is_open = s.is_open;
            room = s.room;
            phase = served _ r.now last;
          },
          SameBooks-refl e,
        ),
      )

  -- The first consumer that is told takes a ready database for the lease.
  take_database :
      (e : WorkerEngine)
      → Service lease g e
      → get lease e.leases ≡ none
      → e.next_generation ≡ g
      → e.inventory.ready ≢ []
      → Returns (database_for lease e) (λ r. Serves lease g e r.1 × HasDatabase lease g r.1)
  unfolding database_for
  take_database e s absent last some_ready = elim (take_ready_cases e.inventory) [
    | inl (none_ready, _) ↦ absurd (some_ready none_ready)
    | inr (d, rest, first, taken, moved) ↦
        let s' = record e.inventory { ready = rest } in
        let e' = record e { inventory = s' } in
        let a =
          assign_database-Assigned lease d e'
            (Owned-take e.leases e.inventory d s' s.owned refl moved) s.orderly absent s.alone
            s.is_open (omega (arith, s.room)) in
        let leases = insert lease (fresh_entry d (e.next_generation + 1)) e.leases in
        let here = get-insert lease lease (fresh_entry d (e.next_generation + 1)) e.leases in
        let now : get lease leases ≡ some (fresh_entry d (e.next_generation + 1)) =
          ground (arith, here) in
        (
          (
            d.database_name,
            record e' {
              leases = leases;
              next_generation = e.next_generation + 1;
              effects = a.effects;
            },
          ),
          ground (arith, taken, a.no_panic),
          (
            (
              record {
                owned = a.owned;
                orderly = a.orderly;
                alone = s.alone;
                is_open = s.is_open;
                room = s.room;
                phase = served _ now (omega arith);
              },
              SameBooks-refl e,
            ),
            (_, now, omega arith),
          ),
        )
  ]

  database_for-Serves :
      (e : WorkerEngine)
      → Service lease g e
      → Returns (database_for lease e) (λ r. Serves lease g e r.1 × HasDatabase lease g r.1)
  unfolding database_for
  database_for-Serves e s = elim s.phase [
    | unserved absent last some_ready ↦ take_database e s absent last some_ready
    | served entry here last ↦ (
      (entry.database.database_name, e),
      ground arith,
      ((s, SameBooks-refl e), (entry, here, last)),
    )
  ]

  serve_reply-Serves :
      (reply : Consumer) (queued_at : Instant) (e : WorkerEngine)
      → Service lease g e
      → Returns (serve_reply env lease reply queued_at e) (Serves lease g e)
  unfolding serve_reply
  serve_reply-Serves reply queued_at e s = elim (Bool-cases (timed_out? env e.config queued_at)) [
    | inl late ↦ rw late (
      _,
      refl,
      (
        record {
          owned = s.owned;
          orderly = s.orderly;
          alone = s.alone;
          is_open = s.is_open;
          room = s.room;
          phase = s.phase;
        },
        SameBooks-refl e,
      ),
    )
    | inr there ↦ rw there (
        Returns-bind (Serves lease g e) (database_for lease e) _ (database_for-Serves e s) λ r p.
          let (e'', done, (s'', same'')) = tell r.0 reply r.1 p.0.0 p.1 in
          (e'', done, (s'', SameBooks-trans e r.1 e'' p.0.1 same'')))
  ]

  pub serve_replies-Serves :
      (replies : List (Consumer × Instant)) (e : WorkerEngine)
      → Service lease g e
      → Returns (serve_replies env lease replies e) (Serves lease g e)
  unfolding serve_replies
  serve_replies-Serves [] e s = (e, refl, (s, SameBooks-refl e))
  serve_replies-Serves ((reply, queued_at) ∷ replies) e s =
      Returns-bind (Serves lease g e) (serve_reply env lease reply queued_at e) _
        (serve_reply-Serves reply queued_at e s)
        λ e' p.
          let (e'', done, (s'', same'')) = serve_replies-Serves replies e' p.0 in
          (e'', done, (s'', SameBooks-trans e e' e'' p.1 same''))
