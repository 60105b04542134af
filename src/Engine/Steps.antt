-- ===== src/Engine/Steps.antt =====
-- The three steps that a served consumer goes through: its lease gets a database, it is told, and the
-- database goes back if nobody was told. None of them panics, and each keeps the books.
use pg_test.Base.Map.{Map, get, get-insert, insert, remove}
use pg_test.Base.{
  ℕ, ◌+◌, ◌-◌, ◌<◌, ◌≤◌, ◌≡◌, ◌^◌, refl, Bool, true, false, inl, inr, Option, none, some, List, ◌∷◌,
  arith, Bool-cases, Option-cases, ltb, ◌==◌,
}
use pg_test.Engine.Custody.{
  Owned-insert, Owned-remove, Owned-return, Owned-update, in_hand, in_hand_absent,
}
use pg_test.Engine.Invariant.{Orderly, Owned, empty_hand}
use pg_test.Engine.Leases.{
  assign_database, attached_reply, fresh_entry, reply_attached, restore_unclaimed_database,
  schedule_expiration,
}
use pg_test.Engine.Order.{Orderly-insert, Orderly-remove}
use pg_test.Engine.State.{
  Consumer, Effect, Environment, LeaseEntry, WorkerEngine, cancelled, failed_to_attach, opened,
  replied,
}
use pg_test.Inventory.Moves.{return_ready_lem}
use pg_test.Inventory.{Database, DatabaseId, u64_bound}
use pg_test.LeaseId.{LeaseId, lease_key}
use pg_test.ReadString.{ReadString}

abbrev pub BooksOf : WorkerEngine → Map LeaseId LeaseEntry → ℕ → Type 0
BooksOf e leases n = Orderly leases e.lease_records n e.waiters e.group_waiters

pub record Replied (hand : DatabaseId → ℕ) (lease : LeaseId) (entry : LeaseEntry) (e : WorkerEngine)
    (result : Option WorkerEngine) : Type 0 where
  pub leases : Map LeaseId LeaseEntry
  pub effects : List Effect
  pub conns : ℕ
  pub no_panic : result ≡ some (record e { leases = leases; effects = effects })
  pub owned : Owned hand leases e.inventory
  pub orderly : BooksOf e leases e.next_generation
  pub now : get lease leases ≡ some (record entry { conns = conns })

module _ (hand : DatabaseId → ℕ) (lease : LeaseId) (entry : LeaseEntry) (e : WorkerEngine)
    (o : Owned hand e.leases e.inventory) (b : BooksOf e e.leases e.next_generation)
    (here : get lease e.leases ≡ some entry) where
  -- A lease with a database is open, and waits for nothing.
  pub leased_facts :
      (get lease e.group_waiters ≡ none)
      × (get lease e.lease_records ≡ some opened)
      × (entry.generation ≤ e.next_generation)
  leased_facts = (
    ground (arith, b.waiting lease),
    ground (arith, b.leased_open lease),
    b.generations lease entry here,
  )

  recount :
      (leases : Map LeaseId LeaseEntry) (before : LeaseEntry) (conns : ℕ)
      → Owned hand leases e.inventory
      → BooksOf e leases e.next_generation
      → get lease leases ≡ some before
      → before.database ≡ entry.database
      → Owned hand (insert lease (record entry { conns = conns }) leases) e.inventory
        × BooksOf e (insert lease (record entry { conns = conns }) leases) e.next_generation
  recount leases before conns o' b' g d = (
    Owned-update leases e.inventory hand lease before (record entry { conns = conns }) o' g
        (ground arith),
    Orderly-insert leases e.lease_records e.next_generation e.waiters e.group_waiters b' lease
        (record entry { conns = conns }) e.next_generation leased_facts.0 leased_facts.1
        leased_facts.2 (omega arith),
  )

  pub reply_attached-Replied :
      (env : Environment) (name : ReadString) (reply : Consumer)
      → Replied hand lease entry e (reply_attached env lease name reply e)
  unfolding reply_attached
  reply_attached-Replied env name reply =
      let message = attached_reply name entry in
      let (counted_owned, counted_orderly) =
        recount e.leases entry (entry.conns + 1) o b here refl in
      let counted = insert lease (record entry { conns = entry.conns + 1 }) e.leases in
      let counted_now =
        get-insert lease lease (record entry { conns = entry.conns + 1 }) e.leases in
      let (back_owned, back_orderly) =
        recount counted (record entry { conns = entry.conns + 1 }) (entry.conns + 1 - 1)
          counted_owned counted_orderly (ground (arith, counted_now)) refl in
      elim (Bool-cases (ltb (entry.conns + 1) (2 ^ 16))) [
        | inr full ↦ record {
          leases = e.leases;
          effects = replied reply failed_to_attach ∷ e.effects;
          conns = entry.conns;
          no_panic = ground arith;
          owned = o;
          orderly = b;
          now = here;
        }
        | inl room ↦ elim (Bool-cases (env.delivers reply message)) [
          | inl told ↦ record {
            leases = counted;
            effects = replied reply message ∷ e.effects;
            conns = entry.conns + 1;
            no_panic = ground arith;
            owned = counted_owned;
            orderly = counted_orderly;
            now = ground (arith, counted_now);
          }
          | inr lost ↦ record {
            leases = insert lease (record entry { conns = entry.conns + 1 - 1 }) counted;
            effects = replied reply message ∷ e.effects;
            conns = entry.conns + 1 - 1;
            no_panic = ground arith;
            owned = back_owned;
            orderly = back_orderly;
            now = ground (
              arith,
              get-insert lease lease (record entry { conns = entry.conns + 1 - 1 }) counted,
            );
          }
        ]
      ]

-- The next generation, for a lease that has no database and waits for none.
pub record Assigned (lease : LeaseId) (d : Database) (e : WorkerEngine)
    (result : Option (ReadString × WorkerEngine)) : Type 0 where
  pub effects : List Effect
  pub no_panic :
      result
      ≡ some (
        d.database_name,
        record e {
          leases = insert lease (fresh_entry d (e.next_generation + 1)) e.leases;
          next_generation = e.next_generation + 1;
          effects = effects;
        },
      )
  pub owned :
      Owned empty_hand (insert lease (fresh_entry d (e.next_generation + 1)) e.leases) e.inventory
  pub orderly :
      BooksOf e
        (insert lease (fresh_entry d (e.next_generation + 1)) e.leases)
        (e.next_generation + 1)

module _ (lease : LeaseId) (d : Database) (e : WorkerEngine)
    (o : Owned (in_hand d) e.leases e.inventory) (b : BooksOf e e.leases e.next_generation) where
  pub assign_database-Assigned :
      get lease e.leases ≡ none
      → get lease e.group_waiters ≡ none
      → get lease e.lease_records ≡ some opened
      → e.next_generation + 1 < u64_bound
      → Assigned lease d e (assign_database lease d e)
  unfolding assign_database
  assign_database-Assigned a g r room = record {
    effects = (schedule_expiration lease (e.next_generation + 1) e).effects;
    no_panic = ground arith;
    owned = Owned-insert e.leases e.inventory lease (fresh_entry d (e.next_generation + 1)) o a;
    orderly =
        Orderly-insert e.leases e.lease_records e.next_generation e.waiters e.group_waiters b lease
          (fresh_entry d (e.next_generation + 1)) (e.next_generation + 1) g r (omega arith)
          (omega arith);
  }

-- Either nothing changes, or the lease's database is the first of the ready ones again.
pub data Restored (lease : LeaseId) (e : WorkerEngine) : Option (Bool × WorkerEngine) → Type 0 where
  claimed :
      {result : Option (Bool × WorkerEngine)} → result ≡ some (false, e) → Restored lease e result
  restored :
      {result : Option (Bool × WorkerEngine)} (d : Database) (effects : List Effect)
      → result
        ≡ some (
          true,
          record e {
            leases = remove lease e.leases;
            inventory = record e.inventory { ready = d ∷ e.inventory.ready };
            effects = effects;
          },
        )
      → Owned empty_hand
          (remove lease e.leases)
          (record e.inventory { ready = d ∷ e.inventory.ready })
      → BooksOf e (remove lease e.leases) e.next_generation
      → Restored lease e result

pub restore-Restored :
    (lease : LeaseId) (e : WorkerEngine)
    → Owned empty_hand e.leases e.inventory
    → BooksOf e e.leases e.next_generation
    → Restored lease e (restore_unclaimed_database lease e)
unfolding restore_unclaimed_database
restore-Restored lease e o b = elim (Option-cases (get lease e.leases)) [
  | inl absent ↦ claimed (ground arith)
  | inr (entry, here) ↦ elim (Bool-cases (entry.conns == 0)) [
    | inr some_conns ↦ claimed (ground arith)
    | inl unclaimed ↦
        let taken = Owned-remove e.leases e.inventory lease entry o (b.single lease) here in
        let free = in_hand_absent (remove lease e.leases) e.inventory entry.database taken in
        restored entry.database (cancelled entry.cancellation ∷ e.effects)
          (ground (arith, return_ready_lem e.inventory entry.database free))
          (Owned-return (remove lease e.leases) e.inventory entry.database taken)
          (Orderly-remove e.leases e.lease_records e.next_generation e.waiters e.group_waiters b
            lease)
  ]
]
