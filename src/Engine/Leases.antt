-- ===== src/Engine/Leases.antt =====
-- core.rs: admitting a lease, giving it a database, answering its consumers, taking the database back
-- when nobody was told of it. `none` is a panic.
use pg_test.Base.Map.{get, insert, remove, present}
use pg_test.Base.{
  ℕ, ◌+◌, ◌-◌, ◌%◌, ◌^◌, Bool, true, false, Option, none, some, ◌>>=◌, Result, ok, err, ltb, leb,
  ◌==◌, if◌then◌else◌, length,
}
use pg_test.Engine.State.{
  Consumer, ConsumerReply, Environment, LeaseEntry, LeaseStatus, ReleaseError, WorkerEngine,
  attached, cancelled, failed_to_attach, opened, perform, send, timer_set,
}
use pg_test.Inventory.{Database, checked_add, return_ready}
use pg_test.LeaseId.{LeaseId, lease_key}
use pg_test.ReadString.{ReadString}

unfoldable pub admit_lease : LeaseId → WorkerEngine → Result LeaseStatus ReleaseError × WorkerEngine
admit_lease lease e = elim (get lease e.lease_records) [
  | some status ↦ (ok status, e)
  | none ↦
      if leb e.config.max_lease_records (length e.lease_records)
      then (err ReleaseError.lease_record_limit_reached, e)
      else (ok opened, record e { lease_records = insert lease opened e.lease_records })
]

abbrev pub set_entry : LeaseId → LeaseEntry → WorkerEngine → WorkerEngine
set_entry lease entry e = record e { leases = insert lease entry e.leases }

-- `u16::checked_add(1)`
abbrev pub checked_incr_u16 : ℕ → Option ℕ
checked_incr_u16 n = if ltb (n + 1) (2 ^ 16) then some (n + 1) else none

abbrev pub attached_reply : ReadString → LeaseEntry → ConsumerReply
attached_reply name entry = attached name entry.generation entry.cancellation

unfoldable pub reply_attached :
    Environment → LeaseId → ReadString → Consumer → WorkerEngine → Option WorkerEngine
reply_attached env lease name reply e = do
  entry ← get lease e.leases
  elim (checked_incr_u16 entry.conns) [
    | none ↦ some (send reply failed_to_attach e)
    | some conns ↦
        let counted = record entry { conns = conns } in
        let e' = send reply (attached_reply name entry) (set_entry lease counted e) in
        some (
          if env.delivers reply (attached_reply name entry)
          then e'
          else set_entry lease (record counted { conns = conns - 1 }) e')
  ]

unfoldable pub restore_unclaimed_database : LeaseId → WorkerEngine → Option (Bool × WorkerEngine)
restore_unclaimed_database lease e = elim (get lease e.leases) [
  | none ↦ some (false, e)
  | some entry ↦
      if entry.conns == 0
      then (do
        inventory ← return_ready e.inventory entry.database
        some (
          true,
          perform (cancelled entry.cancellation)
              (record e { leases = remove lease e.leases; inventory = inventory }),
        ))
      else some (false, e)
]

-- The delay of the timer is the timeout cast to `u32`.
abbrev pub schedule_expiration : LeaseId → ℕ → WorkerEngine → WorkerEngine
schedule_expiration lease generation e =
    if ltb 0 e.config.lease_claim_timeout_ms
    then perform (timer_set lease generation (e.config.lease_claim_timeout_ms % 2 ^ 32) generation)
        e
    else e

abbrev pub fresh_entry : Database → ℕ → LeaseEntry
fresh_entry database generation = record {
  database = database;
  conns = 0;
  generation = generation;
  cancellation = generation;
}

unfoldable pub assign_database :
    LeaseId → Database → WorkerEngine → Option (ReadString × WorkerEngine)
assign_database lease database e = if present (get lease e.leases) then none else (do
  generation ← checked_add e.next_generation 1
  let entry = fresh_entry database generation
  some (
    database.database_name,
    schedule_expiration lease generation
        (set_entry lease entry (record e { next_generation = generation })),
  ))
