-- ===== src/Engine/Stale.antt =====
-- Messages about a database that a lease does not have any more, and consumers that come and go.
use pg_test.Base.Map.{get, get-insert}
use pg_test.Base.{
  ℕ, ◌+◌, ◌≤◌, ◌<◌, ◌≡◌, refl, ◌∷◌, true, some, arith, Bool-cases, Returns, ◌⊎◌, ◌↔◌, false, inl,
  inr, ltb,
}
use pg_test.Engine.Handlers.{handle_detach, handle_max_time}
use pg_test.Engine.Leases.{
  assign_database, attached_reply, fresh_entry, reply_attached, schedule_expiration, set_entry,
}
use pg_test.Engine.State.{
  Consumer, Environment, LeaseEntry, WorkerEngine, attached, failed_to_attach, replied, perform,
  send, timer_set,
}
use pg_test.Inventory.{Database}
use pg_test.LeaseId.{LeaseId, lease_key}
use pg_test.ReadString.{ReadString}

-- A lease that gets a database did not have one, and its entry is new.
assign_database-entry :
    (lease : LeaseId) (database : Database) (name : ReadString) (e e' : WorkerEngine)
    → assign_database lease database e ≡ some (name, e')
    → get lease e'.leases ≡ some (fresh_entry database (e.next_generation + 1))
unfolding assign_database
assign_database-entry lease database name e e' h =
    let g = e.next_generation + 1 in
    let here = get-insert lease lease (fresh_entry database g) e.leases in
    elim (Bool-cases (ltb 0 e.config.lease_claim_timeout_ms)) [
      | inl timed ↦ ground (arith, here)
      | inr untimed ↦ ground (arith, here)
    ]

-- After a lease is given a database, a detach or a timer of any generation that was given out before
-- changes nothing.
pub assign_database-stale :
    (env : Environment) (lease : LeaseId) (database : Database) (old : ℕ) (name : ReadString)
    (e e' : WorkerEngine)
    → assign_database lease database e ≡ some (name, e')
    → old ≤ e.next_generation
    → (handle_detach lease old e' ≡ e') × (handle_max_time env lease old e' ≡ some e')
unfolding assign_database handle_detach handle_max_time
assign_database-stale env lease database old name e e' h bound =
    ground (arith, assign_database-entry lease database name e e' h)

-- A consumer that is counted in and then detaches leaves the entry of its lease as it was. The number
-- of consumers fits in a `u16` with it, and its reply is delivered.
pub reply_attached-detach :
    (env : Environment) (lease : LeaseId) (name : ReadString) (reply : Consumer)
    (entry : LeaseEntry) (e : WorkerEngine)
    → get lease e.leases ≡ some entry
    → entry.conns < 65535
    → env.delivers reply (attached_reply name (record entry { conns = entry.conns + 1 })) ≡ true
    → Returns (reply_attached env lease name reply e) (λ e'.
      (get lease e'.leases ≡ some (record entry { conns = entry.conns + 1 }))
      × (get lease (handle_detach lease entry.generation e').leases ≡ some entry))
unfolding reply_attached handle_detach
reply_attached-detach env lease name reply entry e here room delivered =
    let more = record entry { conns = entry.conns + 1 } in
    let counted = get-insert lease lease more e.leases in
    let e' = send reply (attached_reply name more) (set_entry lease more e) in
    let again = get-insert lease lease entry e'.leases in
    (e', ground arith, (ground (arith, counted), ground (arith, counted, again)))

-- A consumer for whom there is room is sent the entry's generation and token, and nothing else is sent.
pub reply_attached-sends :
    (env : Environment) (lease : LeaseId) (name : ReadString) (reply : Consumer)
    (entry : LeaseEntry) (e e' : WorkerEngine)
    → get lease e.leases ≡ some entry
    → entry.conns < 65535
    → reply_attached env lease name reply e ≡ some e'
    → e'.effects ≡ replied reply (attached name entry.generation entry.cancellation) ∷ e.effects
unfolding reply_attached
reply_attached-sends env lease name reply entry e e' here room h =
    elim (Bool-cases (env.delivers reply (attached name entry.generation entry.cancellation))) [
      | inl there ↦ ground arith
      | inr lost ↦ ground arith
    ]

-- A consumer for whom the count has no room is sent that the attach failed, and one whose reply is not
-- delivered was sent the entry's generation and token. Nothing else is sent, and either leaves the
-- entry of the lease as it was.
pub reply_attached-fails :
    (env : Environment) (lease : LeaseId) (name : ReadString) (reply : Consumer)
    (entry : LeaseEntry) (e : WorkerEngine)
    → get lease e.leases ≡ some entry
    → ((entry.conns ≡ 65535)
        ⊎ ((entry.conns < 65535)
            × (env.delivers reply (attached name entry.generation entry.cancellation) ≡ false)))
    → Returns (reply_attached env lease name reply e) (λ e'.
      (get lease e'.leases ≡ some entry)
      × (((entry.conns ≡ 65535) × (e'.effects ≡ replied reply failed_to_attach ∷ e.effects))
          ⊎ ((entry.conns < 65535)
              × (e'.effects
                  ≡ replied reply (attached name entry.generation entry.cancellation)
                    ∷ e.effects))))
unfolding reply_attached
reply_attached-fails env lease name reply entry e here (inl full) =
    (send reply failed_to_attach e, ground arith, (here, inl (full, refl)))
reply_attached-fails env lease name reply entry e here (inr (room, lost)) =
    let more = record entry { conns = entry.conns + 1 } in
    let told = send reply (attached_reply name more) (set_entry lease more e) in
    (
      set_entry lease entry told,
      ground arith,
      (ground (arith, get-insert lease lease entry told.leases), inr (room, refl)),
    )

-- With a timeout, the timer of a lease is set to the configured timeout exactly if the timeout is
-- below 2^32 milliseconds.
pub schedule_expiration-delay :
    (lease : LeaseId) (generation : ℕ) (e : WorkerEngine)
    → 0 < e.config.lease_claim_timeout_ms
    → (schedule_expiration lease generation e
        ≡ perform (timer_set lease generation e.config.lease_claim_timeout_ms generation) e)
      ↔ (e.config.lease_claim_timeout_ms < 4294967296)
schedule_expiration-delay lease generation e some_time =
    (λ same_delay. ground arith, λ small. ground arith)
