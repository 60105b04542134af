-- ===== src/Engine/Ledger/Laws.antt =====
-- How the ledger changes with the engine's records: an admission, the closing of a lease, and the steps
-- that leave the records alone.
use pg_test.Base.Set.{set_remove}
use pg_test.Base.Map.{get, get-insert, insert, length-insert, remove}
use pg_test.Base.{
  ℕ, ◌≤◌, ◌<◌, ◌≡◌, ◌+◌, refl, ◌∙◌, arith, List, [], ◌∷◌, Option, none, some, false, leb, length,
  subst, sym,
}
use pg_test.Engine.Dispatch.{reject_all}
use pg_test.Engine.Growth.{retire_lease}
use pg_test.Engine.Handlers.{close_lease, waiting_replies}
use pg_test.Engine.Records.{KeepsOption, reject_all-Keeps, retire_lease-Keeps}
use pg_test.Engine.State.{
  EngineMessage, Environment, LeaseStatus, WorkerEngine, attach_or_join_msg, closed, opened,
  release_lease_msg, database_worker, detach, lease_max_time_reached, shutdown,
}
use pg_test.LeaseId.{LeaseId, lease_key}
use pg_test.Engine.Ledger.{
  Ledger, Matches, MatchesOption, admit, close, ledger_run, ledger_step, write,
}

pub Keeps-Matches :
    (capacity : ℕ) (l : Ledger) (e : WorkerEngine) (m : Option WorkerEngine)
    → Matches capacity l e
    → KeepsOption e m
    → MatchesOption capacity l m
Keeps-Matches capacity l e none known k = tt
Keeps-Matches capacity l e (some e') (statuses, size, config) (records, same) = (
  λ lease. subst (λ m. get lease m ≡ l.status lease) (sym records) (statuses lease),
  subst (λ m. length m ≡ l.size) (sym records) size,
  subst (λ c. c.max_lease_records ≡ capacity) (sym same) config,
)

pub admit-known :
    (capacity : ℕ) (lease : LeaseId) (l : Ledger) (status : LeaseStatus)
    → l.status lease ≡ some status
    → admit capacity lease l ≡ l
unfolding admit
admit-known capacity lease l status known = rw (known, admit) refl

pub admit-full :
    (capacity : ℕ) (lease : LeaseId) (l : Ledger) → capacity ≤ l.size → admit capacity lease l ≡ l
unfolding admit
admit-full capacity lease l full = ground (arith, full)

pub admit-room :
    (capacity : ℕ) (lease : LeaseId) (l : Ledger)
    → l.status lease ≡ none
    → l.size < capacity
    → admit capacity lease l ≡ write lease opened 1 l
unfolding admit
admit-room capacity lease l unknown room = ground (arith, unknown, room)

pub close-open :
    (lease : LeaseId) (l : Ledger)
    → l.status lease ≡ some opened
    → close lease l ≡ write lease closed 0 l
unfolding close
close-open lease l known = rw (known, close) refl

pub close-closed : (lease : LeaseId) (l : Ledger) → l.status lease ≡ some closed → close lease l ≡ l
unfolding close
close-closed lease l known = rw (known, close) refl

pub close-unknown : (lease : LeaseId) (l : Ledger) → l.status lease ≡ none → close lease l ≡ l
unfolding close
close-unknown lease l unknown = rw (unknown, close) refl

-- A record that is written is written in the ledger.
write-Matches :
    (capacity : ℕ) (lease : LeaseId) (status : LeaseStatus) (new : ℕ) (l : Ledger)
    (e : WorkerEngine)
    → Matches capacity l e
    → length (insert lease status e.lease_records) ≡ length e.lease_records + new
    → Matches capacity
        (write lease status new l)
        (record e { lease_records = insert lease status e.lease_records })
write-Matches capacity lease status new l e (statuses, size, config) longer = (
  λ other. rw (get-insert other lease status e.lease_records, statuses other) refl,
  omega (arith, size, longer),
  config,
)

-- An unknown lease, where there is room.
pub admitted-Matches :
    (capacity : ℕ) (lease : LeaseId) (l : Ledger) (e : WorkerEngine)
    → Matches capacity l e
    → get lease e.lease_records ≡ none
    → leb e.config.max_lease_records (length e.lease_records) ≡ false
    → Matches capacity
        (admit capacity lease l)
        (record e { lease_records = insert lease opened e.lease_records })
admitted-Matches capacity lease l e known unknown room =
    let admitted =
      admit-room capacity lease l (sym (known.0 lease) ∙ unknown)
        (ground (arith, room, known.1, known.2)) in
    subst
      (λ l'. Matches capacity l' (record e { lease_records = insert lease opened e.lease_records }))
      (sym admitted)
      (write-Matches capacity lease opened 1 l e known
        (ground (arith, length-insert lease opened e.lease_records, unknown)))

pub close_lease-Matches :
    (env : Environment) (capacity : ℕ) (lease : LeaseId) (l : Ledger) (e : WorkerEngine)
    → Matches capacity l e
    → get lease e.lease_records ≡ some opened
    → MatchesOption capacity (close lease l) (close_lease env lease e)
unfolding close_lease
close_lease-Matches env capacity lease l e known open_now =
    let books = record e {
      lease_records = insert lease closed e.lease_records;
      group_waiters = remove lease e.group_waiters;
    } in
    let rejected = reject_all (waiting_replies (get lease e.group_waiters)) books in
    let same = reject_all-Keeps (waiting_replies (get lease e.group_waiters)) books in
    let before = record rejected { waiters = set_remove lease rejected.waiters } in
    let recorded : Matches capacity (close lease l) books =
      subst (λ l'. Matches capacity l' books)
        (sym (close-open lease l (sym (known.0 lease) ∙ open_now)))
        (write-Matches capacity lease closed 0 l e known
          (ground (arith, length-insert lease closed e.lease_records, open_now))) in
    Keeps-Matches capacity (close lease l) before (retire_lease env lease before)
      (Keeps-Matches capacity (close lease l) books (some before) recorded same)
      (retire_lease-Keeps env lease before)

-- The ledger never knows more leases than it has room for.
step-room :
    (capacity : ℕ) (message : EngineMessage) (l : Ledger)
    → l.size ≤ capacity
    → (ledger_step capacity message l).size ≤ capacity
unfolding ledger_step admit close
step-room capacity (attach_or_join_msg lease reply queued_at) l h = ground (arith, h)
step-room capacity (release_lease_msg lease reply) l h = ground (arith, h)
step-room capacity (detach lease generation) l h = h
step-room capacity (lease_max_time_reached lease generation) l h = h
step-room capacity (database_worker message) l h = h
step-room capacity shutdown l h = h

pub run-room :
    (capacity : ℕ) (messages : List (Environment × EngineMessage)) (l : Ledger)
    → l.size ≤ capacity
    → (ledger_run capacity messages l).size ≤ capacity
unfolding ledger_run
run-room capacity [] l h = h
run-room capacity ((env, message) ∷ messages) l h =
    let first = step-room capacity message l h in
    ground (arith, first, run-room capacity messages (ledger_step capacity message l) first)
