-- ===== src/Engine/Ledger.antt =====
-- The records of the leases against an abstract ledger, which has a status for each lease and the
-- number of leases that it knows: what each message does to it is a function of the message alone.
pub mod Laws
use pg_test.Base.Set.{set_remove}
use pg_test.Base.Map.{get, get-insert, insert, length-insert, missing, present, remove}
use pg_test.Base.{
  ℕ, ◌≤◌, ◌<◌, ◌≡◌, ◌+◌, refl, ◌∙◌, arith, ite, List, [], ◌∷◌, Option, none, some, Bool, true,
  false, leb, ltb, length, subst, sym, if◌then◌else◌,
}
use pg_test.Engine.Dispatch.{reject_all}
use pg_test.Engine.Growth.{retire_lease}
use pg_test.Engine.Handlers.{close_lease, is_shutdown, waiting_replies}
use pg_test.Engine.Records.{KeepsOption, reject_all-Keeps, retire_lease-Keeps}
use pg_test.Engine.State.{
  EngineMessage, Environment, LeaseStatus, WorkerEngine, attach_or_join_msg, closed, opened,
  release_lease_msg, database_worker, detach, lease_max_time_reached, shutdown,
}
use pg_test.LeaseId.{LeaseId, lease_key}

pub record Ledger : Type 0 where
  pub status : LeaseId → Option LeaseStatus
  pub size : ℕ

abbrev pub empty_ledger : Ledger
empty_ledger = record { status = λ lease. none; size = 0 }

abbrev pub write : LeaseId → LeaseStatus → ℕ → Ledger → Ledger
write lease status new l = record {
  status = λ other. ite (lease_key.same? lease other) (some status) (l.status other);
  size = l.size + new;
}

abbrev admit_if : Option LeaseStatus → Bool → LeaseId → Ledger → Ledger
admit_if none true lease l = write lease opened 1 l
admit_if none false lease l = l
admit_if (some status) room lease l = l

-- An unknown lease is opened while there is room.
unfoldable pub admit : ℕ → LeaseId → Ledger → Ledger
admit capacity lease l = admit_if (l.status lease) (ltb l.size capacity) lease l

abbrev close_if : Option LeaseStatus → LeaseId → Ledger → Ledger
close_if none lease l = l
close_if (some opened) lease l = write lease closed 0 l
close_if (some closed) lease l = l

-- An open lease is closed, for good.
unfoldable pub close : LeaseId → Ledger → Ledger
close lease l = close_if (l.status lease) lease l

-- Only an attach and a release reach the ledger.
unfoldable pub ledger_step : ℕ → EngineMessage → Ledger → Ledger
ledger_step capacity (attach_or_join_msg lease reply queued_at) l = admit capacity lease l
ledger_step capacity (release_lease_msg lease reply) l = close lease (admit capacity lease l)
ledger_step capacity (detach lease generation) l = l
ledger_step capacity (lease_max_time_reached lease generation) l = l
ledger_step capacity (database_worker message) l = l
ledger_step capacity shutdown l = l

-- The messages in their order, up to a shutdown.
unfoldable pub ledger_run : ℕ → List (Environment × EngineMessage) → Ledger → Ledger
ledger_run capacity [] l = l
ledger_run capacity ((env, message) ∷ messages) l =
    let rest = ledger_run capacity messages (ledger_step capacity message l) in
    if is_shutdown message then ledger_step capacity message l else rest

-- The engine's records are what the ledger says.
abbrev pub Matches : ℕ → Ledger → WorkerEngine → Type 0
Matches capacity l e =
    ((lease : LeaseId) → get lease e.lease_records ≡ l.status lease)
    × (length e.lease_records ≡ l.size)
    × (e.config.max_lease_records ≡ capacity)

abbrev pub MatchesOption : ℕ → Ledger → Option WorkerEngine → Type 0
MatchesOption capacity l none = Unit {0}
MatchesOption capacity l (some e) = Matches capacity l e
