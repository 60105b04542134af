-- ===== src/Engine/Records.antt =====
-- Which steps leave the records of the leases alone: all but admitting and closing a lease.
use pg_test.Base.Map.{get, present, remove}
use pg_test.Base.{
  ℕ, ◌≡◌, refl, ◌∙◌, List, [], ◌∷◌, arith, Option, none, some, ◌>>=◌, Option-cases, inl, inr,
  Bool-cases, List-cases, if◌then◌else◌,
}
use pg_test.Engine.Dispatch.{
  database_for, dispatch_lease, is_closed, dispatch_queue, dispatch_waiters, reject_all,
  serve_group, serve_replies, serve_reply,
}
use pg_test.Engine.Growth.{timed_out?, grow, grow_by, retire_lease, submit_creation}
use pg_test.Engine.Leases.{assign_database, reply_attached, restore_unclaimed_database}
use pg_test.Engine.State.{Consumer, Environment, Instant, WorkerEngine}
use pg_test.Inventory.{CreateDatabases, Database}
use pg_test.LeaseId.{LeaseId, lease_key}
use pg_test.ReadString.{ReadString}

-- The records and the configuration are the same.
abbrev pub Keeps : WorkerEngine → WorkerEngine → Type 0
Keeps e e' = (e'.lease_records ≡ e.lease_records) × (e'.config ≡ e.config)

abbrev pub KeepsOption : WorkerEngine → Option WorkerEngine → Type 0
KeepsOption e none = Unit {0}
KeepsOption e (some e') = Keeps e e'

abbrev pub KeepsPair {ℓ} : {A : Type ℓ} → WorkerEngine → Option (A × WorkerEngine) → Type 0
KeepsPair e none = Unit {0}
KeepsPair e (some r) = Keeps e r.1

pub reply_attached-Keeps :
    (env : Environment) (lease : LeaseId) (name : ReadString) (reply : Consumer) (e : WorkerEngine)
    → KeepsOption e (reply_attached env lease name reply e)
unfolding reply_attached
reply_attached-Keeps env lease name reply e = ground arith

pub restore-Keeps :
    (lease : LeaseId) (e : WorkerEngine) → KeepsPair e (restore_unclaimed_database lease e)
unfolding restore_unclaimed_database
restore-Keeps lease e = ground arith

pub assign_database-Keeps :
    (lease : LeaseId) (d : Database) (e : WorkerEngine) → KeepsPair e (assign_database lease d e)
unfolding assign_database
assign_database-Keeps lease d e = ground arith

submit_creation-Keeps :
    (env : Environment) (request : CreateDatabases) (n : ℕ) (e : WorkerEngine)
    → KeepsOption e (submit_creation env request n e)
unfolding submit_creation
submit_creation-Keeps env request n e = ground arith

pub grow-Keeps : (env : Environment) (e : WorkerEngine) → KeepsOption e (grow env e)
unfolding grow grow_by submit_creation
grow-Keeps env e = ground arith

pub retire_lease-Keeps :
    (env : Environment) (lease : LeaseId) (e : WorkerEngine)
    → KeepsOption e (retire_lease env lease e)
unfolding retire_lease grow grow_by submit_creation
retire_lease-Keeps env lease e = ground arith

database_for-Keeps : (lease : LeaseId) (e : WorkerEngine) → KeepsPair e (database_for lease e)
unfolding database_for assign_database
database_for-Keeps lease e = ground arith

pub Keeps-after :
    (e e₁ : WorkerEngine) (m : Option WorkerEngine)
    → Keeps e e₁
    → KeepsOption e₁ m
    → KeepsOption e m
Keeps-after e e₁ none k h = tt
Keeps-after e e₁ (some e₂) k h = (h.0 ∙ k.0, h.1 ∙ k.1)

pub Keeps-bind :
    (e : WorkerEngine) (m : Option WorkerEngine) (f : WorkerEngine → Option WorkerEngine)
    → KeepsOption e m
    → ((e' : WorkerEngine) → KeepsOption e' (f e'))
    → KeepsOption e (m >>= f)
Keeps-bind e none f k h = tt
Keeps-bind e (some e₁) f k h = Keeps-after e e₁ (f e₁) k (h e₁)

pub Keeps-bind_pair {ℓ} :
    {A : Type ℓ} (e : WorkerEngine) (m : Option (A × WorkerEngine))
    (f : A × WorkerEngine → Option WorkerEngine)
    → KeepsPair e m
    → ((r : A × WorkerEngine) → KeepsOption r.1 (f r))
    → KeepsOption e (m >>= f)
Keeps-bind_pair e none f k h = tt
Keeps-bind_pair e (some r) f k h = Keeps-after e r.1 (f r) k (h r)

serve_reply-Keeps :
    (env : Environment) (lease : LeaseId) (reply : Consumer) (queued_at : Instant)
    (e : WorkerEngine)
    → KeepsOption e (serve_reply env lease reply queued_at e)
unfolding serve_reply
serve_reply-Keeps env lease reply queued_at e =
    elim (Bool-cases (timed_out? env e.config queued_at)) [
      | inl late ↦ rw late (refl, refl)
      | inr there ↦ rw there (
          Keeps-bind_pair e (database_for lease e) _ (database_for-Keeps lease e)
            λ r. reply_attached-Keeps env lease r.0 reply r.1)
    ]

serve_replies-Keeps :
    (env : Environment) (lease : LeaseId) (replies : List (Consumer × Instant)) (e : WorkerEngine)
    → KeepsOption e (serve_replies env lease replies e)
unfolding serve_replies
serve_replies-Keeps env lease [] e = (refl, refl)
serve_replies-Keeps env lease ((reply, queued_at) ∷ replies) e =
    Keeps-bind e (serve_reply env lease reply queued_at e) _
      (serve_reply-Keeps env lease reply queued_at e) (serve_replies-Keeps env lease replies)

pub reject_all-Keeps :
    (replies : List (Consumer × Instant)) (e : WorkerEngine) → Keeps e (reject_all replies e)
unfolding reject_all
reject_all-Keeps [] e = (refl, refl)
reject_all-Keeps ((reply, queued_at) ∷ replies) e = reject_all-Keeps replies _

dispatch_lease-Keeps :
    (env : Environment) (lease : LeaseId) (e : WorkerEngine)
    → KeepsOption e (dispatch_lease env lease e)
unfolding dispatch_lease serve_group
dispatch_lease-Keeps env lease e = elim (Option-cases (get lease e.group_waiters)) [
  | inl nobody ↦ ground arith
  | inr (replies, here) ↦
      let e₁ = record e { group_waiters = remove lease e.group_waiters } in
      elim (Bool-cases (is_closed (get lease e.lease_records))) [
        | inl over ↦ ground (arith, reject_all-Keeps replies e₁)
        | inr alive ↦
            let served =
              Keeps-bind e₁ (serve_replies env lease replies e₁)
                (λ e'.
                  if present (get lease e₁.leases)
                  then some e'
                  else (restore_unclaimed_database lease e' >>= λ r. some r.1))
                (serve_replies-Keeps env lease replies e₁)
                (λ e'. ground (arith, restore-Keeps lease e')) in
            ground (arith, served)
      ]
]

dispatch_queue-Keeps :
    (env : Environment) (q : List LeaseId) (e : WorkerEngine)
    → KeepsOption e (dispatch_queue env q e)
unfolding dispatch_queue
dispatch_queue-Keeps env [] e = (refl, refl)
dispatch_queue-Keeps env (lease ∷ rest) e = elim (List-cases e.inventory.ready) [
  | inl empty ↦ ground arith
  | inr (d, ds, some_ready) ↦
      let e₁ = record e { waiters = rest } in
      let round =
        Keeps-bind e₁ (dispatch_lease env lease e₁) (dispatch_queue env rest)
          (dispatch_lease-Keeps env lease e₁) (dispatch_queue-Keeps env rest) in
      ground (arith, round)
]

pub dispatch_waiters-Keeps :
    (env : Environment) (e : WorkerEngine) → KeepsOption e (dispatch_waiters env e)
unfolding dispatch_waiters
dispatch_waiters-Keeps env e = dispatch_queue-Keeps env e.waiters e
