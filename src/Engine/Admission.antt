-- ===== src/Engine/Admission.antt =====
-- An attach and a release against the ledger: whether the lease is known, and whether there is room
-- for it.
use pg_test.Base.Map.{get, get-insert, insert}
use pg_test.Base.{
  ◌∙◌, subst, sym, ℕ, ◌≡◌, refl, arith, Option, none, some, ◌>>=◌, Option-cases, Bool-cases, inl,
  inr, Result, ok, err, true, false, leb, length,
}
use pg_test.Engine.Handlers.{
  attach_opened, attach_or_join, close_lease, handle_message, release_lease,
}
use pg_test.Engine.Leases.{admit_lease}
use pg_test.Engine.Records.{KeepsOption}
use pg_test.Engine.Release.{attach_opened-Keeps}
use pg_test.Engine.State.{
  ReleaseError, release_result, send, Consumer, Environment, Instant, LeaseStatus, WorkerEngine,
  closed, opened, release_lease_msg,
}
use pg_test.LeaseId.{LeaseId, lease_key}
use pg_test.Engine.Ledger.{Ledger, Matches, MatchesOption, admit, close}
use pg_test.Engine.Ledger.Laws.{
  Keeps-Matches, admit-full, admit-known, admitted-Matches, close-closed, close-unknown,
  close_lease-Matches,
}

admit_lease-known :
    (lease : LeaseId) (e : WorkerEngine) (status : LeaseStatus)
    → get lease e.lease_records ≡ some status
    → admit_lease lease e ≡ (ok status, e)
unfolding admit_lease
admit_lease-known lease e status known = rw (known, admit_lease) refl

admit_lease-full :
    (lease : LeaseId) (e : WorkerEngine)
    → get lease e.lease_records ≡ none
    → leb e.config.max_lease_records (length e.lease_records) ≡ true
    → admit_lease lease e ≡ (err ReleaseError.lease_record_limit_reached, e)
unfolding admit_lease
admit_lease-full lease e unknown full = rw (unknown, full, admit_lease) refl

admit_lease-room :
    (lease : LeaseId) (e : WorkerEngine)
    → get lease e.lease_records ≡ none
    → leb e.config.max_lease_records (length e.lease_records) ≡ false
    → admit_lease lease e
      ≡ (ok opened, record e { lease_records = insert lease opened e.lease_records })
unfolding admit_lease
admit_lease-room lease e unknown room = rw (unknown, room, admit_lease) refl

-- A result that keeps the records, where the ledger's step changes nothing.
unchanged-Matches :
    (capacity : ℕ) (l l' : Ledger) (e : WorkerEngine) (m : Option WorkerEngine)
    → Matches capacity l e
    → l' ≡ l
    → KeepsOption e m
    → MatchesOption capacity l' m
unchanged-Matches capacity l l' e m known same kept =
    subst (λ n. MatchesOption capacity n m) (sym same) (Keeps-Matches capacity l e m known kept)

-- Where the engine has no room, the ledger has none.
full-admit :
    (capacity : ℕ) (lease : LeaseId) (l : Ledger) (e : WorkerEngine)
    → Matches capacity l e
    → leb e.config.max_lease_records (length e.lease_records) ≡ true
    → admit capacity lease l ≡ l
full-admit capacity lease l e (statuses, size, config) full =
    admit-full capacity lease l (ground (arith, size, config, full))

pub attach_or_join-Matches :
    (env : Environment) (capacity : ℕ) (lease : LeaseId) (reply : Consumer) (queued_at : Instant)
    (l : Ledger) (e : WorkerEngine)
    → Matches capacity l e
    → MatchesOption capacity (admit capacity lease l) (attach_or_join env lease reply queued_at e)
unfolding attach_or_join
attach_or_join-Matches env capacity lease reply queued_at l e known =
    let new = record e { lease_records = insert lease opened e.lease_records } in
    elim (Option-cases (get lease e.lease_records)) [
      | inr (opened, found) ↦
          rw (admit_lease-known lease e opened found, attach_or_join)
            (rw (admit_lease-known lease e opened found) (
              unchanged-Matches capacity l (admit capacity lease l) e
                (attach_opened env lease reply queued_at e) known
                (admit-known capacity lease l opened (sym (known.0 lease) ∙ found))
                (attach_opened-Keeps env lease reply queued_at e)))
      | inr (closed, found) ↦
          rw (admit_lease-known lease e closed found, attach_or_join)
            (rw (admit_lease-known lease e closed found) (
              subst (λ n. Matches capacity n e)
                (sym (admit-known capacity lease l closed (sym (known.0 lease) ∙ found))) known))
      | inl unknown ↦ elim (Bool-cases (leb e.config.max_lease_records (length e.lease_records))) [
        | inl full ↦
            rw (admit_lease-full lease e unknown full, attach_or_join)
              (rw (admit_lease-full lease e unknown full) (
                subst (λ n. Matches capacity n e) (sym (full-admit capacity lease l e known full))
                  known))
        | inr room ↦
            rw (admit_lease-room lease e unknown room, attach_or_join)
              (rw (admit_lease-room lease e unknown room) (
                Keeps-Matches capacity (admit capacity lease l) new
                  (attach_opened env lease reply queued_at new)
                  (admitted-Matches capacity lease l e known unknown room)
                  (attach_opened-Keeps env lease reply queued_at new)))
      ]
    ]

abbrev acknowledged : WorkerEngine → Result (Unit {0}) ReleaseError × WorkerEngine
acknowledged e = (ok tt, e)

acknowledged-Matches :
    (capacity : ℕ) (l : Ledger) (reply : Consumer) (m : Option WorkerEngine)
    → MatchesOption capacity l m
    → MatchesOption capacity l
        ((m >>= λ e'. some (acknowledged e')) >>= λ r. some (send reply (release_result r.0) r.1))
acknowledged-Matches capacity l reply none r = tt
acknowledged-Matches capacity l reply (some e') r = r

-- A lease that has been released already, and one that there is no room for, stay as they are.
refused-Matches :
    (capacity : ℕ) (lease : LeaseId) (l : Ledger) (e : WorkerEngine)
    → Matches capacity l e
    → admit capacity lease l ≡ l
    → close lease l ≡ l
    → Matches capacity (close lease (admit capacity lease l)) e
refused-Matches capacity lease l e known same untouched =
    subst (λ n. Matches capacity (close lease n) e) (sym same)
      (subst (λ n. Matches capacity n e) (sym untouched) known)

pub release_lease-Matches :
    (env : Environment) (capacity : ℕ) (lease : LeaseId) (reply : Consumer) (l : Ledger)
    (e : WorkerEngine)
    → Matches capacity l e
    → MatchesOption capacity
        (close lease (admit capacity lease l))
        (handle_message env (release_lease_msg lease reply) e)
unfolding handle_message release_lease
release_lease-Matches env capacity lease reply l e known =
    let new = record e { lease_records = insert lease opened e.lease_records } in
    elim (Option-cases (get lease e.lease_records)) [
      | inr (opened, found) ↦
          rw (admit_lease-known lease e opened found, handle_message, release_lease)
            (rw (admit_lease-known lease e opened found) (
              acknowledged-Matches capacity (close lease (admit capacity lease l)) reply
                (close_lease env lease e)
                (subst (λ n. MatchesOption capacity (close lease n) (close_lease env lease e))
                  (sym (admit-known capacity lease l opened (sym (known.0 lease) ∙ found)))
                  (close_lease-Matches env capacity lease l e known found))))
      | inr (closed, found) ↦
          rw (admit_lease-known lease e closed found, handle_message, release_lease)
            (rw (admit_lease-known lease e closed found) (
              refused-Matches capacity lease l e known
                (admit-known capacity lease l closed (sym (known.0 lease) ∙ found))
                (close-closed lease l (sym (known.0 lease) ∙ found))))
      | inl unknown ↦ elim (Bool-cases (leb e.config.max_lease_records (length e.lease_records))) [
        | inl full ↦
            rw (admit_lease-full lease e unknown full, handle_message, release_lease)
              (rw (admit_lease-full lease e unknown full) (
                refused-Matches capacity lease l e known (full-admit capacity lease l e known full)
                  (close-unknown lease l (sym (known.0 lease) ∙ unknown))))
        | inr room ↦
            rw (admit_lease-room lease e unknown room, handle_message, release_lease)
              (rw (admit_lease-room lease e unknown room) (
                acknowledged-Matches capacity (close lease (admit capacity lease l)) reply
                  (close_lease env lease new)
                  (close_lease-Matches env capacity lease (admit capacity lease l) new
                    (admitted-Matches capacity lease l e known unknown room)
                    (ground (arith, get-insert lease lease opened e.lease_records)))))
      ]
    ]
