-- ===== src/ControlPanel/Protocol/Releases.antt =====
-- What a command of the control panel asks the worker manager for.
use pg_test.Base.{
  ℕ, ◌≡◌, ◌⊎◌, refl, Option, List, [], ◌∷◌, Result, ok, err, arith, inl, inr, ap, ◌∙◌, length, ◌==◌,
  true,
}
use pg_test.ControlPanel.Protocol.{
  PgWireError, Portal, Response, bind_statement, check_argument, execute_statement, extended_query,
  invalid_parameter_value, parameter_count, parse_lease_id, ping_row, release_error,
  release_response, release_resolved, resolve_lease_id, simple_query, simple_statement, text,
  unsupported_command, user_error,
}
use pg_test.ControlPanel.Statement.Literals.{parse-release_text, release_text}
use pg_test.ControlPanel.Statement.{
  InvalidControlQuery, PgTestQueryTypeControlStatement, ping, release,
}
use pg_test.Engine.State.{ReleaseError}
use pg_test.LeaseId.{InvalidLeaseId, LeaseId, new}
use pg_test.ReadString.{ReadString}

pub Result-cases :
    {A B : Type 0} (r : Result A B) → ((a : A) × (r ≡ ok a)) ⊎ ((e : B) × (r ≡ err e))
Result-cases (ok a) = inl (a, refl)
Result-cases (err e) = inr (e, refl)

module _ (read_parameter : Portal → ℕ → Result (Option ReadString) PgWireError)
    (release_lease : LeaseId → Result (Unit {0}) ReleaseError) where
  -- What the release command does for a string in the place of the lease.
  abbrev pub released_or_refused :
      Result LeaseId InvalidLeaseId → List LeaseId × Result Response PgWireError
  released_or_refused (ok id) = (id ∷ [], release_response read_parameter release_lease id text)
  released_or_refused (err e) = ([], err (user_error invalid_parameter_value))

  release_resolved-new :
      (lease : ReadString) (r : Result LeaseId InvalidLeaseId)
      → new lease ≡ r
      → release_resolved read_parameter release_lease (parse_lease_id lease) text
        ≡ released_or_refused r
  unfolding parse_lease_id release_error
  release_resolved-new lease (ok id) h = rw (h, parse_lease_id) refl
  release_resolved-new lease (err e) h = rw (h, parse_lease_id) refl

  -- How a simple query goes on after it is parsed.
  abbrev answer :
      Result PgTestQueryTypeControlStatement InvalidControlQuery
      → List LeaseId × Result Response PgWireError
  answer parsed = elim parsed [
    | ok statement ↦ simple_statement read_parameter release_lease statement
    | err e ↦ ([], err unsupported_command)
  ]

  -- The simple query that releases a string asks the worker manager for the release of exactly that
  -- lease, if the string is a lease identifier, and answers as the manager does. If it is none, the
  -- answer is the error 22023 and nothing is asked.
  pub simple_query-release_text :
      (lease : ReadString)
      → simple_query read_parameter release_lease (release_text lease)
        ≡ released_or_refused (new lease)
  unfolding simple_query simple_statement
  simple_query-release_text lease =
      ap answer (parse-release_text lease) ∙ release_resolved-new lease (new lease) refl

  module _
      (try_new : List (Option ReadString)
        → PgTestQueryTypeControlStatement
        → Result Portal PgWireError)
      (made : (ps : List (Option ReadString)) (st : PgTestQueryTypeControlStatement) (p : Portal)
        → try_new ps st ≡ ok p
        → (p.statement ≡ st) × (p.parameters ≡ ps)) where
    -- A bound portal has the parameters that its statement expects, and its lease can be told.
    bind_statement-checked :
        (parameter_codes result_codes : List ℕ) (ps : List (Option ReadString))
        (st : PgTestQueryTypeControlStatement) (portal : Portal)
        → bind_statement read_parameter release_lease try_new parameter_codes result_codes ps st
          ≡ ok portal
        → (portal.statement ≡ st)
          × (length portal.parameters == parameter_count portal.statement ≡ true)
          × (check_argument read_parameter release_lease st portal ≡ ok tt)
    unfolding bind_statement
    bind_statement-checked parameter_codes result_codes ps st portal h =
        elim (Result-cases (try_new ps st)) [
          | inl (p, bound) ↦ ground (arith, h, made ps st p bound)
          | inr (e, failed) ↦ absurd (ground (arith, h))
        ]

    -- If a portal could be bound, executing it does not fail on its arguments: it answers a ping, or
    -- asks the worker manager for exactly one release and answers as the manager does. The wire
    -- library's portal carries the parameters of the message and the statement.
    pub bind_statement-executes :
        (parameter_codes result_codes : List ℕ) (ps : List (Option ReadString))
        (st : PgTestQueryTypeControlStatement) (portal : Portal)
        → bind_statement read_parameter release_lease try_new parameter_codes result_codes ps st
          ≡ ok portal
        → ((st ≡ ping)
            × (extended_query read_parameter release_lease portal
                ≡ ([], ok (ping_row portal.format))))
          ⊎ ((lease : LeaseId) × (extended_query read_parameter release_lease portal
                ≡ (lease ∷ [], release_response read_parameter release_lease lease portal.format)))
    unfolding extended_query execute_statement check_argument
    bind_statement-executes parameter_codes result_codes ps ping portal h =
        let (same, counted, checked) =
          bind_statement-checked parameter_codes result_codes ps ping portal h in
        inl (refl, ground (arith, same, counted))
    bind_statement-executes parameter_codes result_codes ps (release argument) portal h =
        let (same, counted, checked) =
          bind_statement-checked parameter_codes result_codes ps (release argument) portal h in
        elim (Result-cases (resolve_lease_id read_parameter release_lease argument portal)) [
          | inl (lease, told) ↦ inr (lease, ground (arith, same, counted, told))
          | inr (e, untold) ↦ absurd (ground (arith, checked, untold))
        ]
