-- ===== src/ControlPanel/Protocol.antt =====
-- crates/pgtest-wire/src/control_panel/protocol.rs, and the codes of response.rs: the two query
-- handlers of the control panel. The wire library and the worker manager are parameters: how a bound
-- parameter is read, and what a release answers. A handler returns the leases whose release it asked
-- for, and its response. Of an error the code is kept, not the message; the encoding of a response is
-- the wire library's.
pub mod Releases
pub mod Tests
use pg_test.Base.{
  ℕ, Bool, true, false, ◌&&◌, ◌||◌, not, Option, none, some, List, [], ◌∷◌, Result, ok, err, ltb,
  ◌==◌, if◌then◌else◌, length,
}
use pg_test.ControlPanel.Statement.{
  LeaseArgument, PgTestQueryTypeControlStatement, literal, parameter, parse, ping, release,
}
use pg_test.Engine.State.{ReleaseError, engine_unavailable, reply_timed_out, unexpected_reply}
use pg_test.LeaseId.{LeaseId, new}
use pg_test.ReadString.{ReadString}

-- The codes of SQL that the control panel uses, by the names that PostgreSQL gives them.
pub data SqlState : Type 0 where
  invalid_parameter_value : SqlState  -- 22023
  null_value_not_allowed : SqlState  -- 22004
  protocol_violation : SqlState  -- 08P01
  undefined_parameter : SqlState  -- 42P02
  datatype_mismatch : SqlState  -- 42804
  feature_not_supported : SqlState  -- 0A000
  configuration_limit_exceeded : SqlState  -- 53400
  connection_failure : SqlState  -- 08006
  query_canceled : SqlState  -- 57014
  internal_error : SqlState  -- XX000
  object_not_in_prerequisite_state : SqlState  -- 55000
  invalid_catalog_name : SqlState  -- 3D000

pub data PgWireError : Type 0 where
  user_error : SqlState → PgWireError
  statement_not_found : ReadString → PgWireError
  wire_error : ℕ → PgWireError

pub data FieldFormat : Type 0 where
  text : FieldFormat
  binary : FieldFormat

pub data Response : Type 0 where
  ping_row : FieldFormat → Response
  released_row : FieldFormat → Response

abbrev pub unsupported_command : PgWireError
unsupported_command = user_error feature_not_supported

unfoldable pub release_error : ReleaseError → PgWireError
release_error ReleaseError.invalid_lease_id = user_error invalid_parameter_value
release_error ReleaseError.lease_record_limit_reached = user_error configuration_limit_exceeded
release_error engine_unavailable = user_error connection_failure
release_error reply_timed_out = user_error query_canceled
release_error unexpected_reply = user_error internal_error

abbrev pub and_then {ℓ κ} :
    {A : Type ℓ} {B : Type κ}
    → Result A PgWireError
    → (A → Result B PgWireError)
    → Result B PgWireError
and_then (ok a) f = f a
and_then (err e) f = err e

unfoldable pub parse_lease_id : ReadString → Result LeaseId PgWireError
parse_lease_id lease = elim (new lease) [
  | ok id ↦ ok id
  | err e ↦ err (release_error ReleaseError.invalid_lease_id)
]

unfoldable pub validate_format_codes : List ℕ → Result (Unit {0}) PgWireError
validate_format_codes [] = ok tt
validate_format_codes (code ∷ []) =
    if not (code == 0) && not (code == 1) then err (user_error protocol_violation) else ok tt
validate_format_codes (code ∷ c ∷ codes) = err (user_error protocol_violation)

-- `get_parameter_types(…).len()`
unfoldable pub parameter_count : PgTestQueryTypeControlStatement → ℕ
parameter_count (release (parameter index)) = 1
parameter_count (release (literal lease)) = 0
parameter_count ping = 0

-- What the handlers read of a portal. The parameters are `none` for NULL.
pub record Portal : Type 0 where
  pub statement : PgTestQueryTypeControlStatement
  pub parameters : List (Option ReadString)
  pub format : FieldFormat

module _ (read_parameter : Portal → ℕ → Result (Option ReadString) PgWireError)
    (release_lease : LeaseId → Result (Unit {0}) ReleaseError) where
  unfoldable pub resolve_lease_id : LeaseArgument → Portal → Result LeaseId PgWireError
  resolve_lease_id (literal lease) portal = parse_lease_id lease
  resolve_lease_id (parameter index) portal = and_then (read_parameter portal index) λ value.
      elim value [
        | none ↦ err (user_error null_value_not_allowed)
        | some lease ↦ parse_lease_id lease
      ]

  -- `PgTestControlPanel::release`
  unfoldable pub release_response : LeaseId → FieldFormat → Result Response PgWireError
  release_response lease format = elim (release_lease lease) [
    | ok u ↦ ok (released_row format)
    | err e ↦ err (release_error e)
  ]

  -- Asks for a release, if the lease could be told.
  abbrev pub release_resolved :
      Result LeaseId PgWireError → FieldFormat → List LeaseId × Result Response PgWireError
  release_resolved (ok lease) format = (lease ∷ [], release_response lease format)
  release_resolved (err e) format = ([], err e)

  unfoldable pub simple_statement :
      PgTestQueryTypeControlStatement → List LeaseId × Result Response PgWireError
  simple_statement ping = ([], ok (ping_row text))
  simple_statement (release (literal lease)) = release_resolved (parse_lease_id lease) text
  simple_statement (release (parameter index)) = ([], err (user_error undefined_parameter))

  -- `SimpleQueryHandler::do_query`
  unfoldable pub simple_query : ReadString → List LeaseId × Result Response PgWireError
  simple_query query = elim (parse query) [
    | ok statement ↦ simple_statement statement
    | err e ↦ ([], err unsupported_command)
  ]

  unfoldable pub execute_statement :
      PgTestQueryTypeControlStatement → Portal → List LeaseId × Result Response PgWireError
  execute_statement ping portal = ([], ok (ping_row portal.format))
  execute_statement (release argument) portal =
      release_resolved (resolve_lease_id argument portal) portal.format

  -- `ExtendedQueryHandler::do_query`
  unfoldable pub extended_query : Portal → List LeaseId × Result Response PgWireError
  extended_query portal =
      if length portal.parameters == parameter_count portal.statement
      then execute_statement portal.statement portal
      else ([], err (user_error protocol_violation))

  -- The check of the lease when a portal is bound.
  unfoldable pub check_argument :
      PgTestQueryTypeControlStatement → Portal → Result (Unit {0}) PgWireError
  check_argument ping portal = ok tt
  check_argument (release argument) portal =
      and_then (resolve_lease_id argument portal) λ lease. ok tt

  -- `on_bind`, for a statement that is stored and not empty: `try_new` is the wire library's, and
  -- makes the portal of the message and the statement. The portal is what is stored.
  unfoldable pub bind_statement :
      (List (Option ReadString) → PgTestQueryTypeControlStatement → Result Portal PgWireError)
      → List ℕ
      → List ℕ
      → List (Option ReadString)
      → PgTestQueryTypeControlStatement
      → Result Portal PgWireError
  bind_statement try_new parameter_codes result_codes parameters statement =
      and_then (validate_format_codes parameter_codes) λ u.
        and_then (validate_format_codes result_codes) λ v.
          if length parameters == parameter_count statement
          then (and_then (try_new parameters statement)
              λ portal. and_then (check_argument statement portal) λ w. ok portal)
          else err (user_error protocol_violation)
