-- ===== src/Connection.antt =====
-- crates/pgtest-wire/src/connection.rs: how a client connection is routed by its startup parameters,
-- and the database field of the connection, by UTF-8 bytes.
pub mod Routes
pub mod Tests
use pg_test.Base.Map.{Map, get, present}
use pg_test.Base.{
  ℕ, Bool, true, false, ◌||◌, Option, none, some, ◌>>=◌, List, [], ◌∷◌, Result, ok, err, ◌==◌,
  if◌then◌else◌, ℕ_discrete, Key,
}
use pg_test.ControlPanel.Protocol.{
  SqlState, configuration_limit_exceeded, connection_failure, feature_not_supported,
  invalid_catalog_name, invalid_parameter_value, object_not_in_prerequisite_state,
}
use pg_test.Engine.State.{AttachError, lease_closed, template_mismatch}
use pg_test.LeaseId.{InvalidLeaseId, LeaseId, is_empty, new}
use pg_test.ReadString.{ReadString}

pub data ConnectionFieldError : Type 0 where
  invalid_format : ConnectionFieldError
  invalid_lease : InvalidLeaseId → ConnectionFieldError

-- `split_once('/')`
unfoldable pub split_once : ReadString → Option (ReadString × ReadString)
split_once [] = none
split_once (b ∷ s) =
    let rest = split_once s in
    if b == b'/' then some ([], s) else (rest >>= λ r. some (b ∷ r.0, r.1))

-- `contains('/')`
unfoldable pub contains_slash : ReadString → Bool
contains_slash [] = false
contains_slash (b ∷ s) = b == b'/' || contains_slash s

abbrev pub with_lease :
    ReadString → Result LeaseId InvalidLeaseId → Result (ReadString × LeaseId) ConnectionFieldError
with_lease database (ok lease) = ok (database, lease)
with_lease database (err e) = err (invalid_lease e)

abbrev pub checked_field :
    ReadString × ReadString → Result (ReadString × LeaseId) ConnectionFieldError
checked_field (database, lease) =
    if is_empty database || contains_slash lease
    then err invalid_format
    else with_lease database (new lease)

unfoldable pub parse_connection_field :
    ReadString → Result (ReadString × LeaseId) ConnectionFieldError
parse_connection_field input = elim (split_once input) [
  | none ↦ err invalid_format
  | some parts ↦ checked_field parts
]

unfoldable pub ReadString-discrete : Discrete ReadString
ReadString-discrete = hlevel ℕ_discrete

instance abbrev pub string_key : Key ReadString
string_key = record { same? = ReadString-discrete }

-- What the connection meets on its way: the protocol of the client, the worker manager, the
-- cancellation of the lease while the upstream is being connected, and the upstream.
pub record Surroundings (Session : Type 0) : Type 0 where
  pub negotiates : Bool
  pub authentication_sent : Bool
  pub attach : ReadString → LeaseId → Result Session AttachError
  pub is_cancelled : Session → Bool
  pub connects : Session → Bool

-- How the handling of a connection ends.
pub data Ending (Session : Type 0) : Type 0 where
  rejected : SqlState → Ending Session
  abandoned : Ending Session
  control_panel : Ending Session
  relayed : Session → Ending Session

unfoldable pub attach_code : AttachError → SqlState
attach_code AttachError.invalid_lease_id = invalid_parameter_value
attach_code AttachError.lease_record_limit_reached = configuration_limit_exceeded
attach_code lease_closed = object_not_in_prerequisite_state
attach_code template_mismatch = invalid_catalog_name
attach_code _ = connection_failure

abbrev pub replication : ReadString
replication = b'r' ∷ b'e' ∷ b'p' ∷ b'l' ∷ b'i' ∷ b'c' ∷ b'a' ∷ b't' ∷ b'i' ∷ b'o' ∷ b'n' ∷ []

abbrev pub database_field : ReadString
database_field = b'd' ∷ b'a' ∷ b't' ∷ b'a' ∷ b'b' ∷ b'a' ∷ b's' ∷ b'e' ∷ []

abbrev pub pgtest : ReadString
pgtest = b'p' ∷ b'g' ∷ b't' ∷ b'e' ∷ b's' ∷ b't' ∷ []

module _ {Session : Type 0} (world : Surroundings Session) where
  -- The lease has been attached.
  unfoldable pub connect_session : Session → Ending Session
  connect_session session =
      if world.is_cancelled session
      then rejected object_not_in_prerequisite_state
      else if world.connects session
      then relayed session
      else rejected connection_failure

  unfoldable pub attach_session : ReadString → LeaseId → Ending Session
  attach_session database lease = elim (world.attach database lease) [
    | ok session ↦ connect_session session
    | err error ↦ rejected (attach_code error)
  ]

  unfoldable pub open_session : ReadString → Ending Session
  open_session database = elim (parse_connection_field database) [
    | ok (database_name, lease_id) ↦ attach_session database_name lease_id
    | err e ↦ rejected invalid_parameter_value
  ]

  unfoldable pub route_database : ReadString → Ending Session
  route_database database = elim (ReadString-discrete database pgtest) [
    | yes same ↦ control_panel
    | no other ↦
        if world.negotiates
        then if world.authentication_sent then open_session database else abandoned
        else abandoned
  ]

  -- `handle_connection`, once the startup message has arrived.
  unfoldable pub handle_connection : Map ReadString ReadString → Ending Session
  handle_connection params =
      if present (get replication params)
      then rejected feature_not_supported
      else (elim (get database_field params) [
        | none ↦ rejected invalid_catalog_name
        | some database ↦ route_database database
      ])
