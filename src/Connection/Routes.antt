-- ===== src/Connection/Routes.antt =====
-- Which connections reach a session, and which database fields name a lease.
use pg_test.Base.Map.{Map, get}
use pg_test.Base.{
  ◌≤◌, ◌≡◌, ◌≢◌, refl, false, none, some, [], ◌∷◌, ◌++◌, ok, arith, length, count, Bool-cases,
  Option-cases, inl, inr, ◌==◌,
}
use pg_test.Connection.{
  ReadString-discrete, Surroundings, attach_session, connect_session, contains_slash,
  database_field, handle_connection, open_session, parse_connection_field, pgtest, relayed,
  replication, route_database, split_once, string_key,
}
use pg_test.ControlPanel.Protocol.Releases.{Result-cases}
use pg_test.Inventory.{id_key}
use pg_test.LeaseId.{LeaseId, is_empty, new}
use pg_test.LeaseId.Validity.{new-accepts}
use pg_test.ReadString.{ReadString}

split_once-append :
    (database lease : ReadString)
    → count b'/' database ≡ 0
    → split_once (database ++ b'/' ∷ lease) ≡ some (database, lease)
unfolding split_once count
split_once-append [] lease h = refl
split_once-append (b ∷ database) lease h =
    ground (arith, h, split_once-append database lease (ground (arith, h)))

-- A split is the input, cut at its first slash.
split_once-whole :
    (input database lease : ReadString)
    → split_once input ≡ some (database, lease)
    → (input ≡ database ++ b'/' ∷ lease) × (count b'/' database ≡ 0)
unfolding split_once count
split_once-whole [] database lease h = cc
split_once-whole (b ∷ input) database lease h = elim (Bool-cases (b == b'/')) [
  | inl slash ↦ ground (arith, h)
  | inr plain ↦ elim (Option-cases (split_once input)) [
    | inl nowhere ↦ absurd (ground (arith, h))
    | inr (r, found) ↦ ground (arith, h, split_once-whole input r.0 r.1 found)
  ]
]

contains_slash-count : (s : ReadString) → count b'/' s ≡ 0 → contains_slash s ≡ false
unfolding contains_slash count
contains_slash-count [] h = refl
contains_slash-count (b ∷ s) h = ground (arith, contains_slash-count s (omega arith))

-- A template's name without a slash, a slash and a lease identifier are read back as the two.
pub parse_connection_field-append :
    (database value : ReadString) (lease : LeaseId)
    → 1 ≤ length database
    → count b'/' database ≡ 0
    → new value ≡ ok lease
    → parse_connection_field (database ++ b'/' ∷ value) ≡ ok (database, lease)
unfolding parse_connection_field is_empty
parse_connection_field-append [] value lease filled slashless accepted =
    absurd (omega (arith, filled))
parse_connection_field-append (b ∷ database) value lease filled slashless accepted =
    let (whole, low, high, clean, nul) = (new-accepts value lease).0 accepted in
    let slashless_value = contains_slash-count value clean in
    let split = split_once-append (b ∷ database) value slashless in
    ground (arith, split, slashless_value, accepted)

module _ {Session : Type 0} (world : Surroundings Session) (session : Session) where
  connect_session-relayed :
      (s : Session)
      → connect_session world s ≡ relayed session
      → (s ≡ session) × (world.is_cancelled session ≡ false)
  unfolding connect_session
  connect_session-relayed s h = elim (Bool-cases (world.is_cancelled s)) [
    | inl closed ↦ absurd (ground (arith, h, closed))
    | inr going ↦ ground (arith, h, going)
  ]

  attach_session-relayed :
      (database : ReadString) (lease : LeaseId)
      → attach_session world database lease ≡ relayed session
      → (world.attach database lease ≡ ok session) × (world.is_cancelled session ≡ false)
  unfolding attach_session
  attach_session-relayed database lease h = elim (Result-cases (world.attach database lease)) [
    | inl (s, attached) ↦ ground (arith, h, attached, connect_session-relayed s)
    | inr (e, failed) ↦ absurd (ground (arith, h, failed))
  ]

  open_session-relayed :
      (field : ReadString)
      → open_session world field ≡ relayed session
      → (database : ReadString) × (lease : LeaseId) × (parse_connection_field field
          ≡ ok (database, lease))
        × (world.attach database lease ≡ ok session)
        × (world.is_cancelled session ≡ false)
  unfolding open_session
  open_session-relayed field h = elim (Result-cases (parse_connection_field field)) [
    | inl (r, parsed) ↦
        let (attached, going) = attach_session-relayed r.0 r.1 (ground (arith, h, parsed)) in
        (r.0, r.1, parsed, attached, going)
    | inr (e, failed) ↦ absurd (ground (arith, h, failed))
  ]

  route_database-relayed :
      (field : ReadString)
      → route_database world field ≡ relayed session
      → (field ≢ pgtest) × (open_session world field ≡ relayed session)
  unfolding route_database
  route_database-relayed field h = elim (ReadString-discrete field pgtest) [
    | yes same ↦ absurd (ground (arith, h, same))
    | no other ↦ (other, ground (arith, h, other))
  ]

  field_of :
      (params : Map ReadString ReadString)
      → handle_connection world params ≡ relayed session
      → (get replication params ≡ none)
        × ((field : ReadString) × (get database_field params ≡ some field)
            × (route_database world field ≡ relayed session))
  unfolding handle_connection
  field_of params h = elim (Option-cases (get replication params)) [
    | inr (v, asked) ↦ absurd (ground (arith, h, asked))
    | inl unasked ↦ elim (Option-cases (get database_field params)) [
      | inl absent ↦ absurd (ground (arith, h, unasked, absent))
      | inr (field, here) ↦ (unasked, (field, here, ground (arith, h, unasked, here)))
    ]
  ]

-- A connection is relayed to a database only if it asks for no replication, its database field is not
-- the control panel's and names a template and a lease, the worker manager attached it to that lease
-- of that template, and the lease was not closed meanwhile.
pub handle_connection-relayed :
    {Session : Type 0} (world : Surroundings Session) (params : Map ReadString ReadString)
    (session : Session)
    → handle_connection world params ≡ relayed session
    → (get replication params ≡ none)
      × ((field : ReadString) × (database : ReadString) × (lease : LeaseId) × (get database_field
              params
            ≡ some field)
          × (field ≢ pgtest)
          × (parse_connection_field field ≡ ok (database, lease))
          × (world.attach database lease ≡ ok session)
          × (world.is_cancelled session ≡ false))
handle_connection-relayed world params session h =
    let (unasked, (field, here, routed)) = field_of world session params h in
    let (other, opened) = route_database-relayed world session field routed in
    let (database, lease, parsed, attached, going) =
      open_session-relayed world session field opened in
    (unasked, (field, database, lease, here, other, parsed, attached, going))
