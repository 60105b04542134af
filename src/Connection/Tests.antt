-- ===== src/Connection/Tests.antt =====
-- Connections at concrete inputs.
use pg_test.Base.Map.{Map, get}
use pg_test.Base.{ℕ, ◌≡◌, ◌≢◌, refl, true, false, none, some, [], ◌∷◌, ok, arith, count, ℕ_discrete}
use pg_test.Connection.Routes.{handle_connection-relayed, parse_connection_field-append}
use pg_test.Connection.{
  ReadString-discrete, Surroundings, attach_session, connect_session, contains_slash,
  database_field, handle_connection, open_session, parse_connection_field, pgtest, replication,
  route_database, split_once, string_key,
}
use pg_test.Inventory.{id_key}
use pg_test.LeaseId.{LeaseId, contains_forbidden, is_empty, new}
use pg_test.ReadString.{ReadString}

abbrev lease : LeaseId
lease = record { value = b'l' ∷ [] }

-- Every session is number 5.
abbrev open_world : Surroundings ℕ
open_world = record {
  negotiates = true;
  authentication_sent = true;
  attach = λ d l. ok 5;
  is_cancelled = λ s. false;
  connects = λ s. true;
}

abbrev params : Map ReadString ReadString
params = (database_field, b't' ∷ b'/' ∷ b'l' ∷ []) ∷ []

parse_connection_field-append_example :
    parse_connection_field (b't' ∷ b'/' ∷ b'l' ∷ []) ≡ ok (b't' ∷ [], lease)
unfolding count ℕ_discrete new is_empty contains_forbidden
parse_connection_field-append_example =
    parse_connection_field-append (b't' ∷ []) (b'l' ∷ []) lease (omega arith) refl refl

handle_connection-relayed_example :
    (get replication params ≡ none)
    × ((field : ReadString) × (database : ReadString) × (l : LeaseId) × (get database_field params
          ≡ some field)
        × (field ≢ pgtest)
        × (parse_connection_field field ≡ ok (database, l))
        × (open_world.attach database l ≡ ok 5)
        × (open_world.is_cancelled 5 ≡ false))
unfolding handle_connection route_database open_session attach_session connect_session
    parse_connection_field split_once contains_slash new is_empty contains_forbidden get
    ReadString-discrete ℕ_discrete
handle_connection-relayed_example = handle_connection-relayed open_world params 5 refl
