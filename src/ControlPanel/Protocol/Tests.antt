-- ===== src/ControlPanel/Protocol/Tests.antt =====
-- The control panel's handlers at concrete inputs.
use pg_test.Base.{ℕ, arith, ◌≡◌, ◌⊎◌, refl, Option, some, List, [], ◌∷◌, Result, ok, err}
use pg_test.ControlPanel.Protocol.Releases.{
  bind_statement-executes, released_or_refused, simple_query-release_text,
}
use pg_test.ControlPanel.Protocol.{
  PgWireError, Portal, bind_statement, binary, check_argument, extended_query, parameter_count,
  parse_lease_id, ping_row, release_response, resolve_lease_id, simple_query, validate_format_codes,
  wire_error,
}
use pg_test.ControlPanel.Statement.Literals.{release_text}
use pg_test.ControlPanel.Statement.{PgTestQueryTypeControlStatement, parameter, ping, release}
use pg_test.Engine.State.{ReleaseError}
use pg_test.LeaseId.{LeaseId, contains_forbidden, is_empty, new}
use pg_test.ReadString.{ReadString}

-- The first of the parameters, and an error where there is none.
abbrev first_parameter : Portal → ℕ → Result (Option ReadString) PgWireError
first_parameter portal index = elim portal.parameters [
  | [] ↦ err (wire_error 0)
  | value ∷ others ↦ ok value
]

abbrev always : LeaseId → Result (Unit {0}) ReleaseError
always lease = ok tt

abbrev in_binary :
    List (Option ReadString) → PgTestQueryTypeControlStatement → Result Portal PgWireError
in_binary ps st = ok (record { statement = st; parameters = ps; format = binary })

abbrev a_name : ReadString
a_name = b'a' ∷ []

simple_query-release_text_example :
    simple_query first_parameter always (release_text a_name)
    ≡ released_or_refused first_parameter always (new a_name)
simple_query-release_text_example = simple_query-release_text first_parameter always a_name

abbrev bound : Portal
bound = record { statement = release (parameter 0); parameters = some a_name ∷ []; format = binary }

bind_statement-executes_example :
    ((release (parameter 0) ≡ ping)
      × (extended_query first_parameter always bound ≡ ([], ok (ping_row binary))))
    ⊎ ((lease : LeaseId) × (extended_query first_parameter always bound
          ≡ (lease ∷ [], release_response first_parameter always lease binary)))
unfolding bind_statement validate_format_codes parameter_count check_argument resolve_lease_id
    parse_lease_id new is_empty contains_forbidden
bind_statement-executes_example =
    bind_statement-executes first_parameter always in_binary
      (λ ps st p h. (ground (arith, h), ground (arith, h))) (0 ∷ []) (1 ∷ []) (some a_name ∷ [])
      (release (parameter 0)) bound refl
