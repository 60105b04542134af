-- ===== src/Engine/Startup.antt =====
-- core.rs: `try_init`, which creates the first databases before the loop runs. The database client is
-- outside of the engine: it calls back with the index of a creation and its outcome, and `outcomes`
-- are these calls in their order. `none` is a panic.
use pg_test.Base.{ℕ, Option, none, some, ◌>>=◌, List, [], ◌∷◌, Result, ok, err}
use pg_test.Engine.State.{WorkerEngine}
use pg_test.Inventory.{
  CreateDatabases, DatabaseInventory, PostgresDdlClientError, complete_creation, nth_database_id,
  reserve_creations,
}
use pg_test.ReadString.{ReadString}

abbrev pub Outcome : Type 0
Outcome = ℕ × Result ReadString PostgresDdlClientError

-- `first_error.get_or_insert(error)`, where the creation has failed.
unfoldable pub keep_first :
    Option PostgresDdlClientError
    → Result (Unit {0}) PostgresDdlClientError
    → Option PostgresDdlClientError
keep_first (some first) outcome = some first
keep_first none (ok u) = none
keep_first none (err error) = some error

-- `first_error.map_or(Ok(()), Err)`
abbrev pub map_or_ok : Option PostgresDdlClientError → Result (Unit {0}) PostgresDdlClientError
map_or_ok none = ok tt
map_or_ok (some error) = err error

-- One call of the callback. An identity without a pending reservation is a panic.
unfoldable pub settle_initial :
    CreateDatabases
    → Outcome
    → Option PostgresDdlClientError
    → DatabaseInventory
    → Option (Option PostgresDdlClientError × DatabaseInventory)
settle_initial request (index, result) first_error inventory = do
  database_id ← nth_database_id request index
  outcome ← (complete_creation inventory database_id result).0
  some (keep_first first_error outcome, (complete_creation inventory database_id result).1)

unfoldable pub settle_all :
    CreateDatabases
    → List Outcome
    → Option PostgresDdlClientError
    → DatabaseInventory
    → Option (Option PostgresDdlClientError × DatabaseInventory)
settle_all request [] first_error inventory = some (first_error, inventory)
settle_all request (outcome ∷ outcomes) first_error inventory =
    settle_initial request outcome first_error inventory >>= λ r.
    settle_all request outcomes r.0 r.1

unfoldable pub try_init :
    List Outcome → WorkerEngine → Option (Result (Unit {0}) PostgresDdlClientError × WorkerEngine)
try_init outcomes e = do
  (reserved, inventory) ← reserve_creations e.inventory e.config.initial_slots
  elim reserved [
    | none ↦ some (ok tt, record e { inventory = inventory })
    | some request ↦ settle_all request outcomes none inventory >>= λ r.
        some (map_or_ok r.0, record e { inventory = r.1 })
  ]
