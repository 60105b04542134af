-- ===== src/Inventory.antt =====
-- crates/pgtest-core/src/worker_engine/database_inventory.rs, database_jobs.rs and the error type of
-- errors.rs that both use: the databases that are being created, are ready, or are being dropped.
-- An outer `none` is a panic: an `expect`, an `assert` or, as in a debug build, a `debug_assert`.
pub mod Holdings
pub mod Moves
pub mod Completion
use pg_test.Base.Map.{Map, get, insert, remove, present}
use pg_test.Base.Set.{member, set_insert, set_remove}
use pg_test.Base.{
  ℕ, zero, suc, ◌+◌, ◌-◌, ◌^◌, Bool, true, false, ◌||◌, Option, none, some, ◌>>=◌, List, [], ◌∷◌,
  ◌++◌, Result, ok, err, ltb, ◌==◌, if◌then◌else◌, length, ℕ_discrete, Key,
}
use pg_test.ReadString.{ReadString}

instance abbrev pub id_key : Key ℕ
id_key = record { same? = ℕ_discrete }

abbrev pub u64_bound : ℕ
u64_bound = 2 ^ 64

abbrev pub checked_add : ℕ → ℕ → Option ℕ
checked_add a b = if ltb (a + b) u64_bound then some (a + b) else none

abbrev pub DatabaseId : Type 0
DatabaseId = ℕ

pub record CreateDatabases : Type 0 where
  pub first_database_id : DatabaseId
  pub amount : ℕ

pub record CleanupDatabase : Type 0 where
  pub database_id : DatabaseId
  pub database_name : ReadString

pub data PostgresDdlClientError : Type 0 where
  operation_failed : ReadString → PostgresDdlClientError

pub record Database : Type 0 where
  pub database_id : DatabaseId
  pub database_name : ReadString

pub record DatabaseInventory : Type 0 where
  pub next_database_id : ℕ
  pub creating : List DatabaseId
  pub ready : List Database
  pub retiring : Map DatabaseId ReadString

unfoldable pub empty_inventory : DatabaseInventory
empty_inventory = record { next_database_id = 0; creating = []; ready = []; retiring = [] }

abbrev pub creations : ℕ → ℕ → CreateDatabases
creations first amount = record { first_database_id = first; amount = amount }

-- `CreateDatabases::database_id`
unfoldable pub nth_database_id : CreateDatabases → ℕ → Option DatabaseId
nth_database_id request index =
    if ltb index request.amount then checked_add request.first_database_id index else none

-- `self.creating.extend((0..amount).map(…))`, with `n` of the indices left.
unfoldable pub extend_creating :
    CreateDatabases → ℕ → ℕ → List DatabaseId → Option (List DatabaseId)
extend_creating request index zero creating = some creating
extend_creating request index (suc n) creating = nth_database_id request index >>= λ id.
    extend_creating request (index + 1) n (set_insert id creating)

unfoldable pub reserve_creations :
    DatabaseInventory → ℕ → Option (Option CreateDatabases × DatabaseInventory)
reserve_creations s zero = some (none, s)
reserve_creations s (suc n) = do
  last ← checked_add s.next_database_id (suc n)
  let request = creations (s.next_database_id + 1) (suc n)
  creating ← extend_creating request 0 (suc n) s.creating
  some (some request, record s { creating = creating; next_database_id = last })

unfoldable pub cancel_creation : DatabaseInventory → DatabaseId → Bool × DatabaseInventory
cancel_creation s database_id =
    (member database_id s.creating, record s { creating = set_remove database_id s.creating })

-- The loop of core.rs that gives a refused batch up, `for index in 0..request.amount`, with `n` of the indices left.
unfoldable pub cancel_creations :
    CreateDatabases → ℕ → ℕ → DatabaseInventory → Option DatabaseInventory
cancel_creations request index zero inventory = some inventory
cancel_creations request index (suc n) inventory = nth_database_id request index >>= λ id.
    cancel_creations request (index + 1) n (cancel_creation inventory id).1

settle_creation :
    DatabaseInventory
    → DatabaseId
    → Result ReadString PostgresDdlClientError
    → Result (Unit {0}) PostgresDdlClientError × DatabaseInventory
settle_creation s id (ok name) =
    (ok tt, record s { ready = s.ready ++ record { database_id = id; database_name = name } ∷ [] })
settle_creation s id (err e) = (err e, s)

unfoldable pub complete_creation :
    DatabaseInventory
    → DatabaseId
    → Result ReadString PostgresDdlClientError
    → Option (Result (Unit {0}) PostgresDdlClientError) × DatabaseInventory
unfolding settle_creation
complete_creation s database_id result =
    if member database_id s.creating
    then (let (r, s') =
          settle_creation (record s { creating = set_remove database_id s.creating }) database_id
            result in
        (some r, s'))
    else (none, s)

unfoldable pub take_ready : DatabaseInventory → Option Database × DatabaseInventory
take_ready s = elim s.ready [
  | [] ↦ (none, s)
  | database ∷ rest ↦ (some database, record s { ready = rest })
]

unfoldable pub any_ready : DatabaseId → List Database → Bool
any_ready id [] = false
any_ready id (d ∷ ds) = d.database_id == id || any_ready id ds

unfoldable pub contains : DatabaseInventory → DatabaseId → Bool
contains s id = member id s.creating || any_ready id s.ready || present (get id s.retiring)

unfoldable pub return_ready : DatabaseInventory → Database → Option DatabaseInventory
return_ready s database =
    if contains s database.database_id then none else some (record s { ready = database ∷ s.ready })

unfoldable pub retire : DatabaseInventory → Database → Option (CleanupDatabase × DatabaseInventory)
retire s database =
    if contains s database.database_id
    then none
    else some (
      record { database_id = database.database_id; database_name = database.database_name },
      record s { retiring = insert database.database_id database.database_name s.retiring },
    )

settle_cleanup :
    DatabaseInventory
    → DatabaseId
    → Result (Unit {0}) PostgresDdlClientError
    → Result (Unit {0}) PostgresDdlClientError × DatabaseInventory
settle_cleanup s id (ok u) = (ok u, record s { retiring = remove id s.retiring })
settle_cleanup s id (err e) = (err e, s)

unfoldable pub complete_cleanup :
    DatabaseInventory
    → DatabaseId
    → Result (Unit {0}) PostgresDdlClientError
    → Option (Result (Unit {0}) PostgresDdlClientError) × DatabaseInventory
unfolding settle_cleanup
complete_cleanup s database_id result =
    if present (get database_id s.retiring)
    then (let (r, s') = settle_cleanup s database_id result in (some r, s'))
    else (none, s)

unfoldable pub supply_len : DatabaseInventory → ℕ
supply_len s = length s.ready + length s.creating
