-- ===== src/Inventory/Completion.antt =====
-- What a completion message changes of the inventory.
use pg_test.Base.{◌≤◌, ◌≡◌, none, Result, ok, err, arith}
use pg_test.Inventory.Holdings.{complete_creation-holdings, holdings}
use pg_test.Inventory.{
  DatabaseId, DatabaseInventory, PostgresDdlClientError, complete_cleanup, complete_creation,
  id_key,
}
use pg_test.ReadString.{ReadString}

-- An unknown or repeated completion changes nothing.
pub complete_creation_unknown :
    (s : DatabaseInventory) (id : DatabaseId) (r : Result ReadString PostgresDdlClientError)
    → (complete_creation s id r).0 ≡ none
    → (complete_creation s id r).1 ≡ s
unfolding complete_creation
complete_creation_unknown s id (ok name) h = ground arith
complete_creation_unknown s id (err e) h = ground arith

pub complete_creation-next :
    (s : DatabaseInventory) (id : DatabaseId) (r : Result ReadString PostgresDdlClientError)
    → (complete_creation s id r).1.next_database_id ≡ s.next_database_id
unfolding complete_creation
complete_creation-next s id (ok name) = ground arith
complete_creation-next s id (err e) = ground arith

pub complete_creation-holdings-le :
    (s : DatabaseInventory) (id : DatabaseId) (r : Result ReadString PostgresDdlClientError)
    (i : DatabaseId)
    → holdings id s ≤ 1
    → holdings i (complete_creation s id r).1 ≤ holdings i s
unfolding holdings
complete_creation-holdings-le s id r i h =
    omega (arith, complete_creation-holdings s id r i (omega (arith, h)))

pub complete_cleanup-next :
    (s : DatabaseInventory) (id : DatabaseId) (r : Result (Unit {0}) PostgresDdlClientError)
    → (complete_cleanup s id r).1.next_database_id ≡ s.next_database_id
unfolding complete_cleanup
complete_cleanup-next s id (ok u) = ground arith
complete_cleanup-next s id (err e) = ground arith

pub complete_cleanup-ready :
    (s : DatabaseInventory) (id : DatabaseId) (r : Result (Unit {0}) PostgresDdlClientError)
    → (complete_cleanup s id r).1.ready ≡ s.ready
unfolding complete_cleanup
complete_cleanup-ready s id (ok u) = ground arith
complete_cleanup-ready s id (err e) = ground arith
