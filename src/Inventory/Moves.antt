-- ===== src/Inventory/Moves.antt =====
-- Taking a database out of the inventory, and putting it back as ready or as retiring.
use pg_test.Base.Map.{copies-insert_eq, get_absent, copies-remove-le, insert}
use pg_test.Base.{
  ◌+◌, ◌≤◌, none, some, List, [], ◌∷◌, ◌⊎◌, inl, inr, Result, ok, err, arith, same, ◌≡◌, refl,
}
use pg_test.Inventory.Holdings.{contains_absent, holdings, ready_count}
use pg_test.Inventory.{
  CleanupDatabase, Database, DatabaseId, DatabaseInventory, PostgresDdlClientError,
  complete_cleanup, id_key, retire, return_ready, take_ready,
}

-- `take_ready` hands the oldest ready database out.
pub take_ready_cases :
    (s : DatabaseInventory)
    → ((s.ready ≡ []) × (take_ready s ≡ (none, s)))
      ⊎ ((d : Database) × (rest : List Database) × (s.ready ≡ d ∷ rest)
          × (take_ready s ≡ (some d, record s { ready = rest }))
          × ((i : DatabaseId)
              → holdings i s ≡ same d.database_id i + holdings i (record s { ready = rest })))
unfolding take_ready holdings ready_count
take_ready_cases s = by_ready s.ready refl
  where
    by_ready :
        (ds : List Database)
        → s.ready ≡ ds
        → ((s.ready ≡ []) × (take_ready s ≡ (none, s)))
          ⊎ ((d : Database) × (rest : List Database) × (s.ready ≡ d ∷ rest)
              × (take_ready s ≡ (some d, record s { ready = rest }))
              × ((i : DatabaseId)
                  → holdings i s ≡ same d.database_id i + holdings i (record s { ready = rest })))
    by_ready [] e = inl (e, ground arith)
    by_ready (d ∷ rest) e = inr (d, rest, e, ground arith, λ i. ground arith)

pub return_ready_lem :
    (s : DatabaseInventory) (d : Database)
    → holdings d.database_id s ≡ 0
    → return_ready s d ≡ some (record s { ready = d ∷ s.ready })
unfolding return_ready
return_ready_lem s d h = rw (contains_absent s d.database_id h)

pub holdings_ready :
    (s : DatabaseInventory) (d : Database) (i : DatabaseId)
    → holdings i (record s { ready = d ∷ s.ready }) ≡ same d.database_id i + holdings i s
unfolding holdings ready_count
holdings_ready s d i = omega arith

abbrev pub cleanup_of : Database → CleanupDatabase
cleanup_of d = record { database_id = d.database_id; database_name = d.database_name }

abbrev pub retired : DatabaseInventory → Database → DatabaseInventory
retired s d = record s { retiring = insert d.database_id d.database_name s.retiring }

pub retire_lem :
    (s : DatabaseInventory) (d : Database)
    → holdings d.database_id s ≡ 0
    → retire s d ≡ some (cleanup_of d, retired s d)
unfolding retire
retire_lem s d h = rw (contains_absent s d.database_id h)

pub holdings-retired :
    (s : DatabaseInventory) (d : Database) (i : DatabaseId)
    → holdings d.database_id s ≡ 0
    → holdings i (retired s d) ≡ same d.database_id i + holdings i s
unfolding holdings
holdings-retired s d i h = ground (
  arith,
  copies-insert_eq i d.database_id d.database_name s.retiring,
  get_absent d.database_id s.retiring,
)

pub complete_cleanup-holdings :
    (s : DatabaseInventory) (id : DatabaseId) (r : Result (Unit {0}) PostgresDdlClientError)
    (i : DatabaseId)
    → holdings i (complete_cleanup s id r).1 ≤ holdings i s
unfolding complete_cleanup holdings
complete_cleanup-holdings s id (ok u) i = ground (arith, copies-remove-le i id s.retiring)
complete_cleanup-holdings s id (err e) i = ground arith
