-- ===== src/Engine/Custody.antt =====
-- Who holds a database: how `Owned` follows a database from the inventory to a lease and back.
use pg_test.Base.Map.{Map, copies, get, insert, remove, tally-insert, tally-remove}
use pg_test.Base.{ℕ, ◌≤◌, ◌≡◌, none, some, ◌∷◌, arith, same, ◌+◌}
use pg_test.Engine.Invariant.{Owned, empty_hand, lease_count}
use pg_test.Engine.State.{LeaseEntry}
use pg_test.Inventory.Holdings.{holdings}
use pg_test.Inventory.Moves.{holdings-retired, holdings_ready, retired}
use pg_test.Inventory.{Database, DatabaseId, DatabaseInventory, id_key}
use pg_test.LeaseId.{LeaseId, lease_key}

abbrev pub in_hand : Database → DatabaseId → ℕ
in_hand d i = same d.database_id i

module _ (leases : Map LeaseId LeaseEntry) (s : DatabaseInventory) where
  pub Owned-take :
      (d : Database) (s' : DatabaseInventory)
      → Owned empty_hand leases s
      → s'.next_database_id ≡ s.next_database_id
      → ((i : DatabaseId) → holdings i s ≡ same d.database_id i + holdings i s')
      → Owned (in_hand d) leases s'
  Owned-take d s' o e h = record {
    unique = λ i. ground (arith, o.unique i, h i);
    fresh = λ i f. ground (arith, o.fresh i, h i);
  }

  -- The inventory may lose databases.
  pub Owned-fewer :
      (hand : DatabaseId → ℕ) (s' : DatabaseInventory)
      → Owned hand leases s
      → s'.next_database_id ≡ s.next_database_id
      → ((i : DatabaseId) → holdings i s' ≤ holdings i s)
      → Owned hand leases s'
  Owned-fewer hand s' o e h = record {
    unique = λ i. ground (arith, o.unique i, h i);
    fresh = λ i f. ground (arith, o.fresh i, h i);
  }

  pub Owned-insert :
      (l : LeaseId) (entry : LeaseEntry)
      → Owned (in_hand entry.database) leases s
      → get l leases ≡ none
      → Owned empty_hand (insert l entry leases) s
  Owned-insert l entry o e = record {
    unique = λ i. ground (arith, o.unique i, added i);
    fresh = λ i f. ground (arith, o.fresh i, added i);
  }
    where
      added :
          (i : DatabaseId)
          → lease_count i (insert l entry leases)
            ≡ lease_count i leases + same entry.database.database_id i
      added i =
          ground
            (arith, tally-insert (λ (x : LeaseEntry). same x.database.database_id i) l entry leases)

  pub Owned-update :
      (hand : DatabaseId → ℕ) (l : LeaseId) (entry entry' : LeaseEntry)
      → Owned hand leases s
      → get l leases ≡ some entry
      → entry'.database ≡ entry.database
      → Owned hand (insert l entry' leases) s
  Owned-update hand l entry entry' o e d = record {
    unique = λ i. ground (arith, o.unique i, kept i);
    fresh = λ i f. ground (arith, o.fresh i, kept i);
  }
    where
      kept : (i : DatabaseId) → lease_count i (insert l entry' leases) ≡ lease_count i leases
      kept i =
          ground (
            arith,
            tally-insert (λ (x : LeaseEntry). same x.database.database_id i) l entry' leases,
          )

  pub Owned-remove :
      (l : LeaseId) (entry : LeaseEntry)
      → Owned empty_hand leases s
      → copies l leases ≤ 1
      → get l leases ≡ some entry
      → Owned (in_hand entry.database) (remove l leases) s
  Owned-remove l entry o c e = record {
    unique = λ i. ground (arith, o.unique i, dropped i);
    fresh = λ i f. ground (arith, o.fresh i, dropped i);
  }
    where
      dropped :
          (i : DatabaseId)
          → lease_count i (remove l leases) + same entry.database.database_id i
            ≡ lease_count i leases
      dropped i =
          ground (arith, tally-remove (λ (x : LeaseEntry). same x.database.database_id i) l leases)

  pub in_hand_absent : (d : Database) → Owned (in_hand d) leases s → holdings d.database_id s ≡ 0
  in_hand_absent d o = ground (arith, o.unique d.database_id)

  pub Owned-return :
      (d : Database)
      → Owned (in_hand d) leases s
      → Owned empty_hand leases (record s { ready = d ∷ s.ready })
  Owned-return d o = record {
    unique = λ i. ground (arith, o.unique i, holdings_ready s d i);
    fresh = λ i f. ground (arith, o.fresh i, holdings_ready s d i);
  }

  pub Owned-retire :
      (d : Database) → Owned (in_hand d) leases s → Owned empty_hand leases (retired s d)
  Owned-retire d o = record {
    unique = λ i. ground (arith, o.unique i, holdings-retired s d i (in_hand_absent d o));
    fresh = λ i f. ground (arith, o.fresh i, holdings-retired s d i (in_hand_absent d o));
  }
