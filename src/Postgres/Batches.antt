-- ===== src/Postgres/Batches.antt =====
-- The batches of the manager against what they promise: each name is dropped on its own, and each
-- index of a creation is reported once.
use pg_test.Base.{
  ℕ, ◌+◌, ◌≡◌, refl, List, [], ◌∷◌, arith, length, map, same, Result, ok, err, codes,
}
use pg_test.Inventory.{id_key}
use pg_test.Inventory.Holdings.{within}
use pg_test.Postgres.Ddl.{
  PostgresOperationsError, Server, drop_all, drop_ddl_databases, drop_indexed, drop_on_connection,
  enumerate, unable_to_drop_database,
}
use pg_test.Postgres.Pipeline.Ends.{drain-weigh}
use pg_test.Postgres.Pipeline.Laws.{weigh}
use pg_test.Postgres.Pipeline.{drain, fill, rounds}
use pg_test.Postgres.{cleanup}
use pg_test.ReadString.{ReadString}

-- A report of a drop, and one of a creation.
abbrev pub Dropped : Type 0
Dropped = ℕ × Result (Unit {0}) PostgresOperationsError

abbrev pub Created : Type 0
Created = ℕ × Result ReadString PostgresOperationsError

pub weigh-map :
    {A B : Type 0} (f : B → ℕ) (g : A → B) (xs : List A)
    → weigh f (map g xs) ≡ weigh (λ x. f (g x)) xs
unfolding weigh
weigh-map f g [] = refl
weigh-map f g (x ∷ xs) = omega (arith, weigh-map f g xs)

module _ (server : Server) where
  -- The names dropped one after the other.
  unfoldable pub drop_each : ℕ → List ReadString → List Dropped
  drop_each index [] = []
  drop_each index (name ∷ names) =
      (index, drop_on_connection server name) ∷ drop_each (index + 1) names

  drop_each_lem :
      (f : Dropped → ℕ) (index : ℕ) (names : List ReadString)
      → weigh (λ x. f (drop_indexed server x)) (enumerate index names)
        ≡ weigh f (drop_each index names)
  unfolding drop_each enumerate weigh
  drop_each_lem f index [] = refl
  drop_each_lem f index (name ∷ names) = omega (arith, drop_each_lem f (index + 1) names)

  pub drop_ddl_databases-connected :
      (names : List ReadString)
      → server.acquire cleanup 0 ≡ ok tt
      → drop_ddl_databases server names ≡ (ok tt, drop_all server (enumerate 0 names))
  unfolding drop_ddl_databases drop_all enumerate drain rounds fill
  drop_ddl_databases-connected [] there = refl
  drop_ddl_databases-connected (name ∷ names) there = rw (there, drop_ddl_databases) refl

  pub drop_all-each :
      (f : Dropped → ℕ) (names : List ReadString)
      → weigh f (drop_all server (enumerate 0 names)) ≡ weigh f (drop_each 0 names)
  unfolding drop_all
  drop_all-each f names = omega (
    arith,
    weigh-map f (drop_indexed server) (drain 32 server.picks (enumerate 0 names)),
    drain-weigh 32 server.picks (enumerate 0 names) (λ x. f (drop_indexed server x)) (omega arith),
    drop_each_lem f 0 names,
  )

  -- With a connection, a batch of drops succeeds, and its reports are those of dropping each name on
  -- its own: each of them occurs as often, whatever the order in which the drops complete.
  pub drop_ddl_databases-each :
      (names : List ReadString)
      → server.acquire cleanup 0 ≡ ok tt
      → ((drop_ddl_databases server names).0 ≡ ok tt)
        × ((f : Dropped → ℕ)
            → weigh f (drop_ddl_databases server names).1 ≡ weigh f (drop_each 0 names))
  drop_ddl_databases-each names there =
      rw (drop_ddl_databases-connected names there) (refl, λ f. drop_all-each f names)

  -- Without one, nothing is dropped or reported: the batch is the connection's error.
  pub drop_ddl_databases-disconnected :
      (name : ReadString) (names : List ReadString) (e : ℕ)
      → server.acquire cleanup 0 ≡ err e
      → drop_ddl_databases server (name ∷ names)
        ≡ (err (unable_to_drop_database (codes "cleanup batch") e), [])
  unfolding drop_ddl_databases
  drop_ddl_databases-disconnected name names e away = rw (away, drop_ddl_databases) refl

  -- Each index occurs once among the drops of names.
  pub drop_each-index :
      (k index : ℕ) (names : List ReadString)
      → weigh (λ (report : Dropped). same report.0 k) (drop_each index names)
        ≡ within index (length names) k
  unfolding drop_each weigh
  drop_each-index k index [] = ground arith
  drop_each-index k index (name ∷ names) = ground (arith, drop_each-index k (index + 1) names)
