-- ===== src/Postgres/Creations.antt =====
-- A batch of creations reports each of its indices, with a name made from the template.
use pg_test.Base.{
  ℕ, zero, suc, ◌<◌, ◌≡◌, refl, List, [], ◌∷◌, ◌++◌, arith, length, count, map, Result, ok, err,
  Returns, ap, subst, sym, inl, inr,
}
use pg_test.ControlPanel.Protocol.Releases.{Result-cases}
use pg_test.DatabaseName.Fits.{random_letters_lem}
use pg_test.DatabaseName.{generate_database_name, generate_id}
use pg_test.Inventory.Holdings.{within}
use pg_test.Inventory.{id_key}
use pg_test.Postgres.Batches.{Created}
use pg_test.Postgres.Ddl.{
  create_statement, unable_to_create_database, PostgresOperationsError, Server, collect,
  create_ddl_database, create_ddl_databases, create_indexed, create_on_connection,
}
use pg_test.Postgres.Pipeline.Ends.{run_bounded-reports}
use pg_test.Postgres.{PostgresManager, creation}
use pg_test.ReadString.{ReadString}

pub length-map : {A B : Type 0} (f : A → B) (xs : List A) → length (map f xs) ≡ length xs
length-map f [] = refl
length-map f (x ∷ xs) = omega (arith, length-map f xs)

-- A name that is made from the template's prefix.
abbrev pub IsNamed : PostgresManager → ReadString → Type 0
IsNamed manager name =
    (id : ReadString) × (name ≡ manager.template_database_name.prefix_template ++ b'_' ∷ id)
    × (length id ≡ 32)

-- What a report says of the name, if the creation succeeded.
abbrev pub WellReported : PostgresManager → Created → Type 0
WellReported manager (index, ok name) = IsNamed manager name
WellReported manager (index, err e) = Unit {0}

abbrev pub AllReported : PostgresManager → List Created → Type 0
AllReported manager [] = Unit {0}
AllReported manager (r ∷ reports) = WellReported manager r × AllReported manager reports

abbrev pub index_of : Created → ℕ
index_of (index, result) = index

module _ (server : Server) (manager : PostgresManager) (draws : ℕ → ℕ → ℕ)
    (drawn : (index i : ℕ) → draws index i < 52) where
  generate_database_name-IsNamed :
      (index : ℕ)
      → Returns
          (generate_database_name (draws index) manager.template_database_name)
          (IsNamed manager)
  unfolding generate_database_name generate_id
  generate_database_name-IsNamed index =
      let (id, drawn_id, (size, others)) = random_letters_lem (draws index) (drawn index) 32 0 in
      (_, rw drawn_id refl, (id, refl, size))

  reported :
      (index : ℕ) (r s : Result ReadString PostgresOperationsError)
      → r ≡ s
      → WellReported manager (index, s)
      → WellReported manager (index, r)
  reported index r s same_result well =
      subst (λ x. WellReported manager (index, x)) (sym same_result) well

  create_on_connection-named :
      (index : ℕ) (name : ReadString)
      → IsNamed manager name
      → WellReported manager (index, create_on_connection server manager name)
  unfolding create_on_connection
  create_on_connection-named index name named =
      let statement = create_statement manager.version name manager.template_database_name.name in
      elim (Result-cases (server.execute statement)) [
        | inl (u, done) ↦
            reported index (create_on_connection server manager name) (ok name)
              (rw (done, create_on_connection) refl) named
        | inr (e, failed) ↦
            reported index (create_on_connection server manager name)
              (err (unable_to_create_database name e)) (rw (failed, create_on_connection) refl) tt
      ]

  create_indexed-returns :
      (index : ℕ)
      → Returns
          (create_indexed server manager draws index)
          (λ r. (index_of r ≡ index) × WellReported manager r)
  unfolding create_ddl_database
  create_indexed-returns index =
      let (name, generated, named) = generate_database_name-IsNamed index in
      elim (Result-cases (server.acquire creation index)) [
        | inl (u, there) ↦ (
          (index, create_on_connection server manager name),
          rw (generated, there) refl,
          (refl, create_on_connection-named index name named),
        )
        | inr (e, away) ↦
            ((index, err (unable_to_create_database name e)), rw (generated, away) refl, (refl, tt))
      ]

  collect-returns :
      (order : List ℕ)
      → Returns
          (collect (create_indexed server manager draws) order)
          (λ reports. (map index_of reports ≡ order) × AllReported manager reports)
  unfolding collect
  collect-returns [] = ([], refl, (refl, tt))
  collect-returns (index ∷ order) =
      let (r, made, (same_index, well)) = create_indexed-returns index in
      let (reports, made_all, (same_order, all)) = collect-returns order in
      (r ∷ reports, rw (made, made_all) refl, (rw (same_index, same_order) refl, (well, all)))

  -- With a limit and with random numbers below 52, a batch of creations ends without a panic. It
  -- reports each of its indices once and nothing else, and every database that it reports as created
  -- is named by the prefix, an underscore and 32 bytes.
  pub create_ddl_databases-returns :
      (amount : ℕ)
      → 0 < manager.creation_concurrency
      → Returns (create_ddl_databases server manager draws amount) (λ reports.
        (length reports ≡ amount)
        × ((index : ℕ) → count index (map index_of reports) ≡ within 0 amount index)
        × AllReported manager reports)
  unfolding create_ddl_databases count
  create_ddl_databases-returns zero some_limit = ([], refl, (refl, (λ index. ground arith), tt))
  create_ddl_databases-returns (suc n) some_limit =
      let (order, ran, (size, each)) =
        run_bounded-reports (suc n) manager.creation_concurrency server.picks some_limit in
      let (reports, made, (same_order, all)) = collect-returns order in
      (
        reports,
        rw (ran, made) refl,
        (
          omega (arith, size, length-map index_of reports, ap length same_order),
          (λ index. rw same_order (each index)),
          all,
        ),
      )
