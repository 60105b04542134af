-- ===== src/Inventory/Holdings.antt =====
-- How often the inventory holds an identity, and what each operation does to that number.
use pg_test.Base.Map.{Map, copies, get, present}
use pg_test.Base.Set.{
  set_insert, member-count, count-member, count-set_insert, count-set_remove, length-set_insert,
  length-set_remove,
}
use pg_test.Base.{
  ℕ, zero, suc, ◌+◌, ◌≤◌, ◌<◌, false, ◌&&◌, some, List, [], ◌∷◌, ◌++◌, Result, ok, err, arith, leb,
  ltb, ◌==◌, if◌then◌else◌, length, same, count, ◌≡◌, refl, Returns, ℕ_discrete, ite,
}
use pg_test.ReadString.{ReadString}
use pg_test.Inventory.{
  CreateDatabases, Database, DatabaseId, DatabaseInventory, PostgresDdlClientError, any_ready,
  cancel_creation, cancel_creations, complete_creation, contains, creations, extend_creating,
  id_key, nth_database_id, reserve_creations, u64_bound,
}

unfoldable pub ready_count : DatabaseId → List Database → ℕ
ready_count i [] = 0
ready_count i (d ∷ ds) = same d.database_id i + ready_count i ds

unfoldable pub holdings : DatabaseId → DatabaseInventory → ℕ
holdings i s = count i s.creating + ready_count i s.ready + copies i s.retiring

-- 1 on the `n` identities from `first` on.
abbrev pub within : ℕ → ℕ → ℕ → ℕ
within first n i = if leb first i && ltb i (first + n) then 1 else 0

-- A creation that fails gives its identity up.
abbrev pub lost_creation :
    DatabaseId → Result ReadString PostgresDdlClientError → DatabaseInventory → DatabaseId → ℕ
lost_creation id (ok name) s i = 0
lost_creation id (err e) s i = ite (ℕ_discrete id i) (count id s.creating) 0

ready_count-append :
    (i : DatabaseId) (ds es : List Database)
    → ready_count i (ds ++ es) ≡ ready_count i ds + ready_count i es
unfolding ready_count
ready_count-append i [] es = omega arith
ready_count-append i (d ∷ ds) es = omega (arith, ready_count-append i ds es)

any_ready_absent :
    (i : DatabaseId) (ds : List Database) → ready_count i ds ≡ 0 → any_ready i ds ≡ false
unfolding ready_count any_ready
any_ready_absent i [] h = refl
any_ready_absent i (d ∷ ds) h = ground (arith, any_ready_absent i ds)

retiring_absent :
    {V : Type 0} (i : DatabaseId) (m : Map DatabaseId V)
    → copies i m ≡ 0
    → present (get i m) ≡ false
unfolding copies get
retiring_absent i [] h = refl
retiring_absent i ((j, v) ∷ m) h = ground (arith, retiring_absent i m)

-- An identity that the inventory does not hold passes the debug assertions.
pub contains_absent :
    (s : DatabaseInventory) (i : DatabaseId) → holdings i s ≡ 0 → contains s i ≡ false
unfolding holdings contains
contains_absent s i h =
    ground
      (arith, count-member i s.creating, any_ready_absent i s.ready, retiring_absent i s.retiring)

pub nth_database_id_lem :
    (request : CreateDatabases) (index : ℕ)
    → index < request.amount
    → request.first_database_id + index < u64_bound
    → nth_database_id request index ≡ some (request.first_database_id + index)
unfolding nth_database_id
nth_database_id_lem request index h b = ground arith

-- What `extend` adds to a set that holds none of the identities to come.
pub extend_creating_lem :
    (request : CreateDatabases) (n index : ℕ) (creating : List DatabaseId)
    → index + n ≤ request.amount
    → request.first_database_id + index + n ≤ u64_bound
    → ((i : DatabaseId) → request.first_database_id + index ≤ i → count i creating ≡ 0)
    → Returns (extend_creating request index n creating) (λ c.
      ((i : DatabaseId)
        → count i c ≡ count i creating + within (request.first_database_id + index) n i)
      × (length c ≡ length creating + n))
unfolding extend_creating
extend_creating_lem request zero index creating h b fresh =
    (creating, refl, ((λ i. ground arith), omega arith))
extend_creating_lem request (suc n) index creating h b fresh =
    let id : ℕ = request.first_database_id + index in
    let absent = fresh id (omega arith) in
    let (c, e, (counts, size)) =
      extend_creating_lem request n (index + 1) (set_insert id creating) (omega arith) (omega arith)
        (λ i g. ground (arith, count-set_insert i id creating absent, fresh i)) in
    rw (nth_database_id_lem request index (omega arith) (omega arith)) (
      c,
      e,
      (
        (λ i. ground (arith, counts i, count-set_insert i id creating absent)),
        omega (arith, size, length-set_insert id creating absent),
      ),
    )

-- A reservation takes the next `n` identities, each of them once.
pub reserve_creations_lem :
    (s : DatabaseInventory) (n : ℕ)
    → 0 < n
    → s.next_database_id + n < u64_bound
    → ((i : DatabaseId) → s.next_database_id < i → count i s.creating ≡ 0)
    → (c : List DatabaseId) × (reserve_creations s n
        ≡ some (
          some (creations (s.next_database_id + 1) n),
          record s { creating = c; next_database_id = s.next_database_id + n },
        ))
      × ((i : DatabaseId) → count i c ≡ count i s.creating + within (s.next_database_id + 1) n i)
      × (length c ≡ length s.creating + n)
unfolding reserve_creations
reserve_creations_lem s zero h b fresh = absurd (omega arith)
reserve_creations_lem s (suc n) h b fresh =
    let request = creations (s.next_database_id + 1) (suc n) in
    let (c, e, (counts, size)) =
      extend_creating_lem request (suc n) 0 s.creating (omega arith) (omega arith)
        (λ i g. fresh i (omega arith)) in
    (c, ground (arith, e), (λ i. ground (arith, counts i)), omega (arith, size))

-- Cancelling takes the identities out again.
pub cancel_creations_lem :
    (request : CreateDatabases) (n index : ℕ) (s : DatabaseInventory)
    → index + n ≤ request.amount
    → request.first_database_id + index + n ≤ u64_bound
    → ((i : DatabaseId)
        → within (request.first_database_id + index) n i ≡ 1
        → count i s.creating ≡ 1)
    → (c : List DatabaseId) × (cancel_creations request index n s
        ≡ some (record s { creating = c }))
      × ((i : DatabaseId)
          → count i c ≡ (
              if within (request.first_database_id + index) n i == 1
              then 0
              else count i s.creating))
      × (length c + n ≡ length s.creating)
unfolding cancel_creations cancel_creation
cancel_creations_lem request zero index s h b there =
    (s.creating, refl, (λ i. ground arith), omega arith)
cancel_creations_lem request (suc n) index s h b there =
    let id : ℕ = request.first_database_id + index in
    let s' = (cancel_creation s id).1 in
    let (c, e, counts, size) =
      cancel_creations_lem request n (index + 1) s' (omega arith) (omega arith)
        (λ i g. ground (arith, count-set_remove i id s.creating, there i)) in
    rw (nth_database_id_lem request index (omega arith) (omega arith)) (
      c,
      e,
      (λ i. ground (arith, counts i, count-set_remove i id s.creating)),
      ground (arith, size, length-set_remove id s.creating, there id),
    )

-- A completion moves the identity from the reservations to the ready databases, or drops it.
pub complete_creation-holdings :
    (s : DatabaseInventory) (id : DatabaseId) (r : Result ReadString PostgresDdlClientError)
    (i : DatabaseId)
    → count id s.creating ≤ 1
    → holdings i (complete_creation s id r).1 + lost_creation id r s i ≡ holdings i s
unfolding complete_creation holdings ready_count
complete_creation-holdings s id (ok name) i h = ground (
  arith,
  member-count id s.creating,
  count-member id s.creating,
  count-set_remove i id s.creating,
  ready_count-append i s.ready (record { database_id = id; database_name = name } ∷ []),
)
complete_creation-holdings s id (err e) i h =
    ground (arith, count-set_remove i id s.creating, member-count id s.creating)
