-- ===== src/Engine/Settle.antt =====
-- The outcomes of the first creations: each one settles the reservation that it stands for.
use pg_test.Base.{
  ℕ, suc, ◌+◌, ◌≤◌, ◌<◌, ◌≡◌, refl, Option, none, some, List, [], ◌∷◌, arith, length, count, same,
  Returns, Result, ok, err, map, ◌∙◌, ap, length-append,
}
use pg_test.Base.Set.{count-set_remove, length-set_remove, member-count}
use pg_test.Engine.Custody.{Owned-fewer}
use pg_test.Engine.Invariant.{Owned, empty_hand}
use pg_test.Engine.Startup.{Outcome, keep_first, settle_all, settle_initial}
use pg_test.Inventory.Completion.{complete_creation-holdings-le, complete_creation-next}
use pg_test.Inventory.Holdings.{nth_database_id_lem}
use pg_test.Inventory.{
  CreateDatabases, DatabaseId, DatabaseInventory, PostgresDdlClientError, complete_creation, id_key,
  u64_bound,
}
use pg_test.ReadString.{ReadString}

abbrev pub index_of : Outcome → ℕ
index_of (index, result) = index

-- What a list of outcomes amounts to: how many succeeded, and the first error.
unfoldable pub successes : List Outcome → ℕ
successes [] = 0
successes ((index, ok name) ∷ outcomes) = suc (successes outcomes)
successes ((index, err error) ∷ outcomes) = successes outcomes

unfoldable pub first_failure : List Outcome → Option PostgresDdlClientError
first_failure [] = none
first_failure ((index, ok name) ∷ outcomes) = first_failure outcomes
first_failure ((index, err error) ∷ outcomes) = some error

-- A reserved creation settles, and leaves one reservation less.
complete_creation-reserved :
    (s : DatabaseInventory) (id : DatabaseId) (result : Result ReadString PostgresDdlClientError)
    → count id s.creating ≡ 1
    → (length (complete_creation s id result).1.creating + 1 ≡ length s.creating)
      × ((i : DatabaseId)
          → count i (complete_creation s id result).1.creating + same id i ≡ count i s.creating)
unfolding complete_creation
complete_creation-reserved s id (ok name) h = (
  ground (arith, member-count id s.creating, length-set_remove id s.creating),
  λ i. ground (arith, member-count id s.creating, count-set_remove i id s.creating),
)
complete_creation-reserved s id (err error) h = (
  ground (arith, member-count id s.creating, length-set_remove id s.creating),
  λ i. ground (arith, member-count id s.creating, count-set_remove i id s.creating),
)

abbrev pub or_first :
    Option PostgresDdlClientError → Option PostgresDdlClientError → Option PostgresDdlClientError
or_first none next = next
or_first (some first) next = some first

abbrev one_ready : Result ReadString PostgresDdlClientError → ℕ
one_ready (ok name) = 1
one_ready (err error) = 0

complete_creation-ready :
    (s : DatabaseInventory) (id : DatabaseId) (result : Result ReadString PostgresDdlClientError)
    (first : Option PostgresDdlClientError)
    → count id s.creating ≡ 1
    → Returns (complete_creation s id result).0 (λ outcome.
      (keep_first first outcome ≡ or_first first (first_failure ((0, result) ∷ [])))
      × (length (complete_creation s id result).1.ready ≡ length s.ready + one_ready result))
unfolding complete_creation keep_first first_failure
complete_creation-ready s id (ok name) none h = (
  ok tt,
  ground (arith, member-count id s.creating),
  (
    refl,
    ground (
      arith,
      member-count id s.creating,
      length-append s.ready (record { database_id = id; database_name = name } ∷ []),
    ),
  ),
)
complete_creation-ready s id (ok name) (some e) h = (
  ok tt,
  ground (arith, member-count id s.creating),
  (
    refl,
    ground (
      arith,
      member-count id s.creating,
      length-append s.ready (record { database_id = id; database_name = name } ∷ []),
    ),
  ),
)
complete_creation-ready s id (err error) none h = (
  err error,
  ground (arith, member-count id s.creating),
  (refl, ground (arith, member-count id s.creating)),
)
complete_creation-ready s id (err error) (some e) h = (
  err error,
  ground (arith, member-count id s.creating),
  (refl, ground (arith, member-count id s.creating)),
)

first_failure-step :
    (first : Option PostgresDdlClientError) (index : ℕ)
    (result : Result ReadString PostgresDdlClientError) (outcomes : List Outcome)
    → or_first (or_first first (first_failure ((0, result) ∷ []))) (first_failure outcomes)
      ≡ or_first first (first_failure ((index, result) ∷ outcomes))
unfolding first_failure
first_failure-step none index (ok name) outcomes = refl
first_failure-step none index (err error) outcomes = refl
first_failure-step (some e) index result outcomes = refl

successes-step :
    (index : ℕ) (result : Result ReadString PostgresDdlClientError) (outcomes : List Outcome)
    → successes ((index, result) ∷ outcomes) ≡ one_ready result + successes outcomes
unfolding successes
successes-step index (ok name) outcomes = omega arith
successes-step index (err error) outcomes = omega arith

-- Every outcome stands for a reservation that is still pending, and for a different one.
abbrev pub Pending : CreateDatabases → List Outcome → DatabaseInventory → Type 0
Pending request outcomes s =
    (index : ℕ)
    → 0 < count index (map index_of outcomes)
    → (count index (map index_of outcomes) ≡ 1)
      × (index < request.amount)
      × (count (request.first_database_id + index) s.creating ≡ 1)

Pending-tail :
    (request : CreateDatabases) (index : ℕ) (result : Result ReadString PostgresDdlClientError)
    (outcomes : List Outcome) (s s' : DatabaseInventory)
    → Pending request ((index, result) ∷ outcomes) s
    → ((i : DatabaseId)
        → count i s'.creating + same (request.first_database_id + index) i ≡ count i s.creating)
    → Pending request outcomes s'
unfolding count
Pending-tail request index result outcomes s s' pending taken j h =
    let now = pending j (ground (arith, h)) in
    ground (arith, now, h, taken (request.first_database_id + j))

first_pending :
    (index : ℕ) (result : Result ReadString PostgresDdlClientError) (outcomes : List Outcome)
    → 0 < count index (map index_of ((index, result) ∷ outcomes))
unfolding count
first_pending index result outcomes = ground arith

module _ (request : CreateDatabases)
    (bound : request.first_database_id + request.amount ≤ u64_bound) where
  pub settle_all-lem :
      (outcomes : List Outcome) (first : Option PostgresDdlClientError) (s : DatabaseInventory)
      → Pending request outcomes s
      → Owned empty_hand [] s
      → Returns (settle_all request outcomes first s) (λ r.
        (r.0 ≡ or_first first (first_failure outcomes))
        × Owned empty_hand [] r.1
        × (r.1.next_database_id ≡ s.next_database_id)
        × (length r.1.ready ≡ length s.ready + successes outcomes)
        × (length r.1.creating + length outcomes ≡ length s.creating))
  unfolding settle_all settle_initial first_failure successes
  settle_all-lem [] none s pending o = ((none, s), refl, (refl, o, refl, omega arith, omega arith))
  settle_all-lem [] (some e) s pending o =
      ((some e, s), refl, (refl, o, refl, omega arith, omega arith))
  settle_all-lem ((index, result) ∷ outcomes) first s pending o =
      let id : ℕ = request.first_database_id + index in
      let (once, inside, reserved) = pending index (first_pending index result outcomes) in
      let known = nth_database_id_lem request index inside (omega arith) in
      let (outcome, settled, (kept, ready)) = complete_creation-ready s id result first reserved in
      let s' = (complete_creation s id result).1 in
      let (one_less, counts) = complete_creation-reserved s id result reserved in
      let o' =
        Owned-fewer [] s empty_hand s' o (complete_creation-next s id result)
          (λ i. complete_creation-holdings-le s id result i (ground (arith, o.unique id))) in
      let (r, done, (error, owned, next, size, left)) =
        settle_all-lem outcomes (keep_first first outcome) s'
          (Pending-tail request index result outcomes s s' pending counts) o' in
      (
        r,
        rw (known, settled) done,
        (
          error
              ∙ (ap (λ k. or_first k (first_failure outcomes)) kept
                  ∙ first_failure-step first index result outcomes),
          owned,
          omega (arith, next, complete_creation-next s id result),
          omega (arith, size, ready, successes-step index result outcomes),
          omega (arith, left, one_less),
        ),
      )
