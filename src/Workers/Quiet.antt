-- ===== src/Workers/Quiet.antt =====
-- The creation worker and the cleanup worker: every identity is answered for.
use pg_test.Base.{
  ℕ, ◌+◌, ◌-◌, ◌≤◌, ◌<◌, ◌≡◌, true, List, [], ◌∷◌, arith, Result, ◌⊎◌, inl, inr, Bool-cases, count,
  map, same, leb, if◌then◌else◌,
}
use pg_test.Engine.State.{EngineMessage, cleanup_finished, creation_finished, database_worker}
use pg_test.Inventory.Holdings.{within}
use pg_test.Inventory.{
  CleanupDatabase, CreateDatabases, DatabaseId, PostgresDdlClientError, id_key, nth_database_id,
  u64_bound,
}
use pg_test.Postgres.Pipeline.Laws.{weigh}
use pg_test.ReadString.{ReadString}
use pg_test.Workers.Delivery.{Reach-Kept}
use pg_test.Workers.{
  CleanupAnswers, CleanupReach, CreationAnswers, CreationReach, Worker, cleanup_message,
  creation_messages, is_empty_request, no_request,
}

-- 1 for the message that the creation, or the cleanup, of the identity is over.
abbrev pub creation_over : DatabaseId → EngineMessage → ℕ
creation_over id (database_worker (creation_finished j result)) = same j id
creation_over id m = 0

abbrev pub cleanup_over : DatabaseId → EngineMessage → ℕ
cleanup_over id (database_worker (cleanup_finished j result)) = same j id
cleanup_over id m = 0

-- 1 for the request that the identity belongs to.
abbrev pub reserves : DatabaseId → CreateDatabases → ℕ
reserves id request = within request.first_database_id request.amount id

abbrev pub retires : DatabaseId → CleanupDatabase → ℕ
retires id request = same request.database_id id

creation_messages-count :
    (request : CreateDatabases) (id : DatabaseId)
    (reports : List (ℕ × Result ReadString PostgresDdlClientError))
    → ((index : ℕ) → 0 < count index (map (λ r. r.0) reports) → index < request.amount)
    → request.first_database_id + request.amount < u64_bound
    → weigh (creation_over id) (creation_messages request reports) ≡ (
        if leb request.first_database_id id
        then count (id - request.first_database_id) (map (λ r. r.0) reports)
        else 0)
unfolding weigh creation_messages count nth_database_id
creation_messages-count request id [] inside small = ground arith
creation_messages-count request id ((index, result) ∷ reports) inside small =
    let rest =
      creation_messages-count request id reports (λ i h. inside i (ground (arith, h))) small in
    ground (arith, rest, inside index (ground arith), small)

-- The identities whose creation a worker has answered for, has still to answer for in its tasks or in
-- its queue, and was asked for.
abbrev pub answered : DatabaseId → Worker CreateDatabases EngineMessage → ℕ
answered id w = weigh (creation_over id) w.sent

abbrev pub outstanding : DatabaseId → Worker CreateDatabases EngineMessage → ℕ
outstanding id w = weigh (weigh (creation_over id)) w.tasks + weigh (reserves id) w.inbox

creation_messages-promised :
    (request : CreateDatabases) (id : DatabaseId) (messages : List EngineMessage)
    → CreationAnswers request messages
    → weigh (creation_over id) messages ≡ reserves id request
creation_messages-promised request id messages (reports, same_messages, each, small) =
    rw same_messages (
      ground (
        arith,
        creation_messages-count request id reports (λ i h. ground (arith, h, each i)) small,
        each (id - request.first_database_id),
      ))

cleanup_message-promised :
    (request : CleanupDatabase) (id : DatabaseId) (messages : List EngineMessage)
    → CleanupAnswers request messages
    → weigh (cleanup_over id) messages ≡ retires id request
unfolding weigh cleanup_message
cleanup_message-promised request id messages (result, same_messages) =
    rw same_messages (omega arith)

-- Whatever the order of its steps, the creation worker answers for no identity more often than it was
-- requested; and without a shutdown what it has answered for and what it has still to answer for are
-- together what was requested, so that with an empty queue and no tasks each identity was answered
-- for exactly as often as it was requested.
pub creation_worker-answers :
    (w : Worker CreateDatabases EngineMessage) (id : DatabaseId)
    → CreationReach w
    → (answered id w ≤ weigh (reserves id) w.submitted)
      × ((w.cancelled ≡ true)
          ⊎ (answered id w + outstanding id w ≡ weigh (reserves id) w.submitted))
creation_worker-answers w id reached =
    let (most, all) =
      Reach-Kept is_empty_request CreationAnswers (reserves id) (creation_over id)
        (λ r nothing. ground (arith, nothing))
        (λ r messages given. creation_messages-promised r id messages given) reached in
    (
      omega (arith, most),
      elim (Bool-cases w.cancelled) [
        | inl over ↦ inl over
        | inr working ↦ inr (omega (arith, all working))
      ],
    )

-- The same for the cleanup worker, which sends one message for each database to be dropped.
pub cleanup_worker-answers :
    (w : Worker CleanupDatabase EngineMessage) (id : DatabaseId)
    → CleanupReach w
    → (weigh (cleanup_over id) w.sent ≤ weigh (retires id) w.submitted)
      × ((w.cancelled ≡ true)
          ⊎ (weigh (cleanup_over id) w.sent
                + (weigh (weigh (cleanup_over id)) w.tasks + weigh (retires id) w.inbox)
              ≡ weigh (retires id) w.submitted))
cleanup_worker-answers w id reached =
    let (most, all) =
      Reach-Kept no_request CleanupAnswers (retires id) (cleanup_over id)
        (λ r nothing. absurd (cc nothing))
        (λ r messages given. cleanup_message-promised r id messages given) reached in
    (
      omega (arith, most),
      elim (Bool-cases w.cancelled) [
        | inl over ↦ inl over
        | inr working ↦ inr (omega (arith, all working))
      ],
    )
