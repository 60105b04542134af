-- ===== src/Workers.antt =====
-- crates/pgtest-core/src/worker_manager/database_creation_worker.rs and database_cleanup_worker.rs: the
-- two loops, which take requests off a queue, and the tasks that they spawn. The tasks interleave in
-- any order.
pub mod Delivery
pub mod Quiet
pub mod Tests
use pg_test.Base.{
  ℕ, zero, suc, ◌+◌, ◌≡◌, ◌<◌, Bool, true, false, Option, none, some, List, [], ◌∷◌, ◌++◌, Result,
  ok, err, count, map, if◌then◌else◌, ◌==◌,
}
use pg_test.Engine.State.{
  DatabaseWorkerMessages, EngineMessage, cleanup_finished, creation_finished, database_worker,
}
use pg_test.Inventory.Holdings.{within}
use pg_test.Inventory.{
  CleanupDatabase, CreateDatabases, PostgresDdlClientError, id_key, nth_database_id, u64_bound,
}
use pg_test.ReadString.{ReadString}

-- A worker: the requests that wait and all that were ever sent to it, for each task the messages that
-- it has still to send, and the messages that were sent to the engine.
pub record Worker (R M : Type 0) : Type 0 where
  pub inbox : List R
  pub submitted : List R
  pub tasks : List (List M)
  pub sent : List M
  pub cancelled : Bool
  pub running : Bool

module _ {R M : Type 0} where
  abbrev pub new_worker : Worker R M
  new_worker = record {
    inbox = [];
    submitted = [];
    tasks = [];
    sent = [];
    cancelled = false;
    running = true;
  }

  -- The request that was received: the task that is spawned for it will send `messages`.
  unfoldable pub receive : (R → Bool) → List M → R → List R → Worker R M → Worker R M
  receive skips messages request rest w =
      if skips request
      then record w { inbox = rest }
      else record w { inbox = rest; tasks = w.tasks ++ messages ∷ [] }

  -- One iteration of the loop of `run`, if something is there to be received. The select is biased: a
  -- shutdown goes first.
  unfoldable pub iterate : (R → Bool) → List M → R → List R → Worker R M → Worker R M
  iterate skips messages request rest w =
      if w.cancelled then record w { running = false } else receive skips messages request rest w

  -- A task sends its next message, if there is no shutdown.
  unfoldable pub on_finished : M → Worker R M → Worker R M
  on_finished message w = if w.cancelled then w else record w { sent = w.sent ++ message ∷ [] }

  module _ (skips : R → Bool) (Answers : R → List M → Type 0) where
    pub data Step : Worker R M → Worker R M → Type 0 where
      submits :
          (request : R) (w : Worker R M)
          → Step w (record w {
            inbox = w.inbox ++ request ∷ [];
            submitted = w.submitted ++ request ∷ [];
          })
      iterates :
          (request : R) (rest : List R) (messages : List M) (w : Worker R M)
          → w.running ≡ true
          → w.inbox ≡ request ∷ rest
          → Answers request messages
          → Step w (iterate skips messages request rest w)
      stops : (w : Worker R M) → w.inbox ≡ [] → Step w (record w { running = false })
      sends :
          (before : List (List M)) (message : M) (left : List M) (after : List (List M))
          (w : Worker R M)
          → w.tasks ≡ before ++ (message ∷ left) ∷ after
          → Step w (on_finished message (record w { tasks = before ++ left ∷ after }))
      -- The shutdown came between the test for it and the sending.
      races :
          (before : List (List M)) (message : M) (left : List M) (after : List (List M))
          (w : Worker R M)
          → w.tasks ≡ before ++ (message ∷ left) ∷ after
          → Step w (record w { tasks = before ++ left ∷ after; sent = w.sent ++ message ∷ [] })
      ends :
          (before after : List (List M)) (w : Worker R M)
          → w.tasks ≡ before ++ [] ∷ after
          → Step w (record w { tasks = before ++ after })
      cancels : (w : Worker R M) → Step w (record w { cancelled = true })
      abandons :
          (before : List (List M)) (task : List M) (after : List (List M)) (w : Worker R M)
          → w.cancelled ≡ true
          → w.tasks ≡ before ++ task ∷ after
          → Step w (record w { tasks = before ++ after })

    pub data Reach : Worker R M → Type 0 where
      start : Reach new_worker
      later : {w w' : Worker R M} → Reach w → Step w w' → Reach w'

-- The messages of a creation's task: `on_finished` for each report of the client. An index that is
-- outside of the request is a panic, and ends the task.
unfoldable pub creation_messages :
    CreateDatabases → List (ℕ × Result ReadString PostgresDdlClientError) → List EngineMessage
creation_messages request [] = []
creation_messages request ((index, result) ∷ reports) =
    let rest = creation_messages request reports in
    elim (nth_database_id request index) [
      | none ↦ []
      | some id ↦ database_worker (creation_finished id result) ∷ rest
    ]

abbrev pub is_empty_request : CreateDatabases → Bool
is_empty_request request = request.amount == 0

unfoldable pub cleanup_message :
    CleanupDatabase → Result (Unit {0}) PostgresDdlClientError → EngineMessage
cleanup_message request result = database_worker (cleanup_finished request.database_id result)

abbrev pub no_request : CleanupDatabase → Bool
no_request request = false

-- What the client answers: it reports each index of a creation once, and identities are below 2^64.
abbrev pub CreationAnswers : CreateDatabases → List EngineMessage → Type 0
CreationAnswers request messages =
    (reports : List (ℕ × Result ReadString PostgresDdlClientError)) × (messages
      ≡ creation_messages request reports)
    × ((index : ℕ) → count index (map (λ r. r.0) reports) ≡ within 0 request.amount index)
    × (request.first_database_id + request.amount < u64_bound)

abbrev pub CleanupAnswers : CleanupDatabase → List EngineMessage → Type 0
CleanupAnswers request messages =
    (result : Result (Unit {0}) PostgresDdlClientError) × (messages
      ≡ cleanup_message request result ∷ [])

-- What the two workers can come to.
abbrev pub CreationReach : Worker CreateDatabases EngineMessage → Type 0
CreationReach = Reach is_empty_request CreationAnswers

abbrev pub CleanupReach : Worker CleanupDatabase EngineMessage → Type 0
CleanupReach = Reach no_request CleanupAnswers
