-- ===== src/Workers/Tests.antt =====
-- The workers at concrete inputs: a batch of two that is reported in the other order, and a cleanup.
use pg_test.Base.{
  ℕ, ◌+◌, ◌≤◌, ◌≡◌, ◌⊎◌, refl, true, [], ◌∷◌, List, arith, ok, err, count, map, Result,
}
use pg_test.Engine.State.{EngineMessage}
use pg_test.Inventory.Holdings.{within}
use pg_test.Inventory.{
  CleanupDatabase, CreateDatabases, PostgresDdlClientError, creations, id_key, operation_failed,
}
use pg_test.Postgres.Pipeline.Laws.{weigh}
use pg_test.ReadString.{ReadString}
use pg_test.Workers.Quiet.{
  answered, cleanup_over, cleanup_worker-answers, creation_worker-answers, outstanding, reserves,
  retires,
}
use pg_test.Workers.{
  CleanupReach, CreationReach, Worker, cleanup_message, creation_messages, is_empty_request,
  iterate, iterates, later, new_worker, no_request, start, submits,
}

abbrev request : CreateDatabases
request = creations 5 2

abbrev reports : List (ℕ × Result ReadString PostgresDdlClientError)
reports = (1, ok (b'd' ∷ [])) ∷ (0, err (operation_failed [])) ∷ []

abbrev asked : Worker CreateDatabases EngineMessage
asked = record new_worker { inbox = request ∷ []; submitted = request ∷ [] }

abbrev spawned : Worker CreateDatabases EngineMessage
spawned = iterate is_empty_request (creation_messages request reports) request [] asked

reports_each :
    (index : ℕ)
    → count index (map (λ (r : ℕ × Result ReadString PostgresDdlClientError). r.0) reports)
      ≡ within 0 2 index
unfolding count
reports_each index = ground arith

spawned_reached : CreationReach spawned
spawned_reached = later (later start (submits request new_worker)) (
    iterates request [] (creation_messages request reports) asked refl refl
      (reports, refl, reports_each, omega arith))

creation_worker-answers_example :
    (answered 6 spawned ≤ weigh (reserves 6) spawned.submitted)
    × ((spawned.cancelled ≡ true)
        ⊎ (answered 6 spawned + outstanding 6 spawned ≡ weigh (reserves 6) spawned.submitted))
creation_worker-answers_example = creation_worker-answers spawned 6 spawned_reached

abbrev old : CleanupDatabase
old = record { database_id = 9; database_name = b'd' ∷ [] }

abbrev cleaning : Worker CleanupDatabase EngineMessage
cleaning =
    iterate no_request (cleanup_message old (ok tt) ∷ []) old []
      (record new_worker { inbox = old ∷ []; submitted = old ∷ [] })

cleaning_reached : CleanupReach cleaning
cleaning_reached = later (later start (submits old new_worker)) (
    iterates old [] (cleanup_message old (ok tt) ∷ [])
      (record new_worker { inbox = old ∷ []; submitted = old ∷ [] }) refl refl (ok tt, refl))

cleanup_worker-answers_example :
    (weigh (cleanup_over 9) cleaning.sent ≤ weigh (retires 9) cleaning.submitted)
    × ((cleaning.cancelled ≡ true)
        ⊎ (weigh (cleanup_over 9) cleaning.sent
              + (weigh (weigh (cleanup_over 9)) cleaning.tasks + weigh (retires 9) cleaning.inbox)
            ≡ weigh (retires 9) cleaning.submitted))
cleanup_worker-answers_example = cleanup_worker-answers cleaning 9 cleaning_reached
