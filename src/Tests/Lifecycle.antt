-- ===== src/Tests/Lifecycle.antt =====
-- Histories, retries and collections on the sample database.
use mailproof.Base.{
  ◌+◌, ◌≡◌, refl, some, List, [], ◌∷◌, find_row, unix, true, false, if◌then◌else◌, leb, any_row,
}
use mailproof.Database.{Db, Run, queued, complete, ok, err, foreign_key_violation}
use mailproof.Analytics.Event.{new_lifecycle, insert_event, key, append_event}
use mailproof.Queue.Events.{event_tx}
use mailproof.Queue.Statements.{has_run, insert_delivery, insert_run}
use mailproof.Queue.Claims.{analysis, report}
use mailproof.Queue.Collections.{ReportDestination, report_destination_for_run, enqueue_collection}
use mailproof.Queue.CollectorLease.{acquire_collector_lease, release_collector_lease}
use mailproof.Queue.Transitions.{retry}
use mailproof.Queue.Lifecycle.{Goes, Moves, ◌⟶*◌}
use mailproof.Queue.Invariant.{Valid}
use mailproof.Queue.Operations.{
  Operation, claims, redelivers, Call, retries, performs, perform, calls, operations,
}
use mailproof.Queue.Histories.{calls-Valid, run_followed, final_stays, perform-Moves}
use mailproof.Queue.Destinations.{destination_stable}
use mailproof.Base.{String, ◌≢◌, ◌≤◌, unix}
use mailproof.Queue.Singleton.{collector_exclusive}
use mailproof.Queue.Retries.{
  Retried, retry_any_state, retry_times, retry_budget, attempts_of, dead_of,
}
use mailproof.Queue.Transitions.{retry_next}
use mailproof.Queue.Repeats.{enqueue_twice, enqueue_other_delivery}
use mailproof.Tests.Samples.{empty_db, two_runs, sample_run, at}
use mailproof.Tests.Claims.{two_runs-Valid}

abbrev history : List Operation
history = claims "w1" analysis (at 100) (at 300) ∷ redelivers "r1" ∷ []

abbrev retried_history : List Call
retried_history =
    performs (claims "w1" analysis (at 100) (at 300))
    ∷ retries "r2" analysis (1 ∷ 2 ∷ []) (at 120) 3
    ∷ performs (claims "w2" analysis (at 200) (at 300))
    ∷ []

perform-Moves_example :
    Moves ◌⟶*◌ two_runs (perform (claims "w1" analysis (at 100) (at 300)) two_runs)
perform-Moves_example = perform-Moves (claims "w1" analysis (at 100) (at 300)) two_runs

calls-Valid_example : Valid (calls retried_history two_runs)
calls-Valid_example = calls-Valid retried_history two_runs two_runs-Valid

run_followed_example :
    (y : Run) × (find_row (has_run "r2") (operations history two_runs).runs ≡ some y)
    × Goes ◌⟶*◌ (sample_run "r2" "d2" queued 7) y
unfolding find_row
run_followed_example = run_followed history two_runs "r2" (sample_run "r2" "d2" queued 7) refl

abbrev finished_db : Db
finished_db = record two_runs { runs = sample_run "r1" "d1" complete 3 ∷ [] }

final_stays_example :
    (y : Run) × (find_row (has_run "r1") (operations history finished_db).runs ≡ some y)
    × (y.state ≡ complete)
unfolding find_row
final_stays_example =
    final_stays history finished_db "r1" (sample_run "r1" "d1" complete 3) refl refl

-- A complete run is queued again by a retry.
retry_any_state_example :
    ((retry "r1" report (1 ∷ []) (at 50) 3 finished_db).1 ≡ ok tt)
    × (y : Run) × (find_row (has_run "r1") (retry "r1" report (1 ∷ []) (at 50) 3 finished_db).0.runs
        ≡ some y)
    × Retried report 3 (sample_run "r1" "d1" complete 3) y
unfolding find_row
retry_any_state_example =
    retry_any_state "r1" report (1 ∷ []) (at 50) 3 finished_db (sample_run "r1" "d1" complete 3)
      refl

retry_budget_example :
    (y : Run) × (find_row (has_run "r1") (retry_times 3 "r1" report [] (at 50) 3 two_runs).runs
      ≡ some y)
    × (attempts_of report y ≡ attempts_of report (sample_run "r1" "d1" queued 10) + 3)
    × (y.state ≡ (
        if leb 3 (attempts_of report (sample_run "r1" "d1" queued 10) + 3)
        then dead_of report
        else retry_next report))
unfolding find_row
retry_budget_example =
    retry_budget 2 "r1" report [] (at 50) 3 two_runs (sample_run "r1" "d1" queued 10) refl

abbrev collected_once : Db
collected_once = (enqueue_collection "d3" "digest" "s3" "r3" (at 50) two_runs).0

enqueue_twice_example :
    enqueue_collection "d3" "digest" "s3" "r3" (at 60) collected_once ≡ (collected_once, ok tt)
unfolding enqueue_collection insert_delivery insert_run event_tx new_lifecycle insert_event key
    append_event any_row unix
enqueue_twice_example =
    enqueue_twice "d3" "digest" "s3" "r3" (at 50) (at 60) two_runs collected_once refl

enqueue_other_delivery_example :
    enqueue_collection "d9" "digest" "s1" "r9" (at 50) two_runs
    ≡ (two_runs, err foreign_key_violation)
unfolding any_row
enqueue_other_delivery_example =
    enqueue_other_delivery "d9" "digest" "s1" "r9" (at 50) two_runs refl refl refl

abbrev alice : ReportDestination
alice = record { submitter_id = "alice"; reply_address = "alice@example.org" }

destination_stable_example :
    report_destination_for_run "r2" (calls retried_history two_runs) ≡ ok alice
unfolding report_destination_for_run find_row
destination_stable_example = destination_stable retried_history "r2" two_runs alice refl

abbrev other_collector : String
other_collector = "c2"

collector_exclusive_example :
    let held = (acquire_collector_lease "c1" (at 10) (at 30) empty_db).0 in
    ((acquire_collector_lease "c1" (at 20) (at 30) held).1 ≡ true)
    × (other_collector ≢ "c1"
        → unix (at 20) ≤ unix (at 10 + at 30)
        → (acquire_collector_lease other_collector (at 20) (at 30) held ≡ (held, false))
          × (release_collector_lease other_collector held ≡ held))
unfolding acquire_collector_lease
collector_exclusive_example =
    collector_exclusive "c1" other_collector (at 10) (at 20) (at 30) (at 30) empty_db refl
