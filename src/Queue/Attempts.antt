-- ===== src/Queue/Attempts.antt =====
-- internal/queue/queue.go: the durable record of each attempt to deliver a report.
use mailproof.Base.{
  ℕ, ◌+◌, max, String, Bool, ◌&&◌, ◌||◌, not, ◌==◌, List, [], ◌∷◌, ◌++◌, Option, none, some,
  if◌then◌else◌, str_eq, is_empty, join, decimal, unix, any_row, count_rows, find_row, update_rows,
}
use mailproof.Database.{
  Db, Tx, Result, ok, err, Attempt, transaction, foreign_key_violation, invalid_outcome,
  invalid_error_class, attempt_not_active,
}
use mailproof.Queue.Events.{event_tx}
use mailproof.Queue.Statements.{has_run}
use mailproof.Queue.Collections.{ReportDestination}

unfoldable pub last_attempt : List Attempt → ℕ
last_attempt [] = 0
last_attempt (a ∷ as') = max a.attempt_id (last_attempt as')

abbrev pub started_attempt : ℕ → String → ReportDestination → ℕ → Attempt
started_attempt id run_id destination now = record {
  attempt_id = id;
  run_id = run_id;
  submitter_id = destination.submitter_id;
  reply_address = destination.reply_address;
  started_at = unix now;
  finished_at = none;
  outcome = "started";
  error_class = "";
}

-- fmt.Sprintf("%s:attempt:%d:%s").
unfoldable pub attempt_source : String → ℕ → String → String
attempt_source run_id id outcome =
    join run_id (join ":attempt:" (join (decimal id) (join ":" outcome)))

unfoldable pub begin_statements : String → ReportDestination → ℕ → Tx ℕ
begin_statements run_id destination now db =
    let id = last_attempt db.attempts + 1 in
    if any_row (has_run run_id) db.runs
    then elim (event_tx "reporter" "run" (attempt_source run_id id "started")
        "report_delivery_state" "started" now
        (record db {
          attempts = db.attempts ++ (started_attempt id run_id destination now ∷ []);
        })) [ err x ↦ err x | ok (u, db') ↦ ok (id, db') ]
    else err foreign_key_violation

unfoldable pub begin_report_attempt : String → ReportDestination → ℕ → Db → Db × Result ℕ
begin_report_attempt run_id destination now = transaction (begin_statements run_id destination now)

abbrev pub has_attempt : ℕ → Attempt → Bool
has_attempt id a = a.attempt_id == id

abbrev pub open_attempt : ℕ → Attempt → Bool
open_attempt id a = has_attempt id a && str_eq a.outcome "started"

abbrev pub close_attempt : String → String → ℕ → Attempt → Attempt
close_attempt outcome error_class finished a = record a {
  finished_at = some (unix finished);
  outcome = outcome;
  error_class = error_class;
}

-- SELECT run_id … WHERE attempt_id=?, which finds the row that was just updated.
unfoldable pub attempt_run : Option Attempt → Result String
attempt_run none = err attempt_not_active
attempt_run (some a) = ok a.run_id

unfoldable pub finish_event : ℕ → String → ℕ → Result String → Tx (Unit {0})
finish_event id outcome finished (err x) db = err x
finish_event id outcome finished (ok run_id) db =
    event_tx "reporter" "run" (attempt_source run_id id outcome) "report_delivery_state" outcome
      finished db

unfoldable pub finish_statements : ℕ → String → String → ℕ → Tx (Unit {0})
finish_statements id outcome error_class finished db =
    let rows =
      update_rows (open_attempt id) (close_attempt outcome error_class finished) db.attempts in
    if count_rows (open_attempt id) db.attempts == 1
    then finish_event id outcome finished (attempt_run (find_row (has_attempt id) rows))
        (record db { attempts = rows })
    else err attempt_not_active

unfoldable pub valid_outcome : String → Bool
valid_outcome outcome =
    str_eq outcome "accepted" || str_eq outcome "failed" || str_eq outcome "unknown"

unfoldable pub finish_report_attempt : ℕ → String → String → ℕ → Db → Db × Result (Unit {0})
finish_report_attempt id outcome error_class finished db =
    if not (valid_outcome outcome)
    then (db, err invalid_outcome)
    else if not (is_empty error_class || str_eq error_class "smtp")
    then (db, err invalid_error_class)
    else transaction (finish_statements id outcome error_class finished) db
