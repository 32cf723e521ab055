-- ===== src/Queue/Collections.antt =====
-- internal/queue/queue.go: the collector's transactions, and the report destination of a delivery.
use mailproof.Base.{
  ℕ, String, Bool, ◌&&◌, ◌||◌, ltb, List, Option, none, some, if◌then◌else◌, str_eq, is_empty, unix,
  find_row, count_rows,
}
use mailproof.Database.{
  Db, Tx, Result, ok, err, Delivery, Run, Submitter, Status, status_eq, transaction, ◌>>◌,
}
use mailproof.Database.{destination_required, no_report_destination}
use mailproof.Queue.Events.{event_tx}
use mailproof.Queue.Statements.{
  has_source, has_delivery, has_run, insert_delivery, new_run, insert_run,
}

pub record ReportDestination : Type 0 where
  pub submitter_id : String
  pub reply_address : String

abbrev pub snapshot_submitter : Option ReportDestination → Option String
snapshot_submitter none = none
snapshot_submitter (some d) = some d.submitter_id

abbrev pub snapshot_address : Option ReportDestination → Option String
snapshot_address none = none
snapshot_address (some d) = some d.reply_address

abbrev pub new_delivery : String → String → String → Option ReportDestination → ℕ → Delivery
new_delivery delivery_id digest source_key destination now = record {
  delivery_id = delivery_id;
  message_digest = digest;
  source_key = source_key;
  collected_at = unix now;
  submitter_id = snapshot_submitter destination;
  reply_address = snapshot_address destination;
}

-- The body of enqueueCollection, between BeginTx and Commit.
unfoldable pub enqueue_statements :
    String → String → String → String → Option ReportDestination → ℕ → Tx (Unit {0})
enqueue_statements delivery_id digest source_key run_id destination now = do
  insert_delivery (new_delivery delivery_id digest source_key destination now)
  insert_run (new_run run_id delivery_id now)
  event_tx "collector" "delivery" delivery_id "subject_preflight" "accepted" now

unfoldable pub enqueue_collection :
    String → String → String → String → ℕ → Db → Db × Result (Unit {0})
unfolding enqueue_statements
enqueue_collection delivery_id digest source_key run_id now =
    transaction (enqueue_statements delivery_id digest source_key run_id none now)

abbrev pub incomplete : ReportDestination → Bool
incomplete d = is_empty d.submitter_id || is_empty d.reply_address

unfoldable pub enqueue_admitted_collection :
    String → String → String → String → ReportDestination → ℕ → Db → Db × Result (Unit {0})
unfolding enqueue_statements
enqueue_admitted_collection delivery_id digest source_key run_id destination now db =
    if incomplete destination
    then (db, err destination_required)
    else transaction
        (enqueue_statements delivery_id digest source_key run_id (some destination) now) db

snapshot_of : Option Submitter → Result ReportDestination
snapshot_of none = err no_report_destination
snapshot_of (some s) =
    ok (record { submitter_id = s.submitter_id; reply_address = s.canonical_address })

-- The active submitter of that identifier.
unfoldable pub snapshot_report_destination : String → Db → Result ReportDestination
unfolding snapshot_of
snapshot_report_destination submitter_id db = snapshot_of (
    find_row
      (λ (s : Submitter). str_eq s.submitter_id submitter_id && status_eq s.status Status.active)
      db.submitters)

complete_destination : Option String → Option String → Result ReportDestination
complete_destination none address = err no_report_destination
complete_destination (some id) none = err no_report_destination
complete_destination (some id) (some address) =
    if is_empty id || is_empty address
    then err no_report_destination
    else ok (record { submitter_id = id; reply_address = address })

unfoldable pub destination_of : Option Delivery → Result ReportDestination
unfolding complete_destination
destination_of none = err no_report_destination
destination_of (some d) = complete_destination d.submitter_id d.reply_address

unfoldable pub delivery_of : Option Run → List Delivery → Option Delivery
delivery_of none deliveries = none
delivery_of (some r) deliveries = find_row (has_delivery r.delivery_id) deliveries

-- The join of the run with its delivery: both keys are unique.
unfoldable pub report_destination_for_run : String → Db → Result ReportDestination
unfolding destination_of delivery_of
report_destination_for_run run_id db =
    destination_of (delivery_of (find_row (has_run run_id) db.runs) db.deliveries)

unfoldable pub collected : String → Db → Bool
collected source_key db = ltb 0 (count_rows (has_source source_key) db.deliveries)
