-- ===== src/Queue/Rejections.antt =====
-- internal/queue/queue.go: the transactions that record a post-DATA rejection.
use mailproof.Base.{ℕ, String, ltb, Option, none, some, if◌then◌else◌, join, decimal, unix}
use mailproof.Database.{
  Db, Tx, Result, err, WorkKind, WorkItem, SigningEntry, WorkItem, SigningEntry, DecisionRecord,
  SubmissionDecision, transaction, ◌>>◌, destination_required,
}
use mailproof.Queue.Events.{event_tx}
use mailproof.Queue.Statements.{
  insert_delivery, insert_decision, insert_work, insert_record, insert_signing,
}
use mailproof.Queue.Collections.{ReportDestination, new_delivery, incomplete}

-- The text of the policy version that a rejection carries.
abbrev pub policy_version_text : ℕ → String
policy_version_text version = if ltb 0 version then join "v" (decimal version) else "v1"

unfoldable pub rejection_decision : String → String → String → String → ℕ → SubmissionDecision
rejection_decision decision_id reason version rule_id now = record {
  decision_id = decision_id;
  submitter_id = none;
  capability_digest = none;
  envelope_sender = "";
  recipient = "";
  peer_ip = "";
  helo = "";
  spf_outcome = "";
  stage = "post_data";
  reason_code = reason;
  policy_version = version;
  queue_id = none;
  stamp_mac = none;
  expires_at = none;
  consumed_at = none;
  created_at = unix now;
  applied_rule_id = rule_id;
}

unfoldable pub rejection_record : String → String → String → String → String → ℕ → DecisionRecord
rejection_record decision_id delivery_id reason version rule_id now = record {
  decision_id = decision_id;
  delivery_id = some delivery_id;
  submitter_id = none;
  occurred_at = unix now;
  outcome = "rejected";
  stage = "post_data";
  reason_code = reason;
  policy_version = version;
  applied_rule_id = rule_id;
  smtp_class = 550;
  notarization_status = "queued";
}

unfoldable pub rejection_work : String → String → ℕ → WorkItem
rejection_work decision_id delivery_id now = record {
  work_id = join decision_id "-notarize";
  decision_id = decision_id;
  delivery_id = delivery_id;
  kind = WorkKind.notarize;
  created_at = unix now;
}

unfoldable pub pending_signature : String → ℕ → SigningEntry
pending_signature decision_id now = record {
  decision_id = decision_id;
  state = "pending";
  created_at = unix now;
}

-- The body of recordRejectedCollection, between BeginTx and Commit.
unfoldable pub reject_statements :
    String
    → String
    → String
    → String
    → String
    → Option ReportDestination
    → ℕ
    → String
    → ℕ
    → Tx (Unit {0})
reject_statements delivery_id digest source_key decision_id reason destination policy_version
      rule_id now =
    do
      insert_delivery (new_delivery delivery_id digest source_key destination now)
      let version = policy_version_text policy_version
      insert_decision (rejection_decision decision_id reason version rule_id now)
      insert_work (rejection_work decision_id delivery_id now)
      insert_record (rejection_record decision_id delivery_id reason version rule_id now)
      insert_signing (pending_signature decision_id now)
      event_tx "collector" "delivery" delivery_id "subject_preflight" reason now
      event_tx "reporter" "decision" (join decision_id ":signing") "rejection_delivery_state"
          "pending" now

unfoldable pub record_rejected_collection :
    String → String → String → String → String → ℕ → Db → Db × Result (Unit {0})
unfolding reject_statements
record_rejected_collection delivery_id digest source_key decision_id reason now =
    transaction (reject_statements delivery_id digest source_key decision_id reason none 0 "" now)

unfoldable pub record_admitted_rejected_collection_with_policy_rule :
    String
    → String
    → String
    → String
    → String
    → ReportDestination
    → ℕ
    → String
    → ℕ
    → Db
    → Db × Result (Unit {0})
unfolding reject_statements
record_admitted_rejected_collection_with_policy_rule delivery_id digest source_key decision_id
      reason destination policy_version rule_id now db =
    if incomplete destination
    then (db, err destination_required)
    else transaction
        (reject_statements delivery_id digest source_key decision_id reason (some destination)
          policy_version rule_id now)
        db

unfoldable pub record_admitted_rejected_collection :
    String → String → String → String → String → ReportDestination → ℕ → Db → Db × Result (Unit {0})
unfolding record_admitted_rejected_collection_with_policy_rule
record_admitted_rejected_collection delivery_id digest source_key decision_id reason destination
      now =
    record_admitted_rejected_collection_with_policy_rule delivery_id digest source_key decision_id
      reason destination 0 "" now

-- The body of EnqueueVerifiedRejectionNotification.
unfoldable pub notify_statements : String → String → String → ℕ → Tx (Unit {0})
unfolding insert_work
notify_statements decision_id delivery_id work_id now = do
  insert_work (record {
    work_id = work_id;
    decision_id = decision_id;
    delivery_id = delivery_id;
    kind = WorkKind.notify_verified_forwarder;
    created_at = unix now;
  })
  event_tx "reporter" "decision" work_id "rejection_delivery_state" "pending" now

unfoldable pub enqueue_verified_rejection_notification :
    String → String → String → ℕ → Db → Db × Result (Unit {0})
unfolding notify_statements
enqueue_verified_rejection_notification decision_id delivery_id work_id now =
    transaction (notify_statements decision_id delivery_id work_id now)
