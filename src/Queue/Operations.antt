-- ===== src/Queue/Operations.antt =====
-- The operations of internal/queue as one type, and the histories of them.
use mailproof.Base.{ℕ, String, List, [], ◌∷◌}
use mailproof.Database.{Db, RunState}
use mailproof.Queue.Collections.{ReportDestination, enqueue_collection, enqueue_admitted_collection}
use mailproof.Queue.Rejections.{
  record_rejected_collection, record_admitted_rejected_collection_with_policy_rule,
  enqueue_verified_rejection_notification,
}
use mailproof.Queue.Claims.{Phase, claim}
use mailproof.Queue.Transitions.{
  finish_analysis_measured, finish_report, renew, retry, quarantine_reply, redeliver, replay,
}
use mailproof.Queue.Attempts.{begin_report_attempt, finish_report_attempt}
use mailproof.Queue.CollectorLease.{acquire_collector_lease, release_collector_lease}

-- Every operation but the retry.
pub data Operation : Type 0 where
  enqueues : String → String → String → String → ℕ → Operation
  enqueues_admitted : String → String → String → String → ReportDestination → ℕ → Operation
  rejects : String → String → String → String → String → ℕ → Operation
  rejects_admitted :
      String → String → String → String → String → ReportDestination → ℕ → String → ℕ → Operation
  notifies : String → String → String → ℕ → Operation
  acquires : String → ℕ → ℕ → Operation
  releases : String → Operation
  claims : String → Phase → ℕ → ℕ → Operation
  finishes_analysis : String → String → ℕ → ℕ → Operation
  finishes_report : String → String → RunState → ℕ → Operation
  renews : String → String → ℕ → Operation
  quarantines : String → String → List ℕ → ℕ → Operation
  redelivers : String → Operation
  replays : String → String → ℕ → Operation
  begins : String → ReportDestination → ℕ → Operation
  finishes : ℕ → String → String → ℕ → Operation

-- The database after an operation, whatever the operation returned.
unfoldable pub perform : Operation → Db → Db
perform (enqueues delivery digest source run now) db =
    (enqueue_collection delivery digest source run now db).0
perform (enqueues_admitted delivery digest source run dest now) db =
    (enqueue_admitted_collection delivery digest source run dest now db).0
perform (rejects delivery digest source decision reason now) db =
    (record_rejected_collection delivery digest source decision reason now db).0
perform (rejects_admitted delivery digest source decision reason dest version rule now) db =
    (record_admitted_rejected_collection_with_policy_rule delivery digest source decision reason
      dest version rule now db).0
perform (notifies decision delivery work now) db =
    (enqueue_verified_rejection_notification decision delivery work now db).0
perform (acquires owner now duration) db = (acquire_collector_lease owner now duration db).0
perform (releases owner) db = release_collector_lease owner db
perform (claims owner phase now lease) db = (claim owner phase now lease db).0
perform (finishes_analysis id owner duration clock) db =
    (finish_analysis_measured id owner duration clock db).0
perform (finishes_report id owner state clock) db = (finish_report id owner state clock db).0
perform (renews id owner until) db = (renew id owner until db).0
perform (quarantines id owner message clock) db = (quarantine_reply id owner message clock db).0
perform (redelivers id) db = (redeliver id db).0
perform (replays delivery run now) db = (replay delivery run now db).0
perform (begins run dest now) db = (begin_report_attempt run dest now db).0
perform (finishes id outcome error_class finished) db =
    (finish_report_attempt id outcome error_class finished db).0

-- A retry, or another operation.
pub data Call : Type 0 where
  retries : String → Phase → List ℕ → ℕ → ℕ → Call
  performs : Operation → Call

unfoldable pub call : Call → Db → Db
call (retries id phase message not_before max) db = (retry id phase message not_before max db).0
call (performs o) db = perform o db

unfoldable pub calls : List Call → Db → Db
calls [] db = db
calls (c ∷ cs) db = calls cs (call c db)

unfoldable pub operations : List Operation → Db → Db
operations [] db = db
operations (o ∷ os) db = operations os (perform o db)
