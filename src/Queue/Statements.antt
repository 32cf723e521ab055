-- ===== src/Queue/Statements.antt =====
-- internal/queue/queue.go: the INSERT statements of the collector's tables, with the keys of Migrate.
use mailproof.Base.{
  ℕ, String, Bool, true, ◌&&◌, [], ◌∷◌, ◌++◌, Option, none, some, if◌then◌else◌, str_eq, unix,
  any_row,
}
use mailproof.Database.{
  Db, Tx, ok, err, Delivery, Run, RunState, WorkItem, DecisionRecord, SubmissionDecision,
  SigningEntry, Submitter, unique_violation, foreign_key_violation,
}

-- A NULL refers to nothing.
abbrev pub known_submitter : Db → Option String → Bool
known_submitter db none = true
known_submitter db (some id) = any_row (λ (s : Submitter). str_eq s.submitter_id id) db.submitters

abbrev pub has_source : String → Delivery → Bool
has_source source_key d = str_eq d.source_key source_key

abbrev pub has_delivery : String → Delivery → Bool
has_delivery id d = str_eq d.delivery_id id

abbrev pub has_run : String → Run → Bool
has_run id r = str_eq r.run_id id

-- INSERT INTO deliveries … ON CONFLICT(source_key) DO NOTHING. SQLite tests the conflict that the
-- clause names before the other keys, and the foreign key at the statement's end.
unfoldable pub insert_delivery : Delivery → Tx (Unit {0})
insert_delivery d db =
    if any_row (has_source d.source_key) db.deliveries
    then ok (tt, db)
    else if any_row (has_delivery d.delivery_id) db.deliveries
    then err unique_violation
    else if known_submitter db d.submitter_id
    then ok (tt, record db { deliveries = db.deliveries ++ (d ∷ []) })
    else err foreign_key_violation

abbrev pub new_run : String → String → ℕ → Run
new_run run_id delivery_id now = record {
  run_id = run_id;
  delivery_id = delivery_id;
  state = RunState.queued;
  analysis_attempts = 0;
  report_attempts = 0;
  not_before = 0;
  lease_owner = none;
  lease_until = none;
  last_error = [];
  created_at = unix now;
}

unfoldable pub append_run : Run → Tx (Unit {0})
append_run r db =
    if any_row (has_delivery r.delivery_id) db.deliveries
    then ok (tt, record db { runs = db.runs ++ (r ∷ []) })
    else err foreign_key_violation

-- INSERT INTO runs … ON CONFLICT(run_id) DO NOTHING.
unfoldable pub insert_run : Run → Tx (Unit {0})
unfolding append_run
insert_run r db = if any_row (has_run r.run_id) db.runs then ok (tt, db) else append_run r db

unfoldable pub insert_decision : SubmissionDecision → Tx (Unit {0})
insert_decision d db =
    if any_row (λ (x : SubmissionDecision). str_eq x.decision_id d.decision_id) db.decisions
    then err unique_violation
    else if known_submitter db d.submitter_id
    then ok (tt, record db { decisions = db.decisions ++ (d ∷ []) })
    else err foreign_key_violation

abbrev pub has_decision : String → SubmissionDecision → Bool
has_decision id d = str_eq d.decision_id id

unfoldable pub insert_work : WorkItem → Tx (Unit {0})
insert_work w db =
    if any_row (λ (x : WorkItem). str_eq x.work_id w.work_id) db.work_items
    then err unique_violation
    else if any_row (has_decision w.decision_id) db.decisions
        && any_row (has_delivery w.delivery_id) db.deliveries
    then ok (tt, record db { work_items = db.work_items ++ (w ∷ []) })
    else err foreign_key_violation

abbrev pub has_record : String → DecisionRecord → Bool
has_record id d = str_eq d.decision_id id

abbrev pub known_delivery : Db → Option String → Bool
known_delivery db none = true
known_delivery db (some id) = any_row (has_delivery id) db.deliveries

-- INSERT INTO decision_records … ON CONFLICT(decision_id) DO NOTHING.
unfoldable pub insert_record : DecisionRecord → Tx (Unit {0})
insert_record d db =
    if any_row (has_record d.decision_id) db.decision_records
    then ok (tt, db)
    else if any_row (has_decision d.decision_id) db.decisions && known_delivery db d.delivery_id
    then ok (tt, record db { decision_records = db.decision_records ++ (d ∷ []) })
    else err foreign_key_violation

-- INSERT INTO decision_signing_outbox … ON CONFLICT(decision_id) DO NOTHING.
unfoldable pub insert_signing : SigningEntry → Tx (Unit {0})
insert_signing s db =
    if any_row (λ (x : SigningEntry). str_eq x.decision_id s.decision_id) db.signing_outbox
    then ok (tt, db)
    else if any_row (has_record s.decision_id) db.decision_records
    then ok (tt, record db { signing_outbox = db.signing_outbox ++ (s ∷ []) })
    else err foreign_key_violation
