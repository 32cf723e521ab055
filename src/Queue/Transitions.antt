-- ===== src/Queue/Transitions.antt =====
-- internal/queue/queue.go: how a leased run is renewed, finished, retried and ended, and how an
-- operator starts one again. A duration and `max` are not negative; `clock` is time.Now().
use mailproof.Base.{
  ℕ, ◌+◌, ◌/◌, String, ◌&&◌, ◌||◌, leb, ◌==◌, List, none, some, if◌then◌else◌, join, unix, take,
  any_row, count_rows, update_rows, Bool,
}
use mailproof.Database.{
  Db, Tx, Result, ok, err, Run, RunState, state_eq, state_text, transaction, modify, ◌>>◌,
}
use mailproof.Database.{
  queued, analysis_leased, report_pending, report_leased, complete, reply_suppressed, analysis_dead,
  report_dead, lease_not_owned, invalid_terminal_state, redelivery_refused, unique_violation,
}
use mailproof.Analytics.Event.{new_lifecycle, insert_event}
use mailproof.Queue.Events.{event_tx}
use mailproof.Queue.Statements.{has_run, new_run, append_run}
use mailproof.Queue.Claims.{Phase, report, is_leased, owned_by, in_state}

abbrev pub held : String → RunState → String → Run → Bool
held id from owner r = has_run id r && state_eq r.state from && owned_by r.lease_owner owner

abbrev pub release_to : RunState → Run → Run
release_to to r = record r { state = to; lease_owner = none; lease_until = none }

pub data Producer : Type 0 where
  reporter worker : Producer

abbrev pub producer_text : Producer → String
producer_text reporter = "reporter"
producer_text worker = "worker"

abbrev completion_type : Producer → String
completion_type reporter = "report_delivery_state"
completion_type worker = "run_completed"

-- The event of a transition, with the duration that was measured.
unfoldable pub measured_event : Producer → String → RunState → ℕ → ℕ → Tx (Unit {0})
measured_event producer id to duration clock db =
    elim (new_lifecycle (producer_text producer) "run" id (completion_type producer) (state_text to)
      clock) [
        | err x ↦ err x
        | ok e ↦ insert_event (record e { duration_ms = duration / 1000000 }) db
      ]

unfoldable pub transition_statements :
    String → String → RunState → RunState → Producer → ℕ → ℕ → Tx (Unit {0})
transition_statements id owner from to producer duration clock db =
    if count_rows (held id from owner) db.runs == 1
    then measured_event producer id to duration clock
        (record db { runs = update_rows (held id from owner) (release_to to) db.runs })
    else err lease_not_owned

-- transitionMeasured; `clock` is its time.Now().
unfoldable pub transition_measured :
    String → String → RunState → RunState → Producer → ℕ → ℕ → Db → Db × Result (Unit {0})
transition_measured id owner from to producer duration clock =
    transaction (transition_statements id owner from to producer duration clock)

unfoldable pub finish_analysis_measured : String → String → ℕ → ℕ → Db → Db × Result (Unit {0})
unfolding transition_measured
finish_analysis_measured id owner duration clock =
    transition_measured id owner analysis_leased report_pending worker duration clock

unfoldable pub finish_analysis : String → String → ℕ → Db → Db × Result (Unit {0})
unfolding finish_analysis_measured
finish_analysis id owner clock = finish_analysis_measured id owner 0 clock

-- Of the texts that are no state, none is a terminal state.
unfoldable pub finish_report : String → String → RunState → ℕ → Db → Db × Result (Unit {0})
unfolding transition_measured
finish_report id owner state clock db =
    if state_eq state complete || state_eq state reply_suppressed
    then transition_measured id owner report_leased state reporter 0 clock db
    else (db, err invalid_terminal_state)

abbrev pub renewable : String → String → Run → Bool
renewable id owner r = has_run id r && owned_by r.lease_owner owner && is_leased r.state

abbrev pub extend_lease : ℕ → Run → Run
extend_lease until r = record r { lease_until = some (unix until) }

-- The UPDATE and RowsAffected, outside a transaction.
unfoldable pub renew : String → String → ℕ → Db → Db × Result (Unit {0})
renew id owner until db = (
  record db { runs = update_rows (renewable id owner) (extend_lease until) db.runs },
  if count_rows (renewable id owner) db.runs == 1 then ok tt else err lease_not_owned,
)

abbrev pub truncated : List ℕ → List ℕ
truncated message = take 1024 message

abbrev pub retried_state : Phase → ℕ → Run → RunState
retried_state report max r = if leb max (r.report_attempts + 1) then report_dead else report_pending
retried_state _ max r = if leb max (r.analysis_attempts + 1) then analysis_dead else queued

-- The SET list of Retry.
abbrev pub retry_row : Phase → List ℕ → ℕ → ℕ → Run → Run
retry_row report message not_before max r = record r {
  state = retried_state report max r;
  report_attempts = r.report_attempts + 1;
  not_before = unix not_before;
  last_error = truncated message;
  lease_owner = none;
  lease_until = none;
}
retry_row phase message not_before max r = record r {
  state = retried_state phase max r;
  analysis_attempts = r.analysis_attempts + 1;
  not_before = unix not_before;
  last_error = truncated message;
  lease_owner = none;
  lease_until = none;
}

abbrev pub retry_next : Phase → RunState
retry_next report = report_pending
retry_next _ = queued

unfoldable pub retry_statements : String → Phase → List ℕ → ℕ → ℕ → Tx (Unit {0})
retry_statements id phase message not_before max = do
  modify (λ d. record d {
    runs = update_rows (has_run id) (retry_row phase message not_before max) d.runs;
  })
  event_tx "queue" "run" (join id (join ":" (state_text (retry_next phase)))) "run_lifecycle"
      (state_text (retry_next phase)) not_before

unfoldable pub retry : String → Phase → List ℕ → ℕ → ℕ → Db → Db × Result (Unit {0})
retry id phase message not_before max =
    transaction (retry_statements id phase message not_before max)

abbrev pub bury : List ℕ → Run → Run
bury message r = record r {
  state = report_dead;
  last_error = truncated message;
  lease_owner = none;
  lease_until = none;
}

unfoldable pub quarantine_statements : String → String → List ℕ → ℕ → Tx (Unit {0})
quarantine_statements id owner message clock db =
    if count_rows (held id report_leased owner) db.runs == 1
    then event_tx "reporter" "run" (join id ":quarantine") "report_delivery_state" "unknown" clock
        (record db { runs = update_rows (held id report_leased owner) (bury message) db.runs })
    else err lease_not_owned

unfoldable pub quarantine_reply : String → String → List ℕ → ℕ → Db → Db × Result (Unit {0})
quarantine_reply id owner message clock = transaction (quarantine_statements id owner message clock)

abbrev pub revive : Run → Run
revive r = record r {
  state = report_pending;
  not_before = 0;
  lease_owner = none;
  lease_until = none;
}

unfoldable pub redeliver : String → Db → Db × Result (Unit {0})
redeliver id db = (
  record db { runs = update_rows (in_state id report_dead) revive db.runs },
  if count_rows (in_state id report_dead) db.runs == 1 then ok tt else err redelivery_refused,
)

unfoldable pub replay_statements : String → String → ℕ → Tx (Unit {0})
replay_statements delivery_id run_id now db =
    if any_row (has_run run_id) db.runs
    then err unique_violation
    else append_run (new_run run_id delivery_id now) db

unfoldable pub replay : String → String → ℕ → Db → Db × Result (Unit {0})
replay delivery_id run_id now = transaction (replay_statements delivery_id run_id now)
