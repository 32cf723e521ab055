-- ===== src/Queue/Claims.antt =====
-- internal/queue/queue.go: Claim, which recovers expired leases and leases the oldest due run.
-- `Phase` stands for the texts "analysis", "report" and any other; a lease is not negative.
use mailproof.Base.{
  ℕ, zero, suc, ◌+◌, String, Bool, true, false, ◌&&◌, ◌||◌, ltb, leb, ◌==◌, List, [], ◌∷◌, Option,
  none, some, if◌then◌else◌, str_eq, unix, count_rows, update_rows,
}
use mailproof.Database.{Db, Tx, Result, ok, err, Run, RunState, state_eq, transaction, pure, ◌>>◌}
use mailproof.Database.{
  queued, analysis_leased, report_pending, report_leased, unknown_phase, claim_unfinished,
}
use mailproof.Queue.Events.{event_tx}
use mailproof.Queue.Statements.{has_run}

pub data Phase : Type 0 where
  analysis report other : Phase

abbrev pub phase_text : Phase → String
phase_text analysis = "analysis"
phase_text report = "report"
phase_text other = "other"

abbrev pub is_leased : RunState → Bool
is_leased s = state_eq s analysis_leased || state_eq s report_leased

-- A comparison with NULL does not hold.
abbrev pub until_before : Option ℕ → ℕ → Bool
until_before none t = false
until_before (some u) t = ltb u t

abbrev pub owned_by : Option String → String → Bool
owned_by none owner = false
owned_by (some o) owner = str_eq o owner

abbrev pub expired : ℕ → Run → Bool
expired now r = is_leased r.state && until_before r.lease_until (unix now)

-- The CASE of the recovery.
abbrev pub requeued : RunState → RunState
requeued analysis_leased = queued
requeued report_leased = report_pending
requeued s = s

abbrev pub requeue : Run → Run
requeue r = record r { state = requeued r.state; lease_owner = none; lease_until = none }

unfoldable pub recover : ℕ → Db → Db
recover now db = record db { runs = update_rows (expired now) requeue db.runs }

abbrev pub due : RunState → ℕ → Run → Bool
due from now r = state_eq r.state from && leb r.not_before (unix now)

abbrev pub earlier : Run → Option Run → Run
earlier x none = x
earlier x (some y) = if ltb y.created_at x.created_at then y else x

-- ORDER BY created_at LIMIT 1; of runs of one second the first inserted, where SQLite is free.
unfoldable pub oldest : (Run → Bool) → List Run → Option Run
oldest p [] = none
oldest p (x ∷ xs) = let rest = oldest p xs in if p x then some (earlier x rest) else rest

-- What Claim returns of a run.
pub record Claimed : Type 0 where
  pub id : String
  pub delivery_id : String
  pub state : RunState
  pub attempt : ℕ
  pub lease_until : ℕ

abbrev pub phase_attempts : Phase → Run → ℕ
phase_attempts report r = r.report_attempts
phase_attempts _ r = r.analysis_attempts

abbrev pub claimed_run : Phase → RunState → ℕ → Run → Claimed
claimed_run phase leased until r = record {
  id = r.run_id;
  delivery_id = r.delivery_id;
  state = leased;
  attempt = phase_attempts phase r;
  lease_until = until;
}

abbrev pub in_state : String → RunState → Run → Bool
in_state id s r = has_run id r && state_eq r.state s

abbrev pub take_lease : RunState → String → ℕ → Run → Run
take_lease leased owner until r = record r {
  state = leased;
  lease_owner = some owner;
  lease_until = some (unix until);
}

-- The UPDATE of the chosen run.
unfoldable pub mark_leased : RunState → RunState → String → ℕ → Run → Tx (Unit {0})
mark_leased from leased owner until r db = ok (
  tt,
  record db { runs = update_rows (in_state r.run_id from) (take_lease leased owner until) db.runs },
)

-- That UPDATE, its event, and the commit.
unfoldable pub lease_run : Phase → RunState → RunState → String → ℕ → ℕ → Run → Tx (Option Claimed)
unfolding mark_leased
lease_run phase from leased owner now until r db =
    if count_rows (in_state r.run_id from) db.runs == 1
    then (do
      mark_leased from leased owner until r
      event_tx "queue" "run" r.run_id "run_started" (phase_text phase) now
      pure (some (claimed_run phase leased until r)))
        db
    else ok (none, db)

unfoldable pub take_run : Phase → RunState → RunState → String → ℕ → ℕ → Tx (Option Claimed)
unfolding lease_run oldest
take_run phase from leased owner now until db = elim (oldest (due from now) db.runs) [
  | none ↦ ok (none, db)
  | some r ↦ lease_run phase from leased owner now until r db
]

-- Claim calls itself after it has recovered leases.
unfoldable pub claim_loop :
    ℕ → Phase → RunState → RunState → String → ℕ → ℕ → Db → Db × Result (Option Claimed)
unfolding recover take_run
claim_loop zero phase from leased owner now until db = (db, err claim_unfinished)
claim_loop (suc fuel) phase from leased owner now until db =
    let again = claim_loop fuel phase from leased owner now until (recover now db) in
    if ltb 0 (count_rows (expired now) db.runs)
    then again
    else transaction (take_run phase from leased owner now until) db

abbrev pub from_state : Phase → RunState
from_state report = report_pending
from_state _ = queued

abbrev pub leased_state : Phase → RunState
leased_state report = report_leased
leased_state _ = analysis_leased

abbrev pub is_known : Phase → Bool
is_known other = false
is_known _ = true

unfoldable pub claim : String → Phase → ℕ → ℕ → Db → Db × Result (Option Claimed)
claim owner phase now lease db =
    if is_known phase
    then claim_loop 2 phase (from_state phase) (leased_state phase) owner now (now + lease) db
    else (db, err unknown_phase)
