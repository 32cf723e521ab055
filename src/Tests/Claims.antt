-- ===== src/Tests/Claims.antt =====
-- Claims on the sample database.
use mailproof.Base.{
  ℕ, ◌+◌, String, ◌≡◌, ◌≢◌, ◌⊎◌, refl, Option, some, find_row, arith, unix, any_row, count_rows,
  update_rows,
}
use mailproof.Database.{Db, Run, RunState, Result, ok, transaction}
use mailproof.Analytics.Event.{new_lifecycle, insert_event, key, append_event}
use mailproof.Queue.Events.{event_tx}
use mailproof.Queue.Statements.{has_run}
use mailproof.Queue.Claims.{
  analysis, Claimed, claim, claim_loop, take_run, recover, from_state, leased_state,
}
use mailproof.Queue.Invariant.{Valid}
use mailproof.Queue.Granting.{claim_lem}
use mailproof.Queue.Serving.{claim_serves, Idle, Granted}
use mailproof.Queue.Exclusion.{live_lease_kept}
use mailproof.Queue.Claims.{report}
use mailproof.Base.{◌∷◌, []}
use mailproof.Queue.Double.{no_double_claim, ClaimCall, claim_all}
use mailproof.Tests.Samples.{two_runs, sample_run, at}

pub two_runs-Valid : Valid two_runs
unfolding any_row
two_runs-Valid = record {
  runs_unique = (refl, (refl, tt));
  deliveries_unique = (refl, (refl, tt));
  sources_unique = (refl, (refl, tt));
  runs_delivered = (refl, (refl, tt));
  leases_sound = (
    record { owner_iff = refl; until_iff = refl },
    (record { owner_iff = refl; until_iff = refl }, tt),
  );
}

abbrev first_claim : Db × Result (Option Claimed)
first_claim = claim "w1" analysis (at 100) (at 300) two_runs

abbrev second_claim : Db × Result (Option Claimed)
second_claim = claim "w2" analysis (at 200) (at 300) first_claim.0

abbrev claimed : String → String → ℕ → Claimed
claimed id delivery until = record {
  id = id;
  delivery_id = delivery;
  state = RunState.analysis_leased;
  attempt = 0;
  lease_until = until;
}

-- The older run goes first.
first_claim_lem : first_claim.1 ≡ ok (some (claimed "r2" "d2" (at 400)))
unfolding claim claim_loop event_tx new_lifecycle insert_event key append_event any_row count_rows
    update_rows unix
first_claim_lem = refl

second_claim_lem : second_claim.1 ≡ ok (some (claimed "r1" "d1" (at 500)))
unfolding claim claim_loop event_tx new_lifecycle insert_event key append_event any_row count_rows
    update_rows unix
second_claim_lem = refl

abbrev idle_claim : ClaimCall
idle_claim = record { owner = "w3"; phase = report; now = at 150; lease = at 10 }

no_double_claim_example : (claimed "r1" "d1" (at 500)).id ≢ (claimed "r2" "d2" (at 400)).id
unfolding claim claim_loop event_tx new_lifecycle insert_event key append_event any_row count_rows
    update_rows unix claim_all
no_double_claim_example =
    no_double_claim "w1" "w2" analysis analysis (at 100) (at 200) (at 300) (at 300)
      (idle_claim ∷ []) two_runs first_claim.0 second_claim.0 (claimed "r2" "d2" (at 400))
      (claimed "r1" "d1" (at 500)) two_runs-Valid refl (omega arith, tt) refl (omega arith)

claim_lem_example :
    claim "w1" analysis (at 100) (at 300) two_runs
    ≡ transaction
        (take_run analysis
          (from_state analysis)
          (leased_state analysis)
          "w1"
          (at 100)
          (at 100 + at 300))
        (recover (at 100) two_runs)
claim_lem_example = claim_lem "w1" analysis (at 100) (at 300) two_runs refl

claim_serves_example :
    Idle analysis (at 100) two_runs first_claim
    ⊎ ((r : Run) × (db' : Db) × Granted "w1" analysis
          (at 100)
          (at 100 + at 300)
          two_runs
          first_claim
          r
          db')
claim_serves_example =
    claim_serves "w1" analysis (at 100) (at 300) two_runs refl two_runs-Valid (refl, (refl, tt))

abbrev leased_r2 : Run
leased_r2 = record (sample_run "r2" "d2" RunState.analysis_leased 7) {
  lease_owner = some "w1";
  lease_until = some 400;
}

live_lease_kept_example :
    find_row (has_run "r2") (claim "w2" analysis (at 200) (at 300) first_claim.0).0.runs
    ≡ some leased_r2
unfolding claim claim_loop event_tx new_lifecycle insert_event key append_event any_row count_rows
    update_rows unix find_row
live_lease_kept_example =
    live_lease_kept "w2" analysis (at 200) (at 300) first_claim.0 "r2" leased_r2 refl refl
