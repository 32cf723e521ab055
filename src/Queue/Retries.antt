-- ===== src/Queue/Retries.antt =====
-- Retry: what it does to a run, and when a run is given up.
use mailproof.Base.{
  is_empty-join, ℕ, zero, suc, ◌+◌, ◌≤◌, leb, String, Bool, ◌≡◌, refl, ap, ◌∙◌, arith, Bool-cases,
  none, some, if◌then◌else◌, inl, inr, List, [], ◌∷◌, find_row, update_rows, str_eq, join, length,
  length-take-le, unix,
}
use mailproof.Database.{Db, ok, Run, RunState, state_text, EventRow, report_dead, analysis_dead}
use mailproof.Analytics.Event.{
  new_lifecycle, insert_event, key, append_event, dimensions_json, no_dimensions,
}
use mailproof.Queue.Events.{event_tx}
use mailproof.Queue.Statements.{has_run}
use mailproof.Queue.Claims.{Phase, report}
use mailproof.Queue.Transitions.{retry, retry_statements, retry_row, retry_next}

find-update_self :
    (p : Run → Bool) (f : Run → Run) (xs : List Run) (x : Run)
    → ((y : Run) → p (f y) ≡ p y)
    → find_row p xs ≡ some x
    → find_row p (update_rows p f xs) ≡ some (f x)
unfolding find_row update_rows
find-update_self p f [] x k h = absurd (cc)
find-update_self p f (y ∷ ys) x k h = elim (Bool-cases (p y)) [
  | inl e ↦ ground (arith, e, k y)
  | inr e ↦ ground (arith, e, find-update_self p f ys x k)
]

abbrev retried_event : String → Phase → ℕ → EventRow
retried_event id phase nb = record {
  event_id = 0;
  producer = "queue";
  source_type = "run";
  source_id = join id (join ":" (state_text (retry_next phase)));
  event_type = "run_lifecycle";
  occurred_at = unix nb;
  outcome = state_text (retry_next phase);
  dimension_key = dimensions_json no_dimensions;
  duration_ms = 0;
}

retry_event :
    (id : String) (phase : Phase) (nb : ℕ) (db : Db)
    → event_tx "queue" "run"
        (join id (join ":" (state_text (retry_next phase))))
        "run_lifecycle"
        (state_text (retry_next phase))
        nb
        db
      ≡ ok (tt, record db { events = append_event (retried_event id phase nb) db.events })
unfolding event_tx new_lifecycle insert_event key
retry_event id report nb db = rw (is_empty-join id ":report_pending" refl, event_tx)
retry_event id _ nb db = rw (is_empty-join id ":queued" refl, event_tx)

retry_lem :
    (id : String) (phase : Phase) (m : List ℕ) (nb max : ℕ) (db : Db)
    → ((retry id phase m nb max db).1 ≡ ok tt)
      × ((retry id phase m nb max db).0.runs
          ≡ update_rows (has_run id) (retry_row phase m nb max) db.runs)
unfolding retry retry_statements
retry_lem id phase m nb max db =
    let e =
      retry_event id phase nb
        (record db { runs = update_rows (has_run id) (retry_row phase m nb max) db.runs }) in
    (ground (arith, e), ground (arith, e))

abbrev pub attempts_of : Phase → Run → ℕ
attempts_of report r = r.report_attempts
attempts_of _ r = r.analysis_attempts

abbrev pub dead_of : Phase → RunState
dead_of report = report_dead
dead_of _ = analysis_dead

-- What a retry leaves of a run.
pub record Retried (phase : Phase) (max : ℕ) (x y : Run) : Type 0 where
  pub same_id : y.run_id ≡ x.run_id
  pub counted : attempts_of phase y ≡ attempts_of phase x + 1
  pub state : y.state ≡ (if leb max (attempts_of phase y) then dead_of phase else retry_next phase)
  pub no_owner : y.lease_owner ≡ none
  pub no_deadline : y.lease_until ≡ none
  pub error_bounded : length y.last_error ≤ 1024

retry_row-Retried :
    (phase : Phase) (m : List ℕ) (nb max : ℕ) (x : Run)
    → Retried phase max x (retry_row phase m nb max x)
retry_row-Retried report m nb max x = record {
  same_id = refl;
  counted = refl;
  state = refl;
  no_owner = refl;
  no_deadline = refl;
  error_bounded = length-take-le 1024 m;
}
retry_row-Retried _ m nb max x = record {
  same_id = refl;
  counted = refl;
  state = refl;
  no_owner = refl;
  no_deadline = refl;
  error_bounded = length-take-le 1024 m;
}

-- A retry of a run that exists succeeds whatever the run's state is and whoever holds its lease: it
-- counts the attempt, drops the lease, keeps at most 1024 bytes of the message, and leaves the run
-- dead if the count has reached the maximum, and in its queue otherwise.
pub retry_any_state :
    (id : String) (phase : Phase) (m : List ℕ) (nb max : ℕ) (db : Db) (x : Run)
    → find_row (has_run id) db.runs ≡ some x
    → ((retry id phase m nb max db).1 ≡ ok tt)
      × (y : Run) × (find_row (has_run id) (retry id phase m nb max db).0.runs ≡ some y)
      × Retried phase max x y
retry_any_state id phase m nb max db x h =
    let (done, rows) = retry_lem id phase m nb max db in
    (
      done,
      retry_row phase m nb max x,
      ap (find_row (has_run id)) rows
          ∙ find-update_self (has_run id) (retry_row phase m nb max) db.runs x
              (λ y. ap (λ k. str_eq k id) (retry_row-Retried phase m nb max y).same_id) h,
      retry_row-Retried phase m nb max x,
    )

-- The retries of one run, one after the other.
unfoldable pub retry_times : ℕ → String → Phase → List ℕ → ℕ → ℕ → Db → Db
retry_times zero id phase m nb max db = db
retry_times (suc n) id phase m nb max db =
    retry_times n id phase m nb max (retry id phase m nb max db).0

-- After n + 1 retries with one maximum, the run counts n + 1 more attempts, and it is dead exactly
-- if that count has reached the maximum.
pub retry_budget :
    (n : ℕ) (id : String) (phase : Phase) (m : List ℕ) (nb max : ℕ) (db : Db) (x : Run)
    → find_row (has_run id) db.runs ≡ some x
    → (y : Run) × (find_row (has_run id) (retry_times (suc n) id phase m nb max db).runs ≡ some y)
      × (attempts_of phase y ≡ attempts_of phase x + suc n)
      × (y.state
          ≡ (if leb max (attempts_of phase x + suc n) then dead_of phase else retry_next phase))
unfolding retry_times
retry_budget zero id phase m nb max db x h =
    let (done, y, found, r) = retry_any_state id phase m nb max db x h in
    (y, found, r.counted, ground (arith, r.state, r.counted))
retry_budget (suc n) id phase m nb max db x h =
    let (done, y, found, r) = retry_any_state id phase m nb max db x h in
    let (z, found', counted, state) =
      retry_budget n id phase m nb max (retry id phase m nb max db).0 y found in
    let e : attempts_of phase y + suc n ≡ attempts_of phase x + suc (suc n) =
      omega (arith, r.counted) in
    (
      z,
      found',
      counted ∙ e,
      state ∙ ap (λ k. if leb max k then dead_of phase else retry_next phase) e,
    )
