-- ===== src/Queue/Serving.antt =====
-- What a claim returns, on every branch.
use mailproof.Base.{
  ℕ, ◌+◌, String, Bool, true, false, ◌≡◌, refl, ◌∙◌, arith, ◌==◌, Option-cases, Option, none, some,
  inl, inr, ◌⊎◌, All, All-update, List, [], ◌∷◌, any_row, count_rows, update_rows, is_empty, unix,
}
use mailproof.Database.{Db, Result, ok, Run, EventRow, transaction}
use mailproof.Analytics.Event.{
  new_lifecycle, insert_event, key, append_event, dimensions_json, no_dimensions,
}
use mailproof.Queue.Events.{event_tx}
use mailproof.Queue.Invariant.{Valid, Moves-Valid}
use mailproof.Queue.Refinement.Claiming.{recover-Moves}
use mailproof.Queue.Claims.{
  Phase, Claimed, expired, requeue, recover, due, oldest, in_state, take_lease, mark_leased,
  lease_run, take_run, claim, from_state, leased_state, is_known, claimed_run, phase_text, analysis,
  report, other,
}
use mailproof.Queue.Granting.{claim_lem}
use mailproof.Queue.Choice.{NotBefore, oldest-due, oldest-none, oldest-first, one_row}

-- The row that the event of a claim writes.
abbrev pub started_row : String → Phase → ℕ → EventRow
started_row id phase now = record {
  event_id = 0;
  producer = "queue";
  source_type = "run";
  source_id = id;
  event_type = "run_started";
  occurred_at = unix now;
  outcome = phase_text phase;
  dimension_key = dimensions_json no_dimensions;
  duration_ms = 0;
}

-- The event of a claim is accepted for every run that has a name.
pub started :
    (id : String) (phase : Phase) (now : ℕ) (db : Db)
    → is_known phase ≡ true
    → is_empty id ≡ false
    → event_tx "queue" "run" id "run_started" (phase_text phase) now db
      ≡ ok (tt, record db { events = append_event (started_row id phase now) db.events })
unfolding event_tx new_lifecycle insert_event key
started id analysis now db k h = rw (h, event_tx)
started id report now db k h = rw (h, event_tx)
started id other now db k h = absurd (cc)

abbrev pub Named : Run → Type 0
Named r = is_empty r.run_id ≡ false

-- A claim that finds nothing due, and a claim that leases `r`.
pub record Idle (phase : Phase) (now : ℕ) (db : Db) (answer : Db × Result (Option Claimed))
    : Type 0 where
  pub none_due : any_row (due (from_state phase) now) (recover now db).runs ≡ false
  pub nothing : answer ≡ (recover now db, ok none)

pub record Granted (owner : String) (phase : Phase) (now until : ℕ) (db : Db)
    (answer : Db × Result (Option Claimed)) (r : Run) (db' : Db) : Type 0 where
  pub chosen : oldest (due (from_state phase) now) (recover now db).runs ≡ some r
  pub is_due : due (from_state phase) now r ≡ true
  pub first : All (NotBefore (due (from_state phase) now) r.created_at) (recover now db).runs
  pub given : answer ≡ (db', ok (some (claimed_run phase (leased_state phase) until r)))
  pub leased :
      db'.runs
      ≡ update_rows
          (in_state r.run_id (from_state phase))
          (take_lease (leased_state phase) owner until)
          (recover now db).runs

module _ (owner : String) (phase : Phase) (now until : ℕ) (known : is_known phase ≡ true) where
  serve_none :
      (db : Db)
      → oldest (due (from_state phase) now) db.runs ≡ none
      → transaction (take_run phase (from_state phase) (leased_state phase) owner now until) db
        ≡ (db, ok none)
  unfolding take_run
  serve_none db h = rw (h, take_run)

  serve_some :
      (db : Db) (r : Run)
      → oldest (due (from_state phase) now) db.runs ≡ some r
      → (count_rows (in_state r.run_id (from_state phase)) db.runs == 1) ≡ true
      → Named r
      → (db' : Db) × (transaction
            (take_run phase (from_state phase) (leased_state phase) owner now until)
            db
          ≡ (db', ok (some (claimed_run phase (leased_state phase) until r))))
        × (db'.runs
            ≡ update_rows
                (in_state r.run_id (from_state phase))
                (take_lease (leased_state phase) owner until)
                db.runs)
  unfolding take_run lease_run mark_leased
  serve_some db r h one named =
      let rows =
        update_rows (in_state r.run_id (from_state phase))
          (take_lease (leased_state phase) owner until) db.runs in
      let e = started r.run_id phase now (record db { runs = rows }) known named in
      (
        record db { runs = rows; events = append_event (started_row r.run_id phase now) db.events },
        ground (arith, h, one, e),
        refl,
      )

recover-Named : (now : ℕ) (db : Db) → All Named db.runs → All Named (recover now db).runs
unfolding recover
recover-Named now db h = All-update Named (expired now) requeue db.runs (λ x e k. k) h

oldest-Named :
    (p : Run → Bool) (rs : List Run) (r : Run) → All Named rs → oldest p rs ≡ some r → Named r
unfolding oldest
oldest-Named p [] r h e = absurd (cc)
oldest-Named p (x ∷ xs) r h e = elim (Option-cases (oldest p xs)) [
  | inl n ↦ ground (arith, h.0)
  | inr (y, s) ↦ ground (arith, h.0, oldest-Named p xs y h.1 s)
]

-- A claim for a phase that is known, at a consistent database whose runs have names: if no run is
-- due once expired leases are given back, it returns nothing and changes nothing more; otherwise it
-- returns the due run that was created first, and that run alone is leased, to the caller and until
-- the deadline.
pub claim_serves :
    (owner : String) (phase : Phase) (now lease : ℕ) (db : Db)
    → is_known phase ≡ true
    → Valid db
    → All Named db.runs
    → Idle phase now db (claim owner phase now lease db)
      ⊎ ((r : Run) × (db' : Db) × Granted owner phase now
            (now + lease)
            db
            (claim owner phase now lease db)
            r
            db')
claim_serves owner phase now lease db known valid named =
    elim (Option-cases (oldest (due (from_state phase) now) (recover now db).runs)) [
      | inl e ↦ inl (record {
        none_due = oldest-none (due (from_state phase) now) (recover now db).runs e;
        nothing =
            claim_lem owner phase now lease db known
            ∙ serve_none owner phase now (now + lease) known (recover now db) e;
      })
      | inr (r, e) ↦
          let base = recover now db in
          let keys = (Moves-Valid (recover-Moves now db) valid).runs_unique in
          let one = one_row (from_state phase) now base.runs r keys e in
          let name =
            oldest-Named (due (from_state phase) now) base.runs r (recover-Named now db named) e in
          let (db', given, leased) =
            serve_some owner phase now (now + lease) known base r e one name in
          inr (
            r,
            db',
            record {
              chosen = e;
              is_due = oldest-due (due (from_state phase) now) base.runs r e;
              first = oldest-first (due (from_state phase) now) base.runs r e;
              given = claim_lem owner phase now lease db known ∙ given;
              leased = leased;
            },
          )
    ]
