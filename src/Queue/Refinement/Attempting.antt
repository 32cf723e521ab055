-- ===== src/Queue/Refinement/Attempting.antt =====
-- The records of report attempts, as moves: they leave runs and deliveries alone.
use mailproof.Base.{
  ℕ, ◌+◌, String, ◌≡◌, refl, ap, ◌∙◌, arith, Bool-cases, not, inl, inr, ◌||◌, find_row, [], ◌∷◌,
  ◌++◌, update_rows, is_empty, str_eq,
}
use mailproof.Database.{Db, Result, ok, err, RunState}
use mailproof.Queue.Events.{event_tx}
use mailproof.Queue.Frame.{event_tx-OnlyEvents, OnlyEvents}
use mailproof.Queue.Collections.{ReportDestination}
use mailproof.Queue.Attempts.{
  begin_statements, begin_report_attempt, finish_statements, finish_report_attempt, finish_event,
  attempt_run, valid_outcome, last_attempt, attempt_source, started_attempt, open_attempt,
  close_attempt, has_attempt,
}
use mailproof.Queue.Lifecycle.{Moves, still}
use mailproof.Queue.Refinement.Inserts.{Apart, Steps, transaction-Moves, elsewhere_of}

begin_statements-ok :
    (run : String) (dest : ReportDestination) (now : ℕ) (db db' : Db) (id : ℕ)
    → begin_statements run dest now db ≡ ok (id, db')
    → let i = last_attempt db.attempts + 1 in
      event_tx "reporter" "run"
        (attempt_source run i "started")
        "report_delivery_state"
        "started"
        now
        (record db { attempts = db.attempts ++ (started_attempt i run dest now ∷ []) })
      ≡ ok (tt, db')
unfolding begin_statements
begin_statements-ok run dest now db db' id h = ground arith

abbrev begun : String → ReportDestination → ℕ → Db → Db
begun run dest now db =
    let i = last_attempt db.attempts + 1 in
    record db { attempts = db.attempts ++ (started_attempt i run dest now ∷ []) }

abbrev closed : ℕ → String → String → ℕ → Db → Db
closed id outcome error_class finished db = record db {
  attempts = update_rows (open_attempt id) (close_attempt outcome error_class finished) db.attempts;
}

finish_event-OnlyEvents :
    (id : ℕ) (outcome : String) (finished : ℕ) (r : Result String) (db db' : Db) (u : Unit {0})
    → finish_event id outcome finished r db ≡ ok (u, db')
    → OnlyEvents db db'
unfolding finish_event
finish_event-OnlyEvents id outcome finished (err x) db db' u h = absurd (cc)
finish_event-OnlyEvents id outcome finished (ok run) db db' u h =
    event_tx-OnlyEvents _ _ _ _ _ _ db db' u h

finish_statements-ok :
    (id : ℕ) (outcome error_class : String) (finished : ℕ) (db db' : Db) (u : Unit {0})
    → finish_statements id outcome error_class finished db ≡ ok (u, db')
    → let rows =
        update_rows (open_attempt id) (close_attempt outcome error_class finished) db.attempts in
      finish_event id outcome finished
        (attempt_run (find_row (has_attempt id) rows))
        (record db { attempts = rows })
      ≡ ok (u, db')
unfolding finish_statements
finish_statements-ok id outcome error_class finished db db' u h = ground arith

module _ (S : RunState → RunState → Type 0) where
  OnlyEvents-Apart : (base db db' : Db) → Apart base db → OnlyEvents db db' → Moves S base db'
  OnlyEvents-Apart base db db' (rs, ds) e =
      elsewhere_of (ap (λ d. d.runs) e ∙ rs) (ap (λ d. d.deliveries) e ∙ ds)

  pub begin_report_attempt-Moves :
      (run : String) (dest : ReportDestination) (now : ℕ) (db : Db)
      → Moves S db (begin_report_attempt run dest now db).0
  unfolding begin_report_attempt
  begin_report_attempt-Moves run dest now db =
      transaction-Moves S (begin_statements run dest now) db λ d d' id h.
        OnlyEvents-Apart d (begun run dest now d) d' (refl, refl)
          (event_tx-OnlyEvents _ _ _ _ _ _ (begun run dest now d) d' tt
            (begin_statements-ok run dest now d d' id h))

  finish_statements-Steps :
      (id : ℕ) (outcome error_class : String) (finished : ℕ)
      → Steps S (finish_statements id outcome error_class finished)
  finish_statements-Steps id outcome error_class finished d d' u h =
      OnlyEvents-Apart d (closed id outcome error_class finished d) d' (refl, refl)
        (finish_event-OnlyEvents id outcome finished _ (closed id outcome error_class finished d) d'
          u (finish_statements-ok id outcome error_class finished d d' u h))

  pub finish_report_attempt-Moves :
      (id : ℕ) (outcome error_class : String) (finished : ℕ) (db : Db)
      → Moves S db (finish_report_attempt id outcome error_class finished db).0
  unfolding finish_report_attempt
  finish_report_attempt-Moves id outcome error_class finished db =
      elim (Bool-cases (not (valid_outcome outcome))) [
        | inl e ↦ rw e still
        | inr e ↦ elim (Bool-cases (not (is_empty error_class || str_eq error_class "smtp"))) [
          | inl k ↦ rw (e, k) still
          | inr k ↦
              rw (e, k)
                (transaction-Moves S (finish_statements id outcome error_class finished) db
                  (finish_statements-Steps id outcome error_class finished))
        ]
      ]
