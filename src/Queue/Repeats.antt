-- ===== src/Queue/Repeats.antt =====
-- Collecting a message again is idempotent, and a source is bound to its first delivery.
use mailproof.Base.{
  ℕ, ◌+◌, String, true, false, ◌≡◌, refl, ap, ◌∙◌, sym, arith, Bool-cases, none, inl, inr, List, [],
  ◌∷◌, ◌++◌, any_row, any_row-append, str_eq_refl, is_empty, unix,
}
use mailproof.Database.{
  Db, Tx, Result, ok, err, Delivery, Run, EventRow, transaction, foreign_key_violation,
}
use mailproof.Database.Laws.{bind-ok}
use mailproof.Analytics.Event.{
  new_lifecycle, insert_event, key, append_event, same_source, last_id, dimensions_json,
  no_dimensions,
}
use mailproof.Queue.Events.{event_tx}
use mailproof.Queue.Frame.{event_tx-OnlyEvents}
use mailproof.Queue.Statements.{
  has_source, has_delivery, has_run, insert_delivery, insert_run, append_run, new_run,
}
use mailproof.Queue.Collections.{new_delivery, enqueue_statements, enqueue_collection}

abbrev accepted_row : String → ℕ → EventRow
accepted_row delivery now = record {
  event_id = 0;
  producer = "collector";
  source_type = "delivery";
  source_id = delivery;
  event_type = "subject_preflight";
  occurred_at = unix now;
  outcome = "accepted";
  dimension_key = dimensions_json no_dimensions;
  duration_ms = 0;
}

accepted_event :
    (delivery : String) (now : ℕ) (db : Db)
    → is_empty delivery ≡ false
    → event_tx "collector" "delivery" delivery "subject_preflight" "accepted" now db
      ≡ ok (tt, record db { events = append_event (accepted_row delivery now) db.events })
unfolding event_tx new_lifecycle insert_event key
accepted_event delivery now db h = rw (h, event_tx)

nameless_event :
    (now : ℕ) (db db' : Db) (delivery : String)
    → is_empty delivery ≡ true
    → event_tx "collector" "delivery" delivery "subject_preflight" "accepted" now db ≡ ok (tt, db')
    → ⊥
unfolding event_tx new_lifecycle
nameless_event now db db' delivery h e = ground (arith, h, e)

append_event_twice :
    (delivery : String) (now later : ℕ) (rows : List EventRow)
    → append_event (accepted_row delivery later) (append_event (accepted_row delivery now) rows)
      ≡ append_event (accepted_row delivery now) rows
unfolding append_event any_row
append_event_twice delivery now later rows =
    elim (Bool-cases (any_row (same_source (accepted_row delivery now)) rows)) [
      | inl e ↦ rw e (rw e)
      | inr e ↦
          let row = record (accepted_row delivery now) { event_id = last_id rows + 1 } in
          let found : any_row (same_source (accepted_row delivery later)) (rows ++ row ∷ [])
              ≡ true =
            any_row-append (same_source (accepted_row delivery later)) rows (row ∷ [])
            ∙ rw (e, str_eq_refl delivery) refl in
          rw e (rw found)
    ]

-- The event of a repeated collection is there already.
accepted_again :
    (delivery : String) (now later : ℕ) (db db' : Db)
    → event_tx "collector" "delivery" delivery "subject_preflight" "accepted" now db ≡ ok (tt, db')
    → event_tx "collector" "delivery" delivery "subject_preflight" "accepted" later db'
      ≡ ok (tt, db')
accepted_again delivery now later db db' h = elim (Bool-cases (is_empty delivery)) [
  | inl e ↦ absurd (nameless_event now db db' delivery e h)
  | inr e ↦
      let written = accepted_event delivery now db e in
      let after : db' ≡ record db { events = append_event (accepted_row delivery now) db.events } =
        ground (arith, h, written) in
      let kept : append_event (accepted_row delivery later) db'.events ≡ db'.events =
        ap (λ d. append_event (accepted_row delivery later) d.events) after
        ∙ append_event_twice delivery now later db.events
        ∙ sym (ap (λ d. d.events) after) in
      accepted_event delivery later db' e ∙ ap (λ k. ok (tt, record db' { events = k })) kept
]

delivered :
    (d : Delivery) (db db' : Db) (u : Unit {0})
    → insert_delivery d db ≡ ok (u, db')
    → (any_row (has_source d.source_key) db'.deliveries ≡ true) × (db'.runs ≡ db.runs)
unfolding insert_delivery any_row
delivered d db db' u h = (
  ground (
    arith,
    str_eq_refl d.source_key,
    any_row-append (has_source d.source_key) db.deliveries (d ∷ []),
  ),
  ground arith,
)

started_run :
    (r : Run) (db db' : Db) (u : Unit {0})
    → insert_run r db ≡ ok (u, db')
    → (any_row (has_run r.run_id) db'.runs ≡ true) × (db'.deliveries ≡ db.deliveries)
unfolding insert_run append_run any_row
started_run r db db' u h = (
  ground (arith, str_eq_refl r.run_id, any_row-append (has_run r.run_id) db.runs (r ∷ [])),
  ground arith,
)

delivery_again :
    (d : Delivery) (db : Db)
    → any_row (has_source d.source_key) db.deliveries ≡ true
    → insert_delivery d db ≡ ok (tt, db)
unfolding insert_delivery
delivery_again d db h = rw h

run_again :
    (r : Run) (db : Db) → any_row (has_run r.run_id) db.runs ≡ true → insert_run r db ≡ ok (tt, db)
unfolding insert_run
run_again r db h = rw h

committed_ok :
    (m : Tx (Unit {0})) (db db' : Db) → transaction m db ≡ (db', ok tt) → m db ≡ ok (tt, db')
committed_ok m db db' h = go (m db) refl
  where
    go : (r : Result (Unit {0} × Db)) → m db ≡ r → m db ≡ ok (tt, db')
    go (ok (tt, d)) e = ground (arith, e, h)
    go (err x) e = absurd (ground (arith, e, h))

-- Once a collection has succeeded, repeating it at any time succeeds and leaves the database as it
-- is.
pub enqueue_twice :
    (delivery digest source run : String) (now later : ℕ) (db db' : Db)
    → enqueue_collection delivery digest source run now db ≡ (db', ok tt)
    → enqueue_collection delivery digest source run later db' ≡ (db', ok tt)
unfolding enqueue_collection enqueue_statements
enqueue_twice delivery digest source run now later db db' h =
    let (a, db1, first, rest) =
      bind-ok (insert_delivery (new_delivery delivery digest source none now)) _ db tt db'
        (committed_ok (enqueue_statements delivery digest source run none now) db db' h) in
    let (b, db2, second, third) =
      bind-ok (insert_run (new_run run delivery now)) _ db1 tt db' rest in
    let (source_there, _) =
      delivered (new_delivery delivery digest source none now) db db1 a first in
    let (run_there, deliveries) = started_run (new_run run delivery now) db1 db2 b second in
    let only =
      event_tx-OnlyEvents "collector" "delivery" delivery "subject_preflight" "accepted" now db2 db'
        tt third in
    let one = delivery_again (new_delivery delivery digest source none later) db' (
      ap (λ d. any_row (has_source source) d.deliveries) only
      ∙ ap (any_row (has_source source)) deliveries
      ∙ source_there) in
    let two =
      run_again (new_run run delivery later) db'
        (ap (λ d. any_row (has_run run) d.runs) only ∙ run_there) in
    ground (arith, one, two, accepted_again delivery now later db2 db' third)

-- A source that is bound to a delivery cannot be collected under the identifier of a delivery that
-- does not exist, with a run that is not there yet: the collection fails on the foreign key of the
-- run and changes nothing.
pub enqueue_other_delivery :
    (delivery digest source run : String) (now : ℕ) (db : Db)
    → any_row (has_source source) db.deliveries ≡ true
    → any_row (has_delivery delivery) db.deliveries ≡ false
    → any_row (has_run run) db.runs ≡ false
    → enqueue_collection delivery digest source run now db ≡ (db, err foreign_key_violation)
unfolding enqueue_collection enqueue_statements insert_run append_run
enqueue_other_delivery delivery digest source run now db s d r =
    let one = delivery_again (new_delivery delivery digest source none now) db s in
    ground (arith, one, d, r)
