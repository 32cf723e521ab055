-- ===== src/Queue/Frame.antt =====
-- What an event changes: the table of events, and nothing else.
use mailproof.Base.{ℕ, String, ◌≡◌, refl, arith}
use mailproof.Database.{Db, Result, ok, err}
use mailproof.Analytics.Event.{Event, insert_event, new_lifecycle}
use mailproof.Queue.Events.{event_tx}

abbrev pub OnlyEvents : Db → Db → Type 0
OnlyEvents db db' = db' ≡ record db { events = db'.events }

pub insert_event-OnlyEvents :
    (e : Event) (db db' : Db) (u : Unit {0}) → insert_event e db ≡ ok (u, db') → OnlyEvents db db'
unfolding insert_event
insert_event-OnlyEvents e db db' u h = ground arith

pub event_tx-OnlyEvents :
    (producer source_type source_id event_type outcome : String) (now : ℕ) (db db' : Db)
    (u : Unit {0})
    → event_tx producer source_type source_id event_type outcome now db ≡ ok (u, db')
    → OnlyEvents db db'
unfolding event_tx
event_tx-OnlyEvents p t i y o now db db' u h = go (new_lifecycle p t i y o now) refl
  where
    go : (r : Result Event) → new_lifecycle p t i y o now ≡ r → OnlyEvents db db'
    go (ok e) q = insert_event-OnlyEvents e db db' u (ground (arith, h, q))
    go (err x) q = absurd (ground (arith, h, q))
