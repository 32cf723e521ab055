-- ===== src/Queue/Events.antt =====
-- eventTx of internal/queue/queue.go.
use mailproof.Base.{ℕ, String}
use mailproof.Database.{Tx, ok, err}
use mailproof.Analytics.Event.{new_lifecycle, insert_event}

unfoldable pub event_tx : String → String → String → String → String → ℕ → Tx (Unit {0})
event_tx producer source_type source_id event_type outcome now db =
    elim (new_lifecycle producer source_type source_id event_type outcome now) [
      | err x ↦ err x
      | ok e ↦ insert_event e db
    ]
