-- ===== src/Database/Runs.antt =====
-- internal/queue/queue.go, Migrate: the rows of the tables that the queue owns. A column that may
-- be NULL is an Option; the CHECK lists of texts are data types.
use mailproof.Base.{ℕ, String, Bool, ◌==◌, Option, List, ◌≡◌, ◌↔◌, arith, true}

pub data RunState : Type 0 where
  queued analysis_leased report_pending report_leased complete : RunState
  reply_suppressed analysis_dead report_dead : RunState

abbrev pub state_code : RunState → ℕ
state_code queued = 0
state_code analysis_leased = 1
state_code report_pending = 2
state_code report_leased = 3
state_code complete = 4
state_code reply_suppressed = 5
state_code analysis_dead = 6
state_code report_dead = 7

abbrev pub state_eq : RunState → RunState → Bool
state_eq s t = state_code s == state_code t

pub state_eq_iff : (s t : RunState) → (state_eq s t ≡ true) ↔ (s ≡ t)
state_eq_iff s t = ground arith

-- The text of a state, as an event's outcome carries it.
abbrev pub state_text : RunState → String
state_text queued = "queued"
state_text analysis_leased = "analysis_leased"
state_text report_pending = "report_pending"
state_text report_leased = "report_leased"
state_text complete = "complete"
state_text reply_suppressed = "reply_suppressed"
state_text analysis_dead = "analysis_dead"
state_text report_dead = "report_dead"

pub record Delivery : Type 0 where
  pub delivery_id : String
  pub message_digest : String
  pub source_key : String
  pub collected_at : ℕ
  pub submitter_id : Option String
  pub reply_address : Option String

pub record Run : Type 0 where
  pub run_id : String
  pub delivery_id : String
  pub state : RunState
  pub analysis_attempts : ℕ
  pub report_attempts : ℕ
  pub not_before : ℕ
  pub lease_owner : Option String
  pub lease_until : Option ℕ
  pub last_error : List ℕ
  pub created_at : ℕ

pub record CollectorLease : Type 0 where
  pub owner : String
  pub until : ℕ

-- postfix_queue_id is written by no code.
pub record Attempt : Type 0 where
  pub attempt_id : ℕ
  pub run_id : String
  pub submitter_id : String
  pub reply_address : String
  pub started_at : ℕ
  pub finished_at : Option ℕ
  pub outcome : String
  pub error_class : String

pub data WorkKind : Type 0 where
  notarize notify_verified_forwarder : WorkKind

-- A new item is pending; the columns of its lease keep their defaults.
pub record WorkItem : Type 0 where
  pub work_id : String
  pub decision_id : String
  pub delivery_id : String
  pub kind : WorkKind
  pub created_at : ℕ
