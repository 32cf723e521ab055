-- ===== src/Database.antt =====
-- The SQLite database of internal/queue/queue.go, and the transactions of database/sql over it: a
-- transaction that ends in an error, or without a commit, leaves the database as it was.
-- What the disk or the driver may refuse by itself is not modelled; constraint failures are.
mod Runs
mod Submissions
mod Measurements
mod Policies
mod Outcomes
pub mod Laws
pub use Runs.*
pub use Submissions.*
pub use Measurements.*
pub use Policies.*
pub use Outcomes.*
use mailproof.Base.{ℕ, Bool, true, false, Option, List, ◌≡◌, ◌⊎◌, inl, inr, refl}

pub record Db : Type 0 where
  pub deliveries : List Delivery
  pub runs : List Run
  pub collector_lease : Option CollectorLease
  pub attempts : List Attempt
  pub work_items : List WorkItem
  pub submitters : List Submitter
  pub challenges : List Challenge
  pub capabilities : List Capability
  pub decisions : List SubmissionDecision
  pub admission_events : List AdmissionEvent
  pub decision_records : List DecisionRecord
  pub signing_outbox : List SigningEntry
  pub events : List EventRow
  pub cursor : ℕ
  pub rollups : List Rollup
  pub policy_versions : List PolicyVersion
  pub policy_rules : List RuleRow
  pub control_commands : List ControlCommand
  pub audit_events : List AuditEvent
  pub confirmation_tokens : List ConfirmationToken
  pub result_records : List ResultRow
  pub projection_outbox : List ProjectionEntry

-- The errors of the modelled code, one constructor for each message.
pub data Error : Type 0 where
  unique_violation foreign_key_violation : Error
  destination_required no_report_destination : Error
  invalid_outcome invalid_error_class attempt_not_active : Error
  unknown_phase claim_unfinished lease_not_owned invalid_terminal_state redelivery_refused : Error
  invalid_event invalid_dimension invalid_duration batch_out_of_range : Error
  invalid_address challenge_refused address_active mailer_required key_too_short : Error
  random_failed delivery_failed submitter_not_active capability_not_active : Error
  denied deferred malformed invalid_stamp : Error
  invalid_request preview_expired policy_version_conflict idempotency_replayed : Error
  unsupported_command no_policy_version : Error
  invalid_query conflicting_record : Error

pub data Result {ℓ} (A : Type ℓ) : Type ℓ where
  ok : A → Result A
  err : Error → Result A

-- A statement of a transaction: it fails, or gives a value and the database after it.
abbrev pub Tx : Type 0 → Type 0
Tx A = Db → Result (A × Db)

abbrev pub pure : {A : Type 0} → A → Tx A
pure a db = ok (a, db)

abbrev pub fail : {A : Type 0} → Error → Tx A
fail e db = err e

infixl 5 ◌>>=◌ ◌>>◌
abbrev pub ◌>>=◌ : {A B : Type 0} → Tx A → (A → Tx B) → Tx B
◌>>=◌ m f db = elim (m db) [ err e ↦ err e | ok (a, db') ↦ f a db' ]

abbrev pub ◌>>◌ : {B : Type 0} → Tx (Unit {0}) → Tx B → Tx B
m >> k = m >>= λ _. k

abbrev pub guard : Bool → Error → Tx (Unit {0})
guard true e = pure tt
guard false e = fail e

abbrev pub gets : {A : Type 0} → (Db → A) → Tx A
gets f db = ok (f db, db)

abbrev pub modify : (Db → Db) → Tx (Unit {0})
modify f db = ok (tt, f db)

abbrev pub committed : {A : Type 0} → Db → Result (A × Db) → Db × Result A
committed db (ok (a, db')) = (db', ok a)
committed db (err e) = (db, err e)

-- BeginTx, the statements, and Commit, or the deferred Rollback.
abbrev pub transaction : {A : Type 0} → Tx A → Db → Db × Result A
transaction m db = committed db (m db)

pub Result-cases {ℓ} :
    {A : Type ℓ} (r : Result A) → ((a : A) × (r ≡ ok a)) ⊎ ((e : Error) × (r ≡ err e))
Result-cases (ok a) = inl (a, refl)
Result-cases (err e) = inr (e, refl)
