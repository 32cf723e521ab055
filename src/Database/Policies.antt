-- ===== src/Database/Policies.antt =====
-- internal/queue/queue.go, Migrate: the rows of policies and of the commands that change them. The
-- identifier of an audit event is its place in the list, and expires_at of it is written by no code.
use mailproof.Base.{ℕ, String, Bool, Option}

pub record PolicyVersion : Type 0 where
  pub version : ℕ
  pub created_at : ℕ
  pub command_id : String
  pub digest : String

pub record RuleRow : Type 0 where
  pub rule_id : String
  pub version : ℕ
  pub rule_type : String
  pub subject : String
  pub value : String
  pub enabled : Bool
  pub expires_at : Option ℕ
  pub created_at : ℕ

pub record ControlCommand : Type 0 where
  pub command_id : String
  pub idempotency_key : String
  pub command_type : String
  pub command_digest : String
  pub expected_version : ℕ
  pub result_version : ℕ
  pub result_code : String
  pub created_at : ℕ

pub record AuditEvent : Type 0 where
  pub command_id : String
  pub actor : String
  pub session_id : String
  pub command_type : String
  pub result_code : String
  pub before_digest : String
  pub after_digest : String
  pub reason : String
  pub created_at : ℕ

pub record ConfirmationToken : Type 0 where
  pub token_digest : String
  pub command_digest : String
  pub session_id : String
  pub expected_version : ℕ
  pub expires_at : ℕ
  pub consumed_at : Option ℕ
  pub command_json : String
  pub command_type : String
  pub command_id : String
  pub idempotency_key : String
  pub reason : String
  pub before_digest : String
