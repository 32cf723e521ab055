-- ===== src/Database/Submissions.antt =====
-- internal/queue/queue.go, Migrate: the rows of submitters, of admission decisions and of the
-- records that are made of decisions. A digest or MAC is the text of its bytes.
use mailproof.Base.{ℕ, String, Bool, ◌==◌, Option, ◌≡◌, ◌↔◌, arith, true}

pub data Status : Type 0 where
  pending active revoked : Status

abbrev pub status_code : Status → ℕ
status_code pending = 0
status_code active = 1
status_code revoked = 2

abbrev pub status_eq : Status → Status → Bool
status_eq s t = status_code s == status_code t

pub status_eq_iff : (s t : Status) → (status_eq s t ≡ true) ↔ (s ≡ t)
status_eq_iff s t = ground arith

pub record Submitter : Type 0 where
  pub submitter_id : String
  pub canonical_address : String
  pub status : Status
  pub created_at : ℕ
  pub verified_at : Option ℕ
  pub revoked_at : Option ℕ
  pub policy_version : String
  pub minute_limit : ℕ
  pub hour_limit : ℕ
  pub day_limit : ℕ

pub record Challenge : Type 0 where
  pub challenge_id : String
  pub submitter_id : String
  pub code_digest : String
  pub created_at : ℕ
  pub expires_at : ℕ
  pub consumed_at : Option ℕ

pub record Capability : Type 0 where
  pub capability_id : String
  pub submitter_id : String
  pub digest : String
  pub key_id : String
  pub activated_at : ℕ
  pub revoked_at : Option ℕ

pub record SubmissionDecision : Type 0 where
  pub decision_id : String
  pub submitter_id : Option String
  pub capability_digest : Option String
  pub envelope_sender : String
  pub recipient : String
  pub peer_ip : String
  pub helo : String
  pub spf_outcome : String
  pub stage : String
  pub reason_code : String
  pub policy_version : String
  pub queue_id : Option String
  pub stamp_mac : Option String
  pub expires_at : Option ℕ
  pub consumed_at : Option ℕ
  pub created_at : ℕ
  pub applied_rule_id : String

pub record AdmissionEvent : Type 0 where
  pub decision_id : String
  pub submitter_id : String
  pub admitted_at : ℕ

-- canonical_json and canonical_digest are functions of the other columns and are left out.
pub record DecisionRecord : Type 0 where
  pub decision_id : String
  pub delivery_id : Option String
  pub submitter_id : Option String
  pub occurred_at : ℕ
  pub outcome : String
  pub stage : String
  pub reason_code : String
  pub policy_version : String
  pub applied_rule_id : String
  pub smtp_class : ℕ
  pub notarization_status : String

-- A new entry is pending; the columns of its lease keep their defaults.
pub record SigningEntry : Type 0 where
  pub decision_id : String
  pub state : String
  pub created_at : ℕ
