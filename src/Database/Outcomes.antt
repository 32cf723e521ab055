-- ===== src/Database/Outcomes.antt =====
-- internal/queue/queue.go, Migrate: the rows of results, and of the runs whose campaign is to be
-- projected. A submitter that is NULL is "", as every query reads it; a new entry of the outbox is
-- pending, and the columns of its lease keep their defaults.
use mailproof.Base.{ℕ, String}

pub record ResultRow : Type 0 where
  pub run_id : String
  pub delivery_id : String
  pub submitter_id : String
  pub occurred_at : ℕ
  pub verdict : String
  pub policy_version : String
  pub schema_version : String
  pub auth_scope : String
  pub selected_subject_status : String
  pub unavailable_analyzers : ℕ
  pub risk_summary : String
  pub category_summary : String
  pub manifest_digest : String
  pub manifest_path : String
  pub source_artifact_digests : String
  pub created_at : ℕ

pub record ProjectionEntry : Type 0 where
  pub run_id : String
  pub manifest_path : String
  pub manifest_digest : String
  pub created_at : ℕ
