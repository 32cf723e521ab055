-- ===== src/Database/Measurements.antt =====
-- internal/queue/queue.go, Migrate: the rows of the analytics tables. The schema version is always
-- 1, and payload_digest is a function of the other columns: both are left out.
use mailproof.Base.{ℕ, String, Bool, ◌==◌, ◌≡◌, ◌↔◌, arith, true}

pub record EventRow : Type 0 where
  pub event_id : ℕ
  pub producer : String
  pub source_type : String
  pub source_id : String
  pub event_type : String
  pub occurred_at : ℕ
  pub outcome : String
  pub dimension_key : String
  pub duration_ms : ℕ

pub data Granularity : Type 0 where
  minute hour day : Granularity

abbrev pub granularity_code : Granularity → ℕ
granularity_code minute = 0
granularity_code hour = 1
granularity_code day = 2

abbrev pub granularity_eq : Granularity → Granularity → Bool
granularity_eq g h = granularity_code g == granularity_code h

pub granularity_eq_iff : (g h : Granularity) → (granularity_eq g h ≡ true) ↔ (g ≡ h)
granularity_eq_iff g h = ground arith

pub record Rollup : Type 0 where
  pub bucket_start : ℕ
  pub granularity : Granularity
  pub metric : String
  pub outcome : String
  pub dimension_key : String
  pub event_count : ℕ
  pub source_high_watermark : ℕ
