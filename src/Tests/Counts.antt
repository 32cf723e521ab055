-- ===== src/Tests/Counts.antt =====
-- Rollups at concrete inputs.
use mailproof.Base.{any_row, ℕ, ◌+◌, ◌≡◌, refl, [], ◌∷◌, arith, unix}
use mailproof.Database.{Db, EventRow, Rollup, minute}
use mailproof.Analytics.Projector.{project_once, rebuild_window, within}
use mailproof.Analytics.Exact.{IsExact, project_once-IsExact, total, hits, passed}
use mailproof.Analytics.Rebuilt.{rebuild_window_lem}
use mailproof.Tests.Samples.{empty_db, at}

abbrev started : ℕ → ℕ → EventRow
started id time = record {
  event_id = id;
  producer = "queue";
  source_type = "run";
  source_id = "r";
  event_type = "run_started";
  occurred_at = time;
  outcome = "analysis";
  dimension_key = "{}";
  duration_ms = 0;
}

abbrev measured : Db
measured = record empty_db { events = started 1 100 ∷ started 2 110 ∷ [] }

measured-IsExact : IsExact measured
unfolding total hits passed
measured-IsExact = record { unique = tt; rising = omega arith; exact = λ k. refl }

project_once-IsExact_example : IsExact (project_once 1 measured).0
project_once-IsExact_example = project_once-IsExact 1 measured measured-IsExact

abbrev counted : Rollup
counted = record {
  bucket_start = 60;
  granularity = minute;
  metric = "run_started";
  outcome = "analysis";
  dimension_key = "{}";
  event_count = 2;
  source_high_watermark = 2;
}

abbrev projected : Db
projected = record measured { rollups = counted ∷ []; cursor = 2 }

rebuild_window_lem_example :
    total counted (rebuild_window (at 90) (at 115) projected).rollups
    ≡ total counted projected.rollups + hits counted (within (at 90) (at 115) projected.events)
unfolding unix any_row
rebuild_window_lem_example = rebuild_window_lem (at 90) (at 115) projected counted (refl, tt) refl
