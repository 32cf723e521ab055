-- ===== src/Analytics/Projector.antt =====
-- internal/analytics/projector.go: ProjectOnce and RebuildWindow. The rows of analytics_events stand in
-- the order of their key, which is that of their insertion; times are not negative.
use mailproof.Base.{
  ℕ, ◌+◌, ◌-◌, ◌%◌, max, Bool, ◌&&◌, ◌||◌, ltb, leb, ◌==◌, List, [], ◌∷◌, ◌++◌, if◌then◌else◌,
  str_eq, take, length, any_row, update_rows, delete_rows, unix,
}
use mailproof.Database.{
  Db, Result, ok, err, EventRow, Rollup, Granularity, granularity_eq, minute, hour, day,
  batch_out_of_range,
}

abbrev pub seconds_of : Granularity → ℕ
seconds_of minute = 60
seconds_of hour = 3600
seconds_of day = 86400

-- Time.Truncate and Unix, at a time in seconds.
abbrev pub bucket : Granularity → ℕ → ℕ
bucket level t = t - t % seconds_of level

abbrev pub same_rollup : Rollup → Rollup → Bool
same_rollup a b =
    a.bucket_start == b.bucket_start
    && granularity_eq a.granularity b.granularity
    && str_eq a.metric b.metric
    && str_eq a.outcome b.outcome
    && str_eq a.dimension_key b.dimension_key

-- The row that one event inserts for a level.
unfoldable pub rollup_of : Granularity → EventRow → Rollup
rollup_of level e = record {
  bucket_start = bucket level e.occurred_at;
  granularity = level;
  metric = e.event_type;
  outcome = e.outcome;
  dimension_key = e.dimension_key;
  event_count = 1;
  source_high_watermark = e.event_id;
}

abbrev pub bumped : Rollup → Rollup → Rollup
bumped new r = record r {
  event_count = r.event_count + 1;
  source_high_watermark = max r.source_high_watermark new.source_high_watermark;
}

-- INSERT … ON CONFLICT DO UPDATE.
unfoldable pub upsert : Rollup → List Rollup → List Rollup
upsert new rs =
    if any_row (same_rollup new) rs
    then update_rows (same_rollup new) (bumped new) rs
    else rs ++ (new ∷ [])

-- The loop over the three levels.
unfoldable pub roll_up : EventRow → List Rollup → List Rollup
unfolding upsert
roll_up e rs = upsert (rollup_of day e) (upsert (rollup_of hour e) (upsert (rollup_of minute e) rs))

unfoldable pub roll_up_all : List EventRow → List Rollup → List Rollup
roll_up_all [] rs = rs
roll_up_all (e ∷ es) rs = roll_up_all es (roll_up e rs)

-- The events past the cursor.
unfoldable pub newer : ℕ → List EventRow → List EventRow
newer cursor [] = []
newer cursor (e ∷ es) = if ltb cursor e.event_id then e ∷ newer cursor es else newer cursor es

-- The cursor after a batch.
unfoldable pub last_of : ℕ → List EventRow → ℕ
last_of cursor [] = cursor
last_of cursor (e ∷ es) = last_of e.event_id es

abbrev pub batch_of : ℕ → Db → List EventRow
batch_of batch db = take batch (newer db.cursor db.events)

unfoldable pub project_once : ℕ → Db → Db × Result ℕ
project_once batch db = if ltb batch 1 || ltb 1000 batch then (db, err batch_out_of_range) else (
  record db {
    rollups = roll_up_all (batch_of batch db) db.rollups;
    cursor = last_of db.cursor (batch_of batch db);
  },
  ok (length (batch_of batch db)),
)

-- The DELETE of one level in a window.
abbrev pub in_buckets : Granularity → ℕ → ℕ → Rollup → Bool
in_buckets level from to r =
    granularity_eq r.granularity level
    && leb (bucket level (unix from)) r.bucket_start
    && ltb r.bucket_start (bucket level (unix to))

unfoldable pub cleared : ℕ → ℕ → List Rollup → List Rollup
cleared from to rs =
    delete_rows (in_buckets day from to)
      (delete_rows (in_buckets hour from to) (delete_rows (in_buckets minute from to) rs))

unfoldable pub within : ℕ → ℕ → List EventRow → List EventRow
within from to [] = []
within from to (e ∷ es) =
    if leb (unix from) e.occurred_at && ltb e.occurred_at (unix to)
    then e ∷ within from to es
    else within from to es

unfoldable pub rebuild_window : ℕ → ℕ → Db → Db
unfolding cleared within
rebuild_window from to db = record db {
  rollups = roll_up_all (within from to db.events) (cleared from to db.rollups);
}
