-- ===== src/Analytics/Rebuilt.antt =====
-- internal/analytics/projector.go: what RebuildWindow does in a window that lies within one minute.
use mailproof.Base.{
  ℕ, ◌+◌, ◌≡◌, refl, Bool, false, ◌&&◌, ltb, leb, List, [], ◌∷◌, arith, delete_rows, Unique, unix,
}
use mailproof.Database.{Db, Rollup, Granularity, granularity_eq, minute, hour, day}
use mailproof.Analytics.Projector.{same_rollup, bucket, in_buckets, cleared, within, rebuild_window}
use mailproof.Analytics.Exact.{total, hits, roll_up_all-Rolls}

delete_rows_none :
    (p : Rollup → Bool) (rs : List Rollup) → ((r : Rollup) → p r ≡ false) → delete_rows p rs ≡ rs
unfolding delete_rows
delete_rows_none p [] h = refl
delete_rows_none p (r ∷ rs) h = ground (arith, h r, delete_rows_none p rs h)

empty_window :
    (level : Granularity) (from to : ℕ) (r : Rollup)
    → bucket level (unix from) ≡ bucket level (unix to)
    → in_buckets level from to r ≡ false
empty_window level from to r h =
    window (bucket level (unix from)) (bucket level (unix to)) r.bucket_start
      (granularity_eq r.granularity level) h
  where
    window : (a b t : ℕ) (g : Bool) → a ≡ b → (g && leb a t && ltb t b) ≡ false
    window a b t g e = ground arith

same_hour : (s t : ℕ) → bucket minute s ≡ bucket minute t → bucket hour s ≡ bucket hour t
same_hour s t h = omega arith

same_day : (s t : ℕ) → bucket minute s ≡ bucket minute t → bucket day s ≡ bucket day t
same_day s t h = omega arith

-- A window whose ends lie in one minute deletes nothing: where the keys of the rollups are unique,
-- RebuildWindow then adds every event of the window to what the rollups already hold.
pub rebuild_window_lem :
    (from to : ℕ) (db : Db) (k : Rollup)
    → Unique same_rollup db.rollups
    → bucket minute (unix from) ≡ bucket minute (unix to)
    → total k (rebuild_window from to db).rollups
      ≡ total k db.rollups + hits k (within from to db.events)
unfolding rebuild_window cleared
rebuild_window_lem from to db k u h =
    rw
      (
        delete_rows_none (in_buckets minute from to) db.rollups
            (λ r. empty_window minute from to r h),
        delete_rows_none (in_buckets hour from to) db.rollups
            (λ r. empty_window hour from to r (same_hour (unix from) (unix to) h)),
        delete_rows_none (in_buckets day from to) db.rollups
            (λ r. empty_window day from to r (same_day (unix from) (unix to) h)),
      )
      (roll_up_all-Rolls k (within from to db.events) db.rollups u).more
