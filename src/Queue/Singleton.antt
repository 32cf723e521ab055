-- ===== src/Queue/Singleton.antt =====
-- The collector is a singleton while its lease lasts.
use mailproof.Base.{ℕ, ◌+◌, ◌≤◌, String, true, false, ◌≡◌, ◌≢◌, arith, str_eq_iff, unix}
use mailproof.Database.{Db}
use mailproof.Queue.CollectorLease.{acquire_collector_lease, release_collector_lease}

-- Once a collector has acquired the lease: the same collector may acquire it again at any time. Until
-- the lease has run out every other collector is refused, and neither that call nor a release by
-- another collector changes the database.
pub collector_exclusive :
    (o1 o2 : String) (now1 now2 d1 d2 : ℕ) (db : Db)
    → (acquire_collector_lease o1 now1 d1 db).1 ≡ true
    → let held = (acquire_collector_lease o1 now1 d1 db).0 in
      ((acquire_collector_lease o1 now2 d2 held).1 ≡ true)
      × (o2 ≢ o1
          → unix now2 ≤ unix (now1 + d1)
          → (acquire_collector_lease o2 now2 d2 held ≡ (held, false))
            × (release_collector_lease o2 held ≡ held))
unfolding acquire_collector_lease release_collector_lease
collector_exclusive o1 o2 now1 now2 d1 d2 db h = (
  ground (arith, str_eq_iff o1 o1),
  λ other within. (ground (arith, str_eq_iff o1 o2), ground (arith, str_eq_iff o1 o2)),
)
