-- ===== src/Queue/CollectorLease.antt =====
-- internal/queue/queue.go: the lease that makes the collector a singleton.
use mailproof.Base.{
  ℕ, ◌+◌, String, Bool, true, false, ◌||◌, ltb, Option, none, some, if◌then◌else◌, str_eq, unix,
}
use mailproof.Database.{Db, CollectorLease}

-- The WHERE of the upsert: the row is absent, has run out, or is the caller's.
abbrev pub available : Option CollectorLease → String → ℕ → Bool
available none owner now = true
available (some l) owner now = ltb l.until (unix now) || str_eq l.owner owner

unfoldable pub acquire_collector_lease : String → ℕ → ℕ → Db → Db × Bool
acquire_collector_lease owner now duration db =
    if available db.collector_lease owner now
    then (
      record db {
        collector_lease = some (record { owner = owner; until = unix (now + duration) });
      },
      true,
    )
    else (db, false)

abbrev pub without_owner : Option CollectorLease → String → Option CollectorLease
without_owner none owner = none
without_owner (some l) owner = if str_eq l.owner owner then none else some l

unfoldable pub release_collector_lease : String → Db → Db
release_collector_lease owner db = record db {
  collector_lease = without_owner db.collector_lease owner;
}
