-- ===== src/Queue/Histories.antt =====
-- What holds after any history of the operations of internal/queue.
use mailproof.Base.{
  true_ne_false, ℕ, String, Bool, true, false, ◌≡◌, refl, ◌∙◌, sym, ap, arith, List, [], ◌∷◌,
  Evolves, Evolves-find, find_row, some, str_eq,
}
use mailproof.Database.{Db, Run, RunState, complete, reply_suppressed, analysis_dead}
use mailproof.Queue.Statements.{has_run}
use mailproof.Queue.CollectorLease.{acquire_collector_lease, release_collector_lease}
use mailproof.Queue.Lifecycle.{
  Move, Moves, still, after, updates, delivers, starts, elsewhere, Goes, ◌⟶◌, ◌⟶*◌, here, then,
  ⟶*-trans, Anywhere,
}
use mailproof.Queue.Lifecycle
use mailproof.Queue.Invariant.{Valid, Moves-Valid}
use mailproof.Queue.History.{Moves-runs}
use mailproof.Queue.Refinement.Inserts.{Moves-trans, elsewhere_of}
use mailproof.Queue.Refinement.Collecting.{
  enqueue_collection-Moves, enqueue_admitted_collection-Moves, record_rejected_collection-Moves,
  record_admitted_rejected-Moves, notification-Moves,
}
use mailproof.Queue.Refinement.Claiming.{claim-Moves}
use mailproof.Queue.Refinement.Working.{
  finish_analysis_measured-Moves, finish_report-Moves, renew-Moves, retry-Moves,
  quarantine_reply-Moves, redeliver-Moves, replay-Moves,
}
use mailproof.Queue.Refinement.Attempting.{begin_report_attempt-Moves, finish_report_attempt-Moves}
use mailproof.Queue.Operations.{
  Operation, enqueues, enqueues_admitted, rejects, rejects_admitted, notifies, acquires, releases,
  claims, finishes_analysis, finishes_report, renews, quarantines, redelivers, replays, begins,
  finishes, perform, Call, retries, performs, call, calls, operations,
}

acquire-Moves :
    (owner : String) (now duration : ℕ) (db : Db)
    → Moves ◌⟶*◌ db (acquire_collector_lease owner now duration db).0
unfolding acquire_collector_lease
acquire-Moves owner now duration db = elsewhere_of (ground arith) (ground arith)

release-Moves : (owner : String) (db : Db) → Moves ◌⟶*◌ db (release_collector_lease owner db)
unfolding release_collector_lease
release-Moves owner db = elsewhere_of refl refl

-- Every operation but the retry, whatever it returns, is a row of abstract moves along the edges
-- of the lifecycle.
pub perform-Moves : (o : Operation) (db : Db) → Moves ◌⟶*◌ db (perform o db)
unfolding perform
perform-Moves (enqueues d g s r now) db = enqueue_collection-Moves ◌⟶*◌ d g s r now db
perform-Moves (enqueues_admitted d g s r dest now) db =
    enqueue_admitted_collection-Moves ◌⟶*◌ d g s r dest now db
perform-Moves (rejects d g s x reason now) db =
    record_rejected_collection-Moves ◌⟶*◌ d g s x reason now db
perform-Moves (rejects_admitted d g s x reason dest version rule now) db =
    record_admitted_rejected-Moves ◌⟶*◌ d g s x reason dest version rule now db
perform-Moves (notifies x d w now) db = notification-Moves ◌⟶*◌ x d w now db
perform-Moves (acquires owner now duration) db = acquire-Moves owner now duration db
perform-Moves (releases owner) db = release-Moves owner db
perform-Moves (claims owner phase now lease) db = claim-Moves owner phase now lease db
perform-Moves (finishes_analysis id owner duration clock) db =
    finish_analysis_measured-Moves id owner duration clock db
perform-Moves (finishes_report id owner state clock) db =
    finish_report-Moves id owner state clock db
perform-Moves (renews id owner until) db = renew-Moves id owner until db
perform-Moves (quarantines id owner m clock) db = quarantine_reply-Moves id owner m clock db
perform-Moves (redelivers id) db = redeliver-Moves id db
perform-Moves (replays d r now) db = replay-Moves ◌⟶*◌ d r now db
perform-Moves (begins r dest now) db = begin_report_attempt-Moves ◌⟶*◌ r dest now db
perform-Moves (finishes id outcome e finished) db =
    finish_report_attempt-Moves ◌⟶*◌ id outcome e finished db

operations-Moves : (os : List Operation) (db : Db) → Moves ◌⟶*◌ db (operations os db)
unfolding operations
operations-Moves [] db = still
operations-Moves (o ∷ os) db = Moves-trans (perform-Moves o db) (operations-Moves os (perform o db))

call-Valid : (c : Call) (db : Db) → Valid db → Valid (call c db)
unfolding call
call-Valid (retries id phase m nb max) db h = Moves-Valid (retry-Moves id phase m nb max db) h
call-Valid (performs o) db h = Moves-Valid (perform-Moves o db) h

-- After any history of calls, retries included, from a consistent database: the keys of deliveries,
-- sources and runs are unique, every run belongs to a delivery, and a run has an owner and a
-- deadline exactly while its state is a leased one.
pub calls-Valid : (cs : List Call) (db : Db) → Valid db → Valid (calls cs db)
unfolding calls
calls-Valid [] db h = h
calls-Valid (c ∷ cs) db h = calls-Valid cs (call c db) (call-Valid c db h)

⟶*-history : (os : List Operation) (db : Db) → Evolves (Goes ◌⟶*◌) db.runs (operations os db).runs
⟶*-history os db = Moves-runs (λ s. here) (λ s t u h k. ⟶*-trans h k) (operations-Moves os db)

find-key : (id : String) (x y : Run) → Goes ◌⟶*◌ x y → has_run id y ≡ has_run id x
find-key id x y g = ap (λ k. str_eq k id) g.same_id

-- A run that is found before a history without retries is found after it, with the same identifier,
-- delivery and time of creation and with no attempt forgotten, and its state has moved along the
-- edges of the lifecycle.
pub run_followed :
    (os : List Operation) (db : Db) (id : String) (x : Run)
    → find_row (has_run id) db.runs ≡ some x
    → (y : Run) × (find_row (has_run id) (operations os db).runs ≡ some y) × Goes ◌⟶*◌ x y
run_followed os db id x e =
    Evolves-find (Goes ◌⟶*◌) (has_run id) db.runs (operations os db).runs x (find-key id)
      (⟶*-history os db) e

-- The states that no edge leaves.
abbrev pub is_final : RunState → Bool
is_final complete = true
is_final reply_suppressed = true
is_final analysis_dead = true
is_final _ = false

⟶-final : {s t : RunState} → s ⟶ t → is_final s ≡ false
⟶-final Lifecycle.lease_analysis = refl
⟶-final Lifecycle.expire_analysis = refl
⟶-final Lifecycle.finish_analysis = refl
⟶-final Lifecycle.lease_report = refl
⟶-final Lifecycle.expire_report = refl
⟶-final Lifecycle.finish_report = refl
⟶-final Lifecycle.suppress_report = refl
⟶-final Lifecycle.bury_report = refl
⟶-final Lifecycle.revive_report = refl

⟶*-final : {s t : RunState} → s ⟶* t → is_final s ≡ true → t ≡ s
⟶*-final here h = refl
⟶*-final (then e k) h = absurd (true_ne_false (sym h ∙ ⟶-final e))

-- A run that is complete, suppressed or dead in analysis keeps that state through every history
-- without retries.
pub final_stays :
    (os : List Operation) (db : Db) (id : String) (x : Run)
    → find_row (has_run id) db.runs ≡ some x
    → is_final x.state ≡ true
    → (y : Run) × (find_row (has_run id) (operations os db).runs ≡ some y) × (y.state ≡ x.state)
final_stays os db id x e f =
    let (y, found, g) = run_followed os db id x e in (y, found, ⟶*-final g.path f)
