-- ===== src/Queue/Destinations.antt =====
-- The report destination of a run is a snapshot: no later history changes it.
use mailproof.Base.{
  String, ◌≡◌, ap, ◌∙◌, some, Option-cases, inl, inr, List, [], ◌∷◌, Evolves-find, find_row, str_eq,
  arith,
}
use mailproof.Database.{Db, Run, Delivery, RunState, ok}
use mailproof.Queue.Statements.{has_run, has_delivery}
use mailproof.Queue.Collections.{ReportDestination, report_destination_for_run, destination_of}
use mailproof.Queue.Lifecycle.{
  Move, Moves, still, after, updates, delivers, starts, elsewhere, Goes, Anywhere,
}
use mailproof.Queue.History.{Moves-runs, Moves-deliveries, Kept}
use mailproof.Queue.Refinement.Inserts.{Moves-trans}
use mailproof.Queue.Refinement.Working.{retry-Moves}
use mailproof.Queue.Operations.{Call, retries, performs, call, calls}
use mailproof.Queue.Histories.{perform-Moves}

module _ {S : RunState → RunState → Type 0} where
  Goes-Anywhere : {x y : Run} → Goes S x y → Goes Anywhere x y
  Goes-Anywhere g = record {
    same_id = g.same_id;
    same_delivery = g.same_delivery;
    same_birth = g.same_birth;
    analysis_kept = g.analysis_kept;
    report_kept = g.report_kept;
    path = tt;
  }

  Move-Anywhere : {db db' : Db} → Move S db db' → Move Anywhere db db'
  Move-Anywhere (updates p f id del goes sound rs ds) =
      updates p f id del (λ x e. Goes-Anywhere (goes x e)) sound rs ds
  Move-Anywhere (delivers d source id rs ds) = delivers d source id rs ds
  Move-Anywhere (starts r id del state sound rs ds) = starts r id del state sound rs ds
  Move-Anywhere (elsewhere rs ds) = elsewhere rs ds

  Moves-Anywhere : {db db' : Db} → Moves S db db' → Moves Anywhere db db'
  Moves-Anywhere still = still
  Moves-Anywhere (after ms m) = after (Moves-Anywhere ms) (Move-Anywhere m)

call-Moves : (c : Call) (db : Db) → Moves Anywhere db (call c db)
unfolding call
call-Moves (retries id phase m nb max) db = retry-Moves id phase m nb max db
call-Moves (performs o) db = Moves-Anywhere (perform-Moves o db)

pub calls-Moves : (cs : List Call) (db : Db) → Moves Anywhere db (calls cs db)
unfolding calls
calls-Moves [] db = still
calls-Moves (c ∷ cs) db = Moves-trans (call-Moves c db) (calls-Moves cs (call c db))

-- A destination that is found was written with the delivery of the run.
found_destination :
    (run : String) (db : Db) (d : ReportDestination)
    → report_destination_for_run run db ≡ ok d
    → (r : Run) × (x : Delivery) × (find_row (has_run run) db.runs ≡ some r)
      × (find_row (has_delivery r.delivery_id) db.deliveries ≡ some x)
      × (destination_of (some x) ≡ ok d)
unfolding report_destination_for_run
found_destination run db d h = elim (Option-cases (find_row (has_run run) db.runs)) [
  | inl e ↦ absurd (ground (arith, e, h))
  | inr (r, e) ↦ elim (Option-cases (find_row (has_delivery r.delivery_id) db.deliveries)) [
    | inl k ↦ absurd (ground (arith, e, k, h))
    | inr (x, k) ↦ (r, x, e, k, ground (arith, e, k, h))
  ]
]

destination_found :
    (run : String) (db : Db) (d : ReportDestination) (r : Run) (x : Delivery)
    → find_row (has_run run) db.runs ≡ some r
    → find_row (has_delivery r.delivery_id) db.deliveries ≡ some x
    → destination_of (some x) ≡ ok d
    → report_destination_for_run run db ≡ ok d
unfolding report_destination_for_run
destination_found run db d r x e k h = ground (arith, e, k, h)

-- A run that has a report destination has that same destination after every history of calls,
-- retries included.
pub destination_stable :
    (cs : List Call) (run : String) (db : Db) (d : ReportDestination)
    → report_destination_for_run run db ≡ ok d
    → report_destination_for_run run (calls cs db) ≡ ok d
destination_stable cs run db d h =
    let (r, x, found, delivery, given) = found_destination run db d h in
    let (r', found', goes) =
      Evolves-find (Goes Anywhere) (has_run run) db.runs (calls cs db).runs r
        (λ a b g. ap (λ k. str_eq k run) g.same_id)
        (Moves-runs (λ s. tt) (λ s t u a b. tt) (calls-Moves cs db)) found in
    let (x', delivery', kept) =
      Evolves-find Kept (has_delivery r.delivery_id) db.deliveries (calls cs db).deliveries x
        (λ a b g. ap (has_delivery r.delivery_id) g) (Moves-deliveries (calls-Moves cs db))
        delivery in
    destination_found run (calls cs db) d r' x' found'
      (ap (λ k. find_row (has_delivery k) (calls cs db).deliveries) goes.same_delivery ∙ delivery')
      (ap (λ k. destination_of (some k)) kept ∙ given)
