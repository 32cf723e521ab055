-- ===== src/Queue/Refinement/Working.antt =====
-- The operations of workers, the reporter and operators, as moves.
use mailproof.Base.{
  ℕ, String, Bool, true, false, ◌≡◌, refl, sym, subst, arith, List, update_rows, any_row, join,
}
use mailproof.Database.{
  Db, ok, Run, RunState, analysis_leased, report_pending, report_leased, report_dead, complete,
  reply_suppressed, state_eq_iff,
}
use mailproof.Queue.Events.{event_tx}
use mailproof.Queue.Frame.{insert_event-OnlyEvents, OnlyEvents}
use mailproof.Queue.Statements.{has_run, new_run, append_run}
use mailproof.Queue.Claims.{Phase, is_leased, in_state}
use mailproof.Queue.Transitions.{
  held, release_to, Producer, reporter, worker, measured_event, transition_statements,
  transition_measured, finish_analysis_measured, finish_report, renewable, extend_lease, renew,
  retry_row, retry_statements, retry, bury, quarantine_statements, quarantine_reply, revive,
  redeliver, replay_statements, replay,
}
use mailproof.Queue.Lifecycle.{
  LeaseSound, Goes, Move, updates, Moves, still, Anywhere, ◌⟶◌, ◌⟶*◌, here, one_edge,
}
use mailproof.Queue.Lifecycle
use mailproof.Queue.Refinement.Inserts.{
  transaction-Moves, event_tx-Moves, one-Move, Moves-trans, OnlyEvents-Moves, append_run-Moves,
}
use mailproof.Queue.Refinement.Collecting.{new_run-LeaseSound}

module _ (S : RunState → RunState → Type 0) where
  -- An update of runs to a state without a lease.
  freeing :
      (p : Run → Bool) (f : Run → Run)
      → ((x : Run) → (f x).run_id ≡ x.run_id)
      → ((x : Run) → (f x).delivery_id ≡ x.delivery_id)
      → ((x : Run) → p x ≡ true → Goes S x (f x))
      → ((x : Run) → LeaseSound (f x))
      → (db : Db) → Moves S db (record db { runs = update_rows p f db.runs })
  freeing p f id del goes sound db = one-Move (updates p f id del goes (λ x e h. sound x) refl refl)

release-Goes :
    (id owner : String) (from to : RunState)
    → from ⟶ to
    → (x : Run) → held id from owner x ≡ true
    → Goes ◌⟶*◌ x (release_to to x)
release-Goes id owner from to edge x e = record {
  same_id = refl;
  same_delivery = refl;
  same_birth = refl;
  analysis_kept = omega arith;
  report_kept = omega arith;
  path = subst (λ s. s ⟶* to) (sym ((state_eq_iff x.state from).0 (ground arith))) (one_edge edge);
}

measured_event-OnlyEvents :
    (producer : Producer) (id : String) (to : RunState) (duration clock : ℕ) (db db' : Db)
    (u : Unit {0})
    → measured_event producer id to duration clock db ≡ ok (u, db')
    → OnlyEvents db db'
unfolding measured_event
measured_event-OnlyEvents producer id to duration clock db db' u h =
    grind (arith, insert_event-OnlyEvents)

transition_statements-ok :
    (id owner : String) (from to : RunState) (producer : Producer) (duration clock : ℕ)
    (db db' : Db) (u : Unit {0})
    → transition_statements id owner from to producer duration clock db ≡ ok (u, db')
    → measured_event producer id to duration clock
        (record db { runs = update_rows (held id from owner) (release_to to) db.runs })
      ≡ ok (u, db')
unfolding transition_statements
transition_statements-ok id owner from to producer duration clock db db' u h = ground arith

transition-Moves :
    (id owner : String) (from to : RunState) (producer : Producer) (duration clock : ℕ) (db : Db)
    → from ⟶ to
    → is_leased to ≡ false
    → Moves ◌⟶*◌ db (transition_measured id owner from to producer duration clock db).0
unfolding transition_measured
transition-Moves id owner from to producer duration clock db edge free =
    transaction-Moves ◌⟶*◌ (transition_statements id owner from to producer duration clock) db
      λ d d' u h.
        Moves-trans
          (freeing ◌⟶*◌ (held id from owner) (release_to to) (λ x. refl) (λ x. refl)
            (release-Goes id owner from to edge)
            (λ x. record { owner_iff = sym free; until_iff = sym free }) d)
          (OnlyEvents-Moves ◌⟶*◌ (
            measured_event-OnlyEvents producer id to duration clock _ d' u
              (transition_statements-ok id owner from to producer duration clock d d' u h)))

pub finish_analysis_measured-Moves :
    (id owner : String) (duration clock : ℕ) (db : Db)
    → Moves ◌⟶*◌ db (finish_analysis_measured id owner duration clock db).0
unfolding finish_analysis_measured
finish_analysis_measured-Moves id owner duration clock db =
    transition-Moves id owner analysis_leased report_pending worker duration clock db
      Lifecycle.finish_analysis refl

pub finish_report-Moves :
    (id owner : String) (state : RunState) (clock : ℕ) (db : Db)
    → Moves ◌⟶*◌ db (finish_report id owner state clock db).0
unfolding finish_report
finish_report-Moves id owner complete clock db =
    transition-Moves id owner report_leased complete reporter 0 clock db Lifecycle.finish_report
      refl
finish_report-Moves id owner reply_suppressed clock db =
    transition-Moves id owner report_leased reply_suppressed reporter 0 clock db
      Lifecycle.suppress_report refl
finish_report-Moves id owner _ clock db = still

renew_sound :
    (id owner : String) (until : ℕ) (x : Run)
    → renewable id owner x ≡ true
    → LeaseSound x
    → LeaseSound (extend_lease until x)
renew_sound id owner until x e h = record { owner_iff = h.owner_iff; until_iff = ground arith }

pub renew-Moves :
    (id owner : String) (until : ℕ) (db : Db) → Moves ◌⟶*◌ db (renew id owner until db).0
unfolding renew
renew-Moves id owner until db = one-Move (
    updates (renewable id owner) (extend_lease until) (λ x. refl) (λ x. refl)
      (λ x e. record {
        same_id = refl;
        same_delivery = refl;
        same_birth = refl;
        analysis_kept = omega arith;
        report_kept = omega arith;
        path = here;
      })
      (renew_sound id owner until) refl refl)

retry_row-id :
    (phase : Phase) (m : List ℕ) (nb max : ℕ) (x : Run)
    → (retry_row phase m nb max x).run_id ≡ x.run_id
retry_row-id phase m nb max x = ground arith

retry_row-delivery :
    (phase : Phase) (m : List ℕ) (nb max : ℕ) (x : Run)
    → (retry_row phase m nb max x).delivery_id ≡ x.delivery_id
retry_row-delivery phase m nb max x = ground arith

retry_row-Goes :
    (phase : Phase) (m : List ℕ) (nb max : ℕ) (x : Run)
    → Goes Anywhere x (retry_row phase m nb max x)
retry_row-Goes phase m nb max x = record {
  same_id = retry_row-id phase m nb max x;
  same_delivery = retry_row-delivery phase m nb max x;
  same_birth = ground arith;
  analysis_kept = ground arith;
  report_kept = ground arith;
  path = tt;
}

retry_row_sound :
    (phase : Phase) (m : List ℕ) (nb max : ℕ) (x : Run) → LeaseSound (retry_row phase m nb max x)
retry_row_sound phase m nb max x = record { owner_iff = ground arith; until_iff = ground arith }

pub retry-Moves :
    (id : String) (phase : Phase) (m : List ℕ) (nb max : ℕ) (db : Db)
    → Moves Anywhere db (retry id phase m nb max db).0
unfolding retry retry_statements
retry-Moves id phase m nb max db =
    transaction-Moves Anywhere (retry_statements id phase m nb max) db λ d d' u h.
      Moves-trans
        (freeing Anywhere (has_run id) (retry_row phase m nb max) (retry_row-id phase m nb max)
          (retry_row-delivery phase m nb max) (λ x e. retry_row-Goes phase m nb max x)
          (retry_row_sound phase m nb max) d)
        (event_tx-Moves Anywhere _ _ _ _ _ _ _ d' u h)

quarantine_statements-ok :
    (id owner : String) (m : List ℕ) (clock : ℕ) (db db' : Db) (u : Unit {0})
    → quarantine_statements id owner m clock db ≡ ok (u, db')
    → event_tx "reporter" "run"
        (join id ":quarantine")
        "report_delivery_state"
        "unknown"
        clock
        (record db { runs = update_rows (held id report_leased owner) (bury m) db.runs })
      ≡ ok (u, db')
unfolding quarantine_statements
quarantine_statements-ok id owner m clock db db' u h = ground arith

bury-Goes :
    (id owner : String) (m : List ℕ) (x : Run)
    → held id report_leased owner x ≡ true
    → Goes ◌⟶*◌ x (bury m x)
bury-Goes id owner m x e = record {
  same_id = refl;
  same_delivery = refl;
  same_birth = refl;
  analysis_kept = omega arith;
  report_kept = omega arith;
  path =
      subst (λ s. s ⟶* report_dead) (sym ((state_eq_iff x.state report_leased).0 (ground arith)))
        (one_edge Lifecycle.bury_report);
}

pub quarantine_reply-Moves :
    (id owner : String) (m : List ℕ) (clock : ℕ) (db : Db)
    → Moves ◌⟶*◌ db (quarantine_reply id owner m clock db).0
unfolding quarantine_reply
quarantine_reply-Moves id owner m clock db =
    transaction-Moves ◌⟶*◌ (quarantine_statements id owner m clock) db λ d d' u h.
      Moves-trans
        (freeing ◌⟶*◌ (held id report_leased owner) (bury m) (λ x. refl) (λ x. refl)
          (bury-Goes id owner m) (λ x. record { owner_iff = refl; until_iff = refl }) d)
        (event_tx-Moves ◌⟶*◌ _ _ _ _ _ _ _ d' u
          (quarantine_statements-ok id owner m clock d d' u h))

revive-Goes : (id : String) (x : Run) → in_state id report_dead x ≡ true → Goes ◌⟶*◌ x (revive x)
revive-Goes id x e = record {
  same_id = refl;
  same_delivery = refl;
  same_birth = refl;
  analysis_kept = omega arith;
  report_kept = omega arith;
  path =
      subst (λ s. s ⟶* report_pending) (sym ((state_eq_iff x.state report_dead).0 (ground arith)))
        (one_edge Lifecycle.revive_report);
}

pub redeliver-Moves : (id : String) (db : Db) → Moves ◌⟶*◌ db (redeliver id db).0
unfolding redeliver
redeliver-Moves id db =
    freeing ◌⟶*◌ (in_state id report_dead) revive (λ x. refl) (λ x. refl) (revive-Goes id)
      (λ x. record { owner_iff = refl; until_iff = refl }) db

replay_statements-ok :
    (delivery run : String) (now : ℕ) (db db' : Db) (u : Unit {0})
    → replay_statements delivery run now db ≡ ok (u, db')
    → (any_row (has_run run) db.runs ≡ false)
      × (append_run (new_run run delivery now) db ≡ ok (u, db'))
unfolding replay_statements
replay_statements-ok delivery run now db db' u h = (ground arith, ground arith)

module _ (S : RunState → RunState → Type 0) where
  pub replay-Moves :
      (delivery run : String) (now : ℕ) (db : Db) → Moves S db (replay delivery run now db).0
  unfolding replay
  replay-Moves delivery run now db =
      transaction-Moves S (replay_statements delivery run now) db λ d d' u h.
        let (fresh, k) = replay_statements-ok delivery run now d d' u h in
        append_run-Moves S (new_run run delivery now) d d' u fresh refl
          (new_run-LeaseSound run delivery now) k
