-- ===== src/Queue/Refinement/Claiming.antt =====
-- Claim, as moves: a recovery for each expired lease, then the lease of one run.
use mailproof.Base.{
  sym, subst, ℕ, zero, suc, ◌+◌, String, true, false, ◌≡◌, refl, arith, ltb, ◌==◌, Bool-cases, some,
  inl, inr, count_rows, Option-cases,
}
use mailproof.Database.{
  Db, Run, RunState, queued, analysis_leased, report_pending, report_leased, state_eq_iff,
}
use mailproof.Queue.Claims.{
  Phase, analysis, report, other, is_leased, expired, requeue, requeued, recover, due, oldest,
  in_state, take_lease, mark_leased, phase_text, claimed_run, lease_run, take_run, claim_loop,
  claim,
}
use mailproof.Queue.Events.{event_tx}
use mailproof.Queue.Lifecycle.{
  Goes, updates, Moves, still, ◌⟶◌, ◌⟶*◌, here, one_edge, lease_analysis, lease_report,
  expire_analysis, expire_report,
}
use mailproof.Queue.Refinement.Inserts.{
  Steps, bind-Steps, pure-Steps, transaction-Moves, event_tx-Moves, one-Move, Moves-trans,
}

requeued-⟶* : (s : RunState) → s ⟶* requeued s
requeued-⟶* analysis_leased = one_edge expire_analysis
requeued-⟶* report_leased = one_edge expire_report
requeued-⟶* _ = here

requeued-free : (s : RunState) → is_leased (requeued s) ≡ false
requeued-free analysis_leased = refl
requeued-free _ = refl

requeue-Goes : (x : Run) → Goes ◌⟶*◌ x (requeue x)
requeue-Goes x = record {
  same_id = refl;
  same_delivery = refl;
  same_birth = refl;
  analysis_kept = omega arith;
  report_kept = omega arith;
  path = requeued-⟶* x.state;
}

pub recover-Moves : (now : ℕ) (db : Db) → Moves ◌⟶*◌ db (recover now db)
unfolding recover
recover-Moves now db = one-Move (
    updates (expired now) requeue (λ x. refl) (λ x. refl) (λ x e. requeue-Goes x)
      (λ x e h. record {
        owner_iff = sym (requeued-free x.state);
        until_iff = sym (requeued-free x.state);
      })
      refl refl)

module _ (from leased : RunState) (edge : from ⟶ leased) (busy : is_leased leased ≡ true) where
  take_lease-Goes :
      (owner id : String) (until : ℕ) (x : Run)
      → in_state id from x ≡ true
      → Goes ◌⟶*◌ x (take_lease leased owner until x)
  take_lease-Goes owner id until x e = record {
    same_id = refl;
    same_delivery = refl;
    same_birth = refl;
    analysis_kept = omega arith;
    report_kept = omega arith;
    path =
        subst (λ s. s ⟶* leased) (sym ((state_eq_iff x.state from).0 (ground arith)))
          (one_edge edge);
  }

  mark_leased-Steps :
      (owner : String) (until : ℕ) (r : Run) → Steps ◌⟶*◌ (mark_leased from leased owner until r)
  unfolding mark_leased
  mark_leased-Steps owner until r db db' u h = one-Move (
      updates (in_state r.run_id from) (take_lease leased owner until) (λ x. refl) (λ x. refl)
        (take_lease-Goes owner r.run_id until)
        (λ x e k. record { owner_iff = sym busy; until_iff = sym busy }) (ground arith)
        (ground arith))

  lease_run-Steps :
      (phase : Phase) (owner : String) (now until : ℕ) (r : Run)
      → Steps ◌⟶*◌ (lease_run phase from leased owner now until r)
  unfolding lease_run
  lease_run-Steps phase owner now until r db db' a h =
      elim (Bool-cases (count_rows (in_state r.run_id from) db.runs == 1)) [
        | inl e ↦
            bind-Steps ◌⟶*◌ (mark_leased from leased owner until r) _
              (mark_leased-Steps owner until r)
              (λ _.
                bind-Steps ◌⟶*◌
                  (event_tx "queue" "run" r.run_id "run_started" (phase_text phase) now) _
                  (event_tx-Moves ◌⟶*◌ "queue" "run" r.run_id "run_started" (phase_text phase) now)
                  (λ _. pure-Steps ◌⟶*◌ (some (claimed_run phase leased until r))))
              db db' a (rw e at h)
        | inr e ↦ subst (Moves ◌⟶*◌ db) (ground arith) still
      ]

  take_run-Steps :
      (phase : Phase) (owner : String) (now until : ℕ)
      → Steps ◌⟶*◌ (take_run phase from leased owner now until)
  unfolding take_run
  take_run-Steps phase owner now until db db' a h =
      elim (Option-cases (oldest (due from now) db.runs)) [
        | inl e ↦ subst (Moves ◌⟶*◌ db) (ground arith) still
        | inr (r, e) ↦ lease_run-Steps phase owner now until r db db' a (ground arith)
      ]

  claim_loop-Moves :
      (fuel : ℕ) (phase : Phase) (owner : String) (now until : ℕ) (db : Db)
      → Moves ◌⟶*◌ db (claim_loop fuel phase from leased owner now until db).0
  unfolding claim_loop
  claim_loop-Moves zero phase owner now until db = still
  claim_loop-Moves (suc fuel) phase owner now until db =
      elim (Bool-cases (ltb 0 (count_rows (expired now) db.runs))) [
        | inl e ↦ rw e (
            Moves-trans (recover-Moves now db)
              (claim_loop-Moves fuel phase owner now until (recover now db)))
        | inr e ↦ rw e (transaction-Moves ◌⟶*◌ _ db (take_run-Steps phase owner now until))
      ]

pub claim-Moves :
    (owner : String) (phase : Phase) (now lease : ℕ) (db : Db)
    → Moves ◌⟶*◌ db (claim owner phase now lease db).0
unfolding claim
claim-Moves owner analysis now lease db =
    claim_loop-Moves queued analysis_leased lease_analysis refl 2 analysis owner (now) (now + lease)
      db
claim-Moves owner report now lease db =
    claim_loop-Moves report_pending report_leased lease_report refl 2 report owner now (now + lease)
      db
claim-Moves owner other now lease db = still
